-- ===== src/Examples/Networking.antt =====
-- Tests of the acceptor.
use boost_cmt.Base.{◌≡◌, [], ◌∷◌, some}
use boost_cmt.Asio.Pairing.{hands_over}
use boost_cmt.Asio.Acceptor.{accepted, delete_acc, dangling}
use boost_cmt.Asio.Acceptor.Serve.{
  serve, stopped_by, calls_of, connected, listening, listen_on-hands_over, destroyed-dangles,
}

-- The handler 3 on the port 80: the accept of 5 fails with 9, and those of 6 and 7 succeed.
listen_on-hands_over_example :
    ((serve (listening 80 3) ((9, 5) ∷ (0, 6) ∷ (0, 7) ∷ [])).tasks
      ≡ calls_of (some 3) (hands_over 0 ((9, 5) ∷ (0, 6) ∷ (0, 7) ∷ [])).0)
    × (stopped_by (serve (listening 80 3) ((9, 5) ∷ (0, 6) ∷ (0, 7) ∷ [])).listener
        ≡ (hands_over 0 ((9, 5) ∷ (0, 6) ∷ (0, 7) ∷ [])).1)
listen_on-hands_over_example = listen_on-hands_over 80 3 ((9, 5) ∷ (0, 6) ∷ (0, 7) ∷ [])

-- Two connections, and then the accept is aborted with the code 125.
destroyed-dangles_example :
    (let d = delete_acc (serve (listening 80 3) (connected (6 ∷ 7 ∷ []))) in
      (accepted d.listener 125 0 d).listener)
    ≡ dangling
destroyed-dangles_example = destroyed-dangles 80 3 (6 ∷ 7 ∷ []) 125 0
