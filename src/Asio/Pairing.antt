-- ===== src/Asio/Pairing.antt =====
-- Which code the acceptor hands over with which connection.
use boost_cmt.Base.{
  ℕ, ◌≡◌, refl, List, [], ◌∷◌, Option, none, some, arith, if◌then◌else◌, ◌==◌, Bool-cases, inl, inr,
}
use boost_cmt.Asio.{listen}

-- The acceptor as a machine that remembers the code of an accept that failed: the connection after
-- it is handed over with that code, and the machine ends where the next accept fails too.
abbrev pub hands_over : ℕ → List (ℕ × ℕ) → List (ℕ × ℕ) × Option ℕ
hands_over code [] = ([], none)
hands_over code ((ec, sock) ∷ rest) =
    let after = hands_over 0 rest in
    let failed = hands_over ec rest in
    if ec == 0
    then ((sock, code) ∷ after.0, after.1)
    else if code == 0
    then failed
    else ([], some ec)

-- For every sequence of outcomes of async_accept, the loop of `listen` does what that machine does:
-- every connection is handed over once and in order, up to two failures in a row, which end the
-- loop; the code of a failure goes with the connection after it, and 0 with all others.
pub listen-hands_over : (outcomes : List (ℕ × ℕ)) → listen outcomes ≡ hands_over 0 outcomes
unfolding listen
listen-hands_over [] = refl
listen-hands_over ((ec, sock) ∷ []) = ground arith
listen-hands_over ((ec, sock) ∷ (ec2, sock2) ∷ rest) =
    let one = listen-hands_over ((ec2, sock2) ∷ rest) in
    let two = listen-hands_over rest in
    elim (Bool-cases (ec == 0)) [
      | inl e ↦ rw (e, listen, one) refl
      | inr e ↦ rw (e, listen, two) refl
    ]
