-- ===== src/Asio/Acceptor/Serve.antt =====
-- The connections that an acceptor hands over, and its destruction.
use mathlib.Core.List.{append_assoc, append-nil}
use boost_cmt.Base.{
  ℕ, ◌≡◌, refl, sym, ap, ◌∙◌, List, [], ◌∷◌, ◌++◌, Option, none, some, arith, true, false,
  if◌then◌else◌, ◌==◌, Bool-cases, inl, inr,
}
use boost_cmt.Asio.Pairing.{hands_over}
use boost_cmt.Asio.Acceptor.{
  opened, Listener, idle, posted, accepting, retrying, failed, dangling, Acceptor, new_acceptor,
  listen_on, call_accept, open_acc, start_listen, hand_over, accepted, delete_acc,
}

-- The accepts of a listener complete one after the other.
abbrev pub serve : Acceptor → List (ℕ × ℕ) → Acceptor
serve a [] = a
serve a ((ec, sock) ∷ rest) = serve (accepted a.listener ec sock a) rest

-- The code that left `listen`, if one did.
abbrev pub stopped_by : Listener → Option ℕ
stopped_by (failed code) = some code
stopped_by idle = none
stopped_by (posted port) = none
stopped_by accepting = none
stopped_by (retrying code) = none
stopped_by dangling = none

-- The calls of the handler `h` for these sockets and codes.
abbrev pub calls_of : Option ℕ → List (ℕ × ℕ) → List (Option ℕ × (ℕ × ℕ))
calls_of h [] = []
calls_of h (x ∷ rest) = (h, x) ∷ calls_of h rest

-- What a listener in a state does from now on.
record Serves (a : Acceptor) (out : List (ℕ × ℕ) × Option ℕ) (v : Acceptor) : Type 0 where
  handed : v.tasks ≡ a.tasks ++ calls_of a.new_connection out.0
  stopped : stopped_by v.listener ≡ out.1

-- In which `accept` a listener waits that gives the next connection this code.
abbrev pub waiting_with : ℕ → Listener
waiting_with code = if code == 0 then accepting else retrying code

waiting_first : (code : ℕ) → (code == 0) ≡ true → waiting_with code ≡ accepting
waiting_first code e = rw e refl

failed-serve :
    (a : Acceptor) (code : ℕ) (outcomes : List (ℕ × ℕ))
    → a.listener ≡ failed code
    → serve a outcomes ≡ a
unfolding accepted
failed-serve a code [] e = refl
failed-serve a code ((ec, sock) ∷ rest) e =
    ap (λ l. serve (accepted l ec sock a) rest) e ∙ failed-serve a code rest e

accepted-connected :
    (a : Acceptor) (p code ec sock : ℕ)
    → a.acc ≡ opened p
    → (ec == 0) ≡ true
    → accepted (waiting_with code) ec sock a ≡ record a {
      listener = accepting;
      tasks = a.tasks ++ ((a.new_connection, (sock, code)) ∷ []);
    }
unfolding accepted hand_over call_accept
accepted-connected a p code ec sock o z = elim (Bool-cases (code == 0)) [
  | inl e ↦
      let zero_code : code ≡ 0 = ground arith in
      ap (λ l. accepted l ec sock a) (waiting_first code e) ∙ rw (z, o, zero_code) refl
  | inr e ↦ rw (e, accepted, z, o) refl
]

accepted-retried :
    (a : Acceptor) (p ec sock : ℕ)
    → a.acc ≡ opened p
    → (ec == 0) ≡ false
    → accepted accepting ec sock a ≡ record a { listener = waiting_with ec }
unfolding accepted call_accept
accepted-retried a p ec sock o z = rw (z, o) refl

accepted-failed :
    (a : Acceptor) (code ec sock : ℕ)
    → (code == 0) ≡ false
    → (ec == 0) ≡ false
    → accepted (waiting_with code) ec sock a ≡ record a { listener = failed ec }
unfolding accepted
accepted-failed a code ec sock c z = rw (c, accepted, z) refl

calls_after :
    (a : Acceptor) (sock code : ℕ) (out : List (ℕ × ℕ) × Option ℕ) (v : Acceptor)
    → Serves
        (record a {
          listener = accepting;
          tasks = a.tasks ++ ((a.new_connection, (sock, code)) ∷ []);
        })
        out
        v
    → Serves a ((sock, code) ∷ out.0, out.1) v
calls_after a sock code out v s = record {
  handed =
      s.handed
      ∙ append_assoc a.tasks ((a.new_connection, (sock, code)) ∷ [])
          (calls_of a.new_connection out.0);
  stopped = s.stopped;
}

stopped_by_waiting : (code : ℕ) → stopped_by (waiting_with code) ≡ none
stopped_by_waiting code = elim (Bool-cases (code == 0)) [ inl e ↦ rw e refl | inr e ↦ rw e refl ]

serve-Serves :
    (a : Acceptor) (p code : ℕ) (outcomes : List (ℕ × ℕ))
    → a.acc ≡ opened p
    → a.listener ≡ waiting_with code
    → Serves a (hands_over code outcomes) (serve a outcomes)
serve-Serves a p code [] o e = record {
  handed = sym (append-nil a.tasks);
  stopped = ap stopped_by e ∙ stopped_by_waiting code;
}
serve-Serves a p code ((ec, sock) ∷ rest) o e =
    let next = ap (λ l. accepted l ec sock a) e in
    let connected = record a {
      listener = accepting;
      tasks = a.tasks ++ ((a.new_connection, (sock, code)) ∷ []);
    } in
    let again = serve-Serves (record a { listener = waiting_with ec }) p ec rest o refl in
    let after = serve-Serves connected p 0 rest o refl in
    elim (Bool-cases (ec == 0)) [
      | inl z ↦
          let stepped = next ∙ accepted-connected a p code ec sock o z in
          let v = serve connected rest in
          rw (z, stepped) (calls_after a sock code (hands_over 0 rest) v after)
      | inr z ↦ elim (Bool-cases (code == 0)) [
        | inl c ↦
            let first = ap (λ l. accepted l ec sock a) (waiting_first code c) in
            let stepped = next ∙ first ∙ accepted-retried a p ec sock o z in
            rw (z, c, stepped) (record { handed = again.handed; stopped = again.stopped })
        | inr c ↦
            let stepped = next ∙ accepted-failed a code ec sock c z in
            let left = failed-serve (record a { listener = failed ec }) ec rest refl in
            rw (z, c, stepped, left) (record { handed = sym (append-nil a.tasks); stopped = refl })
      ]
    ]

-- An acceptor that is told to listen, once its task has started and opened the port.
abbrev pub listening : ℕ → ℕ → Acceptor
listening port handler = let a = listen_on new_acceptor port handler in start_listen a.listener 0 a

-- For every sequence of outcomes of async_accept, an acceptor that was told to listen hands over
-- what the machine `hands_over` does, to the handler that it was given: every connection once and
-- in order, up to two failures in a row, which end the task of `listen` with the code of the
-- second; the code of a failure goes with the connection after it, and 0 with all others.
pub listen_on-hands_over :
    (port handler : ℕ) (outcomes : List (ℕ × ℕ))
    → ((serve (listening port handler) outcomes).tasks
        ≡ calls_of (some handler) (hands_over 0 outcomes).0)
      × (stopped_by (serve (listening port handler) outcomes).listener ≡ (hands_over 0 outcomes).1)
unfolding listen_on start_listen open_acc
listen_on-hands_over port handler outcomes =
    let s = serve-Serves (listening port handler) port 0 outcomes refl refl in (s.handed, s.stopped)

-- Accepts that all succeed, with these sockets.
abbrev pub connected : List ℕ → List (ℕ × ℕ)
connected [] = []
connected (sock ∷ rest) = (0, sock) ∷ connected rest

connected-accepting :
    (a : Acceptor) (p : ℕ) (socks : List ℕ)
    → a.acc ≡ opened p
    → a.listener ≡ accepting
    → (serve a (connected socks)).listener ≡ accepting
connected-accepting a p [] o e = e
connected-accepting a p (sock ∷ rest) o e =
    let stepped = ap (λ l. accepted l 0 sock a) e ∙ accepted-connected a p 0 0 sock o refl in
    let b = record a {
      listener = accepting;
      tasks = a.tasks ++ ((a.new_connection, (sock, 0)) ∷ []);
    } in
    rw (stepped, serve) (connected-accepting b p rest o refl)

dangles_after :
    (a : Acceptor) (ec sock : ℕ)
    → a.listener ≡ accepting
    → (accepted a.listener ec sock (delete_acc a)).listener ≡ dangling
unfolding delete_acc accepted hand_over call_accept
dangles_after a ec sock e = elim (Bool-cases (ec == 0)) [
  | inl z ↦ rw (e, accepted, z) refl
  | inr z ↦ rw (e, accepted, z) refl
]

-- The destruction of an acceptor that listens and has accepted any connections: however the accept
-- that it waits for then completes, also with the error that asio gives where the object is
-- deleted, `listen` calls `async_accept` on the deleted object.
pub destroyed-dangles :
    (port handler : ℕ) (socks : List ℕ) (ec sock : ℕ)
    → (let d = delete_acc (serve (listening port handler) (connected socks)) in
        (accepted d.listener ec sock d).listener)
      ≡ dangling
unfolding delete_acc listen_on start_listen open_acc
destroyed-dangles port handler socks ec sock =
    dangles_after (serve (listening port handler) (connected socks)) ec sock
      (connected-accepting (listening port handler) port socks refl refl)
