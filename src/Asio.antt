-- ===== src/Asio.antt =====
-- The wrappers of asynchronous operations in include/boost/cmt/asio.hpp and src/asio.cpp, the same
-- in src/asio/udp/socket.cpp, and the loop of src/asio/acceptor.cpp. An error code is a number, 0
-- being none; `system_error( ec )` is the exception of that number. A socket is a number.
pub mod Acceptor
pub mod Complete
pub mod Pairing
use boost_cmt.Base.{
  ℕ, zero, suc, ◌≡◌, List, [], ◌∷◌, ◌++◌, Option, none, some, Bool, true, false, if◌then◌else◌,
  ◌==◌,
}
use boost_cmt.Error.{Exception, other, Result, ok, throws}
use boost_cmt.Promise.{
  Promise, Entered, finished, blocks, empty, set_value, set_exception, wait_enter, wait_leave,
}

-- The new promise, and whether it notifies.
unfoldable pub read_write_handler : Promise ℕ → ℕ → ℕ → Promise ℕ × Bool
read_write_handler p ec n = if ec == 0 then set_value p n else set_exception p (other ec)

unfoldable pub error_handler : Promise ℕ → ℕ → Promise ℕ × Bool
error_handler p ec = set_value p ec

-- The promise and the variable that `read_write_handler_ec` writes to, one after the other.
pub record Completion : Type 0 where
  pub prom : Promise ℕ
  pub oec : ℕ

unfoldable pub handler_ec_value : Completion → ℕ → Completion
handler_ec_value c n = record c { prom = (set_value c.prom n).0 }

unfoldable pub handler_ec_code : Completion → ℕ → Completion
handler_ec_code c ec = record c { oec = ec }

unfoldable pub read_write_handler_ec : Completion → ℕ → ℕ → Completion
unfolding handler_ec_value handler_ec_code
read_write_handler_ec c ec n = handler_ec_code (handler_ec_value c n) ec

-- The loop that copies the endpoints.
unfoldable pub push_endpoints : List ℕ → List ℕ → List ℕ
push_endpoints eps [] = eps
push_endpoints eps (e ∷ itr) = push_endpoints (eps ++ (e ∷ [])) itr

unfoldable pub resolve_handler : Promise (List ℕ) → ℕ → List ℕ → Promise (List ℕ) × Bool
unfolding push_endpoints
resolve_handler p ec itr =
    if ec == 0 then set_value p (push_endpoints [] itr) else set_exception p (other ec)

module _ {A : Type 0} where
  abbrev pub entered : Entered A → Option (Result A)
  entered (finished r) = some r
  entered (blocks p) = none

  abbrev pub left : (Promise A → Promise A × Bool) → Entered A → Option (Result A)
  left handler (finished r) = some r
  left handler (blocks p) = some (wait_leave (handler p).0).1

  -- A new promise, an operation with the handler, and `wait` on the thread `self`: the completion
  -- comes before the call of `wait`, or while the context is blocked.
  unfoldable pub await : (Promise A → Promise A × Bool) → Bool → ℕ → Option (Result A)
  await handler true self = entered (wait_enter (handler empty).0 self)
  await handler false self = left handler (wait_enter empty self)

-- read, read_some, write and write_some, which differ in the operation of asio only: it completes
-- with an error code and a number of bytes.
unfoldable pub await_io : ℕ → ℕ → Bool → ℕ → Option (Result ℕ)
unfolding await read_write_handler
await_io ec n = await (λ p. read_write_handler p ec n)

-- tcp::accept and tcp::connect
unfoldable pub await_code : ℕ → Bool → ℕ → Option (Result ℕ)
unfolding await error_handler
await_code ec = await (λ p. error_handler p ec)

-- tcp::resolve and udp::resolve
unfoldable pub resolve : ℕ → List ℕ → Bool → ℕ → Option (Result (List ℕ))
unfolding await resolve_handler
resolve ec itr = await (λ p. resolve_handler p ec itr)

-- udp::receive_from: at the bytes available, the outcome of a synchronous receive, and that of the
-- asynchronous one.
unfoldable pub receive_from : ℕ → Result ℕ → ℕ → ℕ → Bool → ℕ → Option (Result ℕ)
unfolding await_io
receive_from available direct ec n early self =
    if available == 0 then await_io ec n early self else some direct

-- acceptor_private::accept, at the code of async_accept and the new socket.
unfoldable pub accept : ℕ → ℕ → Result ℕ
accept ec sock = if ec == 0 then ok sock else throws (other ec)

-- What the loop of acceptor_private::listen does with these outcomes of async_accept: the calls
-- `new_connection( socket, code )` that it posts, and the code that ends it, if one does.
unfoldable pub listen : List (ℕ × ℕ) → List (ℕ × ℕ) × Option ℕ
listen [] = ([], none)
listen ((ec, sock) ∷ []) = (if ec == 0 then (sock, 0) ∷ [] else [], none)
listen ((ec, sock) ∷ (ec2, sock2) ∷ rest) =
    let one = listen ((ec2, sock2) ∷ rest) in
    let two = listen rest in
    if ec == 0
    then ((sock, 0) ∷ one.0, one.1)
    else if ec2 == 0
    then ((sock2, ec) ∷ two.0, two.1)
    else ([], some ec2)
