-- ===== src/Streambuf.antt =====
-- basic_socket_streambuf of include/boost/cmt/asio/basic_socket_streambuf.hpp: the put and get areas
-- of a std::streambuf over a connection. A character is a number, and eof is none.
pub mod Connection
pub mod Overflow
pub mod Iostream
use boost_cmt.Base.{
  ℕ, zero, suc, ◌+◌, ◌-◌, ◌≡◌, List, [], ◌∷◌, ◌++◌, Option, none, some, Bool, true, false, drop,
  length, ◌==◌, ◌&&◌, if◌then◌else◌,
}
use boost_cmt.Error.{other, Result, ok, throws}
use boost_cmt.Streambuf.Connection.{Service}

-- The characters from gptr to egptr, those from pbase to pptr, and epptr - pptr. `stale` is the
-- character of `get_buffer_` after the putback area.
pub record Streambuf : Type 0 where
  pub get_area : List ℕ
  pub put_area : List ℕ
  pub room : ℕ
  pub stale : ℕ
  pub unbuffered : Bool

abbrev pub putback_max : ℕ
putback_max = 8

abbrev pub buffer_size : ℕ
buffer_size = 512

-- What a call returns, and the state after it.
pub record Reply (C R : Type 0) : Type 0 where
  pub value : R
  pub after : Streambuf
  pub conn : C

-- setp( put_buffer_.begin(), put_buffer_.end() ) or setp( 0, 0 )
unfoldable pub setp : ℕ → Streambuf → Streambuf
setp size s = record s { put_area = []; room = size }

unfoldable pub init_buffers : Streambuf → Streambuf
unfolding setp
init_buffers s = record (if s.unbuffered then setp 0 s else setp buffer_size s) { get_area = [] }

unfoldable pub setbuf : Streambuf → Bool → ℕ → Streambuf × Bool
unfolding setp
setbuf s is_null n =
    if (length s.put_area == 0) && (is_null && (n == 0))
    then (setp 0 (record s { unbuffered = true }), true)
    else (s, false)

-- The loop of resolve_and_connect, at the error code, and what the close before each endpoint and
-- the connect to it give: a close that fails throws out of the loop.
unfoldable pub try_endpoints : ℕ → List (ℕ × ℕ) → Result ℕ
try_endpoints ec [] = ok ec
try_endpoints ec ((closing, c) ∷ codes) =
    let rest = try_endpoints c codes in
    if ec == 0 then ok ec else if closing == 0 then rest else throws (other closing)

-- resolve_and_connect, at the code of the resolver; `host_not_found` is that of asio.
unfoldable pub resolve_and_connect : ℕ → ℕ → List (ℕ × ℕ) → Result ℕ
unfolding try_endpoints
resolve_and_connect host_not_found ec codes =
    if ec == 0 then try_endpoints host_not_found codes else ok ec

-- connect, at the code that the operation gives: whether a pointer is returned that is not null.
unfoldable pub connect : Streambuf → ℕ → Streambuf × Bool
unfolding init_buffers
connect s ec = (init_buffers s, ec == 0)

-- *gptr() after a receive
unfoldable pub first_char : ℕ → List ℕ → ℕ
first_char stale [] = stale
first_char stale (x ∷ bytes) = x

-- The code that the caller reads after its wait. The handler, read_write_handler_ec, sets the value
-- that wakes the caller before it stores the code: one that is not stored yet reads as 0.
abbrev pub code_seen : Bool → ℕ → ℕ
code_seen true ec = ec
code_seen false ec = 0

module _ (service : Service) where
  open service use {Conn, async_send, async_receive}

  -- The loop that sends the output buffer, at whether each of its rounds reads the code that was
  -- stored: whether all was sent, or none while it still runs after these rounds.
  unfoldable pub send_all : List Bool → Conn → List ℕ → Option (Bool × Conn)
  send_all stored c [] = some (true, c)
  send_all [] c (x ∷ bytes) = none
  send_all (b ∷ stored) c (x ∷ bytes) =
      let r = async_send c (x ∷ bytes) in
      let rest = send_all stored r.conn (drop r.bytes_transferred (x ∷ bytes)) in
      if code_seen b r.ec == 0 then rest else some (false, r.conn)

  -- What follows the loop, at its outcome.
  unfoldable pub refill_put :
      Streambuf → Option ℕ → Option (Bool × Conn) → Option (Reply Conn (Option ℕ))
  unfolding setp
  refill_put s ch none = none
  refill_put s ch (some (false, d)) = some (record { value = none; after = s; conn = d })
  refill_put s none (some (true, d)) =
      some (record { value = some 0; after = setp buffer_size s; conn = d })
  refill_put s (some ch) (some (true, d)) = some (record {
    value = some ch;
    after = record s { put_area = ch ∷ []; room = buffer_size - 1 };
    conn = d;
  })

  -- The one character of a buffer that is off, at whether the code read was stored.
  unfoldable pub send_char :
      Streambuf → Conn → List Bool → Option ℕ → Option (Reply Conn (Option ℕ))
  send_char s c stored none = some (record { value = some 0; after = s; conn = c })
  send_char s c [] (some ch) = none
  send_char s c (b ∷ stored) (some ch) =
      let r = async_send c (ch ∷ []) in
      some (record {
        value = if code_seen b r.ec == 0 then some ch else none;
        after = s;
        conn = r.conn;
      })

  -- not_eof( eof ) is 0.
  unfoldable pub overflow : Streambuf → Conn → List Bool → Option ℕ → Option (Reply Conn (Option ℕ))
  unfolding send_char refill_put send_all
  overflow s c stored ch =
      if s.unbuffered
      then send_char s c stored ch
      else refill_put s ch (send_all stored c s.put_area)

  unfoldable pub sync : Streambuf → Conn → List Bool → Option (Reply Conn (Option ℕ))
  sync s c stored = overflow s c stored none

  -- ~basic_socket_streambuf, before the areas are freed
  unfoldable pub destroy_streambuf : Streambuf → Conn → List Bool → Option (Reply Conn (Option ℕ))
  unfolding overflow
  destroy_streambuf s c stored =
      if length s.put_area == 0
      then some (record { value = some 0; after = s; conn = c })
      else overflow s c stored none

  -- At the characters of the get area, and whether the code read was stored.
  unfoldable pub receive_more : List ℕ → Streambuf → Conn → Bool → Reply Conn (Option ℕ)
  unfolding first_char
  receive_more [] s c b =
      let r = async_receive c (buffer_size - putback_max) in
      if code_seen b r.ec == 0
      then record {
        value = some (first_char s.stale r.bytes);
        after = record s { get_area = r.bytes; stale = first_char s.stale r.bytes };
        conn = r.conn;
      }
      else record { value = none; after = s; conn = r.conn }
  receive_more (x ∷ bytes) s c b = record { value = none; after = s; conn = c }

  unfoldable pub underflow : Streambuf → Conn → Bool → Reply Conn (Option ℕ)
  unfolding receive_more
  underflow s c b = receive_more s.get_area s c b

  abbrev pub closed : ℕ → Option (Reply Conn (Option ℕ)) → Option (Reply Conn Bool)
  closed ec none = none
  closed ec (some r) = some (record {
    value = ec == 0;
    after = if ec == 0 then init_buffers r.after else r.after;
    conn = r.conn;
  })

  -- close, at the code of the socket's close
  unfoldable pub close : Streambuf → Conn → List Bool → ℕ → Option (Reply Conn Bool)
  unfolding sync
  close s c stored ec = closed ec (sync s c stored)
