-- ===== src/Socket/Stream.antt =====
-- What the socket relies on in Boost.Asio: a connection delivers the peer's bytes in order.
use boost_cmt.Base.{ℕ, ◌≤◌, ◌≡◌, List, ◌++◌}
use boost_cmt.Base.{length}
use boost_cmt.Error.{Result, ok}

pub record Stream : Type 1 where
  pub Conn : Type 0
  -- The bytes that the peer has sent or will send and that were not read yet.
  pub pending : Conn → List ℕ
  -- socket::available
  pub available : Conn → ℕ
  -- asio::read into buffers of n bytes in all, which fills them or fails.
  pub read : Conn → ℕ → Result (List ℕ × Conn)
  -- async_read_some into a buffer of n bytes, which may read fewer.
  pub read_some : Conn → ℕ → Result (List ℕ × Conn)
  pub read_fills :
      (c d : Conn) (n : ℕ) (bytes : List ℕ) → read c n ≡ ok (bytes, d) → length bytes ≡ n
  pub read_in_order :
      (c d : Conn) (n : ℕ) (bytes : List ℕ)
      → read c n ≡ ok (bytes, d)
      → pending c ≡ bytes ++ pending d
  pub read_some_fits :
      (c d : Conn) (n : ℕ) (bytes : List ℕ) → read_some c n ≡ ok (bytes, d) → length bytes ≤ n
  pub read_some_in_order :
      (c d : Conn) (n : ℕ) (bytes : List ℕ)
      → read_some c n ≡ ok (bytes, d)
      → pending c ≡ bytes ++ pending d
