-- ===== src/Streambuf/Connection.antt =====
-- What the stream buffer relies on in the socket service of Boost.Asio.
use boost_cmt.Base.{ℕ, ◌≤◌, ◌<◌, ◌≡◌, List, ◌++◌, length, take}

-- What the handler of a send is called with, and the connection then.
pub record Sent (C : Type 0) : Type 0 where
  pub ec : ℕ
  pub bytes_transferred : ℕ
  pub conn : C

-- What the handler of a receive is called with: the bytes are those that are in the buffer.
pub record Received (C : Type 0) : Type 0 where
  pub ec : ℕ
  pub bytes : List ℕ
  pub conn : C

-- An error code is a number, which is 0 if there is no error.
pub record Service : Type 1 where
  pub Conn : Type 0
  -- The bytes sent on the connection so far.
  pub wire : Conn → List ℕ
  pub async_send : Conn → List ℕ → Sent Conn
  -- async_receive into a buffer of n bytes.
  pub async_receive : Conn → ℕ → Received Conn
  pub sends_some :
      (c : Conn) (bytes : List ℕ)
      → (async_send c bytes).ec ≡ 0
      → 0 < length bytes
      → 0 < (async_send c bytes).bytes_transferred
  pub sends_at_most :
      (c : Conn) (bytes : List ℕ) → (async_send c bytes).bytes_transferred ≤ length bytes
  pub sends_first :
      (c : Conn) (bytes : List ℕ)
      → wire (async_send c bytes).conn ≡ wire c ++ take (async_send c bytes).bytes_transferred bytes
