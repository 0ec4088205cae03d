-- ===== src/Socket/Read.antt =====
-- detail::socket::read and detail::socket::read_some of src/asio/tcp/socket.cpp. Sizes are below
-- 2^31, so the conversions to `int` and `uint32_t` keep their values.
pub mod Exact
pub mod Some
pub mod Twice
use boost_cmt.Base.{
  ℕ, ◌+◌, ◌-◌, List, [], ◌∷◌, ◌++◌, Bool, true, false, take, drop, length, min, if◌then◌else◌, ltb,
  leb, ◌==◌, not, ◌&&◌,
}
use boost_cmt.Error.{Exception, ok, throws}
use boost_cmt.Socket.Stream.{Stream}

pub record Buffer : Type 0 where
  pub read_buf : List ℕ
  pub read_pos : ℕ
  pub last_avail : ℕ

-- `fault`: the unsigned difference `read_buf.size() - read_pos` wrapped round, and the copy that
-- follows leaves the buffer. What a failed read leaves in the buffers is not modelled.
pub data Outcome (C : Type 0) : Type 0 where
  fault : Outcome C
  threw : Exception → Outcome C
  -- The bytes stored in the caller's buffer, the number returned, and the new state.
  returned : List ℕ → ℕ → Buffer → C → Outcome C

-- The buffer once `s` more of its bytes are read.
unfoldable pub advance : Buffer → ℕ → Buffer
advance b s =
    if (b.read_pos + s) == length b.read_buf
    then record b { read_buf = []; read_pos = 0 }
    else record b { read_pos = b.read_pos + s }

-- The buffer after `read_some` took `s` bytes of it: the position becomes `s`.
unfoldable pub skip : Buffer → ℕ → Buffer
skip b s =
    if (length b.read_buf - s) == 0 then record b { read_buf = [] } else record b { read_pos = s }

module _ (stream : Stream) where
  open stream use {Conn, available, read as asio_read, read_some as asio_read_some}

  -- Both functions, from `self.available()` to the return, if that many bytes are available: one
  -- read that fills the caller's buffer and then `read_buf`. `count` gives the number returned.
  unfoldable pub read_available : Buffer → Conn → ℕ → List ℕ → (ℕ → ℕ) → (ℕ → ℕ) → Outcome Conn
  read_available b c size before count left = elim (asio_read c (available c)) [
    | throws e ↦ threw e
    | ok (bytes, d) ↦
        returned (before ++ take size bytes) (count (length bytes))
          (record b { read_buf = drop size bytes; last_avail = left (length bytes) }) d
  ]

  unfoldable pub finish_read : Buffer → Conn → ℕ → List ℕ → Outcome Conn
  unfolding read_available
  finish_read b c size before =
      if leb size (available c)
      then read_available b c size before (λ r. length before + size) (λ r. available c)
      else elim (asio_read c size) [
        | throws e ↦ threw e
        | ok (bytes, d) ↦
            returned (before ++ bytes) (length before + length bytes)
              (record b { last_avail = available c }) d
      ]

  unfoldable pub read : Buffer → Conn → ℕ → Outcome Conn
  unfolding advance
  read b c size =
      let s = min (length b.read_buf - b.read_pos) size in
      let chunk = take s (drop b.read_pos b.read_buf) in
      let after = advance b s in
      if ltb (length b.read_buf) b.read_pos
      then fault
      else if length b.read_buf == b.read_pos
      then finish_read b c size []
      else if size == s
      then returned chunk s after c
      else finish_read after c (size - s) chunk

  unfoldable pub finish_read_some : Buffer → Conn → ℕ → List ℕ → Outcome Conn
  unfolding read_available
  finish_read_some b c size before =
      if leb size (available c)
      then read_available b c size before (λ r. r) (λ r. available c - r)
      else elim (asio_read_some c size) [
        | throws e ↦ threw e
        | ok (bytes, d) ↦
            returned (before ++ bytes) (length bytes) (record b { last_avail = available c }) d
      ]

  unfoldable pub read_some : Buffer → Conn → ℕ → Outcome Conn
  unfolding skip
  read_some b c size =
      let s = min (length b.read_buf - b.read_pos) size in
      let chunk = take s (drop b.read_pos b.read_buf) in
      let after = skip b s in
      if length b.read_buf == 0
      then finish_read_some b c size []
      else if ltb (length b.read_buf) b.read_pos
      then fault
      else if length b.read_buf == b.read_pos
      then finish_read_some b c size []
      else if size == s
      then returned chunk s after c
      else finish_read_some after c (size - s) chunk
