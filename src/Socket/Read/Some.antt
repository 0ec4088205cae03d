-- ===== src/Socket/Read/Some.antt =====
-- `read_some`, whose position in the buffer is right only where the bytes are read from its start.
use mathlib.Core.List.{append_assoc}
use boost_cmt.Base.{
  ℕ, ◌+◌, ◌-◌, ◌≤◌, ◌<◌, ◌≡◌, refl, sym, ap, ◌∙◌, List, [], ◌++◌, arith, take, drop, length, min,
  leb, ◌==◌, length-take, take-append-drop, true,
}
use boost_cmt.Error.{ok}
use boost_cmt.Socket.Stream.{Stream}
use boost_cmt.Socket.Read.{Buffer, returned, read_some, finish_read_some, read_available, skip}
use boost_cmt.Socket.Read.Exact.{unread}

module _ (stream : Stream) where
  open stream use {Conn, pending, available, read as asio_read, read_fills, read_in_order}

  -- What `read_some` does while the buffer holds more unread bytes than are asked for.
  pub read_some_rewinds :
      (b : Buffer) (c : Conn) (size : ℕ)
      → b.read_pos + size < length b.read_buf
      → read_some stream b c size
        ≡ returned (take size (unread b)) size (record b { read_pos = size }) c
  unfolding read_some skip
  read_some_rewinds b c size l =
      let m : min (length b.read_buf - b.read_pos) size ≡ size = omega arith in ground (arith, m)

  -- With an empty buffer and at least `size` bytes available, when the read of Boost.Asio succeeds,
  -- `read_some` stores the next `size` bytes on the connection and keeps the rest in the buffer,
  -- but the number that it returns is that of all bytes available.
  pub read_some_counts_all :
      (b : Buffer) (c d : Conn) (size : ℕ) (bytes : List ℕ)
      → b.read_buf ≡ []
      → size ≤ available c
      → asio_read c (available c) ≡ ok (bytes, d)
      → (stored : List ℕ) × (after : Buffer) × (read_some stream b c size
          ≡ returned stored (available c) after d)
        × (length stored ≡ size)
        × (pending c ≡ stored ++ (after.read_buf ++ pending d))
  unfolding read_some finish_read_some read_available
  read_some_counts_all b c d size bytes k l e =
      let full = read_fills c d (available c) bytes e in
      let enough : leb size (available c) ≡ true = ground arith in
      let empty : (length b.read_buf == 0) ≡ true = rw k refl in
      let after = record b {
        read_buf = drop size bytes;
        last_avail = available c - length bytes;
      } in
      (
        take size bytes,
        after,
        rw (empty, read_some, enough, finish_read_some, e, read_available)
            (ap (λ n. returned (take size bytes) n after d) full),
        omega (arith, length-take size bytes),
        read_in_order c d (available c) bytes e
            ∙ ap (λ x. x ++ pending d) (sym (take-append-drop size bytes))
            ∙ append_assoc (take size bytes) (drop size bytes) (pending d),
      )
