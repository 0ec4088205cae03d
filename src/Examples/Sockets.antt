-- ===== src/Examples/Sockets.antt =====
-- Tests of the buffered socket, over a connection that holds the peer's bytes.
use boost_cmt.Base.{
  ℕ, none, false, ◌+◌, ◌≡◌, ◌≢◌, ◌<◌, ◌≤◌, refl, sym, ap, List, [], ◌∷◌, ◌++◌, some, true, arith,
  take, drop, length, take-append-drop, length-take, if◌then◌else◌, leb, inl, inr, Bool-cases,
}
use boost_cmt.Error.{other, Result, ok, throws}
use boost_cmt.Socket.Stream.{Stream}
use boost_cmt.Socket.Read.{advance, Buffer, returned, read, read_some}
use boost_cmt.Socket.Read.Exact.{unread, Delivers, read-Delivers}
use boost_cmt.Socket.Iterator.{Iterator, begin_at, step_on, moved, walk}
use boost_cmt.Socket.Iterator.Walk.{Walked, walk-begin_at}
use boost_cmt.Socket.Read.Some.{read_some_counts_all}
use boost_cmt.Socket.Read.Twice.{read_some_twice}
use boost_cmt.Base.Links.{Distinct}
use boost_cmt.Socket.Write.{
  Writer, Reach, new_writer, write, write_unless, write_sized, fill, start_loop, opens, writes,
  starts, sent, requested, swap_buffers, end_pass, next_pass, flush, sending,
}
use boost_cmt.Socket.Write.Flush.{Reach-Good}
use boost_cmt.Socket.Write.Track.{Good}
use boost_cmt.Socket.Write.Progress.{send_each, send_each_flushes}
use boost_cmt.Socket.Write.Finish.{Unfailed}
use boost_cmt.Socket.Write.Stranded.{
  writes_bytes, leaves, all_happen, Loses, throw_into_flush, failed_flush_strands,
}

-- The other side's bytes; a read of more than there are fails.
unfoldable take_bytes : List ℕ → ℕ → Result (List ℕ × List ℕ)
take_bytes c n = if leb n (length c) then ok (take n c, drop n c) else throws (other 0)

unfoldable ok_parts : Result (List ℕ × List ℕ) → List ℕ × List ℕ
ok_parts (ok p) = p
ok_parts (throws e) = ([], [])

taken :
    (c d : List ℕ) (n : ℕ) (bytes : List ℕ)
    → take_bytes c n ≡ ok (bytes, d)
    → (length bytes ≡ n) × (c ≡ bytes ++ d)
unfolding take_bytes ok_parts
taken c d n bytes e = elim (Bool-cases (leb n (length c))) [
  | inr few ↦ absurd (ground arith)
  | inl many ↦
      let got : ok (take n c, drop n c) ≡ ok (bytes, d) = ground arith in
      let same : (take n c, drop n c) ≡ (bytes, d) = ap ok_parts got in
      let b : take n c ≡ bytes = ap (λ p. p.0) same in
      let r : drop n c ≡ d = ap (λ p. p.1) same in
      let fits : n ≤ length c = ground arith in
      rw⁻¹ (b, r) (omega (arith, length-take n c), sym (take-append-drop n c))
]

taken_fits :
    (c d : List ℕ) (n : ℕ) (bytes : List ℕ) → take_bytes c n ≡ ok (bytes, d) → length bytes ≤ n
taken_fits c d n bytes e = omega (arith, (taken c d n bytes e).0)

abbrev local : Stream
local = record {
  Conn = List ℕ;
  pending = λ c. c;
  available = length;
  read = take_bytes;
  read_some = take_bytes;
  read_fills = λ c d n bytes e. (taken c d n bytes e).0;
  read_in_order = λ c d n bytes e. (taken c d n bytes e).1;
  read_some_fits = taken_fits;
  read_some_in_order = λ c d n bytes e. (taken c d n bytes e).1;
}

abbrev buffer : Buffer
buffer = record { read_buf = 1 ∷ 2 ∷ 3 ∷ 4 ∷ []; read_pos = 1; last_avail = 0 }

abbrev drained : Buffer
drained = record { read_buf = []; read_pos = 0; last_avail = 0 }

abbrev coming : List ℕ
coming = 5 ∷ 6 ∷ 7 ∷ []

read-Delivers_example :
    Delivers local (unread buffer ++ coming) coming 5 (read local buffer coming 5)
read-Delivers_example = read-Delivers local buffer coming 5 (inl (omega arith))

-- The first iterator holds the byte 2.
abbrev after_two : Buffer
after_two = record { read_buf = 1 ∷ 2 ∷ 3 ∷ 4 ∷ []; read_pos = 2; last_avail = 0 }

abbrev at_two : Iterator
at_two = record { value = 2; has_socket = true }

begins : begin_at local 0 buffer coming ≡ moved at_two after_two coming
unfolding begin_at step_on read advance
begins = refl

walk-begin_at_example :
    Walked local (unread buffer ++ coming) (walk local 4 at_two after_two coming)
walk-begin_at_example =
    walk-begin_at local 4 0 buffer after_two coming coming at_two (inl (omega arith)) begins

-- The bytes 2 and 3 are unread behind the position, and the second read stores 2 again.
read_some_twice_example :
    (first second : List ℕ) × (mid after : Buffer) × (read_some local buffer coming 1
      ≡ returned first 1 mid coming)
    × (read_some local mid coming 1 ≡ returned second 1 after coming)
    × (buffer.read_pos ≡ 0 → first ++ second ≡ 2 ∷ 3 ∷ [])
    × (0 < buffer.read_pos → 0 < 1 → Distinct buffer.read_buf → first ++ second ≢ 2 ∷ 3 ∷ [])
read_some_twice_example = read_some_twice local buffer coming 1 1 (omega arith)

all_taken : take_bytes coming 3 ≡ ok (coming, [])
unfolding take_bytes
all_taken = refl

read_some_counts_all_example :
    (stored : List ℕ) × (after : Buffer) × (read_some local drained coming 1
      ≡ returned stored 3 after [])
    × (length stored ≡ 1)
    × (coming ≡ stored ++ (after.read_buf ++ []))
read_some_counts_all_example =
    read_some_counts_all local drained coming [] 1 coming refl (omega arith) all_taken

abbrev first_write : Writer
first_write = (write new_writer (1 ∷ 2 ∷ [])).1

first_ok : (write new_writer (1 ∷ 2 ∷ [])).0 ≡ ok 2
unfolding write write_unless write_sized
first_ok = refl

one_written : Reach (1 ∷ 2 ∷ []) first_write
one_written = writes (1 ∷ 2 ∷ []) 2 opens first_ok

abbrev begun : Writer
begun = start_loop first_write.loop first_write

abbrev second_write : Writer
second_write = (write begun (3 ∷ [])).1

second_ok : (write begun (3 ∷ [])).0 ≡ ok 1
unfolding write write_unless write_sized start_loop fill
second_ok = refl

two_written : Reach (1 ∷ 2 ∷ 3 ∷ []) second_write
two_written = writes (3 ∷ []) 1 (starts one_written) second_ok

not_failed : Unfailed second_write.loop
unfolding write write_unless write_sized start_loop fill
not_failed = tt

Reach-Good_example : Good (1 ∷ 2 ∷ 3 ∷ []) second_write
Reach-Good_example = Reach-Good two_written

none_sent : 3 ≤ length second_write.wire + 3
unfolding write write_unless write_sized start_loop fill
none_sent = omega arith

-- The loop is in a write of asio with two bytes, one waits, and each write sends one.
send_each_flushes_example :
    (flush (send_each (0 ∷ 0 ∷ 0 ∷ []) (start_loop second_write.loop second_write)).loop
      ≡ some (ok true))
    × ((send_each (0 ∷ 0 ∷ 0 ∷ []) (start_loop second_write.loop second_write)).wire
        ≡ 1 ∷ 2 ∷ 3 ∷ [])
send_each_flushes_example = send_each_flushes two_written not_failed (0 ∷ 0 ∷ 0 ∷ []) none_sent

in_write : second_write.loop ≡ sending false 0 2
unfolding write write_unless write_sized start_loop fill
in_write = refl

-- The write of asio throws, more bytes are written, and the socket is flushed again.
failed_flush_strands_example :
    (flush second_write.loop ≡ none)
    × ((throw_into_flush second_write (other 4)).0 ≡ throws (other 4))
    × Loses second_write.wire (
        all_happen
          (throw_into_flush second_write (other 4)).1
          (writes_bytes (9 ∷ []) ∷ leaves ∷ []))
failed_flush_strands_example =
    failed_flush_strands false 0 2 (other 4) two_written in_write
      (writes_bytes (9 ∷ []) ∷ leaves ∷ [])

abbrev all_sent : Writer
all_sent = sent begun.loop begun 2

fits_two : 2 ≤ requested begun.loop
unfolding write write_unless write_sized start_loop fill
fits_two = omega arith

all_flushed : flush all_sent.loop ≡ some (ok true)
unfolding write write_unless write_sized start_loop fill sent swap_buffers end_pass next_pass flush
all_flushed = refl
