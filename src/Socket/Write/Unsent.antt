-- ===== src/Socket/Write/Unsent.antt =====
-- Every write of asio is given something to send: no buffer that a socket's loop takes is empty.
use boost_cmt.Base.{
  ℕ, ◌+◌, ◌≡◌, ◌≤◌, ◌<◌, refl, sym, subst, inl, inr, List, [], ◌∷◌, ◌++◌, Option, none, some, Bool,
  true, false, not, take, drop, length, ltb, arith, Bool-cases, length-append,
}
use boost_cmt.Error.{Exception}
use boost_cmt.Socket.Write.{
  Loop, finished, posted, sending, failed, abandoned, crashed, Writer, store, fill, write,
  write_sized, write_unless, start_loop, next_pass, end_pass, swap_buffers, sent, write_fails,
  Reach, opens, writes, refuses, starts, sends, fails, flushes, flush_leave,
}
use boost_cmt.Socket.Write.Track.{Tracks, at}
use boost_cmt.Socket.Write.Flush.{Reach-Good}

-- A buffer that is to be sent is not empty, and one that is being sent is not sent yet.
abbrev pub Unsent : Loop → Writer → Type 0
Unsent finished w = Unit
Unsent (posted i) w = 1 ≤ length (w.write_buf i)
Unsent (sending i total size) w = total < size
Unsent (failed e) w = Unit
Unsent abandoned w = Unit
Unsent crashed w = Unit

longer :
    (i j : Bool) (f : Bool → List ℕ) (bytes : List ℕ)
    → 1 ≤ length (f i)
    → 1 ≤ length (store f j (f j ++ bytes) i)
longer false false f bytes h = omega (arith, h, length-append (f false) bytes)
longer false true f bytes h = h
longer true false f bytes h = h
longer true true f bytes h = omega (arith, h, length-append (f true) bytes)

-- `write` changes the buffers alone, or posts the task with a buffer that is not empty.
fill-Unsent :
    (l : Loop) (c : Option Bool) (w : Writer) (x : ℕ) (bytes : List ℕ)
    → Unsent l w
    → Unsent (fill c (at l w) (x ∷ bytes)).loop (fill c (at l w) (x ∷ bytes))
unfolding fill
fill-Unsent l none w x bytes u = omega (arith, length-append (w.write_buf false) (x ∷ bytes))
fill-Unsent finished (some j) w x bytes u = tt
fill-Unsent (posted i) (some j) w x bytes u = longer i j w.write_buf (x ∷ bytes) u
fill-Unsent (sending i m s) (some j) w x bytes u = u
fill-Unsent (failed e) (some j) w x bytes u = tt
fill-Unsent abandoned (some j) w x bytes u = tt
fill-Unsent crashed (some j) w x bytes u = tt

write_sized-Unsent :
    (l : Loop) (w : Writer) (bytes : List ℕ)
    → Unsent l w
    → Unsent (write_sized (at l w) bytes).1.loop (write_sized (at l w) bytes).1
unfolding write_sized
write_sized-Unsent finished w [] u = u
write_sized-Unsent (posted i) w [] u = u
write_sized-Unsent (sending i m s) w [] u = u
write_sized-Unsent (failed e) w [] u = u
write_sized-Unsent abandoned w [] u = u
write_sized-Unsent crashed w [] u = u
write_sized-Unsent l w (x ∷ bytes) u = fill-Unsent l w.cur_write_buf w x bytes u

write_unless-Unsent :
    (l : Loop) (w : Writer) (bytes : List ℕ)
    → Unsent l w
    → Unsent (write_unless l (at l w) bytes).1.loop (write_unless l (at l w) bytes).1
unfolding write_unless
write_unless-Unsent finished w bytes u = write_sized-Unsent finished w bytes u
write_unless-Unsent (posted i) w bytes u = write_sized-Unsent (posted i) w bytes u
write_unless-Unsent (sending i m s) w bytes u = write_sized-Unsent (sending i m s) w bytes u
write_unless-Unsent (failed e) w bytes u = tt
write_unless-Unsent abandoned w bytes u = write_sized-Unsent abandoned w bytes u
write_unless-Unsent crashed w bytes u = write_sized-Unsent crashed w bytes u

start-Unsent :
    (l : Loop) (w : Writer)
    → Unsent l w
    → Unsent (start_loop l (at l w)).loop (start_loop l (at l w))
unfolding start_loop
start-Unsent finished w u = u
start-Unsent (posted i) w u = u
start-Unsent (sending i m s) w u = u
start-Unsent (failed e) w u = u
start-Unsent abandoned w u = u
start-Unsent crashed w u = u

fails-Unsent :
    (l : Loop) (w : Writer) (e : Exception)
    → Unsent l w
    → Unsent (write_fails l (at l w) e).loop (write_fails l (at l w) e)
unfolding write_fails
fails-Unsent finished w e u = u
fails-Unsent (posted i) w e u = u
fails-Unsent (sending i m s) w e u = tt
fails-Unsent (failed d) w e u = u
fails-Unsent abandoned w e u = u
fails-Unsent crashed w e u = u

left-Unsent :
    (l : Loop) (w : Writer)
    → Unsent l w
    → Unsent (flush_leave l (at l w)).1.loop (flush_leave l (at l w)).1
unfolding flush_leave
left-Unsent finished w u = u
left-Unsent (posted i) w u = u
left-Unsent (sending i m s) w u = u
left-Unsent (failed e) w u = tt
left-Unsent abandoned w u = u
left-Unsent crashed w u = u

-- The pass after this one takes the other buffer, which is the one that was filled.
next_pass-Unsent :
    (i : Bool) (bytes : List ℕ) (w : Writer)
    → bytes ≡ w.write_buf (not i)
    → Unsent (next_pass i bytes w).loop (next_pass i bytes w)
unfolding next_pass
next_pass-Unsent i [] w e = tt
next_pass-Unsent i (x ∷ bytes) w e = subst (λ l. 0 < length l) e (omega arith)

swap-Unsent :
    (i : Bool) (w : Writer)
    → w.cur_write_buf ≡ some (not i)
    → Unsent (swap_buffers i w).loop (swap_buffers i w)
unfolding swap_buffers end_pass
swap-Unsent false w c =
    let cleared = record w { write_buf = store w.write_buf false [] } in
    subst (λ j. Unsent (end_pass j false cleared).loop (end_pass j false cleared)) (sym c)
      (next_pass-Unsent false (w.write_buf true) cleared refl)
swap-Unsent true w c =
    let cleared = record w { write_buf = store w.write_buf true [] } in
    subst (λ j. Unsent (end_pass j true cleared).loop (end_pass j true cleared)) (sym c)
      (next_pass-Unsent true (w.write_buf false) cleared refl)

sent-Unsent :
    (l : Loop) (wrote : ℕ) (all : List ℕ) (w : Writer)
    → Tracks l all w
    → Unsent l w
    → Unsent (sent l (at l w) wrote).loop (sent l (at l w) wrote)
unfolding sent
sent-Unsent finished n all w t u = u
sent-Unsent (posted i) n all w t u = u
sent-Unsent (sending i m s) n all w (c, k, l, b, e) u = elim (Bool-cases (ltb (m + n) s)) [
  | inl more ↦ rw (more, sent) (ground arith)
  | inr done ↦
      rw (done, sent)
        (swap-Unsent i
          (record w { wire = w.wire ++ take n (drop m (w.write_buf i)); loop = sending i m s }) c)
]
sent-Unsent (failed e) n all w t u = u
sent-Unsent abandoned n all w t u = u
sent-Unsent crashed n all w t u = u

-- At every moment the buffer that was posted holds a byte, and the one in a write of asio has one
-- that was not sent.
pub Reach-Unsent : {all : List ℕ} {w : Writer} → Reach all w → Unsent w.loop w
unfolding write
Reach-Unsent opens = tt
Reach-Unsent (writes {all} {w} bytes n r h) = write_unless-Unsent w.loop w bytes (Reach-Unsent r)
Reach-Unsent (refuses {all} {w} bytes e r h) = write_unless-Unsent w.loop w bytes (Reach-Unsent r)
Reach-Unsent (starts {all} {w} r) = start-Unsent w.loop w (Reach-Unsent r)
Reach-Unsent (sends {all} {w} n r b) = sent-Unsent w.loop n all w (Reach-Good r) (Reach-Unsent r)
Reach-Unsent (fails {all} {w} e r) = fails-Unsent w.loop w e (Reach-Unsent r)
Reach-Unsent (flushes {all} {w} r) = left-Unsent w.loop w (Reach-Unsent r)
