-- ===== src/Socket/Write/Progress.antt =====
-- The loop of a socket's writes ends however few bytes asio sends at a time.
use boost_cmt.Base.{
  ℕ, suc, ◌+◌, ◌-◌, ◌≡◌, ◌≤◌, refl, sym, ap, subst, inl, inr, List, [], ◌∷◌, ◌++◌, Option, none,
  some, Bool, true, not, take, drop, length, ltb, min, arith, Bool-cases, length-append,
  length-take, length-drop,
}
use boost_cmt.Error.{ok}
use boost_cmt.Socket.Write.{
  Loop, finished, posted, sending, failed, abandoned, crashed, Writer, start_loop, next_pass,
  end_pass, swap_buffers, sent, requested, flush, Reach, starts, sends,
}
use boost_cmt.Socket.Write.Track.{Tracks, at}
use boost_cmt.Socket.Write.Flush.{Reach-Good, flush_sends_all}
use boost_cmt.Socket.Write.Finish.{Unfailed, Running, start_runs}
use boost_cmt.Socket.Write.Unsent.{Unsent, Reach-Unsent}

-- asio sends at least a byte of what it has been given, and at most `1 + k`.
abbrev pub send_some : ℕ → Writer → Writer
send_some k w = sent w.loop w (min (suc k) (requested w.loop))

-- The writes of asio return one after the other.
abbrev pub send_each : List ℕ → Writer → Writer
send_each [] w = w
send_each (k ∷ ks) w = send_each ks (send_some k w)

next_pass-wire : (i : Bool) (bytes : List ℕ) (w : Writer) → (next_pass i bytes w).wire ≡ w.wire
unfolding next_pass
next_pass-wire i [] w = refl
next_pass-wire i (x ∷ bytes) w = refl

end_pass-wire : (c : Option Bool) (i : Bool) (w : Writer) → (end_pass c i w).wire ≡ w.wire
unfolding end_pass
end_pass-wire none i w = refl
end_pass-wire (some j) i w = next_pass-wire i (w.write_buf j) w

sent-wire :
    (i : Bool) (m s n : ℕ) (w : Writer)
    → (sent (sending i m s) w n).wire ≡ w.wire ++ take n (drop m (w.write_buf i))
unfolding sent swap_buffers
sent-wire i m s n w = elim (Bool-cases (ltb (m + n) s)) [
  | inl more ↦ rw (more, sent) refl
  | inr done ↦ rw (done, sent) (end_pass-wire w.cur_write_buf i _)
]

next_pass-Running : (i : Bool) (bytes : List ℕ) (w : Writer) → Running (next_pass i bytes w).loop
unfolding next_pass
next_pass-Running i [] w = tt
next_pass-Running i (x ∷ bytes) w = tt

swap-Running :
    (i : Bool) (w : Writer) → w.cur_write_buf ≡ some (not i) → Running (swap_buffers i w).loop
unfolding swap_buffers end_pass
swap-Running i w c = rw c (next_pass-Running i _ _)

sent-Running :
    (l : Loop) (n : ℕ) (all : List ℕ) (w : Writer)
    → Tracks l all w
    → Running l
    → Running (sent l (at l w) n).loop
unfolding sent
sent-Running finished n all w t k = tt
sent-Running (posted i) n all w t k = absurd k
sent-Running (sending i m s) n all w (c, _, _, _, _) k = elim (Bool-cases (ltb (m + n) s)) [
  | inl more ↦ rw (more, sent) tt
  | inr done ↦
      rw (done, sent)
        (swap-Running i
          (record w { wire = w.wire ++ take n (drop m (w.write_buf i)); loop = sending i m s }) c)
]
sent-Running (failed e) n all w t k = absurd k
sent-Running abandoned n all w t k = absurd k
sent-Running crashed n all w t k = absurd k

-- The bytes written are no fewer than those sent and those of the buffer that are left.
left_over :
    (all wire bytes other : List ℕ) (m : ℕ)
    → all ≡ wire ++ (drop m bytes ++ other)
    → length wire + (length bytes - m) ≤ length all
left_over all wire bytes other m e =
    let split = length-append wire (drop m bytes ++ other) in
    let front = length-append (drop m bytes) other in
    omega (arith, ap length e, split, front, length-drop m bytes)

-- A write of asio that returns sends a byte, or nothing was left to send.
gains :
    (l : Loop) (k n : ℕ) (all : List ℕ) (w : Writer)
    → Tracks l all w
    → Unsent l w
    → Running l
    → length all ≤ length w.wire + suc n
    → length all ≤ length (sent l (at l w) (min (suc k) (requested l))).wire + n
unfolding sent
gains finished k n all w (_, _, _, e) u r b = omega (arith, ap length e)
gains (posted i) k n all w t u r b = absurd r
gains (sending i m s) k n all w (_, _, z, _, e) u r b =
    let here = min (suc k) (s - m) in
    let gone = take here (drop m (w.write_buf i)) in
    let grown = ap length (sent-wire i m s here (at (sending i m s) w)) in
    omega (
      arith,
      grown,
      length-append w.wire gone,
      length-take here (drop m (w.write_buf i)),
      length-drop m (w.write_buf i),
      z,
    )
gains (failed e) k n all w t u r b = absurd r
gains abandoned k n all w t u r b = absurd r
gains crashed k n all w t u r b = absurd r

-- With all bytes sent the loop is over.
all_gone :
    (l : Loop) (all : List ℕ) (w : Writer)
    → Tracks l all w
    → Unsent l w
    → Running l
    → length all ≤ length w.wire
    → flush l ≡ some (ok true)
unfolding flush
all_gone finished all w t u r b = refl
all_gone (posted i) all w t u r b = absurd r
all_gone (sending i m s) all w (_, _, z, _, e) u r b =
    absurd (omega (arith, z, left_over all w.wire (w.write_buf i) (w.write_buf (not i)) m e))
all_gone (failed e) all w t u r b = absurd r
all_gone abandoned all w t u r b = absurd r
all_gone crashed all w t u r b = absurd r

fits : (k n : ℕ) → min (suc k) n ≤ n
fits k n = omega arith

sends_flush :
    (ks : List ℕ) {all : List ℕ} {w : Writer}
    → Reach all w
    → Running w.loop
    → length all ≤ length w.wire + length ks
    → (flush (send_each ks w).loop ≡ some (ok true)) × ((send_each ks w).wire ≡ all)
sends_flush [] {all} {w} r k b =
    let out = all_gone w.loop all w (Reach-Good r) (Reach-Unsent r) k (omega (arith, b)) in
    (out, flush_sends_all r out)
sends_flush (n ∷ ks) {all} {w} r k b =
    let good = Reach-Good r in
    sends_flush ks (sends _ r (fits n (requested w.loop))) (sent-Running w.loop _ all w good k)
      (gains w.loop n (length ks) all w good (Reach-Unsent r) k b)

start-wire : (l : Loop) (w : Writer) → (start_loop l w).wire ≡ w.wire
unfolding start_loop
start-wire finished w = refl
start-wire (posted i) w = refl
start-wire (sending i m s) w = refl
start-wire (failed e) w = refl
start-wire abandoned w = refl
start-wire crashed w = refl

-- However few bytes asio sends at a time, as long as each of its writes sends at least one and none
-- failed: once the task has started, after as many returns of these writes as there are bytes
-- written and not sent, the loop is over. A `flush` then returns without a throw, and asio has sent
-- exactly the bytes written, in their order.
pub send_each_flushes :
    {all : List ℕ} {w : Writer}
    → Reach all w
    → Unfailed w.loop
    → (ks : List ℕ) → length all ≤ length w.wire + length ks
    → (flush (send_each ks (start_loop w.loop w)).loop ≡ some (ok true))
      × ((send_each ks (start_loop w.loop w)).wire ≡ all)
send_each_flushes {all} {w} r k ks b =
    sends_flush ks (starts r) (start_runs w.loop all w (Reach-Good r) k)
      (subst (λ v. length all ≤ length v + length ks) (sym (start-wire w.loop w)) b)
