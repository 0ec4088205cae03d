-- ===== src/Socket/Write/Finish.antt =====
-- The loop of a socket's writes ends, and a `flush` that waits for it returns.
use boost_cmt.Base.{
  ℕ, ◌+◌, ◌-◌, ◌≡◌, ◌≤◌, refl, sym, subst, List, [], ◌∷◌, ◌++◌, some, Bool, true, false, not, take,
  drop, ltb, arith,
}
use boost_cmt.Error.{ok}
use boost_cmt.Socket.Write.{
  Loop, finished, posted, sending, failed, abandoned, crashed, Writer, store, start_loop, next_pass,
  end_pass, swap_buffers, sent, requested, flush, Reach, starts, sends,
}
use boost_cmt.Socket.Write.Track.{Tracks, at}
use boost_cmt.Socket.Write.Flush.{Reach-Good, flush_sends_all}

-- asio sends everything that it has been given.
abbrev pub send_requested : Writer → Writer
send_requested w = sent w.loop w (requested w.loop)

-- The task starts if it did not, and the write of asio returns twice.
abbrev pub finish_loop : Writer → Writer
finish_loop w = send_requested (send_requested (start_loop w.loop w))

-- At most one pass is left: nothing was written since the one before ended.
abbrev Last : Loop → Writer → Type 0
Last finished w = Unit
Last (posted i) w = ⊥
Last (sending i total size) w = w.write_buf (not i) ≡ []
Last (failed e) w = ⊥
Last abandoned w = ⊥
Last crashed w = ⊥

-- No write of asio threw.
abbrev pub Unfailed : Loop → Type 0
Unfailed finished = Unit
Unfailed (posted i) = Unit
Unfailed (sending i total size) = Unit
Unfailed (failed e) = ⊥
Unfailed abandoned = ⊥
Unfailed crashed = Unit

abbrev pub Running : Loop → Type 0
Running finished = Unit
Running (posted i) = ⊥
Running (sending i total size) = Unit
Running (failed e) = ⊥
Running abandoned = ⊥
Running crashed = ⊥

abbrev Over : Loop → Type 0
Over finished = Unit
Over (posted i) = ⊥
Over (sending i total size) = ⊥
Over (failed e) = ⊥
Over abandoned = ⊥
Over crashed = ⊥

next_pass-Last :
    (i : Bool) (bytes : List ℕ) (w : Writer)
    → w.write_buf i ≡ []
    → Last (next_pass i bytes w).loop (next_pass i bytes w)
unfolding next_pass
next_pass-Last i [] w e = tt
next_pass-Last false (x ∷ bytes) w e = e
next_pass-Last true (x ∷ bytes) w e = e

swap-Last :
    (i : Bool) (w : Writer)
    → w.cur_write_buf ≡ some (not i)
    → Last (swap_buffers i w).loop (swap_buffers i w)
unfolding swap_buffers end_pass
swap-Last false w c =
    let cleared = record w { write_buf = store w.write_buf false [] } in
    subst (λ j. Last (end_pass j false cleared).loop (end_pass j false cleared)) (sym c)
      (next_pass-Last false (w.write_buf true) cleared refl)
swap-Last true w c =
    let cleared = record w { write_buf = store w.write_buf true [] } in
    subst (λ j. Last (end_pass j true cleared).loop (end_pass j true cleared)) (sym c)
      (next_pass-Last true (w.write_buf false) cleared refl)

swap-Over :
    (i : Bool) (w : Writer)
    → w.cur_write_buf ≡ some (not i)
    → w.write_buf (not i) ≡ []
    → Over (swap_buffers i w).loop
unfolding swap_buffers end_pass next_pass
swap-Over false w c e =
    let cleared = record w { write_buf = store w.write_buf false [] } in
    subst (λ j. Over (end_pass j false cleared).loop) (sym c)
      (subst (λ b. Over (next_pass false b cleared).loop) (sym e) tt)
swap-Over true w c e =
    let cleared = record w { write_buf = store w.write_buf true [] } in
    subst (λ j. Over (end_pass j true cleared).loop) (sym c)
      (subst (λ b. Over (next_pass true b cleared).loop) (sym e) tt)

send_ends_pass :
    (i : Bool) (total size : ℕ) (w : Writer)
    → total ≤ size
    → sent (sending i total size) w (size - total)
      ≡ swap_buffers i
          (record w { wire = w.wire ++ take (size - total) (drop total (w.write_buf i)) })
unfolding sent
send_ends_pass i total size w b =
    let all : ltb (total + (size - total)) size ≡ false = ground arith in rw (all, sent) refl

first_send :
    (l : Loop) (all : List ℕ) (w : Writer)
    → Tracks l all w
    → Running l
    → Last (sent l (at l w) (requested l)).loop (sent l (at l w) (requested l))
unfolding sent
first_send finished all w t k = tt
first_send (posted i) all w t k = absurd k
first_send (sending i m s) all w (c, _, _, b, _) k =
    subst (λ v. Last v.loop v) (sym (send_ends_pass i m s (at (sending i m s) w) b))
      (swap-Last i _ c)
first_send (failed e) all w t k = absurd k
first_send abandoned all w t k = absurd k
first_send crashed all w t k = t

second_send :
    (l : Loop) (all : List ℕ) (w : Writer)
    → Tracks l all w
    → Last l w
    → Over (sent l (at l w) (requested l)).loop
unfolding sent
second_send finished all w t k = tt
second_send (posted i) all w t k = k
second_send (sending i m s) all w (c, _, _, b, _) k =
    subst (λ v. Over v.loop) (sym (send_ends_pass i m s (at (sending i m s) w) b))
      (swap-Over i _ c k)
second_send (failed e) all w t k = absurd k
second_send abandoned all w t k = absurd k
second_send crashed all w t k = t

pub start_runs :
    (l : Loop) (all : List ℕ) (w : Writer)
    → Tracks l all w
    → Unfailed l
    → Running (start_loop l (at l w)).loop
unfolding start_loop
start_runs finished all w t k = tt
start_runs (posted i) all w t k = tt
start_runs (sending i m s) all w t k = tt
start_runs (failed e) all w t k = absurd k
start_runs abandoned all w t k = absurd k
start_runs crashed all w t k = absurd t

Over-flushes : (l : Loop) → Over l → flush l ≡ some (ok true)
unfolding flush
Over-flushes finished k = refl
Over-flushes (posted i) k = absurd k
Over-flushes (sending i m s) k = absurd k
Over-flushes (failed e) k = absurd k
Over-flushes abandoned k = absurd k
Over-flushes crashed k = absurd k

-- From every state where no write of asio failed, at most two more writes of asio end the loop,
-- whichever place it is at, when each sends what it is given: a `flush` then returns, and all
-- bytes written before are sent.
pub finish_loop_flushes :
    {all : List ℕ} {w : Writer}
    → Reach all w
    → Unfailed w.loop
    → (flush (finish_loop w).loop ≡ some (ok true)) × ((finish_loop w).wire ≡ all)
finish_loop_flushes {all} {w} r k =
    let begun = start_loop w.loop w in
    let r1 : Reach all begun = starts r in
    let once = send_requested begun in
    let r2 : Reach all once = sends (requested begun.loop) r1 (omega arith) in
    let r3 : Reach all (finish_loop w) = sends (requested once.loop) r2 (omega arith) in
    let runs = start_runs w.loop all w (Reach-Good r) k in
    let last = first_send begun.loop all begun (Reach-Good r1) runs in
    let over = second_send once.loop all once (Reach-Good r2) last in
    let out = Over-flushes (finish_loop w).loop over in (out, flush_sends_all r3 out)
