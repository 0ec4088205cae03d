-- ===== src/Thread/Switch/Block.antt =====
-- Blocking on a promise, and being woken.
use boost_cmt.Base.{
  ℕ, ◌<◌, ◌≤◌, ◌∙◌, ◌≡◌, refl, List, [], ◌∷◌, some, arith, false, ◌==◌, Bool-cases, inl, inr, ltb,
  ap, subst, sym,
}
use boost_cmt.Base.Links.{Chain, Absent, Chain-cons}
use boost_cmt.StdHeap.{StdHeap}
use boost_cmt.Promise.{ready}
use boost_cmt.Thread.State.{World, time_max}
use boost_cmt.Thread.Ready.{Ready, ready_pop_front, ready_pop_front-Ready}
use boost_cmt.Thread.Notify.{notify}
use boost_cmt.Thread.Notify.Unlink.{Blocked}
use boost_cmt.Thread.Notify.Wake.{notify_wakes_first}
use boost_cmt.Thread.Switch.Turns.{InTurn, nothing_due, start_from, ensure_current-some}
use boost_cmt.Thread.Switch.{jump_from, start_next_task, gives_way, block_on, wait, block_and_jump}

module _ {A : Type 0} (std : StdHeap) where
  pub block_on-Blocked :
      (w : World A) (c p timeout : ℕ) (bs : List ℕ)
      → Blocked w bs
      → Absent c bs
      → Blocked (block_on std w c p timeout) (c ∷ bs)
  unfolding block_on
  block_on-Blocked w c p timeout bs b a =
      let links = Chain-cons w.next_blocked c w.blocked bs a b.chain in
      elim (Bool-cases (timeout == time_max)) [
        | inl e ↦ rw (e, block_on) (record { chain = links; distinct = (a, b.distinct) })
        | inr e ↦ rw (e, block_on) (record { chain = links; distinct = (a, b.distinct) })
      ]

  pub block_on-Ready :
      (w : World A) (c p timeout : ℕ) (rs : List ℕ)
      → Ready w rs
      → Ready (block_on std w c p timeout) rs
  unfolding block_on
  block_on-Ready w c p timeout rs r = elim (Bool-cases (timeout == time_max)) [
    | inl e ↦ rw (e, block_on) (record { chain = r.chain; tail = r.tail; distinct = r.distinct })
    | inr e ↦ rw (e, block_on) (record { chain = r.chain; tail = r.tail; distinct = r.distinct })
  ]

  pub block_on-prom : (w : World A) (c p timeout : ℕ) → (block_on std w c p timeout).prom c ≡ some p
  unfolding block_on
  block_on-prom w c p timeout = ground arith

  -- A context that blocks on a promise, with or without a timeout, and is then notified of it stands
  -- in front of the contexts that were ready; the blocked contexts are those from before, also where
  -- some of them wait for the same promise.
  pub notify-block_on :
      (scan : ℕ) (w : World A) (c p timeout : ℕ) (bs rs : List ℕ)
      → 1 < scan
      → Blocked w bs
      → Ready w rs
      → Absent c bs
      → Absent c rs
      → (v : World A) × (notify std scan (block_on std w c p timeout) p ≡ some v)
        × Blocked v bs
        × Ready v (c ∷ rs)
  notify-block_on scan w c p timeout bs rs l b r a o =
      notify_wakes_first std scan (block_on std w c p timeout) p c [] bs rs
        (block_on-Blocked w c p timeout bs b a) (block_on-Ready w c p timeout rs r) o tt
        (block_on-prom w c p timeout) (omega arith)

  pub block_on-kept :
      (w : World A) (c p : ℕ)
      → let v = block_on std w c p time_max in
        (v.sleep_pqueue ≡ w.sleep_pqueue)
        × (v.task_sch_queue ≡ w.task_sch_queue)
        × (v.current ≡ w.current)
  unfolding block_on
  block_on-kept w c p = ground arith

  -- A jump that does not requeue the context leaves the blocked list and the promises waited for.
  jump_kept :
      (w : World A) (c x : ℕ)
      → let v = (jump_from w c false (some x)).0 in
        (v.current ≡ some x)
        × (v.next_blocked ≡ w.next_blocked)
        × (v.blocked ≡ w.blocked)
        × (v.prom ≡ w.prom)
  unfolding jump_from ready_pop_front
  jump_kept w c x = ground arith

  jump_target : (w : World A) (c x : ℕ) → (jump_from w c false (some x)).1 ≡ x
  unfolding jump_from
  jump_target w c x = refl

  jump-Ready :
      (w : World A) (c x : ℕ) (rs : List ℕ)
      → Ready (ready_pop_front w).0 rs
      → Ready (jump_from w c false (some x)).0 rs
  unfolding jump_from
  jump-Ready w c x rs r = record { chain = r.chain; tail = r.tail; distinct = r.distinct }

  Blocked-same :
      (w v : World A) (bs : List ℕ)
      → v.next_blocked ≡ w.next_blocked
      → v.blocked ≡ w.blocked
      → Blocked w bs
      → Blocked v bs
  Blocked-same w v bs e h b = record {
    chain =
        subst (λ f. Chain f v.blocked bs) (sym e)
          (subst (λ p. Chain w.next_blocked p bs) (sym h) b.chain);
    distinct = b.distinct;
  }

  pub wait_jump :
      (fuel scan : ℕ) (w : World A) (p c now1 now2 : ℕ) (r : World A × ℕ)
      → ready (w.promises p) ≡ false
      → ltb time_max now1 ≡ false
      → w.current ≡ some c
      → start_next_task std fuel scan (block_on std w c p time_max) now2 false ≡ some r
      → wait std fuel scan w p time_max now1 now2 ≡ some (gives_way c r.1 r.0)
  unfolding wait block_and_jump
  wait_jump fuel scan w p c now1 now2 r n l e j =
      rw (n, wait, l, ensure_current-some w c e, block_and_jump, j)
        (ap (λ q. some (gives_way q.1 r.1 r.0)) (ensure_current-some w c e))

  -- `wait` without a timeout on a promise that is not ready, called by the running context `c`,
  -- where nothing sleeps or is scheduled and `x` is the first ready context: `c` gives way to `x`,
  -- is blocked on the promise, in front of those that were blocked, and is not ready.
  pub wait_blocks :
      (fuel scan : ℕ) (w : World A) (p c x now1 now2 : ℕ) (bs rs : List ℕ)
      → ready (w.promises p) ≡ false
      → now1 ≤ time_max
      → InTurn w c (x ∷ rs)
      → Blocked w bs
      → Absent c bs
      → (v : World A) × (wait std fuel scan w p time_max now1 now2 ≡ some (gives_way c x v))
        × (v.current ≡ some x)
        × Blocked v (c ∷ bs)
        × Ready v rs
        × (v.prom c ≡ some p)
  wait_blocks fuel scan w p c x now1 now2 bs rs n l t b a =
      let blocking = block_on std w c p time_max in
      let kept = block_on-kept w c p in
      let stuck = block_on-Blocked w c p time_max bs b a in
      let waiting = block_on-Ready w c p time_max (x ∷ rs) t.waiting in
      let quiet =
        nothing_due std fuel scan blocking now2 (kept.0 ∙ t.no_sleeper) (kept.1 ∙ t.no_scheduled) in
      let jump =
        start_from std fuel scan blocking now2 time_max c false (some x) quiet (kept.2 ∙ t.running)
          waiting.chain.0 in
      let late : ltb time_max now1 ≡ false = ground arith in
      let after = jump_kept blocking c x in
      let popped = ready_pop_front-Ready blocking x rs waiting in
      (
        (jump_from blocking c false (some x)).0,
        wait_jump fuel scan w p c now1 now2 (jump_from blocking c false (some x)) n late t.running
              jump
            ∙ ap (λ k. some (gives_way c k (jump_from blocking c false (some x)).0))
                (jump_target blocking c x),
        after.0,
        Blocked-same blocking _ (c ∷ bs) after.1 after.2 stuck,
        jump-Ready blocking c x rs popped.1,
        ap (λ f. f c) after.3 ∙ block_on-prom w c p time_max,
      )
