-- ===== src/Thread/Places/Turned.antt =====
-- Where the contexts are after a yield and a wait.
use boost_cmt.Base.{
  ℕ, ◌≡◌, refl, sym, ap, ◌∙◌, subst, List, [], ◌∷◌, ◌++◌, Option, none, some, Bool, true, false,
  arith, inl, inr, Bool-cases, Option-cases, ltb,
}
use boost_cmt.StdHeap.{StdHeap}
use boost_cmt.Promise.{ready}
use boost_cmt.Thread.State.{World, time_max}
use boost_cmt.Base.Links.{put}
use boost_cmt.Thread.Notify.{add_blocking_promise}
use boost_cmt.Thread.Timeouts.{check_for_timeouts}
use boost_cmt.Thread.Switch.{
  yield, wait, gives_way, over, Progress, block_on, block_and_jump, jump_from, start_next_task,
}
use boost_cmt.Thread.Switch.Turns.{ensure_current-some}
use boost_cmt.Thread.Switch.Block.{block_on-Blocked, block_on-Ready, block_on-kept}
use boost_cmt.Thread.Places.{occurs, places, Placed, Moved}
use boost_cmt.Thread.Places.Count.{occurs-Absent, occurs-append, occurs-itself, left, requeued}
use boost_cmt.Thread.Places.Jump.{Leaving, jump_some-Placed, jump_none-Placed}
use boost_cmt.Thread.Places.Late.{check-Checked}

module _ {A : Type 0} where
  -- A jump from `x`, where all contexts of `w` are.
  jumped-Moved :
      (w x v : World A) (c : ℕ) (r : Bool) (qs bs rs bs' : List ℕ)
      → Leaving x c r qs bs
      → ((o : ℕ) → left o r c qs bs x.sleep_pqueue ≡ places o c rs bs' w.sleep_pqueue)
      → x.fresh ≡ w.fresh
      → v ≡ (jump_from x c r x.ready_head).0
      → Moved w v c rs bs'
  jumped-Moved w x v c r [] bs rs bs' l all f e =
      let (placed, kept) = jump_none-Placed x c r bs l in
      subst (λ u. Moved w u c rs bs') (sym (e ∙ ap (λ h. (jump_from x c r h).0) l.waiting.chain))
        (record {
          runs = x.fresh;
          waiting = requeued r c [];
          blocked = bs;
          placed = placed;
          kept = inr (λ o. omega (arith, kept o, all o, ap (λ n. occurs o (n ∷ [])) f));
        })
  jumped-Moved w x v c r (y ∷ qs) bs rs bs' l all f e =
      let (placed, kept) = jump_some-Placed x c y r qs bs l in
      subst (λ u. Moved w u c rs bs') (sym (e ∙ ap (λ h. (jump_from x c r h).0) l.waiting.chain.0))
        (record {
          runs = y;
          waiting = requeued r c qs;
          blocked = bs;
          placed = placed;
          kept = inl (λ o. omega (arith, kept o, all o));
        })

  abbrev progress_of : World A → Option (Progress A) → World A
  progress_of w none = w
  progress_of w (some (over r v)) = w
  progress_of w (some (gives_way c x v)) = v

  abbrev state_of : World A → Option (World A × ℕ) → World A
  state_of w none = w
  state_of w (some r) = r.0

  module _ (std : StdHeap) (fuel scan : ℕ) where
    -- A call of start_next_task in the state `u`, where all contexts of `w` are.
    pub start-Moved :
        (w u v : World A) (now y c : ℕ) (r : Bool) (qs bs rs bs' : List ℕ)
        → Leaving u c r qs bs
        → ((o : ℕ) → left o r c qs bs u.sleep_pqueue ≡ places o c rs bs' w.sleep_pqueue)
        → u.current ≡ some c
        → u.fresh ≡ w.fresh
        → start_next_task std fuel scan u now r ≡ some (v, y)
        → Moved w v c rs bs'
    unfolding start_next_task
    start-Moved w u v now y c r qs bs rs bs' l all k f e =
        elim (Option-cases (check_for_timeouts std fuel scan u now)) [
          | inl h ↦ absurd (ground arith)
          | inr ((x, t), h) ↦
              let m = check-Checked std scan fuel u x now t c r qs bs l h in
              let runs = ensure_current-some x c (m.current_kept ∙ k) in
              let jump : v ≡ (jump_from x c r x.ready_head).0 =
                ap (state_of u) (sym (rw (h, start_next_task, runs) at e)) in
              jumped-Moved w x v c r (qs ++ m.moved) bs rs bs' m.leaving (λ o. m.same o ∙ all o)
                (m.fresh_kept ∙ f) jump
        ]

    pub yield-Moved :
        (w v : World A) (now x c : ℕ) (rs bs : List ℕ)
        → Placed w c rs bs
        → yield std fuel scan w now ≡ some (v, x)
        → Moved w v c rs bs
    unfolding yield
    yield-Moved w v now x c rs bs l e =
        let all : (o : ℕ) → left o true c rs bs w.sleep_pqueue ≡ places o c rs bs w.sleep_pqueue =
          λ o. omega (arith, occurs-append o rs (c ∷ [])) in
        start-Moved w w v now x c true rs bs rs bs
          (record {
            waiting = l.waiting;
            stuck = l.stuck;
            plain = l.plain;
            apart = λ o. omega (arith, all o, l.apart o);
            older = λ o h. omega (arith, all o, l.older o h);
          })
          all l.running refl e

    pub jumps_on :
        (u v : World A) (c d x now : ℕ)
        → block_and_jump std fuel scan u c now ≡ some (gives_way d x v)
        → (r : World A × ℕ) × (start_next_task std fuel scan u now false ≡ some r) × (r.0 ≡ v)
    unfolding block_and_jump
    jumps_on u v c d x now e = elim (Option-cases (start_next_task std fuel scan u now false)) [
      | inl h ↦ absurd (ground arith)
      | inr (r, h) ↦ (r, h, ap (progress_of u) (rw (h, block_and_jump) at e))
    ]

    -- A wait that gives way has blocked the running context, and jumped.
    wait_jumps :
        (w v : World A) (p c d x now1 now2 : ℕ)
        → w.current ≡ some c
        → wait std fuel scan w p time_max now1 now2 ≡ some (gives_way d x v)
        → block_and_jump std fuel scan (block_on std w c p time_max) c now2 ≡ some (gives_way d x v)
    unfolding wait
    wait_jumps w v p c d x now1 now2 r h =
        let runs = ensure_current-some w c r in
        elim (Bool-cases (ready (w.promises p))) [
          | inl over_at_once ↦ absurd (ground (arith, rw (over_at_once, wait) at h))
          | inr n ↦ elim (Bool-cases (ltb time_max now1)) [
            | inl late ↦ absurd (ground (arith, rw (n, wait, late) at h))
            | inr l ↦ rw (n, wait, l, runs) at h
          ]
        ]

    block_on-rest :
        (w : World A) (c p : ℕ)
        → ((block_on std w c p time_max).fresh ≡ w.fresh)
          × ((block_on std w c p time_max).prom ≡ put w.prom c (some p))
    unfolding block_on add_blocking_promise
    block_on-rest w c p = ground arith

    leave_wait :
        (w : World A) (p c : ℕ) (rs bs : List ℕ)
        → Placed w c rs bs
        → Leaving (block_on std w c p time_max) c false rs (c ∷ bs)
    leave_wait w p c rs bs l =
        let kept = block_on-kept std w c p in
        let not_blocked : occurs c bs ≡ 0 = omega (arith, l.apart c, occurs-itself c) in
        let awake : occurs c w.sleep_pqueue ≡ 0 = omega (arith, l.apart c, occurs-itself c) in
        let (same, waits_for) = block_on-rest w c p in
        let asleep : (o : ℕ)
            → occurs o (block_on std w c p time_max).sleep_pqueue ≡ occurs o w.sleep_pqueue =
          λ o. ap (occurs o) kept.0 in
        record {
          waiting = block_on-Ready std w c p time_max rs l.waiting;
          stuck = block_on-Blocked std w c p time_max bs l.stuck (occurs-Absent c bs not_blocked);
          plain = λ o h. ap (λ f. f o) waits_for ∙ ground (arith, l.plain o, asleep o);
          apart = λ o. omega (arith, l.apart o, asleep o);
          older = λ o h. omega (arith, asleep o, l.older o (omega (arith, same)));
        }

    pub wait-Moved :
        (w v : World A) (p now1 now2 d x c : ℕ) (rs bs : List ℕ)
        → Placed w c rs bs
        → wait std fuel scan w p time_max now1 now2 ≡ some (gives_way d x v)
        → Moved w v c rs bs
    wait-Moved w v p now1 now2 d x c rs bs l e =
        let u = block_on std w c p time_max in
        let (r, start, same) =
          jumps_on u v c d x now2 (wait_jumps w v p c d x now1 now2 l.running e) in
        start-Moved w u v now2 r.1 c false rs (c ∷ bs) rs bs (leave_wait w p c rs bs l)
          (λ o. omega (arith, ap (occurs o) (block_on-kept std w c p).0))
          ((block_on-kept std w c p).2 ∙ l.running) (block_on-rest w c p).0
          (start ∙ ap (λ q. some (q, r.1)) same)
