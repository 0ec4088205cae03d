-- ===== src/Thread/Spawn/Result.antt =====
-- A call of async from its post to the result in its future.
use boost_cmt.Base.{
  ℕ, ◌≡◌, ◌≤◌, refl, ap, ◌∙◌, [], ◌∷◌, none, some, arith, false, Option-cases, inl, inr,
}
use boost_cmt.Base.Links.{Chain}
use boost_cmt.StdHeap.{StdHeap}
use boost_cmt.Error.{Result, ok, throws}
use boost_cmt.Promise.{Promise, empty, set_task, future_wait, wait_enter, finished}
use boost_cmt.Promise.Laws.{outcome}
use boost_cmt.Thread.State.{World, Tasks}
use boost_cmt.Thread.Queue.{dequeue}
use boost_cmt.Thread.Queue.Only.{dequeue_only}
use boost_cmt.Thread.Run.{rtask, process_task, set_active_context}
use boost_cmt.Thread.Run.Outcome.{run-outcome, expected}
use boost_cmt.Thread.Spawn.{async, make_rtask, make_task, post}

module _ {A : Type 0} where
  finishes :
      (q : Promise A) (r : Result A) (self : ℕ)
      → outcome q ≡ some r
      → future_wait (some q) self ≡ finished r
  unfolding future_wait wait_enter
  finishes q r self e = elim (Option-cases q.error) [
    | inr (x, h) ↦ ground arith
    | inl h ↦ elim (Option-cases q.value) [
      | inl k ↦ absurd (ground arith)
      | inr (v, k) ↦ ground arith
    ]
  ]

  expected_self : (std : StdHeap) (r : Result A) → expected std 0 none false r ≡ r
  expected_self std (ok v) = refl
  expected_self std (throws e) = refl

  module _ (std : StdHeap) where
    async-posted :
        (w : World A) (t count p prio : ℕ)
        → w.task_in_queue ≡ none
        → let u = async w t count p prio in
          Chain u.task_next u.task_in_queue (t ∷ [])
          × (u.task_pqueue ≡ w.task_pqueue)
          × (u.task_sch_queue ≡ w.task_sch_queue)
          × (u.when t ≤ 0)
          × (u.task_canceled t ≡ false)
          × (u.promises p ≡ set_task empty (some t))
    unfolding async make_rtask make_task post
    async-posted w t count p prio e = ground arith

    -- A task that is not canceled and whose promise is new leaves the functor's result in it.
    run_result :
        (scan : ℕ) (w : World A) (t p c self : ℕ) (result : Result A)
        → w.promises p ≡ set_task empty (some t)
        → w.task_canceled t ≡ false
        → (v : World A) × (process_task std scan w (rtask p) t c result ≡ some v)
          × (future_wait (some (v.promises p)) self ≡ finished result)
    unfolding process_task set_active_context set_task
    run_result scan w t p c self result e n =
        let u = set_active_context w t (some c) in
        let (v, ran, left) = run-outcome std scan u t p result (ap (λ q. q.blocked_thread) e) in
        let as_expected : outcome (v.promises p) ≡ some result =
          left
          ∙ ap (λ q. some (expected std scan q.error (w.task_canceled t) result)) e
          ∙ ap (λ b. some (expected std scan none b result)) n
          ∙ ap some (expected_self std result) in
        (
          set_active_context v t none,
          rw (ran, process_task) refl,
          finishes (v.promises p) result self as_expected,
        )

    -- A call of async from end to end, on a thread that has no other task: `dequeue` returns the
    -- task posted, running it ends, and then the future's `wait` returns what the functor returned,
    -- or throws what it threw, without blocking.
    pub async_result :
        (scan : ℕ) (w : World A) (t count p prio c self now1 now2 : ℕ) (result : Result A)
        → w.task_in_queue ≡ none
        → w.task_pqueue ≡ []
        → w.task_sch_queue ≡ []
        → (u : World A) × (v : World A) × (dequeue std 2 (async w t count p prio) now1 now2
            ≡ some (u, some t))
          × (process_task std scan u (rtask p) t c result ≡ some v)
          × (future_wait (some (v.promises p)) self ≡ finished result)
    async_result scan w t count p prio c self now1 now2 result e q s =
        let a = async-posted w t count p prio e in
        let (u, taken, same) =
          dequeue_only std (async w t count p prio) now1 now2 t a.0 (a.1 ∙ q) (a.2 ∙ s)
            (omega (arith, a.3)) in
        let (v, ran, waited) =
          run_result scan u t p c self result (ap (λ f. f p) same.0 ∙ a.5)
            (ap (λ (k : Tasks). k.task_canceled t) same.1 ∙ a.4) in
        (u, v, taken, ran, waited)
