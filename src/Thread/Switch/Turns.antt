-- ===== src/Thread/Switch/Turns.antt =====
-- The order in which contexts that yield take turns.
use boost_cmt.Base.{
  ℕ, zero, suc, ◌≡◌, refl, sym, subst, ◌∙◌, List, [], ◌∷◌, ◌++◌, Option, none, some, arith, Bool,
  true, length, ap, ◌≢◌,
}
use mathlib.Core.List.{append_assoc}
use boost_cmt.Base.Links.{Absent, Absent-append, Chain-put}
use boost_cmt.StdHeap.{StdHeap}
use boost_cmt.Thread.State.{World, time_max}
use boost_cmt.Thread.Ready.{
  Ready, ready_pop_front, ready_push_back, ready_pop_front-Ready, ready_push_back-Ready,
}
use boost_cmt.Thread.Timeouts.{check_for_timeouts}
use boost_cmt.Thread.Switch.{new_context, ensure_current, jump_from, start_next_task, yield}

module _ {A : Type 0} where
  -- The first context of the list runs, and the others are ready in this order; nothing sleeps and
  -- no task is scheduled.
  pub record InTurn (w : World A) (c : ℕ) (xs : List ℕ) : Type 0 where
    pub running : w.current ≡ some c
    pub waiting : Ready w xs
    pub absent : Absent c xs
    pub no_sleeper : w.sleep_pqueue ≡ []
    pub no_scheduled : w.task_sch_queue ≡ []

  abbrev state_of : World A → Option (World A × ℕ) → World A
  state_of w none = w
  state_of w (some r) = r.0

  pub ensure_current-some : (w : World A) (c : ℕ) → w.current ≡ some c → ensure_current w ≡ (w, c)
  unfolding ensure_current
  ensure_current-some w c e = ground arith

  -- The state after the running context `c` went to the end and `x` began to run.
  abbrev turned : World A → ℕ → ℕ → World A
  turned w c x = record (ready_push_back (ready_pop_front w).0 c) { current = some x }

  turned-quiet :
      (w : World A) (c x : ℕ)
      → ((turned w c x).sleep_pqueue ≡ w.sleep_pqueue)
        × ((turned w c x).task_sch_queue ≡ w.task_sch_queue)
  unfolding ready_push_back ready_pop_front
  turned-quiet w c x = ground arith

  alone_made :
      (w : World A) (c : ℕ)
      → ((jump_from w c true none).1 ≡ w.fresh)
        × ((jump_from w c true none).0.current ≡ some w.fresh)
        × ((jump_from w c true none).0.fresh ≡ suc w.fresh)
  unfolding jump_from new_context ready_push_back
  alone_made w c = ground arith

  pushed-fresh : (w : World A) (c : ℕ) → (ready_push_back w c).fresh ≡ w.fresh
  unfolding ready_push_back
  pushed-fresh w c = ground arith

  alone-Ready :
      (w : World A) (c : ℕ)
      → c ≢ w.fresh
      → Ready (ready_push_back w c) (c ∷ [])
      → Ready (jump_from w c true none).0 (c ∷ [])
  unfolding jump_from new_context
  alone-Ready w c n r = record {
    chain =
        Chain-put (ready_push_back w c).next (ready_push_back w c).fresh none
          (ready_push_back w c).ready_head (c ∷ []) (rw (pushed-fresh w c) n, tt) r.chain;
    tail = r.tail;
    distinct = r.distinct;
  }

  module _ (std : StdHeap) (fuel scan : ℕ) where
    pub nothing_due :
        (w : World A) (now : ℕ)
        → w.sleep_pqueue ≡ []
        → w.task_sch_queue ≡ []
        → check_for_timeouts std fuel scan w now ≡ some (w, time_max)
    unfolding check_for_timeouts
    nothing_due w now s q = ground arith

    pub start_from :
        (w : World A) (now t c : ℕ) (r : Bool) (h : Option ℕ)
        → check_for_timeouts std fuel scan w now ≡ some (w, t)
        → w.current ≡ some c
        → w.ready_head ≡ h
        → start_next_task std fuel scan w now r ≡ some (jump_from w c r h)
    unfolding start_next_task
    start_from w now t c r h e k l =
        rw (e, start_next_task, ensure_current-some w c k) (ap (λ q. some (jump_from w c r q)) l)

    yield_from :
        (w : World A) (now c x : ℕ) (xs : List ℕ)
        → InTurn w c (x ∷ xs)
        → yield std fuel scan w now ≡ some (jump_from w c true (some x))
    unfolding yield
    yield_from w now c x xs t =
        let quiet = nothing_due w now t.no_sleeper t.no_scheduled in
        start_from w now time_max c true (some x) quiet t.running t.waiting.chain.0

    -- One yield: the next context in line runs, and the one that yielded is last in line.
    pub yield-InTurn :
        (w : World A) (now c x : ℕ) (xs : List ℕ)
        → InTurn w c (x ∷ xs)
        → (v : World A) × (yield std fuel scan w now ≡ some (v, x)) × InTurn v x (xs ++ c ∷ [])
    unfolding yield jump_from
    yield-InTurn w now c x xs t =
        let popped = ready_pop_front-Ready w x xs t.waiting in
        let pushed = ready_push_back-Ready (ready_pop_front w).0 c xs popped.1 t.absent.1 in
        let kept = turned-quiet w c x in
        (
          turned w c x,
          yield_from w now c x xs t,
          record {
            running = refl;
            waiting = record {
              chain = pushed.chain;
              tail = pushed.tail;
              distinct = pushed.distinct;
            };
            absent = Absent-append x c xs t.waiting.distinct.0 (λ e. t.absent.0 (sym e));
            no_sleeper = kept.0 ∙ t.no_sleeper;
            no_scheduled = kept.1 ∙ t.no_scheduled;
          },
        )

    -- One yield after another, each by the context that runs then; `now` is what the clock shows.
    unfoldable pub yields : ℕ → World A → ℕ → Option (World A)
    yields zero w now = some w
    yields (suc n) w now = elim (yield std fuel scan w now) [
      | none ↦ none
      | some (v, next) ↦ yields n v now
    ]

    -- One yield, and the same round of yields, with a predicate that a jump preserves.
    module _ {ℓ} (P : World A → Type ℓ)
        (keep : (w : World A) (c x : ℕ) → P w → P (jump_from w c true (some x)).0) where
      pub yield_keeps :
          (w : World A) (now c x : ℕ) (xs : List ℕ)
          → P w
          → InTurn w c (x ∷ xs)
          → (v : World A) × (yield std fuel scan w now ≡ some (v, x))
            × InTurn v x (xs ++ c ∷ [])
            × P v
      yield_keeps w now c x xs k t =
          let (v, e, next) = yield-InTurn w now c x xs t in
          let same : (jump_from w c true (some x)).0 ≡ v =
            ap (state_of w) (sym (yield_from w now c x xs t) ∙ e) in
          (v, e, next, subst P same (keep w c x k))

      pub yields_keep :
          (w : World A) (now c x : ℕ) (us vs : List ℕ)
          → P w
          → InTurn w c (us ++ x ∷ vs)
          → (v : World A) × (yields (suc (length us)) w now ≡ some v)
            × InTurn v x (vs ++ c ∷ us)
            × P v
      unfolding yields
      yields_keep w now c x [] vs k t =
          let (v, e, next, m) = yield_keeps w now c x vs k t in (v, rw (e, yields) refl, next, m)
      yields_keep w now c x (u ∷ us) vs k t =
          let (v, e, next, m) = yield_keeps w now c u (us ++ x ∷ vs) k t in
          let line = append_assoc us (x ∷ vs) (c ∷ []) in
          let (z, d, last, n) =
            yields_keep v now u x us (vs ++ c ∷ []) m (subst (InTurn v u) line next) in
          (z, rw (e, yields) d, subst (InTurn z x) (append_assoc vs (c ∷ []) (u ∷ us)) last, n)

    -- Where no context sleeps or waits with a timeout, and no task is scheduled, the contexts take turns: when `c` runs and `us`, `x`, `vs` are ready in this order,
    -- then after as many yields as `us` has contexts and one more it is the turn of `x`, behind
    -- which stand `vs`, `c` and `us`, and still nothing sleeps and no task is scheduled.
    pub yields-InTurn :
        (w : World A) (now c x : ℕ) (us vs : List ℕ)
        → InTurn w c (us ++ x ∷ vs)
        → (v : World A) × (yields (suc (length us)) w now ≡ some v) × InTurn v x (vs ++ c ∷ us)
    yields-InTurn w now c x us vs t =
        let (v, e, last, k) = yields_keep (λ w. Unit {0}) (λ w c x k. tt) w now c x us vs tt t in
        (v, e, last)

    -- With nothing else ready a yield does not return at once: the context stands in the ready queue
    -- while a new context, made for the purpose, runs.
    pub yield_alone :
        (w : World A) (now c : ℕ)
        → InTurn w c []
        → (v : World A) × (yield std fuel scan w now ≡ some (v, w.fresh))
          × (v.current ≡ some w.fresh)
          × (v.fresh ≡ suc w.fresh)
          × (c ≢ w.fresh → Ready v (c ∷ []))
    unfolding yield
    yield_alone w now c t =
        let quiet = nothing_due w now t.no_sleeper t.no_scheduled in
        let made = alone_made w c in
        let pushed = ready_push_back-Ready w c [] t.waiting tt in
        (
          (jump_from w c true none).0,
          start_from w now time_max c true none quiet t.running t.waiting.chain
              ∙ ap (λ n. some ((jump_from w c true none).0, n)) made.0,
          made.1,
          made.2,
          λ n. alone-Ready w c n pushed,
        )
