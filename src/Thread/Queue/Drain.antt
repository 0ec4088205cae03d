-- ===== src/Thread/Queue/Drain.antt =====
-- All tasks that are posted are run, in the order of their priorities.
use mathlib.Core.List.Perm
use boost_cmt.Base.{
  ℕ, zero, suc, ◌+◌, ◌≡◌, ◌≤◌, ◌<◌, refl, sym, subst, ◌∙◌, List, [], ◌∷◌, ◌++◌, Option, none, some,
  false, arith, length, Perm, Mem, Option-cases, inl, inr, length-perm, drop-eq-nil, length-append,
}
use boost_cmt.Base.Links.{Chain}
use boost_cmt.StdHeap.{StdHeap}
use boost_cmt.Thread.State.{World, Tasks}
use boost_cmt.Thread.Queue.{select, take_front, enqueue, drain, refill, place, task_priority_less}
use boost_cmt.Thread.Queue.Select.{Queued, with_task, select-Takes, select_highest, take_due_none}
use boost_cmt.Thread.Queue.Refill.{drain-Adds, place-tasks}

-- No task comes before one that has a higher priority, or the same and was made earlier.
abbrev pub InOrder : Tasks → List ℕ → Type 0
InOrder ts [] = Unit {0}
InOrder ts (t ∷ l) = ((y : ℕ) → Mem y l → task_priority_less ts t y ≡ false) × InOrder ts l

module _ {A : Type 0} where
  -- The tasks that a thread runs one after the other, where these post nothing: what `dequeue`
  -- chooses, up to so many times.
  unfoldable pub run_order : StdHeap → ℕ → World A → ℕ → List ℕ
  run_order std zero w now = []
  run_order std (suc n) w now = elim (select std w now).1 [
    | none ↦ []
    | some t ↦ t ∷ run_order std n (select std w now).0 now
  ]

  abbrev pub AllDue : World A → ℕ → List ℕ → Type 0
  AllDue w now [] = Unit {0}
  AllDue w now (t ∷ l) = (w.when t ≤ now) × AllDue w now l

  AllDue-tasks :
      (w v : World A) (now : ℕ) (ps : List ℕ)
      → v.tasks ≡ w.tasks
      → AllDue w now ps
      → AllDue v now ps
  AllDue-tasks w v now [] e d = tt
  AllDue-tasks w v now (t ∷ ps) e d =
      (subst (λ (k : Tasks). k.when t ≤ now) (sym e) d.0, AllDue-tasks w v now ps e d.1)

  module _ (std : StdHeap) where
    take_front-task_sch_queue :
        (w : World A) (v : List ℕ) → (take_front std w v).0.task_sch_queue ≡ w.task_sch_queue
    unfolding take_front
    take_front-task_sch_queue w [] = refl
    take_front-task_sch_queue w (p ∷ v) = refl

    select-task_sch_queue :
        (w : World A) (now : ℕ) → w.task_sch_queue ≡ [] → (select std w now).0.task_sch_queue ≡ []
    unfolding select
    select-task_sch_queue w now e =
        rw (take_due_none std w now w.task_sch_queue e)
          (take_front-task_sch_queue w w.task_pqueue ∙ e)

    -- Where nothing is scheduled, the choice is taken from the unscheduled tasks.
    select-Perm :
        (w : World A) (now : ℕ)
        → Queued std w
        → w.task_sch_queue ≡ []
        → Perm (with_task (select std w now).1 (select std w now).0.task_pqueue) w.task_pqueue
    select-Perm w now q e =
        let rest = (select std w now).0.task_pqueue in
        let r = (select std w now).1 in
        subst (λ s. Perm (with_task r rest) (s ++ w.task_pqueue)) e
          (subst (λ s. Perm (with_task r (s ++ rest)) (w.task_sch_queue ++ w.task_pqueue))
            (select-task_sch_queue w now e) (select-Takes std w now q).kept)

    run_order-Perm :
        (n : ℕ) (w : World A) (now : ℕ)
        → Queued std w
        → w.task_sch_queue ≡ []
        → length w.task_pqueue ≤ n
        → Perm (run_order std n w now) w.task_pqueue × InOrder w.tasks (run_order std n w now)
    unfolding run_order
    run_order-Perm zero w now q e l =
        let none_left : w.task_pqueue ≡ [] = drop-eq-nil 0 w.task_pqueue l in
        (rw none_left Perm.nil, tt)
    run_order-Perm (suc n) w now q e l =
        let left = select-Perm w now q e in
        let v = (select std w now).0 in
        let takes = select-Takes std w now q in
        let quiet = select-task_sch_queue w now e in
        elim (Option-cases (select std w now).1) [
          | inl h ↦
              let none_left = takes.idle h in
              let empty : Perm v.task_pqueue w.task_pqueue =
                subst (λ r. Perm (with_task r v.task_pqueue) w.task_pqueue) h left in
              rw (h, run_order) (subst (λ x. Perm x w.task_pqueue) none_left empty, tt)
          | inr (t, h) ↦
              let first : Perm (t ∷ v.task_pqueue) w.task_pqueue =
                subst (λ r. Perm (with_task r v.task_pqueue) w.task_pqueue) h left in
              let fewer = length-perm first in
              let (rest, order) =
                run_order-Perm n v now takes.queued quiet (omega (arith, fewer)) in
              rw (h, run_order)
                (
                  Perm.trans (Perm.cons t rest) first,
                  (
                    λ y m. select_highest std w now t y q e h ((Perm.mem_iff rest).0 m),
                    subst (λ ts. InOrder ts (run_order std n v now)) takes.tasks_kept order,
                  ),
                )
        ]

    place_due :
        (w : World A) (now t : ℕ)
        → w.when t ≤ now
        → (place std w now t).task_sch_queue ≡ w.task_sch_queue
    unfolding place
    place_due w now t l = ground arith

    abbrev scheduled : Option (World A) → List ℕ
    scheduled none = []
    scheduled (some v) = v.task_sch_queue

    enqueue_due :
        (f : ℕ) (w : World A) (now : ℕ) (cur : Option ℕ) (ps : List ℕ)
        → length ps < f
        → Chain w.task_next cur ps
        → AllDue w now ps
        → scheduled (enqueue std f w now cur) ≡ w.task_sch_queue
    unfolding enqueue
    enqueue_due zero w now cur ps l h d = absurd (omega arith)
    enqueue_due (suc f) w now none ps l h d = refl
    enqueue_due (suc f) w now (some t) [] l h d = absurd (ground arith)
    enqueue_due (suc f) w now (some t) (p ∷ ps) l h d =
        let same : p ≡ t = cc (h.0) in
        let kept = place-tasks std w now t in
        let links : Chain (place std w now t).task_next (w.task_next t) ps =
          subst (λ (k : Tasks). Chain k.task_next (w.task_next t) ps) (sym kept)
            (subst (λ x. Chain w.task_next (w.task_next x) ps) same h.1) in
        enqueue_due f (place std w now t) now (w.task_next t) ps (omega arith) links
          (AllDue-tasks w (place std w now t) now ps kept d.1)
        ∙ place_due w now t (subst (λ x. w.when x ≤ now) same d.0)

    refill_due :
        (f : ℕ) (w : World A) (now : ℕ) (cur : Option ℕ) (ps : List ℕ)
        → length ps < f
        → Chain w.task_next cur ps
        → AllDue w now ps
        → scheduled (drain std f w now cur) ≡ w.task_sch_queue
    unfolding drain
    refill_due f w now none ps l h d = refl
    refill_due f w now (some t) ps l h d =
        enqueue_due f (record w { task_in_queue = none }) now (some t) ps l h
          (AllDue-tasks w (record w { task_in_queue = none }) now ps refl d)

    -- Where no task is scheduled and the posted tasks `ps` are due, reading the input queue ends,
    -- given one more round than tasks were posted. A thread that then runs what `dequeue` chooses,
    -- as often as there are tasks, runs every task that was posted or queued, each as often as it
    -- was, none before one of higher priority, and those of one priority as they were made.
    pub refill_runs_all :
        (fuel n : ℕ) (w : World A) (t1 t2 : ℕ) (ps : List ℕ)
        → length ps < fuel
        → Chain w.task_next w.task_in_queue ps
        → Queued std w
        → w.task_sch_queue ≡ []
        → AllDue w t1 ps
        → length ps + length w.task_pqueue ≤ n
        → (v : World A) × (refill std fuel w t1 ≡ some v)
          × Perm (run_order std n v t2) (ps ++ w.task_pqueue)
          × InOrder w.tasks (run_order std n v t2)
    unfolding refill
    refill_runs_all fuel n w t1 t2 ps l h q none_scheduled d enough =
        let (v, done, more) = drain-Adds std fuel w t1 w.task_in_queue ps l h q in
        let still : v.task_sch_queue ≡ [] =
          subst (λ x. scheduled x ≡ w.task_sch_queue) done
            (refill_due fuel w t1 w.task_in_queue ps l h d)
          ∙ none_scheduled in
        let all : Perm v.task_pqueue (ps ++ w.task_pqueue) =
          subst (λ s. Perm v.task_pqueue (ps ++ (s ++ w.task_pqueue))) none_scheduled
            (subst (λ s. Perm (s ++ v.task_pqueue) (ps ++ (w.task_sch_queue ++ w.task_pqueue)))
              still more.added) in
        let size : length v.task_pqueue ≡ length ps + length w.task_pqueue =
          length-perm all ∙ length-append ps w.task_pqueue in
        let (every, order) = run_order-Perm n v t2 more.queued still (omega (arith, size)) in
        (
          v,
          done,
          Perm.trans every all,
          subst (λ ts. InOrder ts (run_order std n v t2)) more.tasks_kept order,
        )
