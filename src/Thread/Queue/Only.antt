-- ===== src/Thread/Queue/Only.antt =====
-- What dequeue leaves as it was, and what it does on a thread with one task.
use boost_cmt.Base.{
  ℕ, zero, suc, ◌≡◌, ◌≤◌, refl, sym, ap, subst, ◌∙◌, List, [], ◌∷◌, Option, none, some, arith,
  perm_single, Perm, Option-cases, Bool-cases, inl, inr, leb,
}
use boost_cmt.Base.Links.{Chain}
use boost_cmt.StdHeap.{StdHeap}
use boost_cmt.Thread.State.{World}
use boost_cmt.Thread.Queue.{dequeue, refill, drain, enqueue, place, select, take_front, take_due}
use boost_cmt.Thread.Queue.Select.{Queued}
use boost_cmt.Thread.Queue.Drain.{run_order, refill_runs_all}

module _ {A : Type 0} where
  -- The promises, the tasks themselves and the contexts are left by what only changes the queues.
  abbrev pub Untouched : World A → World A → Type 0
  Untouched w v =
      (v.promises ≡ w.promises)
      × (v.tasks ≡ w.tasks)
      × (v.contexts ≡ w.contexts)
      × (v.ready_head ≡ w.ready_head)
      × (v.ready_tail ≡ w.ready_tail)
      × (v.blocked ≡ w.blocked)
      × (v.sleep_pqueue ≡ w.sleep_pqueue)

  unchanged : (w : World A) → Untouched w w
  unchanged w = (refl, refl, refl, refl, refl, refl, refl)

  module _ (std : StdHeap) where
    place-Untouched : (w : World A) (now c : ℕ) → Untouched w (place std w now c)
    unfolding place
    place-Untouched w now c = ground arith

    take_front-Untouched : (w : World A) (v : List ℕ) → Untouched w (take_front std w v).0
    unfolding take_front
    take_front-Untouched w [] = (refl, refl, refl, refl, refl, refl, refl)
    take_front-Untouched w (p ∷ v) = (refl, refl, refl, refl, refl, refl, refl)

    take_due-Untouched : (w : World A) (now : ℕ) (v : List ℕ) → Untouched w (take_due std w now v).0
    unfolding take_due
    take_due-Untouched w now [] = take_front-Untouched w w.task_pqueue
    take_due-Untouched w now (p ∷ v) = elim (Bool-cases (leb (w.when p) now)) [
      | inl e ↦ rw (e, take_due) (refl, refl, refl, refl, refl, refl, refl)
      | inr e ↦ rw (e, take_due) (take_front-Untouched w w.task_pqueue)
    ]

    abbrev world_in : World A → Option (World A) → World A
    world_in w none = w
    world_in w (some v) = v

    Untouched-trans : (u v w : World A) → Untouched u v → Untouched v w → Untouched u w
    Untouched-trans u v w a b =
        (b.0 ∙ a.0, b.1 ∙ a.1, b.2 ∙ a.2, b.3 ∙ a.3, b.4 ∙ a.4, b.5 ∙ a.5, b.6 ∙ a.6)

    enqueue-Untouched :
        (f : ℕ) (w v : World A) (now : ℕ) (cur : Option ℕ)
        → enqueue std f w now cur ≡ some v
        → Untouched w v
    unfolding enqueue
    enqueue-Untouched zero w v now cur e = absurd (ground arith)
    enqueue-Untouched (suc f) w v now none e =
        subst (Untouched w) (ap (world_in w) e) (refl, refl, refl, refl, refl, refl, refl)
    enqueue-Untouched (suc f) w v now (some t) e =
        Untouched-trans w (place std w now t) v (place-Untouched w now t)
          (enqueue-Untouched f (place std w now t) v now (w.task_next t) e)

    drain-Untouched :
        (f : ℕ) (w v : World A) (now : ℕ) (cur : Option ℕ)
        → drain std f w now cur ≡ some v
        → Untouched w v
    unfolding drain
    drain-Untouched f w v now none e =
        subst (Untouched w) (ap (world_in w) e) (refl, refl, refl, refl, refl, refl, refl)
    drain-Untouched f w v now (some t) e =
        enqueue-Untouched f (record w { task_in_queue = none }) v now (some t) e

    first_run :
        (v : World A) (now t : ℕ) → run_order std 1 v now ≡ t ∷ [] → (select std v now).1 ≡ some t
    unfolding run_order
    first_run v now t e = elim (Option-cases (select std v now).1) [
      | inl h ↦ absurd (ground arith)
      | inr (s, h) ↦ ground arith
    ]

    -- On a thread with no other task, the next `dequeue` takes the task that was posted.
    pub dequeue_only :
        (w : World A) (now1 now2 t : ℕ)
        → Chain w.task_next w.task_in_queue (t ∷ [])
        → w.task_pqueue ≡ []
        → w.task_sch_queue ≡ []
        → w.when t ≤ now1
        → (v : World A) × (dequeue std 2 w now1 now2 ≡ some (v, some t)) × Untouched w v
    unfolding dequeue refill select
    dequeue_only w now1 now2 t h p s d =
        let queued : Queued std w = record {
          by_priority = subst (std.IsHeap _) (sym p) (std.heap_nil _);
          by_when = subst (std.IsHeap _) (sym s) (std.heap_nil _);
        } in
        let (u, filled, all, order) =
          refill_runs_all std 2 1 w now1 now2 (t ∷ []) (omega arith) h queued s (d, tt)
            (rw p (omega arith)) in
        let only = perm_single _ t (subst (λ q. Perm (run_order std 1 u now2) (t ∷ q)) p all) in
        let chosen = first_run u now2 t only in
        (
          (select std u now2).0,
          rw (filled, dequeue) (ap (λ r. some ((select std u now2).0, r)) chosen),
          Untouched-trans w u (select std u now2).0
              (drain-Untouched 2 w u now1 w.task_in_queue filled)
              (take_due-Untouched u now2 u.task_sch_queue),
        )
