-- ===== src/Thread/Queue/Refill.antt =====
-- `dequeue` as a whole: it ends, and it neither loses nor doubles a task.
use mathlib.Core.List.{perm_middle, perm_append_singleton}
use mathlib.Core.List.Perm
use boost_cmt.Base.{
  ℕ, zero, suc, ◌<◌, ◌≡◌, refl, sym, subst, ◌∙◌, List, [], ◌∷◌, ◌++◌, Option, none, some, arith,
  length, Perm, Bool-cases, inl, inr, ltb, Bool,
}
use boost_cmt.Base.Links.{Chain}
use boost_cmt.StdHeap.{StdHeap}
use boost_cmt.Thread.State.{World, Tasks}
use boost_cmt.Thread.Queue.{
  task_priority_less, task_when_less, place, enqueue, select, drain, refill, dequeue,
}
use boost_cmt.Thread.Queue.Order.{task_priority_less-IsWeakOrder, task_when_less-IsWeakOrder}
use boost_cmt.Thread.Queue.Select.{with_task, Queued, select-Takes}

module _ (std : StdHeap) where
  pub pushed-perm :
      (less : ℕ → ℕ → Bool) (v : List ℕ) (x : ℕ) → Perm (std.push_heap less (v ++ x ∷ [])) (x ∷ v)
  pushed-perm less v x =
      Perm.trans (std.push_heap-perm less (v ++ x ∷ [])) (perm_append_singleton x v)

module _ {A : Type 0} (std : StdHeap) where
  -- Every task that stands in one of the two heaps.
  abbrev pub held : World A → List ℕ
  held w = w.task_sch_queue ++ w.task_pqueue

  -- From `w` to `v` exactly the tasks `ps` were added to the heaps.
  pub record Adds (w v : World A) (ps : List ℕ) : Type 0 where
    pub added : Perm (held v) (ps ++ held w)
    pub tasks_kept : v.tasks ≡ w.tasks
    pub emptied : v.task_in_queue ≡ w.task_in_queue
    pub queued : Queued std v

  place-Adds : (w : World A) (now c : ℕ) → Queued std w → Adds w (place std w now c) (c ∷ [])
  unfolding place
  place-Adds w now c q = elim (Bool-cases (ltb now (w.when c))) [
    | inl later ↦
        rw (later, place)
          (record {
            added =
                Perm.append_right w.task_pqueue
                  (pushed-perm std (task_when_less w.tasks) w.task_sch_queue c);
            tasks_kept = refl;
            emptied = refl;
            queued = record {
              by_priority = q.by_priority;
              by_when =
                  std.push_heap-IsHeap (task_when_less w.tasks) w.task_sch_queue c
                    (task_when_less-IsWeakOrder w.tasks) q.by_when;
            };
          })
    | inr due ↦
        rw (due, place)
          (record {
            added =
                Perm.trans
                  (Perm.append_left w.task_sch_queue
                    (pushed-perm std (task_priority_less w.tasks) w.task_pqueue c))
                  (perm_middle w.task_sch_queue w.task_pqueue);
            tasks_kept = refl;
            emptied = refl;
            queued = record {
              by_priority =
                  std.push_heap-IsHeap (task_priority_less w.tasks) w.task_pqueue c
                    (task_priority_less-IsWeakOrder w.tasks) q.by_priority;
              by_when = q.by_when;
            };
          })
  ]

  Adds-trans :
      (u v w : World A) (c : ℕ) (ps : List ℕ) → Adds u v (c ∷ []) → Adds v w ps → Adds u w (c ∷ ps)
  Adds-trans u v w c ps a b = record {
    added = Perm.trans b.added (Perm.trans (Perm.append_left ps a.added) (perm_middle ps (held u)));
    tasks_kept = b.tasks_kept ∙ a.tasks_kept;
    emptied = b.emptied ∙ a.emptied;
    queued = b.queued;
  }

  pub place-tasks : (w : World A) (now c : ℕ) → (place std w now c).tasks ≡ w.tasks
  unfolding place
  place-tasks w now c = ground arith

  enqueue-Adds :
      (f : ℕ) (w : World A) (now : ℕ) (cur : Option ℕ) (ps : List ℕ)
      → length ps < f
      → Chain w.task_next cur ps
      → Queued std w
      → (v : World A) × (enqueue std f w now cur ≡ some v) × Adds w v ps
  unfolding enqueue
  enqueue-Adds zero w now cur ps l h q = absurd (omega arith)
  enqueue-Adds (suc f) w now none [] l h q =
      (w, refl, record { added = Perm.rfl; tasks_kept = refl; emptied = refl; queued = q })
  enqueue-Adds (suc f) w now (some t) [] l h q = absurd (ground arith)
  enqueue-Adds (suc f) w now none (p ∷ ps) l h q = absurd (ground arith)
  enqueue-Adds (suc f) w now (some t) (p ∷ ps) l h q =
      let same : p ≡ t = cc (h.0) in
      let one = place-Adds w now t q in
      let links : Chain (place std w now t).task_next (w.task_next t) ps =
        subst (λ (k : Tasks). Chain k.task_next (w.task_next t) ps) (sym (place-tasks w now t))
          (subst (λ x. Chain w.task_next (w.task_next x) ps) same h.1) in
      let (v, done, more) =
        enqueue-Adds f (place std w now t) now (w.task_next t) ps (omega arith) links one.queued in
      (v, done, subst (λ x. Adds w v (x ∷ ps)) (sym same) (Adds-trans w _ v t ps one more))

  pub drain-Adds :
      (fuel : ℕ) (w : World A) (now : ℕ) (cur : Option ℕ) (ps : List ℕ)
      → length ps < fuel
      → Chain w.task_next cur ps
      → Queued std w
      → (v : World A) × (drain std fuel w now cur ≡ some v)
        × Adds (record w { task_in_queue = none }) v ps
  unfolding drain
  drain-Adds fuel w now none [] l h q = (
    record w { task_in_queue = none },
    refl,
    record {
      added = Perm.rfl;
      tasks_kept = refl;
      emptied = refl;
      queued = record { by_priority = q.by_priority; by_when = q.by_when };
    },
  )
  drain-Adds fuel w now none (p ∷ ps) l h q = absurd (ground arith)
  drain-Adds fuel w now (some t) ps l h q =
      enqueue-Adds fuel (record w { task_in_queue = none }) now (some t) ps l h
        (record { by_priority = q.by_priority; by_when = q.by_when })

  -- `dequeue` ends, given one more round than tasks were posted. The posted tasks `ps` and those in
  -- the heaps are, each as often, the task returned and those that stay in the heaps; both heaps
  -- are in order again, nothing is left on the input queue, and no task is returned only if no
  -- unscheduled task is left.
  pub dequeue-keeps :
      (fuel : ℕ) (w : World A) (t1 t2 : ℕ) (ps : List ℕ)
      → length ps < fuel
      → Chain w.task_next w.task_in_queue ps
      → Queued std w
      → (v : World A) × (r : Option ℕ) × (dequeue std fuel w t1 t2 ≡ some (v, r))
        × Perm (with_task r (held v)) (ps ++ held w)
        × Queued std v
        × (v.tasks ≡ w.tasks)
        × (v.task_in_queue ≡ none)
        × (r ≡ none → v.task_pqueue ≡ [])
  unfolding dequeue refill
  dequeue-keeps fuel w t1 t2 ps l h q =
      let (v, done, more) = drain-Adds fuel w t1 w.task_in_queue ps l h q in
      let chosen = select-Takes std v t2 more.queued in
      (
        (select std v t2).0,
        (select std v t2).1,
        rw (done, dequeue, refill) refl,
        Perm.trans chosen.kept more.added,
        chosen.queued,
        chosen.tasks_kept ∙ more.tasks_kept,
        chosen.in_queue_kept ∙ more.emptied,
        chosen.idle,
      )
