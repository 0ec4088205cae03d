-- ===== src/Thread/Queue/Select.antt =====
-- Which task `dequeue` returns once the posted tasks stand in the two heaps.
use mathlib.Core.List.{mem-cons, perm_middle}
use mathlib.Core.List.Perm
use mathlib.Core.Logic.Or
use native.Mathlib.Bridge.{le_prop}
use boost_cmt.Base.{
  ℕ, ◌≤◌, ◌<◌, ◌≡◌, refl, List, [], ◌∷◌, ◌++◌, Option, none, some, arith, pop_back-append, Bool,
  false, Mem, Perm, leb, ltb→le, subst, sym, Bool-cases, inl, inr,
}
use boost_cmt.StdHeap.{StdHeap}
use boost_cmt.Thread.State.{World, Tasks}
use boost_cmt.Thread.Queue.{
  task_priority_less, task_when_less, pop_top, take_front, take_due, select,
}
use boost_cmt.Thread.Queue.Order.{task_priority_less-IsWeakOrder, task_when_less-IsWeakOrder}

-- The entries of a list, with none standing for no entry, in front of another list.
abbrev pub with_task : Option ℕ → List ℕ → List ℕ
with_task none v = v
with_task (some t) v = t ∷ v

module _ (std : StdHeap) where
  pub pop_top-rest_heap :
      (less : ℕ → ℕ → Bool) (x : ℕ) (v : List ℕ) → pop_top std less (x ∷ v) ≡ std.rest_heap less x v
  unfolding pop_top
  pop_top-rest_heap less x v = rw (std.pop_heap-append less x v) (pop_back-append _ x)

  -- In a heap of scheduled tasks the front is one of the latest.
  pub front_latest :
      (ts : Tasks) (p y : ℕ) (v : List ℕ)
      → std.IsHeap (task_when_less ts) (p ∷ v)
      → Mem y (p ∷ v)
      → ts.when y ≤ ts.when p
  front_latest ts p y v h m =
      Or.elim le_prop (mem-cons.0 m) (λ e. rw e (omega arith))
        (λ k.
          ltb→le (ts.when p) (ts.when y)
            (std.front_max (task_when_less ts) p v (task_when_less-IsWeakOrder ts) h y k))

module _ {A : Type 0} (std : StdHeap) where
  -- Both vectors are heaps in their orders.
  pub record Queued (w : World A) : Type 0 where
    pub by_priority : std.IsHeap (task_priority_less w.tasks) w.task_pqueue
    pub by_when : std.IsHeap (task_when_less w.tasks) w.task_sch_queue

  -- What a choice of the task `r` leaves of the queue `v`.
  pub record Takes (w : World A) (v : World A) (r : Option ℕ) : Type 0 where
    pub kept :
        Perm (with_task r (v.task_sch_queue ++ v.task_pqueue)) (w.task_sch_queue ++ w.task_pqueue)
    pub tasks_kept : v.tasks ≡ w.tasks
    pub in_queue_kept : v.task_in_queue ≡ w.task_in_queue
    pub idle : r ≡ none → v.task_pqueue ≡ []
    pub queued : Queued v

  take_front-Takes :
      (w : World A) (v : List ℕ)
      → w.task_pqueue ≡ v
      → Queued w
      → Takes w (take_front std w v).0 (take_front std w v).1
  unfolding take_front
  take_front-Takes w [] e q = record {
    kept = Perm.rfl;
    tasks_kept = refl;
    in_queue_kept = refl;
    idle = λ _. e;
    queued = q;
  }
  take_front-Takes w (p ∷ v) e q =
      let less = task_priority_less w.tasks in
      let order = task_priority_less-IsWeakOrder w.tasks in
      let heap : std.IsHeap less (p ∷ v) = subst (std.IsHeap less) e q.by_priority in
      let top = pop_top-rest_heap std less p v in
      record {
        kept =
            rw (top, e)
              (Perm.trans (Perm.symm (perm_middle w.task_sch_queue _))
                (Perm.append_left w.task_sch_queue (Perm.cons p (std.rest_heap-perm less p v))));
        tasks_kept = refl;
        in_queue_kept = refl;
        idle = λ n. absurd (ground arith);
        queued = record {
          by_priority =
              subst (std.IsHeap less) (sym top) (std.rest_heap-IsHeap less p v order heap);
          by_when = q.by_when;
        };
      }

  take_due-Takes :
      (w : World A) (now : ℕ) (v : List ℕ)
      → w.task_sch_queue ≡ v
      → Queued w
      → Takes w (take_due std w now v).0 (take_due std w now v).1
  unfolding take_due
  take_due-Takes w now [] e q = take_front-Takes w w.task_pqueue refl q
  take_due-Takes w now (p ∷ v) e q = elim (Bool-cases (leb (w.when p) now)) [
    | inr held ↦ rw (held, take_due) (take_front-Takes w w.task_pqueue refl q)
    | inl due ↦
        let less = task_when_less w.tasks in
        let order = task_when_less-IsWeakOrder w.tasks in
        let heap : std.IsHeap less (p ∷ v) = subst (std.IsHeap less) e q.by_when in
        let top = pop_top-rest_heap std less p v in
        rw (due, take_due)
          (record {
            kept = rw (top, e) (Perm.cons p (Perm.append_right _ (std.rest_heap-perm less p v)));
            tasks_kept = refl;
            in_queue_kept = refl;
            idle = λ n. absurd (ground arith);
            queued = record {
              by_priority = q.by_priority;
              by_when =
                  subst (std.IsHeap less) (sym top) (std.rest_heap-IsHeap less p v order heap);
            };
          })
  ]

  pub select-Takes :
      (w : World A) (now : ℕ) → Queued w → Takes w (select std w now).0 (select std w now).1
  unfolding select
  select-Takes w now q = take_due-Takes w now w.task_sch_queue refl q

  take_front_highest :
      (w : World A) (v : List ℕ) (t y : ℕ)
      → std.IsHeap (task_priority_less w.tasks) v
      → (take_front std w v).1 ≡ some t
      → Mem y (take_front std w v).0.task_pqueue
      → task_priority_less w.tasks t y ≡ false
  unfolding take_front
  take_front_highest w [] t y h e m = absurd (ground arith)
  take_front_highest w (p ∷ v) t y h e m =
      let less = task_priority_less w.tasks in
      let m' = subst (Mem y) (pop_top-rest_heap std less p v) m in
      let inside = (Perm.mem_iff (std.rest_heap-perm less p v)).0 m' in
      let same : p ≡ t = cc in
      subst (λ x. less x y ≡ false) same
        (std.front_max less p v (task_priority_less-IsWeakOrder w.tasks) h y inside)

  pub take_due_none :
      (w : World A) (now : ℕ) (v : List ℕ)
      → v ≡ []
      → take_due std w now v ≡ take_front std w w.task_pqueue
  unfolding take_due
  take_due_none w now [] e = refl
  take_due_none w now (p ∷ v) e = absurd (ground arith)

  -- Where no task is scheduled, the task returned has the highest priority of those queued, and
  -- among those of its priority the lowest number of posting.
  pub select_highest :
      (w : World A) (now t y : ℕ)
      → Queued w
      → w.task_sch_queue ≡ []
      → (select std w now).1 ≡ some t
      → Mem y (select std w now).0.task_pqueue
      → task_priority_less w.tasks t y ≡ false
  unfolding select
  select_highest w now t y q s e m =
      let plain = take_due_none w now w.task_sch_queue s in
      take_front_highest w w.task_pqueue t y q.by_priority (rw plain at e) (rw plain at m)

  take_due_held :
      (w : World A) (now y : ℕ) (v : List ℕ)
      → std.IsHeap (task_when_less w.tasks) v
      → Mem y v
      → now < w.when y
      → take_due std w now v ≡ take_front std w w.task_pqueue
  unfolding take_due
  take_due_held w now y [] q m h = refl
  take_due_held w now y (p ∷ v) q m h =
      let late = front_latest std w.tasks p y v q m in ground arith

  -- While some scheduled task is not yet due, no scheduled task is returned, those that are due
  -- included: the heap of scheduled tasks has the latest in front, and the choice is the one that
  -- is made where nothing is scheduled.
  pub select_held_back :
      (w : World A) (now y : ℕ)
      → Queued w
      → Mem y w.task_sch_queue
      → now < w.when y
      → select std w now ≡ take_front std w w.task_pqueue
  unfolding select
  select_held_back w now y q m h = take_due_held w now y w.task_sch_queue q.by_when m h
