-- ===== src/Thread/Queue.antt =====
-- The task queues of thread_private: the orders of the two heaps, `enqueue` and `dequeue`. Each
-- reading of the clock is an argument.
pub mod Order
pub mod Select
pub mod Refill
pub mod Drain
pub mod Received
pub mod Only
use boost_cmt.Base.{
  ℕ, zero, suc, List, [], ◌∷◌, ◌++◌, Option, none, some, pop_back, if◌then◌else◌, Bool, true, false,
  ltb, leb,
}
use boost_cmt.StdHeap.{StdHeap}
use boost_cmt.Thread.State.{World, Tasks}

module _ (ts : Tasks) where
  abbrev pub task_priority_less : ℕ → ℕ → Bool
  task_priority_less a b =
      if ltb (ts.prio a) (ts.prio b)
      then true
      else if ltb (ts.prio b) (ts.prio a)
      then false
      else ltb (ts.posted_num b) (ts.posted_num a)

  abbrev pub task_when_less : ℕ → ℕ → Bool
  task_when_less a b = ltb (ts.when a) (ts.when b)

module _ (std : StdHeap) where
  -- `pop_heap` and `pop_back`.
  unfoldable pub pop_top : (ℕ → ℕ → Bool) → List ℕ → List ℕ
  pop_top less v = pop_back (std.pop_heap less v)

module _ {A : Type 0} (std : StdHeap) where
  -- `push_back` and `push_heap` on the queue for a task that is due after `now`, or on the other.
  unfoldable pub place : World A → ℕ → ℕ → World A
  place w now cur =
      if ltb now (w.when cur)
      then record w {
        task_sch_queue = std.push_heap (task_when_less w.tasks) (w.task_sch_queue ++ cur ∷ []);
      }
      else record w {
        task_pqueue = std.push_heap (task_priority_less w.tasks) (w.task_pqueue ++ cur ∷ []);
      }

  -- `while( cur )`; `none` is returned only if the fuel runs out.
  unfoldable pub enqueue : ℕ → World A → ℕ → Option ℕ → Option (World A)
  enqueue zero w now cur = none
  enqueue (suc f) w now none = some w
  enqueue (suc f) w now (some t) = enqueue f (place w now t) now (w.task_next t)

  -- `dequeue` once the posted tasks are in the heaps. The vector looked at is passed along.
  unfoldable pub take_front : World A → List ℕ → World A × Option ℕ
  take_front w [] = (w, none)
  take_front w (p ∷ v) =
      (record w { task_pqueue = pop_top std (task_priority_less w.tasks) (p ∷ v) }, some p)

  unfoldable pub take_due : World A → ℕ → List ℕ → World A × Option ℕ
  take_due w now [] = take_front w w.task_pqueue
  take_due w now (p ∷ v) =
      if leb (w.when p) now
      then (record w { task_sch_queue = pop_top std (task_when_less w.tasks) (p ∷ v) }, some p)
      else take_front w w.task_pqueue

  unfoldable pub select : World A → ℕ → World A × Option ℕ
  select w now = take_due w now w.task_sch_queue

  -- The exchange of `task_in_queue` with 0, and `enqueue` of what was there.
  unfoldable pub drain : ℕ → World A → ℕ → Option ℕ → Option (World A)
  drain fuel w now none = some (record w { task_in_queue = none })
  drain fuel w now (some t) = enqueue fuel (record w { task_in_queue = none }) now (some t)

  unfoldable pub refill : ℕ → World A → ℕ → Option (World A)
  refill fuel w now = drain fuel w now w.task_in_queue

  -- `enqueue` reads the clock as `t1`, `dequeue` as `t2`.
  unfoldable pub dequeue : ℕ → World A → ℕ → ℕ → Option (World A × Option ℕ)
  dequeue fuel w t1 t2 = elim (refill fuel w t1) [ none ↦ none | some w' ↦ some (select w' t2) ]
