-- ===== src/Thread/Loop.antt =====
-- process_tasks of src/thread.cpp: what a context that processes tasks does up to the next call
-- that runs other code, jumps away or blocks the OS thread.
pub mod Rest
pub mod Late
pub mod Starved
use boost_cmt.Base.{
  ℕ, zero, suc, Bool, true, false, List, Option, none, some, if◌then◌else◌, ◌==◌, not, ◌&&◌,
}
use boost_cmt.StdHeap.{StdHeap}
use boost_cmt.Promise.{is_some}
use boost_cmt.Thread.State.{World, time_min, time_max}
use boost_cmt.Thread.Queue.{dequeue}
use boost_cmt.Thread.Timeouts.{check_for_timeouts}
use boost_cmt.Thread.Switch.{start_next_task}

-- The readings of the clock in such a stretch: by the first `dequeue`, which reads it twice, by
-- check_for_timeouts, by start_next_task, and by the `dequeue` before the wait.
pub record Clock : Type 0 where
  pub enqueued : ℕ
  pub chosen : ℕ
  pub checked : ℕ
  pub switched : ℕ
  pub enqueued_last : ℕ
  pub chosen_last : ℕ

pub data Doing (A : Type 0) : Type 0 where
  -- The loop is over.
  exits : World A → Doing A
  -- It runs this task, and goes on with `task_done`.
  runs : ℕ → World A → Doing A
  -- It jumps to this context, and goes on with `resumed` and the timeout.
  jumps : (next timeout : ℕ) → World A → Doing A
  -- It waits on `task_ready`: for ever, or up to the timeout. It goes on at the loop's head.
  sleeps : Option ℕ → World A → Doing A
  -- It goes on at the loop's head with that `next`.
  loops : Option ℕ → World A → Doing A

module _ {A : Type 0} (std : StdHeap) (fuel scan : ℕ) where
  -- The wait under `block_wait`, once `next = dequeue()` gave that.
  unfoldable pub block_unless : Option (World A × Option ℕ) → ℕ → Option (Doing A)
  block_unless none timeout = none
  block_unless (some (w, some t)) timeout = some (loops (some t) w)
  block_unless (some (w, none)) timeout =
      some (sleeps (if timeout == time_max then none else some timeout) w)

  unfoldable pub block_wait : World A → ℕ → Clock → Option (Doing A)
  unfolding block_unless
  block_wait w timeout clock =
      block_unless (dequeue std fuel w clock.enqueued_last clock.chosen_last) timeout

  unfoldable pub give_way : Option (World A × ℕ) → ℕ → Option (Doing A)
  give_way none timeout = none
  give_way (some (w, next)) timeout = some (jumps next timeout w)

  -- From the inner loop's end to the first call that goes elsewhere, at the ready queue's head.
  unfoldable pub go_idle : Option ℕ → World A → ℕ → Clock → Option (Doing A)
  unfolding give_way block_wait
  go_idle head w timeout clock =
      let way : Option (Doing A) = elim head [
        | some c ↦ give_way (start_next_task std fuel scan w clock.switched true) timeout
        | none ↦ block_wait w timeout clock
      ] in
      if not (is_some w.blocked) && w.done
      then some (exits w)
      else if timeout == time_min
      then some (loops none w)
      else way

  -- The inner loop's test of `next`.
  unfoldable pub inner : Option ℕ → World A → ℕ → Clock → Option (Doing A)
  unfolding go_idle
  inner (some t) w timeout clock = some (runs t w)
  inner none w timeout clock = go_idle w.ready_head w timeout clock

  unfoldable pub after_check : Option ℕ → Option (World A × ℕ) → Clock → Option (Doing A)
  unfolding inner
  after_check next none clock = none
  after_check next (some (w, timeout)) clock = inner next w timeout clock

  -- `while( !done )`
  unfoldable pub loop_head : Option ℕ → World A → Clock → Option (Doing A)
  unfolding after_check
  loop_head next w clock =
      let round = after_check next (check_for_timeouts std fuel scan w clock.checked) clock in
      if w.done then some (exits w) else round

  unfoldable pub after_dequeue : Option (World A × Option ℕ) → ℕ → Clock → Option (Doing A)
  unfolding inner
  after_dequeue none timeout clock = none
  after_dequeue (some (w, next)) timeout clock = inner next w timeout clock

  unfoldable pub dequeue_after : Option (World A × ℕ) → Clock → Option (Doing A)
  unfolding after_dequeue
  dequeue_after none clock = none
  dequeue_after (some (w, timeout)) clock =
      after_dequeue (dequeue std fuel w clock.enqueued clock.chosen) timeout clock

  -- From the return of `run` on.
  unfoldable pub task_done : World A → Clock → Option (Doing A)
  unfolding dequeue_after
  task_done w clock = dequeue_after (check_for_timeouts std fuel scan w clock.checked) clock

  unfoldable pub resume_with : Option (World A × Option ℕ) → ℕ → Clock → Option (Doing A)
  unfolding block_wait
  resume_with none timeout clock = none
  resume_with (some (w, some t)) timeout clock = some (loops (some t) w)
  resume_with (some (w, none)) timeout clock = block_wait w timeout clock

  -- From the return of `start_next_task` on.
  unfoldable pub resumed : World A → ℕ → Clock → Option (Doing A)
  unfolding resume_with
  resumed w timeout clock =
      resume_with (dequeue std fuel w clock.enqueued clock.chosen) timeout clock

  unfoldable pub start_loop : Option (World A × Option ℕ) → Clock → Option (Doing A)
  unfolding loop_head
  start_loop none clock = none
  start_loop (some (w, next)) clock = loop_head next w clock

  unfoldable pub process_tasks : World A → Clock → Option (Doing A)
  unfolding start_loop
  process_tasks w clock = start_loop (dequeue std fuel w clock.enqueued clock.chosen) clock
