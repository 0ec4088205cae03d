-- ===== src/Thread/Switch.antt =====
-- Where one context gives way to another: start_next_task, yield, sleep_until, usleep, wait and
-- current_priority of src/thread.cpp. A call that blocks is two operations: up to the jump, and
-- from the return of the jump on. Each reading of the clock is an argument.
pub mod Turns
pub mod Block
use boost_cmt.Base.{
  ◌*◌, ◌%◌, ◌^◌, ℕ, suc, ◌+◌, Bool, true, false, List, [], ◌∷◌, ◌++◌, Option, none, some,
  if◌then◌else◌, ltb, ◌==◌,
}
use boost_cmt.Base.Links.{put}
use boost_cmt.StdHeap.{StdHeap}
use boost_cmt.Error.{Exception, future_wait_timeout, task_canceled, thread_quit, Result, ok, throws}
use boost_cmt.Promise.{ready}
use boost_cmt.Thread.State.{World, Contexts, time_max, default_priority}
use boost_cmt.Thread.Ready.{ready_pop_front, ready_push_back}
use boost_cmt.Thread.Notify.{
  add_blocking_promise, clear_blocking_promises, add_to_blocked, sleep_priority_less,
}
use boost_cmt.Thread.Timeouts.{check_for_timeouts}

-- How a call of `wait` or `sleep_until` goes on: it is over, or the context `c` gives way to `next`.
pub data Progress (A : Type 0) : Type 0 where
  over : Result (Unit {0}) → World A → Progress A
  gives_way : (c next : ℕ) → World A → Progress A

module _ {A : Type 0} where
  -- `new cmt_context(...)`: the address, and the fields that the constructors set.
  unfoldable pub new_context : World A → World A
  new_context w = record w {
    contexts = record w.contexts {
      next = put w.next w.fresh none;
      next_blocked = put w.next_blocked w.fresh none;
      prom = put w.prom w.fresh none;
      canceled = put w.canceled w.fresh false;
      ctx_prio = put w.ctx_prio w.fresh default_priority;
    };
    fresh = suc w.fresh;
  }

  -- `if( !current ) current = new cmt_context();`, with the context that is current then.
  unfoldable pub ensure_current : World A → World A × ℕ
  unfolding new_context
  ensure_current w = elim w.current [
    | some c ↦ (w, c)
    | none ↦ (record (new_context w) { current = some w.fresh }, w.fresh)
  ]

  unfoldable pub requeue : World A → ℕ → Bool → World A
  requeue w c reschedule = if reschedule then ready_push_back w c else w

  -- start_next_task from the test of `ready_head` to the jump, with the context jumped to: the
  -- first that is ready, or a new one that will process tasks.
  unfoldable pub jump_from : World A → ℕ → Bool → Option ℕ → World A × ℕ
  unfolding requeue
  jump_from w c reschedule none =
      let back = requeue w c reschedule in
      (record (new_context back) { current = some back.fresh }, back.fresh)
  jump_from w c reschedule (some next) =
      (record (requeue (ready_pop_front w).0 c reschedule) { current = some next }, next)

  -- What follows the jump, once something jumps back to `prev`.
  unfoldable pub come_back : World A → ℕ → World A × Result (Unit {0})
  come_back w prev =
      (record w { current = some prev }, if w.canceled prev then throws task_canceled else ok tt)

  -- The statements that put the current context into the sleep queue.
  unfoldable pub push_sleeper : StdHeap → World A → ℕ → ℕ → World A
  push_sleeper std w c at =
      let resume_time = put w.resume_time c at in
      record w {
        contexts = record w.contexts { resume_time = resume_time };
        sleep_pqueue = std.push_heap (sleep_priority_less resume_time) (w.sleep_pqueue ++ c ∷ []);
      }

  -- thread::wait from `add_blocking_promise` to `add_to_blocked`.
  unfoldable pub block_on : StdHeap → World A → ℕ → ℕ → ℕ → World A
  unfolding push_sleeper add_to_blocked add_blocking_promise
  block_on std w c p timeout =
      let waiting = add_blocking_promise w c p in
      add_to_blocked (if timeout == time_max then waiting else push_sleeper std waiting c timeout) c

  unfoldable pub current_priority : World A → ℕ
  current_priority w = elim w.current [ some c ↦ w.ctx_prio c | none ↦ default_priority ]

  module _ (std : StdHeap) (fuel scan : ℕ) where
    -- start_next_task up to the jump; the last component is the context jumped to.
    unfoldable pub start_next_task : World A → ℕ → Bool → Option (World A × ℕ)
    start_next_task w now reschedule = elim (check_for_timeouts std fuel scan w now) [
      | none ↦ none
      | some (w', timeout) ↦
          let (v, c) = ensure_current w' in some (jump_from v c reschedule v.ready_head)
    ]

    unfoldable pub yield : World A → ℕ → Option (World A × ℕ)
    yield w now = start_next_task w now true

    unfoldable pub block_and_jump : World A → ℕ → ℕ → Option (Progress A)
    block_and_jump w c now = elim (start_next_task w now false) [
      | none ↦ none
      | some (v, next) ↦ some (gives_way c next v)
    ]

    unfoldable pub sleep_until : World A → ℕ → ℕ → Option (Progress A)
    sleep_until w at now =
        let (v, c) = ensure_current w in
        let asleep = push_sleeper std (clear_blocking_promises v c) c at in
        if w.done then some (over (throws thread_quit) w) else block_and_jump asleep c now

    -- `now1` is the reading that the sum is made with, on a clock of `ticks` to the microsecond.
    unfoldable pub usleep : World A → (ticks timeout_us now1 now2 : ℕ) → Option (Progress A)
    usleep w ticks timeout_us now1 now2 = sleep_until w ((now1 + timeout_us * ticks) % 2 ^ 64) now2

    -- The rest of `sleep_until`, after `come_back`.
    unfoldable pub slept : World A → ℕ → World A × Result (Unit {0})
    slept w c = (
      record w { contexts = record w.contexts { resume_time = put w.resume_time c time_max } },
      if w.canceled c then throws task_canceled else ok tt,
    )

    -- `now1` is read for the comparison with the timeout, `now2` by check_for_timeouts.
    unfoldable pub wait : World A → ℕ → ℕ → ℕ → ℕ → Option (Progress A)
    wait w p timeout now1 now2 =
        let (v, c) = ensure_current w in
        let blocking = block_and_jump (block_on std v c p timeout) c now2 in
        if ready (w.promises p)
        then some (over (ok tt) w)
        else if ltb timeout now1
        then some (over (throws future_wait_timeout) w)
        else blocking

    -- The rest of `wait`, after `come_back`.
    unfoldable pub waited : World A → ℕ → World A × Result (Unit {0})
    waited w c = (clear_blocking_promises w c, if w.canceled c then throws task_canceled else ok tt)
