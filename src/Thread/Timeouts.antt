-- ===== src/Thread/Timeouts.antt =====
-- check_for_timeouts of src/thread.cpp. The clock's reading is an argument.
pub mod Expire
pub mod Next
use boost_cmt.Base.{
  ℕ, zero, suc, List, [], ◌∷◌, Option, none, some, if◌then◌else◌, ltb, leb, Bool, true, false, ◌&&◌,
}
use boost_cmt.StdHeap.{StdHeap}
use boost_cmt.Error.{future_wait_timeout}
use boost_cmt.Thread.State.{World, time_min, time_max}
use boost_cmt.Thread.Ready.{ready_push_back}
use boost_cmt.Thread.Notify.{sleep_priority_less, throw_into}
use boost_cmt.Thread.Queue.{pop_top}

-- `size() == 0`
abbrev pub is_nil : List ℕ → Bool
is_nil [] = true
is_nil (x ∷ v) = false

module _ {A : Type 0} where
  -- `next` after the looks at the fronts of the two heaps.
  unfoldable pub next_scheduled : World A → List ℕ → ℕ
  next_scheduled w [] = time_max
  next_scheduled w (t ∷ v) = if ltb (w.when t) time_max then w.when t else time_max

  unfoldable pub next_sleeper : World A → ℕ → List ℕ → ℕ
  next_sleeper w next [] = next
  next_sleeper w next (c ∷ v) = if ltb (w.resume_time c) next then w.resume_time c else next

  unfoldable pub next_time : World A → ℕ
  unfolding next_scheduled next_sleeper
  next_time w = next_sleeper w (next_scheduled w w.task_sch_queue) w.sleep_pqueue

  module _ (std : StdHeap) where
    -- The body of the loop once the context `c` is off the heap. A context that waits for a promise
    -- breaks that promise with a timeout, any other becomes ready.
    unfoldable pub expire : ℕ → World A → ℕ → Option (World A)
    expire scan w c = elim (w.prom c) [
      | some p ↦ throw_into std scan w p future_wait_timeout
      | none ↦ some (ready_push_back w c)
    ]

    -- One round of the loop on the sleep queue, `again` being the rounds after it.
    unfoldable pub expire_front :
        (World A → Option (World A)) → ℕ → World A → ℕ → List ℕ → Option (World A)
    expire_front again scan w now [] = some w
    expire_front again scan w now (c ∷ v) =
        let popped = record w {
          sleep_pqueue = pop_top std (sleep_priority_less w.resume_time) (c ∷ v);
        } in
        let rest : Option (World A) = elim (expire scan popped c) [
          | none ↦ none
          | some w' ↦ again w'
        ] in
        if leb (w.resume_time c) now then rest else some w

    -- `while( sleep_pqueue.size() && now >= front->resume_time )`; `none` is returned only if the
    -- fuel of this loop, or `scan`, the fuel of the loop of `notify`, runs out.
    unfoldable pub expire_sleepers : ℕ → ℕ → World A → ℕ → Option (World A)
    expire_sleepers zero scan w now = none
    expire_sleepers (suc f) scan w now =
        expire_front (λ w'. expire_sleepers f scan w' now) scan w now w.sleep_pqueue

    unfoldable pub check_for_timeouts : ℕ → ℕ → World A → ℕ → Option (World A × ℕ)
    check_for_timeouts fuel scan w now =
        if is_nil w.sleep_pqueue && is_nil w.task_sch_queue
        then some (w, time_max)
        else if ltb now (next_time w)
        then some (w, next_time w)
        else elim (expire_sleepers fuel scan w now) [ none ↦ none | some w' ↦ some (w', time_min) ]
