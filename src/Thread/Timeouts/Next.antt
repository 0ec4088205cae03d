-- ===== src/Thread/Timeouts/Next.antt =====
-- The time that check_for_timeouts tells the thread to wait for.
use boost_cmt.Base.{ℕ, ◌≤◌, ◌<◌, ◌≡◌, refl, List, [], ◌∷◌, some, arith, Mem, false}
use boost_cmt.StdHeap.{StdHeap}
use boost_cmt.Thread.State.{World, time_max}
use boost_cmt.Thread.Queue.{task_when_less}
use boost_cmt.Thread.Queue.Select.{front_latest, Queued}
use boost_cmt.Thread.Timeouts.{next_scheduled, next_time, check_for_timeouts, is_nil}
use mathlib.Core.List.{not-mem-nil}

not_empty : (z : ℕ) (v : List ℕ) → Mem z v → is_nil v ≡ false
not_empty z [] m = absurd (not-mem-nil m)
not_empty z (x ∷ v) m = refl

module _ {A : Type 0} (std : StdHeap) where
  next_scheduled_latest :
      (w : World A) (z : ℕ) (v : List ℕ)
      → std.IsHeap (task_when_less w.tasks) v
      → Mem z v
      → w.when z ≤ time_max
      → w.when z ≤ next_scheduled w v
  unfolding next_scheduled
  next_scheduled_latest w z [] h m l = absurd (not-mem-nil m)
  next_scheduled_latest w z (t ∷ v) h m l = ground (arith, front_latest std w.tasks t z v h m)

  next_time_latest :
      (w : World A) (z : ℕ)
      → Queued std w
      → w.sleep_pqueue ≡ []
      → Mem z w.task_sch_queue
      → w.when z ≤ time_max
      → w.when z ≤ next_time w
  unfolding next_time
  next_time_latest w z q s m l =
      ground (arith, next_scheduled_latest w z w.task_sch_queue q.by_when m l)

  -- Where no context sleeps and some scheduled task `z` is still to come, check_for_timeouts returns
  -- at once, with the state unchanged and a time no earlier than that of `z`, whichever scheduled
  -- task is due first.
  pub check_waits_for_latest :
      (fuel scan : ℕ) (w : World A) (now z : ℕ)
      → Queued std w
      → w.sleep_pqueue ≡ []
      → Mem z w.task_sch_queue
      → now < w.when z
      → w.when z ≤ time_max
      → (check_for_timeouts std fuel scan w now ≡ some (w, next_time w)) × (w.when z ≤ next_time w)
  unfolding check_for_timeouts
  check_waits_for_latest fuel scan w now z q s m h l =
      let late = next_time_latest w z q s m l in
      let some_task = not_empty z w.task_sch_queue m in (ground arith, late)
