-- ===== src/Examples/Sleeping.antt =====
-- Tests of the sleep of the OS thread.
use boost_cmt.Base.{ℕ, ◌≡◌, refl, [], ◌∷◌, none, some, true, false, arith}
use boost_cmt.Base.Links.{put}
use boost_cmt.StdHeap.Sorted.{sorted_heap}
use boost_cmt.Thread.State.{World}
use boost_cmt.Thread.Loop.{Clock, sleeps, task_done}
use boost_cmt.Thread.Loop.Late.{task_done_oversleeps}
use boost_cmt.Thread.Wakeup.{
  Wakeup, at_first, post_task, sleeper_locks, check_again, begin_wait, notify_all, woken, waiting,
  Reach, here, next, posts, sleeper_lock, checks, waits,
}
use boost_cmt.Thread.Wakeup.Lost.{WillNotify, no_wakeup_lost}
use boost_cmt.Examples.Worlds.{alone, no_tasks}

-- The thread sleeps, and then a task is posted.
abbrev slept_on : Wakeup
slept_on = post_task (begin_wait (check_again false (sleeper_locks at_first)))

slept_reached : Reach slept_on
unfolding check_again sleeper_locks
slept_reached =
    next (next (next (next here (sleeper_lock refl refl)) (checks false refl)) (waits refl)) posts

asleep_then : slept_on.place ≡ waiting
unfolding post_task begin_wait
asleep_then = refl

posted_then : slept_on.posted ≡ true
unfolding post_task
posted_then = refl

no_wakeup_lost_example : WillNotify slept_on × ((notify_all slept_on).place ≡ woken)
no_wakeup_lost_example = no_wakeup_lost slept_on slept_reached asleep_then posted_then

-- The task 5 is scheduled for the time 50.
abbrev reminded : World ℕ
reminded = record alone {
  tasks = record no_tasks { when = put (λ t. 0) 5 50 };
  task_in_queue = some 5;
}

abbrev early : Clock
early = record {
  enqueued = 20;
  chosen = 20;
  checked = 20;
  switched = 20;
  enqueued_last = 20;
  chosen_last = 20;
}

task_done_oversleeps_example :
    (v : World ℕ) × (task_done sorted_heap 2 5 reminded early ≡ some (sleeps none v))
    × (v.task_sch_queue ≡ 5 ∷ [])
    × (v.when 5 ≡ 50)
task_done_oversleeps_example =
    task_done_oversleeps sorted_heap 5 reminded 5 early refl refl refl refl refl refl refl
      (omega arith) (omega arith) (omega arith)
