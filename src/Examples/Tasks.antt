-- ===== src/Examples/Tasks.antt =====
-- Tests of the task queues.
use mathlib.Core.List.{mem-cons_self}
use boost_cmt.Base.{ℕ, ◌≡◌, refl, [], ◌∷◌, Option, none, some, arith, Perm, Mem, ◌≤◌}
use boost_cmt.Base.Links.{Chain, Distinct}
use boost_cmt.StdHeap.Sorted.{sorted_heap, sort-Falling}
use boost_cmt.Thread.State.{World}
use boost_cmt.Thread.Queue.{refill, dequeue, select, take_front, task_priority_less, task_when_less}
use boost_cmt.Thread.Queue.Order.{task_priority_less-IsWeakOrder, task_when_less-IsWeakOrder}
use boost_cmt.Thread.Queue.Select.{Queued, with_task, select_held_back}
use boost_cmt.Thread.Queue.Refill.{held, dequeue-keeps}
use boost_cmt.Thread.Timeouts.{check_for_timeouts, next_time}
use boost_cmt.Thread.Timeouts.Next.{check_waits_for_latest}
use boost_cmt.Thread.Post.{
  Posting, Step, start, load_head, compare_exchange, take_all, take_all-Linked, loads, posts, here,
  next,
}
use boost_cmt.Thread.Loop.{Clock, Doing, block_wait}
use boost_cmt.Thread.Loop.Rest.{Rests, block_wait-Rests}
use boost_cmt.Thread.Queue.Drain.{InOrder, run_order}
use boost_cmt.Thread.Queue.Received.{posted_run_all}
use boost_cmt.Examples.Worlds.{idle, no_tasks, busy}

busy-Queued : Queued sorted_heap busy
unfolding sorted_heap
busy-Queued = record {
  by_priority =
      sort-Falling (task_priority_less busy.tasks) (task_priority_less-IsWeakOrder busy.tasks)
        (3 ∷ []);
  by_when =
      sort-Falling (task_when_less busy.tasks) (task_when_less-IsWeakOrder busy.tasks) (4 ∷ 5 ∷ []);
}

dequeue-keeps_example :
    (v : World ℕ) × (r : Option ℕ) × (dequeue sorted_heap 3 busy 20 20 ≡ some (v, r))
    × Perm (with_task r (held sorted_heap v)) (2 ∷ 1 ∷ held sorted_heap busy)
    × Queued sorted_heap v
    × (v.tasks ≡ busy.tasks)
    × (v.task_in_queue ≡ none)
    × (r ≡ none → v.task_pqueue ≡ [])
dequeue-keeps_example =
    dequeue-keeps sorted_heap 3 busy 20 20 (2 ∷ 1 ∷ []) (omega arith) (refl, (refl, refl))
      busy-Queued

four_is_scheduled : Mem {A = ℕ} 4 (4 ∷ 5 ∷ [])
four_is_scheduled = mem-cons_self

select_held_back_example : select sorted_heap busy 20 ≡ take_front sorted_heap busy (3 ∷ [])
select_held_back_example =
    select_held_back sorted_heap busy 20 4 busy-Queued four_is_scheduled (omega arith)

check_waits_for_latest_example :
    (check_for_timeouts sorted_heap 1 1 busy 20 ≡ some (busy, next_time busy))
    × (100 ≤ next_time busy)
check_waits_for_latest_example =
    check_waits_for_latest sorted_heap 1 1 busy 20 4 busy-Queued refl four_is_scheduled
      (omega arith) (omega arith)

abbrev loaded : Posting
loaded = record { inbox = load_head start.inbox 5; posted = [] }

abbrev posted_five : Posting
posted_five = record { inbox = (compare_exchange loaded.inbox 5).0; posted = 5 ∷ [] }

five_posted : Step loaded posted_five
unfolding compare_exchange load_head
five_posted = posts 5 tt refl

take_all-Linked_example :
    Chain posted_five.inbox.next (take_all posted_five.inbox).1 posted_five.posted
    × Distinct posted_five.posted
take_all-Linked_example = take_all-Linked posted_five (next (next here (loads 5)) five_posted)

abbrev late_clock : Clock
late_clock = record {
  enqueued = 20;
  chosen = 20;
  checked = 20;
  switched = 20;
  enqueued_last = 20;
  chosen_last = 20;
}

block_wait-Rests_example :
    (d : Doing ℕ) × (block_wait sorted_heap 3 5 busy 100 late_clock ≡ some d)
    × Rests sorted_heap 3 5 busy 20 100 (2 ∷ 1 ∷ []) d
block_wait-Rests_example =
    block_wait-Rests sorted_heap 3 5 busy 100 late_clock (2 ∷ 1 ∷ []) (omega arith)
      (refl, (refl, refl)) busy-Queued

-- A thread with nothing to do whose input queue was posted to.
abbrev receiver : World ℕ
receiver = record idle {
  tasks = record no_tasks { task_next = posted_five.inbox.next };
  task_in_queue = posted_five.inbox.task_in_queue;
}

receiver-Queued : Queued sorted_heap receiver
unfolding sorted_heap
receiver-Queued = record { by_priority = tt; by_when = tt }

posted_run_all_example :
    (v : World ℕ) × (refill sorted_heap 2 receiver 20 ≡ some v)
    × Perm (run_order sorted_heap 1 v 20) (5 ∷ [])
    × InOrder receiver.tasks (run_order sorted_heap 1 v 20)
posted_run_all_example =
    posted_run_all sorted_heap posted_five 2 1 receiver 20 20
      (next (next here (loads 5)) five_posted) (record { links = refl; head = refl })
      receiver-Queued refl (ground arith, tt) (omega arith) (omega arith)
