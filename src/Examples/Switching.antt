-- ===== src/Examples/Switching.antt =====
-- Tests of the switches between contexts.
use mathlib.Core.List.{mem-cons, not-mem-nil, Nodup-cons, Nodup-nil}
use mathlib.Core.Logic.Or
use boost_cmt.Base.{ℕ, ◌≡◌, ◌≢◌, refl, List, [], ◌∷◌, none, some, arith, Mem, ◌<◌}
use boost_cmt.StdHeap.Sorted.{sorted_heap, sort-Falling}
use boost_cmt.Thread.State.{World, time_min, time_max}
use boost_cmt.Thread.Ready.{Ready}
use boost_cmt.Thread.Notify.{sleep_priority_less}
use boost_cmt.Thread.Notify.Unlink.{Blocked}
use boost_cmt.Thread.Queue.Order.{sleep_priority_less-IsWeakOrder}
use boost_cmt.Thread.Switch.{block_on}
use boost_cmt.Thread.Switch.Turns.{InTurn, yields, yields-InTurn}
use boost_cmt.Error.{future_wait_timeout, throws}
use boost_cmt.Promise.{wait_leave}
use boost_cmt.Thread.Places.Expiry.{timed_wait_expires}
use boost_cmt.Thread.Timeouts.{expire_sleepers, check_for_timeouts}
use boost_cmt.Thread.Timeouts.Expire.{Sleeping, Expired, expire_sleepers_plain}
use boost_cmt.Thread.Loop.{Clock, loop_head, jumps, resumed, sleeps}
use boost_cmt.Thread.Loop.Starved.{ready_starved}
use boost_cmt.Examples.Worlds.{waiting, running, sleeping}

turn : InTurn running 1 (2 ∷ 3 ∷ [])
turn = record {
  running = refl;
  waiting = record {
    chain = (refl, (refl, refl));
    tail = refl;
    distinct = ((ground arith, tt), (tt, tt));
  };
  absent = (ground arith, (ground arith, tt));
  no_sleeper = refl;
  no_scheduled = refl;
}

yields-InTurn_example :
    (v : World ℕ) × (yields sorted_heap 5 5 2 running 0 ≡ some v) × InTurn v 3 (1 ∷ 2 ∷ [])
yields-InTurn_example = yields-InTurn sorted_heap 5 5 running 0 1 3 (2 ∷ []) [] turn

abbrev noon : Clock
noon = record {
  enqueued = 12;
  chosen = 12;
  checked = 12;
  switched = 12;
  enqueued_last = 12;
  chosen_last = 12;
}

-- The context 1 processes tasks, and 2 and 3 yield in turns.
ready_starved_example :
    (v : World ℕ) × (z : World ℕ) × (loop_head sorted_heap 5 5 none running noon
      ≡ some (jumps 2 time_max v))
    × (yields sorted_heap 5 5 2 v 12 ≡ some z)
    × (resumed sorted_heap 5 5 z time_max noon
        ≡ some (sleeps none (record z { task_in_queue = none })))
    × InTurn z 1 (2 ∷ 3 ∷ [])
ready_starved_example =
    ready_starved sorted_heap 5 5 running 1 2 12 (3 ∷ []) noon noon turn refl
      (record { none_posted = refl; none_queued = refl })

timed_wait_expires_example :
    (v : World ℕ) × (check_for_timeouts sorted_heap 2 2 (block_on sorted_heap waiting 4 7 50) 60
      ≡ some (v, time_min))
    × Blocked v (1 ∷ 2 ∷ [])
    × Ready v (4 ∷ 3 ∷ [])
    × (v.sleep_pqueue ≡ [])
    × ((wait_leave (v.promises 7)).1 ≡ throws future_wait_timeout)
timed_wait_expires_example =
    timed_wait_expires sorted_heap 2 waiting 4 7 50 60 (1 ∷ 2 ∷ []) (3 ∷ []) (omega arith) refl
      (omega arith)
      (record { chain = (refl, (refl, refl)); distinct = ((ground arith, tt), (tt, tt)) })
      (record { chain = (refl, refl); tail = refl; distinct = (tt, tt) })
      (ground arith, (ground arith, tt)) (ground arith, tt) refl refl

nothing_empty : IsProp ⊥
nothing_empty = hlevel

late : (k c : ℕ) → k < 4 → Mem c (4 ∷ 5 ∷ []) → k ≢ c
late k c l m e =
    Or.elim nothing_empty (mem-cons.0 m) (λ a. absurd (omega arith))
      (λ n. Or.elim nothing_empty (mem-cons.0 n) (λ a. absurd (omega arith)) (λ i. not-mem-nil i))

four_is_not_five : ¬ Mem {A = ℕ} 4 (5 ∷ [])
four_is_not_five n =
    Or.elim nothing_empty (mem-cons.0 n) (λ a. absurd (omega arith)) (λ i. not-mem-nil i)

asleep : Sleeping sorted_heap sleeping (4 ∷ 5 ∷ []) (2 ∷ 3 ∷ [])
unfolding sorted_heap
asleep = record {
  heap =
      sort-Falling (sleep_priority_less sleeping.resume_time)
        (sleep_priority_less-IsWeakOrder sleeping.resume_time) (4 ∷ 5 ∷ []);
  nodup = Nodup-cons.1 (four_is_not_five, Nodup-cons.1 (not-mem-nil, Nodup-nil));
  plain = λ c m. refl;
  apart = λ c m. (late 2 c (omega arith) m, (late 3 c (omega arith) m, tt));
}

expire_sleepers_plain_example :
    (x : World ℕ) × (moved : List ℕ) × (expire_sleepers sorted_heap 3 5 sleeping 20 ≡ some x)
    × Expired sorted_heap sleeping x 20 (2 ∷ 3 ∷ []) moved
expire_sleepers_plain_example =
    expire_sleepers_plain sorted_heap 3 5 sleeping 20 (2 ∷ 3 ∷ []) (omega arith)
      (record {
        chain = (refl, (refl, refl));
        tail = refl;
        distinct = ((ground arith, tt), (tt, tt));
      })
      asleep
