-- ===== src/Examples/Placing.antt =====
-- Tests of the places of contexts, and of tasks from their posting to their result.
use boost_cmt.Base.{ℕ, ◌≡◌, ◌≤◌, refl, List, [], ◌∷◌, Option, none, some, arith}
use boost_cmt.StdHeap.Sorted.{sorted_heap}
use boost_cmt.Error.{ok}
use boost_cmt.Promise.{future_wait, finished}
use boost_cmt.Thread.State.{World}
use boost_cmt.Thread.Queue.{dequeue, pop_top}
use boost_cmt.Thread.Run.{rtask, process_task}
use boost_cmt.Thread.Spawn.{async}
use boost_cmt.Thread.Spawn.Result.{async_result}
use boost_cmt.Thread.Ready.{ready_push_back}
use boost_cmt.Thread.Timeouts.{check_for_timeouts, next_time, expire_sleepers, expire_front, expire}
use boost_cmt.Thread.Switch.{yield, start_next_task}
use boost_cmt.Thread.Places.{Placed, Reach, here, next, yields, places}
use boost_cmt.Thread.Places.Kept.{Reach-Placed}
use boost_cmt.Examples.Worlds.{idle, sleeping, alone}

placed : Placed sleeping 1 (2 ∷ 3 ∷ []) []
placed = record {
  running = refl;
  waiting = record {
    chain = (refl, (refl, refl));
    tail = refl;
    distinct = ((ground arith, tt), (tt, tt));
  };
  stuck = record { chain = refl; distinct = tt };
  plain = λ o h. refl;
  apart = λ o. ground arith;
  older = λ o l. ground arith;
}

abbrev state_of : Option (World ℕ × ℕ) → World ℕ × ℕ
state_of none = (idle, 0)
state_of (some r) = r

-- At the time 20 the context 1 yields, and 4 wakes up.
abbrev yielded : World ℕ
yielded = (state_of (yield sorted_heap 5 5 sleeping 20)).0

yields_then :
    yield sorted_heap 5 5 sleeping 20
    ≡ some (yielded, (state_of (yield sorted_heap 5 5 sleeping 20)).1)
unfolding yield start_next_task check_for_timeouts next_time expire_sleepers expire_front expire
    ready_push_back pop_top sorted_heap
yields_then = refl

one_yield : Reach sorted_heap 5 sleeping yielded
one_yield = next here (yields 5 20 _ yielded yields_then)

Reach-Placed_example :
    (d : ℕ) × (ready_now : List ℕ) × (blocked_now : List ℕ) × Placed yielded d ready_now blocked_now
    × ((o : ℕ)
        → places o 1 (2 ∷ 3 ∷ []) [] sleeping.sleep_pqueue
          ≤ places o d ready_now blocked_now yielded.sleep_pqueue)
Reach-Placed_example = Reach-Placed sorted_heap 5 placed one_yield

async_result_example :
    (u : World ℕ) × (v : World ℕ) × (dequeue sorted_heap 2 (async alone 8 30 7 0) 20 20
      ≡ some (u, some 8))
    × (process_task sorted_heap 5 u (rtask 7) 8 1 (ok 42) ≡ some v)
    × (future_wait (some (v.promises 7)) 0 ≡ finished (ok 42))
async_result_example = async_result sorted_heap 5 alone 8 30 7 0 1 0 20 20 (ok 42) refl refl refl
