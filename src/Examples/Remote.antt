-- ===== src/Examples/Remote.antt =====
-- Tests of what happens between two threads.
use boost_cmt.Base.{ℕ, ◌≡◌, refl, [], ◌∷◌, some, arith}
use boost_cmt.StdHeap.Sorted.{sorted_heap}
use boost_cmt.Error.{ok}
use boost_cmt.Promise.{Promise, empty, wait_enter, wait_leave, blocks, enqueue_thread}
use boost_cmt.Thread.State.{World, default_priority}
use boost_cmt.Thread.Ready.{Ready}
use boost_cmt.Thread.Notify.{notify, set_into}
use boost_cmt.Thread.Notify.Unlink.{Blocked}
use boost_cmt.Thread.Queue.{dequeue}
use boost_cmt.Thread.Spawn.{async_vtask}
use boost_cmt.Thread.Switch.{block_on}
use boost_cmt.Thread.Remote.Settled.{remote_set_wakes}
use boost_cmt.Examples.Worlds.{waiting, alone}

abbrev fresh : Promise ℕ
fresh = empty

-- The thread 6, where all promises are waited for on the thread 0.
abbrev other_thread : World ℕ
other_thread = record alone { self = 6; promises = λ p. record fresh { blocked_thread = some 0 } }

enters : wait_enter fresh waiting.self ≡ blocks (other_thread.promises 7)
unfolding wait_enter enqueue_thread
enters = refl

-- The context 4 of the thread 0 waits for the promise 7 up to the time 50, and the thread 6 sets it.
remote_set_wakes_example :
    (ua : World ℕ) × (ub : World ℕ) × (v : World ℕ) × (set_into sorted_heap 2 other_thread 7 42
      ≡ some ua)
    × (ua.posted ≡ (0, 7) ∷ other_thread.posted)
    × (dequeue sorted_heap 2
          (async_vtask
            (record (block_on sorted_heap waiting 4 7 50) { promises = ua.promises })
            8
            1
            default_priority)
          20
          20
        ≡ some (ub, some 8))
    × (notify sorted_heap 2 ub 7 ≡ some v)
    × Blocked v (1 ∷ 2 ∷ [])
    × Ready v (4 ∷ 3 ∷ [])
    × ((wait_leave (v.promises 7)).1 ≡ ok 42)
remote_set_wakes_example =
    remote_set_wakes sorted_heap 2 other_thread waiting fresh 7 4 50 8 1 20 20 42 (1 ∷ 2 ∷ [])
      (3 ∷ []) (omega arith) enters refl
      (record { chain = (refl, (refl, refl)); distinct = ((ground arith, tt), (tt, tt)) })
      (record { chain = (refl, refl); tail = refl; distinct = (tt, tt) })
      (ground arith, (ground arith, tt)) (ground arith, tt) refl refl refl
