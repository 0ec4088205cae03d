-- ===== src/Examples/Notifying.antt =====
-- Tests of the wakeups and of the lists of contexts.
use boost_cmt.Base.{ℕ, ◌≡◌, refl, [], ◌∷◌, some, arith, false}
use boost_cmt.StdHeap.Sorted.{sorted_heap}
use boost_cmt.Thread.State.{World}
use boost_cmt.Thread.Ready.{Ready}
use boost_cmt.Thread.Notify.{notify, try_unblock}
use boost_cmt.Thread.Notify.Unlink.{Blocked}
use boost_cmt.Thread.Notify.Wake.{notify_wakes_first}
use boost_cmt.Thread.Places.Mixed.{timed_waits_mixed}
use boost_cmt.Thread.Switch.{block_on}
use boost_cmt.Examples.Worlds.{waiting, running}

both : Blocked waiting (1 ∷ 2 ∷ [])
both = record { chain = (refl, (refl, refl)); distinct = ((ground arith, tt), (tt, tt)) }

three : Ready waiting (3 ∷ [])
three = record { chain = (refl, refl); tail = refl; distinct = (tt, tt) }

two : Ready running (2 ∷ 3 ∷ [])
two = record {
  chain = (refl, (refl, refl));
  tail = refl;
  distinct = ((ground arith, tt), (tt, tt));
}

notify_wakes_first_example :
    (w' : World ℕ) × (notify sorted_heap 2 waiting 7 ≡ some w')
    × Blocked w' (2 ∷ [])
    × Ready w' (1 ∷ 3 ∷ [])
notify_wakes_first_example =
    notify_wakes_first sorted_heap 2 waiting 7 1 [] (2 ∷ []) (3 ∷ []) both three (ground arith, tt)
      tt refl (omega arith)

none_blocked : Blocked running []
none_blocked = record { chain = refl; distinct = tt }

-- The contexts 4 and 5 wait for the promise 7 up to the times 10 and 30.
timed_waits_mixed_example :
    (v : World ℕ) × (notify sorted_heap 2
        (block_on sorted_heap (block_on sorted_heap running 4 7 10) 5 7 30)
        7
      ≡ some v)
    × Ready v (5 ∷ 2 ∷ 3 ∷ [])
    × (v.sleep_pqueue ≡ 5 ∷ [])
    × Blocked v (4 ∷ [])
    × ((q : ℕ) → try_unblock v 4 q ≡ false)
timed_waits_mixed_example =
    timed_waits_mixed sorted_heap 2 running 4 5 7 10 30 [] (2 ∷ 3 ∷ []) (omega arith) (omega arith)
      refl refl none_blocked two tt (ground arith, tt) (ground arith, (ground arith, tt)) refl
