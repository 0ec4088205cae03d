-- ===== src/Examples/Stopping.antt =====
-- Tests of quitting and canceling.
use boost_cmt.Base.{ℕ, ◌≡◌, refl, [], ◌∷◌, some, true, arith}
use boost_cmt.Base.Links.{put}
use boost_cmt.StdHeap.Sorted.{sorted_heap}
use boost_cmt.Thread.State.{World}
use boost_cmt.Thread.Ready.{Ready}
use boost_cmt.Thread.Notify.Unlink.{Blocked}
use boost_cmt.Thread.Quit.{quit, ended}
use boost_cmt.Thread.Quit.Stuck.{quit_breaks_one}
use boost_cmt.Error.{thread_quit}
use boost_cmt.Thread.Quit.Cancel.{Canceled, quit_cancels}
use boost_cmt.Examples.Worlds.{stuck, sleeping, busy, no_tasks, nowhere}

quit_breaks_one_example :
    (z : World ℕ) × (quit sorted_heap 2 2 stuck ≡ ended z)
    × Blocked z (2 ∷ [])
    × Ready z (1 ∷ [])
    × (z.promises ≡ put stuck.promises 7 (record (stuck.promises 7) { error = some thread_quit }))
    × (z.canceled 1 ≡ true)
    × (z.done ≡ true)
quit_breaks_one_example =
    quit_breaks_one sorted_heap 2 2 stuck 1 7 (2 ∷ [])
      (record { chain = (refl, (refl, refl)); distinct = ((ground arith, tt), (tt, tt)) })
      (record { chain = refl; tail = refl; distinct = tt }) refl refl refl (omega arith)
      (omega arith)

quit_cancels_example :
    (v : World ℕ) × (quit sorted_heap 2 3 sleeping ≡ ended v)
    × Ready v (5 ∷ 4 ∷ 2 ∷ 3 ∷ [])
    × Canceled v (5 ∷ 4 ∷ 2 ∷ 3 ∷ [])
    × (v.sleep_pqueue ≡ [])
    × (v.done ≡ true)
quit_cancels_example =
    quit_cancels sorted_heap 2 3 sleeping (2 ∷ 3 ∷ []) (omega arith) refl
      (record {
        chain = (refl, (refl, refl));
        tail = refl;
        distinct = ((ground arith, tt), (tt, tt));
      })
      ((ground arith, (ground arith, tt)), ((ground arith, (ground arith, (ground arith, tt))), tt))

abbrev working : World ℕ
working = record busy { tasks = record no_tasks { active_context = put nowhere 3 (some 1) } }
