-- ===== src/Thread/Places/Mixed.antt =====
-- Two contexts that wait for one promise with timeouts.
use mathlib.Core.List.{mem-cons_self}
use boost_cmt.Base.{
  ℕ, ◌<◌, ◌≡◌, ◌≢◌, sym, ap, ◌∙◌, subst, List, [], ◌∷◌, ◌++◌, none, some, Bool, true, false, arith,
  Perm, length-perm, perm_single, ◌==◌, Bool-cases, inl, inr,
}
use boost_cmt.Base.Links.{put, Absent}
use boost_cmt.StdHeap.{StdHeap, IsWeakOrder}
use boost_cmt.Thread.State.{World, time_max}
use boost_cmt.Thread.Ready.{Ready}
use boost_cmt.Thread.Notify.{
  notify, try_unblock, add_to_blocked, add_blocking_promise, wake_sleeper, sleep_priority_less,
  unblock,
}
use boost_cmt.Thread.Notify.Unlink.{Blocked, unblock-Blocked, unblock-Ready}
use boost_cmt.Thread.Notify.Wake.{
  notify_first, wake_sleeper_first, wake_sleeper-Blocked, wake_sleeper-Ready, unblock-prom,
  unblock-sleep_pqueue,
}
use boost_cmt.Thread.Places.Expiry.{only_sleeper}
use boost_cmt.Thread.Queue.Order.{sleep_priority_less-IsWeakOrder}
use boost_cmt.Thread.Switch.{block_on, push_sleeper}
use boost_cmt.Thread.Switch.Block.{block_on-Blocked, block_on-Ready, block_on-prom}
use boost_cmt.Thread.Places.Count.{occurs-perm}

-- A heap of two has the lesser entry behind.
pair_ordered :
    (std : StdHeap) (less : ℕ → ℕ → Bool) (l : List ℕ) (e d : ℕ)
    → IsWeakOrder less
    → std.IsHeap less l
    → less d e ≡ true
    → Perm l (e ∷ d ∷ [])
    → l ≡ e ∷ d ∷ []
pair_ordered std less [] e d o h b p = let n = length-perm p in absurd (omega (arith, n))
pair_ordered std less (x ∷ []) e d o h b p = let n = length-perm p in absurd (omega (arith, n))
pair_ordered std less (x ∷ y ∷ []) e d o h b p =
    let top = std.front_max less x (y ∷ []) o h y mem-cons_self in
    let at_e = occurs-perm e p in
    let at_d = occurs-perm d p in
    let apart : e ≢ d = λ q. absurd (cc (o.irrefl e, b, q)) in
    elim (Bool-cases (x == e)) [
      | inl same ↦ ground (arith, at_e, at_d)
      | inr other ↦
          let behind : y ≡ e = ground (arith, at_e) in
          let before : x ≡ d = ground (arith, at_d) in absurd (cc (top, b, behind, before))
    ]
pair_ordered std less (x ∷ y ∷ z ∷ l) e d o h b p =
    let n = length-perm p in absurd (omega (arith, n))

singleton_heap :
    (std : StdHeap) (less : ℕ → ℕ → Bool) (e : ℕ) → IsWeakOrder less → std.IsHeap less (e ∷ [])
singleton_heap std less e o =
    subst (std.IsHeap less) (perm_single _ e (std.push_heap-perm less (e ∷ [])))
      (std.push_heap-IsHeap less [] e o (std.heap_nil less))

module _ {A : Type 0} (std : StdHeap) where
  asks_nothing : (w : World A) (e q : ℕ) → w.prom e ≡ none → try_unblock w e q ≡ false
  unfolding try_unblock
  asks_nothing w e q h = ground arith

  second_sleeper :
      (w : World A) (e d p timeout : ℕ)
      → (timeout == time_max) ≡ false
      → w.sleep_pqueue ≡ e ∷ []
      → w.resume_time e < timeout
      → e ≢ d
      → w.prom e ≡ some p
      → ((block_on std w d p timeout).sleep_pqueue ≡ e ∷ d ∷ [])
        × ((block_on std w d p timeout).prom e ≡ some p)
        × ((block_on std w d p timeout).prom d ≡ some p)
  unfolding block_on push_sleeper add_to_blocked add_blocking_promise
  second_sleeper w e d p timeout n s l a h =
      let at = put w.resume_time d timeout in
      let less = sleep_priority_less at in
      let order = sleep_priority_less-IsWeakOrder at in
      let later : less d e ≡ true = ground arith in
      let heap =
        subst (λ v. std.IsHeap less (std.push_heap less (v ++ d ∷ []))) (sym s)
          (std.push_heap-IsHeap less (e ∷ []) d order (singleton_heap std less e order)) in
      let all : Perm (std.push_heap less (w.sleep_pqueue ++ d ∷ [])) (e ∷ d ∷ []) =
        subst (λ v. Perm (std.push_heap less (v ++ d ∷ [])) (e ∷ d ∷ [])) (sym s)
          (std.push_heap-perm less (e ∷ d ∷ [])) in
      rw (n, block_on)
        (pair_ordered std less _ e d order heap later all, ground arith, ground arith)

  -- Two contexts `e` and `d` that wait for the same promise with timeouts, `e` first and up to an
  -- earlier time, where nothing else sleeps: one notification of the promise makes `d` ready and
  -- leaves it in the sleep queue; and it takes `e` out of the sleep queue and leaves it blocked,
  -- where no later notification can unblock it.
  pub timed_waits_mixed :
      (scan : ℕ) (w : World A) (e d p early late : ℕ) (bs rs : List ℕ)
      → 1 < scan
      → early < late
      → (late == time_max) ≡ false
      → (early == time_max) ≡ false
      → Blocked w bs
      → Ready w rs
      → Absent e bs
      → Absent d (e ∷ bs)
      → Absent d rs
      → w.sleep_pqueue ≡ []
      → (v : World A) × (notify std scan (block_on std (block_on std w e p early) d p late) p
          ≡ some v)
        × Ready v (d ∷ rs)
        × (v.sleep_pqueue ≡ d ∷ [])
        × Blocked v (e ∷ bs)
        × ((q : ℕ) → try_unblock v e q ≡ false)
  timed_waits_mixed scan w e d p early late bs rs l o n m b r a f g s =
      let u = block_on std w e p early in
      let (one, at, promises_kept, self_kept) = only_sleeper std w e p early m s in
      let (two, asks_e, asks_d) =
        second_sleeper u e d p late n one (omega (arith, at)) f.0 (block_on-prom std w e p early) in
      let x = block_on std u d p late in
      let stuck =
        block_on-Blocked std u d p late (e ∷ bs) (block_on-Blocked std w e p early bs b a) f in
      let waiting = block_on-Ready std u d p late rs (block_on-Ready std w e p early rs r) in
      let woken = unblock x d none in
      let slept =
        wake_sleeper_first std woken p e [] (d ∷ []) (unblock-sleep_pqueue x d none ∙ two) tt
          (ap (λ h. h e) (unblock-prom x d none) ∙ asks_e) in
      let v = wake_sleeper std woken p in
      (
        v,
        notify_first std scan x p d [] (e ∷ bs) stuck tt asks_d (omega arith),
        wake_sleeper-Ready std woken p (d ∷ rs) (unblock-Ready x d none rs waiting g),
        perm_single _ d slept.0,
        wake_sleeper-Blocked std woken p (e ∷ bs) (unblock-Blocked x d [] (e ∷ bs) stuck),
        λ q. asks_nothing v e q slept.1,
      )
