-- ===== src/Thread/Notify/Wake.antt =====
-- thread::notify as a whole: which contexts it makes ready, and what it leaves of the sleep queue.
use mathlib.Core.List.{perm_middle}
use mathlib.Core.List.Perm
use boost_cmt.Base.{
  ℕ, zero, suc, ◌+◌, ◌<◌, ◌≡◌, refl, ◌∙◌, List, [], ◌∷◌, ◌++◌, Option, none, some, arith, back,
  pop_back, set, get_elem?, length, Perm, Option-cases, inl, inr, back-cons, true, false,
}
use boost_cmt.Base.Links.{Absent}
use boost_cmt.StdHeap.{StdHeap}
use boost_cmt.Thread.State.{World}
use boost_cmt.Thread.Ready.{Ready, ready_push_front}
use boost_cmt.Thread.Notify.{
  try_unblock, unblock, unlink, sleep_index, replace_by_back, wake_sleeper, notify,
}
use boost_cmt.Thread.Notify.Unlink.{
  Blocked, NotWaiting, prev_of, scan_blocked_first, scan_blocked_none, unblock-Blocked,
  unblock-Ready,
}

pop_back-perm : (v : List ℕ) (l : ℕ) → back v ≡ some l → Perm (l ∷ pop_back v) v
pop_back-perm [] l e = absurd (ground arith)
pop_back-perm (x ∷ []) l e = ground (arith, Perm.refl (x ∷ []))
pop_back-perm (x ∷ y ∷ v) l e =
    Perm.trans (Perm.swap x l _) (Perm.cons x (pop_back-perm (y ∷ v) l e))

set_back-perm :
    (v : List ℕ) (i c l : ℕ)
    → get_elem? v i ≡ some c
    → back v ≡ some l
    → Perm (c ∷ pop_back (set v i l)) v
set_back-perm [] i c l e h = absurd (ground arith)
set_back-perm (x ∷ []) zero c l e h = ground (arith, Perm.refl (x ∷ []))
set_back-perm (x ∷ []) (suc i) c l e h = absurd (ground arith)
set_back-perm (x ∷ y ∷ v) zero c l e h = ground (arith, Perm.cons x (pop_back-perm (y ∷ v) l h))
set_back-perm (x ∷ y ∷ v) (suc zero) c l e h =
    Perm.trans (Perm.swap x c _) (Perm.cons x (set_back-perm (y ∷ v) zero c l e h))
set_back-perm (x ∷ y ∷ v) (suc (suc i)) c l e h =
    Perm.trans (Perm.swap x c _) (Perm.cons x (set_back-perm (y ∷ v) (suc i) c l e h))

-- Overwriting an entry by the last one and dropping the last one removes exactly that entry.
replace_by_back-perm :
    (v : List ℕ) (i c : ℕ) → get_elem? v i ≡ some c → Perm (c ∷ replace_by_back v i) v
unfolding replace_by_back
replace_by_back-perm [] i c e = absurd (ground arith)
replace_by_back-perm (x ∷ v) i c e =
    let (l, h) = back-cons x v in rw (h, replace_by_back) (set_back-perm (x ∷ v) i c l e h)

get_elem?-append : (us vs : List ℕ) (c : ℕ) → get_elem? (us ++ c ∷ vs) (length us) ≡ some c
get_elem?-append [] vs c = refl
get_elem?-append (u ∷ us) vs c = get_elem?-append us vs c

module _ {A : Type 0} where
  waits_for_itself : (w : World A) (c p : ℕ) → w.prom c ≡ some p → try_unblock w c p ≡ true
  unfolding try_unblock
  waits_for_itself w c p e = ground arith

  sleep_index_first :
      (w : World A) (p c : ℕ) (us vs : List ℕ)
      → NotWaiting w p us
      → w.prom c ≡ some p
      → sleep_index w.prom p (us ++ c ∷ vs) ≡ some (length us)
  unfolding sleep_index try_unblock
  sleep_index_first w p c [] vs n e = ground arith
  sleep_index_first w p c (u ∷ us) vs n e = ground (arith, sleep_index_first w p c us vs n.1 e)

  pub unblock-prom : (w : World A) (c : ℕ) (prev : Option ℕ) → (unblock w c prev).prom ≡ w.prom
  unfolding unblock unlink ready_push_front
  unblock-prom w c none = refl
  unblock-prom w c (some q) = refl

  pub unblock-sleep_pqueue :
      (w : World A) (c : ℕ) (prev : Option ℕ) → (unblock w c prev).sleep_pqueue ≡ w.sleep_pqueue
  unfolding unblock unlink ready_push_front
  unblock-sleep_pqueue w c none = refl
  unblock-sleep_pqueue w c (some q) = refl

  unblock-try :
      (w : World A) (c : ℕ) (prev : Option ℕ) (u p : ℕ)
      → try_unblock (unblock w c prev) u p ≡ try_unblock w u p
  unfolding try_unblock unblock unlink ready_push_front
  unblock-try w c none u p = refl
  unblock-try w c (some q) u p = refl

  unblock-NotWaiting :
      (w : World A) (c : ℕ) (prev : Option ℕ) (p : ℕ) (us : List ℕ)
      → NotWaiting w p us
      → NotWaiting (unblock w c prev) p us
  unblock-NotWaiting w c prev p [] n = tt
  unblock-NotWaiting w c prev p (u ∷ us) n = (kept, unblock-NotWaiting w c prev p us n.1)
    where
      kept : try_unblock (unblock w c prev) u p ≡ false
      kept = rw (unblock-try w c prev u p) n.0

  module _ (std : StdHeap) where
    pub wake_sleeper-Blocked :
        (w : World A) (p : ℕ) (bs : List ℕ) → Blocked w bs → Blocked (wake_sleeper std w p) bs
    unfolding wake_sleeper
    wake_sleeper-Blocked w p bs b = elim (Option-cases (sleep_index w.prom p w.sleep_pqueue)) [
      | inl e ↦ rw (e, wake_sleeper) b
      | inr (i, e) ↦ elim (Option-cases (get_elem? w.sleep_pqueue i)) [
        | inl h ↦ rw (e, wake_sleeper, h) b
        | inr (c, h) ↦ rw (e, wake_sleeper, h) (record { chain = b.chain; distinct = b.distinct })
      ]
    ]

    pub wake_sleeper-Ready :
        (w : World A) (p : ℕ) (rs : List ℕ) → Ready w rs → Ready (wake_sleeper std w p) rs
    unfolding wake_sleeper
    wake_sleeper-Ready w p rs r = elim (Option-cases (sleep_index w.prom p w.sleep_pqueue)) [
      | inl e ↦ rw (e, wake_sleeper) r
      | inr (i, e) ↦ elim (Option-cases (get_elem? w.sleep_pqueue i)) [
        | inl h ↦ rw (e, wake_sleeper, h) r
        | inr (c, h) ↦
            rw (e, wake_sleeper, h)
              (record { chain = r.chain; tail = r.tail; distinct = r.distinct })
      ]
    ]

    -- The first sleeping context that waits for `p` leaves the sleep queue, with no promise left.
    pub wake_sleeper_first :
        (w : World A) (p c : ℕ) (us vs : List ℕ)
        → w.sleep_pqueue ≡ us ++ c ∷ vs
        → NotWaiting w p us
        → w.prom c ≡ some p
        → Perm (wake_sleeper std w p).sleep_pqueue (us ++ vs)
          × ((wake_sleeper std w p).prom c ≡ none)
    unfolding wake_sleeper
    wake_sleeper_first w p c us vs e n h =
        let at : sleep_index w.prom p w.sleep_pqueue ≡ some (length us) =
          rw e (sleep_index_first w p c us vs n h) in
        let found : get_elem? w.sleep_pqueue (length us) ≡ some c =
          rw e (get_elem?-append us vs c) in
        let removed = replace_by_back-perm w.sleep_pqueue (length us) c found in
        let split : Perm w.sleep_pqueue (c ∷ us ++ vs) = rw e (perm_middle us vs) in
        rw (at, wake_sleeper, found)
          (
            Perm.trans (std.make_heap-perm _ _) (Perm.cons_inv (Perm.trans removed split)),
            ground arith,
          )

    pub notify_first :
        (fuel : ℕ) (w : World A) (p c : ℕ) (us vs : List ℕ)
        → Blocked w (us ++ c ∷ vs)
        → NotWaiting w p us
        → w.prom c ≡ some p
        → length us + 1 < fuel
        → notify std fuel w p ≡ some (wake_sleeper std (unblock w c (prev_of none us)) p)
    unfolding notify
    notify_first fuel w p c us vs b n e l =
        let waits = waits_for_itself w c p e in
        rw (scan_blocked_first fuel w p c w.blocked none us vs l b.chain n waits, notify) refl

    -- Of the contexts blocked on `p`, `notify` makes ready only the first on the blocked list: the
    -- most recently blocked. It goes to the front of the ready queue, and all others, those that
    -- wait for `p` too, stay blocked in their order. The fuel needed is the position of that
    -- context and two more.
    pub notify_wakes_first :
        (fuel : ℕ) (w : World A) (p c : ℕ) (us vs rs : List ℕ)
        → Blocked w (us ++ c ∷ vs)
        → Ready w rs
        → Absent c rs
        → NotWaiting w p us
        → w.prom c ≡ some p
        → length us + 1 < fuel
        → (w' : World A) × (notify std fuel w p ≡ some w')
          × Blocked w' (us ++ vs)
          × Ready w' (c ∷ rs)
    notify_wakes_first fuel w p c us vs rs b r a n e l =
        let woken = unblock w c (prev_of none us) in
        (
          wake_sleeper std woken p,
          notify_first fuel w p c us vs b n e l,
          wake_sleeper-Blocked woken p (us ++ vs) (unblock-Blocked w c us vs b),
          wake_sleeper-Ready woken p (c ∷ rs) (unblock-Ready w c (prev_of none us) rs r a),
        )

    -- A context that waits for `p` with a timeout stands on the blocked list and in the sleep queue.
    -- If it is the first that waits for `p` on both, `notify` takes it off both.
    pub notify_wakes_timed :
        (fuel : ℕ) (w : World A) (p c : ℕ) (us vs rs ss ts : List ℕ)
        → Blocked w (us ++ c ∷ vs)
        → Ready w rs
        → Absent c rs
        → NotWaiting w p us
        → w.sleep_pqueue ≡ ss ++ c ∷ ts
        → NotWaiting w p ss
        → w.prom c ≡ some p
        → length us + 1 < fuel
        → (w' : World A) × (notify std fuel w p ≡ some w')
          × Blocked w' (us ++ vs)
          × Ready w' (c ∷ rs)
          × Perm w'.sleep_pqueue (ss ++ ts)
          × (w'.prom c ≡ none)
    notify_wakes_timed fuel w p c us vs rs ss ts b r a n s m e l =
        let prev = prev_of none us in
        let woken = unblock w c prev in
        let slept =
          wake_sleeper_first woken p c ss ts (unblock-sleep_pqueue w c prev ∙ s)
            (unblock-NotWaiting w c prev p ss m) (rw (unblock-prom w c prev) e) in
        (
          wake_sleeper std woken p,
          notify_first fuel w p c us vs b n e l,
          wake_sleeper-Blocked woken p (us ++ vs) (unblock-Blocked w c us vs b),
          wake_sleeper-Ready woken p (c ∷ rs) (unblock-Ready w c prev rs r a),
          slept.0,
          slept.1,
        )

    -- Where no blocked context waits for `p`, the blocked list and the ready queue stay as they are.
    pub notify_wakes_none :
        (fuel : ℕ) (w : World A) (p : ℕ) (us rs : List ℕ)
        → Blocked w us
        → Ready w rs
        → NotWaiting w p us
        → length us < fuel
        → (w' : World A) × (notify std fuel w p ≡ some w') × Blocked w' us × Ready w' rs
    unfolding notify
    notify_wakes_none fuel w p us rs b r n l = (
      wake_sleeper std w p,
      rw (scan_blocked_none fuel w p w.blocked none us l b.chain n, notify) refl,
      wake_sleeper-Blocked w p us b,
      wake_sleeper-Ready w p rs r,
    )
