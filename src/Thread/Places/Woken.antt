-- ===== src/Thread/Places/Woken.antt =====
-- Where the contexts are after thread::notify.
use boost_cmt.Base.{
  ℕ, zero, suc, ◌+◌, ◌≡◌, refl, sym, ap, ◌∙◌, subst, ◌⊎◌, List, [], ◌∷◌, ◌++◌, Option, none, some,
  arith, inl, inr, Bool-cases, Option-cases,
}
use boost_cmt.Base.Links.{Chain}
use boost_cmt.StdHeap.{StdHeap}
use boost_cmt.Thread.State.{World}
use boost_cmt.Thread.Notify.{
  try_unblock, unblock, unlink, bypass, scan_blocked, wake_sleeper, notify,
}
use boost_cmt.Thread.Notify.Unlink.{
  Blocked, prev_of, unblock-next_blocked, unblock-Blocked, unblock-Ready,
}
use boost_cmt.Thread.Ready.{ready_push_front}
use boost_cmt.Thread.Places.{occurs, places, Plain, Placed, Moved}
use boost_cmt.Thread.Places.Count.{occurs-Absent, occurs-append, occurs-itself, sleep_index-none}
use boost_cmt.Thread.Places.Jump.{Plain-kept, same_world}

module _ {A : Type 0} where
  -- What the loop over the blocked list did: nothing, or it unblocked one context.
  abbrev pub Scanned : World A → World A → Option ℕ → List ℕ → Type 0
  Scanned w v prev bs =
      (v ≡ w)
      ⊎ ((us : List ℕ) × (c : ℕ) × (vs : List ℕ) × (bs ≡ us ++ (c ∷ vs))
          × (v ≡ unblock w c (prev_of prev us)))

  scan_on :
      (w v : World A) (prev : Option ℕ) (x : ℕ) (bs : List ℕ)
      → Scanned w v (some x) bs
      → Scanned w v prev (x ∷ bs)
  scan_on w v prev x bs (inl e) = inl e
  scan_on w v prev x bs (inr (us, c, vs, e, h)) = inr (x ∷ us, c, vs, ap (λ l. x ∷ l) e, h)

  scan_stops :
      (f : ℕ) (w v : World A) (p : ℕ) (cur prev : Option ℕ)
      → cur ≡ none
      → scan_blocked f w p cur prev ≡ some v
      → v ≡ w
  unfolding scan_blocked
  scan_stops zero w v p cur prev e h = absurd (ground arith)
  scan_stops (suc f) w v p none prev e h = same_world w v h
  scan_stops (suc f) w v p (some x) prev e h = absurd (ground arith)

  pub scan_blocked-Scanned :
      (f : ℕ) (w v : World A) (p : ℕ) (cur prev : Option ℕ) (bs : List ℕ)
      → Chain w.next_blocked cur bs
      → scan_blocked f w p cur prev ≡ some v
      → Scanned w v prev bs
  unfolding scan_blocked
  scan_blocked-Scanned zero w v p cur prev bs h e = absurd (ground arith)
  scan_blocked-Scanned (suc f) w v p none prev bs h e = inl (same_world w v e)
  scan_blocked-Scanned (suc f) w v p (some x) prev [] h e = absurd (ground arith)
  scan_blocked-Scanned (suc f) w v p (some x) prev (y ∷ bs) h e =
      let same : x ≡ y = ground arith in
      elim (Bool-cases (try_unblock w x p)) [
        | inl t ↦
            let woken = unblock w x prev in
            let stopped : v ≡ woken =
              scan_stops f woken v p (woken.next_blocked x) prev (unblock-next_blocked w x prev)
                (rw (t, scan_blocked) at e) in
            inr ([], x, bs, ap (λ c. c ∷ bs) (sym same), stopped)
        | inr t ↦
            let links : Chain w.next_blocked (w.next_blocked x) bs =
              subst (λ c. Chain w.next_blocked (w.next_blocked c) bs) (sym same) h.1 in
            subst (λ c. Scanned w v prev (c ∷ bs)) same
              (scan_on w v prev x bs (
                scan_blocked-Scanned f w v p (w.next_blocked x) (some x) bs links
                  (rw (t, scan_blocked) at e)))
      ]

  unblock-rest :
      (w : World A) (c : ℕ) (prev : Option ℕ)
      → ((unblock w c prev).sleep_pqueue ≡ w.sleep_pqueue)
        × ((unblock w c prev).prom ≡ w.prom)
        × ((unblock w c prev).current ≡ w.current)
        × ((unblock w c prev).fresh ≡ w.fresh)
  unfolding unblock unlink bypass ready_push_front
  unblock-rest w c none = (refl, refl, refl, refl)
  unblock-rest w c (some q) = (refl, refl, refl, refl)

  -- Unblocking moves the context from the blocked list to the front of the ready queue.
  unblock-Moved :
      (w : World A) (c b : ℕ) (us vs rs : List ℕ)
      → Placed w c rs (us ++ (b ∷ vs))
      → Moved w (unblock w b (prev_of none us)) c rs (us ++ (b ∷ vs))
  unblock-Moved w c b us vs rs l =
      let v = unblock w b (prev_of none us) in
      let rest = unblock-rest w b (prev_of none us) in
      let split : (o : ℕ) → occurs o (us ++ (b ∷ vs)) ≡ occurs o (us ++ vs) + occurs o (b ∷ []) =
        λ o. omega (arith, occurs-append o us (b ∷ vs), occurs-append o us vs) in
      let all : (o : ℕ)
          → places o c (b ∷ rs) (us ++ vs) v.sleep_pqueue
            ≡ places o c rs (us ++ (b ∷ vs)) w.sleep_pqueue =
        λ o. omega (arith, split o, ap (occurs o) rest.0) in
      let not_ready : occurs b rs ≡ 0 = omega (arith, l.apart b, split b, occurs-itself b) in
      record {
        runs = c;
        waiting = b ∷ rs;
        blocked = us ++ vs;
        placed = record {
          running = rest.2 ∙ l.running;
          waiting = unblock-Ready w b (prev_of none us) rs l.waiting (occurs-Absent b rs not_ready);
          plain = Plain-kept w v rest.1 rest.0 l.plain;
          stuck = unblock-Blocked w b us vs l.stuck;
          apart = λ o. omega (arith, all o, l.apart o);
          older = λ o h. omega (arith, all o, l.older o (omega (arith, rest.3)));
        };
        kept = inl all;
      }

  pub stays : (w : World A) (c : ℕ) (rs bs : List ℕ) → Placed w c rs bs → Moved w w c rs bs
  stays w c rs bs l = record {
    runs = c;
    waiting = rs;
    blocked = bs;
    placed = l;
    kept = inl (λ o. refl);
  }

  Scanned-Moved :
      (w v : World A) (c : ℕ) (rs bs : List ℕ)
      → Placed w c rs bs
      → Scanned w v none bs
      → Moved w v c rs bs
  Scanned-Moved w v c rs bs l (inl e) = subst (λ u. Moved w u c rs bs) (sym e) (stays w c rs bs l)
  Scanned-Moved w v c rs bs l (inr (us, b, vs, e, h)) =
      subst (λ u. Moved w u c rs bs) (sym h)
        (subst (λ k. Moved w (unblock w b (prev_of none us)) c rs k) (sym e)
          (unblock-Moved w c b us vs rs (subst (Placed w c rs) e l)))

  module _ (std : StdHeap) where
    -- No context that sleeps waits for a promise, so none is woken from its sleep.
    none_asleep : (w : World A) (p : ℕ) → Plain w → wake_sleeper std w p ≡ w
    unfolding wake_sleeper
    none_asleep w p h = rw (sleep_index-none w.prom p w.sleep_pqueue h, wake_sleeper) refl

    Plain-nil : (w : World A) → w.sleep_pqueue ≡ [] → Plain w
    Plain-nil w e o h = absurd (omega (arith, ap (occurs o) e))

    pub notify-Moved :
        (scan : ℕ) (w v : World A) (p c : ℕ) (rs bs : List ℕ)
        → Placed w c rs bs
        → notify std scan w p ≡ some v
        → Moved w v c rs bs
    unfolding notify
    notify-Moved scan w v p c rs bs l e =
        elim (Option-cases (scan_blocked scan w p w.blocked none)) [
          | inl h ↦ absurd (ground arith)
          | inr (u, h) ↦
              let moved =
                Scanned-Moved w u c rs bs l
                  (scan_blocked-Scanned scan w u p w.blocked none bs l.stuck.chain h) in
              let same : v ≡ wake_sleeper std u p = same_world _ v (rw (h, notify) at e) in
              subst (λ x. Moved w x c rs bs) (sym (same ∙ none_asleep u p moved.placed.plain)) moved
        ]

    unblock-promises :
        (w : World A) (c : ℕ) (prev : Option ℕ) → (unblock w c prev).promises ≡ w.promises
    unfolding unblock unlink bypass ready_push_front
    unblock-promises w c none = refl
    unblock-promises w c (some q) = refl

    pub Scanned-kept :
        (w v : World A) (bs : List ℕ)
        → Scanned w v none bs
        → (v.sleep_pqueue ≡ w.sleep_pqueue) × (v.promises ≡ w.promises)
    Scanned-kept w v bs (inl e) =
        (ap (λ (u : World A). u.sleep_pqueue) e, ap (λ (u : World A). u.promises) e)
    Scanned-kept w v bs (inr (us, b, vs, e, h)) = (
      ap (λ (u : World A). u.sleep_pqueue) h ∙ (unblock-rest w b (prev_of none us)).0,
      ap (λ (u : World A). u.promises) h ∙ unblock-promises w b (prev_of none us),
    )

    -- Where nothing sleeps, a notification leaves it so, and changes no promise.
    pub notify_kept :
        (scan : ℕ) (w v : World A) (p : ℕ) (bs : List ℕ)
        → Blocked w bs
        → w.sleep_pqueue ≡ []
        → notify std scan w p ≡ some v
        → (v.sleep_pqueue ≡ []) × (v.promises ≡ w.promises)
    unfolding notify
    notify_kept scan w v p bs b s e = elim (Option-cases (scan_blocked scan w p w.blocked none)) [
      | inl h ↦ absurd (ground arith)
      | inr (u, h) ↦
          let (asleep, left) =
            Scanned-kept w u bs (scan_blocked-Scanned scan w u p w.blocked none bs b.chain h) in
          let woken : v ≡ wake_sleeper std u p = same_world _ v (rw (h, notify) at e) in
          let same : v ≡ u = woken ∙ none_asleep u p (Plain-nil u (asleep ∙ s)) in
          (
            ap (λ (x : World A). x.sleep_pqueue) same ∙ asleep ∙ s,
            ap (λ (x : World A). x.promises) same ∙ left,
          )
    ]
