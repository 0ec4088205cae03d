-- ===== src/Thread/Places/Kept.antt =====
-- No context is lost, whatever the running contexts do.
use boost_cmt.Base.{
  ℕ, ◌≡◌, ◌≤◌, refl, sym, subst, List, ◌∷◌, some, Bool, true, false, arith, if◌then◌else◌, ◌==◌,
  inl, inr, Bool-cases, Option-cases,
}
use boost_cmt.Base.Links.{put}
use boost_cmt.StdHeap.{StdHeap}
use boost_cmt.Promise.{Promise, set_value, set_exception}
use boost_cmt.Thread.State.{World}
use boost_cmt.Thread.Notify.{notify_promise, set_into, throw_into}
use boost_cmt.Thread.Places.{
  places, Placed, Moved, Step, yields, waits, sleeps, ends_wait, ends_sleep, notifies, sets, throws,
  Reach, here, next,
}
use boost_cmt.Thread.Places.Jump.{same_world}
use boost_cmt.Thread.Places.Slept.{sleep-Moved, waited-Moved, slept-Moved}
use boost_cmt.Thread.Places.Woken.{notify-Moved, stays}
use boost_cmt.Thread.Places.Turned.{yield-Moved, wait-Moved}

module _ {A : Type 0} (std : StdHeap) (scan : ℕ) where
  -- The places do not depend on the promises and on the notifications posted to other threads.
  set_rest-Placed :
      (w : World A) (ps : ℕ → Promise A) (qs : List (ℕ × ℕ)) (c : ℕ) (rs bs : List ℕ)
      → Placed w c rs bs
      → Placed (record w { promises = ps; posted = qs }) c rs bs
  set_rest-Placed w ps qs c rs bs l =
      let q = l.waiting in
      record {
        running = l.running;
        waiting = record { chain = q.chain; tail = q.tail; distinct = q.distinct };
        stuck = record { chain = l.stuck.chain; distinct = l.stuck.distinct };
        plain = l.plain;
        apart = l.apart;
        older = l.older;
      }

  notify_promise-Moved :
      (w v : World A) (p c : ℕ) (rs bs : List ℕ)
      → Placed w c rs bs
      → notify_promise std scan w p ≡ some v
      → Moved w v c rs bs
  unfolding notify_promise
  notify_promise-Moved w v p c rs bs l e = elim (Option-cases (w.promises p).blocked_thread) [
    | inl h ↦
        subst (λ u. Moved w u c rs bs) (sym (same_world w v (rw (h, notify_promise) at e)))
          (stays w c rs bs l)
    | inr (t, h) ↦ elim (Bool-cases (t == w.self)) [
      | inl own ↦ notify-Moved std scan w v p c rs bs l (rw (h, notify_promise, own) at e)
      | inr other ↦
          let u : World A = record w { posted = (t, p) ∷ w.posted } in
          let same : v ≡ u = same_world u v (rw (h, notify_promise, other) at e) in
          subst (λ u. Moved w u c rs bs) (sym same)
            (record {
              runs = c;
              waiting = rs;
              blocked = bs;
              placed = set_rest-Placed w w.promises ((t, p) ∷ w.posted) c rs bs l;
              kept = inl (λ o. refl);
            })
    ]
  ]

  -- A promise is set, and then the waiting thread is notified or not.
  set_promise-Moved :
      (w v : World A) (ps : ℕ → Promise A) (notifies : Bool) (p c : ℕ) (rs bs : List ℕ)
      → Placed w c rs bs
      → (if notifies
          then notify_promise std scan (record w { promises = ps }) p
          else some (record w { promises = ps }))
        ≡ some v
      → Moved w v c rs bs
  set_promise-Moved w v ps true p c rs bs l e =
      let u : World A = record w { promises = ps } in
      let m = notify_promise-Moved u v p c rs bs (set_rest-Placed w ps w.posted c rs bs l) e in
      record {
        runs = m.runs;
        waiting = m.waiting;
        blocked = m.blocked;
        placed = m.placed;
        kept = m.kept;
      }
  set_promise-Moved w v ps false p c rs bs l e =
      let u : World A = record w { promises = ps } in
      subst (λ x. Moved w x c rs bs) (sym (same_world u v e))
        (record {
          runs = c;
          waiting = rs;
          blocked = bs;
          placed = set_rest-Placed w ps w.posted c rs bs l;
          kept = inl (λ o. refl);
        })

  Step-Moved :
      (w v : World A) (c : ℕ) (rs bs : List ℕ)
      → Placed w c rs bs
      → Step std scan w v
      → Moved w v c rs bs
  unfolding set_into throw_into
  Step-Moved w v c rs bs l (yields fuel now x v' e) =
      yield-Moved std fuel scan w v now x c rs bs l e
  Step-Moved w v c rs bs l (waits fuel p now1 now2 d x v' e) =
      wait-Moved std fuel scan w v p now1 now2 d x c rs bs l e
  Step-Moved w v c rs bs l (sleeps fuel at now d x v' e) =
      sleep-Moved std fuel scan w v at now d x c rs bs l e
  Step-Moved w v c rs bs l (ends_wait fuel d e) = waited-Moved std fuel scan w c d rs bs l e
  Step-Moved w v c rs bs l (ends_sleep fuel d e) = slept-Moved std fuel scan w c d rs bs l e
  Step-Moved w v c rs bs l (notifies p v' e) = notify-Moved std scan w v p c rs bs l e
  Step-Moved w v c rs bs l (sets p a v' e) =
      let (q, n) = set_value (w.promises p) a in
      set_promise-Moved w v (put w.promises p q) n p c rs bs l e
  Step-Moved w v c rs bs l (throws p x v' e) =
      let (q, n) = set_exception (w.promises p) x in
      set_promise-Moved w v (put w.promises p q) n p c rs bs l e

  Moved-more :
      (w v : World A) (c : ℕ) (rs bs : List ℕ) (m : Moved w v c rs bs) (o : ℕ)
      → places o c rs bs w.sleep_pqueue ≤ places o m.runs m.waiting m.blocked v.sleep_pqueue
  Moved-more w v c rs bs m o = elim m.kept [
    | inl same ↦ omega (arith, same o)
    | inr made ↦ omega (arith, made o)
  ]

  -- Whatever the contexts of a thread do, in any order, as they yield, sleep, wait without a timeout,
  -- return from these, notify and set promises, and whenever the times of the sleeping ones come:
  -- one context runs, the ready and the blocked ones stand on their linked lists, no context is in
  -- two of these places or twice in one, the sleep queue included, and every context that was
  -- somewhere still is; the address of a new context is not one of theirs.
  pub Reach-Placed :
      {w v : World A} {c : ℕ} {rs bs : List ℕ}
      → Placed w c rs bs
      → Reach std scan w v
      → (d : ℕ) × (ready_now : List ℕ) × (blocked_now : List ℕ) × Placed v d ready_now blocked_now
        × ((o : ℕ)
            → places o c rs bs w.sleep_pqueue ≤ places o d ready_now blocked_now v.sleep_pqueue)
  Reach-Placed {c = c} {rs = rs} {bs = bs} l here = (c, rs, bs, l, λ o. omega arith)
  Reach-Placed {v = v} l (next {u = u} r s) =
      let (d, xs, ys, q, more) = Reach-Placed l r in
      let m = Step-Moved u v d xs ys q s in
      (
        m.runs,
        m.waiting,
        m.blocked,
        m.placed,
        λ o. omega (arith, more o, Moved-more u v d xs ys m o),
      )
