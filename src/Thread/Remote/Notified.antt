-- ===== src/Thread/Remote/Notified.antt =====
-- What a notification posted to another thread does there.
use boost_cmt.Base.{
  ℕ, ◌≡◌, ◌<◌, refl, sym, ap, ◌∙◌, subst, List, [], ◌∷◌, none, some, false, arith, ◌==◌,
  Option-cases, inl, inr,
}
use boost_cmt.Base.Links.{put, Chain, Absent}
use boost_cmt.StdHeap.{StdHeap}
use boost_cmt.Error.{ok}
use boost_cmt.Promise.{Promise, set_value, wait_leave}
use boost_cmt.Thread.State.{World, Contexts, default_priority, time_min}
use boost_cmt.Thread.Ready.{Ready}
use boost_cmt.Thread.Notify.{notify, notify_promise, set_into, scan_blocked, wake_sleeper}
use boost_cmt.Thread.Notify.Unlink.{Blocked}
use boost_cmt.Thread.Notify.Wake.{notify_wakes_first}
use boost_cmt.Thread.Places.Jump.{same_world}
use boost_cmt.Thread.Places.Woken.{Scanned-kept, scan_blocked-Scanned}
use boost_cmt.Thread.Queue.{dequeue}
use boost_cmt.Thread.Queue.Only.{dequeue_only}
use boost_cmt.Thread.Spawn.{async_vtask, make_task, post}

module _ {A : Type 0} where
  -- The contexts and their lists are the same.
  record SameLists (w v : World A) : Type 0 where
    contexts_kept : v.contexts ≡ w.contexts
    head_kept : v.ready_head ≡ w.ready_head
    tail_kept : v.ready_tail ≡ w.ready_tail
    blocked_kept : v.blocked ≡ w.blocked

  Blocked-same : (w v : World A) (bs : List ℕ) → SameLists w v → Blocked w bs → Blocked v bs
  Blocked-same w v bs u b = record {
    chain =
        subst (λ (k : Contexts). Chain k.next_blocked v.blocked bs) (sym u.contexts_kept)
          (subst (λ h. Chain w.next_blocked h bs) (sym u.blocked_kept) b.chain);
    distinct = b.distinct;
  }

  Ready-same : (w v : World A) (rs : List ℕ) → SameLists w v → Ready w rs → Ready v rs
  Ready-same w v rs u r = record {
    chain =
        subst (λ (k : Contexts). Chain k.next v.ready_head rs) (sym u.contexts_kept)
          (subst (λ h. Chain w.next h rs) (sym u.head_kept) r.chain);
    tail = u.tail_kept ∙ r.tail;
    distinct = r.distinct;
  }

  vtask-posted :
      (w : World A) (t count prio : ℕ)
      → w.task_in_queue ≡ none
      → let x = async_vtask w t count prio in
        Chain x.task_next x.task_in_queue (t ∷ [])
        × (x.task_pqueue ≡ w.task_pqueue)
        × (x.task_sch_queue ≡ w.task_sch_queue)
        × (x.when t ≡ time_min)
  unfolding async_vtask make_task post
  vtask-posted w t count prio e = ground arith

  vtask-kept :
      (w : World A) (t count prio : ℕ)
      → let x = async_vtask w t count prio in
        (x.promises ≡ w.promises)
        × (x.contexts ≡ w.contexts)
        × (x.ready_head ≡ w.ready_head)
        × (x.ready_tail ≡ w.ready_tail)
        × (x.blocked ≡ w.blocked)
  unfolding async_vtask make_task post
  vtask-kept w t count prio = (refl, refl, refl, refl, refl)

  given : (q : Promise A) (a : A) → q.error ≡ none → (wait_leave (set_value q a).0).1 ≡ ok a
  unfolding wait_leave set_value
  given q a e = ground arith

  module _ (std : StdHeap) where
    wake_sleeper-promises : (w : World A) (p : ℕ) → (wake_sleeper std w p).promises ≡ w.promises
    unfolding wake_sleeper
    wake_sleeper-promises w p = ground arith

    notify-promises :
        (scan : ℕ) (w v : World A) (p : ℕ) (bs : List ℕ)
        → Blocked w bs
        → notify std scan w p ≡ some v
        → v.promises ≡ w.promises
    unfolding notify
    notify-promises scan w v p bs b e = elim (Option-cases (scan_blocked scan w p w.blocked none)) [
      | inl h ↦ absurd (ground arith)
      | inr (u, h) ↦
          let found = scan_blocked-Scanned scan w u p w.blocked none bs b.chain h in
          let woken : v ≡ wake_sleeper std u p = same_world _ v (rw (h, notify) at e) in
          ap (λ (x : World A). x.promises) woken
          ∙ wake_sleeper-promises u p
          ∙ (Scanned-kept std w u bs found).1
    ]

    set_posts :
        (scan : ℕ) (w : World A) (p t : ℕ) (a : A)
        → (w.promises p).error ≡ none
        → (w.promises p).blocked_thread ≡ some t
        → (t == w.self) ≡ false
        → (v : World A) × (set_into std scan w p a ≡ some v)
          × (v.posted ≡ (t, p) ∷ w.posted)
          × (v.promises p ≡ (set_value (w.promises p) a).0)
    unfolding set_into notify_promise set_value
    set_posts scan w p t a e h n = (
      record w {
        promises = put w.promises p (set_value (w.promises p) a).0;
        posted = (t, p) ∷ w.posted;
      },
      ground arith,
      refl,
      ground arith,
    )

    -- A context `c` of the thread `wb` is the first that is blocked on a promise, and another thread
    -- `wa` sets the promise.
    pub notified_remotely :
        (scan : ℕ) (wa wb : World A) (p c t count now1 now2 : ℕ) (a : A) (bs rs : List ℕ)
        → 1 < scan
        → (wa.promises p).error ≡ none
        → (wa.promises p).blocked_thread ≡ some wb.self
        → (wb.self == wa.self) ≡ false
        → Blocked wb (c ∷ bs)
        → Ready wb rs
        → Absent c rs
        → wb.prom c ≡ some p
        → wb.task_in_queue ≡ none
        → wb.task_pqueue ≡ []
        → wb.task_sch_queue ≡ []
        → (ua : World A) × (ub : World A) × (v : World A) × (set_into std scan wa p a ≡ some ua)
          × (ua.posted ≡ (wb.self, p) ∷ wa.posted)
          × (dequeue std 2
                (async_vtask (record wb { promises = ua.promises }) t count default_priority)
                now1
                now2
              ≡ some (ub, some t))
          × (notify std scan ub p ≡ some v)
          × Blocked v bs
          × Ready v (c ∷ rs)
          × ((wait_leave (v.promises p)).1 ≡ ok a)
    notified_remotely scan wa wb p c t count now1 now2 a bs rs l e h n b r o k i q s =
        let (ua, set, posted_to, value) = set_posts scan wa p wb.self a e h n in
        let w0 : World A = record wb { promises = ua.promises } in
        let x = async_vtask w0 t count default_priority in
        let x_posted = vtask-posted w0 t count default_priority i in
        let x_kept = vtask-kept w0 t count default_priority in
        let (ub, taken, same) =
          dequeue_only std x now1 now2 t x_posted.0 (x_posted.1 ∙ q) (x_posted.2 ∙ s)
            (omega (arith, x_posted.3)) in
        let lists : SameLists wb ub = record {
          contexts_kept = same.2 ∙ x_kept.1;
          head_kept = same.3 ∙ x_kept.2;
          tail_kept = same.4 ∙ x_kept.3;
          blocked_kept = same.5 ∙ x_kept.4;
        } in
        let stuck = Blocked-same wb ub (c ∷ bs) lists b in
        let asks = ap (λ (m : Contexts). m.prom c) lists.contexts_kept ∙ k in
        let (v, notified, unblocked, waiting) =
          notify_wakes_first std scan ub p c [] bs rs stuck (Ready-same wb ub rs lists r) o tt asks
            (omega arith) in
        let left = notify-promises scan ub v p (c ∷ bs) stuck notified ∙ same.0 ∙ x_kept.0 in
        (
          ua,
          ub,
          v,
          set,
          posted_to,
          taken,
          notified,
          unblocked,
          waiting,
          ap (λ f. (wait_leave (f p)).1) left
              ∙ ap (λ m. (wait_leave m).1) value
              ∙ given (wa.promises p) a e,
        )
