-- ===== src/Thread/Places/Expiry.antt =====
-- A wait with a timeout that runs out.
use boost_cmt.Base.{
  ℕ, ◌<◌, ◌≤◌, ◌≡◌, refl, sym, ap, ◌∙◌, List, [], ◌∷◌, ◌++◌, Option, none, some, arith, Bool, true,
  false, ◌==◌, ltb, leb, perm_single, length-perm, drop-eq-nil,
}
use boost_cmt.Base.Links.{put, Absent}
use boost_cmt.StdHeap.{StdHeap}
use boost_cmt.Error.{future_wait_timeout, throws}
use boost_cmt.Promise.{Promise, set_exception, wait_leave}
use boost_cmt.Thread.State.{World, time_max, time_min}
use boost_cmt.Thread.Ready.{Ready}
use boost_cmt.Thread.Notify.{
  throw_into, notify, notify_promise, sleep_priority_less, add_to_blocked, add_blocking_promise,
}
use boost_cmt.Thread.Notify.Unlink.{Blocked}
use boost_cmt.Thread.Notify.Wake.{notify_wakes_first}
use boost_cmt.Thread.Places.Woken.{notify_kept}
use boost_cmt.Thread.Queue.{pop_top}
use boost_cmt.Thread.Queue.Select.{pop_top-rest_heap}
use boost_cmt.Thread.Timeouts.{
  expire, expire_front, expire_sleepers, check_for_timeouts, next_time, next_sleeper, is_nil,
}
use boost_cmt.Thread.Switch.{block_on, push_sleeper}
use boost_cmt.Thread.Switch.Block.{block_on-Blocked, block_on-Ready, block_on-prom}

popped_empty : (std : StdHeap) (less : ℕ → ℕ → Bool) (c : ℕ) → pop_top std less (c ∷ []) ≡ []
popped_empty std less c =
    let n = length-perm (std.rest_heap-perm less c []) in
    pop_top-rest_heap std less c [] ∙ drop-eq-nil 0 _ (omega (arith, n))

module _ {A : Type 0} (std : StdHeap) where
  pub only_sleeper :
      (w : World A) (c p timeout : ℕ)
      → (timeout == time_max) ≡ false
      → w.sleep_pqueue ≡ []
      → ((block_on std w c p timeout).sleep_pqueue ≡ c ∷ [])
        × ((block_on std w c p timeout).resume_time c ≡ timeout)
        × ((block_on std w c p timeout).promises ≡ w.promises)
        × ((block_on std w c p timeout).self ≡ w.self)
  unfolding block_on push_sleeper add_to_blocked add_blocking_promise
  only_sleeper w c p timeout n e =
      let less = sleep_priority_less (put w.resume_time c timeout) in
      let one : std.push_heap less (w.sleep_pqueue ++ (c ∷ [])) ≡ c ∷ [] =
        rw e (perm_single _ c (std.push_heap-perm less (c ∷ []))) in
      rw (n, block_on) (one, ground arith, refl, refl)

  thrown :
      (q : Promise A)
      → q.error ≡ some future_wait_timeout
      → (wait_leave q).1 ≡ throws future_wait_timeout
  unfolding wait_leave
  thrown q e = ground arith

  -- The time to wake at is not later than that of the front of the sleep queue.
  next_not_later : (w : World A) (c : ℕ) → w.sleep_pqueue ≡ c ∷ [] → next_time w ≤ w.resume_time c
  unfolding next_time next_sleeper
  next_not_later w c e = rw e (ground arith)

  notified :
      (scan : ℕ) (w : World A) (p : ℕ)
      → (w.promises p).blocked_thread ≡ some w.self
      → notify_promise std scan w p ≡ notify std scan w p
  unfolding notify_promise
  notified scan w p e = ground arith

  abbrev broken : World A → ℕ → World A
  broken w p = record w {
    promises = put w.promises p (set_exception (w.promises p) future_wait_timeout).0;
  }

  broken-error :
      (w : World A) (p : ℕ)
      → (((broken w p).promises p).error ≡ some future_wait_timeout)
        × (((broken w p).promises p).blocked_thread ≡ (w.promises p).blocked_thread)
  unfolding set_exception
  broken-error w p = ground arith

  -- The promise is broken, and the context that waits for it woken.
  broken_wakes :
      (scan : ℕ) (w : World A) (c p : ℕ) (bs rs : List ℕ)
      → 1 < scan
      → Blocked w (c ∷ bs)
      → Ready w rs
      → Absent c rs
      → w.sleep_pqueue ≡ []
      → w.prom c ≡ some p
      → (w.promises p).blocked_thread ≡ some w.self
      → (v : World A) × (throw_into std scan w p future_wait_timeout ≡ some v)
        × Blocked v bs
        × Ready v (c ∷ rs)
        × (v.sleep_pqueue ≡ [])
        × ((v.promises p).error ≡ some future_wait_timeout)
  unfolding throw_into set_exception
  broken_wakes scan w c p bs rs l b r a s e t =
      let u = broken w p in
      let stuck_then : Blocked u (c ∷ bs) = record { chain = b.chain; distinct = b.distinct } in
      let (v, done, stuck, waiting) =
        notify_wakes_first std scan u p c [] bs rs stuck_then
          (record { chain = r.chain; tail = r.tail; distinct = r.distinct }) a tt e (omega arith) in
      let (asleep, left) = notify_kept std scan u v p (c ∷ bs) stuck_then s done in
      let (error, thread) = broken-error w p in
      (
        v,
        notified scan u p (thread ∙ t) ∙ done,
        stuck,
        waiting,
        asleep,
        ap (λ f. (f p).error) left ∙ error,
      )

  expire_waiting :
      (scan : ℕ) (w v : World A) (c p now : ℕ) (again : World A → Option (World A))
      → w.resume_time c ≤ now
      → w.prom c ≡ some p
      → throw_into std scan
          (record w { sleep_pqueue = pop_top std (sleep_priority_less w.resume_time) (c ∷ []) })
          p
          future_wait_timeout
        ≡ some v
      → expire_front std again scan w now (c ∷ []) ≡ again v
  unfolding expire_front expire
  expire_waiting scan w v c p now again d e h =
      let due : leb (w.resume_time c) now ≡ true = ground arith in rw (due, e, h) refl

  expire_none :
      (scan : ℕ) (w : World A) (now : ℕ) (again : World A → Option (World A)) (v : List ℕ)
      → v ≡ []
      → expire_front std again scan w now v ≡ some w
  unfolding expire_front
  expire_none scan w now again [] e = refl
  expire_none scan w now again (c ∷ v) e = absurd (ground arith)

  -- One sleeping context that waits for a promise, and whose time has come.
  expire_only :
      (scan : ℕ) (w : World A) (c p now : ℕ) (bs rs : List ℕ)
      → 1 < scan
      → Blocked w (c ∷ bs)
      → Ready w rs
      → Absent c rs
      → w.sleep_pqueue ≡ c ∷ []
      → w.resume_time c ≤ now
      → w.prom c ≡ some p
      → (w.promises p).blocked_thread ≡ some w.self
      → (v : World A) × (expire_sleepers std 2 scan w now ≡ some v)
        × Blocked v bs
        × Ready v (c ∷ rs)
        × (v.sleep_pqueue ≡ [])
        × ((v.promises p).error ≡ some future_wait_timeout)
  unfolding expire_sleepers
  expire_only scan w c p now bs rs l b r a s d e t =
      let less = sleep_priority_less w.resume_time in
      let u : World A = record w { sleep_pqueue = pop_top std less (c ∷ []) } in
      let (v, threw, stuck, waiting, asleep, error) =
        broken_wakes scan u c p bs rs l (record { chain = b.chain; distinct = b.distinct })
          (record { chain = r.chain; tail = r.tail; distinct = r.distinct }) a
          (popped_empty std less c) e t in
      let last : World A → Option (World A) = λ x. none in
      let again : World A → Option (World A) =
        λ x. expire_front std last scan x now x.sleep_pqueue in
      (
        v,
        ap (λ q. expire_front std again scan w now q) s
            ∙ expire_waiting scan w v c p now again d e threw
            ∙ expire_none scan v now last v.sleep_pqueue asleep,
        stuck,
        waiting,
        asleep,
        error,
      )

  check_runs :
      (scan : ℕ) (w v : World A) (c now : ℕ)
      → w.sleep_pqueue ≡ c ∷ []
      → w.resume_time c ≤ now
      → expire_sleepers std 2 scan w now ≡ some v
      → check_for_timeouts std 2 scan w now ≡ some (v, time_min)
  unfolding check_for_timeouts
  check_runs scan w v c now s d e =
      let some_sleep : is_nil w.sleep_pqueue ≡ false = ap is_nil s in
      let bound = next_not_later w c s in
      let early : ltb now (next_time w) ≡ false = ground (arith, bound) in
      rw (some_sleep, early, e) refl

  -- A context `c` that waits for a promise with a timeout, where nothing else sleeps and the promise
  -- is to notify this thread: once the clock shows the timeout or later, check_for_timeouts breaks
  -- the promise with future_wait_timeout, takes `c` off the sleep queue and the blocked list, and
  -- puts it in front of the ready ones; and the wait of `c` throws future_wait_timeout.
  pub timed_wait_expires :
      (scan : ℕ) (w : World A) (c p timeout now : ℕ) (bs rs : List ℕ)
      → 1 < scan
      → (timeout == time_max) ≡ false
      → timeout ≤ now
      → Blocked w bs
      → Ready w rs
      → Absent c bs
      → Absent c rs
      → w.sleep_pqueue ≡ []
      → (w.promises p).blocked_thread ≡ some w.self
      → (v : World A) × (check_for_timeouts std 2 scan (block_on std w c p timeout) now
          ≡ some (v, time_min))
        × Blocked v bs
        × Ready v (c ∷ rs)
        × (v.sleep_pqueue ≡ [])
        × ((wait_leave (v.promises p)).1 ≡ throws future_wait_timeout)
  timed_wait_expires scan w c p timeout now bs rs l n d b r a o s t =
      let u = block_on std w c p timeout in
      let (only, at, promises_kept, self_kept) = only_sleeper w c p timeout n s in
      let (v, ran, stuck, waiting, asleep, error) =
        expire_only scan u c p now bs rs l (block_on-Blocked std w c p timeout bs b a)
          (block_on-Ready std w c p timeout rs r) o only (omega (arith, at))
          (block_on-prom std w c p timeout)
          (ap (λ f. (f p).blocked_thread) promises_kept ∙ t ∙ ap some (sym self_kept)) in
      (
        v,
        check_runs scan u v c now only (omega (arith, at)) ran,
        stuck,
        waiting,
        asleep,
        thrown (v.promises p) error,
      )
