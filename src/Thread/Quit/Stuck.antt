-- ===== src/Thread/Quit/Stuck.antt =====
-- What thread::quit does with blocked contexts.
use boost_cmt.Base.{
  ℕ, zero, suc, ◌<◌, ◌≡◌, refl, sym, subst, ap, List, [], ◌∷◌, none, some, true, ◌∙◌, arith,
}
use boost_cmt.Base.Links.{put, Absent}
use boost_cmt.StdHeap.{StdHeap}
use boost_cmt.Error.{Exception, thread_quit}
use boost_cmt.Promise.{set_exception}
use boost_cmt.Thread.State.{World}
use boost_cmt.Thread.Ready.{Ready}
use boost_cmt.Thread.Notify.{throw_into, notify, notify_promise}
use boost_cmt.Thread.Notify.Unlink.{Blocked}
use boost_cmt.Thread.Notify.Wake.{notify_wakes_first}
use boost_cmt.Thread.Places.Woken.{notify_kept}
use boost_cmt.Thread.Quit.{
  ended, quit, quit_blocked, break_promise, cancel_ready, cancel_context, cancel_sleepers, finish,
}

module _ {A : Type 0} (std : StdHeap) (scan : ℕ) where
  -- The state with the exception in the promise `p`.
  abbrev pub failed : World A → ℕ → Exception → World A
  failed w p e = record w { promises = put w.promises p (record (w.promises p) { error = some e }) }

  -- The exception is stored, and the contexts of this thread are notified at once.
  pub throw_into_here :
      (w : World A) (p : ℕ) (e : Exception)
      → (w.promises p).blocked_thread ≡ some w.self
      → throw_into std scan w p e ≡ notify std scan (failed w p e) p
  unfolding throw_into set_exception notify_promise
  throw_into_here w p e h = ground arith

  -- Where nothing sleeps.
  break_first :
      (w : World A) (c p : ℕ) (bs rs : List ℕ)
      → Blocked w (c ∷ bs)
      → Ready w rs
      → Absent c rs
      → w.sleep_pqueue ≡ []
      → w.prom c ≡ some p
      → (w.promises p).blocked_thread ≡ some w.self
      → 1 < scan
      → (v : World A) × (break_promise std scan w c ≡ ended v)
        × Blocked v bs
        × Ready v (c ∷ rs)
        × (v.sleep_pqueue ≡ [])
        × (v.promises ≡ (failed w p thread_quit).promises)
  unfolding break_promise
  break_first w c p bs rs b r a s h t l =
      let x = failed w p thread_quit in
      let all : Blocked x (c ∷ bs) = record { chain = b.chain; distinct = b.distinct } in
      let (v, e, b', r') =
        notify_wakes_first std scan x p c [] bs rs all
          (record { chain = r.chain; tail = r.tail; distinct = r.distinct }) a tt h (omega arith) in
      let (asleep, left) = notify_kept std scan x v p (c ∷ bs) all s e in
      (v, rw (h, break_promise, throw_into_here w p thread_quit t, e) refl, b', r', asleep, left)

  -- The loop over the blocked list stops behind the first.
  first_only :
      (f : ℕ) (w v : World A) (c : ℕ)
      → w.blocked ≡ some c
      → break_promise std scan w c ≡ ended v
      → v.next c ≡ none
      → quit_blocked std scan (suc (suc f)) w w.blocked ≡ ended v
  unfolding quit_blocked
  first_only f w v c b e n =
      subst (λ q. quit_blocked std scan (suc (suc f)) w q ≡ ended v) (sym b)
        (rw e (ap (quit_blocked std scan (suc f) v) n))

  one_canceled :
      (f : ℕ) (v : World A) (c : ℕ)
      → v.ready_head ≡ some c
      → v.next c ≡ none
      → cancel_ready (suc (suc f)) v v.ready_head ≡ ended (cancel_context v c)
  unfolding cancel_ready cancel_context
  one_canceled f v c h n =
      subst (λ q. cancel_ready (suc (suc f)) v q ≡ ended (cancel_context v c)) (sym h)
        (ap (cancel_ready (suc f) (cancel_context v c)) n)

  -- The last steps of quit, where only `c` is ready and nothing sleeps.
  abbrev Finished : World A → World A → ℕ → List ℕ → Type 0
  Finished v z c bs =
      Blocked z bs
      × Ready z (c ∷ [])
      × (z.promises ≡ v.promises)
      × (z.canceled c ≡ true)
      × (z.done ≡ true)

  last_steps :
      (v : World A) (c : ℕ) (bs : List ℕ)
      → Blocked v bs
      → Ready v (c ∷ [])
      → v.sleep_pqueue ≡ []
      → Finished v (finish (cancel_context v c)) c bs
  unfolding finish cancel_context cancel_sleepers
  last_steps v c bs b r s =
      let canceled = cancel_context v c in
      let same : finish canceled ≡ record canceled { sleep_pqueue = []; done = true } =
        ap (λ q. record (cancel_sleepers canceled q) { sleep_pqueue = []; done = true }) s in
      subst (λ z. Finished v z c bs) (sym same)
        (
          record { chain = b.chain; distinct = b.distinct },
          record { chain = r.chain; tail = r.tail; distinct = r.distinct },
          refl,
          ground arith,
          refl,
        )

  -- What quit does where nothing is ready and nothing sleeps, and the promise `p` of the context `c`
  -- that was blocked last is to notify this thread: it breaks `p` with thread_quit and changes no
  -- other promise, since its loop follows the link of the ready queue and finds none behind `c`. So
  -- `c` is canceled and ready, all other blocked contexts stay blocked, and the thread is done.
  pub quit_breaks_one :
      (f : ℕ) (w : World A) (c p : ℕ) (bs : List ℕ)
      → Blocked w (c ∷ bs)
      → Ready w []
      → w.sleep_pqueue ≡ []
      → w.prom c ≡ some p
      → (w.promises p).blocked_thread ≡ some w.self
      → 1 < scan
      → 1 < f
      → (z : World A) × (quit std scan f w ≡ ended z)
        × Blocked z bs
        × Ready z (c ∷ [])
        × (z.promises ≡ put w.promises p (record (w.promises p) { error = some thread_quit }))
        × (z.canceled c ≡ true)
        × (z.done ≡ true)
  unfolding quit
  quit_breaks_one zero w c p bs b r s h t l m = absurd (omega arith)
  quit_breaks_one (suc zero) w c p bs b r s h t l m = absurd (omega arith)
  quit_breaks_one (suc (suc f)) w c p bs b r s h t l m =
      let (v, e, b', r', asleep, left) = break_first w c p bs [] b r tt s h t l in
      let first = first_only f w v c b.chain.0 e r'.chain.1 in
      let canceled = one_canceled f v c r'.chain.0 r'.chain.1 in
      let z = finish (cancel_context v c) in
      let (blocked, ready, same, stopped, over) = last_steps v c bs b' r' asleep in
      (z, rw (first, quit, canceled) refl, blocked, ready, same ∙ left, stopped, over)
