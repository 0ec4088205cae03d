-- ===== src/Thread/Remote/Settled.antt =====
-- A promise that one thread sets and a context of another one waits for.
use boost_cmt.Base.{
  ℕ, ◌≡◌, ◌<◌, sym, ap, ◌∙◌, List, [], ◌∷◌, none, some, false, arith, ◌==◌, Option-cases, inl, inr,
}
use boost_cmt.Base.Links.{Absent}
use boost_cmt.StdHeap.{StdHeap}
use boost_cmt.Error.{ok}
use boost_cmt.Promise.{Promise, wait_enter, wait_leave, blocks, enqueue_thread}
use boost_cmt.Thread.State.{World, default_priority}
use boost_cmt.Thread.Ready.{Ready}
use boost_cmt.Thread.Notify.{notify, add_to_blocked, add_blocking_promise, set_into}
use boost_cmt.Thread.Notify.Unlink.{Blocked}
use boost_cmt.Thread.Switch.{block_on, push_sleeper}
use boost_cmt.Thread.Switch.Block.{block_on-Blocked, block_on-Ready, block_on-prom}
use boost_cmt.Thread.Queue.{dequeue}
use boost_cmt.Thread.Spawn.{async_vtask}
use boost_cmt.Thread.Remote.Notified.{notified_remotely}

entered-blocks :
    {A : Type 0} (q r : Promise A) (self : ℕ)
    → wait_enter q self ≡ blocks r
    → (r.error ≡ none) × (r.blocked_thread ≡ some self)
unfolding wait_enter enqueue_thread
entered-blocks q r self e = elim (Option-cases q.error) [
  | inr (x, h) ↦ absurd (ground arith)
  | inl h ↦ elim (Option-cases q.value) [
    | inr (v, k) ↦ absurd (ground arith)
    | inl k ↦ ground arith
  ]
]

module _ {A : Type 0} (std : StdHeap) where
  block_on-tasks :
      (w : World A) (c p timeout : ℕ)
      → let v = block_on std w c p timeout in
        (v.task_in_queue ≡ w.task_in_queue)
        × (v.task_pqueue ≡ w.task_pqueue)
        × (v.task_sch_queue ≡ w.task_sch_queue)
        × (v.self ≡ w.self)
  unfolding block_on push_sleeper add_to_blocked add_blocking_promise
  block_on-tasks w c p timeout = ground arith

  -- A wait for a promise that another thread sets to `a`, from end to end. The context `c` of the
  -- thread `wb` enters the wait and blocks, with a timeout or without; the thread `wa` sets the
  -- promise, and posts a notification to `wb`. Where no other task is on `wb`, the next `dequeue`
  -- there takes it, and running it puts `c` in front of the ready contexts and takes it off the
  -- blocked ones, also where others wait for the promise; and the wait of `c` then returns `a`.
  pub remote_set_wakes :
      (scan : ℕ) (wa wb : World A) (q : Promise A) (p c timeout t count now1 now2 : ℕ) (a : A)
      (bs rs : List ℕ)
      → 1 < scan
      → wait_enter q wb.self ≡ blocks (wa.promises p)
      → (wb.self == wa.self) ≡ false
      → Blocked wb bs
      → Ready wb rs
      → Absent c bs
      → Absent c rs
      → wb.task_in_queue ≡ none
      → wb.task_pqueue ≡ []
      → wb.task_sch_queue ≡ []
      → (ua : World A) × (ub : World A) × (v : World A) × (set_into std scan wa p a ≡ some ua)
        × (ua.posted ≡ (wb.self, p) ∷ wa.posted)
        × (dequeue std 2
              (async_vtask
                (record (block_on std wb c p timeout) { promises = ua.promises })
                t
                count
                default_priority)
              now1
              now2
            ≡ some (ub, some t))
        × (notify std scan ub p ≡ some v)
        × Blocked v bs
        × Ready v (c ∷ rs)
        × ((wait_leave (v.promises p)).1 ≡ ok a)
  remote_set_wakes scan wa wb q p c timeout t count now1 now2 a bs rs l e n b r f o i k s =
      let u = block_on std wb c p timeout in
      let (error, thread) = entered-blocks q (wa.promises p) wb.self e in
      let tasks = block_on-tasks wb c p timeout in
      let (ua, ub, v, set, posted_to, taken, notified, unblocked, waiting, result) =
        notified_remotely std scan wa u p c t count now1 now2 a bs rs l error
          (thread ∙ ap some (sym tasks.3)) (ap (λ x. x == wa.self) tasks.3 ∙ n)
          (block_on-Blocked std wb c p timeout bs b f) (block_on-Ready std wb c p timeout rs r) o
          (block_on-prom std wb c p timeout) (tasks.0 ∙ i) (tasks.1 ∙ k) (tasks.2 ∙ s) in
      (
        ua,
        ub,
        v,
        set,
        posted_to ∙ ap (λ x. (x, p) ∷ wa.posted) tasks.3,
        taken,
        notified,
        unblocked,
        waiting,
        result,
      )
