-- ===== src/Thread/Run/Outcome.antt =====
-- What becomes of the promise of a task, and of the context that runs it.
use boost_cmt.Base.{ℕ, ◌≡◌, refl, Option, none, some, arith, Bool, true, false, ap, ◌∙◌}
use boost_cmt.Base.Links.{put}
use boost_cmt.StdHeap.{StdHeap}
use boost_cmt.Error.{Exception, task_canceled, Result, ok, throws}
use boost_cmt.Promise.{Promise, set_exception, set_value}
use boost_cmt.Promise.Laws.{outcome}
use boost_cmt.Thread.State.{World}
use boost_cmt.Thread.Notify.{throw_into, set_into, notify_promise}
use boost_cmt.Thread.Switch.{come_back}
use boost_cmt.Thread.Run.{rtask, task_cancel, cancel, run_rtask, run}

module _ {A : Type 0} (std : StdHeap) (scan : ℕ) where
  -- The outcome that a task which is run leaves in its promise: that of the functor, unless the
  -- task was canceled; an exception that is there already stays if the functor returns a value.
  abbrev pub expected : Option Exception → Bool → Result A → Result A
  expected e true result = throws task_canceled
  expected (some e) false (ok v) = throws e
  expected none false (ok v) = ok v
  expected e false (throws x) = throws x

  abbrev left_by : Promise A → Bool → Result A → Promise A
  left_by q true result = record q { error = some task_canceled }
  left_by q false (throws x) = record q { error = some x }
  left_by q false (ok v) = elim q.error [ some e ↦ q | none ↦ record q { value = some v } ]

  left_by-expected :
      (q : Promise A) (b : Bool) (result : Result A)
      → outcome (left_by q b result) ≡ some (expected q.error b result)
  left_by-expected q true result = refl
  left_by-expected q false (throws x) = ground arith
  left_by-expected q false (ok v) = ground arith

  run_leaves :
      (w : World A) (t p : ℕ) (b : Bool) (result : Result A)
      → (w.promises p).blocked_thread ≡ none
      → w.task_canceled t ≡ b
      → run std scan w (rtask p) t result
        ≡ some (record w { promises = put w.promises p (left_by (w.promises p) b result) })
  unfolding run run_rtask throw_into set_into notify_promise set_exception set_value
  run_leaves w t p true result h c = ground arith
  run_leaves w t p false (throws x) h c = ground arith
  run_leaves w t p false (ok v) h c = ground arith

  -- Where no thread waits for the promise yet, running the task ends and leaves that outcome.
  pub run-outcome :
      (w : World A) (t p : ℕ) (result : Result A)
      → (w.promises p).blocked_thread ≡ none
      → (v : World A) × (run std scan w (rtask p) t result ≡ some v)
        × (outcome (v.promises p) ≡ some (expected (w.promises p).error (w.task_canceled t) result))
  run-outcome w t p result h =
      let left = left_by (w.promises p) (w.task_canceled t) result in
      let stored : put w.promises p left p ≡ left = ground arith in
      (
        record w { promises = put w.promises p left },
        run_leaves w t p (w.task_canceled t) result h refl,
        ap outcome stored ∙ left_by-expected (w.promises p) (w.task_canceled t) result,
      )

  -- Canceling a task before it runs: whatever the functor would do, running the task ends and its
  -- promise, for which no thread waits yet, is broken with task_canceled.
  pub cancel-run :
      (w : World A) (t p : ℕ) (result : Result A)
      → (w.promises p).blocked_thread ≡ none
      → (v : World A) × (run std scan (cancel w (rtask p) t) (rtask p) t result ≡ some v)
        × (outcome (v.promises p) ≡ some (throws task_canceled))
  unfolding cancel task_cancel
  cancel-run w t p result h =
      let c = cancel w (rtask p) t in
      let left = left_by (w.promises p) true result in
      let stored : put w.promises p left p ≡ left = ground arith in
      let same : c.promises ≡ w.promises = ground arith in
      let marked : c.task_canceled t ≡ true = ground arith in
      let ran = run_leaves c t p true result (ap (λ f. (f p).blocked_thread) same ∙ h) marked in
      (
        record c { promises = put c.promises p (left_by (c.promises p) true result) },
        ran,
        ground arith,
      )

  -- Canceling a task whose context is blocked: the context throws task_canceled when it comes back.
  pub cancel-come_back :
      (w : World A) (t p c : ℕ)
      → w.active_context t ≡ some c
      → (come_back (cancel w (rtask p) t) c).1 ≡ throws task_canceled
  unfolding cancel task_cancel come_back
  cancel-come_back w t p c h = ground arith
