-- ===== src/Thread/Spawn/Posted.antt =====
-- What a posted task is.
use boost_cmt.Base.{ℕ, ◌≡◌, ◌≤◌, List, ◌∷◌, none, some, max, arith, false}
use boost_cmt.Base.Links.{Chain, Absent, Chain-put, Chain-cons}
use boost_cmt.Promise.{set_task}
use boost_cmt.Thread.State.{World}
use boost_cmt.Thread.Switch.{current_priority}
use boost_cmt.Thread.Spawn.{make_task, make_rtask, post, schedule}

module _ {A : Type 0} where
  post-Chain :
      (w : World A) (t : ℕ) (ps : List ℕ)
      → Absent t ps
      → Chain w.task_next w.task_in_queue ps
      → Chain (post w t).task_next (post w t).task_in_queue (t ∷ ps)
  unfolding post
  post-Chain w t ps a h = Chain-cons w.task_next t w.task_in_queue ps a h

  -- `schedule` posts the task in front of those posted before, with the time and the promise that
  -- are asked for, not canceled, and with a priority not below that of the caller or that asked for.
  pub schedule_posts :
      (w : World A) (t count p when prio : ℕ) (ps : List ℕ)
      → Absent t ps
      → Chain w.task_next w.task_in_queue ps
      → let v = schedule w t count p when prio in
        Chain v.task_next v.task_in_queue (t ∷ ps)
        × (v.when t ≡ when)
        × ((v.promises p).task ≡ some t)
        × (v.task_canceled t ≡ false)
        × (current_priority w ≤ v.prio t)
        × (prio ≤ v.prio t)
  unfolding schedule make_rtask make_task post set_task
  schedule_posts w t count p when prio ps a h = (
    post-Chain (make_rtask w t count p (max (current_priority w) prio) when) t ps a
        (Chain-put w.task_next t none w.task_in_queue ps a h),
    ground arith,
    ground arith,
    ground arith,
    ground arith,
    ground arith,
  )
