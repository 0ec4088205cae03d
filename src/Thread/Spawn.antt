-- ===== src/Thread/Spawn.antt =====
-- The members of thread that make a task and post it: async, schedule and sync of
-- include/boost/cmt/thread.hpp and src/thread.cpp, with the constructors of task.hpp. The exchange
-- with other producers is that of Thread/Post; here the post succeeds.
pub mod Posted
pub mod Here
pub mod Result
use boost_cmt.Base.{ℕ, suc, false, Option, none, some, max}
use boost_cmt.Base.Links.{put}
use boost_cmt.Promise.{Promise, empty, set_task}
use boost_cmt.Thread.State.{World, Tasks, time_min}
use boost_cmt.Thread.Switch.{current_priority}

module _ {A : Type 0} where
  -- task::task, for the object `t`, at the value of `global_task_count`.
  unfoldable pub make_task : World A → (t count prio when : ℕ) → World A
  make_task w t count prio when = record w {
    tasks = record w.tasks {
      task_next = put w.task_next t none;
      when = put w.when t when;
      prio = put w.prio t prio;
      posted_num = put w.posted_num t (suc count);
      task_canceled = put w.task_canceled t false;
      active_context = put w.active_context t none;
    };
  }

  -- rtask::rtask, with the new promise `p`.
  unfoldable pub make_rtask : World A → (t count p prio when : ℕ) → World A
  unfolding make_task
  make_rtask w t count p prio when = record (make_task w t count prio when) {
    promises = put w.promises p (set_task empty (some t));
  }

  -- async( task::ptr )
  unfoldable pub post : World A → ℕ → World A
  post w t = record w {
    tasks = record w.tasks { task_next = put w.task_next t w.task_in_queue };
    task_in_queue = some t;
  }

  -- async<T>( f, prio ): `current_priority()` is the member of the thread that is posted to, which
  -- hides the free function of that name.
  unfoldable pub async : World A → (t count p prio : ℕ) → World A
  unfolding post make_rtask
  async w t count p prio = post (make_rtask w t count p (max (current_priority w) prio) time_min) t

  -- schedule<T>( f, when, prio )
  unfoldable pub schedule : World A → (t count p when prio : ℕ) → World A
  unfolding post make_rtask
  schedule w t count p when prio =
      post (make_rtask w t count p (max (current_priority w) prio) when) t

  -- async( f, prio ) of a function with no result
  unfoldable pub async_vtask : World A → (t count prio : ℕ) → World A
  unfolding post make_task
  async_vtask w t count prio = post (make_task w t count prio time_min) t

  -- schedule( f, when, prio ) of a function with no result
  unfoldable pub schedule_vtask : World A → (t count when prio : ℕ) → World A
  unfolding post make_task
  schedule_vtask w t count when prio =
      post (make_task w t count (max (current_priority w) prio) when) t

  -- sync( f, timeout ) up to the wait
  unfoldable pub sync : World A → (t count p : ℕ) → World A
  unfolding post make_rtask
  sync w t count p = post (make_rtask w t count p (current_priority w) time_min) t

  -- sync( f, prio, timeout ) up to the wait
  unfoldable pub sync_prio : World A → (t count p prio : ℕ) → World A
  unfolding post make_rtask
  sync_prio w t count p prio =
      post (make_rtask w t count p (max (current_priority w) prio) time_min) t

  -- The free functions async<T>( f, n, prio ) and async<T>( f, prio, n ), on the current thread.
  unfoldable pub async_here : World A → (t count p prio : ℕ) → World A
  unfolding async
  async_here w t count p prio = async w t count p (max (current_priority w) prio)

  -- The free function async( f, prio ) of a function with no result
  unfoldable pub async_vtask_here : World A → (t count prio : ℕ) → World A
  unfolding async_vtask
  async_vtask_here w t count prio = async_vtask w t count prio

  -- The free function sync<T>( f, prio, timeout, n ) up to the wait
  unfoldable pub sync_here : World A → (t count p prio : ℕ) → World A
  unfolding sync_prio
  sync_here w t count p prio = sync_prio w t count p (max (current_priority w) prio)
