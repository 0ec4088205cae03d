-- ===== src/Thread/Run.antt =====
-- The tasks of include/boost/cmt/task.hpp and their cancellation in src/thread.cpp: the `run` of
-- rtask, task::cancel, and the body of the loop of process_tasks that runs a task.
-- What a functor does is an argument: the result that it returns or the exception that it throws.
pub mod Outcome
use boost_cmt.Base.{ℕ, Bool, true, false, Option, none, some, if◌then◌else◌, max}
use boost_cmt.Base.Links.{put}
use boost_cmt.StdHeap.{StdHeap}
use boost_cmt.Promise.{set_task}
use boost_cmt.Error.{Exception, task_canceled, Result, ok, throws}
use boost_cmt.Thread.State.{World, Tasks, Contexts}
use boost_cmt.Thread.Notify.{throw_into, set_into}

-- An `rtask` with its promise, or a `vtask`.
pub data Kind : Type 0 where
  rtask : ℕ → Kind
  vtask : Kind

module _ {A : Type 0} where
  unfoldable pub set_active_context : World A → ℕ → Option ℕ → World A
  set_active_context w t c = record w {
    tasks = record w.tasks { active_context = put w.active_context t c };
  }

  -- task::cancel, under the task's lock.
  unfoldable pub task_cancel : World A → ℕ → World A
  task_cancel w t =
      let marked = record w.tasks { task_canceled = put w.task_canceled t true } in
      elim (w.active_context t) [
        | none ↦ record w { tasks = marked }
        | some c ↦ record w {
          contexts = record w.contexts { canceled = put w.canceled c true };
          tasks = record marked { active_context = put w.active_context t none };
        }
      ]

  -- The virtual call `cancel()`: vtask overrides it by a function that does nothing.
  unfoldable pub cancel : World A → Kind → ℕ → World A
  cancel w (rtask p) t = task_cancel w t
  cancel w vtask t = w

  -- ~rtask: the promise no longer knows of a task.
  unfoldable pub drop_rtask : World A → ℕ → World A
  drop_rtask w p = record w { promises = put w.promises p (set_task (w.promises p) none) }

  module _ (std : StdHeap) (scan : ℕ) where
    -- rtask::run with the promise `p`, where the functor, if it is called, ends with `result`.
    unfoldable pub run_rtask : World A → ℕ → ℕ → Result A → Option (World A)
    run_rtask w t p result =
        let called : Option (World A) = elim result [
          | ok v ↦ set_into std scan w p v
          | throws e ↦ throw_into std scan w p e
        ] in
        let refused = throw_into std scan w p task_canceled in
        if w.task_canceled t then refused else called

    -- vtask::run catches and logs what the functor throws; its effects are not the task's.
    unfoldable pub run : World A → Kind → ℕ → Result A → Option (World A)
    run w (rtask p) t result = run_rtask w t p result
    run w vtask t result = some w

    -- The statements of process_tasks around `run`, on the context `c`.
    unfoldable pub process_task : World A → Kind → ℕ → ℕ → Result A → Option (World A)
    unfolding set_active_context
    process_task w k t c result = elim (run (set_active_context w t (some c)) k t result) [
      | none ↦ none
      | some v ↦ some (set_active_context v t none)
    ]

-- rtask<void>::run, whose promise is of the type void_t.
unfoldable pub run_void :
    StdHeap → (scan : ℕ) → World (Unit {0}) → ℕ → ℕ → Result (Unit {0}) → Option (World (Unit {0}))
run_void std scan w t p result =
    let called : Option (World (Unit {0})) = elim result [
      | ok v ↦ set_into std scan w p tt
      | throws e ↦ throw_into std scan w p e
    ] in
    let refused = throw_into std scan w p task_canceled in
    if w.task_canceled t then refused else called
