-- ===== src/Thread/State.antt =====
-- The state of one thread: the fields of thread_private, and the fields of the objects that it
-- works on. A pointer is a number and null is `none`; the field of all objects of a class is a
-- function of the pointer. Times and priorities are signed in the source and only compared there:
-- here a time is its distance from time_point::min(), a priority its distance from INT_MIN.
use boost_cmt.Base.{ℕ, ◌-◌, ◌^◌, Bool, List, Option}
use boost_cmt.Promise.{Promise}

abbrev pub time_min : ℕ
time_min = 0

abbrev pub time_max : ℕ
time_max = 2 ^ 64 - 1

-- The value 0 of `priority()`.
abbrev pub default_priority : ℕ
default_priority = 2 ^ 31

-- The fields of every `cmt_context`.
pub record Contexts : Type 0 where
  pub next : ℕ → Option ℕ
  pub next_blocked : ℕ → Option ℕ
  pub prom : ℕ → Option ℕ
  pub resume_time : ℕ → ℕ
  pub canceled : ℕ → Bool
  pub ctx_prio : ℕ → ℕ

-- The fields of every `task`.
pub record Tasks : Type 0 where
  pub task_next : ℕ → Option ℕ
  pub when : ℕ → ℕ
  pub prio : ℕ → ℕ
  pub posted_num : ℕ → ℕ
  pub task_canceled : ℕ → Bool
  pub active_context : ℕ → Option ℕ

pub record World (A : Type 0) : Type 0 where
  pub contexts : Contexts
  pub open contexts use *
  pub tasks : Tasks
  pub open tasks use *
  -- The promises that contexts wait for, and the notifications posted to other threads.
  pub promises : ℕ → Promise A
  pub posted : List (ℕ × ℕ)
  -- The fields of `thread_private`; `self` is the thread's own address.
  pub self : ℕ
  pub current : Option ℕ
  pub ready_head : Option ℕ
  pub ready_tail : Option ℕ
  pub blocked : Option ℕ
  pub sleep_pqueue : List ℕ
  pub task_in_queue : Option ℕ
  pub task_pqueue : List ℕ
  pub task_sch_queue : List ℕ
  pub done : Bool
  -- The address that the next `new cmt_context` returns.
  pub fresh : ℕ
