-- ===== src/Promise.antt =====
-- promise<T> and promise_base of include/boost/cmt/future.hpp and src/future.cpp: the value, the
-- error and the thread to notify. A call that blocks is two operations, before and after.
pub mod Laws
pub mod Machine
pub mod Signals
use boost_cmt.Base.{ℕ, Bool, true, false, ◌||◌, Option, none, some, if◌then◌else◌}
use boost_cmt.Error.{
  Exception, future_value_not_ready, future_wait_timeout, null_future, Result, ok, throws,
}

abbrev pub is_some {ℓ} : {A : Type ℓ} → Option A → Bool
is_some none = false
is_some (some a) = true

-- `m_error` and `m_value` of promise<T>, `m_task` and `m_blocked_thread` of promise_base.
pub record Promise {ℓ} (A : Type ℓ) : Type ℓ where
  pub error : Option Exception
  pub value : Option A
  pub task : Option ℕ
  pub blocked_thread : Option ℕ

-- What `wait` does up to the point where the context blocks.
pub data Entered {ℓ} (A : Type ℓ) : Type ℓ where
  finished : Result A → Entered A
  blocks : Promise A → Entered A

module _ {ℓ} {A : Type ℓ} where
  -- `promise()` and `promise( v )`.
  abbrev pub empty : Promise A
  empty = record { error = none; value = none; task = none; blocked_thread = none }

  abbrev pub filled : A → Promise A
  filled v = record { error = none; value = some v; task = none; blocked_thread = none }

  unfoldable pub ready : Promise A → Bool
  ready p = is_some p.error || is_some p.value

  -- `promise<T>::error()`.
  unfoldable pub has_error : Promise A → Bool
  has_error p = is_some p.error

  unfoldable pub set_task : Promise A → Option ℕ → Promise A
  set_task p t = record p { task = t }

  unfoldable pub enqueue_thread : Promise A → ℕ → Promise A
  enqueue_thread p self = record p { blocked_thread = some self }

  -- The new promise, and whether `notify()` is called.
  unfoldable pub set_exception : Promise A → Exception → Promise A × Bool
  set_exception p e = (record p { error = some e }, true)

  unfoldable pub set_value : Promise A → A → Promise A × Bool
  set_value p v = elim p.error [ some e ↦ (p, false) | none ↦ (record p { value = some v }, true) ]

  unfoldable pub set_timeout : Promise A → Promise A × Bool
  set_timeout p = elim p.value [
    | some v ↦ (p, false)
    | none ↦ (record p { error = some future_wait_timeout }, true)
  ]

  -- `wait` and `wait_until` up to `promise_base::wait`, called on the thread `self`.
  unfoldable pub wait_enter : Promise A → ℕ → Entered A
  unfolding enqueue_thread
  wait_enter p self = elim p.error [
    | some e ↦ finished (throws e)
    | none ↦ elim p.value [ some v ↦ finished (ok v) | none ↦ blocks (enqueue_thread p self) ]
  ]

  -- The rest of `wait`, once `promise_base::wait` returns.
  unfoldable pub wait_leave : Promise A → Promise A × Result A
  wait_leave p = elim p.error [
    | some e ↦ (record p { error = none }, throws e)
    | none ↦ elim p.value [ some v ↦ (p, ok v) | none ↦ (p, throws future_value_not_ready) ]
  ]

  -- `wait_until` up to `promise_base::wait_until`, called on the thread `self`.
  unfoldable pub wait_until_enter : Promise A → ℕ → Entered A
  unfolding enqueue_thread
  wait_until_enter p self = elim p.error [
    | some e ↦ finished (throws e)
    | none ↦ elim p.value [ some v ↦ finished (ok v) | none ↦ blocks (enqueue_thread p self) ]
  ]

  -- The rest of `wait_until`, once `promise_base::wait_until` returns.
  unfoldable pub wait_until_leave : Promise A → Promise A × Result A
  wait_until_leave p = elim p.error [
    | some e ↦ (record p { error = none }, throws e)
    | none ↦ elim p.value [ some v ↦ (p, ok v) | none ↦ (p, throws future_value_not_ready) ]
  ]

  -- `future( v )`
  abbrev pub future_of : A → Option (Promise A)
  future_of v = some (filled v)

  -- A future holds a promise or none; these are its members that do not block.
  unfoldable pub valid : Option (Promise A) → Bool
  valid f = is_some f

  unfoldable pub future_error : Option (Promise A) → Bool
  unfolding has_error
  future_error none = false
  future_error (some p) = has_error p

  -- `future::wait`: a null future throws, any other enters the promise's `wait`.
  unfoldable pub future_wait : Option (Promise A) → ℕ → Entered A
  future_wait none self = finished (throws null_future)
  future_wait (some p) self = wait_enter p self

  -- The conversion to the value waits without a timeout.
  unfoldable pub future_value : Option (Promise A) → ℕ → Entered A
  future_value none self = finished (throws null_future)
  future_value (some p) self = wait_enter p self

  unfoldable pub future_wait_until : Option (Promise A) → ℕ → Entered A
  future_wait_until none self = finished (throws null_future)
  future_wait_until (some p) self = wait_until_enter p self

  -- `future::cancel`: the task whose `cancel` is called.
  unfoldable pub future_cancel : Option (Promise A) → Option ℕ
  unfolding ready
  future_cancel none = none
  future_cancel (some p) = if ready p then none else p.task
