-- ===== src/Error.antt =====
-- The exceptions of include/boost/cmt/error.hpp, and the result of a call that may throw.
use boost_cmt.Base.{ℕ, ◌≡◌, refl, ◌⊎◌, inl, inr}

pub data Exception : Type 0 where
  null_future : Exception
  future_value_not_ready : Exception
  future_wait_timeout : Exception
  broken_promise : Exception
  task_canceled : Exception
  thread_quit : Exception
  -- Any other exception that a functor or an asio handler hands over, by its number.
  other : ℕ → Exception

-- How a call ends: by a return or by a throw.
pub data Result {ℓ} (A : Type ℓ) : Type ℓ where
  ok : A → Result A
  throws : Exception → Result A

pub Result-cases {ℓ} :
    {A : Type ℓ} (r : Result A) → ((e : Exception) × (r ≡ throws e)) ⊎ ((a : A) × (r ≡ ok a))
Result-cases (throws e) = inl (e, refl)
Result-cases (ok a) = inr (a, refl)
