-- ===== src/Promise/Laws.antt =====
-- How the outcome of a promise is decided by what its producers do and taken by its waiters.
use boost_cmt.Base.{
  ℕ, ◌≡◌, refl, true, false, List, [], ◌∷◌, Option, none, some, arith, Option-cases, inl, inr,
}
use boost_cmt.Error.{Exception, future_value_not_ready, Result, ok, throws}
use boost_cmt.Promise.{
  Promise, ready, set_value, set_exception, set_timeout, wait_enter, wait_leave, finished, blocks,
  enqueue_thread,
}

-- What a producer of the result may do to the promise.
pub data Action {ℓ} (A : Type ℓ) : Type ℓ where
  fulfil : A → Action A
  fail : Exception → Action A
  expire : Action A

module _ {ℓ} {A : Type ℓ} where
  unfoldable pub act : Promise A → Action A → Promise A
  act p (fulfil v) = (set_value p v).0
  act p (fail e) = (set_exception p e).0
  act p expire = (set_timeout p).0

  unfoldable pub run : Promise A → List (Action A) → Promise A
  run p [] = p
  run p (a ∷ rest) = run (act p a) rest

  -- What a waiter that was blocked is given.
  abbrev pub outcome : Promise A → Option (Result A)
  outcome p = elim p.error [
    | some e ↦ some (throws e)
    | none ↦ elim p.value [ some v ↦ some (ok v) | none ↦ none ]
  ]

  -- The contract of a promise as a machine of three states: pending, a value, or an exception.
  -- An exception replaces whatever was there, and a value never replaces an exception.
  abbrev pub settle : Option (Result A) → Action A → Option (Result A)
  settle (some (throws e)) (fulfil v) = some (throws e)
  settle (some (ok w)) (fulfil v) = some (ok v)
  settle none (fulfil v) = some (ok v)
  settle o (fail e) = some (throws e)
  settle o expire = o

  abbrev pub settles : Option (Result A) → List (Action A) → Option (Result A)
  settles o [] = o
  settles o (a ∷ rest) = settles (settle o a) rest

  abbrev pub NoExpiry : List (Action A) → Type 0
  NoExpiry [] = Unit {0}
  NoExpiry (fulfil v ∷ rest) = NoExpiry rest
  NoExpiry (fail e ∷ rest) = NoExpiry rest
  NoExpiry (expire ∷ rest) = ⊥

  act-ready : (p : Promise A) (a : Action A) → ready (act p a) ≡ true
  unfolding act ready set_value set_exception set_timeout
  act-ready p (fulfil v) = ground arith
  act-ready p (fail e) = ground arith
  act-ready p expire = ground arith

  -- After any sequence of producer calls that is not empty the promise is ready, so the assertion
  -- in `promise_base::notify` holds, and no producer call makes a ready promise unready.
  pub run-ready :
      (p : Promise A) (a : Action A) (rest : List (Action A)) → ready (run p (a ∷ rest)) ≡ true
  unfolding run
  run-ready p a [] = act-ready p a
  run-ready p a (b ∷ rest) = run-ready (act p a) b rest

  act-settle-fulfil :
      (p : Promise A) (v : A) → outcome (act p (fulfil v)) ≡ settle (outcome p) (fulfil v)
  unfolding act set_value
  act-settle-fulfil p v = ground arith

  act-settle-fail :
      (p : Promise A) (e : Exception) → outcome (act p (fail e)) ≡ settle (outcome p) (fail e)
  unfolding act set_exception
  act-settle-fail p e = ground arith

  -- The promise refines the machine of three states: after any calls of `set_value` and
  -- `set_exception`, in any order, its outcome is the one that the machine reaches.
  pub run-settles :
      (p : Promise A) (rest : List (Action A))
      → NoExpiry rest
      → outcome (run p rest) ≡ settles (outcome p) rest
  unfolding run
  run-settles p [] h = refl
  run-settles p (fulfil v ∷ rest) h =
      rw (run-settles (act p (fulfil v)) rest h, act-settle-fulfil p v)
  run-settles p (fail e ∷ rest) h = rw (run-settles (act p (fail e)) rest h, act-settle-fail p e)
  run-settles p (expire ∷ rest) h = absurd h

  -- An exception reaches one blocked waiter: leaving `wait` throws it and clears it, and the next
  -- waiter that leaves is given the value if there is one, and is told "not ready" if not.
  pub wait_leave_twice :
      (p : Promise A) (e : Exception)
      → p.error ≡ some e
      → ((wait_leave p).1 ≡ throws e)
        × ((wait_leave (wait_leave p).0).1
            ≡ elim p.value [ some v ↦ ok v | none ↦ throws future_value_not_ready ])
  unfolding wait_leave
  wait_leave_twice p e h = ground arith

  -- A call of `wait` ends at once exactly when the promise is ready, with its outcome and without
  -- taking it; else it registers the calling thread and changes nothing more.
  pub wait_enter_cases :
      (p : Promise A) (self : ℕ)
      → (ready p ≡ true → (r : Result A) × (wait_enter p self ≡ finished r) × (outcome p ≡ some r))
        × (ready p ≡ false → wait_enter p self ≡ blocks (record p { blocked_thread = some self }))
  unfolding ready wait_enter enqueue_thread
  wait_enter_cases p self = elim (Option-cases p.error) [
    | inl e ↦ elim (Option-cases p.value) [
      | inl v ↦ ground arith
      | inr (v, h) ↦ (λ _. (ok v, ground arith, ground arith), ground arith)
    ]
    | inr (e, h) ↦ (λ _. (throws e, ground arith, ground arith), ground arith)
  ]
