-- ===== src/Promise/Machine.antt =====
-- The contract of a promise as a machine, which its producers and its waiters drive.
use boost_cmt.Base.{ℕ, ◌≡◌, refl, List, [], ◌∷◌, Option, none, some, arith}
use boost_cmt.Error.{Exception, future_value_not_ready, future_wait_timeout, Result, ok, throws}
use boost_cmt.Promise.{
  Promise, set_value, set_exception, set_timeout, Entered, wait_enter, wait_leave, wait_until_enter,
  wait_until_leave, finished, blocks, enqueue_thread,
}

-- What producers and waiters do: the three calls that end a promise, the first part of a wait, on
-- the given thread, and the rest of it. The waits up to a time are apart.
pub data Call {ℓ} (A : Type ℓ) : Type ℓ where
  fulfil : A → Call A
  fail : Exception → Call A
  expire : Call A
  enter : ℕ → Call A
  enter_until : ℕ → Call A
  leave : Call A
  leave_until : Call A

-- The machine: a promise is pending, it has a value, an exception came without a value before, or
-- an exception came after a value.
pub data Phase {ℓ} (A : Type ℓ) : Type ℓ where
  pending : Phase A
  fulfilled : A → Phase A
  broken : Exception → Phase A
  overruled : Exception → A → Phase A

module _ {ℓ} {A : Type ℓ} where
  abbrev entered : Promise A → Entered A → Option (Result A) × Promise A
  entered p (finished r) = (some r, p)
  entered p (blocks q) = (none, q)

  abbrev left : Promise A × Result A → Option (Result A) × Promise A
  left r = (some r.1, r.0)

  -- What the caller is given, if it is a waiter and does not block, and the promise.
  unfoldable pub call : Promise A → Call A → Option (Result A) × Promise A
  call p (fulfil v) = (none, (set_value p v).0)
  call p (fail e) = (none, (set_exception p e).0)
  call p expire = (none, (set_timeout p).0)
  call p (enter self) = entered p (wait_enter p self)
  call p (enter_until self) = entered p (wait_until_enter p self)
  call p leave = left (wait_leave p)
  call p leave_until = left (wait_until_leave p)

  unfoldable pub calls : Promise A → List (Call A) → List (Option (Result A)) × Promise A
  calls p [] = ([], p)
  calls p (c ∷ cs) = let told = call p c in let rest = calls told.1 cs in (told.0 ∷ rest.0, rest.1)

  abbrev pub taken : Phase A → Phase A
  taken pending = pending
  taken (fulfilled w) = fulfilled w
  taken (broken d) = pending
  taken (overruled d w) = fulfilled w

  -- A value replaces a value and never an exception. An exception replaces everything, but a value
  -- stays behind it. A timeout counts only where no value came. A waiter that leaves takes the
  -- exception with it.
  abbrev pub move : Phase A → Call A → Phase A
  move pending (fulfil v) = fulfilled v
  move (fulfilled w) (fulfil v) = fulfilled v
  move (broken d) (fulfil v) = broken d
  move (overruled d w) (fulfil v) = overruled d w
  move pending (fail e) = broken e
  move (fulfilled w) (fail e) = overruled e w
  move (broken d) (fail e) = broken e
  move (overruled d w) (fail e) = overruled e w
  move pending expire = broken future_wait_timeout
  move (fulfilled w) expire = fulfilled w
  move (broken d) expire = broken future_wait_timeout
  move (overruled d w) expire = overruled d w
  move f (enter self) = f
  move f (enter_until self) = f
  move f leave = taken f
  move f leave_until = taken f

  abbrev pub answer : Phase A → Option (Result A)
  answer pending = none
  answer (fulfilled w) = some (ok w)
  answer (broken d) = some (throws d)
  answer (overruled d w) = some (throws d)

  abbrev pub given : Option (Result A) → Result A
  given none = throws future_value_not_ready
  given (some r) = r

  -- What a call gives to its caller: a waiter that is woken before there is an outcome learns so.
  abbrev pub reply : Phase A → Call A → Option (Result A)
  reply f (fulfil v) = none
  reply f (fail e) = none
  reply f expire = none
  reply f (enter self) = answer f
  reply f (enter_until self) = answer f
  reply f leave = some (given (answer f))
  reply f leave_until = some (given (answer f))

  abbrev pub moves : Phase A → List (Call A) → List (Option (Result A)) × Phase A
  moves f [] = ([], f)
  moves f (c ∷ cs) = let rest = moves (move f c) cs in (reply f c ∷ rest.0, rest.1)

  abbrev phase_of : Option Exception → Option A → Phase A
  phase_of none none = pending
  phase_of none (some v) = fulfilled v
  phase_of (some e) none = broken e
  phase_of (some e) (some v) = overruled e v

  -- What the machine sees of a promise.
  abbrev pub phase : Promise A → Phase A
  phase p = phase_of p.error p.value

  abbrev Follows : Promise A → Call A → Type ℓ
  Follows p c = ((call p c).0 ≡ reply (phase p) c) × (phase (call p c).1 ≡ move (phase p) c)

  call-Follows : (p : Promise A) (c : Call A) → Follows p c
  unfolding call set_value set_exception set_timeout wait_enter wait_until_enter wait_leave
      wait_until_leave enqueue_thread
  call-Follows p (fulfil w) = ground arith
  call-Follows p (fail d) = ground arith
  call-Follows p expire = ground arith
  call-Follows p (enter self) = ground arith
  call-Follows p (enter_until self) = ground arith
  call-Follows p leave = ground arith
  call-Follows p leave_until = ground arith

  -- The promise refines the machine of four states: for all calls of `set_value`, `set_exception`
  -- and `set_timeout`, of `wait` and `wait_until` and of their returns after blocking, in every
  -- order, the waiters are given what the machine replies, and the promise is at its state.
  pub promise_refines :
      (p : Promise A) (cs : List (Call A))
      → ((calls p cs).0 ≡ (moves (phase p) cs).0) × (phase (calls p cs).1 ≡ (moves (phase p) cs).1)
  unfolding calls
  promise_refines p [] = (refl, refl)
  promise_refines p (c ∷ cs) =
      let first = call-Follows p c in
      let rest = promise_refines (call p c).1 cs in
      rw (first.0, rest.0, rest.1, first.1) (refl, refl)
