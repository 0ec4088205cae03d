-- ===== src/Promise/Signals.antt =====
-- `wait` on a signal, include/boost/cmt/signals.hpp: a promise whose `set_value` is a slot of the
-- signal for as long as the call takes. The signal's parameter is a value of the type `A`.
use boost_cmt.Base.{
  ◌≡◌, refl, ap, ◌∙◌, ℕ, List, [], ◌∷◌, ◌++◌, Option, none, some, Bool, true, false, if◌then◌else◌,
  arith,
}
use boost_cmt.Error.{Result, ok}
use boost_cmt.Promise.{Promise, empty, set_value, wait_enter, wait_leave, Entered, finished, blocks}

-- The promise, whether it is connected to the signal, and how the call ended.
pub record Waiter (A : Type 0) : Type 0 where
  pub prom : Promise A
  pub connected : Bool
  pub result : Option (Result A)

module _ {A : Type 0} where
  -- Up to `p->wait( timeout_us )`, on the thread `self`.
  abbrev pub entered : Entered A → Waiter A
  entered (finished r) = record { prom = empty; connected = false; result = some r }
  entered (blocks p) = record { prom = p; connected = true; result = none }

  unfoldable pub wait_signal : ℕ → Waiter A
  unfolding wait_enter
  wait_signal self = entered (wait_enter empty self)

  -- The signal is emitted with the value `v`.
  unfoldable pub emitted : Waiter A → A → Waiter A
  unfolding set_value
  emitted w v = if w.connected then record w { prom = (set_value w.prom v).0 } else w

  -- `p->wait` returns, and the scoped connection is dropped.
  unfoldable pub signal_waited : Waiter A → Waiter A
  unfolding wait_leave
  signal_waited w =
      let (p, r) = wait_leave w.prom in record { prom = p; connected = false; result = some r }

  -- One emission after the other.
  abbrev pub emitted_all : Waiter A → List A → Waiter A
  emitted_all w [] = w
  emitted_all w (v ∷ vs) = emitted_all (emitted w v) vs

  holds_last :
      (w : Waiter A) (vs : List A) (v : A)
      → w.connected ≡ true
      → w.prom.error ≡ none
      → (emitted_all w (vs ++ (v ∷ []))).prom.value ≡ some v
        × ((emitted_all w (vs ++ (v ∷ []))).prom.error ≡ none)
  unfolding emitted set_value
  holds_last w [] v c e = ground arith
  holds_last w (x ∷ vs) v c e = holds_last (emitted w x) vs v (ground arith) (ground arith)

  emitted_deaf : (w : Waiter A) (us : List A) → w.connected ≡ false → emitted_all w us ≡ w
  unfolding emitted
  emitted_deaf w [] c = refl
  emitted_deaf w (u ∷ us) c =
      let same : emitted w u ≡ w = ground arith in
      ap (λ x. emitted_all x us) same ∙ emitted_deaf w us c

  leaves_value :
      (p : Promise A) (v : A) → p.value ≡ some v → p.error ≡ none → (wait_leave p).1 ≡ ok v
  unfolding wait_leave
  leaves_value p v e h = ground arith

  -- A wait on a signal returns the value of the last emission before the waiting context runs
  -- again, not of the first one; what is emitted after its return changes nothing.
  pub wait_signal_last :
      (self : ℕ) (vs us : List A) (v : A)
      → ((signal_waited (emitted_all (wait_signal self) (vs ++ (v ∷ [])))).result ≡ some (ok v))
        × (emitted_all (signal_waited (emitted_all (wait_signal self) (vs ++ (v ∷ [])))) us
            ≡ signal_waited (emitted_all (wait_signal self) (vs ++ (v ∷ []))))
  unfolding wait_signal signal_waited
  wait_signal_last self vs us v =
      let (value, error) = holds_last (wait_signal self) vs v refl refl in
      (
        ap some (leaves_value _ v value error),
        emitted_deaf (signal_waited (emitted_all (wait_signal self) (vs ++ (v ∷ [])))) us refl,
      )
