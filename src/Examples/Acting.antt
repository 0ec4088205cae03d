-- ===== src/Examples/Acting.antt =====
-- Tests of actors, signals, the log, the start of threads, and the socket stream.
use boost_cmt.Base.{
  ℕ, zero, suc, ◌+◌, ◌*◌, ◌≡◌, ◌<◌, ◌≤◌, ◌↔◌, refl, List, [], ◌∷◌, ◌++◌, none, some, Bool, true,
  false, arith, get_elem?, length,
}
use boost_cmt.Error.{Result, ok, throws}
use boost_cmt.Actor.{Member, all_runs, call_member, call_const, make_actor, set_thread}
use boost_cmt.Actor.Calls.{make_actor-runs}
use boost_cmt.Actor.Signal.{Signals, Slot, call_signal, no_connected_slots}
use boost_cmt.Actor.Echo.{linked, own_first, object_calls, call_signal_lem}
use boost_cmt.Promise.{set_value, ready}
use boost_cmt.Promise.Signals.{wait_signal, emitted_all, signal_waited, wait_signal_last}
use boost_cmt.Streambuf.{resolve_and_connect}
use boost_cmt.Streambuf.Iostream.{open_resolved, Works, Reached, open_stream-resolved}
use boost_cmt.Thread.Remote.{
  Locals, current, Creation, created, child_value, child_name, parent_returns, Reach, here, next,
  values, names, returns, before, to_system_time, named,
}
use boost_cmt.Thread.Remote.Started.{create_returns}
use boost_cmt.Thread.Remote.Time.{to_system_time_rounds}
use boost_cmt.Examples.Sharing.{buffer}

abbrev doubles : ℕ → Result ℕ
doubles n = ok (2 * n)

abbrev fresh_member : Member ℕ
fresh_member = record { m_actor = none; m_delegate = doubles }

abbrev no_threads : ℕ → ℕ
no_threads a = 0

make_actor-runs_example :
    (d : Member ℕ) × (get_elem? (make_actor no_threads (fresh_member ∷ []) (doubles ∷ []) 4 1).1 0
      ≡ some d)
    × (all_runs d 3 (
          call_member
            (set_thread (make_actor no_threads (fresh_member ∷ []) (doubles ∷ []) 4 1).0 4 2)
            d
            3
            21)
        ≡ (false, 2, ok 42) ∷ [])
    × (all_runs d 3 (
          call_const
            (set_thread (make_actor no_threads (fresh_member ∷ []) (doubles ∷ []) 4 1).0 4 2)
            d
            3
            21)
        ≡ (false, 2, ok 42) ∷ [])
make_actor-runs_example =
    make_actor-runs no_threads (fresh_member ∷ []) (doubles ∷ []) 4 1 2 0 fresh_member doubles 3 21
      refl refl

-- Calls of a signal, one slot after the other.
abbrev open_only : List (Slot × Bool) → List Slot
open_only [] = []
open_only ((s, true) ∷ cs) = open_only cs
open_only ((s, false) ∷ cs) = s ∷ open_only cs

abbrev plain_signals : Signals
plain_signals = record {
  called = open_only;
  num_slots = λ cs. length cs;
  called-nil = refl;
  called-open = λ s cs. refl;
  called-blocked = λ s cs. refl;
  num_slots-length = λ cs. refl;
}

call_signal_lem_example :
    (0 < length {A = ℕ} (5 ∷ []) + length {A = ℕ} []
      → call_signal plain_signals (linked (1 ∷ 2 ∷ []) (5 ∷ []) []) 9 ≡ (
        own_first (1 ∷ 2 ∷ []) 9 ++ (object_calls (5 ∷ []) 9 ++ object_calls [] 9),
        ok true,
        linked (1 ∷ 2 ∷ []) (5 ∷ []) [],
      ))
    × (length {A = ℕ} (5 ∷ []) + length {A = ℕ} [] ≡ 0
        → call_signal plain_signals (linked (1 ∷ 2 ∷ []) (5 ∷ []) []) 9 ≡ (
          own_first (1 ∷ 2 ∷ []) 9 ++ [],
          throws no_connected_slots,
          linked (1 ∷ 2 ∷ []) (5 ∷ []) [],
        ))
call_signal_lem_example = call_signal_lem plain_signals (1 ∷ 2 ∷ []) (5 ∷ []) [] 9

wait_signal_last_example :
    ((signal_waited (emitted_all (wait_signal {A = ℕ} 0) (4 ∷ 5 ∷ []))).result ≡ some (ok 5))
    × (emitted_all (signal_waited (emitted_all (wait_signal {A = ℕ} 0) (4 ∷ 5 ∷ []))) (6 ∷ [])
        ≡ signal_waited (emitted_all (wait_signal {A = ℕ} 0) (4 ∷ 5 ∷ [])))
wait_signal_last_example = wait_signal_last 0 (4 ∷ []) (6 ∷ []) 5

open_stream-resolved_example :
    Works (open_resolved buffer (resolve_and_connect 1 0 ((0, 3) ∷ (0, 0) ∷ (7, 0) ∷ [])))
    ↔ ((zero ≡ 0) × Reached ((0, 3) ∷ (0, 0) ∷ (7, 0) ∷ []))
open_stream-resolved_example =
    open_stream-resolved buffer 1 0 ((0, 3) ∷ (0, 0) ∷ (7, 0) ∷ []) (λ e. ground arith)

-- Only the OS thread 0 has a thread object, 1.
abbrev one_thread : Locals
one_thread = record {
  local = λ os. elim os [ zero ↦ some 1 | suc n ↦ none ];
  name = λ t. t;
  fresh = 2;
}

-- The new OS thread 5 sets the value and the name 8, and then the caller returns.
abbrev started : Creation
started = parent_returns 5 (child_name 5 8 (child_value 5 (created one_thread)))

started_reached : Reach 5 8 one_thread started
unfolding child_value child_name current set_value ready
started_reached = next (next (next here (values refl)) (names refl)) (returns refl)

returned_second : started.returned ≡ some 2
unfolding child_value child_name parent_returns current set_value
returned_second = refl

create_returns_example :
    (started.locals.local 5 ≡ some 2) × (started.stage ≡ named → started.locals.name 2 ≡ 8)
create_returns_example = create_returns started_reached 2 returned_second

-- Two and a half seconds and 700 ns before 1970, on a clock of nanoseconds.
to_system_time_rounds_example :
    (seconds : ℕ) × (micros : ℕ) × (to_system_time 1000 31 (before 2_500_000_700)
      ≡ (before seconds, before micros))
    × (micros < 1_000_000)
    × (1000 * (seconds * 1_000_000 + micros) ≤ 2_500_000_700)
    × (2_500_000_700 < 1000 * (seconds * 1_000_000 + micros) + 1000)
to_system_time_rounds_example =
    to_system_time_rounds 1000 31 (before 2_500_000_700) (omega arith) (omega arith) (omega arith)
