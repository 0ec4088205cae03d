-- ===== src/Mutex.antt =====
-- boost::cmt::mutex of include/boost/cmt/mutex.hpp: an atomic state that contexts of any thread
-- exchange. spin_lock of include/boost/cmt/spin_lock.hpp is the same without the calls of `yield`.
pub mod Exclusion
use boost_cmt.Base.{
  ℕ, ◌≡◌, List, [], ◌∷◌, ◌++◌, Option, none, some, Bool, true, false, if◌then◌else◌, ltb,
}

pub data LockState : Type 0 where
  locked : LockState
  unlocked : LockState

-- m_state.exchange( locked ), with whether the state was another one before.
unfoldable pub try_lock : LockState → LockState × Bool
try_lock locked = (locked, false)
try_lock unlocked = (locked, true)

-- One round of `lock` is one exchange: it is over when that succeeds, and else the context yields.
unfoldable pub lock_round : LockState → LockState × Bool
lock_round s = try_lock s

unfoldable pub unlock : LockState → LockState
unlock s = unlocked

-- One round of `timed_lock( abs_time )` at a reading of the clock: the state, and what the call
-- returns if it does.
unfoldable pub timed_round : ℕ → ℕ → LockState → LockState × Option Bool
unfolding try_lock
timed_round abs_time system_time s =
    let tried = try_lock s in
    if ltb system_time abs_time
    then (tried.0, if tried.1 then some true else none)
    else (s, some false)

-- What the rounds of a call find: the time, and the state when the mutex is tried.
pub record Round : Type 0 where
  pub system_time : ℕ
  pub m_state : LockState

-- timed_lock( abs_time ): none while it still runs after these rounds.
unfoldable pub timed_lock : ℕ → List Round → Option Bool
unfolding timed_round
timed_lock abs_time [] = none
timed_lock abs_time (r ∷ rounds) =
    let rest = timed_lock abs_time rounds in
    elim (timed_round abs_time r.system_time r.m_state).1 [ some b ↦ some b | none ↦ rest ]

-- spin_lock::try_lock, one round of spin_lock::lock, and spin_lock::unlock
unfoldable pub try_spin : LockState → LockState × Bool
try_spin locked = (locked, false)
try_spin unlocked = (locked, true)

unfoldable pub spin_round : LockState → LockState × Bool
unfolding try_spin
spin_round s = try_spin s

unfoldable pub spin_unlock : LockState → LockState
spin_unlock s = unlocked

-- spin_lock::timed_lock, and one round of it
unfoldable pub timed_spin_round : ℕ → ℕ → LockState → LockState × Option Bool
unfolding try_spin
timed_spin_round abs_time system_time s =
    let tried = try_spin s in
    if ltb system_time abs_time
    then (tried.0, if tried.1 then some true else none)
    else (s, some false)

unfoldable pub timed_spin : ℕ → List Round → Option Bool
unfolding timed_spin_round
timed_spin abs_time [] = none
timed_spin abs_time (r ∷ rounds) =
    let rest = timed_spin abs_time rounds in
    elim (timed_spin_round abs_time r.system_time r.m_state).1 [ some b ↦ some b | none ↦ rest ]

-- The two classes, and the ways to acquire an object of one: a round of `lock`, `try_lock`, or a
-- round of `timed_lock` with its time and the clock's.
pub data LockKind : Type 0 where
  mutex : LockKind
  spin_lock : LockKind

pub data Attempt : Type 0 where
  locks : Attempt
  tries : Attempt
  times : ℕ → ℕ → Attempt

-- Whether the call returned true.
abbrev pub returned_true : Option Bool → Bool
returned_true none = false
returned_true (some b) = b

-- The state after the attempt, and whether the caller holds the lock now.
unfoldable pub attempt : LockKind → Attempt → LockState → LockState × Bool
attempt mutex locks s = lock_round s
attempt mutex tries s = try_lock s
attempt mutex (times abs_time now) s =
    let r = timed_round abs_time now s in (r.0, returned_true r.1)
attempt spin_lock locks s = spin_round s
attempt spin_lock tries s = try_spin s
attempt spin_lock (times abs_time now) s =
    let r = timed_spin_round abs_time now s in (r.0, returned_true r.1)

unfoldable pub let_go : LockKind → LockState → LockState
let_go mutex s = unlock s
let_go spin_lock s = spin_unlock s

-- The lock with the contexts that hold it.
pub record Guarded : Type 0 where
  pub m_state : LockState
  pub holders : List ℕ

abbrev pub no_holders : Guarded
no_holders = record { m_state = unlocked; holders = [] }

-- Any context may do any of these at any time; only one that holds the lock unlocks it.
pub data Step (k : LockKind) (s : Guarded) : Guarded → Type 0 where
  acquires :
      (t : ℕ) (a : Attempt)
      → (attempt k a s.m_state).1 ≡ true
      → Step k s (record { m_state = (attempt k a s.m_state).0; holders = t ∷ s.holders })
  misses :
      (a : Attempt)
      → (attempt k a s.m_state).1 ≡ false
      → Step k s (record { m_state = (attempt k a s.m_state).0; holders = s.holders })
  releases :
      (t : ℕ) (front back : List ℕ)
      → s.holders ≡ front ++ (t ∷ back)
      → Step k s (record { m_state = let_go k s.m_state; holders = front ++ back })

pub data Reach (k : LockKind) : Guarded → Type 0 where
  here : Reach k no_holders
  next : {s u : Guarded} → Reach k s → Step k s u → Reach k u
