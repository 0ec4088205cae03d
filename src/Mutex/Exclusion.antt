-- ===== src/Mutex/Exclusion.antt =====
-- At most one context holds a mutex or a spin_lock.
use boost_cmt.Base.{
  ℕ, ◌≡◌, ◌≤◌, ◌⊎◌, refl, ap, ◌∙◌, inl, inr, sym, List, [], ◌∷◌, ◌++◌, true, false, length, arith,
  length-append,
}
use boost_cmt.Mutex.{
  LockState, locked, unlocked, try_lock, lock_round, unlock, try_spin, spin_round, spin_unlock,
  timed_round, timed_spin_round, LockKind, mutex, spin_lock, Attempt, locks, tries, times, attempt,
  let_go, Guarded, acquires, misses, releases, Reach, here, next,
}

-- One context holds the mutex if it is locked, and none does if not.
abbrev pub Held : LockState → List ℕ → Type 0
Held locked holders = length holders ≡ 1
Held unlocked holders = holders ≡ []

none_left : (l : List ℕ) → length l ≡ 0 → l ≡ []
none_left [] e = refl
none_left (x ∷ l) e = absurd (omega arith)

-- Every attempt on a locked one misses and leaves it locked.
locked_misses : (k : LockKind) (a : Attempt) → attempt k a locked ≡ (locked, false)
unfolding attempt try_lock lock_round timed_round try_spin spin_round timed_spin_round
locked_misses mutex locks = refl
locked_misses mutex tries = refl
locked_misses mutex (times n m) = ground arith
locked_misses spin_lock locks = refl
locked_misses spin_lock tries = refl
locked_misses spin_lock (times n m) = ground arith

-- An attempt on an unlocked one locks it, or misses because its time is over.
unlocked_attempt :
    (k : LockKind) (a : Attempt)
    → (attempt k a unlocked ≡ (locked, true)) ⊎ (attempt k a unlocked ≡ (unlocked, false))
unfolding attempt try_lock lock_round timed_round try_spin spin_round timed_spin_round
unlocked_attempt mutex locks = inl refl
unlocked_attempt mutex tries = inl refl
unlocked_attempt mutex (times n m) = ground arith
unlocked_attempt spin_lock locks = inl refl
unlocked_attempt spin_lock tries = inl refl
unlocked_attempt spin_lock (times n m) = ground arith

acquires-Held :
    (k : LockKind) (a : Attempt) (m : LockState) (t : ℕ) (l : List ℕ)
    → (attempt k a m).1 ≡ true
    → Held m l
    → Held (attempt k a m).0 (t ∷ l)
acquires-Held k a locked t l e h =
    absurd (ground (arith, sym (ap (λ r. r.1) (locked_misses k a)) ∙ e))
acquires-Held k a unlocked t l e h = elim (unlocked_attempt k a) [
  | inl got ↦ rw (got, h) refl
  | inr late ↦ absurd (ground (arith, sym (ap (λ r. r.1) late) ∙ e))
]

misses-Held :
    (k : LockKind) (a : Attempt) (m : LockState) (l : List ℕ)
    → (attempt k a m).1 ≡ false
    → Held m l
    → Held (attempt k a m).0 l
misses-Held k a locked l e h = rw (locked_misses k a) h
misses-Held k a unlocked l e h = elim (unlocked_attempt k a) [
  | inl got ↦ absurd (ground (arith, sym (ap (λ r. r.1) got) ∙ e))
  | inr late ↦ rw late h
]

at_most_one : (m : LockState) (l : List ℕ) → Held m l → length l ≤ 1
at_most_one locked l h = omega (arith, h)
at_most_one unlocked l h = rw h (omega arith)

let_go_unlocks : (k : LockKind) (m : LockState) → let_go k m ≡ unlocked
unfolding let_go unlock spin_unlock
let_go_unlocks mutex m = refl
let_go_unlocks spin_lock m = refl

releases-Held :
    (k : LockKind) (s : Guarded) (t : ℕ) (front back : List ℕ)
    → s.holders ≡ front ++ (t ∷ back)
    → Held s.m_state s.holders
    → Held (let_go k s.m_state) (front ++ back)
releases-Held k s t front back e h =
    let few = at_most_one s.m_state s.holders h in
    let size = ap length e ∙ length-append front (t ∷ back) in
    rw (let_go_unlocks k s.m_state)
      (none_left (front ++ back) (omega (arith, length-append front back, size, few)))

-- However contexts lock, try and unlock a mutex or a spin_lock, with a timeout and without, in every
-- interleaving of their rounds: exactly one context holds it while it is locked, and none while it
-- is not.
pub exclusion : (k : LockKind) (s : Guarded) → Reach k s → Held s.m_state s.holders
exclusion k s here = refl
exclusion k s (next {s = p} r (acquires t a e)) =
    acquires-Held k a p.m_state t p.holders e (exclusion k p r)
exclusion k s (next {s = p} r (misses a e)) =
    misses-Held k a p.m_state p.holders e (exclusion k p r)
exclusion k s (next {s = p} r (releases t front back e)) =
    releases-Held k p t front back e (exclusion k p r)
