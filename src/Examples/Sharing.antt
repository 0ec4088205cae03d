-- ===== src/Examples/Sharing.antt =====
-- Tests of the mutex, of the reference counts and of the stream buffer.
use boost_cmt.Base.{
  ℕ, ◌+◌, ◌≡◌, refl, sym, ap, List, [], ◌∷◌, ◌++◌, Option, some, false, true, arith, length, take,
}
use boost_cmt.Mutex.{
  locked, mutex, locks, times, attempt, Guarded, Reach, here, next, acquires, misses, lock_round,
  try_lock, timed_round,
}
use boost_cmt.Mutex.Exclusion.{Held, exclusion}
use boost_cmt.Retainable.{Store, Step, casts, cast_to, pointer_cast, assign_moved}
use boost_cmt.Retainable.Kept.{Step-IsCounted}
use boost_cmt.Retainable.Count.{IsCounted, holders, assign_moved_leaks}
use boost_cmt.Streambuf.{Streambuf, Reply, overflow}
use boost_cmt.Streambuf.Connection.{Service}
use boost_cmt.Streambuf.Overflow.{Accepted, overflow_accepts}

-- The context 1 holds the mutex, and another one finds it locked before its timeout.
abbrev held_by_one : Guarded
held_by_one = record { m_state = locked; holders = 1 ∷ [] }

held_reached : Reach mutex held_by_one
unfolding attempt lock_round try_lock timed_round
held_reached = next (next here (acquires 1 locks refl)) (misses (times 9 3) refl)

exclusion_example : Held held_by_one.m_state held_by_one.holders
exclusion_example = exclusion mutex held_by_one held_reached

-- Two pointers to the object 1 and one to the object 2.
abbrev sharing : Store
sharing = record {
  m_ref_count = λ o. holders o (some 1 ∷ some 1 ∷ some 2 ∷ []);
  deleted = λ o. false;
  cnt = some 1 ∷ some 1 ∷ some 2 ∷ [];
}

sharing-IsCounted : IsCounted sharing
sharing-IsCounted o = (refl, λ d. absurd (ground arith))

-- A cast of the first pointer makes one more to the same object.
abbrev cast_once : Store
cast_once = pointer_cast sharing (cast_to (λ o. true) (some 1))

casts_one : Step sharing cast_once
casts_one = casts 0 (some 1) (λ o. true) refl

Step-IsCounted_example : IsCounted cast_once
Step-IsCounted_example = Step-IsCounted casts_one sharing-IsCounted

assign_moved_leaks_example :
    (assign_moved sharing 0 2 (some 2)).m_ref_count 1
    ≡ holders 1 (assign_moved sharing 0 2 (some 2)).cnt + 1
assign_moved_leaks_example =
    assign_moved_leaks sharing 0 2 1 (some 2) sharing-IsCounted refl refl refl

take_all_of : (bytes : List ℕ) → take (length bytes) bytes ≡ bytes
take_all_of [] = refl
take_all_of (x ∷ bytes) = ap (λ l. x ∷ l) (take_all_of bytes)

-- A connection that sends everything at once, and receives nothing.
abbrev local : Service
local = record {
  Conn = List ℕ;
  wire = λ c. c;
  async_send = λ c bytes. record { ec = 0; bytes_transferred = length bytes; conn = c ++ bytes };
  async_receive = λ c n. record { ec = 2; bytes = []; conn = c };
  sends_some = λ c bytes e l. l;
  sends_at_most = λ c bytes. omega arith;
  sends_first = λ c bytes. ap (λ l. c ++ l) (sym (take_all_of bytes));
}

abbrev pub buffer : Streambuf
buffer = record { get_area = []; put_area = 1 ∷ 2 ∷ []; room = 0; stale = 0; unbuffered = false }

overflow_accepts_example :
    (reply : Reply (List ℕ) (Option ℕ)) × (overflow local buffer
        (9 ∷ [])
        (false ∷ true ∷ true ∷ [])
        (some 3)
      ≡ some reply)
    × Accepted local buffer (9 ∷ []) 3 reply
overflow_accepts_example =
    overflow_accepts local buffer (9 ∷ []) (false ∷ true ∷ true ∷ []) 3 refl (omega arith)
