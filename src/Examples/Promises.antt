-- ===== src/Examples/Promises.antt =====
-- Tests of promises.
use boost_cmt.Base.{ℕ, ◌≡◌, List, [], ◌∷◌}
use boost_cmt.Error.{other}
use boost_cmt.Promise.{Promise, empty}
use boost_cmt.Promise.Machine.{
  Call, fulfil, fail, expire, enter, leave, leave_until, calls, moves, phase, promise_refines,
}

abbrev fresh : Promise ℕ
fresh = empty

-- A context waits, a value and an exception come, and three waiters leave.
abbrev history : List (Call ℕ)
history = enter 0 ∷ fulfil 5 ∷ fail (other 3) ∷ expire ∷ leave ∷ leave_until ∷ leave ∷ []

promise_refines_example :
    ((calls fresh history).0 ≡ (moves (phase fresh) history).0)
    × (phase (calls fresh history).1 ≡ (moves (phase fresh) history).1)
promise_refines_example = promise_refines fresh history
