-- ===== src/Thread/Remote/Started.antt =====
-- What `create` returns.
use boost_cmt.Base.{ℕ, ◌≡◌, ◌≢◌, refl, none, some, arith, Option-cases, inl, inr}
use boost_cmt.Promise.{set_value, ready}
use boost_cmt.Thread.Remote.{
  Locals, current, set_name, begins, valued, named, Creation, created, child_value, child_name,
  parent_returns, values, names, returns, Reach, here, next,
}
use boost_cmt.Thread.Remote.Own.{current-some, current-none}

pub record Starting (child n : ℕ) (c : Creation) : Type 0 where
  pub no_error : c.prom.error ≡ none
  pub unset : c.stage ≡ begins → c.prom.value ≡ none
  pub value_own : (t : ℕ) → c.prom.value ≡ some t → c.locals.local child ≡ some t
  pub returned_value : (t : ℕ) → c.returned ≡ some t → c.prom.value ≡ some t
  pub named_own : c.stage ≡ named → (t : ℕ) → c.locals.local child ≡ some t → c.locals.name t ≡ n

current-local : (l : Locals) (os : ℕ) → (current l os).0.local os ≡ some (current l os).1
current-local l os = elim (Option-cases (l.local os)) [
  | inr (t, e) ↦ rw (current-some l os t e) e
  | inl e ↦ rw (current-none l os e) (ground arith)
]

current-keeps : (l : Locals) (os t : ℕ) → l.local os ≡ some t → (current l os).0.local os ≡ some t
current-keeps l os t e = rw (current-some l os t e) e

child_value-Starting :
    (child n : ℕ) (c : Creation)
    → c.stage ≡ begins
    → Starting child n c
    → Starting child n (child_value child c)
unfolding child_value set_value
child_value-Starting child n c b s =
    let k = s.no_error in
    let own = current-local c.locals child in
    record {
      no_error = ground (arith, k);
      unset = λ e. absurd (ground arith);
      value_own = λ t e. ground (arith, k, own);
      returned_value = λ t e. absurd (ground (arith, s.returned_value t e, s.unset b));
      named_own = λ e t h. absurd (ground arith);
    }

child_name-Starting :
    (child n : ℕ) (c : Creation)
    → c.stage ≡ valued
    → Starting child n c
    → Starting child n (child_name child n c)
unfolding child_name set_name
child_name-Starting child n c b s = record {
  no_error = s.no_error;
  unset = λ e. absurd (ground arith);
  value_own = λ t e. current-keeps c.locals child t (s.value_own t e);
  returned_value = s.returned_value;
  named_own = λ e t h. ground (arith, current-local c.locals child, h);
}

parent_returns-Starting :
    (child n : ℕ) (c : Creation) → Starting child n c → Starting child n (parent_returns child c)
unfolding parent_returns
parent_returns-Starting child n c s = record {
  no_error = s.no_error;
  unset = s.unset;
  value_own = s.value_own;
  returned_value = λ t e. e;
  named_own = s.named_own;
}

Reach-Starting : {child n : ℕ} {l : Locals} {c : Creation} → Reach child n l c → Starting child n c
Reach-Starting here = record {
  no_error = refl;
  unset = λ e. refl;
  value_own = λ t e. absurd (ground arith);
  returned_value = λ t e. absurd (ground arith);
  named_own = λ e t h. absurd (ground arith);
}
Reach-Starting {child} {n} (next {c} r (values b)) =
    child_value-Starting child n c b (Reach-Starting r)
Reach-Starting {child} {n} (next {c} r (names b)) =
    child_name-Starting child n c b (Reach-Starting r)
Reach-Starting {child} {n} (next {c} r (returns e)) =
    parent_returns-Starting child n c (Reach-Starting r)

-- However the two OS threads interleave, the thread that `create` returns is the object of the new
-- OS thread, and it has the name asked for once `start_thread` has set it.
pub create_returns :
    {child n : ℕ} {l : Locals} {c : Creation}
    → Reach child n l c
    → (t : ℕ) → c.returned ≡ some t
    → (c.locals.local child ≡ some t) × (c.stage ≡ named → c.locals.name t ≡ n)
create_returns r t e =
    let s = Reach-Starting r in
    let own = s.value_own t (s.returned_value t e) in (own, λ k. s.named_own k t own)

-- `create` may return a thread that does not have the name asked for yet, whatever that name is
-- other than the one that the constructor gives.
pub create_unnamed :
    (child n : ℕ) (l : Locals)
    → l.local child ≡ none
    → l.fresh ≢ n
    → (c : Creation) × Reach child n l c × (c.returned ≡ some l.fresh) × (c.locals.name l.fresh ≢ n)
unfolding child_value set_value ready parent_returns
create_unnamed child n l e k =
    let first : Reach child n l (child_value child (created l)) = next here (values refl) in
    (
      parent_returns child (child_value child (created l)),
      next first (returns refl),
      rw (current-none l child e) refl,
      rw (current-none l child e) (ground (arith, k)),
    )
