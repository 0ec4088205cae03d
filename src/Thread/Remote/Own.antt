-- ===== src/Thread/Remote/Own.antt =====
-- Every OS thread has its own thread object.
use boost_cmt.Base.{ℕ, suc, ◌≡◌, ◌<◌, refl, none, some, arith, inl, inr, Option-cases}
use boost_cmt.Base.Links.{put}
use boost_cmt.Thread.Remote.{Locals, current}

-- No two OS threads share an object, and the next address is new.
pub record IsOwned (l : Locals) : Type 0 where
  pub own : (a b t : ℕ) → l.local a ≡ some t → l.local b ≡ some t → a ≡ b
  pub older : (a t : ℕ) → l.local a ≡ some t → t < l.fresh

abbrev pub with_new : Locals → ℕ → Locals
with_new l os = record {
  local = put l.local os (some l.fresh);
  name = put l.name l.fresh l.fresh;
  fresh = suc l.fresh;
}

pub current-some : (l : Locals) (os t : ℕ) → l.local os ≡ some t → current l os ≡ (l, t)
unfolding current
current-some l os t e = rw (e, current) refl

pub current-none :
    (l : Locals) (os : ℕ) → l.local os ≡ none → current l os ≡ (with_new l os, l.fresh)
unfolding current
current-none l os e = rw (e, current) refl

with_new-IsOwned : (l : Locals) (os : ℕ) → IsOwned l → IsOwned (with_new l os)
with_new-IsOwned l os o = record {
  own = λ a b t h k. ground (arith, o.own a b t, o.older a t, o.older b t);
  older = λ a t h. ground (arith, o.older a t);
}

-- `current` keeps the objects apart; a second call on the same OS thread returns the same object
-- and changes nothing, and the object of another OS thread stays what it was.
pub current-IsOwned :
    (l : Locals) (os : ℕ)
    → IsOwned l
    → IsOwned (current l os).0
      × (current (current l os).0 os ≡ current l os)
      × ((b t : ℕ) → l.local b ≡ some t → (current l os).0.local b ≡ some t)
current-IsOwned l os o = elim (Option-cases (l.local os)) [
  | inr (t, e) ↦ rw (current-some l os t e) (o, current-some l os t e, λ b t h. h)
  | inl e ↦ rw (current-none l os e) (
    with_new-IsOwned l os o,
    current-some (with_new l os) os l.fresh (ground arith),
    λ b t h. ground (arith, h, e),
  )
]
