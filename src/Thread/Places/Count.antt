-- ===== src/Thread/Places/Count.antt =====
-- How often a context is on a list.
use mathlib.Core.List.{Permᴰ}
use mathlib.Core.Logic.{∥∥₁_elim}
use native.Mathlib.Nat.{ℕ_set}
use boost_cmt.Base.{
  ℕ, ◌+◌, ◌<◌, ◌≡◌, Option, none, refl, ◌∙◌, List, [], ◌∷◌, ◌++◌, Bool, true, false, Perm, arith,
}
use boost_cmt.Base.Links.{Absent}
use boost_cmt.Thread.Notify.{sleep_index}
use boost_cmt.Thread.Places.{occurs}

pub occurs-Absent : (o : ℕ) (xs : List ℕ) → occurs o xs ≡ 0 → Absent o xs
occurs-Absent o [] e = tt
occurs-Absent o (x ∷ xs) e = ground (arith, occurs-Absent o xs)

pub occurs-append : (o : ℕ) (xs ys : List ℕ) → occurs o (xs ++ ys) ≡ occurs o xs + occurs o ys
occurs-append o [] ys = omega arith
occurs-append o (x ∷ xs) ys = omega (arith, occurs-append o xs ys)

pub occurs-itself : (o : ℕ) → occurs o (o ∷ []) ≡ 1
occurs-itself o = ground arith

-- The ready queue once the context `c` gave way, put back into it or not.
abbrev pub requeued : Bool → ℕ → List ℕ → List ℕ
requeued true c rs = rs ++ c ∷ []
requeued false c rs = rs

-- How often a context is ready, blocked or asleep once `c` gave way.
abbrev pub left : ℕ → Bool → ℕ → List ℕ → List ℕ → List ℕ → ℕ
left o r c rs bs ss = occurs o (requeued r c rs) + occurs o bs + occurs o ss

pub occurs-requeued :
    (o : ℕ) (r : Bool) (c : ℕ) (rs : List ℕ)
    → occurs o (requeued r c rs) ≡ occurs o rs + occurs o (requeued r c [])
occurs-requeued o true c rs = occurs-append o rs (c ∷ [])
occurs-requeued o false c rs = omega arith

occurs-permᴰ : (o : ℕ) {xs ys : List ℕ} → Permᴰ xs ys → occurs o xs ≡ occurs o ys
occurs-permᴰ o (Permᴰ.trans p q) = occurs-permᴰ o p ∙ occurs-permᴰ o q
occurs-permᴰ o (Permᴰ.swap e h) = ground arith
occurs-permᴰ o (Permᴰ.cons e p) = ground (arith, occurs-permᴰ o p)
occurs-permᴰ o Permᴰ.nil = refl

pub occurs-perm : (o : ℕ) {xs ys : List ℕ} → Perm xs ys → occurs o xs ≡ occurs o ys
occurs-perm o p = ∥∥₁_elim p (ℕ_set _ _) (occurs-permᴰ o)

-- A sleep queue where no context waits for a promise.
pub sleep_index-none :
    (prom : ℕ → Option ℕ) (p : ℕ) (ss : List ℕ)
    → ((o : ℕ) → 0 < occurs o ss → prom o ≡ none)
    → sleep_index prom p ss ≡ none
unfolding sleep_index
sleep_index-none prom p [] h = refl
sleep_index-none prom p (x ∷ ss) h = ground (
  arith,
  h x (omega (arith, occurs-itself x)),
  sleep_index-none prom p ss (λ o k. h o (omega arith)),
)
