-- ===== src/Base/Links.antt =====
-- Singly linked lists through a link field, and writes to a field of one object.
use boost_cmt.Base.Tests.{◌==◌, if◌then◌else◌}
use Prim.Native.Nat.{ℕ}
use mathlib.Core.Path.{◌≡◌, sym}
use mathlib.Core.Logic.{◌≢◌}
use mathlib.Core.Option.{Option, none, some}
use mathlib.Core.List.{List, [], ◌∷◌, ◌++◌}
use native.Mathlib.Omega.{arith}
use boost_cmt.Base.Lists.{back}

-- The field of every object, after a write to that of object `p`.
abbrev pub put {ℓ} : {A : Type ℓ} → (ℕ → A) → ℕ → A → ℕ → A
put f p v q = if p == q then v else f q

-- From the pointer `p`, the links `f` lead through exactly the objects `xs`.
abbrev pub Chain : (ℕ → Option ℕ) → Option ℕ → List ℕ → Type 0
Chain f p [] = p ≡ none
Chain f p (x ∷ xs) = (p ≡ some x) × Chain f (f x) xs

-- The object `c` is not on the list.
abbrev pub Absent : ℕ → List ℕ → Type 0
Absent c [] = Unit {0}
Absent c (x ∷ xs) = (x ≢ c) × Absent c xs

-- No object is on the list twice.
abbrev pub Distinct : List ℕ → Type 0
Distinct [] = Unit {0}
Distinct (x ∷ xs) = Absent x xs × Distinct xs

pub Chain-put :
    (f : ℕ → Option ℕ) (c : ℕ) (v p : Option ℕ) (xs : List ℕ)
    → Absent c xs
    → Chain f p xs
    → Chain (put f c v) p xs
Chain-put f c v p [] a h = h
Chain-put f c v p (x ∷ xs) a h = ground (arith, Chain-put f c v (f x) xs a.1 h.1)

pub Chain-cons :
    (f : ℕ → Option ℕ) (c : ℕ) (p : Option ℕ) (xs : List ℕ)
    → Absent c xs
    → Chain f p xs
    → Chain (put f c p) (some c) (c ∷ xs)
Chain-cons f c p xs a h = ground (arith, Chain-put f c p p xs a h)

pub Absent-back : (c t : ℕ) (xs : List ℕ) → Absent c xs → back xs ≡ some t → t ≢ c
Absent-back c t [] a e = λ _. ground arith
Absent-back c t (x ∷ []) a e = ground arith
Absent-back c t (x ∷ y ∷ xs) a e = Absent-back c t (y ∷ xs) a.1 e

-- Linking `c` behind the last object puts it at the end.
pub Chain-append :
    (f : ℕ → Option ℕ) (c t : ℕ) (p : Option ℕ) (xs : List ℕ)
    → Distinct xs
    → Absent c xs
    → back xs ≡ some t
    → Chain f p xs
    → Chain (put (put f c none) t (some c)) p (xs ++ c ∷ [])
Chain-append f c t p [] d a e h = ground arith
Chain-append f c t p (x ∷ []) d a e h = ground arith
Chain-append f c t p (x ∷ y ∷ xs) d a e h =
    ground (arith, Absent-back x t (y ∷ xs) d.0 e, Chain-append f c t (f x) (y ∷ xs) d.1 a.1 e h.1)

pub Absent-append : (c x : ℕ) (xs : List ℕ) → Absent c xs → x ≢ c → Absent c (xs ++ x ∷ [])
Absent-append c x [] a n = (n, tt)
Absent-append c x (y ∷ xs) a n = (a.0, Absent-append c x xs a.1 n)

pub Distinct-append : (c : ℕ) (xs : List ℕ) → Absent c xs → Distinct xs → Distinct (xs ++ c ∷ [])
Distinct-append c [] a d = (tt, tt)
Distinct-append c (x ∷ xs) a d =
    (Absent-append x c xs d.0 (λ e. a.0 (sym e)), Distinct-append c xs a.1 d.1)
