-- ===== src/StdHeap/Sorted.antt =====
-- One implementation that meets the standard's description: a heap kept as a falling sequence.
use mathlib.Core.List.{mem-cons, not-mem-nil}
use mathlib.Core.List.Perm
use mathlib.Core.Logic.Or
use boost_cmt.Base.{
  ℕ, ◌≡◌, refl, List, [], ◌∷◌, ◌++◌, Bool, true, false, Mem, Perm, Bool-cases, inl, inr,
  if◌then◌else◌,
}
use boost_cmt.StdHeap.{StdHeap, IsWeakOrder}

unfoldable pub insert : (ℕ → ℕ → Bool) → ℕ → List ℕ → List ℕ
insert less x [] = x ∷ []
insert less x (y ∷ v) = if less y x then x ∷ y ∷ v else y ∷ insert less x v

unfoldable pub sort : (ℕ → ℕ → Bool) → List ℕ → List ℕ
unfolding insert
sort less [] = []
sort less (x ∷ v) = insert less x (sort less v)

unfoldable pub rotate : List ℕ → List ℕ
rotate [] = []
rotate (x ∷ v) = v ++ x ∷ []

abbrev pub Falling : (ℕ → ℕ → Bool) → List ℕ → Type 0
Falling less [] = Unit {0}
Falling less (x ∷ v) = ((y : ℕ) → Mem y v → less x y ≡ false) × Falling less v

insert-perm : (less : ℕ → ℕ → Bool) (x : ℕ) (v : List ℕ) → Perm (insert less x v) (x ∷ v)
unfolding insert
insert-perm less x [] = Perm.rfl
insert-perm less x (y ∷ v) = elim (Bool-cases (less y x)) [
  | inl e ↦ rw (e, insert) Perm.rfl
  | inr e ↦ rw (e, insert) (Perm.trans (Perm.cons y (insert-perm less x v)) (Perm.swap x y v))
]

pub sort-perm : (less : ℕ → ℕ → Bool) (v : List ℕ) → Perm (sort less v) v
unfolding sort
sort-perm less [] = Perm.nil
sort-perm less (x ∷ v) =
    Perm.trans (insert-perm less x (sort less v)) (Perm.cons x (sort-perm less v))

false_prop : (b : Bool) → IsProp (b ≡ false)
false_prop b = hlevel

module _ (less : ℕ → ℕ → Bool) (order : IsWeakOrder less) where
  above_all :
      (x y : ℕ) (v : List ℕ)
      → less x y ≡ false
      → ((z : ℕ) → Mem z v → less y z ≡ false)
      → (z : ℕ) → Mem z (y ∷ v)
      → less x z ≡ false
  above_all x y v h k z m =
      Or.elim (false_prop _) (mem-cons.0 m) (λ e. rw e h)
        (λ i. order.negative_trans x y z h (k z i))

  asymmetric : (x y : ℕ) → less y x ≡ true → less x y ≡ false
  asymmetric x y h = elim (Bool-cases (less x y)) [
    | inl e ↦ absurd (cc (order.irrefl x, order.trans x y x e h))
    | inr e ↦ e
  ]

  insert-Falling : (x : ℕ) (v : List ℕ) → Falling less v → Falling less (insert less x v)
  unfolding insert
  insert-Falling x [] f = (λ y m. absurd (not-mem-nil m), tt)
  insert-Falling x (y ∷ v) f = elim (Bool-cases (less y x)) [
    | inl e ↦ rw (e, insert) (above_all x y v (asymmetric x y e) f.0, f)
    | inr e ↦
        rw (e, insert)
          (
            λ z m.
                Or.elim (false_prop _) (mem-cons.0 ((Perm.mem_iff (insert-perm less x v)).0 m))
                  (λ s. rw s e) (λ i. f.0 z i),
            insert-Falling x v f.1,
          )
  ]

  pub sort-Falling : (v : List ℕ) → Falling less (sort less v)
  unfolding sort
  sort-Falling [] = tt
  sort-Falling (x ∷ v) = insert-Falling x (sort less v) (sort-Falling v)

unfoldable pub sorted_heap : StdHeap
unfolding sort rotate
sorted_heap = record {
  IsHeap = Falling;
  push_heap = sort;
  pop_heap = λ less v. rotate v;
  make_heap = sort;
  heap_nil = λ less. tt;
  front_max = λ less x v order f. f.0;
  push_heap-perm = sort-perm;
  push_heap-IsHeap = λ less v x order f. sort-Falling less order (v ++ x ∷ []);
  rest_heap = λ less x v. v;
  pop_heap-append = λ less x v. refl;
  rest_heap-perm = λ less x v. Perm.rfl;
  rest_heap-IsHeap = λ less x v order f. f.1;
  make_heap-perm = sort-perm;
  make_heap-IsHeap = λ less v order. sort-Falling less order v;
}
