-- ===== src/StdHeap.antt =====
-- The heap algorithms of <algorithm> that src/thread.cpp calls, by what the C++ standard says of
-- them: std::push_heap, std::pop_heap and std::make_heap over a vector of pointers.
pub mod Sorted
use boost_cmt.Base.{ℕ, ◌≡◌, Bool, true, false, List, [], ◌∷◌, ◌++◌, Mem, Perm}

-- The comparison is a strict weak order, which the standard asks of every caller.
pub record IsWeakOrder (less : ℕ → ℕ → Bool) : Type 0 where
  pub irrefl : (a : ℕ) → less a a ≡ false
  pub trans : (a b c : ℕ) → less a b ≡ true → less b c ≡ true → less a c ≡ true
  pub negative_trans : (a b c : ℕ) → less a b ≡ false → less b c ≡ false → less a c ≡ false

pub record StdHeap : Type 1 where
  pub IsHeap : (ℕ → ℕ → Bool) → List ℕ → Type 0
  pub push_heap : (ℕ → ℕ → Bool) → List ℕ → List ℕ
  pub pop_heap : (ℕ → ℕ → Bool) → List ℕ → List ℕ
  pub make_heap : (ℕ → ℕ → Bool) → List ℕ → List ℕ
  pub heap_nil : (less : ℕ → ℕ → Bool) → IsHeap less []
  -- No entry of a heap is above its front.
  pub front_max :
      (less : ℕ → ℕ → Bool) (x : ℕ) (v : List ℕ)
      → IsWeakOrder less
      → IsHeap less (x ∷ v)
      → (y : ℕ) → Mem y v
      → less x y ≡ false
  pub push_heap-perm : (less : ℕ → ℕ → Bool) (v : List ℕ) → Perm (push_heap less v) v
  pub push_heap-IsHeap :
      (less : ℕ → ℕ → Bool) (v : List ℕ) (x : ℕ)
      → IsWeakOrder less
      → IsHeap less v
      → IsHeap less (push_heap less (v ++ x ∷ []))
  -- The front goes to the end, and the others are a heap before it.
  pub rest_heap : (ℕ → ℕ → Bool) → ℕ → List ℕ → List ℕ
  pub pop_heap-append :
      (less : ℕ → ℕ → Bool) (x : ℕ) (v : List ℕ)
      → pop_heap less (x ∷ v) ≡ rest_heap less x v ++ x ∷ []
  pub rest_heap-perm : (less : ℕ → ℕ → Bool) (x : ℕ) (v : List ℕ) → Perm (rest_heap less x v) v
  pub rest_heap-IsHeap :
      (less : ℕ → ℕ → Bool) (x : ℕ) (v : List ℕ)
      → IsWeakOrder less
      → IsHeap less (x ∷ v)
      → IsHeap less (rest_heap less x v)
  pub make_heap-perm : (less : ℕ → ℕ → Bool) (v : List ℕ) → Perm (make_heap less v) v
  pub make_heap-IsHeap :
      (less : ℕ → ℕ → Bool) (v : List ℕ) → IsWeakOrder less → IsHeap less (make_heap less v)
