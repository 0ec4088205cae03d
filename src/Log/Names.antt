-- ===== src/Log/Names.antt =====
-- The file name that a message shows.
use boost_cmt.Base.{
  ℕ, suc, ◌≡◌, refl, ap, ◌⊎◌, inl, inr, List, [], ◌∷◌, ◌++◌, none, some, ◌==◌, drop, arith,
  Option-cases, Bool-cases,
}
use boost_cmt.Base.Links.{Absent}
use boost_cmt.Log.{rfind, short_name}

-- The last place of the character, with what stands before it and behind it.
rfind-split :
    (c : ℕ) (s : List ℕ)
    → (rfind c s ≡ none → Absent c s)
      × ((i : ℕ)
          → rfind c s ≡ some i
          → (before : List ℕ) × (s ≡ before ++ (c ∷ drop (suc i) s)) × Absent c (drop (suc i) s))
unfolding rfind
rfind-split c [] = (λ e. tt, λ i e. absurd (ground arith))
rfind-split c (x ∷ s) =
    let (absent, found) = rfind-split c s in
    elim (Option-cases (rfind c s)) [
      | inl e ↦ elim (Bool-cases (x == c)) [
        | inl same ↦
            rw (e, rfind, same)
              (
                λ h. absurd (ground arith),
                λ i h.
                    let z : i ≡ 0 = ground arith in
                    let k : x ≡ c = ground arith in rw z ([], ap (λ y. y ∷ s) k, absent e),
              )
        | inr other ↦
            rw (e, rfind, other) (λ h. (ground arith, absent e), λ i h. absurd (ground arith))
      ]
      | inr (j, e) ↦
          rw (e, rfind)
            (
              λ h. absurd (ground arith),
              λ i h.
                  let (before, split, rest) = found j e in
                  let k : i ≡ suc j = ground arith in
                  rw k (x ∷ before, ap (λ l. x ∷ l) split, rest),
            )
    ]

-- `short_name` holds no slash, and is what stands behind the last slash of the path, or the path.
pub short_name_last :
    (s : List ℕ)
    → Absent b'/' (short_name s)
      × (((before : List ℕ) × (s ≡ before ++ (b'/' ∷ short_name s))) ⊎ (short_name s ≡ s))
unfolding short_name
short_name_last s =
    let (absent, found) = rfind-split b'/' s in
    elim (Option-cases (rfind b'/' s)) [
      | inl e ↦ rw (e, short_name) (absent e, inr refl)
      | inr (i, e) ↦
          let (before, split, rest) = found i e in rw (e, short_name) (rest, inl (before, split))
    ]
