-- ===== src/Retainable/Count.antt =====
-- Every count is the number of pointers, and an object is deleted with the last one.
use boost_cmt.Base.{
  ℕ, zero, suc, ◌+◌, ◌-◌, ◌≡◌, ◌≤◌, ◌⊎◌, refl, sym, ap, ◌∙◌, List, [], ◌∷◌, ◌++◌, Option, none,
  some, true, false, if◌then◌else◌, ◌==◌, same_ptr, get_elem?, set, arith, inl, inr, Bool-cases,
}
use boost_cmt.Retainable.{
  Store, retain, release, retain_if, release_if, point, destroy, assign, assign_moved,
}

-- 1 if the pointer points to the object, and 0 if not.
abbrev pub hits : ℕ → Option ℕ → ℕ
hits o none = 0
hits o (some p) = if p == o then 1 else 0

abbrev pub holders : ℕ → List (Option ℕ) → ℕ
holders o [] = 0
holders o (p ∷ ps) = hits o p + holders o ps

-- The count of every object is the number of pointers to it, and a deleted object has none.
abbrev pub IsCounted : Store → Type 0
IsCounted s =
    (o : ℕ) → (s.m_ref_count o ≡ holders o s.cnt) × (s.deleted o ≡ true → holders o s.cnt ≡ 0)

pub holders-set :
    (o i : ℕ) (ps : List (Option ℕ)) (p q : Option ℕ)
    → get_elem? ps i ≡ some p
    → holders o (set ps i q) + hits o p ≡ holders o ps + hits o q
holders-set o i [] p q e = absurd (ground arith)
holders-set o zero (x ∷ ps) p q e = let same : x ≡ p = ground arith in rw same (omega arith)
holders-set o (suc i) (x ∷ ps) p q e = omega (arith, holders-set o i ps p q e)

pub holders-append :
    (o : ℕ) (ps : List (Option ℕ)) (q : Option ℕ)
    → holders o (ps ++ (q ∷ [])) ≡ holders o ps + hits o q
holders-append o [] q = omega arith
holders-append o (x ∷ ps) q = omega (arith, holders-append o ps q)

pub get_elem?-set :
    (i j : ℕ) (ps : List (Option ℕ)) (q : Option ℕ)
    → get_elem? ps j ≡ some q
    → get_elem? (set ps i q) j ≡ some q
get_elem?-set i j [] q e = absurd (ground arith)
get_elem?-set zero zero (x ∷ ps) q e = refl
get_elem?-set zero (suc j) (x ∷ ps) q e = e
get_elem?-set (suc i) zero (x ∷ ps) q e = e
get_elem?-set (suc i) (suc j) (x ∷ ps) q e = get_elem?-set i j ps q e

-- What a change adds to the count of one object.
pub retain-count :
    (s : Store) (q : Option ℕ) (o : ℕ) → (retain_if s q).m_ref_count o ≡ s.m_ref_count o + hits o q
unfolding retain_if retain
retain-count s none o = omega arith
retain-count s (some r) o = ground arith

release-count :
    (s : Store) (p : Option ℕ) (o : ℕ) → (release_if s p).m_ref_count o ≡ s.m_ref_count o - hits o p
unfolding release_if release
release-count s none o = omega arith
release-count s (some r) o = ground arith

pub retain-deleted : (s : Store) (q : Option ℕ) (o : ℕ) → (retain_if s q).deleted o ≡ s.deleted o
unfolding retain_if retain
retain-deleted s none o = refl
retain-deleted s (some r) o = refl

-- An object that a release deletes had one pointer, which the release is for.
release-deleted :
    (s : Store) (p : Option ℕ) (o : ℕ)
    → (release_if s p).deleted o ≡ true
    → (s.deleted o ≡ true) ⊎ ((s.m_ref_count o ≡ 1) × (hits o p ≡ 1))
unfolding release_if release
release-deleted s none o e = inl e
release-deleted s (some r) o e = ground arith

pub held-hits :
    (o i : ℕ) (ps : List (Option ℕ)) (p : Option ℕ)
    → get_elem? ps i ≡ some p
    → hits o p ≤ holders o ps
held-hits o i ps p e = omega (arith, holders-set o i ps p none e)

pub retain-cnt : (s : Store) (q : Option ℕ) → (retain_if s q).cnt ≡ s.cnt
unfolding retain_if retain
retain-cnt s none = refl
retain-cnt s (some r) = refl

release-cnt : (s : Store) (p : Option ℕ) → (release_if s p).cnt ≡ s.cnt
unfolding release_if release
release-cnt s none = refl
release-cnt s (some r) = refl

hits-other : (o : ℕ) (p q : Option ℕ) → same_ptr p q ≡ false → hits o p ≡ 1 → hits o q ≡ 0
hits-other o none q d a = absurd (ground arith)
hits-other o (some p) none d a = refl
hits-other o (some p) (some q) d a = ground arith

-- Where a pointer `p` is replaced by another `q`, which is a copy of a pointer of the program.
replaced :
    (s : Store) (i j : ℕ) (p q : Option ℕ)
    → IsCounted s
    → get_elem? s.cnt i ≡ some p
    → get_elem? s.cnt j ≡ some q
    → same_ptr p q ≡ false
    → IsCounted (retain_if (point (release_if s p) i q) q)
unfolding point
replaced s i j p q counted e f differ o =
    let moved = point (release_if s p) i q in
    let (count, none_deleted) = counted o in
    let now : holders o (retain_if moved q).cnt ≡ holders o (set s.cnt i q) =
      ap (holders o) (retain-cnt moved q ∙ ap (λ l. set l i q) (release-cnt s p)) in
    let change = holders-set o i s.cnt p q e in
    let less : moved.m_ref_count o ≡ s.m_ref_count o - hits o p = release-count s p o in
    let fits = held-hits o i s.cnt p e in
    (
      omega (arith, now, retain-count moved q o, less, count, change, fits),
      λ d. elim (release-deleted s p o (sym (retain-deleted moved q o) ∙ d)) [
        | inl old ↦ omega (arith, now, change, none_deleted old, held-hits o j s.cnt q f, fits)
        | inr (one, hit) ↦ omega (arith, now, change, count, one, hit, hits-other o p q differ hit)
      ],
    )

-- Copying a retainable_ptr to another one keeps every count that of the pointers, also where both
-- point to the same object, and deletes no object that has a pointer left.
pub assign-IsCounted :
    (s : Store) (i j : ℕ) (p q : Option ℕ)
    → IsCounted s
    → get_elem? s.cnt i ≡ some p
    → get_elem? s.cnt j ≡ some q
    → IsCounted (assign s i p q)
unfolding assign
assign-IsCounted s i j p q counted e f = elim (Bool-cases (same_ptr p q)) [
  | inl same ↦ rw (same, assign) counted
  | inr differ ↦ rw (differ, assign) (replaced s i j p q counted e f differ)
]

pub reset_point :
    (s : Store) (i : ℕ) (p : Option ℕ)
    → get_elem? s.cnt i ≡ some p
    → IsCounted s
    → IsCounted (point (release_if s p) i none)
unfolding point
reset_point s i p e counted o =
    let (count, none_deleted) = counted o in
    let after = point (release_if s p) i none in
    let now : holders o after.cnt ≡ holders o (set s.cnt i none) =
      ap (λ l. holders o (set l i none)) (release-cnt s p) in
    let change = holders-set o i s.cnt p none e in
    let less : after.m_ref_count o ≡ s.m_ref_count o - hits o p = release-count s p o in
    (
      omega (arith, now, less, count, change),
      λ d. elim (release-deleted s p o d) [
        | inl old ↦ omega (arith, now, change, none_deleted old)
        | inr (one, hit) ↦ omega (arith, now, change, count, one, hit)
      ],
    )

-- The destruction of a retainable_ptr keeps every count that of the pointers that are left, and
-- deletes no object that has one.
pub destroy-IsCounted :
    (s : Store) (i : ℕ) (p : Option ℕ)
    → IsCounted s
    → get_elem? s.cnt i ≡ some p
    → IsCounted (destroy s i p)
unfolding destroy
destroy-IsCounted s i p counted e = reset_point s i p e counted

-- The move assignment never releases the object that the target pointed to: when the pointers
-- differ and their objects do too, its count is then one more than the number of pointers to it,
-- so it is not deleted with the last one.
pub assign_moved_leaks :
    (s : Store) (i j o : ℕ) (q : Option ℕ)
    → IsCounted s
    → get_elem? s.cnt i ≡ some (some o)
    → get_elem? s.cnt j ≡ some q
    → same_ptr (some o) q ≡ false
    → (assign_moved s i j q).m_ref_count o ≡ holders o (assign_moved s i j q).cnt + 1
unfolding assign_moved point
assign_moved_leaks s i j o q counted e f differ =
    let (count, none_deleted) = counted o in
    let hit : hits o (some o) ≡ 1 = ground arith in
    let miss = hits-other o (some o) q differ hit in
    let still = get_elem?-set i j s.cnt q f in
    let first = holders-set o i s.cnt (some o) q e in
    omega (arith, count, hit, miss, first, holders-set o j (set s.cnt i q) q none still)
