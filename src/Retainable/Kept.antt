-- ===== src/Retainable/Kept.antt =====
-- Every use of retainable_ptr but the move assignment keeps the counts.
use boost_cmt.Base.{
  ℕ, ◌+◌, ◌≡◌, ◌≤◌, sym, ap, ◌∙◌, [], ◌∷◌, ◌++◌, Option, none, some, Bool, get_elem?, set, arith,
}
use boost_cmt.Retainable.{
  Store, retain_if, point, construct, copy_construct, move_construct, cast_to, convert,
  pointer_cast, reset, release_if, Step, copies, moves, converts, casts, assigns, resets, destroys,
}
use boost_cmt.Retainable.Count.{
  hits, holders, IsCounted, holders-set, holders-append, retain-count, retain-deleted, retain-cnt,
  held-hits, reset_point, assign-IsCounted, destroy-IsCounted,
}

-- A cast points to what the pointer points to, or to nothing.
cast-hits : (fits : ℕ → Bool) (o : ℕ) (q : Option ℕ) → hits o (cast_to fits q) ≤ hits o q
cast-hits fits o none = omega arith
cast-hits fits o (some p) = ground arith

-- One pointer more to an object that has one already, and its count one higher.
added :
    (s t : Store) (u : Option ℕ)
    → IsCounted s
    → ((o : ℕ) → hits o u ≤ holders o s.cnt)
    → t.cnt ≡ s.cnt ++ (u ∷ [])
    → ((o : ℕ) → t.m_ref_count o ≡ s.m_ref_count o + hits o u)
    → ((o : ℕ) → t.deleted o ≡ s.deleted o)
    → IsCounted t
added s t u counted few c m d o =
    let (count, none_deleted) = counted o in
    let now : holders o t.cnt ≡ holders o s.cnt + hits o u =
      ap (holders o) c ∙ holders-append o s.cnt u in
    (omega (arith, now, count, m o), λ e. omega (arith, now, few o, none_deleted (sym (d o) ∙ e)))

copied-IsCounted :
    (s : Store) (u : Option ℕ)
    → IsCounted s
    → ((o : ℕ) → hits o u ≤ holders o s.cnt)
    → IsCounted (retain_if (record s { cnt = s.cnt ++ (u ∷ []) }) u)
copied-IsCounted s u counted few =
    let made = record s { cnt = s.cnt ++ (u ∷ []) } in
    added s (retain_if made u) u counted few (retain-cnt made u) (retain-count made u)
      (retain-deleted made u)

cast-IsCounted :
    (s : Store) (u : Option ℕ)
    → IsCounted s
    → ((o : ℕ) → hits o u ≤ holders o s.cnt)
    → IsCounted (pointer_cast s u)
unfolding pointer_cast construct
cast-IsCounted s u counted few =
    added s (record (retain_if s u) { cnt = (retain_if s u).cnt ++ (u ∷ []) }) u counted few
      (ap (λ l. l ++ (u ∷ [])) (retain-cnt s u)) (retain-count s u) (retain-deleted s u)

moved-IsCounted :
    (s : Store) (j : ℕ) (q : Option ℕ)
    → IsCounted s
    → get_elem? s.cnt j ≡ some q
    → IsCounted (move_construct s j q)
unfolding move_construct point
moved-IsCounted s j q counted e o =
    let (count, none_deleted) = counted o in
    let now = holders-append o (set s.cnt j none) q in
    let change = holders-set o j s.cnt q none e in
    (omega (arith, now, change, count), λ d. omega (arith, now, change, none_deleted d))

reset-IsCounted :
    (s : Store) (i : ℕ) (p : Option ℕ)
    → IsCounted s
    → get_elem? s.cnt i ≡ some p
    → IsCounted (reset s i p)
unfolding reset point release_if
reset-IsCounted s i none counted e = counted
reset-IsCounted s i (some o) counted e =
    unfold point release_if in reset_point s i (some o) e counted

-- Every copy, move construction, conversion, cast, copy assignment, reset and destruction of a
-- retainable_ptr keeps the count of every object the number of pointers to it, and deletes no
-- object that has a pointer left.
pub Step-IsCounted : {s t : Store} → Step s t → IsCounted s → IsCounted t
unfolding copy_construct convert
Step-IsCounted {s} (copies j q e) c = copied-IsCounted s q c (λ o. held-hits o j s.cnt q e)
Step-IsCounted {s} (moves j q e) c = moved-IsCounted s j q c e
Step-IsCounted {s} (converts j q fits e) c =
    copied-IsCounted s (cast_to fits q) c
      (λ o. omega (arith, cast-hits fits o q, held-hits o j s.cnt q e))
Step-IsCounted {s} (casts j q fits e) c =
    cast-IsCounted s (cast_to fits q) c
      (λ o. omega (arith, cast-hits fits o q, held-hits o j s.cnt q e))
Step-IsCounted {s} (assigns i j p q e f) c = assign-IsCounted s i j p q c e f
Step-IsCounted {s} (resets i p e) c = reset-IsCounted s i p c e
Step-IsCounted {s} (destroys i p e) c = destroy-IsCounted s i p c e
