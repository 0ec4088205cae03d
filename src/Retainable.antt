-- ===== src/Retainable.antt =====
-- The reference counts of include/boost/cmt/retainable.hpp: class retainable and retainable_ptr,
-- for the pointers of a program to objects by number. Counts stay below 2^31.
pub mod Count
pub mod Kept
use boost_cmt.Base.{
  ℕ, ◌+◌, ◌-◌, ◌≡◌, List, [], ◌∷◌, ◌++◌, Option, none, some, Bool, true, false, if◌then◌else◌, ◌==◌,
  same_ptr, get_elem?, set,
}
use boost_cmt.Base.Links.{put}

-- The counts of all objects, which of them were deleted, and `cnt` of every retainable_ptr.
pub record Store : Type 0 where
  pub m_ref_count : ℕ → ℕ
  pub deleted : ℕ → Bool
  pub cnt : List (Option ℕ)

unfoldable pub retain : Store → ℕ → Store
retain s o = record s { m_ref_count = put s.m_ref_count o (s.m_ref_count o + 1) }

unfoldable pub release : Store → ℕ → Store
release s o = record s {
  m_ref_count = put s.m_ref_count o (s.m_ref_count o - 1);
  deleted = if s.m_ref_count o == 1 then put s.deleted o true else s.deleted;
}

-- if( cnt ) cnt->retain()
unfoldable pub retain_if : Store → Option ℕ → Store
retain_if s none = s
retain_if s (some o) = retain s o

unfoldable pub release_if : Store → Option ℕ → Store
release_if s none = s
release_if s (some o) = release s o

-- cnt = p, in the i-th retainable_ptr
unfoldable pub point : Store → ℕ → Option ℕ → Store
point s i p = record s { cnt = set s.cnt i p }

-- retainable_ptr( t, inc )
unfoldable pub construct : Store → Option ℕ → Bool → Store
construct s t inc =
    let made = record s { cnt = s.cnt ++ (t ∷ []) } in if inc then retain_if made t else made

-- retainable_ptr( const retainable_ptr& ), at the pointer that is copied
unfoldable pub copy_construct : Store → Option ℕ → Store
copy_construct s t = retain_if (record s { cnt = s.cnt ++ (t ∷ []) }) t

-- ~retainable_ptr: the pointer is gone.
unfoldable pub destroy : Store → ℕ → Option ℕ → Store
destroy s i p = point (release_if s p) i none

unfoldable pub reset : Store → ℕ → Option ℕ → Store
reset s i none = s
reset s i (some o) = point (release s o) i none

-- operator=( const retainable_ptr& ), from `p` to `q`
unfoldable pub assign : Store → ℕ → Option ℕ → Option ℕ → Store
assign s i p q = if same_ptr p q then s else retain_if (point (release_if s p) i q) q

-- operator=( retainable_ptr&& ), from the j-th pointer, which is `q`
unfoldable pub assign_moved : Store → ℕ → ℕ → Option ℕ → Store
assign_moved s i j q = point (point s i q) j none

-- retainable_ptr( retainable_ptr&& ), from the j-th pointer, which is `q`
unfoldable pub move_construct : Store → ℕ → Option ℕ → Store
unfolding point
move_construct s j q = record (point s j none) { cnt = set s.cnt j none ++ (q ∷ []) }

-- What a cast makes of a pointer: null stays null, and a dynamic_cast may give null.
abbrev pub cast_to : (ℕ → Bool) → Option ℕ → Option ℕ
cast_to fits none = none
cast_to fits (some o) = if fits o then some o else none

-- The conversion operator to a pointer to another type, at the object that the dynamic_cast gives.
unfoldable pub convert : Store → Option ℕ → Store
unfolding retain_if
convert s u = retain_if (record s { cnt = s.cnt ++ (u ∷ []) }) u

-- dynamic_retainable_cast and static_retainable_cast: `retain`, and a pointer made without.
unfoldable pub pointer_cast : Store → Option ℕ → Store
unfolding retain_if construct
pointer_cast s t = construct (retain_if s t) t false

-- operator! and the conversion to bool
unfoldable pub is_null : Option ℕ → Bool
is_null none = true
is_null (some o) = false

-- operator== and operator!=
unfoldable pub same_object : Option ℕ → Option ℕ → Bool
same_object p q = same_ptr p q

-- What a program does with its pointers, `new` and the move assignment apart.
pub data Step (s : Store) : Store → Type 0 where
  copies : (j : ℕ) (q : Option ℕ) → get_elem? s.cnt j ≡ some q → Step s (copy_construct s q)
  moves : (j : ℕ) (q : Option ℕ) → get_elem? s.cnt j ≡ some q → Step s (move_construct s j q)
  converts :
      (j : ℕ) (q : Option ℕ) (fits : ℕ → Bool)
      → get_elem? s.cnt j ≡ some q
      → Step s (convert s (cast_to fits q))
  casts :
      (j : ℕ) (q : Option ℕ) (fits : ℕ → Bool)
      → get_elem? s.cnt j ≡ some q
      → Step s (pointer_cast s (cast_to fits q))
  assigns :
      (i j : ℕ) (p q : Option ℕ)
      → get_elem? s.cnt i ≡ some p
      → get_elem? s.cnt j ≡ some q
      → Step s (assign s i p q)
  resets : (i : ℕ) (p : Option ℕ) → get_elem? s.cnt i ≡ some p → Step s (reset s i p)
  destroys : (i : ℕ) (p : Option ℕ) → get_elem? s.cnt i ≡ some p → Step s (destroy s i p)
