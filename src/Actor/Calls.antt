-- ===== src/Actor/Calls.antt =====
-- Where the methods of an actor run.
use boost_cmt.Base.{
  ℕ, ◌==◌, Bool-cases, inl, inr, refl, zero, suc, ◌≡◌, List, [], ◌∷◌, some, arith, get_elem?,
}
use boost_cmt.Base.Links.{put}
use boost_cmt.Error.{Result}
use boost_cmt.Actor.{
  Member, Threads, call_member, call_const, all_runs, set_delegate, set_members, make_actor,
  set_thread,
}

module _ {A : Type 0} where
  -- The i-th member has the i-th method, and the actor.
  set_members-at :
      (ms : List (Member A)) (fs : List (ℕ → Result A)) (ab i : ℕ) (m : Member A) (f : ℕ → Result A)
      → get_elem? ms i ≡ some m
      → get_elem? fs i ≡ some f
      → get_elem? (set_members ms fs (some ab)) i ≡ some (set_delegate m f (some ab))
  unfolding set_members set_delegate
  set_members-at [] fs ab i m f e h = absurd (ground arith)
  set_members-at (x ∷ ms) [] ab i m f e h = absurd (ground arith)
  set_members-at (x ∷ ms) (g ∷ fs) ab zero m f e h = ground arith
  set_members-at (x ∷ ms) (g ∷ fs) ab (suc i) m f e h = set_members-at ms fs ab i m f e h

  runs_there :
      (m_thread : Threads) (m : Member A) (f : ℕ → Result A) (ab self args : ℕ)
      → let d = set_delegate m f (some ab) in
        (all_runs d self (call_member m_thread d self args)
          ≡ (self == m_thread ab, m_thread ab, f args) ∷ [])
        × (all_runs d self (call_const m_thread d self args)
            ≡ (self == m_thread ab, m_thread ab, f args) ∷ [])
  unfolding all_runs call_member call_const set_delegate
  runs_there m_thread m f ab self args = elim (Bool-cases (self == m_thread ab)) [
    | inl here ↦
        let same : self ≡ m_thread ab = ground arith in
        (rw (here, all_runs, same) refl, rw (here, all_runs, same) refl)
    | inr there ↦ (rw (there, all_runs) refl, rw (there, all_runs) refl)
  ]

  -- A new actor for an object, which is then moved to the thread `t`: whichever thread calls its
  -- i-th method, const or not, the i-th method of the object is run exactly once, with the
  -- arguments of the call, on the thread `t`: in the call itself if that is the caller, else by the
  -- task posted to it.
  pub make_actor-runs :
      (m_thread : Threads) (ms : List (Member A)) (fs : List (ℕ → Result A)) (ab t0 t i : ℕ)
      (m : Member A) (f : ℕ → Result A) (self args : ℕ)
      → get_elem? ms i ≡ some m
      → get_elem? fs i ≡ some f
      → let made = make_actor m_thread ms fs ab t0 in
        let threads = set_thread made.0 ab t in
        (d : Member A) × (get_elem? made.1 i ≡ some d)
        × (all_runs d self (call_member threads d self args) ≡ (self == t, t, f args) ∷ [])
        × (all_runs d self (call_const threads d self args) ≡ (self == t, t, f args) ∷ [])
  unfolding make_actor set_thread
  make_actor-runs m_thread ms fs ab t0 t i m f self args e h =
      let threads = put (put m_thread ab t0) ab t in
      let there = runs_there threads m f ab self args in
      let moved : threads ab ≡ t = ground arith in
      (
        set_delegate m f (some ab),
        set_members-at ms fs ab i m f e h,
        rw moved at there.0,
        rw moved at there.1,
      )
