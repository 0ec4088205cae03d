-- ===== src/Actor.antt =====
-- The members of an actor, include/boost/cmt/actor_interface.hpp and actor.hpp: a call goes to the
-- thread of the actor. A delegate is a function from the arguments, which are one number, to what
-- the call ends with; a thread and an actor_base are numbers. Boost.Reflect visits the members of
-- an interface one after the other.
pub mod Signal
pub mod Calls
pub mod Echo
use boost_cmt.Base.{
  ℕ, List, [], ◌∷◌, ◌++◌, Bool, true, false, Option, none, some, if◌then◌else◌, ◌==◌,
}
use boost_cmt.Base.Links.{put}
use boost_cmt.Error.{Result}

-- `m_actor`, none where it is null, and `m_delegate`.
pub record Member (A : Type 0) : Type 0 where
  pub m_actor : Option ℕ
  pub m_delegate : ℕ → Result A

-- What a call does: the delegate's result where it runs at once, on the calling thread, and the
-- thread and the arguments of the task that is posted.
pub record Called (A : Type 0) : Type 0 where
  pub at_once : Option (Result A)
  pub posted : Option (ℕ × ℕ)

-- `m_thread` of every actor_base.
abbrev pub Threads : Type 0
Threads = ℕ → ℕ

unfoldable pub set_thread : Threads → ℕ → ℕ → Threads
set_thread m_thread a t = put m_thread a t

unfoldable pub get_thread : Threads → ℕ → ℕ
get_thread m_thread a = m_thread a

module _ {A : Type 0} where
  -- actor_member_base::set_actor
  unfoldable pub set_actor : Member A → Option ℕ → Member A
  set_actor m ab = record m { m_actor = ab }

  -- set_delegate of a method, with the actor.
  unfoldable pub set_delegate : Member A → (ℕ → Result A) → Option ℕ → Member A
  set_delegate m f ab = record m { m_actor = ab; m_delegate = f }

  -- operator=: the actor stays.
  unfoldable pub assign_delegate : Member A → (ℕ → Result A) → Member A
  assign_delegate m f = record m { m_delegate = f }

  -- set_visitor of an object: one member after the other, with the method that is its own.
  unfoldable pub set_members : List (Member A) → List (ℕ → Result A) → Option ℕ → List (Member A)
  unfolding set_delegate
  set_members [] fs ab = []
  set_members (m ∷ ms) [] ab = m ∷ ms
  set_members (m ∷ ms) (f ∷ fs) ab = set_delegate m f ab ∷ set_members ms fs ab

  -- set_visitor of another vtable, whose members are called.
  unfoldable pub forward_members :
      List (Member A) → List (ℕ → Result A) → Option ℕ → List (Member A)
  unfolding set_actor assign_delegate
  forward_members [] fs ab = []
  forward_members (m ∷ ms) [] ab = m ∷ ms
  forward_members (m ∷ ms) (f ∷ fs) ab =
      assign_delegate (set_actor m ab) f ∷ forward_members ms fs ab

  -- The constructor of an actor for an object with these methods, on the thread `t`; the new
  -- actor_base is `ab`.
  unfoldable pub make_actor :
      Threads → List (Member A) → List (ℕ → Result A) → (ab t : ℕ) → Threads × List (Member A)
  unfolding set_members
  make_actor m_thread ms fs ab t = (put m_thread ab t, set_members ms fs (some ab))

  module _ (m_thread : Threads) where
    -- operator() of a method that is const, on the thread `self`.
    unfoldable pub call_const : Member A → ℕ → ℕ → Called A
    call_const m self args = elim m.m_actor [
      | none ↦ record { at_once = some (m.m_delegate args); posted = none }
      | some ab ↦
          if self == m_thread ab
          then record { at_once = some (m.m_delegate args); posted = none }
          else record { at_once = none; posted = some (m_thread ab, args) }
    ]

    -- operator() of one that is not.
    unfoldable pub call_member : Member A → ℕ → ℕ → Called A
    call_member m self args = elim m.m_actor [
      | none ↦ record { at_once = some (m.m_delegate args); posted = none }
      | some ab ↦
          if self == m_thread ab
          then record { at_once = some (m.m_delegate args); posted = none }
          else record { at_once = none; posted = some (m_thread ab, args) }
    ]

  -- A run of a delegate is whether it is in the call itself, its thread, and what it ends with.
  abbrev pub run_at_once : ℕ → Option (Result A) → List (Bool × ℕ × Result A)
  run_at_once self none = []
  run_at_once self (some r) = (true, self, r) ∷ []

  -- The posted task runs the delegate that was bound, on the thread that it was posted to.
  abbrev pub run_task : Member A → Option (ℕ × ℕ) → List (Bool × ℕ × Result A)
  run_task m none = []
  run_task m (some (t, args)) = (false, t, m.m_delegate args) ∷ []

  -- All runs that a call on the thread `self` leads to.
  unfoldable pub all_runs : Member A → ℕ → Called A → List (Bool × ℕ × Result A)
  all_runs m self c = run_at_once self c.at_once ++ run_task m c.posted
