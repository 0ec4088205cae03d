-- ===== src/Actor/Signal.antt =====
-- The member of an actor for a signal of the object behind it, in
-- include/boost/cmt/actor_interface.hpp. Boost.Signals is an interface with what it documents: a call
-- of a signal calls its slots in the order of their connection, but those that are blocked, and
-- `num_slots` counts these too. A slot does not call back into the member.
use boost_cmt.Base.{
  ℕ, ◌≡◌, List, [], ◌∷◌, ◌++◌, Bool, true, false, if◌then◌else◌, ltb, length, not, ◌&&◌, map,
}
use boost_cmt.Error.{Exception, other, Result, ok, throws}

-- A slot of a signal: a function by number, or `emit` of the member, behind `m_reverse_con`.
pub data Slot : Type 0 where
  slot : ℕ → Slot
  reverse : Slot

-- The connections of a signal in their order, each with whether it is blocked.
abbrev pub Connections : Type 0
Connections = List (Slot × Bool)

pub record Signals : Type 0 where
  pub called : Connections → List Slot
  pub num_slots : Connections → ℕ
  pub called-nil : called [] ≡ []
  pub called-open : (s : Slot) (cs : Connections) → called ((s, false) ∷ cs) ≡ s ∷ called cs
  pub called-blocked : (s : Slot) (cs : Connections) → called ((s, true) ∷ cs) ≡ called cs
  pub num_slots-length : (cs : Connections) → num_slots cs ≡ length cs

-- A call of a slot: of the member's own signal, or of the object's.
pub data Event : Type 0 where
  local_slot : (slot args : ℕ) → Event
  object_slot : (slot args : ℕ) → Event

-- The slots of `m_signal`, and those of the object's signal before the reverse connection and
-- behind it; whether `m_reverse_con` is connected and blocked; whether `m_connect_delegate` is set,
-- and the numbers that it was called with.
pub record SignalMember : Type 0 where
  pub m_signal : List ℕ
  pub object_before : List ℕ
  pub object_behind : List ℕ
  pub connected : Bool
  pub blocked : Bool
  pub has_connect_delegate : Bool
  pub told : List ℕ

abbrev pub open_slots : List ℕ → Connections
open_slots l = map (λ s. (slot s, false)) l

abbrev pub object_connections : SignalMember → Connections
object_connections m =
    open_slots m.object_before
    ++ ((if m.connected then (reverse, m.blocked) ∷ [] else []) ++ open_slots m.object_behind)

-- scoped_block_signal: the flag `unblock`, and the member after the constructor.
unfoldable pub block : SignalMember → Bool × SignalMember
block m = if m.connected && not m.blocked then (true, record m { blocked = true }) else (false, m)

unfoldable pub unblock : Bool → SignalMember → SignalMember
unblock flag m = if flag && m.connected then record m { blocked = false } else m

-- The slots of the member's own signal, in which no slot is the reverse connection.
unfoldable pub local_slots : List Slot → ℕ → List Event
local_slots [] args = []
local_slots (slot s ∷ slots) args = local_slot s args ∷ local_slots slots args
local_slots (reverse ∷ slots) args = local_slots slots args

-- A member's signal is connected anew.
unfoldable pub set_object : SignalMember → (before behind : List ℕ) → SignalMember
set_object m before behind = record m {
  m_signal = [];
  object_before = before;
  object_behind = behind;
  connected = true;
  blocked = false;
}

-- ~actor_member
unfoldable pub drop_member : SignalMember → SignalMember
drop_member m = record m { m_signal = []; connected = false }

unfoldable pub set_connect_delegate : SignalMember → Bool → SignalMember
set_connect_delegate m f = record m { has_connect_delegate = f }

-- The exception no_connected_slots.
abbrev pub no_connected_slots : Exception
no_connected_slots = other 0

module _ (signals : Signals) where
  -- `if( m_connect_delegate ) m_connect_delegate( m_signal.num_slots() )`
  unfoldable pub tell : SignalMember → SignalMember
  tell m =
      if m.has_connect_delegate
      then record m { told = m.told ++ (signals.num_slots (open_slots m.m_signal) ∷ []) }
      else m

  unfoldable pub connect : SignalMember → ℕ → SignalMember
  unfolding tell
  connect m s = tell (record m { m_signal = m.m_signal ++ (s ∷ []) })

  -- disconnect, with the slots that are left.
  unfoldable pub disconnect : SignalMember → List ℕ → SignalMember
  unfolding tell
  disconnect m left = tell (record m { m_signal = left })

  -- emit: the slots of the member's own signal are called.
  unfoldable pub emit : SignalMember → ℕ → List Event × SignalMember
  unfolding block unblock local_slots
  emit m args =
      let (flag, b) = block m in
      (local_slots (signals.called (open_slots b.m_signal)) args, unblock flag b)

  -- The slots of the object's signal, one after the other.
  unfoldable pub object_slots : SignalMember → ℕ → List Slot → List Event × SignalMember
  unfolding emit
  object_slots m args [] = ([], m)
  object_slots m args (slot s ∷ slots) =
      let (events, after) = object_slots m args slots in (object_slot s args ∷ events, after)
  object_slots m args (reverse ∷ slots) =
      let (back, m') = emit m args in
      let (events, after) = object_slots m' args slots in (back ++ events, after)

  -- A call of the object's signal.
  unfoldable pub raise : SignalMember → ℕ → List Event × SignalMember
  unfolding object_slots
  raise m args = object_slots m args (signals.called (object_connections m))

  -- `int( num_slots() ) - 1 > 0` is `num_slots() > 1`.
  unfoldable pub emit_or_throw : SignalMember → ℕ → List Event × Result Bool × SignalMember
  unfolding raise
  emit_or_throw m args =
      let (events, after) = raise m args in
      if ltb 1 (signals.num_slots (object_connections m))
      then (events, ok true, after)
      else ([], throws no_connected_slots, m)

  -- operator() on the thread of the actor, with the slots called, how it ends, and the member after.
  unfoldable pub call_signal : SignalMember → ℕ → List Event × Result Bool × SignalMember
  unfolding block unblock emit_or_throw local_slots
  call_signal m args =
      let (flag, b) = block m in
      let own = open_slots b.m_signal in
      let first =
        if ltb 1 (signals.num_slots own) then local_slots (signals.called own) args else [] in
      let (events, r, after) = emit_or_throw b args in (first ++ events, r, unblock flag after)
