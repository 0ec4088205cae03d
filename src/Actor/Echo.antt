-- ===== src/Actor/Echo.antt =====
-- What a call of a signal's member raises.
use mathlib.Core.List.{map-append}
use boost_cmt.Base.{
  ℕ, suc, ◌+◌, ◌≡◌, ◌<◌, refl, sym, ap, ◌∙◌, List, [], ◌∷◌, ◌++◌, Bool, true, false, arith, length,
  length-append, if◌then◌else◌, ltb, map,
}
use boost_cmt.Error.{ok, throws}
use boost_cmt.Actor.Signal.{
  SignalMember, Signals, Slot, slot, reverse, Event, local_slot, object_slot, open_slots,
  local_slots, object_slots, block, unblock, emit, raise, emit_or_throw, call_signal,
  no_connected_slots,
}

-- A member whose reverse connection is among these slots of the object's signal.
abbrev pub linked : (own before behind : List ℕ) → SignalMember
linked own before behind = record {
  m_signal = own;
  object_before = before;
  object_behind = behind;
  connected = true;
  blocked = false;
  has_connect_delegate = false;
  told = [];
}

-- Every one of these slots is called, of the member's own signal or of the object's.
abbrev pub own_calls : List ℕ → ℕ → List Event
own_calls l args = map (λ s. local_slot s args) l

abbrev pub object_calls : List ℕ → ℕ → List Event
object_calls l args = map (λ s. object_slot s args) l

-- The slots of the member's own signal that a call of operator() calls first.
abbrev pub own_first : List ℕ → ℕ → List Event
own_first own args = if ltb 1 (length own) then own_calls own args else []

module _ (signals : Signals) where
  all_called :
      (l : List ℕ) (cs : List (Slot × Bool))
      → signals.called (open_slots l ++ cs) ≡ map slot l ++ signals.called cs
  all_called [] cs = refl
  all_called (s ∷ l) cs =
      signals.called-open (slot s) (open_slots l ++ cs) ∙ ap (λ x. slot s ∷ x) (all_called l cs)

  none_behind : (l : List ℕ) → signals.called (open_slots l) ≡ map slot l
  none_behind [] = signals.called-nil
  none_behind (s ∷ l) =
      signals.called-open (slot s) (open_slots l) ∙ ap (λ x. slot s ∷ x) (none_behind l)

  own_slots : (l : List ℕ) (args : ℕ) → local_slots (map slot l) args ≡ own_calls l args
  unfolding local_slots
  own_slots [] args = refl
  own_slots (s ∷ l) args = ap (λ x. local_slot s args ∷ x) (own_slots l args)

  plain_slots :
      (m : SignalMember) (args : ℕ) (l : List ℕ)
      → object_slots signals m args (map slot l) ≡ (object_calls l args, m)
  unfolding object_slots
  plain_slots m args [] = refl
  plain_slots m args (s ∷ l) = rw (plain_slots m args l) refl

  slots_reverse :
      (m : SignalMember) (args : ℕ) (l behind : List ℕ)
      → (emit signals m args).1 ≡ m
      → object_slots signals m args (map slot l ++ (reverse ∷ map slot behind))
        ≡ (object_calls l args ++ ((emit signals m args).0 ++ object_calls behind args), m)
  unfolding object_slots
  slots_reverse m args [] behind e = rw (e, plain_slots m args behind) refl
  slots_reverse m args (s ∷ l) behind e = rw (slots_reverse m args l behind e) refl

  -- An event that the object raises by itself reaches the slots of its signal in the order of their
  -- connection, and those of the member's own signal in the place of the reverse connection. The
  -- member is as before.
  pub raise_reaches :
      (own before behind : List ℕ) (args : ℕ)
      → raise signals (linked own before behind) args ≡ (
        object_calls before args ++ (own_calls own args ++ object_calls behind args),
        linked own before behind,
      )
  unfolding raise emit block unblock
  raise_reaches own before behind args =
      let m = linked own before behind in
      let order : signals.called (open_slots before ++ ((reverse, false) ∷ open_slots behind))
          ≡ map slot before ++ (reverse ∷ map slot behind) =
        all_called before ((reverse, false) ∷ open_slots behind)
        ∙ ap (λ x. map slot before ++ x)
            (signals.called-open reverse (open_slots behind)
              ∙ ap (λ x. reverse ∷ x) (none_behind behind)) in
      ap (object_slots signals m args) order
      ∙ slots_reverse m args before behind refl
      ∙ ap (λ x. (object_calls before args ++ (x ++ object_calls behind args), m))
          (ap (λ x. local_slots x args) (none_behind own) ∙ own_slots own args)

  -- With the reverse connection blocked, the object's signal calls the object's slots only.
  raise_blocked :
      (own before behind : List ℕ) (args : ℕ)
      → raise signals (record (linked own before behind) { blocked = true }) args ≡ (
        object_calls before args ++ object_calls behind args,
        record (linked own before behind) { blocked = true },
      )
  unfolding raise
  raise_blocked own before behind args =
      let m : SignalMember = record (linked own before behind) { blocked = true } in
      ap (object_slots signals m args) (
        all_called before ((reverse, true) ∷ open_slots behind)
        ∙ ap (λ x. map slot before ++ x)
            (signals.called-blocked reverse (open_slots behind) ∙ none_behind behind)
        ∙ sym (map-append slot before behind))
      ∙ plain_slots m args (before ++ behind)
      ∙ ap (λ x. (x, m)) (map-append _ before behind)

  opened : (l : List ℕ) → length (open_slots l) ≡ length l
  opened [] = refl
  opened (s ∷ l) = ap suc (opened l)

  slots_counted :
      (before behind : List ℕ) (b : Bool)
      → signals.num_slots (open_slots before ++ ((reverse, b) ∷ open_slots behind))
        ≡ suc (length before + length behind)
  slots_counted before behind b =
      signals.num_slots-length _
      ∙ length-append (open_slots before) ((reverse, b) ∷ open_slots behind)
      ∙ omega (arith, opened before, opened behind)

  -- A call of a connected member does not echo: the slots of the object's signal are called, in the
  -- order of their connection, and the member's own slots are not called back by it; they are
  -- called before, only where there are two at least. With no slot on the object's signal but the
  -- reverse connection the call throws, after the member's own slots. In both cases the member is
  -- as before, and the reverse connection unblocked.
  pub call_signal_lem :
      (own before behind : List ℕ) (args : ℕ)
      → (0 < length before + length behind
          → call_signal signals (linked own before behind) args ≡ (
            own_first own args ++ (object_calls before args ++ object_calls behind args),
            ok true,
            linked own before behind,
          ))
        × (length before + length behind ≡ 0
            → call_signal signals (linked own before behind) args
              ≡ (own_first own args ++ [], throws no_connected_slots, linked own before behind))
  unfolding call_signal block unblock emit_or_throw
  call_signal_lem own before behind args =
      let m : SignalMember = record (linked own before behind) { blocked = true } in
      let quiet = raise_blocked own before behind args in
      let n = slots_counted before behind true in
      let more : 0 < length before + length behind
          → ltb 1 (suc (length before + length behind)) ≡ true =
        λ l. ground arith in
      let k : signals.num_slots (open_slots own) ≡ length own =
        signals.num_slots-length (open_slots own) ∙ opened own in
      let calls : local_slots (signals.called (open_slots own)) args ≡ own_calls own args =
        ap (λ x. local_slots x args) (none_behind own) ∙ own_slots own args in
      (λ l. rw (quiet, n, k, calls, more l) refl, λ e. rw (quiet, n, k, calls, e) refl)
