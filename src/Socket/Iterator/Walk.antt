-- ===== src/Socket/Iterator/Walk.antt =====
-- Where the steps of an iterator lead.
use boost_cmt.Base.{
  ℕ, zero, suc, ◌≡◌, ap, ◌∙◌, List, [], ◌∷◌, ◌++◌, true, false, arith, length, subst,
}
use boost_cmt.Socket.Stream.{Stream}
use boost_cmt.Socket.Read.{Buffer, Outcome, fault, threw, returned, read}
use boost_cmt.Socket.Read.Exact.{IsValid, unread, Delivers, read-Delivers}
use boost_cmt.Socket.Iterator.{
  Iterator, Stepped, outside, raised, moved, stored, Walking, left_buffer, met_end, threw_after,
  sees, before_rest, step_on, begin_at, walk, walk_on, after_read, same_iterator, end_of,
}

module _ (stream : Stream) where
  open stream use {Conn, pending}

  -- What a step from `due`, the bytes still to be delivered, ends with: the first of them.
  abbrev pub Steps : List ℕ → Stepped Conn → Type 0
  Steps due outside = ⊥
  Steps due (raised e) = Unit {0}
  Steps due (moved it b c) =
      IsValid b × (it.has_socket ≡ true) × (due ≡ it.value ∷ (unread b ++ pending c))

  one_byte :
      (v : ℕ) (bytes rest due : List ℕ)
      → length bytes ≡ 1
      → due ≡ bytes ++ rest
      → due ≡ stored v bytes ∷ rest
  one_byte v [] rest due l e = absurd (ground arith)
  one_byte v (x ∷ []) rest due l e = e
  one_byte v (x ∷ y ∷ bytes) rest due l e = absurd (omega arith)

  after_read-Steps :
      (due : List ℕ) (c : Conn) (it : Iterator) (o : Outcome Conn)
      → Delivers stream due c 1 o
      → Steps due (after_read stream it o)
  after_read-Steps due c it fault d = d
  after_read-Steps due c it (threw e) d = tt
  after_read-Steps due c it (returned bytes n b d') d =
      (d.2, ground arith, one_byte it.value bytes (unread b ++ pending d') due d.0 d.3)

  step_on-Steps :
      (it : Iterator) (b : Buffer) (c : Conn)
      → IsValid b
      → Steps (unread b ++ pending c) (step_on stream it b c)
  unfolding step_on
  step_on-Steps it b c v =
      after_read-Steps (unread b ++ pending c) c it (read stream b c 1)
        (read-Delivers stream b c 1 v)

  -- What a loop may come to at the bytes `due`: it sees the next of them, after `vs`, and the others
  -- remain; or a step throws after some of them. It does not meet the end.
  abbrev pub Walked : List ℕ → Walking Conn → Type 0
  Walked due left_buffer = ⊥
  Walked due (met_end vs) = ⊥
  Walked due (threw_after vs e) = (rest : List ℕ) × (due ≡ vs ++ rest)
  Walked due (sees vs it b c) =
      IsValid b × (it.has_socket ≡ true) × (due ≡ vs ++ (it.value ∷ (unread b ++ pending c)))

  before_rest-Walked :
      (v : ℕ) (due rest : List ℕ) (w : Walking Conn)
      → due ≡ v ∷ rest
      → Walked rest w
      → Walked due (before_rest v w)
  before_rest-Walked v due rest left_buffer e d = d
  before_rest-Walked v due rest (met_end vs) e d = d
  before_rest-Walked v due rest (threw_after vs x) e (last, d) = (last, e ∙ ap (λ l. v ∷ l) d)
  before_rest-Walked v due rest (sees vs it b c) e d = (d.0, d.1, e ∙ ap (λ l. v ∷ l) d.2)

  walk_on-Walked :
      (f : Iterator → Buffer → Conn → Walking Conn) (v : ℕ) (due rest : List ℕ) (s : Stepped Conn)
      → ((it : Iterator) (b : Buffer) (c : Conn)
          → Steps rest (moved it b c)
          → Walked rest (f it b c))
      → due ≡ v ∷ rest
      → Steps rest s
      → Walked due (walk_on stream f v s)
  walk_on-Walked f v due rest outside h e s = s
  walk_on-Walked f v due rest (raised x) h e s = (rest, e)
  walk_on-Walked f v due rest (moved it b c) h e s =
      before_rest-Walked v due rest (f it b c) e (h it b c s)

  not_end : (it : Iterator) → it.has_socket ≡ true → same_iterator it (end_of it.value) ≡ false
  not_end it e = ground arith

  walk-Walked :
      (n : ℕ) (due : List ℕ) (it : Iterator) (b : Buffer) (c : Conn)
      → Steps due (moved it b c)
      → Walked due (walk stream n it b c)
  unfolding walk
  walk-Walked zero due it b c s = rw (not_end it s.1) s
  walk-Walked (suc n) due it b c s =
      let rest = unread b ++ pending c in
      let more =
        walk_on-Walked (walk stream n) it.value due rest (step_on stream it b c)
          (λ i d k t. walk-Walked n rest i d k t) s.2 (step_on-Steps it b c s.0) in
      rw (not_end it s.1) more

  -- A loop over the iterators of a socket, from the first one that is made, sees the socket's bytes,
  -- those in the buffer and then those that arrive, each once and in order, after any number of
  -- steps that do not throw. It never meets the end of the sequence: a step either gives the next
  -- byte or throws.
  pub walk-begin_at :
      (n v : ℕ) (b d : Buffer) (c k : Conn) (it : Iterator)
      → IsValid b
      → begin_at stream v b c ≡ moved it d k
      → Walked (unread b ++ pending c) (walk stream n it d k)
  unfolding begin_at
  walk-begin_at n v b d c k it valid e = walk-Walked n (unread b ++ pending c) it d k (
      subst (Steps (unread b ++ pending c)) e
        (step_on-Steps (record { value = v; has_socket = true }) b c valid))
