-- ===== src/Socket/Iterator.antt =====
-- socket::iterator of include/boost/cmt/asio/tcp/socket.hpp and src/asio/tcp/socket.cpp: an input
-- iterator that reads one byte of the socket at each step.
pub mod Walk
use boost_cmt.Base.{
  ℕ, zero, suc, List, [], ◌∷◌, Option, none, some, Bool, true, false, ◌==◌, not, if◌then◌else◌,
}
use boost_cmt.Error.{Exception}
use boost_cmt.Socket.Stream.{Stream}
use boost_cmt.Socket.Read.{Buffer, Outcome, fault, threw, returned, read}

-- `value`, and whether `s` is not null; all iterators of a test are of one socket.
pub record Iterator : Type 0 where
  pub value : ℕ
  pub has_socket : Bool

-- The end of the sequence, `iterator( NULL )`.
abbrev pub end_of : ℕ → Iterator
end_of v = record { value = v; has_socket = false }

-- operator==
abbrev pub same_iterator : Iterator → Iterator → Bool
same_iterator i j = if i.has_socket then j.has_socket else not j.has_socket

-- How a step of an iterator ends: beside the buffer, with a throw, or with the state after it.
pub data Stepped (C : Type 0) : Type 0 where
  outside : Stepped C
  raised : Exception → Stepped C
  moved : Iterator → Buffer → C → Stepped C

-- `value` once these bytes are stored in it.
abbrev pub stored : ℕ → List ℕ → ℕ
stored v [] = v
stored v (x ∷ bytes) = x

-- How a loop over the iterators ends, or what it has after some steps, with the values before.
pub data Walking (C : Type 0) : Type 0 where
  left_buffer : Walking C
  met_end : List ℕ → Walking C
  threw_after : List ℕ → Exception → Walking C
  sees : List ℕ → Iterator → Buffer → C → Walking C

abbrev pub before_rest : {C : Type 0} → ℕ → Walking C → Walking C
before_rest v left_buffer = left_buffer
before_rest v (met_end vs) = met_end (v ∷ vs)
before_rest v (threw_after vs e) = threw_after (v ∷ vs) e
before_rest v (sees vs it b c) = sees (v ∷ vs) it b c

module _ (stream : Stream) where
  open stream use {Conn}

  -- `if( 1 != s->read( &value, 1 ) ) s = NULL`
  abbrev pub after_read : Iterator → Outcome Conn → Stepped Conn
  after_read it fault = outside
  after_read it (threw e) = raised e
  after_read it (returned bytes n b d) =
      moved (record { value = stored it.value bytes; has_socket = n == 1 }) b d

  -- operator++
  unfoldable pub step_on : Iterator → Buffer → Conn → Stepped Conn
  step_on it b c = after_read it (read stream b c 1)

  -- operator++( int ), with the iterator returned.
  unfoldable pub post_step : Iterator → Buffer → Conn → Iterator × Stepped Conn
  unfolding step_on
  post_step it b c = (it, step_on it b c)

  -- The constructor for a socket, where the memory of `value` holds `v`.
  unfoldable pub begin_at : ℕ → Buffer → Conn → Stepped Conn
  unfolding step_on
  begin_at v b c = step_on (record { value = v; has_socket = true }) b c

  abbrev pub walk_on : (Iterator → Buffer → Conn → Walking Conn) → ℕ → Stepped Conn → Walking Conn
  walk_on f v outside = left_buffer
  walk_on f v (raised e) = threw_after (v ∷ []) e
  walk_on f v (moved it b c) = before_rest v (f it b c)

  -- The loop `for( ; i != end; ++i )` up to where it looks at the iterator after so many steps.
  unfoldable pub walk : ℕ → Iterator → Buffer → Conn → Walking Conn
  unfolding step_on
  walk zero it b c = if same_iterator it (end_of it.value) then met_end [] else sees [] it b c
  walk (suc n) it b c =
      let rest = walk_on (walk n) it.value (step_on it b c) in
      if same_iterator it (end_of it.value) then met_end [] else rest
