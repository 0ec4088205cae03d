-- ===== src/Streambuf/Overflow.antt =====
-- What `overflow` sends.
use mathlib.Core.List.{append_assoc, append-nil}
use boost_cmt.Base.{
  ℕ, suc, ◌≡◌, ◌≤◌, refl, sym, ap, ◌∙◌, inl, inr, ◌⊎◌, List, [], ◌∷◌, ◌++◌, Option, none, some,
  Bool, true, false, take, drop, length, if◌then◌else◌, arith, take-append-drop, length-drop, ◌==◌,
  Bool-cases,
}
use boost_cmt.Streambuf.Connection.{Service}
use boost_cmt.Streambuf.{Streambuf, Reply, code_seen, send_all, refill_put, send_char, overflow}

module _ (service : Service) where
  open service use {Conn, wire, async_send, sends_some, sends_first}

  -- All bytes went out, or the first so many did before a send failed.
  abbrev SentSome : Conn → List ℕ → Bool × Conn → Type 0
  SentSome c bytes (true, d) = wire d ≡ wire c ++ bytes
  SentSome c bytes (false, d) =
      (sent : List ℕ) × (rest : List ℕ) × (bytes ≡ sent ++ rest) × (wire d ≡ wire c ++ sent)

  prepend :
      (c d : Conn) (n : ℕ) (bytes : List ℕ) (r : Bool × Conn)
      → wire d ≡ wire c ++ take n bytes
      → SentSome d (drop n bytes) r
      → SentSome c bytes r
  prepend c d n bytes (true, x) e h =
      h
      ∙ ap (λ l. l ++ drop n bytes) e
      ∙ append_assoc (wire c) (take n bytes) (drop n bytes)
      ∙ ap (λ l. wire c ++ l) (take-append-drop n bytes)
  prepend c d n bytes (false, x) e (sent, rest, split, h) = (
    take n bytes ++ sent,
    rest,
    sym (take-append-drop n bytes)
        ∙ ap (λ l. take n bytes ++ l) split
        ∙ sym (append_assoc (take n bytes) sent rest),
    h ∙ ap (λ l. l ++ sent) e ∙ append_assoc (wire c) (take n bytes) sent,
  )

  -- The rounds that read the code that was stored.
  abbrev pub sightings : List Bool → ℕ
  sightings [] = 0
  sightings (true ∷ stored) = suc (sightings stored)
  sightings (false ∷ stored) = sightings stored

  -- A round that goes on and read a code that was stored has sent a byte.
  fewer :
      (b : Bool) (stored : List Bool) (c : Conn) (x : ℕ) (bytes : List ℕ)
      → length (x ∷ bytes) ≤ sightings (b ∷ stored)
      → (code_seen b (async_send c (x ∷ bytes)).ec == 0) ≡ true
      → length (drop (async_send c (x ∷ bytes)).bytes_transferred (x ∷ bytes)) ≤ sightings stored
  fewer true stored c x bytes l going =
      let n = (async_send c (x ∷ bytes)).bytes_transferred in
      let some_sent = sends_some c (x ∷ bytes) (ground arith) (omega arith) in
      omega (arith, l, some_sent, length-drop n (x ∷ bytes))
  fewer false stored c x bytes l going =
      omega (arith, l, length-drop (async_send c (x ∷ bytes)).bytes_transferred (x ∷ bytes))

  send_all_ends :
      (stored : List Bool) (c : Conn) (bytes : List ℕ)
      → length bytes ≤ sightings stored
      → (r : Bool × Conn) × (send_all service stored c bytes ≡ some r) × SentSome c bytes r
  unfolding send_all
  send_all_ends stored c [] l = ((true, c), refl, sym (append-nil (wire c)))
  send_all_ends [] c (x ∷ bytes) l = absurd (omega arith)
  send_all_ends (b ∷ stored) c (x ∷ bytes) l =
      let s = async_send c (x ∷ bytes) in
      let n = s.bytes_transferred in
      let out = sends_first c (x ∷ bytes) in
      elim (Bool-cases (code_seen b s.ec == 0)) [
        | inr failed ↦ (
          (false, s.conn),
          rw (failed, send_all) refl,
          (take n (x ∷ bytes), drop n (x ∷ bytes), sym (take-append-drop n (x ∷ bytes)), out),
        )
        | inl going ↦
            let (r, e, sent) =
              send_all_ends stored s.conn (drop n (x ∷ bytes)) (fewer b stored c x bytes l going) in
            (r, rw (going, send_all) e, prepend c s.conn n (x ∷ bytes) r out sent)
      ]

  -- What a call of `overflow` with a character may reply.
  abbrev pub Accepted : Streambuf → Conn → ℕ → Reply Conn (Option ℕ) → Type 0
  Accepted s c ch r =
      ((r.value ≡ some ch)
        × (wire r.conn ++ r.after.put_area ≡ (wire c ++ s.put_area) ++ (ch ∷ [])))
      ⊎ ((r.value ≡ none)
          × (r.after ≡ s)
          × ((sent : List ℕ) × (rest : List ℕ) × (s.put_area ≡ sent ++ rest)
              × (wire r.conn ≡ wire c ++ sent)))

  accepts :
      (s : Streambuf) (c : Conn) (ch : ℕ) (r : Bool × Conn)
      → SentSome c s.put_area r
      → (reply : Reply Conn (Option ℕ)) × (refill_put service s (some ch) (some r) ≡ some reply)
        × Accepted s c ch reply
  unfolding refill_put
  accepts s c ch (true, d) h = (_, refl, inl (refl, ap (λ l. l ++ (ch ∷ [])) h))
  accepts s c ch (false, d) h = (_, refl, inr (refl, refl, h))

  overflow_buffered :
      (s : Streambuf) (c : Conn) (stored : List Bool) (ch : Option ℕ)
      → s.unbuffered ≡ false
      → overflow service s c stored ch
        ≡ refill_put service s ch (send_all service stored c s.put_area)
  unfolding overflow
  overflow_buffered s c stored ch off =
      ap
        (λ b.
          if b
          then send_char service s c stored ch
          else refill_put service s ch (send_all service stored c s.put_area))
        off

  -- While the stream buffer is buffered, `overflow` with a character returns, given that as many of
  -- the rounds of its loop as the put area has characters read the error code that the handler
  -- stored and not the 0 that is there before. It returns the character, and the bytes sent with
  -- those that wait in the put area are those before and the character, in order; or it returns eof,
  -- the buffer is as before, and of its put area a first part was sent.
  pub overflow_accepts :
      (s : Streambuf) (c : Conn) (stored : List Bool) (ch : ℕ)
      → s.unbuffered ≡ false
      → length s.put_area ≤ sightings stored
      → (reply : Reply Conn (Option ℕ)) × (overflow service s c stored (some ch) ≡ some reply)
        × Accepted s c ch reply
  overflow_accepts s c stored ch off enough =
      let (r, e, sent) = send_all_ends stored c s.put_area enough in
      let (reply, f, good) = accepts s c ch r sent in
      (
        reply,
        overflow_buffered s c stored (some ch) off ∙ ap (refill_put service s (some ch)) e ∙ f,
        good,
      )
