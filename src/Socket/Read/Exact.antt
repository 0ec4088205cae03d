-- ===== src/Socket/Read/Exact.antt =====
-- `read` delivers the peer's bytes, in order and none twice, through the buffer.
use mathlib.Core.List.{append_assoc, append-nil}
use boost_cmt.Base.{
  ℕ, ◌+◌, ◌-◌, ◌≤◌, ◌<◌, ◌≡◌, refl, sym, ap, subst, ◌∙◌, ◌⊎◌, inl, inr, List, [], ◌∷◌, ◌++◌, arith,
  take, drop, length, min, leb, ◌==◌, length-append, length-take, length-drop, take-append-drop,
  drop-drop, drop-eq-nil, Bool-cases, true, false,
}
use boost_cmt.Error.{Exception, ok, throws, Result-cases}
use boost_cmt.Socket.Stream.{Stream}
use boost_cmt.Socket.Read.{
  Buffer, Outcome, fault, threw, returned, read, finish_read, read_available, advance,
}

-- The bytes that are in the buffer and were not read yet.
abbrev pub unread : Buffer → List ℕ
unread b = drop b.read_pos b.read_buf

-- There is something unread, or the buffer is empty and the position 0.
abbrev pub IsValid : Buffer → Type 0
IsValid b = (b.read_pos < length b.read_buf) ⊎ ((b.read_buf ≡ []) × (b.read_pos ≡ 0))

from_start : (l : List ℕ) → (0 < length l) ⊎ ((l ≡ []) × (◌≡◌ {A = ℕ} 0 0))
from_start [] = inr (refl, refl)
from_start (x ∷ l) = inl (omega arith)

advance-IsValid : (b : Buffer) (s : ℕ) → b.read_pos + s ≤ length b.read_buf → IsValid (advance b s)
unfolding advance
advance-IsValid b s l = elim (Bool-cases ((b.read_pos + s) == length b.read_buf)) [
  | inl all ↦ rw (all, advance) (inr (refl, refl))
  | inr some ↦ rw (some, advance) (inl (ground arith))
]

advance-drop :
    (b : Buffer) (s : ℕ)
    → b.read_pos + s ≤ length b.read_buf
    → unread (advance b s) ≡ drop s (unread b)
unfolding advance
advance-drop b s l = elim (Bool-cases ((b.read_pos + s) == length b.read_buf)) [
  | inl all ↦
      let none_left = drop-eq-nil (b.read_pos + s) b.read_buf (ground arith) in
      rw (all, advance) (sym (drop-drop b.read_pos s b.read_buf ∙ none_left))
  | inr some ↦ rw (some, advance) (sym (drop-drop b.read_pos s b.read_buf))
]

-- The bytes of the buffer from the position on are the next `s` and those after `advance`.
unread-advance :
    (b : Buffer) (s : ℕ)
    → b.read_pos + s ≤ length b.read_buf
    → unread b ≡ take s (unread b) ++ unread (advance b s)
unread-advance b s l =
    sym (take-append-drop s (unread b))
    ∙ ap (λ x. take s (unread b) ++ x) (sym (advance-drop b s l))

advance_empty :
    (b : Buffer) (s : ℕ)
    → b.read_pos + s ≡ length b.read_buf
    → ((advance b s).read_pos ≡ 0) × ((advance b s).read_buf ≡ [])
unfolding advance
advance_empty b s l = ground arith

regroup : (w x y z : List ℕ) → w ++ ((x ++ y) ++ z) ≡ (w ++ x) ++ (y ++ z)
regroup w x y z = simp append_assoc

module _ (stream : Stream) where
  open stream use {Conn, pending, available, read as asio_read, read_fills, read_in_order}

  -- What a call for `size` bytes may come to, at the bytes `due` that are still to be delivered: it
  -- returns exactly so many bytes, the first that are due, and the others remain; or it throws what
  -- a read of Boost.Asio on that connection threw; it never leaves the buffer.
  abbrev pub Delivers : List ℕ → Conn → ℕ → Outcome Conn → Type 0
  Delivers due c size fault = ⊥
  Delivers due c size (threw e) = (n : ℕ) × (asio_read c n ≡ throws e)
  Delivers due c size (returned bytes n b d) =
      (length bytes ≡ size) × (n ≡ size) × IsValid b × (due ≡ bytes ++ (unread b ++ pending d))

  throws_delivers :
      (b : Buffer) (c : Conn) (size : ℕ) (before : List ℕ) (e : Exception) (f g : ℕ → ℕ)
      → asio_read c (available c) ≡ throws e
      → read_available stream b c size before f g ≡ threw e
  unfolding read_available
  throws_delivers b c size before e f g h = rw (h, read_available) refl

  available-Delivers :
      (b : Buffer) (c d : Conn) (size : ℕ) (before bytes : List ℕ)
      → b.read_pos ≡ 0
      → size ≤ available c
      → asio_read c (available c) ≡ ok (bytes, d)
      → Delivers
          (before ++ pending c)
          c
          (length before + size)
          (read_available stream b c size before (λ r. length before + size) (λ r. available c))
  unfolding read_available
  available-Delivers b c d size before bytes z l e =
      let full = read_fills c d (available c) bytes e in
      let whole = read_in_order c d (available c) bytes e in
      rw (e, read_available)
        (
          omega (arith, length-append before (take size bytes), length-take size bytes),
          refl,
          rw z (from_start (drop size bytes)),
          ap (λ x. before ++ x)
                (whole ∙ ap (λ x. x ++ pending d) (sym (take-append-drop size bytes)))
              ∙ regroup before (take size bytes) (drop size bytes) (pending d)
              ∙ ap (λ p. (before ++ take size bytes) ++ (drop p (drop size bytes) ++ pending d))
                  (sym z),
        )

  nothing_left : (b : Buffer) → b.read_pos ≡ 0 → b.read_buf ≡ [] → unread b ≡ []
  nothing_left b z k = ap (λ p. drop p b.read_buf) z ∙ k

  finish_read-Delivers :
      (b : Buffer) (c : Conn) (size : ℕ) (before : List ℕ)
      → b.read_pos ≡ 0
      → b.read_buf ≡ []
      → Delivers (before ++ pending c) c (length before + size) (finish_read stream b c size before)
  unfolding finish_read
  finish_read-Delivers b c size before z k = elim (Bool-cases (leb size (available c))) [
    | inl more ↦ elim (Result-cases (asio_read c (available c))) [
      | inl (e, h) ↦
          rw (more, finish_read, throws_delivers b c size before e _ _ h) (available c, h)
      | inr ((bytes, d), h) ↦
          rw (more, finish_read) (available-Delivers b c d size before bytes z (ground arith) h)
    ]
    | inr less ↦ elim (Result-cases (asio_read c size)) [
      | inl (e, h) ↦ rw (less, finish_read, h) (size, h)
      | inr ((bytes, d), h) ↦
          let full = read_fills c d size bytes h in
          let whole = read_in_order c d size bytes h in
          rw (less, finish_read, h)
            (
              omega (arith, length-append before bytes),
              omega arith,
              inr (k, z),
              ap (λ x. before ++ x) whole
                  ∙ sym (append_assoc before bytes (pending d))
                  ∙ ap (λ x. (before ++ bytes) ++ (x ++ pending d)) (sym (nothing_left b z k)),
            )
    ]
  ]

  read_refill :
      (b : Buffer) (c : Conn) (size : ℕ)
      → b.read_pos ≡ length b.read_buf
      → read stream b c size ≡ finish_read stream b c size []
  unfolding read
  read_refill b c size e = ground arith

  module _ (b : Buffer) (c : Conn) (size : ℕ) (some : b.read_pos < length b.read_buf) where
    abbrev portion : ℕ
    portion = min (length b.read_buf - b.read_pos) size

    read_enough :
        (size == portion) ≡ true
        → read stream b c size ≡ returned (take portion (unread b)) portion (advance b portion) c
    unfolding read
    read_enough e = ground arith

    read_more :
        (size == portion) ≡ false
        → read stream b c size
          ≡ finish_read stream (advance b portion) c (size - portion) (take portion (unread b))
    unfolding read
    read_more e = ground arith

    portion-length : length (take portion (unread b)) ≡ portion
    portion-length =
        omega (arith, length-take portion (unread b), length-drop b.read_pos b.read_buf)

    enough-Delivers :
        (size == portion) ≡ true → Delivers (unread b ++ pending c) c size (read stream b c size)
    enough-Delivers e =
        let fits : b.read_pos + portion ≤ length b.read_buf = omega arith in
        let same : size ≡ portion = ground arith in
        rw (read_enough e) (
          portion-length ∙ sym same,
          sym same,
          advance-IsValid b portion fits,
          ap (λ x. x ++ pending c) (unread-advance b portion fits)
              ∙ append_assoc (take portion (unread b)) (unread (advance b portion)) (pending c),
        )

    more-Delivers :
        (size == portion) ≡ false → Delivers (unread b ++ pending c) c size (read stream b c size)
    more-Delivers e =
        let short : portion < size = ground arith in
        let all : b.read_pos + portion ≡ length b.read_buf = omega arith in
        let (z, k) = advance_empty b portion all in
        let whole : unread b ≡ take portion (unread b) =
          unread-advance b portion (omega arith)
          ∙ ap (λ x. take portion (unread b) ++ x) (nothing_left (advance b portion) z k)
          ∙ append-nil (take portion (unread b)) in
        let rest =
          finish_read-Delivers (advance b portion) c (size - portion) (take portion (unread b)) z
            k in
        let total : length (take portion (unread b)) + (size - portion) ≡ size =
          omega (arith, portion-length) in
        let left =
          finish_read stream (advance b portion) c (size - portion) (take portion (unread b)) in
        rw (read_more e) (
          subst (λ x. Delivers (x ++ pending c) c size left) (sym whole)
            (subst (λ n. Delivers (take portion (unread b) ++ pending c) c n left) total rest))

  -- `read` returns exactly `size` bytes, which are the first of those in the buffer and on the
  -- connection that were not read yet, and leaves all others in their order; or it throws what a
  -- read of Boost.Asio threw. The buffer stays valid, and the copy out of it stays inside it.
  pub read-Delivers :
      (b : Buffer) (c : Conn) (size : ℕ)
      → IsValid b
      → Delivers (unread b ++ pending c) c size (read stream b c size)
  read-Delivers b c size (inl some) =
      elim (Bool-cases (size == min (length b.read_buf - b.read_pos) size)) [
        | inl e ↦ enough-Delivers b c size some e
        | inr e ↦ more-Delivers b c size some e
      ]
  read-Delivers b c size (inr (k, z)) =
      let rest = finish_read-Delivers b c size [] z k in
      let full : b.read_pos ≡ length b.read_buf = z ∙ sym (ap length k) in
      let total : length {A = ℕ} [] + size ≡ size = omega arith in
      let left = finish_read stream b c size [] in
      rw (read_refill b c size full) (
        subst (λ x. Delivers (x ++ pending c) c size left) (sym (nothing_left b z k))
          (subst (λ n. Delivers (pending c) c n left) total rest))
