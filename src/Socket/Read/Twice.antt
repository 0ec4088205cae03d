-- ===== src/Socket/Read/Twice.antt =====
-- Two calls of `read_some` that the buffer serves.
use mathlib.Core.List.{append_cancel_left}
use boost_cmt.Base.{
  ℕ, zero, suc, ◌+◌, ◌-◌, ◌≡◌, ◌≢◌, ◌<◌, refl, sym, ap, ◌∙◌, List, [], ◌∷◌, ◌++◌, arith, take, drop,
  length, drop-drop,
}
use boost_cmt.Base.Links.{Absent, Distinct}
use boost_cmt.Socket.Stream.{Stream}
use boost_cmt.Socket.Read.{Buffer, returned, read_some}
use boost_cmt.Socket.Read.Exact.{unread}
use boost_cmt.Socket.Read.Some.{read_some_rewinds}

abbrev nothing : List ℕ
nothing = []

first_of : List ℕ → ℕ
first_of [] = 0
first_of (x ∷ l) = x

take-nil : (n : ℕ) → take n [] ≡ nothing
take-nil zero = refl
take-nil (suc n) = refl

take-add : (n m : ℕ) (l : List ℕ) → take (n + m) l ≡ take n l ++ take m (drop n l)
take-add zero m l = ap (λ k. take k l) (omega arith)
take-add (suc n) m [] = take-nil (suc n + m) ∙ sym (take-nil m)
take-add (suc n) m (x ∷ l) =
    let sum : suc n + m ≡ suc (n + m) = omega arith in
    ap (λ k. take k (x ∷ l)) sum ∙ ap (λ t. x ∷ t) (take-add n m l)

-- Where no byte occurs twice, what follows one position does not begin as what follows another.
not_behind :
    (x m k : ℕ) (xs : List ℕ)
    → Absent x xs
    → k < length xs
    → ¬ (first_of (take (suc m) (drop k xs)) ≡ x)
not_behind x m k [] a l e = absurd (omega arith)
not_behind x m zero (y ∷ ys) a l e = a.0 (unfold first_of in e)
not_behind x m (suc k) (y ∷ ys) a l e = not_behind x m k ys a.1 (omega arith) e

differ :
    (n r m : ℕ) (l : List ℕ)
    → Distinct l
    → suc r + n < length l
    → ¬ (first_of (take (suc m) (drop n l)) ≡ first_of (take (suc m) (drop (suc r + n) l)))
unfolding first_of
differ n r m [] d b e = absurd (omega arith)
differ zero r m (x ∷ l) d b e =
    let sum : suc r + zero ≡ suc r = omega arith in
    let at : drop (suc r + zero) (x ∷ l) ≡ drop r l = ap (λ k. drop k (x ∷ l)) sum in
    not_behind x m r l d.0 (omega arith) (sym (e ∙ ap (λ t. first_of (take (suc m) t)) at))
differ (suc n) r m (x ∷ l) d b e =
    let sum : suc r + suc n ≡ suc (suc r + n) = omega arith in
    let at : drop (suc r + suc n) (x ∷ l) ≡ drop (suc r + n) l = ap (λ k. drop k (x ∷ l)) sum in
    differ n r m l d.1 (omega arith) (e ∙ ap (λ t. first_of (take (suc m) t)) at)

-- The bytes that two reads of `n` and of `m` bytes store, one after the other.
abbrev pub stored_by_two : Buffer → ℕ → ℕ → List ℕ
stored_by_two b n m = take n (unread b) ++ take m (drop n b.read_buf)

in_order_at_start :
    (b : Buffer) (n m : ℕ) → b.read_pos ≡ 0 → stored_by_two b n m ≡ take (n + m) (unread b)
in_order_at_start b n m z =
    let whole : unread b ≡ b.read_buf = ap (λ k. drop k b.read_buf) z in
    ap (λ l. take n (unread b) ++ take m (drop n l)) (sym whole) ∙ sym (take-add n m (unread b))

out_of_order :
    (b : Buffer) (n m : ℕ)
    → 0 < b.read_pos
    → 0 < m
    → b.read_pos + n < length b.read_buf
    → Distinct b.read_buf
    → stored_by_two b n m ≢ take (n + m) (unread b)
out_of_order b n zero p q l d e = absurd (omega arith)
out_of_order b n (suc m) p q l d e =
    let second : take (suc m) (drop n b.read_buf) ≡ take (suc m) (drop n (unread b)) =
      append_cancel_left (take n (unread b)) _ _ (e ∙ take-add n (suc m) (unread b)) in
    let r = b.read_pos - 1 in
    let from : b.read_pos ≡ suc r = omega arith in
    let behind : drop n (unread b) ≡ drop (suc r + n) b.read_buf =
      drop-drop b.read_pos n b.read_buf ∙ ap (λ k. drop (k + n) b.read_buf) from in
    differ n r m b.read_buf d (omega (arith, l, from))
      (ap first_of (second ∙ ap (λ t. take (suc m) t) behind))

module _ (stream : Stream) where
  open stream use {Conn}

  -- Two calls of `read_some`, for `n` and then for `m` bytes, while the buffer holds more unread
  -- bytes than both ask for. Together they store the first unread bytes in order if the position is
  -- at the buffer's start. If it is behind the start, `m` is not 0 and no byte occurs twice in the
  -- buffer, then they do not.
  pub read_some_twice :
      (b : Buffer) (c : Conn) (n m : ℕ)
      → b.read_pos + (n + m) < length b.read_buf
      → (first second : List ℕ) × (mid after : Buffer) × (read_some stream b c n
          ≡ returned first n mid c)
        × (read_some stream mid c m ≡ returned second m after c)
        × (b.read_pos ≡ 0 → first ++ second ≡ take (n + m) (unread b))
        × (0 < b.read_pos → 0 < m → Distinct b.read_buf → first ++ second ≢ take (n + m) (unread b))
  read_some_twice b c n m l =
      let mid : Buffer = record b { read_pos = n } in
      (
        take n (unread b),
        take m (drop n b.read_buf),
        mid,
        record b { read_pos = m },
        read_some_rewinds stream b c n (omega arith),
        read_some_rewinds stream mid c m (omega arith),
        in_order_at_start b n m,
        λ p q d. out_of_order b n m p q (omega arith) d,
      )
