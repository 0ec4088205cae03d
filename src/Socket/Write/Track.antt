-- ===== src/Socket/Write/Track.antt =====
-- What holds of a socket's writes between two writes of asio, and how `write` keeps it.
use mathlib.Core.List.{append_assoc, append-nil}
use boost_cmt.Base.{
  ℕ, ◌≡◌, ◌≤◌, refl, sym, ap, subst, ◌∙◌, List, [], ◌∷◌, ◌++◌, none, some, Bool, true, false, not,
  drop, length, arith,
}
use boost_cmt.Error.{Exception, ok, throws}
use boost_cmt.Socket.Write.{
  Loop, finished, posted, sending, failed, abandoned, crashed, Writer, fill, write_sized,
  write_unless, start_loop, write_fails, flush_leave,
}

-- What holds of a socket while its loop is at the given place, at all bytes written to it.
abbrev pub Tracks : Loop → List ℕ → Writer → Type 0
Tracks finished all w =
    (w.cur_write_buf ≡ none) × (w.write_buf false ≡ []) × (w.write_buf true ≡ []) × (all ≡ w.wire)
Tracks (posted i) all w =
    (w.cur_write_buf ≡ some (not i))
    × (w.cur_wbuf_idx ≡ not i)
    × (all ≡ w.wire ++ (w.write_buf i ++ w.write_buf (not i)))
Tracks (sending i total size) all w =
    (w.cur_write_buf ≡ some (not i))
    × (w.cur_wbuf_idx ≡ not i)
    × (size ≡ length (w.write_buf i))
    × (total ≤ size)
    × (all ≡ w.wire ++ (drop total (w.write_buf i) ++ w.write_buf (not i)))
Tracks (failed e) all w =
    (j : Bool) × (rest : List ℕ) × (w.cur_write_buf ≡ some j) × (all ≡ w.wire ++ rest)
Tracks abandoned all w =
    (j : Bool) × (rest : List ℕ) × (w.cur_write_buf ≡ some j) × (all ≡ w.wire ++ rest)
Tracks crashed all w = ⊥

append_last : (a x y z : List ℕ) → (a ++ (x ++ y)) ++ z ≡ a ++ (x ++ (y ++ z))
append_last a x y z = simp append_assoc

-- The bytes added to the buffer that is being filled come after all others.
behind : {all : List ℕ} (a x y z : List ℕ) → all ≡ a ++ (x ++ y) → all ++ z ≡ a ++ (x ++ (y ++ z))
behind a x y z e = ap (λ l. l ++ z) e ∙ append_last a x y z

fill_finished :
    (all bytes : List ℕ) (w : Writer)
    → Tracks finished all w
    → Tracks (posted false) (all ++ bytes) (fill none w bytes)
unfolding fill
fill_finished all bytes w (c, z, o, e) = (
  refl,
  refl,
  ap (λ l. l ++ bytes) e
      ∙ sym (
          ap (λ l. w.wire ++ l)
            (ap (λ l. (l ++ bytes) ++ w.write_buf true) z
              ∙ ap (λ l. bytes ++ l) o
              ∙ append-nil bytes)),
)

fill_posted :
    (i : Bool) (all bytes : List ℕ) (w : Writer)
    → Tracks (posted i) all w
    → Tracks (posted i) (all ++ bytes) (fill (some (not i)) w bytes)
unfolding fill
fill_posted false all bytes w (c, k, e) =
    (c, k, behind w.wire (w.write_buf false) (w.write_buf true) bytes e)
fill_posted true all bytes w (c, k, e) =
    (c, k, behind w.wire (w.write_buf true) (w.write_buf false) bytes e)

fill_sending :
    (i : Bool) (total size : ℕ) (all bytes : List ℕ) (w : Writer)
    → Tracks (sending i total size) all w
    → Tracks (sending i total size) (all ++ bytes) (fill (some (not i)) w bytes)
unfolding fill
fill_sending false total size all bytes w (c, k, l, b, e) =
    (c, k, l, b, behind w.wire (drop total (w.write_buf false)) (w.write_buf true) bytes e)
fill_sending true total size all bytes w (c, k, l, b, e) =
    (c, k, l, b, behind w.wire (drop total (w.write_buf true)) (w.write_buf false) bytes e)

fill_abandoned :
    (j : Bool) (rest all bytes : List ℕ) (w : Writer)
    → w.cur_write_buf ≡ some j
    → all ≡ w.wire ++ rest
    → Tracks abandoned (all ++ bytes) (fill (some j) w bytes)
unfolding fill
fill_abandoned j rest all bytes w c e =
    (j, rest ++ bytes, c, ap (λ l. l ++ bytes) e ∙ append_assoc w.wire rest bytes)

abbrev pub Good : List ℕ → Writer → Type 0
Good all w = Tracks w.loop all w

abbrev pub at : Loop → Writer → Writer
at l w = record w { loop = l }

at-Tracks : (l : Loop) (all : List ℕ) (w : Writer) → Tracks l all w → Good all (at l w)
at-Tracks finished all w t = t
at-Tracks (posted i) all w t = t
at-Tracks (sending i m s) all w t = t
at-Tracks (failed e) all w t = t
at-Tracks abandoned all w t = t
at-Tracks crashed all w t = t

fill-Good :
    (l : Loop) (all bytes : List ℕ) (w : Writer)
    → Tracks l all w
    → ((e : Exception) → ¬ (l ≡ failed e))
    → Good (all ++ bytes) (fill w.cur_write_buf (at l w) bytes)
unfolding fill
fill-Good finished all bytes w t k =
    subst (λ c. Good (all ++ bytes) (fill c (at finished w) bytes)) (sym t.0)
      (fill_finished all bytes (at finished w) t)
fill-Good (posted i) all bytes w t k =
    subst (λ c. Good (all ++ bytes) (fill c (at (posted i) w) bytes)) (sym t.0)
      (fill_posted i all bytes (at (posted i) w) t)
fill-Good (sending i n m) all bytes w t k =
    subst (λ c. Good (all ++ bytes) (fill c (at (sending i n m) w) bytes)) (sym t.0)
      (fill_sending i n m all bytes (at (sending i n m) w) t)
fill-Good (failed e) all bytes w t k = absurd (k e refl)
fill-Good abandoned all bytes w (j, rest, c, e) k =
    subst (λ d. Good (all ++ bytes) (fill d (at abandoned w) bytes)) (sym c)
      (fill_abandoned j rest all bytes (at abandoned w) c e)
fill-Good crashed all bytes w t k = absurd t

write_sized-Good :
    (l : Loop) (all bytes : List ℕ) (w : Writer)
    → Tracks l all w
    → ((e : Exception) → ¬ (l ≡ failed e))
    → Good (all ++ bytes) (write_sized (at l w) bytes).1
unfolding write_sized
write_sized-Good l all [] w t k =
    subst (λ x. Good x (at l w)) (sym (append-nil all)) (at-Tracks l all w t)
write_sized-Good l all (x ∷ bytes) w t k = fill-Good l all (x ∷ bytes) w t k

pub write_unless-Good :
    (l : Loop) (all bytes : List ℕ) (w : Writer) (n : ℕ)
    → Tracks l all w
    → (write_unless l (at l w) bytes).0 ≡ ok n
    → Good (all ++ bytes) (write_unless l (at l w) bytes).1
unfolding write_unless
write_unless-Good finished all bytes w n t h =
    write_sized-Good finished all bytes w t (λ e k. absurd (ground arith))
write_unless-Good (posted i) all bytes w n t h =
    write_sized-Good (posted i) all bytes w t (λ e k. absurd (ground arith))
write_unless-Good (sending i m s) all bytes w n t h =
    write_sized-Good (sending i m s) all bytes w t (λ e k. absurd (ground arith))
write_unless-Good (failed e) all bytes w n t h = absurd (ground arith)
write_unless-Good abandoned all bytes w n t h =
    write_sized-Good abandoned all bytes w t (λ e k. absurd (ground arith))
write_unless-Good crashed all bytes w n t h = absurd t

write_sized_ok :
    (w : Writer) (bytes : List ℕ) (e : Exception) → ¬ ((write_sized w bytes).0 ≡ throws e)
unfolding write_sized
write_sized_ok w [] e h = absurd (ground arith)
write_sized_ok w (x ∷ bytes) e h = absurd (ground arith)

pub refused-Good :
    (l : Loop) (all bytes : List ℕ) (w : Writer) (e : Exception)
    → Tracks l all w
    → (write_unless l (at l w) bytes).0 ≡ throws e
    → Good all (write_unless l (at l w) bytes).1
unfolding write_unless
refused-Good finished all bytes w e t h = absurd (write_sized_ok (at finished w) bytes e h)
refused-Good (posted i) all bytes w e t h = absurd (write_sized_ok (at (posted i) w) bytes e h)
refused-Good (sending i m s) all bytes w e t h =
    absurd (write_sized_ok (at (sending i m s) w) bytes e h)
refused-Good (failed d) all bytes w e t h = t
refused-Good abandoned all bytes w e t h = absurd (write_sized_ok (at abandoned w) bytes e h)
refused-Good crashed all bytes w e t h = absurd t

pub start-Good :
    (l : Loop) (all : List ℕ) (w : Writer) → Tracks l all w → Good all (start_loop l (at l w))
unfolding start_loop
start-Good finished all w t = t
start-Good (posted i) all w (c, k, e) = (c, k, refl, omega arith, e)
start-Good (sending i m s) all w t = t
start-Good (failed e) all w t = t
start-Good abandoned all w t = t
start-Good crashed all w t = t

pub fails-Good :
    (l : Loop) (all : List ℕ) (w : Writer) (e : Exception)
    → Tracks l all w
    → Good all (write_fails l (at l w) e)
unfolding write_fails
fails-Good finished all w e t = t
fails-Good (posted i) all w e t = t
fails-Good (sending i m s) all w e (c, k, l, b, h) =
    (not i, drop m (w.write_buf i) ++ w.write_buf (not i), c, h)
fails-Good (failed d) all w e t = t
fails-Good abandoned all w e t = t
fails-Good crashed all w e t = t

pub left-Good :
    (l : Loop) (all : List ℕ) (w : Writer) → Tracks l all w → Good all (flush_leave l (at l w)).1
unfolding flush_leave
left-Good finished all w t = t
left-Good (posted i) all w t = t
left-Good (sending i m s) all w t = t
left-Good (failed e) all w t = t
left-Good abandoned all w t = t
left-Good crashed all w t = t
