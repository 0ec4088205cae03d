-- ===== src/Socket/Write/Stranded.antt =====
-- A socket after a write of asio failed while a context was blocked in `flush`.
use boost_cmt.Base.{ℕ, ◌≡◌, refl, sym, ap, subst, List, [], ◌∷◌, none, some, Bool, not, length}
use boost_cmt.Error.{Exception, Result, ok, throws}
use boost_cmt.Socket.Write.{
  Loop, sending, abandoned, Writer, write, write_unless, write_sized, fill, start_loop, sent,
  write_fails, flush, flush_leave, destroy_socket, Reach,
}
use boost_cmt.Socket.Write.Track.{Tracks, at}
use boost_cmt.Socket.Write.Flush.{Reach-Good}

-- What may happen to a socket.
pub data Event : Type 0 where
  writes_bytes : List ℕ → Event
  starts : Event
  sends : ℕ → Event
  fails : Exception → Event
  leaves : Event

unfoldable pub happen : Writer → Event → Writer
happen w (writes_bytes bytes) = (write w bytes).1
happen w starts = start_loop w.loop w
happen w (sends n) = sent w.loop w n
happen w (fails e) = write_fails w.loop w e
happen w leaves = (flush_leave w.loop w).1

unfoldable pub all_happen : Writer → List Event → Writer
all_happen w [] = w
all_happen w (v ∷ vs) = all_happen (happen w v) vs

-- The loop is gone, and the buffer `j` is filled that nobody sends.
abbrev stuck : Bool → Writer → Writer
stuck j w = record w { loop = abandoned; cur_write_buf = some j }

abbrev IsStranded : List ℕ → Writer → Type 0
IsStranded wire v = (j : Bool) × (w : Writer) × (v ≡ stuck j w) × (w.wire ≡ wire)

stuck_stays :
    (wire : List ℕ) (j : Bool) (w : Writer) (v : Event)
    → w.wire ≡ wire
    → IsStranded wire (happen (stuck j w) v)
unfolding happen write write_unless write_sized fill start_loop sent write_fails flush_leave
stuck_stays wire j w (writes_bytes []) e = (j, w, refl, e)
stuck_stays wire j w (writes_bytes (x ∷ bytes)) e =
    (j, fill (some j) (stuck j w) (x ∷ bytes), refl, e)
stuck_stays wire j w starts e = (j, w, refl, e)
stuck_stays wire j w (sends n) e = (j, w, refl, e)
stuck_stays wire j w (fails d) e = (j, w, refl, e)
stuck_stays wire j w leaves e = (j, w, refl, e)

happen-IsStranded :
    (wire : List ℕ) (w : Writer) (v : Event) → IsStranded wire w → IsStranded wire (happen w v)
happen-IsStranded wire w v (j, u, e, same) =
    subst (λ x. IsStranded wire (happen x v)) (sym e) (stuck_stays wire j u v same)

all_happen-IsStranded :
    (wire : List ℕ) (vs : List Event) (w : Writer)
    → IsStranded wire w
    → IsStranded wire (all_happen w vs)
unfolding all_happen
all_happen-IsStranded wire [] w s = s
all_happen-IsStranded wire (v ∷ vs) w s =
    all_happen-IsStranded wire vs (happen w v) (happen-IsStranded wire w v s)

-- What is left of the socket's promises: writes are accepted, nothing goes out, no flush returns.
abbrev pub Loses : List ℕ → Writer → Type 0
Loses wire v =
    ((bytes : List ℕ) → (write v bytes).0 ≡ ok (length bytes))
    × (v.wire ≡ wire)
    × (flush v.loop ≡ none)
    × (destroy_socket v.loop ≡ none)

stuck-Loses : (wire : List ℕ) (j : Bool) (w : Writer) → w.wire ≡ wire → Loses wire (stuck j w)
unfolding write write_unless write_sized flush destroy_socket
stuck-Loses wire j w e = (accepts, e, refl, refl)
  where
    accepts : (bytes : List ℕ) → (write (stuck j w) bytes).0 ≡ ok (length bytes)
    accepts [] = refl
    accepts (x ∷ bytes) = refl

IsStranded-Loses : (wire : List ℕ) (v : Writer) → IsStranded wire v → Loses wire v
IsStranded-Loses wire v (j, w, e, same) = subst (Loses wire) (sym e) (stuck-Loses wire j w same)

-- The write of asio throws, and the `flush` that was blocked goes on.
abbrev pub throw_into_flush : Writer → Exception → Result Bool × Writer
throw_into_flush w e = flush_leave (write_fails w.loop w e).loop (write_fails w.loop w e)

abbrev Thrown : Loop → Writer → Exception → Type 0
Thrown l w e =
    (flush l ≡ none)
    × ((throw_into_flush (at l w) e).0 ≡ throws e)
    × IsStranded w.wire (throw_into_flush (at l w) e).1

sending-Thrown :
    (i : Bool) (total size : ℕ) (w : Writer) (e : Exception)
    → w.cur_write_buf ≡ some (not i)
    → Thrown (sending i total size) w e
unfolding flush flush_leave write_fails
sending-Thrown i total size w e c =
    (refl, refl, (not i, w, ap (λ b. record w { loop = abandoned; cur_write_buf = b }) c, refl))

filled_buffer :
    (l : Loop) (all : List ℕ) (w : Writer) (i : Bool) (total size : ℕ)
    → l ≡ sending i total size
    → Tracks l all w
    → w.cur_write_buf ≡ some (not i)
filled_buffer l all w i total size h t = (subst (λ k. Tracks k all w) h t).0

-- A context is blocked in `flush` while a write of asio, which then throws `e`, is under way: the
-- `flush` throws `e`. After that, whatever happens to the socket, every write is accepted with its
-- full size although no byte goes out any more, and a `flush` that is called blocks, the one of the
-- destructor included: the exception was taken out of the future.
pub failed_flush_strands :
    {all : List ℕ} {w : Writer} (i : Bool) (total size : ℕ) (e : Exception)
    → Reach all w
    → w.loop ≡ sending i total size
    → (vs : List Event)
    → (flush w.loop ≡ none)
      × ((throw_into_flush w e).0 ≡ throws e)
      × Loses w.wire (all_happen (throw_into_flush w e).1 vs)
failed_flush_strands {all} {w} i total size e r h vs =
    let filled = filled_buffer w.loop all w i total size h (Reach-Good r) in
    let thrown : Thrown w.loop w e =
      subst (λ l. Thrown l w e) (sym h) (sending-Thrown i total size w e filled) in
    let after = (throw_into_flush w e).1 in
    (
      thrown.0,
      thrown.1,
      IsStranded-Loses w.wire (all_happen after vs)
          (all_happen-IsStranded w.wire vs after thrown.2),
    )
