-- ===== src/Socket/Write/Flush.antt =====
-- The bytes written to a socket reach asio in their order, each once, through the two buffers.
use mathlib.Core.List.{append_assoc, append-nil}
use boost_cmt.Base.{
  ℕ, ◌+◌, ◌-◌, ◌≡◌, ◌≤◌, refl, sym, ap, subst, ◌∙◌, inl, inr, List, [], ◌∷◌, ◌++◌, some, Bool, true,
  false, not, take, drop, ltb, arith, Bool-cases, take-append-drop, drop-drop, drop-eq-nil,
}
use boost_cmt.Error.{ok}
use boost_cmt.Socket.Write.{
  Loop, finished, posted, sending, failed, abandoned, crashed, Writer, store, write, next_pass,
  end_pass, swap_buffers, sent, requested, flush, Reach, opens, writes, refuses, starts, sends,
  fails, flushes,
}
use boost_cmt.Socket.Write.Track.{
  Tracks, Good, at, write_unless-Good, refused-Good, start-Good, fails-Good, left-Good,
}

-- Bytes that go out move from the front of what is left to the end of what is sent.
moved :
    {all : List ℕ} (a bytes y : List ℕ) (total wrote : ℕ)
    → all ≡ a ++ (drop total bytes ++ y)
    → all ≡ (a ++ take wrote (drop total bytes)) ++ (drop (total + wrote) bytes ++ y)
moved a bytes y total wrote e =
    e
    ∙ ap (λ l. a ++ (l ++ y)) (sym (take-append-drop wrote (drop total bytes)))
    ∙ regroup a (take wrote (drop total bytes)) (drop wrote (drop total bytes)) y
    ∙ ap (λ l. (a ++ take wrote (drop total bytes)) ++ (l ++ y)) (drop-drop total wrote bytes)
  where
    regroup : (w x y z : List ℕ) → w ++ ((x ++ y) ++ z) ≡ (w ++ x) ++ (y ++ z)
    regroup w x y z = simp append_assoc

next_pass-Good :
    (i : Bool) (bytes all : List ℕ) (w : Writer)
    → bytes ≡ w.write_buf (not i)
    → w.cur_wbuf_idx ≡ not i
    → w.write_buf i ≡ []
    → all ≡ w.wire ++ bytes
    → Good all (next_pass i bytes w)
unfolding next_pass
next_pass-Good false [] all w b k z e = (refl, z, sym b, e ∙ append-nil w.wire)
next_pass-Good true [] all w b k z e = (refl, sym b, z, e ∙ append-nil w.wire)
next_pass-Good false (x ∷ bytes) all w b k z e = (
  ap (λ j. some (not j)) k,
  ap not k,
  refl,
  omega arith,
  e
      ∙ ap (λ l. w.wire ++ l)
          (b ∙ sym (append-nil (w.write_buf true)) ∙ ap (λ l. w.write_buf true ++ l) (sym z)),
)
next_pass-Good true (x ∷ bytes) all w b k z e = (
  ap (λ j. some (not j)) k,
  ap not k,
  refl,
  omega arith,
  e
      ∙ ap (λ l. w.wire ++ l)
          (b ∙ sym (append-nil (w.write_buf false)) ∙ ap (λ l. w.write_buf false ++ l) (sym z)),
)

swap-Good :
    (i : Bool) (all : List ℕ) (w : Writer)
    → w.cur_write_buf ≡ some (not i)
    → w.cur_wbuf_idx ≡ not i
    → all ≡ w.wire ++ w.write_buf (not i)
    → Good all (swap_buffers i w)
unfolding swap_buffers end_pass
swap-Good false all w c k e =
    let cleared = record w { write_buf = store w.write_buf false [] } in
    subst (λ j. Good all (end_pass j false cleared)) (sym c)
      (next_pass-Good false (w.write_buf true) all cleared refl k refl e)
swap-Good true all w c k e =
    let cleared = record w { write_buf = store w.write_buf true [] } in
    subst (λ j. Good all (end_pass j true cleared)) (sym c)
      (next_pass-Good true (w.write_buf false) all cleared refl k refl e)

sending-Good :
    (i : Bool) (total size wrote : ℕ) (all : List ℕ) (w : Writer)
    → Tracks (sending i total size) all w
    → wrote ≤ size - total
    → Good all (sent (sending i total size) (at (sending i total size) w) wrote)
unfolding sent
sending-Good i total size wrote all w (c, k, l, b, e) fits =
    let next = moved w.wire (w.write_buf i) (w.write_buf (not i)) total wrote e in
    let out = w.wire ++ take wrote (drop total (w.write_buf i)) in
    elim (Bool-cases (ltb (total + wrote) size)) [
      | inl more ↦ rw (more, sent) (c, k, l, ground arith, next)
      | inr done ↦
          let gone = drop-eq-nil (total + wrote) (w.write_buf i) (ground arith) in
          rw (done, sent)
            (swap-Good i all (record w { wire = out; loop = sending i total size }) c k
              (next ∙ ap (λ x. out ++ (x ++ w.write_buf (not i))) gone))
    ]

sent-Good :
    (l : Loop) (wrote : ℕ) (all : List ℕ) (w : Writer)
    → Tracks l all w
    → wrote ≤ requested l
    → Good all (sent l (at l w) wrote)
unfolding sent
sent-Good finished n all w t b = t
sent-Good (posted i) n all w t b = t
sent-Good (sending i m s) n all w t b = sending-Good i m s n all w t b
sent-Good (failed e) n all w t b = t
sent-Good abandoned n all w t b = t
sent-Good crashed n all w t b = t

-- At every moment the bytes written to a socket are those that asio has sent, followed by the rest
-- of the buffer that is being sent, followed by the other buffer, unless a write of asio has
-- failed, after which they only begin with those sent; `cur_write_buf` is then never null where
-- `write_loop` takes its size, and null when the loop is over.
pub Reach-Good : {all : List ℕ} {w : Writer} → Reach all w → Good all w
unfolding write
Reach-Good opens = (refl, refl, refl, refl)
Reach-Good (writes {all} {w} bytes n r h) = write_unless-Good w.loop all bytes w n (Reach-Good r) h
Reach-Good (refuses {all} {w} bytes e r h) = refused-Good w.loop all bytes w e (Reach-Good r) h
Reach-Good (starts {all} {w} r) = start-Good w.loop all w (Reach-Good r)
Reach-Good (sends {all} {w} n r b) = sent-Good w.loop n all w (Reach-Good r) b
Reach-Good (fails {all} {w} e r) = fails-Good w.loop all w e (Reach-Good r)
Reach-Good (flushes {all} {w} r) = left-Good w.loop all w (Reach-Good r)

flush_sent :
    (l : Loop) (all : List ℕ) (w : Writer)
    → Tracks l all w
    → flush l ≡ some (ok true)
    → w.wire ≡ all
unfolding flush
flush_sent finished all w (c, z, o, e) h = sym e
flush_sent (posted i) all w t h = absurd (ground arith)
flush_sent (sending i m s) all w t h = absurd (ground arith)
flush_sent (failed e) all w t h = absurd (ground arith)
flush_sent abandoned all w t h = absurd (ground arith)
flush_sent crashed all w t h = absurd t

-- When `flush` returns without a throw, asio has sent exactly the bytes written, in order.
pub flush_sends_all :
    {all : List ℕ} {w : Writer} → Reach all w → flush w.loop ≡ some (ok true) → w.wire ≡ all
flush_sends_all {all} {w} r h = flush_sent w.loop all w (Reach-Good r) h
