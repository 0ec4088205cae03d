-- ===== src/Socket/Write.antt =====
-- detail::socket::write and write_loop, and socket::flush, of src/asio/tcp/socket.cpp: two buffers,
-- of which one is filled while asio sends the other. Contexts switch only in a write of asio, so
-- one step is what the code does between two of these.
pub mod Track
pub mod Flush
pub mod Finish
pub mod Unsent
pub mod Progress
pub mod Stranded
use boost_cmt.Base.{
  ℕ, zero, suc, ◌+◌, ◌-◌, ◌≡◌, ◌≤◌, List, [], ◌∷◌, ◌++◌, Option, none, some, Bool, true, false, not,
  take, drop, length, if◌then◌else◌, ltb,
}
use boost_cmt.Error.{Exception, future_value_not_ready, Result, ok, throws}

-- Where the task of `write_loop` is, and so what `write_complete` holds.
pub data Loop : Type 0 where
  -- No task, or its last one returned: the future is null, or its value is set.
  finished : Loop
  -- Posted and not started: the index of the buffer that it will send.
  posted : Bool → Loop
  -- In a write of asio: the index of the buffer, `total_wrote` and `size`.
  sending : Bool → ℕ → ℕ → Loop
  -- A write of asio threw, and the future holds the exception.
  failed : Exception → Loop
  -- A write of asio threw, and a `flush` that was blocked took the exception out of the future.
  abandoned : Loop
  -- `cur_write_buf->size()` at a null `cur_write_buf`.
  crashed : Loop

-- The indices 0 and 1 of `write_buf` are `false` and `true`. `wire` is what asio has sent.
pub record Writer : Type 0 where
  pub write_buf : Bool → List ℕ
  pub cur_write_buf : Option Bool
  pub cur_wbuf_idx : Bool
  pub loop : Loop
  pub wire : List ℕ

abbrev pub no_bytes : Bool → List ℕ
no_bytes i = []

abbrev pub new_writer : Writer
new_writer = record {
  write_buf = no_bytes;
  cur_write_buf = none;
  cur_wbuf_idx = false;
  loop = finished;
  wire = [];
}

abbrev pub store : (Bool → List ℕ) → Bool → List ℕ → Bool → List ℕ
store f false bytes false = bytes
store f false bytes true = f true
store f true bytes false = f false
store f true bytes true = bytes

-- The part of `write` from the test of `cur_write_buf` on.
unfoldable pub fill : Option Bool → Writer → List ℕ → Writer
fill none w bytes = record w {
  write_buf = store w.write_buf false (w.write_buf false ++ bytes);
  cur_write_buf = some true;
  cur_wbuf_idx = true;
  loop = posted false;
}
fill (some i) w bytes = record w { write_buf = store w.write_buf i (w.write_buf i ++ bytes) }

unfoldable pub write_sized : Writer → List ℕ → Result ℕ × Writer
unfolding fill
write_sized w [] = (ok 0, w)
write_sized w (x ∷ bytes) = (ok (length (x ∷ bytes)), fill w.cur_write_buf w (x ∷ bytes))

unfoldable pub write_unless : Loop → Writer → List ℕ → Result ℕ × Writer
write_unless (failed e) w bytes = (throws e, w)
write_unless finished w bytes = write_sized w bytes
write_unless (posted i) w bytes = write_sized w bytes
write_unless (sending i total size) w bytes = write_sized w bytes
write_unless abandoned w bytes = write_sized w bytes
write_unless crashed w bytes = write_sized w bytes

unfoldable pub write : Writer → List ℕ → Result ℕ × Writer
write w bytes = write_unless w.loop w bytes

-- The posted task starts: the first pass of the outer loop up to the write of asio.
unfoldable pub start_loop : Loop → Writer → Writer
start_loop (posted i) w = record w { loop = sending i 0 (length (w.write_buf i)) }
start_loop finished w = w
start_loop (sending i total size) w = w
start_loop (failed e) w = w
start_loop abandoned w = w
start_loop crashed w = w

-- The end of a pass, at the bytes of `*cur_write_buf`, and the start of the next one.
unfoldable pub next_pass : Bool → List ℕ → Writer → Writer
next_pass i [] w = record w { cur_write_buf = none; cur_wbuf_idx = false; loop = finished }
next_pass i (x ∷ bytes) w = record w {
  cur_write_buf = some (not w.cur_wbuf_idx);
  cur_wbuf_idx = not w.cur_wbuf_idx;
  loop = sending (not i) 0 (length (w.write_buf (not i)));
}

unfoldable pub end_pass : Option Bool → Bool → Writer → Writer
end_pass none i w = record w { loop = crashed }
end_pass (some j) i w = next_pass i (w.write_buf j) w

unfoldable pub swap_buffers : Bool → Writer → Writer
swap_buffers i w = end_pass w.cur_write_buf i (record w { write_buf = store w.write_buf i [] })

-- The write of asio returns `wrote`: the loops go on up to the next one, or end.
unfoldable pub sent : Loop → Writer → ℕ → Writer
sent (sending i total size) w wrote =
    let told = record w { wire = w.wire ++ take wrote (drop total (w.write_buf i)) } in
    if ltb (total + wrote) size
    then record told { loop = sending i (total + wrote) size }
    else swap_buffers i told
sent finished w wrote = w
sent (posted i) w wrote = w
sent (failed e) w wrote = w
sent abandoned w wrote = w
sent crashed w wrote = w

-- The write of asio throws, out of the loop into the future.
unfoldable pub write_fails : Loop → Writer → Exception → Writer
write_fails (sending i total size) w e = record w { loop = failed e }
write_fails finished w e = w
write_fails (posted i) w e = w
write_fails (failed d) w e = w
write_fails abandoned w e = w
write_fails crashed w e = w

-- How many bytes the write of asio has been given.
abbrev pub requested : Loop → ℕ
requested (sending i total size) = size - total
requested finished = 0
requested (posted i) = 0
requested (failed e) = 0
requested abandoned = 0
requested crashed = 0

-- socket::flush: none if the caller blocks.
unfoldable pub flush : Loop → Option (Result Bool)
flush finished = some (ok true)
flush (failed e) = some (throws e)
flush (posted i) = none
flush (sending i total size) = none
flush abandoned = none
flush crashed = none

-- The rest of a `flush` that was blocked, when `write_complete` wakes it.
unfoldable pub flush_leave : Loop → Writer → Result Bool × Writer
flush_leave finished w = (ok true, w)
flush_leave (failed e) w = (throws e, record w { loop = abandoned })
flush_leave (posted i) w = (throws future_value_not_ready, w)
flush_leave (sending i total size) w = (throws future_value_not_ready, w)
flush_leave abandoned w = (throws future_value_not_ready, w)
flush_leave crashed w = (throws future_value_not_ready, w)

-- socket::~socket: none while it is blocked; it catches what `flush` throws.
unfoldable pub destroy_socket : Loop → Option Bool
unfolding flush
destroy_socket l = elim (flush l) [ none ↦ none | some r ↦ some true ]

-- The writes of the socket's users, whose bytes add up to the index, what asio does meanwhile, and
-- the returns of calls of `flush` that were blocked.
pub data Reach : List ℕ → Writer → Type 0 where
  opens : Reach [] new_writer
  writes :
      {all : List ℕ} {w : Writer} (bytes : List ℕ) (n : ℕ)
      → Reach all w
      → (write w bytes).0 ≡ ok n
      → Reach (all ++ bytes) (write w bytes).1
  refuses :
      {all : List ℕ} {w : Writer} (bytes : List ℕ) (e : Exception)
      → Reach all w
      → (write w bytes).0 ≡ throws e
      → Reach all (write w bytes).1
  starts : {all : List ℕ} {w : Writer} → Reach all w → Reach all (start_loop w.loop w)
  sends :
      {all : List ℕ} {w : Writer} (wrote : ℕ)
      → Reach all w
      → wrote ≤ requested w.loop
      → Reach all (sent w.loop w wrote)
  fails :
      {all : List ℕ} {w : Writer} (e : Exception) → Reach all w → Reach all (write_fails w.loop w e)
  flushes : {all : List ℕ} {w : Writer} → Reach all w → Reach all (flush_leave w.loop w).1
