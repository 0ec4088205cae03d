-- ===== src/Thread/Places/Slept.antt =====
-- Where the contexts are after a sleep, and after the return of a jump.
use boost_cmt.Base.{
  ℕ, ◌+◌, ◌≡◌, refl, sym, ap, ◌∙◌, List, [], ◌∷◌, ◌++◌, Option, none, some, Bool, true, false,
  arith, if◌then◌else◌, inl,
}
use boost_cmt.Base.Links.{put}
use boost_cmt.StdHeap.{StdHeap}
use boost_cmt.Error.{thread_quit, throws}
use boost_cmt.Thread.State.{World}
use boost_cmt.Thread.Notify.{clear_blocking_promises, sleep_priority_less}
use boost_cmt.Thread.Switch.{
  sleep_until, gives_way, over, Progress, block_and_jump, push_sleeper, come_back, waited, slept,
}
use boost_cmt.Thread.Switch.Turns.{ensure_current-some}
use boost_cmt.Thread.Places.{occurs, Placed, Moved}
use boost_cmt.Thread.Places.Count.{occurs-append, occurs-perm}
use boost_cmt.Thread.Places.Jump.{Leaving}
use boost_cmt.Thread.Places.Turned.{jumps_on, start-Moved}

module _ {A : Type 0} (std : StdHeap) (fuel scan : ℕ) where
  not_over :
      (quits : Bool) (u v : World A) (d x : ℕ) (jump : Option (Progress A))
      → (if quits then some (over (throws thread_quit) u) else jump) ≡ some (gives_way d x v)
      → jump ≡ some (gives_way d x v)
  not_over true u v d x jump e = absurd (ground arith)
  not_over false u v d x jump e = e

  abbrev put_to_sleep : World A → ℕ → ℕ → World A
  put_to_sleep w c at = push_sleeper std (clear_blocking_promises w c) c at

  sleep_jumps :
      (w v : World A) (at now c d x : ℕ)
      → w.current ≡ some c
      → sleep_until std fuel scan w at now ≡ some (gives_way d x v)
      → block_and_jump std fuel scan (put_to_sleep w c at) c now ≡ some (gives_way d x v)
  unfolding sleep_until
  sleep_jumps w v at now c d x r h =
      not_over w.done w v d x _ (rw (ensure_current-some w c r, sleep_until) at h)

  slept_rest :
      (w : World A) (c at : ℕ)
      → let u = put_to_sleep w c at in
        (u.current ≡ w.current)
        × (u.fresh ≡ w.fresh)
        × (u.prom ≡ put w.prom c none)
        × ((o : ℕ) → occurs o u.sleep_pqueue ≡ occurs o w.sleep_pqueue + occurs o (c ∷ []))
  unfolding push_sleeper clear_blocking_promises
  slept_rest w c at =
      let less = sleep_priority_less (put w.resume_time c at) in
      (
        refl,
        refl,
        refl,
        λ o.
            occurs-perm o (std.push_heap-perm less (w.sleep_pqueue ++ (c ∷ [])))
            ∙ occurs-append o w.sleep_pqueue (c ∷ []),
      )

  leave_sleep :
      (w : World A) (c at : ℕ) (rs bs : List ℕ)
      → Placed w c rs bs
      → Leaving (put_to_sleep w c at) c false rs bs
  unfolding push_sleeper clear_blocking_promises
  leave_sleep w c at rs bs l =
      let rest = slept_rest w c at in
      record {
        waiting = record {
          chain = l.waiting.chain;
          tail = l.waiting.tail;
          distinct = l.waiting.distinct;
        };
        stuck = record { chain = l.stuck.chain; distinct = l.stuck.distinct };
        plain = λ o h. ap (λ f. f o) rest.2 ∙ ground (arith, l.plain o, rest.3 o);
        apart = λ o. omega (arith, l.apart o, rest.3 o);
        older = λ o h. omega (arith, rest.3 o, l.older o h);
      }

  pub sleep-Moved :
      (w v : World A) (at now d x c : ℕ) (rs bs : List ℕ)
      → Placed w c rs bs
      → sleep_until std fuel scan w at now ≡ some (gives_way d x v)
      → Moved w v c rs bs
  sleep-Moved w v at now d x c rs bs l e =
      let u = put_to_sleep w c at in
      let rest = slept_rest w c at in
      let (r, start, same) =
        jumps_on std fuel scan u v c d x now (sleep_jumps w v at now c d x l.running e) in
      start-Moved std fuel scan w u v now r.1 c false rs bs rs bs (leave_sleep w c at rs bs l)
        (λ o. omega (arith, rest.3 o)) (rest.0 ∙ l.running) rest.1
        (start ∙ ap (λ q. some (q, r.1)) same)

  -- The return of a jump changes no place: the context that runs waits for nothing more.
  pub waited-Moved :
      (w : World A) (c d : ℕ) (rs bs : List ℕ)
      → Placed w c rs bs
      → w.current ≡ some d
      → Moved w (waited std fuel scan (come_back w d).0 d).0 c rs bs
  unfolding waited come_back clear_blocking_promises
  waited-Moved w c d rs bs l e = record {
    runs = c;
    waiting = rs;
    blocked = bs;
    placed = record {
      running = sym e ∙ l.running;
      waiting = record {
        chain = l.waiting.chain;
        tail = l.waiting.tail;
        distinct = l.waiting.distinct;
      };
      stuck = record { chain = l.stuck.chain; distinct = l.stuck.distinct };
      plain = λ o h. ground (arith, l.plain o h);
      apart = l.apart;
      older = l.older;
    };
    kept = inl (λ o. refl);
  }

  pub slept-Moved :
      (w : World A) (c d : ℕ) (rs bs : List ℕ)
      → Placed w c rs bs
      → w.current ≡ some d
      → Moved w (slept std fuel scan (come_back w d).0 d).0 c rs bs
  unfolding slept come_back
  slept-Moved w c d rs bs l e = record {
    runs = c;
    waiting = rs;
    blocked = bs;
    placed = record {
      running = sym e ∙ l.running;
      waiting = record {
        chain = l.waiting.chain;
        tail = l.waiting.tail;
        distinct = l.waiting.distinct;
      };
      stuck = record { chain = l.stuck.chain; distinct = l.stuck.distinct };
      plain = l.plain;
      apart = l.apart;
      older = l.older;
    };
    kept = inl (λ o. refl);
  }
