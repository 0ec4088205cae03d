-- ===== src/Thread/Places/Jump.antt =====
-- Where the contexts are after a jump.
use boost_cmt.Base.{
  ℕ, ◌+◌, ◌≡◌, ◌≤◌, ◌<◌, refl, sym, ap, subst, ◌∙◌, List, [], ◌∷◌, Option, none, some, Bool, true,
  false, arith,
}
use boost_cmt.Base.Links.{Absent, Chain, Chain-put}
use boost_cmt.Thread.State.{World}
use boost_cmt.Thread.Ready.{
  Ready, ready_pop_front, ready_push_back, ready_pop_front-Ready, ready_push_back-Ready,
}
use boost_cmt.Thread.Notify.Unlink.{Blocked}
use boost_cmt.Thread.Switch.{new_context, requeue, jump_from}
use boost_cmt.Thread.Places.{occurs, places, Plain, Placed}
use boost_cmt.Thread.Places.Count.{
  occurs-Absent, occurs-append, occurs-itself, requeued, left, occurs-requeued,
}

module _ {A : Type 0} where
  world_of : World A → Option (World A) → World A
  world_of w none = w
  world_of w (some v) = v

  pub same_world : (u v : World A) → some u ≡ some v → v ≡ u
  unfolding world_of
  same_world u v e = ap (world_of u) (sym e)

  -- What a change of the ready queue and of the running context leaves as it was.
  pub record SameRest (w v : World A) : Type 0 where
    pub next_blocked_kept : v.next_blocked ≡ w.next_blocked
    pub blocked_kept : v.blocked ≡ w.blocked
    pub sleepers_kept : v.sleep_pqueue ≡ w.sleep_pqueue
    pub prom_kept : v.prom ≡ w.prom
    pub fresh_kept : v.fresh ≡ w.fresh
    pub current_kept : v.current ≡ w.current

  requeue-SameRest : (w : World A) (c : ℕ) (r : Bool) → SameRest w (requeue w c r)
  unfolding requeue ready_push_back
  requeue-SameRest w c r = ground arith

  pop-SameRest : (w : World A) → SameRest w (ready_pop_front w).0
  unfolding ready_pop_front
  pop-SameRest w = ground arith

  pub Blocked-kept : (w v : World A) (bs : List ℕ) → SameRest w v → Blocked w bs → Blocked v bs
  Blocked-kept w v bs s b = record {
    chain =
        subst (λ f. Chain f v.blocked bs) (sym s.next_blocked_kept)
          (subst (λ p. Chain w.next_blocked p bs) (sym s.blocked_kept) b.chain);
    distinct = b.distinct;
  }

  pub push-SameRest : (w : World A) (c : ℕ) → SameRest w (ready_push_back w c)
  unfolding ready_push_back
  push-SameRest w c = ground arith

  pub Plain-kept :
      (w v : World A) → v.prom ≡ w.prom → v.sleep_pqueue ≡ w.sleep_pqueue → Plain w → Plain v
  Plain-kept w v e h p o s = ap (λ f. f o) e ∙ p o (subst (λ l. 0 < occurs o l) h s)

  -- The running context `c` is about to give way; it may be asleep or blocked already.
  pub record Leaving (w : World A) (c : ℕ) (r : Bool) (rs bs : List ℕ) : Type 0 where
    pub waiting : Ready w rs
    pub stuck : Blocked w bs
    pub plain : Plain w
    pub apart : (o : ℕ) → left o r c rs bs w.sleep_pqueue ≤ 1
    pub older : (o : ℕ) → w.fresh ≤ o → left o r c rs bs w.sleep_pqueue ≡ 0

  requeue-Ready :
      (w : World A) (c : ℕ) (r : Bool) (rs : List ℕ)
      → Ready w rs
      → occurs c (requeued r c rs) ≤ 1
      → Ready (requeue w c r) (requeued r c rs)
  unfolding requeue
  requeue-Ready w c true rs s l =
      let once = occurs-append c rs (c ∷ []) in
      let itself = occurs-itself c in
      ready_push_back-Ready w c rs s (occurs-Absent c rs (omega (arith, once, itself)))
  requeue-Ready w c false rs s l = s

  pub jump_some-Placed :
      (w : World A) (c x : ℕ) (r : Bool) (xs bs : List ℕ)
      → Leaving w c r (x ∷ xs) bs
      → let v = (jump_from w c r (some x)).0 in
        Placed v x (requeued r c xs) bs
        × ((o : ℕ)
            → places o x (requeued r c xs) bs v.sleep_pqueue
              ≡ left o r c (x ∷ xs) bs w.sleep_pqueue)
  unfolding jump_from
  jump_some-Placed w c x r xs bs l =
      let popped = ready_pop_front-Ready w x xs l.waiting in
      let u = (ready_pop_front w).0 in
      let v = requeue u c r in
      let s = pop-SameRest w in
      let t = requeue-SameRest u c r in
      let asleep : v.sleep_pqueue ≡ w.sleep_pqueue = t.sleepers_kept ∙ s.sleepers_kept in
      let all : (o : ℕ)
          → places o x (requeued r c xs) bs v.sleep_pqueue ≡ left o r c (x ∷ xs) bs w.sleep_pqueue =
        λ o.
          omega (
            arith,
            occurs-requeued o r c xs,
            occurs-requeued o r c (x ∷ xs),
            ap (occurs o) asleep,
          ) in
      let back = requeue-Ready u c r xs popped.1 (omega (arith, all c, l.apart c)) in
      let blocked = Blocked-kept u v bs t (Blocked-kept w u bs s l.stuck) in
      (
        record {
          running = refl;
          waiting = record { chain = back.chain; tail = back.tail; distinct = back.distinct };
          stuck = record { chain = blocked.chain; distinct = blocked.distinct };
          plain = Plain-kept w v (t.prom_kept ∙ s.prom_kept) asleep l.plain;
          apart = λ o. omega (arith, all o, l.apart o);
          older =
              λ o h. omega (arith, all o, l.older o (omega (arith, t.fresh_kept, s.fresh_kept)));
        },
        all,
      )

  pub jump_none-Placed :
      (w : World A) (c : ℕ) (r : Bool) (bs : List ℕ)
      → Leaving w c r [] bs
      → let v = (jump_from w c r none).0 in
        Placed v w.fresh (requeued r c []) bs
        × ((o : ℕ)
            → places o w.fresh (requeued r c []) bs v.sleep_pqueue
              ≡ occurs o (w.fresh ∷ []) + left o r c [] bs w.sleep_pqueue)
  unfolding jump_from new_context
  jump_none-Placed w c r bs l =
      let u = requeue w c r in
      let t = requeue-SameRest w c r in
      let rs = requeued r c [] in
      let unseen = l.older w.fresh (omega arith) in
      let none_ready : Absent u.fresh rs =
        rw t.fresh_kept (occurs-Absent w.fresh rs (omega (arith, unseen))) in
      let none_blocked : Absent u.fresh bs =
        rw t.fresh_kept (occurs-Absent w.fresh bs (omega (arith, unseen))) in
      let back = requeue-Ready w c r [] l.waiting (omega (arith, l.apart c)) in
      let blocked = Blocked-kept w u bs t l.stuck in
      let plain = Plain-kept w u t.prom_kept t.sleepers_kept l.plain in
      let all : (o : ℕ)
          → places o w.fresh rs bs u.sleep_pqueue
            ≡ occurs o (w.fresh ∷ []) + left o r c [] bs w.sleep_pqueue =
        λ o. omega (arith, ap (occurs o) t.sleepers_kept) in
      (
        record {
          running = ap some t.fresh_kept;
          waiting = record {
            chain = Chain-put u.next u.fresh none u.ready_head rs none_ready back.chain;
            tail = back.tail;
            distinct = back.distinct;
          };
          stuck = record {
            chain = Chain-put u.next_blocked u.fresh none u.blocked bs none_blocked blocked.chain;
            distinct = blocked.distinct;
          };
          plain = λ o h. ground (arith, plain o h);
          apart = λ o. ground (arith, all o, unseen, l.apart o);
          older = λ o h. ground (arith, all o, t.fresh_kept, l.older o);
        },
        all,
      )
