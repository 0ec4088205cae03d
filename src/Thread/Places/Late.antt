-- ===== src/Thread/Places/Late.antt =====
-- Where the contexts are after check_for_timeouts.
use boost_cmt.Base.{
  ℕ, zero, suc, ◌+◌, ◌≡◌, refl, sym, ap, ◌∙◌, subst, List, [], ◌∷◌, ◌++◌, Option, none, some, Bool,
  arith, leb, ltb, ◌&&◌, Bool-cases, Option-cases, ◌⊎◌, inl, inr,
}
use mathlib.Core.List.{append_assoc, append-nil}
use boost_cmt.StdHeap.{StdHeap}
use boost_cmt.Thread.State.{World}
use boost_cmt.Thread.Ready.{ready_push_back, ready_push_back-Ready}
use boost_cmt.Thread.Notify.{sleep_priority_less}
use boost_cmt.Thread.Queue.Select.{pop_top-rest_heap}
use boost_cmt.Thread.Timeouts.{expire_front, expire_sleepers, check_for_timeouts, is_nil, next_time}
use boost_cmt.Thread.Timeouts.Expire.{popped, front_later, front_due}
use boost_cmt.Thread.Places.{occurs}
use boost_cmt.Thread.Places.Count.{
  occurs-Absent, occurs-append, occurs-itself, occurs-perm, left, occurs-requeued,
}
use boost_cmt.Thread.Places.Jump.{Leaving, push-SameRest, Blocked-kept, Plain-kept, same_world}

module _ {A : Type 0} where
  -- Contexts `moved` went from the sleep queue to the end of the ready queue.
  pub record Checked (w x : World A) (c : ℕ) (r : Bool) (rs bs : List ℕ) : Type 0 where
    pub moved : List ℕ
    pub leaving : Leaving x c r (rs ++ moved) bs
    pub same :
        (o : ℕ) → left o r c (rs ++ moved) bs x.sleep_pqueue ≡ left o r c rs bs w.sleep_pqueue
    pub current_kept : x.current ≡ w.current
    pub fresh_kept : x.fresh ≡ w.fresh

  abbrev state_of : Option (World A × ℕ) → Option (World A)
  state_of none = none
  state_of (some r) = some r.0

  unchanged :
      (w x : World A) (c : ℕ) (r : Bool) (rs bs : List ℕ)
      → Leaving w c r rs bs
      → some w ≡ some x
      → Checked w x c r rs bs
  unchanged w x c r rs bs l e =
      subst (λ u. Checked w u c r rs bs) (sym (same_world w x e))
        (record {
          moved = [];
          leaving = subst (λ q. Leaving w c r q bs) (sym (append-nil rs)) l;
          same = λ o. ap (λ q. left o r c q bs w.sleep_pqueue) (append-nil rs);
          current_kept = refl;
          fresh_kept = refl;
        })

  module _ (std : StdHeap) where
    -- A context whose time has come goes from the sleep queue to the ready queue.
    wakes_up :
        (w : World A) (c d : ℕ) (r : Bool) (rs bs v : List ℕ)
        → w.sleep_pqueue ≡ d ∷ v
        → Leaving w c r rs bs
        → let x = ready_push_back (popped std w d v) d in
          Leaving x c r (rs ++ d ∷ []) bs
          × ((o : ℕ)
              → left o r c (rs ++ d ∷ []) bs x.sleep_pqueue ≡ left o r c rs bs w.sleep_pqueue)
    wakes_up w c d r rs bs v e l =
        let u = popped std w d v in
        let x = ready_push_back u d in
        let less = sleep_priority_less w.resume_time in
        let s = push-SameRest u d in
        let asleep : (o : ℕ)
            → occurs o w.sleep_pqueue ≡ occurs o (d ∷ []) + occurs o u.sleep_pqueue =
          λ o. omega (
            arith,
            ap (occurs o) e,
            ap (occurs o) (pop_top-rest_heap std less d v),
            occurs-perm o (std.rest_heap-perm less d v),
          ) in
        let all : (o : ℕ)
            → left o r c (rs ++ d ∷ []) bs x.sleep_pqueue ≡ left o r c rs bs w.sleep_pqueue =
          λ o. omega (
            arith,
            occurs-requeued o r c (rs ++ d ∷ []),
            occurs-requeued o r c rs,
            occurs-append o rs (d ∷ []),
            ap (occurs o) s.sleepers_kept,
            asleep o,
          ) in
        let not_ready : occurs d rs ≡ 0 =
          omega (arith, l.apart d, asleep d, occurs-itself d, occurs-requeued d r c rs) in
        (
          record {
            waiting =
                ready_push_back-Ready u d rs
                  (record {
                    chain = l.waiting.chain;
                    tail = l.waiting.tail;
                    distinct = l.waiting.distinct;
                  })
                  (occurs-Absent d rs not_ready);
            stuck =
                Blocked-kept u x bs s
                  (record { chain = l.stuck.chain; distinct = l.stuck.distinct });
            plain =
                Plain-kept u x s.prom_kept s.sleepers_kept
                  (λ o h. l.plain o (omega (arith, asleep o)));
            apart = λ o. omega (arith, all o, l.apart o);
            older = λ o h. omega (arith, all o, l.older o (omega (arith, s.fresh_kept)));
          },
          all,
        )

    after_one :
        (w u x : World A) (c d : ℕ) (r : Bool) (rs bs : List ℕ)
        → ((o : ℕ) → left o r c (rs ++ d ∷ []) bs u.sleep_pqueue ≡ left o r c rs bs w.sleep_pqueue)
        → u.current ≡ w.current
        → u.fresh ≡ w.fresh
        → Checked u x c r (rs ++ d ∷ []) bs
        → Checked w x c r rs bs
    after_one w u x c d r rs bs all k f m =
        let line = append_assoc rs (d ∷ []) m.moved in
        record {
          moved = d ∷ m.moved;
          leaving = subst (λ q. Leaving x c r q bs) line m.leaving;
          same = λ o. ap (λ q. left o r c q bs x.sleep_pqueue) (sym line) ∙ m.same o ∙ all o;
          current_kept = m.current_kept ∙ k;
          fresh_kept = m.fresh_kept ∙ f;
        }

    module _ (scan : ℕ) where
      expire_front-Checked :
          (again : World A → Option (World A)) (w x : World A) (now c : ℕ) (r : Bool)
          (rs bs v : List ℕ)
          → ((u : World A) (qs : List ℕ)
              → Leaving u c r qs bs
              → again u ≡ some x
              → Checked u x c r qs bs)
          → w.sleep_pqueue ≡ v
          → Leaving w c r rs bs
          → expire_front std again scan w now v ≡ some x
          → Checked w x c r rs bs
      unfolding expire_front
      expire_front-Checked again w x now c r rs bs [] ih e l h = unchanged w x c r rs bs l h
      expire_front-Checked again w x now c r rs bs (d ∷ v) ih e l h =
          elim (Bool-cases (leb (w.resume_time d) now)) [
            | inr later ↦
                unchanged w x c r rs bs l (sym (front_later std again scan w now d v later) ∙ h)
            | inl due ↦
                let plain = l.plain d (omega (arith, ap (occurs d) e, occurs-itself d)) in
                let goes_on = sym (front_due std again scan w now d v due plain) ∙ h in
                let u = ready_push_back (popped std w d v) d in
                let s = push-SameRest (popped std w d v) d in
                let (leaves, all) = wakes_up w c d r rs bs v e l in
                after_one w u x c d r rs bs all s.current_kept s.fresh_kept
                  (ih u (rs ++ (d ∷ [])) leaves goes_on)
          ]

      expire_sleepers-Checked :
          (f : ℕ) (w x : World A) (now c : ℕ) (r : Bool) (rs bs : List ℕ)
          → Leaving w c r rs bs
          → expire_sleepers std f scan w now ≡ some x
          → Checked w x c r rs bs
      unfolding expire_sleepers
      expire_sleepers-Checked zero w x now c r rs bs l h = absurd (ground arith)
      expire_sleepers-Checked (suc f) w x now c r rs bs l h =
          expire_front-Checked (λ u. expire_sleepers std f scan u now) w x now c r rs bs
            w.sleep_pqueue (λ u qs k g. expire_sleepers-Checked f u x now c r qs bs k g) refl l h

      -- What check_for_timeouts did: nothing, or the loop.
      check_cases :
          (fuel : ℕ) (w x : World A) (now t : ℕ)
          → check_for_timeouts std fuel scan w now ≡ some (x, t)
          → (some w ≡ some x) ⊎ (expire_sleepers std fuel scan w now ≡ some x)
      unfolding check_for_timeouts
      check_cases fuel w x now t e =
          elim (Bool-cases (is_nil w.sleep_pqueue && is_nil w.task_sch_queue)) [
            | inl n ↦ inl (ap state_of (rw (n, check_for_timeouts) at e))
            | inr n ↦ elim (Bool-cases (ltb now (next_time w))) [
              | inl early ↦ inl (ap state_of (rw (n, check_for_timeouts, early) at e))
              | inr due ↦ elim (Option-cases (expire_sleepers std fuel scan w now)) [
                | inl ran_out ↦
                    absurd (ground (arith, rw (n, check_for_timeouts, due, ran_out) at e))
                | inr (u, ran) ↦ inr (ran ∙ ap state_of (rw (n, check_for_timeouts, due, ran) at e))
              ]
            ]
          ]

      pub check-Checked :
          (fuel : ℕ) (w x : World A) (now t c : ℕ) (r : Bool) (rs bs : List ℕ)
          → Leaving w c r rs bs
          → check_for_timeouts std fuel scan w now ≡ some (x, t)
          → Checked w x c r rs bs
      check-Checked fuel w x now t c r rs bs l e = elim (check_cases fuel w x now t e) [
        | inl same ↦ unchanged w x c r rs bs l same
        | inr ran ↦ expire_sleepers-Checked fuel w x now c r rs bs l ran
      ]
