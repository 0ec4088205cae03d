-- ===== src/Thread/Timeouts/Expire.antt =====
-- What check_for_timeouts does with the contexts whose time has come.
use mathlib.Core.List.{
  Nodup, Nodup-cons, mem-cons, mem-cons_self, mem-cons_of_mem, not-mem-nil, append_assoc,
  append-nil,
}
use mathlib.Core.List.Perm
use mathlib.Core.Logic.Or
use native.Mathlib.Bridge.{le_prop}
use boost_cmt.Base.{
  ℕ, zero, suc, ◌≤◌, ◌<◌, ◌≡◌, refl, sym, subst, ◌∙◌, List, [], ◌∷◌, ◌++◌, Option, none, some,
  arith, Mem, Perm, Bool, true, false, leb, length, length-perm, Bool-cases, inl, inr,
}
use boost_cmt.Base.Links.{Absent, Absent-append}
use boost_cmt.StdHeap.{StdHeap}
use boost_cmt.Thread.State.{World}
use boost_cmt.Thread.Ready.{Ready, ready_push_back, ready_push_back-Ready}
use boost_cmt.Thread.Notify.{sleep_priority_less}
use boost_cmt.Thread.Queue.{pop_top}
use boost_cmt.Thread.Queue.Order.{sleep_priority_less-IsWeakOrder}
use boost_cmt.Thread.Queue.Select.{pop_top-rest_heap}
use boost_cmt.Thread.Timeouts.{expire, expire_front, expire_sleepers}

module _ {A : Type 0} (std : StdHeap) where
  -- The sleep queue is a heap of distinct contexts that wait for no promise and are not ready.
  pub record Sleeping (w : World A) (v rs : List ℕ) : Type 0 where
    pub heap : std.IsHeap (sleep_priority_less w.resume_time) v
    pub nodup : Nodup v
    pub plain : (c : ℕ) → Mem c v → w.prom c ≡ none
    pub apart : (c : ℕ) → Mem c v → Absent c rs

  abbrev pub Due : World A → ℕ → List ℕ → Type 0
  Due w now [] = Unit {0}
  Due w now (c ∷ cs) = (w.resume_time c ≤ now) × Due w now cs

  -- What the loop leaves: the contexts `moved` stand behind the ready ones.
  pub record Expired (w v : World A) (now : ℕ) (rs moved : List ℕ) : Type 0 where
    pub ready : Ready v (rs ++ moved)
    pub kept : Perm (moved ++ v.sleep_pqueue) w.sleep_pqueue
    pub due : Due w now moved
    pub rest : (c : ℕ) → Mem c v.sleep_pqueue → now < w.resume_time c

  pushed-sleep_pqueue : (w : World A) (c : ℕ) → (ready_push_back w c).sleep_pqueue ≡ w.sleep_pqueue
  unfolding ready_push_back
  pushed-sleep_pqueue w c = ground arith

  pushed-resume_time : (w : World A) (c : ℕ) → (ready_push_back w c).resume_time ≡ w.resume_time
  unfolding ready_push_back
  pushed-resume_time w c = ground arith

  pushed-prom : (w : World A) (c : ℕ) → (ready_push_back w c).prom ≡ w.prom
  unfolding ready_push_back
  pushed-prom w c = ground arith

  abbrev pub less : World A → ℕ → ℕ → Bool
  less w = sleep_priority_less w.resume_time

  Sleeping-rest :
      (w x : World A) (c : ℕ) (v rs : List ℕ)
      → x.resume_time ≡ w.resume_time
      → x.prom ≡ w.prom
      → Sleeping w (c ∷ v) rs
      → Sleeping x (std.rest_heap (less w) c v) (rs ++ c ∷ [])
  Sleeping-rest w x c v rs e h s =
      let left = std.rest_heap-perm (less w) c v in
      let order = sleep_priority_less-IsWeakOrder w.resume_time in
      let inside = λ (y : ℕ) (m : Mem y (std.rest_heap (less w) c v)). (Perm.mem_iff left).0 m in
      record {
        heap = rw e (std.rest_heap-IsHeap (less w) c v order s.heap);
        nodup = Perm.nodup (Perm.symm left) (Nodup-cons.0 s.nodup).1;
        plain = λ y m. rw h (s.plain y (mem-cons_of_mem c (inside y m)));
        apart = λ y m.
            Absent-append y c rs (s.apart y (mem-cons_of_mem c (inside y m)))
              (λ q. (Nodup-cons.0 s.nodup).0 (subst (λ z. Mem z v) (sym q) (inside y m)));
      }

  Due-same :
      (w x : World A) (now : ℕ) (cs : List ℕ)
      → x.resume_time ≡ w.resume_time
      → Due x now cs
      → Due w now cs
  Due-same w x now [] e d = tt
  Due-same w x now (c ∷ cs) e d = (rw e at d.0, Due-same w x now cs e d.1)

  abbrev pub popped : World A → ℕ → List ℕ → World A
  popped w c v = record w { sleep_pqueue = pop_top std (less w) (c ∷ v) }

  expire_plain :
      (scan : ℕ) (w : World A) (c : ℕ)
      → w.prom c ≡ none
      → expire std scan w c ≡ some (ready_push_back w c)
  unfolding expire
  expire_plain scan w c e = ground arith

  pub front_later :
      (again : World A → Option (World A)) (scan : ℕ) (w : World A) (now c : ℕ) (v : List ℕ)
      → leb (w.resume_time c) now ≡ false
      → expire_front std again scan w now (c ∷ v) ≡ some w
  unfolding expire_front
  front_later again scan w now c v e = ground arith

  pub front_due :
      (again : World A → Option (World A)) (scan : ℕ) (w : World A) (now c : ℕ) (v : List ℕ)
      → leb (w.resume_time c) now ≡ true
      → w.prom c ≡ none
      → expire_front std again scan w now (c ∷ v) ≡ again (ready_push_back (popped w c v) c)
  unfolding expire_front
  front_due again scan w now c v e h =
      rw (expire_plain scan (popped w c v) c h, expire_front, e) refl

  all_later :
      (w : World A) (now c : ℕ) (v rs : List ℕ)
      → leb (w.resume_time c) now ≡ false
      → Sleeping w (c ∷ v) rs
      → (y : ℕ) → Mem y (c ∷ v)
      → now < w.resume_time y
  all_later w now c v rs e s y m =
      let order = sleep_priority_less-IsWeakOrder w.resume_time in
      Or.elim le_prop (mem-cons.0 m) (λ q. rw q (ground arith))
        (λ k. let top = std.front_max (less w) c v order s.heap y k in ground arith)

  expire_from :
      (f scan : ℕ) (w : World A) (now : ℕ) (rs v : List ℕ)
      → w.sleep_pqueue ≡ v
      → length v < suc f
      → Ready w rs
      → Sleeping w v rs
      → (x : World A) × (moved : List ℕ) × (expire_front std
            (λ w'. expire_sleepers std f scan w' now)
            scan
            w
            now
            v
          ≡ some x)
        × Expired w x now rs moved
  unfolding expire_sleepers
  expire_from f scan w now rs [] e l r s = (
    w,
    [],
    unfold expire_front in refl,
    record {
      ready = rw (append-nil rs) r;
      kept = Perm.rfl;
      due = tt;
      rest = λ c m. absurd (not-mem-nil (subst (Mem c) e m));
    },
  )
  expire_from zero scan w now rs (c ∷ v) e l r s = absurd (omega arith)
  expire_from (suc f) scan w now rs (c ∷ v) e l r s =
      elim (Bool-cases (leb (w.resume_time c) now)) [
        | inr later ↦ (
          w,
          [],
          front_later _ scan w now c v later,
          record {
            ready = rw (append-nil rs) r;
            kept = Perm.rfl;
            due = tt;
            rest = λ y m. all_later w now c v rs later s y (subst (Mem y) e m);
          },
        )
        | inl due ↦
            let x = ready_push_back (popped w c v) c in
            let same = pushed-resume_time (popped w c v) c in
            let left = std.rest_heap-perm (less w) c v in
            let queue : x.sleep_pqueue ≡ std.rest_heap (less w) c v =
              pushed-sleep_pqueue (popped w c v) c ∙ pop_top-rest_heap std (less w) c v in
            let behind =
              ready_push_back-Ready (popped w c v) c rs
                (record { chain = r.chain; tail = r.tail; distinct = r.distinct })
                (s.apart c mem-cons_self) in
            let sleeping = Sleeping-rest w x c v rs same (pushed-prom (popped w c v) c) s in
            let (y, moved, done, more) =
              expire_from f scan x now (rs ++ c ∷ []) x.sleep_pqueue refl
                (subst (λ q. length q < suc f) (sym queue) (omega (arith, length-perm left))) behind
                (subst (λ q. Sleeping x q (rs ++ c ∷ [])) (sym queue) sleeping) in
            (
              y,
              c ∷ moved,
              front_due _ scan w now c v due (s.plain c mem-cons_self) ∙ done,
              record {
                ready = subst (Ready y) (append_assoc rs (c ∷ []) moved) more.ready;
                kept =
                    subst (λ q. Perm (c ∷ moved ++ y.sleep_pqueue) q) (sym e)
                      (Perm.cons c (Perm.trans more.kept (subst (λ q. Perm q v) (sym queue) left)));
                due = (ground arith, Due-same w x now moved same more.due);
                rest = λ q m. subst (λ (at : ℕ → ℕ). now < at q) same (more.rest q m);
              },
            )
      ]

  -- Contexts that sleep and wait for no promise: the loop ends, given one more round than there are
  -- of them. Exactly those whose time has come leave the sleep queue, and they stand behind the
  -- contexts that were ready.
  pub expire_sleepers_plain :
      (f scan : ℕ) (w : World A) (now : ℕ) (rs : List ℕ)
      → length w.sleep_pqueue < f
      → Ready w rs
      → Sleeping w w.sleep_pqueue rs
      → (x : World A) × (moved : List ℕ) × (expire_sleepers std f scan w now ≡ some x)
        × Expired w x now rs moved
  unfolding expire_sleepers
  expire_sleepers_plain zero scan w now rs l r s = absurd (omega arith)
  expire_sleepers_plain (suc f) scan w now rs l r s =
      expire_from f scan w now rs w.sleep_pqueue refl l r s
