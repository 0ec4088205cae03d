-- ===== src/Thread/Ready.antt =====
-- The ready queue of thread_private: a linked list with a tail pointer, as a sequence.
use boost_cmt.Base.{
  ℕ, ◌≡◌, List, [], ◌∷◌, ◌++◌, Option, none, some, arith, back, back-append, back-cons, sym, ◌∙◌,
}
use boost_cmt.Base.Links.{
  put, Chain, Absent, Distinct, Chain-put, Chain-cons, Chain-append, Distinct-append,
}
use boost_cmt.Thread.State.{World}

module _ {A : Type 0} where
  unfoldable pub ready_pop_front : World A → World A × Option ℕ
  ready_pop_front w = elim w.ready_head [
    | none ↦ (w, none)
    | some tmp ↦
        let head = w.next tmp in
        (
          record w {
            ready_head = head;
            ready_tail = elim head [ none ↦ none | some h ↦ w.ready_tail ];
            contexts = record w.contexts { next = put w.next tmp none };
          },
          some tmp,
        )
  ]

  unfoldable pub ready_push_front : World A → ℕ → World A
  ready_push_front w c = record w {
    contexts = record w.contexts { next = put w.next c w.ready_head };
    ready_head = some c;
    ready_tail = elim w.ready_tail [ none ↦ some c | some t ↦ some t ];
  }

  unfoldable pub ready_push_back : World A → ℕ → World A
  ready_push_back w c = elim w.ready_tail [
    | none ↦ record w {
      contexts = record w.contexts { next = put w.next c none };
      ready_head = some c;
      ready_tail = some c;
    }
    | some t ↦ record w {
      contexts = record w.contexts { next = put (put w.next c none) t (some c) };
      ready_tail = some c;
    }
  ]

  -- The links from `ready_head` lead through `xs`, and `ready_tail` is its last context.
  pub record Ready (w : World A) (xs : List ℕ) : Type 0 where
    pub chain : Chain w.next w.ready_head xs
    pub tail : w.ready_tail ≡ back xs
    pub distinct : Distinct xs

  -- On a ready queue `xs` that does not hold `c`, `ready_push_front` makes it `c ∷ xs`.
  pub ready_push_front-Ready :
      (w : World A) (c : ℕ) (xs : List ℕ)
      → Ready w xs
      → Absent c xs
      → Ready (ready_push_front w c) (c ∷ xs)
  unfolding ready_push_front
  ready_push_front-Ready w c [] r a = ground arith
  ready_push_front-Ready w c (x ∷ xs) r a = record {
    chain = Chain-cons w.next c w.ready_head (x ∷ xs) a r.chain;
    tail = ground (arith, (back-cons x xs).1);
    distinct = (a, r.distinct);
  }

  push_back_behind :
      (w : World A) (c t : ℕ) (xs : List ℕ)
      → Ready w xs
      → Absent c xs
      → w.ready_tail ≡ some t
      → Ready (ready_push_back w c) (xs ++ c ∷ [])
  unfolding ready_push_back
  push_back_behind w c t xs r a e = record {
    chain =
        ground
          (arith, Chain-append w.next c t w.ready_head xs r.distinct a (sym r.tail ∙ e) r.chain);
    tail = ground (arith, back-append xs c);
    distinct = Distinct-append c xs a r.distinct;
  }

  -- On a ready queue `xs` that does not hold `c`, `ready_push_back` makes it `xs` followed by `c`.
  pub ready_push_back-Ready :
      (w : World A) (c : ℕ) (xs : List ℕ)
      → Ready w xs
      → Absent c xs
      → Ready (ready_push_back w c) (xs ++ c ∷ [])
  unfolding ready_push_back
  ready_push_back-Ready w c [] r a = ground arith
  ready_push_back-Ready w c (x ∷ xs) r a =
      let (t, e) = back-cons x xs in push_back_behind w c t (x ∷ xs) r a (r.tail ∙ e)

  -- `ready_pop_front` takes the first context of the ready queue, and leaves the others in order.
  pub ready_pop_front-Ready :
      (w : World A) (c : ℕ) (xs : List ℕ)
      → Ready w (c ∷ xs)
      → ((ready_pop_front w).1 ≡ some c) × Ready (ready_pop_front w).0 xs
  unfolding ready_pop_front
  ready_pop_front-Ready w c [] r = ground arith
  ready_pop_front-Ready w c (x ∷ xs) r =
      ground (arith, Chain-put w.next c none (w.next c) (x ∷ xs) r.distinct.0 r.chain.1)
