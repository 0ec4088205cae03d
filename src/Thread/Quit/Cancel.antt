-- ===== src/Thread/Quit/Cancel.antt =====
-- What thread::quit does with ready and with sleeping contexts.
use boost_cmt.Base.{
  ℕ, zero, suc, ◌<◌, ◌≡◌, refl, sym, ◌∙◌, subst, List, [], ◌∷◌, Option, none, some, arith, true,
  length,
}
use boost_cmt.Base.Links.{Absent, Chain}
use boost_cmt.StdHeap.{StdHeap}
use boost_cmt.Thread.State.{World}
use boost_cmt.Thread.Ready.{Ready, ready_push_front, ready_push_front-Ready}
use boost_cmt.Thread.Quit.{
  ended, cancel_context, cancel_ready, cancel_sleepers, finish, quit, quit_blocked,
}

-- The ready queue once the contexts `ss` went to its front, one after another.
abbrev pub in_front : List ℕ → List ℕ → List ℕ
in_front [] xs = xs
in_front (s ∷ ss) xs = in_front ss (s ∷ xs)

-- Each context on the list is on neither the rest of it nor the other list.
abbrev pub Apart : List ℕ → List ℕ → Type 0
Apart [] xs = Unit {0}
Apart (s ∷ ss) xs = Absent s xs × Apart ss (s ∷ xs)

module _ {A : Type 0} where
  abbrev pub Canceled : World A → List ℕ → Type 0
  Canceled w [] = Unit {0}
  Canceled w (x ∷ xs) = (w.canceled x ≡ true) × Canceled w xs

  -- What was canceled stays so, and the ready queue is the same.
  pub record Cancels (w v : World A) (xs : List ℕ) : Type 0 where
    pub all : Canceled v xs
    pub more : (y : ℕ) → w.canceled y ≡ true → v.canceled y ≡ true
    pub next_kept : v.next ≡ w.next
    pub head_kept : v.ready_head ≡ w.ready_head
    pub tail_kept : v.ready_tail ≡ w.ready_tail
    pub sleep_kept : v.sleep_pqueue ≡ w.sleep_pqueue

  cancel_ready-Cancels :
      (f : ℕ) (w : World A) (cur : Option ℕ) (xs : List ℕ)
      → length xs < f
      → Chain w.next cur xs
      → (v : World A) × (cancel_ready f w cur ≡ ended v) × Cancels w v xs
  unfolding cancel_ready cancel_context
  cancel_ready-Cancels zero w cur xs l h = absurd (omega arith)
  cancel_ready-Cancels (suc f) w none [] l h = (
    w,
    refl,
    record {
      all = tt;
      more = λ y e. e;
      next_kept = refl;
      head_kept = refl;
      tail_kept = refl;
      sleep_kept = refl;
    },
  )
  cancel_ready-Cancels (suc f) w none (x ∷ xs) l h = absurd (ground arith)
  cancel_ready-Cancels (suc f) w (some c) [] l h = absurd (ground arith)
  cancel_ready-Cancels (suc f) w (some c) (x ∷ xs) l h =
      let same : x ≡ c = cc (h.0) in
      let (v, e, k) =
        cancel_ready-Cancels f (cancel_context w c) (w.next c) xs (omega arith)
          (subst (λ y. Chain w.next (w.next y) xs) same h.1) in
      (
        v,
        e,
        record {
          all = (subst (λ y. v.canceled y ≡ true) (sym same) (k.more c (ground arith)), k.all);
          more = λ y q. k.more y (ground arith);
          next_kept = k.next_kept;
          head_kept = k.head_kept;
          tail_kept = k.tail_kept;
          sleep_kept = k.sleep_kept;
        },
      )

  cancel_sleepers-Ready :
      (w : World A) (ss xs : List ℕ)
      → Ready w xs
      → Apart ss xs
      → Ready (cancel_sleepers w ss) (in_front ss xs)
  unfolding cancel_sleepers
  cancel_sleepers-Ready w [] xs r a = r
  cancel_sleepers-Ready w (s ∷ ss) xs r a =
      cancel_sleepers-Ready (ready_push_front (cancel_context w s) s) ss (s ∷ xs)
        (ready_push_front-Ready (cancel_context w s) s xs
          (record { chain = r.chain; tail = r.tail; distinct = r.distinct }) a.0)
        a.1

  cancel_sleepers-more :
      (w : World A) (ss : List ℕ) (y : ℕ)
      → w.canceled y ≡ true
      → (cancel_sleepers w ss).canceled y ≡ true
  unfolding cancel_sleepers ready_push_front
  cancel_sleepers-more w [] y e = e
  cancel_sleepers-more w (s ∷ ss) y e =
      cancel_sleepers-more (ready_push_front (cancel_context w s) s) ss y (ground arith)

  Canceled-mono :
      (w v : World A) (xs : List ℕ)
      → ((y : ℕ) → w.canceled y ≡ true → v.canceled y ≡ true)
      → Canceled w xs
      → Canceled v xs
  Canceled-mono w v [] h k = tt
  Canceled-mono w v (x ∷ xs) h k = (h x k.0, Canceled-mono w v xs h k.1)

  pushed_canceled :
      (w : World A) (s y : ℕ)
      → w.canceled y ≡ true
      → (ready_push_front (cancel_context w s) s).canceled y ≡ true
  unfolding ready_push_front cancel_context
  pushed_canceled w s y e = ground arith

  pushed_itself :
      (w : World A) (s : ℕ) → (ready_push_front (cancel_context w s) s).canceled s ≡ true
  unfolding ready_push_front cancel_context
  pushed_itself w s = ground arith

  sleepers-Canceled :
      (w : World A) (ss xs : List ℕ)
      → Canceled w xs
      → Canceled (cancel_sleepers w ss) (in_front ss xs)
  unfolding cancel_sleepers
  sleepers-Canceled w [] xs k = k
  sleepers-Canceled w (s ∷ ss) xs k =
      let v = ready_push_front (cancel_context w s) s in
      sleepers-Canceled v ss (s ∷ xs)
        (pushed_itself w s, Canceled-mono w v xs (pushed_canceled w s) k)

  quit_nothing :
      (std : StdHeap) (scan f : ℕ) (w : World A) (cur : Option ℕ)
      → 0 < f
      → cur ≡ none
      → quit_blocked std scan f w cur ≡ ended w
  unfolding quit_blocked
  quit_nothing std scan zero w cur l e = absurd (omega arith)
  quit_nothing std scan (suc f) w none l e = refl
  quit_nothing std scan (suc f) w (some c) l e = absurd (ground arith)

  finish-Ready :
      (w : World A) (xs : List ℕ)
      → Ready (cancel_sleepers w w.sleep_pqueue) xs
      → Ready (finish w) xs
  unfolding finish
  finish-Ready w xs r = record { chain = r.chain; tail = r.tail; distinct = r.distinct }

  finish-Canceled :
      (w : World A) (xs : List ℕ)
      → Canceled (cancel_sleepers w w.sleep_pqueue) xs
      → Canceled (finish w) xs
  unfolding finish
  finish-Canceled w xs k =
      Canceled-mono (cancel_sleepers w w.sleep_pqueue) (finish w) xs (λ y e. e) k

  Ready-same : (w v : World A) (xs : List ℕ) → Cancels w v xs → Ready w xs → Ready v xs
  Ready-same w v xs k r = record {
    chain =
        subst (λ f. Chain f v.ready_head xs) (sym k.next_kept)
          (subst (λ p. Chain w.next p xs) (sym k.head_kept) r.chain);
    tail = k.tail_kept ∙ r.tail;
    distinct = r.distinct;
  }

  -- With no context blocked, quit ends; every context that was ready or slept is canceled, so it
  -- throws when it is resumed; those that slept stand in front of the ready queue; nothing sleeps
  -- any more, and the thread is done.
  pub quit_cancels :
      (std : StdHeap) (scan f : ℕ) (w : World A) (xs : List ℕ)
      → length xs < f
      → w.blocked ≡ none
      → Ready w xs
      → Apart w.sleep_pqueue xs
      → (v : World A) × (quit std scan f w ≡ ended v)
        × Ready v (in_front w.sleep_pqueue xs)
        × Canceled v (in_front w.sleep_pqueue xs)
        × (v.sleep_pqueue ≡ [])
        × (v.done ≡ true)
  unfolding quit
  quit_cancels std scan f w xs l b r a =
      let (u, e, k) = cancel_ready-Cancels f w w.ready_head xs l r.chain in
      let asleep = sym k.sleep_kept in
      let line =
        cancel_sleepers-Ready u u.sleep_pqueue xs (Ready-same w u xs k r)
          (subst (λ q. Apart q xs) asleep a) in
      let all = sleepers-Canceled u u.sleep_pqueue xs k.all in
      (
        finish u,
        rw (quit_nothing std scan f w w.blocked (omega arith) b, quit, e) refl,
        subst (λ q. Ready (finish u) (in_front q xs)) k.sleep_kept (finish-Ready u _ line),
        subst (λ q. Canceled (finish u) (in_front q xs)) k.sleep_kept (finish-Canceled u _ all),
        unfold finish in refl,
        unfold finish in refl,
      )
