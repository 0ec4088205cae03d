-- ===== src/Thread/Notify/Unlink.antt =====
-- What the loop of thread::notify does to the blocked list.
use boost_cmt.Base.{
  ℕ, zero, suc, ◌+◌, ◌<◌, ◌≡◌, ◌≢◌, refl, List, [], ◌∷◌, ◌++◌, Option, none, some, arith, back,
  back-cons, length, true, false,
}
use boost_cmt.Base.Links.{put, Chain, Absent, Distinct, Chain-put, Absent-back}
use boost_cmt.Thread.State.{World}
use boost_cmt.Thread.Ready.{Ready, ready_push_front, ready_push_front-Ready}
use boost_cmt.Thread.Notify.{try_unblock, unlink, unblock, scan_blocked}

pub Absent-suffix : (c : ℕ) (us vs : List ℕ) → Absent c (us ++ vs) → Absent c vs
Absent-suffix c [] vs a = a
Absent-suffix c (u ∷ us) vs a = Absent-suffix c us vs a.1

pub Absent-prefix : (c : ℕ) (us vs : List ℕ) → Absent c (us ++ vs) → Absent c us
Absent-prefix c [] vs a = tt
Absent-prefix c (u ∷ us) vs a = (a.0, Absent-prefix c us vs a.1)

pub Absent-middle : (c x : ℕ) (us vs : List ℕ) → Absent c (us ++ x ∷ vs) → Absent c (us ++ vs)
Absent-middle c x [] vs a = a.1
Absent-middle c x (u ∷ us) vs a = (a.0, Absent-middle c x us vs a.1)

pub Absent-member : (c x : ℕ) (us vs : List ℕ) → Absent c (us ++ x ∷ vs) → x ≢ c
Absent-member c x [] vs a = a.0
Absent-member c x (u ∷ us) vs a = Absent-member c x us vs a.1

pub Distinct-middle : (x : ℕ) (us vs : List ℕ) → Distinct (us ++ x ∷ vs) → Distinct (us ++ vs)
Distinct-middle x [] vs d = d.1
Distinct-middle x (u ∷ us) vs d = (Absent-middle u x us vs d.0, Distinct-middle x us vs d.1)

-- A chain without its object `c`, once its predecessor `q` points past it.
pub Chain-unlink :
    (f : ℕ → Option ℕ) (c q : ℕ) (p : Option ℕ) (us vs : List ℕ)
    → Distinct (us ++ c ∷ vs)
    → back us ≡ some q
    → Chain f p (us ++ c ∷ vs)
    → Chain (put (put f q (f c)) c none) p (us ++ vs)
Chain-unlink f c q p [] vs d e h = absurd (ground arith)
Chain-unlink f c q p (x ∷ []) vs d e h = ground (
  arith,
  Chain-put f x (f c) (f c) vs d.0.1 h.1.1,
  Chain-put (put f x (f c)) c none (f c) vs d.1.0,
)
Chain-unlink f c q p (x ∷ y ∷ us) vs d e h = ground (
  arith,
  Absent-member x c (y ∷ us) vs d.0,
  Chain-unlink f c q (f x) (y ∷ us) vs d.1 e h.1,
  Absent-back x q (y ∷ us) (Absent-prefix x (y ∷ us) (c ∷ vs) d.0) e,
)

-- `prev_blocked` once the loop has gone past `us`.
abbrev pub prev_of : Option ℕ → List ℕ → Option ℕ
prev_of prev [] = prev
prev_of prev (u ∷ us) = prev_of (some u) us

prev_of-back : (prev : Option ℕ) (u : ℕ) (us : List ℕ) → prev_of prev (u ∷ us) ≡ back (u ∷ us)
prev_of-back prev u [] = refl
prev_of-back prev u (x ∷ us) = prev_of-back (some u) x us

module _ {A : Type 0} where
  -- The links from `blocked` lead through `bs`, the last context that blocked first.
  pub record Blocked (w : World A) (bs : List ℕ) : Type 0 where
    pub chain : Chain w.next_blocked w.blocked bs
    pub distinct : Distinct bs

  -- No context on the list waits for the promise `p`.
  abbrev pub NotWaiting : World A → ℕ → List ℕ → Type 0
  NotWaiting w p [] = Unit {0}
  NotWaiting w p (u ∷ us) = (try_unblock w u p ≡ false) × NotWaiting w p us

  pub unblock-next_blocked :
      (w : World A) (c : ℕ) (prev : Option ℕ) → (unblock w c prev).next_blocked c ≡ none
  unfolding unblock unlink ready_push_front
  unblock-next_blocked w c prev = ground arith

  -- The loop stops behind the first context that it unblocks.
  pub scan_blocked_first :
      (f : ℕ) (w : World A) (p c : ℕ) (cur prev : Option ℕ) (us vs : List ℕ)
      → length us + 1 < f
      → Chain w.next_blocked cur (us ++ c ∷ vs)
      → NotWaiting w p us
      → try_unblock w c p ≡ true
      → scan_blocked f w p cur prev ≡ some (unblock w c (prev_of prev us))
  unfolding scan_blocked
  scan_blocked_first (suc (suc f)) w p c (some x) prev [] vs l h n t =
      ground (arith, unblock-next_blocked w c prev)
  scan_blocked_first (suc f) w p c (some x) prev (u ∷ us) vs l h n t =
      ground (
        arith,
        scan_blocked_first f w p c (w.next_blocked u) (some u) us vs (omega arith) h.1 n.1 t,
      )
  scan_blocked_first (suc (suc f)) w p c none prev [] vs l h n t = ground arith
  scan_blocked_first (suc f) w p c none prev (u ∷ us) vs l h n t = ground arith
  scan_blocked_first zero w p c cur prev us vs l h n t = absurd (omega arith)
  scan_blocked_first (suc zero) w p c cur prev [] vs l h n t = absurd (omega arith)

  -- Where nothing waits for `p` the loop runs to the end and changes nothing.
  pub scan_blocked_none :
      (f : ℕ) (w : World A) (p : ℕ) (cur prev : Option ℕ) (us : List ℕ)
      → length us < f
      → Chain w.next_blocked cur us
      → NotWaiting w p us
      → scan_blocked f w p cur prev ≡ some w
  unfolding scan_blocked
  scan_blocked_none (suc f) w p none prev us l h n = refl
  scan_blocked_none (suc f) w p (some x) prev [] l h n = ground arith
  scan_blocked_none (suc f) w p (some x) prev (u ∷ us) l h n =
      ground (arith, scan_blocked_none f w p (w.next_blocked u) (some u) us (omega arith) h.1 n.1)
  scan_blocked_none zero w p cur prev us l h n = absurd (omega arith)

  unblock_behind :
      (w : World A) (c q : ℕ) (us vs : List ℕ)
      → Blocked w (us ++ c ∷ vs)
      → back us ≡ some q
      → Blocked (unblock w c (some q)) (us ++ vs)
  unfolding unblock unlink ready_push_front
  unblock_behind w c q us vs b e = record {
    chain = Chain-unlink w.next_blocked c q w.blocked us vs b.distinct e b.chain;
    distinct = Distinct-middle c us vs b.distinct;
  }

  pub unblock-Blocked :
      (w : World A) (c : ℕ) (us vs : List ℕ)
      → Blocked w (us ++ c ∷ vs)
      → Blocked (unblock w c (prev_of none us)) (us ++ vs)
  unfolding unblock unlink ready_push_front
  unblock-Blocked w c [] vs b = record {
    chain = ground (arith, Chain-put w.next_blocked c none (w.next_blocked c) vs b.distinct.0);
    distinct = b.distinct.1;
  }
  unblock-Blocked w c (u ∷ us) vs b =
      let (q, e) = back-cons u us in
      rw (prev_of-back none u us, e) (unblock_behind w c q (u ∷ us) vs b e)

  unlink-Ready :
      (w : World A) (c : ℕ) (prev : Option ℕ) (rs : List ℕ)
      → Ready w rs
      → Ready (unlink w c prev) rs
  unfolding unlink
  unlink-Ready w c none rs r = record { chain = r.chain; tail = r.tail; distinct = r.distinct }
  unlink-Ready w c (some q) rs r = record { chain = r.chain; tail = r.tail; distinct = r.distinct }

  pub unblock-Ready :
      (w : World A) (c : ℕ) (prev : Option ℕ) (rs : List ℕ)
      → Ready w rs
      → Absent c rs
      → Ready (unblock w c prev) (c ∷ rs)
  unfolding unblock
  unblock-Ready w c prev rs r a =
      ready_push_front-Ready (unlink w c prev) c rs (unlink-Ready w c prev rs r) a
