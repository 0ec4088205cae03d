-- ===== src/Thread/Places.antt =====
-- Where the contexts of a thread are, over yield, wait, sleep_until, notify and the setting of
-- promises in src/thread.cpp and include/boost/cmt/future.hpp.
pub mod Count
pub mod Jump
pub mod Late
pub mod Woken
pub mod Turned
pub mod Slept
pub mod Kept
pub mod Expiry
pub mod Mixed
use boost_cmt.Base.{
  ℕ, suc, ◌+◌, ◌≡◌, ◌≤◌, ◌<◌, List, [], ◌∷◌, ◌⊎◌, none, some, length, if◌then◌else◌, ◌==◌,
}
use boost_cmt.StdHeap.{StdHeap}
use boost_cmt.Error.{Exception}
use boost_cmt.Thread.State.{World, time_max}
use boost_cmt.Thread.Ready.{Ready}
use boost_cmt.Thread.Notify.{notify, set_into, throw_into}
use boost_cmt.Thread.Notify.Unlink.{Blocked}
use boost_cmt.Thread.Switch.{yield, wait, waited, sleep_until, slept, come_back, gives_way}

-- How often a context is on a list.
abbrev pub occurs : ℕ → List ℕ → ℕ
occurs o [] = 0
occurs o (x ∷ xs) = (if x == o then 1 else 0) + occurs o xs

-- How often a context runs, is ready, is blocked or sleeps.
abbrev pub places : ℕ → ℕ → List ℕ → List ℕ → List ℕ → ℕ
places o c rs bs ss = occurs o (c ∷ rs) + occurs o bs + occurs o ss

module _ {A : Type 0} where
  -- No context that sleeps waits for a promise.
  abbrev pub Plain : World A → Type 0
  Plain w = (o : ℕ) → 0 < occurs o w.sleep_pqueue → w.prom o ≡ none

  -- The context `c` runs, `rs` are ready and `bs` are blocked, each context in one place at most and
  -- once, the sleep queue included; the address of the next context is new.
  pub record Placed (w : World A) (c : ℕ) (rs bs : List ℕ) : Type 0 where
    pub running : w.current ≡ some c
    pub waiting : Ready w rs
    pub stuck : Blocked w bs
    pub plain : Plain w
    pub apart : (o : ℕ) → places o c rs bs w.sleep_pqueue ≤ 1
    pub older : (o : ℕ) → w.fresh ≤ o → places o c rs bs w.sleep_pqueue ≡ 0

  -- Every context is in as many places in `v` as in `w`, or one was made.
  pub record Moved (w v : World A) (c : ℕ) (rs bs : List ℕ) : Type 0 where
    pub runs : ℕ
    pub waiting : List ℕ
    pub blocked : List ℕ
    pub placed : Placed v runs waiting blocked
    pub kept :
        ((o : ℕ) → places o runs waiting blocked v.sleep_pqueue ≡ places o c rs bs w.sleep_pqueue)
        ⊎ ((o : ℕ)
            → places o runs waiting blocked v.sleep_pqueue
              ≡ occurs o (w.fresh ∷ []) + places o c rs bs w.sleep_pqueue)

  module _ (std : StdHeap) (scan : ℕ) where
    -- What the running context may do: it yields, waits without a timeout, sleeps, comes back from a
    -- jump that it waited or slept in, or wakes others.
    pub data Step (w : World A) : World A → Type 0 where
      yields : (fuel now x : ℕ) (v : World A) → yield std fuel scan w now ≡ some (v, x) → Step w v
      waits :
          (fuel p now1 now2 c x : ℕ) (v : World A)
          → wait std fuel scan w p time_max now1 now2 ≡ some (gives_way c x v)
          → Step w v
      sleeps :
          (fuel at now c x : ℕ) (v : World A)
          → sleep_until std fuel scan w at now ≡ some (gives_way c x v)
          → Step w v
      ends_wait :
          (fuel c : ℕ) → w.current ≡ some c → Step w (waited std fuel scan (come_back w c).0 c).0
      ends_sleep :
          (fuel c : ℕ) → w.current ≡ some c → Step w (slept std fuel scan (come_back w c).0 c).0
      notifies : (p : ℕ) (v : World A) → notify std scan w p ≡ some v → Step w v
      sets : (p : ℕ) (a : A) (v : World A) → set_into std scan w p a ≡ some v → Step w v
      throws : (p : ℕ) (e : Exception) (v : World A) → throw_into std scan w p e ≡ some v → Step w v

    pub data Reach (w : World A) : World A → Type 0 where
      here : Reach w w
      next : {u v : World A} → Reach w u → Step u v → Reach w v
