-- ===== src/Thread/Spawn/Here.antt =====
-- The free functions of include/boost/cmt/thread.hpp, on the current thread.
use boost_cmt.Base.{ℕ, ◌≡◌, ap, max, arith}
use boost_cmt.Thread.State.{World, time_min}
use boost_cmt.Thread.Switch.{current_priority}
use boost_cmt.Thread.Spawn.{async, async_here, sync_prio, sync_here, post, make_rtask}

raised_twice : (a b : ℕ) → max a (max a b) ≡ max a b
raised_twice a b = omega arith

module _ {A : Type 0} where
  -- The free functions async and sync raise the priority to that of the current context, and so do
  -- the members that they call: on the current thread the free functions do what the members do.
  pub async_here_same :
      (w : World A) (t count p prio : ℕ)
      → (async_here w t count p prio ≡ async w t count p prio)
        × (sync_here w t count p prio ≡ sync_prio w t count p prio)
  unfolding async_here sync_here async sync_prio
  async_here_same w t count p prio =
      let e = raised_twice (current_priority w) prio in
      let posted = ap (λ x. post (make_rtask w t count p x time_min) t) e in (posted, posted)
