-- ===== src/Thread/Wakeup/Lost.antt =====
-- No wakeup is lost.
use boost_cmt.Base.{ℕ, suc, ◌≡◌, ◌≢◌, ◌<◌, ◌⊎◌, inl, inr, refl, Bool, true, arith}
use boost_cmt.Thread.Wakeup.{
  nobody, sleeper, poster, Place, busy, locking, checked, waiting, woken, leaving, Wakeup,
  post_task, poster_locks, notified, notify_all, take_tasks, sleeper_locks, check_again, begin_wait,
  wake_up, relock, unlock_leave, posts, locks, notifies, takes, sleeper_lock, checks, waits, wakes,
  relocks, leaves, Reach, here, next,
}

-- Some thread that posted will notify: it holds the lock for it, or it will take the lock.
abbrev pub WillNotify : Wakeup → Type 0
WillNotify s = (s.holder ≡ poster) ⊎ (0 < s.owing)

record IsSafe (s : Wakeup) : Type 0 where
  locked_in : s.place ≡ locking → s.holder ≡ sleeper
  checked_in : s.place ≡ checked → s.holder ≡ sleeper
  leaving_in : s.place ≡ leaving → s.holder ≡ sleeper
  seen : s.place ≡ checked → s.posted ≡ true → 0 < s.owing
  asleep : s.place ≡ waiting → s.posted ≡ true → WillNotify s

posts-IsSafe : (s : Wakeup) → IsSafe s → IsSafe (post_task s)
unfolding post_task
posts-IsSafe s i = record {
  locked_in = i.locked_in;
  checked_in = i.checked_in;
  leaving_in = i.leaving_in;
  seen = λ e p. omega arith;
  asleep = λ e p. inr (omega arith);
}

locks-IsSafe :
    (s : Wakeup) (n : ℕ)
    → s.owing ≡ suc n
    → s.holder ≡ nobody
    → IsSafe s
    → IsSafe (poster_locks s n)
unfolding poster_locks
locks-IsSafe s n o h i = record {
  locked_in = λ e. absurd (ground (arith, i.locked_in e));
  checked_in = λ e. absurd (ground (arith, i.checked_in e));
  leaving_in = λ e. absurd (ground (arith, i.leaving_in e));
  seen = λ e p. absurd (ground (arith, i.checked_in e));
  asleep = λ e p. inl refl;
}

-- Where a notification leaves the thread, other than in the wait, it was before.
notified-same : (p q : Place) → q ≢ woken → notified p ≡ q → p ≡ q
notified-same busy q n e = e
notified-same locking q n e = e
notified-same checked q n e = e
notified-same waiting q n e = absurd (n (ground arith))
notified-same woken q n e = e
notified-same leaving q n e = e

never_waiting : (p : Place) → notified p ≡ waiting → ⊥
never_waiting busy e = absurd (ground arith)
never_waiting locking e = absurd (ground arith)
never_waiting checked e = absurd (ground arith)
never_waiting waiting e = absurd (ground arith)
never_waiting woken e = absurd (ground arith)
never_waiting leaving e = absurd (ground arith)

notifies-IsSafe : (s : Wakeup) → s.holder ≡ poster → IsSafe s → IsSafe (notify_all s)
unfolding notify_all
notifies-IsSafe s h i = record {
  locked_in = λ e.
      absurd (ground (arith, i.locked_in (notified-same s.place locking (λ z. ground arith) e)));
  checked_in = λ e.
      absurd (ground (arith, i.checked_in (notified-same s.place checked (λ z. ground arith) e)));
  leaving_in = λ e.
      absurd (ground (arith, i.leaving_in (notified-same s.place leaving (λ z. ground arith) e)));
  seen = λ e p.
      absurd (ground (arith, i.checked_in (notified-same s.place checked (λ z. ground arith) e)));
  asleep = λ e p. absurd (never_waiting s.place e);
}

takes-IsSafe : (s : Wakeup) → s.place ≡ busy → IsSafe s → IsSafe (take_tasks s)
unfolding take_tasks
takes-IsSafe s b i = record {
  locked_in = i.locked_in;
  checked_in = i.checked_in;
  leaving_in = i.leaving_in;
  seen = λ e p. absurd (ground arith);
  asleep = λ e p. absurd (ground arith);
}

sleeper_locks-IsSafe : (s : Wakeup) → IsSafe (sleeper_locks s)
unfolding sleeper_locks
sleeper_locks-IsSafe s = record {
  locked_in = λ e. refl;
  checked_in = λ e. refl;
  leaving_in = λ e. refl;
  seen = λ e p. absurd (ground arith);
  asleep = λ e p. absurd (ground arith);
}

checks-IsSafe :
    (s : Wakeup) (found : Bool) → s.place ≡ locking → IsSafe s → IsSafe (check_again found s)
unfolding check_again
checks-IsSafe s found l i = record {
  locked_in = λ e. i.locked_in l;
  checked_in = λ e. i.locked_in l;
  leaving_in = λ e. i.locked_in l;
  seen = λ e p. absurd (ground arith);
  asleep = λ e p. absurd (ground arith);
}

begin_wait-IsSafe : (s : Wakeup) → s.place ≡ checked → IsSafe s → IsSafe (begin_wait s)
unfolding begin_wait
begin_wait-IsSafe s c i = record {
  locked_in = λ e. absurd (ground arith);
  checked_in = λ e. absurd (ground arith);
  leaving_in = λ e. absurd (ground arith);
  seen = λ e p. absurd (ground arith);
  asleep = λ e p. inr (i.seen c p);
}

wake_up-IsSafe : (s : Wakeup) → IsSafe (wake_up s)
unfolding wake_up
wake_up-IsSafe s = record {
  locked_in = λ e. absurd (ground arith);
  checked_in = λ e. absurd (ground arith);
  leaving_in = λ e. absurd (ground arith);
  seen = λ e p. absurd (ground arith);
  asleep = λ e p. absurd (ground arith);
}

relock-IsSafe : (s : Wakeup) → IsSafe (relock s)
unfolding relock
relock-IsSafe s = record {
  locked_in = λ e. refl;
  checked_in = λ e. refl;
  leaving_in = λ e. refl;
  seen = λ e p. absurd (ground arith);
  asleep = λ e p. absurd (ground arith);
}

unlock_leave-IsSafe : (s : Wakeup) → IsSafe (unlock_leave s)
unfolding unlock_leave
unlock_leave-IsSafe s = record {
  locked_in = λ e. absurd (ground arith);
  checked_in = λ e. absurd (ground arith);
  leaving_in = λ e. absurd (ground arith);
  seen = λ e p. absurd (ground arith);
  asleep = λ e p. absurd (ground arith);
}

Reach-IsSafe : (s : Wakeup) → Reach s → IsSafe s
Reach-IsSafe s here = record {
  locked_in = λ e. absurd (ground arith);
  checked_in = λ e. absurd (ground arith);
  leaving_in = λ e. absurd (ground arith);
  seen = λ e p. absurd (ground arith);
  asleep = λ e p. absurd (ground arith);
}
Reach-IsSafe s (next {s = p} r posts) = posts-IsSafe p (Reach-IsSafe p r)
Reach-IsSafe s (next {s = p} r (locks n o h)) = locks-IsSafe p n o h (Reach-IsSafe p r)
Reach-IsSafe s (next {s = p} r (notifies h)) = notifies-IsSafe p h (Reach-IsSafe p r)
Reach-IsSafe s (next {s = p} r (takes b)) = takes-IsSafe p b (Reach-IsSafe p r)
Reach-IsSafe s (next {s = p} r (sleeper_lock b h)) = sleeper_locks-IsSafe p
Reach-IsSafe s (next {s = p} r (checks found l)) = checks-IsSafe p found l (Reach-IsSafe p r)
Reach-IsSafe s (next {s = p} r (waits c)) = begin_wait-IsSafe p c (Reach-IsSafe p r)
Reach-IsSafe s (next {s = p} r (wakes w)) = wake_up-IsSafe p
Reach-IsSafe s (next {s = p} r (relocks w h)) = relock-IsSafe p
Reach-IsSafe s (next {s = p} r (leaves l)) = unlock_leave-IsSafe p

-- However the posting threads and the thread that processes tasks interleave: while the thread
-- sleeps and a task is in its input queue, a thread that posted holds the lock to notify it or has
-- yet to take it; and when such a thread notifies, the sleeping one wakes.
pub no_wakeup_lost :
    (s : Wakeup)
    → Reach s
    → s.place ≡ waiting
    → s.posted ≡ true
    → WillNotify s × ((notify_all s).place ≡ woken)
unfolding notify_all
no_wakeup_lost s r e p = ((Reach-IsSafe s r).asleep e p, ground arith)
