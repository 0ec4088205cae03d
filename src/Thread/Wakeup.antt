-- ===== src/Thread/Wakeup.antt =====
-- The wakeup of a thread that sleeps in process_tasks by the threads that post to it, in
-- src/thread.cpp: `task_ready_mutex` and `task_ready`. One step is what one thread does up to the
-- next point where another one may run; the mutex and the condition variable do what Boost.Thread
-- documents, spurious wakeups included.
pub mod Lost
use boost_cmt.Base.{ℕ, suc, ◌≡◌, Bool, true, false, if◌then◌else◌}

-- Who holds `task_ready_mutex`.
pub data Holder : Type 0 where
  nobody sleeper poster : Holder

-- Where the thread is that processes tasks: elsewhere; with the lock, before `dequeue`; with the
-- lock, where `dequeue` found no task; in the wait, without the lock; out of the wait, without the
-- lock yet; with the lock and a task or after the wait.
pub data Place : Type 0 where
  busy locking checked waiting woken leaving : Place

-- `posted` is whether `task_in_queue` is not null, and `owing` how many threads have posted and not
-- yet taken the lock to notify.
pub record Wakeup : Type 0 where
  pub place : Place
  pub holder : Holder
  pub posted : Bool
  pub owing : ℕ

abbrev pub at_first : Wakeup
at_first = record { place = busy; holder = nobody; posted = false; owing = 0 }

-- The exchange of `async` succeeds.
unfoldable pub post_task : Wakeup → Wakeup
post_task s = record s { posted = true; owing = suc s.owing }

-- `unique_lock lock( task_ready_mutex )` in `async`, with `n` other threads that owe.
unfoldable pub poster_locks : Wakeup → ℕ → Wakeup
poster_locks s n = record s { holder = poster; owing = n }

abbrev pub notified : Place → Place
notified waiting = woken
notified busy = busy
notified locking = locking
notified checked = checked
notified woken = woken
notified leaving = leaving

-- `task_ready.notify_all()`, and the end of the lock's scope.
unfoldable pub notify_all : Wakeup → Wakeup
notify_all s = record s { place = notified s.place; holder = nobody }

-- `dequeue` outside of the lock.
unfoldable pub take_tasks : Wakeup → Wakeup
take_tasks s = record s { posted = false }

-- `unique_lock lock( task_ready_mutex )` in process_tasks
unfoldable pub sleeper_locks : Wakeup → Wakeup
sleeper_locks s = record s { place = locking; holder = sleeper }

-- `next = dequeue()`, which empties the input queue, and whether it returns a task.
unfoldable pub check_again : Bool → Wakeup → Wakeup
check_again found s = record s { place = if found then leaving else checked; posted = false }

-- `task_ready.wait( lock )` or `timed_wait`: the lock is released as the wait begins.
unfoldable pub begin_wait : Wakeup → Wakeup
begin_wait s = record s { place = waiting; holder = nobody }

-- The time is over, or there is no reason.
unfoldable pub wake_up : Wakeup → Wakeup
wake_up s = record s { place = woken }

-- The wait has the lock again.
unfoldable pub relock : Wakeup → Wakeup
relock s = record s { place = leaving; holder = sleeper }

unfoldable pub unlock_leave : Wakeup → Wakeup
unlock_leave s = record s { place = busy; holder = nobody }

pub data Step (s : Wakeup) : Wakeup → Type 0 where
  posts : Step s (post_task s)
  locks : (n : ℕ) → s.owing ≡ suc n → s.holder ≡ nobody → Step s (poster_locks s n)
  notifies : s.holder ≡ poster → Step s (notify_all s)
  takes : s.place ≡ busy → Step s (take_tasks s)
  sleeper_lock : s.place ≡ busy → s.holder ≡ nobody → Step s (sleeper_locks s)
  checks : (found : Bool) → s.place ≡ locking → Step s (check_again found s)
  waits : s.place ≡ checked → Step s (begin_wait s)
  wakes : s.place ≡ waiting → Step s (wake_up s)
  relocks : s.place ≡ woken → s.holder ≡ nobody → Step s (relock s)
  leaves : s.place ≡ leaving → Step s (unlock_leave s)

pub data Reach : Wakeup → Type 0 where
  here : Reach at_first
  next : {s u : Wakeup} → Reach s → Step s u → Reach u
