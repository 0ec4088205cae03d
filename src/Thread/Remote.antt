-- ===== src/Thread/Remote.antt =====
-- What src/thread.cpp does across OS threads: `thread::current`, the start of a thread by
-- `thread::create`, the wakeup in `async`, and `quit` called from another thread; and the conversion
-- of times.
pub mod Notified
pub mod Settled
pub mod Started
pub mod Own
pub mod Time
use boost_cmt.Base.{
  ◌^◌, ◌*◌, ltb, leb, ◌-◌, ℕ, suc, ◌+◌, ◌/◌, ◌%◌, ◌≡◌, Option, none, some, Bool, true, false, not,
  if◌then◌else◌, ◌==◌,
}
use boost_cmt.Base.Links.{put}
use boost_cmt.Promise.{Promise, empty, set_value, ready}
use boost_cmt.Thread.State.{World, default_priority, time_max}
use boost_cmt.Thread.Spawn.{async, async_vtask}
use boost_cmt.Thread.Switch.{wait, Progress}
use boost_cmt.StdHeap.{StdHeap}

-- The thread-local pointer `t` of every OS thread, the names, and the address that the next `new
-- thread()` returns. A name is a number; the constructor's is the address of thread_private.
pub record Locals : Type 0 where
  pub local : ℕ → Option ℕ
  pub name : ℕ → ℕ
  pub fresh : ℕ

-- thread::current on an OS thread.
unfoldable pub current : Locals → ℕ → Locals × ℕ
current l os = elim (l.local os) [
  | some t ↦ (l, t)
  | none ↦ (
    record l {
      local = put l.local os (some l.fresh);
      name = put l.name l.fresh l.fresh;
      fresh = suc l.fresh;
    },
    l.fresh,
  )
]

unfoldable pub set_name : Locals → ℕ → ℕ → Locals
set_name l t n = record l { name = put l.name t n }

-- How far start_thread is on the new OS thread.
pub data Stage : Type 0 where
  begins valued named : Stage

-- thread::create( n ) between the start of the OS thread `child` and its return, with what both
-- sides share. `returned` is the thread that `p->wait()` gave, and `joinable` its `boost_thread`.
pub record Creation : Type 0 where
  pub locals : Locals
  pub prom : Promise ℕ
  pub stage : Stage
  pub returned : Option ℕ
  pub joinable : Option ℕ

abbrev pub created : Locals → Creation
created l = record { locals = l; prom = empty; stage = begins; returned = none; joinable = none }

-- `p->set_value( &thread::current() )`
unfoldable pub child_value : ℕ → Creation → Creation
unfolding current
child_value child c =
    let (l, t) = current c.locals child in
    record c { locals = l; prom = (set_value c.prom t).0; stage = valued }

-- `thread::current().set_name( n )`
unfoldable pub child_name : ℕ → ℕ → Creation → Creation
unfolding current set_name
child_name child n c =
    let (l, t) = current c.locals child in record c { locals = set_name l t n; stage = named }

-- `ct = p->wait()`, once it goes on, and `ct->set_boost_thread( t )`
unfoldable pub parent_returns : ℕ → Creation → Creation
parent_returns child c = record c { returned = c.prom.value; joinable = some child }

-- The OS threads `child` and the caller's run at the same time.
pub data Step (child n : ℕ) (c : Creation) : Creation → Type 0 where
  values : c.stage ≡ begins → Step child n c (child_value child c)
  names : c.stage ≡ valued → Step child n c (child_name child n c)
  returns : ready c.prom ≡ true → Step child n c (parent_returns child c)

pub data Reach (child n : ℕ) (l : Locals) : Creation → Type 0 where
  here : Reach child n l (created l)
  next : {c d : Creation} → Reach child n l c → Step child n c d → Reach child n l d

-- microseconds::max()
abbrev pub micros_max : ℕ
micros_max = 2 ^ 63 - 1

-- async: whether the other thread is woken after the post.
unfoldable pub wakes : ℕ → ℕ → Bool
wakes self target = not (self == target)

module _ {A : Type 0} where
  -- quit from another thread: the state of the thread that is to quit, with the task `t` posted
  -- whose promise `p` the caller waits for.
  unfoldable pub quit_remote : World A → (t count p : ℕ) → World A
  unfolding async
  quit_remote w t count p = async w t count p default_priority

  -- The wait with a duration, on a clock of `ticks` to the microsecond. A negative duration stands as
  -- its 64 bits.
  unfoldable pub wait_for :
      StdHeap
      → (fuel scan : ℕ) → World A
      → (p ticks timeout_us now0 now1 now2 : ℕ) → Option (Progress A)
  unfolding wait
  wait_for std fuel scan w p ticks timeout_us now0 now1 now2 =
      if timeout_us == micros_max
      then wait std fuel scan w p time_max now1 now2
      else wait std fuel scan w p ((now0 + timeout_us * ticks) % 2 ^ 64) now1 now2

  -- thread::is_running
  unfoldable pub is_running : World A → Bool
  is_running w = elim w.current [ some c ↦ true | none ↦ false ]

-- A count since 1970, or before: `before d` is -d.
pub data Count : Type 0 where
  since before : ℕ → Count

-- Division and remainder of a count go toward 0.
abbrev pub quotient : Count → ℕ → Count
quotient (since d) k = since (d / k)
quotient (before d) k = before (d / k)

abbrev pub remainder : Count → ℕ → Count
remainder (since d) k = since (d % k)
remainder (before d) k = before (d % k)

-- The conversion to a `long` of a sign bit and `w` more bits, which wraps around.
unfoldable pub to_long : ℕ → Count → Count
to_long w (since n) =
    let m = n % (2 * 2 ^ w) in if ltb m (2 ^ w) then since m else before (2 * 2 ^ w - m)
to_long w (before n) =
    let m = n % (2 * 2 ^ w) in if leb m (2 ^ w) then before m else since (2 * 2 ^ w - m)

-- The `seconds` and `microseconds` that to_system_time adds to the epoch, at the count of a
-- system_clock that ticks `ticks` times a microsecond.
unfoldable pub to_system_time : (ticks w : ℕ) → Count → Count × Count
unfolding to_long
to_system_time ticks w t =
    let d = quotient t ticks in
    (to_long w (quotient d 1_000_000), to_long w (remainder d 1_000_000))
