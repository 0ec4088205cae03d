-- ===== src/Thread/Remote/Time.antt =====
-- What the conversion of a time keeps of it.
use native.Mathlib.Nat.{div-add-mod, mod-lt, mod-eq_of_lt}
use boost_cmt.Base.{ℕ, ◌+◌, ◌*◌, ◌^◌, ◌≡◌, ◌≤◌, ◌<◌, ◌/◌, ◌%◌, arith, refl, subst, ltb, leb, true}
use boost_cmt.Thread.Remote.{Count, since, before, to_long, to_system_time}

abbrev pub magnitude : Count → ℕ
magnitude (since d) = d
magnitude (before d) = d

-- A count as far as `n` from the epoch, on the side of `t`.
abbrev pub same_side : Count → ℕ → Count
same_side (since d) n = since n
same_side (before d) n = before n

-- What fits into a `long` is not changed.
to_long-same_side : (w n : ℕ) (t : Count) → n < 2 ^ w → to_long w (same_side t n) ≡ same_side t n
unfolding to_long
to_long-same_side w n (since d) l =
    let kept : n % (2 * 2 ^ w) ≡ n = mod-eq_of_lt (omega arith) in
    let small : ltb n (2 ^ w) ≡ true = ground arith in rw (kept, small) refl
to_long-same_side w n (before d) l =
    let kept : n % (2 * 2 ^ w) ≡ n = mod-eq_of_lt (omega arith) in
    let small : leb n (2 ^ w) ≡ true = ground arith in rw (kept, small) refl

-- What the two numbers are made of.
parts :
    (ticks w : ℕ) (t : Count)
    → magnitude t / ticks / 1_000_000 < 2 ^ w
    → 1_000_000 ≤ 2 ^ w
    → to_system_time ticks w t ≡ (
      same_side t (magnitude t / ticks / 1_000_000),
      same_side t (magnitude t / ticks % 1_000_000),
    )
unfolding to_system_time
parts ticks w (since d) l b =
    let rest : d / ticks % 1_000_000 < 2 ^ w = omega arith in
    rw (to_long-same_side w _ (since d) l, to_long-same_side w _ (since d) rest) refl
parts ticks w (before d) l b =
    let rest : d / ticks % 1_000_000 < 2 ^ w = omega arith in
    rw (to_long-same_side w _ (before d) l, to_long-same_side w _ (before d) rest) refl

-- Where a `long` holds a million and the seconds of the time: the seconds and microseconds that are
-- added to the epoch lie on the side of the time given, also before 1970; the microseconds are less
-- than a second; and both together are the time, short of it by less than a microsecond.
pub to_system_time_rounds :
    (ticks w : ℕ) (t : Count)
    → 0 < ticks
    → 1_000_000 ≤ 2 ^ w
    → magnitude t / ticks / 1_000_000 < 2 ^ w
    → (seconds : ℕ) × (micros : ℕ) × (to_system_time ticks w t
        ≡ (same_side t seconds, same_side t micros))
      × (micros < 1_000_000)
      × (ticks * (seconds * 1_000_000 + micros) ≤ magnitude t)
      × (magnitude t < ticks * (seconds * 1_000_000 + micros) + ticks)
to_system_time_rounds ticks w t p b l =
    let us = magnitude t / ticks in
    let whole : us ≡ us / 1_000_000 * 1_000_000 + us % 1_000_000 = omega arith in
    let exact = div-add-mod (magnitude t) ticks in
    let rest = mod-lt (magnitude t) p in
    (
      us / 1_000_000,
      us % 1_000_000,
      parts ticks w t l b,
      omega arith,
      subst (λ n. ticks * n ≤ magnitude t) whole (omega (arith, exact)),
      subst (λ n. magnitude t < ticks * n + ticks) whole (omega (arith, exact, rest)),
    )
