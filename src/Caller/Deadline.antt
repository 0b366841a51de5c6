-- ===== src/Caller/Deadline.antt =====
-- rmr_si.c: the time at which a wait with a limit ends, as rmr_mt_rcv and `mt_call` compute it.
use ric_plt_lib_rmr.Base.{ℕ, ◌+◌, ◌-◌, ◌*◌, ◌/◌, ◌≤◌, ◌<◌, arith, ltb, if◌then◌else◌}

pub record Timespec : Type 0 where
  pub tv_sec : ℕ
  pub tv_nsec : ℕ

-- a limit above 999 milliseconds gives its whole seconds to the seconds
abbrev whole_seconds : ℕ → ℕ
whole_seconds max_wait = if ltb 999 max_wait then max_wait / 1000 else 0

-- The nanoseconds, carried over when they are too many.
abbrev carried : ℕ → ℕ → Timespec
carried sec nsec =
    if ltb 999999999 nsec
    then record { tv_sec = sec + 1; tv_nsec = nsec - 999999999 }
    else record { tv_sec = sec; tv_nsec = nsec }

-- the time now and the limit in milliseconds, which is not negative
unfoldable pub deadline : Timespec → ℕ → Timespec
deadline now max_wait =
    let sec = whole_seconds max_wait in
    let rest = max_wait - sec * 1000 in
    if ltb 0 rest
    then carried (now.tv_sec + sec) (now.tv_nsec + rest * 1000000)
    else record { tv_sec = now.tv_sec + sec; tv_nsec = now.tv_nsec }

abbrev pub nanoseconds : Timespec → ℕ
nanoseconds t = t.tv_sec * 1000000000 + t.tv_nsec

-- The deadline is a valid time, and it is the limit from now on, or one nanosecond after that.
pub deadline_bounds :
    (now : Timespec) (max_wait : ℕ)
    → now.tv_nsec < 1000000000
    → ((deadline now max_wait).tv_nsec < 1000000000)
      × (nanoseconds now + max_wait * 1000000 ≤ nanoseconds (deadline now max_wait))
      × (nanoseconds (deadline now max_wait) ≤ nanoseconds now + max_wait * 1000000 + 1)
unfolding deadline
deadline_bounds now max_wait h = ground arith
