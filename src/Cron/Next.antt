-- ===== src/Cron/Next.antt =====
-- `NextAfter` of internal/scheduleexpr/cron.go. Package time is an argument: `civil` gives the
-- fields of a time in its location, and `in_five_years` is AddDate(5, 0, 0).
pub mod Least
use ductile.Common.{ℕ, zero, suc, ◌+◌, ◌-◌, ◌*◌, ◌/◌, Option, none, some, leb, if◌then◌else◌}
use ductile.Cron.Types.{CronExpression, Civil, matches}

-- time.Minute, in nanoseconds.
abbrev pub minute : ℕ
minute = 60_000_000_000

-- The loop, from the minute `m`.
next_from : (ℕ → Civil) → CronExpression → ℕ → ℕ → ℕ → Option ℕ
next_from civil c deadline zero m = none
next_from civil c deadline (suc fuel) m =
    let later = next_from civil c deadline fuel (m + 1) in
    if leb (m * minute) deadline
    then if matches c (civil (m * minute)) then some (m * minute) else later
    else none

-- The first minute after a time.
abbrev pub candidate : ℕ → ℕ
candidate from = from / minute + 1

-- `NextAfter`
pub next_after : (ℕ → Civil) → (ℕ → ℕ) → CronExpression → ℕ → Option ℕ
unfolding next_from
next_after civil in_five_years c from =
    let deadline = in_five_years (candidate from * minute) in
    next_from civil c deadline (deadline + 1 - candidate from) (candidate from)
