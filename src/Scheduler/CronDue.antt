-- ===== src/Scheduler/CronDue.antt =====
-- Whether a cron schedule is due: `evaluateCronDueState` of internal/scheduler/scheduler.go over
-- internal/scheduleexpr/cron.go.
pub mod Slots
use ductile.Common.{ℕ, ◌-◌, ◌*◌, ◌/◌, Bool, true, false, Option, none, some, leb, if◌then◌else◌}
use ductile.Cron.Types.{CronExpression, Civil, matches}
use ductile.Cron.Next.{minute, next_after}

-- Truncate(time.Minute)
abbrev pub slot_of : ℕ → ℕ
slot_of t = t / minute * minute

-- What `evaluateCronDueState` returns: whether the schedule is due, the slot, and whether the slot is
-- to be stored; `no_match` is the error of NextAfter.
pub data CronDue : Type 0 where
  due_state : (due : Bool) (slot : ℕ) (initialize : Bool) → CronDue
  no_match : CronDue

abbrev initialized : Option ℕ → CronDue
initialized none = no_match
initialized (some t) = due_state false t true

-- `evaluateCronDueState`, on the entry's next_run_at.
pub evaluate_cron_due_state : (ℕ → Civil) → (ℕ → ℕ) → CronExpression → Option ℕ → ℕ → CronDue
evaluate_cron_due_state civil in_five_years expr next_run_at now = elim next_run_at [
  | none ↦
      if matches expr (civil (slot_of now))
      then due_state true (slot_of now) false
      else initialized (next_after civil in_five_years expr (slot_of now - minute))
  | some t ↦ due_state (leb (slot_of t) (slot_of now)) (slot_of t) false
]
