-- ===== src/Examples/Crons.antt =====
-- Runs of the theorems on cron expressions.
use ductile.Common.{
  none, ℕ, ◌+◌, ◌*◌, ◌/◌, ◌%◌, ◌≤◌, ◌<◌, true, false, [], some, ◌≡◌, refl, arith, replicate,
}
use ductile.Common.Int.{pos}
use ductile.Common.Text.{codes, text_eq, contains_char, trim_space}
use ductile.Cron.Types.{
  CronExpression, CronField, Civil, parsed, failed, index_panic, descending_range,
}
use ductile.Cron.Parse.{
  atoi, parse_cron_value, segment_range, apply_cron_segment, mark, weekday_names,
}
use ductile.Cron.Parse.Marks.{Marked, mark-Marked}
use ductile.Cron.Parse.Refusals.{range_to_seven, step_overflow}
use ductile.Cron.Next.{candidate, minute, next_after}
use ductile.Scheduler.CronDue.{slot_of, evaluate_cron_due_state}
use ductile.Scheduler.CronDue.Slots.{slot_in, is_due_now, evaluate_cron_due_state_lem}
use ductile.Cron.Types.{matches}
use ductile.Cron.Next.Least.{IsFirst, next_after_lem}

-- A clock of UTC on the first day of the epoch.
abbrev civil : ℕ → Civil
civil t = record {
  minute = t / minute % 60;
  hour = t / minute / 60 % 24;
  day = 1;
  month = 1;
  weekday = 4;
}

abbrev all_marked : ℕ → CronField
all_marked top = record { marks = replicate (top + 1) true; any = true; min = 0; max = top }

abbrev always : CronExpression
always = record {
  minute = all_marked 59;
  hour = all_marked 23;
  dom = all_marked 31;
  month = all_marked 12;
  dow = all_marked 7;
}

next_after_lem_example :
    (5 < candidate 5 * minute)
    × (candidate 5 * minute ≤ 5 + minute)
    × IsFirst civil always
        (candidate 5 * minute + 7)
        (candidate 5)
        (next_after civil (λ t. t + 7) always 5)
next_after_lem_example = next_after_lem civil (λ t. t + 7) always 5

mark-Marked_example : Marked 2 2 4 (replicate 6 false) (mark 2 4 2 (replicate 6 false))
mark-Marked_example =
    mark-Marked 2 4 2 (replicate 6 false) (omega arith) (omega arith) (omega arith)

is_friday : parse_cron_value weekday_names 0 7 true (codes "fri") ≡ parsed 5
unfolding parse_cron_value trim_space weekday_names text_eq
is_friday = refl

one_name : contains_char 45 (codes "fri") ≡ false
unfolding contains_char
one_name = refl

range_to_seven_example :
    segment_range weekday_names 0 7 true (codes "fri-7") ≡ failed descending_range
range_to_seven_example = range_to_seven (codes "fri") 5 one_name is_friday (omega arith)

largest : atoi (codes "9223372036854775807") ≡ some (pos 9_223_372_036_854_775_807)
unfolding atoi
largest = refl

no_slash : contains_char 47 (codes "9223372036854775807") ≡ false
unfolding contains_char
no_slash = refl

step_overflow_example :
    apply_cron_segment [] 1 31 false (codes "*/9223372036854775807") (replicate 32 false)
    ≡ failed index_panic
step_overflow_example =
    step_overflow [] 1 31 (codes "9223372036854775807") 9_223_372_036_854_775_807
      (replicate 32 false) no_slash largest (omega arith) (omega arith) (omega arith)

evaluate_cron_due_state_lem_example :
    IsFirst civil always
      (slot_of (minute + 5) + 7)
      1
      (slot_in (evaluate_cron_due_state civil (λ t. t + 7) always none (minute + 5)))
    × (is_due_now (evaluate_cron_due_state civil (λ t. t + 7) always none (minute + 5))
        ≡ matches always (civil (slot_of (minute + 5))))
evaluate_cron_due_state_lem_example =
    evaluate_cron_due_state_lem civil (λ t. t + 7) always (minute + 5) later (omega arith)
  where
    later : (t : ℕ) → t ≤ t + 7
    later t = omega arith
