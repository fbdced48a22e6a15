-- ===== src/Scheduler/CronDue/Slots.antt =====
-- The slot that `evaluateCronDueState` of internal/scheduler/scheduler.go gives a new entry.
use ductile.Common.{
  ℕ, ◌-◌, ◌*◌, ◌/◌, ◌≤◌, ◌<◌, Bool, false, Option, none, some, ◌≡◌, refl, subst, inl, inr,
  Bool-cases, arith,
}
use ductile.Cron.Types.{CronExpression, Civil, matches}
use ductile.Cron.Next.{minute, candidate, next_after}
use ductile.Cron.Next.Least.{IsFirst, next_after_lem}
use ductile.Scheduler.CronDue.{
  slot_of, CronDue, due_state, no_match, initialized, evaluate_cron_due_state,
}

abbrev pub slot_in : CronDue → Option ℕ
slot_in (due_state due slot initialize) = some slot
slot_in no_match = none

abbrev pub is_due_now : CronDue → Bool
is_due_now (due_state due slot initialize) = due
is_due_now no_match = false

slot_in-initialized : (o : Option ℕ) → slot_in (initialized o) ≡ o
slot_in-initialized none = refl
slot_in-initialized (some t) = refl

not_due : (o : Option ℕ) → is_due_now (initialized o) ≡ false
not_due none = refl
not_due (some t) = refl

-- An entry without a next run gets the first minute that the expression matches, from the present
-- minute on and up to the date five years on, or an error where there is none; it is due exactly
-- where the present minute matches. The date five years on is not before its start, and the present
-- is past the first minute of the epoch.
pub evaluate_cron_due_state_lem :
    (civil : ℕ → Civil) (in_five_years : ℕ → ℕ) (expr : CronExpression) (now : ℕ)
    → ((t : ℕ) → t ≤ in_five_years t)
    → minute ≤ now
    → IsFirst civil expr
        (in_five_years (slot_of now))
        (now / minute)
        (slot_in (evaluate_cron_due_state civil in_five_years expr none now))
      × (is_due_now (evaluate_cron_due_state civil in_five_years expr none now)
          ≡ matches expr (civil (slot_of now)))
unfolding evaluate_cron_due_state
evaluate_cron_due_state_lem civil in_five_years expr now later h =
    elim (Bool-cases (matches expr (civil (slot_of now)))) [
      | inl t ↦ rw (t) (
        (now / minute, refl, omega arith, later (slot_of now), t, λ k a b. absurd (apart k a b)),
        refl,
      )
      | inr f ↦ rw f (
        rw (slot_in-initialized (next_after civil in_five_years expr (slot_of now - minute))) first,
        not_due (next_after civil in_five_years expr (slot_of now - minute)),
      )
    ]
  where
    apart : (k : ℕ) → now / minute ≤ k → k < now / minute → ⊥
    apart k a b = omega arith

    same : candidate (slot_of now - minute) ≡ now / minute
    same = omega arith

    first :
        IsFirst civil expr
          (in_five_years (slot_of now))
          (now / minute)
          (next_after civil in_five_years expr (slot_of now - minute))
    first =
        subst
          (λ m.
            IsFirst civil expr (in_five_years (m * minute)) m
              (next_after civil in_five_years expr (slot_of now - minute)))
          same (next_after_lem civil in_five_years expr (slot_of now - minute)).2
