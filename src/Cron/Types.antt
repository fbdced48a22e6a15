-- ===== src/Cron/Types.antt =====
-- The parsed form of a cron expression and `Matches`, of internal/scheduleexpr/cron.go.
use ductile.Common.{
  ℕ, Bool, true, false, not, ◌&&◌, ◌||◌, List, none, some, ltb, leb, if◌then◌else◌, length,
  get_elem?,
}

-- `cronField`
pub record CronField : Type 0 where
  pub marks : List Bool
  pub any : Bool
  pub min : ℕ
  pub max : ℕ

-- `CronExpression`
pub record CronExpression : Type 0 where
  pub minute : CronField
  pub hour : CronField
  pub dom : CronField
  pub month : CronField
  pub dow : CronField

-- `allowed[v]`, which is not read out of range.
abbrev pub is_marked : List Bool → ℕ → Bool
is_marked xs v = elim (get_elem? xs v) [ none ↦ false | some b ↦ b ]

-- `cronField.matches`
field_matches : CronField → ℕ → Bool
field_matches f v =
    if ltb v f.min || ltb f.max v
    then false
    else if leb (length f.marks) v
    then false
    else is_marked f.marks v

-- The fields of a time that `Matches` reads: what package time gives for it in its location.
pub record Civil : Type 0 where
  pub minute : ℕ
  pub hour : ℕ
  pub day : ℕ
  pub month : ℕ
  pub weekday : ℕ

-- `Matches`
pub matches : CronExpression → Civil → Bool
unfolding field_matches
matches c t =
    if not (field_matches c.minute t.minute)
      || (not (field_matches c.hour t.hour) || not (field_matches c.month t.month))
    then false
    else let dom_match = field_matches c.dom t.day in
      let dow_match = field_matches c.dow t.weekday in
      if c.dom.any && c.dow.any
      then true
      else if c.dom.any
      then dow_match
      else if c.dow.any
      then dom_match
      else dom_match || dow_match

-- The errors of `ParseCron`. `index_panic` is the run-time panic of an index that overflowed.
pub data CronError : Type 0 where
  expected_five_fields empty_field empty_segment no_values_selected invalid_step : CronError
  descending_range invalid_range empty_value invalid_value out_of_range index_panic : CronError

pub data Parsed (A : Type 0) : Type 0 where
  parsed : A → Parsed A
  failed : CronError → Parsed A

infixl 5 ◌>>=◌
abbrev pub ◌>>=◌ : {A B : Type 0} → Parsed A → (A → Parsed B) → Parsed B
parsed a >>= f = f a
failed e >>= f = failed e
