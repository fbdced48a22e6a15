-- ===== src/Scheduler/Window.antt =====
-- When a schedule may run: `countMissedRuns`, `scheduleConstraintsAllowAt`, `parseClockConstraint`
-- and the weekday parsers of internal/scheduler/scheduler.go.
pub mod Bounds
use ductile.Common.{
  ℕ, ◌+◌, ◌-◌, ◌*◌, ◌/◌, Bool, true, false, ◌&&◌, ◌||◌, List, [], ◌∷◌, map, Option, none, some, ltb,
  leb, ◌==◌, if◌then◌else◌,
}
use ductile.Common.Int.{ℤ, pos, negsuc, pos_part, is_pos}
use ductile.Common.Text.{Text, codes, text_eq, is_empty, trim_space}
use ductile.Common.Text.{split}

-- `countMissedRuns`, on nanoseconds since the epoch.
pub count_missed_runs : ℕ → ℕ → ℤ → ℕ
count_missed_runs last now interval =
    if is_pos interval
    then if leb now last
      then 0
      else if ltb now (last + pos_part interval)
      then 0
      else (now - (last + pos_part interval)) / pos_part interval + 1
    else 0

-- A weekday token of not_on, as YAML gives it. `float_token` holds whether the number is whole.
pub data WeekdayToken : Type 0 where
  int_token : ℤ → WeekdayToken
  float_token : (is_integer : Bool) → ℤ → WeekdayToken
  string_token : Text → WeekdayToken
  other_token : WeekdayToken

-- `parseWeekdayIntConstraint`; Sunday is 0.
parse_weekday_int_constraint : ℤ → Option ℕ
parse_weekday_int_constraint (pos n) = if n == 7 then some 0 else if leb n 6 then some n else none
parse_weekday_int_constraint (negsuc n) = none

-- strings.ToLower on the letters that weekday names can hold: ASCII, and the two other letters
-- whose lower case is ASCII.
unfoldable pub lower : ℕ → ℕ
lower c =
    if leb 65 c && leb c 90
    then c + 32
    else if c == 0x130
    then 105
    else if c == 0x212A
    then 107
    else c

abbrev is_one_of : List Text → Text → Bool
is_one_of [] s = false
is_one_of (n ∷ ns) s = text_eq s n || is_one_of ns s

abbrev weekday_names : List (List Text)
weekday_names =
    (codes "sun" ∷ codes "sunday" ∷ [])
    ∷ (codes "mon" ∷ codes "monday" ∷ [])
    ∷ (codes "tue" ∷ codes "tues" ∷ codes "tuesday" ∷ [])
    ∷ (codes "wed" ∷ codes "wednesday" ∷ [])
    ∷ (codes "thu" ∷ codes "thurs" ∷ codes "thursday" ∷ [])
    ∷ (codes "fri" ∷ codes "friday" ∷ [])
    ∷ (codes "sat" ∷ codes "saturday" ∷ [])
    ∷ []

abbrev position : ℕ → List (List Text) → Text → Option ℕ
position i [] s = none
position i (ns ∷ rest) s =
    let later = position (i + 1) rest s in if is_one_of ns s then some i else later

-- `parseWeekdayStringConstraint`
parse_weekday_string_constraint : Text → Option ℕ
unfolding lower
parse_weekday_string_constraint raw = position 0 weekday_names (map lower (trim_space raw))

-- `parseWeekdayConstraint`
parse_weekday_constraint : WeekdayToken → Option ℕ
unfolding parse_weekday_int_constraint parse_weekday_string_constraint
parse_weekday_constraint (int_token v) = parse_weekday_int_constraint v
parse_weekday_constraint (float_token true v) = parse_weekday_int_constraint v
parse_weekday_constraint (float_token false v) = none
parse_weekday_constraint (string_token s) = parse_weekday_string_constraint s
parse_weekday_constraint other_token = none

abbrev pub is_digit : ℕ → Bool
is_digit c = leb 48 c && leb c 57

abbrev clock : ℕ → ℕ → Option ℕ
clock hour minute = if ltb hour 24 && ltb minute 60 then some (hour * 60 + minute) else none

-- The minutes: two digits and nothing after them.
abbrev parse_minute : ℕ → Text → Option ℕ
parse_minute hour (a ∷ b ∷ []) =
    if is_digit a && is_digit b then clock hour ((a - 48) * 10 + (b - 48)) else none
parse_minute hour _ = none

abbrev parse_colon : ℕ → Text → Option ℕ
parse_colon hour [] = none
parse_colon hour (c ∷ s) = if c == 58 then parse_minute hour s else none

-- time.Parse("15:04", s): an hour of one or two digits, a colon, two digits of minutes.
parse_clock : Text → Option ℕ
parse_clock [] = none
parse_clock (a ∷ []) = none
parse_clock (a ∷ b ∷ s) =
    if is_digit a
    then if is_digit b
      then parse_colon ((a - 48) * 10 + (b - 48)) s
      else parse_colon (a - 48) (b ∷ s)
    else none

-- `parseClockConstraint`, in minutes of the day.
parse_clock_constraint : Text → Option ℕ
unfolding parse_clock
parse_clock_constraint raw = parse_clock (trim_space raw)

-- The local time of an instant: what time.In, Weekday, Hour and Minute give.
pub record LocalTime : Type 0 where
  pub weekday : ℕ
  pub hour : ℕ
  pub minute : ℕ

-- The fields of `ScheduleConfig` that constrain a run.
pub record Constraints : Type 0 where
  pub timezone : Text
  pub not_on : List WeekdayToken
  pub only_between : Text

pub data Allow : Type 0 where
  allow outside_day_constraint outside_time_window : Allow
  unknown_timezone invalid_weekday invalid_window invalid_clock empty_window : Allow

-- The loop over not_on. `none` is that no day rules the run out.
check_days : ℕ → List WeekdayToken → Option Allow
unfolding parse_weekday_constraint
check_days day [] = none
check_days day (t ∷ ts) =
    let rest = check_days day ts in
    elim (parse_weekday_constraint t) [
      | none ↦ some invalid_weekday
      | some d ↦ if d == day then some outside_day_constraint else rest
    ]

-- The test of the minute against the window.
in_window : ℕ → ℕ → ℕ → Allow
in_window start stop now =
    if ltb start stop
    then if ltb now start || leb stop now then outside_time_window else allow
    else if leb start now || ltb now stop
    then allow
    else outside_time_window

abbrev check_clocks : Option ℕ → Option ℕ → ℕ → Allow
check_clocks none e now = invalid_clock
check_clocks (some s) none now = invalid_clock
check_clocks (some s) (some e) now = if s == e then empty_window else in_window s e now

abbrev check_parts : List Text → ℕ → Allow
check_parts (a ∷ b ∷ []) now =
    check_clocks (parse_clock_constraint a) (parse_clock_constraint b) now
check_parts _ now = invalid_window

-- The rest of `scheduleConstraintsAllowAt`, from the window on, which is trimmed.
check_window : Text → ℕ → Allow
unfolding parse_clock_constraint in_window
check_window [] now = allow
check_window (c ∷ s) now = check_parts (split 45 (c ∷ s)) now

abbrev check_local : Constraints → Option LocalTime → Allow
check_local c none = unknown_timezone
check_local c (some t) = elim (check_days t.weekday c.not_on) [
  | some a ↦ a
  | none ↦ check_window (trim_space c.only_between) (t.hour * 60 + t.minute)
]

-- `scheduleConstraintsAllowAt`. `utc` is the instant in UTC, and `in_zone` in a named zone, if
-- time.LoadLocation knows the name.
schedule_constraints_allow_at : LocalTime → (Text → Option LocalTime) → Constraints → Allow
unfolding check_days check_window
schedule_constraints_allow_at utc in_zone c =
    check_local c
      (if is_empty (trim_space c.timezone) then some utc else in_zone (trim_space c.timezone))
