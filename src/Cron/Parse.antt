-- ===== src/Cron/Parse.antt =====
-- `ParseCron` and the functions below it, of internal/scheduleexpr/cron.go.
pub mod Marks
pub mod Refusals
use ductile.Common.{
  ℕ, zero, suc, ◌+◌, ◌-◌, ◌*◌, Bool, true, false, ◌&&◌, ◌||◌, List, [], ◌∷◌, map, Option, none,
  some, ltb, leb, ◌==◌, if◌then◌else◌, set, replicate,
}
use ductile.Common.Int.{ℤ, pos, negsuc, pos_part, is_pos}
use ductile.Common.Text.{Text, codes, text_eq, is_empty, trim_space}
use mathlib.Core.List.{reverse}
use ductile.Common.Text.{split, contains_char, is_space}
use ductile.Scheduler.Window.{lower, is_digit}
use ductile.Cron.Types.{
  CronField, CronExpression, is_marked, expected_five_fields, empty_field, empty_segment,
  no_values_selected, invalid_step, descending_range, invalid_range, empty_value, invalid_value,
  out_of_range, index_panic, Parsed, parsed, failed, ◌>>=◌,
}

-- 2 ^ 63: an `int` is below it.
abbrev int_limit : ℕ
int_limit = 9_223_372_036_854_775_808

digits_from : ℕ → Text → Option ℕ
digits_from acc [] = some acc
digits_from acc (c ∷ s) =
    let rest = digits_from (acc * 10 + (c - 48)) s in if is_digit c then rest else none

abbrev digits : Text → Option ℕ
digits [] = none
digits (c ∷ s) = digits_from 0 (c ∷ s)

-- A number read after a sign, if an `int` holds it.
abbrev positive : Option ℕ → Option ℤ
positive none = none
positive (some n) = if ltb n int_limit then some (pos n) else none

abbrev negative : Option ℕ → Option ℤ
negative none = none
negative (some zero) = some (pos 0)
negative (some (suc n)) = if ltb n int_limit then some (negsuc n) else none

-- strconv.Atoi
unfoldable pub atoi : Text → Option ℤ
unfolding digits_from
atoi [] = none
atoi (c ∷ s) =
    if c == 43
    then positive (digits s)
    else if c == 45
    then negative (digits s)
    else positive (digits (c ∷ s))

abbrev lookup_name : List (Text × ℕ) → Text → Option ℕ
lookup_name [] s = none
lookup_name ((n, v) ∷ rest) s =
    let later = lookup_name rest s in if text_eq s n then some v else later

-- `monthNames`
month_names : List (Text × ℕ)
month_names =
    (codes "jan", 1)
    ∷ (codes "feb", 2)
    ∷ (codes "mar", 3)
    ∷ (codes "apr", 4)
    ∷ (codes "may", 5)
    ∷ (codes "jun", 6)
    ∷ (codes "jul", 7)
    ∷ (codes "aug", 8)
    ∷ (codes "sep", 9)
    ∷ (codes "oct", 10)
    ∷ (codes "nov", 11)
    ∷ (codes "dec", 12)
    ∷ []

-- `weekdayNames`
unfoldable pub weekday_names : List (Text × ℕ)
weekday_names =
    (codes "sun", 0)
    ∷ (codes "mon", 1)
    ∷ (codes "tue", 2)
    ∷ (codes "wed", 3)
    ∷ (codes "thu", 4)
    ∷ (codes "fri", 5)
    ∷ (codes "sat", 6)
    ∷ []

-- The number of `parseCronValue`, after Atoi.
abbrev in_range : ℕ → ℕ → Bool → Option ℤ → Parsed ℕ
in_range min max dow none = failed invalid_value
in_range min max dow (some (negsuc n)) = failed out_of_range
in_range min max dow (some (pos n)) =
    if dow && n == 7
    then parsed 0
    else if ltb n min || ltb max n
    then failed out_of_range
    else parsed n

abbrev name_or_number : List (Text × ℕ) → ℕ → ℕ → Bool → Text → Parsed ℕ
name_or_number names min max dow [] = failed empty_value
name_or_number names min max dow (c ∷ s) = elim (lookup_name names (c ∷ s)) [
  | some v ↦ parsed v
  | none ↦ in_range min max dow (atoi (c ∷ s))
]

-- `parseCronValue`
unfoldable pub parse_cron_value : List (Text × ℕ) → ℕ → ℕ → Bool → Text → Parsed ℕ
unfolding atoi lower
parse_cron_value names min max dow raw =
    name_or_number names min max dow (trim_space (map lower raw))

abbrev range_parts : List (Text × ℕ) → ℕ → ℕ → Bool → List Text → Parsed (ℕ × ℕ)
range_parts names min max dow (a ∷ b ∷ []) = do
  start ← parse_cron_value names min max dow a
  end ← parse_cron_value names min max dow b
  parsed (start, end)
range_parts names min max dow _ = failed invalid_range

-- `parseCronRange`
parse_cron_range : List (Text × ℕ) → ℕ → ℕ → Bool → Text → Parsed (ℕ × ℕ)
unfolding parse_cron_value
parse_cron_range names min max dow raw =
    if contains_char 45 raw
    then range_parts names min max dow (split 45 raw)
    else do val ← parse_cron_value names min max dow raw; parsed (val, val)

-- `for i := start; i <= end; i += step { allowed[i] = true }`. The sum is an `int`: where it
-- overflows it is negative, passes the test, and the index panics.
pub mark_from : ℕ → ℕ → ℕ → ℕ → List Bool → Parsed (List Bool)
mark_from zero i end step allowed = parsed allowed
mark_from (suc fuel) i end step allowed =
    let more = mark_from fuel (i + step) end step (set allowed i true) in
    let past = ltb (i + step) int_limit in
    if leb i end then if past then more else failed index_panic else parsed allowed

abbrev pub mark : ℕ → ℕ → ℕ → List Bool → Parsed (List Bool)
mark start end step allowed = mark_from (end + 1) start end step allowed

-- `if dow && allowed[7] { allowed[0] = true }`
abbrev sunday_is_zero : Bool → List Bool → List Bool
sunday_is_zero dow allowed = if dow && is_marked allowed 7 then set allowed 0 true else allowed

abbrev positive_step : Option ℤ → Parsed ℕ
positive_step none = failed invalid_step
positive_step (some n) = if is_pos n then parsed (pos_part n) else failed invalid_step

abbrev step_parts : List Text → Parsed (Text × ℕ)
step_parts (base ∷ s ∷ []) = do step ← positive_step (atoi s); parsed (base, step)
step_parts _ = failed invalid_step

-- The base and the step of a segment.
base_and_step : Text → Parsed (Text × ℕ)
unfolding atoi
base_and_step seg = if contains_char 47 seg then step_parts (split 47 seg) else parsed (seg, 1)

abbrev ordered : ℕ × ℕ → Parsed (ℕ × ℕ)
ordered (start, end) = if ltb end start then failed descending_range else parsed (start, end)

-- The range of a segment: the whole field for `*`.
pub segment_range : List (Text × ℕ) → ℕ → ℕ → Bool → Text → Parsed (ℕ × ℕ)
unfolding parse_cron_range
segment_range names min max dow base =
    if text_eq base (codes "*")
    then parsed (min, max)
    else parse_cron_range names min max dow base >>= ordered

-- `applyCronSegment`
pub apply_cron_segment : List (Text × ℕ) → ℕ → ℕ → Bool → Text → List Bool → Parsed (List Bool)
unfolding base_and_step segment_range mark_from
apply_cron_segment names min max dow seg allowed = do
  (base, step) ← base_and_step seg
  (start, end) ← segment_range names min max dow base
  marked ← mark start end step allowed
  parsed (sunday_is_zero dow marked)

-- The loop over the comma-separated segments.
apply_segments : List (Text × ℕ) → ℕ → ℕ → Bool → List Text → List Bool → Parsed (List Bool)
unfolding apply_cron_segment
apply_segments names min max dow [] allowed = parsed allowed
apply_segments names min max dow (seg ∷ segs) allowed =
    if is_empty (trim_space seg)
    then failed empty_segment
    else apply_cron_segment names min max dow (trim_space seg) allowed
      >>= apply_segments names min max dow segs

-- `allowed[min..max]` holds a true.
any_between : ℕ → ℕ → List Bool → Bool
any_between zero i allowed = false
any_between (suc n) i allowed = is_marked allowed i || any_between n (i + 1) allowed

abbrev selected : ℕ → ℕ → List Bool → Parsed CronField
selected min max allowed =
    if any_between (max + 1 - min) min allowed
    then parsed (record { marks = allowed; any = false; min = min; max = max })
    else failed no_values_selected

-- The field `*`: every value from `min` on, and 0 for a weekday.
star_field : ℕ → ℕ → Bool → Parsed CronField
unfolding mark_from
star_field min max dow = do
  marked ← mark min max 1 (replicate (max + 1) false)
  parsed (record {
    marks = if dow then set marked 0 true else marked;
    any = true;
    min = min;
    max = max;
  })

abbrev field_of : List (Text × ℕ) → ℕ → ℕ → Bool → Text → Parsed CronField
field_of names min max dow [] = failed empty_field
field_of names min max dow (c ∷ s) =
    if text_eq (c ∷ s) (codes "*")
    then star_field min max dow
    else apply_segments names min max dow (split 44 (c ∷ s)) (replicate (max + 1) false)
      >>= selected min max

-- `parseCronField`
parse_cron_field : List (Text × ℕ) → ℕ → ℕ → Bool → Text → Parsed CronField
unfolding apply_segments any_between star_field lower
parse_cron_field names min max dow raw = field_of names min max dow (trim_space (map lower raw))

-- strings.Fields
fields_from : Text → Text → List Text
fields_from acc [] = if is_empty acc then [] else reverse acc ∷ []
fields_from acc (c ∷ s) =
    let cut = fields_from [] s in
    let more = fields_from (c ∷ acc) s in
    if is_space c then if is_empty acc then cut else reverse acc ∷ cut else more

abbrev five_fields : List Text → Parsed CronExpression
five_fields (a ∷ b ∷ c ∷ d ∷ e ∷ []) = do
  minute ← parse_cron_field [] 0 59 false a
  hour ← parse_cron_field [] 0 23 false b
  dom ← parse_cron_field [] 1 31 false c
  month ← parse_cron_field month_names 1 12 false d
  dow ← parse_cron_field weekday_names 0 7 true e
  parsed (record { minute = minute; hour = hour; dom = dom; month = month; dow = dow })
five_fields _ = failed expected_five_fields

-- `ParseCron`
parse_cron : Text → Parsed CronExpression
unfolding parse_cron_field fields_from month_names weekday_names
parse_cron expr = five_fields (fields_from [] (trim_space expr))
