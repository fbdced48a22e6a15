-- ===== src/Scheduler/Window/Bounds.antt =====
-- Bounds of the schedule windows of internal/scheduler/scheduler.go.
use ductile.Common.{
  ℕ, zero, suc, ◌+◌, ◌-◌, ◌*◌, ◌/◌, ◌%◌, ◌≤◌, ◌<◌, true, false, List, [], ◌∷◌, map, some, ◌≡◌, ◌≢◌,
  ◌↔◌, sym, inl, inr, ltb, leb, if◌then◌else◌, Bool-cases, ltb→lt, leb→le, arith, length,
}
use ductile.Common.Int.{ℤ, pos, negsuc}
use ductile.Common.Text.{Text, trim_space}
use native.Mathlib.Nat.{zero-div, div-eq_of_lt, div-eq-sub-div, le-div_iff_mul-le, mul_comm}
use ductile.Scheduler.Window.{
  count_missed_runs, parse_weekday_constraint, parse_weekday_int_constraint, WeekdayToken,
  int_token, float_token, string_token, other_token, in_window, allow, outside_time_window,
  is_one_of, position, weekday_names, lower,
}

missed-eq-div : (last now n : ℕ) → count_missed_runs last now (pos (suc n)) ≡ (now - last) / suc n
unfolding count_missed_runs
missed-eq-div last now n = elim (Bool-cases (leb now last)) [
  | inl t ↦
      let e : now - last ≡ 0 = omega (arith, leb→le now last t) in
      rw (t, e) (sym (zero-div (suc n)))
  | inr f ↦ elim (Bool-cases (ltb now (last + suc n))) [
    | inl t ↦
        let g = ltb→lt now (last + suc n) t in
        rw (f, t) (sym (div-eq_of_lt (let late = after now last f in omega arith)))
    | inr u ↦
        let g : last + suc n ≤ now = not_before now (last + suc n) u in
        let e : now - (last + suc n) ≡ now - last - suc n = omega arith in
        rw (f, u, e) (sym (div-eq-sub-div (omega arith) (omega arith)))
  ]
]
  where
    after : (a b : ℕ) → leb a b ≡ false → b < a
    after a b h = ground arith

    not_before : (a b : ℕ) → ltb a b ≡ false → b ≤ a
    not_before a b h = ground arith

-- For a positive interval the missed runs are exactly the slots that have come due since the last
-- run: slot `k` after it, `k` positive, is among them where it is not later than now.
pub count_missed_runs_lem :
    (last now i k : ℕ)
    → 0 < i
    → 0 < k
    → (k ≤ count_missed_runs last now (pos i)) ↔ (last + i * k ≤ now)
count_missed_runs_lem last now zero k h p = elim h [ ]
count_missed_runs_lem last now (suc n) k h p = rw (missed-eq-div last now n) (
    let iff = le-div_iff_mul-le {k = suc n} {x = k} {y = now - last} h in
    (
      λ a. let b = iff.0 a in let q = mul_comm k (suc n) in grind arith,
      λ a. iff.1 (let q = mul_comm k (suc n) in omega arith),
    ))

-- With its two ends different minutes of the day, a window is the stretch of the day from its start up to its end, past midnight if need be.
in_window_lem :
    (start stop now : ℕ)
    → start < 1440
    → stop < 1440
    → now < 1440
    → start ≢ stop
    → in_window start stop now ≡ (
        if ltb ((now + 1440 - start) % 1440) ((stop + 1440 - start) % 1440)
        then allow
        else outside_time_window)
unfolding in_window
in_window_lem start stop now a b c d = ground arith

int_lt : (v : ℤ) (d : ℕ) → parse_weekday_int_constraint v ≡ some d → d < 7
unfolding parse_weekday_int_constraint
int_lt (pos n) d h = ground arith
int_lt (negsuc n) d h = cc

position_lt :
    (s : Text) (i : ℕ) (ns : List (List Text)) (d : ℕ)
    → position i ns s ≡ some d
    → d < i + length ns
position_lt s i [] d h = cc
position_lt s i (n ∷ ns) d h = elim (Bool-cases (is_one_of n s)) [
  | inl t ↦ let e = rw t at h in ground arith
  | inr f ↦ omega (arith, position_lt s (i + 1) ns d (rw f at h))
]

-- A weekday token that is accepted is one of the seven days.
parse_weekday_constraint_lt :
    (t : WeekdayToken) (d : ℕ) → parse_weekday_constraint t ≡ some d → d < 7
unfolding parse_weekday_constraint
parse_weekday_constraint_lt (int_token v) d h = int_lt v d h
parse_weekday_constraint_lt (float_token true v) d h = int_lt v d h
parse_weekday_constraint_lt (float_token false v) d h = cc
parse_weekday_constraint_lt (string_token s) d h =
    position_lt (map lower (trim_space s)) 0 weekday_names d h
parse_weekday_constraint_lt other_token d h = cc
