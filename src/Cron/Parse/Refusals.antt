-- ===== src/Cron/Parse/Refusals.antt =====
-- Bounds of the parser of internal/scheduleexpr/cron.go, and what it refuses.
use ductile.Common.{
  ℕ, zero, suc, ◌+◌, ◌≤◌, ◌<◌, Bool, true, false, ◌&&◌, ◌||◌, List, [], ◌∷◌, ◌++◌, map, Option,
  none, some, ◌≡◌, refl, sym, ap, subst, ◌∙◌, inl, inr, ltb, leb, ◌==◌, if◌then◌else◌, Bool-cases,
  ==_refl, arith,
}
use mathlib.Core.Option.{some_inj}
use mathlib.Core.List.{reverse, reverse-cons, append_assoc, append-nil}
use ductile.Common.Int.{ℤ, pos, negsuc}
use ductile.Common.Text.{Text, codes, text_eq, trim_space, split, split_from, contains_char}
use ductile.Scheduler.Window.{lower}
use ductile.Cron.Types.{index_panic, descending_range, out_of_range, Parsed, parsed, failed}
use ductile.Cron.Parse.{
  int_limit, mark_from, mark, atoi, parse_cron_value, parse_cron_range, segment_range,
  base_and_step, apply_cron_segment, weekday_names, name_or_number, step_parts, in_range,
  lookup_name,
}

snoc-append : (acc : Text) (c : ℕ) (s : Text) → reverse (c ∷ acc) ++ s ≡ reverse acc ++ (c ∷ s)
snoc-append acc c s =
    ap (λ (x : Text). x ++ s) (reverse-cons c acc) ∙ append_assoc (reverse acc) (c ∷ []) s

-- A text without the separator is one piece.
whole :
    (sep : ℕ) (acc s : Text)
    → contains_char sep s ≡ false
    → split_from sep acc s ≡ (reverse acc ++ s) ∷ []
unfolding split_from contains_char
whole sep acc [] h = ap (λ (x : Text). x ∷ []) (sym (append-nil (reverse acc)))
whole sep acc (c ∷ s) h = elim (Bool-cases (c == sep)) [
  | inl t ↦ absurd (clash (rw t at h))
  | inr f ↦
      rw f (whole sep (c ∷ acc) s (rw f at h) ∙ ap (λ (x : Text). x ∷ []) (snoc-append acc c s))
]
  where
    clash : true ≡ false → ⊥
    clash e = cc

-- The first separator ends the first piece.
cut_at :
    (sep : ℕ) (acc s t : Text)
    → contains_char sep s ≡ false
    → split_from sep acc (s ++ (sep ∷ t)) ≡ (reverse acc ++ s) ∷ split_from sep [] t
unfolding split_from contains_char
cut_at sep acc [] t h =
    rw (==_refl sep) (ap (λ (x : Text). x ∷ split_from sep [] t) (sym (append-nil (reverse acc))))
cut_at sep acc (c ∷ s) t h = elim (Bool-cases (c == sep)) [
  | inl e ↦ absurd (clash (rw e at h))
  | inr f ↦ rw f (
      cut_at sep (c ∷ acc) s t (rw f at h)
      ∙ ap (λ (x : Text). x ∷ split_from sep [] t) (snoc-append acc c s))
]
  where
    clash : true ≡ false → ⊥
    clash e = cc

contains-append : (sep : ℕ) (s t : Text) → contains_char sep (s ++ (sep ∷ t)) ≡ true
unfolding contains_char
contains-append sep [] t = rw (==_refl sep) refl
contains-append sep (c ∷ s) t = elim (Bool-cases (c == sep)) [
  | inl e ↦ rw e refl
  | inr f ↦ rw f (contains-append sep s t)
]

not_star : (a : Text) → text_eq (a ++ codes "-7") (codes "*") ≡ false
unfolding text_eq
not_star [] = refl
not_star (c ∷ []) = ground arith
not_star (c ∷ d ∷ s) = ground arith

seven : parse_cron_value weekday_names 0 7 true (codes "7") ≡ parsed 0
unfolding parse_cron_value weekday_names text_eq trim_space atoi
seven = refl

-- A weekday range whose first part is a single accepted day other than Sunday and whose last is 7 is
-- refused as descending: 7 is read as 0 before the ends are compared.
pub range_to_seven :
    (a : Text) (start : ℕ)
    → contains_char 45 a ≡ false
    → parse_cron_value weekday_names 0 7 true a ≡ parsed start
    → 0 < start
    → segment_range weekday_names 0 7 true (a ++ codes "-7") ≡ failed descending_range
unfolding segment_range parse_cron_range split
range_to_seven a start h e p =
    rw (not_star a, contains-append 45 a (codes "7"), cut_at 45 [] a (codes "7") h, e, seven)
      (rw (zero_first) refl)
  where
    zero_first : ltb 0 start ≡ true
    zero_first = ground arith

positive_base :
    (s : Text) (n : ℕ)
    → atoi s ≡ some (pos n)
    → 0 < n
    → step_parts (codes "*" ∷ s ∷ []) ≡ parsed (codes "*", n)
positive_base s zero e p = absurd (none_below p)
  where
    none_below : 0 < 0 → ⊥
    none_below p = omega arith
positive_base s (suc n) e p = rw e refl

base :
    (s : Text) (n : ℕ)
    → contains_char 47 s ≡ false
    → atoi s ≡ some (pos n)
    → 0 < n
    → base_and_step (codes "*/" ++ s) ≡ parsed (codes "*", n)
unfolding base_and_step split split_from contains_char
base s n h e p = rw (whole 47 [] s h) (positive_base s n e p)

overflowed :
    (low top n : ℕ) (allowed : List Bool)
    → low ≤ top
    → int_limit ≤ low + n
    → mark low top n allowed ≡ failed index_panic
unfolding mark_from
overflowed low top n allowed l o = at_once (top + 1) (omega arith)
  where
    ok : leb low top ≡ true
    ok = ground arith

    large : ltb (low + n) int_limit ≡ false
    large = ground arith

    at_once : (fuel : ℕ) → 0 < fuel → mark_from fuel low top n allowed ≡ failed index_panic
    at_once zero f = absurd (none_below f)
      where
        none_below : 0 < 0 → ⊥
        none_below f = omega arith
    at_once (suc fuel) f = rw (ok, large) refl

-- A step over the whole of a field that is no weekday, accepted as a positive number, that takes the
-- first value past the largest `int` is not refused: the sum is a negative index, and the loop
-- panics.
pub step_overflow :
    (names : List (Text × ℕ)) (low top : ℕ) (s : Text) (n : ℕ) (allowed : List Bool)
    → contains_char 47 s ≡ false
    → atoi s ≡ some (pos n)
    → 0 < n
    → low ≤ top
    → int_limit ≤ low + n
    → apply_cron_segment names low top false (codes "*/" ++ s) allowed ≡ failed index_panic
unfolding apply_cron_segment segment_range text_eq
step_overflow names low top s n allowed h e p l o =
    rw (base s n h e p, overflowed low top n allowed l o) refl

abbrev value : Parsed ℕ → ℕ
value (parsed v) = v
value (failed e) = 0

-- Every named value is at most `top`.
abbrev AtMost : ℕ → ℕ → List (Text × ℕ) → Type 0
AtMost low top [] = Unit
AtMost low top ((n, v) ∷ rest) = ((low ≤ v) × (v ≤ top)) × AtMost low top rest

lookup_name-bounds :
    (low top : ℕ) (names : List (Text × ℕ)) (s : Text) (v : ℕ)
    → AtMost low top names
    → lookup_name names s ≡ some v
    → (low ≤ v) × (v ≤ top)
lookup_name-bounds low top [] s v h e = cc
lookup_name-bounds low top ((n, w) ∷ rest) s v h e = elim (Bool-cases (text_eq s n)) [
  | inl t ↦ subst (λ x. (low ≤ x) × (x ≤ top)) (some_inj.0 (rw t at e)) h.0
  | inr f ↦ lookup_name-bounds low top rest s v h.1 (rw f at e)
]

in_range-bounds :
    (low top : ℕ) (dow : Bool) (n : Option ℤ) (v : ℕ)
    → (dow ≡ true → low ≡ 0)
    → in_range low top dow n ≡ parsed v
    → (low ≤ v) × (v ≤ top)
in_range-bounds low top dow none v d e = cc
in_range-bounds low top dow (some (negsuc n)) v d e = cc
in_range-bounds low top dow (some (pos n)) v d e = elim (Bool-cases (dow && n == 7)) [
  | inl t ↦ let z = ap value (rw t at e) in let b = low_zero t in ground arith
  | inr f ↦ in_bounds (rw f at e)
]
  where
    low_zero : dow && n == 7 ≡ true → low ≡ 0
    low_zero t = elim (Bool-cases dow) [ inl b ↦ d b | inr b ↦ absurd (clash (rw b at t)) ]
      where
        clash : false ≡ true → ⊥
        clash e = cc

    in_bounds :
        (if ltb n low || ltb top n then failed out_of_range else parsed n) ≡ parsed v
        → (low ≤ v) × (v ≤ top)
    in_bounds e = elim (Bool-cases (ltb n low || ltb top n)) [
      | inl g ↦ absurd (clash (rw g at e))
      | inr g ↦ let z : n ≡ v = ap value (rw g at e) in ground arith
    ]
      where
        clash : failed out_of_range ≡ parsed v → ⊥
        clash e = cc

-- An accepted value lies in the field's range, where the names' values do; a field that reads 7 as
-- Sunday starts at 0.
parse_cron_value-bounds :
    (names : List (Text × ℕ)) (low top : ℕ) (dow : Bool) (raw : Text) (v : ℕ)
    → AtMost low top names
    → (dow ≡ true → low ≡ 0)
    → parse_cron_value names low top dow raw ≡ parsed v
    → (low ≤ v) × (v ≤ top)
unfolding parse_cron_value
parse_cron_value-bounds names low top dow raw v h d e = of_text (trim_space (map lower raw)) e
  where
    of_text : (s : Text) → name_or_number names low top dow s ≡ parsed v → (low ≤ v) × (v ≤ top)
    of_text [] e = cc
    of_text (c ∷ s) e = by_name (lookup_name names (c ∷ s)) refl e
      where
        by_name :
            (r : Option ℕ)
            → lookup_name names (c ∷ s) ≡ r
            → elim r as (λ _. Parsed ℕ) [
              | some v ↦ parsed v
              | none ↦ in_range low top dow (atoi (c ∷ s))
            ]
              ≡ parsed v
            → (low ≤ v) × (v ≤ top)
        by_name none q e = in_range-bounds low top dow (atoi (c ∷ s)) v d e
        by_name (some w) q e =
            subst (λ x. (low ≤ x) × (x ≤ top)) (ap value e)
              (lookup_name-bounds low top names (c ∷ s) w h q)
