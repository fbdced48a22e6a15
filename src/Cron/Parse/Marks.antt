-- ===== src/Cron/Parse/Marks.antt =====
-- What the fields of internal/scheduleexpr/cron.go select.
use ductile.Common.{
  ℕ, zero, suc, ◌+◌, ◌*◌, ◌≤◌, ◌<◌, Bool, true, List, [], ◌∷◌, ◌≡◌, ◌↔◌, ◌⊎◌, refl, ap, inl, inr,
  ltb, leb, Bool-cases, leb→le, arith, length, set,
}
use ductile.Cron.Types.{is_marked, Parsed, parsed, failed}
use ductile.Cron.Parse.{int_limit, mark_from, mark}

is_marked-set :
    (xs : List Bool) (i v : ℕ)
    → i < length xs
    → (is_marked (set xs i true) v ≡ true) ↔ ((v ≡ i) ⊎ (is_marked xs v ≡ true))
is_marked-set [] i v h = absurd (none_below i h)
  where
    none_below : (i : ℕ) → i < 0 → ⊥
    none_below i h = omega arith
is_marked-set (x ∷ xs) zero zero h = (λ a. inl refl, λ a. refl)
is_marked-set (x ∷ xs) zero (suc v) h =
    (λ a. inr a, λ a. elim a [ inl e ↦ absurd (differ v e) | inr b ↦ b ])
  where
    differ : (v : ℕ) → suc v ≡ zero → ⊥
    differ v e = omega arith
is_marked-set (x ∷ xs) (suc i) zero h =
    (λ a. inr a, λ a. elim a [ inl e ↦ absurd (differ i e) | inr b ↦ b ])
  where
    differ : (i : ℕ) → zero ≡ suc i → ⊥
    differ i e = omega arith
is_marked-set (x ∷ xs) (suc i) (suc v) h =
    let iff = is_marked-set xs i v (omega arith) in
    (
      λ a. elim (iff.0 a) [ inl e ↦ inl (ap suc e) | inr b ↦ inr b ],
      λ a. elim a [ inl e ↦ iff.1 (inl (omega arith)) | inr b ↦ iff.1 (inr b) ],
    )

length-set : (xs : List Bool) (i : ℕ) (b : Bool) → length (set xs i b) ≡ length xs
length-set [] i b = refl
length-set (x ∷ xs) zero b = refl
length-set (x ∷ xs) (suc i) b = ap suc (length-set xs i b)

-- `v` is one of i, i + step, i + 2 * step, ... up to `end`.
abbrev Stepped : ℕ → ℕ → ℕ → ℕ → Type 0
Stepped i step end v = (k : ℕ) × (v ≡ i + k * step) × (v ≤ end)

-- Marking succeeded, and has added those values and no others.
abbrev pub Marked : ℕ → ℕ → ℕ → List Bool → Parsed (List Bool) → Type 0
Marked i step end allowed (failed e) = ⊥
Marked i step end allowed (parsed marks) =
    (v : ℕ) → (is_marked marks v ≡ true) ↔ (Stepped i step end v ⊎ (is_marked allowed v ≡ true))

Stepped-on : (i step end v : ℕ) → Stepped (i + step) step end v → Stepped i step end v
Stepped-on i step end v (k, e, b) = (suc k, grind arith, b)

Stepped-cases : (i step end v : ℕ) → Stepped i step end v → (v ≡ i) ⊎ Stepped (i + step) step end v
Stepped-cases i step end v (zero, e, b) = inl (omega arith)
Stepped-cases i step end v (suc k, e, b) = inr (k, grind arith, b)

not_past : (i step end v : ℕ) → end < i → Stepped i step end v → ⊥
not_past i step end v h (k, e, b) = omega arith

further :
    (i step end : ℕ) (allowed : List Bool) (r : Parsed (List Bool))
    → i ≤ end
    → i < length allowed
    → Marked (i + step) step end (set allowed i true) r
    → Marked i step end allowed r
further i step end allowed (failed e) h l m = m
further i step end allowed (parsed marks) h l m = λ v.
    let one = is_marked-set allowed i v l in
    (
      λ a. elim ((m v).0 a) [
        | inl s ↦ inl (Stepped-on i step end v s)
        | inr b ↦ elim (one.0 b) [ inl e ↦ inl (0, omega arith, omega arith) | inr old ↦ inr old ]
      ],
      λ a. (m v).1 (elim a [
        | inl s ↦ elim (Stepped-cases i step end v s) [
          | inl e ↦ inr (one.1 (inl e))
          | inr more ↦ inl more
        ]
        | inr old ↦ inr (one.1 (inr old))
      ]),
    )

mark_from-Marked :
    (fuel i end step : ℕ) (allowed : List Bool)
    → end + 1 ≤ fuel + i
    → 0 < step
    → end < length allowed
    → end + step < int_limit
    → Marked i step end allowed (mark_from fuel i end step allowed)
unfolding mark_from
mark_from-Marked zero i end step allowed h p l o = λ v.
    (λ a. inr a, λ a. elim a [ inl s ↦ absurd (not_past i step end v (omega arith) s) | inr b ↦ b ])
mark_from-Marked (suc fuel) i end step allowed h p l o = elim (Bool-cases (leb i end)) [
  | inl t ↦
      let le = leb→le i end t in
      let small : ltb (i + step) int_limit ≡ true = ground arith in
      rw (t, small)
        (further i step end allowed (mark_from fuel (i + step) end step (set allowed i true)) le
          (omega arith)
          (mark_from-Marked fuel (i + step) end step (set allowed i true) (omega arith) p
            (rw (length-set allowed i true) l) o))
  | inr f ↦ rw f (λ v. (
    λ a. inr a,
    λ a. elim a [ inl s ↦ absurd (not_past i step end v (ground arith) s) | inr b ↦ b ],
  ))
]

-- The loop of a segment adds start, start + step, start + 2 * step, ... up to the end, and nothing
-- else, to the values already marked, and raises no panic, for a positive step, an end inside the
-- array, and end + step an `int`.
pub mark-Marked :
    (start end step : ℕ) (allowed : List Bool)
    → 0 < step
    → end < length allowed
    → end + step < int_limit
    → Marked start step end allowed (mark start end step allowed)
mark-Marked start end step allowed p l o =
    mark_from-Marked (end + 1) start end step allowed (omega arith) p l o
