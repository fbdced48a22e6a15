-- ===== src/Cron/Next/Least.antt =====
-- What `NextAfter` of internal/scheduleexpr/cron.go finds.
use ductile.Common.{
  ℕ, zero, suc, ◌+◌, ◌-◌, ◌*◌, ◌≤◌, ◌<◌, true, false, Option, none, some, ◌≡◌, ◌⊎◌, inl, inr, refl,
  sym, subst, leb, leb→le, Bool-cases, arith,
}
use ductile.Cron.Types.{CronExpression, Civil, matches}
use ductile.Cron.Next.{minute, next_from, candidate, next_after}

-- No minute from `m` on, below `n`, is matched.
abbrev Unmatched : (ℕ → Civil) → CronExpression → ℕ → ℕ → Type 0
Unmatched civil c m n = (k : ℕ) → m ≤ k → k < n → matches c (civil (k * minute)) ≡ false

-- The first matching minute from `m` on and not after the deadline, where there is one.
abbrev pub IsFirst : (ℕ → Civil) → CronExpression → ℕ → ℕ → Option ℕ → Type 0
IsFirst civil c deadline m none =
    (k : ℕ) → m ≤ k → k * minute ≤ deadline → matches c (civil (k * minute)) ≡ false
IsFirst civil c deadline m (some t) =
    (n : ℕ) × (t ≡ n * minute)
    × (m ≤ n)
    × (t ≤ deadline)
    × (matches c (civil t) ≡ true)
    × Unmatched civil c m n

at_or_past : (m k : ℕ) → m ≤ k → (k ≡ m) ⊎ (m + 1 ≤ k)
at_or_past m k h = elim (Bool-cases (leb k m)) [
  | inl t ↦ inl (let g = leb→le k m t in omega arith)
  | inr f ↦ inr (ground arith)
]

module _ (civil : ℕ → Civil) (c : CronExpression) (deadline : ℕ) where
  later-IsFirst :
      (m : ℕ) (r : Option ℕ)
      → matches c (civil (m * minute)) ≡ false
      → IsFirst civil c deadline (m + 1) r
      → IsFirst civil c deadline m r
  later-IsFirst m none h first = λ k a b. elim (at_or_past m k a) [
    | inl e ↦ subst (λ j. matches c (civil (j * minute)) ≡ false) (sym e) h
    | inr g ↦ first k g b
  ]
  later-IsFirst m (some t) h (n, e, a, b, ok, before) = (
    n,
    e,
    omega arith,
    b,
    ok,
    λ k p q. elim (at_or_past m k p) [
      | inl d ↦ subst (λ j. matches c (civil (j * minute)) ≡ false) (sym d) h
      | inr g ↦ before k g q
    ],
  )

  next_from-IsFirst :
      (fuel m : ℕ)
      → deadline + 1 ≤ fuel + m
      → IsFirst civil c deadline m (next_from civil c deadline fuel m)
  unfolding next_from
  next_from-IsFirst zero m h = λ k a b. absurd (late k a b)
    where
      late : (k : ℕ) → m ≤ k → k * minute ≤ deadline → ⊥
      late k a b = omega arith
  next_from-IsFirst (suc fuel) m h = elim (Bool-cases (leb (m * minute) deadline)) [
    | inl t ↦ elim (Bool-cases (matches c (civil (m * minute)))) [
      | inl u ↦
          rw (t, u)
            (
              m,
              refl,
              omega arith,
              leb→le (m * minute) deadline t,
              u,
              λ k p q. absurd (never m k p q),
            )
      | inr f ↦
          rw (t, f)
            (later-IsFirst m (next_from civil c deadline fuel (m + 1)) f
              (next_from-IsFirst fuel (m + 1) (omega arith)))
    ]
    | inr g ↦ rw g (λ k p q. absurd (past k p q g))
  ]
    where
      never : (m k : ℕ) → m ≤ k → k < m → ⊥
      never m k p q = omega arith

      past : (k : ℕ) → m ≤ k → k * minute ≤ deadline → leb (m * minute) deadline ≡ false → ⊥
      past k p q g = ground arith

-- The time that NextAfter returns is a whole minute later than `from` and not after the date five
-- years on, the expression matches it, and matches no minute between; where it returns an error, it
-- matches no minute up to that date.
pub next_after_lem :
    (civil : ℕ → Civil) (in_five_years : ℕ → ℕ) (c : CronExpression) (from : ℕ)
    → (from < candidate from * minute)
      × (candidate from * minute ≤ from + minute)
      × IsFirst civil c
          (in_five_years (candidate from * minute))
          (candidate from)
          (next_after civil in_five_years c from)
unfolding next_after
next_after_lem civil in_five_years c from = (
  omega arith,
  omega arith,
  next_from-IsFirst civil c deadline (deadline + 1 - candidate from) (candidate from) (omega arith),
)
  where
    deadline : ℕ
    deadline = in_five_years (candidate from * minute)
