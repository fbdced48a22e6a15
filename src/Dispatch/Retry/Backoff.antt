-- ===== src/Dispatch/Retry/Backoff.antt =====
-- The delays of `calculateBackoffDelay` of internal/dispatch/dispatcher.go.
use ductile.Common.{
  ℕ, zero, suc, ◌+◌, ◌-◌, ◌*◌, ◌%◌, ◌^◌, ◌<◌, true, ◌≡◌, refl, ap, ◌∙◌, ltb, arith,
}
use native.Mathlib.Nat.{mod-eq_of_lt}
use ductile.Common.Int.{ℤ, pos, pos_part}
use ductile.Dispatch.Retry.{
  positive_base, wrapped_delay, int64_sign, int64_bits, unless_negative, factor,
  calculate_backoff_delay,
}

small : (b n : ℕ) → n < int64_sign → unless_negative b (n % int64_bits) ≡ n
small b n h = let e : n % int64_bits ≡ n = mod-eq_of_lt (omega arith) in rw e (ground arith)

doubled : (convert : ℕ → ℤ) (n : ℕ) → n < 63 → factor convert (n + 1) ≡ 2 ^ n
doubled convert n h =
    let e : n + 1 - 1 ≡ n = omega arith in let t : ltb n 63 ≡ true = ground arith in rw (e, t) refl

kept : (base : ℕ) → 0 < base → positive_base (pos base) ≡ base
kept zero h = absurd (none_below h)
  where
    none_below : 0 < 0 → ⊥
    none_below h = omega arith
kept (suc n) h = refl

reduced :
    (convert : ℕ → ℤ) (base n jitter : ℕ)
    → 0 < base
    → n < 63
    → calculate_backoff_delay convert (pos base) (n + 1) jitter ≡ wrapped_delay (2 ^ n) base jitter
unfolding calculate_backoff_delay
reduced convert base n jitter p s =
    ap (λ (f : ℕ). wrapped_delay f (positive_base (pos base)) jitter) (doubled convert n s)
    ∙ ap (λ (b : ℕ). wrapped_delay (2 ^ n) b jitter) (kept base p)

unless_negative-lt : (b n : ℕ) → b < int64_sign → unless_negative b n < int64_sign
unless_negative-lt b n h = ground arith

positive_base-lt : (base : ℤ) → pos_part base < int64_sign → positive_base base < int64_sign
positive_base-lt base h = ground arith

-- While the doubled base and the jitter fit an int64, the delay after attempt `n + 1`, for a positive
-- base, is the base doubled `n` times, and the jitter.
pub calculate_backoff_delay-exact :
    (convert : ℕ → ℤ) (base n jitter : ℕ)
    → 0 < base
    → n < 63
    → 2 ^ n * base + jitter < int64_sign
    → calculate_backoff_delay convert (pos base) (n + 1) jitter ≡ 2 ^ n * base + jitter
calculate_backoff_delay-exact convert base n jitter p s h =
    reduced convert base n jitter p s
    ∙ rw (small base (2 ^ n * base) (omega arith)) (small base (2 ^ n * base + jitter) h)

-- The delay is never negative, whatever the arguments: with a base that fits an int64 the result
-- does too.
calculate_backoff_delay-lt :
    (convert : ℕ → ℤ) (base : ℤ) (attempt jitter : ℕ)
    → pos_part base < int64_sign
    → calculate_backoff_delay convert base attempt jitter < int64_sign
unfolding calculate_backoff_delay
calculate_backoff_delay-lt convert base attempt jitter h =
    unless_negative-lt (positive_base base)
      ((unless_negative (positive_base base)
            (factor convert attempt * positive_base base % int64_bits)
          + jitter)
        % int64_bits)
      (positive_base-lt base h)

-- A product that wraps around to nothing leaves no delay but the jitter.
pub calculate_backoff_delay-vanishes :
    (convert : ℕ → ℤ) (base n jitter c : ℕ)
    → 0 < base
    → n < 63
    → 2 ^ n * base ≡ c * int64_bits
    → jitter < int64_sign
    → calculate_backoff_delay convert (pos base) (n + 1) jitter ≡ jitter
calculate_backoff_delay-vanishes convert base n jitter c p s w h =
    reduced convert base n jitter p s ∙ rw (w, none_left, add_zero) (small base jitter h)
  where
    none_left : c * int64_bits % int64_bits ≡ 0
    none_left = omega arith

    add_zero : 0 + jitter ≡ jitter
    add_zero = omega arith
