-- ===== src/Examples/Retries.antt =====
-- Runs of the theorems on retries and on the output of plugins.
use ductile.Common.{
  length, List, [], ◌∷◌, ◌≤◌, ◌<◌, true, ℕ, ◌+◌, ◌*◌, ◌^◌, false, ◌≡◌, refl, arith,
}
use ductile.Common.Int.{ℤ, pos}
use ductile.Common.Text.{codes}
use ductile.Dispatch.Retry.{RetryDecision, calculate_backoff_delay, int64_bits}
use ductile.Dispatch.Retry.Backoff.{calculate_backoff_delay-exact, calculate_backoff_delay-vanishes}
use ductile.Dispatch.Output.{new_bounded_buffer, take}
use ductile.Dispatch.Output.Prefix.{write_all, concat, write_all_lem}

-- What amd64 makes of a number that no int64 holds.
abbrev convert : ℕ → ℤ
convert k = pos 0

calculate_backoff_delay-exact_example :
    calculate_backoff_delay convert (pos 30_000_000_000) (2 + 1) 7 ≡ 2 ^ 2 * 30_000_000_000 + 7
calculate_backoff_delay-exact_example =
    calculate_backoff_delay-exact convert 30_000_000_000 2 7 (omega arith) (omega arith)
      (omega arith)

wraps : 2 ^ 54 * 30_000_000_000 ≡ 29_296_875 * int64_bits
wraps = refl

calculate_backoff_delay-vanishes_example :
    calculate_backoff_delay convert (pos 30_000_000_000) (54 + 1) 7 ≡ 7
calculate_backoff_delay-vanishes_example =
    calculate_backoff_delay-vanishes convert 30_000_000_000 54 7 29_296_875 (omega arith)
      (omega arith) wraps (omega arith)

abbrev again : RetryDecision
again = record { retryable = true; reason = codes "timeout"; attempts_exhausted = false }

abbrev output : List (List ℕ)
output = (1 ∷ 2 ∷ []) ∷ (3 ∷ 4 ∷ []) ∷ []

write_all_lem_example :
    ((write_all output (new_bounded_buffer (pos 3))).buf ≡ take 3 (concat output))
    × (3 < length (concat output)
        → (write_all output (new_bounded_buffer (pos 3))).truncated ≡ true)
    × ((write_all output (new_bounded_buffer (pos 3))).truncated ≡ true
        → 3 ≤ length (concat output))
write_all_lem_example = write_all_lem 3 output (omega arith)
