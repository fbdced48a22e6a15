-- ===== src/Dispatch/Retry/Limits.antt =====
-- When a failed job of internal/dispatch/dispatcher.go is tried again, and what becomes of its row.
use ductile.Common.{
  ℕ, zero, suc, ◌<◌, Bool, true, false, ◌&&◌, Option, none, some, ◌≡◌, ◌↔◌, refl, ltb, leb,
  if◌then◌else◌, arith,
}
use ductile.Common.Int.{ℤ, pos, negsuc, pos_part, is_pos}
use ductile.Common.Text.{Text, codes, trim_space}
use ductile.Queue.Types.{Job}
use ductile.Queue.Db.{Db}
use ductile.Dispatch.Retry.{
  RetryConfig, effective_max_attempts, max_attempts_for_plugin, is_non_retryable, declines,
  decide_retry_policy, will_retry, default_to_plugin_error,
}

plugin_max-pos : (conf : Option RetryConfig) → 0 < max_attempts_for_plugin conf
unfolding max_attempts_for_plugin
plugin_max-pos none = omega arith
plugin_max-pos (some c) = by_value c.max_attempts
  where
    by_value : (n : ℤ) → 0 < (if is_pos n then pos_part n else 4)
    by_value (pos zero) = omega arith
    by_value (pos (suc n)) = omega arith
    by_value (negsuc n) = omega arith

max_attempts-pos :
    (job : Job) (conf : Option RetryConfig) → 0 < effective_max_attempts (some job) conf
unfolding effective_max_attempts
max_attempts-pos job conf = let p = plugin_max-pos conf in ground arith

-- A failed job is tried again exactly when its plugin did not exit with 78, did not decline a retry
-- in an error response, and has not had as many attempts as the job, or else the plugin, allows.
decide_retry_policy_lem :
    (response : Option Text) (retry : Option Bool) (exit_code : ℤ) (job : Job)
    (conf : Option RetryConfig) (why : Text)
    → (will_retry (decide_retry_policy response retry exit_code (some job) conf why) ≡ true) ↔ (
        (is_non_retryable exit_code ≡ false)
        × (declines response retry ≡ false)
        × (job.attempt < effective_max_attempts (some job) conf))
unfolding decide_retry_policy
decide_retry_policy_lem response retry exit_code job conf why =
    let m = max_attempts-pos job conf in
    go (is_non_retryable exit_code) (declines response retry)
      (effective_max_attempts (some job) conf) m
  where
    go :
        (x d : Bool) (max : ℕ)
        → 0 < max
        → (will_retry (
              if x
              then record {
                retryable = false;
                reason = codes "exit_code_78";
                attempts_exhausted = false;
              }
              else if d
              then record {
                retryable = false;
                reason = codes "plugin_retry_false";
                attempts_exhausted = false;
              }
              else record {
                retryable = true;
                reason = default_to_plugin_error (trim_space why);
                attempts_exhausted = ltb 0 max && leb max job.attempt;
              })
            ≡ true)
          ↔ ((x ≡ false) × (d ≡ false) × (job.attempt < max))
    go true d max m = (λ h. absurd (clash h), λ h. absurd (clash' h.0))
      where
        clash : false ≡ true → ⊥
        clash h = cc

        clash' : true ≡ false → ⊥
        clash' h = cc
    go false true max m = (λ h. absurd (clash h), λ h. absurd (clash' h.1))
      where
        clash : false ≡ true → ⊥
        clash h = cc

        clash' : true ≡ false → ⊥
        clash' h = cc
    go false false max m = (λ h. (refl, refl, ground arith), λ h. let l = h.2 in ground arith)
