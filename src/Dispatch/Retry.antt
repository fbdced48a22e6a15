-- ===== src/Dispatch/Retry.antt =====
-- Retries: `decideRetryPolicy` of internal/dispatch/retry_policy.go, with `calculateBackoffDelay` and
-- `failOrRetry` of internal/dispatch/dispatcher.go and the retry settings of internal/config/types.go.
pub mod Backoff
pub mod Limits
use ductile.Common.{
  ℕ, ◌+◌, ◌-◌, ◌*◌, ◌%◌, ◌^◌, Bool, true, false, not, ◌&&◌, Option, none, some, ltb, leb, ◌==◌,
  if◌then◌else◌, [], ◌∷◌,
}
use ductile.Common.Int.{ℤ, pos, negsuc, pos_part, is_pos}
use ductile.Common.Text.{Text, codes, text_eq, trim_space}
use ductile.Queue.Types.{Status, queued, Job, Result, ok, err}
use ductile.Queue.Db.{Db}
use ductile.Queue.Finish.{update_job_for_recovery, complete_with_result}

-- `RetryConfig`
pub record RetryConfig : Type 0 where
  pub max_attempts : ℤ
  pub backoff_base : ℤ

-- `MaxAttempts`: the plugin's value if it is positive, else `DefaultPluginConf`'s 4.
max_attempts_for_plugin : Option RetryConfig → ℕ
max_attempts_for_plugin none = 4
max_attempts_for_plugin (some c) = if is_pos c.max_attempts then pos_part c.max_attempts else 4

abbrev thirty_seconds : ℕ
thirty_seconds = 30_000_000_000

-- `BackoffBase`: the plugin's value if it is positive, else 30 seconds.
resolved_backoff_base : Option RetryConfig → ℤ
resolved_backoff_base none = pos thirty_seconds
resolved_backoff_base (some c) =
    if is_pos c.backoff_base then c.backoff_base else pos thirty_seconds

-- `retryDecision`
pub record RetryDecision : Type 0 where
  pub retryable : Bool
  pub reason : Text
  pub attempts_exhausted : Bool

-- `effectiveMaxAttempts`
effective_max_attempts : Option Job → Option RetryConfig → ℕ
unfolding max_attempts_for_plugin
effective_max_attempts none conf = max_attempts_for_plugin conf
effective_max_attempts (some job) conf =
    if ltb 0 job.max_attempts then job.max_attempts else max_attempts_for_plugin conf

-- `exitCode == nonRetryableExitCode`
abbrev is_non_retryable : ℤ → Bool
is_non_retryable (pos n) = n == 78
is_non_retryable (negsuc n) = false

-- `resp != nil && resp.Status == "error" && compat.Retry != nil && !*compat.Retry`
abbrev declines : Option Text → Option Bool → Bool
declines none retry = false
declines (some status) none = false
declines (some status) (some retry) = text_eq status (codes "error") && not retry

abbrev default_to_plugin_error : Text → Text
default_to_plugin_error [] = codes "plugin_error"
default_to_plugin_error (c ∷ s) = c ∷ s

abbrev is_exhausted : Option Job → ℕ → Bool
is_exhausted none max = false
is_exhausted (some job) max = ltb 0 max && leb max job.attempt

-- `decideRetryPolicy`, on the response's status and the plugin's own word on a retry.
decide_retry_policy :
    Option Text → Option Bool → ℤ → Option Job → Option RetryConfig → Text → RetryDecision
unfolding effective_max_attempts
decide_retry_policy response retry exit_code job conf default_reason =
    if is_non_retryable exit_code
    then record { retryable = false; reason = codes "exit_code_78"; attempts_exhausted = false }
    else if declines response retry
    then record {
      retryable = false;
      reason = codes "plugin_retry_false";
      attempts_exhausted = false;
    }
    else record {
      retryable = true;
      reason = default_to_plugin_error (trim_space default_reason);
      attempts_exhausted = is_exhausted job (effective_max_attempts job conf);
    }

-- 2 ^ 63, from which on the bits of an int64 are those of a negative number.
abbrev int64_sign : ℕ
int64_sign = 9_223_372_036_854_775_808

abbrev pub int64_bits : ℕ
int64_bits = 18_446_744_073_709_551_616

-- `if delay < 0 { delay = base }`
abbrev unless_negative : ℕ → ℕ → ℕ
unless_negative base delay = if leb int64_sign delay then base else delay

abbrev positive_base : ℤ → ℕ
positive_base base = if is_pos base then pos_part base else thirty_seconds

-- `max(int64(math.Pow(2, float64(attempt-1))), 1)`. From 2 ^ 63 on the conversion is left to the
-- platform: `convert` is what it gives for an exponent.
abbrev factor : (ℕ → ℤ) → ℕ → ℕ
factor convert attempt =
    let k = attempt - 1 in
    let converted = convert k in
    if ltb k 63 then 2 ^ k else if is_pos converted then pos_part converted else 1

-- The product and the sum of int64 wrap around; a negative result is replaced by the base.
abbrev wrapped_delay : ℕ → ℕ → ℕ → ℕ
wrapped_delay multiplier base jitter =
    unless_negative base
      ((unless_negative base (multiplier * base % int64_bits) + jitter) % int64_bits)

-- `calculateBackoffDelay`
pub calculate_backoff_delay : (ℕ → ℤ) → ℤ → ℕ → ℕ → ℕ
calculate_backoff_delay convert base attempt jitter =
    wrapped_delay (factor convert attempt) (positive_base base) jitter

-- `computeRetryDelay`, with the jitter that was drawn.
pub compute_retry_delay : (ℕ → ℤ) → Option RetryConfig → ℕ → ℕ → ℕ
unfolding resolved_backoff_base calculate_backoff_delay
compute_retry_delay convert conf attempt jitter =
    calculate_backoff_delay convert (resolved_backoff_base conf) attempt jitter

-- `decision.Retryable && !decision.AttemptsExhausted`
abbrev will_retry : RetryDecision → Bool
will_retry d = d.retryable && not d.attempts_exhausted

abbrev deref : Option Text → Text
deref none = []
deref (some s) = s

-- `completeJob`: an error of the queue is logged.
abbrev complete_job_or_log : Db → Result Db → Db
complete_job_or_log db (ok db') = db'
complete_job_or_log db (err e) = db

-- `failOrRetry`, with the jitter that the random source gives and the clock read once; the log, the
-- events and the hooks are left out.
pub fail_or_retry :
    (ℕ → ℤ)
    → Job
    → Option RetryConfig
    → Status
    → Option Text
    → Option Text
    → Option Text
    → RetryDecision
    → ℕ
    → ℕ
    → Db
    → Db
unfolding compute_retry_delay
fail_or_retry convert job conf status result error stderr decision jitter now db =
    let backoff = compute_retry_delay convert conf job.attempt jitter in
    let completed =
      complete_job_or_log db (complete_with_result job.id status result error stderr now db) in
    if will_retry decision
    then elim (update_job_for_recovery job.id queued (job.attempt + 1) (some (now + backoff))
        (deref error) now db) [ ok db' ↦ db' | err e ↦ completed ]
    else completed
