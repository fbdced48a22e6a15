-- ===== src/Scheduler/Breaker/History.antt =====
-- The circuit breaker of internal/scheduler/scheduler.go over a whole history of results, against
-- the number of failures since the last success.
use ductile.Common.{
  ℕ, ◌+◌, ◌<◌, false, List, [], ◌∷◌, Option, none, some, ◌≡◌, refl, leb, if◌then◌else◌, arith,
}
use ductile.Common.Text.{Text}
use ductile.Queue.Types.{closed, open_state, CircuitBreaker, CommandResult}
use ductile.Queue.Breaker.{initial_breaker}
use ductile.Scheduler.Breaker.{is_success, is_counted, next_breaker}

-- The breaker after each of the results in turn.
pub run_results : ℕ → List CommandResult → CircuitBreaker → CircuitBreaker
run_results threshold [] cb = cb
run_results threshold (r ∷ rs) cb = run_results threshold rs (next_breaker threshold r cb)

-- The failures since the last success, from `n` on.
pub streak : ℕ → List CommandResult → ℕ
streak n [] = n
streak n (r ∷ rs) = streak (if is_success r.status then 0 else n + 1) rs

-- Each result is of another job than the one before it.
abbrev IsFreshRun : Option Text → List CommandResult → Type 0
IsFreshRun seen [] = Unit
IsFreshRun seen (r ∷ rs) = (is_counted r seen ≡ false) × IsFreshRun (some r.job_id) rs

step_counted :
    (threshold : ℕ) (r : CommandResult) (cb : CircuitBreaker)
    → is_counted r cb.last_job_id ≡ false
    → ((next_breaker threshold r cb).failure_count
        ≡ (if is_success r.status then 0 else cb.failure_count + 1))
      × ((next_breaker threshold r cb).last_job_id ≡ some r.job_id)
      × (0 < threshold
          → (next_breaker threshold r cb).state ≡ (
              if leb threshold (next_breaker threshold r cb).failure_count
              then open_state
              else closed))
unfolding next_breaker
step_counted threshold r cb h = (ground arith, ground arith, ground arith)

run_results-streak :
    (threshold : ℕ) (rs : List CommandResult) (cb : CircuitBreaker)
    → 0 < threshold
    → IsFreshRun cb.last_job_id rs
    → cb.state ≡ (if leb threshold cb.failure_count then open_state else closed)
    → ((run_results threshold rs cb).failure_count ≡ streak cb.failure_count rs)
      × ((run_results threshold rs cb).state
          ≡ (if leb threshold (streak cb.failure_count rs) then open_state else closed))
unfolding run_results streak
run_results-streak threshold [] cb t f h = (refl, h)
run_results-streak threshold (r ∷ rs) cb t f h =
    let (n, j, s) = step_counted threshold r cb f.0 in
    rw (← n) (run_results-streak threshold rs (next_breaker threshold r cb) t (rw j f.1) (s t))

-- From a new breaker, over results of successive jobs: the failure count is the number of failures
-- since the last success, and the breaker is open exactly when that has reached the threshold.
pub run_results_lem :
    (threshold : ℕ) (rs : List CommandResult) (plugin command : Text)
    → 0 < threshold
    → IsFreshRun none rs
    → ((run_results threshold rs (initial_breaker plugin command)).failure_count ≡ streak 0 rs)
      × ((run_results threshold rs (initial_breaker plugin command)).state
          ≡ (if leb threshold (streak 0 rs) then open_state else closed))
run_results_lem threshold rs plugin command t f =
    run_results-streak threshold rs (initial_breaker plugin command) t f (ground arith)
