-- ===== src/Scheduler/Breaker.antt =====
-- The circuit breaker of internal/scheduler/scheduler.go: `reconcileCircuitBreaker`,
-- `currentCircuitBreaker`, `cooldownElapsed`, and the resolved settings of internal/config/types.go.
pub mod History
pub mod Reconciled
pub mod Reset
use ductile.Common.{ℕ, ◌+◌, Bool, true, false, Option, none, some, leb, if◌then◌else◌}
use ductile.Common.Int.{ℤ, pos_part, is_pos}
use ductile.Common.Text.{Text, text_eq}
use ductile.Queue.Db.{Db}
use ductile.Queue.Types.{
  ◌>>=◌, Status, succeeded, CircuitState, closed, open_state, half_open, CircuitBreaker,
  TransitionReason, failure_threshold, success, CommandResult, Result, ok,
}
use ductile.Queue.Breaker.{
  initial_breaker, get_circuit_breaker, upsert_circuit_breaker, record_circuit_breaker_transition,
  latest_completed_command_result,
}

-- The circuit_breaker block of a plugin's configuration.
pub record CircuitBreakerConfig : Type 0 where
  pub threshold : ℤ
  pub reset_after : ℤ

-- `BreakerThreshold`: the plugin's value if it is positive, else `DefaultPluginConf`'s 3.
breaker_threshold : Option CircuitBreakerConfig → ℕ
breaker_threshold none = 3
breaker_threshold (some c) = if is_pos c.threshold then pos_part c.threshold else 3

-- `BreakerResetAfter`: the plugin's value if it is positive, else 30 minutes.
breaker_reset_after : Option CircuitBreakerConfig → ℕ
breaker_reset_after none = 1_800_000_000_000
breaker_reset_after (some c) =
    if is_pos c.reset_after then pos_part c.reset_after else 1_800_000_000_000

-- `cooldownElapsed`
unfoldable pub cooldown_elapsed : CircuitBreaker → ℕ → ℕ → Bool
cooldown_elapsed cb reset_after now = elim cb.opened_at [
  | none ↦ true
  | some t ↦ leb (t + reset_after) now
]

abbrev pub state_eq : CircuitState → CircuitState → Bool
state_eq closed closed = true
state_eq open_state open_state = true
state_eq half_open half_open = true
state_eq _ _ = false

abbrev is_success : Status → Bool
is_success succeeded = true
is_success _ = false

-- The breaker after a failure at `t`.
after_failure : ℕ → ℕ → CircuitBreaker → CircuitBreaker
after_failure threshold t cb =
    let cb' = record cb { failure_count = cb.failure_count + 1; last_failure = some t } in
    if leb threshold (cb.failure_count + 1)
    then record cb' { state = open_state; opened_at = some t }
    else record cb' { state = closed; opened_at = none }

-- The `if latest.Status == queue.StatusSucceeded` of `reconcileCircuitBreaker`, and the job noted.
count_result : ℕ → CommandResult → CircuitBreaker → CircuitBreaker
unfolding after_failure
count_result threshold latest cb =
    let counted =
      if is_success latest.status
      then record cb { state = closed; failure_count = 0; opened_at = none; last_failure = none }
      else after_failure threshold latest.completed_at cb in
    record counted { last_job_id = some latest.job_id }

abbrev is_counted : CommandResult → Option Text → Bool
is_counted latest none = false
is_counted latest (some id) = text_eq id latest.job_id

-- The breaker that a latest result leads to: a result that was counted is not counted again.
pub next_breaker : ℕ → CommandResult → CircuitBreaker → CircuitBreaker
unfolding count_result
next_breaker threshold latest cb =
    if is_counted latest cb.last_job_id then cb else count_result threshold latest cb

-- `currentCircuitBreaker`
unfoldable pub current_circuit_breaker : Text → Text → Db → Result CircuitBreaker
unfolding get_circuit_breaker
current_circuit_breaker plugin command db = do
  found ← get_circuit_breaker plugin command db
  ok (elim found [ none ↦ initial_breaker plugin command | some b ↦ b ])

abbrev transition_reason : CircuitState → TransitionReason
transition_reason open_state = failure_threshold
transition_reason _ = success

-- A change of state is a fact.
note_state_change : ℕ → Text → Text → CircuitState → CommandResult → CircuitBreaker → Db → Result Db
unfolding record_circuit_breaker_transition
note_state_change now plugin command previous latest cb db =
    if state_eq cb.state previous
    then ok db
    else record_circuit_breaker_transition
        (record {
          plugin = plugin;
          command = command;
          from_state = some previous;
          to_state = cb.state;
          failure_count = cb.failure_count;
          reason = transition_reason cb.state;
          job_id = some latest.job_id;
          created_at = now;
        })
        db

-- The rest of `reconcileCircuitBreaker`, where there is a latest result.
reconcile_latest : ℕ → Text → Text → ℕ → CommandResult → CircuitBreaker → Db → Result Db
unfolding count_result upsert_circuit_breaker note_state_change
reconcile_latest now plugin command threshold latest cb db =
    let counted = count_result threshold latest cb in
    if is_counted latest cb.last_job_id then ok db else do
      db' ← upsert_circuit_breaker now counted db
      note_state_change now plugin command cb.state latest counted db'

-- `reconcileCircuitBreaker`
unfoldable pub reconcile_circuit_breaker :
    Text → ℕ → Text → Text → ℕ → Db → Result (Option CommandResult × Db)
unfolding current_circuit_breaker latest_completed_command_result reconcile_latest
reconcile_circuit_breaker service now plugin command threshold db = do
  cb ← current_circuit_breaker plugin command db
  latest ← latest_completed_command_result plugin command service db
  elim latest [
    | none ↦ ok (none, db)
    | some l ↦ do db' ← reconcile_latest now plugin command threshold l cb db; ok (some l, db')
  ]
