-- ===== src/Queue/Types.antt =====
-- internal/queue/types.go: job statuses, the rows of job_queue, job_transitions, job_attempts and
-- job_log, circuit breakers, requests and errors.
use ductile.Common.{ℕ, Bool, true, false, Option, none, some, List, [], ◌∷◌, if◌then◌else◌}
use ductile.Common.Int.{ℤ, pos, is_pos}
use ductile.Common.Text.{Text, text_eq}

-- `Status`
pub data Status : Type 0 where
  queued running succeeded skipped failed timed_out dead : Status

abbrev pub status_eq : Status → Status → Bool
status_eq queued queued = true
status_eq running running = true
status_eq succeeded succeeded = true
status_eq skipped skipped = true
status_eq failed failed = true
status_eq timed_out timed_out = true
status_eq dead dead = true
status_eq _ _ = false

-- `status IN ('queued', 'running')`
abbrev pub is_outstanding : Status → Bool
is_outstanding queued = true
is_outstanding running = true
is_outstanding _ = false

-- The statuses that `CompleteWithResult` accepts and `PruneJobQueue` deletes.
abbrev pub is_terminal : Status → Bool
is_terminal queued = false
is_terminal running = false
is_terminal _ = true

-- `Job`: a row of job_queue. Times are nanoseconds since the epoch.
pub record Job : Type 0 where
  pub id : Text
  pub plugin : Text
  pub command : Text
  pub payload : Option Text
  pub status : Status
  pub attempt : ℕ
  pub max_attempts : ℕ
  pub submitted_by : Text
  pub dedupe_key : Option Text
  pub created_at : ℕ
  pub started_at : Option ℕ
  pub completed_at : Option ℕ
  pub next_retry_at : Option ℕ
  pub last_error : Option Text
  pub parent_job_id : Option Text
  pub source_event_id : Option Text
  pub event_context_id : Option Text
  pub enqueued_config_snapshot_id : Option Text
  pub started_config_snapshot_id : Option Text

-- `JobTransition`, less its row number.
pub record JobTransition : Type 0 where
  pub job_id : Text
  pub from_status : Option Status
  pub to_status : Status
  pub reason : Option Text
  pub created_at : ℕ

-- `JobAttempt`, less its row number.
pub record JobAttempt : Type 0 where
  pub job_id : Text
  pub attempt : ℕ
  pub created_at : ℕ

-- A row of job_log.
pub record JobLog : Type 0 where
  pub log_id : Text
  pub job_id : Text
  pub plugin : Text
  pub command : Text
  pub status : Status
  pub result : Option Text
  pub attempt : ℕ
  pub submitted_by : Text
  pub created_at : ℕ
  pub completed_at : ℕ
  pub last_error : Option Text
  pub stderr : Option Text
  pub parent_job_id : Option Text
  pub source_event_id : Option Text
  pub event_context_id : Option Text
  pub enqueued_config_snapshot_id : Option Text
  pub started_config_snapshot_id : Option Text

-- `EnqueueRequest`. The two `int` and `Duration` values may be negative.
pub record EnqueueRequest : Type 0 where
  pub plugin : Text
  pub command : Text
  pub payload : Text
  pub max_attempts : ℤ
  pub submitted_by : Text
  pub dedupe_key : Option Text
  pub dedupe_ttl : Option ℤ
  pub parent_job_id : Option Text
  pub event_context_id : Option Text
  pub source_event_id : Option Text
  pub enqueued_config_snapshot_id : Text

-- `CircuitState`
pub data CircuitState : Type 0 where
  closed open_state half_open : CircuitState

-- `CircuitBreakerTransitionReason`
pub data TransitionReason : Type 0 where
  failure_threshold success cooldown_elapsed manual_reset : TransitionReason

-- `CircuitBreaker`, a row of circuit_breakers.
pub record CircuitBreaker : Type 0 where
  pub plugin : Text
  pub command : Text
  pub state : CircuitState
  pub failure_count : ℕ
  pub opened_at : Option ℕ
  pub last_failure : Option ℕ
  pub last_job_id : Option Text
  pub updated_at : ℕ

-- `CircuitBreakerTransition`, less its generated id.
pub record CircuitBreakerTransition : Type 0 where
  pub plugin : Text
  pub command : Text
  pub from_state : Option CircuitState
  pub to_state : CircuitState
  pub failure_count : ℕ
  pub reason : TransitionReason
  pub job_id : Option Text
  pub created_at : ℕ

-- `CommandResult`
pub record CommandResult : Type 0 where
  pub job_id : Text
  pub status : Status
  pub completed_at : ℕ

-- The errors of the queue's methods. Failures of the database itself are not modelled.
pub data QueueError : Type 0 where
  plugin_empty command_empty submitted_by_empty job_id_empty : QueueError
  dedupe_drop : (key existing_job_id : Text) → QueueError
  source_event_conflict : (parent source_event plugin command : Text) → QueueError
  invalid_terminal_status : Status → QueueError
  job_not_found load_job_failed attempt_exists : QueueError
  cancel_mismatch : (selected updated : ℕ) → QueueError

pub data Result (A : Type 0) : Type 0 where
  ok : A → Result A
  err : QueueError → Result A

infixl 5 ◌>>=◌ ◌>>◌
-- `if err != nil { return err }`, with the value where there is one.
abbrev pub ◌>>=◌ : {A B : Type 0} → Result A → (A → Result B) → Result B
ok value >>= continue = continue value
err failure >>= continue = err failure

abbrev pub ◌>>◌ : {B : Type 0} → Result (Unit {0}) → Result B → Result B
ok done >> rest = rest
err failure >> rest = err failure

-- `if bad { return err }`
abbrev pub refuse : Bool → QueueError → Result (Unit {0})
refuse true e = err e
refuse false e = ok tt

-- An SQL comparison of a column that may be NULL with a text.
abbrev pub column_eq : Option Text → Text → Bool
column_eq none k = false
column_eq (some c) k = text_eq c k

-- `Queue`, less the database: the settings, and what the snapshot provider returns where one is set.
pub record Queue : Type 0 where
  pub dedupe_ttl : ℤ
  pub config_snapshot_id : Option Text

-- The functional options of `New` that matter here.
pub data QueueOption : Type 0 where
  with_dedupe_ttl : ℤ → QueueOption
  with_config_snapshot_id : Text → QueueOption

abbrev pub day : ℕ
day = 86_400_000_000_000

apply_option : Queue → QueueOption → Queue
apply_option q (with_dedupe_ttl ttl) = if is_pos ttl then record q { dedupe_ttl = ttl } else q
apply_option q (with_config_snapshot_id id) = record q { config_snapshot_id = some id }

apply_options : Queue → List QueueOption → Queue
unfolding apply_option
apply_options q [] = q
apply_options q (o ∷ os) = apply_options (apply_option q o) os

-- `New`
new : List QueueOption → Queue
unfolding apply_options
new opts = apply_options (record { dedupe_ttl = pos day; config_snapshot_id = none }) opts
