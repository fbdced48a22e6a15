-- ===== src/Queue/Breaker.antt =====
-- The circuit breaker's tables in internal/queue/queue.go: `GetCircuitBreaker`,
-- `UpsertCircuitBreaker`, `RecordCircuitBreakerTransition`, `ResetCircuitBreaker`, and
-- `LatestCompletedCommandResult`.
pub mod Stored
use ductile.Common.{
  ℕ, Bool, true, false, ◌&&◌, [], ◌∷◌, ◌++◌, Option, none, some, if◌then◌else◌, keep, first,
}
use ductile.Common.Text.{Text, text_eq, is_empty, trim_space}
use ductile.Queue.Db.{Db, update_where, latest}
use ductile.Queue.Enqueue.{completion}
use ductile.Queue.Types.{
  Status, succeeded, failed, timed_out, dead, Job, CircuitState, closed, CircuitBreaker,
  CircuitBreakerTransition, manual_reset, CommandResult, plugin_empty, command_empty,
  submitted_by_empty, Result, ok, refuse, ◌>>=◌, ◌>>◌,
}

-- `WHERE plugin = ? AND command = ?`
abbrev pub has_breaker : Text → Text → CircuitBreaker → Bool
has_breaker plugin command b = text_eq b.plugin plugin && text_eq b.command command

abbrev pub find_breaker : Text → Text → Db → Option CircuitBreaker
find_breaker plugin command db = first (has_breaker plugin command) db.circuit_breakers

-- `GetCircuitBreaker`
unfoldable pub get_circuit_breaker : Text → Text → Db → Result (Option CircuitBreaker)
get_circuit_breaker plugin command db = do
  refuse (is_empty plugin) plugin_empty
  refuse (is_empty command) command_empty
  ok (find_breaker plugin command db)

-- `INSERT ... ON CONFLICT(plugin, command) DO UPDATE`
unfoldable pub put_breaker : ℕ → CircuitBreaker → Db → Db
put_breaker now b db = elim (find_breaker b.plugin b.command db) [
  | none ↦ record db {
    circuit_breakers = db.circuit_breakers ++ record b { updated_at = now } ∷ [];
  }
  | some old ↦ record db {
    circuit_breakers =
        update_where (has_breaker b.plugin b.command) (λ k. record b { updated_at = now })
          db.circuit_breakers;
  }
]

-- `UpsertCircuitBreaker`. A state is never the empty string here, so its default is not needed.
unfoldable pub upsert_circuit_breaker : ℕ → CircuitBreaker → Db → Result Db
unfolding put_breaker
upsert_circuit_breaker now b db = do
  refuse (is_empty b.plugin) plugin_empty
  refuse (is_empty b.command) command_empty
  ok (put_breaker now b db)

abbrev pub stored_job_id : Option Text → Option Text
stored_job_id none = none
stored_job_id (some id) = if is_empty (trim_space id) then none else some (trim_space id)

-- `RecordCircuitBreakerTransition`
unfoldable pub record_circuit_breaker_transition : CircuitBreakerTransition → Db → Result Db
record_circuit_breaker_transition t db = do
  refuse (is_empty t.plugin) plugin_empty
  refuse (is_empty t.command) command_empty
  ok (record db {
    circuit_breaker_transitions =
        db.circuit_breaker_transitions ++ record t { job_id = stored_job_id t.job_id } ∷ [];
  })

abbrev pub initial_breaker : Text → Text → CircuitBreaker
initial_breaker plugin command = record {
  plugin = plugin;
  command = command;
  state = closed;
  failure_count = 0;
  opened_at = none;
  last_failure = none;
  last_job_id = none;
  updated_at = 0;
}

abbrev pub state_of : Option CircuitBreaker → Option CircuitState
state_of none = none
state_of (some b) = some b.state

-- `ResetCircuitBreaker`
unfoldable pub reset_circuit_breaker : ℕ → Text → Text → Db → Result Db
unfolding get_circuit_breaker upsert_circuit_breaker record_circuit_breaker_transition
reset_circuit_breaker now plugin command db = do
  previous ← get_circuit_breaker plugin command db
  db' ← upsert_circuit_breaker now (initial_breaker plugin command) db
  record_circuit_breaker_transition
      (record {
        plugin = plugin;
        command = command;
        from_state = state_of previous;
        to_state = closed;
        failure_count = 0;
        reason = manual_reset;
        job_id = none;
        created_at = now;
      })
      db'

-- `status IN (succeeded, failed, timed_out, dead)`: a skipped job is no result.
abbrev is_result : Status → Bool
is_result succeeded = true
is_result failed = true
is_result timed_out = true
is_result dead = true
is_result _ = false

abbrev has_completed : Option ℕ → Bool
has_completed none = false
has_completed (some t) = true

is_command_result : Text → Text → Text → Job → Bool
is_command_result plugin command submitted_by j =
    text_eq j.plugin plugin
    && (text_eq j.command command
        && (text_eq j.submitted_by submitted_by
            && (has_completed j.completed_at && is_result j.status)))

abbrev job_result : Job → CommandResult
job_result j = record { job_id = j.id; status = j.status; completed_at = completion j }

-- `LatestCompletedCommandResult`
unfoldable pub latest_completed_command_result :
    Text → Text → Text → Db → Result (Option CommandResult)
unfolding is_command_result
latest_completed_command_result plugin command submitted_by db = do
  refuse (is_empty plugin) plugin_empty
  refuse (is_empty command) command_empty
  refuse (is_empty submitted_by) submitted_by_empty
  ok (elim (latest completion (keep (is_command_result plugin command submitted_by) db.job_queue)) [
    | none ↦ none
    | some j ↦ some (job_result j)
  ])
