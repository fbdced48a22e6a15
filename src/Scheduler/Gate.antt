-- ===== src/Scheduler/Gate.antt =====
-- `canSchedule` of internal/scheduler/scheduler.go, with the counts of internal/queue/queue.go that
-- `outstandingForPolicy` of internal/scheduler/poll_view.go reads.
pub mod Competes
pub mod Admits
pub mod Open
use ductile.Common.{ℕ, Bool, ◌&&◌, [], ◌∷◌, some, ltb, leb, if◌then◌else◌, count}
use ductile.Common.Int.{ℤ, pos_part, is_pos}
use ductile.Common.Text.{Text, codes, text_eq, is_empty, trim_space}
use ductile.Queue.Db.{Db}
use ductile.Queue.Types.{
  ◌>>=◌, ◌>>◌, is_outstanding, Job, open_state, half_open, CircuitBreaker,
  cooldown_elapsed as cooldown_reason, QueueError, plugin_empty, command_empty, submitted_by_empty,
  Result, ok, err, refuse,
}
use ductile.Queue.Finish.{cancel_outstanding_jobs}
use ductile.Queue.Breaker.{upsert_circuit_breaker, record_circuit_breaker_transition}
use ductile.Scheduler.Breaker.{current_circuit_breaker, cooldown_elapsed, state_eq}

pub is_outstanding_command : Text → Text → Job → Bool
is_outstanding_command plugin command j =
    text_eq j.plugin plugin && (text_eq j.command command && is_outstanding j.status)

-- `CountOutstandingJobs`
count_outstanding_jobs : Text → Text → Db → Result ℕ
unfolding is_outstanding_command
count_outstanding_jobs plugin command db = do
  refuse (is_empty plugin) plugin_empty
  refuse (is_empty command) command_empty
  ok (count (is_outstanding_command plugin command) db.job_queue)

-- `CountOutstandingJobsBySubmitter`
count_outstanding_jobs_by_submitter : Text → Text → Text → Db → Result ℕ
unfolding is_outstanding_command
count_outstanding_jobs_by_submitter plugin command submitted_by db = do
  refuse (is_empty plugin) plugin_empty
  refuse (is_empty command) command_empty
  refuse (is_empty submitted_by) submitted_by_empty
  ok (
      count (λ j. is_outstanding_command plugin command j && text_eq j.submitted_by submitted_by)
        db.job_queue)

abbrev poll_command : Text
poll_command = codes "poll"

-- `outstandingForPolicy`, with the service's name trimmed by `schedulerSubmitter`.
pub outstanding_for_policy : Text → Text → Text → Db → Result ℕ
unfolding count_outstanding_jobs count_outstanding_jobs_by_submitter
outstanding_for_policy service plugin command db =
    if text_eq command poll_command
    then count_outstanding_jobs_by_submitter plugin command (trim_space service) db
    else count_outstanding_jobs plugin command db

-- Why a schedule does not run now: the strings that `canSchedule` returns.
pub data Verdict : Type 0 where
  allowed circuit_open already_running outstanding_limit : Verdict

-- An error of `canSchedule`: one of the queue's, or an unknown if_running policy.
pub data GateError : Type 0 where
  queue_error : QueueError → GateError
  invalid_policy : Text → GateError

pub data Gate : Type 0 where
  gate : Verdict → Db → Gate
  gate_error : GateError → Gate

-- Go on with a queue call's result, or return its error.
abbrev on_result : {A : Type 0} → Result A → (A → Gate) → Gate
on_result (ok a) f = f a
on_result (err e) f = gate_error (queue_error e)

-- `pluginConf.MaxOutstandingPolls`, 1 where it is not positive.
abbrev max_outstanding : ℤ → ℕ
max_outstanding n = if is_pos n then pos_part n else 1

abbrev cancel_reason_text : Text
cancel_reason_text = codes "cancelled by scheduler (if_running=cancel)"

-- The `switch ifRunning`.
unfoldable pub apply_policy : Text → ℕ → Text → Text → ℤ → Text → Db → Gate
unfolding outstanding_for_policy
apply_policy service now plugin command polls policy db =
    if text_eq policy (codes "skip")
    then on_result (outstanding_for_policy service plugin command db)
        (λ n. if ltb 0 n then gate already_running db else gate allowed db)
    else if text_eq policy (codes "queue")
    then on_result (outstanding_for_policy service plugin command db)
        (λ n. if leb (max_outstanding polls) n then gate outstanding_limit db else gate allowed db)
    else if text_eq policy (codes "cancel")
    then on_result (outstanding_for_policy service plugin command db) (λ n.
      if ltb 0 n
      then on_result (cancel_outstanding_jobs plugin command cancel_reason_text now db)
          (λ r. gate allowed r.1)
      else gate allowed db)
    else gate_error (invalid_policy policy)

abbrev default_policy : Text → Text
default_policy [] = codes "skip"
default_policy (c ∷ s) = c ∷ s

-- The move of an open breaker to half-open.
half_open_breaker : ℕ → Text → Text → CircuitBreaker → Db → Result Db
unfolding upsert_circuit_breaker record_circuit_breaker_transition
half_open_breaker now plugin command cb db = do
  db' ← upsert_circuit_breaker now (record cb { state = half_open }) db
  record_circuit_breaker_transition
      (record {
        plugin = plugin;
        command = command;
        from_state = some cb.state;
        to_state = half_open;
        failure_count = cb.failure_count;
        reason = cooldown_reason;
        job_id = cb.last_job_id;
        created_at = now;
      })
      db'

-- `canSchedule`
can_schedule : Text → ℕ → Text → Text → ℕ → ℤ → Text → Db → Gate
unfolding current_circuit_breaker cooldown_elapsed half_open_breaker apply_policy
can_schedule service now plugin command reset_after polls if_running db =
    on_result (current_circuit_breaker plugin command db) (λ cb.
      let go_on =
        apply_policy service now plugin command polls (default_policy (trim_space if_running)) in
      if state_eq cb.state open_state
      then if cooldown_elapsed cb reset_after now
        then on_result (half_open_breaker now plugin command cb db) go_on
        else gate circuit_open db
      else go_on db)
