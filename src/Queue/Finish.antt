-- ===== src/Queue/Finish.antt =====
-- `UpdateJobForRecovery`, `CompleteWithResult`, `Complete` and `CancelOutstandingJobs` of
-- internal/queue/queue.go.
use ductile.Common.Text.Decimal.{decimal}
use ductile.Common.{
  ℕ, zero, suc, Bool, not, ◌&&◌, List, [], ◌∷◌, ◌++◌, Option, none, some, ◌==◌, if◌then◌else◌,
  length, keep, count, first,
}
use ductile.Common.Text.{Text, codes, text_eq, is_empty, trim_space}
use ductile.Queue.Db.{Db, has_id, find_job, update_where, record_job_transition}
use ductile.Queue.Types.{
  Status, dead, status_eq, is_outstanding, is_terminal, Job, JobLog, Result, ok, err, ◌>>◌, refuse,
  plugin_empty, command_empty, job_id_empty, invalid_terminal_status, job_not_found,
  load_job_failed, cancel_mismatch,
}

-- `if lastError != ""`
abbrev pub error_value : Text → Option Text
error_value [] = none
error_value (c ∷ s) = some (c ∷ s)

-- A transition is a fact only where the status changes.
unfoldable pub note_change : Text → Status → Status → Option Text → ℕ → Db → Db
unfolding record_job_transition
note_change id from to why now db =
    if status_eq from to then db else record_job_transition id (some from) to why now db

unfoldable pub recover_job : Status → ℕ → Option ℕ → Option Text → Job → Job
recover_job status attempt retry error j = record j {
  status = status;
  attempt = attempt;
  next_retry_at = retry;
  last_error = error;
}

-- `UpdateJobForRecovery`
unfoldable pub update_job_for_recovery : Text → Status → ℕ → Option ℕ → Text → ℕ → Db → Result Db
unfolding note_change recover_job
update_job_for_recovery id status attempt retry error now db = elim (find_job id db) [
  | none ↦ err job_not_found
  | some j ↦
      let noted = note_change id j.status status (error_value error) now db in
      ok (record noted {
        job_queue =
            update_where (has_id id) (recover_job status attempt retry (error_value error))
              noted.job_queue;
      })
]

unfoldable pub complete_job : Status → ℕ → Option Text → Job → Job
complete_job status now error j = record j {
  status = status;
  completed_at = some now;
  last_error = error;
}

-- `fmt.Sprintf("%s-%d", jobID, attempt)`
pub log_id : Text → ℕ → Text
unfolding decimal
log_id id n = id ++ 45 ∷ decimal n

abbrev max_stderr_bytes : ℕ
max_stderr_bytes = 65_536

abbrev take_bytes : ℕ → Text → Text
take_bytes zero s = []
take_bytes (suc n) [] = []
take_bytes (suc n) (c ∷ s) = c ∷ take_bytes n s

-- stderr, as bytes, is cut to `maxStderrBytes`.
pub stored_stderr : Option Text → Option Text
stored_stderr none = none
stored_stderr (some s) = some (take_bytes max_stderr_bytes s)

-- `INSERT OR IGNORE INTO job_log`
unfoldable pub insert_job_log : JobLog → Db → Db
insert_job_log l db = elim (first (λ k. text_eq k.log_id l.log_id) db.job_log) [
  | some k ↦ db
  | none ↦ record db { job_log = db.job_log ++ l ∷ [] }
]

unfoldable pub completion_log : Status → Option Text → Option Text → Option Text → ℕ → Job → JobLog
unfolding log_id stored_stderr
completion_log status result error stderr now j = record {
  log_id = log_id j.id j.attempt;
  job_id = j.id;
  plugin = j.plugin;
  command = j.command;
  status = status;
  result = elim result [ none ↦ none | some r ↦ error_value r ];
  attempt = j.attempt;
  submitted_by = j.submitted_by;
  created_at = j.created_at;
  completed_at = now;
  last_error = error;
  stderr = stored_stderr stderr;
  parent_job_id = j.parent_job_id;
  source_event_id = j.source_event_id;
  event_context_id = j.event_context_id;
  enqueued_config_snapshot_id = j.enqueued_config_snapshot_id;
  started_config_snapshot_id = j.started_config_snapshot_id;
}

-- The update of the row, and the log entry, of a completion.
unfoldable pub finish_job :
    Text → Status → Option Text → Option Text → Option Text → ℕ → Job → Db → Db
unfolding note_change complete_job insert_job_log completion_log
finish_job id status result error stderr now j db =
    let noted = note_change id j.status status error now db in
    insert_job_log (completion_log status result error stderr now j) (record noted {
      job_queue = update_where (has_id id) (complete_job status now error) noted.job_queue;
    })

-- `CompleteWithResult`
unfoldable pub complete_with_result :
    Text → Status → Option Text → Option Text → Option Text → ℕ → Db → Result Db
unfolding finish_job
complete_with_result id status result error stderr now db = do
  refuse (is_empty id) job_id_empty
  refuse (not (is_terminal status)) (invalid_terminal_status status)
  elim (find_job id db) [
    | none ↦ err load_job_failed
    | some j ↦ ok (finish_job id status result error stderr now j db)
  ]

-- `Complete`
complete : Text → Status → Option Text → Option Text → ℕ → Db → Result Db
unfolding complete_with_result
complete id status error stderr now db = complete_with_result id status none error stderr now db

-- `plugin = ? AND command = ? AND status IN (?, ?)`
unfoldable pub is_cancellable : Text → Text → Job → Bool
is_cancellable plugin command j =
    text_eq j.plugin plugin && (text_eq j.command command && is_outstanding j.status)

-- The loop that records a transition for each selected job.
unfoldable pub note_cancelled : Text → ℕ → List Job → Db → Db
unfolding record_job_transition
note_cancelled why now [] db = db
note_cancelled why now (j ∷ js) db =
    note_cancelled why now js (record_job_transition j.id (some j.status) dead (some why) now db)

abbrev pub cancel_reason : Text → Text
cancel_reason why = if is_empty (trim_space why) then codes "cancelled by scheduler" else why

-- `CancelOutstandingJobs`. The rows updated are those selected, so their numbers agree.
unfoldable pub cancel_outstanding_jobs : Text → Text → Text → ℕ → Db → Result (ℕ × Db)
unfolding is_cancellable note_cancelled complete_job
cancel_outstanding_jobs plugin command why now db = do
  refuse (is_empty plugin) plugin_empty
  refuse (is_empty command) command_empty
  let selected = keep (is_cancellable plugin command) db.job_queue
  let noted = note_cancelled (cancel_reason why) now selected db
  let updated = count (is_cancellable plugin command) noted.job_queue
  let done = record noted {
    job_queue =
        update_where (is_cancellable plugin command)
          (complete_job dead now (some (cancel_reason why))) noted.job_queue;
  }
  if updated == length selected
      then ok (updated, done)
      else err (cancel_mismatch (length selected) updated)
