-- ===== src/Examples/Data.antt =====
-- The rows that the examples share, in the types of internal/queue/types.go.
use ductile.Common.{ℕ, List, [], ◌∷◌, Option, none, some}
use ductile.Common.Int.{ℤ, pos}
use ductile.Common.Text.{Text, codes}
use ductile.Queue.Types.{
  Status, queued, running, succeeded, Job, JobTransition, JobAttempt, EnqueueRequest, Queue, day,
}
use ductile.Queue.Db.{Db}

abbrev pub settings : Queue
settings = record { dedupe_ttl = pos day; config_snapshot_id = some (codes "cfg") }

-- A job of the plugin and command that the key names.
abbrev job : Text → Text → Status → Option Text → ℕ → Option ℕ → Job
job id command status key created completed = record {
  id = id;
  plugin = codes "echo";
  command = command;
  payload = none;
  status = status;
  attempt = 1;
  max_attempts = 2;
  submitted_by = codes "ductile";
  dedupe_key = key;
  created_at = created;
  started_at = none;
  completed_at = completed;
  next_retry_at = none;
  last_error = none;
  parent_job_id = none;
  source_event_id = none;
  event_context_id = none;
  enqueued_config_snapshot_id = none;
  started_config_snapshot_id = none;
}

abbrev pub waiting : Job
waiting = job (codes "a") (codes "poll") queued (some (codes "key")) 5 none

abbrev pub started : Job
started = job (codes "b") (codes "handle") running (some (codes "key")) 3 none

abbrev pub ended : Job
ended = job (codes "c") (codes "sync") succeeded (some (codes "done")) 1 (some 2)

abbrev noted : Text → Status → JobTransition
noted id status = record {
  job_id = id;
  from_status = none;
  to_status = status;
  reason = none;
  created_at = 1;
}

abbrev pub attempted : Text → JobAttempt
attempted id = record { job_id = id; attempt = 1; created_at = 1 }

abbrev table : List Job → Db
table jobs = record {
  job_queue = jobs;
  job_transitions =
      noted (codes "a") queued ∷ noted (codes "b") running ∷ noted (codes "c") succeeded ∷ [];
  job_attempts = attempted (codes "b") ∷ attempted (codes "c") ∷ [];
  job_log = [];
  circuit_breakers = [];
  circuit_breaker_transitions = [];
}

abbrev pub db : Db
db = table (waiting ∷ started ∷ ended ∷ [])

abbrev pub request : Text → Text → Option ℤ → EnqueueRequest
request command key ttl = record {
  plugin = codes "echo";
  command = command;
  payload = [];
  max_attempts = pos 3;
  submitted_by = codes "ductile";
  dedupe_key = some key;
  dedupe_ttl = ttl;
  parent_job_id = none;
  event_context_id = none;
  source_event_id = none;
  enqueued_config_snapshot_id = [];
}
