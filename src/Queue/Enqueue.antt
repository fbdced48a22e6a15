-- ===== src/Queue/Enqueue.antt =====
-- `Enqueue`, its two lookups and `DedupeStatus`, of internal/queue/queue.go.
use ductile.Common.{
  ℕ, ◌-◌, Bool, false, ◌&&◌, ◌||◌, [], ◌∷◌, ◌++◌, Option, none, some, if◌then◌else◌, keep, first,
}
use ductile.Common.Int.{ℤ, pos_part, is_pos}
use ductile.Common.Text.{Text, text_eq, is_empty, trim_space}
use ductile.Queue.Stamp.{stamp_le}
use ductile.Queue.Db.{Db, has_id, has_target, latest, record_job_transition}
use ductile.Queue.Types.{
  queued, succeeded, status_eq, is_outstanding, Job, EnqueueRequest, Result, ok, err, ◌>>◌, refuse,
  plugin_empty, command_empty, submitted_by_empty, dedupe_drop, source_event_conflict, Queue,
}

-- The row's completion time, where it has one.
abbrev pub completion : Job → ℕ
completion j = elim j.completed_at [ none ↦ 0 | some t ↦ t ]

-- `completed_at IS NOT NULL AND completed_at >= ?`
abbrev completed_since : ℕ → Option ℕ → Bool
completed_since cutoff none = false
completed_since cutoff (some t) = stamp_le cutoff t

unfoldable pub is_recent_success : Text → Text → Text → ℕ → Job → Bool
is_recent_success plugin command key cutoff j =
    has_target plugin command key j
    && (status_eq j.status succeeded && completed_since cutoff j.completed_at)

-- `findRecentSucceededByDedupeKey`
unfoldable pub find_recent_succeeded : Text → Text → Text → ℕ → ℕ → Db → Option Job
unfolding is_recent_success
find_recent_succeeded plugin command key ttl now db =
    latest completion (keep (is_recent_success plugin command key (now - ttl)) db.job_queue)

unfoldable pub is_outstanding_target : Text → Text → Text → Job → Bool
is_outstanding_target plugin command key j =
    has_target plugin command key j && is_outstanding j.status

-- `findOutstandingByDedupeKey`
unfoldable pub find_outstanding : Text → Text → Text → Db → Option Job
unfolding is_outstanding_target
find_outstanding plugin command key db =
    latest (λ j. j.created_at) (keep (is_outstanding_target plugin command key) db.job_queue)

-- A found job drops the request.
abbrev pub drop_if : Text → Option Job → Result (Unit {0})
drop_if key none = ok tt
drop_if key (some j) = err (dedupe_drop key j.id)

-- The dedupe TTL in force for a request.
abbrev pub request_ttl : Queue → Option ℤ → ℤ
request_ttl q none = q.dedupe_ttl
request_ttl q (some ttl) = ttl

-- `if req.DedupeTTL != nil`: only such a request looks for outstanding jobs.
unfoldable pub check_outstanding : Option ℤ → Text → Text → Text → Db → Result (Unit {0})
check_outstanding none plugin command key db = ok tt
check_outstanding (some ttl) plugin command key db =
    drop_if key (find_outstanding plugin command key db)

unfoldable pub check_recent : ℤ → Text → Text → Text → ℕ → Db → Result (Unit {0})
check_recent ttl plugin command key now db =
    if is_pos ttl
    then drop_if key (find_recent_succeeded plugin command key (pos_part ttl) now db)
    else ok tt

-- The block `if dedupeKey != ""`, on a key already trimmed.
unfoldable pub check_key : Queue → EnqueueRequest → Text → ℕ → Db → Result (Unit {0})
unfolding check_outstanding check_recent
check_key q req [] now db = ok tt
check_key q req (c ∷ s) now db = do
  check_outstanding req.dedupe_ttl req.plugin req.command (c ∷ s) db
  check_recent (request_ttl q req.dedupe_ttl) req.plugin req.command (c ∷ s) now db

-- The block `if req.DedupeKey != nil`.
unfoldable pub check_dedupe : Queue → EnqueueRequest → Option Text → ℕ → Db → Result (Unit {0})
unfolding check_key
check_dedupe q req none now db = ok tt
check_dedupe q req (some key) now db = check_key q req (trim_space key) now db

-- The row is in conflict with one of the table's unique indexes: its id, or its source event.
abbrev pub same_source : Option Text → Option Text → Option Text → Option Text → Bool
same_source (some p) (some e) (some p') (some e') = text_eq p' p && text_eq e' e
same_source _ _ _ _ = false

unfoldable pub is_conflict : Text → EnqueueRequest → Job → Bool
is_conflict id req j =
    has_id id j
    || (same_source req.parent_job_id req.source_event_id j.parent_job_id j.source_event_id
        && (text_eq j.plugin req.plugin && text_eq j.command req.command))

abbrev non_empty : Text → Option Text
non_empty [] = none
non_empty (c ∷ s) = some (c ∷ s)

-- The snapshot id of the request, else the provider's, where it is not blank.
abbrev pub snapshot_value : Queue → Text → Option Text
snapshot_value q [] = elim q.config_snapshot_id [ none ↦ none | some s ↦ non_empty (trim_space s) ]
snapshot_value q (c ∷ s) = some (c ∷ s)

abbrev effective_max_attempts : ℤ → ℕ
effective_max_attempts n = if is_pos n then pos_part n else 4

-- The row that the INSERT writes. The dedupe key is stored as it was given.
unfoldable pub new_job : Queue → Text → ℕ → EnqueueRequest → Job
new_job q id now req = record {
  id = id;
  plugin = req.plugin;
  command = req.command;
  payload = non_empty req.payload;
  status = queued;
  attempt = 1;
  max_attempts = effective_max_attempts req.max_attempts;
  submitted_by = req.submitted_by;
  dedupe_key = req.dedupe_key;
  created_at = now;
  started_at = none;
  completed_at = none;
  next_retry_at = none;
  last_error = none;
  parent_job_id = req.parent_job_id;
  source_event_id = req.source_event_id;
  event_context_id = req.event_context_id;
  enqueued_config_snapshot_id = snapshot_value q (trim_space req.enqueued_config_snapshot_id);
  started_config_snapshot_id = none;
}

-- What an ignored INSERT returns: a conflict for a request with a source event, else the id.
abbrev ignored : Text → EnqueueRequest → Option Text → Db → Result (Text × Db)
ignored id req none db = ok (id, db)
ignored id req (some e) db =
    if is_empty (trim_space e)
    then ok (id, db)
    else err (
        source_event_conflict (elim req.parent_job_id [ none ↦ [] | some p ↦ p ]) e req.plugin
          req.command)

-- `INSERT OR IGNORE INTO job_queue`, and the transition to `queued`.
unfoldable pub insert_job : Queue → Text → ℕ → EnqueueRequest → Db → Result (Text × Db)
unfolding is_conflict new_job
insert_job q id now req db = elim (first (is_conflict id req) db.job_queue) [
  | some j ↦ ignored id req req.source_event_id db
  | none ↦ ok (
    id,
    record_job_transition id none queued none now
        (record db { job_queue = db.job_queue ++ new_job q id now req ∷ [] }),
  )
]

-- `Enqueue`, with the id that uuid.NewString() gives and the time that it reads.
unfoldable pub enqueue : Queue → Text → ℕ → EnqueueRequest → Db → Result (Text × Db)
unfolding check_dedupe insert_job
enqueue q id now req db = do
  refuse (is_empty req.plugin) plugin_empty
  refuse (is_empty req.command) command_empty
  refuse (is_empty req.submitted_by) submitted_by_empty
  check_dedupe q req req.dedupe_key now db
  insert_job q id now req db

-- `state.DedupeStatus`, with the existing job's id.
pub data DedupeStatus : Type 0 where
  fresh : DedupeStatus
  outstanding recent_success : Text → DedupeStatus

abbrev pub recent_status : Option Job → DedupeStatus
recent_status none = fresh
recent_status (some j) = recent_success j.id

-- `DedupeStatus` on a key already trimmed and not blank.
unfoldable pub key_status : Queue → Text → Text → Text → ℕ → Db → DedupeStatus
key_status q plugin command key now db = elim (find_outstanding plugin command key db) [
  | some j ↦ outstanding j.id
  | none ↦
      if is_pos q.dedupe_ttl
      then recent_status (find_recent_succeeded plugin command key (pos_part q.dedupe_ttl) now db)
      else fresh
]

-- `DedupeStatus`
unfoldable pub dedupe_status : Queue → Text → Text → Text → ℕ → Db → DedupeStatus
unfolding key_status
dedupe_status q plugin command key now db =
    if is_empty (trim_space key) || (is_empty (trim_space plugin) || is_empty (trim_space command))
    then fresh
    else key_status q plugin command (trim_space key) now db
