-- ===== src/Queue/Dequeue.antt =====
-- `Dequeue` and `DequeueEligible` of internal/queue/queue.go.
use ductile.Common.{
  ℕ, Bool, true, false, not, ◌&&◌, ◌||◌, List, [], ◌∷◌, Option, none, some, ◌==◌, keep, count,
}
use ductile.Common.Text.{Text, text_eq}
use ductile.Queue.Stamp.{stamp_le}
use ductile.Queue.Db.{
  Db, has_id, has_target, update_where, oldest, record_job_transition, record_job_attempt,
}
use ductile.Queue.Types.{queued, running, status_eq, Job, Result, ok, ◌>>=◌, Queue}
use ductile.Queue.Enqueue.{snapshot_value}

-- `IN (?, ?, ...)`
abbrev pub is_in : List Text → Text → Bool
is_in [] k = false
is_in (x ∷ xs) k = text_eq k x || is_in xs k

-- `next_retry_at IS NULL OR next_retry_at <= ?`
abbrev pub is_due : ℕ → Option ℕ → Bool
is_due now none = true
is_due now (some t) = stamp_le t now

-- `dedupe_key IS NULL OR dedupe_key NOT IN (...)`
abbrev pub key_allowed : List Text → Option Text → Bool
key_allowed active none = true
key_allowed active (some k) = not (is_in active k)

-- The subquery's row: running, with the candidate's key and target.
unfoldable pub is_running_target : Text → Text → Text → Job → Bool
is_running_target plugin command key j =
    status_eq j.status running && has_target plugin command key j

-- `dedupe_key IS NULL OR NOT EXISTS (...)`
unfoldable pub lane_free : List Job → Job → Bool
unfolding is_running_target
lane_free jobs c = elim c.dedupe_key [
  | none ↦ true
  | some k ↦ count (is_running_target c.plugin c.command k) jobs == 0
]

-- The WHERE clause of the common table expression.
unfoldable pub is_eligible : List Text → List Text → ℕ → List Job → Job → Bool
unfolding lane_free
is_eligible skip active now jobs c =
    status_eq c.status queued
    && (is_due now c.next_retry_at
        && (not (is_in skip c.plugin) && (key_allowed active c.dedupe_key && lane_free jobs c)))

-- The SET clause.
unfoldable pub start_job : Queue → ℕ → Job → Job
start_job q now j = record j {
  status = running;
  started_at = some now;
  started_config_snapshot_id = snapshot_value q [];
}

-- The candidate that the statement claims.
unfoldable pub next_job : List Text → List Text → ℕ → Db → Option Job
unfolding is_eligible oldest
next_job skip active now db = oldest (keep (is_eligible skip active now db.job_queue) db.job_queue)

-- `UPDATE ... WHERE id IN (SELECT id FROM next)` and the two facts about it.
unfoldable pub claim : Queue → ℕ → Job → Db → Result (Option Job × Db)
unfolding start_job record_job_transition record_job_attempt
claim q now c db = do
  let started = record db { job_queue = update_where (has_id c.id) (start_job q now) db.job_queue }
  let noted = record_job_transition c.id (some queued) running none now started
  done ← record_job_attempt c.id c.attempt now noted
  ok (some (start_job q now c), done)

-- `DequeueEligible`
unfoldable pub dequeue_eligible : Queue → List Text → List Text → ℕ → Db → Result (Option Job × Db)
unfolding next_job claim
dequeue_eligible q skip active now db = elim (next_job skip active now db) [
  | none ↦ ok (none, db)
  | some c ↦ claim q now c db
]

-- `Dequeue`
dequeue : Queue → ℕ → Db → Result (Option Job × Db)
unfolding dequeue_eligible
dequeue q now db = dequeue_eligible q [] [] now db
