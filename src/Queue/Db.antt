-- ===== src/Queue/Db.antt =====
-- The tables that internal/queue/queue.go reads and writes, and the SQL statements' common parts.
-- A table is the list of its rows in the order of their row numbers.
use ductile.Common.{
  ℕ, Bool, ◌&&◌, List, [], ◌∷◌, ◌++◌, Option, none, some, ◌==◌, if◌then◌else◌, count, first,
}
use ductile.Common.Text.{Text, text_eq, is_empty, trim_space}
use ductile.Queue.Stamp.{stamp_le}
use ductile.Queue.Types.{
  Status, is_outstanding, Job, JobTransition, JobAttempt, JobLog, CircuitBreaker,
  CircuitBreakerTransition, Result, ok, err, column_eq, attempt_exists,
}

pub record Db : Type 0 where
  pub job_queue : List Job
  pub job_transitions : List JobTransition
  pub job_attempts : List JobAttempt
  pub job_log : List JobLog
  pub circuit_breakers : List CircuitBreaker
  pub circuit_breaker_transitions : List CircuitBreakerTransition

-- `UPDATE ... SET f WHERE p`
unfoldable pub update_where {ℓ} : {A : Type ℓ} → (A → Bool) → (A → A) → List A → List A
update_where p f [] = []
update_where p f (x ∷ xs) = (if p x then f x else x) ∷ update_where p f xs

-- `WHERE id = ?`
abbrev pub has_id : Text → Job → Bool
has_id id j = text_eq j.id id

abbrev pub find_job : Text → Db → Option Job
find_job id db = first (has_id id) db.job_queue

-- `WHERE dedupe_key = ? AND plugin = ? AND command = ?`
abbrev pub has_target : Text → Text → Text → Job → Bool
has_target plugin command key j =
    column_eq j.dedupe_key key && (text_eq j.plugin plugin && text_eq j.command command)

-- `recordJobTransition`: a reason that is blank is stored as NULL.
abbrev pub stored_reason : Option Text → Option Text
stored_reason none = none
stored_reason (some r) = if is_empty (trim_space r) then none else some r

unfoldable pub record_job_transition : Text → Option Status → Status → Option Text → ℕ → Db → Db
record_job_transition id from to why now db = record db {
  job_transitions =
      db.job_transitions
      ++ record {
        job_id = id;
        from_status = from;
        to_status = to;
        reason = stored_reason why;
        created_at = now;
      }
        ∷ [];
}

-- `UNIQUE(job_id, attempt)` of job_attempts.
unfoldable pub has_attempt : Text → ℕ → JobAttempt → Bool
has_attempt id n a = text_eq a.job_id id && a.attempt == n

-- `recordJobAttempt`
unfoldable pub record_job_attempt : Text → ℕ → ℕ → Db → Result Db
unfolding has_attempt
record_job_attempt id n now db = elim (first (has_attempt id n) db.job_attempts) [
  | some a ↦ err attempt_exists
  | none ↦ ok (record db {
    job_attempts = db.job_attempts ++ record { job_id = id; attempt = n; created_at = now } ∷ [];
  })
]

-- `ORDER BY created_at ASC, rowid ASC LIMIT 1`
unfoldable pub oldest : List Job → Option Job
oldest [] = none
oldest (j ∷ js) = elim (oldest js) [
  | none ↦ some j
  | some k ↦ some (if stamp_le j.created_at k.created_at then j else k)
]

-- `ORDER BY t DESC, rowid DESC LIMIT 1`, by the stamps `t`. Where the source orders by a time
-- alone, ties are settled the same way.
unfoldable pub latest : (Job → ℕ) → List Job → Option Job
latest t [] = none
latest t (j ∷ js) = elim (latest t js) [
  | none ↦ some j
  | some k ↦ some (if stamp_le (t j) (t k) then k else j)
]

-- `SELECT COUNT(*) ... WHERE status IN (?, ?)`: `Depth`.
depth : Db → ℕ
depth db = count (λ j. is_outstanding j.status) db.job_queue
