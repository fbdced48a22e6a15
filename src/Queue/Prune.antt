-- ===== src/Queue/Prune.antt =====
-- The retention operations of internal/queue/queue.go: `PruneJobLogs`, `PruneJobQueue`,
-- `PruneJobTransitions`, `PruneJobAttempts` and `PruneBreakerTransitions`.
use ductile.Common.{ℕ, ◌-◌, Bool, false, not, ◌&&◌, Option, none, some, if◌then◌else◌, keep}
use ductile.Common.Int.{ℤ, pos_part, is_pos}
use ductile.Queue.Stamp.{stamp_lt}
use ductile.Queue.Db.{Db}
use ductile.Queue.Types.{is_terminal, Job}

-- `completed_at IS NOT NULL AND completed_at < ?`
abbrev completed_before : ℕ → Option ℕ → Bool
completed_before cutoff none = false
completed_before cutoff (some t) = stamp_lt t cutoff

-- The rows of job_queue that a prune deletes.
unfoldable pub is_expired : ℕ → Job → Bool
is_expired cutoff j = is_terminal j.status && completed_before cutoff j.completed_at

-- `PruneJobQueue`
unfoldable pub prune_job_queue : ℤ → ℕ → Db → Db
unfolding is_expired
prune_job_queue retention now db =
    if is_pos retention
    then record db {
      job_queue = keep (λ j. not (is_expired (now - pos_part retention) j)) db.job_queue;
    }
    else db

-- `PruneJobLogs`
unfoldable pub prune_job_logs : ℤ → ℕ → Db → Db
prune_job_logs retention now db =
    if is_pos retention
    then record db {
      job_log = keep (λ l. not (stamp_lt l.completed_at (now - pos_part retention))) db.job_log;
    }
    else db

-- `PruneJobTransitions`
prune_job_transitions : ℤ → ℕ → Db → Db
prune_job_transitions retention now db =
    if is_pos retention
    then record db {
      job_transitions =
          keep (λ t. not (stamp_lt t.created_at (now - pos_part retention))) db.job_transitions;
    }
    else db

-- `PruneJobAttempts`
unfoldable pub prune_job_attempts : ℤ → ℕ → Db → Db
prune_job_attempts retention now db =
    if is_pos retention
    then record db {
      job_attempts =
          keep (λ a. not (stamp_lt a.created_at (now - pos_part retention))) db.job_attempts;
    }
    else db

-- `PruneBreakerTransitions`
prune_breaker_transitions : ℤ → ℕ → Db → Db
prune_breaker_transitions retention now db =
    if is_pos retention
    then record db {
      circuit_breaker_transitions =
          keep (λ t. not (stamp_lt t.created_at (now - pos_part retention)))
            db.circuit_breaker_transitions;
    }
    else db
