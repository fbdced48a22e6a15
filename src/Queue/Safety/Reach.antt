-- ===== src/Queue/Safety/Reach.antt =====
-- Every database that the operations of internal/queue/queue.go lead to: a step relation with the
-- arguments that the callers in internal/dispatch and internal/scheduler pass.
use ductile.Common.{
  ℕ, ◌+◌, false, List, [], Option, some, ◌≡◌, inl, inr, Bool-cases, arith, All-map_id,
}
use ductile.Common.Int.{ℤ, is_pos}
use ductile.Common.Text.{Text}
use ductile.Queue.Rows.{All-keep}
use ductile.Queue.Db.{Db, find_job}
use ductile.Queue.Types.{Status, running, status_eq, Job, EnqueueRequest, Queue, ok}
use ductile.Queue.Enqueue.{enqueue}
use ductile.Queue.Dequeue.{dequeue_eligible}
use ductile.Queue.Finish.{update_job_for_recovery, complete_with_result, cancel_outstanding_jobs}
use ductile.Queue.Prune.{prune_job_queue, prune_job_logs, prune_job_attempts}
use ductile.Queue.Safety.Rows.{
  RowChange, IdsUnique, SourcesUnique, LanesExclusive, RowChange-IdsUnique, RowChange-SourcesUnique,
}
use ductile.Queue.Safety.Rows.Lanes.{RowChange-LanesExclusive}
use ductile.Queue.Safety.Changes.{
  enqueue-Rows, dequeue_eligible-Rows, update_job_for_recovery-Rows, complete_with_result-Rows,
  cancel_outstanding_jobs-Rows, prune_job_queue-Rows,
}
use ductile.Queue.Safety.Lineage.{
  LineageMatches, enqueue-LineageMatches, dequeue_eligible-LineageMatches,
  update_job_for_recovery-LineageMatches, complete_with_result-LineageMatches,
}
use ductile.Queue.Safety.Lineage.Endings.{
  cancel_outstanding_jobs-LineageMatches, prune_job_queue-LineageMatches,
}
use ductile.Queue.Safety.Attempts.{
  IsFresh, AttemptsBehind, IsBehind, enqueue-AttemptsBehind, dequeue_eligible-AttemptsBehind,
  update_job_for_recovery-AttemptsBehind, complete_with_result-AttemptsBehind,
  cancel_outstanding_jobs-AttemptsBehind, prune_job_queue-AttemptsBehind,
}

-- A recovery counts the attempt up by one and never leaves the job running. The pruning of
-- job_transitions is no step: it drops the facts that the lineage rests on.
pub data Step (q : Queue) (db db' : Db) : Type 0 where
  enqueues :
      (id : Text) (now : ℕ) (req : EnqueueRequest) (r : Text × Db)
      → IsFresh id db
      → enqueue q id now req db ≡ ok r
      → db' ≡ r.1
      → Step q db db'
  dequeues :
      (skip active : List Text) (now : ℕ) (r : Option Job × Db)
      → dequeue_eligible q skip active now db ≡ ok r
      → db' ≡ r.1
      → Step q db db'
  recovers :
      (id : Text) (status : Status) (j : Job) (retry : Option ℕ) (error : Text) (now : ℕ)
      → status_eq status running ≡ false
      → find_job id db ≡ some j
      → update_job_for_recovery id status (j.attempt + 1) retry error now db ≡ ok db'
      → Step q db db'
  completes :
      (id : Text) (status : Status) (result error stderr : Option Text) (now : ℕ)
      → complete_with_result id status result error stderr now db ≡ ok db'
      → Step q db db'
  cancels :
      (plugin command why : Text) (now : ℕ) (r : ℕ × Db)
      → cancel_outstanding_jobs plugin command why now db ≡ ok r
      → db' ≡ r.1
      → Step q db db'
  prunes_queue : (retention : ℤ) (now : ℕ) → db' ≡ prune_job_queue retention now db → Step q db db'
  prunes_logs : (retention : ℤ) (now : ℕ) → db' ≡ prune_job_logs retention now db → Step q db db'
  prunes_attempts :
      (retention : ℤ) (now : ℕ) → db' ≡ prune_job_attempts retention now db → Step q db db'

pub data Reach (q : Queue) (db : Db) : Db → Type 0 where
  here : Reach q db db
  next : {a b : Db} → Reach q db a → Step q a b → Reach q db b

pub record IsConsistent (db : Db) : Type 0 where
  pub ids_unique : IdsUnique db.job_queue
  pub sources_unique : SourcesUnique db.job_queue
  pub lanes_exclusive : LanesExclusive db.job_queue
  pub lineage_matches : LineageMatches db
  pub attempts_behind : AttemptsBehind db

unfoldable pub empty : Db
empty = record {
  job_queue = [];
  job_transitions = [];
  job_attempts = [];
  job_log = [];
  circuit_breakers = [];
  circuit_breaker_transitions = [];
}

pub empty-IsConsistent : IsConsistent empty
unfolding empty
empty-IsConsistent = record {
  ids_unique = λ id. omega arith;
  sources_unique = λ p e c d. omega arith;
  lanes_exclusive = λ p c k. omega arith;
  lineage_matches = tt;
  attempts_behind = tt;
}

-- The fields that follow from the change of the rows, with the two others.
from_rows :
    {db db' : Db}
    → IsConsistent db
    → RowChange db.job_queue db'.job_queue
    → LineageMatches db'
    → AttemptsBehind db'
    → IsConsistent db'
from_rows {db} {db'} c r l a = record {
  ids_unique = RowChange-IdsUnique db.job_queue db'.job_queue r c.ids_unique;
  sources_unique = RowChange-SourcesUnique db.job_queue db'.job_queue r c.sources_unique;
  lanes_exclusive =
      RowChange-LanesExclusive db.job_queue db'.job_queue r c.ids_unique c.lanes_exclusive;
  lineage_matches = l;
  attempts_behind = a;
}

prune_job_logs-IsConsistent :
    (retention : ℤ) (now : ℕ) (db : Db)
    → IsConsistent db
    → IsConsistent (prune_job_logs retention now db)
unfolding prune_job_logs
prune_job_logs-IsConsistent retention now db c = elim (Bool-cases (is_pos retention)) [
  | inl t ↦ rw t (record {
    ids_unique = c.ids_unique;
    sources_unique = c.sources_unique;
    lanes_exclusive = c.lanes_exclusive;
    lineage_matches = c.lineage_matches;
    attempts_behind = c.attempts_behind;
  })
  | inr f ↦ rw f c
]

prune_job_attempts-IsConsistent :
    (retention : ℤ) (now : ℕ) (db : Db)
    → IsConsistent db
    → IsConsistent (prune_job_attempts retention now db)
unfolding prune_job_attempts
prune_job_attempts-IsConsistent retention now db c = elim (Bool-cases (is_pos retention)) [
  | inl t ↦ rw t (record {
    ids_unique = c.ids_unique;
    sources_unique = c.sources_unique;
    lanes_exclusive = c.lanes_exclusive;
    lineage_matches = c.lineage_matches;
    attempts_behind =
        All-map_id _ _ (λ j. All-keep (IsBehind j) _ db.job_attempts) db.job_queue
          c.attempts_behind;
  })
  | inr f ↦ rw f c
]

Step-IsConsistent : (q : Queue) {db db' : Db} → Step q db db' → IsConsistent db → IsConsistent db'
Step-IsConsistent q {db} {db'} (enqueues id now req r f h e) c = rw e (
    from_rows c (enqueue-Rows q id now req db r h)
      (enqueue-LineageMatches q id now req db r c.lineage_matches h)
      (enqueue-AttemptsBehind q id now req db r f c.attempts_behind h))
Step-IsConsistent q {db} {db'} (dequeues skip active now r h e) c = rw e (
    from_rows c (dequeue_eligible-Rows q skip active now db r h)
      (dequeue_eligible-LineageMatches q skip active now db r c.lineage_matches h)
      (dequeue_eligible-AttemptsBehind q skip active now db r c.ids_unique c.attempts_behind h))
Step-IsConsistent q {db} {db'} (recovers id status j retry error now idle found h) c =
    from_rows c
      (update_job_for_recovery-Rows id status (j.attempt + 1) retry error now db db' idle h)
      (update_job_for_recovery-LineageMatches id status (j.attempt + 1) retry error now db db'
        c.ids_unique c.lineage_matches h)
      (update_job_for_recovery-AttemptsBehind id status j retry error now db db' c.ids_unique
        c.attempts_behind found h)
Step-IsConsistent q {db} {db'} (completes id status result error stderr now h) c =
    from_rows c (complete_with_result-Rows id status result error stderr now db db' h)
      (complete_with_result-LineageMatches id status result error stderr now db db' c.ids_unique
        c.lineage_matches h)
      (complete_with_result-AttemptsBehind id status result error stderr now db db'
        c.attempts_behind h)
Step-IsConsistent q {db} {db'} (cancels plugin command why now r h e) c = rw e (
    from_rows c (cancel_outstanding_jobs-Rows plugin command why now db r h)
      (cancel_outstanding_jobs-LineageMatches plugin command why now db r c.ids_unique
        c.lineage_matches h)
      (cancel_outstanding_jobs-AttemptsBehind plugin command why now db r c.attempts_behind h))
Step-IsConsistent q {db} {db'} (prunes_queue retention now e) c = rw e (
    from_rows c (prune_job_queue-Rows retention now db)
      (prune_job_queue-LineageMatches retention now db c.lineage_matches)
      (prune_job_queue-AttemptsBehind retention now db c.attempts_behind))
Step-IsConsistent q {db} {db'} (prunes_logs retention now e) c =
    rw e (prune_job_logs-IsConsistent retention now db c)
Step-IsConsistent q {db} {db'} (prunes_attempts retention now e) c =
    rw e (prune_job_attempts-IsConsistent retention now db c)

-- From a consistent database, whatever sequence of the queue's operations runs, with any arguments
-- that a step allows: job ids stay unique, no two rows have the same source event, parent and
-- target, no two jobs of one plugin, command and dedupe key run at once, the last fact of each job
-- in job_transitions names its status, and no recorded attempt of a job is past the job's own.
pub Reach-IsConsistent :
    (q : Queue) {db db' : Db} → Reach q db db' → IsConsistent db → IsConsistent db'
Reach-IsConsistent q here c = c
Reach-IsConsistent q (next r s) c = Step-IsConsistent q s (Reach-IsConsistent q r c)
