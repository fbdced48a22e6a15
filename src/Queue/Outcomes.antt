-- ===== src/Queue/Outcomes.antt =====
-- What a successful call of each store operation of internal/queue/queue.go has done: the rows it
-- found, and the database it left.
use ductile.Common.{
  ℕ, true, not, List, [], ◌∷◌, ◌++◌, Option, none, some, ◌≡◌, ◌⊎◌, refl, inl, inr, arith, keep,
  first, In,
}
use ductile.Common.Text.{Text, is_empty}
use ductile.Queue.Rows.{oldest-In, In-keep}
use ductile.Queue.Db.{Db, has_id, find_job, update_where, record_job_transition, has_attempt}
use ductile.Queue.Types.{
  Status, queued, running, dead, is_terminal, Job, EnqueueRequest, QueueError, Queue, Result, ok,
  err, ◌>>=◌, ◌>>◌, refuse, plugin_empty, command_empty, submitted_by_empty, job_id_empty,
  invalid_terminal_status,
}
use ductile.Queue.Enqueue.{is_conflict, new_job, check_dedupe, insert_job, enqueue}
use ductile.Queue.Dequeue.{start_job, next_job, claim, dequeue_eligible, is_eligible}
use ductile.Queue.Finish.{
  error_value, note_change, recover_job, update_job_for_recovery, complete_job, finish_job,
  complete_with_result, is_cancellable, note_cancelled, cancel_outstanding_jobs, cancel_reason,
}

pub bind-ok :
    {A B : Type 0} (call : Result A) (rest : A → Result B) {end : B}
    → (call >>= rest) ≡ ok end
    → (got : A) × (call ≡ ok got) × (rest got ≡ ok end)
bind-ok (ok got) rest h = (got, refl, h)
bind-ok (err e) rest h = cc

pub seq-ok :
    {B : Type 0} (m : Result (Unit {0})) (k : Result B) {b : B}
    → (m >> k) ≡ ok b
    → (m ≡ ok tt) × (k ≡ ok b)
seq-ok (ok u) k h = (refl, h)
seq-ok (err e) k h = cc

-- The database after the INSERT of a new row.
unfoldable pub inserted : Queue → Text → ℕ → EnqueueRequest → Db → Db
inserted q id now req db =
    record_job_transition id none queued none now
      (record db { job_queue = db.job_queue ++ new_job q id now req ∷ [] })

pub insert_job-ok :
    (q : Queue) (id : Text) (now : ℕ) (req : EnqueueRequest) (db : Db) (r : Text × Db)
    → insert_job q id now req db ≡ ok r
    → (r.1 ≡ db)
      ⊎ ((first (is_conflict id req) db.job_queue ≡ none) × (r ≡ (id, inserted q id now req db)))
unfolding insert_job inserted
insert_job-ok q id now req db r h = ground arith

pub enqueue-ok :
    (q : Queue) (id : Text) (now : ℕ) (req : EnqueueRequest) (db : Db) (r : Text × Db)
    → enqueue q id now req db ≡ ok r
    → (check_dedupe q req req.dedupe_key now db ≡ ok tt) × (insert_job q id now req db ≡ ok r)
unfolding enqueue
enqueue-ok q id now req db r h =
    let insert = insert_job q id now req db in
    let dedupe = check_dedupe q req req.dedupe_key now db in
    let submitter = refuse (is_empty req.submitted_by) submitted_by_empty in
    let command = refuse (is_empty req.command) command_empty in
    let plugin = refuse (is_empty req.plugin) plugin_empty in
    let a = (seq-ok plugin (command >> (submitter >> (dedupe >> insert))) h).1 in
    let b = (seq-ok command (submitter >> (dedupe >> insert)) a).1 in
    let c = (seq-ok submitter (dedupe >> insert) b).1 in
    let d = seq-ok dedupe insert c in (d.0, d.1)

-- The database after a claim, if the attempt is not recorded already.
unfoldable pub claimed : Queue → ℕ → Job → Db → Db
claimed q now c db =
    record (record_job_transition c.id (some queued) running none now
      (record db { job_queue = update_where (has_id c.id) (start_job q now) db.job_queue })) {
        job_attempts =
            db.job_attempts ++ record { job_id = c.id; attempt = c.attempt; created_at = now } ∷ [];
      }

pub claim-ok :
    (q : Queue) (now : ℕ) (c : Job) (db : Db) (r : Option Job × Db)
    → claim q now c db ≡ ok r
    → (r ≡ (some (start_job q now c), claimed q now c db))
      × (first (has_attempt c.id c.attempt) db.job_attempts ≡ none)
unfolding claim claimed
claim-ok q now c db r h = ground arith

pub dequeue_eligible-ok :
    (q : Queue) (skip active : List Text) (now : ℕ) (db : Db) (r : Option Job × Db)
    → dequeue_eligible q skip active now db ≡ ok r
    → (r ≡ (none, db))
      ⊎ ((c : Job) × (next_job skip active now db ≡ some c) × (claim q now c db ≡ ok r))
unfolding dequeue_eligible
dequeue_eligible-ok q skip active now db r h = go (next_job skip active now db) refl h
  where
    go :
        (o : Option Job)
        → next_job skip active now db ≡ o
        → (elim o [ none ↦ ok (none, db) | some c ↦ claim q now c db ]) ≡ ok r
        → (r ≡ (none, db))
          ⊎ ((c : Job) × (next_job skip active now db ≡ some c) × (claim q now c db ≡ ok r))
    go none e h' = inl (ground arith)
    go (some c) e h' = inr (c, e, h')

pub next_job-In :
    (skip active : List Text) (now : ℕ) (db : Db) (c : Job)
    → next_job skip active now db ≡ some c
    → In c db.job_queue × (is_eligible skip active now db.job_queue c ≡ true)
unfolding next_job
next_job-In skip active now db c h =
    In-keep (is_eligible skip active now db.job_queue) db.job_queue c (oldest-In _ c h)

-- The database after `UpdateJobForRecovery` of a row that it found.
unfoldable pub recovered : Text → Status → ℕ → Option ℕ → Text → ℕ → Job → Db → Db
recovered id status attempt retry error now j db =
    let noted = note_change id j.status status (error_value error) now db in
    record noted {
      job_queue =
          update_where (has_id id) (recover_job status attempt retry (error_value error))
            noted.job_queue;
    }

pub update_job_for_recovery-ok :
    (id : Text) (status : Status) (attempt : ℕ) (retry : Option ℕ) (error : Text) (now : ℕ)
    (db db' : Db)
    → update_job_for_recovery id status attempt retry error now db ≡ ok db'
    → (j : Job) × (find_job id db ≡ some j)
      × (db' ≡ recovered id status attempt retry error now j db)
unfolding update_job_for_recovery recovered
update_job_for_recovery-ok id status attempt retry error now db db' h = go (find_job id db) refl h
  where
    go :
        (o : Option Job)
        → find_job id db ≡ o
        → (elim o [
          | none ↦ err QueueError.job_not_found
          | some j ↦ ok (recovered id status attempt retry error now j db)
        ])
          ≡ ok db'
        → (j : Job) × (find_job id db ≡ some j)
          × (db' ≡ recovered id status attempt retry error now j db)
    go none e h' = cc
    go (some j) e h' = (j, e, ground arith)

terminal_of_legal :
    (status : Status)
    → refuse (not (is_terminal status)) (invalid_terminal_status status) ≡ ok tt
    → is_terminal status ≡ true
terminal_of_legal status h = ground arith

abbrev complete_found :
    Text → Status → Option Text → Option Text → Option Text → ℕ → Db → Option Job → Result Db
complete_found id status result error stderr now db o = elim o [
  | none ↦ err QueueError.load_job_failed
  | some j ↦ ok (finish_job id status result error stderr now j db)
]

pub complete_with_result-ok :
    (id : Text) (status : Status) (result error stderr : Option Text) (now : ℕ) (db db' : Db)
    → complete_with_result id status result error stderr now db ≡ ok db'
    → (is_terminal status ≡ true)
      × ((j : Job) × (find_job id db ≡ some j)
          × (db' ≡ finish_job id status result error stderr now j db))
unfolding complete_with_result
complete_with_result-ok id status result error stderr now db db' h =
    let id_test = refuse (is_empty id) job_id_empty in
    let status_test = refuse (not (is_terminal status)) (invalid_terminal_status status) in
    let body = complete_found id status result error stderr now db (find_job id db) in
    let legal = seq-ok status_test body (seq-ok id_test (status_test >> body) h).1 in
    (terminal_of_legal status legal.0, go (find_job id db) refl legal.1)
  where
    go :
        (o : Option Job)
        → find_job id db ≡ o
        → complete_found id status result error stderr now db o ≡ ok db'
        → (j : Job) × (find_job id db ≡ some j)
          × (db' ≡ finish_job id status result error stderr now j db)
    go none e h' = cc
    go (some j) e h' = (j, e, ground arith)

-- The database after `CancelOutstandingJobs`.
unfoldable pub cancelled : Text → Text → Text → ℕ → Db → Db
cancelled plugin command why now db =
    let noted =
      note_cancelled (cancel_reason why) now (keep (is_cancellable plugin command) db.job_queue)
        db in
    record noted {
      job_queue =
          update_where (is_cancellable plugin command)
            (complete_job dead now (some (cancel_reason why))) noted.job_queue;
    }

pub cancel_outstanding_jobs-ok :
    (plugin command why : Text) (now : ℕ) (db : Db) (r : ℕ × Db)
    → cancel_outstanding_jobs plugin command why now db ≡ ok r
    → r.1 ≡ cancelled plugin command why now db
unfolding cancel_outstanding_jobs cancelled
cancel_outstanding_jobs-ok plugin command why now db r h = ground arith
