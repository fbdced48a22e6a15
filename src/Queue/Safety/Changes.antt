-- ===== src/Queue/Safety/Changes.antt =====
-- Each operation of internal/queue/queue.go as a change of the rows of job_queue.
use ductile.Common.{
  ℕ, ◌-◌, true, false, not, List, [], ◌∷◌, Option, some, ◌≡◌, refl, ap, ◌∙◌, inl, inr, Bool-cases,
  arith, keep,
}
use ductile.Common.Int.{ℤ, pos_part, is_pos}
use ductile.Common.Text.{Text}
use ductile.Queue.Db.{Db, has_id, update_where, record_job_transition}
use ductile.Queue.Types.{
  Status, running, dead, status_eq, is_terminal, Job, JobLog, EnqueueRequest, Queue, ok,
}
use ductile.Queue.Enqueue.{enqueue}
use ductile.Queue.Dequeue.{dequeue_eligible, is_eligible, lane_free}
use ductile.Queue.Finish.{
  error_value, note_change, recover_job, update_job_for_recovery, complete_job, finish_job,
  complete_with_result, insert_job_log, is_cancellable, note_cancelled, cancel_outstanding_jobs,
  cancel_reason,
}
use ductile.Queue.Prune.{prune_job_queue, is_expired}
use ductile.Queue.Outcomes.{
  inserted, insert_job-ok, enqueue-ok, claimed, claim-ok, dequeue_eligible-ok, next_job-In,
  recovered, update_job_for_recovery-ok, complete_with_result-ok, cancelled,
  cancel_outstanding_jobs-ok,
}
use ductile.Queue.Safety.Rows.{RowChange, same, added, started, moved, deleted, SameWork}

abbrev Rows : Db → Db → Type 0
Rows a b = RowChange a.job_queue b.job_queue

pub note_change-job_queue :
    (id : Text) (from to : Status) (why : Option Text) (now : ℕ) (db : Db)
    → (note_change id from to why now db).job_queue ≡ db.job_queue
unfolding note_change
note_change-job_queue id from to why now db = ground arith

pub note_cancelled-job_queue :
    (why : Text) (now : ℕ) (js : List Job) (db : Db)
    → (note_cancelled why now js db).job_queue ≡ db.job_queue
unfolding note_cancelled
note_cancelled-job_queue why now [] db = refl
note_cancelled-job_queue why now (j ∷ js) db = note_cancelled-job_queue why now js _

insert_job_log-job_queue : (l : JobLog) (db : Db) → (insert_job_log l db).job_queue ≡ db.job_queue
unfolding insert_job_log
insert_job_log-job_queue l db = ground arith

pub enqueue-Rows :
    (q : Queue) (id : Text) (now : ℕ) (req : EnqueueRequest) (db : Db) (r : Text × Db)
    → enqueue q id now req db ≡ ok r
    → Rows db r.1
unfolding inserted record_job_transition
enqueue-Rows q id now req db r h =
    elim (insert_job-ok q id now req db r (enqueue-ok q id now req db r h).1) [
      | inl e ↦ same (ap (λ (d : Db). d.job_queue) e)
      | inr (n, e) ↦ added q id now req n (ap (λ (p : Text × Db). p.1.job_queue) e)
    ]

is_eligible-lane_free :
    (skip active : List Text) (now : ℕ) (xs : List Job) (c : Job)
    → is_eligible skip active now xs c ≡ true
    → lane_free xs c ≡ true
unfolding is_eligible
is_eligible-lane_free skip active now xs c h = ground arith

pub dequeue_eligible-Rows :
    (q : Queue) (skip active : List Text) (now : ℕ) (db : Db) (r : Option Job × Db)
    → dequeue_eligible q skip active now db ≡ ok r
    → Rows db r.1
unfolding claimed record_job_transition
dequeue_eligible-Rows q skip active now db r h =
    elim (dequeue_eligible-ok q skip active now db r h) [
      | inl e ↦ same (ap (λ (p : Option Job × Db). p.1.job_queue) e)
      | inr (c, n, k) ↦
          let (m, el) = next_job-In skip active now db c n in
          started q now c m (is_eligible-lane_free skip active now db.job_queue c el)
            (ap (λ (p : Option Job × Db). p.1.job_queue) (claim-ok q now c db r k).0)
    ]

pub recovered-job_queue :
    (id : Text) (status : Status) (attempt : ℕ) (retry : Option ℕ) (error : Text) (now : ℕ)
    (j : Job) (db : Db)
    → (recovered id status attempt retry error now j db).job_queue
      ≡ update_where (has_id id) (recover_job status attempt retry (error_value error)) db.job_queue
unfolding recovered
recovered-job_queue id status attempt retry error now j db =
    ap (update_where (has_id id) (recover_job status attempt retry (error_value error)))
      (note_change-job_queue id j.status status (error_value error) now db)

recover_job-SameWork :
    (status : Status) (attempt : ℕ) (retry : Option ℕ) (error : Option Text) (j : Job)
    → SameWork (recover_job status attempt retry error j) j
unfolding recover_job
recover_job-SameWork status attempt retry error j = record {
  id = refl;
  plugin = refl;
  command = refl;
  dedupe_key = refl;
  parent_job_id = refl;
  source_event_id = refl;
}

complete_job-SameWork :
    (status : Status) (now : ℕ) (error : Option Text) (j : Job)
    → SameWork (complete_job status now error j) j
unfolding complete_job
complete_job-SameWork status now error j = record {
  id = refl;
  plugin = refl;
  command = refl;
  dedupe_key = refl;
  parent_job_id = refl;
  source_event_id = refl;
}

pub update_job_for_recovery-Rows :
    (id : Text) (status : Status) (attempt : ℕ) (retry : Option ℕ) (error : Text) (now : ℕ)
    (db db' : Db)
    → status_eq status running ≡ false
    → update_job_for_recovery id status attempt retry error now db ≡ ok db'
    → Rows db db'
unfolding recover_job
update_job_for_recovery-Rows id status attempt retry error now db db' idle h =
    let (j, found, e) = update_job_for_recovery-ok id status attempt retry error now db db' h in
    moved (has_id id) (recover_job status attempt retry (error_value error))
      (recover_job-SameWork status attempt retry (error_value error)) (λ k. idle)
      (ap (λ (d : Db). d.job_queue) e ∙ recovered-job_queue id status attempt retry error now j db)

pub finish_job-job_queue :
    (id : Text) (status : Status) (result error stderr : Option Text) (now : ℕ) (j : Job) (db : Db)
    → (finish_job id status result error stderr now j db).job_queue
      ≡ update_where (has_id id) (complete_job status now error) db.job_queue
unfolding finish_job
finish_job-job_queue id status result error stderr now j db =
    insert_job_log-job_queue _ _
    ∙ ap (update_where (has_id id) (complete_job status now error))
        (note_change-job_queue id j.status status error now db)

terminal-not-running : (s : Status) → is_terminal s ≡ true → status_eq s running ≡ false
terminal-not-running s h = ground arith

pub complete_with_result-Rows :
    (id : Text) (status : Status) (result error stderr : Option Text) (now : ℕ) (db db' : Db)
    → complete_with_result id status result error stderr now db ≡ ok db'
    → Rows db db'
unfolding complete_job
complete_with_result-Rows id status result error stderr now db db' h =
    let (t, (j, found, e)) = complete_with_result-ok id status result error stderr now db db' h in
    moved (has_id id) (complete_job status now error) (complete_job-SameWork status now error)
      (λ k. terminal-not-running status t)
      (ap (λ (d : Db). d.job_queue) e ∙ finish_job-job_queue id status result error stderr now j db)

pub cancelled-job_queue :
    (plugin command why : Text) (now : ℕ) (db : Db)
    → (cancelled plugin command why now db).job_queue
      ≡ update_where
          (is_cancellable plugin command)
          (complete_job dead now (some (cancel_reason why)))
          db.job_queue
unfolding cancelled
cancelled-job_queue plugin command why now db =
    ap
      (update_where (is_cancellable plugin command)
        (complete_job dead now (some (cancel_reason why))))
      (note_cancelled-job_queue (cancel_reason why) now
        (keep (is_cancellable plugin command) db.job_queue) db)

pub cancel_outstanding_jobs-Rows :
    (plugin command why : Text) (now : ℕ) (db : Db) (r : ℕ × Db)
    → cancel_outstanding_jobs plugin command why now db ≡ ok r
    → Rows db r.1
unfolding complete_job
cancel_outstanding_jobs-Rows plugin command why now db r h =
    moved (is_cancellable plugin command) (complete_job dead now (some (cancel_reason why)))
      (complete_job-SameWork dead now (some (cancel_reason why))) (λ k. refl)
      (ap (λ (d : Db). d.job_queue) (cancel_outstanding_jobs-ok plugin command why now db r h)
        ∙ cancelled-job_queue plugin command why now db)

pub prune_job_queue-Rows :
    (retention : ℤ) (now : ℕ) (db : Db) → Rows db (prune_job_queue retention now db)
unfolding prune_job_queue
prune_job_queue-Rows retention now db = elim (Bool-cases (is_pos retention)) [
  | inl t ↦ deleted (λ j. not (is_expired (now - pos_part retention) j)) (rw t)
  | inr f ↦ same (rw f)
]
