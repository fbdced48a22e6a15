-- ===== src/Queue/Safety/Attempts.antt =====
-- The attempt facts of internal/queue/queue.go against the attempts of the jobs, which
-- `UNIQUE(job_id, attempt)` is about.
pub mod Claims
use ductile.Common.{
  ℕ, ◌+◌, ◌≤◌, ◌<◌, true, false, List, [], ◌∷◌, ◌++◌, Option, some, ◌≡◌, refl, sym, ap, inl, inr,
  Bool-cases, arith, keep, All, In, All-append, All-map_id,
}
use ductile.Common.Int.{ℤ, is_pos}
use ductile.Common.Text.{Text, text_eq, text_eq_refl, text_eq-false_comm}
use ductile.Queue.Rows.{first-some, All-update, All-keep, count_unique}
use ductile.Queue.Db.{Db, has_id, find_job, record_job_transition}
use ductile.Queue.Types.{
  Status, queued, dead, status_eq, is_terminal, Job, JobAttempt, JobLog, EnqueueRequest, Queue, ok,
}
use ductile.Queue.Enqueue.{new_job, enqueue}
use ductile.Queue.Dequeue.{start_job, dequeue_eligible}
use ductile.Queue.Finish.{
  error_value, note_change, recover_job, update_job_for_recovery, complete_job, finish_job,
  complete_with_result, insert_job_log, is_cancellable, note_cancelled, cancel_outstanding_jobs,
  cancel_reason,
}
use ductile.Queue.Prune.{prune_job_queue}
use ductile.Queue.Outcomes.{
  inserted, insert_job-ok, enqueue-ok, claimed, claim-ok, dequeue_eligible-ok, next_job-In,
  recovered, update_job_for_recovery-ok, complete_with_result-ok, cancelled,
  cancel_outstanding_jobs-ok,
}
use ductile.Queue.Safety.Rows.{IdsUnique}
use ductile.Queue.Safety.Changes.{note_change-job_queue, note_cancelled-job_queue}

-- The fact is of another job, or of this one's present attempt or an earlier one. A queued job's
-- present attempt is not started.
pub record IsBehind (j : Job) (a : JobAttempt) : Type 0 where
  pub at_most : text_eq a.job_id j.id ≡ true → a.attempt ≤ j.attempt
  pub not_started : text_eq a.job_id j.id ≡ true → j.status ≡ queued → a.attempt < j.attempt

abbrev pub AttemptsBehind : Db → Type 0
AttemptsBehind db = All (λ j. All (IsBehind j) db.job_attempts) db.job_queue

-- No attempt is recorded for the id: what uuid.NewString() gives is new.
abbrev pub IsFresh : Text → Db → Type 0
IsFresh id db = All (λ a. text_eq a.job_id id ≡ false) db.job_attempts

note_change-job_attempts :
    (id : Text) (from to : Status) (why : Option Text) (now : ℕ) (db : Db)
    → (note_change id from to why now db).job_attempts ≡ db.job_attempts
unfolding note_change
note_change-job_attempts id from to why now db = ground arith

note_cancelled-job_attempts :
    (why : Text) (now : ℕ) (js : List Job) (db : Db)
    → (note_cancelled why now js db).job_attempts ≡ db.job_attempts
unfolding note_cancelled
note_cancelled-job_attempts why now [] db = refl
note_cancelled-job_attempts why now (j ∷ js) db = note_cancelled-job_attempts why now js _

insert_job_log-job_attempts :
    (l : JobLog) (db : Db) → (insert_job_log l db).job_attempts ≡ db.job_attempts
unfolding insert_job_log
insert_job_log-job_attempts l db = ground arith

insert_job_log-job_queue : (l : JobLog) (db : Db) → (insert_job_log l db).job_queue ≡ db.job_queue
unfolding insert_job_log
insert_job_log-job_queue l db = ground arith

-- A row that keeps its id and attempt and is not queued.
idle-IsBehind :
    (j k : Job) (a : JobAttempt)
    → k.id ≡ j.id
    → k.attempt ≡ j.attempt
    → status_eq k.status queued ≡ false
    → IsBehind j a
    → IsBehind k a
idle-IsBehind j k a i n s h = record {
  at_most = λ t. rw n (h.at_most (rw (← i) t));
  not_started = λ t q. absurd (ground arith);
}

-- A row whose attempt is counted up.
next-IsBehind :
    (j k : Job) (a : JobAttempt)
    → k.id ≡ j.id
    → k.attempt ≡ j.attempt + 1
    → IsBehind j a
    → IsBehind k a
next-IsBehind j k a i n h = record {
  at_most = λ t. let b = h.at_most (rw (← i) t) in omega arith;
  not_started = λ t q. let b = h.at_most (rw (← i) t) in omega arith;
}

fresh-IsBehind :
    (id : Text) (j : Job) (a : JobAttempt) → j.id ≡ id → text_eq a.job_id id ≡ false → IsBehind j a
fresh-IsBehind id j a e h = record {
  at_most = λ t. absurd (false-true (rw e at t) h);
  not_started = λ t q. absurd (false-true (rw e at t) h);
}
  where
    false-true : text_eq a.job_id id ≡ true → text_eq a.job_id id ≡ false → ⊥
    false-true t f = cc

pub enqueue-AttemptsBehind :
    (q : Queue) (id : Text) (now : ℕ) (req : EnqueueRequest) (db : Db) (r : Text × Db)
    → IsFresh id db
    → AttemptsBehind db
    → enqueue q id now req db ≡ ok r
    → AttemptsBehind r.1
unfolding inserted record_job_transition new_job
enqueue-AttemptsBehind q id now req db r f h k =
    elim (insert_job-ok q id now req db r (enqueue-ok q id now req db r k).1) [
      | inl e ↦ rw e h
      | inr (n, e) ↦ rw e (
          All-append (λ j. All (IsBehind j) db.job_attempts) db.job_queue
            (new_job q id now req ∷ []) h
            (
              All-map_id _ _ (λ a. fresh-IsBehind id (new_job q id now req) a refl) db.job_attempts
                  f,
              tt,
            ))
    ]

-- The claimed row, beside the fact that the claim adds.
claimed-IsBehind :
    (q : Queue) (now : ℕ) (c : Job) (a : Job)
    → a ≡ c
    → IsBehind (start_job q now a) (record { job_id = c.id; attempt = c.attempt; created_at = now })
unfolding start_job
claimed-IsBehind q now c a e = record {
  at_most = λ t. rw e (omega arith);
  not_started = λ t s. absurd (ground arith);
}

start_job-IsBehind :
    (q : Queue) (now : ℕ) (j : Job) (a : JobAttempt) → IsBehind j a → IsBehind (start_job q now j) a
unfolding start_job
start_job-IsBehind q now j a h = idle-IsBehind j (start_job q now j) a refl refl refl h

claimed-AttemptsBehind :
    (q : Queue) (now : ℕ) (c : Job) (db : Db)
    → In c db.job_queue
    → IdsUnique db.job_queue
    → AttemptsBehind db
    → AttemptsBehind (claimed q now c db)
unfolding claimed record_job_transition
claimed-AttemptsBehind q now c db m ids h =
    let fact : JobAttempt = record { job_id = c.id; attempt = c.attempt; created_at = now } in
    All-update (λ j. All (IsBehind j) db.job_attempts)
      (λ j. All (IsBehind j) (db.job_attempts ++ fact ∷ [])) (has_id c.id) (start_job q now)
      db.job_queue
      (λ j n old hit.
        All-append (IsBehind (start_job q now j)) db.job_attempts (fact ∷ [])
          (All-map_id _ _ (start_job-IsBehind q now j) db.job_attempts old)
          (
            claimed-IsBehind q now c j (
                count_unique (has_id c.id) db.job_queue j c (ids c.id) n m hit (text_eq_refl c.id)),
            tt,
          ))
      (λ j n old miss.
        All-append (IsBehind j) db.job_attempts (fact ∷ []) old
          (fresh-IsBehind j.id j fact refl (text_eq-false_comm j.id c.id miss), tt))
      h

pub dequeue_eligible-AttemptsBehind :
    (q : Queue) (skip active : List Text) (now : ℕ) (db : Db) (r : Option Job × Db)
    → IdsUnique db.job_queue
    → AttemptsBehind db
    → dequeue_eligible q skip active now db ≡ ok r
    → AttemptsBehind r.1
dequeue_eligible-AttemptsBehind q skip active now db r ids h k =
    elim (dequeue_eligible-ok q skip active now db r k) [
      | inl e ↦ rw e h
      | inr (c, n, l) ↦
          rw (claim-ok q now c db r l).0
            (claimed-AttemptsBehind q now c db (next_job-In skip active now db c n).0 ids h)
    ]

pub update_job_for_recovery-AttemptsBehind :
    (id : Text) (status : Status) (j : Job) (retry : Option ℕ) (error : Text) (now : ℕ)
    (db db' : Db)
    → IdsUnique db.job_queue
    → AttemptsBehind db
    → find_job id db ≡ some j
    → update_job_for_recovery id status (j.attempt + 1) retry error now db ≡ ok db'
    → AttemptsBehind db'
unfolding recovered recover_job
update_job_for_recovery-AttemptsBehind id status j retry error now db db' ids h found k =
    let (j', found', e) =
      update_job_for_recovery-ok id status (j.attempt + 1) retry error now db db' k in
    let noted = note_change id j'.status status (error_value error) now db in
    rw
      (
        e,
        note_change-job_queue id j'.status status (error_value error) now db,
        note_change-job_attempts id j'.status status (error_value error) now db,
      )
      (All-update (λ i. All (IsBehind i) db.job_attempts) (λ i. All (IsBehind i) db.job_attempts)
        (has_id id) (recover_job status (j.attempt + 1) retry (error_value error)) db.job_queue
        (λ i n old hit.
          let (m, t) = first-some (has_id id) db.job_queue j found in
          let same_row : i ≡ j = count_unique (has_id id) db.job_queue i j (ids id) n m hit t in
          All-map_id _ _
            (λ a.
              next-IsBehind i (recover_job status (j.attempt + 1) retry (error_value error) i) a
                refl (ap (λ (b : Job). b.attempt + 1) (sym same_row)))
            db.job_attempts old)
        (λ i n old miss. old) h)

pub complete_with_result-AttemptsBehind :
    (id : Text) (status : Status) (result error stderr : Option Text) (now : ℕ) (db db' : Db)
    → AttemptsBehind db
    → complete_with_result id status result error stderr now db ≡ ok db'
    → AttemptsBehind db'
unfolding finish_job complete_job
complete_with_result-AttemptsBehind id status result error stderr now db db' h k =
    let (t, (j, found, e)) = complete_with_result-ok id status result error stderr now db db' k in
    rw
      (
        e,
        insert_job_log-job_queue,
        insert_job_log-job_attempts,
        note_change-job_queue id j.status status error now db,
        note_change-job_attempts id j.status status error now db,
      )
      (All-update (λ i. All (IsBehind i) db.job_attempts) (λ i. All (IsBehind i) db.job_attempts)
        (has_id id) (complete_job status now error) db.job_queue
        (λ i n old hit.
          All-map_id _ _
            (λ a. idle-IsBehind i (complete_job status now error i) a refl refl (terminal status t))
            db.job_attempts old)
        (λ i n old miss. old) h)
  where
    terminal : (s : Status) → is_terminal s ≡ true → status_eq s queued ≡ false
    terminal s u = ground arith

pub cancel_outstanding_jobs-AttemptsBehind :
    (plugin command why : Text) (now : ℕ) (db : Db) (r : ℕ × Db)
    → AttemptsBehind db
    → cancel_outstanding_jobs plugin command why now db ≡ ok r
    → AttemptsBehind r.1
unfolding cancelled complete_job
cancel_outstanding_jobs-AttemptsBehind plugin command why now db r h k =
    let p = is_cancellable plugin command in
    rw
      (
        cancel_outstanding_jobs-ok plugin command why now db r k,
        note_cancelled-job_queue (cancel_reason why) now (keep p db.job_queue) db,
        note_cancelled-job_attempts (cancel_reason why) now (keep p db.job_queue) db,
      )
      (All-update (λ i. All (IsBehind i) db.job_attempts) (λ i. All (IsBehind i) db.job_attempts) p
        (complete_job dead now (some (cancel_reason why))) db.job_queue
        (λ i n old hit.
          All-map_id _ _
            (λ a.
              idle-IsBehind i (complete_job dead now (some (cancel_reason why)) i) a refl refl refl)
            db.job_attempts old)
        (λ i n old miss. old) h)

pub prune_job_queue-AttemptsBehind :
    (retention : ℤ) (now : ℕ) (db : Db)
    → AttemptsBehind db
    → AttemptsBehind (prune_job_queue retention now db)
unfolding prune_job_queue
prune_job_queue-AttemptsBehind retention now db h = elim (Bool-cases (is_pos retention)) [
  | inl t ↦ rw t (All-keep _ _ db.job_queue h)
  | inr f ↦ rw f h
]
