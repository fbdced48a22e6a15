-- ===== src/Queue/Endings.antt =====
-- How `CompleteWithResult` of internal/queue/queue.go ends a job.
use ductile.Common.{
  ℕ, ◌≡◌, refl, sym, ap, subst, ◌∙◌, ◌≢◌, inl, inr, true, false, Option, none, some, List, [], ◌∷◌,
  ◌++◌, arith, if◌then◌else◌, Bool-cases, first, In,
}
use ductile.Common.Text.{Text, text_eq, text_eq→eq, text_eq_iff, text_eq-false_comm, is_empty}
use ductile.Queue.Rows.{first-none, first-none_of}
use ductile.Queue.Db.{Db, update_where, has_id, find_job, stored_reason, record_job_transition}
use ductile.Queue.Types.{Status, status_eq, is_terminal, Job, JobLog, ok}
use ductile.Queue.Finish.{
  error_value, note_change, complete_job, log_id, stored_stderr, insert_job_log, completion_log,
  finish_job, complete_with_result,
}
use ductile.Queue.Outcomes.{complete_with_result-ok}
use ductile.Queue.Safety.Changes.{finish_job-job_queue}

-- An update by id changes what a search for the id finds, and nothing else.
pub first-update_self :
    (id : Text) (f : Job → Job) (xs : List Job) (j : Job)
    → ((k : Job) → (f k).id ≡ k.id)
    → first (has_id id) xs ≡ some j
    → first (has_id id) (update_where (has_id id) f xs) ≡ some (f j)
unfolding update_where
first-update_self id f [] j keeps h = cc
first-update_self id f (x ∷ xs) j keeps h = elim (Bool-cases (has_id id x)) [
  | inl t ↦
      let e : x ≡ j = ground arith in
      let u : has_id id (f x) ≡ true = rw (keeps x) t in rw (t, u) (ap (λ (k : Job). some (f k)) e)
  | inr n ↦ rw (n, n) (first-update_self id f xs j keeps (rw n at h))
]

first-update_other :
    (id i : Text) (f : Job → Job) (xs : List Job)
    → ((k : Job) → (f k).id ≡ k.id)
    → text_eq i id ≡ false
    → first (has_id i) (update_where (has_id id) f xs) ≡ first (has_id i) xs
unfolding update_where
first-update_other id i f [] keeps h = refl
first-update_other id i f (x ∷ xs) keeps h = elim (Bool-cases (has_id id x)) [
  | inl t ↦
      let e : x.id ≡ id = text_eq→eq x.id id t in
      rw (t, keeps x, e, text_eq-false_comm i id h) (first-update_other id i f xs keeps h)
  | inr n ↦ rw n (
      ap (λ (r : Option Job). if has_id i x then some x else r)
        (first-update_other id i f xs keeps h))
]

insert_job_log-new :
    (l : JobLog) (db : Db)
    → ((k : JobLog) → In k db.job_log → k.log_id ≢ l.log_id)
    → insert_job_log l db ≡ record db { job_log = db.job_log ++ l ∷ [] }
unfolding insert_job_log
insert_job_log-new l db h =
    ap
      (λ (o : Option JobLog). elim o as (λ n. Db) [
        | some i ↦ db
        | none ↦ record db { job_log = db.job_log ++ l ∷ [] }
      ])
      (first-none_of _ db.job_log other)
  where
    other : (k : JobLog) → In k db.job_log → text_eq k.log_id l.log_id ≡ false
    other k m = elim (Bool-cases (text_eq k.log_id l.log_id)) [
      | inl t ↦ absurd (h k m (text_eq→eq k.log_id l.log_id t))
      | inr f ↦ f
    ]

insert_job_log-kept :
    (l k : JobLog) (db : Db) → In k db.job_log → k.log_id ≡ l.log_id → insert_job_log l db ≡ db
unfolding insert_job_log
insert_job_log-kept l k db m e = go (first (λ i. text_eq i.log_id l.log_id) db.job_log) refl
  where
    go :
        (o : Option JobLog)
        → first (λ i. text_eq i.log_id l.log_id) db.job_log ≡ o
        → (elim o as (λ n. Db) [
          | some i ↦ db
          | none ↦ record db { job_log = db.job_log ++ l ∷ [] }
        ])
          ≡ db
    go (some i) u = refl
    go none u =
        let apart = first-none (λ i. text_eq i.log_id l.log_id) db.job_log u k m in
        absurd (cc (apart, (text_eq_iff k.log_id l.log_id).1 e))

insert_job_log-rest :
    (l : JobLog) (db : Db)
    → ((insert_job_log l db).job_transitions ≡ db.job_transitions)
      × ((insert_job_log l db).job_attempts ≡ db.job_attempts)
unfolding insert_job_log
insert_job_log-rest l db = (ground arith, ground arith)

note_change-rest :
    (id : Text) (from to : Status) (why : Option Text) (now : ℕ) (db : Db)
    → ((note_change id from to why now db).job_log ≡ db.job_log)
      × ((note_change id from to why now db).job_attempts ≡ db.job_attempts)
unfolding note_change record_job_transition
note_change-rest id from to why now db = (ground arith, ground arith)

-- What a completion of the row promises of the database that it leaves: the row has ended and no
-- other row of job_queue is changed; job_log has an entry for the attempt, the one there before if
-- there was one; a transition is added exactly where the status changes.
pub record IsCompleted (id : Text) (status : Status) (result : Option Text) (now : ℕ)
    (error stderr : Option Text) (j : Job) (db db' : Db) : Type 0 where
  pub row :
      find_job id db'
      ≡ some (record j { status = status; completed_at = some now; last_error = error })
  pub others : (i : Text) → text_eq i id ≡ false → find_job i db' ≡ find_job i db
  pub logged :
      ((k : JobLog) → In k db.job_log → k.log_id ≢ log_id j.id j.attempt)
      → db'.job_log
        ≡ db.job_log
          ++ record {
            log_id = log_id j.id j.attempt;
            job_id = j.id;
            plugin = j.plugin;
            command = j.command;
            status = status;
            result = elim result [ none ↦ none | some r ↦ error_value r ];
            attempt = j.attempt;
            submitted_by = j.submitted_by;
            created_at = j.created_at;
            completed_at = now;
            last_error = error;
            stderr = stored_stderr stderr;
            parent_job_id = j.parent_job_id;
            source_event_id = j.source_event_id;
            event_context_id = j.event_context_id;
            enqueued_config_snapshot_id = j.enqueued_config_snapshot_id;
            started_config_snapshot_id = j.started_config_snapshot_id;
          }
            ∷ []
  pub logged_before :
      (k : JobLog) → In k db.job_log → k.log_id ≡ log_id j.id j.attempt → db'.job_log ≡ db.job_log
  pub unchanged : j.status ≡ status → db'.job_transitions ≡ db.job_transitions
  pub changed :
      j.status ≢ status
      → db'.job_transitions
        ≡ db.job_transitions
          ++ record {
            job_id = id;
            from_status = some j.status;
            to_status = status;
            reason = stored_reason error;
            created_at = now;
          }
            ∷ []
  pub attempts : db'.job_attempts ≡ db.job_attempts

note_change-same :
    (id : Text) (from to : Status) (why : Option Text) (now : ℕ) (db : Db)
    → from ≡ to
    → (note_change id from to why now db).job_transitions ≡ db.job_transitions
unfolding note_change record_job_transition
note_change-same id from to why now db e = rw (e, status_eq_refl to) refl
  where
    status_eq_refl : (s : Status) → status_eq s s ≡ true
    status_eq_refl s = ground arith

note_change-other :
    (id : Text) (from to : Status) (why : Option Text) (now : ℕ) (db : Db)
    → from ≢ to
    → note_change id from to why now db ≡ record_job_transition id (some from) to why now db
unfolding note_change
note_change-other id from to why now db n = elim (Bool-cases (status_eq from to)) [
  | inl t ↦ absurd (n (status_eq→eq from to t))
  | inr f ↦ rw f refl
]
  where
    status_eq→eq : (a b : Status) → status_eq a b ≡ true → a ≡ b
    status_eq→eq a b h = ground arith

-- The database with the row's update and its transition, before the log entry.
abbrev updated : Text → Status → Option Text → ℕ → Job → Db → Db
updated id status error now j db =
    let noted = note_change id j.status status error now db in
    record noted {
      job_queue = update_where (has_id id) (complete_job status now error) noted.job_queue;
    }

finish_job-IsCompleted :
    (id : Text) (status : Status) (result error stderr : Option Text) (now : ℕ) (j : Job) (db : Db)
    → find_job id db ≡ some j
    → IsCompleted id status result now error stderr j db
        (finish_job id status result error stderr now j db)
unfolding finish_job complete_job completion_log
finish_job-IsCompleted id status result error stderr now j db h =
    let f = complete_job status now error in
    let q = finish_job-job_queue id status result error stderr now j db in
    let l = completion_log status result error stderr now j in
    let mid = updated id status error now j db in
    let (log, tried) = note_change-rest id j.status status error now db in
    let (moves, attempted) = insert_job_log-rest l mid in
    record {
      row = ap (first (has_id id)) q ∙ first-update_self id f db.job_queue j (λ k. refl) h;
      others =
          λ i n. ap (first (has_id i)) q ∙ first-update_other id i f db.job_queue (λ k. refl) n;
      logged = λ n.
          ap (λ (d : Db). d.job_log) (insert_job_log-new l mid (λ k m. n k (rw log at m)))
          ∙ ap (λ (ls : List JobLog). ls ++ l ∷ []) log;
      logged_before =
          λ k m e. ap (λ (d : Db). d.job_log) (insert_job_log-kept l k mid (rw log m) e) ∙ log;
      unchanged = λ e. moves ∙ note_change-same id j.status status error now db e;
      changed = λ n.
          moves
          ∙ ap (λ (d : Db). d.job_transitions)
              (note_change-other id j.status status error now db n);
      attempts = attempted ∙ tried;
    }

-- `CompleteWithResult` succeeds exactly where the id is not empty, the new status is terminal and a
-- row has the id, whatever that row's present status is: a job that has ended already ends again. A
-- success completes that row.
pub complete_with_result_lem :
    (id : Text) (status : Status) (result error stderr : Option Text) (now : ℕ) (db : Db)
    → ((db' : Db)
        → complete_with_result id status result error stderr now db ≡ ok db'
        → (id ≢ [])
          × (is_terminal status ≡ true)
          × ((j : Job) × (find_job id db ≡ some j)
              × IsCompleted id status result now error stderr j db db'))
      × ((j : Job)
          → id ≢ []
          → is_terminal status ≡ true
          → find_job id db ≡ some j
          → (db' : Db) × (complete_with_result id status result error stderr now db ≡ ok db')
            × IsCompleted id status result now error stderr j db db')
complete_with_result_lem id status result error stderr now db = (
  λ db' h.
      let (t, (j, f, e)) = complete_with_result-ok id status result error stderr now db db' h in
      let done = finish_job-IsCompleted id status result error stderr now j db f in
      (
        named db' h,
        t,
        (j, f, subst (IsCompleted id status result now error stderr j db) (sym e) done),
      ),
  λ j n t f. (
    finish_job id status result error stderr now j db,
    unfold complete_with_result in rw (full id n, t, f) refl,
    finish_job-IsCompleted id status result error stderr now j db f,
  ),
)
  where
    full : (s : Text) → s ≢ [] → is_empty s ≡ false
    full [] h = absurd (h refl)
    full (c ∷ s) h = refl

    named :
        (db' : Db) → complete_with_result id status result error stderr now db ≡ ok db' → id ≢ []
    named db' h e = unfold complete_with_result in cc (rw e at h)
