-- ===== src/Queue/Safety/Lineage.antt =====
-- The append-only transitions of internal/queue/queue.go against the status column of job_queue.
pub mod Endings
use ductile.Common.{
  ℕ, true, false, List, [], ◌∷◌, ◌++◌, Option, none, some, ◌≡◌, refl, ap, subst, ◌∙◌, inl, inr,
  if◌then◌else◌, Bool-cases, arith, first, All, In, All-append, All-In,
}
use ductile.Common.Text.{Text, text_eq, text_eq_refl, text_eq→eq, text_eq-false_comm}
use ductile.Queue.Rows.{first-none, first-some, All-update, All-of_In, count_unique}
use ductile.Queue.Db.{Db, has_id, find_job, update_where, record_job_transition}
use ductile.Queue.Types.{
  Status, queued, running, status_eq, Job, JobTransition, JobLog, EnqueueRequest, Queue, ok,
}
use ductile.Queue.Enqueue.{is_conflict, new_job, enqueue}
use ductile.Queue.Dequeue.{start_job, dequeue_eligible}
use ductile.Queue.Finish.{
  error_value, note_change, recover_job, update_job_for_recovery, complete_job, finish_job,
  complete_with_result, completion_log, insert_job_log,
}
use ductile.Queue.Outcomes.{
  inserted, insert_job-ok, enqueue-ok, claimed, claim-ok, dequeue_eligible-ok, recovered,
  update_job_for_recovery-ok, complete_with_result-ok,
}
use ductile.Queue.Safety.Rows.{IdsUnique}
use ductile.Queue.Safety.Changes.{note_change-job_queue}

-- The status that the last recorded transition of a job went to.
pub last_status : Text → List JobTransition → Option Status
last_status id [] = none
last_status id (t ∷ ts) = elim (last_status id ts) [
  | some s ↦ some s
  | none ↦ if text_eq t.job_id id then some t.to_status else none
]

-- `StatusMatchesLatest` of `GetJobLineage`, for every row, by the transitions' row numbers.
abbrev Matches : List JobTransition → Job → Type 0
Matches ts j = last_status j.id ts ≡ some j.status

abbrev pub LineageMatches : Db → Type 0
LineageMatches db = All (Matches db.job_transitions) db.job_queue

last_status-snoc :
    (id : Text) (ts : List JobTransition) (t : JobTransition)
    → last_status id (ts ++ t ∷ [])
      ≡ (if text_eq t.job_id id then some t.to_status else last_status id ts)
unfolding last_status
last_status-snoc id [] t = refl
last_status-snoc id (u ∷ ts) t = ground (arith, last_status-snoc id ts t)

-- A recorded transition is the last of its job, and touches no other job.
last_status-record_self :
    (id : Text) (from : Option Status) (to : Status) (why : Option Text) (now : ℕ) (db : Db)
    → last_status id (record_job_transition id from to why now db).job_transitions ≡ some to
unfolding record_job_transition
last_status-record_self id from to why now db =
    last_status-snoc id db.job_transitions _ ∙ rw (text_eq_refl id)

last_status-record_other :
    (id i : Text) (from : Option Status) (to : Status) (why : Option Text) (now : ℕ) (db : Db)
    → text_eq i id ≡ false
    → last_status i (record_job_transition id from to why now db).job_transitions
      ≡ last_status i db.job_transitions
unfolding record_job_transition
last_status-record_other id i from to why now db h =
    last_status-snoc i db.job_transitions _ ∙ rw (text_eq-false_comm i id h)

Matches-self :
    (id : Text) (from : Option Status) (to : Status) (why : Option Text) (now : ℕ) (db : Db)
    (j : Job)
    → j.id ≡ id
    → j.status ≡ to
    → Matches (record_job_transition id from to why now db).job_transitions j
Matches-self id from to why now db j e s = rw (e, s) (last_status-record_self id from to why now db)

Matches-other :
    (id : Text) (from : Option Status) (to : Status) (why : Option Text) (now : ℕ) (db : Db)
    (j : Job)
    → has_id id j ≡ false
    → Matches db.job_transitions j
    → Matches (record_job_transition id from to why now db).job_transitions j
Matches-other id from to why now db j h m =
    last_status-record_other id j.id from to why now db h ∙ m

note_change_self :
    (id : Text) (from to : Status) (why : Option Text) (now : ℕ) (db : Db)
    → last_status id db.job_transitions ≡ some from
    → last_status id (note_change id from to why now db).job_transitions ≡ some to
unfolding note_change
note_change_self id from to why now db m = elim (Bool-cases (status_eq from to)) [
  | inl t ↦ rw t (m ∙ ap some (status_eq→eq from to t))
  | inr f ↦ rw f (last_status-record_self id (some from) to why now db)
]
  where
    status_eq→eq : (a b : Status) → status_eq a b ≡ true → a ≡ b
    status_eq→eq a b h = ground arith

note_change-other :
    (id i : Text) (from to : Status) (why : Option Text) (now : ℕ) (db : Db)
    → text_eq i id ≡ false
    → last_status i (note_change id from to why now db).job_transitions
      ≡ last_status i db.job_transitions
unfolding note_change
note_change-other id i from to why now db h = elim (Bool-cases (status_eq from to)) [
  | inl t ↦ rw t refl
  | inr f ↦ rw f (last_status-record_other id i (some from) to why now db h)
]

-- The rows of an update by id that follows a change of the found row's status.
module _ (id : Text) (to : Status) (why : Option Text) (now : ℕ) (db : Db) (f : Job → Job) (j : Job)
    (same_id : (k : Job) → (f k).id ≡ k.id) (new_status : (k : Job) → (f k).status ≡ to)
    (found : find_job id db ≡ some j) (ids : IdsUnique db.job_queue) where
  changed-row :
      (a : Job)
      → In a db.job_queue
      → Matches db.job_transitions a
      → has_id id a ≡ true
      → Matches (note_change id j.status to why now db).job_transitions (f a)
  changed-row a m old h =
      let (n, k) = first-some (has_id id) db.job_queue j found in
      let e : a ≡ j = count_unique (has_id id) db.job_queue a j (ids id) m n h k in
      let i : a.id ≡ id = text_eq→eq a.id id h in
      let was : last_status id db.job_transitions ≡ some j.status =
        subst (λ (b : Text). last_status b db.job_transitions ≡ some j.status) i
          (old ∙ ap (λ (b : Job). some b.status) e) in
      rw (same_id a, new_status a, i) (note_change_self id j.status to why now db was)

  changed-rows :
      LineageMatches db
      → All
          (Matches (note_change id j.status to why now db).job_transitions)
          (update_where (has_id id) f db.job_queue)
  changed-rows h =
      All-update _ _ (has_id id) f db.job_queue changed-row
        (λ a m old miss. note_change-other id a.id j.status to why now db miss ∙ old) h

pub update_job_for_recovery-LineageMatches :
    (id : Text) (status : Status) (attempt : ℕ) (retry : Option ℕ) (error : Text) (now : ℕ)
    (db db' : Db)
    → IdsUnique db.job_queue
    → LineageMatches db
    → update_job_for_recovery id status attempt retry error now db ≡ ok db'
    → LineageMatches db'
unfolding recovered recover_job
update_job_for_recovery-LineageMatches id status attempt retry error now db db' ids l h =
    let (j, found, e) = update_job_for_recovery-ok id status attempt retry error now db db' h in
    rw (e, note_change-job_queue id j.status status (error_value error) now db)
      (changed-rows id status (error_value error) now db
        (recover_job status attempt retry (error_value error)) j (λ k. refl) (λ k. refl) found ids
        l)

insert_job_log-rows :
    (l : JobLog) (db : Db) → LineageMatches db → LineageMatches (insert_job_log l db)
unfolding insert_job_log
insert_job_log-rows l db h =
    elim (first (λ k. text_eq k.log_id l.log_id) db.job_log)
      as (λ o.
        LineageMatches
          (elim o [ some k ↦ db | none ↦ record db { job_log = db.job_log ++ l ∷ [] } ])) [
            | some k ↦ h
            | none ↦ h
          ]

pub complete_with_result-LineageMatches :
    (id : Text) (status : Status) (result error stderr : Option Text) (now : ℕ) (db db' : Db)
    → IdsUnique db.job_queue
    → LineageMatches db
    → complete_with_result id status result error stderr now db ≡ ok db'
    → LineageMatches db'
unfolding finish_job complete_job
complete_with_result-LineageMatches id status result error stderr now db db' ids l h =
    let (t, (j, found, e)) = complete_with_result-ok id status result error stderr now db db' h in
    let noted = note_change id j.status status error now db in
    let changed = record noted {
      job_queue = update_where (has_id id) (complete_job status now error) noted.job_queue;
    } in
    rw e (
      insert_job_log-rows (completion_log status result error stderr now j) changed (
        rw (note_change-job_queue id j.status status error now db) (
          changed-rows id status error now db (complete_job status now error) j (λ k. refl)
            (λ k. refl) found ids l)))

claimed-LineageMatches :
    (q : Queue) (now : ℕ) (c : Job) (db : Db)
    → LineageMatches db
    → LineageMatches (claimed q now c db)
unfolding claimed start_job record_job_transition
claimed-LineageMatches q now c db l =
    let started = record db {
      job_queue = update_where (has_id c.id) (start_job q now) db.job_queue;
    } in
    All-update (Matches db.job_transitions)
      (Matches (record_job_transition c.id (some queued) running none now started).job_transitions)
      (has_id c.id) (start_job q now) db.job_queue
      (λ a m old hit.
        Matches-self c.id (some queued) running none now started (start_job q now a)
          (text_eq→eq a.id c.id hit) refl)
      (λ a m old miss. Matches-other c.id (some queued) running none now started a miss old) l

pub dequeue_eligible-LineageMatches :
    (q : Queue) (skip active : List Text) (now : ℕ) (db : Db) (r : Option Job × Db)
    → LineageMatches db
    → dequeue_eligible q skip active now db ≡ ok r
    → LineageMatches r.1
dequeue_eligible-LineageMatches q skip active now db r l h =
    elim (dequeue_eligible-ok q skip active now db r h) [
      | inl e ↦ rw e l
      | inr (c, n, k) ↦ rw (claim-ok q now c db r k).0 (claimed-LineageMatches q now c db l)
    ]

new_id-unused :
    (id : Text) (req : EnqueueRequest) (j : Job)
    → is_conflict id req j ≡ false
    → has_id id j ≡ false
unfolding is_conflict
new_id-unused id req j h = ground arith

inserted-LineageMatches :
    (q : Queue) (id : Text) (now : ℕ) (req : EnqueueRequest) (db : Db)
    → first (is_conflict id req) db.job_queue ≡ none
    → LineageMatches db
    → LineageMatches (inserted q id now req db)
unfolding inserted record_job_transition new_job
inserted-LineageMatches q id now req db n l =
    let added = record db { job_queue = db.job_queue ++ new_job q id now req ∷ [] } in
    let ts = (record_job_transition id none queued none now added).job_transitions in
    All-append (Matches ts) db.job_queue (new_job q id now req ∷ [])
      (All-of_In (Matches ts) db.job_queue (λ j m.
        Matches-other id none queued none now added j
          (new_id-unused id req j (first-none (is_conflict id req) db.job_queue n j m))
          (All-In (Matches db.job_transitions) db.job_queue j l m)))
      (Matches-self id none queued none now added (new_job q id now req) refl refl, tt)

pub enqueue-LineageMatches :
    (q : Queue) (id : Text) (now : ℕ) (req : EnqueueRequest) (db : Db) (r : Text × Db)
    → LineageMatches db
    → enqueue q id now req db ≡ ok r
    → LineageMatches r.1
enqueue-LineageMatches q id now req db r l h =
    elim (insert_job-ok q id now req db r (enqueue-ok q id now req db r h).1) [
      | inl e ↦ rw e l
      | inr (n, e) ↦ rw e (inserted-LineageMatches q id now req db n l)
    ]
