-- ===== src/Scheduler/Recovery/NoOrphans.antt =====
-- Which rows run after the crash recovery of internal/scheduler/scheduler.go.
use ductile.Common.{
  ℕ, ◌+◌, true, false, List, [], ◌∷◌, Option, none, some, ◌≡◌, ◌≢◌, refl, ap, ◌∙◌, inl, inr, leb,
  Bool-cases, arith, keep, In,
}
use ductile.Common.Text.{Text, text_eq_refl}
use ductile.Queue.Rows.{In-update, first-none, keep-In}
use ductile.Queue.Db.{Db, find_job, has_id, update_where}
use ductile.Queue.Types.{Status, queued, running, dead, status_eq, Job, Result, ok, err, QueueError}
use ductile.Queue.Finish.{
  update_job_for_recovery, complete_with_result, recover_job, complete_job, error_value,
}
use ductile.Queue.Outcomes.{update_job_for_recovery-ok, complete_with_result-ok}
use ductile.Queue.Safety.Changes.{recovered-job_queue, finish_job-job_queue}
use ductile.Scheduler.Recovery.{
  find_jobs_by_status, or_keep, complete_dead, recover_orphan, recover_all, recover_orphaned_jobs,
  dead_message,
}

-- A row that runs after the round ran before it, and has another id than the round's job.
abbrev LeftRunning : Text → Db → Db → Type 0
LeftRunning id db db' =
    (r : Job) → In r db'.job_queue → r.status ≡ running → In r db.job_queue × (has_id id r ≡ false)

update-LeftRunning :
    (id : Text) (f : Job → Job) (db db' : Db)
    → ((j : Job) → status_eq (f j).status running ≡ false)
    → db'.job_queue ≡ update_where (has_id id) f db.job_queue
    → LeftRunning id db db'
update-LeftRunning id f db db' idle e r m s =
    let (a, n, i) = In-update (has_id id) f db.job_queue r (rw e at m) in
    elim (Bool-cases (has_id id a)) [
      | inl t ↦ absurd (not_running (f a) r (i ∙ rw t) s (idle a))
      | inr u ↦ let j : r ≡ a = i ∙ rw u in (rw j n, rw j u)
    ]
  where
    not_running : (k l : Job) → l ≡ k → l.status ≡ running → status_eq k.status running ≡ false → ⊥
    not_running k l e' s' f' = ground arith

update_error-none :
    (id : Text) (status : Status) (attempt : ℕ) (retry : Option ℕ) (error : Text) (now : ℕ)
    (db : Db) (e : QueueError)
    → update_job_for_recovery id status attempt retry error now db ≡ err e
    → find_job id db ≡ none
unfolding update_job_for_recovery
update_error-none id status attempt retry error now db e h = ground arith

missing-LeftRunning : (id : Text) (db : Db) → find_job id db ≡ none → LeftRunning id db db
missing-LeftRunning id db h r m s = (m, first-none (has_id id) db.job_queue h r m)

recovery-LeftRunning :
    (id : Text) (status : Status) (attempt : ℕ) (error : Text) (now : ℕ) (db : Db) (m : Result Db)
    → status_eq status running ≡ false
    → update_job_for_recovery id status attempt none error now db ≡ m
    → LeftRunning id db (or_keep db m)
unfolding recover_job
recovery-LeftRunning id status attempt error now db (ok db') idle h =
    let (j, f, e) = update_job_for_recovery-ok id status attempt none error now db db' h in
    update-LeftRunning id (recover_job status attempt none (error_value error)) db db' (λ k. idle)
      (ap (λ (d : Db). d.job_queue) e ∙ recovered-job_queue id status attempt none error now j db)
recovery-LeftRunning id status attempt error now db (err e) idle h =
    missing-LeftRunning id db (update_error-none id status attempt none error now db e h)

completion-LeftRunning :
    (id : Text) (error : Option Text) (now : ℕ) (db : Db) (m : Result Db)
    → complete_with_result id dead none error none now db ≡ m
    → (r : Job) → In r (or_keep db m).job_queue
    → r.status ≡ running
    → In r db.job_queue
unfolding complete_job
completion-LeftRunning id error now db (err e) h r m s = m
completion-LeftRunning id error now db (ok db') h r m s =
    let (t, (j, f, e)) = complete_with_result-ok id dead none error none now db db' h in
    (update-LeftRunning id (complete_job dead now error) db db' (λ k. refl)
      (ap (λ (d : Db). d.job_queue) e ∙ finish_job-job_queue id dead none error none now j db) r m
      s).0

dead-LeftRunning :
    (now : ℕ) (j : Job) (db : Db) (m : Result Db)
    → update_job_for_recovery j.id dead (j.attempt + 1) none (dead_message j.max_attempts) now db
      ≡ m
    → LeftRunning j.id db (complete_dead now j m db)
dead-LeftRunning now j db (err e) h =
    recovery-LeftRunning j.id dead (j.attempt + 1) (dead_message j.max_attempts) now db (err e) refl
      h
dead-LeftRunning now j db (ok db') h = λ r m s.
    recovery-LeftRunning j.id dead (j.attempt + 1) (dead_message j.max_attempts) now db (ok db')
      refl h r
      (completion-LeftRunning j.id (some (dead_message j.max_attempts)) now db'
        (complete_with_result j.id dead none (some (dead_message j.max_attempts)) none now db') refl
        r m s)
      s

recover_orphan-LeftRunning :
    (now : ℕ) (j : Job) (db : Db) → LeftRunning j.id db (recover_orphan now j db)
unfolding recover_orphan
recover_orphan-LeftRunning now j db = elim (Bool-cases (leb (j.attempt + 1) j.max_attempts)) [
  | inl t ↦ rw t (recovery-LeftRunning j.id queued (j.attempt + 1) [] now db _ refl refl)
  | inr f ↦ rw f (dead-LeftRunning now j db _ refl)
]

other_job :
    (j : Job) (js : List Job) (r : Job)
    → has_id j.id r ≡ false
    → (k : Job) × In k (j ∷ js) × (has_id k.id r ≡ true)
    → (k : Job) × In k js × (has_id k.id r ≡ true)
other_job j js r other (k, inl e, t) = absurd (clash (ap (λ (b : Job). has_id b.id r) e))
  where
    clash : has_id k.id r ≡ has_id j.id r → ⊥
    clash a = cc
other_job j js r other (k, inr m, t) = (k, m, t)

recover_all-none :
    (now : ℕ) (js : List Job) (db : Db)
    → ((r : Job)
        → In r db.job_queue
        → r.status ≡ running
        → (k : Job) × In k js × (has_id k.id r ≡ true))
    → (r : Job) → In r (recover_all now js db).job_queue
    → r.status ≢ running
unfolding recover_all
recover_all-none now [] db h = λ r m s. (h r m s).1
recover_all-none now (j ∷ js) db h = recover_all-none now js (recover_orphan now j db) (λ r m s.
    let (n, other) = recover_orphan-LeftRunning now j db r m s in other_job j js r other (h r n s))

-- After crash recovery no row of job_queue is running, whatever the database was before.
pub recover_orphaned_jobs-none_running :
    (now : ℕ) (db : Db) (r : Job)
    → In r (recover_orphaned_jobs now db).job_queue
    → r.status ≢ running
unfolding recover_orphaned_jobs find_jobs_by_status
recover_orphaned_jobs-none_running now db =
    recover_all-none now (keep (λ j. status_eq j.status running) db.job_queue) db (λ r m s. (
      r,
      keep-In (λ j. status_eq j.status running) db.job_queue r m (rw s refl),
      text_eq_refl r.id,
    ))
