-- ===== src/Queue/Cancellation.antt =====
-- `CancelOutstandingJobs` of internal/queue/queue.go.
use mathlib.Core.List.{append_assoc, append-nil}
use ductile.Common.{
  ℕ, ◌≡◌, refl, sym, ap, ◌∙◌, Bool, false, ◌&&◌, some, List, [], ◌∷◌, ◌++◌, map, arith,
  if◌then◌else◌, keep, count, In,
}
use ductile.Common.Text.{Text, text_eq}
use ductile.Queue.Rows.{In-update}
use ductile.Queue.Db.{Db, update_where, stored_reason, record_job_transition}
use ductile.Queue.Types.{dead, is_outstanding, Job, JobTransition, ok}
use ductile.Queue.Finish.{
  complete_job, is_cancellable, note_cancelled, cancel_reason, cancel_outstanding_jobs,
}
use ductile.Queue.Outcomes.{cancelled, cancel_outstanding_jobs-ok}
use ductile.Queue.Safety.Changes.{note_cancelled-job_queue, cancelled-job_queue}

-- The job is a queued or running one of the plugin and command.
abbrev pub is_target : Text → Text → Job → Bool
is_target plugin command j =
    text_eq j.plugin plugin && (text_eq j.command command && is_outstanding j.status)

-- The transition of a cancelled job.
abbrev pub cancel_transition : Text → ℕ → Job → JobTransition
cancel_transition why now j = record {
  job_id = j.id;
  from_status = some j.status;
  to_status = dead;
  reason = stored_reason (some why);
  created_at = now;
}

note_cancelled-job_log :
    (why : Text) (now : ℕ) (js : List Job) (db : Db)
    → (note_cancelled why now js db).job_log ≡ db.job_log
unfolding note_cancelled
note_cancelled-job_log why now [] db = refl
note_cancelled-job_log why now (j ∷ js) db = note_cancelled-job_log why now js _

note_cancelled-transitions :
    (why : Text) (now : ℕ) (js : List Job) (db : Db)
    → (note_cancelled why now js db).job_transitions
      ≡ db.job_transitions ++ map (cancel_transition why now) js
unfolding note_cancelled record_job_transition
note_cancelled-transitions why now [] db = sym (append-nil db.job_transitions)
note_cancelled-transitions why now (j ∷ js) db =
    note_cancelled-transitions why now js _
    ∙ append_assoc db.job_transitions (cancel_transition why now j ∷ [])
        (map (cancel_transition why now) js)

update_where-map :
    {A : Type 0} (p : A → Bool) (f : A → A) (xs : List A)
    → update_where p f xs ≡ map (λ x. if p x then f x else x) xs
unfolding update_where
update_where-map p f [] = refl
update_where-map p f (x ∷ xs) =
    ap (λ rest. (if p x then f x else x) ∷ rest) (update_where-map p f xs)

cancel_outstanding_jobs-count :
    (plugin command why : Text) (now : ℕ) (db : Db) (r : ℕ × Db)
    → cancel_outstanding_jobs plugin command why now db ≡ ok r
    → r.0
      ≡ count
          (is_cancellable plugin command)
          (note_cancelled
            (cancel_reason why)
            now
            (keep (is_cancellable plugin command) db.job_queue)
            db).job_queue
unfolding cancel_outstanding_jobs
cancel_outstanding_jobs-count plugin command why now db r h = ground arith

-- A cancellation that succeeds gives the number of queued and running jobs of the target, and
-- leaves job_queue with those jobs dead, ended now and for the given reason, and with every other
-- job, in the old order. Each of them has its transition, and job_log is as it was.
pub cancel_outstanding_jobs_lem :
    (plugin command why : Text) (now : ℕ) (db : Db) (r : ℕ × Db)
    → cancel_outstanding_jobs plugin command why now db ≡ ok r
    → (r.0 ≡ count (is_target plugin command) db.job_queue)
      × (r.1.job_queue
          ≡ map
              (λ k.
                if is_target plugin command k
                then record k {
                  status = dead;
                  completed_at = some now;
                  last_error = some (cancel_reason why);
                }
                else k)
              db.job_queue)
      × (r.1.job_transitions
          ≡ db.job_transitions
            ++ map
                (cancel_transition (cancel_reason why) now)
                (keep (is_target plugin command) db.job_queue))
      × (r.1.job_log ≡ db.job_log)
unfolding cancelled complete_job is_cancellable
cancel_outstanding_jobs_lem plugin command why now db r h =
    let p = is_cancellable plugin command in
    let chosen = keep p db.job_queue in
    let e = cancel_outstanding_jobs-ok plugin command why now db r h in
    (
      cancel_outstanding_jobs-count plugin command why now db r h
          ∙ ap (count p) (note_cancelled-job_queue (cancel_reason why) now chosen db),
      ap (λ (d : Db). d.job_queue) e
          ∙ (cancelled-job_queue plugin command why now db
              ∙ update_where-map p (complete_job dead now (some (cancel_reason why))) db.job_queue),
      ap (λ (d : Db). d.job_transitions) e
          ∙ note_cancelled-transitions (cancel_reason why) now chosen db,
      ap (λ (d : Db). d.job_log) e ∙ note_cancelled-job_log (cancel_reason why) now chosen db,
    )

pub cancel_outstanding_jobs-none_left :
    (plugin command why : Text) (now : ℕ) (db : Db) (r : ℕ × Db)
    → cancel_outstanding_jobs plugin command why now db ≡ ok r
    → (j : Job) → In j r.1.job_queue
    → is_target plugin command j ≡ false
cancel_outstanding_jobs-none_left plugin command why now db r h j m =
    let q =
      ap (λ (d : Db). d.job_queue) (cancel_outstanding_jobs-ok plugin command why now db r h)
      ∙ cancelled-job_queue plugin command why now db in
    let (k, n, i) = In-update _ _ db.job_queue j (rw q at m) in ended k i
  where
    ended :
        (k : Job)
        → j ≡ (
            if is_cancellable plugin command k
            then complete_job dead now (some (cancel_reason why)) k
            else k)
        → is_target plugin command j ≡ false
    ended k i = unfold is_cancellable complete_job in ground arith
