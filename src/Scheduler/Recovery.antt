-- ===== src/Scheduler/Recovery.antt =====
-- Crash recovery: `recoverOrphanedJobs` of internal/scheduler/scheduler.go. Events and hooks are left
-- out; an error of the queue is logged there and the loop goes on.
pub mod NoOrphans
use ductile.Common.{ℕ, ◌+◌, List, [], ◌∷◌, ◌++◌, none, some, leb, if◌then◌else◌, keep}
use ductile.Common.Text.{Text, codes}
use ductile.Queue.Db.{Db}
use ductile.Queue.Types.{Status, queued, running, dead, status_eq, Job, Result, ok, err}
use ductile.Queue.Finish.{update_job_for_recovery, complete_with_result}
use ductile.Common.Text.Decimal.{decimal}

-- `FindJobsByStatus`
find_jobs_by_status : Status → Db → List Job
find_jobs_by_status s db = keep (λ j. status_eq j.status s) db.job_queue

-- What is logged leaves the database as it was.
abbrev or_keep : Db → Result Db → Db
or_keep db (ok db') = db'
or_keep db (err e) = db

dead_message : ℕ → Text
unfolding decimal
dead_message n =
    codes "Job marked dead during crash recovery: max attempts ("
    ++ (decimal n ++ codes ") reached")

abbrev complete_dead : ℕ → Job → Result Db → Db → Db
complete_dead now j (err e) db = db
complete_dead now j (ok db') db =
    or_keep db'
      (complete_with_result j.id dead none (some (dead_message j.max_attempts)) none now db')

-- One round of the loop, on the job as it was read.
recover_orphan : ℕ → Job → Db → Db
unfolding dead_message
recover_orphan now j db =
    if leb (j.attempt + 1) j.max_attempts
    then or_keep db (update_job_for_recovery j.id queued (j.attempt + 1) none [] now db)
    else complete_dead now j
        (update_job_for_recovery j.id dead (j.attempt + 1) none (dead_message j.max_attempts) now
          db)
        db

recover_all : ℕ → List Job → Db → Db
unfolding recover_orphan
recover_all now [] db = db
recover_all now (j ∷ js) db = recover_all now js (recover_orphan now j db)

-- `recoverOrphanedJobs`
unfoldable pub recover_orphaned_jobs : ℕ → Db → Db
unfolding find_jobs_by_status recover_all
recover_orphaned_jobs now db = recover_all now (find_jobs_by_status running db) db
