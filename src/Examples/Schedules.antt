-- ===== src/Examples/Schedules.antt =====
-- Runs of the theorems on the scheduler: breakers, policies, recovery and windows.
use ductile.Common.{
  ◌+◌, ◌*◌, ◌≤◌, List, [], ◌∷◌, ◌≡◌, ◌≢◌, ◌↔◌, ◌⊎◌, inl, inr, refl, arith, In, leb, if◌then◌else◌,
}
use ductile.Common.Int.{pos}
use ductile.Common.Text.{Text, codes, text_eq, trim_space}
use ductile.Queue.Types.{
  queued, running, failed, CommandResult, CircuitBreaker, open_state, closed, Job,
}
use ductile.Queue.Db.{Db}
use ductile.Queue.Breaker.{initial_breaker}
use ductile.Scheduler.Breaker.History.{run_results, streak, run_results_lem}
use ductile.Scheduler.Gate.{apply_policy, gate, allowed, already_running}
use ductile.Scheduler.Gate.Competes.{Competes, NoneCompetes}
use ductile.Scheduler.Gate.Admits.{apply_policy_bounds}
use ductile.Scheduler.Recovery.{recover_orphaned_jobs}
use ductile.Scheduler.Recovery.NoOrphans.{recover_orphaned_jobs-none_running}
use ductile.Scheduler.Window.{count_missed_runs}
use ductile.Scheduler.Window.Bounds.{count_missed_runs_lem}
use ductile.Examples.Data.{started, db}

abbrev failure : Text → CommandResult
failure id = record { job_id = id; status = failed; completed_at = 4 }

abbrev fresh_breaker : CircuitBreaker
fresh_breaker = initial_breaker (codes "echo") (codes "poll")

abbrev two_failures : List CommandResult
two_failures = failure (codes "a") ∷ failure (codes "b") ∷ []

run_results_lem_example :
    ((run_results 2 two_failures fresh_breaker).failure_count ≡ streak 0 two_failures)
    × ((run_results 2 two_failures fresh_breaker).state
        ≡ (if leb 2 (streak 0 two_failures) then open_state else closed))
unfolding text_eq
run_results_lem_example =
    run_results_lem 2 two_failures (codes "echo") (codes "poll") (omega arith) (refl, (refl, tt))

-- A poll of the plugin waits.
poll_waits :
    apply_policy (codes "ductile") 9 (codes "echo") (codes "poll") (pos 1) (codes "skip") db
    ≡ gate already_running db
unfolding apply_policy text_eq trim_space
poll_waits = refl

apply_policy_bounds_example :
    (db ≡ db)
    × (((already_running ≡ allowed)
          × NoneCompetes (codes "ductile") (codes "echo") (codes "poll") db)
        ⊎ ((already_running ≡ already_running)
            × ((j : Job) × In j db.job_queue
                × Competes (codes "ductile") (codes "echo") (codes "poll") j)))
apply_policy_bounds_example =
    (apply_policy_bounds (codes "ductile") 9 (codes "echo") (codes "poll") (pos 1) db db
        already_running).0
      poll_waits

abbrev requeued : Job
requeued = record started { status = queued; attempt = 2 }

still_there : In requeued (recover_orphaned_jobs 9 db).job_queue
unfolding recover_orphaned_jobs ductile.Queue.Finish.update_job_for_recovery text_eq
    ductile.Queue.Db.update_where
still_there = inr (inl refl)

recover_orphaned_jobs-none_running_example : queued ≢ running
recover_orphaned_jobs-none_running_example =
    recover_orphaned_jobs-none_running 9 db requeued still_there

count_missed_runs_lem_example : (2 ≤ count_missed_runs 10 35 (pos 10)) ↔ (10 + 10 * 2 ≤ 35)
count_missed_runs_lem_example = count_missed_runs_lem 10 35 10 2 (omega arith) (omega arith)
