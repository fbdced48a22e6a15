-- ===== src/Examples/Jobs.antt =====
-- Runs of the queue's theorems: enqueue, claim, completion, cancellation and retention.
use ductile.Common.{
  ℕ, ◌+◌, ◌*◌, ◌≤◌, true, false, [], ◌∷◌, ◌++◌, Option, none, some, ◌≡◌, ◌≢◌, inl, refl, arith, In,
}
use ductile.Common.Text.{Text, codes, text_eq, trim_space}
use ductile.Queue.Types.{JobAttempt, status_eq, queued, succeeded, dead, Job, Result, ok, err}
use ductile.Queue.Stamp.{stamp_le, second}
use ductile.Queue.Db.{Db, find_job, oldest, update_where, record_job_attempt, record_job_transition}
use ductile.Queue.Enqueue.{enqueue}
use ductile.Queue.Dequeue.{dequeue_eligible, next_job, is_eligible}
use ductile.Queue.Finish.{complete_with_result, cancel_outstanding_jobs}
use ductile.Queue.Safety.Reach.{
  Reach, here, next, enqueues, dequeues, IsConsistent, empty, empty-IsConsistent,
  Reach-IsConsistent,
}
use ductile.Queue.Safety.Attempts.{IsBehind, AttemptsBehind}
use ductile.Queue.Safety.Attempts.Claims.{claim_result, dequeue_eligible_total}
use ductile.Queue.Selection.{
  CanStart, next_job_first, next_job_complete, is_eligible-retry, is_eligible-CanStart,
}
use ductile.Queue.Endings.{IsCompleted, complete_with_result_lem}
use ductile.Queue.Cancellation.{cancel_transition, cancel_outstanding_jobs_lem}
use ductile.Examples.Data.{attempted, settings, waiting, started, ended, db, request}

abbrev result : {A : Type 0} → A → Result A → A
result a (ok b) = b
result a (err e) = a

unfoldable after_enqueue : Text × Db
unfolding enqueue empty
after_enqueue =
    result (codes "", empty)
      (enqueue settings (codes "a") 7 (request (codes "poll") (codes "key") none) empty)

unfoldable after_dequeue : Option Job × Db
unfolding dequeue_eligible after_enqueue
after_dequeue = result (none, empty) (dequeue_eligible settings [] [] 9 after_enqueue.1)

enqueued :
    enqueue settings (codes "a") 7 (request (codes "poll") (codes "key") none) empty
    ≡ ok after_enqueue
unfolding enqueue after_enqueue empty trim_space ductile.Queue.Enqueue.find_recent_succeeded
    ductile.Queue.Db.latest
enqueued = refl

dequeued : dequeue_eligible settings [] [] 9 after_enqueue.1 ≡ ok after_dequeue
unfolding dequeue_eligible after_enqueue after_dequeue trim_space
    ductile.Queue.Enqueue.find_recent_succeeded ductile.Queue.Db.latest
dequeued = refl

two_steps : Reach settings empty after_dequeue.1
unfolding empty
two_steps =
    next
      (next here (
        enqueues (codes "a") 7 (request (codes "poll") (codes "key") none) after_enqueue tt enqueued
          refl))
      (dequeues [] [] 9 after_dequeue dequeued refl)

Reach-IsConsistent_example : IsConsistent after_dequeue.1
Reach-IsConsistent_example = Reach-IsConsistent settings two_steps empty-IsConsistent

is_next : next_job [] [] 9 db ≡ some waiting
unfolding next_job text_eq
is_next = refl

next_job_first_example :
    In waiting db.job_queue
    × CanStart [] [] 9 db.job_queue waiting
    × ((k : Job)
        → In k db.job_queue
        → CanStart [] [] 9 db.job_queue k
        → stamp_le 5 k.created_at ≡ true)
next_job_first_example = next_job_first [] [] 9 db waiting is_next

may_start : CanStart [] [] 9 db.job_queue waiting
unfolding is_eligible text_eq
may_start = is_eligible-CanStart [] [] 9 db.job_queue waiting refl

next_job_complete_example : next_job [] [] 9 db ≢ none
next_job_complete_example = next_job_complete [] [] 9 db waiting (inl refl) may_start

other : (j : Job) (a : JobAttempt) → text_eq a.job_id j.id ≡ false → IsBehind j a
other j a h = record { at_most = λ t. absurd (clash t); not_started = λ t q. absurd (clash t) }
  where
    clash : text_eq a.job_id j.id ≡ true → ⊥
    clash t = cc

own :
    (j : Job) (a : JobAttempt)
    → a.attempt ≤ j.attempt
    → status_eq j.status queued ≡ false
    → IsBehind j a
own j a h s = record { at_most = λ t. h; not_started = λ t q. absurd (ground arith) }

behind : AttemptsBehind db
unfolding text_eq
behind = (
  (other waiting (attempted (codes "b")) refl, (other waiting (attempted (codes "c")) refl, tt)),
  (
    (
      own started (attempted (codes "b")) (omega arith) refl,
      (other started (attempted (codes "c")) refl, tt),
    ),
    (
      (
        other ended (attempted (codes "b")) refl,
        (own ended (attempted (codes "c")) (omega arith) refl, tt),
      ),
      tt,
    ),
  ),
)

dequeue_eligible_total_example :
    dequeue_eligible settings [] [] 9 db ≡ ok (claim_result settings 9 db (next_job [] [] 9 db))
dequeue_eligible_total_example = dequeue_eligible_total settings [] [] 9 db behind

filled : codes "b" ≢ []
filled e = cc

found : find_job (codes "b") db ≡ some started
unfolding text_eq
found = refl

complete_with_result_lem_example :
    (db' : Db) × (complete_with_result (codes "b") succeeded (some (codes "r")) none none 9 db
      ≡ ok db')
    × IsCompleted (codes "b") succeeded (some (codes "r")) 9 none none started db db'
complete_with_result_lem_example =
    (complete_with_result_lem (codes "b") succeeded (some (codes "r")) none none 9 db).1 started
      filled refl found

unfoldable after_cancel : ℕ × Db
unfolding cancel_outstanding_jobs
after_cancel = result (0, db) (cancel_outstanding_jobs (codes "echo") (codes "poll") [] 9 db)

cancelled_poll : cancel_outstanding_jobs (codes "echo") (codes "poll") [] 9 db ≡ ok after_cancel
unfolding cancel_outstanding_jobs after_cancel text_eq
cancelled_poll = refl

abbrev reason : Text
reason = codes "cancelled by scheduler"

cancel_outstanding_jobs_lem_example :
    (after_cancel.0 ≡ 1)
    × (after_cancel.1.job_queue
        ≡ record waiting { status = dead; completed_at = some 9; last_error = some reason }
          ∷ started
          ∷ ended
          ∷ [])
    × (after_cancel.1.job_transitions
        ≡ db.job_transitions ++ cancel_transition reason 9 waiting ∷ [])
    × (after_cancel.1.job_log ≡ [])
unfolding text_eq trim_space
cancel_outstanding_jobs_lem_example =
    cancel_outstanding_jobs_lem (codes "echo") (codes "poll") [] 9 db after_cancel cancelled_poll

is_eligible-retry_example :
    (is_eligible [] []
        (3 * second)
        db.job_queue
        (record waiting { next_retry_at = some (3 * second + 500_000_000) })
      ≡ true)
    × (is_eligible [] []
          (3 * second + 500_000_000)
          db.job_queue
          (record waiting { next_retry_at = some (3 * second) })
        ≡ false)
is_eligible-retry_example =
    (is_eligible-retry [] [] 9 db.job_queue waiting may_start).2 3 500_000_000 (omega arith)
      (omega arith)
