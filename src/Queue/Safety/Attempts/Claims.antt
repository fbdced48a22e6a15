-- ===== src/Queue/Safety/Attempts/Claims.antt =====
-- The claim of internal/queue/queue.go and the attempts that are recorded.
use ductile.Common.{
  ℕ, true, false, List, Option, none, some, ◌≡◌, refl, inl, inr, Bool-cases, arith, first, All, In,
  All-In,
}
use ductile.Common.Text.{Text, text_eq}
use ductile.Queue.Rows.{first-none_of}
use ductile.Queue.Db.{Db, has_attempt}
use ductile.Queue.Types.{queued, Job, JobAttempt, Queue, ok}
use ductile.Queue.Dequeue.{start_job, next_job, claim, dequeue_eligible, is_eligible}
use ductile.Queue.Outcomes.{claimed, next_job-In}
use ductile.Queue.Safety.Attempts.{IsBehind, AttemptsBehind}

eligible-queued :
    (skip active : List Text) (now : ℕ) (xs : List Job) (c : Job)
    → is_eligible skip active now xs c ≡ true
    → c.status ≡ queued
unfolding is_eligible
eligible-queued skip active now xs c h = ground arith

queued-no_attempt :
    (c : Job) (a : JobAttempt)
    → c.status ≡ queued
    → IsBehind c a
    → has_attempt c.id c.attempt a ≡ false
unfolding has_attempt
queued-no_attempt c a s h = elim (Bool-cases (text_eq a.job_id c.id)) [
  | inl t ↦ let b = h.not_started t s in ground arith
  | inr f ↦ rw f refl
]

-- A claim records an attempt that is not recorded yet, so it never fails.
claim_total :
    (q : Queue) (now : ℕ) (c : Job) (db : Db)
    → In c db.job_queue
    → c.status ≡ queued
    → AttemptsBehind db
    → claim q now c db ≡ ok (some (start_job q now c), claimed q now c db)
unfolding claim claimed
claim_total q now c db m s h =
    let behind = All-In (λ j. All (IsBehind j) db.job_attempts) db.job_queue c h m in
    let missing : first (has_attempt c.id c.attempt) db.job_attempts ≡ none =
      first-none_of (has_attempt c.id c.attempt) db.job_attempts
        (λ a n. queued-no_attempt c a s (All-In (IsBehind c) db.job_attempts a behind n)) in
    ground arith

-- What a claim of the chosen row returns.
abbrev pub claim_result : Queue → ℕ → Db → Option Job → Option Job × Db
claim_result q now db none = (none, db)
claim_result q now db (some c) = (some (start_job q now c), claimed q now c db)

-- Where no recorded attempt is past its job, and a waiting job has none of its present attempt, `DequeueEligible` returns without an error: the claimed row
-- if there is an eligible one, and nothing with the database unchanged if there is none.
pub dequeue_eligible_total :
    (q : Queue) (skip active : List Text) (now : ℕ) (db : Db)
    → AttemptsBehind db
    → dequeue_eligible q skip active now db
      ≡ ok (claim_result q now db (next_job skip active now db))
unfolding dequeue_eligible
dequeue_eligible_total q skip active now db h = go (next_job skip active now db) refl
  where
    go :
        (o : Option Job)
        → next_job skip active now db ≡ o
        → (elim o [ none ↦ ok (none, db) | some c ↦ claim q now c db ])
          ≡ ok (claim_result q now db o)
    go none e = refl
    go (some c) e =
        let (m, el) = next_job-In skip active now db c e in
        claim_total q now c db m (eligible-queued skip active now db.job_queue c el) h
