-- ===== src/Scheduler/Breaker/Reset.antt =====
-- `ResetCircuitBreaker` of internal/queue/queue.go, followed by `reconcileCircuitBreaker` of
-- internal/scheduler/scheduler.go.
use ductile.Common.{none, List, ℕ, ◌≤◌, ◌≡◌, ap, ◌∙◌, false, Option, some, arith}
use ductile.Common.Text.{Text}
use ductile.Queue.Types.{
  Job, closed, manual_reset, open_state, CircuitBreaker, CircuitBreakerTransition, CommandResult,
  ok,
}
use ductile.Queue.Db.{Db}
use ductile.Queue.Breaker.{
  state_of, put_breaker, get_circuit_breaker, upsert_circuit_breaker,
  record_circuit_breaker_transition, initial_breaker, reset_circuit_breaker,
  latest_completed_command_result,
}
use ductile.Queue.Breaker.Stored.{stamped, get_circuit_breaker-upsert}
use ductile.Queue.Outcomes.{bind-ok}
use ductile.Scheduler.Breaker.{
  is_success, next_breaker, current_circuit_breaker, reconcile_circuit_breaker,
}
use ductile.Scheduler.Breaker.Reconciled.{get-same, found-current, reconcile_circuit_breaker_lem}

-- The transition that a reset records.
abbrev reset_transition : ℕ → Text → Text → Option CircuitBreaker → CircuitBreakerTransition
reset_transition now plugin command previous = record {
  plugin = plugin;
  command = command;
  from_state = state_of previous;
  to_state = closed;
  failure_count = 0;
  reason = manual_reset;
  job_id = none;
  created_at = now;
}

record_transition-tables :
    (t : CircuitBreakerTransition) (db db' : Db)
    → record_circuit_breaker_transition t db ≡ ok db'
    → (db'.circuit_breakers ≡ db.circuit_breakers) × (db'.job_queue ≡ db.job_queue)
unfolding record_circuit_breaker_transition
record_transition-tables t db db' h = (ground arith, ground arith)

upsert-job_queue :
    (now : ℕ) (b : CircuitBreaker) (db db' : Db)
    → upsert_circuit_breaker now b db ≡ ok db'
    → db'.job_queue ≡ db.job_queue
unfolding upsert_circuit_breaker put_breaker
upsert-job_queue now b db db' h = ground arith

-- A reset leaves a new breaker, as `currentCircuitBreaker` reads it, and the jobs as they are.
reset_circuit_breaker-current :
    (now : ℕ) (plugin command : Text) (db db' : Db)
    → reset_circuit_breaker now plugin command db ≡ ok db'
    → (current_circuit_breaker plugin command db'
        ≡ ok (stamped now (initial_breaker plugin command)))
      × (db'.job_queue ≡ db.job_queue)
unfolding reset_circuit_breaker
reset_circuit_breaker-current now plugin command db db' h =
    let b = initial_breaker plugin command in
    let (previous, p, k) = bind-ok (get_circuit_breaker plugin command db) _ h in
    let moved = reset_transition now plugin command previous in
    let (mid, u, t) =
      bind-ok (upsert_circuit_breaker now b db) (record_circuit_breaker_transition moved) k in
    let read = (get_circuit_breaker-upsert now b db mid u).0 in
    let (breakers, jobs) = record_transition-tables moved mid db' t in
    (
      found-current plugin command db' (stamped now b)
          (get-same plugin command mid db' breakers ∙ read),
      jobs ∙ upsert-job_queue now b db mid u,
    )

latest-same :
    (plugin command service : Text) (db db' : Db)
    → db'.job_queue ≡ db.job_queue
    → latest_completed_command_result plugin command service db'
      ≡ latest_completed_command_result plugin command service db
unfolding latest_completed_command_result
latest-same plugin command service db db' e =
    ap
      (λ (jobs : List Job).
        latest_completed_command_result plugin command service (record db { job_queue = jobs }))
      e

counted_again :
    (now threshold : ℕ) (l : CommandResult) (plugin command : Text)
    → is_success l.status ≡ false
    → ((next_breaker threshold l (stamped now (initial_breaker plugin command))).failure_count ≡ 1)
      × (threshold ≤ 1
          → (next_breaker threshold l (stamped now (initial_breaker plugin command))).state
            ≡ open_state)
unfolding next_breaker
counted_again now threshold l plugin command h = (ground arith, ground arith)

-- Where the latest completed result of the target is a failure, a reset followed by a reconciliation
-- that succeeds counts it, whether or not it was counted before the reset: the breaker in the database
-- then has one failure, and with a threshold of at most 1 it is open.
pub reset_circuit_breaker-recounts :
    (service : Text) (now later : ℕ) (plugin command : Text) (threshold : ℕ) (db db' : Db)
    (l : CommandResult) (r : Option CommandResult × Db)
    → latest_completed_command_result plugin command service db ≡ ok (some l)
    → is_success l.status ≡ false
    → reset_circuit_breaker now plugin command db ≡ ok db'
    → reconcile_circuit_breaker service later plugin command threshold db' ≡ ok r
    → (b : CircuitBreaker) × (current_circuit_breaker plugin command r.1 ≡ ok b)
      × (b.failure_count ≡ 1)
      × (threshold ≤ 1 → b.state ≡ open_state)
reset_circuit_breaker-recounts service now later plugin command threshold db db' l r f s h k =
    let fresh = stamped now (initial_breaker plugin command) in
    let (current, jobs) = reset_circuit_breaker-current now plugin command db db' h in
    let (_, (b, c, same)) =
      reconcile_circuit_breaker_lem service later plugin command threshold db' fresh l r current
        (latest-same plugin command service db db' jobs ∙ f) k in
    let (one, opens) = counted_again now threshold l plugin command s in
    (
      b,
      c,
      ap (λ (x : CircuitBreaker). x.failure_count) same ∙ one,
      λ t. ap (λ (x : CircuitBreaker). x.state) same ∙ opens t,
    )
