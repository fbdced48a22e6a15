-- ===== src/Examples/Breakers.antt =====
-- Runs of the theorems on the breakers of the database.
use ductile.Common.{◌≤◌, [], ◌∷◌, Option, none, some, ◌≡◌, refl}
use ductile.Common.Text.{codes, text_eq}
use ductile.Queue.Types.{
  succeeded, failed, open_state, CommandResult, CircuitBreaker, Result, ok, err,
}
use ductile.Queue.Db.{Db}
use ductile.Queue.Breaker.{
  initial_breaker, reset_circuit_breaker, get_circuit_breaker, upsert_circuit_breaker,
  latest_completed_command_result,
}
use ductile.Queue.Breaker.Stored.{stamped, get_circuit_breaker-upsert}
use ductile.Scheduler.Breaker.{next_breaker, current_circuit_breaker, reconcile_circuit_breaker}
use ductile.Scheduler.Breaker.Reconciled.{SameBreaker, reconcile_circuit_breaker_lem}
use ductile.Scheduler.Breaker.Reset.{reset_circuit_breaker-recounts}
use ductile.Examples.Data.{ended, db}

abbrev result : {A : Type 0} → A → Result A → A
result a (ok b) = b
result a (err e) = a

abbrev sync_breaker : CircuitBreaker
sync_breaker = initial_breaker (codes "echo") (codes "sync")

unfoldable after_upsert : Db
unfolding upsert_circuit_breaker
after_upsert = result db (upsert_circuit_breaker 9 sync_breaker db)

upserted : upsert_circuit_breaker 9 sync_breaker db ≡ ok after_upsert
unfolding upsert_circuit_breaker after_upsert
upserted = refl

get_circuit_breaker-upsert_example :
    (get_circuit_breaker (codes "echo") (codes "sync") after_upsert
      ≡ ok (some (stamped 9 sync_breaker)))
get_circuit_breaker-upsert_example =
    (get_circuit_breaker-upsert 9 sync_breaker db after_upsert upserted).0

abbrev success : CommandResult
success = record { job_id = codes "c"; status = succeeded; completed_at = 2 }

is_latest :
    latest_completed_command_result (codes "echo") (codes "sync") (codes "ductile") db
    ≡ ok (some success)
unfolding latest_completed_command_result ductile.Queue.Db.latest text_eq
is_latest = refl

is_current : current_circuit_breaker (codes "echo") (codes "sync") db ≡ ok sync_breaker
unfolding current_circuit_breaker
is_current = refl

unfoldable after_reconcile : Option CommandResult × Db
after_reconcile =
    result (none, db)
      (reconcile_circuit_breaker (codes "ductile") 9 (codes "echo") (codes "sync") 3 db)

reconciles :
    reconcile_circuit_breaker (codes "ductile") 9 (codes "echo") (codes "sync") 3 db
    ≡ ok after_reconcile
unfolding reconcile_circuit_breaker after_reconcile ductile.Queue.Db.latest text_eq
reconciles = refl

reconcile_circuit_breaker_lem_example :
    (after_reconcile.0 ≡ some success)
    × ((b : CircuitBreaker) × (current_circuit_breaker
            (codes "echo")
            (codes "sync")
            after_reconcile.1
          ≡ ok b)
        × SameBreaker b (next_breaker 3 success sync_breaker))
reconcile_circuit_breaker_lem_example =
    reconcile_circuit_breaker_lem (codes "ductile") 9 (codes "echo") (codes "sync") 3 db
      sync_breaker success after_reconcile is_current is_latest reconciles

-- The last job of the target has failed.
abbrev after_failure : Db
after_failure = record db { job_queue = record ended { status = failed } ∷ [] }

abbrev failure : CommandResult
failure = record { job_id = codes "c"; status = failed; completed_at = 2 }

fails :
    latest_completed_command_result (codes "echo") (codes "sync") (codes "ductile") after_failure
    ≡ ok (some failure)
unfolding latest_completed_command_result ductile.Queue.Db.latest text_eq
fails = refl

unfoldable after_reset : Db
unfolding reset_circuit_breaker
after_reset = result db (reset_circuit_breaker 8 (codes "echo") (codes "sync") after_failure)

resets : reset_circuit_breaker 8 (codes "echo") (codes "sync") after_failure ≡ ok after_reset
unfolding reset_circuit_breaker after_reset
resets = refl

unfoldable reopened : Option CommandResult × Db
unfolding after_reset
reopened =
    result (none, db)
      (reconcile_circuit_breaker (codes "ductile") 9 (codes "echo") (codes "sync") 1 after_reset)

reopens :
    reconcile_circuit_breaker (codes "ductile") 9 (codes "echo") (codes "sync") 1 after_reset
    ≡ ok reopened
unfolding reconcile_circuit_breaker reopened after_reset ductile.Queue.Db.latest text_eq
reopens = refl

reset_circuit_breaker-recounts_example :
    (b : CircuitBreaker) × (current_circuit_breaker (codes "echo") (codes "sync") reopened.1 ≡ ok b)
    × (b.failure_count ≡ 1)
    × (1 ≤ 1 → b.state ≡ open_state)
reset_circuit_breaker-recounts_example =
    reset_circuit_breaker-recounts (codes "ductile") 8 9 (codes "echo") (codes "sync") 1
      after_failure after_reset failure reopened fails refl resets reopens
