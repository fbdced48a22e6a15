-- ===== src/Scheduler/Gate/Open.antt =====
-- `canSchedule` of internal/scheduler/scheduler.go behind an open breaker.
use ductile.Common.{ℕ, ◌+◌, ◌<◌, ◌≡◌, refl, false, some, arith}
use ductile.Common.Int.{ℤ}
use ductile.Common.Text.{Text}
use ductile.Queue.Db.{Db}
use ductile.Queue.Types.{open_state, CircuitBreaker, ok}
use ductile.Scheduler.Breaker.{cooldown_elapsed, current_circuit_breaker}
use ductile.Scheduler.Gate.{can_schedule, circuit_open, gate}
use ductile.Scheduler.Breaker.{cooldown_elapsed}

-- While a breaker is open and its cooldown has not elapsed, no run is allowed, whatever the policy,
-- and the database is returned as it was.
can_schedule_open :
    (service : Text) (now : ℕ) (plugin command : Text) (reset_after : ℕ) (polls : ℤ)
    (if_running : Text) (db : Db) (cb : CircuitBreaker) (t : ℕ)
    → current_circuit_breaker plugin command db ≡ ok cb
    → cb.state ≡ open_state
    → cb.opened_at ≡ some t
    → now < t + reset_after
    → can_schedule service now plugin command reset_after polls if_running db ≡ gate circuit_open db
unfolding can_schedule
can_schedule_open service now plugin command reset_after polls if_running db cb t e s o h =
    rw (e, s, hot) refl
  where
    hot : cooldown_elapsed cb reset_after now ≡ false
    hot = unfold cooldown_elapsed in ground arith
