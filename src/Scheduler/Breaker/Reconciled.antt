-- ===== src/Scheduler/Breaker/Reconciled.antt =====
-- `reconcileCircuitBreaker` of internal/scheduler/scheduler.go over the queue: the breaker that it
-- leaves in the database.
use ductile.Common.{
  ℕ, Bool, true, false, List, [], ◌∷◌, ◌++◌, Option, none, some, ◌≡◌, refl, sym, ap, ◌∙◌, inl, inr,
  Bool-cases, arith, first,
}
use ductile.Common.Text.{Text, text_eq→eq, is_empty}
use ductile.Queue.Types.{
  CircuitBreaker, CircuitState, CommandResult, Result, ok, err, refuse, plugin_empty, command_empty,
  ◌>>=◌, ◌>>◌,
}
use ductile.Queue.Db.{Db}
use ductile.Queue.Breaker.{
  has_breaker, find_breaker, stored_job_id, initial_breaker, get_circuit_breaker,
  upsert_circuit_breaker, latest_completed_command_result, record_circuit_breaker_transition,
}
use ductile.Queue.Breaker.Stored.{stamped, get_circuit_breaker-upsert}
use ductile.Queue.Rows.{first-some}
use ductile.Queue.Outcomes.{bind-ok}
use ductile.Scheduler.Breaker.{
  transition_reason, count_result, after_failure, is_counted, next_breaker, current_circuit_breaker,
  note_state_change, reconcile_latest, reconcile_circuit_breaker, state_eq,
}

-- The two breakers agree but for the time of their last write.
abbrev pub SameBreaker : CircuitBreaker → CircuitBreaker → Type 0
SameBreaker a b = stamped 0 a ≡ stamped 0 b

-- The database with the change of state noted.
abbrev noted : ℕ → Text → Text → CircuitState → CommandResult → CircuitBreaker → Db → Db
noted now plugin command previous l cb db = record db {
  circuit_breaker_transitions =
      db.circuit_breaker_transitions
      ++ record {
        plugin = plugin;
        command = command;
        from_state = some previous;
        to_state = cb.state;
        failure_count = cb.failure_count;
        reason = transition_reason cb.state;
        job_id = stored_job_id (some l.job_id);
        created_at = now;
      }
        ∷ [];
}

note_state_change-breakers :
    (now : ℕ) (plugin command : Text) (previous : CircuitState) (l : CommandResult)
    (cb : CircuitBreaker) (db db' : Db)
    → note_state_change now plugin command previous l cb db ≡ ok db'
    → db'.circuit_breakers ≡ db.circuit_breakers
unfolding note_state_change record_circuit_breaker_transition
note_state_change-breakers now plugin command previous l cb db db' h =
    elim (Bool-cases (state_eq cb.state previous)) [
      | inl t ↦ ap breakers (sym (rw t at h))
      | inr f ↦ go (is_empty plugin) (is_empty command) (rw f at h)
    ]
  where
    breakers : Result Db → List CircuitBreaker
    breakers m = elim m [ ok d ↦ d.circuit_breakers | err e ↦ [] ]

    go :
        (x y : Bool)
        → (refuse x plugin_empty
            >> (refuse y command_empty >> ok (noted now plugin command previous l cb db)))
          ≡ ok db'
        → db'.circuit_breakers ≡ db.circuit_breakers
    go true y k = cc
    go false true k = cc
    go false false k = ap breakers (sym k)

current-names :
    (plugin command : Text) (db : Db) (cb : CircuitBreaker)
    → current_circuit_breaker plugin command db ≡ ok cb
    → (cb.plugin ≡ plugin) × (cb.command ≡ command)
unfolding current_circuit_breaker get_circuit_breaker
current-names plugin command db cb h =
    go (is_empty plugin) (is_empty command) (find_breaker plugin command db) refl h
  where
    breaker : Result CircuitBreaker → CircuitBreaker
    breaker m = elim m [ ok b ↦ b | err e ↦ cb ]

    go :
        (x y : Bool) (o : Option CircuitBreaker)
        → find_breaker plugin command db ≡ o
        → ((refuse x plugin_empty >> (refuse y command_empty >> ok o)) >>= λ found.
            ok (elim found [ none ↦ initial_breaker plugin command | some b ↦ b ]))
          ≡ ok cb
        → (cb.plugin ≡ plugin) × (cb.command ≡ command)
    go true y o e k = cc
    go false true o e k = cc
    go false false none e k =
        let i : cb ≡ initial_breaker plugin command = ap breaker (sym k) in
        (ap (λ (b : CircuitBreaker). b.plugin) i, ap (λ (b : CircuitBreaker). b.command) i)
    go false false (some b) e k =
        let i : cb ≡ b = ap breaker (sym k) in
        let (m, t) = first-some (has_breaker plugin command) db.circuit_breakers b e in
        (
          ap (λ (c : CircuitBreaker). c.plugin) i ∙ text_eq→eq b.plugin plugin (ground arith),
          ap (λ (c : CircuitBreaker). c.command) i ∙ text_eq→eq b.command command (ground arith),
        )

count_result-names :
    (threshold : ℕ) (l : CommandResult) (cb : CircuitBreaker)
    → ((count_result threshold l cb).plugin ≡ cb.plugin)
      × ((count_result threshold l cb).command ≡ cb.command)
unfolding count_result after_failure
count_result-names threshold l cb = (ground arith, ground arith)

pub get-same :
    (plugin command : Text) (db db' : Db)
    → db'.circuit_breakers ≡ db.circuit_breakers
    → get_circuit_breaker plugin command db' ≡ get_circuit_breaker plugin command db
unfolding get_circuit_breaker
get-same plugin command db db' e =
    ap
      (λ (bs : List CircuitBreaker).
        refuse (is_empty plugin) plugin_empty
        >> (refuse (is_empty command) command_empty >> ok (first (has_breaker plugin command) bs)))
      e

pub found-current :
    (plugin command : Text) (db : Db) (b : CircuitBreaker)
    → get_circuit_breaker plugin command db ≡ ok (some b)
    → current_circuit_breaker plugin command db ≡ ok b
unfolding current_circuit_breaker
found-current plugin command db b e = rw e refl

reconcile_latest-current :
    (now : ℕ) (plugin command : Text) (threshold : ℕ) (l : CommandResult) (cb : CircuitBreaker)
    (db db' : Db)
    → current_circuit_breaker plugin command db ≡ ok cb
    → reconcile_latest now plugin command threshold l cb db ≡ ok db'
    → (b : CircuitBreaker) × (current_circuit_breaker plugin command db' ≡ ok b)
      × SameBreaker b (next_breaker threshold l cb)
unfolding reconcile_latest next_breaker
reconcile_latest-current now plugin command threshold l cb db db' e h =
    elim (Bool-cases (is_counted l cb.last_job_id)) [
      | inl t ↦
          let i : db' ≡ db = ap database (sym (rw t at h)) in
          (cb, ap (current_circuit_breaker plugin command) i ∙ e, rw t refl)
      | inr f ↦
          let counted = count_result threshold l cb in
          let (db1, u, n) =
            bind-ok (upsert_circuit_breaker now counted db)
              (note_state_change now plugin command cb.state l counted) (rw f at h) in
          let names = current-names plugin command db cb e in
          let names' = count_result-names threshold l cb in
          let p : counted.plugin ≡ plugin = names'.0 ∙ names.0 in
          let c : counted.command ≡ command = names'.1 ∙ names.1 in
          let read = (get_circuit_breaker-upsert now counted db db1 u).0 in
          let same =
            get-same plugin command db1 db'
              (note_state_change-breakers now plugin command cb.state l counted db1 db' n) in
          (
            stamped now counted,
            found-current plugin command db' (stamped now counted) (
                same
                ∙ (ap (λ (x : Text). get_circuit_breaker x command db1) (sym p)
                    ∙ (ap (λ (y : Text). get_circuit_breaker counted.plugin y db1) (sym c)
                        ∙ read))),
            rw f refl,
          )
    ]
  where
    database : Result Db → Db
    database m = elim m [ ok d ↦ d | err e' ↦ db ]

-- A reconciliation that succeeds leaves in the database, but for the time of the write, the breaker
-- that the latest completed result of the target leads to from the breaker before, and returns that
-- result.
pub reconcile_circuit_breaker_lem :
    (service : Text) (now : ℕ) (plugin command : Text) (threshold : ℕ) (db : Db)
    (cb : CircuitBreaker) (l : CommandResult) (r : Option CommandResult × Db)
    → current_circuit_breaker plugin command db ≡ ok cb
    → latest_completed_command_result plugin command service db ≡ ok (some l)
    → reconcile_circuit_breaker service now plugin command threshold db ≡ ok r
    → (r.0 ≡ some l)
      × ((b : CircuitBreaker) × (current_circuit_breaker plugin command r.1 ≡ ok b)
          × SameBreaker b (next_breaker threshold l cb))
unfolding reconcile_circuit_breaker
reconcile_circuit_breaker_lem service now plugin command threshold db cb l r e f h =
    let (db', m, k) =
      bind-ok (reconcile_latest now plugin command threshold l cb db) (λ d. ok (some l, d))
        (rw (e, f) at h) in
    let i : r ≡ (some l, db') = ap answer (sym k) in
    let (b, c, s) = reconcile_latest-current now plugin command threshold l cb db db' e m in
    (
      ap (λ (x : Option CommandResult × Db). x.0) i,
      (
        b,
        ap (λ (x : Option CommandResult × Db). current_circuit_breaker plugin command x.1) i ∙ c,
        s,
      ),
    )
  where
    answer : Result (Option CommandResult × Db) → Option CommandResult × Db
    answer m = elim m [ ok x ↦ x | err e' ↦ r ]
