-- ===== src/Scheduler/Gate/Admits.antt =====
-- What holds where `canSchedule` of internal/scheduler/scheduler.go lets a job run, or does not.
use ductile.Common.{
  ℕ, ◌≤◌, ◌<◌, ◌≡◌, refl, sym, subst, ◌∙◌, ◌⊎◌, inl, inr, arith, ltb, leb, if◌then◌else◌,
  Bool-cases, count, In,
}
use ductile.Common.Int.{ℤ}
use ductile.Common.Text.{Text, codes, text_eq}
use ductile.Queue.Db.{Db}
use ductile.Queue.Types.{Job, Result, ok, err}
use ductile.Queue.Finish.{cancel_outstanding_jobs}
use ductile.Queue.Cancellation.{cancel_outstanding_jobs-none_left}
use ductile.Scheduler.Gate.{
  on_result, max_outstanding, cancel_reason_text, outstanding_for_policy, Verdict, allowed,
  already_running, outstanding_limit, Gate, gate, apply_policy,
}
use ductile.Scheduler.Gate.Competes.{
  Competes, competes, competes-Competes, Competes-is_target, NoneCompetes, count-found, count-none,
  outstanding-count,
}

-- A verdict after a queue call: the call succeeded, and its continuation gave the verdict.
on_result-gate :
    {A : Type 0} (m : Result A) (f : A → Gate) (v : Verdict) {db : Db}
    → on_result m f ≡ gate v db
    → (a : A) × (m ≡ ok a) × (f a ≡ gate v db)
on_result-gate (ok a) f v h = (a, refl, h)
on_result-gate (err e) f v h = cc

module _ (service : Text) (now : ℕ) (plugin command : Text) (polls : ℤ) (db db' : Db) where
  abbrev Counted : ℕ → Type 0
  Counted n = n ≡ count (competes service plugin command) db.job_queue

  -- The verdict of `skip` and of `queue`, on the count.
  policy_skip :
      (v : Verdict)
      → apply_policy service now plugin command polls (codes "skip") db ≡ gate v db'
      → (n : ℕ) × Counted n
        × ((if ltb 0 n then gate already_running db else gate allowed db) ≡ gate v db')
  unfolding apply_policy text_eq
  policy_skip v h =
      let (n, e, k) =
        on_result-gate (outstanding_for_policy service plugin command db)
          (λ n. if ltb 0 n then gate already_running db else gate allowed db) v h in
      (n, outstanding-count service plugin command db n e, k)

  policy_queue :
      (v : Verdict)
      → apply_policy service now plugin command polls (codes "queue") db ≡ gate v db'
      → (n : ℕ) × Counted n
        × ((if leb (max_outstanding polls) n then gate outstanding_limit db else gate allowed db)
            ≡ gate v db')
  unfolding apply_policy text_eq
  policy_queue v h =
      let (n, e, k) =
        on_result-gate (outstanding_for_policy service plugin command db)
          (λ n.
            if leb (max_outstanding polls) n then gate outstanding_limit db else gate allowed db)
          v h in
      (n, outstanding-count service plugin command db n e, k)

  -- The body of `cancel`, on the count.
  abbrev cancelling : ℕ → Gate
  cancelling n =
      if ltb 0 n
      then on_result (cancel_outstanding_jobs plugin command cancel_reason_text now db)
          (λ r. gate allowed r.1)
      else gate allowed db

  policy_cancel :
      (v : Verdict)
      → apply_policy service now plugin command polls (codes "cancel") db ≡ gate v db'
      → (n : ℕ) × Counted n × (cancelling n ≡ gate v db')
  unfolding apply_policy text_eq
  policy_cancel v h =
      let (n, e, k) =
        on_result-gate (outstanding_for_policy service plugin command db) cancelling v h in
      (n, outstanding-count service plugin command db n e, k)

  cancelling-allowed : (n : ℕ) (v : Verdict) → cancelling n ≡ gate v db' → v ≡ allowed
  cancelling-allowed n v h = elim (Bool-cases (ltb 0 n)) [
    | inl t ↦
        let (r, c, k) =
          on_result-gate (cancel_outstanding_jobs plugin command cancel_reason_text now db)
            (λ r. gate allowed r.1) v (rw t at h) in
        ground arith
    | inr f ↦ let k : gate allowed db ≡ gate v db' = rw f at h in ground arith
  ]

  cancelling-cases :
      (n : ℕ) (v : Verdict)
      → Counted n
      → cancelling n ≡ gate v db'
      → (NoneCompetes service plugin command db × (db' ≡ db))
        ⊎ (((j : Job) × In j db.job_queue × Competes service plugin command j)
            × ((m : ℕ) × (cancel_outstanding_jobs plugin command cancel_reason_text now db
                  ≡ ok (m, db'))))
  cancelling-cases n v e h = elim (Bool-cases (ltb 0 n)) [
    | inl t ↦
        let (r, ended, k) =
          on_result-gate (cancel_outstanding_jobs plugin command cancel_reason_text now db)
            (λ r. gate allowed r.1) v (rw t at h) in
        let i : r.1 ≡ db' = ground arith in
        let (j, m, c) = count-found (competes service plugin command) db.job_queue (ground arith) in
        inr (
          (j, m, competes-Competes service plugin command j c),
          (
            r.0,
            subst
                (λ (d : Db).
                  cancel_outstanding_jobs plugin command cancel_reason_text now db ≡ ok (r.0, d))
                i ended,
          ),
        )
    | inr f ↦
        let g : gate allowed db ≡ gate v db' = rw f at h in
        let z : n ≡ 0 = ground arith in
        inl (count-none service plugin command db (sym e ∙ z), ground arith)
  ]

  cancelling-none :
      (n : ℕ)
      → Counted n
      → cancelling n ≡ gate allowed db'
      → NoneCompetes service plugin command db'
  cancelling-none n e h = elim (Bool-cases (ltb 0 n)) [
    | inl t ↦ λ j m c.
        let (r, ended, k) =
          on_result-gate (cancel_outstanding_jobs plugin command cancel_reason_text now db)
            (λ r. gate allowed r.1) allowed (rw t at h) in
        let i : r.1 ≡ db' = ground arith in
        cc (
          cancel_outstanding_jobs-none_left plugin command cancel_reason_text now db r ended j
              (rw i m),
          Competes-is_target service plugin command j c,
        )
    | inr f ↦
        let z : n ≡ 0 = ground arith in
        let i : db ≡ db' = same_db (rw f at h) in
        subst (NoneCompetes service plugin command) i
          (count-none service plugin command db (sym e ∙ z))
  ]
    where
      same_db : gate allowed db ≡ gate allowed db' → db ≡ db'
      same_db k = ground arith

  policy_skip_verdict :
      (v : Verdict)
      → apply_policy service now plugin command polls (codes "skip") db ≡ gate v db'
      → (db' ≡ db)
        × (((v ≡ allowed) × NoneCompetes service plugin command db)
            ⊎ ((v ≡ already_running)
                × ((j : Job) × In j db.job_queue × Competes service plugin command j)))
  policy_skip_verdict v h =
      let (n, e, k) = policy_skip v h in
      elim (Bool-cases (ltb 0 n)) [
        | inl t ↦
            let g : gate already_running db ≡ gate v db' = rw t at k in
            let (j, m, c) =
              count-found (competes service plugin command) db.job_queue (ground arith) in
            (ground arith, inr (ground arith, (j, m, competes-Competes service plugin command j c)))
        | inr f ↦
            let g : gate allowed db ≡ gate v db' = rw f at k in
            let z : n ≡ 0 = ground arith in
            (ground arith, inl (ground arith, count-none service plugin command db (sym e ∙ z)))
      ]

  policy_queue_verdict :
      (v : Verdict)
      → apply_policy service now plugin command polls (codes "queue") db ≡ gate v db'
      → (db' ≡ db)
        × (((v ≡ allowed)
              × (count (competes service plugin command) db.job_queue < max_outstanding polls))
            ⊎ ((v ≡ outstanding_limit)
                × (max_outstanding polls ≤ count (competes service plugin command) db.job_queue)))
  policy_queue_verdict v h =
      let (n, e, k) = policy_queue v h in
      elim (Bool-cases (leb (max_outstanding polls) n)) [
        | inl t ↦
            let g : gate outstanding_limit db ≡ gate v db' = rw t at k in
            let l : max_outstanding polls ≤ n = ground arith in
            (ground arith, inr (ground arith, subst (λ m. max_outstanding polls ≤ m) e l))
        | inr f ↦
            let g : gate allowed db ≡ gate v db' = rw f at k in
            let l : n < max_outstanding polls = ground arith in
            (ground arith, inl (ground arith, subst (λ m. m < max_outstanding polls) e l))
      ]

-- What the verdict of an if_running policy says of the table, where the policy gives one. `skip` and
-- `queue` leave the database as it is: `skip` allows the run if no job competes with it, and
-- otherwise says that one is running, and one competes; `queue` allows it if fewer jobs compete than
-- the limit, and says that the limit is reached if they do not. `cancel` always allows it; it leaves
-- the database as it is if no job competes, and otherwise as `CancelOutstandingJobs` leaves it, and
-- no job competes afterwards. Only jobs that the service submitted compete with a poll.
pub apply_policy_bounds :
    (service : Text) (now : ℕ) (plugin command : Text) (polls : ℤ) (db db' : Db) (v : Verdict)
    → (apply_policy service now plugin command polls (codes "skip") db ≡ gate v db'
        → (db' ≡ db)
          × (((v ≡ allowed) × NoneCompetes service plugin command db)
              ⊎ ((v ≡ already_running)
                  × ((j : Job) × In j db.job_queue × Competes service plugin command j))))
      × (apply_policy service now plugin command polls (codes "queue") db ≡ gate v db'
          → (db' ≡ db)
            × (((v ≡ allowed)
                  × (count (competes service plugin command) db.job_queue < max_outstanding polls))
                ⊎ ((v ≡ outstanding_limit)
                    × (max_outstanding polls
                        ≤ count (competes service plugin command) db.job_queue))))
      × (apply_policy service now plugin command polls (codes "cancel") db ≡ gate v db'
          → (v ≡ allowed)
            × NoneCompetes service plugin command db'
            × ((NoneCompetes service plugin command db × (db' ≡ db))
                ⊎ (((j : Job) × In j db.job_queue × Competes service plugin command j)
                    × ((m : ℕ) × (cancel_outstanding_jobs plugin command cancel_reason_text now db
                          ≡ ok (m, db'))))))
apply_policy_bounds service now plugin command polls db db' v = (
  policy_skip_verdict service now plugin command polls db db' v,
  policy_queue_verdict service now plugin command polls db db' v,
  λ h.
      let (n, e, k) = policy_cancel service now plugin command polls db db' v h in
      let a = cancelling-allowed service now plugin command polls db db' n v k in
      (
        a,
        cancelling-none service now plugin command polls db db' n e
            (subst (λ w. cancelling service now plugin command polls db db' n ≡ gate w db') a k),
        cancelling-cases service now plugin command polls db db' n v e k,
      ),
)
