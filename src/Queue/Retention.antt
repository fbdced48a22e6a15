-- ===== src/Queue/Retention.antt =====
-- `PruneJobQueue` of internal/queue/queue.go.
use ductile.Common.{
  ℕ, ◌+◌, ◌-◌, ◌≤◌, ◌≡◌, ◌⊎◌, inl, inr, true, false, not, none, some, arith, Bool-cases, In,
}
use ductile.Common.Int.{ℤ, pos_part, is_pos}
use ductile.Queue.Rows.{In-keep, keep-In}
use ductile.Queue.Stamp.{second, stamp_le, stamp_le→lt, stamp_le_of_second}
use ductile.Queue.Db.{Db}
use ductile.Queue.Types.{is_outstanding, is_terminal, Job}
use ductile.Queue.Prune.{is_expired, prune_job_queue}

-- The retention of job_queue: with a positive retention a row stays if it is outstanding, if it has
-- no completion time, or if it ended less than the retention ago by a second's margin; a row that
-- ended longer ago than the retention and a second goes. No other row appears. The cutoff is not
-- before the epoch.
prune_job_queue_lem :
    (retention : ℤ) (now : ℕ) (db : Db) (j : Job)
    → is_pos retention ≡ true
    → pos_part retention ≤ now
    → (In j (prune_job_queue retention now db).job_queue → In j db.job_queue)
      × (In j db.job_queue
          → (is_outstanding j.status ≡ true)
            ⊎ ((j.completed_at ≡ none)
                ⊎ ((t : ℕ) × (j.completed_at ≡ some t) × (now + second ≤ t + pos_part retention)))
          → In j (prune_job_queue retention now db).job_queue)
      × ((t : ℕ)
          → is_terminal j.status ≡ true
          → j.completed_at ≡ some t
          → t + pos_part retention + second ≤ now
          → ¬ In j (prune_job_queue retention now db).job_queue)
unfolding prune_job_queue
prune_job_queue_lem retention now db j p since =
    let cutoff = now - pos_part retention in
    let stays = λ (k : Job). not (is_expired cutoff k) in
    rw p (
      (
        λ m. (In-keep stays db.job_queue j m).0,
        λ m c. keep-In stays db.job_queue j m (
            kept cutoff j (elim c [
              | inl o ↦ inl o
              | inr (inl n) ↦ inr (inl n)
              | inr (inr (t, e, l)) ↦ inr (inr (t, e, stamp_le_of_second cutoff t (omega arith)))
            ])),
        λ t u e l m. dropped cutoff j t u e (late t l) (In-keep stays db.job_queue j m).1,
      ))
  where
    kept :
        (cutoff : ℕ) (k : Job)
        → (is_outstanding k.status ≡ true)
          ⊎ ((k.completed_at ≡ none)
              ⊎ ((t : ℕ) × (k.completed_at ≡ some t) × (stamp_le cutoff t ≡ true)))
        → not (is_expired cutoff k) ≡ true
    kept cutoff k c = unfold is_expired in ground arith

    late :
        (t : ℕ)
        → t + pos_part retention + second ≤ now
        → stamp_le (now - pos_part retention) t ≡ false
    late t l = elim (Bool-cases (stamp_le (now - pos_part retention) t)) [
      | inl u ↦ absurd (omega (arith, stamp_le→lt (now - pos_part retention) t u))
      | inr f ↦ f
    ]

    dropped :
        (cutoff : ℕ) (k : Job) (t : ℕ)
        → is_terminal k.status ≡ true
        → k.completed_at ≡ some t
        → stamp_le cutoff t ≡ false
        → not (is_expired cutoff k) ≡ true
        → ⊥
    dropped cutoff k t u e l h = unfold is_expired in ground arith
