-- ===== src/Queue/Selection.antt =====
-- Which job `DequeueEligible` of internal/queue/queue.go claims, against a description of the jobs
-- that may start.
use ductile.Common.{
  ℕ, ◌+◌, ◌*◌, ◌≤◌, ◌<◌, true, false, not, List, [], ◌∷◌, Option, none, some, ◌≡◌, ◌≢◌, refl, sym,
  ap, ◌∙◌, subst, inl, inr, ◌==◌, Bool-cases, ==→eq, arith, keep, count, In, All-In,
}
use ductile.Common.Text.{Text, text_eq, text_eq_refl, text_eq→eq}
use ductile.Queue.Rows.{In-keep, keep-In, oldest-In, oldest-le, oldest-some, zero-count, count-zero}
use ductile.Queue.Stamp.{stamp_le, second, stamp_le→lt, stamp_le_of_second, fraction-first}
use ductile.Queue.Db.{Db}
use ductile.Queue.Types.{queued, running, column_eq, Job}
use ductile.Queue.Dequeue.{
  is_in, is_due, key_allowed, is_running_target, lane_free, is_eligible, next_job,
}

-- The job may start at `now`, beside the rows of the table.
pub record CanStart (skip active : List Text) (now : ℕ) (jobs : List Job) (c : Job) : Type 0 where
  pub is_queued : c.status ≡ queued
  pub due : (t : ℕ) → c.next_retry_at ≡ some t → stamp_le t now ≡ true
  pub plugin_free : ¬ In c.plugin skip
  pub key_free : (k : Text) → c.dedupe_key ≡ some k → ¬ In k active
  pub lane_idle :
      (k : Text) (r : Job)
      → c.dedupe_key ≡ some k
      → In r jobs
      → r.status ≡ running
      → r.plugin ≡ c.plugin
      → r.command ≡ c.command
      → r.dedupe_key ≢ some k

is_in-In : (xs : List Text) (k : Text) → is_in xs k ≡ true → In k xs
is_in-In [] k h = cc
is_in-In (x ∷ xs) k h = elim (Bool-cases (text_eq k x)) [
  | inl t ↦ inl (text_eq→eq k x t)
  | inr f ↦ inr (is_in-In xs k (rw f at h))
]

In-is_in : (xs : List Text) (k : Text) → In k xs → is_in xs k ≡ true
In-is_in [] k m = absurd m
In-is_in (x ∷ xs) k (inl e) = rw (e, text_eq_refl x)
In-is_in (x ∷ xs) k (inr m) = ground (arith, In-is_in xs k m)

not-is_in : (xs : List Text) (k : Text) → not (is_in xs k) ≡ true → ¬ In k xs
not-is_in xs k h m = cc (ap not (In-is_in xs k m), h)

not-In : (xs : List Text) (k : Text) → ¬ In k xs → not (is_in xs k) ≡ true
not-In xs k h = elim (Bool-cases (is_in xs k)) [
  | inl t ↦ absurd (h (is_in-In xs k t))
  | inr f ↦ ap not f
]

key_allowed-not_In :
    (active : List Text) (o : Option Text)
    → key_allowed active o ≡ true
    → (k : Text) → o ≡ some k
    → ¬ In k active
key_allowed-not_In active none h k e = cc
key_allowed-not_In active (some j) h k e =
    let i : j ≡ k = ground arith in
    not-is_in active k (subst (λ b. not (is_in active b) ≡ true) i h)

not_In-key_allowed :
    (active : List Text) (o : Option Text)
    → ((k : Text) → o ≡ some k → ¬ In k active)
    → key_allowed active o ≡ true
not_In-key_allowed active none h = refl
not_In-key_allowed active (some j) h = not-In active j (h j refl)

is_due-stamp :
    (now : ℕ) (o : Option ℕ) → is_due now o ≡ true → (t : ℕ) → o ≡ some t → stamp_le t now ≡ true
is_due-stamp now none h t e = cc
is_due-stamp now (some s) h t e =
    let i : s ≡ t = ground arith in subst (λ b. stamp_le b now ≡ true) i h

stamp-is_due :
    (now : ℕ) (o : Option ℕ) → ((t : ℕ) → o ≡ some t → stamp_le t now ≡ true) → is_due now o ≡ true
stamp-is_due now none h = refl
stamp-is_due now (some s) h = h s refl

running_target-fields :
    (pl c k : Text) (r : Job)
    → r.status ≡ running
    → r.plugin ≡ pl
    → r.command ≡ c
    → r.dedupe_key ≡ some k
    → is_running_target pl c k r ≡ true
unfolding is_running_target
running_target-fields pl c k r s p m d =
    rw (s, p, m, d, text_eq_refl k, text_eq_refl pl, text_eq_refl c)

running_target-inv :
    (pl c k : Text) (r : Job)
    → is_running_target pl c k r ≡ true
    → (r.status ≡ running) × (r.plugin ≡ pl) × (r.command ≡ c) × (r.dedupe_key ≡ some k)
unfolding is_running_target
running_target-inv pl c k r h = (
  ground arith,
  text_eq→eq r.plugin pl (ground arith),
  text_eq→eq r.command c (ground arith),
  column_key r.dedupe_key k (ground arith),
)
  where
    column_key : (o : Option Text) (k' : Text) → column_eq o k' ≡ true → o ≡ some k'
    column_key none k' u = cc
    column_key (some j) k' u = ap some (text_eq→eq j k' u)

lane_free-idle :
    (jobs : List Job) (c : Job)
    → lane_free jobs c ≡ true
    → (k : Text) (r : Job) → c.dedupe_key ≡ some k
    → In r jobs
    → r.status ≡ running
    → r.plugin ≡ c.plugin
    → r.command ≡ c.command
    → r.dedupe_key ≢ some k
unfolding lane_free
lane_free-idle jobs c h k r d m s p q e =
    let zero_running : count (is_running_target c.plugin c.command k) jobs ≡ 0 =
      ==→eq _ _ (rw d at h) in
    cc (
      zero-count (is_running_target c.plugin c.command k) jobs r zero_running m,
      running_target-fields c.plugin c.command k r s p q e,
    )

idle-lane_free :
    (jobs : List Job) (c : Job)
    → ((k : Text) (r : Job)
        → c.dedupe_key ≡ some k
        → In r jobs
        → r.status ≡ running
        → r.plugin ≡ c.plugin
        → r.command ≡ c.command
        → r.dedupe_key ≢ some k)
    → lane_free jobs c ≡ true
unfolding lane_free
idle-lane_free jobs c h = go c.dedupe_key refl
  where
    quiet :
        (k : Text)
        → c.dedupe_key ≡ some k
        → (r : Job) → In r jobs
        → is_running_target c.plugin c.command k r ≡ false
    quiet k d r m = elim (Bool-cases (is_running_target c.plugin c.command k r)) [
      | inl t ↦
          let (s, p, q, e) = running_target-inv c.plugin c.command k r t in
          absurd (h k r d m s p q e)
      | inr f ↦ f
    ]

    go :
        (o : Option Text)
        → c.dedupe_key ≡ o
        → (elim o [
          | none ↦ true
          | some k ↦ count (is_running_target c.plugin c.command k) jobs == 0
        ])
          ≡ true
    go none e = refl
    go (some k) e = rw (count-zero _ jobs (quiet k e))

-- The WHERE clause says the same as the description.
pub is_eligible-CanStart :
    (skip active : List Text) (now : ℕ) (jobs : List Job) (c : Job)
    → is_eligible skip active now jobs c ≡ true
    → CanStart skip active now jobs c
unfolding is_eligible
is_eligible-CanStart skip active now jobs c h = record {
  is_queued = ground arith;
  due = is_due-stamp now c.next_retry_at (ground arith);
  plugin_free = not-is_in skip c.plugin (ground arith);
  key_free = key_allowed-not_In active c.dedupe_key (ground arith);
  lane_idle = lane_free-idle jobs c (ground arith);
}

CanStart-is_eligible :
    (skip active : List Text) (now : ℕ) (jobs : List Job) (c : Job)
    → CanStart skip active now jobs c
    → is_eligible skip active now jobs c ≡ true
unfolding is_eligible
CanStart-is_eligible skip active now jobs c h = rw (
  h.is_queued,
  stamp-is_due now c.next_retry_at h.due,
  not-In skip c.plugin h.plugin_free,
  not_In-key_allowed active c.dedupe_key h.key_free,
  idle-lane_free jobs c h.lane_idle,
)

-- The claimed job may start, and no job that may start was created before it, by the stamps.
pub next_job_first :
    (skip active : List Text) (now : ℕ) (db : Db) (c : Job)
    → next_job skip active now db ≡ some c
    → In c db.job_queue
      × CanStart skip active now db.job_queue c
      × ((k : Job)
          → In k db.job_queue
          → CanStart skip active now db.job_queue k
          → stamp_le c.created_at k.created_at ≡ true)
unfolding next_job
next_job_first skip active now db c h =
    let p = is_eligible skip active now db.job_queue in
    let (m, t) = In-keep p db.job_queue c (oldest-In (keep p db.job_queue) c h) in
    (
      m,
      is_eligible-CanStart skip active now db.job_queue c t,
      λ k n s.
          All-In (λ i. stamp_le c.created_at i.created_at ≡ true) (keep p db.job_queue) k
            (oldest-le (keep p db.job_queue) c h)
            (keep-In p db.job_queue k n (CanStart-is_eligible skip active now db.job_queue k s)),
    )

-- If some row of the table may start, the claim finds a job.
pub next_job_complete :
    (skip active : List Text) (now : ℕ) (db : Db) (k : Job)
    → In k db.job_queue
    → CanStart skip active now db.job_queue k
    → next_job skip active now db ≢ none
unfolding next_job
next_job_complete skip active now db k m s =
    oldest-some (keep (is_eligible skip active now db.job_queue) db.job_queue) k
      (keep-In _ db.job_queue k m (CanStart-is_eligible skip active now db.job_queue k s))

abbrev retry_at : ℕ → Job → Job
retry_at t c = record c { next_retry_at = some t }

is_eligible-stamp :
    (skip active : List Text) (now at t : ℕ) (jobs : List Job) (c : Job)
    → CanStart skip active now jobs c
    → is_eligible skip active at jobs (retry_at t c) ≡ stamp_le t at
unfolding is_eligible
is_eligible-stamp skip active now at t jobs c h =
    let lane = idle-lane_free jobs (retry_at t c) h.lane_idle in
    rw
      (
        h.is_queued,
        not-In skip c.plugin h.plugin_free,
        not_In-key_allowed active c.dedupe_key h.key_free,
        lane,
      )
      (ground arith)

-- For a job that may start, with another retry time in its column: where it is eligible, that time
-- is less than a second ahead, and from a second after that time on it is eligible. Within one second
-- the order of the texts decides: at a whole second it is eligible although its retry time is a
-- fraction of a second later, and with its retry time at a whole second it is not eligible at any
-- later fraction of that second.
pub is_eligible-retry :
    (skip active : List Text) (now : ℕ) (jobs : List Job) (c : Job)
    → CanStart skip active now jobs c
    → ((at t : ℕ)
        → is_eligible skip active at jobs (record c { next_retry_at = some t }) ≡ true
        → t < at + second)
      × ((at t : ℕ)
          → t + second ≤ at
          → is_eligible skip active at jobs (record c { next_retry_at = some t }) ≡ true)
      × ((k f : ℕ)
          → 0 < f
          → f < second
          → (is_eligible skip active
                (k * second)
                jobs
                (record c { next_retry_at = some (k * second + f) })
              ≡ true)
            × (is_eligible skip active
                  (k * second + f)
                  jobs
                  (record c { next_retry_at = some (k * second) })
                ≡ false))
is_eligible-retry skip active now jobs c h =
    let stamp = λ (at t : ℕ). is_eligible-stamp skip active now at t jobs c h in
    (
      λ at t e. stamp_le→lt t at (sym (stamp at t) ∙ e),
      λ at t l. stamp at t ∙ stamp_le_of_second t at l,
      λ k f p l.
          let (early, late) = fraction-first k f p l in
          (stamp (k * second) (k * second + f) ∙ early, stamp (k * second + f) (k * second) ∙ late),
    )
