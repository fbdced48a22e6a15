-- ===== src/Scheduler/Gate/Competes.antt =====
-- The jobs that `outstandingForPolicy` of internal/scheduler/poll_view.go counts.
use ductile.Common.{
  ℕ, ◌+◌, ◌<◌, ◌≡◌, refl, sym, ap, ◌∙◌, ◌⊎◌, inl, inr, Bool, true, false, not, ◌&&◌, ◌||◌, List, [],
  ◌∷◌, arith, if◌then◌else◌, Bool-cases, count, In,
}
use ductile.Common.Text.{Text, codes, text_eq, text_eq→eq, text_eq_iff, trim_space}
use ductile.Queue.Rows.{zero-count}
use ductile.Queue.Db.{Db}
use ductile.Queue.Types.{Status, queued, running, is_outstanding, Job, ok}
use ductile.Queue.Cancellation.{is_target}
use ductile.Scheduler.Gate.{poll_command, is_outstanding_command, outstanding_for_policy}

-- The job competes with a new run of the command: it is queued or running, of the plugin and the
-- command, and if the command is `poll`, the service itself submitted it.
pub record Competes (service pl c : Text) (j : Job) : Type 0 where
  pub plugin : j.plugin ≡ pl
  pub command : j.command ≡ c
  pub outstanding : (j.status ≡ queued) ⊎ (j.status ≡ running)
  pub own : c ≡ codes "poll" → j.submitted_by ≡ trim_space service

-- The test of `Competes`.
pub competes : Text → Text → Text → Job → Bool
unfolding is_outstanding_command
competes service plugin command j =
    is_outstanding_command plugin command j
    && (not (text_eq command poll_command) || text_eq j.submitted_by (trim_space service))

pub competes-Competes :
    (service plugin command : Text) (j : Job)
    → competes service plugin command j ≡ true
    → Competes service plugin command j
unfolding competes
competes-Competes service plugin command j h = record {
  plugin = text_eq→eq j.plugin plugin (ground arith);
  command = text_eq→eq j.command command (ground arith);
  outstanding = status j.status (ground arith);
  own = own;
}
  where
    status : (s : Status) → is_outstanding s ≡ true → (s ≡ queued) ⊎ (s ≡ running)
    status s t = ground arith

    own : command ≡ codes "poll" → j.submitted_by ≡ trim_space service
    own e =
        let poll : text_eq command poll_command ≡ true = (text_eq_iff command poll_command).1 e in
        text_eq→eq j.submitted_by (trim_space service) (ground arith)

pub Competes-competes :
    (service plugin command : Text) (j : Job)
    → Competes service plugin command j
    → competes service plugin command j ≡ true
unfolding competes
Competes-competes service plugin command j c =
    let p = (text_eq_iff j.plugin plugin).1 c.plugin in
    let m = (text_eq_iff j.command command).1 c.command in
    let o : is_outstanding j.status ≡ true = status j.status c.outstanding in
    elim (Bool-cases (text_eq command poll_command)) [
      | inl t ↦
          let own =
            (text_eq_iff j.submitted_by (trim_space service)).1
              (c.own (text_eq→eq command poll_command t)) in
          rw (p, m, o, t, own) refl
      | inr f ↦ rw (p, m, o, f) refl
    ]
  where
    status : (s : Status) → (s ≡ queued) ⊎ (s ≡ running) → is_outstanding s ≡ true
    status s (inl e) = rw e refl
    status s (inr e) = rw e refl

pub Competes-is_target :
    (service plugin command : Text) (j : Job)
    → Competes service plugin command j
    → is_target plugin command j ≡ true
Competes-is_target service plugin command j c =
    let t = Competes-competes service plugin command j c in
    unfold competes is_outstanding_command in ground arith

-- No job of the table competes.
abbrev pub NoneCompetes : Text → Text → Text → Db → Type 0
NoneCompetes service plugin command db =
    (j : Job) → In j db.job_queue → ¬ Competes service plugin command j

pub count-found :
    (p : Job → Bool) (xs : List Job) → 0 < count p xs → (j : Job) × In j xs × (p j ≡ true)
count-found p [] h = absurd (omega (arith, h))
count-found p (x ∷ xs) h = elim (Bool-cases (p x)) [
  | inl t ↦ (x, inl refl, t)
  | inr f ↦ let (j, m, t) = count-found p xs (let k = rw f at h in omega arith) in (j, inr m, t)
]

count-same : (p q : Job → Bool) (xs : List Job) → ((j : Job) → p j ≡ q j) → count p xs ≡ count q xs
count-same p q [] h = refl
count-same p q (x ∷ xs) h =
    rw (h x) (ap (λ (n : ℕ). (if q x then 1 else 0) + n) (count-same p q xs h))

module _ (service plugin command : Text) (db : Db) where
  pub count-none :
      count (competes service plugin command) db.job_queue ≡ 0
      → NoneCompetes service plugin command db
  count-none z j m c = cc (
    zero-count (competes service plugin command) db.job_queue j z m,
    Competes-competes service plugin command j c,
  )

  all_submitters :
      text_eq command poll_command ≡ false
      → (j : Job) → is_outstanding_command plugin command j ≡ competes service plugin command j
  unfolding competes
  all_submitters f j = rw f (ground arith)

  own_polls :
      text_eq command poll_command ≡ true
      → (j : Job)
      → (is_outstanding_command plugin command j && text_eq j.submitted_by (trim_space service))
        ≡ competes service plugin command j
  unfolding competes
  own_polls t j = rw t refl

  -- What `outstandingForPolicy` counts.
  pub outstanding-count :
      (n : ℕ)
      → outstanding_for_policy service plugin command db ≡ ok n
      → n ≡ count (competes service plugin command) db.job_queue
  unfolding outstanding_for_policy
  outstanding-count n h = elim (Bool-cases (text_eq command poll_command)) [
    | inl t ↦
        let e : count
              (λ j.
                is_outstanding_command plugin command j
                && text_eq j.submitted_by (trim_space service))
              db.job_queue
            ≡ n =
          ground arith in
        sym e ∙ count-same _ _ db.job_queue (own_polls t)
    | inr f ↦
        let e : count (is_outstanding_command plugin command) db.job_queue ≡ n = ground arith in
        sym e ∙ count-same _ _ db.job_queue (all_submitters f)
  ]
