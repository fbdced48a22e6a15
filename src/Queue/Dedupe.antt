-- ===== src/Queue/Dedupe.antt =====
-- Deduplication in internal/queue/queue.go: what `Enqueue` refuses, and how `DedupeStatus` and
-- state.Admitter foresee it.
pub mod Untrimmed
use ductile.Common.{
  ℕ, ◌+◌, ◌<◌, ◌-◌, true, false, [], ◌∷◌, Option, none, some, ◌≡◌, ◌≢◌, refl, sym, subst, inl, inr,
  Bool-cases, arith, In,
}
use ductile.Common.Int.{ℤ, pos_part, is_pos}
use ductile.Common.Text.{Text, text_eq, text_eq_refl, text_eq→eq, trim_space}
use ductile.Queue.Rows.{latest-keep-none}
use ductile.Queue.Stamp.{stamp_le, second, stamp_not_le→lt}
use ductile.Queue.Db.{Db, has_target}
use ductile.Queue.Types.{succeeded, is_outstanding, Job, EnqueueRequest, Queue, ok}
use ductile.Queue.Enqueue.{
  completion, is_recent_success, find_recent_succeeded, is_outstanding_target, find_outstanding,
  request_ttl, check_outstanding, check_recent, check_key, check_dedupe, drop_if, new_job, enqueue,
}
use ductile.Queue.Outcomes.{seq-ok, enqueue-ok}

-- The job holds the key for the target.
pub record Holds (pl c k : Text) (j : Job) : Type 0 where
  pub plugin : j.plugin ≡ pl
  pub command : j.command ≡ c
  pub dedupe_key : j.dedupe_key ≡ some k

Holds-has_target :
    (plugin command key : Text) (j : Job)
    → Holds plugin command key j
    → has_target plugin command key j ≡ true
Holds-has_target plugin command key j h =
    rw (
      h.dedupe_key,
      h.plugin,
      h.command,
      text_eq_refl key,
      text_eq_refl plugin,
      text_eq_refl command,
    )

drop_if-ok : (key : Text) (o : Option Job) → drop_if key o ≡ ok tt → o ≡ none
drop_if-ok key none h = refl
drop_if-ok key (some j) h = cc

find_outstanding-none :
    (plugin command key : Text) (db : Db)
    → find_outstanding plugin command key db ≡ none
    → (j : Job) → In j db.job_queue
    → Holds plugin command key j
    → is_outstanding j.status ≡ false
unfolding find_outstanding is_outstanding_target
find_outstanding-none plugin command key db h j m k =
    let miss =
      latest-keep-none (λ i. i.created_at) (is_outstanding_target plugin command key) db.job_queue h
        j m in
    let t = Holds-has_target plugin command key j k in ground arith

find_recent-none :
    (plugin command key : Text) (ttl now : ℕ) (db : Db)
    → find_recent_succeeded plugin command key ttl now db ≡ none
    → (j : Job) (t : ℕ) → In j db.job_queue
    → Holds plugin command key j
    → j.status ≡ succeeded
    → j.completed_at ≡ some t
    → stamp_le (now - ttl) t ≡ false
unfolding find_recent_succeeded is_recent_success
find_recent-none plugin command key ttl now db h j t m k s c =
    let miss =
      latest-keep-none completion (is_recent_success plugin command key (now - ttl)) db.job_queue h
        j m in
    let u = Holds-has_target plugin command key j k in ground arith

-- The two blocks of `Enqueue` that look for a duplicate, after they pass.
check_key-ok :
    (q : Queue) (req : EnqueueRequest) (key : Text) (now : ℕ) (db : Db)
    → key ≢ []
    → check_key q req key now db ≡ ok tt
    → (check_outstanding req.dedupe_ttl req.plugin req.command key db ≡ ok tt)
      × (check_recent (request_ttl q req.dedupe_ttl) req.plugin req.command key now db ≡ ok tt)
unfolding check_key
check_key-ok q req [] now db ne h = absurd (ne refl)
check_key-ok q req (c ∷ s) now db ne h =
    seq-ok (check_outstanding req.dedupe_ttl req.plugin req.command (c ∷ s) db)
      (check_recent (request_ttl q req.dedupe_ttl) req.plugin req.command (c ∷ s) now db) h

check_dedupe-ok :
    (q : Queue) (req : EnqueueRequest) (o : Option Text) (key : Text) (now : ℕ) (db : Db)
    → o ≡ some key
    → check_dedupe q req o now db ≡ ok tt
    → check_key q req (trim_space key) now db ≡ ok tt
unfolding check_dedupe
check_dedupe-ok q req none key now db e h = cc
check_dedupe-ok q req (some k) key now db e h =
    let i : k ≡ key = ground arith in subst (λ b. check_key q req (trim_space b) now db ≡ ok tt) i h

check_outstanding-ok :
    (o : Option ℤ) (ttl : ℤ) (plugin command key : Text) (db : Db)
    → o ≡ some ttl
    → check_outstanding o plugin command key db ≡ ok tt
    → find_outstanding plugin command key db ≡ none
unfolding check_outstanding
check_outstanding-ok none ttl plugin command key db e h = cc
check_outstanding-ok (some t) ttl plugin command key db e h =
    drop_if-ok key (find_outstanding plugin command key db) h

check_recent-ok :
    (ttl : ℤ) (plugin command key : Text) (now : ℕ) (db : Db)
    → is_pos ttl ≡ true
    → check_recent ttl plugin command key now db ≡ ok tt
    → find_recent_succeeded plugin command key (pos_part ttl) now db ≡ none
unfolding check_recent
check_recent-ok ttl plugin command key now db p h =
    drop_if-ok key (find_recent_succeeded plugin command key (pos_part ttl) now db) (rw p at h)

-- The request's key, as `Enqueue` looks it up.
pub record HasKey (req : EnqueueRequest) (key : Text) : Type 0 where
  pub given : Text
  pub dedupe_key : req.dedupe_key ≡ some given
  pub trimmed : trim_space given ≡ key
  pub not_blank : key ≢ []

passed :
    (q : Queue) (id : Text) (now : ℕ) (req : EnqueueRequest) (db : Db) (key : Text) (r : Text × Db)
    → HasKey req key
    → enqueue q id now req db ≡ ok r
    → (check_outstanding req.dedupe_ttl req.plugin req.command key db ≡ ok tt)
      × (check_recent (request_ttl q req.dedupe_ttl) req.plugin req.command key now db ≡ ok tt)
passed q id now req db key r k h = check_key-ok q req key now db k.not_blank (
    subst (λ b. check_key q req b now db ≡ ok tt) k.trimmed
      (check_dedupe-ok q req req.dedupe_key k.given now db k.dedupe_key
        (enqueue-ok q id now req db r h).0))

-- An accepted request with a key that is not blank, and that carries its own TTL met no queued or running job of its key and target.
pub enqueue-no_outstanding :
    (q : Queue) (id : Text) (now : ℕ) (req : EnqueueRequest) (db : Db) (key : Text) (ttl : ℤ)
    (r : Text × Db)
    → HasKey req key
    → req.dedupe_ttl ≡ some ttl
    → enqueue q id now req db ≡ ok r
    → (j : Job) → In j db.job_queue
    → Holds req.plugin req.command key j
    → is_outstanding j.status ≡ false
enqueue-no_outstanding q id now req db key ttl r k e h =
    find_outstanding-none req.plugin req.command key db (
      check_outstanding-ok req.dedupe_ttl ttl req.plugin req.command key db e
        (passed q id now req db key r k h).0)

-- An accepted request with a key that is not blank met, where the TTL in force is positive, no
-- success of its key and target that ended a second or more after the cutoff, which is the present
-- time less that TTL, and not before the epoch.
pub enqueue-no_recent :
    (q : Queue) (id : Text) (now : ℕ) (req : EnqueueRequest) (db : Db) (key : Text) (r : Text × Db)
    → HasKey req key
    → is_pos (request_ttl q req.dedupe_ttl) ≡ true
    → enqueue q id now req db ≡ ok r
    → (j : Job) (t : ℕ) → In j db.job_queue
    → Holds req.plugin req.command key j
    → j.status ≡ succeeded
    → j.completed_at ≡ some t
    → t < (now - pos_part (request_ttl q req.dedupe_ttl)) + second
enqueue-no_recent q id now req db key r k p h j t m o s c =
    let ttl = pos_part (request_ttl q req.dedupe_ttl) in
    stamp_not_le→lt (now - ttl) t (
      find_recent-none req.plugin req.command key ttl now db
        (check_recent-ok (request_ttl q req.dedupe_ttl) req.plugin req.command key now db p
          (passed q id now req db key r k h).1)
        j t m o s c)
