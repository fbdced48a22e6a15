-- ===== src/Admission/Foresight.antt =====
-- internal/state/admission.go over internal/queue/queue.go: what an admission says of the `Enqueue`
-- that follows.
use ductile.Common.{
  ℕ, ◌≤◌, Bool, true, false, [], ◌∷◌, Option, none, some, ◌≡◌, ◌≢◌, ◌⊎◌, refl, sym, ap, ◌∙◌, inl,
  inr, ltb, if◌then◌else◌, Bool-cases, arith,
}
use ductile.Common.Int.{ℤ, pos_part, is_pos}
use ductile.Common.Text.{Text, is_empty, trim_space}
use ductile.Queue.Db.{Db}
use ductile.Queue.Types.{Queue, EnqueueRequest, Job, ok}
use ductile.Queue.Enqueue.{
  DedupeStatus, fresh, outstanding, recent_success, recent_status, dedupe_status, key_status,
  find_outstanding, find_recent_succeeded, check_dedupe, check_key, check_outstanding, check_recent,
  request_ttl, drop_if,
}
use ductile.Common.Text.Trim.{trim_space_idem}
use ductile.Admission.{decide, admit_fresh, replay, AdmissionInput, Admitter, admit}

-- The admitter over the queue's own probe.
abbrev pub queue_admitter : Queue → ℕ → Db → ℕ → Admitter
queue_admitter q now db limit = record {
  probe = some (λ p c k. dedupe_status q p c k now db);
  max_bytes = limit;
}

key_status-fresh :
    (q : Queue) (plugin command key : Text) (now : ℕ) (db : Db)
    → key_status q plugin command key now db ≡ fresh
    → (find_outstanding plugin command key db ≡ none)
      × (is_pos q.dedupe_ttl ≡ true
          → find_recent_succeeded plugin command key (pos_part q.dedupe_ttl) now db ≡ none)
unfolding key_status
key_status-fresh q plugin command key now db h = go (find_outstanding plugin command key db) refl h
  where
    recent : (o : Option Job) → recent_status o ≡ fresh → o ≡ none
    recent none k = refl
    recent (some j) k = cc

    go :
        (o : Option Job)
        → find_outstanding plugin command key db ≡ o
        → (elim o [
          | some j ↦ outstanding j.id
          | none ↦
              if is_pos q.dedupe_ttl
              then recent_status
                  (find_recent_succeeded plugin command key (pos_part q.dedupe_ttl) now db)
              else fresh
        ])
          ≡ fresh
        → (find_outstanding plugin command key db ≡ none)
          × (is_pos q.dedupe_ttl ≡ true
              → find_recent_succeeded plugin command key (pos_part q.dedupe_ttl) now db ≡ none)
    go (some j) e k = cc
    go none e k = (
      e,
      λ p.
          recent (find_recent_succeeded plugin command key (pos_part q.dedupe_ttl) now db)
            (rw p at k),
    )

not_blank : (s : Text) → s ≢ [] → is_empty s ≡ false
not_blank [] h = absurd (h refl)
not_blank (c ∷ s) h = refl

decided-fresh : (d : DedupeStatus) → decide d ≡ admit_fresh → d ≡ fresh
decided-fresh fresh h = refl
decided-fresh (outstanding id) h = cc
decided-fresh (recent_success id) h = cc

-- Where nothing is blank, the admitter asks the queue's probe, which asks with the same key.
admit-key_status :
    (q : Queue) (now : ℕ) (db : Db) (limit : ℕ) (i : AdmissionInput)
    → trim_space i.dedupe_key ≢ []
    → trim_space i.plugin ≢ []
    → trim_space i.command ≢ []
    → i.json_bytes ≤ limit
    → admit (some (queue_admitter q now db limit)) i
      ≡ decide (key_status q i.plugin i.command (trim_space i.dedupe_key) now db)
unfolding admit dedupe_status
admit-key_status q now db limit i k p c small = rw (
  under limit i.json_bytes small,
  not_blank (trim_space i.dedupe_key) k,
  not_blank (trim_space i.plugin) p,
  not_blank (trim_space i.command) c,
  trim_space_idem i.dedupe_key,
  not_blank (trim_space i.dedupe_key) k,
)
  where
    under : (a b : ℕ) → b ≤ a → ltb a b ≡ false
    under a b h = ground arith

passing :
    (q : Queue) (ttl : Option ℤ) (plugin command key : Text) (now : ℕ) (db : Db)
    → (ttl ≡ none) ⊎ (ttl ≡ some q.dedupe_ttl)
    → key_status q plugin command key now db ≡ fresh
    → (check_outstanding ttl plugin command key db ≡ ok tt)
      × (check_recent (request_ttl q ttl) plugin command key now db ≡ ok tt)
unfolding check_outstanding check_recent
passing q ttl plugin command key now db own h =
    let (o, r) = key_status-fresh q plugin command key now db h in
    elim own [ inl e ↦ rw e (refl, recent r) | inr e ↦ rw (e, o) (refl, recent r) ]
  where
    recent :
        (is_pos q.dedupe_ttl ≡ true
          → find_recent_succeeded plugin command key (pos_part q.dedupe_ttl) now db ≡ none)
        → (if is_pos q.dedupe_ttl
            then drop_if key
                (find_recent_succeeded plugin command key (pos_part q.dedupe_ttl) now db)
            else ok tt)
          ≡ ok tt
    recent r = elim (Bool-cases (is_pos q.dedupe_ttl)) [ inl t ↦ rw (t, r t) | inr f ↦ rw f ]

passing-key :
    (q : Queue) (req : EnqueueRequest) (key : Text) (now : ℕ) (db : Db)
    → (check_outstanding req.dedupe_ttl req.plugin req.command key db ≡ ok tt)
      × (check_recent (request_ttl q req.dedupe_ttl) req.plugin req.command key now db ≡ ok tt)
    → check_key q req key now db ≡ ok tt
unfolding check_key
passing-key q req [] now db h = refl
passing-key q req (c ∷ s) now db h = rw (h.0, h.1)

-- The request is the one that the admission was asked for.
pub record SameIdentity (q : Queue) (i : AdmissionInput) (req : EnqueueRequest) : Type 0 where
  pub plugin : req.plugin ≡ i.plugin
  pub command : req.command ≡ i.command
  pub dedupe_key : req.dedupe_key ≡ some i.dedupe_key
  pub ttl : (req.dedupe_ttl ≡ none) ⊎ (req.dedupe_ttl ≡ some q.dedupe_ttl)

-- The names of the identity are not blank, and the baggage is under the cap.
pub record IsProper (limit : ℕ) (i : AdmissionInput) : Type 0 where
  pub dedupe_key : trim_space i.dedupe_key ≢ []
  pub plugin : trim_space i.plugin ≢ []
  pub command : trim_space i.command ≢ []
  pub size : i.json_bytes ≤ limit

-- A fresh admission is kept by the queue: for a request of the same plugin, command and key, none of
-- them blank, under the cap, with the queue's own TTL or none of its own, `Enqueue` in the same state
-- finds no duplicate.
pub admit_fresh-not_dropped :
    (q : Queue) (now : ℕ) (db : Db) (limit : ℕ) (i : AdmissionInput) (req : EnqueueRequest)
    → IsProper limit i
    → SameIdentity q i req
    → admit (some (queue_admitter q now db limit)) i ≡ admit_fresh
    → check_dedupe q req req.dedupe_key now db ≡ ok tt
unfolding check_dedupe
admit_fresh-not_dropped q now db limit i req p s h =
    let d =
      decided-fresh (key_status q i.plugin i.command (trim_space i.dedupe_key) now db)
        (sym (admit-key_status q now db limit i p.dedupe_key p.plugin p.command p.size) ∙ h) in
    rw s.dedupe_key (
      passing-key q req (trim_space i.dedupe_key) now db (
        rw (s.plugin, s.command)
          (passing q req.dedupe_ttl i.plugin i.command (trim_space i.dedupe_key) now db s.ttl d)))

key_status-outstanding :
    (q : Queue) (plugin command key : Text) (now : ℕ) (db : Db) (j : Job)
    → find_outstanding plugin command key db ≡ some j
    → key_status q plugin command key now db ≡ outstanding j.id
unfolding key_status
key_status-outstanding q plugin command key now db j o = rw (o, key_status)

-- A replay need not be dropped: where a job of the same plugin, command and key is queued or running,
-- and none succeeded within the TTL, the admission is a replay of that job, and `Enqueue` for a
-- request without a TTL of its own finds no duplicate.
pub replay-not_dropped :
    (q : Queue) (now : ℕ) (db : Db) (limit : ℕ) (i : AdmissionInput) (req : EnqueueRequest)
    (j : Job)
    → IsProper limit i
    → SameIdentity q i req
    → req.dedupe_ttl ≡ none
    → find_outstanding i.plugin i.command (trim_space i.dedupe_key) db ≡ some j
    → find_recent_succeeded i.plugin i.command
        (trim_space i.dedupe_key)
        (pos_part q.dedupe_ttl)
        now
        db
      ≡ none
    → (admit (some (queue_admitter q now db limit)) i ≡ replay j.id)
      × (check_dedupe q req req.dedupe_key now db ≡ ok tt)
unfolding check_dedupe check_outstanding check_recent
replay-not_dropped q now db limit i req j p s t o r = (
  admit-key_status q now db limit i p.dedupe_key p.plugin p.command p.size
      ∙ ap decide
          (key_status-outstanding q i.plugin i.command (trim_space i.dedupe_key) now db j o),
  rw s.dedupe_key (
      passing-key q req (trim_space i.dedupe_key) now db
        (rw (s.plugin, s.command, t) (refl, rw r (either (is_pos q.dedupe_ttl))))),
)
  where
    either : (b : Bool) → (if b then ok tt else ok tt) ≡ ok tt
    either true = refl
    either false = refl
