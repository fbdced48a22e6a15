-- ===== src/Queue/Safety/Lineage/Endings.antt =====
-- Cancellation and retention of internal/queue/queue.go: the transitions of the rows that they touch.
use ductile.Common.{
  ℕ, false, List, [], ◌∷◌, some, ◌≡◌, refl, ap, ◌∙◌, inl, inr, Bool-cases, keep, In,
}
use ductile.Common.Int.{ℤ, is_pos}
use ductile.Common.Text.{Text, text_eq, text_eq_refl}
use ductile.Queue.Rows.{All-update, All-keep, count_unique, keep-In, In-keep}
use ductile.Queue.Db.{Db, has_id, record_job_transition}
use ductile.Queue.Types.{dead, Job, ok}
use ductile.Queue.Finish.{
  complete_job, is_cancellable, note_cancelled, cancel_outstanding_jobs, cancel_reason,
}
use ductile.Queue.Prune.{prune_job_queue}
use ductile.Queue.Outcomes.{cancelled, cancel_outstanding_jobs-ok}
use ductile.Queue.Safety.Rows.{IdsUnique}
use ductile.Queue.Safety.Changes.{note_cancelled-job_queue}
use ductile.Queue.Safety.Lineage.{
  last_status, Matches, LineageMatches, last_status-snoc, last_status-record_self,
  last_status-record_other,
}

-- Transitions of a cancellation: each selected job ends dead, no other changes.
note_cancelled-other :
    (why : Text) (now : ℕ) (i : Text) (js : List Job) (db : Db)
    → ((j : Job) → In j js → text_eq i j.id ≡ false)
    → last_status i (note_cancelled why now js db).job_transitions
      ≡ last_status i db.job_transitions
unfolding note_cancelled
note_cancelled-other why now i [] db h = refl
note_cancelled-other why now i (j ∷ js) db h =
    note_cancelled-other why now i js
      (record_job_transition j.id (some j.status) dead (some why) now db) (λ k m. h k (inr m))
    ∙ last_status-record_other j.id i (some j.status) dead (some why) now db (h j (inl refl))

record-dead :
    (why : Text) (now : ℕ) (i : Text) (j : Job) (db : Db)
    → last_status i db.job_transitions ≡ some dead
    → last_status i
        (record_job_transition j.id (some j.status) dead (some why) now db).job_transitions
      ≡ some dead
unfolding record_job_transition
record-dead why now i j db h =
    last_status-snoc i db.job_transitions _
    ∙ elim (Bool-cases (text_eq j.id i)) [ inl t ↦ rw t refl | inr f ↦ rw f h ]

note_cancelled-dead :
    (why : Text) (now : ℕ) (i : Text) (js : List Job) (db : Db)
    → last_status i db.job_transitions ≡ some dead
    → last_status i (note_cancelled why now js db).job_transitions ≡ some dead
unfolding note_cancelled
note_cancelled-dead why now i [] db h = h
note_cancelled-dead why now i (j ∷ js) db h =
    note_cancelled-dead why now i js _ (record-dead why now i j db h)

note_cancelled-In :
    (why : Text) (now : ℕ) (j : Job) (js : List Job) (db : Db)
    → In j js
    → last_status j.id (note_cancelled why now js db).job_transitions ≡ some dead
unfolding note_cancelled
note_cancelled-In why now j [] db m = absurd m
note_cancelled-In why now j (k ∷ js) db (inl e) =
    note_cancelled-dead why now j.id js _
      (rw e (last_status-record_self k.id (some k.status) dead (some why) now db))
note_cancelled-In why now j (k ∷ js) db (inr m) = note_cancelled-In why now j js _ m

unselected :
    (plugin command : Text) (xs : List Job)
    → IdsUnique xs
    → (a : Job) → In a xs
    → is_cancellable plugin command a ≡ false
    → (j : Job) → In j (keep (is_cancellable plugin command) xs)
    → text_eq a.id j.id ≡ false
unselected plugin command xs ids a m miss j n = elim (Bool-cases (text_eq a.id j.id)) [
  | inl t ↦
      let (k, yes_j) = In-keep (is_cancellable plugin command) xs j n in
      let e : a ≡ j = count_unique (has_id j.id) xs a j (ids j.id) m k t (text_eq_refl j.id) in
      cc (miss, ap (is_cancellable plugin command) e, yes_j)
  | inr f ↦ f
]

cancelled-LineageMatches :
    (plugin command why : Text) (now : ℕ) (db : Db)
    → IdsUnique db.job_queue
    → LineageMatches db
    → LineageMatches (cancelled plugin command why now db)
unfolding cancelled complete_job
cancelled-LineageMatches plugin command why now db ids l =
    let p = is_cancellable plugin command in
    let selected = keep p db.job_queue in
    let noted = note_cancelled (cancel_reason why) now selected db in
    rw (note_cancelled-job_queue (cancel_reason why) now selected db) (
      All-update (Matches db.job_transitions) (Matches noted.job_transitions) p
        (complete_job dead now (some (cancel_reason why))) db.job_queue
        (λ a m old hit.
          note_cancelled-In (cancel_reason why) now a selected db (keep-In p db.job_queue a m hit))
        (λ a m old miss.
          note_cancelled-other (cancel_reason why) now a.id selected db
            (unselected plugin command db.job_queue ids a m miss)
          ∙ old)
        l)

pub cancel_outstanding_jobs-LineageMatches :
    (plugin command why : Text) (now : ℕ) (db : Db) (r : ℕ × Db)
    → IdsUnique db.job_queue
    → LineageMatches db
    → cancel_outstanding_jobs plugin command why now db ≡ ok r
    → LineageMatches r.1
cancel_outstanding_jobs-LineageMatches plugin command why now db r ids l h =
    rw (cancel_outstanding_jobs-ok plugin command why now db r h)
      (cancelled-LineageMatches plugin command why now db ids l)

pub prune_job_queue-LineageMatches :
    (retention : ℤ) (now : ℕ) (db : Db)
    → LineageMatches db
    → LineageMatches (prune_job_queue retention now db)
unfolding prune_job_queue
prune_job_queue-LineageMatches retention now db l = elim (Bool-cases (is_pos retention)) [
  | inl t ↦ rw t (All-keep _ _ db.job_queue l)
  | inr f ↦ rw f l
]
