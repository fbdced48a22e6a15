-- ===== src/Examples/Dedupe.antt =====
-- Runs of the theorems on deduplication and admission.
use ductile.Common.{
  ◌-◌, ◌+◌, ◌<◌, ◌∷◌, ◌++◌, false, [], none, some, ◌≡◌, ◌≢◌, inl, inr, refl, arith,
}
use ductile.Common.Int.{pos}
use ductile.Common.Text.{Text, codes, text_eq, trim_space}
use ductile.Queue.Types.{Job, EnqueueRequest, Result, ok, err, is_outstanding, day}
use ductile.Queue.Stamp.{stamp_le, second}
use ductile.Queue.Db.{Db}
use ductile.Queue.Enqueue.{
  enqueue, find_outstanding, find_recent_succeeded, is_outstanding_target, is_recent_success,
  check_dedupe, fresh, new_job, request_ttl,
}
use ductile.Queue.Dedupe.{Holds, HasKey, enqueue-no_outstanding, enqueue-no_recent}
use ductile.Admission.{AdmissionInput, admit, admit_fresh, replay}
use ductile.Admission.Foresight.{
  IsProper, SameIdentity, queue_admitter, admit_fresh-not_dropped, replay-not_dropped,
}
use ductile.Examples.Data.{ended, settings, waiting, db, request}

-- A request under the key of the job that ended, long after it did.
abbrev own : EnqueueRequest
own = request (codes "sync") (codes " done ") (some (pos second))

abbrev plain : EnqueueRequest
plain = request (codes "poll") (codes "key") none

abbrev result : {A : Type 0} → A → Result A → A
result a (ok b) = b
result a (err e) = a

unfoldable accepted : Text × Db
unfolding enqueue
accepted = result (codes "", db) (enqueue settings (codes "d") day own db)

is_accepted : enqueue settings (codes "d") day own db ≡ ok accepted
unfolding enqueue accepted trim_space find_outstanding ductile.Queue.Db.latest text_eq
    find_recent_succeeded stamp_le
is_accepted = refl

done_key : HasKey own (codes "done")
unfolding trim_space
done_key = record { given = codes " done "; dedupe_key = refl; trimmed = refl; not_blank = filled }
  where
    filled : codes "done" ≢ []
    filled e = cc

ended-Holds : Holds (codes "echo") (codes "sync") (codes "done") ended
ended-Holds = record { plugin = refl; command = refl; dedupe_key = refl }

enqueue-no_outstanding_example : is_outstanding ended.status ≡ false
enqueue-no_outstanding_example =
    enqueue-no_outstanding settings (codes "d") day own db (codes "done") (pos second) accepted
      done_key refl is_accepted ended (inr (inr (inl refl))) ended-Holds

enqueue-no_recent_example : 2 < day - second + second
enqueue-no_recent_example =
    enqueue-no_recent settings (codes "d") day own db (codes "done") accepted done_key refl
      is_accepted ended 2 (inr (inr (inl refl))) ended-Holds refl refl

-- The row of such a request, behind those of the table.
abbrev blank_row : Job
blank_row = new_job settings (codes "d") 7 own

abbrev with_blank : Db
with_blank = record db { job_queue = db.job_queue ++ blank_row ∷ [] }

abbrev input : Text → AdmissionInput
input key = record {
  dedupe_key = key;
  plugin = codes "echo";
  command = codes "poll";
  json_bytes = 10;
}

proper : (key : Text) → trim_space key ≢ [] → IsProper 100 (input key)
unfolding trim_space
proper key h = record {
  dedupe_key = h;
  plugin = filled_plugin;
  command = filled_command;
  size = omega arith;
}
  where
    filled_plugin : codes "echo" ≢ []
    filled_plugin e = cc

    filled_command : codes "poll" ≢ []
    filled_command e = cc

new_filled : trim_space (codes " new ") ≢ []
unfolding trim_space
new_filled e = cc

key_filled : trim_space (codes "key") ≢ []
unfolding trim_space
key_filled e = cc

same : (key : Text) → SameIdentity settings (input key) (request (codes "poll") key none)
same key = record { plugin = refl; command = refl; dedupe_key = refl; ttl = inl refl }

is_fresh : admit (some (queue_admitter settings 9 db 100)) (input (codes " new ")) ≡ admit_fresh
unfolding admit trim_space ductile.Queue.Enqueue.dedupe_status find_outstanding
    ductile.Queue.Db.latest text_eq find_recent_succeeded
is_fresh = refl

admit_fresh-not_dropped_example :
    check_dedupe settings (request (codes "poll") (codes " new ") none) (some (codes " new ")) 9 db
    ≡ ok tt
admit_fresh-not_dropped_example =
    admit_fresh-not_dropped settings 9 db 100 (input (codes " new "))
      (request (codes "poll") (codes " new ") none) (proper (codes " new ") new_filled)
      (same (codes " new ")) is_fresh

waits : find_outstanding (codes "echo") (codes "poll") (trim_space (codes "key")) db ≡ some waiting
unfolding find_outstanding ductile.Queue.Db.latest text_eq trim_space
waits = refl

none_recent :
    find_recent_succeeded (codes "echo") (codes "poll") (trim_space (codes "key")) day 9 db ≡ none
unfolding find_recent_succeeded ductile.Queue.Db.latest text_eq trim_space
none_recent = refl

replay-not_dropped_example :
    (admit (some (queue_admitter settings 9 db 100)) (input (codes "key")) ≡ replay (codes "a"))
    × (check_dedupe settings plain (some (codes "key")) 9 db ≡ ok tt)
replay-not_dropped_example =
    replay-not_dropped settings 9 db 100 (input (codes "key")) plain waiting
      (proper (codes "key") key_filled) (same (codes "key")) refl waits none_recent
