-- ===== src/Admission.antt =====
-- internal/state/admission.go: the admission decision before a durable context is created, over the
-- dedupe probe that the queue implements.
pub mod Foresight
use ductile.Common.{ℕ, ◌||◌, Option, none, some, ltb, if◌then◌else◌}
use ductile.Common.Int.{ℤ, pos_part, is_pos}
use ductile.Common.Text.{Text, is_empty, trim_space}
use ductile.Queue.Enqueue.{DedupeStatus, fresh, outstanding, recent_success}

-- `AdmissionDecision` with the fields of `AdmissionResult` that go with each.
pub data Admission : Type 0 where
  admit_fresh : Admission
  replay : (existing_job_id : Text) → Admission
  reject_overlimit : (bytes_actual bytes_limit : ℕ) → Admission

-- `AdmissionInput`; of the JSON only the size is read.
pub record AdmissionInput : Type 0 where
  pub dedupe_key : Text
  pub plugin : Text
  pub command : Text
  pub json_bytes : ℕ

-- `Admitter`: the probe, if there is one, and the cap.
pub record Admitter : Type 0 where
  pub probe : Option (Text → Text → Text → DedupeStatus)
  pub max_bytes : ℕ

-- `NewAdmitter`, with `DefaultMaxContextBytes` given.
new_admitter : ℕ → Option (Text → Text → Text → DedupeStatus) → ℤ → Admitter
new_admitter default_max_bytes probe max_bytes = record {
  probe = probe;
  max_bytes = if is_pos max_bytes then pos_part max_bytes else default_max_bytes;
}

abbrev decide : DedupeStatus → Admission
decide fresh = admit_fresh
decide (outstanding id) = replay id
decide (recent_success id) = replay id

abbrev probe_decision : Option (Text → Text → Text → DedupeStatus) → AdmissionInput → Admission
probe_decision none i = admit_fresh
probe_decision (some p) i =
    if is_empty (trim_space i.dedupe_key)
      || (is_empty (trim_space i.plugin) || is_empty (trim_space i.command))
    then admit_fresh
    else decide (p i.plugin i.command (trim_space i.dedupe_key))

-- `Admit`; `none` is the nil receiver.
unfoldable pub admit : Option Admitter → AdmissionInput → Admission
admit none i = admit_fresh
admit (some a) i =
    if ltb a.max_bytes i.json_bytes
    then reject_overlimit i.json_bytes a.max_bytes
    else probe_decision a.probe i
