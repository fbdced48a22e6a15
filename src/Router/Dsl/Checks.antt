-- ===== src/Router/Dsl/Checks.antt =====
-- The checks on steps of internal/router/dsl/compiler.go. The entries of a map are read in their
-- order, where Go's order is random.
use ductile.Common.{
  ℕ, Bool, true, false, not, ◌&&◌, ◌||◌, Option, none, some, List, [], ◌∷◌, leb, ◌==◌,
  if◌then◌else◌,
}
use ductile.Common.Fallible.{Fallible, returned, ◌>>◌, raise_if}
use ductile.Common.Text.{Text, codes, text_eq, is_empty, trim_space, split}
use ductile.Router.Conditions.Eval.{has_prefix}
use ductile.Router.Conditions.Validate.{ValidationError, is_blank}
use ductile.Router.Dsl.Types.{StringMap, BaggageBulkSpec, BaggageSpec, RelaySpec}

-- The errors of a compilation.
pub data CompileError : Type 0 where
  name_required on_required on_exclusive steps_required hook_context negative_depth : CompileError
  has_cycle with_unsupported baggage_unsupported step_mode : CompileError
  segment_required empty_segment bad_segment expression_required from_required from_not_payload :
      CompileError
  relay_to_required relay_event_required relay_key_required relay_expression_required : CompileError
  duplicate_name duplicate_id unknown_from unknown_to : Text → CompileError
  bad_condition : ValidationError → CompileError
  in_step in_split in_pipeline : ℕ → CompileError → CompileError
  empty_node_set : ℕ → CompileError
  unknown_pipeline : Text → Text → CompileError
  call_cycle depth_cycle missing_pipeline : Text → CompileError
  missing_node : Text → Text → CompileError
  out_of_fuel : CompileError

is_name_char : Bool → ℕ → Bool
is_name_char at_start c =
    c == 95
    || ((leb 97 c && leb c 122)
        || ((leb 65 c && leb c 90) || (not at_start && (leb 48 c && leb c 57))))

name_chars : Bool → Text → Bool
name_chars at_start [] = true
name_chars at_start (c ∷ s) = is_name_char at_start c && name_chars false s

-- One round of the loop over the segments.
check_segment : Text → Fallible CompileError (Unit {0})
check_segment part = do
  raise_if (is_empty part) empty_segment
  raise_if (not (name_chars true part)) bad_segment

check_segments : List Text → Fallible CompileError (Unit {0})
check_segments [] = returned tt
check_segments (part ∷ parts) = do check_segment part; check_segments parts

-- `validateBaggagePath`
validate_baggage_path : Text → Fallible CompileError (Unit {0})
validate_baggage_path path = do
  raise_if (is_empty (trim_space path)) segment_required
  check_segments (split 46 (trim_space path))

-- `isPayloadPath`
is_payload_path : Text → Bool
is_payload_path expr =
    text_eq (trim_space expr) (codes "payload") || has_prefix (trim_space expr) (codes "payload.")

pub check_mappings : StringMap → Fallible CompileError (Unit {0})
check_mappings [] = returned tt
check_mappings ((path, expr) ∷ more) = do
  validate_baggage_path path
  raise_if (is_blank expr) expression_required
  check_mappings more

pub check_bulk : Option BaggageBulkSpec → Fallible CompileError (Unit {0})
check_bulk none = returned tt
check_bulk (some bulk) = do
  raise_if (is_blank bulk.from) from_required
  raise_if (not (is_payload_path bulk.from)) from_not_payload
  if is_blank bulk.namespace then returned tt else validate_baggage_path bulk.namespace

abbrev is_none_bulk : Option BaggageBulkSpec → Bool
is_none_bulk none = true
is_none_bulk (some bulk) = false

-- `Empty`
abbrev pub baggage_empty : Option BaggageSpec → Bool
baggage_empty none = true
baggage_empty (some spec) = is_empty spec.mappings && is_none_bulk spec.bulk

-- `validateBaggageSpec`
unfoldable pub validate_baggage_spec : Option BaggageSpec → Fallible CompileError (Unit {0})
validate_baggage_spec none = returned tt
validate_baggage_spec (some spec) = do check_mappings spec.mappings; check_bulk spec.bulk

check_with : StringMap → Fallible CompileError (Unit {0})
check_with [] = returned tt
check_with ((key, expr) ∷ more) = do
  raise_if (is_blank key) relay_key_required
  raise_if (is_blank expr) relay_expression_required
  check_with more

-- `validateRelaySpec`
pub validate_relay_spec : RelaySpec → Fallible CompileError (Unit {0})
validate_relay_spec spec = do
  raise_if (is_blank spec.to) relay_to_required
  raise_if (is_blank spec.event) relay_event_required
  validate_baggage_spec spec.baggage
  check_with spec.with
