-- ===== src/Router/Conditions/Paths.antt =====
-- internal/router/conditions/paths.go

use ductile.Common.{Bool, true, false, ◌||◌, ◌==◌, Option, none, some, List, [], ◌∷◌, if◌then◌else◌}
use ductile.Common.Fallible.{Fallible, returned, raised, ◌>>=◌}
use ductile.Common.Text.{Text, codes, text_eq, trim_space, is_empty, split}
use ductile.Router.Conditions.Types.{
  Value, nil, object, Fields, no_fields, next_field, Condition, condition, Conditions,
  no_conditions, next_condition, OptionalCondition, no_condition, one_condition, Scope,
}

-- The errors of an evaluation.
pub data EvalError : Type 0 where
  path_is_empty empty_segment : EvalError
  unsupported_root : Text → EvalError
  unsupported_operator : Text → EvalError
  requires_array requires_numeric_path requires_numeric_value : EvalError
  requires_string_path requires_string_value : EvalError
  invalid_regex : Text → EvalError

-- `obj[segment]`
unfoldable pub field_of : Fields → Text → Option Value
field_of no_fields k = none
field_of (next_field j v fs) k = let rest = field_of fs k in if text_eq j k then some v else rest

-- What a path leads to: whether it is present, and its value.
pub record Found : Type 0 where
  pub present : Bool
  pub actual : Value

abbrev pub absent : Found
absent = record { present = false; actual = nil }

abbrev pub found : Value → Found
found v = record { present = true; actual = v }

-- `current.(map[string]any)`, and the entry of the segment.
unfoldable pub entry_of : Value → Text → Option Value
unfolding field_of
entry_of (object fs) segment = field_of fs segment
entry_of v segment = none

-- The loop over `parts[1:]`.
unfoldable pub walk : List Text → Value → Fallible EvalError Found
walk [] current = returned (found current)
walk (segment ∷ rest) current =
    if is_empty (trim_space segment)
    then raised empty_segment
    else elim (entry_of current segment) [ none ↦ returned absent | some v ↦ walk rest v ]

-- The switch on `parts[0]`.
unfoldable pub scope_root : Scope → Text → Fallible EvalError Fields
scope_root scope root =
    if text_eq root (codes "payload")
    then returned scope.payload
    else if text_eq root (codes "context")
    then returned scope.context
    else if text_eq root (codes "config")
    then returned scope.config
    else raised (unsupported_root root)

unfoldable pub resolve_parts : Scope → List Text → Fallible EvalError Found
resolve_parts scope [] = raised path_is_empty
resolve_parts scope (root ∷ segments) = do
  fields ← scope_root scope root
  walk segments (object fields)

-- `ResolvePath`
unfoldable pub resolve_path : Scope → Text → Fallible EvalError Found
unfolding scope_root resolve_parts
resolve_path scope path =
    let trimmed = trim_space path in
    if is_empty trimmed then raised path_is_empty else resolve_parts scope (split 46 trimmed)

-- What `strings.Cut(s, ".")` gives before the dot.
unfoldable pub before_dot : Text → Text
before_dot [] = []
before_dot (c ∷ s) = let rest = before_dot s in if c == 46 then [] else c ∷ rest

-- The test of one predicate's own path in `ReferencesRoot`.
unfoldable pub reads_root : Text → Text → Bool
unfolding before_dot
reads_root path root =
    let trimmed = trim_space path in
    if is_empty trimmed then false else text_eq (before_dot trimmed) root

-- `ReferencesRoot`
unfoldable mutual
  pub references_root : Text → Condition → Bool
  references_root root (condition path op value all any neg compiled) =
      reads_root path root
      || (any_references_root root all
          || (any_references_root root any || optional_references_root root neg))

  pub any_references_root : Text → Conditions → Bool
  any_references_root root no_conditions = false
  any_references_root root (next_condition c cs) =
      references_root root c || any_references_root root cs

  pub optional_references_root : Text → OptionalCondition → Bool
  optional_references_root root no_condition = false
  optional_references_root root (one_condition c) = references_root root c
