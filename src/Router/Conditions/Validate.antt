-- ===== src/Router/Conditions/Validate.antt =====
-- internal/router/conditions/validate.go and errors.go. An error drops the tree that was read so
-- far, as its callers do.
pub mod WellFormed
pub mod Predicates
pub mod Accepts
use ductile.Common.{
  [], ℕ, ◌+◌, Bool, true, false, not, ◌||◌, Option, some, List, ◌∷◌, ltb, ◌==◌, if◌then◌else◌,
}
use ductile.Common.Fallible.{◌>>◌, ◌>>=◌, Fallible, returned, raised, raise_if, or_raise}
use ductile.Common.Text.{Text, codes, text_eq, is_empty, trim_space, split}
use ductile.Router.Conditions.Types.{
  Value, nil, string, array, Condition, condition, Conditions, no_conditions, next_condition,
  OptionalCondition, no_condition, one_condition, Operator, op_exists, op_in, op_contains,
  op_starts_with, op_ends_with, op_regex, Host,
}
use ductile.Router.Conditions.Eval.{operator_of, anchored}

-- Where in the tree: `if`, then `.all[i]`, `.any[i]`, `.not`, `.path`, `.op` and `.value`.
pub data Place : Type 0 where
  at_if : Place
  at_all at_any : Place → ℕ → Place
  at_not at_path at_op at_value : Place → Place

pub data Problem : Type 0 where
  too_deep too_many not_one_mode path_required too_few_parts blank_part op_required : Problem
  bad_root unsupported : Text → Problem
  value_not_allowed value_required array_required string_required bad_pattern : Problem

-- `ValidationError`
pub record ValidationError : Type 0 where
  pub path : Place
  pub message : Problem

-- `newValidationError`
abbrev new_validation_error : Place → Problem → ValidationError
new_validation_error at problem = record { path = at; message = problem }

-- `MaxDepthDefault` and `MaxPredicatesDefault`
abbrev max_depth_default : ℕ
max_depth_default = 3

abbrev max_predicates_default : ℕ
max_predicates_default = 20

abbrev is_nil : Value → Bool
is_nil nil = true
is_nil _ = false

abbrev none_left : Conditions → Bool
none_left no_conditions = true
none_left (next_condition c cs) = false

abbrev is_none : OptionalCondition → Bool
is_none no_condition = true
is_none (one_condition c) = false

abbrev pub one_if : Bool → ℕ
one_if true = 1
one_if false = 0

abbrev pub is_blank : Text → Bool
is_blank s = is_empty (trim_space s)

-- The count of modes that a node defines.
unfoldable pub modes : Text → Text → Value → Conditions → Conditions → OptionalCondition → ℕ
modes path op value all any neg =
    one_if (not (is_blank path) || (not (is_blank op) || not (is_nil value)))
    + one_if (not (none_left all))
    + one_if (not (none_left any))
    + one_if (not (is_none neg))

abbrev pub is_root : Text → Bool
is_root root =
    text_eq root (codes "payload")
    || (text_eq root (codes "context") || text_eq root (codes "config"))

abbrev pub some_blank : List Text → Bool
some_blank [] = false
some_blank (part ∷ parts) = is_blank part || some_blank parts

-- The tests on `parts`.
unfoldable validate_parts : List Text → Place → Fallible ValidationError (Unit {0})
validate_parts [] at = raised (new_validation_error at too_few_parts)
validate_parts (root ∷ []) at = raised (new_validation_error at too_few_parts)
validate_parts (root ∷ part ∷ parts) at = do
  raise_if (not (is_root root)) (new_validation_error at (bad_root root))
  raise_if (some_blank (root ∷ part ∷ parts)) (new_validation_error at blank_part)

-- `validatePath`
unfoldable validate_path : Text → Place → Fallible ValidationError (Unit {0})
unfolding validate_parts
validate_path path at = validate_parts (split 46 (trim_space path)) at

-- `requiresStringValue`
abbrev requires_string_value : Operator → Bool
requires_string_value op_contains = true
requires_string_value op_starts_with = true
requires_string_value op_ends_with = true
requires_string_value op_regex = true
requires_string_value _ = false

abbrev is_regex : Operator → Bool
is_regex op_regex = true
is_regex _ = false

-- A string for an operator that requires one; the pattern of a regular expression is compiled.
unfoldable check_string :
    Host → Operator → Value → Option Text → Place → Fallible ValidationError (Option Text)
check_string host op (string s) compiled at =
    if is_regex op
    then if host.compiles (anchored s)
      then returned (some (anchored s))
      else raised (new_validation_error (at_value at) bad_pattern)
    else returned compiled
check_string host op value compiled at = raised (new_validation_error (at_value at) string_required)

abbrev pub is_string : Value → Bool
is_string (string s) = true
is_string _ = false

abbrev is_array : Value → Bool
is_array (array vs) = true
is_array _ = false

-- The tests from `cond.Op == OpExists` on; the result is the compiled regular expression.
unfoldable check_value :
    Host → Operator → Value → Option Text → Place → Fallible ValidationError (Option Text)
unfolding check_string
check_value host op_exists value compiled at = do
  raise_if (not (is_nil value)) (new_validation_error (at_value at) value_not_allowed)
  returned compiled
check_value host op_in value compiled at = do
  raise_if (is_nil value) (new_validation_error (at_value at) value_required)
  raise_if (not (is_array value)) (new_validation_error (at_value at) array_required)
  returned compiled
check_value host op value compiled at = do
  raise_if (is_nil value) (new_validation_error (at_value at) value_required)
  if requires_string_value op then check_string host op value compiled at else returned compiled

-- The tests on an atomic predicate.
unfoldable pub check_atomic :
    Host → Text → Text → Value → Option Text → Place → Fallible ValidationError (Option Text)
unfolding validate_path check_value
check_atomic host path op value compiled at = do
  raise_if (is_blank path) (new_validation_error at path_required)
  validate_path path (at_path at)
  raise_if (is_blank op) (new_validation_error at op_required)
  operator ← or_raise (operator_of op) (new_validation_error (at_op at) (unsupported op))
  check_value host operator value compiled at

-- `validate`: the tree with its regular expressions compiled, and the count.
unfoldable mutual
  pub validate : Host → Condition → Place → ℕ → ℕ → Fallible ValidationError (Condition × ℕ)
  validate host (condition path op value all any neg compiled) at depth n = do
    raise_if (ltb max_depth_default depth) (new_validation_error at too_deep)
    raise_if (ltb max_predicates_default (n + 1)) (new_validation_error at too_many)
    raise_if (not (modes path op value all any neg == 1)) (new_validation_error at not_one_mode)
    elim all [
      | next_condition c cs ↦ do
        checked ← validate_each host all (at_all at) 0 (depth + 1) (n + 1)
        returned (condition path op value checked.0 any neg compiled, checked.1)
      | no_conditions ↦ elim any [
        | next_condition c cs ↦ do
          checked ← validate_each host any (at_any at) 0 (depth + 1) (n + 1)
          returned (condition path op value no_conditions checked.0 neg compiled, checked.1)
        | no_conditions ↦ elim neg [
          | one_condition c ↦ do
            checked ← validate_not host neg (at_not at) (depth + 1) (n + 1)
            returned
                (condition path op value no_conditions no_conditions checked.0 compiled, checked.1)
          | no_condition ↦ do
            re ← check_atomic host path op value compiled at
            returned (condition path op value no_conditions no_conditions no_condition re, n + 1)
        ]
      ]
    ]

  pub validate_each :
      Host → Conditions → (ℕ → Place) → ℕ → ℕ → ℕ → Fallible ValidationError (Conditions × ℕ)
  validate_each host no_conditions at i depth n = returned (no_conditions, n)
  validate_each host (next_condition c cs) at i depth n = do
    one ← validate host c (at i) depth n
    rest ← validate_each host cs at (i + 1) depth one.1
    returned (next_condition one.0 rest.0, rest.1)

  pub validate_not :
      Host → OptionalCondition → Place → ℕ → ℕ → Fallible ValidationError (OptionalCondition × ℕ)
  validate_not host no_condition at depth n = returned (no_condition, n)
  validate_not host (one_condition c) at depth n = do
    one ← validate host c at depth n
    returned (one_condition one.0, one.1)

-- `Validate`
unfoldable pub validate_root : Host → Condition → Fallible ValidationError (Condition × ℕ)
validate_root host c = validate host c at_if 1 0
