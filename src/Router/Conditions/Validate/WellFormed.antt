-- ===== src/Router/Conditions/Validate/WellFormed.antt =====
-- The conditions that Validate is to accept, and the tree that it is to leave.
use Prim.Native.Nat.{max}
use ductile.Common.{ℕ, suc, ◌+◌, ◌≡◌, true, false, Option, some, List, ◌∷◌}
use ductile.Common.Text.{Text, trim_space, split}
use ductile.Router.Conditions.Types.{
  Value, string, Condition, condition, Conditions, no_conditions, next_condition, OptionalCondition,
  no_condition, one_condition, Operator, op_exists, op_in, op_contains, op_starts_with,
  op_ends_with, op_regex, Host,
}
use ductile.Router.Conditions.Eval.{operator_of, anchored}
use ductile.Router.Conditions.Validate.{is_nil, is_blank, is_root, some_blank, is_string, is_array}

-- A path below one of the three roots, without a blank part.
abbrev pub IsPath : Text → Type 0
IsPath path =
    (root : Text) × (part : Text) × (parts : List Text) × (split 46 (trim_space path)
      ≡ root ∷ part ∷ parts)
    × (is_root root ≡ true)
    × (some_blank (root ∷ part ∷ parts) ≡ false)

-- The value that an operator is compared with: none for `exists`, a list for `in`, a string for the
-- four operators on texts, which compiles for `regex`, and anything else for the others.
abbrev pub ValueFits : Host → Operator → Value → Type 0
ValueFits host op_exists value = is_nil value ≡ true
ValueFits host op_in value = is_array value ≡ true
ValueFits host op_contains value = is_string value ≡ true
ValueFits host op_starts_with value = is_string value ≡ true
ValueFits host op_ends_with value = is_string value ≡ true
ValueFits host op_regex (string s) = host.compiles (anchored s) ≡ true
ValueFits host op_regex value = ⊥
ValueFits host op value = is_nil value ≡ false

abbrev pub IsPredicate : Host → Text → Text → Value → Type 0
IsPredicate host path op value =
    (is_blank path ≡ false)
    × IsPath path
    × (is_blank op ≡ false)
    × (operator : Operator) × (operator_of op ≡ some operator)
    × ValueFits host operator value

abbrev pub NoPredicate : Text → Text → Value → Type 0
NoPredicate path op value = (is_blank path ≡ true) × (is_blank op ≡ true) × (is_nil value ≡ true)

-- Each node is one of a list `all`, a list `any`, a `not` and a predicate.
unfoldable mutual
  pub WellFormed : Host → Condition → Type 0
  WellFormed host (condition path op value (next_condition c cs) no_conditions no_condition re) =
      NoPredicate path op value × WellFormed host c × EachWellFormed host cs
  WellFormed host (condition path op value no_conditions (next_condition c cs) no_condition re) =
      NoPredicate path op value × WellFormed host c × EachWellFormed host cs
  WellFormed host (condition path op value no_conditions no_conditions (one_condition c) re) =
      NoPredicate path op value × WellFormed host c
  WellFormed host (condition path op value no_conditions no_conditions no_condition re) =
      IsPredicate host path op value
  WellFormed host _ = ⊥

  pub EachWellFormed : Host → Conditions → Type 0
  EachWellFormed host no_conditions = Unit
  EachWellFormed host (next_condition c cs) = WellFormed host c × EachWellFormed host cs

abbrev pub NotWellFormed : Host → OptionalCondition → Type 0
unfolding WellFormed
NotWellFormed host no_condition = Unit
NotWellFormed host (one_condition c) = WellFormed host c

unfoldable mutual
  pub nesting : Condition → ℕ
  nesting (condition path op value all some_of neg re) =
      suc (max (depth_each all) (max (depth_each some_of) (depth_not neg)))

  pub depth_each : Conditions → ℕ
  depth_each no_conditions = 0
  depth_each (next_condition c cs) = max (nesting c) (depth_each cs)

  pub depth_not : OptionalCondition → ℕ
  depth_not no_condition = 0
  depth_not (one_condition c) = nesting c

unfoldable mutual
  pub size : Condition → ℕ
  size (condition path op value all some_of neg re) =
      suc (size_each all + size_each some_of + size_not neg)

  pub size_each : Conditions → ℕ
  size_each no_conditions = 0
  size_each (next_condition c cs) = size c + size_each cs

  pub size_not : OptionalCondition → ℕ
  size_not no_condition = 0
  size_not (one_condition c) = size c

-- The compiled regular expression of a predicate.
abbrev pub compiled_for : Option Operator → Value → Option Text → Option Text
compiled_for (some op_regex) (string s) re = some (anchored s)
compiled_for _ value re = re

unfoldable mutual
  pub with_regexes : Condition → Condition
  with_regexes (condition path op value no_conditions no_conditions no_condition re) =
      condition path op value no_conditions no_conditions no_condition
        (compiled_for (operator_of op) value re)
  with_regexes (condition path op value all some_of neg re) =
      condition path op value (each_with_regexes all) (each_with_regexes some_of)
        (not_with_regexes neg) re

  pub each_with_regexes : Conditions → Conditions
  each_with_regexes no_conditions = no_conditions
  each_with_regexes (next_condition c cs) = next_condition (with_regexes c) (each_with_regexes cs)

  pub not_with_regexes : OptionalCondition → OptionalCondition
  not_with_regexes no_condition = no_condition
  not_with_regexes (one_condition c) = one_condition (with_regexes c)
