-- ===== src/Router/Conditions/Validate/Predicates.antt =====
-- The tests of Validate on an atomic predicate, against their description.
use ductile.Common.{not-false, ◌≡◌, refl, true, false, Option, some, List, [], ◌∷◌, arith}
use ductile.Common.Fallible.{
  returned, or_raise, bind-returned, raise_if-returned, raise_if-false, or_raise-returned,
}
use ductile.Common.Text.{Text}
use ductile.Router.Conditions.Types.{
  Value, nil, string, array, Operator, op_exists, op_eq, op_neq, op_in, op_gt, op_gte, op_lt,
  op_lte, op_contains, op_starts_with, op_ends_with, op_regex, Host,
}
use ductile.Router.Conditions.Eval.{operator_of}
use ductile.Router.Conditions.Validate.{
  Place, at_path, is_root, some_blank, validate_parts, validate_path, check_string, check_value,
  check_atomic,
}
use ductile.Router.Conditions.Validate.WellFormed.{ValueFits, IsPredicate, compiled_for}

module _ (host : Host) (re : Option Text) (at : Place) where
  check_value_complete :
      (op : Operator) (value : Value)
      → ValueFits host op value
      → check_value host op value re at ≡ returned (compiled_for (some op) value re)
  unfolding check_value check_string
  check_value_complete op_exists value h = rw h
  check_value_complete op_in (array vs) h = refl
  check_value_complete op_contains (string s) h = refl
  check_value_complete op_starts_with (string s) h = refl
  check_value_complete op_ends_with (string s) h = refl
  check_value_complete op_regex (string s) h = rw h
  check_value_complete op_eq value h = rw h
  check_value_complete op_neq value h = rw h
  check_value_complete op_gt value h = rw h
  check_value_complete op_gte value h = rw h
  check_value_complete op_lt value h = rw h
  check_value_complete op_lte value h = rw h
  check_value_complete op value h = ground arith

  check_value_sound :
      (op : Operator) (value : Value) {r : Option Text}
      → check_value host op value re at ≡ returned r
      → ValueFits host op value
  unfolding check_value check_string
  check_value_sound op_exists nil h = refl
  check_value_sound op_in (array vs) h = refl
  check_value_sound op_contains (string s) h = refl
  check_value_sound op_starts_with (string s) h = refl
  check_value_sound op_ends_with (string s) h = refl
  check_value_sound op value h = ground arith

  validate_parts_sound :
      (parts : List Text)
      → validate_parts parts (at_path at) ≡ returned tt
      → (root : Text) × (part : Text) × (rest : List Text) × (parts ≡ root ∷ part ∷ rest)
        × (is_root root ≡ true)
        × (some_blank (root ∷ part ∷ rest) ≡ false)
  unfolding validate_parts
  validate_parts_sound [] h = cc
  validate_parts_sound (root ∷ []) h = cc
  validate_parts_sound (root ∷ part ∷ rest) h =
      let (rooted, more) = raise_if-returned _ _ _ h in
      (root, part, rest, refl, not-false _ rooted, raise_if-false _ _ more)

  pub check_atomic_complete :
      (path op : Text) (value : Value)
      → IsPredicate host path op value
      → check_atomic host path op value re at ≡ returned (compiled_for (operator_of op) value re)
  unfolding check_atomic validate_path validate_parts
  check_atomic_complete path op value (p, (root, part, rest, e, r, b), o, operator, s, fits) =
      rw (p, e, r, b, o, s) (check_value_complete operator value fits)

  pub check_atomic_sound :
      (path op : Text) (value : Value) {r : Option Text}
      → check_atomic host path op value re at ≡ returned r
      → IsPredicate host path op value
  unfolding check_atomic validate_path
  check_atomic_sound path op value h =
      let (path_given, h₁) = raise_if-returned _ _ _ h in
      let (u, split_ok, h₂) = bind-returned (validate_path path (at_path at)) _ h₁ in
      let (op_given, h₃) = raise_if-returned _ _ _ h₂ in
      let (operator, supported, h₄) = bind-returned (or_raise (operator_of op) _) _ h₃ in
      (
        path_given,
        validate_parts_sound _ split_ok,
        op_given,
        operator,
        or_raise-returned (operator_of op) _ supported,
        check_value_sound operator value h₄,
      )
