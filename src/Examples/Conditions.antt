-- ===== src/Examples/Conditions.antt =====
-- Runs of the theorems on the conditions of the router.
use mathlib.Core.Logic.{◌≢◌}
use ductile.Router.Conditions.Eval.Operands.{IsOperandError, eval-validated}
use ductile.Router.Conditions.Eval.Numbers.{IsJson, eval-eq_integer}
use ductile.Router.Conditions.Validate.Accepts.{validate_root_lem}
use ductile.Common.{ℕ, ◌≤◌, ◌≡◌, refl, ◌≢◌, ◌↔◌, true, false, none, [], ltb, ◌==◌}
use ductile.Common.Int.{pos, pos_part}
use ductile.Common.Fallible.{returned, RaisesOnly}
use ductile.Common.Text.{Text, codes, text_eq}
use ductile.Router.Conditions.Types.{
  int, Value, nil, integer, float64, string, no_fields, next_field, Condition, condition,
  no_conditions, next_condition, no_condition, Scope, Host,
}
use ductile.Router.Conditions.Eval.{operator_of, anchored, eval}
use ductile.Router.Conditions.Validate.{modes, check_atomic, validate, validate_root}
use ductile.Router.Conditions.Validate.WellFormed.{WellFormed, nesting, size, with_regexes}

-- A host on which every pattern compiles and matches the text that it anchors, and floats are
-- compared by their bits.
abbrev pub host : Host
host = record {
  compiles = λ s. true;
  match_string = λ re s. text_eq re (anchored s);
  to_lower = λ s. s;
  of_int = pos_part;
  widen = λ bits. bits;
  float_lt = ltb;
  float_eq = ◌==◌;
  float32_eq = ◌==◌;
}

-- {"status": "error", "count": 3} with the number as the bits 3.
abbrev scope : Scope
scope = record {
  payload =
      next_field (codes "status") (string (codes "error"))
        (next_field (codes "count") (float64 3) no_fields);
  context = no_fields;
  config = no_fields;
}

abbrev leaf : Text → Text → Value → Condition
leaf path op value = condition path op value no_conditions no_conditions no_condition none

abbrev pub failed_or_named : Condition
failed_or_named =
    condition [] [] nil no_conditions
      (next_condition (leaf (codes "payload.status") (codes "regex") (string (codes "error")))
        (next_condition (leaf (codes "payload.name") (codes "exists") nil) no_conditions))
      no_condition none

checked : validate_root host failed_or_named ≡ returned (with_regexes failed_or_named, 3)
unfolding validate_root validate modes check_atomic operator_of with_regexes
    ductile.Common.Text.trim_space ductile.Common.Text.split text_eq
checked = refl

validate_root_lem_example :
    (validate_root host failed_or_named ≡ returned (with_regexes failed_or_named, 3)) ↔ (
      WellFormed host failed_or_named
      × (nesting failed_or_named ≤ 3)
      × (size failed_or_named ≤ 20)
      × ◌≡◌ {A = Condition × ℕ}
          (with_regexes failed_or_named, 3)
          (with_regexes failed_or_named, size failed_or_named))
validate_root_lem_example = validate_root_lem host failed_or_named (with_regexes failed_or_named, 3)

eval-validated_example : RaisesOnly IsOperandError (eval host scope (with_regexes failed_or_named))
eval-validated_example =
    eval-validated host failed_or_named (with_regexes failed_or_named, 3) scope checked

eval-eq_integer_example :
    eval host scope (leaf (codes "payload.count") (codes "eq") (integer int (pos 3)))
    ≢ returned true
unfolding IsJson
eval-eq_integer_example =
    eval-eq_integer host scope (codes "payload.count") int (pos 3) ((tt, (tt, tt)), tt, tt)
