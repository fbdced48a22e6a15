-- ===== src/Router/Conditions/Types.antt =====
-- internal/router/conditions/types.go, and the values that encoding/json and yaml decode to.
use ductile.Common.{ℕ, Bool, Option}
use ductile.Common.Int.{ℤ}
use ductile.Common.Text.{Text}

-- The integer types of the language.
pub data IntType : Type 0 where
  int int8 int16 int32 int64 uint uint8 uint16 uint32 uint64 : IntType

-- A value of type `any`: a float stands as its bits, and a map as its entries, of which the first
-- with a key counts. `array` is `[]any` and `object` is `map[string]any`, neither of them nil.
mutual
  pub data Value : Type 0 where
    nil : Value
    bool : Bool → Value
    integer : IntType → ℤ → Value
    float32 : ℕ → Value
    float64 : ℕ → Value
    string : Text → Value
    array : Values → Value
    object : Fields → Value

  pub data Values : Type 0 where
    no_values : Values
    next_value : Value → Values → Values

  pub data Fields : Type 0 where
    no_fields : Fields
    next_field : Text → Value → Fields → Fields

-- `Condition`: the path, the operator, the value, which is nil where it is left out, all, any, not,
-- and the compiled regular expression, which stands as the pattern that it was compiled from.
mutual
  pub data Condition : Type 0 where
    condition :
        Text → Text → Value → Conditions → Conditions → OptionalCondition → Option Text → Condition

  pub data Conditions : Type 0 where
    no_conditions : Conditions
    next_condition : Condition → Conditions → Conditions

  pub data OptionalCondition : Type 0 where
    no_condition : OptionalCondition
    one_condition : Condition → OptionalCondition

-- `Operator`, the supported ones.
pub data Operator : Type 0 where
  op_exists op_eq op_neq op_in op_gt op_gte op_lt op_lte : Operator
  op_contains op_starts_with op_ends_with op_regex : Operator

-- `Scope`; a nil map reads as an empty one.
pub record Scope : Type 0 where
  pub payload : Fields
  pub context : Fields
  pub config : Fields

-- What the conditions use of packages regexp and unicode and of floating-point arithmetic: whether
-- a pattern compiles, whether a text matches a compiled pattern, the lower case of a text, the
-- conversions to float64 and the comparisons, all on bits.
pub record Host : Type 0 where
  pub compiles : Text → Bool
  pub match_string : Text → Text → Bool
  pub to_lower : Text → Text
  pub of_int : ℤ → ℕ
  pub widen : ℕ → ℕ
  pub float_lt : ℕ → ℕ → Bool
  pub float_eq : ℕ → ℕ → Bool
  pub float32_eq : ℕ → ℕ → Bool
