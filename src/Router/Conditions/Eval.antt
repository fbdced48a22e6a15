-- ===== src/Router/Conditions/Eval.antt =====
-- internal/router/conditions/ops.go and eval.go
pub mod Operands
pub mod Frame
pub mod Numbers
use ductile.Common.{
  ◌+◌, ℕ, Bool, true, false, not, ◌&&◌, ◌||◌, ◌==◌, Option, none, some, List, [], ◌∷◌, ◌++◌,
  if◌then◌else◌,
}
use ductile.Common.Int.{ℤ, pos, negsuc}
use ductile.Common.Fallible.{Fallible, returned, raised, ◌>>=◌, or_raise}
use mathlib.Core.List.{reverse}
use ductile.Common.Text.{Text, codes, text_eq, is_empty}
use ductile.Router.Conditions.Types.{
  IntType, int, int8, int16, int32, int64, uint, uint8, uint16, uint32, uint64, Value, nil, bool,
  integer, float32, float64, string, array, object, Values, no_values, next_value, Fields,
  no_fields, next_field, Condition, condition, Conditions, no_conditions, next_condition,
  OptionalCondition, no_condition, one_condition, Operator, op_exists, op_eq, op_neq, op_in, op_gt,
  op_gte, op_lt, op_lte, op_contains, op_starts_with, op_ends_with, op_regex, Scope, Host,
}
use ductile.Router.Conditions.Paths.{
  EvalError, unsupported_operator, requires_array, requires_numeric_path, requires_numeric_value,
  requires_string_path, requires_string_value, invalid_regex, field_of, Found, resolve_path,
}

abbrev rank : IntType → ℕ
rank int = 0
rank int8 = 1
rank int16 = 2
rank int32 = 3
rank int64 = 4
rank uint = 5
rank uint8 = 6
rank uint16 = 7
rank uint32 = 8
rank uint64 = 9

abbrev same_int : ℤ → ℤ → Bool
same_int (pos a) (pos b) = a == b
same_int (negsuc a) (negsuc b) = a == b
same_int _ _ = false

abbrev same_bool : Bool → Bool → Bool
same_bool true b = b
same_bool false b = not b

pub field_count : Fields → ℕ
field_count no_fields = 0
field_count (next_field k v fs) = field_count fs + 1

-- reflect.DeepEqual on these values: the types agree and the values do, entry by entry.
unfoldable mutual
  pub deep_equal : Host → Value → Value → Bool
  deep_equal host nil nil = true
  deep_equal host (bool a) (bool b) = same_bool a b
  deep_equal host (integer t a) (integer u b) = rank t == rank u && same_int a b
  deep_equal host (float32 a) (float32 b) = host.float32_eq a b
  deep_equal host (float64 a) (float64 b) = host.float_eq a b
  deep_equal host (string a) (string b) = text_eq a b
  deep_equal host (array xs) (array ys) = all_deep_equal host xs ys
  deep_equal host (object fs) (object gs) =
      field_count fs == field_count gs && fields_deep_equal host fs gs
  deep_equal host _ _ = false

  pub all_deep_equal : Host → Values → Values → Bool
  all_deep_equal host no_values no_values = true
  all_deep_equal host (next_value x xs) (next_value y ys) =
      deep_equal host x y && all_deep_equal host xs ys
  all_deep_equal host _ _ = false

  pub fields_deep_equal : Host → Fields → Fields → Bool
  fields_deep_equal host no_fields gs = true
  fields_deep_equal host (next_field k v fs) gs = elim (field_of gs k) [
    | none ↦ false
    | some w ↦ deep_equal host v w && fields_deep_equal host fs gs
  ]

-- Whether one of the values equals the first.
is_among : Host → Value → Values → Bool
is_among host actual no_values = false
is_among host actual (next_value v vs) = deep_equal host actual v || is_among host actual vs

-- `asNumber`
as_number : Host → Value → Option ℕ
as_number host (integer t n) = some (host.of_int n)
as_number host (float32 bits) = some (host.widen bits)
as_number host (float64 bits) = some bits
as_number host _ = none

-- `compareNumbers`
compare_numbers : Host → Operator → ℕ → ℕ → Bool
compare_numbers host op_gt left right = host.float_lt right left
compare_numbers host op_gte left right = host.float_lt right left || host.float_eq left right
compare_numbers host op_lt left right = host.float_lt left right
compare_numbers host op_lte left right = host.float_lt left right || host.float_eq left right
compare_numbers host _ left right = false

-- strings.HasPrefix, strings.HasSuffix and strings.Contains
pub has_prefix : Text → Text → Bool
has_prefix s [] = true
has_prefix [] (p ∷ ps) = false
has_prefix (c ∷ s) (p ∷ ps) = c == p && has_prefix s ps

has_suffix : Text → Text → Bool
has_suffix s suffix = has_prefix (reverse s) (reverse suffix)

contains : Text → Text → Bool
contains [] part = is_empty part
contains (c ∷ s) part = has_prefix (c ∷ s) part || contains s part

-- `compareStrings`
compare_strings : Host → Operator → Text → Text → Bool
unfolding has_prefix has_suffix contains
compare_strings host op_contains left right = contains (host.to_lower left) (host.to_lower right)
compare_strings host op_starts_with left right =
    has_prefix (host.to_lower left) (host.to_lower right)
compare_strings host op_ends_with left right = has_suffix (host.to_lower left) (host.to_lower right)
compare_strings host _ left right = false

-- The cases of the switch on `cond.Op`, which are the supported operators.
unfoldable pub operator_of : Text → Option Operator
operator_of op =
    if text_eq op (codes "exists")
    then some op_exists
    else if text_eq op (codes "eq")
    then some op_eq
    else if text_eq op (codes "neq")
    then some op_neq
    else if text_eq op (codes "in")
    then some op_in
    else if text_eq op (codes "gt")
    then some op_gt
    else if text_eq op (codes "gte")
    then some op_gte
    else if text_eq op (codes "lt")
    then some op_lt
    else if text_eq op (codes "lte")
    then some op_lte
    else if text_eq op (codes "contains")
    then some op_contains
    else if text_eq op (codes "startswith")
    then some op_starts_with
    else if text_eq op (codes "endswith")
    then some op_ends_with
    else if text_eq op (codes "regex")
    then some op_regex
    else none

-- `fmt.Sprintf("^(?:%s)$", str)`
abbrev pub anchored : Text → Text
anchored s = codes "^(?:" ++ s ++ codes ")$"

abbrev as_string : Value → Option Text
as_string (string s) = some s
as_string _ = none

-- `stringOperands`
string_operands : Value → Value → Fallible EvalError (Text × Text)
string_operands actual value = do
  left ← or_raise (as_string actual) requires_string_path
  right ← or_raise (as_string value) requires_string_value
  returned (left, right)

-- The case of the four comparisons of numbers.
eval_numeric : Host → Operator → Value → Value → Fallible EvalError Bool
unfolding as_number compare_numbers
eval_numeric host op actual value = do
  left ← or_raise (as_number host actual) requires_numeric_path
  right ← or_raise (as_number host value) requires_numeric_value
  returned (compare_numbers host op left right)

eval_textual : Host → Operator → Value → Value → Fallible EvalError Bool
unfolding compare_strings string_operands
eval_textual host op actual value = do
  operands ← string_operands actual value
  returned (compare_strings host op operands.0 operands.1)

match_compiled : Host → Option Text → Text → Text → Fallible EvalError Bool
match_compiled host (some re) left right = returned (host.match_string re left)
match_compiled host none left right =
    if host.compiles (anchored right)
    then returned (host.match_string (anchored right) left)
    else raised (invalid_regex right)

eval_regex : Host → Option Text → Value → Value → Fallible EvalError Bool
unfolding match_compiled string_operands
eval_regex host compiled actual value = do
  operands ← string_operands actual value
  match_compiled host compiled operands.0 operands.1

eval_in : Host → Value → Value → Fallible EvalError Bool
unfolding is_among
eval_in host actual (array vs) = returned (is_among host actual vs)
eval_in host actual _ = raised requires_array

-- The switch of `evalAtomic`.
eval_operator : Host → Operator → Found → Value → Option Text → Fallible EvalError Bool
unfolding eval_numeric eval_textual eval_regex eval_in
eval_operator host op_exists at value compiled = returned at.present
eval_operator host op_eq at value compiled = returned (deep_equal host at.actual value)
eval_operator host op_neq at value compiled = returned (not (deep_equal host at.actual value))
eval_operator host op_in at value compiled = eval_in host at.actual value
eval_operator host op_contains at value compiled = eval_textual host op_contains at.actual value
eval_operator host op_starts_with at value compiled =
    eval_textual host op_starts_with at.actual value
eval_operator host op_ends_with at value compiled = eval_textual host op_ends_with at.actual value
eval_operator host op_regex at value compiled = eval_regex host compiled at.actual value
eval_operator host op at value compiled = eval_numeric host op at.actual value

-- `evalAtomic`
unfoldable pub eval_atomic :
    Host → Scope → Text → Text → Value → Option Text → Fallible EvalError Bool
unfolding eval_operator operator_of
eval_atomic host scope path op value compiled = do
  at ← resolve_path scope path
  operator ← or_raise (operator_of op) (unsupported_operator op)
  eval_operator host operator at value compiled

-- `Eval`
unfoldable mutual
  pub eval : Host → Scope → Condition → Fallible EvalError Bool
  eval host scope (condition path op value all any neg compiled) = elim all [
    | next_condition c cs ↦ eval_all host scope all
    | no_conditions ↦ elim any [
      | next_condition c cs ↦ eval_any host scope any
      | no_conditions ↦ elim neg [
        | one_condition c ↦ eval_not host scope neg
        | no_condition ↦ eval_atomic host scope path op value compiled
      ]
    ]
  ]

  -- The loop over `cond.All`, which stops at the first that fails or is false.
  pub eval_all : Host → Scope → Conditions → Fallible EvalError Bool
  eval_all host scope no_conditions = returned true
  eval_all host scope (next_condition c cs) = do
    ok ← eval host scope c
    if ok then eval_all host scope cs else returned false

  -- The loop over `cond.Any`, which stops at the first that fails or is true.
  pub eval_any : Host → Scope → Conditions → Fallible EvalError Bool
  eval_any host scope no_conditions = returned false
  eval_any host scope (next_condition c cs) = do
    ok ← eval host scope c
    if ok then returned true else eval_any host scope cs

  pub eval_not : Host → Scope → OptionalCondition → Fallible EvalError Bool
  eval_not host scope no_condition = returned true
  eval_not host scope (one_condition c) = do ok ← eval host scope c; returned (not ok)
