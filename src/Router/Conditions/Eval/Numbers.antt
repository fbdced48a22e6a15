-- ===== src/Router/Conditions/Eval/Numbers.antt =====
-- Integers in a condition, which package yaml decodes, against the values that encoding/json
-- decodes.
use mathlib.Core.Option.{some_inj}
use ductile.Router.Conditions.Eval.{deep_equal, operator_of, eval_operator, eval_atomic, eval}
use ductile.Common.Int.{ℤ}
use ductile.Common.{
  ◌≡◌, refl, subst, ◌≢◌, inl, inr, Bool, true, false, Option, none, some, List, [], ◌∷◌,
  if◌then◌else◌, Bool-cases,
}
use ductile.Common.Fallible.{Fallible, returned, raised, ◌>>=◌, or_raise}
use ductile.Common.Text.{Text, codes, text_eq, is_empty, trim_space, split}
use ductile.Router.Conditions.Types.{
  IntType, Value, integer, float32, array, object, Values, no_values, next_value, Fields, no_fields,
  next_field, condition, no_conditions, no_condition, op_eq, Scope, Host,
}
use ductile.Router.Conditions.Paths.{
  EvalError, unsupported_operator, field_of, Found, absent, entry_of, walk, scope_root,
  resolve_parts, resolve_path,
}

-- A number that encoding/json decodes is a float64.
unfoldable mutual
  pub IsJson : Value → Type 0
  IsJson (integer t n) = ⊥
  IsJson (float32 bits) = ⊥
  IsJson (array vs) = EachJson vs
  IsJson (object fs) = FieldsJson fs
  IsJson _ = Unit

  pub EachJson : Values → Type 0
  EachJson no_values = Unit
  EachJson (next_value v vs) = IsJson v × EachJson vs

  pub FieldsJson : Fields → Type 0
  FieldsJson no_fields = Unit
  FieldsJson (next_field k v fs) = IsJson v × FieldsJson fs

field_of-IsJson :
    (fs : Fields) (k : Text) (v : Value) → FieldsJson fs → field_of fs k ≡ some v → IsJson v
unfolding field_of IsJson
field_of-IsJson no_fields k v h e = cc
field_of-IsJson (next_field j w fs) k v h e = elim (Bool-cases (text_eq j k)) [
  | inl same ↦ subst IsJson (some_inj.0 (rw same at e)) h.0
  | inr other ↦ field_of-IsJson fs k v h.1 (rw other at e)
]

entry_of-IsJson :
    (current : Value) (k : Text) (v : Value)
    → IsJson current
    → entry_of current k ≡ some v
    → IsJson v
unfolding entry_of IsJson
entry_of-IsJson (object fs) k v h e = field_of-IsJson fs k v h e
entry_of-IsJson current k v h e = cc

-- What a path leads to in JSON is JSON.
abbrev FoundJson : Fallible EvalError Found → Type 0
FoundJson (returned at) = IsJson at.actual
FoundJson (raised e) = Unit

walk_on-IsJson :
    (next : Value → Fallible EvalError Found) (m : Option Value)
    → ((v : Value) → m ≡ some v → FoundJson (next v))
    → FoundJson (elim m [ none ↦ returned absent | some v ↦ next v ])
unfolding IsJson
walk_on-IsJson next none h = tt
walk_on-IsJson next (some v) h = h v refl

walk-IsJson :
    (segments : List Text) (current : Value) → IsJson current → FoundJson (walk segments current)
unfolding walk
walk-IsJson [] current h = h
walk-IsJson (segment ∷ rest) current h = elim (Bool-cases (is_empty (trim_space segment))) [
  | inl blank ↦ rw blank tt
  | inr shown ↦ rw shown (
      walk_on-IsJson (walk rest) (entry_of current segment)
        λ v e. walk-IsJson rest v (entry_of-IsJson current segment v h e))
]

abbrev JsonScope : Scope → Type 0
JsonScope scope = FieldsJson scope.payload × FieldsJson scope.context × FieldsJson scope.config

abbrev FieldsOnlyJson : Fallible EvalError Fields → Type 0
FieldsOnlyJson (returned fs) = FieldsJson fs
FieldsOnlyJson (raised e) = Unit

if_json :
    (b : Bool) (x y : Fallible EvalError Fields)
    → FieldsOnlyJson x
    → FieldsOnlyJson y
    → FieldsOnlyJson (if b then x else y)
if_json true x y h k = h
if_json false x y h k = k

walk_from :
    (m : Fallible EvalError Fields) (segments : List Text)
    → FieldsOnlyJson m
    → FoundJson (m >>= λ fs. walk segments (object fs))
unfolding IsJson
walk_from (returned fs) segments h = walk-IsJson segments (object fs) h
walk_from (raised e) segments h = tt

scope_root-IsJson :
    (scope : Scope) (root : Text)
    → JsonScope scope
    → (m : Fallible EvalError Fields) → scope_root scope root ≡ m
    → FieldsOnlyJson m
unfolding scope_root
scope_root-IsJson scope root (payload, context, config) m e = subst FieldsOnlyJson e (
    if_json (text_eq root (codes "payload")) _ _ payload (
      if_json (text_eq root (codes "context")) _ _ context
        (if_json (text_eq root (codes "config")) _ _ config tt)))

resolve_parts-IsJson :
    (scope : Scope) (parts : List Text) → JsonScope scope → FoundJson (resolve_parts scope parts)
unfolding resolve_parts IsJson
resolve_parts-IsJson scope [] h = tt
resolve_parts-IsJson scope (root ∷ segments) h =
    walk_from (scope_root scope root) segments (scope_root-IsJson scope root h _ refl)

resolve_path-IsJson :
    (scope : Scope) (path : Text) → JsonScope scope → FoundJson (resolve_path scope path)
unfolding resolve_path
resolve_path-IsJson scope path h = elim (Bool-cases (is_empty (trim_space path))) [
  | inl blank ↦ rw blank tt
  | inr shown ↦ rw shown (resolve_parts-IsJson scope (split 46 (trim_space path)) h)
]

json-ne-integer :
    (host : Host) (v : Value) (t : IntType) (n : ℤ)
    → IsJson v
    → deep_equal host v (integer t n) ≡ false
unfolding deep_equal IsJson
json-ne-integer host (integer u m) t n h = elim h [ ]
json-ne-integer host v t n h = refl

eval_found-ne :
    (host : Host) (m : Fallible EvalError Found) (t : IntType) (n : ℤ) (re : Option Text)
    → FoundJson m
    → (do
      at ← m
      operator ← or_raise (some op_eq) (unsupported_operator (codes "eq"))
      eval_operator host operator at (integer t n) re)
      ≢ returned true
unfolding eval_operator
eval_found-ne host (returned at) t n re h = rw (json-ne-integer host at.actual t n h) (λ e. cc)
eval_found-ne host (raised e) t n re h = λ e. cc

-- An `eq` with an integer, as package yaml decodes one, is true of no value that encoding/json
-- decodes, whatever the path: not even of the same number.
pub eval-eq_integer :
    (host : Host) (scope : Scope) (path : Text) (t : IntType) (n : ℤ)
    → JsonScope scope
    → eval host scope
        (condition path (codes "eq") (integer t n) no_conditions no_conditions no_condition none)
      ≢ returned true
unfolding eval eval_atomic operator_of text_eq
eval-eq_integer host scope path t n h =
    eval_found-ne host (resolve_path scope path) t n none (resolve_path-IsJson scope path h)
