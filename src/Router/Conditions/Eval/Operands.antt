-- ===== src/Router/Conditions/Eval/Operands.antt =====
-- The errors of evaluating a condition, for conditions that Validate was given first.
use ductile.Common.{
  ℕ, ◌≡◌, refl, inl, inr, Bool, true, false, Option, none, some, List, [], ◌∷◌, arith,
  if◌then◌else◌, Bool-cases, or-false,
}
use ductile.Common.Fallible.{
  Fallible, returned, or_raise, RaisesOnly, RaisesOnly-bind, or_raise-only,
}
use ductile.Common.Text.{Text, codes, text_eq}
use ductile.Router.Conditions.Types.{
  Value, string, array, object, Fields, Condition, condition, Conditions, no_conditions,
  next_condition, no_condition, one_condition, Operator, op_exists, op_eq, op_neq, op_in, op_gt,
  op_gte, op_lt, op_lte, op_contains, op_starts_with, op_ends_with, op_regex, Scope, Host,
}
use ductile.Router.Conditions.Eval.{
  as_number, anchored, string_operands, eval_numeric, eval_textual, match_compiled, eval_regex,
  eval_in, eval_operator, eval_atomic, eval, eval_all, eval_any,
}
use ductile.Router.Conditions.Validate.WellFormed.{
  IsPath, ValueFits, IsPredicate, WellFormed, EachWellFormed, with_regexes, each_with_regexes,
}
use ductile.Router.Conditions.Validate.Accepts.{validate_root_lem}
use ductile.Router.Conditions.Paths.{
  EvalError, requires_numeric_path, requires_numeric_value, requires_string_path, Found, absent,
  found, entry_of, walk, scope_root, resolve_parts, resolve_path,
}
use ductile.Router.Conditions.Validate.{is_blank, is_root, some_blank, is_string, validate_root}

-- A value that is not of the type which the operator compares.
abbrev pub IsOperandError : EvalError → Type 0
IsOperandError requires_numeric_path = Unit
IsOperandError requires_numeric_value = Unit
IsOperandError requires_string_path = Unit
IsOperandError _ = ⊥

abbrev OnlyOperands : {A : Type 0} → Fallible EvalError A → Type 0
OnlyOperands = RaisesOnly IsOperandError

if_only :
    {A : Type 0} (b : Bool) (x y : Fallible EvalError A)
    → OnlyOperands x
    → OnlyOperands y
    → OnlyOperands (if b then x else y)
if_only true x y h k = h
if_only false x y h k = k

-- A path without a blank part leads somewhere or nowhere, and raises nothing.
walk_on :
    (next : Value → Fallible EvalError Found) (m : Option Value)
    → ((v : Value) → (at : Found) × (next v ≡ returned at))
    → (at : Found) × (elim m [ none ↦ returned absent | some v ↦ next v ] ≡ returned at)
walk_on next none h = (absent, refl)
walk_on next (some v) h = h v

walk_total :
    (segments : List Text) (current : Value)
    → some_blank segments ≡ false
    → (at : Found) × (walk segments current ≡ returned at)
unfolding walk
walk_total [] current h = (found current, refl)
walk_total (segment ∷ rest) current h =
    let (shown, more) = or-false (is_blank segment) (some_blank rest) h in
    rw shown (walk_on (walk rest) (entry_of current segment) λ v. walk_total rest v more)

root_total :
    (scope : Scope) (root : Text)
    → is_root root ≡ true
    → (fs : Fields) × (scope_root scope root ≡ returned fs)
unfolding scope_root
root_total scope root h = elim (Bool-cases (text_eq root (codes "payload"))) [
  | inl payload ↦ (scope.payload, rw payload)
  | inr not_payload ↦ elim (Bool-cases (text_eq root (codes "context"))) [
    | inl context ↦ (scope.context, rw (not_payload, context))
    | inr not_context ↦
        (scope.config, rw (not_payload, not_context, rw (not_payload, not_context) at h))
  ]
]

resolve_path_total :
    (scope : Scope) (path : Text)
    → is_blank path ≡ false
    → IsPath path
    → (at : Found) × (resolve_path scope path ≡ returned at)
unfolding resolve_path resolve_parts
resolve_path_total scope path shown (root, part, parts, e, rooted, whole) =
    let (fs, known) = root_total scope root rooted in
    let (at, there) = walk_total (part ∷ parts) (object fs) (or-false (is_blank root) _ whole).1 in
    (at, rw (shown, e, known) there)

module _ (host : Host) where
  numeric_only :
      (op : Operator) (actual value : Value) → OnlyOperands (eval_numeric host op actual value)
  unfolding eval_numeric
  numeric_only op actual value =
      RaisesOnly-bind IsOperandError (or_raise (as_number host actual) requires_numeric_path) _
        (or_raise-only IsOperandError (as_number host actual) tt)
        λ left _.
          RaisesOnly-bind IsOperandError (or_raise (as_number host value) requires_numeric_value) _
            (or_raise-only IsOperandError (as_number host value) tt) λ right _. tt

  textual_only :
      (op : Operator) (actual value : Value)
      → is_string value ≡ true
      → OnlyOperands (eval_textual host op actual value)
  unfolding eval_textual string_operands
  textual_only op (string t) (string s) h = tt
  textual_only op actual value h = ground arith

  regex_only :
      (re : Option Text) (actual : Value) (s : Text)
      → host.compiles (anchored s) ≡ true
      → OnlyOperands (eval_regex host re actual (string s))
  unfolding eval_regex string_operands match_compiled
  regex_only (some re) (string t) s h = tt
  regex_only none (string t) s h = rw h tt
  regex_only re actual s h = ground arith

  operator_only :
      (op : Operator) (at : Found) (value : Value) (re : Option Text)
      → ValueFits host op value
      → OnlyOperands (eval_operator host op at value re)
  unfolding eval_operator eval_in
  operator_only op_exists at value re h = tt
  operator_only op_eq at value re h = tt
  operator_only op_neq at value re h = tt
  operator_only op_in at (array vs) re h = tt
  operator_only op_contains at value re h = textual_only op_contains at.actual value h
  operator_only op_starts_with at value re h = textual_only op_starts_with at.actual value h
  operator_only op_ends_with at value re h = textual_only op_ends_with at.actual value h
  operator_only op_regex at (string s) re h = regex_only re at.actual s h
  operator_only op_gt at value re h = numeric_only op_gt at.actual value
  operator_only op_gte at value re h = numeric_only op_gte at.actual value
  operator_only op_lt at value re h = numeric_only op_lt at.actual value
  operator_only op_lte at value re h = numeric_only op_lte at.actual value
  operator_only op at value re h = ground arith

  atomic_only :
      (scope : Scope) (path op : Text) (value : Value) (re : Option Text)
      → IsPredicate host path op value
      → OnlyOperands (eval_atomic host scope path op value re)
  unfolding eval_atomic
  atomic_only scope path op value re (shown, proper, _, operator, known, fits) =
      let (at, there) = resolve_path_total scope path shown proper in
      rw (there, known) (operator_only operator at value re fits)

mutual
  unfolding eval WellFormed

  eval_only :
      (host : Host) (scope : Scope) (c : Condition)
      → WellFormed host c
      → OnlyOperands (eval host scope c)
  eval_only host scope (condition p o v (next_condition c cs) no_conditions no_condition re)
        (blank, w, ws) =
      eval_all_only host scope (next_condition c cs) (w, ws)
  eval_only host scope (condition p o v no_conditions (next_condition c cs) no_condition re)
        (blank, w, ws) =
      eval_any_only host scope (next_condition c cs) (w, ws)
  eval_only host scope (condition p o v no_conditions no_conditions (one_condition c) re)
        (blank, w) =
      RaisesOnly-bind IsOperandError (eval host scope c) _ (eval_only host scope c w) λ ok _. tt
  eval_only host scope (condition p o v no_conditions no_conditions no_condition re) w =
      atomic_only host scope p o v re w
  eval_only host scope (condition p o v no_conditions (next_condition c cs) (one_condition _) re)
        w =
      elim w [ ]
  eval_only host scope (condition p o v (next_condition c cs) no_conditions (one_condition _) re)
        w =
      elim w [ ]
  eval_only host scope (condition p o v (next_condition c cs) (next_condition _ _) _ re) w =
      elim w [ ]

  eval_all_only :
      (host : Host) (scope : Scope) (cs : Conditions)
      → EachWellFormed host cs
      → OnlyOperands (eval_all host scope cs)
  eval_all_only host scope no_conditions w = tt
  eval_all_only host scope (next_condition c cs) w =
      RaisesOnly-bind IsOperandError (eval host scope c) _ (eval_only host scope c w.0)
        λ ok _. if_only ok _ _ (eval_all_only host scope cs w.1) tt

  eval_any_only :
      (host : Host) (scope : Scope) (cs : Conditions)
      → EachWellFormed host cs
      → OnlyOperands (eval_any host scope cs)
  eval_any_only host scope no_conditions w = tt
  eval_any_only host scope (next_condition c cs) w =
      RaisesOnly-bind IsOperandError (eval host scope c) _ (eval_only host scope c w.0)
        λ ok _. if_only ok _ _ tt (eval_any_only host scope cs w.1)

mutual
  unfolding WellFormed with_regexes

  with_regexes-WellFormed :
      (host : Host) (c : Condition) → WellFormed host c → WellFormed host (with_regexes c)
  with_regexes-WellFormed host (condition p o v (next_condition c cs) no_conditions no_condition re)
        (blank, w, ws) =
      (blank, with_regexes-WellFormed host c w, each_with_regexes-WellFormed host cs ws)
  with_regexes-WellFormed host (condition p o v no_conditions (next_condition c cs) no_condition re)
        (blank, w, ws) =
      (blank, with_regexes-WellFormed host c w, each_with_regexes-WellFormed host cs ws)
  with_regexes-WellFormed host (condition p o v no_conditions no_conditions (one_condition c) re)
        (blank, w) =
      (blank, with_regexes-WellFormed host c w)
  with_regexes-WellFormed host (condition p o v no_conditions no_conditions no_condition re) w = w
  with_regexes-WellFormed host
        (condition p o v no_conditions (next_condition c cs) (one_condition _) re) w =
      elim w [ ]
  with_regexes-WellFormed host
        (condition p o v (next_condition c cs) no_conditions (one_condition _) re) w =
      elim w [ ]
  with_regexes-WellFormed host (condition p o v (next_condition c cs) (next_condition _ _) _ re) w =
      elim w [ ]

  each_with_regexes-WellFormed :
      (host : Host) (cs : Conditions)
      → EachWellFormed host cs
      → EachWellFormed host (each_with_regexes cs)
  each_with_regexes-WellFormed host no_conditions w = tt
  each_with_regexes-WellFormed host (next_condition c cs) w =
      (with_regexes-WellFormed host c w.0, each_with_regexes-WellFormed host cs w.1)

-- The evaluation of a condition that `Validate` accepted raises no error but that of a value which
-- is no number or no string where its operator wants one: no path, operator, list or pattern is
-- refused any more.
pub eval-validated :
    (host : Host) (c : Condition) (r : Condition × ℕ) (scope : Scope)
    → validate_root host c ≡ returned r
    → RaisesOnly IsOperandError (eval host scope r.0)
eval-validated host c r scope h =
    let (w, _, _, e) = (validate_root_lem host c r).0 h in
    rw e (eval_only host scope (with_regexes c) (with_regexes-WellFormed host c w))
