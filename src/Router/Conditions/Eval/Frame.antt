-- ===== src/Router/Conditions/Eval/Frame.antt =====
-- The evaluation of a condition in two scopes that differ below one root.
use mathlib.Core.List.{reverse, reverse-append, append_assoc, append-nil}
use ductile.Common.{
  ℕ, ◌≡◌, refl, sym, ap, ◌∙◌, inl, inr, false, Option, List, [], ◌∷◌, ◌++◌, ◌==◌, Bool-cases,
  or-false,
}
use ductile.Common.Text.{Text, codes, text_eq, is_empty, trim_space, split_from, split}
use ductile.Router.Conditions.Types.{
  Value, Fields, Condition, condition, Conditions, no_conditions, next_condition, no_condition,
  one_condition, Scope, Host,
}
use ductile.Router.Conditions.Paths.{
  scope_root, resolve_parts, resolve_path, before_dot, reads_root, references_root,
  any_references_root,
}
use ductile.Router.Conditions.Eval.{eval_atomic, eval, eval_all, eval_any}

reverse-shift : (acc : Text) (c : ℕ) (s : Text) → reverse (c ∷ acc) ++ s ≡ reverse acc ++ c ∷ s
reverse-shift acc c s =
    ap (λ t. t ++ s) (reverse-append (c ∷ []) acc) ∙ append_assoc (reverse acc) (c ∷ []) s

-- The first piece of a split at dots is what stands before the first dot.
split_from-head :
    (acc s : Text)
    → (rest : List Text) × (split_from 46 acc s ≡ (reverse acc ++ before_dot s) ∷ rest)
unfolding split_from before_dot
split_from-head acc [] = ([], ap (λ t. t ∷ []) (sym (append-nil (reverse acc))))
split_from-head acc (c ∷ s) = elim (Bool-cases (c == 46)) [
  | inl dot ↦ (
    split_from 46 [] s,
    rw dot (ap (λ t. t ∷ split_from 46 [] s) (sym (append-nil (reverse acc)))),
  )
  | inr not_dot ↦
      let (rest, e) = split_from-head (c ∷ acc) s in
      (rest, rw (not_dot, e) (ap (λ t. t ∷ rest) (reverse-shift acc c (before_dot s))))
]

split-head : (s : Text) → (rest : List Text) × (split 46 s ≡ before_dot s ∷ rest)
unfolding split
split-head s = split_from-head [] s

abbrev with_context : Fields → Scope → Scope
with_context other scope = record scope { context = other }

scope_root-frame :
    (scope : Scope) (other : Fields) (root : Text)
    → text_eq root (codes "context") ≡ false
    → scope_root (with_context other scope) root ≡ scope_root scope root
unfolding scope_root
scope_root-frame scope other root h = rw h

resolve_path-frame :
    (scope : Scope) (other : Fields) (path : Text)
    → reads_root path (codes "context") ≡ false
    → resolve_path (with_context other scope) path ≡ resolve_path scope path
unfolding resolve_path resolve_parts reads_root
resolve_path-frame scope other path h = elim (Bool-cases (is_empty (trim_space path))) [
  | inl blank ↦ rw blank
  | inr shown ↦
      let (rest, e) = split-head (trim_space path) in
      rw (shown, e, scope_root-frame scope other (before_dot (trim_space path)) (rw shown at h))
]

eval_atomic_frame :
    (host : Host) (scope : Scope) (other : Fields) (path op : Text) (value : Value)
    (re : Option Text)
    → reads_root path (codes "context") ≡ false
    → eval_atomic host (with_context other scope) path op value re
      ≡ eval_atomic host scope path op value re
unfolding eval_atomic
eval_atomic_frame host scope other path op value re h = rw (resolve_path-frame scope other path h)

mutual
  unfolding eval references_root

  eval_frame :
      (host : Host) (scope : Scope) (other : Fields) (c : Condition)
      → references_root (codes "context") c ≡ false
      → eval host (with_context other scope) c ≡ eval host scope c
  eval_frame host scope other (condition p o v (next_condition c cs) more neg re) h =
      let (own, h₁) = or-false (reads_root p (codes "context")) _ h in
      let (here, h₂) =
        or-false (any_references_root (codes "context") (next_condition c cs)) _ h₁ in
      eval_all_frame host scope other (next_condition c cs) here
  eval_frame host scope other (condition p o v no_conditions (next_condition c cs) neg re) h =
      let (own, h₁) = or-false (reads_root p (codes "context")) _ h in
      let (here, h₂) =
        or-false (any_references_root (codes "context") (next_condition c cs)) _ h₁ in
      eval_any_frame host scope other (next_condition c cs) here
  eval_frame host scope other (condition p o v no_conditions no_conditions (one_condition c) re) h =
      let (own, h₁) = or-false (reads_root p (codes "context")) _ h in
      rw (eval_frame host scope other c h₁)
  eval_frame host scope other (condition p o v no_conditions no_conditions no_condition re) h =
      let (own, h₁) = or-false (reads_root p (codes "context")) _ h in
      eval_atomic_frame host scope other p o v re own

  eval_all_frame :
      (host : Host) (scope : Scope) (other : Fields) (cs : Conditions)
      → any_references_root (codes "context") cs ≡ false
      → eval_all host (with_context other scope) cs ≡ eval_all host scope cs
  eval_all_frame host scope other no_conditions h = refl
  eval_all_frame host scope other (next_condition c cs) h =
      let (here, rest) = or-false (references_root (codes "context") c) _ h in
      rw (eval_frame host scope other c here, eval_all_frame host scope other cs rest)

  eval_any_frame :
      (host : Host) (scope : Scope) (other : Fields) (cs : Conditions)
      → any_references_root (codes "context") cs ≡ false
      → eval_any host (with_context other scope) cs ≡ eval_any host scope cs
  eval_any_frame host scope other no_conditions h = refl
  eval_any_frame host scope other (next_condition c cs) h =
      let (here, rest) = or-false (references_root (codes "context") c) _ h in
      rw (eval_frame host scope other c here, eval_any_frame host scope other cs rest)

-- A condition that does not reference the root "context" by `ReferencesRoot` has the same outcome,
-- its errors included, whatever the context of the scope is.
eval-context_free :
    (host : Host) (scope : Scope) (other : Fields) (c : Condition)
    → references_root (codes "context") c ≡ false
    → eval host (record scope { context = other }) c ≡ eval host scope c
eval-context_free host scope other c h = eval_frame host scope other c h
