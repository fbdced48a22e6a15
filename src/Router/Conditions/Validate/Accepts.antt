-- ===== src/Router/Conditions/Validate/Accepts.antt =====
-- What Validate accepts, against the description of conditions.
use ductile.Common.{
  ℕ, ◌+◌, ◌≤◌, ◌≡◌, refl, sym, ap, ◌∙◌, ◌↔◌, false, not, ◌||◌, Option, arith, ltb, ◌==◌,
  le→ltb-false, ltb-false→le, ==→eq, not-false, first,
}
use ductile.Common.Fallible.{
  Fallible, returned, ◌>>◌, raise_if, bind-returned, raise_if-returned, returned_inj,
}
use ductile.Common.Text.{Text}
use ductile.Router.Conditions.Types.{
  Value, Condition, condition, Conditions, no_conditions, next_condition, OptionalCondition,
  no_condition, one_condition, Host,
}
use ductile.Router.Conditions.Validate.{
  Place, at_if, at_all, at_any, at_not, ValidationError, max_depth_default, max_predicates_default,
  is_nil, one_if, is_blank, modes, check_atomic, validate, validate_each, validate_not,
  validate_root,
}
use ductile.Router.Conditions.Validate.WellFormed.{
  NoPredicate, WellFormed, EachWellFormed, NotWellFormed, nesting, depth_each, depth_not, size,
  size_each, size_not, with_regexes, each_with_regexes, not_with_regexes,
}
use ductile.Router.Conditions.Validate.Predicates.{check_atomic_complete, check_atomic_sound}

-- The modes of a node with one child list or child, and of a leaf.
module _ (path op : Text) (value : Value) where
  own_mode : ℕ
  own_mode = one_if (not (is_blank path) || (not (is_blank op) || not (is_nil value)))

  own_mode-zero : NoPredicate path op value → own_mode ≡ 0
  unfolding own_mode
  own_mode-zero (p, o, v) = rw (p, o, v)

  zero-NoPredicate : own_mode ≡ 0 → NoPredicate path op value
  unfolding own_mode
  zero-NoPredicate h = ground arith

  modes-all :
      (c : Condition) (cs : Conditions)
      → NoPredicate path op value
      → modes path op value (next_condition c cs) no_conditions no_condition ≡ 1
  unfolding modes own_mode
  modes-all c cs blank = omega (arith, own_mode-zero blank)

  modes-any :
      (c : Condition) (cs : Conditions)
      → NoPredicate path op value
      → modes path op value no_conditions (next_condition c cs) no_condition ≡ 1
  unfolding modes own_mode
  modes-any c cs blank = omega (arith, own_mode-zero blank)

  modes-not :
      (c : Condition)
      → NoPredicate path op value
      → modes path op value no_conditions no_conditions (one_condition c) ≡ 1
  unfolding modes own_mode
  modes-not c blank = omega (arith, own_mode-zero blank)

modes-leaf :
    (path op : Text) (value : Value)
    → is_blank path ≡ false
    → modes path op value no_conditions no_conditions no_condition ≡ 1
unfolding modes
modes-leaf path op value h = rw h

-- The three tests of each node.
module _ {A : Type 0} (d n m : ℕ) (e₁ e₂ e₃ : ValidationError)
    (k : Fallible ValidationError A) where
  abbrev guarded : Fallible ValidationError A
  guarded =
      raise_if (ltb max_depth_default d) e₁
      >> (raise_if (ltb max_predicates_default (n + 1)) e₂ >> (raise_if (not (m == 1)) e₃ >> k))

  guards_pass : d ≤ 3 → n + 1 ≤ 20 → m ≡ 1 → guarded ≡ k
  guards_pass deep big one = rw (le→ltb-false d 3 deep, le→ltb-false (n + 1) 20 big, one) refl

  guards_passed :
      {a : A} → guarded ≡ returned a → (d ≤ 3) × (n + 1 ≤ 20) × (m ≡ 1) × (k ≡ returned a)
  guards_passed h =
      let (deep, h₁) = raise_if-returned _ _ _ h in
      let (big, h₂) = raise_if-returned _ _ _ h₁ in
      let (one, h₃) = raise_if-returned _ _ _ h₂ in
      (ltb-false→le d 3 deep, ltb-false→le (n + 1) 20 big, ==→eq m 1 (not-false _ one), h₃)

mutual
  unfolding validate WellFormed nesting size with_regexes modes

  validate_complete :
      (host : Host) (c : Condition) (at : Place) (d n : ℕ)
      → WellFormed host c
      → d + nesting c ≤ 4
      → n + size c ≤ 20
      → validate host c at d n ≡ returned (with_regexes c, n + size c)
  validate_complete host (condition p o v (next_condition c cs) no_conditions no_condition re) at d
        n (blank, w, ws) deep big =
      guards_pass d n _ _ _ _ _ (omega arith) (omega arith) (modes-all p o v c cs blank)
      ∙ rw
          (validate_each_complete host (next_condition c cs) (at_all at) 0 (d + 1) (n + 1) (w, ws)
            (omega arith) (omega arith))
          (ground arith)
  validate_complete host (condition p o v no_conditions (next_condition c cs) no_condition re) at d
        n (blank, w, ws) deep big =
      guards_pass d n _ _ _ _ _ (omega arith) (omega arith) (modes-any p o v c cs blank)
      ∙ rw
          (validate_each_complete host (next_condition c cs) (at_any at) 0 (d + 1) (n + 1) (w, ws)
            (omega arith) (omega arith))
          (ground arith)
  validate_complete host (condition p o v no_conditions no_conditions (one_condition c) re) at d n
        (blank, w) deep big =
      guards_pass d n _ _ _ _ _ (omega arith) (omega arith) (modes-not p o v c blank)
      ∙ rw
          (validate_not_complete host (one_condition c) (at_not at) (d + 1) (n + 1) w (omega arith)
            (omega arith))
          (ground arith)
  validate_complete host (condition p o v no_conditions no_conditions no_condition re) at d n w deep
        big =
      guards_pass d n _ _ _ _ _ (omega arith) (omega arith) (modes-leaf p o v w.0)
      ∙ rw (check_atomic_complete host re at p o v w) refl
  validate_complete host (condition p o v no_conditions (next_condition c cs) (one_condition _) re)
        at d n w deep big =
      elim w [ ]
  validate_complete host (condition p o v (next_condition c cs) no_conditions (one_condition _) re)
        at d n w deep big =
      elim w [ ]
  validate_complete host (condition p o v (next_condition c cs) (next_condition _ _) _ re) at d n w
        deep big =
      elim w [ ]

  validate_each_complete :
      (host : Host) (cs : Conditions) (at : ℕ → Place) (i d n : ℕ)
      → EachWellFormed host cs
      → d + depth_each cs ≤ 4
      → n + size_each cs ≤ 20
      → validate_each host cs at i d n ≡ returned (each_with_regexes cs, n + size_each cs)
  validate_each_complete host no_conditions at i d n w deep big = ground arith
  validate_each_complete host (next_condition c cs) at i d n w deep big =
      rw
        (
          validate_complete host c (at i) d n w.0 (omega arith) (omega arith),
          validate_each_complete host cs at (i + 1) d (n + size c) w.1 (omega arith) (omega arith),
        )
        (ground arith)

  validate_not_complete :
      (host : Host) (c : OptionalCondition) (at : Place) (d n : ℕ)
      → NotWellFormed host c
      → d + depth_not c ≤ 4
      → n + size_not c ≤ 20
      → validate_not host c at d n ≡ returned (not_with_regexes c, n + size_not c)
  validate_not_complete host no_condition at d n w deep big = ground arith
  validate_not_complete host (one_condition c) at d n w deep big =
      rw (validate_complete host c at d n w (omega arith) (omega arith)) refl

module _ (host : Host) (p o : Text) (v : Value) (c : Condition) (cs : Conditions) where
  all_sound :
      (more : Conditions) (neg : OptionalCondition) (re : Option Text) (d n : ℕ) {m : ℕ}
      → modes p o v (next_condition c cs) more neg ≡ 1
      → EachWellFormed host (next_condition c cs)
      → d + 1 + depth_each (next_condition c cs) ≤ 4
      → n + 1 + size_each (next_condition c cs) ≤ 20
      → m ≡ n + 1 + size_each (next_condition c cs)
      → WellFormed host (condition p o v (next_condition c cs) more neg re)
        × (d + nesting (condition p o v (next_condition c cs) more neg re) ≤ 4)
        × (n + size (condition p o v (next_condition c cs) more neg re) ≤ 20)
        × (m ≡ n + size (condition p o v (next_condition c cs) more neg re))
  unfolding WellFormed nesting size modes own_mode
  all_sound no_conditions no_condition re d n one w deep big total =
      ((zero-NoPredicate p o v (omega arith), w.0, w.1), omega arith, omega arith, omega arith)
  all_sound more neg re d n one w deep big total = absurd (omega arith)

  any_sound :
      (neg : OptionalCondition) (re : Option Text) (d n : ℕ) {m : ℕ}
      → modes p o v no_conditions (next_condition c cs) neg ≡ 1
      → EachWellFormed host (next_condition c cs)
      → d + 1 + depth_each (next_condition c cs) ≤ 4
      → n + 1 + size_each (next_condition c cs) ≤ 20
      → m ≡ n + 1 + size_each (next_condition c cs)
      → WellFormed host (condition p o v no_conditions (next_condition c cs) neg re)
        × (d + nesting (condition p o v no_conditions (next_condition c cs) neg re) ≤ 4)
        × (n + size (condition p o v no_conditions (next_condition c cs) neg re) ≤ 20)
        × (m ≡ n + size (condition p o v no_conditions (next_condition c cs) neg re))
  unfolding WellFormed nesting size modes own_mode
  any_sound no_condition re d n one w deep big total =
      ((zero-NoPredicate p o v (omega arith), w.0, w.1), omega arith, omega arith, omega arith)
  any_sound neg re d n one w deep big total = absurd (omega arith)

mutual
  unfolding validate WellFormed nesting size modes own_mode

  validate_sound :
      (host : Host) (c : Condition) (at : Place) (d n : ℕ) {r : Condition × ℕ}
      → validate host c at d n ≡ returned r
      → WellFormed host c × (d + nesting c ≤ 4) × (n + size c ≤ 20) × (r.1 ≡ n + size c)
  validate_sound host (condition p o v (next_condition c cs) more neg re) at d n h =
      let (deep, big, one, h₁) =
        guards_passed d n (modes p o v (next_condition c cs) more neg) _ _ _ _ h in
      let (checked, each, h₂) =
        bind-returned (validate_each host (next_condition c cs) (at_all at) 0 (d + 1) (n + 1)) _
          h₁ in
      let (w, deeper, bigger, total) =
        validate_each_sound host (next_condition c cs) (at_all at) 0 (d + 1) (n + 1) (omega arith)
          (omega arith) each in
      all_sound host p o v c cs more neg re d n one w deeper bigger
        (omega (arith, ap (λ x. x.1) (returned_inj h₂)))
  validate_sound host (condition p o v no_conditions (next_condition c cs) neg re) at d n h =
      let (deep, big, one, h₁) =
        guards_passed d n (modes p o v no_conditions (next_condition c cs) neg) _ _ _ _ h in
      let (checked, each, h₂) =
        bind-returned (validate_each host (next_condition c cs) (at_any at) 0 (d + 1) (n + 1)) _
          h₁ in
      let (w, deeper, bigger, total) =
        validate_each_sound host (next_condition c cs) (at_any at) 0 (d + 1) (n + 1) (omega arith)
          (omega arith) each in
      any_sound host p o v c cs neg re d n one w deeper bigger
        (omega (arith, ap (λ x. x.1) (returned_inj h₂)))
  validate_sound host (condition p o v no_conditions no_conditions (one_condition c) re) at d n h =
      let (deep, big, one, h₁) =
        guards_passed d n (modes p o v no_conditions no_conditions (one_condition c)) _ _ _ _ h in
      let (checked, inner, h₂) =
        bind-returned (validate_not host (one_condition c) (at_not at) (d + 1) (n + 1)) _ h₁ in
      let (result, found, h₃) =
        bind-returned (validate host c (at_not at) (d + 1) (n + 1)) _ inner in
      let (w, deeper, bigger, total) = validate_sound host c (at_not at) (d + 1) (n + 1) found in
      (
        (zero-NoPredicate p o v (omega arith), w),
        omega arith,
        omega arith,
        omega (arith, ap (λ x. x.1) (returned_inj h₂), ap (λ x. x.1) (returned_inj h₃)),
      )
  validate_sound host (condition p o v no_conditions no_conditions no_condition re) at d n h =
      let (deep, big, one, h₁) =
        guards_passed d n (modes p o v no_conditions no_conditions no_condition) _ _ _ _ h in
      let (compiled, checked, h₂) = bind-returned (check_atomic host p o v re at) _ h₁ in
      (
        check_atomic_sound host re at p o v checked,
        omega arith,
        omega arith,
        omega (arith, ap (λ x. x.1) (returned_inj h₂)),
      )

  validate_each_sound :
      (host : Host) (cs : Conditions) (at : ℕ → Place) (i d n : ℕ) {r : Conditions × ℕ}
      → d ≤ 4
      → n ≤ 20
      → validate_each host cs at i d n ≡ returned r
      → EachWellFormed host cs
        × (d + depth_each cs ≤ 4)
        × (n + size_each cs ≤ 20)
        × (r.1 ≡ n + size_each cs)
  validate_each_sound host no_conditions at i d n deep big h =
      (tt, omega arith, omega arith, omega (arith, ap (λ x. x.1) (returned_inj h)))
  validate_each_sound host (next_condition c cs) at i d n deep big h =
      let (one, first, h₁) = bind-returned (validate host c (at i) d n) _ h in
      let (w, deeper, bigger, total) = validate_sound host c (at i) d n first in
      let (rest, others, h₂) = bind-returned (validate_each host cs at (i + 1) d one.1) _ h₁ in
      let (ws, deepest, biggest, sum) =
        validate_each_sound host cs at (i + 1) d one.1 deep (omega arith) others in
      ((w, ws), omega arith, omega arith, omega (arith, ap (λ x. x.1) (returned_inj h₂)))

-- `Validate` accepts a condition exactly where each node is one of a list `all`, a list `any`, a
-- `not` and a well-formed predicate, the nodes are nested at most three deep and there are at most
-- twenty of them; it leaves the same tree with the regular expressions compiled, and counts its
-- nodes.
pub validate_root_lem :
    (host : Host) (c : Condition) (r : Condition × ℕ)
    → (validate_root host c ≡ returned r)
      ↔ (WellFormed host c × (nesting c ≤ 3) × (size c ≤ 20) × (r ≡ (with_regexes c, size c)))
unfolding validate_root
validate_root_lem host c r = (
  λ h.
      let (w, deep, big, total) = validate_sound host c at_if 1 0 h in
      let again = validate_complete host c at_if 1 0 w deep big in
      (w, omega arith, omega arith, sym (returned_inj (sym again ∙ h)) ∙ ground arith),
  λ (w, deep, big, e).
      validate_complete host c at_if 1 0 w (omega arith) (omega arith) ∙ rw e (ground arith),
)
