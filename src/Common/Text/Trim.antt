-- ===== src/Common/Text/Trim.antt =====
-- strings.TrimSpace applied twice.
use Prim.Native.Nat.{ℕ, ◌≤◌}
use mathlib.Core.Path.{◌≡◌, refl, sym, ap, ◌∙◌}
use mathlib.Core.Bool.{false}
use mathlib.Core.List.{[], ◌∷◌, ◌++◌, reverse, reverse-append, reverse-reverse}
use mathlib.Core.Logic.{inl, inr}
use native.Mathlib.Omega.{arith}
use ductile.Common.Tests.{Bool-cases}
use ductile.Common.Lists.{length}
use ductile.Common.Text.{Text, is_space, trim_left, trim_space}

length-trim_left-le : (s : Text) → length (trim_left s) ≤ length s
unfolding trim_left
length-trim_left-le [] = omega arith
length-trim_left-le (c ∷ s) = elim (Bool-cases (is_space c)) [
  | inl t ↦ rw t (omega (arith, length-trim_left-le s))
  | inr f ↦ rw f (omega arith)
]

-- A text that starts with no blank.
trim_left-cons : (c : ℕ) (s : Text) → trim_left (c ∷ s) ≡ c ∷ s → is_space c ≡ false
unfolding trim_left
trim_left-cons c s h = elim (Bool-cases (is_space c)) [
  | inl t ↦ absurd (omega (arith, length-trim_left-le s, ap (length {A = ℕ}) (rw t at h)))
  | inr f ↦ f
]

cons-trim_left : (c : ℕ) (s : Text) → is_space c ≡ false → trim_left (c ∷ s) ≡ c ∷ s
unfolding trim_left
cons-trim_left c s h = rw h

trim_left_idem : (s : Text) → trim_left (trim_left s) ≡ trim_left s
unfolding trim_left
trim_left_idem [] = refl
trim_left_idem (c ∷ s) = elim (Bool-cases (is_space c)) [
  | inl t ↦ rw t (trim_left_idem s)
  | inr f ↦ rw f (cons-trim_left c s f)
]

trim_left-split : (s : Text) → (pre : Text) × (s ≡ pre ++ trim_left s)
unfolding trim_left
trim_left-split [] = ([], refl)
trim_left-split (c ∷ s) = elim (Bool-cases (is_space c)) [
  | inl t ↦ let (pre, e) = trim_left-split s in (c ∷ pre, rw t (ap (◌∷◌ c) e))
  | inr f ↦ ([], rw f refl)
]

-- The text less its trailing blanks is a beginning of the text.
trim_right-split : (u : Text) → (post : Text) × (u ≡ reverse (trim_left (reverse u)) ++ post)
trim_right-split u =
    let (pre, e) = trim_left-split (reverse u) in
    (
      reverse pre,
      sym (reverse-reverse u) ∙ ap reverse e ∙ reverse-append pre (trim_left (reverse u)),
    )

trim_right-lead : (u v post : Text) → u ≡ v ++ post → trim_left u ≡ u → trim_left v ≡ v
unfolding trim_left
trim_right-lead u [] post e h = refl
trim_right-lead u (c ∷ v) post e h = cons-trim_left c v (trim_left-cons c (v ++ post) (rw e at h))

pub trim_space_idem : (s : Text) → trim_space (trim_space s) ≡ trim_space s
unfolding trim_space
trim_space_idem s =
    let u = trim_left s in
    let (post, e) = trim_right-split u in
    rw (trim_right-lead u (reverse (trim_left (reverse u))) post e (trim_left_idem s)) (
      ap reverse
        (ap trim_left (reverse-reverse (trim_left (reverse u))) ∙ trim_left_idem (reverse u)))
