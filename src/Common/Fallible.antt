-- ===== src/Common/Fallible.antt =====
-- Go's pair of a value and an error, of which one is present.
use mathlib.Core.Bool.{Bool, true, false}
use mathlib.Core.Option.{Option, none, some}
use mathlib.Core.Path.{◌≡◌, refl, ap}

pub data Fallible (E : Type 0) (A : Type 0) : Type 0 where
  returned : A → Fallible E A
  raised : E → Fallible E A

infixl 5 ◌>>=◌ ◌>>◌
abbrev pub ◌>>=◌ : {E A B : Type 0} → Fallible E A → (A → Fallible E B) → Fallible E B
returned a >>= f = f a
raised e >>= f = raised e

abbrev pub ◌>>◌ : {E B : Type 0} → Fallible E (Unit {0}) → Fallible E B → Fallible E B
m >> k = m >>= λ _. k

-- `if test { return err }`
abbrev pub raise_if : {E : Type 0} → Bool → E → Fallible E (Unit {0})
raise_if true e = raised e
raise_if false e = returned tt

-- `if !ok { return err }`
abbrev pub or_raise : {E A : Type 0} → Option A → E → Fallible E A
or_raise none e = raised e
or_raise (some a) e = returned a

-- `fmt.Errorf("...: %w", err)`
abbrev pub wrapped : {E F A : Type 0} → (E → F) → Fallible E A → Fallible F A
wrapped f (returned a) = returned a
wrapped f (raised e) = raised (f e)

abbrev value_or : {E A : Type 0} → A → Fallible E A → A
value_or a (returned b) = b
value_or a (raised e) = a

-- The error is one of those that the predicate allows; a value is allowed.
abbrev pub RaisesOnly : {E A : Type 0} → (E → Type 0) → Fallible E A → Type 0
RaisesOnly P (returned a) = Unit
RaisesOnly P (raised e) = P e

module _ {E A B : Type 0} where
  pub bind-returned :
      (m : Fallible E A) (f : A → Fallible E B) {b : B}
      → (m >>= f) ≡ returned b
      → (a : A) × (m ≡ returned a) × (f a ≡ returned b)
  bind-returned (returned a) f h = (a, refl, h)
  bind-returned (raised e) f h = cc

  pub RaisesOnly-bind :
      (P : E → Type 0) (m : Fallible E A) (f : A → Fallible E B)
      → RaisesOnly P m
      → ((a : A) → m ≡ returned a → RaisesOnly P (f a))
      → RaisesOnly P (m >>= f)
  RaisesOnly-bind P (returned a) f h k = k a refl
  RaisesOnly-bind P (raised e) f h k = h

-- Past a guard.
pub raise_if-returned :
    {E B : Type 0} (b : Bool) (e : E) (k : Fallible E B) {c : B}
    → (raise_if b e >> k) ≡ returned c
    → (b ≡ false) × (k ≡ returned c)
raise_if-returned true e k h = cc
raise_if-returned false e k h = (refl, h)

pub raise_if-false : {E : Type 0} (b : Bool) (e : E) → raise_if b e ≡ returned tt → b ≡ false
raise_if-false true e h = cc
raise_if-false false e h = refl

pub or_raise-returned :
    {E A : Type 0} (m : Option A) (e : E) {a : A} → or_raise m e ≡ returned a → m ≡ some a
or_raise-returned none e h = cc
or_raise-returned (some b) e h = cc

pub returned_inj :
    {E A : Type 0} {a b : A} → ◌≡◌ {A = Fallible E A} (returned a) (returned b) → a ≡ b
returned_inj {a} h = ap (value_or a) h

pub or_raise-only :
    {E A : Type 0} (P : E → Type 0) (m : Option A) {e : E} → P e → RaisesOnly P (or_raise m e)
or_raise-only P none h = h
or_raise-only P (some a) h = tt

pub wrapped-returned :
    {E F A : Type 0} (f : E → F) (m : Fallible E A) {a : A}
    → wrapped f m ≡ returned a
    → m ≡ returned a
wrapped-returned f (returned b) h = ap returned (returned_inj h)
wrapped-returned f (raised e) h = cc
