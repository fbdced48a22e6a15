-- ===== src/Queue/Stamp.antt =====
-- How the store orders instants: as the texts of `Format(time.RFC3339Nano)`, which SQLite compares
-- byte by byte. An instant is a number of nanoseconds since the epoch.
use ductile.Common.{
  ℕ, zero, suc, ◌+◌, ◌*◌, ◌/◌, ◌%◌, ◌^◌, ◌≤◌, ◌<◌, Bool, true, false, not, ◌&&◌, ◌||◌, [], ◌∷◌,
  ◌++◌, ◌≡◌, refl, ltb, ◌==◌, if◌then◌else◌, arith,
}
use ductile.Common.Text.{Text, is_empty}

abbrev pub second : ℕ
second = 1_000_000_000

-- The bytewise order of two texts, BINARY in SQLite.
text_le : Text → Text → Bool
text_le [] t = true
text_le (a ∷ s) [] = false
text_le (a ∷ s) (b ∷ t) = ltb a b || (a == b && text_le s t)

-- The `k` last decimal digits of a number, the highest first.
last_digits : ℕ → ℕ → Text
last_digits zero n = []
last_digits (suc k) n = (48 + n / 10 ^ k % 10) ∷ last_digits k n

strip_zeros : Text → Text
strip_zeros [] = []
strip_zeros (d ∷ s) = let rest = strip_zeros s in if d == 48 && is_empty rest then [] else d ∷ rest

-- What follows the seconds in a UTC stamp: the fraction with its trailing zeros removed, and `Z`.
fraction : ℕ → Text
unfolding last_digits strip_zeros
fraction n = if n == 0 then 90 ∷ [] else 46 ∷ (strip_zeros (last_digits 9 n) ++ 90 ∷ [])

-- The stamps' `<=`. Up to the seconds every stamp has one width, so that part sorts as the number.
unfoldable pub stamp_le : ℕ → ℕ → Bool
unfolding text_le fraction
stamp_le a b =
    ltb (a / second) (b / second)
    || (a / second == b / second && text_le (fraction (a % second)) (fraction (b % second)))

-- The stamps' `<`.
abbrev pub stamp_lt : ℕ → ℕ → Bool
stamp_lt a b = not (stamp_le b a)

text_le_total : (s t : Text) → text_le s t ≡ false → text_le t s ≡ true
unfolding text_le
text_le_total [] t h = cc
text_le_total (a ∷ s) [] h = refl
text_le_total (a ∷ s) (b ∷ t) h = ground (arith, text_le_total s t)

text_le_trans : (s t u : Text) → text_le s t ≡ true → text_le t u ≡ true → text_le s u ≡ true
unfolding text_le
text_le_trans [] t u h k = refl
text_le_trans (a ∷ s) [] u h k = cc
text_le_trans (a ∷ s) (b ∷ t) [] h k = cc
text_le_trans (a ∷ s) (b ∷ t) (c ∷ u) h k = ground (arith, text_le_trans s t u)

text_le_refl : (s : Text) → text_le s s ≡ true
unfolding text_le
text_le_refl [] = refl
text_le_refl (a ∷ s) = ground (arith, text_le_refl s)

-- Stamps are totally ordered, and the order is transitive: `ORDER BY created_at` is well defined.
pub stamp_le_total : (a b : ℕ) → stamp_le a b ≡ false → stamp_le b a ≡ true
unfolding stamp_le
stamp_le_total a b h = ground (arith, text_le_total (fraction (a % second)) (fraction (b % second)))

pub stamp_le_refl : (a : ℕ) → stamp_le a a ≡ true
unfolding stamp_le
stamp_le_refl a = ground (arith, text_le_refl (fraction (a % second)))

-- Pairs in lexicographic order, the second parts compared by tests that compose.
lex_trans :
    (x y z : ℕ) (p q r : Bool)
    → (p ≡ true → q ≡ true → r ≡ true)
    → (ltb x y || (x == y && p)) ≡ true
    → (ltb y z || (y == z && q)) ≡ true
    → (ltb x z || (x == z && r)) ≡ true
lex_trans x y z p q r c h k = ground arith

pub stamp_le_trans : (a b c : ℕ) → stamp_le a b ≡ true → stamp_le b c ≡ true → stamp_le a c ≡ true
unfolding stamp_le
stamp_le_trans a b c =
    lex_trans (a / second) (b / second) (c / second) _ _ _
      (text_le_trans (fraction (a % second)) (fraction (b % second)) (fraction (c % second)))

-- The order of the texts is the order of the whole seconds, and within a second it may differ.
stamp_le→seconds : (a b : ℕ) → stamp_le a b ≡ true → a / second ≤ b / second
unfolding stamp_le
stamp_le→seconds a b h = ground arith

seconds→stamp_le : (a b : ℕ) → a / second < b / second → stamp_le a b ≡ true
unfolding stamp_le
seconds→stamp_le a b h = ground arith

-- A stamp that sorts at or before another is less than a second later than it.
pub stamp_le→lt : (a b : ℕ) → stamp_le a b ≡ true → a < b + second
stamp_le→lt a b h = omega (arith, stamp_le→seconds a b h)

-- An instant that is a second or more earlier sorts before.
pub stamp_le_of_second : (a b : ℕ) → a + second ≤ b → stamp_le a b ≡ true
stamp_le_of_second a b h = seconds→stamp_le a b (omega arith)

pub stamp_not_le→lt : (a b : ℕ) → stamp_le a b ≡ false → b < a + second
stamp_not_le→lt a b h = stamp_le→lt b a (stamp_le_total a b h)

-- Within a second, an instant with a fraction sorts before the whole second: `.` is before `Z`.
pub fraction-first :
    (k f : ℕ)
    → 0 < f
    → f < second
    → (stamp_le (k * second + f) (k * second) ≡ true)
      × (stamp_le (k * second) (k * second + f) ≡ false)
unfolding stamp_le fraction text_le
fraction-first k f p l =
    let a : (k * second + f) / second ≡ k = omega arith in
    let b : (k * second + f) % second ≡ f = omega arith in
    let c : (k * second) / second ≡ k = omega arith in
    let d : (k * second) % second ≡ 0 = omega arith in
    let z : (f == 0) ≡ false = ground arith in rw (a, b, c, d, z) (ground arith, ground arith)
