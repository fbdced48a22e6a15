-- ===== src/Router/Dsl/Dag/Counts.antt =====
-- Membership in lists of ids, and the edges into a node that come from no processed node.
use ductile.Common.{
  ℕ, ◌+◌, ◌<◌, ◌≡◌, refl, sym, subst, inl, inr, Bool, true, false, not, ◌&&◌, ◌||◌, List, [], ◌∷◌,
  ◌++◌, arith, Bool-cases, or-false, not-true, and-true, count, In,
}
use ductile.Common.Text.{Text, text_eq, text_eq→eq, text_eq-false_comm}
use ductile.Router.Dsl.Types.{Edge}
use ductile.Router.Dsl.Dag.{successors, in_degree}

unfoldable pub mem : Text → List Text → Bool
mem v [] = false
mem v (x ∷ xs) = text_eq v x || mem v xs

abbrev pub Distinct : List Text → Type 0
Distinct [] = Unit
Distinct (x ∷ xs) = (mem x xs ≡ false) × Distinct xs

pub mem-append : (v x : Text) (xs : List Text) → mem v (xs ++ x ∷ []) ≡ (mem v xs || text_eq v x)
unfolding mem
mem-append v x [] = ground arith
mem-append v x (y ∷ xs) = ground (arith, mem-append v x xs)

pub Distinct-append :
    (x : Text) (xs : List Text) → Distinct xs → mem x xs ≡ false → Distinct (xs ++ x ∷ [])
unfolding mem
Distinct-append x [] d fresh = (refl, tt)
Distinct-append x (y ∷ xs) d fresh =
    let (other, rest) = or-false (text_eq x y) _ fresh in
    (rw (mem-append y x xs, d.0) (text_eq-false_comm x y other), Distinct-append x xs d.1 rest)

abbrev pub occurrences : Text → List Text → ℕ
occurrences v ts = count (λ t. text_eq t v) ts

-- The edges into `v` from outside the processed nodes.
abbrev pub pending : List Edge → List Text → Text → ℕ
pending edges done v = count (λ e. text_eq e.to v && not (mem e.from done)) edges

count_pos :
    {A : Type 0} (p : A → Bool) (xs : List A) → 0 < count p xs → (x : A) × In x xs × (p x ≡ true)
count_pos p [] h = elim h [ ]
count_pos p (x ∷ xs) h = elim (Bool-cases (p x)) [
  | inl yes_x ↦ (x, inl refl, yes_x)
  | inr no_x ↦
      let (y, there, holds) = count_pos p xs (omega (arith, rw no_x at h)) in (y, inr there, holds)
]

pub count_congr :
    {A : Type 0} (p q : A → Bool) → ((x : A) → p x ≡ q x) → (xs : List A) → count p xs ≡ count q xs
count_congr p q same [] = refl
count_congr p q same (x ∷ xs) = rw (same x, count_congr p q same xs) refl

-- The edges that the processing of `n` takes out of the pending ones are its successors.
pub pending-processed :
    (edges : List Edge) (done : List Text) (n v : Text)
    → mem n done ≡ false
    → pending edges done v ≡ pending edges (n ∷ done) v + occurrences v (successors edges n)
unfolding mem successors
pending-processed [] done n v fresh = omega arith
pending-processed (e ∷ es) done n v fresh = elim (Bool-cases (text_eq e.from n)) [
  | inl same ↦
      let gone = subst (λ x. mem x done ≡ false) (sym (text_eq→eq e.from n same)) fresh in
      rw (same, gone) (ground (arith, pending-processed es done n v fresh))
  | inr other ↦ rw other (ground (arith, pending-processed es done n v fresh))
]

pub pending-none : (edges : List Edge) (v : Text) → in_degree edges v ≡ pending edges [] v
unfolding in_degree mem
pending-none edges v = count_congr _ _ (λ e. ground arith) edges

-- A source that is still pending.
pub pending-source :
    (edges : List Edge) (done : List Text) (v : Text)
    → 0 < pending edges done v
    → (e : Edge) × In e edges × (e.to ≡ v) × (mem e.from done ≡ false)
pending-source edges done v h =
    let (e, there, holds) = count_pos _ edges h in
    let (arrives, open_source) = and-true (text_eq e.to v) (not (mem e.from done)) holds in
    (e, there, text_eq→eq e.to v arrives, not-true (mem e.from done) open_source)
