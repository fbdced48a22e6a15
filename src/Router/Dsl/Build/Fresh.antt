-- ===== src/Router/Dsl/Build/Fresh.antt =====
-- The ids that allocNodeID gives, and its loop.
use ductile.Common.{
  ℕ, zero, suc, ◌+◌, ◌≤◌, ◌<◌, ◌≡◌, refl, sym, ap, subst, ◌∙◌, inl, inr, Bool, true, false, ◌||◌,
  List, [], ◌∷◌, ◌++◌, arith, Bool-cases, length,
}
use ductile.Common.Fallible.{returned, returned_inj}
use ductile.Common.Text.{Text, codes, text_eq, text_eq→eq, is_empty, trim_space}
use ductile.Common.Text.Decimal.{decimal_inj}
use ductile.Router.Conditions.Validate.{one_if}
use ductile.Router.Dsl.Types.{Node}
use ductile.Router.Dsl.Build.{Builder, has_node, auto_id, find_auto, alloc_node_id}

abbrev tail : Text → Text
tail [] = []
tail (c ∷ s) = s

prefix_inj : (p s t : Text) → (p ++ s) ≡ (p ++ t) → s ≡ t
prefix_inj [] s t h = h
prefix_inj (c ∷ p) s t h = prefix_inj p s t (ap tail h)

auto_id_inj : (m n : ℕ) → auto_id m ≡ auto_id n → m ≡ n
unfolding auto_id
auto_id_inj m n h = decimal_inj m n (prefix_inj (codes "step_") _ _ h)

-- How many of the candidates after `n` are the id.
hits : ℕ → ℕ → Text → ℕ
hits zero n id = 0
hits (suc fuel) n id = one_if (text_eq id (auto_id (n + 1))) + hits fuel (n + 1) id

-- How many of the candidates after `n` are taken.
taken : ℕ → ℕ → List Node → ℕ
taken zero n nodes = 0
taken (suc fuel) n nodes = one_if (has_node (auto_id (n + 1)) nodes) + taken fuel (n + 1) nodes

hits-passed : (fuel n j : ℕ) → j ≤ n → hits fuel n (auto_id j) ≡ 0
unfolding hits
hits-passed zero n j h = refl
hits-passed (suc fuel) n j h = elim (Bool-cases (text_eq (auto_id j) (auto_id (n + 1)))) [
  | inl same ↦ absurd (omega (arith, auto_id_inj j (n + 1) (text_eq→eq _ _ same)))
  | inr other ↦ rw (other, hits-passed fuel (n + 1) j (omega arith)) refl
]

hits-le : (fuel n : ℕ) (id : Text) → hits fuel n id ≤ 1
unfolding hits
hits-le zero n id = omega arith
hits-le (suc fuel) n id = elim (Bool-cases (text_eq id (auto_id (n + 1)))) [
  | inl same ↦
      rw (same, text_eq→eq _ _ same, hits-passed fuel (n + 1) (n + 1) (omega arith)) (omega arith)
  | inr other ↦ rw other (omega (arith, hits-le fuel (n + 1) id))
]

one_if-or : (a b : Bool) → one_if (a || b) ≤ one_if a + one_if b
one_if-or true b = omega arith
one_if-or false b = omega arith

taken-cons :
    (fuel n : ℕ) (x : Node) (nodes : List Node)
    → taken fuel n (x ∷ nodes) ≤ hits fuel n x.id + taken fuel n nodes
unfolding taken hits has_node
taken-cons zero n x nodes = omega arith
taken-cons (suc fuel) n x nodes = omega (
  arith,
  taken-cons fuel (n + 1) x nodes,
  one_if-or (text_eq x.id (auto_id (n + 1))) (has_node (auto_id (n + 1)) nodes),
)

none_taken : (fuel n : ℕ) → taken fuel n [] ≡ 0
unfolding taken has_node
none_taken zero n = refl
none_taken (suc fuel) n = omega (arith, none_taken fuel (n + 1))

taken-le : (fuel n : ℕ) (nodes : List Node) → taken fuel n nodes ≤ length nodes
taken-le fuel n [] = omega (arith, none_taken fuel n)
taken-le fuel n (x ∷ nodes) =
    omega (arith, taken-cons fuel n x nodes, hits-le fuel n x.id, taken-le fuel n nodes)

-- A loop that finds no free candidate has seen only taken ones.
find_auto-returns :
    (fuel n : ℕ) (nodes : List Node)
    → taken fuel n nodes < fuel
    → (r : Text × ℕ) × (find_auto fuel n nodes ≡ returned r) × (has_node r.0 nodes ≡ false)
unfolding find_auto taken
find_auto-returns zero n nodes h = elim h [ ]
find_auto-returns (suc fuel) n nodes h = elim (Bool-cases (has_node (auto_id (n + 1)) nodes)) [
  | inl used ↦ rw used (find_auto-returns fuel (n + 1) nodes (omega (arith, rw used at h)))
  | inr free ↦ ((auto_id (n + 1), n + 1), rw free, free)
]

-- The loop of `allocNodeID` ends: among as many candidates as there are nodes, and one more, one
-- is free, and the first such is the id.
find_auto_total :
    (n : ℕ) (nodes : List Node)
    → (r : Text × ℕ) × (find_auto (length nodes + 1) n nodes ≡ returned r)
      × (has_node r.0 nodes ≡ false)
find_auto_total n nodes =
    find_auto-returns (length nodes + 1) n nodes
      (omega (arith, taken-le (length nodes + 1) n nodes))

-- An id that was allocated is the id of no node.
pub alloc_node_id-fresh :
    (preferred : Text) (b : Builder) (r : Text × ℕ)
    → alloc_node_id preferred b ≡ returned r
    → has_node r.0 b.nodes ≡ false
unfolding alloc_node_id
alloc_node_id-fresh preferred b r h = elim (Bool-cases (is_empty (trim_space preferred))) [
  | inl auto ↦
      let (s, e, free) = find_auto_total b.next_auto b.nodes in
      subst (λ (x : Text × ℕ). has_node x.0 b.nodes ≡ false) (returned_inj (sym e ∙ rw auto at h))
        free
  | inr named ↦ elim (Bool-cases (has_node (trim_space preferred) b.nodes)) [
    | inl used ↦ cc (rw (named, used) at h)
    | inr free ↦
        subst (λ (x : Text × ℕ). has_node x.0 b.nodes ≡ false)
          (returned_inj (rw (named, free) at h)) free
  ]
]
