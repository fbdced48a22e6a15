-- ===== src/Router/Dsl/Build/Ranks.antt =====
-- A rank on the nodes of a builder under which each edge goes up, and how the parts of a step keep
-- one.
use ductile.Common.{
  ℕ, ◌<◌, ◌≡◌, refl, ◌⊎◌, inl, inr, true, false, ◌||◌, List, [], ◌∷◌, ◌++◌, arith, if◌then◌else◌,
  Bool-cases, or-false, All,
}
use ductile.Common.Text.{Text, text_eq, text_eq_refl, text_eq→eq, text_eq-false_comm}
use ductile.Router.Dsl.Types.{Node, Edge}
use ductile.Router.Dsl.Build.{Builder, has_node}

abbrev pub HasNode : List Node → Text → Type 0
HasNode nodes id = has_node id nodes ≡ true

-- No id twice.
abbrev pub UniqueIds : List Node → Type 0
UniqueIds [] = Unit
UniqueIds (n ∷ ns) = (has_node n.id ns ≡ false) × UniqueIds ns

-- Both ends of an edge are nodes, and the rank goes up.
abbrev pub Rises : List Node → (Text → ℕ) → Edge → Type 0
Rises nodes rank e = HasNode nodes e.from × HasNode nodes e.to × (rank e.from < rank e.to)

-- The ids are unique, the edges rise, and the ranks of the nodes are below a bound.
pub record Ranked (b : Builder) (bound : ℕ) (rank : Text → ℕ) : Type 0 where
  pub unique : UniqueIds b.nodes
  pub bounded : (id : Text) → HasNode b.nodes id → rank id < bound
  pub rising : All (Rises b.nodes rank) b.edges

has_node-append :
    (id : Text) (ns : List Node) (n : Node)
    → has_node id (ns ++ n ∷ []) ≡ (has_node id ns || text_eq n.id id)
unfolding has_node
has_node-append id [] n = ground arith
has_node-append id (m ∷ ns) n = ground (arith, has_node-append id ns n)

pub HasNode-append_left :
    (id : Text) (ns : List Node) (n : Node) → HasNode ns id → HasNode (ns ++ n ∷ []) id
HasNode-append_left id ns n h = ground (arith, has_node-append id ns n)

pub HasNode-last : (ns : List Node) (n : Node) → HasNode (ns ++ n ∷ []) n.id
HasNode-last ns n = ground (arith, has_node-append n.id ns n, text_eq_refl n.id)

pub HasNode-cases :
    (id : Text) (ns : List Node) (n : Node)
    → HasNode (ns ++ n ∷ []) id
    → HasNode ns id ⊎ (n.id ≡ id)
HasNode-cases id ns n h = elim (Bool-cases (has_node id ns)) [
  | inl old ↦ inl old
  | inr new ↦ inr (text_eq→eq n.id id (rw (has_node-append id ns n, new) at h))
]

pub UniqueIds-append :
    (ns : List Node) (n : Node) → UniqueIds ns → has_node n.id ns ≡ false → UniqueIds (ns ++ n ∷ [])
unfolding has_node
UniqueIds-append [] n u fresh = (refl, tt)
UniqueIds-append (m ∷ ns) n u fresh =
    let (other, rest) = or-false (text_eq m.id n.id) _ fresh in
    (
      rw (has_node-append m.id ns n, u.0) (text_eq-false_comm m.id n.id other),
      UniqueIds-append ns n u.1 rest,
    )

-- The rank with another value at one id.
abbrev pub ranked_at : Text → ℕ → (Text → ℕ) → Text → ℕ
ranked_at id k rank x = if text_eq id x then k else rank x

pub ranked_at_self : (id : Text) (k : ℕ) (rank : Text → ℕ) → ranked_at id k rank id ≡ k
ranked_at_self id k rank = rw (text_eq_refl id)

-- An id that is no node differs from one that is.
pub ranked_at-old :
    (ns : List Node) (id x : Text) (k : ℕ) (rank : Text → ℕ)
    → has_node id ns ≡ false
    → HasNode ns x
    → ranked_at id k rank x ≡ rank x
ranked_at-old ns id x k rank fresh old = elim (Bool-cases (text_eq id x)) [
  | inl same ↦ cc (fresh, old, text_eq→eq id x same)
  | inr other ↦ rw other
]
