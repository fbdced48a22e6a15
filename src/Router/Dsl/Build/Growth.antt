-- ===== src/Router/Dsl/Build/Growth.antt =====
-- What one step adds to a ranked builder: nodes of higher rank, edges between nodes that rise, and
-- entries and exits that are nodes.
use ductile.Common.{
  ℕ, ◌≤◌, ◌<◌, ◌≡◌, subst, inl, inr, false, List, [], ◌∷◌, ◌++◌, arith, All, All-append, All-map_id,
}
use ductile.Common.Text.{Text}
use ductile.Router.Dsl.Types.{Node, Edge, Exit}
use ductile.Router.Dsl.Build.{Builder, has_node, edges_to, edges_between, Piece}
use ductile.Router.Dsl.Build.Ranks.{
  HasNode, Rises, Ranked, HasNode-append_left, HasNode-cases, UniqueIds-append, ranked_at,
  ranked_at_self, ranked_at-old,
}

-- What was a node is one still, of the same rank.
abbrev pub Keeps : Builder → (Text → ℕ) → Builder → (Text → ℕ) → Type 0
Keeps b rank b' rank' =
    (id : Text) → HasNode b.nodes id → HasNode b'.nodes id × (rank' id ≡ rank id)

abbrev pub AtLeast : Builder → (Text → ℕ) → ℕ → Text → Type 0
AtLeast b rank low id = HasNode b.nodes id × (low ≤ rank id)

abbrev pub IsExit : Builder → Exit → Type 0
IsExit b exit = HasNode b.nodes exit.step_id

pub record Grown (b : Builder) (rank : Text → ℕ) (low : ℕ) (r : Piece × Builder) : Type 0 where
  pub bound : ℕ
  pub new_rank : Text → ℕ
  pub ranked : Ranked r.1 bound new_rank
  pub keeps : Keeps b rank r.1 new_rank
  pub entries : All (AtLeast r.1 new_rank low) r.0.entry
  pub exits : All (IsExit r.1) r.0.terminal
  pub above : low ≤ bound

Rises-kept :
    (b b' : Builder) (rank rank' : Text → ℕ)
    → Keeps b rank b' rank'
    → (e : Edge) → Rises b.nodes rank e
    → Rises b'.nodes rank' e
Rises-kept b b' rank rank' keeps e (from, to, up) =
    let (from', r₁) = keeps e.from from in
    let (to', r₂) = keeps e.to to in (from', to', omega arith)

-- A new node of any rank below the new bound.
module _ (b : Builder) (n : Node) (rank : Text → ℕ) (bound k : ℕ) where
  abbrev pub with_node : ℕ → List Text → Builder
  with_node next called = record b { nodes = b.nodes ++ n ∷ []; next_auto = next; called = called }

  pub with_node-Keeps :
      (next : ℕ) (called : List Text)
      → has_node n.id b.nodes ≡ false
      → Keeps b rank (with_node next called) (ranked_at n.id k rank)
  with_node-Keeps next called fresh id old =
      (HasNode-append_left id b.nodes n old, ranked_at-old b.nodes n.id id k rank fresh old)

  pub with_node-Ranked :
      (next : ℕ) (called : List Text) (bound' : ℕ)
      → has_node n.id b.nodes ≡ false
      → k < bound'
      → bound ≤ bound'
      → Ranked b bound rank
      → Ranked (with_node next called) bound' (ranked_at n.id k rank)
  with_node-Ranked next called bound' fresh under grows h = record {
    unique = UniqueIds-append b.nodes n h.unique fresh;
    bounded = λ id there. elim (HasNode-cases id b.nodes n there) [
      | inl old ↦ omega (arith, ranked_at-old b.nodes n.id id k rank fresh old, h.bounded id old)
      | inr same ↦
          subst (λ x. ranked_at n.id k rank x < bound') same
            (omega (arith, ranked_at_self n.id k rank))
    ];
    rising =
        All-map_id (Rises b.nodes rank) (Rises (b.nodes ++ n ∷ []) (ranked_at n.id k rank))
          (Rises-kept b (with_node next called) rank (ranked_at n.id k rank)
            (with_node-Keeps next called fresh))
          b.edges h.rising;
  }

-- More edges that rise.
pub add_rising :
    (b : Builder) (bound : ℕ) (rank : Text → ℕ) (edges : List Edge)
    → Ranked b bound rank
    → All (Rises b.nodes rank) edges
    → Ranked (record b { edges = b.edges ++ edges }) bound rank
add_rising b bound rank edges h up = record {
  unique = h.unique;
  bounded = h.bounded;
  rising = All-append (Rises b.nodes rank) b.edges edges h.rising up;
}

edges_to-Rises :
    (b : Builder) (bound : ℕ) (rank : Text → ℕ) (exit : Exit) (ids : List Text)
    → HasNode b.nodes exit.step_id
    → rank exit.step_id < bound
    → All (AtLeast b rank bound) ids
    → All (Rises b.nodes rank) (edges_to exit ids)
unfolding edges_to
edges_to-Rises b bound rank exit [] from under ends = tt
edges_to-Rises b bound rank exit (id ∷ ids) from under ends =
    ((from, ends.0.0, omega arith), edges_to-Rises b bound rank exit ids from under ends.1)

pub edges_between-Rises :
    (b : Builder) (bound : ℕ) (rank : Text → ℕ) (exits : List Exit) (ids : List Text)
    → All (λ e. HasNode b.nodes e.step_id × (rank e.step_id < bound)) exits
    → All (AtLeast b rank bound) ids
    → All (Rises b.nodes rank) (edges_between exits ids)
unfolding edges_between
edges_between-Rises b bound rank [] ids from ends = tt
edges_between-Rises b bound rank (exit ∷ exits) ids from ends =
    All-append (Rises b.nodes rank) (edges_to exit ids) (edges_between exits ids)
      (edges_to-Rises b bound rank exit ids from.0.0 from.0.1 ends)
      (edges_between-Rises b bound rank exits ids from.1 ends)
