-- ===== src/Router/Dsl/Build/Leaves.antt =====
-- The steps that compile to one node, with or without a switch before it.
use ductile.Router.Dsl.Types.{Node, Exit}
use ductile.Common.{
  ℕ, ◌+◌, ◌≤◌, ◌<◌, ◌≡◌, subst, ◌∙◌, inl, inr, Bool, false, Option, none, some, List, [], ◌∷◌, ◌++◌,
  arith, Bool-cases, first, All,
}
use ductile.Common.Fallible.{returned, bind-returned, returned_inj}
use ductile.Common.Text.{Text, codes, text_eq}
use ductile.Router.Conditions.Types.{Condition}
use ductile.Router.Dsl.Order.{
  text_lt, insert_unique, sort_unique, sorted_unique, exit_lt, exit_eq, sorted_compile_exits,
}
use ductile.Router.Dsl.Build.{
  Builder, has_node, alloc_node_id, switch_node_for, Piece, exit_at, wrap_conditional_step,
  add_leaf,
}
use ductile.Router.Dsl.Build.Fresh.{alloc_node_id-fresh}
use ductile.Router.Dsl.Build.Ranks.{HasNode, Ranked, HasNode-last, ranked_at, ranked_at_self}
use ductile.Router.Dsl.Build.Growth.{
  Keeps, IsExit, Grown, with_node, with_node-Keeps, with_node-Ranked, add_rising,
}

-- What holds of each element holds of each of the sorted list.
module _ {A : Type 0} (lt eq : A → A → Bool) (P : A → Type 0) where
  All-insert_unique : (x : A) (ys : List A) → P x → All P ys → All P (insert_unique lt eq x ys)
  unfolding insert_unique
  All-insert_unique x [] p q = (p, tt)
  All-insert_unique x (y ∷ ys) p q = elim (Bool-cases (eq x y)) [
    | inl same ↦ rw same q
    | inr other ↦ elim (Bool-cases (lt x y)) [
      | inl less ↦ rw (other, less) (p, q)
      | inr more ↦ rw (other, more) (q.0, All-insert_unique x ys p q.1)
    ]
  ]

  All-sort_unique : (xs : List A) → All P xs → All P (sort_unique lt eq xs)
  unfolding sort_unique
  All-sort_unique [] p = tt
  All-sort_unique (x ∷ xs) p = All-insert_unique x _ p.0 (All-sort_unique xs p.1)

pub All-sorted_compile_exits :
    (P : Exit → Type 0) (xs : List Exit) → All P xs → All P (sorted_compile_exits xs)
unfolding sorted_compile_exits
All-sorted_compile_exits P xs p = All-sort_unique exit_lt exit_eq P xs p

pub All-sorted_unique : (P : Text → Type 0) (xs : List Text) → All P xs → All P (sorted_unique xs)
unfolding sorted_unique
All-sorted_unique P xs p = All-sort_unique text_lt text_eq P xs p

-- Growth from a later builder that kept what the earlier one had.
pub keep_before :
    (b mid : Builder) (rank rank' : Text → ℕ) (low : ℕ) (r : Piece × Builder)
    → Keeps b rank mid rank'
    → Grown mid rank' low r
    → Grown b rank low r
keep_before b mid rank rank' low r first g = record {
  bound = g.bound;
  new_rank = g.new_rank;
  ranked = g.ranked;
  keeps = λ id old.
      let (there, same) = first id old in
      let (there', same') = g.keeps id there in (there', same' ∙ same);
  entries = g.entries;
  exits = g.exits;
  above = g.above;
}

-- A switch before a node that was just added.
wrap-Grown :
    (id : Text) (cond : Condition) (b : Builder) (rank : Text → ℕ) (bound low : ℕ)
    (r : Piece × Builder)
    → Ranked b bound rank
    → HasNode b.nodes id
    → low < rank id
    → low ≤ bound
    → wrap_conditional_step id cond b ≡ returned r
    → Grown b rank low r
unfolding wrap_conditional_step
wrap-Grown id cond b rank bound low r ranked there above below h =
    let (allocated, found, h₁) = bind-returned (alloc_node_id (id ++ codes "__switch") b) _ h in
    let fresh = alloc_node_id-fresh (id ++ codes "__switch") b allocated found in
    let switch = switch_node_for allocated.0 cond in
    let keeps = with_node-Keeps b switch rank bound low allocated.1 b.called fresh in
    let new_rank = ranked_at allocated.0 low rank in
    let at_switch = ranked_at_self allocated.0 low rank in
    let (there', same) = keeps id there in
    subst (Grown b rank low) (returned_inj h₁) (record {
      bound = bound;
      new_rank = new_rank;
      ranked =
          add_rising (with_node b switch rank bound low allocated.1 b.called) bound new_rank _
            (with_node-Ranked b switch rank bound low allocated.1 b.called bound fresh
              (omega (arith, ranked.bounded id there)) (omega arith) ranked)
            ((HasNode-last b.nodes switch, there', omega (arith, at_switch)), tt);
      keeps = keeps;
      entries = ((HasNode-last b.nodes switch, omega (arith, at_switch)), tt);
      exits =
          All-sorted_compile_exits (IsExit (with_node b switch rank bound low allocated.1 b.called))
            (exit_at id
              ∷ record { step_id = allocated.0; event_type = codes "ductile.switch.false" }
              ∷ [])
            (there', (HasNode-last b.nodes switch, tt));
      above = below;
    })

-- A new node of the next rank, and before it a switch if there is a condition.
pub add_leaf-Grown :
    (cond : Option Condition) (n : Node) (next : ℕ) (called : List Text) (b : Builder)
    (rank : Text → ℕ) (bound : ℕ) (r : Piece × Builder)
    → has_node n.id b.nodes ≡ false
    → Ranked b bound rank
    → add_leaf cond n next called b ≡ returned r
    → Grown b rank bound r
unfolding add_leaf
add_leaf-Grown none n next called b rank bound r fresh ranked h =
    subst (Grown b rank bound) (returned_inj h) (record {
      bound = bound + 1;
      new_rank = ranked_at n.id bound rank;
      ranked =
          with_node-Ranked b n rank bound bound next called (bound + 1) fresh (omega arith)
            (omega arith) ranked;
      keeps = with_node-Keeps b n rank bound bound next called fresh;
      entries = ((HasNode-last b.nodes n, omega (arith, ranked_at_self n.id bound rank)), tt);
      exits = (HasNode-last b.nodes n, tt);
      above = omega arith;
    })
add_leaf-Grown (some cond) n next called b rank bound r fresh ranked h =
    let k = bound + 1 in
    let wrapped =
      wrap-Grown n.id cond (with_node b n rank bound k next called) (ranked_at n.id k rank)
        (bound + 2) bound r
        (with_node-Ranked b n rank bound k next called (bound + 2) fresh (omega arith) (omega arith)
          ranked)
        (HasNode-last b.nodes n) (omega (arith, ranked_at_self n.id k rank)) (omega arith) h in
    keep_before b (with_node b n rank bound k next called) rank (ranked_at n.id k rank) bound r
      (with_node-Keeps b n rank bound k next called fresh) wrapped
