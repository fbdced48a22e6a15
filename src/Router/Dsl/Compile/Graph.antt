-- ===== src/Router/Dsl/Compile/Graph.antt =====
-- The graph of a compiled pipeline, and the check for cycles on it.
use ductile.Common.{
  ℕ, ◌≡◌, subst, inl, inr, Bool, not, ◌&&◌, Option, List, [], ◌∷◌, arith, Bool-cases, All,
  All-map_id,
}
use ductile.Common.Fallible.{returned, bind-returned, raise_if-returned, returned_inj}
use ductile.Common.Text.{Text}
use ductile.Router.Conditions.Types.{Condition, Host}
use ductile.Router.Conditions.Validate.{is_blank}
use ductile.Router.Dsl.Types.{StepSpecs, PipelineSpec, Node, Edge, Exit, Pipeline}
use ductile.Router.Dsl.Order.{
  insert_sorted, sort_by, sorted_unique, sorted_compile_exits, edge_lt, sort_edges,
}
use ductile.Router.Dsl.Checks.{on_required, on_exclusive, steps_required, hook_context}
use ductile.Router.Dsl.Build.{Builder, has_node, Piece, steps_empty, check_condition, compile_steps}
use ductile.Router.Dsl.Build.Ranks.{HasNode, UniqueIds, Rises, Ranked}
use ductile.Router.Dsl.Build.Growth.{AtLeast}
use ductile.Router.Dsl.Build.Leaves.{All-sorted_compile_exits, All-sorted_unique}
use ductile.Router.Dsl.Build.Steps.{compile_from-Grown}
use ductile.Router.Dsl.Dag.{validate_pipeline_dag}
use ductile.Router.Dsl.Dag.Rounds.{IsClosed}
use ductile.Router.Dsl.Dag.Decides.{Rising, validate_pipeline_dag_lem}
use ductile.Router.Dsl.Compile.{
  empty_builder, reads_context, author_max_depth, assembled, compile_pipeline,
}

module _ {A : Type 0} (lt : A → A → Bool) (P : A → Type 0) where
  All-insert_sorted : (x : A) (ys : List A) → P x → All P ys → All P (insert_sorted lt x ys)
  unfolding insert_sorted
  All-insert_sorted x [] p q = (p, tt)
  All-insert_sorted x (y ∷ ys) p q = elim (Bool-cases (lt y x)) [
    | inl less ↦ rw less (q.0, All-insert_sorted x ys p q.1)
    | inr more ↦ rw more (p, q)
  ]

  pub All-sort_by : (xs : List A) → All P xs → All P (sort_by lt xs)
  unfolding sort_by
  All-sort_by [] p = tt
  All-sort_by (x ∷ xs) p = All-insert_sorted x _ p.0 (All-sort_by xs p.1)

All-sort_edges : (P : Edge → Type 0) (es : List Edge) → All P es → All P (sort_edges es)
unfolding sort_edges
All-sort_edges P es p = All-sort_by edge_lt P es p

-- The nodes have unique ids, the edges lead from a node to a node of higher rank, and the entries
-- and the exits are nodes.
pub record IsGraph (nodes : List Node) (edges : List Edge) (entry : List Text) (exits : List Exit)
    : Type 0 where
  pub unique : UniqueIds nodes
  pub closed : All (IsClosed nodes) edges
  pub rank : Text → ℕ
  pub rising : All (Rising rank) edges
  pub entries_known : All (HasNode nodes) entry
  pub exits_known : All (λ e. HasNode nodes e.step_id) exits

start-Ranked : Ranked empty_builder 0 (λ v. 0)
unfolding has_node
start-Ranked = record { unique = tt; bounded = λ id h. cc; rising = tt }

compile_steps-IsGraph :
    (host : Host) (specs : StepSpecs) (r : Piece × Builder)
    → compile_steps host specs empty_builder ≡ returned r
    → IsGraph r.1.nodes
        (sort_edges r.1.edges)
        (sorted_unique r.0.entry)
        (sorted_compile_exits r.0.terminal)
unfolding compile_steps
compile_steps-IsGraph host specs r h =
    let (some_steps, h₁) = raise_if-returned (steps_empty specs) steps_required _ h in
    let g =
      compile_from-Grown host specs 0 [] [] empty_builder (λ v. 0) 0 0 r (omega arith) start-Ranked
        tt tt h₁ in
    record {
      unique = g.ranked.unique;
      closed = All-sort_edges (IsClosed r.1.nodes) r.1.edges (
          All-map_id (Rises r.1.nodes g.new_rank) (IsClosed r.1.nodes) (λ e up. (up.0, up.1))
            r.1.edges g.ranked.rising);
      rank = g.new_rank;
      rising = All-sort_edges (Rising g.new_rank) r.1.edges (
          All-map_id (Rises r.1.nodes g.new_rank) (Rising g.new_rank) (λ e up. up.2) r.1.edges
            g.ranked.rising);
      entries_known = All-sorted_unique (HasNode r.1.nodes) r.0.entry (
          All-map_id (AtLeast r.1 g.new_rank 0) (HasNode r.1.nodes) (λ id a. a.0) r.0.entry
            g.entries);
      exits_known =
          All-sorted_compile_exits (λ e. HasNode r.1.nodes e.step_id) r.0.terminal g.exits;
    }

-- Whatever the steps, the graph that they compile to is one that `validatePipelineDAG` accepts: no
-- pipeline is ever refused for a cycle or for an edge without a node.
pub compile_steps-accepted :
    (host : Host) (specs : StepSpecs) (r : Piece × Builder)
    → compile_steps host specs empty_builder ≡ returned r
    → validate_pipeline_dag r.1.nodes (sort_edges r.1.edges) ≡ returned tt
compile_steps-accepted host specs r h =
    let g = compile_steps-IsGraph host specs r h in
    (validate_pipeline_dag_lem r.1.nodes (sort_edges r.1.edges) g.unique).1
      (g.closed, g.rank, g.rising)

-- A compiled pipeline was assembled from what its steps compile to.
pub compile_pipeline-assembled :
    (host : Host) (spec : PipelineSpec) (p : Pipeline)
    → compile_pipeline host spec ≡ returned p
    → (built : Piece × Builder) × (compile_steps host spec.steps empty_builder ≡ returned built)
      × (cond : Option Condition) × (depth : Option ℕ) × (assembled spec cond depth built.0 built.1
          ≡ p)
unfolding compile_pipeline
compile_pipeline-assembled host spec p h =
    let (_, h₁) = raise_if-returned (is_blank spec.on && is_blank spec.on_hook) on_required _ h in
    let (_, h₂) =
      raise_if-returned (not (is_blank spec.on) && not (is_blank spec.on_hook)) on_exclusive _ h₁ in
    let (_, h₃) = raise_if-returned (steps_empty spec.steps) steps_required _ h₂ in
    let (cond, _, h₄) = bind-returned (check_condition host spec.condition) _ h₃ in
    let (_, h₅) =
      raise_if-returned (not (is_blank spec.on_hook) && reads_context cond) hook_context _ h₄ in
    let (depth, _, h₆) = bind-returned (author_max_depth spec.max_depth) _ h₅ in
    let (built, compiled, h₇) = bind-returned (compile_steps host spec.steps empty_builder) _ h₆ in
    let (_, _, h₈) =
      bind-returned (validate_pipeline_dag built.1.nodes (sort_edges built.1.edges)) _ h₇ in
    (built, compiled, cond, depth, returned_inj h₈)

-- A compiled pipeline is a graph: its node ids are unique, each edge leads from a node to a node of
-- higher rank, so that no way returns to its start, and its entries and exits are nodes.
pub compile_pipeline-IsGraph :
    (host : Host) (spec : PipelineSpec) (p : Pipeline)
    → compile_pipeline host spec ≡ returned p
    → IsGraph p.nodes p.edges p.entry_node_ids p.terminal_exits
unfolding assembled
compile_pipeline-IsGraph host spec p h =
    let (built, compiled, _, _, e) = compile_pipeline-assembled host spec p h in
    subst (λ q. IsGraph q.nodes q.edges q.entry_node_ids q.terminal_exits) e
      (compile_steps-IsGraph host spec.steps built compiled)
