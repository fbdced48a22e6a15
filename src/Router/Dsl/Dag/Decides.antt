-- ===== src/Router/Dsl/Dag/Decides.antt =====
-- Which graphs validatePipelineDAG accepts.
use ductile.Common.{
  ℕ, zero, suc, ◌+◌, ◌<◌, ◌≡◌, refl, sym, ap, subst, ◌∙◌, ◌↔◌, inl, inr, true, false, not, ◌&&◌,
  List, [], ◌∷◌, arith, ◌==◌, Bool-cases, ==→eq, ==_refl, not-false, and-true, or-false_right,
  and-false_right, length, count, All, All-map_id, All-In,
}
use ductile.Common.Fallible.{returned, bind-returned, raise_if-returned, raise_if-false}
use ductile.Common.Text.{Text, text_eq, text_eq_refl, text_eq→eq, text_eq-false_comm}
use ductile.Router.Dsl.Types.{Node, Edge}
use ductile.Router.Dsl.Checks.{has_cycle, unknown_from, unknown_to}
use ductile.Router.Dsl.Build.{has_node}
use ductile.Router.Dsl.Build.Ranks.{HasNode, UniqueIds}
use ductile.Router.Dsl.Dag.{check_ends, in_degree, sources, validate_pipeline_dag}
use ductile.Router.Dsl.Dag.Counts.{mem, Distinct, pending, pending-none, pending-source}
use ductile.Router.Dsl.Dag.Frontier.{unseen}
use ductile.Router.Dsl.Dag.Rounds.{IsClosed, place, Settled, Round, visit_total}

check_ends-IsClosed :
    (nodes : List Node) (edges : List Edge)
    → (check_ends nodes edges ≡ returned tt) ↔ All (IsClosed nodes) edges
unfolding check_ends
check_ends-IsClosed nodes [] = (λ h. tt, λ h. refl)
check_ends-IsClosed nodes (e ∷ es) = (
  λ h.
      let (from, h₁) = raise_if-returned (not (has_node e.from nodes)) (unknown_from e.from) _ h in
      let (to, h₂) = raise_if-returned (not (has_node e.to nodes)) (unknown_to e.to) _ h₁ in
      ((not-false _ from, not-false _ to), (check_ends-IsClosed nodes es).0 h₂),
  λ h. rw (h.0.0, h.0.1) ((check_ends-IsClosed nodes es).1 h.1),
)

-- The nodes that are queued at the start.
module _ (edges : List Edge) where
  sources-mem :
      (nodes : List Node) (v : Text)
      → mem v (sources edges nodes) ≡ (has_node v nodes && (in_degree edges v == 0))
  unfolding mem sources has_node
  sources-mem [] v = refl
  sources-mem (n ∷ nodes) v = elim (Bool-cases (text_eq n.id v)) [
    | inl same ↦
        subst
          (λ x.
            mem x (sources edges (n ∷ nodes))
            ≡ (has_node x (n ∷ nodes) && (in_degree edges x == 0)))
          (text_eq→eq n.id v same)
          (elim (Bool-cases (in_degree edges n.id == 0)) [
            | inl zero_in ↦ rw (zero_in, text_eq_refl n.id) refl
            | inr more_in ↦
                rw (more_in, text_eq_refl n.id)
                  (sources-mem nodes n.id ∙ rw more_in (and-false_right (has_node n.id nodes)))
          ])
    | inr other ↦ elim (Bool-cases (in_degree edges n.id == 0)) [
      | inl zero_in ↦ rw (other, zero_in, text_eq-false_comm n.id v other) (sources-mem nodes v)
      | inr more_in ↦ rw (other, more_in) (sources-mem nodes v)
    ]
  ]

  sources-Distinct : (nodes : List Node) → UniqueIds nodes → Distinct (sources edges nodes)
  unfolding sources
  sources-Distinct [] u = tt
  sources-Distinct (n ∷ nodes) u = elim (Bool-cases (in_degree edges n.id == 0)) [
    | inl zero_in ↦ rw zero_in (rw (sources-mem nodes n.id, u.0) refl, sources-Distinct nodes u.1)
    | inr more_in ↦ rw more_in (sources-Distinct nodes u.1)
  ]

  -- Every node is queued or unseen.
  sources-count :
      (nodes : List Node)
      → length (sources edges nodes) + count (λ n. not (in_degree edges n.id == 0)) nodes
        ≡ length nodes
  unfolding sources
  sources-count [] = omega arith
  sources-count (n ∷ nodes) = ground (arith, sources-count nodes)

nodes-HasNode : (nodes : List Node) → All (λ n. HasNode nodes n.id) nodes
unfolding has_node
nodes-HasNode [] = tt
nodes-HasNode (n ∷ nodes) = (
  ground (arith, text_eq_refl n.id),
  All-map_id (λ m. HasNode nodes m.id) (λ m. HasNode (n ∷ nodes) m.id) (λ m h. ground arith) nodes
      (nodes-HasNode nodes),
)

unseen-start :
    (nodes : List Node) (edges : List Edge) (some_nodes : List Node)
    → All (λ n. HasNode nodes n.id) some_nodes
    → unseen some_nodes [] (sources edges nodes)
      ≡ count (λ n. not (in_degree edges n.id == 0)) some_nodes
unfolding mem
unseen-start nodes edges [] h = refl
unseen-start nodes edges (n ∷ ns) h =
    rw (sources-mem edges nodes n.id, h.0, unseen-start nodes edges ns h.1) refl

all-Settled : (edges : List Edge) → All (Settled []) edges
unfolding mem
all-Settled [] = tt
all-Settled (e ∷ es) = (λ h. cc, all-Settled es)

start-Round :
    (nodes : List Node) (edges : List Edge)
    → UniqueIds nodes
    → Round nodes edges [] (in_degree edges) (sources edges nodes)
unfolding mem
start-Round nodes edges unique = record {
  frontier = record {
    free = λ v node queued.
        ==→eq _ 0 (and-true (has_node v nodes) _ (sym (sources-mem edges nodes v) ∙ queued)).1;
    queued = λ v node none_in. rw (sources-mem edges nodes v, node, none_in) refl;
    apart = λ v h. cc;
    distinct = sources-Distinct edges nodes unique;
    conserved =
        omega
          (arith, sources-count edges nodes, unseen-start nodes edges nodes (nodes-HasNode nodes));
    are_nodes =
        λ v queued. (and-true (has_node v nodes) _ (sym (sources-mem edges nodes v) ∙ queued)).0;
  };
  degrees = λ v. pending-none edges v;
  settled = all-Settled edges;
}

-- A rank that rises along every edge.
abbrev pub Rising : (Text → ℕ) → Edge → Type 0
Rising rank e = rank e.from < rank e.to

-- At the end a node that is not processed has a source that is not.
waits :
    (nodes : List Node) (edges : List Edge) (last : List Text) (degree : Text → ℕ)
    → Round nodes edges last degree []
    → (v : Text) → HasNode nodes v
    → mem v last ≡ false
    → 0 < pending edges last v
unfolding mem
waits nodes edges last degree r v node not_yet = elim (Bool-cases (pending edges last v == 0)) [
  | inl none_left ↦ cc (
    not_yet,
    sym (or-false_right (mem v last))
        ∙ r.frontier.queued v node (r.degrees v ∙ ==→eq _ 0 none_left),
  )
  | inr some_left ↦ ground arith
]

-- With a rank that rises every node is processed at the end.
all_processed :
    (nodes : List Node) (edges : List Edge) (last : List Text) (degree : Text → ℕ) (rank : Text → ℕ)
    → All (IsClosed nodes) edges
    → All (Rising rank) edges
    → Round nodes edges last degree []
    → (k : ℕ) (v : Text) → rank v < k
    → HasNode nodes v
    → mem v last ≡ true
all_processed nodes edges last degree rank closed rising r zero v h node = elim h [ ]
all_processed nodes edges last degree rank closed rising r (suc k) v h node =
    elim (Bool-cases (mem v last)) [
      | inl processed ↦ processed
      | inr not_yet ↦
          let (e, there, into, source) =
            pending-source edges last v (waits nodes edges last degree r v node not_yet) in
          let closed_e = All-In (IsClosed nodes) edges e closed there in
          let rises = All-In (Rising rank) edges e rising there in
          cc (
            source,
            all_processed nodes edges last degree rank closed rising r k e.from
                (omega (arith, ap rank into)) closed_e.0,
          )
    ]

seen-all :
    (last : List Text) (ms : List Node) (v : Text)
    → unseen ms last [] ≡ 0
    → HasNode ms v
    → mem v last ≡ true
unfolding mem has_node
seen-all last [] v h node = cc
seen-all last (n ∷ ms) v h node = elim (Bool-cases (text_eq n.id v)) [
  | inl same ↦ subst (λ x. mem x last ≡ true) (text_eq→eq n.id v same) (ground arith)
  | inr other ↦ seen-all last ms v (ground arith) (rw other at node)
]

unseen-zero :
    (last : List Text) (ms : List Node) → All (λ n. mem n.id last ≡ true) ms → unseen ms last [] ≡ 0
unfolding mem
unseen-zero last [] h = refl
unseen-zero last (n ∷ ms) h = rw h.0 (omega (arith, unseen-zero last ms h.1))

Rising-of :
    (nodes : List Node) (last : List Text) (edges : List Edge)
    → unseen nodes last [] ≡ 0
    → All (IsClosed nodes) edges
    → All (Settled last) edges
    → All (Rising (λ v. place v last)) edges
Rising-of nodes last [] h closed settled = tt
Rising-of nodes last (e ∷ es) h closed settled = (
  (settled.0 (seen-all last nodes e.to h closed.0.1)).1,
  Rising-of nodes last es h closed.1 settled.1,
)

-- `validatePipelineDAG` accepts a graph exactly where both ends of each edge are nodes and the nodes
-- have a rank that rises along each edge, so that there is no cycle. The ids of the nodes are
-- unique, as the keys of a map are.
pub validate_pipeline_dag_lem :
    (nodes : List Node) (edges : List Edge)
    → UniqueIds nodes
    → (validate_pipeline_dag nodes edges ≡ returned tt)
      ↔ (All (IsClosed nodes) edges × (rank : Text → ℕ) × All (Rising rank) edges)
unfolding validate_pipeline_dag
validate_pipeline_dag_lem nodes edges unique = (
  λ h.
      let (u, ends, h₁) = bind-returned (check_ends nodes edges) _ h in
      let closed = (check_ends-IsClosed nodes edges).0 ends in
      let (last, degree, e, r) =
        visit_total nodes edges unique closed (length nodes) [] (in_degree edges)
          (sources edges nodes) 0 refl (omega arith) (start-Round nodes edges unique) in
      let full =
        ==→eq (length last) (length nodes)
          (not-false _ (raise_if-false _ has_cycle (rw e at h₁))) in
      (
        closed,
        λ v. place v last,
        Rising-of nodes last edges (omega (arith, full, r.frontier.conserved)) closed r.settled,
      ),
  λ (closed, rank, rising).
      let (last, degree, e, r) =
        visit_total nodes edges unique closed (length nodes) [] (in_degree edges)
          (sources edges nodes) 0 refl (omega arith) (start-Round nodes edges unique) in
      let done = unseen-zero last nodes (
        All-map_id (λ n. HasNode nodes n.id) (λ n. mem n.id last ≡ true)
          (λ n node.
            all_processed nodes edges last degree rank closed rising r (rank n.id + 1) n.id
              (omega arith) node)
          nodes (nodes-HasNode nodes)) in
      let full : length last ≡ length nodes = omega (arith, r.frontier.conserved, done) in
      rw ((check_ends-IsClosed nodes edges).1 closed, e, full, ==_refl (length nodes)) refl,
)
