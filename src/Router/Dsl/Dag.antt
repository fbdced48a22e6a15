-- ===== src/Router/Dsl/Dag.antt =====
-- `validatePipelineDAG` of internal/router/dsl/compiler.go. A degree is looked up by a function;
-- the nodes of degree 0 are queued in the order of the nodes, where Go's order is random.
pub mod Counts
pub mod Frontier
pub mod Rounds
pub mod Decides
use ductile.Common.{
  ℕ, zero, suc, ◌+◌, ◌-◌, not, List, [], ◌∷◌, ◌++◌, ◌==◌, if◌then◌else◌, length, count,
}
use ductile.Common.Fallible.{Fallible, returned, raised, ◌>>=◌, ◌>>◌, raise_if}
use ductile.Common.Text.{Text, text_eq}
use ductile.Router.Dsl.Types.{Node, Edge}
use ductile.Router.Dsl.Checks.{CompileError, has_cycle, unknown_from, unknown_to, out_of_fuel}
use ductile.Router.Dsl.Build.{has_node}

-- The loop over the edges, which looks for their ends.
unfoldable pub check_ends : List Node → List Edge → Fallible CompileError (Unit {0})
check_ends nodes [] = returned tt
check_ends nodes (e ∷ es) = do
  raise_if (not (has_node e.from nodes)) (unknown_from e.from)
  raise_if (not (has_node e.to nodes)) (unknown_to e.to)
  check_ends nodes es

-- `adj[n]`
unfoldable pub successors : List Edge → Text → List Text
successors [] n = []
successors (e ∷ es) n = let rest = successors es n in if text_eq e.from n then e.to ∷ rest else rest

-- `inDegree` after that loop.
unfoldable pub in_degree : List Edge → Text → ℕ
in_degree edges v = count (λ e. text_eq e.to v) edges

unfoldable pub sources : List Edge → List Node → List Text
sources edges [] = []
sources edges (n ∷ ns) =
    let rest = sources edges ns in if in_degree edges n.id == 0 then n.id ∷ rest else rest

-- The degrees after one edge less leads to the node.
unfoldable pub decremented : Text → (Text → ℕ) → Text → ℕ
decremented next degree v = if text_eq next v then degree v - 1 else degree v

-- The loop over `adj[n]`.
unfoldable pub relax : List Text → (Text → ℕ) → List Text → (Text → ℕ) × List Text
relax [] degree queue = (degree, queue)
relax (next ∷ more) degree queue =
    relax more (decremented next degree)
      (if decremented next degree next == 0 then queue ++ next ∷ [] else queue)

-- The loop over the queue.
unfoldable pub visit : ℕ → List Edge → (Text → ℕ) → List Text → ℕ → Fallible CompileError ℕ
visit fuel edges degree [] visited = returned visited
visit zero edges degree (n ∷ queue) visited = raised out_of_fuel
visit (suc fuel) edges degree (n ∷ queue) visited =
    visit fuel edges (relax (successors edges n) degree queue).0
      (relax (successors edges n) degree queue).1 (visited + 1)

-- `validatePipelineDAG`
unfoldable pub validate_pipeline_dag : List Node → List Edge → Fallible CompileError (Unit {0})
validate_pipeline_dag nodes edges = do
  check_ends nodes edges
  visited ← visit (length nodes) edges (in_degree edges) (sources edges nodes) 0
  raise_if (not (visited == length nodes)) has_cycle
