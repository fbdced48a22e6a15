-- ===== src/Router/Dsl/Compile.antt =====
-- `compilePipeline` of internal/router/dsl/compiler.go.
pub mod Graph
pub mod Listed
use ductile.Common.{ℕ, zero, Bool, false, not, ◌&&◌, Option, none, some, [], ◌∷◌, if◌then◌else◌}
use ductile.Common.Int.{ℤ, pos, negsuc}
use ductile.Common.Fallible.{Fallible, returned, raised, ◌>>=◌, ◌>>◌, raise_if}
use ductile.Common.Text.{Text, codes, trim_space}
use ductile.Router.Conditions.Types.{Condition, condition, Host}
use ductile.Router.Conditions.Paths.{references_root}
use ductile.Router.Conditions.Validate.{is_blank}
use ductile.Router.Dsl.Types.{PipelineSpec, Pipeline}
use ductile.Router.Dsl.Order.{sorted_unique, sorted_compile_exits, terminal_node_ids, sort_edges}
use ductile.Router.Dsl.Checks.{
  CompileError, on_required, on_exclusive, steps_required, hook_context, negative_depth,
}
use ductile.Router.Dsl.Build.{Builder, Piece, steps_empty, check_condition, compile_steps}
use ductile.Router.Dsl.Dag.{validate_pipeline_dag}

abbrev pub empty_builder : Builder
empty_builder = record { nodes = []; edges = []; next_auto = 0; called = [] }

-- The predicate of a hook reads the context.
abbrev pub reads_context : Option Condition → Bool
unfolding references_root
reads_context none = false
reads_context (some c) = references_root (codes "context") c

-- `max_depth`, which is not negative.
unfoldable pub author_max_depth : Option ℤ → Fallible CompileError (Option ℕ)
author_max_depth none = returned none
author_max_depth (some (pos n)) = returned (some n)
author_max_depth (some (negsuc n)) = raised negative_depth

abbrev or_text : Text → Text → Text
or_text [] other = other
or_text (c ∷ s) other = c ∷ s

abbrev thirty_seconds : ℤ
thirty_seconds = pos 30_000_000_000

abbrev or_thirty_seconds : ℤ → ℤ
or_thirty_seconds (pos zero) = thirty_seconds
or_thirty_seconds timeout = timeout

-- The pipeline of the steps that were built.
unfoldable pub assembled : PipelineSpec → Option Condition → Option ℕ → Piece → Builder → Pipeline
assembled spec cond depth piece b = record {
  name = trim_space spec.name;
  trigger = if is_blank spec.on_hook then trim_space spec.on else trim_space spec.on_hook;
  is_hook = not (is_blank spec.on_hook);
  from_plugin = trim_space spec.from_plugin;
  execution_mode = or_text spec.execution_mode (codes "async");
  timeout = or_thirty_seconds spec.timeout;
  condition = cond;
  author_max_depth = depth;
  nodes = b.nodes;
  edges = sort_edges b.edges;
  entry_node_ids = sorted_unique piece.entry;
  terminal_node_ids = terminal_node_ids piece.terminal;
  terminal_exits = sorted_compile_exits piece.terminal;
  called_pipelines = sorted_unique b.called;
  max_route_depth = 0;
  compiled_routes = [];
}

-- `compilePipeline`
unfoldable pub compile_pipeline : Host → PipelineSpec → Fallible CompileError Pipeline
compile_pipeline host spec = do
  raise_if (is_blank spec.on && is_blank spec.on_hook) on_required
  raise_if (not (is_blank spec.on) && not (is_blank spec.on_hook)) on_exclusive
  raise_if (steps_empty spec.steps) steps_required
  cond ← check_condition host spec.condition
  raise_if (not (is_blank spec.on_hook) && reads_context cond) hook_context
  depth ← author_max_depth spec.max_depth
  built ← compile_steps host spec.steps empty_builder
  validate_pipeline_dag built.1.nodes (sort_edges built.1.edges)
  returned (assembled spec cond depth built.0 built.1)
