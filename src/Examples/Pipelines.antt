-- ===== src/Examples/Pipelines.antt =====
-- Runs of the theorems on the pipelines of the router: one that calls another.
use ductile.Common.{ℕ, ◌+◌, ◌≡◌, refl, ◌↔◌, false, none, some, List, [], ◌∷◌, length, All}
use ductile.Common.Int.{pos}
use ductile.Common.Fallible.{Fallible, returned, raised}
use ductile.Common.Text.{Text, codes}
use ductile.Router.Dsl.Types.{
  StepHead, step, StepSpecs, no_steps, next_step, PipelineSpec, Pipeline,
}
use ductile.Router.Dsl.Checks.{CompileError}
use ductile.Router.Dsl.Build.{Builder, has_node, find_auto, Piece, compile_steps}
use ductile.Router.Dsl.Build.Ranks.{UniqueIds}
use ductile.Router.Dsl.Dag.{validate_pipeline_dag}
use ductile.Router.Dsl.Dag.Decides.{Rising, validate_pipeline_dag_lem}
use ductile.Router.Dsl.Dag.Rounds.{IsClosed}
use ductile.Router.Dsl.Compile.{empty_builder, assembled, compile_pipeline}
use ductile.Router.Dsl.Compile.Graph.{IsGraph, compile_steps-accepted, compile_pipeline-IsGraph}
use ductile.Router.Dsl.Calls.{validate_pipeline_calls}
use ductile.Router.Dsl.Calls.Decides.{UniqueNames, validate_pipeline_calls_lem}
use ductile.Router.Dsl.Calls.Returns.{Falls}
use ductile.Router.Dsl.Routes.{build_compiled_routes}
use ductile.Router.Dsl.Order.{sort_edges}
use ductile.Examples.Conditions.{host, failed_or_named}

abbrev bare : Text → StepHead
bare id = record {
  id = id;
  uses = [];
  call = [];
  relay = none;
  condition = none;
  with = [];
  baggage = none;
}

abbrev then_step : StepHead → StepSpecs → StepSpecs
then_step s rest = next_step (step s no_steps no_steps) rest

-- classify, then mail on a condition, then a call of the pipeline "archive".
abbrev alert_steps : StepSpecs
alert_steps =
    then_step (record (bare (codes "classify")) { uses = codes "classifier" })
      (then_step
        (record (bare (codes "mail")) { uses = codes "mailer"; condition = some failed_or_named })
        (then_step (record (bare []) { call = codes "archive" }) no_steps))

abbrev spec : Text → Text → StepSpecs → PipelineSpec
spec name event steps = record {
  name = name;
  on = event;
  on_hook = [];
  from_plugin = [];
  condition = none;
  max_depth = none;
  steps = steps;
  execution_mode = [];
  timeout = pos 0;
}

abbrev pub archive_spec : PipelineSpec
archive_spec =
    spec (codes "archive") (codes "archive.asked")
      (then_step (record (bare (codes "store")) { uses = codes "storage" }) no_steps)

abbrev pub alert_spec : PipelineSpec
alert_spec = spec (codes "alert") (codes "alert.raised") alert_steps

-- The compiled pipelines with their routes.
abbrev with_routes : Pipeline → Pipeline
with_routes p = record p { compiled_routes = build_compiled_routes p }

abbrev built_or : Fallible CompileError (Piece × Builder) → Piece × Builder
built_or (returned r) = r
built_or (raised e) = (record { entry = []; terminal = [] }, empty_builder)

abbrev alert_built : Piece × Builder
alert_built = built_or (compile_steps host alert_steps empty_builder)

alert_builds : compile_steps host alert_steps empty_builder ≡ returned alert_built
unfolding compile_steps ductile.Router.Dsl.Build.compile_from ductile.Router.Dsl.Build.check_step
    ductile.Common.Text.trim_space ductile.Router.Dsl.Checks.validate_baggage_spec
    ductile.Router.Dsl.Build.check_condition ductile.Router.Dsl.Build.add_step
    ductile.Router.Dsl.Build.add_uses ductile.Router.Dsl.Build.alloc_node_id has_node
    ductile.Router.Dsl.Build.add_leaf ductile.Router.Conditions.Validate.validate_root
    ductile.Router.Conditions.Validate.validate ductile.Router.Conditions.Validate.modes
    ductile.Router.Conditions.Validate.check_atomic ductile.Common.Text.split
    ductile.Common.Text.text_eq ductile.Router.Conditions.Eval.operator_of
    ductile.Router.Dsl.Build.add_call ductile.Router.Dsl.Build.auto_id find_auto
    ductile.Router.Dsl.Build.wrap_conditional_step ductile.Router.Dsl.Order.insert_unique
    ductile.Router.Dsl.Order.sort_unique ductile.Router.Dsl.Order.sorted_compile_exits
    ductile.Router.Dsl.Order.text_lt
alert_builds = refl

compile_steps-accepted_example :
    validate_pipeline_dag alert_built.1.nodes (sort_edges alert_built.1.edges) ≡ returned tt
compile_steps-accepted_example = compile_steps-accepted host alert_steps alert_built alert_builds

abbrev pub alert : Pipeline
alert = assembled alert_spec none none alert_built.0 alert_built.1

pub alert_compiles : compile_pipeline host alert_spec ≡ returned alert
unfolding compile_pipeline ductile.Common.Text.trim_space ductile.Router.Dsl.Build.check_condition
    ductile.Router.Dsl.Compile.author_max_depth compile_steps ductile.Router.Dsl.Build.compile_from
    ductile.Router.Dsl.Build.check_step ductile.Router.Dsl.Checks.validate_baggage_spec
    ductile.Router.Dsl.Build.add_step ductile.Router.Dsl.Build.add_uses
    ductile.Router.Dsl.Build.alloc_node_id has_node ductile.Router.Dsl.Build.add_leaf
    ductile.Router.Conditions.Validate.validate_root ductile.Router.Conditions.Validate.validate
    ductile.Router.Conditions.Validate.modes ductile.Router.Conditions.Validate.check_atomic
    ductile.Common.Text.Decimal.decimal ductile.Common.Text.split ductile.Common.Text.text_eq
    ductile.Router.Conditions.Eval.operator_of ductile.Router.Dsl.Build.add_call
    ductile.Router.Dsl.Build.auto_id ductile.Router.Dsl.Build.edges_between
    ductile.Router.Dsl.Build.edges_to find_auto ductile.Router.Dsl.Build.wrap_conditional_step
    ductile.Router.Dsl.Dag.check_ends ductile.Router.Dsl.Dag.decremented
    ductile.Router.Dsl.Dag.in_degree ductile.Router.Dsl.Dag.relax ductile.Router.Dsl.Dag.sources
    ductile.Router.Dsl.Dag.successors validate_pipeline_dag ductile.Router.Dsl.Dag.visit
    ductile.Router.Dsl.Order.insert_sorted ductile.Router.Dsl.Order.insert_unique
    ductile.Router.Dsl.Order.sort_by sort_edges ductile.Router.Dsl.Order.sort_unique
    ductile.Router.Dsl.Order.sorted_compile_exits ductile.Router.Dsl.Order.text_lt
alert_compiles = refl

compile_pipeline-IsGraph_example :
    IsGraph alert.nodes alert.edges alert.entry_node_ids alert.terminal_exits
compile_pipeline-IsGraph_example = compile_pipeline-IsGraph host alert_spec alert alert_compiles

abbrev pub archive : Pipeline
archive =
    assembled archive_spec none none
      (built_or (compile_steps host archive_spec.steps empty_builder)).0
      (built_or (compile_steps host archive_spec.steps empty_builder)).1

pub archive_compiles : compile_pipeline host archive_spec ≡ returned archive
unfolding compile_pipeline ductile.Common.Text.trim_space ductile.Router.Dsl.Build.check_condition
    ductile.Router.Dsl.Compile.author_max_depth compile_steps ductile.Router.Dsl.Build.compile_from
    ductile.Router.Dsl.Build.check_step ductile.Router.Dsl.Checks.validate_baggage_spec
    ductile.Router.Dsl.Build.add_step ductile.Router.Dsl.Build.add_uses
    ductile.Router.Dsl.Build.alloc_node_id has_node ductile.Router.Dsl.Build.add_leaf
    ductile.Router.Dsl.Build.edges_between ductile.Router.Dsl.Dag.check_ends
    ductile.Router.Dsl.Dag.in_degree ductile.Router.Dsl.Dag.relax ductile.Router.Dsl.Dag.sources
    ductile.Router.Dsl.Dag.successors validate_pipeline_dag ductile.Router.Dsl.Dag.visit
    ductile.Router.Dsl.Order.sort_by sort_edges
archive_compiles = refl

pub alert_unique : UniqueIds alert.nodes
unfolding assembled compile_steps ductile.Router.Dsl.Build.compile_from
    ductile.Router.Dsl.Build.check_step ductile.Common.Text.trim_space
    ductile.Router.Dsl.Checks.validate_baggage_spec ductile.Router.Dsl.Build.check_condition
    ductile.Router.Dsl.Build.add_step ductile.Router.Dsl.Build.add_uses
    ductile.Router.Dsl.Build.alloc_node_id has_node ductile.Router.Dsl.Build.add_leaf
    ductile.Router.Conditions.Validate.validate_root ductile.Router.Conditions.Validate.validate
    ductile.Router.Conditions.Validate.modes ductile.Router.Conditions.Validate.check_atomic
    ductile.Common.Text.split ductile.Common.Text.text_eq ductile.Router.Conditions.Eval.operator_of
    ductile.Router.Dsl.Build.add_call ductile.Router.Dsl.Build.auto_id find_auto
    ductile.Router.Dsl.Build.wrap_conditional_step ductile.Router.Dsl.Order.insert_unique
    ductile.Router.Dsl.Order.sort_unique ductile.Router.Dsl.Order.sorted_compile_exits
    ductile.Router.Dsl.Order.text_lt
alert_unique = (refl, (refl, (refl, (refl, tt))))

pub archive_unique : UniqueIds archive.nodes
unfolding assembled compile_steps ductile.Router.Dsl.Build.compile_from
    ductile.Router.Dsl.Build.check_step ductile.Common.Text.trim_space
    ductile.Router.Dsl.Checks.validate_baggage_spec ductile.Router.Dsl.Build.check_condition
    ductile.Router.Dsl.Build.add_step ductile.Router.Dsl.Build.add_uses
    ductile.Router.Dsl.Build.alloc_node_id has_node ductile.Router.Dsl.Build.add_leaf
    ductile.Router.Conditions.Validate.validate_root ductile.Router.Conditions.Validate.validate
    ductile.Router.Conditions.Validate.modes ductile.Router.Conditions.Validate.check_atomic
    ductile.Common.Text.split ductile.Common.Text.text_eq ductile.Router.Conditions.Eval.operator_of
    ductile.Router.Dsl.Build.add_call ductile.Router.Dsl.Build.auto_id find_auto
    ductile.Router.Dsl.Build.wrap_conditional_step ductile.Router.Dsl.Order.insert_unique
    ductile.Router.Dsl.Order.sort_unique ductile.Router.Dsl.Order.sorted_compile_exits
    ductile.Router.Dsl.Order.text_lt
archive_unique = (refl, tt)

validate_pipeline_dag_lem_example :
    (validate_pipeline_dag alert.nodes alert.edges ≡ returned tt)
    ↔ (All (IsClosed alert.nodes) alert.edges × (rank : Text → ℕ) × All (Rising rank) alert.edges)
validate_pipeline_dag_lem_example = validate_pipeline_dag_lem alert.nodes alert.edges alert_unique

abbrev pub pipelines : List Pipeline
pipelines = with_routes alert ∷ with_routes archive ∷ []

pub names_unique : UniqueNames pipelines
unfolding ductile.Router.Dsl.Calls.find_pipeline ductile.Common.Text.text_eq assembled
    ductile.Common.Text.trim_space
names_unique = (refl, (refl, tt))

validate_pipeline_calls_lem_example :
    (validate_pipeline_calls pipelines ≡ returned tt) ↔ ((rank : Text → ℕ) × Falls pipelines rank)
validate_pipeline_calls_lem_example = validate_pipeline_calls_lem pipelines names_unique
