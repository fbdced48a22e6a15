-- ===== src/Router/Dsl/Types.antt =====
-- internal/router/dsl/types.go. A map is the list of its entries; a map that is nil is one without
-- entries, and a clone is the value itself.
use ductile.Common.{ℕ, Bool, Option, List}
use ductile.Common.Int.{ℤ}
use ductile.Common.Text.{Text}
use ductile.Router.Conditions.Types.{Condition}

abbrev pub StringMap : Type 0
StringMap = List (Text × Text)

-- `BaggageBulkSpec`
pub record BaggageBulkSpec : Type 0 where
  pub from : Text
  pub namespace : Text

-- `BaggageSpec`
pub record BaggageSpec : Type 0 where
  pub mappings : StringMap
  pub bulk : Option BaggageBulkSpec

-- `RelaySpec`
pub record RelaySpec : Type 0 where
  pub to : Text
  pub event : Text
  pub dedupe_key : Text
  pub with : StringMap
  pub baggage : Option BaggageSpec

-- `StepSpec`: id, uses, call, relay, if, with and baggage, and then the lists steps and split.
pub record StepHead : Type 0 where
  pub id : Text
  pub uses : Text
  pub call : Text
  pub relay : Option RelaySpec
  pub condition : Option Condition
  pub with : StringMap
  pub baggage : Option BaggageSpec

mutual
  pub data StepSpec : Type 0 where
    step : StepHead → StepSpecs → StepSpecs → StepSpec

  pub data StepSpecs : Type 0 where
    no_steps : StepSpecs
    next_step : StepSpec → StepSpecs → StepSpecs

-- `PipelineSpec`; times are nanoseconds.
pub record PipelineSpec : Type 0 where
  pub name : Text
  pub on : Text
  pub on_hook : Text
  pub from_plugin : Text
  pub condition : Option Condition
  pub max_depth : Option ℤ
  pub steps : StepSpecs
  pub execution_mode : Text
  pub timeout : ℤ

-- `NodeKind`
pub data NodeKind : Type 0 where
  uses_node call_node relay_node switch_node : NodeKind

-- `Node`
pub record Node : Type 0 where
  pub id : Text
  pub kind : NodeKind
  pub uses : Text
  pub call : Text
  pub relay : Option RelaySpec
  pub condition : Option Condition
  pub with : StringMap
  pub baggage : Option BaggageSpec

-- `Edge`
pub record Edge : Type 0 where
  pub from : Text
  pub to : Text
  pub event_type : Text

-- `TerminalExit`, which is also `compileExit`.
pub record Exit : Type 0 where
  pub step_id : Text
  pub event_type : Text

-- `CompiledRouteDestinationKind`
pub data DestinationKind : Type 0 where
  to_call to_terminal to_uses : DestinationKind

-- `CompiledRouteSource`
pub record RouteSource : Type 0 where
  pub trigger : Text
  pub pipeline : Text
  pub step_id : Text
  pub hook_signal : Text
  pub source_plugin : Text
  pub event_type : Text
  pub depth_lt : ℕ
  pub condition : Option Condition

-- `CompiledRouteDestination`
pub record RouteDestination : Type 0 where
  pub kind : DestinationKind
  pub step_id : Text
  pub plugin : Text
  pub command : Text
  pub call_pipeline : Text

-- `CompiledRoute`
pub record CompiledRoute : Type 0 where
  pub id : Text
  pub pipeline : Text
  pub source : RouteSource
  pub destination : RouteDestination

-- `Pipeline`, but for the fingerprint.
pub record Pipeline : Type 0 where
  pub name : Text
  pub trigger : Text
  pub is_hook : Bool
  pub from_plugin : Text
  pub execution_mode : Text
  pub timeout : ℤ
  pub condition : Option Condition
  pub author_max_depth : Option ℕ
  pub nodes : List Node
  pub edges : List Edge
  pub entry_node_ids : List Text
  pub terminal_node_ids : List Text
  pub terminal_exits : List Exit
  pub called_pipelines : List Text
  pub max_route_depth : ℕ
  pub compiled_routes : List CompiledRoute
