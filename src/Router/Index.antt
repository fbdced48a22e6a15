-- ===== src/Router/Index.antt =====
-- The indices of internal/router/engine.go, which New fills: functions of the pipelines. The types
-- are those of internal/router/interface.go; an event's clone is the event.
use ductile.Common.{ℕ, Bool, not, ◌&&◌, ◌||◌, none, some, List, [], ◌∷◌, ◌++◌, if◌then◌else◌, keep}
use ductile.Common.Text.{Text, text_eq, is_empty, trim_space}
use ductile.Router.Conditions.Types.{Fields}
use ductile.Router.Conditions.Validate.{is_blank}
use ductile.Router.Dsl.Types.{CompiledRoute, Pipeline}
use ductile.Router.Dsl.Routes.{sort_compiled_routes, build_compiled_routes}
use ductile.Router.Dsl.Calls.{find_pipeline}

-- `protocol.Event`, with what the router reads of it.
pub record Event : Type 0 where
  pub type : Text
  pub payload : Fields
  pub dedupe_key : Text
  pub event_id : Text

-- `Request`; a nil source context reads as an empty one.
pub record Request : Type 0 where
  pub source_plugin : Text
  pub source_job_id : Text
  pub source_context_id : Text
  pub source_pipeline : Text
  pub source_step_id : Text
  pub source_pipeline_instance_id : Text
  pub source_depth : ℕ
  pub source_max_depth : ℕ
  pub source_event_id : Text
  pub source_context : Fields
  pub event : Event

-- `Dispatch`
pub record Dispatch : Type 0 where
  pub plugin : Text
  pub command : Text
  pub event : Event
  pub pipeline_name : Text
  pub step_id : Text
  pub pipeline_instance_id : Text
  pub route_depth : ℕ
  pub route_max_depth : ℕ
  pub parent_job_id : Text
  pub parent_context_id : Text
  pub source_event_id : Text

pub data RouteError : Type 0 where
  event_type_required signal_required out_of_calls : RouteError
  empty_call_target pipeline_not_found : Text → RouteError
  no_entry_routes : Text → Text → RouteError

-- `pipeline.CompiledRoutes`, which New builds where there are none.
unfoldable pub routes_of : Pipeline → List CompiledRoute
routes_of p = if is_empty p.compiled_routes then build_compiled_routes p else p.compiled_routes

unfoldable pub all_routes : List Pipeline → List CompiledRoute
all_routes [] = []
all_routes (p ∷ ps) = routes_of p ++ all_routes ps

abbrev pub has_trigger : CompiledRoute → Bool
has_trigger r = not (is_empty r.source.trigger)

abbrev pub has_signal : CompiledRoute → Bool
has_signal r = not (is_empty r.source.hook_signal)

-- `compiledRouteKey`
unfoldable pub compiled_route_key : Text → Text → Text
compiled_route_key pipeline step_id = pipeline ++ 0 ∷ step_id

-- `triggerIndex`, `hookIndex` and `transitionIndex`: the case of the switch that a route falls in,
-- and the order of its list.
unfoldable pub trigger_index : List Pipeline → Text → List CompiledRoute
trigger_index ps event =
    sort_compiled_routes
      (keep (λ r. has_trigger r && text_eq r.source.trigger event) (all_routes ps))

pub hook_index : List Pipeline → Text → List CompiledRoute
hook_index ps signal = sort_compiled_routes (
    keep (λ r. not (has_trigger r) && (has_signal r && text_eq r.source.hook_signal signal))
      (all_routes ps))

unfoldable pub transition_index : List Pipeline → Text → List CompiledRoute
transition_index ps key = sort_compiled_routes (
    keep
      (λ r.
        not (has_trigger r)
        && (not (has_signal r)
            && (not (is_empty r.source.pipeline)
                && (not (is_empty r.source.step_id)
                    && text_eq (compiled_route_key r.source.pipeline r.source.step_id) key))))
      (all_routes ps))

-- `sourcePluginMatches`
unfoldable pub source_plugin_matches : Text → Text → Bool
source_plugin_matches want have = is_blank want || text_eq (trim_space want) (trim_space have)

-- `entryRoutesForPipeline`
unfoldable pub entry_routes_for_pipeline : List Pipeline → Text → List CompiledRoute
entry_routes_for_pipeline ps name = elim (find_pipeline name ps) [
  | none ↦ []
  | some p ↦ keep (λ r. text_eq r.pipeline name && (has_trigger r || has_signal r)) (routes_of p)
]
