-- ===== src/Router/Engine.antt =====
-- internal/router/engine.go: from an event to the jobs that follow it. A router is its pipelines.
pub mod Dedupe
pub mod Steps
pub mod Starts
pub mod BuiltRoutes
pub mod AfterCalls
pub mod CallsFall
pub mod CallsEnd
use ductile.Common.{
  ℕ, zero, suc, ◌+◌, Bool, true, false, not, ◌&&◌, ◌||◌, Option, none, some, List, [], ◌∷◌, ◌++◌,
  ltb, leb, ◌==◌, if◌then◌else◌, keep,
}
use ductile.Common.Fallible.{Fallible, returned, raised, ◌>>=◌, ◌>>◌, raise_if}
use ductile.Common.Text.{Text, text_eq, is_empty, trim_space}
use ductile.Router.Conditions.Types.{Fields, no_fields, Condition, Scope, Host}
use ductile.Router.Conditions.Paths.{EvalError}
use ductile.Router.Conditions.Eval.{eval}
use ductile.Router.Conditions.Validate.{is_blank}
use ductile.Router.Dsl.Calls.{find_pipeline}
use ductile.Router.Dsl.Types.{
  DestinationKind, to_call, to_terminal, to_uses, RouteSource, CompiledRoute, Pipeline,
}
use ductile.Router.Index.{
  Event, Request, Dispatch, RouteError, pipeline_not_found, event_type_required, signal_required,
  out_of_calls, empty_call_target, no_entry_routes, compiled_route_key, trigger_index, hook_index,
  transition_index, source_plugin_matches, entry_routes_for_pipeline,
}

-- The job that a route to a plugin makes.
unfoldable pub dispatch_to : Request → Bool → CompiledRoute → Dispatch
dispatch_to req root_hook route = record {
  plugin = route.destination.plugin;
  command = route.destination.command;
  event = req.event;
  pipeline_name = if root_hook then [] else route.pipeline;
  step_id = if root_hook then [] else route.destination.step_id;
  pipeline_instance_id = req.source_pipeline_instance_id;
  route_depth = req.source_depth + 1;
  route_max_depth =
      if req.source_max_depth == 0 then route.source.depth_lt else req.source_max_depth;
  parent_job_id = req.source_job_id;
  parent_context_id = req.source_context_id;
  source_event_id = req.source_event_id;
}

abbrev Dispatches : Type 0
Dispatches = Fallible RouteError (List Dispatch)

-- The case of a call; `inside` resolves the entry routes of the called pipeline.
unfoldable pub resolve_call :
    (List CompiledRoute → Dispatches) → List Pipeline → CompiledRoute → Dispatches
resolve_call inside ps route =
    let called = trim_space route.destination.call_pipeline in
    let entries = entry_routes_for_pipeline ps called in
    do
      raise_if (is_empty called) (empty_call_target route.id)
      raise_if (is_empty entries) (no_entry_routes route.id called)
      inside entries

unfoldable pub resolve_kind :
    (List CompiledRoute → Dispatches)
    → List Pipeline
    → Request
    → Bool
    → CompiledRoute
    → DestinationKind
    → Dispatches
resolve_kind inside ps req root_hook route to_uses = returned (dispatch_to req root_hook route ∷ [])
resolve_kind inside ps req root_hook route to_call = resolve_call inside ps route
resolve_kind inside ps req root_hook route to_terminal = returned []

-- The loop that resolves routes and collects their dispatches.
unfoldable pub resolve_each :
    (List CompiledRoute → Dispatches)
    → List Pipeline
    → Request
    → Bool
    → List CompiledRoute
    → Dispatches
resolve_each inside ps req root_hook [] = returned []
resolve_each inside ps req root_hook (route ∷ routes) = do
  here ← resolve_kind inside ps req root_hook route route.destination.kind
  rest ← resolve_each inside ps req root_hook routes
  returned (here ++ rest)

-- `resolveCompiledRoute` for each of the routes, on fuel for the calls.
unfoldable pub resolve_routes : List Pipeline → Request → Bool → ℕ → List CompiledRoute → Dispatches
resolve_routes ps req root_hook zero routes =
    resolve_each (λ entries. raised out_of_calls) ps req root_hook routes
resolve_routes ps req root_hook (suc fuel) routes =
    resolve_each (λ entries. resolve_routes ps req root_hook fuel entries) ps req root_hook routes

-- The request of a pipeline that is started by its name.
abbrev entry_request : Event → Request
entry_request event = record {
  source_plugin = [];
  source_job_id = [];
  source_context_id = [];
  source_pipeline = [];
  source_step_id = [];
  source_pipeline_instance_id = [];
  source_depth = 0;
  source_max_depth = 0;
  source_event_id = [];
  source_context = no_fields;
  event = event;
}

-- `GetEntryDispatches`
pub get_entry_dispatches : List Pipeline → ℕ → Text → Event → Dispatches
get_entry_dispatches ps fuel name event = elim (find_pipeline name ps) [
  | none ↦ raised (pipeline_not_found name)
  | some p ↦
      resolve_routes ps (entry_request event) false fuel (entry_routes_for_pipeline ps p.name)
]

-- `maxDepth > 0 && req.SourceDepth >= maxDepth`
abbrev past_depth : ℕ → ℕ → Bool
past_depth max_depth depth = ltb 0 max_depth && leb max_depth depth

-- The tests of `matchesCompiledRouteSource` on a route out of a step.
unfoldable pub matches_step : RouteSource → Request → Bool → Bool
matches_step source req require_instance =
    text_eq (trim_space source.pipeline) (trim_space req.source_pipeline)
    && (text_eq (trim_space source.step_id) (trim_space req.source_step_id)
        && ((is_empty source.event_type
              || text_eq (trim_space source.event_type) (trim_space req.event.type))
            && (not (require_instance && is_blank req.source_pipeline_instance_id)
                && not (
                    past_depth
                      (if req.source_max_depth == 0 then source.depth_lt else req.source_max_depth)
                      req.source_depth))))

-- `matchesCompiledRouteSource`
unfoldable pub matches_compiled_route_source : RouteSource → Request → Bool → Bool
matches_compiled_route_source source req require_instance =
    if not (is_empty source.trigger)
    then text_eq (trim_space source.trigger) (trim_space req.event.type)
    else if not (is_empty source.hook_signal)
    then text_eq (trim_space source.hook_signal) (trim_space req.event.type)
    else if not (is_empty source.pipeline) && not (is_empty source.step_id)
    then matches_step source req require_instance
    else false

abbrev holds : Fallible EvalError Bool → Bool
holds (returned b) = b
holds (raised e) = false

-- The predicate of an entry route: an error counts as no match.
unfoldable pub predicate_holds : Host → Option Condition → Scope → Bool
predicate_holds host none scope = true
predicate_holds host (some c) scope = holds (eval host scope c)

-- The key of `dedupeDispatches`.
pub dispatch_key : Dispatch → Text
dispatch_key d =
    d.pipeline_name
    ++ 0
      ∷ (d.step_id
          ++ 0
            ∷ (d.pipeline_instance_id
                ++ 0 ∷ (d.plugin ++ 0 ∷ (d.command ++ 0 ∷ d.source_event_id))))

unfoldable pub is_seen_key : Text → List Text → Bool
is_seen_key key [] = false
is_seen_key key (k ∷ ks) = text_eq key k || is_seen_key key ks

-- The loop of `dedupeDispatches`.
unfoldable pub dedupe_from : List Text → List Dispatch → List Dispatch
dedupe_from seen [] = []
dedupe_from seen (d ∷ ds) =
    let skipped = dedupe_from seen ds in
    let kept = d ∷ dedupe_from (dispatch_key d ∷ seen) ds in
    if is_seen_key (dispatch_key d) seen then skipped else kept

-- `dedupeDispatches`
unfoldable pub dedupe_dispatches : List Dispatch → List Dispatch
dedupe_dispatches ds = dedupe_from [] ds

module _ (host : Host) (ps : List Pipeline) (fuel : ℕ) where
  -- The routes out of the step that a request comes from.
  unfoldable pub transitions : Request → Dispatches
  transitions req =
      if not (is_empty req.source_pipeline) && not (is_empty req.source_step_id)
      then resolve_routes ps req false fuel (
          keep (λ r. matches_compiled_route_source r.source req true)
            (transition_index ps (compiled_route_key req.source_pipeline req.source_step_id)))
      else returned []

  -- The entry routes that an event starts, each pipeline with its new instance.
  unfoldable pub starts : (Text → Text) → Request → List CompiledRoute → Dispatches
  starts new_instance req [] = returned []
  starts new_instance req (route ∷ routes) =
      let rest = starts new_instance req routes in
      if source_plugin_matches route.source.source_plugin req.source_plugin
        && predicate_holds host route.source.condition (record {
          payload = req.event.payload;
          context = req.source_context;
          config = no_fields;
        })
      then (do
        here ←
            resolve_routes ps
              (record req { source_pipeline_instance_id = new_instance route.pipeline }) false fuel
              (route ∷ [])
        others ← rest
        returned (here ++ others))
      else rest

  -- `Next`; `new_instance` is the id that uuid.NewString gives for each pipeline that starts.
  unfoldable pub next : (Text → Text) → Request → Dispatches
  next new_instance req = do
    raise_if (is_blank req.event.type) event_type_required
    inside ← transitions req
    started ← starts new_instance req (trigger_index ps (trim_space req.event.type))
    returned (dedupe_dispatches (inside ++ started))

  -- The request of a hook.
  unfoldable pub hook_request : Text → Text → Fields → Request
  hook_request plugin signal payload = record {
    source_plugin = plugin;
    source_job_id = [];
    source_context_id = [];
    source_pipeline = [];
    source_step_id = [];
    source_pipeline_instance_id = [];
    source_depth = 0;
    source_max_depth = 0;
    source_event_id = [];
    source_context = no_fields;
    event = record { type = signal; payload = payload; dedupe_key = []; event_id = [] };
  }

  -- `NextHook`
  unfoldable pub next_hook : Text → Text → Fields → Dispatches
  next_hook plugin signal payload = do
    raise_if (is_blank signal) signal_required
    out ← resolve_routes ps (hook_request plugin (trim_space signal) payload) true fuel (
        keep
          (λ r.
            source_plugin_matches r.source.source_plugin plugin
            && predicate_holds host r.source.condition
                (record { payload = payload; context = no_fields; config = no_fields }))
          (hook_index ps (trim_space signal)))
    returned (dedupe_dispatches out)
