-- ===== src/Examples/Dispatches.antt =====
-- Runs of the theorems on the jobs that the router makes of an event.
use ductile.Common.{ℕ, ◌+◌, ◌≡◌, refl, inl, true, none, [], ◌∷◌, All, In}
use ductile.Common.Fallible.{returned, RaisesOnly}
use ductile.Common.Text.{codes}
use ductile.Router.Conditions.Types.{no_fields}
use ductile.Router.Dsl.Types.{to_uses, CompiledRoute}
use ductile.Router.Dsl.Build.{has_node, find_auto, compile_steps}
use ductile.Router.Dsl.Compile.{assembled}
use ductile.Router.Dsl.Build.Ranks.{UniqueIds}
use ductile.Router.Dsl.Calls.{validate_pipeline_calls}
use ductile.Router.Dsl.Routes.{build_compiled_routes}
use ductile.Router.Dsl.Order.{sort_edges}
use ductile.Router.Index.{Request, Dispatch, all_routes, trigger_index}
use ductile.Router.Engine.{dispatch_key, is_seen_key, dedupe_dispatches, next}
use ductile.Router.Engine.Dedupe.{keys}
use ductile.Router.Engine.Steps.{Follows, IsInstance, next-Follows}
use ductile.Router.Engine.BuiltRoutes.{AreBuilt}
use ductile.Router.Engine.CallsEnd.{IsRoutingError, next-calls_end}
use ductile.Router.Dsl.Compile.Listed.{CallsListed, compile_pipeline-CallsListed}
use ductile.Router.Engine.AfterCalls.{AreLoaded, NamesNoCall, next-NamesNoCall}
use ductile.Examples.Conditions.{host}
use ductile.Examples.Pipelines.{
  archive_spec, alert_spec, alert, alert_compiles, archive, archive_compiles, pipelines,
  names_unique, alert_unique, archive_unique,
}
use ductile.Router.Engine.Starts.{is_started, started_by, next-starts}

-- The event that the step "mail" sends.
abbrev mail_sent : Request
mail_sent = record {
  source_plugin = codes "mailer";
  source_job_id = codes "job";
  source_context_id = [];
  source_pipeline = codes "alert";
  source_step_id = codes "mail";
  source_pipeline_instance_id = codes "run";
  source_depth = 2;
  source_max_depth = 0;
  source_event_id = codes "event";
  source_context = no_fields;
  event = record {
    type = codes "mail.sent";
    payload = no_fields;
    dedupe_key = [];
    event_id = codes "event";
  };
}

-- The call of "archive" leads to its entry.
abbrev storage_job : Dispatch
storage_job = record {
  plugin = codes "storage";
  command = codes "handle";
  event = mail_sent.event;
  pipeline_name = codes "archive";
  step_id = codes "store";
  pipeline_instance_id = codes "run";
  route_depth = 3;
  route_max_depth = 0;
  parent_job_id = codes "job";
  parent_context_id = [];
  source_event_id = codes "event";
}

called : next host pipelines 2 (λ p. codes "new") mail_sent ≡ returned (storage_job ∷ [])
unfolding next ductile.Router.Index.compiled_route_key ductile.Router.Index.trigger_index
    ductile.Router.Index.transition_index ductile.Router.Index.entry_routes_for_pipeline
    ductile.Router.Engine.dispatch_to ductile.Router.Engine.resolve_call
    ductile.Router.Engine.resolve_kind ductile.Router.Engine.resolve_each
    ductile.Router.Engine.resolve_routes ductile.Router.Engine.matches_step
    ductile.Router.Engine.matches_compiled_route_source ductile.Router.Index.routes_of
    ductile.Router.Engine.dedupe_from ductile.Router.Engine.transitions ductile.Router.Engine.starts
    all_routes is_seen_key dedupe_dispatches ductile.Router.Dsl.Routes.find_node
    ductile.Router.Dsl.Routes.uses_destination ductile.Router.Dsl.Routes.route_destination_for_node
    ductile.Router.Dsl.Routes.with_route_depth ductile.Router.Dsl.Routes.entry_source
    ductile.Router.Dsl.Routes.entry_route ductile.Router.Dsl.Routes.entry_routes
    ductile.Router.Dsl.Routes.step_source ductile.Router.Dsl.Routes.edge_route
    ductile.Router.Dsl.Routes.edge_routes ductile.Router.Dsl.Routes.terminal_route_id
    ductile.Router.Dsl.Routes.terminal_route ductile.Router.Dsl.Routes.exits_of
    ductile.Router.Dsl.Routes.first_keys ductile.Router.Dsl.Routes.keys_lt
    ductile.Router.Dsl.Routes.route_lt ductile.Router.Dsl.Routes.sort_compiled_routes
    build_compiled_routes ductile.Router.Dsl.Order.sort_by ductile.Router.Dsl.Order.insert_sorted
    ductile.Common.Text.trim_space ductile.Router.Dsl.Build.check_condition compile_steps
    ductile.Router.Dsl.Build.compile_from ductile.Router.Dsl.Build.check_step
    ductile.Router.Dsl.Checks.validate_baggage_spec ductile.Router.Dsl.Build.add_step
    ductile.Router.Dsl.Build.add_uses ductile.Router.Dsl.Build.alloc_node_id has_node
    ductile.Router.Dsl.Build.add_leaf ductile.Router.Conditions.Validate.validate_root
    ductile.Router.Conditions.Validate.validate ductile.Router.Conditions.Validate.modes
    ductile.Router.Conditions.Validate.check_atomic ductile.Common.Text.Decimal.decimal
    ductile.Common.Text.split ductile.Common.Text.text_eq ductile.Router.Conditions.Eval.operator_of
    ductile.Router.Dsl.Build.add_call ductile.Router.Dsl.Build.auto_id
    ductile.Router.Dsl.Build.edges_between ductile.Router.Dsl.Build.edges_to find_auto
    ductile.Router.Dsl.Build.wrap_conditional_step assembled ductile.Router.Dsl.Order.insert_unique
    sort_edges ductile.Router.Dsl.Order.sort_unique ductile.Router.Dsl.Order.sorted_compile_exits
    ductile.Router.Dsl.Order.sorted_unique ductile.Router.Dsl.Order.text_lt
    ductile.Router.Dsl.Calls.find_pipeline
called = refl

next-Follows_example :
    All
      (Follows (IsInstance (λ p. codes "new") mail_sent) (all_routes pipelines) mail_sent)
      (storage_job ∷ [])
next-Follows_example =
    next-Follows host pipelines 2 (λ p. codes "new") mail_sent (storage_job ∷ []) called

pipelines_built : AreBuilt pipelines
unfolding build_compiled_routes ductile.Router.Dsl.Routes.entry_source
    ductile.Router.Dsl.Routes.entry_route ductile.Router.Dsl.Routes.entry_routes
    ductile.Router.Dsl.Routes.step_source ductile.Router.Dsl.Routes.edge_route
    ductile.Router.Dsl.Routes.edge_routes ductile.Router.Dsl.Routes.terminal_route
    ductile.Router.Dsl.Routes.exits_of
pipelines_built = (refl, (refl, tt))

ids_unique : All (λ p. UniqueIds p.nodes) pipelines
ids_unique = (alert_unique, (archive_unique, tt))

loaded : AreLoaded pipelines
loaded = record { names = names_unique; ids = ids_unique; built = pipelines_built }

next-NamesNoCall_example : All (NamesNoCall pipelines) (storage_job ∷ [])
next-NamesNoCall_example =
    (next-NamesNoCall host pipelines 2 (storage_job ∷ []) loaded).0 (λ p. codes "new") mail_sent
      called

calls_listed : All CallsListed pipelines
unfolding assembled
calls_listed = (
  compile_pipeline-CallsListed host alert_spec alert alert_compiles,
  (compile_pipeline-CallsListed host archive_spec archive archive_compiles, tt),
)

calls_valid : validate_pipeline_calls pipelines ≡ returned tt
unfolding ductile.Router.Dsl.Calls.calls_of ductile.Router.Dsl.Calls.known_calls
    ductile.Router.Dsl.Calls.all_known_calls ductile.Router.Dsl.Calls.walk_all
    validate_pipeline_calls ductile.Router.Dsl.Calls.find_pipeline ductile.Common.Text.trim_space
    ductile.Router.Dsl.Build.check_condition compile_steps ductile.Router.Dsl.Build.compile_from
    ductile.Router.Dsl.Build.check_step ductile.Router.Dsl.Checks.validate_baggage_spec
    ductile.Router.Dsl.Build.add_step ductile.Router.Dsl.Build.add_uses
    ductile.Router.Dsl.Build.alloc_node_id has_node ductile.Router.Dsl.Build.add_leaf
    ductile.Router.Conditions.Validate.validate_root ductile.Router.Conditions.Validate.validate
    ductile.Router.Conditions.Validate.modes ductile.Router.Conditions.Validate.check_atomic
    ductile.Common.Text.split ductile.Common.Text.text_eq ductile.Router.Conditions.Eval.operator_of
    ductile.Router.Dsl.Build.add_call ductile.Router.Dsl.Build.auto_id find_auto
    ductile.Router.Dsl.Build.wrap_conditional_step assembled ductile.Router.Dsl.Order.insert_unique
    ductile.Router.Dsl.Order.sort_unique ductile.Router.Dsl.Order.sorted_compile_exits
    ductile.Router.Dsl.Order.sorted_unique ductile.Router.Dsl.Order.text_lt
calls_valid = refl

next-calls_end_example :
    (least : ℕ) × ((extra : ℕ)
      → RaisesOnly IsRoutingError
          (next host pipelines (least + extra) (λ p. codes "new") mail_sent))
next-calls_end_example =
    next-calls_end host pipelines (λ p. codes "new") mail_sent names_unique calls_listed
      pipelines_built calls_valid

-- An event that starts the pipeline "archive".
abbrev asked : Request
asked = record mail_sent {
  source_pipeline = [];
  source_step_id = [];
  event = record mail_sent.event { type = codes "archive.asked" };
}

abbrev store_route : CompiledRoute
store_route = record {
  id = codes "entry:store";
  pipeline = codes "archive";
  source = record {
    trigger = codes "archive.asked";
    pipeline = [];
    step_id = [];
    hook_signal = [];
    source_plugin = [];
    event_type = [];
    depth_lt = 0;
    condition = none;
  };
  destination = record {
    kind = to_uses;
    step_id = codes "store";
    plugin = codes "storage";
    command = codes "handle";
    call_pipeline = [];
  };
}

abbrev asked_job : Dispatch
asked_job = record storage_job { event = asked.event; pipeline_instance_id = codes "new" }

begun : next host pipelines 2 (λ p. codes "new") asked ≡ returned (asked_job ∷ [])
unfolding next ductile.Router.Index.trigger_index ductile.Router.Engine.dispatch_to
    ductile.Router.Engine.resolve_kind ductile.Router.Engine.resolve_each
    ductile.Router.Engine.resolve_routes ductile.Router.Index.routes_of
    ductile.Router.Engine.dedupe_from ductile.Router.Engine.transitions ductile.Router.Engine.starts
    all_routes is_seen_key dedupe_dispatches ductile.Router.Dsl.Routes.find_node
    ductile.Router.Dsl.Routes.uses_destination ductile.Router.Dsl.Routes.route_destination_for_node
    ductile.Router.Dsl.Routes.with_route_depth ductile.Router.Dsl.Routes.entry_source
    ductile.Router.Dsl.Routes.entry_route ductile.Router.Dsl.Routes.entry_routes
    ductile.Router.Dsl.Routes.step_source ductile.Router.Dsl.Routes.edge_route
    ductile.Router.Dsl.Routes.edge_routes ductile.Router.Dsl.Routes.terminal_route_id
    ductile.Router.Dsl.Routes.terminal_route ductile.Router.Dsl.Routes.exits_of
    ductile.Router.Dsl.Routes.first_keys ductile.Router.Dsl.Routes.keys_lt
    ductile.Router.Dsl.Routes.route_lt ductile.Router.Dsl.Routes.sort_compiled_routes
    build_compiled_routes ductile.Router.Dsl.Order.sort_by ductile.Router.Dsl.Order.insert_sorted
    ductile.Common.Text.trim_space ductile.Router.Dsl.Build.check_condition compile_steps
    ductile.Router.Dsl.Build.compile_from ductile.Router.Dsl.Build.check_step
    ductile.Router.Dsl.Checks.validate_baggage_spec ductile.Router.Dsl.Build.add_step
    ductile.Router.Dsl.Build.add_uses ductile.Router.Dsl.Build.alloc_node_id has_node
    ductile.Router.Dsl.Build.add_leaf ductile.Router.Conditions.Validate.validate_root
    ductile.Router.Conditions.Validate.validate ductile.Router.Conditions.Validate.modes
    ductile.Router.Conditions.Validate.check_atomic ductile.Common.Text.Decimal.decimal
    ductile.Common.Text.split ductile.Common.Text.text_eq ductile.Router.Conditions.Eval.operator_of
    ductile.Router.Dsl.Build.add_call ductile.Router.Dsl.Build.auto_id
    ductile.Router.Dsl.Build.edges_between ductile.Router.Dsl.Build.edges_to find_auto
    ductile.Router.Dsl.Build.wrap_conditional_step assembled ductile.Router.Dsl.Order.insert_unique
    sort_edges ductile.Router.Dsl.Order.sort_unique ductile.Router.Dsl.Order.sorted_compile_exits
    ductile.Router.Dsl.Order.sorted_unique ductile.Router.Dsl.Order.text_lt
    ductile.Router.Engine.predicate_holds ductile.Router.Index.source_plugin_matches
begun = refl

indexed : In store_route (trigger_index pipelines (codes "archive.asked"))
unfolding trigger_index ductile.Router.Index.routes_of all_routes
    ductile.Router.Dsl.Routes.find_node ductile.Router.Dsl.Routes.uses_destination
    ductile.Router.Dsl.Routes.route_destination_for_node ductile.Router.Dsl.Routes.with_route_depth
    ductile.Router.Dsl.Routes.entry_source ductile.Router.Dsl.Routes.entry_route
    ductile.Router.Dsl.Routes.entry_routes ductile.Router.Dsl.Routes.step_source
    ductile.Router.Dsl.Routes.edge_route ductile.Router.Dsl.Routes.edge_routes
    ductile.Router.Dsl.Routes.terminal_route_id ductile.Router.Dsl.Routes.terminal_route
    ductile.Router.Dsl.Routes.exits_of ductile.Router.Dsl.Routes.first_keys
    ductile.Router.Dsl.Routes.keys_lt ductile.Router.Dsl.Routes.route_lt
    ductile.Router.Dsl.Routes.sort_compiled_routes build_compiled_routes
    ductile.Router.Dsl.Order.sort_by ductile.Router.Dsl.Order.insert_sorted
    ductile.Common.Text.trim_space ductile.Router.Dsl.Build.check_condition compile_steps
    ductile.Router.Dsl.Build.compile_from ductile.Router.Dsl.Build.check_step
    ductile.Router.Dsl.Checks.validate_baggage_spec ductile.Router.Dsl.Build.add_step
    ductile.Router.Dsl.Build.add_uses ductile.Router.Dsl.Build.alloc_node_id has_node
    ductile.Router.Dsl.Build.add_leaf ductile.Router.Conditions.Validate.validate_root
    ductile.Router.Conditions.Validate.validate ductile.Router.Conditions.Validate.modes
    ductile.Router.Conditions.Validate.check_atomic ductile.Common.Text.Decimal.decimal
    ductile.Common.Text.split ductile.Common.Text.text_eq ductile.Router.Conditions.Eval.operator_of
    ductile.Router.Dsl.Build.add_call ductile.Router.Dsl.Build.auto_id
    ductile.Router.Dsl.Build.edges_between ductile.Router.Dsl.Build.edges_to find_auto
    ductile.Router.Dsl.Build.wrap_conditional_step assembled ductile.Router.Dsl.Order.insert_unique
    sort_edges ductile.Router.Dsl.Order.sort_unique ductile.Router.Dsl.Order.sorted_compile_exits
    ductile.Router.Dsl.Order.sorted_unique ductile.Router.Dsl.Order.text_lt
indexed = inl refl

fits : is_started host asked store_route ≡ true
unfolding ductile.Router.Engine.predicate_holds ductile.Router.Index.source_plugin_matches
    ductile.Common.Text.trim_space
fits = refl

next-starts_example :
    is_seen_key
      (dispatch_key (started_by (λ p. codes "new") asked store_route))
      (keys (asked_job ∷ []))
    ≡ true
unfolding ductile.Common.Text.trim_space
next-starts_example =
    next-starts host pipelines 2 (λ p. codes "new") asked (asked_job ∷ []) begun store_route indexed
      refl fits
