-- ===== src/Router/Dsl/Routes.antt =====
-- `BuildCompiledRoutes` of internal/router/dsl/compiler.go: the routes of a pipeline's graph.
use ductile.Common.{
  ℕ, Bool, false, Option, none, some, List, [], ◌∷◌, ◌++◌, map, ltb, ◌==◌, if◌then◌else◌,
}
use ductile.Common.Text.{Text, codes, text_eq, is_empty}
use ductile.Router.Conditions.Validate.{is_blank}
use ductile.Router.Dsl.Types.{
  NodeKind, uses_node, call_node, relay_node, switch_node, Node, Edge, Exit, DestinationKind,
  to_call, to_terminal, to_uses, RouteSource, RouteDestination, CompiledRoute, Pipeline,
}
use ductile.Router.Dsl.Order.{text_lt, sort_by}

-- `p.Nodes[id]`
unfoldable pub find_node : Text → List Node → Option Node
find_node id [] = none
find_node id (n ∷ ns) = let rest = find_node id ns in if text_eq n.id id then some n else rest

unfoldable pub uses_destination : Text → Text → RouteDestination
uses_destination id plugin = record {
  kind = to_uses;
  step_id = id;
  plugin = plugin;
  command = codes "handle";
  call_pipeline = [];
}

-- `routeDestinationForNode`
unfoldable pub route_destination_for_node : NodeKind → Node → RouteDestination
route_destination_for_node call_node n = record {
  kind = to_call;
  step_id = n.id;
  plugin = [];
  command = [];
  call_pipeline = n.call;
}
route_destination_for_node switch_node n = uses_destination n.id (codes "core.switch")
route_destination_for_node relay_node n = uses_destination n.id (codes "core.relay")
route_destination_for_node uses_node n = uses_destination n.id n.uses

abbrev no_source : RouteSource
no_source = record {
  trigger = [];
  pipeline = [];
  step_id = [];
  hook_signal = [];
  source_plugin = [];
  event_type = [];
  depth_lt = 0;
  condition = none;
}

-- `withRouteDepth`
unfoldable pub with_route_depth : RouteSource → ℕ → RouteSource
with_route_depth source depth = if ltb 0 depth then record source { depth_lt = depth } else source

-- The source of an entry route.
unfoldable pub entry_source : Pipeline → RouteSource
entry_source p =
    let source = record no_source { source_plugin = p.from_plugin; condition = p.condition } in
    if p.is_hook
    then record source { hook_signal = p.trigger }
    else record source { trigger = p.trigger }

unfoldable pub entry_route : Pipeline → Node → Text → CompiledRoute
entry_route p node id = record {
  id = codes "entry:" ++ id;
  pipeline = p.name;
  source = with_route_depth (entry_source p) p.max_route_depth;
  destination = route_destination_for_node node.kind node;
}

unfoldable pub entry_routes : Pipeline → List Text → List CompiledRoute
entry_routes p [] = []
entry_routes p (id ∷ ids) =
    let rest = entry_routes p ids in
    elim (find_node id p.nodes) [ none ↦ rest | some node ↦ entry_route p node id ∷ rest ]

-- The source of a route out of a step.
unfoldable pub step_source : Pipeline → Text → Text → RouteSource
step_source p id event =
    with_route_depth (record no_source { pipeline = p.name; step_id = id; event_type = event })
      p.max_route_depth

unfoldable pub edge_route : Pipeline → Node → Edge → CompiledRoute
edge_route p node e = record {
  id = codes "edge:" ++ e.from ++ codes "->" ++ e.to;
  pipeline = p.name;
  source = step_source p e.from e.event_type;
  destination = route_destination_for_node node.kind node;
}

unfoldable pub edge_routes : Pipeline → List Edge → List CompiledRoute
edge_routes p [] = []
edge_routes p (e ∷ es) =
    let rest = edge_routes p es in
    elim (find_node e.to p.nodes) [ none ↦ rest | some node ↦ edge_route p node e ∷ rest ]

-- `terminalRouteID`
unfoldable pub terminal_route_id : Exit → Text
terminal_route_id exit =
    if is_blank exit.event_type
    then codes "terminal:" ++ exit.step_id
    else codes "terminal:" ++ exit.step_id ++ codes "@" ++ exit.event_type

unfoldable pub terminal_route : Pipeline → Exit → CompiledRoute
terminal_route p exit = record {
  id = terminal_route_id exit;
  pipeline = p.name;
  source = step_source p exit.step_id exit.event_type;
  destination = record {
    kind = to_terminal;
    step_id = [];
    plugin = [];
    command = [];
    call_pipeline = [];
  };
}

-- The exits, or the terminal nodes where there are none.
unfoldable pub exits_of : Pipeline → List Exit
exits_of p =
    if is_empty p.terminal_exits
    then map (λ id. record { step_id = id; event_type = [] }) p.terminal_node_ids
    else p.terminal_exits

abbrev kind_text : DestinationKind → Text
kind_text to_call = codes "call"
kind_text to_terminal = codes "terminal"
kind_text to_uses = codes "uses"

-- The keys of `SortCompiledRoutes` that are texts, before the depth and after it.
unfoldable pub first_keys : CompiledRoute → List Text
first_keys r =
    r.id ∷ r.pipeline ∷ r.source.trigger ∷ r.source.hook_signal ∷ r.source.source_plugin
    ∷ r.source.pipeline ∷ r.source.step_id ∷ r.source.event_type ∷ []

pub last_keys : CompiledRoute → List Text
last_keys r =
    kind_text r.destination.kind
    ∷ r.destination.step_id
    ∷ r.destination.plugin
    ∷ r.destination.command
    ∷ r.destination.call_pipeline
    ∷ []

-- The first pair of keys that differ decides; `equal` is for lists that agree.
unfoldable pub keys_lt : List Text → List Text → Bool → Bool
keys_lt (a ∷ more) (b ∷ others) equal =
    let rest = keys_lt more others equal in if text_eq a b then rest else text_lt a b
keys_lt _ _ equal = equal

-- The order of `SortCompiledRoutes`.
unfoldable pub route_lt : CompiledRoute → CompiledRoute → Bool
route_lt a b = keys_lt (first_keys a) (first_keys b) (
    if a.source.depth_lt == b.source.depth_lt
    then keys_lt (last_keys a) (last_keys b) false
    else ltb a.source.depth_lt b.source.depth_lt)

-- `SortCompiledRoutes`
unfoldable pub sort_compiled_routes : List CompiledRoute → List CompiledRoute
sort_compiled_routes = sort_by route_lt

-- `BuildCompiledRoutes`
unfoldable pub build_compiled_routes : Pipeline → List CompiledRoute
build_compiled_routes p = sort_compiled_routes (
    entry_routes p p.entry_node_ids ++ edge_routes p p.edges ++ map (terminal_route p) (exits_of p))
