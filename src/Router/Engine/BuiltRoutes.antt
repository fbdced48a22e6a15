-- ===== src/Router/Engine/BuiltRoutes.antt =====
-- The routes of BuildCompiledRoutes and the nodes that they lead to.
use mathlib.Core.Option.{some_inj}
use ductile.Common.{
  ◌≡◌, refl, sym, subst, inl, inr, Option, none, some, List, [], ◌∷◌, map, Bool-cases, All,
  All-append, In, All-In,
}
use ductile.Common.Text.{Text, text_eq, is_empty}
use ductile.Router.Dsl.Types.{
  Node, Edge, Exit, to_terminal, RouteDestination, CompiledRoute, Pipeline,
}
use ductile.Router.Dsl.Routes.{
  find_node, route_destination_for_node, entry_route, entry_routes, edge_route, edge_routes,
  terminal_route, exits_of, route_lt, sort_compiled_routes, build_compiled_routes,
}
use ductile.Router.Dsl.Compile.Graph.{All-sort_by}
use ductile.Router.Index.{routes_of, all_routes}
use ductile.Router.Engine.Steps.{In-append-cases}

found-In : (id : Text) (nodes : List Node) (n : Node) → find_node id nodes ≡ some n → In n nodes
unfolding find_node
found-In id [] n h = cc
found-In id (m ∷ nodes) n h = elim (Bool-cases (text_eq m.id id)) [
  | inl same ↦ inl (sym (some_inj.0 (rw same at h)))
  | inr other ↦ inr (found-In id nodes n (rw other at h))
]

-- The destination of a terminal route.
abbrev nowhere : RouteDestination
nowhere = record { kind = to_terminal; step_id = []; plugin = []; command = []; call_pipeline = [] }

-- A route of the pipeline, with a property of its destination.
abbrev Leads : (Pipeline → RouteDestination → Type 0) → Pipeline → CompiledRoute → Type 0
Leads P p r = (r.pipeline ≡ p.name) × P p r.destination

-- The routes of each pipeline are those that `BuildCompiledRoutes` makes of it.
abbrev pub AreBuilt : List Pipeline → Type 0
AreBuilt ps = All (λ p. p.compiled_routes ≡ build_compiled_routes p) ps

module _ (P : Pipeline → RouteDestination → Type 0)
    (each : (p : Pipeline) (n : Node) → In n p.nodes → P p (route_destination_for_node n.kind n))
    (terminal : (p : Pipeline) → P p nowhere) where
  entry_routes-Leads : (p : Pipeline) (ids : List Text) → All (Leads P p) (entry_routes p ids)
  unfolding entry_routes entry_route
  entry_routes-Leads p [] = tt
  entry_routes-Leads p (id ∷ ids) = go (find_node id p.nodes) refl (entry_routes-Leads p ids)
    where
      go :
          (m : Option Node)
          → find_node id p.nodes ≡ m
          → All (Leads P p) (entry_routes p ids)
          → All (Leads P p) (elim m [
            | none ↦ entry_routes p ids
            | some node ↦ entry_route p node id ∷ entry_routes p ids
          ])
      go none e rest = rest
      go (some n) e rest = ((refl, each p n (found-In id p.nodes n e)), rest)

  edge_routes-Leads : (p : Pipeline) (es : List Edge) → All (Leads P p) (edge_routes p es)
  unfolding edge_routes edge_route
  edge_routes-Leads p [] = tt
  edge_routes-Leads p (e ∷ es) = go (find_node e.to p.nodes) refl (edge_routes-Leads p es)
    where
      go :
          (m : Option Node)
          → find_node e.to p.nodes ≡ m
          → All (Leads P p) (edge_routes p es)
          → All (Leads P p) (elim m [
            | none ↦ edge_routes p es
            | some node ↦ edge_route p node e ∷ edge_routes p es
          ])
      go none h rest = rest
      go (some n) h rest = ((refl, each p n (found-In e.to p.nodes n h)), rest)

  terminal_routes-Leads :
      (p : Pipeline) (exits : List Exit) → All (Leads P p) (map (terminal_route p) exits)
  unfolding terminal_route
  terminal_routes-Leads p [] = tt
  terminal_routes-Leads p (exit ∷ exits) = ((refl, terminal p), terminal_routes-Leads p exits)

  build-Leads : (p : Pipeline) → All (Leads P p) (build_compiled_routes p)
  unfolding build_compiled_routes sort_compiled_routes
  build-Leads p = All-sort_by route_lt (Leads P p) _ (
      All-append (Leads P p) _ _
        (All-append (Leads P p) _ _ (entry_routes-Leads p p.entry_node_ids)
          (edge_routes-Leads p p.edges))
        (terminal_routes-Leads p (exits_of p)))

  routes_of-Leads :
      (p : Pipeline) → p.compiled_routes ≡ build_compiled_routes p → All (Leads P p) (routes_of p)
  unfolding routes_of
  routes_of-Leads p built = elim (Bool-cases (is_empty p.compiled_routes)) [
    | inl empty ↦ rw empty (build-Leads p)
    | inr full ↦ rw full (subst (All (Leads P p)) (sym built) (build-Leads p))
  ]

  -- Each route of the router belongs to one of its pipelines.
  pub all_routes-Leads :
      (ps : List Pipeline)
      → AreBuilt ps
      → (r : CompiledRoute) → In r (all_routes ps)
      → (p : Pipeline) × In p ps × Leads P p r
  unfolding all_routes
  all_routes-Leads [] built r there = absurd there
  all_routes-Leads (q ∷ ps) built r there =
      elim (In-append-cases r (routes_of q) (all_routes ps) there) [
        | inl own ↦
            (q, inl refl, All-In (Leads P q) (routes_of q) r (routes_of-Leads q built.0) own)
        | inr later ↦
            let (p, listed, leads) = all_routes-Leads ps built.1 r later in (p, inr listed, leads)
      ]
