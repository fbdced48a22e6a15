-- ===== src/Router/Engine/CallsFall.antt =====
-- The calls of routes under a rank of the pipelines.
use ductile.Common.{ℕ, ◌<◌, ◌≡◌, refl, sym, subst, true, List, All, In, All-In}
use ductile.Common.Text.{Text, trim_space}
use ductile.Router.Dsl.Types.{
  NodeKind, uses_node, call_node, relay_node, switch_node, Node, to_call, RouteDestination,
  CompiledRoute, Pipeline,
}
use ductile.Router.Dsl.Calls.{is_known, calls_of}
use ductile.Router.Dsl.Calls.Returns.{Falls}
use ductile.Router.Dsl.Calls.Decides.{UniqueNames, listed-found}
use ductile.Router.Dsl.Compile.Listed.{CallsListed}
use ductile.Router.Dsl.Routes.{uses_destination, route_destination_for_node}
use ductile.Router.Engine.Steps.{IsRoute}
use ductile.Router.Engine.BuiltRoutes.{AreBuilt, all_routes-Leads}

abbrev ListedIfCall : Pipeline → RouteDestination → Type 0
ListedIfCall p d =
    CallsListed p → d.kind ≡ to_call → In (trim_space d.call_pipeline) p.called_pipelines

destination-ListedIfCall :
    (p : Pipeline) (n : Node) (kind : NodeKind)
    → n.kind ≡ kind
    → In n p.nodes
    → ListedIfCall p (route_destination_for_node kind n)
unfolding route_destination_for_node uses_destination
destination-ListedIfCall p n call_node e there listed h =
    All-In (λ m. m.kind ≡ call_node → In (trim_space m.call) p.called_pipelines) p.nodes n listed
      there e
destination-ListedIfCall p n uses_node e there listed h = cc
destination-ListedIfCall p n switch_node e there listed h = cc
destination-ListedIfCall p n relay_node e there listed h = cc

-- A call goes to a pipeline of lower rank.
abbrev pub GoesDown : (Text → ℕ) → CompiledRoute → Type 0
GoesDown rank r =
    r.destination.kind ≡ to_call → rank (trim_space r.destination.call_pipeline) < rank r.pipeline

calls_of-listed :
    (ps : List Pipeline) (p : Pipeline)
    → UniqueNames ps
    → In p ps
    → calls_of ps p.name ≡ p.called_pipelines
unfolding calls_of
calls_of-listed ps p unique known = rw (calls_of, listed-found ps p unique known) refl

call-Falls :
    (ps : List Pipeline) (rank : Text → ℕ) (p : Pipeline)
    → UniqueNames ps
    → Falls ps rank
    → In p ps
    → (r : CompiledRoute) → r.pipeline ≡ p.name
    → In (trim_space r.destination.call_pipeline) p.called_pipelines
    → rank (trim_space r.destination.call_pipeline) < rank r.pipeline
call-Falls ps rank p unique falls known r owner there =
    subst (λ name. rank (trim_space r.destination.call_pipeline) < rank name) (sym owner)
      (All-In (λ c. (is_known ps c ≡ true) × (rank c < rank p.name)) p.called_pipelines _
        (subst (All (λ c. (is_known ps c ≡ true) × (rank c < rank p.name)))
          (calls_of-listed ps p unique known) (falls p.name))
        there).1

pub GoesDown-all :
    (ps : List Pipeline) (rank : Text → ℕ)
    → UniqueNames ps
    → All CallsListed ps
    → AreBuilt ps
    → Falls ps rank
    → (r : CompiledRoute) → IsRoute ps r
    → GoesDown rank r
GoesDown-all ps rank unique listed built falls r there call =
    let (p, known, (owner, leads)) =
      all_routes-Leads ListedIfCall (λ p n. destination-ListedIfCall p n n.kind refl)
        (λ p listed c. cc) ps built r there in
    call-Falls ps rank p unique falls known r owner
      (leads (All-In CallsListed ps p listed known) call)
