-- ===== src/Router/Engine/AfterCalls.antt =====
-- The step ids of the jobs that `Next` and `GetEntryDispatches` of internal/router/engine.go make.
use mathlib.Core.Option.{some_inj}
use ductile.Common.{
  ℕ, ◌≡◌, refl, sym, ap, subst, ◌∙◌, ◌≢◌, inl, inr, true, false, Option, none, some, List, [], ◌∷◌,
  arith, All, All-map_id, In, All-In,
}
use ductile.Common.Fallible.{returned, raised}
use ductile.Common.Text.{Text, text_eq, text_eq_iff}
use ductile.Router.Conditions.Types.{Host}
use ductile.Router.Dsl.Types.{
  NodeKind, uses_node, call_node, relay_node, switch_node, Node, to_uses, RouteDestination,
  Pipeline,
}
use ductile.Router.Dsl.Build.{has_node}
use ductile.Router.Dsl.Build.Ranks.{UniqueIds}
use ductile.Router.Dsl.Calls.{find_pipeline}
use ductile.Router.Dsl.Calls.Decides.{UniqueNames, listed-found}
use ductile.Router.Dsl.Routes.{uses_destination, route_destination_for_node}
use ductile.Router.Index.{
  Event, Request, Dispatch, pipeline_not_found, all_routes, entry_routes_for_pipeline,
}
use ductile.Router.Engine.{resolve_routes, entry_request, get_entry_dispatches, next}
use ductile.Router.Engine.Steps.{
  entry_routes_for_pipeline-IsRoute, Follows, AllFollow, resolve_routes-Follow, IsInstance,
  next-Follows,
}
use ductile.Router.Engine.BuiltRoutes.{AreBuilt, all_routes-Leads}

-- A node of the pipeline that is no call.
abbrev IsStep : Pipeline → Text → Type 0
IsStep p id = (n : Node) × In n p.nodes × (n.id ≡ id) × (n.kind ≢ call_node)

-- If the destination is a plugin, its step is such a node.
abbrev StepIfUses : Pipeline → RouteDestination → Type 0
StepIfUses p d = d.kind ≡ to_uses → IsStep p d.step_id

destination-StepIfUses :
    (p : Pipeline) (n : Node) (kind : NodeKind)
    → n.kind ≡ kind
    → In n p.nodes
    → StepIfUses p (route_destination_for_node kind n)
unfolding route_destination_for_node uses_destination
destination-StepIfUses p n call_node e there h = cc
destination-StepIfUses p n uses_node e there h = (n, there, refl, λ c. cc)
destination-StepIfUses p n switch_node e there h = (n, there, refl, λ c. cc)
destination-StepIfUses p n relay_node e there h = (n, there, refl, λ c. cc)

In-has_node : (ns : List Node) (n : Node) → In n ns → has_node n.id ns ≡ true
unfolding has_node
In-has_node [] n there = absurd there
In-has_node (m ∷ ns) n (inl e) =
    let t : text_eq m.id n.id ≡ true =
      (text_eq_iff m.id n.id).1 (ap (λ (k : Node). k.id) (sym e)) in
    rw t refl
In-has_node (m ∷ ns) n (inr there) = ground (arith, In-has_node ns n there)

node-same : (ns : List Node) (n m : Node) → UniqueIds ns → In n ns → In m ns → n.id ≡ m.id → n ≡ m
node-same [] n m u there there' e = absurd there
node-same (x ∷ ns) n m u (inl a) (inl b) e = a ∙ sym b
node-same (x ∷ ns) n m u (inl a) (inr b) e =
    absurd (cc (u.0, In-has_node ns m b, ap (λ (k : Node). has_node k.id ns) a, e))
node-same (x ∷ ns) n m u (inr a) (inl b) e =
    absurd (cc (u.0, In-has_node ns n a, ap (λ (k : Node). has_node k.id ns) b, e))
node-same (x ∷ ns) n m u (inr a) (inr b) e = node-same ns n m u.1 a b e

pipeline-same :
    (ps : List Pipeline) (p q : Pipeline)
    → UniqueNames ps
    → In p ps
    → In q ps
    → p.name ≡ q.name
    → p ≡ q
pipeline-same ps p q u a b e = some_inj.0 (
    sym (listed-found ps p u a)
    ∙ (ap (λ (name : Text). find_pipeline name ps) e ∙ listed-found ps q u b))

-- Pipelines as the router holds them: keyed by their names, with nodes keyed by their ids and the
-- routes that were built of them.
pub record AreLoaded (ps : List Pipeline) : Type 0 where
  pub names : UniqueNames ps
  pub ids : All (λ p. UniqueIds p.nodes) ps
  pub built : AreBuilt ps

-- The dispatch does not name a call node of the pipelines.
abbrev pub NamesNoCall : List Pipeline → Dispatch → Type 0
NamesNoCall ps d =
    (p : Pipeline) (n : Node)
    → In p ps
    → In n p.nodes
    → n.kind ≡ call_node
    → d.pipeline_name ≡ p.name
    → d.step_id ≢ n.id

module _ (IsOwn : Text → Type 0) (ps : List Pipeline) (req : Request) (loaded : AreLoaded ps) where
  -- A pipeline's name and a node's id determine the node.
  node-named :
      (p q : Pipeline) (n m : Node) (d : Dispatch)
      → In p ps
      → In q ps
      → In n p.nodes
      → In m q.nodes
      → d.pipeline_name ≡ p.name
      → d.pipeline_name ≡ q.name
      → d.step_id ≡ n.id
      → d.step_id ≡ m.id
      → m ≡ n
  node-named p q n m d listed listed' node node' of_p of_q e e' =
      let i : q ≡ p = pipeline-same ps q p loaded.names listed' listed (sym of_q ∙ of_p) in
      node-same p.nodes m n (All-In (λ (x : Pipeline). UniqueIds x.nodes) ps p loaded.ids listed)
        (subst (λ (x : Pipeline). In m x.nodes) i node') node (sym e' ∙ e)

  Follows-NamesNoCall : (d : Dispatch) → Follows IsOwn (all_routes ps) req d → NamesNoCall ps d
  Follows-NamesNoCall d h p n listed node call named e =
      let (r, there, uses, _, _, _, pipeline_of, step_of, _, _, _, _, _, _) = h in
      let (q, listed', (owner, leads)) =
        all_routes-Leads StepIfUses
          (λ p n listed_n. destination-StepIfUses p n n.kind refl listed_n) (λ p c. cc) ps
          loaded.built r there in
      let (m, node', same_id, no_call) = leads uses in
      no_call (
        ap (λ (x : Node). x.kind)
          (node-named p q n m d listed listed' node node' named (pipeline_of ∙ owner) e
            (step_of ∙ sym same_id))
        ∙ call)

  All-NamesNoCall :
      (ds : List Dispatch) → All (Follows IsOwn (all_routes ps) req) ds → All (NamesNoCall ps) ds
  All-NamesNoCall ds h =
      All-map_id (Follows IsOwn (all_routes ps) req) (NamesNoCall ps) Follows-NamesNoCall ds h

get_entry_dispatches-Follow :
    (ps : List Pipeline) (fuel : ℕ) (name : Text) (event : Event)
    → AllFollow
        (λ i. Unit)
        (all_routes ps)
        (entry_request event)
        (get_entry_dispatches ps fuel name event)
unfolding get_entry_dispatches
get_entry_dispatches-Follow ps fuel name event = go (find_pipeline name ps)
  where
    go :
        (o : Option Pipeline)
        → AllFollow
            (λ i. Unit)
            (all_routes ps)
            (entry_request event)
            (elim o [
              | none ↦ raised (pipeline_not_found name)
              | some p ↦
                  resolve_routes ps
                    (entry_request event)
                    false
                    fuel
                    (entry_routes_for_pipeline ps p.name)
            ])
    go none = tt
    go (some p) =
        resolve_routes-Follow (λ i. Unit) ps (entry_request event) fuel tt
          (entry_routes_for_pipeline ps p.name) (entry_routes_for_pipeline-IsRoute ps p.name)

-- Where the names of the pipelines and the ids of each pipeline's nodes are unique and the routes
-- are those that were built of the pipelines, no dispatch of `Next` or of `GetEntryDispatches` names a
-- `call` node of a pipeline: if it is of the pipeline, its step id is not that of the node.
pub next-NamesNoCall :
    (host : Host) (ps : List Pipeline) (fuel : ℕ) (ds : List Dispatch)
    → AreLoaded ps
    → ((new_instance : Text → Text) (req : Request)
        → next host ps fuel new_instance req ≡ returned ds
        → All (NamesNoCall ps) ds)
      × ((name : Text) (event : Event)
          → get_entry_dispatches ps fuel name event ≡ returned ds
          → All (NamesNoCall ps) ds)
next-NamesNoCall host ps fuel ds loaded = (
  λ new_instance req h.
      All-NamesNoCall (IsInstance new_instance req) ps req loaded ds
        (next-Follows host ps fuel new_instance req ds h),
  λ name event h.
      All-NamesNoCall (λ i. Unit) ps (entry_request event) loaded ds
        (subst (AllFollow (λ i. Unit) (all_routes ps) (entry_request event)) h
          (get_entry_dispatches-Follow ps fuel name event)),
)
