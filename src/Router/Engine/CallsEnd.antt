-- ===== src/Router/Engine/CallsEnd.antt =====
-- The calls that Next resolves, and their fuel.
use mathlib.Core.Logic.{◌≢◌}
use ductile.Common.{
  ℕ, zero, suc, ◌+◌, ◌≤◌, ◌≡◌, refl, sym, subst, ◌≢◌, inl, inr, Bool, true, false, not, ◌&&◌, ◌||◌,
  none, some, List, [], ◌∷◌, arith, if◌then◌else◌, Bool-cases, and-true, keep, All, All-map_id,
  All-In,
}
use ductile.Common.Fallible.{returned, raised, raise_if, RaisesOnly, RaisesOnly-bind}
use ductile.Common.Text.{Text, text_eq, text_eq→eq, is_empty, trim_space}
use ductile.Router.Conditions.Types.{Host}
use ductile.Router.Conditions.Validate.{is_blank}
use ductile.Router.Dsl.Types.{
  DestinationKind, to_call, to_terminal, to_uses, CompiledRoute, Pipeline,
}
use ductile.Router.Dsl.Calls.{find_pipeline, validate_pipeline_calls}
use ductile.Router.Dsl.Calls.Decides.{UniqueNames, All-intro, validate_pipeline_calls_lem}
use ductile.Router.Dsl.Compile.Listed.{CallsListed}
use ductile.Router.Index.{
  Request, RouteError, event_type_required, out_of_calls, routes_of, all_routes, has_trigger,
  has_signal, compiled_route_key, trigger_index, entry_routes_for_pipeline,
}
use ductile.Router.Engine.{
  Dispatches, resolve_call, resolve_kind, resolve_each, resolve_routes, transitions, starts, next,
}
use ductile.Router.Engine.Steps.{
  All-keep, IsRoute, entry_routes_for_pipeline-IsRoute, transition_index-IsRoute,
  trigger_index-IsRoute,
}
use ductile.Router.Engine.BuiltRoutes.{AreBuilt}
use ductile.Router.Engine.CallsFall.{GoesDown, GoesDown-all}

-- The error is not the one for want of fuel.
abbrev pub IsRoutingError : RouteError → Type 0
IsRoutingError e = e ≢ out_of_calls

abbrev Ends : Dispatches → Type 0
Ends = RaisesOnly IsRoutingError

if_Ends : (b : Bool) (x y : Dispatches) → Ends x → Ends y → Ends (if b then x else y)
if_Ends true x y p q = p
if_Ends false x y p q = q

raise_if-Ends :
    (b : Bool) → RaisesOnly {A = Unit {0}} IsRoutingError (raise_if b event_type_required)
raise_if-Ends true = λ c. cc
raise_if-Ends false = tt

keep-passes :
    {A : Type 0} (p : A → Bool) (P : A → Type 0)
    → ((x : A) → p x ≡ true → P x)
    → (xs : List A) → All P (keep p xs)
keep-passes p P h [] = tt
keep-passes p P h (x ∷ xs) = elim (Bool-cases (p x)) [
  | inl yes_x ↦ rw yes_x (h x yes_x, keep-passes p P h xs)
  | inr no_x ↦ rw no_x (keep-passes p P h xs)
]

module _ (rank : Text → ℕ) (ps : List Pipeline)
    (down : (r : CompiledRoute) → IsRoute ps r → GoesDown rank r) where
  -- Within the fuel.
  abbrev Within : ℕ → CompiledRoute → Type 0
  Within fuel r = IsRoute ps r × (rank r.pipeline ≤ fuel)

  entries-named : (name : Text) → All (λ r. r.pipeline ≡ name) (entry_routes_for_pipeline ps name)
  unfolding entry_routes_for_pipeline
  entries-named name =
      elim (find_pipeline name ps)
        as (λ m.
          All (λ r. r.pipeline ≡ name)
            (elim m [
              | none ↦ []
              | some p ↦
                  keep (λ r. text_eq r.pipeline name && (has_trigger r || has_signal r))
                    (routes_of p)
            ])) [
              | none ↦ tt
              | some p ↦
                  keep-passes _ (λ r. r.pipeline ≡ name)
                    (λ r h. text_eq→eq r.pipeline name (and-true (text_eq r.pipeline name) _ h).0)
                    (routes_of p)
            ]

  entries-Within :
      (name : Text) (fuel : ℕ)
      → rank name ≤ fuel
      → All (Within fuel) (entry_routes_for_pipeline ps name)
  entries-Within name fuel low =
      All-intro (Within fuel) (entry_routes_for_pipeline ps name) λ r there. (
        All-In (IsRoute ps) _ r (entry_routes_for_pipeline-IsRoute ps name) there,
        subst (λ x. rank x ≤ fuel)
            (sym (All-In (λ r. r.pipeline ≡ name) _ r (entries-named name) there)) low,
      )

  -- What the calls of a route need: their entries are resolved, if there is a call.
  abbrev InsideEnds : (List CompiledRoute → Dispatches) → CompiledRoute → Type 0
  InsideEnds inside r =
      r.destination.kind ≡ to_call
      → Ends (inside (entry_routes_for_pipeline ps (trim_space r.destination.call_pipeline)))

  resolve_kind-Ends :
      (req : Request) (root_hook : Bool) (inside : List CompiledRoute → Dispatches)
      (r : CompiledRoute) (kind : DestinationKind)
      → r.destination.kind ≡ kind
      → InsideEnds inside r
      → Ends (resolve_kind inside ps req root_hook r kind)
  unfolding resolve_kind resolve_call
  resolve_kind-Ends req root_hook inside r to_uses e h = tt
  resolve_kind-Ends req root_hook inside r to_terminal e h = tt
  resolve_kind-Ends req root_hook inside r to_call e h =
      let called = trim_space r.destination.call_pipeline in
      elim (Bool-cases (is_empty called)) [
        | inl blank ↦ rw blank (λ c. cc)
        | inr named ↦ elim (Bool-cases (is_empty (entry_routes_for_pipeline ps called))) [
          | inl no_entry ↦ rw (named, no_entry) (λ c. cc)
          | inr entries ↦ rw (named, entries) (h e)
        ]
      ]

  resolve_each-Ends :
      (req : Request) (root_hook : Bool) (inside : List CompiledRoute → Dispatches)
      (rs : List CompiledRoute)
      → All (InsideEnds inside) rs
      → Ends (resolve_each inside ps req root_hook rs)
  unfolding resolve_each
  resolve_each-Ends req root_hook inside [] h = tt
  resolve_each-Ends req root_hook inside (r ∷ rs) h =
      RaisesOnly-bind IsRoutingError (resolve_kind inside ps req root_hook r r.destination.kind) _
        (resolve_kind-Ends req root_hook inside r r.destination.kind refl h.0)
        λ here e.
          RaisesOnly-bind IsRoutingError (resolve_each inside ps req root_hook rs) _
            (resolve_each-Ends req root_hook inside rs h.1) λ rest e. tt

  resolve_routes-Ends :
      (req : Request) (root_hook : Bool) (fuel : ℕ) (rs : List CompiledRoute)
      → All (Within fuel) rs
      → Ends (resolve_routes ps req root_hook fuel rs)
  unfolding resolve_routes
  resolve_routes-Ends req root_hook zero rs within = resolve_each-Ends req root_hook _ rs (
      All-map_id (Within 0) (InsideEnds (λ es. raised out_of_calls))
        (λ r (there, low) call. absurd (omega (arith, low, down r there call))) rs within)
  resolve_routes-Ends req root_hook (suc fuel) rs within = resolve_each-Ends req root_hook _ rs (
      All-map_id (Within (suc fuel)) (InsideEnds (λ es. resolve_routes ps req root_hook fuel es))
        (λ r (there, low) call.
          resolve_routes-Ends req root_hook fuel _
            (entries-Within _ fuel (omega (arith, low, down r there call))))
        rs within)

  Within-all :
      (fuel : ℕ)
      → All (Within fuel) (all_routes ps)
      → (rs : List CompiledRoute) → All (IsRoute ps) rs
      → All (Within fuel) rs
  Within-all fuel all rs h =
      All-map_id (IsRoute ps) (Within fuel) (λ r there. All-In (Within fuel) _ r all there) rs h

  transitions-Ends :
      (host : Host) (fuel : ℕ) (req : Request)
      → All (Within fuel) (all_routes ps)
      → Ends (transitions host ps fuel req)
  unfolding transitions
  transitions-Ends host fuel req all =
      if_Ends (not (is_empty req.source_pipeline) && not (is_empty req.source_step_id)) _ _
        (resolve_routes-Ends req false fuel _ (
          All-keep (Within fuel) _ _ (
            Within-all fuel all _ (
              transition_index-IsRoute ps
                (compiled_route_key req.source_pipeline req.source_step_id)))))
        tt

  starts-Ends :
      (host : Host) (fuel : ℕ) (new_instance : Text → Text) (req : Request)
      (rs : List CompiledRoute)
      → All (Within fuel) rs
      → Ends (starts host ps fuel new_instance req rs)
  unfolding starts
  starts-Ends host fuel new_instance req [] p = tt
  starts-Ends host fuel new_instance req (r ∷ rs) p =
      let rest = starts-Ends host fuel new_instance req rs p.1 in
      if_Ends _ _ _
        (RaisesOnly-bind IsRoutingError _ _
          (resolve_routes-Ends
            (record req { source_pipeline_instance_id = new_instance r.pipeline }) false fuel
            (r ∷ []) (p.0, tt))
          λ here e. RaisesOnly-bind IsRoutingError _ _ rest λ others e. tt)
        rest

  next-Ends :
      (host : Host) (fuel : ℕ) (new_instance : Text → Text) (req : Request)
      → All (Within fuel) (all_routes ps)
      → Ends (next host ps fuel new_instance req)
  unfolding next
  next-Ends host fuel new_instance req all =
      RaisesOnly-bind IsRoutingError (raise_if (is_blank req.event.type) event_type_required) _
        (raise_if-Ends (is_blank req.event.type))
        λ _ e.
          RaisesOnly-bind IsRoutingError (transitions host ps fuel req) _
            (transitions-Ends host fuel req all)
            λ inside e.
              RaisesOnly-bind IsRoutingError
                (starts host ps fuel new_instance req
                  (trigger_index ps (trim_space req.event.type)))
                _
                (starts-Ends host fuel new_instance req _
                  (Within-all fuel all _ (trigger_index-IsRoute ps (trim_space req.event.type))))
                λ started e. tt

total : (Text → ℕ) → List CompiledRoute → ℕ
total rank [] = 0
total rank (r ∷ rs) = rank r.pipeline + total rank rs

below-total :
    (rank : Text → ℕ) (extra : ℕ) (rs : List CompiledRoute)
    → All (λ r. rank r.pipeline ≤ total rank rs + extra) rs
unfolding total
below-total rank extra [] = tt
below-total rank extra (r ∷ rs) = (
  omega arith,
  All-map_id (λ q. rank q.pipeline ≤ total rank rs + extra)
      (λ q. rank q.pipeline ≤ rank r.pipeline + total rank rs + extra) (λ q h. omega (arith, h)) rs
      (below-total rank extra rs),
)

-- Where `validatePipelineCalls` accepts the pipelines, their calls end: from some fuel on, `Next` never
-- fails for want of fuel. Each pipeline lists the calls of its nodes, its routes are those that were
-- built of it, and the names are unique, as the keys of a map are.
pub next-calls_end :
    (host : Host) (ps : List Pipeline) (new_instance : Text → Text) (req : Request)
    → UniqueNames ps
    → All CallsListed ps
    → AreBuilt ps
    → validate_pipeline_calls ps ≡ returned tt
    → (least : ℕ) × ((extra : ℕ)
        → RaisesOnly IsRoutingError (next host ps (least + extra) new_instance req))
next-calls_end host ps new_instance req unique listed built valid =
    let (rank, falls) = (validate_pipeline_calls_lem ps unique).0 valid in
    (
      total rank (all_routes ps),
      λ extra.
          next-Ends rank ps (GoesDown-all ps rank unique listed built falls) host _ new_instance req
            (All-intro
              (Within rank ps (GoesDown-all ps rank unique listed built falls)
                (total rank (all_routes ps) + extra))
              (all_routes ps)
              λ r there. (
                there,
                All-In (λ q. rank q.pipeline ≤ total rank (all_routes ps) + extra) _ r
                    (below-total rank extra (all_routes ps)) there,
              )),
    )
