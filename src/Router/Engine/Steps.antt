-- ===== src/Router/Engine/Steps.antt =====
-- What the dispatches of a router are.
use ductile.Common.Text.{Text, text_eq, is_empty, trim_space}
use ductile.Router.Conditions.Types.{Host}
use ductile.Router.Conditions.Validate.{is_blank}
use ductile.Router.Dsl.Routes.{route_lt, sort_compiled_routes}
use ductile.Router.Dsl.Calls.{find_pipeline}
use ductile.Router.Dsl.Calls.Decides.{found-listed, All-intro}
use ductile.Router.Dsl.Compile.Graph.{All-sort_by}
use ductile.Router.Engine.Dedupe.{dedupe-All, In-self}
use ductile.Common.{
  ℕ, zero, suc, ◌+◌, ◌==◌, ◌≡◌, refl, subst, ◌⊎◌, inl, inr, Bool, true, false, not, ◌&&◌, ◌||◌,
  Option, none, some, List, [], ◌∷◌, ◌++◌, if◌then◌else◌, Bool-cases, keep, All, All-append,
  All-map_id, In,
}
use ductile.Common.Fallible.{
  returned, raised, ◌>>=◌, bind-returned, raise_if-returned, returned_inj,
}
use ductile.Router.Dsl.Types.{
  DestinationKind, to_call, to_terminal, to_uses, CompiledRoute, Pipeline,
}
use ductile.Router.Index.{
  Request, Dispatch, event_type_required, routes_of, all_routes, has_trigger, has_signal,
  compiled_route_key, trigger_index, transition_index, entry_routes_for_pipeline,
}
use ductile.Router.Engine.{
  dispatch_to, Dispatches, resolve_call, resolve_kind, resolve_each, resolve_routes, transitions,
  starts, next,
}

pub In-append_left : {A : Type 0} (x : A) (xs ys : List A) → In x xs → In x (xs ++ ys)
In-append_left x [] ys h = absurd h
In-append_left x (z ∷ xs) ys (inl e) = inl e
In-append_left x (z ∷ xs) ys (inr h) = inr (In-append_left x xs ys h)

pub In-append_right : {A : Type 0} (x : A) (xs ys : List A) → In x ys → In x (xs ++ ys)
In-append_right x [] ys h = h
In-append_right x (z ∷ xs) ys h = inr (In-append_right x xs ys h)

pub In-append-cases : {A : Type 0} (x : A) (xs ys : List A) → In x (xs ++ ys) → In x xs ⊎ In x ys
In-append-cases x [] ys h = inr h
In-append-cases x (z ∷ xs) ys (inl e) = inl (inl e)
In-append-cases x (z ∷ xs) ys (inr h) = elim (In-append-cases x xs ys h) [
  | inl own ↦ inl (inr own)
  | inr later ↦ inr later
]

pub All-keep :
    {A : Type 0} (P : A → Type 0) (p : A → Bool) (xs : List A) → All P xs → All P (keep p xs)
All-keep P p [] h = tt
All-keep P p (x ∷ xs) h = elim (Bool-cases (p x)) [
  | inl yes_x ↦ rw yes_x (h.0, All-keep P p xs h.1)
  | inr no_x ↦ rw no_x (All-keep P p xs h.1)
]

-- The routes of a listed pipeline are routes of the router.
abbrev pub IsRoute : List Pipeline → CompiledRoute → Type 0
IsRoute ps r = In r (all_routes ps)

routes_of-IsRoute : (ps : List Pipeline) (p : Pipeline) → In p ps → All (IsRoute ps) (routes_of p)
unfolding all_routes
routes_of-IsRoute [] p h = absurd h
routes_of-IsRoute (q ∷ ps) p (inl e) = All-intro (IsRoute (q ∷ ps)) (routes_of p) λ r there.
    In-append_left r (routes_of q) (all_routes ps) (subst (λ x. In r (routes_of x)) e there)
routes_of-IsRoute (q ∷ ps) p (inr h) =
    All-map_id (IsRoute ps) (IsRoute (q ∷ ps))
      (λ r there. In-append_right r (routes_of q) (all_routes ps) there) (routes_of p)
      (routes_of-IsRoute ps p h)

pub entry_routes_for_pipeline-IsRoute :
    (ps : List Pipeline) (name : Text) → All (IsRoute ps) (entry_routes_for_pipeline ps name)
unfolding entry_routes_for_pipeline
entry_routes_for_pipeline-IsRoute ps name = go (find_pipeline name ps) refl
  where
    go :
        (m : Option Pipeline)
        → find_pipeline name ps ≡ m
        → All (IsRoute ps) (elim m [
          | none ↦ []
          | some p ↦
              keep (λ r. text_eq r.pipeline name && (has_trigger r || has_signal r)) (routes_of p)
        ])
    go none e = tt
    go (some p) e =
        All-keep (IsRoute ps) _ (routes_of p) (routes_of-IsRoute ps p (found-listed ps name p e).0)

sorted_routes-IsRoute :
    (ps : List Pipeline) (p : CompiledRoute → Bool)
    → All (IsRoute ps) (sort_compiled_routes (keep p (all_routes ps)))
unfolding sort_compiled_routes
sorted_routes-IsRoute ps p =
    All-sort_by route_lt (IsRoute ps) _
      (All-keep (IsRoute ps) p (all_routes ps) (In-self (all_routes ps)))

pub transition_index-IsRoute :
    (ps : List Pipeline) (key : Text) → All (IsRoute ps) (transition_index ps key)
unfolding transition_index
transition_index-IsRoute ps key = sorted_routes-IsRoute ps _

pub trigger_index-IsRoute :
    (ps : List Pipeline) (event : Text) → All (IsRoute ps) (trigger_index ps event)
unfolding trigger_index
trigger_index-IsRoute ps event = sorted_routes-IsRoute ps _

-- `IsInstance` is any property of pipeline instances that those of the requests have.
module _ (IsInstance : Text → Type 0) where
  -- The dispatch is for a route of the router that leads to a plugin: it has the plugin, the command,
  -- the step and the pipeline of the route and the event of the request, it is one deeper than its
  -- source, has the limit of the source or, for want of it, of the route, and has the job, the context
  -- and the event of the source for its own. `IsInstance` says which pipeline instances it may have.
  abbrev pub Follows : List CompiledRoute → Request → Dispatch → Type 0
  Follows routes req d =
      (route : CompiledRoute) × In route routes
      × (route.destination.kind ≡ to_uses)
      × (d.plugin ≡ route.destination.plugin)
      × (d.command ≡ route.destination.command)
      × (d.event ≡ req.event)
      × (d.pipeline_name ≡ route.pipeline)
      × (d.step_id ≡ route.destination.step_id)
      × IsInstance d.pipeline_instance_id
      × (d.route_depth ≡ req.source_depth + 1)
      × (d.route_max_depth
          ≡ (if req.source_max_depth == 0 then route.source.depth_lt else req.source_max_depth))
      × (d.parent_job_id ≡ req.source_job_id)
      × (d.parent_context_id ≡ req.source_context_id)
      × (d.source_event_id ≡ req.source_event_id)

  abbrev pub AllFollow : List CompiledRoute → Request → Dispatches → Type 0
  AllFollow routes req (returned ds) = All (Follows routes req) ds
  AllFollow routes req (raised e) = Unit

  bind-AllFollow :
      (routes : List CompiledRoute) (req : Request) (m : Dispatches)
      (f : List Dispatch → Dispatches)
      → AllFollow routes req m
      → ((ds : List Dispatch) → All (Follows routes req) ds → AllFollow routes req (f ds))
      → AllFollow routes req (m >>= f)
  bind-AllFollow routes req (returned ds) f h k = k ds h
  bind-AllFollow routes req (raised e) f h k = tt

  both-AllFollow :
      (routes : List CompiledRoute) (req : Request) (m n : Dispatches)
      → AllFollow routes req m
      → AllFollow routes req n
      → AllFollow routes req (do here ← m; rest ← n; returned (here ++ rest))
  both-AllFollow routes req m n h k = bind-AllFollow routes req m _ h λ here p.
      bind-AllFollow routes req n _ k λ rest q. All-append (Follows routes req) here rest p q

  if_Follow :
      (routes : List CompiledRoute) (req : Request) (b : Bool) (x y : Dispatches)
      → AllFollow routes req x
      → AllFollow routes req y
      → AllFollow routes req (if b then x else y)
  if_Follow routes req true x y p q = p
  if_Follow routes req false x y p q = q

  -- What is resolved inside a call follows too.
  abbrev InsideFollows : List Pipeline → Request → (List CompiledRoute → Dispatches) → Type 0
  InsideFollows ps req inside =
      (rs : List CompiledRoute) → All (IsRoute ps) rs → AllFollow (all_routes ps) req (inside rs)

  resolve_kind-Follow :
      (ps : List Pipeline) (req : Request) (inside : List CompiledRoute → Dispatches)
      (r : CompiledRoute) (kind : DestinationKind)
      → IsInstance req.source_pipeline_instance_id
      → InsideFollows ps req inside
      → IsRoute ps r
      → r.destination.kind ≡ kind
      → AllFollow (all_routes ps) req (resolve_kind inside ps req false r kind)
  unfolding resolve_kind resolve_call dispatch_to
  resolve_kind-Follow ps req inside r to_uses i h there e =
      ((r, there, e, refl, refl, refl, refl, refl, i, refl, refl, refl, refl, refl), tt)
  resolve_kind-Follow ps req inside r to_terminal i h there e = tt
  resolve_kind-Follow ps req inside r to_call i h there e =
      let called = trim_space r.destination.call_pipeline in
      elim (Bool-cases (is_empty called)) [
        | inl blank ↦ rw blank tt
        | inr named ↦ elim (Bool-cases (is_empty (entry_routes_for_pipeline ps called))) [
          | inl no_entry ↦ rw (named, no_entry) tt
          | inr entries ↦
              rw (named, entries)
                (h (entry_routes_for_pipeline ps called)
                  (entry_routes_for_pipeline-IsRoute ps called))
        ]
      ]

  resolve_each-Follow :
      (ps : List Pipeline) (req : Request) (inside : List CompiledRoute → Dispatches)
      → IsInstance req.source_pipeline_instance_id
      → InsideFollows ps req inside
      → (rs : List CompiledRoute) → All (IsRoute ps) rs
      → AllFollow (all_routes ps) req (resolve_each inside ps req false rs)
  unfolding resolve_each
  resolve_each-Follow ps req inside i h [] p = tt
  resolve_each-Follow ps req inside i h (r ∷ rs) p =
      both-AllFollow (all_routes ps) req (resolve_kind inside ps req false r r.destination.kind)
        (resolve_each inside ps req false rs)
        (resolve_kind-Follow ps req inside r r.destination.kind i h p.0 refl)
        (resolve_each-Follow ps req inside i h rs p.1)

  pub resolve_routes-Follow :
      (ps : List Pipeline) (req : Request) (fuel : ℕ)
      → IsInstance req.source_pipeline_instance_id
      → InsideFollows ps req (resolve_routes ps req false fuel)
  unfolding resolve_routes
  resolve_routes-Follow ps req zero i rs p = resolve_each-Follow ps req _ i (λ es q. tt) rs p
  resolve_routes-Follow ps req (suc fuel) i rs p =
      resolve_each-Follow ps req _ i (resolve_routes-Follow ps req fuel i) rs p

  transitions-Follow :
      (host : Host) (ps : List Pipeline) (fuel : ℕ) (req : Request)
      → IsInstance req.source_pipeline_instance_id
      → AllFollow (all_routes ps) req (transitions host ps fuel req)
  unfolding transitions
  transitions-Follow host ps fuel req i =
      if_Follow (all_routes ps) req
        (not (is_empty req.source_pipeline) && not (is_empty req.source_step_id)) _ _
        (resolve_routes-Follow ps req fuel i _ (
          All-keep (IsRoute ps) _ _ (
            transition_index-IsRoute ps
              (compiled_route_key req.source_pipeline req.source_step_id))))
        tt

  starts-Follow :
      (host : Host) (ps : List Pipeline) (fuel : ℕ) (new_instance : Text → Text) (req : Request)
      (rs : List CompiledRoute)
      → ((name : Text) → IsInstance (new_instance name))
      → All (IsRoute ps) rs
      → AllFollow (all_routes ps) req (starts host ps fuel new_instance req rs)
  unfolding starts
  starts-Follow host ps fuel new_instance req [] i p = tt
  starts-Follow host ps fuel new_instance req (r ∷ rs) i p =
      let rest = starts-Follow host ps fuel new_instance req rs i p.1 in
      if_Follow (all_routes ps) req _ _ _
        (both-AllFollow (all_routes ps) req _ _
          (resolve_routes-Follow ps
            (record req { source_pipeline_instance_id = new_instance r.pipeline }) fuel
            (i r.pipeline) (r ∷ []) (p.0, tt))
          rest)
        rest

-- A new instance of a pipeline, or the instance of the source.
abbrev pub IsInstance : (Text → Text) → Request → Text → Type 0
IsInstance new_instance req i =
    (i ≡ req.source_pipeline_instance_id) ⊎ ((name : Text) × (i ≡ new_instance name))

-- Each dispatch of `Next` is for a route to a plugin of the router's pipelines. It has the plugin,
-- the command, the step and the pipeline of that route, the event of the request, and the job, the
-- context and the event of the source; it is one level deeper than its source, with the source's
-- limit or, where the source has none, the route's; and it belongs to the pipeline instance of the
-- source or to a new one.
pub next-Follows :
    (host : Host) (ps : List Pipeline) (fuel : ℕ) (new_instance : Text → Text) (req : Request)
    (ds : List Dispatch)
    → next host ps fuel new_instance req ≡ returned ds
    → All (Follows (IsInstance new_instance req) (all_routes ps) req) ds
unfolding next
next-Follows host ps fuel new_instance req ds h =
    let P = Follows (IsInstance new_instance req) (all_routes ps) req in
    let routes = trigger_index ps (trim_space req.event.type) in
    let (typed, h₁) = raise_if-returned (is_blank req.event.type) event_type_required _ h in
    let (inside, from_step, h₂) = bind-returned (transitions host ps fuel req) _ h₁ in
    let (started, from_event, h₃) =
      bind-returned (starts host ps fuel new_instance req routes) _ h₂ in
    let all = AllFollow (IsInstance new_instance req) (all_routes ps) req in
    let stepped = transitions-Follow (IsInstance new_instance req) host ps fuel req (inl refl) in
    let begun =
      starts-Follow (IsInstance new_instance req) host ps fuel new_instance req routes
        (λ name. inr (name, refl)) (trigger_index-IsRoute ps (trim_space req.event.type)) in
    subst (All P) (returned_inj h₃) (
      dedupe-All P (inside ++ started)
        (All-append P inside started (subst all from_step stepped) (subst all from_event begun)))
