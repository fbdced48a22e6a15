-- ===== src/Router/Engine/Starts.antt =====
-- The jobs that an event starts: those of entry routes.
use ductile.Common.{
  ℕ, zero, suc, ◌≡◌, refl, sym, ap, subst, ◌∙◌, inl, inr, Bool, true, false, ◌&&◌, List, [], ◌∷◌,
  ◌++◌, Bool-cases, All-In, In,
}
use ductile.Common.Fallible.{returned, bind-returned, raise_if-returned, returned_inj}
use ductile.Common.Text.{Text, trim_space}
use ductile.Router.Conditions.Types.{no_fields, Host}
use ductile.Router.Conditions.Validate.{is_blank}
use ductile.Router.Dsl.Types.{to_uses, CompiledRoute, Pipeline}
use ductile.Router.Index.{
  Request, Dispatch, event_type_required, trigger_index, source_plugin_matches,
}
use ductile.Router.Engine.{
  dispatch_to, resolve_kind, resolve_each, resolve_routes, predicate_holds, dispatch_key,
  is_seen_key, dedupe_dispatches, transitions, starts, next,
}
use ductile.Router.Engine.Steps.{In-append_left, In-append_right}
use ductile.Router.Engine.Dedupe.{keys, dedupe_dispatches_lem}

-- The tests on an entry route.
abbrev pub is_started : Host → Request → CompiledRoute → Bool
is_started host req r =
    source_plugin_matches r.source.source_plugin req.source_plugin
    && predicate_holds host r.source.condition
        (record { payload = req.event.payload; context = req.source_context; config = no_fields })

-- The job of an entry route, in the new instance of its pipeline.
abbrev pub started_by : (Text → Text) → Request → CompiledRoute → Dispatch
started_by new_instance req r =
    dispatch_to (record req { source_pipeline_instance_id = new_instance r.pipeline }) false r

resolve_one :
    (ps : List Pipeline) (req : Request) (fuel : ℕ) (r : CompiledRoute)
    → r.destination.kind ≡ to_uses
    → resolve_routes ps req false fuel (r ∷ []) ≡ returned (dispatch_to req false r ∷ [])
unfolding resolve_routes resolve_each resolve_kind
resolve_one ps req zero r e = rw e refl
resolve_one ps req (suc fuel) r e = rw e refl

In-own :
    (ps : List Pipeline) (fuel : ℕ) (new_instance : Text → Text) (req : Request)
    (q r : CompiledRoute) (here others : List Dispatch)
    → resolve_routes ps
        (record req { source_pipeline_instance_id = new_instance q.pipeline })
        false
        fuel
        (q ∷ [])
      ≡ returned here
    → r ≡ q
    → r.destination.kind ≡ to_uses
    → In (started_by new_instance req r) (here ++ others)
In-own ps fuel new_instance req q r here others own e kind =
    let one =
      resolve_one ps (record req { source_pipeline_instance_id = new_instance q.pipeline }) fuel q
        (subst (λ x. x.destination.kind ≡ to_uses) e kind) in
    In-append_left _ here others (
      subst (In (started_by new_instance req r)) (returned_inj (sym one ∙ own))
        (inl (ap (started_by new_instance req) e)))

starts-In :
    (host : Host) (ps : List Pipeline) (fuel : ℕ) (new_instance : Text → Text) (req : Request)
    (rs : List CompiledRoute) (ds : List Dispatch)
    → starts host ps fuel new_instance req rs ≡ returned ds
    → (r : CompiledRoute) → In r rs
    → r.destination.kind ≡ to_uses
    → is_started host req r ≡ true
    → In (started_by new_instance req r) ds
unfolding starts
starts-In host ps fuel new_instance req [] ds h r there kind begun = absurd there
starts-In host ps fuel new_instance req (q ∷ rs) ds h r there kind begun =
    elim (Bool-cases (is_started host req q)) [
      | inl begins ↦
          let req' = record req { source_pipeline_instance_id = new_instance q.pipeline } in
          let (here, own, h₁) =
            bind-returned (resolve_routes ps req' false fuel (q ∷ [])) _ (rw begins at h) in
          let (others, rest, h₂) = bind-returned (starts host ps fuel new_instance req rs) _ h₁ in
          subst (In (started_by new_instance req r)) (returned_inj h₂) (elim there [
            | inl e ↦ In-own ps fuel new_instance req q r here others own e kind
            | inr later ↦
                In-append_right _ here others
                  (starts-In host ps fuel new_instance req rs others rest r later kind begun)
          ])
      | inr skipped ↦ elim there [
        | inl e ↦ cc (subst (λ x. is_started host req x ≡ true) e begun)
        | inr later ↦
            starts-In host ps fuel new_instance req rs ds (rw skipped at h) r later kind begun
      ]
    ]

-- Where `Next` returns, each entry route of the event's type that leads to a plugin, and whose source
-- plugin and predicate match, has its job among the dispatches, up to the key of `dedupeDispatches`,
-- in the new instance of its pipeline.
pub next-starts :
    (host : Host) (ps : List Pipeline) (fuel : ℕ) (new_instance : Text → Text) (req : Request)
    (ds : List Dispatch)
    → next host ps fuel new_instance req ≡ returned ds
    → (r : CompiledRoute) → In r (trigger_index ps (trim_space req.event.type))
    → r.destination.kind ≡ to_uses
    → is_started host req r ≡ true
    → is_seen_key (dispatch_key (started_by new_instance req r)) (keys ds) ≡ true
unfolding next
next-starts host ps fuel new_instance req ds h r there kind begun =
    let (typed, h₁) = raise_if-returned (is_blank req.event.type) event_type_required _ h in
    let (inside, from_step, h₂) = bind-returned (transitions host ps fuel req) _ h₁ in
    let (started, from_event, h₃) =
      bind-returned
        (starts host ps fuel new_instance req (trigger_index ps (trim_space req.event.type))) _
        h₂ in
    let d = started_by new_instance req r in
    let (_, _, covers) = dedupe_dispatches_lem (inside ++ started) in
    subst (λ out. is_seen_key (dispatch_key d) (keys out) ≡ true) (returned_inj h₃)
      (All-In
        (λ d. is_seen_key (dispatch_key d) (keys (dedupe_dispatches (inside ++ started))) ≡ true)
        (inside ++ started) d covers
        (In-append_right d inside started
          (starts-In host ps fuel new_instance req _ started from_event r there kind begun)))
