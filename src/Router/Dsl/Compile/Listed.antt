-- ===== src/Router/Dsl/Compile/Listed.antt =====
-- The calls of the nodes of a compiled pipeline, and the list of its calls.
use ductile.Common.{
  ◌≡◌, refl, subst, inl, inr, Bool, true, List, [], ◌∷◌, Bool-cases, All, All-map_id, In,
}
use ductile.Common.Fallible.{returned}
use ductile.Common.Text.{Text, text_eq, text_eq→eq, trim_space}
use ductile.Router.Conditions.Types.{Host}
use ductile.Router.Dsl.Types.{PipelineSpec, Pipeline}
use ductile.Router.Dsl.Order.{text_lt, insert_unique, sort_unique, sorted_unique}
use ductile.Router.Dsl.Build.Noted.{CallNoted, compile_steps-Noted}
use ductile.Router.Dsl.Compile.{empty_builder, assembled, compile_pipeline}
use ductile.Router.Dsl.Compile.Graph.{compile_pipeline-assembled}

-- The calls of the nodes are listed as the calls of their pipeline.
abbrev pub CallsListed : Pipeline → Type 0
CallsListed p = All (CallNoted p.called_pipelines) p.nodes

module _ {A : Type 0} (lt eq : A → A → Bool) (same : (a b : A) → eq a b ≡ true → a ≡ b) where
  In-insert_unique_new : (x : A) (ys : List A) → In x (insert_unique lt eq x ys)
  unfolding insert_unique
  In-insert_unique_new x [] = inl refl
  In-insert_unique_new x (y ∷ ys) = elim (Bool-cases (eq x y)) [
    | inl equal ↦ rw equal (inl (same x y equal))
    | inr other ↦ elim (Bool-cases (lt x y)) [
      | inl less ↦ rw (other, less) (inl refl)
      | inr more ↦ rw (other, more) (inr (In-insert_unique_new x ys))
    ]
  ]

  In-insert_unique : (a x : A) (ys : List A) → In a ys → In a (insert_unique lt eq x ys)
  unfolding insert_unique
  In-insert_unique a x [] h = absurd h
  In-insert_unique a x (y ∷ ys) h = elim (Bool-cases (eq x y)) [
    | inl equal ↦ rw equal h
    | inr other ↦ elim (Bool-cases (lt x y)) [
      | inl less ↦ rw (other, less) (inr h)
      | inr more ↦
          rw (other, more)
            (elim h [ inl e ↦ inl e | inr there ↦ inr (In-insert_unique a x ys there) ])
    ]
  ]

  In-sort_unique : (a : A) (xs : List A) → In a xs → In a (sort_unique lt eq xs)
  unfolding sort_unique
  In-sort_unique a [] h = absurd h
  In-sort_unique a (x ∷ xs) (inl e) = rw e (In-insert_unique_new x (sort_unique lt eq xs))
  In-sort_unique a (x ∷ xs) (inr h) =
      In-insert_unique a x (sort_unique lt eq xs) (In-sort_unique a xs h)

In-sorted_unique : (a : Text) (xs : List Text) → In a xs → In a (sorted_unique xs)
unfolding sorted_unique
In-sorted_unique a xs h = In-sort_unique text_lt text_eq text_eq→eq a xs h

-- A compiled pipeline lists, trimmed as `Next` looks them up, all the pipelines that its nodes call.
pub compile_pipeline-CallsListed :
    (host : Host) (spec : PipelineSpec) (p : Pipeline)
    → compile_pipeline host spec ≡ returned p
    → CallsListed p
unfolding assembled
compile_pipeline-CallsListed host spec p h =
    let (built, compiled, _, _, e) = compile_pipeline-assembled host spec p h in
    subst CallsListed e (
      All-map_id (CallNoted built.1.called) (CallNoted (sorted_unique built.1.called))
        (λ n noted c. In-sorted_unique (trim_space n.call) built.1.called (noted c)) built.1.nodes
        (compile_steps-Noted host spec.steps empty_builder built tt compiled))
