-- ===== src/Router/Dsl/Calls/Falling.antt =====
-- The walk of validatePipelineCalls, and the order in which it finishes pipelines.
use ductile.Common.Fallible.{returned, ◌>>=◌, bind-returned, returned_inj}
use ductile.Common.{
  ℕ, zero, suc, ◌<◌, ◌≡◌, refl, sym, subst, ◌∙◌, ◌≢◌, inl, inr, true, false, List, [], ◌∷◌, arith,
  ◌==◌, Bool-cases, ==→eq, All, All-map_id,
}
use ductile.Common.Text.{Text, text_eq, text_eq_refl, text_eq→eq, text_eq-false_comm}
use ductile.Router.Dsl.Types.{Pipeline}
use ductile.Router.Dsl.Dag.Counts.{mem}
use ductile.Router.Dsl.Dag.Rounds.{place, place-le, place-old, place-source, mem-old, front}
use ductile.Router.Dsl.Calls.{calls_of, marked, walk_all}

-- The calls of a finished pipeline were finished before.
abbrev Finished : List Pipeline → List Text → Text → Type 0
Finished ps done name =
    mem name done ≡ true
    → All (λ c. (mem c done ≡ true) × (place c done < place name done)) (calls_of ps name)

-- The finished pipelines, the last first, are those of state 2.
pub record Walked (ps : List Pipeline) (state : Text → ℕ) (done : List Text) : Type 0 where
  pub finished_two : (v : Text) → mem v done ≡ true → state v ≡ 2
  pub two_finished : (v : Text) → state v ≡ 2 → mem v done ≡ true
  pub calls_finished : (v : Text) → Finished ps done v

-- What was finished is so still, at the same place.
abbrev Extends : List Text → List Text → Type 0
Extends done done' =
    (v : Text) → mem v done ≡ true → (mem v done' ≡ true) × (place v done' ≡ place v done)

pub record Walk (ps : List Pipeline) (names : List Text) (state : Text → ℕ) (done : List Text)
    (state' : Text → ℕ) : Type 0 where
  pub done' : List Text
  pub walked : Walked ps state' done'
  extends : Extends done done'
  pub all_done : All (λ v. mem v done' ≡ true) names
  open_kept : (v : Text) → state v ≡ 1 → state' v ≡ 1

marked_self : (name : Text) (k : ℕ) (state : Text → ℕ) → marked name k state name ≡ k
marked_self name k state = rw (text_eq_refl name)

marked-other :
    (name v : Text) (k : ℕ) (state : Text → ℕ)
    → text_eq name v ≡ false
    → marked name k state v ≡ state v
marked-other name v k state h = rw h

marked-same :
    (name v : Text) (k : ℕ) (state : Text → ℕ) → text_eq name v ≡ true → marked name k state v ≡ k
marked-same name v k state h = rw h

newer :
    (done : List Text) (name : Text)
    → mem name done ≡ false
    → (c : Text) → mem c done ≡ true
    → place c (name ∷ done) < place name (name ∷ done)
unfolding place
newer done name fresh c old =
    rw (text_eq_refl name, place-source done name fresh c old) (omega (arith, place-le c done))

-- A pipeline that is begun is not finished yet.
begin-Walked :
    (ps : List Pipeline) (name : Text) (state : Text → ℕ) (done : List Text)
    → state name ≢ 2
    → Walked ps state done
    → Walked ps (marked name 1 state) done
begin-Walked ps name state done not_two w = record {
  finished_two = λ v old. elim (Bool-cases (text_eq name v)) [
    | inl same ↦
        absurd
          (not_two (subst (λ x. state x ≡ 2) (sym (text_eq→eq name v same)) (w.finished_two v old)))
    | inr other ↦ marked-other name v 1 state other ∙ w.finished_two v old
  ];
  two_finished = λ v two. elim (Bool-cases (text_eq name v)) [
    | inl same ↦ absurd (omega (arith, two, marked-same name v 1 state same))
    | inr other ↦ w.two_finished v (sym (marked-other name v 1 state other) ∙ two)
  ];
  calls_finished = w.calls_finished;
}

-- A pipeline whose calls are finished is finished last.
end-Walked :
    (ps : List Pipeline) (name : Text) (state : Text → ℕ) (done : List Text)
    → mem name done ≡ false
    → All (λ c. mem c done ≡ true) (calls_of ps name)
    → Walked ps state done
    → Walked ps (marked name 2 state) (name ∷ done)
unfolding mem place
end-Walked ps name state done fresh inside w = record {
  finished_two = λ v old. elim (Bool-cases (text_eq name v)) [
    | inl same ↦ rw same
    | inr other ↦
        marked-other name v 2 state other
        ∙ w.finished_two v (rw (text_eq-false_comm name v other) at old)
  ];
  two_finished = λ v two. elim (Bool-cases (text_eq name v)) [
    | inl same ↦ rw (text_eq→eq name v same) (front v done)
    | inr other ↦
        mem-old done name fresh v (w.two_finished v (sym (marked-other name v 2 state other) ∙ two))
  ];
  calls_finished = λ v there. elim (Bool-cases (text_eq v name)) [
    | inl same ↦
        subst (Finished ps (name ∷ done)) (sym (text_eq→eq v name same))
          (λ _.
            All-map_id (λ c. mem c done ≡ true)
              (λ c.
                (mem c (name ∷ done) ≡ true) × (place c (name ∷ done) < place name (name ∷ done)))
              (λ c old. (mem-old done name fresh c old, newer done name fresh c old))
              (calls_of ps name) inside)
          there
    | inr other ↦
        let old = rw other at there in
        All-map_id (λ c. (mem c done ≡ true) × (place c done < place v done))
          (λ c. (mem c (name ∷ done) ≡ true) × (place c (name ∷ done) < place v (name ∷ done)))
          (λ c known. (
            mem-old done name fresh c known.0,
            omega (
              arith,
              known.1,
              place-old done name fresh c known.0,
              place-old done name fresh v old,
            ),
          ))
          (calls_of ps v) (w.calls_finished v old)
  ];
}

unfinished :
    (ps : List Pipeline) (name : Text) (state : Text → ℕ) (done : List Text)
    → state name ≡ 1
    → Walked ps state done
    → mem name done ≡ false
unfinished ps name state done one w = elim (Bool-cases (mem name done)) [
  | inl old ↦ absurd (omega (arith, one, w.finished_two name old))
  | inr fresh ↦ fresh
]

-- One walk after another.
followed :
    (ps : List Pipeline) (name : Text) (names : List Text) (state state' last : Text → ℕ)
    (done : List Text)
    → (w : Walk ps (name ∷ []) state done state') → Walk ps names state' w.done' last
    → Walk ps (name ∷ names) state done last
followed ps name names state state' last done w w' = record {
  done' = w'.done';
  walked = w'.walked;
  extends = λ v old.
      let (there, same) = w.extends v old in
      let (there', same') = w'.extends v there in (there', same' ∙ same);
  all_done = ((w'.extends name w.all_done.0).0, w'.all_done);
  open_kept = λ v one. w'.open_kept v (w.open_kept v one);
}

-- The walk of one name, after the test that it is not finished and not being visited.
entered :
    (ps : List Pipeline) (name : Text) (state s : Text → ℕ) (done : List Text)
    → state name ≢ 1
    → Walk ps (calls_of ps name) (marked name 1 state) done s
    → Walk ps (name ∷ []) state done (marked name 2 s)
unfolding mem
entered ps name state s done not_one w =
    let still_one = w.open_kept name (marked_self name 1 state) in
    let fresh = unfinished ps name s w.done' still_one w.walked in
    record {
      done' = name ∷ w.done';
      walked = end-Walked ps name s w.done' fresh w.all_done w.walked;
      extends = λ v old.
          let (there, same) = w.extends v old in
          (mem-old w.done' name fresh v there, place-old w.done' name fresh v there ∙ same);
      all_done = (front name w.done', tt);
      open_kept = λ v one. elim (Bool-cases (text_eq name v)) [
        | inl same ↦ absurd (not_one (subst (λ x. state x ≡ 1) (sym (text_eq→eq name v same)) one))
        | inr other ↦
            marked-other name v 2 s other ∙ w.open_kept v (marked-other name v 1 state other ∙ one)
      ];
    }

no-Walk :
    (ps : List Pipeline) (state : Text → ℕ) (done : List Text)
    → Walked ps state done
    → Walk ps [] state done state
no-Walk ps state done w = record {
  done' = done;
  walked = w;
  extends = λ v old. (old, refl);
  all_done = tt;
  open_kept = λ v one. one;
}

known-Walk :
    (ps : List Pipeline) (name : Text) (state : Text → ℕ) (done : List Text)
    → state name ≡ 2
    → Walked ps state done
    → Walk ps (name ∷ []) state done state
known-Walk ps name state done two w = record {
  done' = done;
  walked = w;
  extends = λ v old. (old, refl);
  all_done = (w.two_finished name two, tt);
  open_kept = λ v one. one;
}

pub walk_all-Walk :
    (ps : List Pipeline) (fuel : ℕ) (names : List Text) (state state' : Text → ℕ) (done : List Text)
    → Walked ps state done
    → walk_all ps fuel names state ≡ returned state'
    → Walk ps names state done state'
unfolding walk_all
walk_all-Walk ps zero [] state state' done w h =
    subst (Walk ps [] state done) (returned_inj h) (no-Walk ps state done w)
walk_all-Walk ps (suc fuel) [] state state' done w h =
    subst (Walk ps [] state done) (returned_inj h) (no-Walk ps state done w)
walk_all-Walk ps zero (name ∷ names) state state' done w h = cc
walk_all-Walk ps (suc fuel) (name ∷ names) state state' done w h =
    elim (Bool-cases (state name == 2)) [
      | inl two ↦
          let one_walk = known-Walk ps name state done (==→eq _ 2 two) w in
          followed ps name names state state state' done one_walk (
            walk_all-Walk ps (suc fuel) names state state' one_walk.done' one_walk.walked
              (rw two at h))
      | inr not_two ↦ elim (Bool-cases (state name == 1)) [
        | inl one ↦ cc (rw (not_two, one) at h)
        | inr not_one ↦
            let (mid, inside, h₁) =
              bind-returned
                (walk_all ps fuel (calls_of ps name) (marked name 1 state) >>= λ s.
                  returned (marked name 2 s))
                _ (rw (not_two, not_one) at h) in
            let (s, walked, h₂) =
              bind-returned (walk_all ps fuel (calls_of ps name) (marked name 1 state)) _ inside in
            let begun = begin-Walked ps name state done (λ e. ground arith) w in
            let inner =
              entered ps name state s done (λ e. ground arith)
                (walk_all-Walk ps fuel (calls_of ps name) (marked name 1 state) s done begun
                  walked) in
            let one_walk = subst (Walk ps (name ∷ []) state done) (returned_inj h₂) inner in
            followed ps name names state mid state' done one_walk
              (walk_all-Walk ps (suc fuel) names mid state' one_walk.done' one_walk.walked h₁)
      ]
    ]

pub start-Walked : (ps : List Pipeline) → Walked ps (λ v. 0) []
unfolding mem
start-Walked ps = record {
  finished_two = λ v h. cc;
  two_finished = λ v h. absurd (omega arith);
  calls_finished = λ v h. cc;
}
