-- ===== src/Router/Dsl/Calls/Returns.antt =====
-- The walk of validatePipelineCalls over pipelines with a rank that falls along calls.
use ductile.Common.Fallible.{returned}
use ductile.Common.{
  ℕ, zero, suc, ◌≤◌, ◌<◌, ◌≡◌, refl, sym, ap, subst, ◌∙◌, ◌⊎◌, inl, inr, Bool, true, false, not,
  ◌&&◌, List, [], ◌∷◌, arith, ◌==◌, Bool-cases, ==→eq, count, All, All-map_id,
}
use ductile.Common.Text.{Text, text_eq, text_eq_refl, text_eq→eq}
use ductile.Router.Dsl.Types.{Pipeline}
use ductile.Router.Dsl.Calls.{find_pipeline, is_known, calls_of, marked, walk_all}

-- Neither being visited nor done.
abbrev is_new : (Text → ℕ) → Text → Bool
is_new state v = not (state v == 2) && not (state v == 1)

abbrev pub new_count : List Pipeline → (Text → ℕ) → ℕ
new_count ps state = count (λ p. is_new state p.name) ps

-- No pipeline becomes new.
abbrev NoneNew : (Text → ℕ) → (Text → ℕ) → Type 0
NoneNew state state' = (v : Text) → is_new state' v ≡ true → is_new state v ≡ true

count_mono :
    {A : Type 0} (p q : A → Bool)
    → ((x : A) → p x ≡ true → q x ≡ true)
    → (xs : List A) → count p xs ≤ count q xs
count_mono p q more [] = omega arith
count_mono p q more (x ∷ xs) = elim (Bool-cases (p x)) [
  | inl yes_p ↦ rw (yes_p, more x yes_p) (omega (arith, count_mono p q more xs))
  | inr no_p ↦ rw no_p (omega (arith, count_mono p q more xs))
]

marked-new :
    (name v : Text) (k : ℕ) (state : Text → ℕ)
    → (k ≡ 1) ⊎ (k ≡ 2)
    → is_new (marked name k state) v ≡ true
    → is_new state v ≡ true
marked-new name v k state (inl e) h = ground arith
marked-new name v k state (inr e) h = ground arith

marked-not_new : (name : Text) (state : Text → ℕ) → is_new (marked name 1 state) name ≡ false
marked-not_new name state = rw (text_eq_refl name)

-- The mark of a new pipeline leaves one less.
marked-less :
    (ps : List Pipeline) (name : Text) (state : Text → ℕ)
    → is_known ps name ≡ true
    → is_new state name ≡ true
    → new_count ps (marked name 1 state) < new_count ps state
unfolding find_pipeline
marked-less [] name state known new = cc
marked-less (p ∷ ps) name state known new = elim (Bool-cases (text_eq p.name name)) [
  | inl same ↦
      let e = text_eq→eq p.name name same in
      let old = subst (λ x. is_new state x ≡ true) (sym e) new in
      let marked_now =
        subst (λ x. is_new (marked name 1 state) x ≡ false) (sym e) (marked-not_new name state) in
      rw (marked_now, old)
        (omega (
          arith,
          count_mono (λ q. is_new (marked name 1 state) q.name) (λ q. is_new state q.name)
              (λ q h. marked-new name q.name 1 state (inl refl) h) ps,
        ))
  | inr other ↦
      let fewer = marked-less ps name state (rw (other, is_known) at known) new in
      elim (Bool-cases (is_new (marked name 1 state) p.name)) [
        | inl still ↦
            rw (still, marked-new name p.name 1 state (inl refl) still) (omega (arith, fewer))
        | inr not_now ↦ rw not_now (omega (arith, fewer))
      ]
]

-- A rank that falls along every call, and calls of known pipelines only.
abbrev pub Falls : List Pipeline → (Text → ℕ) → Type 0
Falls ps rank =
    (name : Text) → All (λ c. (is_known ps c ≡ true) × (rank c < rank name)) (calls_of ps name)

-- A known pipeline of a rank below all that are being visited.
abbrev pub CanEnter : List Pipeline → (Text → ℕ) → (Text → ℕ) → Text → Type 0
CanEnter ps rank state name =
    (is_known ps name ≡ true) × ((v : Text) → state v ≡ 1 → rank name < rank v)

-- What is being visited after a walk was being visited before.
abbrev OpenBefore : (Text → ℕ) → (Text → ℕ) → Type 0
OpenBefore state state' = (v : Text) → state' v ≡ 1 → state v ≡ 1

marked-open :
    (name v : Text) (state : Text → ℕ) → marked name 1 state v ≡ 1 → (name ≡ v) ⊎ (state v ≡ 1)
marked-open name v state h = elim (Bool-cases (text_eq name v)) [
  | inl same ↦ inl (text_eq→eq name v same)
  | inr other ↦ inr (rw other at h)
]

marked-closed :
    (name v : Text) (state : Text → ℕ)
    → marked name 2 state v ≡ 1
    → (text_eq name v ≡ false) × (state v ≡ 1)
marked-closed name v state h = ground arith

calls-CanEnter :
    (ps : List Pipeline) (rank state : Text → ℕ) (name : Text)
    → Falls ps rank
    → CanEnter ps rank state name
    → All (CanEnter ps rank (marked name 1 state)) (calls_of ps name)
calls-CanEnter ps rank state name falls enter =
    All-map_id (λ c. (is_known ps c ≡ true) × (rank c < rank name))
      (CanEnter ps rank (marked name 1 state))
      (λ c below. (
        below.0,
        λ v one. elim (marked-open name v state one) [
          | inl same ↦ omega (arith, below.1, ap rank same)
          | inr before ↦ omega (arith, below.1, enter.1 v before)
        ],
      ))
      (calls_of ps name) (falls name)

CanEnter-after :
    (ps : List Pipeline) (rank state state' : Text → ℕ) (names : List Text)
    → OpenBefore state state'
    → All (CanEnter ps rank state) names
    → All (CanEnter ps rank state') names
CanEnter-after ps rank state state' names before enter =
    All-map_id (CanEnter ps rank state) (CanEnter ps rank state')
      (λ c old. (old.0, λ v one. old.1 v (before v one))) names enter

-- The walk of a new pipeline, once its calls are walked.
walk_all-new :
    (ps : List Pipeline) (fuel : ℕ) (name : Text) (names : List Text) (state s : Text → ℕ)
    → (state name == 2) ≡ false
    → (state name == 1) ≡ false
    → walk_all ps fuel (calls_of ps name) (marked name 1 state) ≡ returned s
    → walk_all ps (suc fuel) (name ∷ names) state ≡ walk_all ps (suc fuel) names (marked name 2 s)
unfolding walk_all
walk_all-new ps fuel name names state s not_two not_one e = rw (not_two, not_one, e) refl

pub walk_all-returns :
    (ps : List Pipeline) (rank : Text → ℕ)
    → Falls ps rank
    → (fuel : ℕ) (names : List Text) (state : Text → ℕ) → new_count ps state < fuel
    → All (CanEnter ps rank state) names
    → (state' : Text → ℕ) × (walk_all ps fuel names state ≡ returned state')
      × OpenBefore state state'
      × NoneNew state state'
unfolding walk_all
walk_all-returns ps rank falls zero names state enough enter = elim enough [ ]
walk_all-returns ps rank falls (suc fuel) [] state enough enter =
    (state, refl, λ v one. one, λ v new. new)
walk_all-returns ps rank falls (suc fuel) (name ∷ names) state enough enter =
    elim (Bool-cases (state name == 2)) [
      | inl two ↦
          let (last, e, before, none_new) =
            walk_all-returns ps rank falls (suc fuel) names state enough enter.1 in
          (last, rw two e, before, none_new)
      | inr not_two ↦ elim (Bool-cases (state name == 1)) [
        | inl one ↦ absurd (omega (arith, enter.0.1 name (==→eq _ 1 one)))
        | inr not_one ↦
            let new : is_new state name ≡ true = rw (not_two, not_one) refl in
            let (s, e, before, none_new) =
              walk_all-returns ps rank falls fuel (calls_of ps name) (marked name 1 state)
                (omega (arith, marked-less ps name state enter.0.0 new))
                (calls-CanEnter ps rank state name falls enter.0) in
            let open_before : OpenBefore state (marked name 2 s) = λ v one.
              let (other, one') = marked-closed name v s one in
              elim (marked-open name v state (before v one')) [
                | inl same ↦ cc (other, subst (λ x. text_eq name x ≡ true) same (text_eq_refl name))
                | inr old ↦ old
              ] in
            let fewer : NoneNew state (marked name 2 s) = λ v h.
              marked-new name v 1 state (inl refl)
                (none_new v (marked-new name v 2 s (inr refl) h)) in
            let (last, e', before', none_new') =
              walk_all-returns ps rank falls (suc fuel) names (marked name 2 s)
                (omega (
                  arith,
                  count_mono (λ q. is_new (marked name 2 s) q.name) (λ q. is_new state q.name)
                      (λ q h. fewer q.name h) ps,
                ))
                (CanEnter-after ps rank state (marked name 2 s) names open_before enter.1) in
            (
              last,
              walk_all-new ps fuel name names state s not_two not_one e ∙ e',
              λ v one. open_before v (before' v one),
              λ v h. fewer v (none_new' v h),
            )
      ]
    ]
