-- ===== src/Router/Dsl/Calls/Decides.antt =====
-- Which pipelines validatePipelineCalls accepts.
use mathlib.Core.Option.{some_inj}
use ductile.Router.Dsl.Dag.Counts.{mem}
use ductile.Router.Dsl.Dag.Rounds.{place}
use ductile.Router.Dsl.Calls.Falling.{walk_all-Walk, start-Walked}
use ductile.Router.Dsl.Calls.Returns.{new_count, Falls, CanEnter, walk_all-returns}
use ductile.Router.Dsl.Build.Leaves.{All-sorted_unique}
use ductile.Common.{
  ℕ, ◌+◌, ◌≤◌, ◌<◌, ◌≡◌, refl, sym, subst, ◌≢◌, ◌↔◌, inl, inr, true, false, not, Option, none, some,
  List, [], ◌∷◌, map, arith, Bool-cases, not-false, length, All, All-map_id, In, All-In,
}
use ductile.Common.Fallible.{returned, bind-returned, raise_if-returned}
use ductile.Common.Text.{Text, text_eq, text_eq_refl, text_eq→eq}
use ductile.Router.Dsl.Types.{Pipeline}
use ductile.Router.Dsl.Order.{text_lt, insert_unique, sort_unique, sorted_unique}
use ductile.Router.Dsl.Checks.{unknown_pipeline}
use ductile.Router.Dsl.Calls.{
  find_pipeline, is_known, calls_of, known_calls, all_known_calls, walk_all,
  validate_pipeline_calls,
}

-- What holds of each of the sorted names holds of each name.
insert_unique-All :
    (P : Text → Type 0) (x : Text) (ys : List Text)
    → All P (insert_unique text_lt text_eq x ys)
    → P x × All P ys
unfolding insert_unique
insert_unique-All P x [] p = p
insert_unique-All P x (y ∷ ys) p = elim (Bool-cases (text_eq x y)) [
  | inl same ↦ let q = rw same at p in (subst P (sym (text_eq→eq x y same)) q.0, q)
  | inr other ↦ elim (Bool-cases (text_lt x y)) [
    | inl less ↦ let q = rw (other, less) at p in (q.0, q.1)
    | inr more ↦
        let q = rw (other, more) at p in
        let (px, rest) = insert_unique-All P x ys q.1 in (px, (q.0, rest))
  ]
]

sorted_unique-All : (P : Text → Type 0) (xs : List Text) → All P (sorted_unique xs) → All P xs
unfolding sorted_unique sort_unique
sorted_unique-All P [] p = tt
sorted_unique-All P (x ∷ xs) p =
    let (px, rest) = insert_unique-All P x (sorted_unique xs) p in (px, sorted_unique-All P xs rest)

known_calls-known :
    (ps : List Pipeline) (name : Text) (calls : List Text)
    → (known_calls ps name calls ≡ returned tt) ↔ All (λ c. is_known ps c ≡ true) calls
unfolding known_calls
known_calls-known ps name [] = (λ h. tt, λ h. refl)
known_calls-known ps name (c ∷ cs) = (
  λ h.
      let (known, h₁) = raise_if-returned (not (is_known ps c)) (unknown_pipeline name c) _ h in
      (not-false _ known, (known_calls-known ps name cs).0 h₁),
  λ h. rw h.0 ((known_calls-known ps name cs).1 h.1),
)

all_known_calls-known :
    (ps qs : List Pipeline)
    → (all_known_calls ps qs ≡ returned tt)
      ↔ All (λ q. All (λ c. is_known ps c ≡ true) q.called_pipelines) qs
unfolding all_known_calls
all_known_calls-known ps [] = (λ h. tt, λ h. refl)
all_known_calls-known ps (q ∷ qs) = (
  λ h.
      let (u, own, h₁) = bind-returned (known_calls ps q.name q.called_pipelines) _ h in
      ((known_calls-known ps q.name q.called_pipelines).0 own, (all_known_calls-known ps qs).0 h₁),
  λ h.
      rw ((known_calls-known ps q.name q.called_pipelines).1 h.0)
        ((all_known_calls-known ps qs).1 h.1),
)

-- Names are unique, as keys of a map.
abbrev pub UniqueNames : List Pipeline → Type 0
UniqueNames [] = Unit
UniqueNames (p ∷ ps) = (is_known ps p.name ≡ false) × UniqueNames ps

pub found-listed :
    (ps : List Pipeline) (name : Text) (p : Pipeline)
    → find_pipeline name ps ≡ some p
    → In p ps × (p.name ≡ name)
unfolding find_pipeline
found-listed [] name p h = cc
found-listed (q ∷ ps) name p h = elim (Bool-cases (text_eq q.name name)) [
  | inl same ↦
      let e = some_inj.0 (rw same at h) in
      (inl (sym e), subst (λ x. x.name ≡ name) e (text_eq→eq q.name name same))
  | inr other ↦ let (there, named) = found-listed ps name p (rw other at h) in (inr there, named)
]

pub All-intro : {A : Type 0} (Q : A → Type 0) (xs : List A) → ((x : A) → In x xs → Q x) → All Q xs
All-intro Q [] f = tt
All-intro Q (x ∷ xs) f = (f x (inl refl), All-intro Q xs λ y there. f y (inr there))

known_of :
    (ps : List Pipeline) (name : Text) (p : Pipeline)
    → find_pipeline name ps ≡ some p
    → is_known ps name ≡ true
known_of ps name p h = rw (is_known, h) refl

pub listed-found :
    (ps : List Pipeline) (p : Pipeline)
    → UniqueNames ps
    → In p ps
    → find_pipeline p.name ps ≡ some p
unfolding find_pipeline
listed-found [] p u there = absurd there
listed-found (q ∷ ps) p u (inl e) = rw e (rw (text_eq_refl q.name) refl)
listed-found (q ∷ ps) p u (inr there) = elim (Bool-cases (text_eq q.name p.name)) [
  | inl same ↦
      let later = listed-found ps p u.1 there in
      cc (
        subst (λ x. is_known ps x ≡ false) (text_eq→eq q.name p.name same) u.0,
        known_of ps p.name p later,
      )
  | inr other ↦ rw other (listed-found ps p u.1 there)
]

named :
    (ps : List Pipeline) (P : Text → Type 0) (p : Pipeline)
    → All P (map (λ q. q.name) ps)
    → In p ps
    → P p.name
named [] P p h there = absurd there
named (q ∷ ps) P p h (inl e) = rw e h.0
named (q ∷ ps) P p h (inr there) = named ps P p h.1 there

-- A statement on the calls of every name needs to be shown for the pipelines only.
for_calls :
    (ps : List Pipeline) (P : Text → Text → Type 0) (name : Text)
    → ((p : Pipeline) → In p ps → All (P p.name) p.called_pipelines)
    → All (P name) (calls_of ps name)
unfolding calls_of
for_calls ps P name h = go (find_pipeline name ps) refl
  where
    go :
        (m : Option Pipeline)
        → find_pipeline name ps ≡ m
        → All (P name) (elim m [ none ↦ [] | some p ↦ p.called_pipelines ])
    go none e = tt
    go (some p) e =
        let (there, same) = found-listed ps name p e in
        subst (λ x. All (P x) p.called_pipelines) same (h p there)

listed-calls :
    (ps : List Pipeline) (p : Pipeline)
    → UniqueNames ps
    → In p ps
    → calls_of ps p.name ≡ p.called_pipelines
unfolding calls_of
listed-calls ps p u there = rw (calls_of, listed-found ps p u there) refl

All-both :
    {A : Type 0} (P Q R : A → Type 0)
    → ((x : A) → P x → Q x → R x)
    → (xs : List A) → All P xs
    → All Q xs
    → All R xs
All-both P Q R f [] p q = tt
All-both P Q R f (x ∷ xs) p q = (f x p.0 q.0, All-both P Q R f xs p.1 q.1)

All-names :
    (P : Text → Type 0) (ps : List Pipeline) → All (λ p. P p.name) ps → All P (map (λ p. p.name) ps)
All-names P [] h = tt
All-names P (p ∷ ps) h = (h.0, All-names P ps h.1)

zero-ne-one : ◌≢◌ {A = ℕ} 0 1
zero-ne-one h = absurd (omega arith)

new_count-le : (ps : List Pipeline) (state : Text → ℕ) → new_count ps state ≤ length ps
new_count-le [] state = omega arith
new_count-le (p ∷ ps) state = ground (arith, new_count-le ps state)

-- `validatePipelineCalls` accepts pipelines exactly where they have a rank that falls along each
-- call, so that none calls itself through others, and each called one is known. The names are
-- unique, as the keys of a map are.
pub validate_pipeline_calls_lem :
    (ps : List Pipeline)
    → UniqueNames ps
    → (validate_pipeline_calls ps ≡ returned tt) ↔ ((rank : Text → ℕ) × Falls ps rank)
unfolding validate_pipeline_calls
validate_pipeline_calls_lem ps unique = (
  λ h.
      let (u, known, h₁) = bind-returned (all_known_calls ps ps) _ h in
      let (state, walked, h₂) =
        bind-returned (walk_all ps (length ps + 1) (sorted_unique (map (λ p. p.name) ps)) (λ v. 0))
          _ h₁ in
      let w = walk_all-Walk ps _ _ (λ v. 0) state [] (start-Walked ps) walked in
      let finished = sorted_unique-All (λ v. mem v w.done' ≡ true) _ w.all_done in
      (
        λ v. place v w.done',
        λ name.
            for_calls ps (λ n c. (is_known ps c ≡ true) × (place c w.done' < place n w.done')) name
              λ p there.
                let before =
                  w.walked.calls_finished p.name
                    (named ps (λ v. mem v w.done' ≡ true) p finished there) in
                All-both (λ c. is_known ps c ≡ true)
                  (λ c. (mem c w.done' ≡ true) × (place c w.done' < place p.name w.done'))
                  (λ c. (is_known ps c ≡ true) × (place c w.done' < place p.name w.done'))
                  (λ c k b. (k, b.1)) p.called_pipelines
                  (All-In (λ q. All (λ c. is_known ps c ≡ true) q.called_pipelines) ps p
                    ((all_known_calls-known ps ps).0 known) there)
                  (subst
                    (All (λ c. (mem c w.done' ≡ true) × (place c w.done' < place p.name w.done')))
                    (listed-calls ps p unique there) before),
      ),
  λ (rank, falls).
      let known =
        All-intro (λ q. All (λ c. is_known ps c ≡ true) q.called_pipelines) ps
          λ p there.
            All-map_id (λ c. (is_known ps c ≡ true) × (rank c < rank p.name))
              (λ c. is_known ps c ≡ true) (λ c k. k.0) p.called_pipelines
              (subst (All (λ c. (is_known ps c ≡ true) × (rank c < rank p.name)))
                (listed-calls ps p unique there) (falls p.name)) in
      let enter = All-names (CanEnter ps rank (λ v. 0)) ps (
        All-intro (λ p. CanEnter ps rank (λ v. 0) p.name) ps
          λ p there. (
            known_of ps p.name p (listed-found ps p unique there),
            λ u h. absurd (zero-ne-one h),
          )) in
      let (state, e, _, _) =
        walk_all-returns ps rank falls (length ps + 1) (sorted_unique (map (λ p. p.name) ps))
          (λ v. 0) (omega (arith, new_count-le ps (λ v. 0)))
          (All-sorted_unique (CanEnter ps rank (λ v. 0)) _ enter) in
      rw ((all_known_calls-known ps ps).1 known, e) refl,
)
