-- ===== src/Router/Dsl/Dag/Rounds.antt =====
-- The loop of validatePipelineDAG over its queue: what each round keeps, and its end.
use ductile.Common.{
  ℕ, zero, suc, ◌+◌, ◌≤◌, ◌<◌, ◌≡◌, sym, ap, subst, ◌∙◌, inl, inr, true, false, not, List, [], ◌∷◌,
  arith, if◌then◌else◌, Bool-cases, or-false, length, All,
}
use ductile.Common.Text.{Text, text_eq, text_eq_refl, text_eq→eq}
use ductile.Router.Dsl.Types.{Node, Edge}
use ductile.Router.Dsl.Build.Ranks.{HasNode, UniqueIds}
use ductile.Common.Fallible.{returned}
use ductile.Router.Dsl.Dag.{successors, relax, visit}
use ductile.Router.Dsl.Dag.Counts.{mem, pending, count_congr, pending-processed}
use ductile.Router.Dsl.Dag.Frontier.{is_seen, Frontier, relax-Frontier}

-- Both ends of an edge are nodes.
abbrev pub IsClosed : List Node → Edge → Type 0
IsClosed nodes e = HasNode nodes e.from × HasNode nodes e.to

-- The place in the order of processing, counted from 1; the last processed stands first.
unfoldable pub place : Text → List Text → ℕ
place v [] = 0
place v (x ∷ xs) = let rest = place v xs in if text_eq v x then length xs + 1 else rest

-- The source of an edge into a processed node was processed before.
abbrev pub Settled : List Text → Edge → Type 0
Settled done e =
    mem e.to done ≡ true → (mem e.from done ≡ true) × (place e.from done < place e.to done)

pub record Round (nodes : List Node) (edges : List Edge) (done : List Text) (degree : Text → ℕ)
    (queue : List Text) : Type 0 where
  pub frontier : Frontier nodes done degree queue
  pub degrees : (v : Text) → degree v ≡ pending edges done v
  pub settled : All (Settled done) edges

pub place-le : (v : Text) (xs : List Text) → place v xs ≤ length xs
unfolding place
place-le v [] = omega arith
place-le v (x ∷ xs) = ground (arith, place-le v xs)

seen-pop :
    (v n : Text) (done queue : List Text) → is_seen (n ∷ done) queue v ≡ is_seen done (n ∷ queue) v
unfolding mem
seen-pop v n done queue = ground arith

pop-Frontier :
    (nodes : List Node) (done : List Text) (degree : Text → ℕ) (n : Text) (queue : List Text)
    → Frontier nodes done degree (n ∷ queue)
    → Frontier nodes (n ∷ done) degree queue
unfolding mem
pop-Frontier nodes done degree n queue f = record {
  free = λ v node seen. f.free v node (sym (seen-pop v n done queue) ∙ seen);
  queued = λ v node none_left. seen-pop v n done queue ∙ f.queued v node none_left;
  apart = λ v seen. elim (Bool-cases (text_eq v n)) [
    | inl same ↦ subst (λ x. mem x queue ≡ false) (sym (text_eq→eq v n same)) f.distinct.0
    | inr other ↦ (or-false (text_eq v n) _ (f.apart v (rw other at seen))).1
  ];
  distinct = f.distinct.1;
  conserved = omega (
    arith,
    f.conserved,
    count_congr (λ m. not (is_seen (n ∷ done) queue m.id))
        (λ m. not (is_seen done (n ∷ queue) m.id)) (λ m. ap not (seen-pop m.id n done queue)) nodes,
  );
  are_nodes = λ v q. f.are_nodes v (ground arith);
}

popped-fresh :
    (nodes : List Node) (done : List Text) (degree : Text → ℕ) (n : Text) (queue : List Text)
    → Frontier nodes done degree (n ∷ queue)
    → mem n done ≡ false
unfolding mem
popped-fresh nodes done degree n queue f = elim (Bool-cases (mem n done)) [
  | inl old ↦ cc ((or-false (text_eq n n) (mem n queue) (f.apart n old)).0, text_eq_refl n)
  | inr new ↦ new
]

successors-nodes :
    (nodes : List Node) (edges : List Edge) (n : Text)
    → All (IsClosed nodes) edges
    → All (HasNode nodes) (successors edges n)
unfolding successors
successors-nodes nodes [] n h = tt
successors-nodes nodes (e ∷ es) n h = elim (Bool-cases (text_eq e.from n)) [
  | inl same ↦ rw same (h.0.1, successors-nodes nodes es n h.1)
  | inr other ↦ rw other (successors-nodes nodes es n h.1)
]

-- No pending edge: the sources of all edges into `v` are processed.
pending-zero :
    (edges : List Edge) (done : List Text) (v : Text)
    → pending edges done v ≡ 0
    → All (λ e. e.to ≡ v → mem e.from done ≡ true) edges
pending-zero [] done v h = tt
pending-zero (e ∷ es) done v h =
    (λ into. ground (arith, text_eq_refl v), pending-zero es done v (omega arith))

module _ (done : List Text) (n : Text) (fresh : mem n done ≡ false) where
  pub place-old : (v : Text) → mem v done ≡ true → place v (n ∷ done) ≡ place v done
  unfolding place
  place-old v old = elim (Bool-cases (text_eq v n)) [
    | inl same ↦ cc (subst (λ x. mem x done ≡ true) (text_eq→eq v n same) old, fresh)
    | inr other ↦ rw other
  ]

  pub place-source :
      (v : Text)
      → mem v done ≡ true
      → (if text_eq v n then length done + 1 else place v done) ≡ place v done
  unfolding place
  place-source v old = place-old v old

  pub mem-old : (v : Text) → mem v done ≡ true → mem v (n ∷ done) ≡ true
  unfolding mem
  mem-old v old = ground arith

  -- An edge stays settled, and one into the node processed now becomes so.
  settle : (e : Edge) → Settled done e → (e.to ≡ n → mem e.from done ≡ true) → Settled (n ∷ done) e
  unfolding mem place
  settle e old into there = elim (Bool-cases (text_eq e.to n)) [
    | inl same ↦
        let source = into (text_eq→eq e.to n same) in
        (
          mem-old e.from source,
          rw (same, place-source e.from source) (omega (arith, place-le e.from done)),
        )
    | inr other ↦
        let (source, before) = old (rw other at there) in
        (mem-old e.from source, rw (other, place-source e.from source) before)
  ]

  settle_all :
      (edges : List Edge)
      → All (Settled done) edges
      → All (λ e. e.to ≡ n → mem e.from done ≡ true) edges
      → All (Settled (n ∷ done)) edges
  settle_all [] p q = tt
  settle_all (e ∷ es) p q = (settle e p.0 q.0, settle_all es p.1 q.1)

pub front : (n : Text) (queue : List Text) → mem n (n ∷ queue) ≡ true
unfolding mem
front n queue = ground (arith, text_eq_refl n)

-- One round.
round :
    (nodes : List Node) (edges : List Edge) (done : List Text) (degree : Text → ℕ) (n : Text)
    (queue : List Text)
    → UniqueIds nodes
    → All (IsClosed nodes) edges
    → Round nodes edges done degree (n ∷ queue)
    → Round nodes edges
        (n ∷ done)
        (relax (successors edges n) degree queue).0
        (relax (successors edges n) degree queue).1
round nodes edges done degree n queue unique closed r =
    let fresh = popped-fresh nodes done degree n queue r.frontier in
    let (f, fallen) =
      relax-Frontier nodes unique (n ∷ done) (successors edges n) degree queue
        (λ v. omega (arith, r.degrees v, pending-processed edges done n v fresh))
        (successors-nodes nodes edges n closed)
        (pop-Frontier nodes done degree n queue r.frontier) in
    record {
      frontier = f;
      degrees = λ v. omega (arith, fallen v, r.degrees v, pending-processed edges done n v fresh);
      settled = settle_all done n fresh edges r.settled (
          pending-zero edges done n (
            sym (r.degrees n)
            ∙ r.frontier.free n (r.frontier.are_nodes n (front n queue))
                (ground (arith, front n queue))));
    }

-- The loop ends within as many rounds as nodes are not processed yet, with an empty queue.
pub visit_total :
    (nodes : List Node) (edges : List Edge)
    → UniqueIds nodes
    → All (IsClosed nodes) edges
    → (fuel : ℕ) (done : List Text) (degree : Text → ℕ) (queue : List Text) (visited : ℕ)
    → visited ≡ length done
    → length nodes ≤ length done + fuel
    → Round nodes edges done degree queue
    → (last : List Text) × (last_degree : Text → ℕ) × (visit fuel edges degree queue visited
        ≡ returned (length last))
      × Round nodes edges last last_degree []
unfolding visit
visit_total nodes edges unique closed zero done degree [] visited e enough r =
    (done, degree, ap returned e, r)
visit_total nodes edges unique closed (suc fuel) done degree [] visited e enough r =
    (done, degree, ap returned e, r)
visit_total nodes edges unique closed zero done degree (n ∷ queue) visited e enough r =
    absurd (omega (arith, r.frontier.conserved))
visit_total nodes edges unique closed (suc fuel) done degree (n ∷ queue) visited e enough r =
    visit_total nodes edges unique closed fuel (n ∷ done) _ _ (visited + 1) (omega arith)
      (omega arith) (round nodes edges done degree n queue unique closed r)
