-- ===== src/Router/Dsl/Dag/Frontier.antt =====
-- The queue of validatePipelineDAG against the unprocessed nodes of degree 0.
use ductile.Common.{
  ℕ, ◌+◌, ◌≤◌, ◌<◌, ◌≡◌, refl, sym, ap, subst, ◌∙◌, inl, inr, Bool, true, false, not, ◌||◌, List,
  [], ◌∷◌, ◌++◌, arith, ◌==◌, if◌then◌else◌, Bool-cases, ==→eq, or-false, or-false_right, length,
  length-append, count, All,
}
use ductile.Common.Text.{Text, text_eq, text_eq_refl, text_eq→eq, text_eq-false_comm}
use ductile.Router.Dsl.Types.{Node}
use ductile.Router.Dsl.Build.{has_node}
use ductile.Router.Dsl.Build.Ranks.{HasNode, UniqueIds}
use ductile.Router.Dsl.Dag.{decremented, relax}
use ductile.Router.Dsl.Dag.Counts.{mem, Distinct, mem-append, Distinct-append, occurrences}

abbrev pub is_seen : List Text → List Text → Text → Bool
is_seen done queue v = mem v done || mem v queue

-- How many nodes are neither processed nor queued.
abbrev pub unseen : List Node → List Text → List Text → ℕ
unseen nodes done queue = count (λ n. not (is_seen done queue n.id)) nodes

pub record Frontier (nodes : List Node) (done : List Text) (degree : Text → ℕ) (queue : List Text)
    : Type 0 where
  pub free : (v : Text) → HasNode nodes v → is_seen done queue v ≡ true → degree v ≡ 0
  pub queued : (v : Text) → HasNode nodes v → degree v ≡ 0 → is_seen done queue v ≡ true
  pub apart : (v : Text) → mem v done ≡ true → mem v queue ≡ false
  pub distinct : Distinct queue
  pub conserved : length done + length queue + unseen nodes done queue ≡ length nodes
  pub are_nodes : (v : Text) → mem v queue ≡ true → HasNode nodes v

decremented-other :
    (next v : Text) (degree : Text → ℕ)
    → text_eq next v ≡ false
    → decremented next degree v ≡ degree v
unfolding decremented
decremented-other next v degree h = rw h

-- A node that is queued is unseen no more.
unseen-none :
    (nodes : List Node) (done queue : List Text) (next : Text)
    → has_node next nodes ≡ false
    → unseen nodes done (queue ++ next ∷ []) ≡ unseen nodes done queue
unfolding has_node
unseen-none [] done queue next h = refl
unseen-none (n ∷ nodes) done queue next h =
    let (other, rest) = or-false (text_eq n.id next) _ h in
    rw (mem-append n.id next queue, other, unseen-none nodes done queue next rest)
      (ap (λ b. (if not (mem n.id done || b) then 1 else 0) + unseen nodes done queue)
        (or-false_right (mem n.id queue)))

unseen-push :
    (nodes : List Node) (done queue : List Text) (next : Text)
    → UniqueIds nodes
    → HasNode nodes next
    → is_seen done queue next ≡ false
    → unseen nodes done (queue ++ next ∷ []) + 1 ≡ unseen nodes done queue
unfolding has_node
unseen-push [] done queue next u there fresh = cc
unseen-push (n ∷ nodes) done queue next u there fresh = elim (Bool-cases (text_eq n.id next)) [
  | inl same ↦
      let e = text_eq→eq n.id next same in
      let none_left = subst (λ x. has_node x nodes ≡ false) e u.0 in
      let new = subst (λ x. is_seen done queue x ≡ false) (sym e) fresh in
      rw (mem-append n.id next queue, same, new, unseen-none nodes done queue next none_left)
        (ground arith)
  | inr other ↦
      rw (mem-append n.id next queue, other)
        (ground (arith, unseen-push nodes done queue next u.1 (rw other at there) fresh))
]

decremented-positive :
    (next : Text) (more : List Text) (degree : Text → ℕ)
    → occurrences next (next ∷ more) ≤ degree next
    → 0 < degree next
decremented-positive next more degree h = ground (arith, text_eq_refl next)

-- A decrement and an occurrence less.
decremented-occurrence :
    (next v : Text) (more : List Text) (degree : Text → ℕ)
    → occurrences v (next ∷ more) ≤ degree v
    → decremented next degree v + (if text_eq next v then 1 else 0) ≡ degree v
unfolding decremented
decremented-occurrence next v more degree h = ground arith

module _ (nodes : List Node) (unique : UniqueIds nodes) (done : List Text) where
  fresh_of :
      (next : Text) (degree : Text → ℕ) (queue : List Text)
      → HasNode nodes next
      → 0 < degree next
      → Frontier nodes done degree queue
      → is_seen done queue next ≡ false
  fresh_of next degree queue there positive f = elim (Bool-cases (is_seen done queue next)) [
    | inl seen ↦ absurd (omega (arith, f.free next there seen))
    | inr fresh ↦ fresh
  ]

  -- Past the queue's end stands the new one.
  seen-push :
      (next v : Text) (queue : List Text)
      → is_seen done (queue ++ next ∷ []) v ≡ (is_seen done queue v || text_eq v next)
  seen-push next v queue = rw (mem-append v next queue) (ground arith)

  pushed :
      (next : Text) (degree : Text → ℕ) (queue : List Text)
      → HasNode nodes next
      → 0 < degree next
      → decremented next degree next ≡ 0
      → Frontier nodes done degree queue
      → Frontier nodes done (decremented next degree) (queue ++ next ∷ [])
  pushed next degree queue there positive zero_now f =
      let fresh = fresh_of next degree queue there positive f in
      let (not_done, not_queued) = or-false (mem next done) (mem next queue) fresh in
      record {
        free = λ v node seen. elim (Bool-cases (text_eq v next)) [
          | inl same ↦ rw (text_eq→eq v next same) zero_now
          | inr other ↦
              decremented-other next v degree (text_eq-false_comm v next other)
              ∙ f.free v node (ground (arith, seen-push next v queue))
        ];
        queued = λ v node none_left. elim (Bool-cases (text_eq v next)) [
          | inl same ↦ ground (arith, seen-push next v queue)
          | inr other ↦
              let old = f.queued v node (
                sym (decremented-other next v degree (text_eq-false_comm v next other))
                ∙ none_left) in
              ground (arith, seen-push next v queue)
        ];
        apart = λ v old. elim (Bool-cases (text_eq v next)) [
          | inl same ↦ cc (old, not_done, text_eq→eq v next same)
          | inr other ↦ rw (mem-append v next queue, other, f.apart v old) refl
        ];
        distinct = Distinct-append next queue f.distinct not_queued;
        conserved = omega (
          arith,
          f.conserved,
          unseen-push nodes done queue next unique there fresh,
          length-append queue (next ∷ []),
        );
        are_nodes = λ v q. elim (Bool-cases (text_eq v next)) [
          | inl same ↦ subst (HasNode nodes) (sym (text_eq→eq v next same)) there
          | inr other ↦
              f.are_nodes v
                (sym (or-false_right (mem v queue)) ∙ (rw (mem-append v next queue, other) at q))
        ];
      }

  skipped :
      (next : Text) (degree : Text → ℕ) (queue : List Text)
      → HasNode nodes next
      → 0 < degree next
      → (decremented next degree next == 0) ≡ false
      → Frontier nodes done degree queue
      → Frontier nodes done (decremented next degree) queue
  skipped next degree queue there positive not_yet f =
      let fresh = fresh_of next degree queue there positive f in
      record {
        free = λ v node seen. elim (Bool-cases (text_eq next v)) [
          | inl same ↦
              cc (subst (λ x. is_seen done queue x ≡ false) (text_eq→eq next v same) fresh, seen)
          | inr other ↦ decremented-other next v degree other ∙ f.free v node seen
        ];
        queued = λ v node none_left. elim (Bool-cases (text_eq next v)) [
          | inl same ↦
              let never =
                subst (λ x. (decremented next degree x == 0) ≡ false) (text_eq→eq next v same)
                  not_yet in
              absurd (ground arith)
          | inr other ↦ f.queued v node (sym (decremented-other next v degree other) ∙ none_left)
        ];
        apart = f.apart;
        distinct = f.distinct;
        conserved = f.conserved;
        are_nodes = f.are_nodes;
      }

  -- One step of the loop over the successors.
  relax_one-Frontier :
      (next : Text) (degree : Text → ℕ) (queue : List Text)
      → HasNode nodes next
      → 0 < degree next
      → Frontier nodes done degree queue
      → Frontier nodes done
          (decremented next degree)
          (if decremented next degree next == 0 then queue ++ next ∷ [] else queue)
  relax_one-Frontier next degree queue there positive f =
      elim (Bool-cases (decremented next degree next == 0)) [
        | inl zero_now ↦
            rw zero_now (pushed next degree queue there positive (==→eq _ 0 zero_now) f)
        | inr not_yet ↦ rw not_yet (skipped next degree queue there positive not_yet f)
      ]

  -- The loop over the successors: the frontier stays, and the degrees fall by the occurrences.
  pub relax-Frontier :
      (ts : List Text) (degree : Text → ℕ) (queue : List Text)
      → ((v : Text) → occurrences v ts ≤ degree v)
      → All (HasNode nodes) ts
      → Frontier nodes done degree queue
      → Frontier nodes done (relax ts degree queue).0 (relax ts degree queue).1
        × ((v : Text) → (relax ts degree queue).0 v + occurrences v ts ≡ degree v)
  unfolding relax
  relax-Frontier [] degree queue enough are_nodes f = (f, λ v. omega arith)
  relax-Frontier (next ∷ more) degree queue enough are_nodes f =
      let positive : 0 < degree next = decremented-positive next more degree (enough next) in
      let (f', total) =
        relax-Frontier more (decremented next degree) _
          (λ v. omega (arith, enough v, decremented-occurrence next v more degree (enough v)))
          are_nodes.1 (relax_one-Frontier next degree queue are_nodes.0 positive f) in
      (f', λ v. omega (arith, total v, decremented-occurrence next v more degree (enough v)))
