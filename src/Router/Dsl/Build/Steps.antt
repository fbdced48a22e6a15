-- ===== src/Router/Dsl/Build/Steps.antt =====
-- The steps, groups and splits of compileStep and compileSteps over a ranked builder.
use ductile.Common.{
  ℕ, ◌+◌, ◌≤◌, ◌<◌, ◌≡◌, refl, subst, inl, inr, Bool, true, false, not, ◌||◌, Option, none, some,
  List, [], ◌∷◌, ◌++◌, arith, ◌==◌, if◌then◌else◌, Bool-cases, All, All-append, All-map_id,
}
use ductile.Common.Fallible.{
  Fallible, returned, wrapped, bind-returned, raise_if-returned, returned_inj, wrapped-returned,
}
use ductile.Common.Text.{Text, is_empty, trim_space}
use ductile.Router.Conditions.Types.{Condition, Host}
use ductile.Router.Conditions.Validate.{is_blank}
use ductile.Router.Dsl.Types.{
  RelaySpec, StepHead, StepSpec, step, StepSpecs, no_steps, next_step, Exit,
}
use ductile.Router.Dsl.Checks.{CompileError, in_step, in_split, empty_node_set, validate_relay_spec}
use ductile.Router.Dsl.Build.{
  Builder, alloc_node_id, add_edges, Piece, steps_empty, check_step, add_uses, add_call, add_relay,
  add_step, gathered, compile_step, compile_from, compile_branches,
}
use ductile.Router.Dsl.Build.Fresh.{alloc_node_id-fresh}
use ductile.Router.Dsl.Build.Ranks.{HasNode, Ranked}
use ductile.Router.Dsl.Build.Growth.{Keeps, AtLeast, IsExit, Grown, add_rising, edges_between-Rises}
use ductile.Router.Dsl.Build.Leaves.{
  All-sorted_compile_exits, All-sorted_unique, keep_before, add_leaf-Grown,
}

AtLeast-kept :
    (b b' : Builder) (rank rank' : Text → ℕ) (low : ℕ)
    → Keeps b rank b' rank'
    → (ids : List Text) → All (AtLeast b rank low) ids
    → All (AtLeast b' rank' low) ids
AtLeast-kept b b' rank rank' low keeps ids h =
    All-map_id (AtLeast b rank low) (AtLeast b' rank' low)
      (λ id at_least. let (there, same) = keeps id at_least.0 in (there, omega (arith, at_least.1)))
      ids h

IsExit-kept :
    (b b' : Builder) (rank rank' : Text → ℕ)
    → Keeps b rank b' rank'
    → (exits : List Exit) → All (IsExit b) exits
    → All (IsExit b') exits
IsExit-kept b b' rank rank' keeps exits h =
    All-map_id (IsExit b) (IsExit b') (λ e at. (keeps e.step_id at).0) exits h

lower :
    (b : Builder) (rank : Text → ℕ) (low bound : ℕ) (ids : List Text)
    → low ≤ bound
    → All (AtLeast b rank bound) ids
    → All (AtLeast b rank low) ids
lower b rank low bound ids h p =
    All-map_id (AtLeast b rank bound) (AtLeast b rank low) (λ id a. (a.0, omega (arith, a.1))) ids p

add_uses-Grown :
    (cond : Option Condition) (s : StepHead) (b : Builder) (rank : Text → ℕ) (bound : ℕ)
    (r : Piece × Builder)
    → Ranked b bound rank
    → add_uses cond s b ≡ returned r
    → Grown b rank bound r
unfolding add_uses
add_uses-Grown cond s b rank bound r ranked h =
    let (allocated, found, h₁) = bind-returned (alloc_node_id s.id b) _ h in
    add_leaf-Grown cond _ allocated.1 b.called b rank bound r
      (alloc_node_id-fresh s.id b allocated found) ranked h₁

add_call-Grown :
    (cond : Option Condition) (s : StepHead) (b : Builder) (rank : Text → ℕ) (bound : ℕ)
    (r : Piece × Builder)
    → Ranked b bound rank
    → add_call cond s b ≡ returned r
    → Grown b rank bound r
unfolding add_call
add_call-Grown cond s b rank bound r ranked h =
    let (allocated, found, h₁) = bind-returned (alloc_node_id s.id b) _ h in
    add_leaf-Grown cond _ allocated.1 (trim_space s.call ∷ b.called) b rank bound r
      (alloc_node_id-fresh s.id b allocated found) ranked h₁

add_relay-Grown :
    (cond : Option Condition) (relay : RelaySpec) (s : StepHead) (b : Builder) (rank : Text → ℕ)
    (bound : ℕ) (r : Piece × Builder)
    → Ranked b bound rank
    → add_relay cond relay s b ≡ returned r
    → Grown b rank bound r
unfolding add_relay
add_relay-Grown cond relay s b rank bound r ranked h =
    let (valid, _, h₀) = bind-returned (validate_relay_spec relay) _ h in
    let (allocated, found, h₁) = bind-returned (alloc_node_id s.id b) _ h₀ in
    add_leaf-Grown cond _ allocated.1 b.called b rank bound r
      (alloc_node_id-fresh s.id b allocated found) ranked h₁

-- A step is a leaf or one of the two groups.
add_step-Grown :
    (s : StepHead) (cond : Option Condition) (steps : StepSpecs) (b : Builder) (rank : Text → ℕ)
    (bound : ℕ) (group branches : Fallible CompileError (Piece × Builder)) (r : Piece × Builder)
    → Ranked b bound rank
    → (group ≡ returned r → Grown b rank bound r)
    → (branches ≡ returned r → Grown b rank bound r)
    → add_step s cond steps b group branches ≡ returned r
    → Grown b rank bound r
unfolding add_step
add_step-Grown s cond steps b rank bound group branches r ranked in_group in_branches h =
    elim (Bool-cases (is_blank s.uses)) [
      | inr uses ↦ add_uses-Grown cond s b rank bound r ranked (rw uses at h)
      | inl no_uses ↦ elim (Bool-cases (is_blank s.call)) [
        | inr call ↦ add_call-Grown cond s b rank bound r ranked (rw (no_uses, call) at h)
        | inl no_call ↦ go s.relay (rw (no_uses, no_call) at h)
      ]
    ]
  where
    go :
        (relay : Option RelaySpec)
        → elim relay [
          | some relay ↦ add_relay cond relay s b
          | none ↦ if not (steps_empty steps) then group else branches
        ]
          ≡ returned r
        → Grown b rank bound r
    go (some relay) e = add_relay-Grown cond relay s b rank bound r ranked e
    go none e = elim (Bool-cases (steps_empty steps)) [
      | inl empty ↦ in_branches (rw empty at e)
      | inr more ↦ in_group (rw more at e)
    ]

gathered-Grown :
    (b : Builder) (rank : Text → ℕ) (low : ℕ) (pieces r : Piece × Builder)
    → Grown b rank low pieces
    → gathered pieces ≡ returned r
    → Grown b rank low r
gathered-Grown b rank low pieces r g h = subst (Grown b rank low) (returned_inj h) (record {
  bound = g.bound;
  new_rank = g.new_rank;
  ranked = g.ranked;
  keeps = g.keeps;
  entries = All-sorted_unique (AtLeast pieces.1 g.new_rank low) pieces.0.entry g.entries;
  exits = All-sorted_compile_exits (IsExit pieces.1) pieces.0.terminal g.exits;
  above = g.above;
})

All-if :
    {A : Type 0} (P : A → Type 0) (t : Bool) (xs ys : List A)
    → All P xs
    → All P ys
    → All P (if t then xs else ys)
All-if P true xs ys p q = p
All-if P false xs ys p q = q

-- Two branches, the second after the first.
both-Grown :
    (b : Builder) (rank : Text → ℕ) (low bound : ℕ) (one rest : Piece × Builder)
    → low ≤ bound
    → (g : Grown b rank bound one) → Grown one.1 g.new_rank low rest
    → Grown b rank low (
      record { entry = one.0.entry ++ rest.0.entry; terminal = one.0.terminal ++ rest.0.terminal },
      rest.1,
    )
both-Grown b rank low bound one rest above g g' =
    keep_before b one.1 rank g.new_rank low _ g.keeps (record {
      bound = g'.bound;
      new_rank = g'.new_rank;
      ranked = g'.ranked;
      keeps = g'.keeps;
      entries =
          All-append (AtLeast rest.1 g'.new_rank low) one.0.entry rest.0.entry
            (AtLeast-kept one.1 rest.1 g.new_rank g'.new_rank low g'.keeps one.0.entry
              (lower one.1 g.new_rank low bound one.0.entry above g.entries))
            g'.entries;
      exits =
          All-append (IsExit rest.1) one.0.terminal rest.0.terminal
            (IsExit-kept one.1 rest.1 g.new_rank g'.new_rank g'.keeps one.0.terminal g.exits)
            g'.exits;
      above = g'.above;
    })

-- The edges from the exits of the step before to the entries of this one.
joined :
    (b : Builder) (bound : ℕ) (rank : Text → ℕ) (previous : List Exit) (one : Piece × Builder)
    → Ranked b bound rank
    → All (IsExit b) previous
    → (g : Grown b rank bound one)
    → Ranked (add_edges previous one.0.entry one.1) g.bound g.new_rank
joined b bound rank previous one ranked exits g = add_rising one.1 g.bound g.new_rank _ g.ranked (
    edges_between-Rises one.1 bound g.new_rank previous one.0.entry
      (All-map_id (IsExit b) (λ e. HasNode one.1.nodes e.step_id × (g.new_rank e.step_id < bound))
        (λ e at.
          let (there, same) = g.keeps e.step_id at in
          (there, omega (arith, ranked.bounded e.step_id at)))
        previous exits)
      g.entries)

mutual
  unfolding compile_step

  compile_step-Grown :
      (host : Host) (spec : StepSpec) (b : Builder) (rank : Text → ℕ) (bound : ℕ)
      (r : Piece × Builder)
      → Ranked b bound rank
      → compile_step host spec b ≡ returned r
      → Grown b rank bound r
  compile_step-Grown host (step s steps branches) b rank bound r ranked h =
      let (cond, checked, h₁) = bind-returned (check_step host s steps branches) _ h in
      add_step-Grown s cond steps b rank bound _ _ r ranked
        (λ e.
          compile_from-Grown host steps 0 [] [] b rank bound bound r (omega arith) ranked tt tt e)
        (λ e.
          let (pieces, compiled, h₂) = bind-returned (compile_branches host branches 0 b) _ e in
          gathered-Grown b rank bound pieces r
            (compile_branches-Grown host branches 0 b rank bound bound pieces (omega arith) ranked
              compiled)
            h₂)
        h₁

  pub compile_from-Grown :
      (host : Host) (specs : StepSpecs) (i : ℕ) (entry : List Text) (previous : List Exit)
      (b : Builder) (rank : Text → ℕ) (low bound : ℕ) (r : Piece × Builder)
      → low ≤ bound
      → Ranked b bound rank
      → All (AtLeast b rank low) entry
      → All (IsExit b) previous
      → compile_from host specs i entry previous b ≡ returned r
      → Grown b rank low r
  compile_from-Grown host no_steps i entry previous b rank low bound r above ranked entries exits
        h =
      subst (Grown b rank low) (returned_inj h) (record {
        bound = bound;
        new_rank = rank;
        ranked = ranked;
        keeps = λ id old. (old, refl);
        entries = entries;
        exits = exits;
        above = above;
      })
  compile_from-Grown host (next_step spec specs) i entry previous b rank low bound r above ranked
        entries exits h =
      let (one, compiled, h₁) =
        bind-returned (wrapped (in_step i) (compile_step host spec b)) _ h in
      let (shown, h₂) =
        raise_if-returned (is_empty one.0.entry || is_empty one.0.terminal) (empty_node_set i) _
          h₁ in
      let g =
        compile_step-Grown host spec b rank bound one ranked
          (wrapped-returned (in_step i) (compile_step host spec b) compiled) in
      keep_before b (add_edges previous one.0.entry one.1) rank g.new_rank low r g.keeps (
        compile_from-Grown host specs (i + 1) (if i == 0 then one.0.entry else entry) one.0.terminal
          (add_edges previous one.0.entry one.1) g.new_rank low g.bound r (omega (arith, g.above))
          (joined b bound rank previous one ranked exits g)
          (All-if (AtLeast one.1 g.new_rank low) (i == 0) _ _
            (lower one.1 g.new_rank low bound one.0.entry above g.entries)
            (AtLeast-kept b one.1 rank g.new_rank low g.keeps entry entries))
          g.exits h₂)

  compile_branches-Grown :
      (host : Host) (specs : StepSpecs) (i : ℕ) (b : Builder) (rank : Text → ℕ) (low bound : ℕ)
      (r : Piece × Builder)
      → low ≤ bound
      → Ranked b bound rank
      → compile_branches host specs i b ≡ returned r
      → Grown b rank low r
  compile_branches-Grown host no_steps i b rank low bound r above ranked h =
      subst (Grown b rank low) (returned_inj h) (record {
        bound = bound;
        new_rank = rank;
        ranked = ranked;
        keeps = λ id old. (old, refl);
        entries = tt;
        exits = tt;
        above = above;
      })
  compile_branches-Grown host (next_step spec specs) i b rank low bound r above ranked h =
      let (one, compiled, h₁) =
        bind-returned (wrapped (in_split i) (compile_step host spec b)) _ h in
      let g =
        compile_step-Grown host spec b rank bound one ranked
          (wrapped-returned (in_split i) (compile_step host spec b) compiled) in
      let (rest, others, h₂) = bind-returned (compile_branches host specs (i + 1) one.1) _ h₁ in
      let g' =
        compile_branches-Grown host specs (i + 1) one.1 g.new_rank low g.bound rest
          (omega (arith, g.above)) g.ranked others in
      subst (Grown b rank low) (returned_inj h₂) (both-Grown b rank low bound one rest above g g')
