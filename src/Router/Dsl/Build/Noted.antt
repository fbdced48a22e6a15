-- ===== src/Router/Dsl/Build/Noted.antt =====
-- The calls that the builder notes: those of its call nodes.
use ductile.Common.{
  ℕ, ◌+◌, ◌≡◌, subst, inl, inr, Bool, true, false, not, ◌||◌, Option, none, some, List, [], ◌∷◌,
  ◌++◌, if◌then◌else◌, Bool-cases, All, All-append, All-map_id, In,
}
use ductile.Common.Fallible.{Fallible, returned, raised, ◌>>=◌, raise_if, wrapped}
use ductile.Common.Text.{Text, codes, is_empty, trim_space}
use ductile.Common.Text.Trim.{trim_space_idem}
use ductile.Router.Conditions.Types.{Condition, Host}
use ductile.Router.Conditions.Validate.{is_blank}
use ductile.Router.Dsl.Types.{
  RelaySpec, StepHead, StepSpec, step, StepSpecs, no_steps, next_step, call_node, Node, Exit,
}
use ductile.Router.Dsl.Checks.{
  CompileError, steps_required, in_step, in_split, empty_node_set, validate_relay_spec,
}
use ductile.Router.Dsl.Build.{
  Builder, alloc_node_id, switch_node_for, wrap_conditional_step, add_leaf, add_edges, Piece,
  steps_empty, check_step, add_uses, add_call, add_relay, add_step, gathered, compile_step,
  compile_from, compile_branches, compile_steps,
}

-- The call of a node is among the calls.
abbrev pub CallNoted : List Text → Node → Type 0
CallNoted called n = n.kind ≡ call_node → In (trim_space n.call) called

-- The calls of the nodes are noted.
abbrev Noted : Builder → Type 0
Noted b = All (CallNoted b.called) b.nodes

abbrev NotedIn : Fallible CompileError (Piece × Builder) → Type 0
NotedIn (returned r) = Noted r.1
NotedIn (raised e) = Unit

NotedIn-bind :
    {A : Type 0} (m : Fallible CompileError A) (f : A → Fallible CompileError (Piece × Builder))
    → ((a : A) → NotedIn (f a))
    → NotedIn (m >>= f)
NotedIn-bind (returned a) f h = h a
NotedIn-bind (raised e) f h = tt

NotedIn-then :
    (m : Fallible CompileError (Piece × Builder))
    (f : Piece × Builder → Fallible CompileError (Piece × Builder))
    → NotedIn m
    → ((r : Piece × Builder) → Noted r.1 → NotedIn (f r))
    → NotedIn (m >>= f)
NotedIn-then (returned r) f h k = k r h
NotedIn-then (raised e) f h k = tt

NotedIn-wrapped :
    (w : CompileError → CompileError) (m : Fallible CompileError (Piece × Builder))
    → NotedIn m
    → NotedIn (wrapped w m)
NotedIn-wrapped w (returned r) h = h
NotedIn-wrapped w (raised e) h = tt

wrap-Noted :
    (id : Text) (cond : Condition) (b : Builder)
    → Noted b
    → NotedIn (wrap_conditional_step id cond b)
unfolding wrap_conditional_step
wrap-Noted id cond b h = NotedIn-bind (alloc_node_id (id ++ codes "__switch") b) _ λ allocated.
    All-append (CallNoted b.called) b.nodes (switch_node_for allocated.0 cond ∷ []) h
      ((λ c. cc), tt)

add_leaf-Noted :
    (cond : Option Condition) (n : Node) (next : ℕ) (called : List Text) (b : Builder)
    → All (CallNoted called) b.nodes
    → CallNoted called n
    → NotedIn (add_leaf cond n next called b)
unfolding add_leaf
add_leaf-Noted none n next called b h new =
    All-append (CallNoted called) b.nodes (n ∷ []) h (new, tt)
add_leaf-Noted (some cond) n next called b h new =
    wrap-Noted n.id cond _ (All-append (CallNoted called) b.nodes (n ∷ []) h (new, tt))

add_uses-Noted :
    (cond : Option Condition) (s : StepHead) (b : Builder) → Noted b → NotedIn (add_uses cond s b)
unfolding add_uses
add_uses-Noted cond s b h =
    NotedIn-bind (alloc_node_id s.id b) _
      λ allocated. add_leaf-Noted cond _ allocated.1 b.called b h (λ c. cc)

add_call-Noted :
    (cond : Option Condition) (s : StepHead) (b : Builder) → Noted b → NotedIn (add_call cond s b)
unfolding add_call
add_call-Noted cond s b h = NotedIn-bind (alloc_node_id s.id b) _ λ allocated.
    add_leaf-Noted cond _ allocated.1 (trim_space s.call ∷ b.called) b
      (All-map_id (CallNoted b.called) (CallNoted (trim_space s.call ∷ b.called))
        (λ n noted c. inr (noted c)) b.nodes h)
      (λ c. inl (trim_space_idem s.call))

add_relay-Noted :
    (cond : Option Condition) (relay : RelaySpec) (s : StepHead) (b : Builder)
    → Noted b
    → NotedIn (add_relay cond relay s b)
unfolding add_relay
add_relay-Noted cond relay s b h = NotedIn-bind (validate_relay_spec relay) _ λ _.
    NotedIn-bind (alloc_node_id s.id b) _
      λ allocated. add_leaf-Noted cond _ allocated.1 b.called b h (λ c. cc)

NotedIn-if :
    (t : Bool) (x y : Fallible CompileError (Piece × Builder))
    → NotedIn x
    → NotedIn y
    → NotedIn (if t then x else y)
NotedIn-if true x y p q = p
NotedIn-if false x y p q = q

add_step-Noted :
    (s : StepHead) (cond : Option Condition) (steps : StepSpecs) (b : Builder)
    (group branches : Fallible CompileError (Piece × Builder))
    → Noted b
    → NotedIn group
    → NotedIn branches
    → NotedIn (add_step s cond steps b group branches)
unfolding add_step
add_step-Noted s cond steps b group branches h in_group in_branches =
    elim (Bool-cases (is_blank s.uses)) [
      | inr uses ↦ rw uses (add_uses-Noted cond s b h)
      | inl no_uses ↦ elim (Bool-cases (is_blank s.call)) [
        | inr call ↦ rw (no_uses, call) (add_call-Noted cond s b h)
        | inl no_call ↦ rw (no_uses, no_call) (go s.relay)
      ]
    ]
  where
    go :
        (relay : Option RelaySpec)
        → NotedIn (elim relay [
          | some relay ↦ add_relay cond relay s b
          | none ↦ if not (steps_empty steps) then group else branches
        ])
    go (some relay) = add_relay-Noted cond relay s b h
    go none = NotedIn-if (not (steps_empty steps)) group branches in_group in_branches

mutual
  unfolding compile_step

  compile_step-Noted :
      (host : Host) (spec : StepSpec) (b : Builder) → Noted b → NotedIn (compile_step host spec b)
  compile_step-Noted host (step s steps branches) b h =
      NotedIn-bind (check_step host s steps branches) _ λ cond.
        add_step-Noted s cond steps b _ _ h (compile_from-Noted host steps 0 [] [] b h) (
          NotedIn-then (compile_branches host branches 0 b) gathered
            (compile_branches-Noted host branches 0 b h) λ r noted. noted)

  pub compile_from-Noted :
      (host : Host) (specs : StepSpecs) (i : ℕ) (entry : List Text) (previous : List Exit)
      (b : Builder)
      → Noted b
      → NotedIn (compile_from host specs i entry previous b)
  compile_from-Noted host no_steps i entry previous b h = h
  compile_from-Noted host (next_step spec specs) i entry previous b h =
      NotedIn-then (wrapped (in_step i) (compile_step host spec b)) _
        (NotedIn-wrapped (in_step i) _ (compile_step-Noted host spec b h))
        λ one noted.
          NotedIn-bind
            (raise_if (is_empty one.0.entry || is_empty one.0.terminal) (empty_node_set i)) _
            λ _.
              compile_from-Noted host specs (i + 1) _ one.0.terminal
                (add_edges previous one.0.entry one.1) noted

  compile_branches-Noted :
      (host : Host) (specs : StepSpecs) (i : ℕ) (b : Builder)
      → Noted b
      → NotedIn (compile_branches host specs i b)
  compile_branches-Noted host no_steps i b h = h
  compile_branches-Noted host (next_step spec specs) i b h =
      NotedIn-then (wrapped (in_split i) (compile_step host spec b)) _
        (NotedIn-wrapped (in_split i) _ (compile_step-Noted host spec b h))
        λ one noted.
          NotedIn-then (compile_branches host specs (i + 1) one.1) _
            (compile_branches-Noted host specs (i + 1) one.1 noted) λ rest noted'. noted'

-- The calls of the nodes that steps compile to are noted.
pub compile_steps-Noted :
    (host : Host) (specs : StepSpecs) (b : Builder) (r : Piece × Builder)
    → Noted b
    → compile_steps host specs b ≡ returned r
    → Noted r.1
unfolding compile_steps
compile_steps-Noted host specs b r h e = subst NotedIn e (
    NotedIn-bind (raise_if (steps_empty specs) steps_required) _
      λ _. compile_from-Noted host specs 0 [] [] b h)
