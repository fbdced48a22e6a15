-- ===== src/Router/Dsl/Build.antt =====
-- `compileBuilder` of internal/router/dsl/compiler.go: the steps of a pipeline become nodes and
-- edges. The builder's state is passed on; an error drops it.
pub mod Fresh
pub mod Ranks
pub mod Growth
pub mod Leaves
pub mod Steps
pub mod Noted
use ductile.Common.{
  ℕ, zero, suc, ◌+◌, Bool, true, false, not, ◌&&◌, ◌||◌, Option, none, some, List, [], ◌∷◌, ◌++◌,
  ◌==◌, if◌then◌else◌, length,
}
use ductile.Common.Fallible.{Fallible, returned, raised, ◌>>=◌, ◌>>◌, raise_if, wrapped}
use ductile.Common.Text.{Text, codes, text_eq, is_empty, trim_space, split}
use ductile.Common.Text.Decimal.{decimal}
use ductile.Router.Conditions.Types.{Condition, condition, Host}
use ductile.Router.Conditions.Validate.{one_if, is_blank, validate_root}
use ductile.Router.Dsl.Types.{
  RelaySpec, StepHead, StepSpec, step, StepSpecs, no_steps, next_step, NodeKind, uses_node,
  call_node, relay_node, switch_node, Node, Edge, Exit,
}
use ductile.Router.Dsl.Order.{sorted_unique, sorted_compile_exits}
use ductile.Router.Dsl.Checks.{
  CompileError, steps_required, with_unsupported, baggage_unsupported, step_mode, duplicate_id,
  bad_condition, in_step, in_split, empty_node_set, out_of_fuel, baggage_empty,
  validate_baggage_spec, validate_relay_spec,
}

-- `compileBuilder`, with the nodes and edges of its pipeline.
pub record Builder : Type 0 where
  pub nodes : List Node
  pub edges : List Edge
  pub next_auto : ℕ
  pub called : List Text

-- `_, exists := b.pipeline.Nodes[id]`
unfoldable pub has_node : Text → List Node → Bool
has_node id [] = false
has_node id (n ∷ ns) = text_eq n.id id || has_node id ns

-- `fmt.Sprintf("step_%d", b.nextAuto)`
unfoldable pub auto_id : ℕ → Text
auto_id n = codes "step_" ++ decimal n

-- The loop that looks for a free id, from the number after `n`.
unfoldable pub find_auto : ℕ → ℕ → List Node → Fallible CompileError (Text × ℕ)
find_auto zero n nodes = raised out_of_fuel
find_auto (suc fuel) n nodes =
    let more = find_auto fuel (n + 1) nodes in
    if has_node (auto_id (n + 1)) nodes then more else returned (auto_id (n + 1), n + 1)

-- `allocNodeID`: the id, and the counter.
unfoldable pub alloc_node_id : Text → Builder → Fallible CompileError (Text × ℕ)
alloc_node_id preferred b =
    if is_empty (trim_space preferred)
    then find_auto (length b.nodes + 1) b.next_auto b.nodes
    else if has_node (trim_space preferred) b.nodes
    then raised (duplicate_id (trim_space preferred))
    else returned (trim_space preferred, b.next_auto)

-- `addEdges`
unfoldable pub edges_to : Exit → List Text → List Edge
edges_to exit [] = []
edges_to exit (id ∷ ids) =
    record { from = exit.step_id; to = id; event_type = exit.event_type } ∷ edges_to exit ids

unfoldable pub edges_between : List Exit → List Text → List Edge
edges_between [] ids = []
edges_between (exit ∷ exits) ids = edges_to exit ids ++ edges_between exits ids

abbrev add_edges : List Exit → List Text → Builder → Builder
add_edges exits ids b = record b { edges = b.edges ++ edges_between exits ids }

abbrev switch_node_for : Text → Condition → Node
switch_node_for id cond = record {
  id = id;
  kind = switch_node;
  uses = codes "core.switch";
  call = [];
  relay = none;
  condition = some cond;
  with = [];
  baggage = none;
}

-- What a step compiles to: its entry nodes and its exits.
pub record Piece : Type 0 where
  pub entry : List Text
  pub terminal : List Exit

abbrev exit_at : Text → Exit
exit_at id = record { step_id = id; event_type = [] }

-- `wrapConditionalStep` for a step that compiled to one node.
unfoldable pub wrap_conditional_step :
    Text → Condition → Builder → Fallible CompileError (Piece × Builder)
wrap_conditional_step id cond b = do
  allocated ← alloc_node_id (id ++ codes "__switch") b
  returned (
    record {
      entry = allocated.0 ∷ [];
      terminal = sorted_compile_exits (
          exit_at id
          ∷ record { step_id = allocated.0; event_type = codes "ductile.switch.false" }
          ∷ []);
    },
    record b {
      nodes = b.nodes ++ switch_node_for allocated.0 cond ∷ [];
      edges =
          b.edges
          ++ record { from = allocated.0; to = id; event_type = codes "ductile.switch.true" } ∷ [];
      next_auto = allocated.1;
    },
  )

-- A leaf: its node, wrapped in a switch where it has a condition.
unfoldable pub add_leaf :
    Option Condition → Node → ℕ → List Text → Builder → Fallible CompileError (Piece × Builder)
add_leaf cond node next_auto called b =
    let b' = record b { nodes = b.nodes ++ node ∷ []; next_auto = next_auto; called = called } in
    elim cond [
      | none ↦ returned (record { entry = node.id ∷ []; terminal = exit_at node.id ∷ [] }, b')
      | some c ↦ wrap_conditional_step node.id c b'
    ]

abbrev leaf_node : Text → NodeKind → Node
leaf_node id kind = record {
  id = id;
  kind = kind;
  uses = [];
  call = [];
  relay = none;
  condition = none;
  with = [];
  baggage = none;
}

abbrev pub steps_empty : StepSpecs → Bool
steps_empty no_steps = true
steps_empty (next_step s ss) = false

abbrev is_some : {A : Type 0} → Option A → Bool
is_some none = false
is_some (some a) = true

-- The validated condition of a step or a pipeline, if it has one.
unfoldable pub check_condition : Host → Option Condition → Fallible CompileError (Option Condition)
check_condition host none = returned none
check_condition host (some c) = do
  checked ← wrapped bad_condition (validate_root host c)
  returned (some checked.0)

-- The modes that a step defines.
abbrev step_modes : StepHead → StepSpecs → StepSpecs → ℕ
step_modes s steps branches =
    one_if (not (is_blank s.uses))
    + one_if (not (is_blank s.call))
    + one_if (is_some s.relay)
    + one_if (not (steps_empty steps))
    + one_if (not (steps_empty branches))

-- The tests on a step before its mode; the result is its condition, validated.
unfoldable pub check_step :
    Host → StepHead → StepSpecs → StepSpecs → Fallible CompileError (Option Condition)
check_step host s steps branches = do
  raise_if (not (step_modes s steps branches == 1)) step_mode
  raise_if (not (is_empty s.with) && is_blank s.uses) with_unsupported
  raise_if (not (baggage_empty s.baggage) && is_blank s.uses) baggage_unsupported
  validate_baggage_spec s.baggage
  check_condition host s.condition

unfoldable pub add_uses :
    Option Condition → StepHead → Builder → Fallible CompileError (Piece × Builder)
add_uses cond s b = do
  allocated ← alloc_node_id s.id b
  add_leaf cond
      (record (leaf_node allocated.0 uses_node) {
        uses = trim_space s.uses;
        with = s.with;
        baggage = s.baggage;
      })
      allocated.1 b.called b

unfoldable pub add_call :
    Option Condition → StepHead → Builder → Fallible CompileError (Piece × Builder)
add_call cond s b = do
  allocated ← alloc_node_id s.id b
  add_leaf cond (record (leaf_node allocated.0 call_node) { call = trim_space s.call }) allocated.1
      (trim_space s.call ∷ b.called) b

pub add_relay :
    Option Condition → RelaySpec → StepHead → Builder → Fallible CompileError (Piece × Builder)
add_relay cond relay s b = do
  validate_relay_spec relay
  allocated ← alloc_node_id s.id b
  add_leaf cond (record (leaf_node allocated.0 relay_node) { relay = some relay }) allocated.1
      b.called b

-- The switch of `compileStep`; what the nested steps and the branches compile to is handed over.
unfoldable pub add_step :
    StepHead
    → Option Condition
    → StepSpecs
    → Builder
    → Fallible CompileError (Piece × Builder)
    → Fallible CompileError (Piece × Builder)
    → Fallible CompileError (Piece × Builder)
add_step s cond steps b group split =
    if not (is_blank s.uses)
    then add_uses cond s b
    else if not (is_blank s.call)
    then add_call cond s b
    else elim s.relay [
      | some relay ↦ add_relay cond relay s b
      | none ↦ if not (steps_empty steps) then group else split
    ]

-- The result of a split, sorted and without repetitions.
abbrev gathered : Piece × Builder → Fallible CompileError (Piece × Builder)
gathered (piece, b) = returned (
  record { entry = sorted_unique piece.entry; terminal = sorted_compile_exits piece.terminal },
  b,
)

-- `compileStep`, whose groups and splits drop the condition.
unfoldable mutual
  pub compile_step : Host → StepSpec → Builder → Fallible CompileError (Piece × Builder)
  compile_step host (step s steps branches) b = do
    cond ← check_step host s steps branches
    add_step s cond steps b (compile_from host steps 0 [] [] b)
        (compile_branches host branches 0 b >>= gathered)

  -- The loop of `compileSteps`, with the entry so far and the exits of the step before.
  pub compile_from :
      Host
      → StepSpecs
      → ℕ
      → List Text
      → List Exit
      → Builder
      → Fallible CompileError (Piece × Builder)
  compile_from host no_steps i entry previous b =
      returned (record { entry = entry; terminal = previous }, b)
  compile_from host (next_step s ss) i entry previous b = do
    one ← wrapped (in_step i) (compile_step host s b)
    raise_if (is_empty one.0.entry || is_empty one.0.terminal) (empty_node_set i)
    compile_from host ss (i + 1) (if i == 0 then one.0.entry else entry) one.0.terminal
        (add_edges previous one.0.entry one.1)

  -- The loop over the branches of a split.
  pub compile_branches : Host → StepSpecs → ℕ → Builder → Fallible CompileError (Piece × Builder)
  compile_branches host no_steps i b = returned (record { entry = []; terminal = [] }, b)
  compile_branches host (next_step s ss) i b = do
    one ← wrapped (in_split i) (compile_step host s b)
    rest ← compile_branches host ss (i + 1) one.1
    returned (
      record { entry = one.0.entry ++ rest.0.entry; terminal = one.0.terminal ++ rest.0.terminal },
      rest.1,
    )

-- `compileSteps`
unfoldable pub compile_steps : Host → StepSpecs → Builder → Fallible CompileError (Piece × Builder)
compile_steps host steps b = do
  raise_if (steps_empty steps) steps_required
  compile_from host steps 0 [] [] b
