-- ===== src/Router/Dsl/Calls.antt =====
-- `validatePipelineCalls` of internal/router/dsl/compiler.go. The pipelines are a list with unique
-- names; the loops over the map take them in the order of the list.
pub mod Falling
pub mod Returns
pub mod Decides
use ductile.Common.{
  ℕ, zero, suc, ◌+◌, Bool, true, false, not, Option, none, some, List, [], ◌∷◌, map, ◌==◌,
  if◌then◌else◌, length,
}
use ductile.Common.Fallible.{Fallible, returned, raised, ◌>>=◌, ◌>>◌, raise_if}
use ductile.Common.Text.{Text, text_eq}
use ductile.Router.Dsl.Types.{Pipeline}
use ductile.Router.Dsl.Order.{sorted_unique}
use ductile.Router.Dsl.Checks.{CompileError, unknown_pipeline, call_cycle, out_of_fuel}

-- `pipelines[name]`
unfoldable pub find_pipeline : Text → List Pipeline → Option Pipeline
find_pipeline name [] = none
find_pipeline name (p ∷ ps) =
    let rest = find_pipeline name ps in if text_eq p.name name then some p else rest

abbrev pub is_known : List Pipeline → Text → Bool
is_known ps name = elim (find_pipeline name ps) [ none ↦ false | some p ↦ true ]

-- `pipelines[name].CalledPipelines`
unfoldable pub calls_of : List Pipeline → Text → List Text
calls_of ps name = elim (find_pipeline name ps) [ none ↦ [] | some p ↦ p.called_pipelines ]

unfoldable pub known_calls : List Pipeline → Text → List Text → Fallible CompileError (Unit {0})
known_calls ps name [] = returned tt
known_calls ps name (called ∷ more) = do
  raise_if (not (is_known ps called)) (unknown_pipeline name called)
  known_calls ps name more

unfoldable pub all_known_calls : List Pipeline → List Pipeline → Fallible CompileError (Unit {0})
all_known_calls ps [] = returned tt
all_known_calls ps (p ∷ more) = do known_calls ps p.name p.called_pipelines; all_known_calls ps more

-- `state[name] = value`
abbrev marked : Text → ℕ → (Text → ℕ) → Text → ℕ
marked name value state v = if text_eq name v then value else state v

-- `walk` for each of the names, on fuel: 0 is not visited, 1 is being visited and 2 is done.
unfoldable pub walk_all :
    List Pipeline → ℕ → List Text → (Text → ℕ) → Fallible CompileError (Text → ℕ)
walk_all ps fuel [] state = returned state
walk_all ps zero (name ∷ names) state = raised out_of_fuel
walk_all ps (suc fuel) (name ∷ names) state =
    let inside = walk_all ps fuel (calls_of ps name) (marked name 1 state) in
    do
      state' ←
          if state name == 2
          then returned state
          else if state name == 1
          then raised (call_cycle name)
          else inside >>= λ s. returned (marked name 2 s)
      walk_all ps (suc fuel) names state'

-- `validatePipelineCalls`
unfoldable pub validate_pipeline_calls : List Pipeline → Fallible CompileError (Unit {0})
validate_pipeline_calls ps = do
  all_known_calls ps ps
  state ← walk_all ps (length ps + 1) (sorted_unique (map (λ p. p.name) ps)) (λ v. 0)
  returned tt
