-- ===== src/Router/Dsl/Order.antt =====
-- The order of Go strings, and sorted lists without repetitions, which is what the sources make of
-- a map's keys.
use ductile.Common.{Bool, true, false, ◌&&◌, List, [], ◌∷◌, map, ltb, ◌==◌, if◌then◌else◌}
use ductile.Common.Text.{Text, text_eq}
use ductile.Router.Dsl.Types.{Edge, Exit}

-- `a < b`
unfoldable pub text_lt : Text → Text → Bool
text_lt [] [] = false
text_lt [] (b ∷ t) = true
text_lt (a ∷ s) [] = false
text_lt (a ∷ s) (b ∷ t) = let rest = text_lt s t in if a == b then rest else ltb a b

module _ {A : Type 0} (lt : A → A → Bool) (eq : A → A → Bool) where
  unfoldable pub insert_unique : A → List A → List A
  insert_unique x [] = x ∷ []
  insert_unique x (y ∷ ys) =
      let rest = insert_unique x ys in
      if eq x y then y ∷ ys else if lt x y then x ∷ y ∷ ys else y ∷ rest

  unfoldable pub sort_unique : List A → List A
  sort_unique [] = []
  sort_unique (x ∷ xs) = insert_unique x (sort_unique xs)

-- A sort that keeps repetitions.
module _ {A : Type 0} (lt : A → A → Bool) where
  unfoldable pub insert_sorted : A → List A → List A
  insert_sorted x [] = x ∷ []
  insert_sorted x (y ∷ ys) =
      let rest = insert_sorted x ys in if lt y x then y ∷ rest else x ∷ y ∷ ys

  unfoldable pub sort_by : List A → List A
  sort_by [] = []
  sort_by (x ∷ xs) = insert_sorted x (sort_by xs)

-- `sortedUnique` and `sortedMapKeys`
unfoldable pub sorted_unique : List Text → List Text
sorted_unique = sort_unique text_lt text_eq

-- The order of `sortedCompileExits`: by node and then by event type.
abbrev pub exit_lt : Exit → Exit → Bool
exit_lt a b =
    if text_eq a.step_id b.step_id
    then text_lt a.event_type b.event_type
    else text_lt a.step_id b.step_id

abbrev pub exit_eq : Exit → Exit → Bool
exit_eq a b = text_eq a.step_id b.step_id && text_eq a.event_type b.event_type

-- `sortedCompileExits`, and `sortedTerminalExits`
unfoldable pub sorted_compile_exits : List Exit → List Exit
sorted_compile_exits = sort_unique exit_lt exit_eq

-- `terminalNodeIDs`
pub terminal_node_ids : List Exit → List Text
terminal_node_ids exits = sorted_unique (map (λ e. e.step_id) exits)

-- The order of `sortEdges`.
abbrev pub edge_lt : Edge → Edge → Bool
edge_lt a b =
    if text_eq a.from b.from
    then if text_eq a.to b.to then text_lt a.event_type b.event_type else text_lt a.to b.to
    else text_lt a.from b.from

-- `sortEdges`
unfoldable pub sort_edges : List Edge → List Edge
sort_edges = sort_by edge_lt
