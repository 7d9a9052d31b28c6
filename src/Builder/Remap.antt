-- ===== src/Builder/Remap.antt =====
-- `remapDependencies` of internal/builder/graph.go: a graph with its nodes numbered by an order.
pub mod Rising
use forge_zero.Prelude.{
  ℕ, zero, suc, List, [], ◌∷◌, map, Bool, ◌||◌, Option, none, some, length, get_or, set, replicate,
  ltb, if◌then◌else◌,
}
use forge_zero.Builder.Graph.{Graph}
use forge_zero.Builder.Graph.Counts.{all_deps}
use forge_zero.Builder.Graph.Order.{deps_of}
use forge_zero.Builder.Graph.Invalid.{any_outside}

-- The positions of the nodes in the order.
unfoldable pub positions : ℕ → List ℕ → List ℕ → List ℕ
positions i [] pos = pos
positions i (src ∷ rest) pos = positions (suc i) rest (set pos src i)

-- The dependencies of a node, which are sorted by `sort.Ints` if there are several.
unfoldable pub remap_node : (List ℕ → List ℕ) → List ℕ → List ℕ → List ℕ
remap_node sort_ints pos deps =
    let remapped = map (λ dep. get_or pos dep 0) deps in
    if ltb 1 (length remapped) then sort_ints remapped else remapped

-- An index that is out of range is a run-time panic.
abbrev pub out_of_range : List ℕ → Graph → Bool
out_of_range order graph =
    any_outside (length order) order
    || any_outside (length graph) order
    || any_outside (length order) (all_deps (map (λ src. deps_of graph src) order))

-- Answers none for a panic.
unfoldable pub remap_dependencies : (List ℕ → List ℕ) → List ℕ → Graph → Option Graph
remap_dependencies sort_ints order graph =
    let pos = positions 0 order (replicate (length order) 0) in
    if out_of_range order graph
    then none
    else some (map (λ src. remap_node sort_ints pos (deps_of graph src)) order)
