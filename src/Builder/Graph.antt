-- ===== src/Builder/Graph.antt =====
-- `topoSort` of internal/builder/graph.go: the nodes of a dependency graph in an order in which
-- each comes behind its dependencies.
-- A graph gives each node its dependencies. An int is its 64-bit pattern, so a negative one is not
-- below the number of nodes. The scratch slices come from a pool: a slice is the list of its cells
-- up to its capacity, and those of `adjData` keep what an earlier call has left there.
pub mod Count
pub mod Relax
pub mod Order
pub mod Counts
pub mod Filled
pub mod Adjacent
pub mod Sorts
pub mod Invalid
use forge_zero.Prelude.{
  ℕ, zero, suc, ◌+◌, ◌-◌, ◌%◌, ◌^◌, List, [], ◌∷◌, ◌++◌, map, Bool, true, false, not, Option, none,
  some, length, get_or, set, take, drop, replicate, ltb, leb, ◌==◌, if◌then◌else◌,
}

abbrev pub Graph : Type 0
Graph = List (List ℕ)

-- `ensureIntLen`
unfoldable pub ensure_int_len : List ℕ → ℕ → List ℕ
ensure_int_len slice n = if ltb (length slice) n then replicate n 0 else take n slice

-- The number of dependencies of all nodes.
unfoldable pub total_edges : Graph → ℕ
total_edges [] = 0
total_edges (deps ∷ rest) = length deps + total_edges rest

-- The loop over the dependencies of a node, which counts how often each node is one.
unfoldable pub count_deps : ℕ → List ℕ → List ℕ → Option (List ℕ)
count_deps n [] index = some index
count_deps n (dep ∷ rest) index =
    let counted = count_deps n rest (set index (suc dep) (get_or index (suc dep) 0 + 1)) in
    if leb n dep then none else counted

unfoldable pub count_edges : ℕ → Graph → List ℕ → Option (List ℕ)
count_edges n [] index = some index
count_edges n (deps ∷ rest) index = elim (count_deps n deps index) [
  | none ↦ none
  | some index' ↦ count_edges n rest index'
]

-- The loop that turns counts into positions: each cell gets the sum up to it.
unfoldable pub sums : ℕ → List ℕ → List ℕ
sums before [] = []
sums before (x ∷ rest) = (before + x) ∷ sums (before + x) rest

-- `adjCursor` and `adjData`
pub record Placed : Type 0 where
  pub adj_cursor : List ℕ
  pub adj_data : List ℕ

abbrev pub place_edge : ℕ → ℕ → Placed → Placed
place_edge i dep p = record {
  adj_cursor = set p.adj_cursor dep (get_or p.adj_cursor dep 0 + 1);
  adj_data = set p.adj_data (get_or p.adj_cursor dep 0) i;
}

unfoldable pub place_deps : ℕ → List ℕ → Placed → Placed
place_deps i [] p = p
place_deps i (dep ∷ rest) p = place_deps i rest (place_edge i dep p)

unfoldable pub place_edges : ℕ → Graph → Placed → Placed
place_edges i [] p = p
place_edges i (deps ∷ rest) p = place_edges (suc i) rest (place_deps i deps p)

-- The nodes of degree 0, numbered from `i` on.
unfoldable pub zeros : ℕ → List ℕ → List ℕ
zeros i [] = []
zeros i (degree ∷ rest) = let more = zeros (suc i) rest in if degree == 0 then i ∷ more else more

-- The loop over the nodes that depend on a node: a degree that falls to 0 puts its node in the
-- queue. An int wraps around below 0.
unfoldable pub relax : List ℕ → List ℕ → List ℕ → List ℕ × List ℕ
relax [] degrees queue = (degrees, queue)
relax (next ∷ rest) degrees queue =
    let left = (get_or degrees next 0 + (2 ^ 64 - 1)) % 2 ^ 64 in
    relax rest (set degrees next left) (if left == 0 then queue ++ next ∷ [] else queue)

-- The cells of `adjData` for a node.
abbrev pub dependents : List ℕ → List ℕ → ℕ → List ℕ
dependents index cells node =
    take (get_or index (suc node) 0 - get_or index node 0) (drop (get_or index node 0) cells)

abbrev pub put_first : ℕ → Option (List ℕ) → Option (List ℕ)
put_first node none = none
put_first node (some nodes) = some (node ∷ nodes)

-- The loop over the queue, of which the part from `queueHead` on is given; what is in front of it is
-- the order so far. Answers the rest of the order, and none without fuel.
unfoldable pub visit : ℕ → (ℕ → List ℕ) → List ℕ → List ℕ → Option (List ℕ)
visit zero next degrees queue = none
visit (suc fuel) next degrees [] = some []
visit (suc fuel) next degrees (node ∷ queue) =
    let (degrees', queue') = relax (next node) degrees queue in
    put_first node (visit fuel next degrees' queue')

-- An order, or one of the two errors. `unfuelled` is the answer of a model without fuel.
pub data Sorted : Type 0 where
  order : List ℕ → Sorted
  invalid_dependency : Sorted
  dependency_cycle : Sorted
  unfuelled : Sorted

-- The check behind the loop.
abbrev pub checked : ℕ → Option (List ℕ) → Sorted
checked n none = unfuelled
checked n (some nodes) = if length nodes == n then order nodes else dependency_cycle

-- The nodes without dependencies start the queue.
abbrev pub start_queue : ℕ → (ℕ → List ℕ) → List ℕ → List ℕ → Sorted
start_queue n next degrees [] = dependency_cycle
start_queue n next degrees (node ∷ queue) = checked n (visit (suc n) next degrees (node ∷ queue))

-- The dependents of each node: `adjIndex` from the counts, and `adjData`.
unfoldable pub adjacency : List ℕ → Graph → List ℕ → ℕ → List ℕ
adjacency scratch graph counts =
    let index = sums 0 counts in
    let placed = place_edges 0 graph (record {
      adj_cursor = take (length graph) index;
      adj_data = ensure_int_len scratch (total_edges graph);
    }) in
    dependents index placed.adj_data

unfoldable pub topo_sort : List ℕ → Graph → Sorted
topo_sort scratch [] = order []
topo_sort scratch (deps ∷ rest) =
    let graph = deps ∷ rest in
    let n = length graph in
    let degrees = map length graph in
    elim (count_edges n graph (replicate (suc n) 0)) [
      | none ↦ invalid_dependency
      | some counts ↦ start_queue n (adjacency scratch graph counts) degrees (zeros 0 degrees)
    ]
