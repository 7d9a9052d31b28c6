-- ===== src/Builder/Runs.antt =====
-- Runs of the order of a graph, and its theorems at concrete inputs.
use forge_zero.Prelude.{
  get_or, ◌≤◌, ◌<◌, ◌^◌, if◌then◌else◌, leb, some, ◌∙◌, ◌+◌, ℕ, ◌≡◌, ◌≢◌, refl, List, [], ◌∷◌,
  length, arith, zero, suc, true, false,
}
use forge_zero.Builder.Graph.{
  Graph, topo_sort, order, dependency_cycle, unfuelled, count_deps, count_edges, sums, place_deps,
  place_edges, zeros, relax, visit, adjacency, ensure_int_len, total_edges,
}
use forge_zero.Builder.Graph.Order.{Ordered, deps_of}
use forge_zero.Builder.Graph.Count.{bit, occ}
use forge_zero.Builder.Graph.Relax.{missing}
use forge_zero.Builder.Dag.{
  building, telling, Build, start, schedule, scan_node, scan_schedule, free, lowering, testing,
  succeed, lower_count, call_schedule, called, calling, mark_ready, unlock, tell, scanned,
  scan_scheduled, succeeded, lowered, marked, unlocked, told, Steps, stay, go, add_dependents,
  add_dependent,
}
use forge_zero.Builder.Dag.Starts.{no_dependents, run_dag_starts}
use forge_zero.Builder.Remap.{remap_dependencies, positions, remap_node}
use forge_zero.Builder.Remap.Rising.{Rising, remap_dependencies-Rising}
use forge_zero.Builder.Graph.Counts.{all_deps}
use forge_zero.Builder.Graph.Invalid.{any_outside, is_invalid, topo_sort_invalid}
use forge_zero.Builder.Graph.Sorts.{
  IsSmall, AllOnce, topo_sort_sound, topo_sort_cycle, topo_sort-ne-unfuelled,
}

-- The node 0 depends on 2 and 1, the node 1 on 2, twice.
abbrev small_graph : Graph
small_graph = (2 ∷ 1 ∷ []) ∷ (2 ∷ 2 ∷ []) ∷ [] ∷ []

abbrev small_order : List ℕ
small_order = 2 ∷ 1 ∷ 0 ∷ []

small_graph_sorts : topo_sort (7 ∷ 7 ∷ 7 ∷ 7 ∷ 7 ∷ []) small_graph ≡ order small_order
unfolding topo_sort count_deps count_edges sums place_deps place_edges zeros relax visit adjacency
    ensure_int_len total_edges
small_graph_sorts = refl

-- Two nodes that depend on each other.
abbrev cycle : Graph
cycle = (1 ∷ []) ∷ (0 ∷ []) ∷ [] ∷ []

cycle_refused : topo_sort [] cycle ≡ dependency_cycle
unfolding topo_sort count_deps count_edges sums place_deps place_edges zeros relax visit adjacency
    ensure_int_len total_edges
cycle_refused = refl

small_graph-IsSmall : IsSmall small_graph
small_graph-IsSmall zero = omega arith
small_graph-IsSmall (suc zero) = omega arith
small_graph-IsSmall (suc (suc zero)) = omega arith
small_graph-IsSmall (suc (suc (suc i))) = omega arith

cycle-IsSmall : IsSmall cycle
cycle-IsSmall zero = omega arith
cycle-IsSmall (suc zero) = omega arith
cycle-IsSmall (suc (suc zero)) = omega arith
cycle-IsSmall (suc (suc (suc i))) = omega arith

topo_sort_sound_example :
    Ordered small_graph [] small_order × AllOnce (length small_graph) small_order
topo_sort_sound_example =
    topo_sort_sound (7 ∷ 7 ∷ 7 ∷ 7 ∷ 7 ∷ []) small_graph small_order small_graph-IsSmall
      small_graph_sorts

small_order-AllOnce : AllOnce 3 small_order
small_order-AllOnce i = ground arith

topo_sort_cycle_example : ¬ Ordered cycle [] small_order
topo_sort_cycle_example =
    topo_sort_cycle [] cycle small_order cycle-IsSmall cycle_refused small_order-AllOnce

topo_sort-ne-unfuelled_example : topo_sort [] cycle ≢ unfuelled
topo_sort-ne-unfuelled_example = topo_sort-ne-unfuelled [] cycle cycle-IsSmall

-- A dependency that is no node.
abbrev stray : Graph
stray = (3 ∷ []) ∷ []

topo_sort_invalid_example :
    is_invalid (topo_sort [] stray) ≡ any_outside (length stray) (all_deps stray)
topo_sort_invalid_example = topo_sort_invalid [] stray

-- An insertion sort.
abbrev insert : ℕ → List ℕ → List ℕ
insert a [] = a ∷ []
insert a (x ∷ xs) = let behind = insert a xs in if leb a x then a ∷ x ∷ xs else x ∷ behind

abbrev insertion_sort : List ℕ → List ℕ
insertion_sort [] = []
insertion_sort (x ∷ xs) = insert x (insertion_sort xs)

occ-insert : (d a : ℕ) (xs : List ℕ) → occ d (insert a xs) ≡ bit d a + occ d xs
occ-insert d a [] = refl
occ-insert d a (x ∷ xs) = ground (arith, occ-insert d a xs)

occ-insertion_sort : (d : ℕ) (xs : List ℕ) → occ d (insertion_sort xs) ≡ occ d xs
occ-insertion_sort d [] = refl
occ-insertion_sort d (x ∷ xs) =
    occ-insert d x (insertion_sort xs) ∙ omega (arith, occ-insertion_sort d xs)

small_graph_remapped :
    remap_dependencies insertion_sort small_order small_graph
    ≡ some ([] ∷ (0 ∷ 0 ∷ []) ∷ (0 ∷ 1 ∷ []) ∷ [])
unfolding remap_dependencies positions remap_node
small_graph_remapped = refl

remap_dependencies-Rising_example :
    (remapped : Graph) × (remap_dependencies insertion_sort small_order small_graph ≡ some remapped)
    × (length remapped ≡ length small_graph)
    × Rising 0 remapped
remap_dependencies-Rising_example =
    remap_dependencies-Rising insertion_sort occ-insertion_sort (7 ∷ 7 ∷ 7 ∷ 7 ∷ 7 ∷ []) small_graph
      small_order small_graph-IsSmall small_graph_sorts

-- The node 0 depends on the node 1.
abbrev pair_graph : Graph
pair_graph = (1 ∷ []) ∷ [] ∷ []

abbrev pair_table : Graph
pair_table = [] ∷ (0 ∷ []) ∷ []

abbrev pair_children : ℕ → List ℕ
pair_children i = get_or pair_table i []

pair_dependents : add_dependents 2 0 pair_graph (no_dependents 2) ≡ some pair_table
unfolding add_dependents add_dependent
pair_dependents = refl

-- The loop skips the node 0 and schedules the node 1.
abbrev first_skipped : Build
first_skipped = scan_node (start pair_graph)

abbrev second_seen : Build
second_seen = scan_node first_skipped

abbrev both_scanned : Build
both_scanned = scan_schedule second_seen

-- The node 1 is built, its task takes the count of the node 0 off, and then schedules it.
abbrev one_built : Build
one_built = succeed (0 ∷ []) 1 [] [] both_scanned

abbrev zero_lowered : Build
zero_lowered = lower_count (0 ∷ []) 0 [] one_built

abbrev zero_marked : Build
zero_marked = mark_ready (0 ∷ []) 0 [] zero_lowered

abbrev one_unlocked : Build
one_unlocked = unlock (0 ∷ []) zero_marked

abbrev zero_told : Build
zero_told = tell 0 [] [] [] one_unlocked

abbrev zero_scheduled : Build
zero_scheduled = call_schedule 0 [] [] [] zero_told

first_in_range : (first_skipped.scan < 2) × (first_skipped.seen ≡ false)
unfolding scan_node
first_in_range = (omega arith, refl)

one_seen : second_seen.seen ≡ true
unfolding scan_node
one_seen = refl

one_at_work : (both_scanned.mutex ≡ free) × (both_scanned.tasks ≡ building 1 ∷ [])
unfolding scan_node scan_schedule schedule
one_at_work = (refl, refl)

one_lowers : one_built.mutex ≡ lowering (0 ∷ []) (0 ∷ [])
unfolding succeed scan_node scan_schedule schedule
one_lowers = refl

zero_tested : zero_lowered.mutex ≡ testing (0 ∷ []) 0 []
unfolding lower_count
zero_tested = refl

zero_done : zero_marked.mutex ≡ lowering (0 ∷ []) []
unfolding mark_ready lower_count succeed scan_node scan_schedule schedule
zero_done = refl

one_tells : (one_unlocked.mutex ≡ free) × (one_unlocked.tasks ≡ telling (0 ∷ []) ∷ [])
unfolding unlock mark_ready lower_count succeed scan_node scan_schedule schedule
one_tells = (refl, refl)

one_calls : zero_told.tasks ≡ calling 0 [] ∷ []
unfolding tell unlock mark_ready lower_count succeed scan_node scan_schedule schedule
one_calls = refl

pair-Steps : Steps 2 pair_children (start pair_graph) zero_scheduled
pair-Steps =
    let a : Steps 2 pair_children (start pair_graph) first_skipped =
      go _ _ first_skipped (stay (start pair_graph))
        (scanned (start pair_graph) (omega arith) refl) in
    let b : Steps 2 pair_children (start pair_graph) second_seen =
      go _ _ second_seen a (scanned first_skipped first_in_range.0 first_in_range.1) in
    let c : Steps 2 pair_children (start pair_graph) both_scanned =
      go _ _ both_scanned b (scan_scheduled second_seen one_seen) in
    let d : Steps 2 pair_children (start pair_graph) one_built =
      go _ _ one_built c (succeeded [] [] 1 both_scanned one_at_work.0 one_at_work.1) in
    let e : Steps 2 pair_children (start pair_graph) zero_lowered =
      go _ _ zero_lowered d (lowered (0 ∷ []) 0 [] one_built one_lowers) in
    let f : Steps 2 pair_children (start pair_graph) zero_marked =
      go _ _ zero_marked e (marked (0 ∷ []) 0 [] zero_lowered zero_tested) in
    let g : Steps 2 pair_children (start pair_graph) one_unlocked =
      go _ _ one_unlocked f (unlocked (0 ∷ []) zero_marked zero_done) in
    let h : Steps 2 pair_children (start pair_graph) zero_told =
      go _ _ zero_told g (told [] [] 0 [] one_unlocked one_tells.0 one_tells.1) in
    go _ _ zero_scheduled h (called [] [] 0 [] zero_told one_calls)

zero_is_scheduled : 1 ≤ occ 0 zero_scheduled.scheduled
unfolding call_schedule tell unlock mark_ready lower_count succeed scan_node scan_schedule schedule
zero_is_scheduled = omega arith

pair_graph-small : (i : ℕ) → length (deps_of pair_graph i) < 2 ^ 63
pair_graph-small zero = omega arith
pair_graph-small (suc zero) = omega arith
pair_graph-small (suc (suc i)) = omega arith

run_dag_starts_example :
    (0 < length pair_graph)
    × (occ 0 zero_scheduled.scheduled ≡ 1)
    × (missing zero_scheduled.completed (deps_of pair_graph 0) ≡ 0)
run_dag_starts_example =
    run_dag_starts pair_graph pair_table zero_scheduled 0 pair_graph-small pair_dependents
      pair-Steps zero_is_scheduled
