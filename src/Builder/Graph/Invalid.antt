-- ===== src/Builder/Graph/Invalid.antt =====
-- The graphs that `topoSort` refuses for a dependency that is no node.
use forge_zero.Prelude.{
  ℕ, zero, suc, ◌+◌, ◌≡◌, refl, ◌∙◌, List, [], ◌∷◌, ◌++◌, map, Bool, true, false, ◌||◌, arith,
  length, Option, none, some, Bool-cases, Option-cases, inl, inr, leb, set, get_or, replicate,
}
use forge_zero.Builder.Graph.{
  Graph, count_deps, count_edges, zeros, Sorted, order, invalid_dependency, dependency_cycle,
  unfuelled, checked, start_queue, adjacency, topo_sort,
}
use forge_zero.Builder.Graph.Counts.{all_deps}

-- Some number is not below `n`.
abbrev pub any_outside : ℕ → List ℕ → Bool
any_outside n [] = false
any_outside n (d ∷ deps) = leb n d || any_outside n deps

abbrev pub is_invalid : Sorted → Bool
is_invalid (order nodes) = false
is_invalid invalid_dependency = true
is_invalid dependency_cycle = false
is_invalid unfuelled = false

pub any_outside-append :
    (n : ℕ) (xs ys : List ℕ) → any_outside n (xs ++ ys) ≡ (any_outside n xs || any_outside n ys)
any_outside-append n [] ys = refl
any_outside-append n (x ∷ xs) ys = ground (arith, any_outside-append n xs ys)

abbrev is_none {ℓ} : {A : Type ℓ} → Option A → Bool
is_none none = true
is_none (some a) = false

count_deps-none :
    (n : ℕ) (deps index : List ℕ) → is_none (count_deps n deps index) ≡ any_outside n deps
unfolding count_deps
count_deps-none n [] index = refl
count_deps-none n (d ∷ deps) index = elim (Bool-cases (leb n d)) [
  | inl e ↦ rw e refl
  | inr e ↦ rw e (count_deps-none n deps (set index (suc d) (get_or index (suc d) 0 + 1)))
]

count_edges-none :
    (n : ℕ) (graph : Graph) (index : List ℕ)
    → is_none (count_edges n graph index) ≡ any_outside n (all_deps graph)
unfolding count_edges
count_edges-none n [] index = refl
count_edges-none n (deps ∷ rest) index =
    let first : is_none (count_deps n deps index) ≡ any_outside n deps =
      count_deps-none n deps index in
    elim (Option-cases (count_deps n deps index)) [
      | inl e ↦
          rw (e, count_edges)
            (ground (arith, rw e at first, any_outside-append n deps (all_deps rest)))
      | inr (one, e) ↦
          rw (e, count_edges)
            (count_edges-none n rest one
              ∙ ground (arith, rw e at first, any_outside-append n deps (all_deps rest)))
    ]

checked-valid : (n : ℕ) (found : Option (List ℕ)) → is_invalid (checked n found) ≡ false
checked-valid n none = refl
checked-valid n (some nodes) = ground arith

start_queue-valid :
    (n : ℕ) (next : ℕ → List ℕ) (degrees queue : List ℕ)
    → is_invalid (start_queue n next degrees queue) ≡ false
start_queue-valid n next degrees [] = refl
start_queue-valid n next degrees (v ∷ queue) = checked-valid n _

-- For an invalid dependency topoSort refuses exactly the graphs in which a dependency is no node.
pub topo_sort_invalid :
    (scratch : List ℕ) (graph : Graph)
    → is_invalid (topo_sort scratch graph) ≡ any_outside (length graph) (all_deps graph)
unfolding topo_sort
topo_sort_invalid scratch [] = refl
topo_sort_invalid scratch (deps ∷ rest) =
    let graph : Graph = deps ∷ rest in
    let n : ℕ = length graph in
    let counted : is_none (count_edges n graph (replicate (suc n) zero))
        ≡ any_outside n (all_deps graph) =
      count_edges-none n graph (replicate (suc n) zero) in
    elim (Option-cases (count_edges n graph (replicate (suc n) zero))) [
      | inl e ↦ rw (e, topo_sort) (rw e at counted)
      | inr (counts, e) ↦
          rw (e, topo_sort)
            (start_queue-valid n (adjacency scratch graph counts) (map length graph)
                (zeros 0 (map length graph))
              ∙ rw e at counted)
    ]
