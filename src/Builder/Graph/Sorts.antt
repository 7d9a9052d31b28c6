-- ===== src/Builder/Graph/Sorts.antt =====
-- What `topoSort` answers.
use forge_zero.Prelude.{
  ℕ, zero, suc, ◌+◌, ◌^◌, ◌≤◌, ◌<◌, ◌≡◌, ◌≢◌, ◌⊎◌, refl, sym, ap, subst, ◌∙◌, List, [], ◌∷◌, map,
  arith, length, ◌==◌, if◌then◌else◌, Bool-cases, Option-cases, inl, inr, get_or, ltb, replicate,
}
use forge_zero.Builder.Graph.{
  Graph, count_edges, zeros, visit, order, invalid_dependency, dependency_cycle, unfuelled, checked,
  start_queue, adjacency, topo_sort,
}
use forge_zero.Builder.Graph.Count.{
  bit, occ, bit-same, occurrences, length-occurrences, occurrences_at_least, occurrences_at_most,
  occurrences_full,
}
use forge_zero.Builder.Graph.Relax.{missing}
use forge_zero.Builder.Graph.Order.{
  deps_of, Ordered, grown, grown-append, Invariant, Visited, visit_ends, Ordered-covered, bit-bound,
}
use forge_zero.Builder.Graph.Adjacent.{adjacency-IsAdjacency}

pub missing-nil : (deps : List ℕ) → missing [] deps ≡ length deps
missing-nil [] = refl
missing-nil (d ∷ deps) = omega (arith, missing-nil deps, bit-same 0)

pub degree_of : (graph : Graph) (i : ℕ) → get_or (map length graph) i 0 ≡ length (deps_of graph i)
degree_of [] i = refl
degree_of (deps ∷ rest) zero = refl
degree_of (deps ∷ rest) (suc i) = degree_of rest i

length-map_length : (graph : Graph) → length (map length graph) ≡ length graph
length-map_length [] = refl
length-map_length (deps ∷ rest) = ap suc (length-map_length rest)

occ-zeros_below : (k j : ℕ) (degrees : List ℕ) → j < k → occ j (zeros k degrees) ≡ 0
unfolding zeros
occ-zeros_below k j [] h = refl
occ-zeros_below k j (d ∷ degrees) h = elim (Bool-cases (d == 0)) [
  | inl e ↦ rw e (ground (arith, occ-zeros_below (suc k) j degrees))
  | inr e ↦ rw e (occ-zeros_below (suc k) j degrees (omega arith))
]

occ-zeros :
    (k i : ℕ) (degrees : List ℕ)
    → occ (k + i) (zeros k degrees)
      ≡ (if ltb i (length degrees) then bit (get_or degrees i 0) 0 else 0)
unfolding zeros
occ-zeros k i [] = ground arith
occ-zeros k zero (d ∷ degrees) =
    let e0 : k + 0 ≡ k = omega arith in
    rw e0 (elim (Bool-cases (d == 0)) [
      | inl e ↦ rw e (ground (arith, e, occ-zeros_below (suc k) k degrees, bit-same k))
      | inr e ↦ rw e (ground (arith, e, occ-zeros_below (suc k) k degrees))
    ])
occ-zeros k (suc i) (d ∷ degrees) =
    let e0 : k + suc i ≡ suc k + i = omega arith in
    rw e0 (elim (Bool-cases (d == 0)) [
      | inl e ↦ rw e (ground (arith, occ-zeros (suc k) i degrees))
      | inr e ↦ rw e (ground (arith, occ-zeros (suc k) i degrees))
    ])

-- Nodes with fewer dependencies than an int counts.
abbrev pub IsSmall : Graph → Type 0
IsSmall graph = (i : ℕ) → length (deps_of graph i) < 2 ^ 64

Invariant-start :
    (graph : Graph)
    → IsSmall graph
    → Invariant graph [] (map length graph) (zeros 0 (map length graph))
Invariant-start graph small =
    let degrees : List ℕ = map length graph in
    let first : (i : ℕ)
        → occ i (zeros 0 degrees)
          ≡ (if ltb i (length graph) then bit (get_or degrees i 0) 0 else 0) =
      λ i.
        ap (λ k. occ k (zeros 0 degrees)) (omega arith)
        ∙ occ-zeros 0 i degrees
        ∙ ap (λ m. if ltb i m then bit (get_or degrees i 0) 0 else 0) (length-map_length graph) in
    record {
      degree = λ i. degree_of graph i ∙ sym (missing-nil (deps_of graph i));
      ready = λ i h. ground (arith, first i, h);
      inside = λ i h. ground (arith, first i, h);
      small = λ i. omega (arith, degree_of graph i, small i);
    }

start_queue-checked :
    (n : ℕ) (next : ℕ → List ℕ) (degrees queue : List ℕ)
    → 1 ≤ n
    → start_queue n next degrees queue ≡ checked n (visit (suc n) next degrees queue)
unfolding visit
start_queue-checked n next degrees [] h = ground arith
start_queue-checked n next degrees (v ∷ queue) h = refl

-- A dependency that is no node, or the nodes of the loop over the queue and a check of their number.
topo_sort_cases :
    (scratch : List ℕ) (graph : Graph)
    → IsSmall graph
    → (topo_sort scratch graph ≡ invalid_dependency)
      ⊎ ((nodes : List ℕ) × (topo_sort scratch graph
            ≡ (if length nodes == length graph then order nodes else dependency_cycle))
          × Visited graph [] nodes)
unfolding topo_sort
topo_sort_cases scratch [] small =
    inr
      ([], refl, record { ordered = tt; ready = λ i h. absurd (omega arith); inside = λ i h. refl })
topo_sort_cases scratch (deps ∷ rest) small =
    let graph : Graph = deps ∷ rest in
    let n : ℕ = length graph in
    elim (Option-cases (count_edges n graph (replicate (suc n) zero))) [
      | inl e ↦ inl (rw (e, topo_sort) refl)
      | inr (counts, e) ↦
          let next : ℕ → List ℕ = adjacency scratch graph counts in
          let (nodes, v, done) =
            visit_ends graph next (adjacency-IsAdjacency scratch graph counts e) (suc n) []
              (map length graph) (zeros 0 (map length graph)) (Invariant-start graph small)
              (omega arith) in
          inr (
            nodes,
            rw (e, topo_sort)
                (start_queue-checked n next (map length graph) (zeros 0 (map length graph))
                    (omega arith)
                  ∙ ap (checked n) v),
            done,
          )
    ]

-- Each number below `n` occurs once, and no other.
abbrev pub AllOnce : ℕ → List ℕ → Type 0
AllOnce n nodes = (i : ℕ) → occ i nodes ≡ (if ltb i n then 1 else 0)

Visited-AllOnce :
    (graph : Graph) (nodes : List ℕ)
    → Visited graph [] nodes
    → length nodes ≡ length graph
    → AllOnce (length graph) nodes
Visited-AllOnce graph nodes done h i =
    let all : (j : ℕ) → occ j (grown [] nodes) ≡ occ j nodes =
      λ j. omega (arith, grown-append [] nodes j) in
    let size : length nodes ≡ occurrences (length graph) nodes =
      length-occurrences (length graph) nodes (λ j k. omega (arith, all j, done.inside j k)) in
    elim (Bool-cases (ltb i (length graph))) [
      | inl e ↦ rw e (
          occurrences_full (length graph) nodes i
            (λ j k. omega (
              arith,
              all j,
              done.ready j k,
              bit-bound (missing (grown [] nodes) (deps_of graph j)) 0,
            ))
            (omega (arith, size)) (ground (arith, e)))
      | inr e ↦ rw e (omega (arith, all i, done.inside i (ground (arith, e))))
    ]

Visited-length :
    (graph : Graph) (nodes : List ℕ)
    → Visited graph [] nodes
    → length graph ≤ occurrences (length graph) nodes
    → length nodes ≡ length graph
Visited-length graph nodes done enough =
    let all : (j : ℕ) → occ j (grown [] nodes) ≡ occ j nodes =
      λ j. omega (arith, grown-append [] nodes j) in
    omega (
      arith,
      enough,
      length-occurrences (length graph) nodes (λ j k. omega (arith, all j, done.inside j k)),
      occurrences_at_most (length graph) nodes (λ j k.
          omega (
            arith,
            all j,
            done.ready j k,
            bit-bound (missing (grown [] nodes) (deps_of graph j)) 0,
          )),
    )

-- When topoSort answers an order for a graph whose nodes have fewer than 2^64 dependencies,
-- whatever the scratch slices hold, each node is in the order once, nothing else is, and each
-- comes behind its dependencies.
pub topo_sort_sound :
    (scratch : List ℕ) (graph : Graph) (nodes : List ℕ)
    → IsSmall graph
    → topo_sort scratch graph ≡ order nodes
    → Ordered graph [] nodes × AllOnce (length graph) nodes
topo_sort_sound scratch graph nodes small h = elim (topo_sort_cases scratch graph small) [
  | inl e ↦ absurd (cc)
  | inr (found, e, done) ↦ elim (Bool-cases (length found == length graph)) [
    | inl q ↦
        let same : found ≡ nodes = ground (arith, e, q, h) in
        subst (λ xs. Ordered graph [] xs × AllOnce (length graph) xs) same
          (done.ordered, Visited-AllOnce graph found done (ground (arith, q)))
    | inr q ↦ absurd (ground (arith, e, q, h))
  ]
]

-- When topoSort answers that there is a cycle, for a graph whose nodes have fewer than 2^64
-- dependencies, then no list that has each node once and nothing else puts each behind its
-- dependencies.
pub topo_sort_cycle :
    (scratch : List ℕ) (graph : Graph) (nodes : List ℕ)
    → IsSmall graph
    → topo_sort scratch graph ≡ dependency_cycle
    → AllOnce (length graph) nodes
    → ¬ Ordered graph [] nodes
topo_sort_cycle scratch graph nodes small h once sorted =
    elim (topo_sort_cases scratch graph small) [
      | inl e ↦ absurd (cc)
      | inr (found, e, done) ↦
          let n : ℕ = length graph in
          let all : (j : ℕ) → occ j (grown [] found) ≡ occ j found =
            λ j. omega (arith, grown-append [] found j) in
          let covered : (i : ℕ) → i < n → 1 ≤ occ i found = λ i k. omega (
            arith,
            all i,
            Ordered-covered graph [] nodes (grown [] found) sorted
                (λ j l. ground (arith, once j, l)) (λ j l. absurd (omega arith))
                (λ j l m. ground (arith, done.ready j l, m)) i (ground (arith, once i, k)),
          ) in
          let enough : n ≤ occurrences n found = occurrences_at_least n found covered in
          let size : length found ≡ length graph = Visited-length graph found done enough in
          ground (arith, e, size, h)
    ]

-- On a graph whose nodes have fewer than 2^64 dependencies topoSort ends: the fuel of the model,
-- one round for each node and one more, does not run out.
pub topo_sort-ne-unfuelled :
    (scratch : List ℕ) (graph : Graph) → IsSmall graph → topo_sort scratch graph ≢ unfuelled
topo_sort-ne-unfuelled scratch graph small h = elim (topo_sort_cases scratch graph small) [
  | inl e ↦ absurd (cc)
  | inr (found, e, done) ↦ ground (arith, e, h)
]
