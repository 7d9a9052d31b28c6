-- ===== src/Builder/Remap/Rising.antt =====
-- A graph that is numbered by the order of `topoSort` has its dependencies in front.
use forge_zero.Prelude.{
  ℕ, zero, suc, ◌+◌, ◌≤◌, ◌<◌, ◌≡◌, refl, sym, ap, ◌∙◌, List, [], ◌∷◌, map, false, arith, some,
  length, get_or, set, replicate, length-replicate, length-set, get_or-set_same, get_or-set_other,
  ltb, leb, ◌==◌, Bool-cases, inl, inr,
}
use forge_zero.Builder.Graph.{Graph, topo_sort, order}
use forge_zero.Builder.Graph.Count.{
  occ, bit-same, length-occurrences, occurrences_at_least, occurrences_at_most,
}
use forge_zero.Builder.Graph.Counts.{all_deps}
use forge_zero.Builder.Graph.Relax.{missing}
use forge_zero.Builder.Graph.Order.{deps_of, Ordered}
use forge_zero.Builder.Graph.Invalid.{
  any_outside, is_invalid, any_outside-append, topo_sort_invalid,
}
use forge_zero.Builder.Graph.Sorts.{IsSmall, AllOnce, topo_sort_sound}
use forge_zero.Builder.Remap.{positions, remap_node, out_of_range, remap_dependencies}

-- Every node depends on nodes with smaller numbers only; the first has the number `i`.
abbrev pub Rising : ℕ → Graph → Type 0
Rising i [] = Unit
Rising i (deps ∷ rest) = (any_outside i deps ≡ false) × Rising (suc i) rest

outside-occ : (n : ℕ) (xs : List ℕ) → ((d : ℕ) → n ≤ d → occ d xs ≡ 0) → any_outside n xs ≡ false
outside-occ n [] h = refl
outside-occ n (x ∷ xs) h = elim (Bool-cases (leb n x)) [
  | inl e ↦ absurd (omega (arith, h x (ground (arith, e)), bit-same x))
  | inr e ↦ rw e (outside-occ n xs (λ d k. omega (arith, h d k)))
]

occ-outside : (n d : ℕ) (xs : List ℕ) → any_outside n xs ≡ false → n ≤ d → occ d xs ≡ 0
occ-outside n d [] h k = refl
occ-outside n d (x ∷ xs) h k = ground (arith, occ-outside n d xs, h, k)

deps_of-inside :
    (n k : ℕ) (graph : Graph)
    → any_outside n (all_deps graph) ≡ false
    → any_outside n (deps_of graph k) ≡ false
deps_of-inside n k [] h = refl
deps_of-inside n zero (deps ∷ rest) h = ground (arith, any_outside-append n deps (all_deps rest), h)
deps_of-inside n (suc k) (deps ∷ rest) h =
    deps_of-inside n k rest (ground (arith, any_outside-append n deps (all_deps rest), h))

all_deps-inside :
    (n : ℕ) (graph : Graph) (nodes : List ℕ)
    → any_outside n (all_deps graph) ≡ false
    → any_outside n (all_deps (map (λ src. deps_of graph src) nodes)) ≡ false
all_deps-inside n graph [] h = refl
all_deps-inside n graph (v ∷ nodes) h = ground (
  arith,
  any_outside-append n (deps_of graph v) (all_deps (map (λ src. deps_of graph src) nodes)),
  deps_of-inside n v graph h,
  all_deps-inside n graph nodes h,
)

length-AllOnce : (n : ℕ) (nodes : List ℕ) → AllOnce n nodes → length nodes ≡ n
length-AllOnce n nodes once = omega (
  arith,
  length-occurrences n nodes (λ i k. ground (arith, once i, k)),
  occurrences_at_most n nodes (λ i k. ground (arith, once i, k)),
  occurrences_at_least n nodes (λ i k. ground (arith, once i, k)),
)

positions_other :
    (i : ℕ) (rest pos : List ℕ) (d : ℕ)
    → occ d rest ≡ 0
    → get_or (positions i rest pos) d 0 ≡ get_or pos d 0
unfolding positions
positions_other i [] pos d h = refl
positions_other i (v ∷ rest) pos d h =
    positions_other (suc i) rest (set pos v i) d (omega arith)
    ∙ get_or-set_other 0 pos v d i (λ e. ground (arith, h, e))

length-map_nodes : (f : ℕ → List ℕ) (nodes : List ℕ) → length (map f nodes) ≡ length nodes
length-map_nodes f [] = refl
length-map_nodes f (v ∷ nodes) = ap suc (length-map_nodes f nodes)

-- Nothing is missing among the dependencies, so their positions are below a bound for what is
-- placed.
below :
    (i : ℕ) (placed deps pos : List ℕ)
    → missing placed deps ≡ 0
    → ((d : ℕ) → 1 ≤ occ d placed → get_or pos d 0 < i)
    → any_outside i (map (λ dep. get_or pos dep 0) deps) ≡ false
below i placed [] pos m h = refl
below i placed (d ∷ deps) pos m h = ground (arith, below i placed deps pos, h d, m)

module _ (sort_ints : List ℕ → List ℕ)
    (sorts : (a : ℕ) (xs : List ℕ) → occ a (sort_ints xs) ≡ occ a xs) where
  remap_node-below :
      (i : ℕ) (pos deps : List ℕ)
      → any_outside i (map (λ dep. get_or pos dep 0) deps) ≡ false
      → any_outside i (remap_node sort_ints pos deps) ≡ false
  unfolding remap_node
  remap_node-below i pos deps h =
      elim (Bool-cases (ltb 1 (length (map (λ dep. get_or pos dep 0) deps)))) [
        | inl e ↦ rw e (outside-occ i _ (λ d k. sorts d _ ∙ occ-outside i d _ h k))
        | inr e ↦ rw e h
      ]

  remap-Rising :
      (graph : Graph) (i : ℕ) (placed rest pos : List ℕ)
      → Ordered graph placed rest
      → ((d : ℕ) → occ d placed + occ d rest ≤ 1)
      → ((d : ℕ) → 1 ≤ occ d placed → get_or pos d 0 < i)
      → ((d : ℕ) → 1 ≤ occ d rest → d < length pos)
      → Rising i (map (λ src. remap_node sort_ints (positions i rest pos) (deps_of graph src)) rest)
  unfolding positions
  remap-Rising graph i placed [] pos o once h few = tt
  remap-Rising graph i placed (v ∷ rest) pos (free, o) once h few =
      let next : List ℕ = set pos v i in
      let final : List ℕ = positions (suc i) rest next in
      (
        remap_node-below i final (deps_of graph v) (
            below i placed (deps_of graph v) final free (λ d k.
              let new : occ d (v ∷ rest) ≡ 0 = omega (arith, once d, k) in
              omega (arith, positions_other i (v ∷ rest) pos d new, h d k))),
        remap-Rising graph (suc i) (v ∷ placed) rest next o (λ d. omega (arith, once d))
            (λ d k. elim (Bool-cases (v == d)) [
              | inl e ↦
                  let same : v ≡ d = ground (arith, e) in
                  omega (
                    arith,
                    ap (λ x. get_or (set pos v i) x 0) same,
                    get_or-set_same 0 pos v i (few v (omega (arith, bit-same v))),
                  )
              | inr e ↦
                  ground
                    (arith, e, h d, k, get_or-set_other 0 pos v d i (λ q. ground (arith, e, q)))
            ])
            (λ d k. omega (arith, few d (omega arith), length-set pos v i)),
      )

  -- If sort.Ints keeps how often each number occurs, the nodes of a graph with fewer than 2^64
  -- dependencies each can be numbered by an order that topoSort answers, without a panic, and in
  -- the remapped graph each node depends on nodes with smaller numbers only.
  pub remap_dependencies-Rising :
      (scratch : List ℕ) (graph : Graph) (nodes : List ℕ)
      → IsSmall graph
      → topo_sort scratch graph ≡ order nodes
      → (remapped : Graph) × (remap_dependencies sort_ints nodes graph ≡ some remapped)
        × (length remapped ≡ length graph)
        × Rising 0 remapped
  unfolding remap_dependencies
  remap_dependencies-Rising scratch graph nodes small h =
      let (ordered, once) = topo_sort_sound scratch graph nodes small h in
      let n : ℕ = length graph in
      let size : length nodes ≡ n = length-AllOnce n nodes once in
      let own : any_outside n nodes ≡ false =
        outside-occ n nodes (λ d k. ground (arith, once d, k)) in
      let deps : any_outside n (all_deps graph) ≡ false =
        sym (topo_sort_invalid scratch graph) ∙ ap is_invalid h in
      let fine : out_of_range nodes graph ≡ false =
        rw (size, own, all_deps-inside n graph nodes deps) refl in
      let pos : List ℕ = positions 0 nodes (replicate (length nodes) 0) in
      (
        map (λ src. remap_node sort_ints pos (deps_of graph src)) nodes,
        rw fine refl,
        length-map_nodes (λ src. remap_node sort_ints pos (deps_of graph src)) nodes ∙ size,
        remap-Rising graph 0 [] nodes (replicate (length nodes) 0) ordered
            (λ d. ground (arith, once d)) (λ d k. absurd (omega arith))
            (λ d k. ground (arith, once d, k, size, length-replicate (length nodes) zero)),
      )
