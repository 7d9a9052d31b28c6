-- ===== src/Builder/Dag/Starts.antt =====
-- When the tasks of a build start.
use forge_zero.Prelude.{
  ℕ, zero, suc, ◌+◌, ◌*◌, ◌^◌, ◌≤◌, ◌<◌, ◌≡◌, refl, sym, ap, ◌∙◌, List, [], ◌∷◌, ◌++◌, arith,
  length, some, get_or, set, replicate, length-replicate, length-set, get_or-set_same,
  get_or-set_other, ltb, leb, ◌==◌, Bool-cases, Option-cases, inl, inr,
}
use forge_zero.Builder.Graph.{Graph}
use forge_zero.Builder.Graph.Count.{bit, occ, occ-append, bit-same}
use forge_zero.Builder.Graph.Relax.{missing}
use forge_zero.Builder.Graph.Order.{deps_of, IsAdjacency}
use forge_zero.Builder.Dag.{Build, add_dependent, add_dependents, start, Steps}
use forge_zero.Builder.Dag.Safe.{Safe}
use forge_zero.Builder.Dag.Keeps.{Safe-Steps, Safe-start}

one_added :
    (dep i v k : ℕ) (table : Graph)
    → dep < length table
    → occ k (get_or (set table dep (get_or table dep [] ++ i ∷ [])) v [])
      ≡ occ k (get_or table v []) + bit k i * bit v dep
one_added dep i v k table h = elim (Bool-cases (v == dep)) [
  | inl e ↦
      let same : v ≡ dep = ground (arith, e) in
      rw (same, get_or-set_same [] table dep (get_or table dep [] ++ i ∷ []) h, bit-same dep)
        (omega (arith, occ-append k (get_or table dep []) (i ∷ [])))
  | inr e ↦
      let other : bit v dep ≡ 0 = ground (arith, e) in
      rw
        (
          get_or-set_other [] table dep v (get_or table dep [] ++ i ∷ [])
              (λ q. ground (arith, e, q)),
          other,
        )
        (omega arith)
]

-- The dependents that a node adds.
add_dependent-occ :
    (n i v k : ℕ) (deps : List ℕ) (table table' : Graph)
    → length table ≡ n
    → add_dependent n i deps table ≡ some table'
    → (length table' ≡ n)
      × (occ k (get_or table' v []) ≡ occ k (get_or table v []) + bit k i * occ v deps)
unfolding add_dependent
add_dependent-occ n i v k [] table table' l h =
    let e : table ≡ table' = ground (arith, h) in rw (sym e) (l, omega arith)
add_dependent-occ n i v k (dep ∷ rest) table table' l h = elim (Bool-cases (leb n dep)) [
  | inl e ↦ absurd (ground (arith, e, h))
  | inr e ↦
      let one : Graph = set table dep (get_or table dep [] ++ i ∷ []) in
      let (same, more) =
        add_dependent-occ n i v k rest one table' (length-set table dep _ ∙ l) (rw e at h) in
      (same, ground (arith, more, one_added dep i v k table (ground (arith, e, l))))
]

next_node :
    (i k v : ℕ) (deps : List ℕ) (rest : Graph) (new mid old : ℕ → ℕ)
    → ((j : ℕ) → j < suc i → new j ≡ mid j)
    → ((j : ℕ) → new (suc i + j) ≡ mid (suc i + j) + occ v (deps_of rest j))
    → ((j : ℕ) → mid j ≡ old j + bit j i * occ v deps)
    → new (i + k) ≡ old (i + k) + occ v (deps_of (deps ∷ rest) k)
next_node i zero v deps rest new mid old below above same =
    let e : i + 0 ≡ i = omega arith in
    let here : mid i ≡ old i + occ v deps =
      same i ∙ ap (λ b. old i + b) (rw (bit-same i) (omega arith)) in
    rw e (below i (omega arith) ∙ here)
next_node i (suc k) v deps rest new mid old below above same =
    let e : i + suc k ≡ suc i + k = omega arith in
    let other : bit (suc i + k) i ≡ 0 = ground arith in
    let kept : mid (suc i + k) ≡ old (suc i + k) = same (suc i + k) ∙ rw other (omega arith) in
    rw e (above k ∙ ap (λ m. m + occ v (deps_of rest k)) kept)

-- The nodes from `i` on add themselves to the dependents of their dependencies, and the others not.
add_dependents-occ :
    (n i v : ℕ) (graph table table' : Graph)
    → length table ≡ n
    → add_dependents n i graph table ≡ some table'
    → ((k : ℕ) → k < i → occ k (get_or table' v []) ≡ occ k (get_or table v []))
      × ((k : ℕ)
          → occ (i + k) (get_or table' v [])
            ≡ occ (i + k) (get_or table v []) + occ v (deps_of graph k))
unfolding add_dependents
add_dependents-occ n i v [] table table' l h =
    let e : table ≡ table' = ground (arith, h) in rw (sym e) (λ k few. refl, λ k. omega arith)
add_dependents-occ n i v (deps ∷ rest) table table' l h =
    elim (Option-cases (add_dependent n i deps table)) [
      | inl e ↦ absurd (ground (arith, rw (e, add_dependents) at h))
      | inr (one, e) ↦
          let made : add_dependents n (suc i) rest one ≡ some table' =
            elim (Bool-cases (ltb n (length deps))) [
              | inl q ↦ absurd (ground (arith, q, rw (e, add_dependents) at h))
              | inr q ↦ ground (arith, q, rw (e, add_dependents) at h)
            ] in
          let same : (k : ℕ)
              → occ k (get_or one v []) ≡ occ k (get_or table v []) + bit k i * occ v deps =
            λ k. (add_dependent-occ n i v k deps table one l e).1 in
          let (below, above) =
            add_dependents-occ n (suc i) v rest one table'
              (add_dependent-occ n i v 0 deps table one l e).0 made in
          (
            λ k few. ground (arith, below k, same k, few),
            λ k.
                next_node i k v deps rest (λ j. occ j (get_or table' v []))
                  (λ j. occ j (get_or one v [])) (λ j. occ j (get_or table v [])) below above same,
          )
    ]

abbrev pub no_dependents : ℕ → Graph
no_dependents n = replicate n []

nothing : (n v k : ℕ) → occ k (get_or (no_dependents n) v []) ≡ 0
nothing zero v k = refl
nothing (suc n) zero k = refl
nothing (suc n) (suc v) k = nothing n v k

pub add_dependents-IsAdjacency :
    (graph table : Graph)
    → add_dependents (length graph) 0 graph (no_dependents (length graph)) ≡ some table
    → IsAdjacency graph (λ v. get_or table v [])
add_dependents-IsAdjacency graph table h v i few =
    let (below, above) =
      add_dependents-occ (length graph) 0 v graph (no_dependents (length graph)) table
        (length-replicate (length graph) _) h in
    let e : 0 + i ≡ i = omega arith in rw e at (above i) ∙ omega (arith, nothing (length graph) v i)

-- In a graph that runDAGBuild takes, with fewer than 2^63 dependencies for each node, whatever
-- the order of the steps and the outcomes of the builds: a node that is scheduled is a node of
-- the graph, is scheduled once, and all its dependencies have been built.
pub run_dag_starts :
    (graph table : Graph) (s : Build) (v : ℕ)
    → ((i : ℕ) → length (deps_of graph i) < 2 ^ 63)
    → add_dependents (length graph) 0 graph (no_dependents (length graph)) ≡ some table
    → Steps (length graph) (λ i. get_or table i []) (start graph) s
    → 1 ≤ occ v s.scheduled
    → (v < length graph) × (occ v s.scheduled ≡ 1) × (missing s.completed (deps_of graph v) ≡ 0)
run_dag_starts graph table s v small h steps k =
    let safe : Safe graph s =
      Safe-Steps graph (λ i. get_or table i []) (add_dependents-IsAdjacency graph table h) steps
        (Safe-start graph small) in
    (safe.inside v k, omega (arith, safe.unique v), safe.behind_deps v k)
