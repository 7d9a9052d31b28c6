-- ===== src/Builder/Graph/Counts.antt =====
-- The positions that are made from the counts of the dependencies.
use forge_zero.Prelude.{
  ℕ, zero, suc, ◌+◌, ◌≤◌, ◌<◌, ◌≡◌, refl, sym, ap, ◌∙◌, List, [], ◌∷◌, ◌++◌, arith, length, ◌==◌,
  false, some, Bool-cases, Option-cases, inl, inr, get_or, set, get_or-set_same, get_or-set_other,
  length-set, leb, length-append, replicate, length-replicate,
}
use forge_zero.Builder.Graph.{Graph, count_deps, count_edges, sums, total_edges}
use forge_zero.Builder.Graph.Count.{occ, occ-append, bit-same, occurrences}

-- The dependencies of all nodes.
abbrev pub all_deps : Graph → List ℕ
all_deps [] = []
all_deps (deps ∷ rest) = deps ++ all_deps rest

pub total_edges-length : (graph : Graph) → total_edges graph ≡ length (all_deps graph)
unfolding total_edges
total_edges-length [] = refl
total_edges-length (deps ∷ rest) =
    omega (arith, total_edges-length rest, length-append deps (all_deps rest))

-- Counts that have grown by the occurrences of numbers below `n`.
pub record Counted (n : ℕ) (deps index index' : List ℕ) : Type 0 where
  pub same : length index' ≡ length index
  pub start : get_or index' 0 0 ≡ get_or index 0 0
  pub grown : (v : ℕ) → v < n → get_or index' (suc v) 0 ≡ get_or index (suc v) 0 + occ v deps
  pub inside : (v : ℕ) → n ≤ v → occ v deps ≡ 0

Counted-append :
    (n : ℕ) (xs ys a b c : List ℕ) → Counted n xs a b → Counted n ys b c → Counted n (xs ++ ys) a c
Counted-append n xs ys a b c f g = record {
  same = g.same ∙ f.same;
  start = g.start ∙ f.start;
  grown = λ v h. omega (arith, f.grown v h, g.grown v h, occ-append v xs ys);
  inside = λ v h. omega (arith, f.inside v h, g.inside v h, occ-append v xs ys);
}

Counted-one :
    (n dep : ℕ) (index : List ℕ)
    → leb n dep ≡ false
    → length index ≡ suc n
    → Counted n (dep ∷ []) index (set index (suc dep) (get_or index (suc dep) 0 + 1))
Counted-one n dep index h l =
    let few : dep < n = ground (arith, h) in
    record {
      same = length-set index (suc dep) _;
      start = get_or-set_other 0 index (suc dep) 0 _ (λ e. omega (arith, e));
      grown = λ v k. elim (Bool-cases (v == dep)) [
        | inl e ↦
            let same : v ≡ dep = ground (arith, e) in
            rw same (
              omega (
                arith,
                bit-same dep,
                get_or-set_same 0 index (suc dep) (get_or index (suc dep) 0 + 1) (omega arith),
              ))
        | inr e ↦ ground (
          arith,
          e,
          get_or-set_other 0 index (suc dep) (suc v) (get_or index (suc dep) 0 + 1)
              (λ q. ground (arith, e, q)),
        )
      ];
      inside = λ v k. ground (arith, few, k);
    }

count_deps-Counted :
    (n : ℕ) (deps index index' : List ℕ)
    → length index ≡ suc n
    → count_deps n deps index ≡ some index'
    → Counted n deps index index'
unfolding count_deps
count_deps-Counted n [] index index' l h =
    let e : index ≡ index' = ground (arith, h) in
    rw (sym e)
      (record { same = refl; start = refl; grown = λ v k. omega arith; inside = λ v k. refl })
count_deps-Counted n (dep ∷ rest) index index' l h = elim (Bool-cases (leb n dep)) [
  | inl e ↦ absurd (ground (arith, e, h))
  | inr e ↦
      let one : List ℕ = set index (suc dep) (get_or index (suc dep) 0 + 1) in
      Counted-append n (dep ∷ []) rest index one index' (Counted-one n dep index e l)
        (count_deps-Counted n rest one index' (length-set index (suc dep) _ ∙ l) (rw e at h))
]

pub count_edges-Counted :
    (n : ℕ) (graph : Graph) (index index' : List ℕ)
    → length index ≡ suc n
    → count_edges n graph index ≡ some index'
    → Counted n (all_deps graph) index index'
unfolding count_edges
count_edges-Counted n [] index index' l h =
    let e : index ≡ index' = ground (arith, h) in
    rw (sym e)
      (record { same = refl; start = refl; grown = λ v k. omega arith; inside = λ v k. refl })
count_edges-Counted n (deps ∷ rest) index index' l h =
    elim (Option-cases (count_deps n deps index)) [
      | inl e ↦ absurd (ground (arith, rw (e, count_edges) at h))
      | inr (one, e) ↦
          let first : Counted n deps index one = count_deps-Counted n deps index one l e in
          Counted-append n deps (all_deps rest) index one index' first
            (count_edges-Counted n rest one index' (first.same ∙ l) (rw (e, count_edges) at h))
    ]

sums-suc :
    (before : ℕ) (xs : List ℕ) (k : ℕ)
    → suc k < length xs
    → get_or (sums before xs) (suc k) 0 ≡ get_or (sums before xs) k 0 + get_or xs (suc k) 0
unfolding sums
sums-suc before [] k h = absurd (omega arith)
sums-suc before (x ∷ []) k h = absurd (omega arith)
sums-suc before (x ∷ y ∷ xs) zero h = refl
sums-suc before (x ∷ y ∷ xs) (suc k) h = sums-suc (before + x) (y ∷ xs) k (omega arith)

sums-zero : (xs : List ℕ) → get_or (sums 0 xs) 0 0 ≡ get_or xs 0 0
unfolding sums
sums-zero [] = refl
sums-zero (x ∷ xs) = omega arith

pub length-sums : (before : ℕ) (xs : List ℕ) → length (sums before xs) ≡ length xs
unfolding sums
length-sums before [] = refl
length-sums before (x ∷ xs) = ap suc (length-sums (before + x) xs)

get_or-replicate : (n k z : ℕ) → get_or (replicate n z) k z ≡ z
get_or-replicate zero k z = refl
get_or-replicate (suc n) zero z = refl
get_or-replicate (suc n) (suc k) z = get_or-replicate n k z

-- The position of a node is the number of dependencies on the nodes in front of it.
pub position :
    (n : ℕ) (graph : Graph) (counts : List ℕ) (v : ℕ)
    → count_edges n graph (replicate (suc n) 0) ≡ some counts
    → v ≤ n
    → get_or (sums 0 counts) v 0 ≡ occurrences v (all_deps graph)
position n graph counts zero h k =
    let c : Counted n (all_deps graph) (replicate (suc n) 0) counts =
      count_edges-Counted n graph _ counts (length-replicate (suc n) zero) h in
    sums-zero counts ∙ c.start
position n graph counts (suc v) h k =
    let c : Counted n (all_deps graph) (replicate (suc n) 0) counts =
      count_edges-Counted n graph _ counts (length-replicate (suc n) zero) h in
    omega (
      arith,
      sums-suc 0 counts v (omega (arith, c.same, length-replicate (suc n) zero)),
      c.grown v (omega arith),
      get_or-replicate (suc n) (suc v) 0,
      position n graph counts v h (omega arith),
    )
