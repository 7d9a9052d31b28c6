-- ===== src/Builder/Graph/Order.antt =====
-- The loop over the queue: it ends, and puts each node behind its dependencies.
use forge_zero.Prelude.{
  ℕ, zero, suc, ◌+◌, ◌^◌, ◌≤◌, ◌<◌, ◌≡◌, refl, sym, ap, List, [], ◌∷◌, arith, length, ◌==◌, some,
  Bool-cases, inl, inr, get_or, ltb,
}
use forge_zero.Builder.Graph.{Graph, relax, put_first, visit}
use forge_zero.Builder.Graph.Count.{
  bit, occ, bit-same, occurrences, length-occurrences, occurrences_at_most,
}
use forge_zero.Builder.Graph.Relax.{missing, missing-step, relax_exact}

abbrev pub deps_of : Graph → ℕ → List ℕ
deps_of graph i = get_or graph i []

-- Every node of an order comes behind its dependencies, of which some are placed already.
abbrev pub Ordered : Graph → List ℕ → List ℕ → Type 0
Ordered graph placed [] = Unit
Ordered graph placed (v ∷ rest) =
    (missing placed (deps_of graph v) ≡ 0) × Ordered graph (v ∷ placed) rest

-- The nodes placed in the end.
abbrev pub grown : List ℕ → List ℕ → List ℕ
grown placed [] = placed
grown placed (v ∷ rest) = grown (v ∷ placed) rest

-- The dependents of a node, each as often as the node is among its dependencies.
abbrev pub IsAdjacency : Graph → (ℕ → List ℕ) → Type 0
IsAdjacency graph next = (v i : ℕ) → v < length graph → occ i (next v) ≡ occ v (deps_of graph i)

-- Between two rounds: each degree is the number of dependencies that are not placed, and a node is
-- placed or in the queue, once, exactly if its degree is 0.
pub record Invariant (graph : Graph) (placed degrees queue : List ℕ) : Type 0 where
  pub degree : (i : ℕ) → get_or degrees i 0 ≡ missing placed (deps_of graph i)
  pub ready : (i : ℕ) → i < length graph → occ i placed + occ i queue ≡ bit (get_or degrees i 0) 0
  pub inside : (i : ℕ) → length graph ≤ i → occ i placed + occ i queue ≡ 0
  pub small : (i : ℕ) → get_or degrees i 0 < 2 ^ 64

pub get_or-out {ℓ} : {A : Type ℓ} (xs : List A) (i : ℕ) (d : A) → length xs ≤ i → get_or xs i d ≡ d
get_or-out [] i d h = refl
get_or-out (x ∷ xs) zero d h = absurd (omega arith)
get_or-out (x ∷ xs) (suc i) d h = get_or-out xs i d (omega arith)

pub bit-bound : (a b : ℕ) → bit a b ≤ 1
bit-bound a b = ground arith

-- The first node of the queue has no dependency left, and is not placed.
module _ (graph : Graph) (placed degrees queue : List ℕ) (v : ℕ)
    (inv : Invariant graph placed degrees (v ∷ queue)) where
  first_inside : v < length graph
  first_inside = elim (Bool-cases (ltb v (length graph))) [
    | inl h ↦ ground (arith, h)
    | inr h ↦ absurd (omega (arith, inv.inside v (ground (arith, h)), bit-same v))
  ]

  first_new : (occ v placed ≡ 0) × (get_or degrees v 0 ≡ 0)
  first_new = ground (arith, inv.ready v first_inside, bit-same v)

  -- A round keeps the invariant.
  Invariant-step :
      (next : ℕ → List ℕ)
      → IsAdjacency graph next
      → Invariant graph
          (v ∷ placed)
          (relax (next v) degrees queue).0
          (relax (next v) degrees queue).1
  Invariant-step next adj =
      let step : (i : ℕ)
          → missing placed (deps_of graph i)
            ≡ missing (v ∷ placed) (deps_of graph i) + occ v (deps_of graph i) =
        λ i. missing-step v placed (deps_of graph i) first_new.0 in
      let exact : (i : ℕ) → _ =
        relax_exact (next v) degrees queue inv.small
          (λ i. omega (arith, adj v i first_inside, step i, inv.degree i)) in
      record {
        degree = λ i. omega (arith, (exact i).0, adj v i first_inside, step i, inv.degree i);
        ready = λ i h. omega (arith, (exact i).1, inv.ready i h);
        inside = λ i h.
            let same : get_or (relax (next v) degrees queue).0 i 0 ≡ get_or degrees i 0 =
              omega
                (arith, (exact i).0, inv.degree i, ap (missing placed) (get_or-out graph i [] h)) in
            omega (arith, (exact i).1, inv.inside i h, ap (λ d. bit d 0) same);
        small = λ i. omega (arith, (exact i).0, inv.small i);
      }

-- What the loop answers: an order of the nodes behind those that are placed, and in the end a node
-- is placed, once, exactly if all its dependencies are.
pub record Visited (graph : Graph) (placed rest : List ℕ) : Type 0 where
  pub ordered : Ordered graph placed rest
  pub ready :
      (i : ℕ)
      → i < length graph
      → occ i (grown placed rest) ≡ bit (missing (grown placed rest) (deps_of graph i)) 0
  pub inside : (i : ℕ) → length graph ≤ i → occ i (grown placed rest) ≡ 0

module _ (graph : Graph) (next : ℕ → List ℕ) (adj : IsAdjacency graph next) where
  -- With more fuel than there are nodes to place, the loop answers an order.
  pub visit_ends :
      (fuel : ℕ) (placed degrees queue : List ℕ)
      → Invariant graph placed degrees queue
      → length graph < fuel + length placed
      → (rest : List ℕ) × (visit fuel next degrees queue ≡ some rest) × Visited graph placed rest
  unfolding visit
  visit_ends zero placed degrees queue inv h =
      let size : length placed ≡ occurrences (length graph) placed =
        length-occurrences (length graph) placed (λ i k. omega (arith, inv.inside i k)) in
      let most : occurrences (length graph) placed ≤ length graph =
        occurrences_at_most (length graph) placed
          (λ i k. omega (arith, inv.ready i k, bit-bound (get_or degrees i 0) 0)) in
      absurd (omega (arith, size, most))
  visit_ends (suc fuel) placed degrees [] inv h = (
    [],
    refl,
    record {
      ordered = tt;
      ready = λ i k. rw (sym (inv.degree i)) (omega (arith, inv.ready i k));
      inside = λ i k. omega (arith, inv.inside i k);
    },
  )
  visit_ends (suc fuel) placed degrees (v ∷ queue) inv h =
      let (rest, e, done) =
        visit_ends fuel (v ∷ placed) (relax (next v) degrees queue).0
          (relax (next v) degrees queue).1
          (Invariant-step graph placed degrees queue v inv next adj) (omega arith) in
      (
        v ∷ rest,
        ap (put_first v) e,
        record {
          ordered = (
            omega (arith, inv.degree v, (first_new graph placed degrees queue v inv).1),
            done.ordered,
          );
          ready = done.ready;
          inside = done.inside;
        },
      )

pub grown-append :
    (placed rest : List ℕ) (i : ℕ) → occ i (grown placed rest) ≡ occ i placed + occ i rest
grown-append placed [] i = omega arith
grown-append placed (v ∷ rest) i = omega (arith, grown-append (v ∷ placed) rest i)

-- The nodes of an order whose dependencies are all placed are placed.
missing-fewer :
    (a b deps : List ℕ)
    → ((i : ℕ) → 1 ≤ occ i a → 1 ≤ occ i b)
    → missing a deps ≡ 0
    → missing b deps ≡ 0
missing-fewer a b [] h e = refl
missing-fewer a b (d ∷ deps) h e = ground (arith, h d, missing-fewer a b deps h)

pub Ordered-covered :
    (graph : Graph) (before nodes after : List ℕ)
    → Ordered graph before nodes
    → ((i : ℕ) → 1 ≤ occ i nodes → i < length graph)
    → ((i : ℕ) → 1 ≤ occ i before → 1 ≤ occ i after)
    → ((i : ℕ) → i < length graph → missing after (deps_of graph i) ≡ 0 → 1 ≤ occ i after)
    → (i : ℕ) → 1 ≤ occ i nodes
    → 1 ≤ occ i after
Ordered-covered graph before [] after o few h closed i k = absurd (omega arith)
Ordered-covered graph before (v ∷ nodes) after (free, o) few h closed i k =
    let placed : 1 ≤ occ v after =
      closed v (few v (omega (arith, bit-same v)))
        (missing-fewer before after (deps_of graph v) h free) in
    let grows : (j : ℕ) → 1 ≤ occ j (v ∷ before) → 1 ≤ occ j after = λ j l.
      elim (Bool-cases (j == v)) [
        | inl e ↦ let same : j ≡ v = ground (arith, e) in rw same placed
        | inr e ↦ h j (ground (arith, l, e))
      ] in
    elim (Bool-cases (i == v)) [
      | inl e ↦ let same : i ≡ v = ground (arith, e) in rw same placed
      | inr e ↦
          Ordered-covered graph (v ∷ before) nodes after o (λ j l. few j (omega arith)) grows closed
            i (ground (arith, k, e))
    ]
