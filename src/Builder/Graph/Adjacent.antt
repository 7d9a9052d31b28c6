-- ===== src/Builder/Graph/Adjacent.antt =====
-- The cells of `adjData` for a node are its dependents.
use forge_zero.Prelude.{
  ℕ, zero, suc, ◌+◌, ◌-◌, ◌*◌, ◌≤◌, ◌<◌, ◌≡◌, refl, sym, ap, ◌∙◌, List, [], ◌∷◌, ◌++◌, arith,
  length, ◌==◌, some, Bool-cases, inl, inr, get_or, take, drop, ltb, length-append, length-take,
  length-replicate, replicate,
}
use forge_zero.Builder.Graph.{
  Graph, Placed, place_edges, count_edges, sums, dependents, adjacency, ensure_int_len, total_edges,
}
use forge_zero.Builder.Graph.Count.{bit, occ, occ-append, bit-same, occurrences, length-occurrences}
use forge_zero.Builder.Graph.Counts.{
  all_deps, total_edges-length, Counted, count_edges-Counted, length-sums, position,
}
use forge_zero.Builder.Graph.Filled.{
  Edge, edges_of, edges, into, place_all, place_edges-place_all, Room, AllInside, length-place_all,
  filled,
}
use forge_zero.Builder.Graph.Order.{IsAdjacency}

-- A part of a list that agrees with another list is that list.
slice :
    (xs ys : List ℕ) (at : ℕ)
    → at + length ys ≤ length xs
    → ((j : ℕ) → j < length ys → get_or xs (at + j) 0 ≡ get_or ys j 0)
    → take (length ys) (drop at xs) ≡ ys
slice xs [] zero h e = refl
slice [] (y ∷ ys) zero h e = absurd (omega arith)
slice (x ∷ xs) (y ∷ ys) zero h e =
    let first : x ≡ y = e 0 (omega arith) in
    let rest : take (length ys) xs ≡ ys = slice xs ys zero (omega arith) (λ j k.
      let e1 : 0 + suc j ≡ suc (0 + j) = omega arith in rw e1 at (e (suc j) (omega arith))) in
    rw (first, rest) refl
slice [] ys (suc at) h e = absurd (omega arith)
slice (x ∷ xs) ys (suc at) h e =
    slice xs ys at (omega arith)
      (λ j k. let e1 : suc at + j ≡ suc (at + j) = omega arith in rw e1 at (e j k))

slice_of :
    (xs ys : List ℕ) (at m : ℕ)
    → m ≡ length ys
    → at + length ys ≤ length xs
    → ((j : ℕ) → j < length ys → get_or xs (at + j) 0 ≡ get_or ys j 0)
    → take m (drop at xs) ≡ ys
slice_of xs ys at m size h e = rw size (slice xs ys at h e)

into-append : (v : ℕ) (xs ys : List Edge) → into v (xs ++ ys) ≡ into v xs ++ into v ys
into-append v [] ys = refl
into-append v ((d, i) ∷ xs) ys = elim (Bool-cases (d == v)) [
  | inl e ↦ rw e (ap (λ l. i ∷ l) (into-append v xs ys))
  | inr e ↦ rw e (into-append v xs ys)
]

occ-edges_of : (v i k : ℕ) (deps : List ℕ) → occ k (into v (edges_of i deps)) ≡ bit k i * occ v deps
occ-edges_of v i k [] = omega arith
occ-edges_of v i k (d ∷ deps) = elim (Bool-cases (d == v)) [
  | inl e ↦ rw e (ground (arith, e, occ-edges_of v i k deps))
  | inr e ↦ rw e (ground (arith, e, occ-edges_of v i k deps))
]

length-edges_of : (v i : ℕ) (deps : List ℕ) → length (into v (edges_of i deps)) ≡ occ v deps
length-edges_of v i [] = refl
length-edges_of v i (d ∷ deps) = elim (Bool-cases (d == v)) [
  | inl e ↦ rw e (ground (arith, e, length-edges_of v i deps))
  | inr e ↦ rw e (ground (arith, e, length-edges_of v i deps))
]

length-into : (v i : ℕ) (graph : Graph) → length (into v (edges i graph)) ≡ occ v (all_deps graph)
length-into v i [] = refl
length-into v i (deps ∷ rest) =
    ap length (into-append v (edges_of i deps) (edges (suc i) rest))
    ∙ omega (
      arith,
      length-append (into v (edges_of i deps)) (into v (edges (suc i) rest)),
      length-edges_of v i deps,
      length-into v (suc i) rest,
      occ-append v deps (all_deps rest),
    )

occ-into_below : (v i k : ℕ) (graph : Graph) → k < i → occ k (into v (edges i graph)) ≡ 0
occ-into_below v i k [] h = refl
occ-into_below v i k (deps ∷ rest) h =
    ap (occ k) (into-append v (edges_of i deps) (edges (suc i) rest))
    ∙ ground (
      arith,
      occ-append k (into v (edges_of i deps)) (into v (edges (suc i) rest)),
      occ-edges_of v i k deps,
      occ-into_below v (suc i) k rest,
    )

-- A node stands among the dependents of another as often as that one among its dependencies.
occ-into :
    (v i k : ℕ) (graph : Graph) → occ (i + k) (into v (edges i graph)) ≡ occ v (get_or graph k [])
occ-into v i k [] = refl
occ-into v i zero (deps ∷ rest) =
    let e : i + 0 ≡ i = omega arith in
    rw e (
      ap (occ i) (into-append v (edges_of i deps) (edges (suc i) rest))
      ∙ omega (
        arith,
        occ-append i (into v (edges_of i deps)) (into v (edges (suc i) rest)),
        rw (bit-same i) at (occ-edges_of v i i deps),
        occ-into_below v (suc i) i rest (omega arith),
      ))
occ-into v i (suc k) (deps ∷ rest) =
    let e : i + suc k ≡ suc i + k = omega arith in
    rw e (
      ap (occ (suc i + k)) (into-append v (edges_of i deps) (edges (suc i) rest))
      ∙ ground (
        arith,
        occ-append (suc i + k) (into v (edges_of i deps)) (into v (edges (suc i) rest)),
        occ-edges_of v i (suc i + k) deps,
        occ-into v (suc i) k rest,
      ))

AllInside-append :
    (n : ℕ) (xs ys : List Edge) → AllInside n xs → AllInside n ys → AllInside n (xs ++ ys)
AllInside-append n [] ys h k = k
AllInside-append n ((d, i) ∷ xs) ys (few, h) k = (few, AllInside-append n xs ys h k)

first_few : (n d : ℕ) (deps : List ℕ) → ((v : ℕ) → n ≤ v → occ v (d ∷ deps) ≡ 0) → d < n
first_few n d deps h = elim (Bool-cases (ltb d n)) [
  | inl e ↦ ground (arith, e)
  | inr e ↦ absurd (omega (arith, h d (ground (arith, e)), bit-same d))
]

AllInside-edges_of :
    (n i : ℕ) (deps : List ℕ) → ((v : ℕ) → n ≤ v → occ v deps ≡ 0) → AllInside n (edges_of i deps)
AllInside-edges_of n i [] h = tt
AllInside-edges_of n i (d ∷ deps) h =
    (first_few n d deps h, AllInside-edges_of n i deps (λ v k. omega (arith, h v k)))

AllInside-edges :
    (n i : ℕ) (graph : Graph)
    → ((v : ℕ) → n ≤ v → occ v (all_deps graph) ≡ 0)
    → AllInside n (edges i graph)
AllInside-edges n i [] h = tt
AllInside-edges n i (deps ∷ rest) h =
    AllInside-append n (edges_of i deps) (edges (suc i) rest)
      (AllInside-edges_of n i deps (λ v k. omega (arith, h v k, occ-append v deps (all_deps rest))))
      (AllInside-edges n (suc i) rest
        (λ v k. omega (arith, h v k, occ-append v deps (all_deps rest))))

length-ensure_int_len : (slice : List ℕ) (n : ℕ) → length (ensure_int_len slice n) ≡ n
unfolding ensure_int_len
length-ensure_int_len slice n = elim (Bool-cases (ltb (length slice) n)) [
  | inl e ↦ rw e (length-replicate n zero)
  | inr e ↦ rw e (ground (arith, e, length-take n slice))
]

get_or-take : (n k : ℕ) (xs : List ℕ) → k < n → get_or (take n xs) k 0 ≡ get_or xs k 0
get_or-take zero k xs h = absurd (omega arith)
get_or-take (suc n) k [] h = refl
get_or-take (suc n) zero (x ∷ xs) h = refl
get_or-take (suc n) (suc k) (x ∷ xs) h = get_or-take n k xs (omega arith)

occurrences_rise : (v w : ℕ) (xs : List ℕ) → v ≤ w → occurrences v xs ≤ occurrences w xs
occurrences_rise v zero xs h = let e : v ≡ 0 = omega arith in rw e (omega arith)
occurrences_rise v (suc w) xs h = elim (Bool-cases (v == suc w)) [
  | inl e ↦ let same : v ≡ suc w = ground (arith, e) in rw same (omega arith)
  | inr e ↦ omega (arith, occurrences_rise v w xs (ground (arith, e)))
]

-- Whatever was in the scratch slice, the loops give each node its dependents.
pub adjacency-IsAdjacency :
    (scratch : List ℕ) (graph : Graph) (counts : List ℕ)
    → count_edges (length graph) graph (replicate (suc (length graph)) 0) ≡ some counts
    → IsAdjacency graph (adjacency scratch graph counts)
unfolding adjacency
adjacency-IsAdjacency scratch graph counts h v i few =
    let n : ℕ = length graph in
    let all : List ℕ = all_deps graph in
    let index : List ℕ = sums 0 counts in
    let p : Placed = record {
      adj_cursor = take n index;
      adj_data = ensure_int_len scratch (total_edges graph);
    } in
    let c : Counted n all (replicate (suc n) 0) counts =
      count_edges-Counted n graph _ counts (length-replicate (suc n) zero) h in
    let cells : length p.adj_data ≡ occurrences n all =
      length-ensure_int_len scratch (total_edges graph)
      ∙ total_edges-length graph
      ∙ length-occurrences n all c.inside in
    let start : (w : ℕ) → w < n → get_or p.adj_cursor w 0 ≡ occurrences w all =
      λ w k. get_or-take n w index k ∙ position n graph counts w h (omega arith) in
    let room : Room n (λ w. occurrences w all) (λ w. occurrences (suc w) all) (edges 0 graph) p =
      record {
        size = omega (
          arith,
          length-take n index,
          length-sums 0 counts,
          c.same,
          length-replicate (suc n) zero,
        );
        behind = λ w k. omega (arith, start w k);
        fits = λ w k. omega (arith, start w k, length-into w 0 graph);
        bound = λ w k. omega (arith, cells, occurrences_rise (suc w) n all (omega arith));
        rising = λ w x k l. occurrences_rise (suc w) x all (omega arith);
      } in
    let inside : AllInside n (edges 0 graph) = AllInside-edges n 0 graph c.inside in
    let placed : place_edges 0 graph p ≡ place_all (edges 0 graph) p =
      place_edges-place_all 0 graph p in
    let same_start : get_or p.adj_cursor v 0 ≡ get_or index v 0 = get_or-take n v index few in
    let size : get_or index (suc v) 0 - get_or index v 0 ≡ length (into v (edges 0 graph)) = omega (
      arith,
      position n graph counts v h (omega arith),
      position n graph counts (suc v) h (omega arith),
      length-into v 0 graph,
    ) in
    let cell : (j : ℕ)
        → j < length (into v (edges 0 graph))
        → get_or (place_all (edges 0 graph) p).adj_data (get_or index v 0 + j) 0
          ≡ get_or (into v (edges 0 graph)) j 0 =
      λ j k.
        ap (λ a. get_or (place_all (edges 0 graph) p).adj_data (a + j) 0) (sym same_start)
        ∙ filled n _ _ (edges 0 graph) p v j inside room few k in
    let fits : get_or index v 0 + length (into v (edges 0 graph))
        ≤ length (place_all (edges 0 graph) p).adj_data =
      omega (
        arith,
        length-place_all (edges 0 graph) p,
        room.bound v few,
        room.fits v few,
        same_start,
      ) in
    ap (λ q. occ i (dependents index q.adj_data v)) placed
    ∙ ap (occ i) (slice_of _ _ (get_or index v 0) _ size fits cell)
    ∙ ap (λ k. occ k (into v (edges 0 graph))) (omega arith)
    ∙ occ-into v 0 i graph
