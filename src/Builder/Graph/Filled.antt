-- ===== src/Builder/Graph/Filled.antt =====
-- The cells of `adjData` behind the loop that fills them, whatever stood in them.
use forge_zero.Prelude.{
  ℕ, zero, suc, ◌+◌, ◌≤◌, ◌<◌, ◌≡◌, ◌≢◌, refl, sym, ap, subst, ◌∙◌, List, [], ◌∷◌, ◌++◌, arith,
  length, ◌==◌, if◌then◌else◌, Bool-cases, inl, inr, get_or, get_or-set_same, get_or-set_other,
  length-set, ltb,
}
use forge_zero.Builder.Graph.{Graph, Placed, place_edge, place_deps, place_edges}
use forge_zero.Builder.Graph.Count.{bit, bit-same}

-- A dependency and the node that has it.
abbrev pub Edge : Type 0
Edge = ℕ × ℕ

abbrev pub edges_of : ℕ → List ℕ → List Edge
edges_of i [] = []
edges_of i (d ∷ deps) = (d, i) ∷ edges_of i deps

abbrev pub edges : ℕ → Graph → List Edge
edges i [] = []
edges i (deps ∷ rest) = edges_of i deps ++ edges (suc i) rest

-- The nodes that depend on a node.
abbrev pub into : ℕ → List Edge → List ℕ
into v [] = []
into v ((d, i) ∷ rest) = if d == v then i ∷ into v rest else into v rest

abbrev pub place_all : List Edge → Placed → Placed
place_all [] p = p
place_all ((d, i) ∷ rest) p = place_all rest (place_edge i d p)

place_all-append :
    (xs ys : List Edge) (p : Placed) → place_all (xs ++ ys) p ≡ place_all ys (place_all xs p)
place_all-append [] ys p = refl
place_all-append ((d, i) ∷ xs) ys p = place_all-append xs ys (place_edge i d p)

place_deps-place_all :
    (i : ℕ) (deps : List ℕ) (p : Placed) → place_deps i deps p ≡ place_all (edges_of i deps) p
unfolding place_deps
place_deps-place_all i [] p = refl
place_deps-place_all i (d ∷ deps) p = place_deps-place_all i deps (place_edge i d p)

pub place_edges-place_all :
    (i : ℕ) (graph : Graph) (p : Placed) → place_edges i graph p ≡ place_all (edges i graph) p
unfolding place_edges
place_edges-place_all i [] p = refl
place_edges-place_all i (deps ∷ rest) p =
    place_edges-place_all (suc i) rest (place_deps i deps p)
    ∙ ap (place_all (edges (suc i) rest)) (place_deps-place_all i deps p)
    ∙ sym (place_all-append (edges_of i deps) (edges (suc i) rest) p)

-- Regions for the nodes below `n`, in rising order, with room for what is still to be placed.
pub record Room (n : ℕ) (low high : ℕ → ℕ) (left : List Edge) (p : Placed) : Type 0 where
  pub size : length p.adj_cursor ≡ n
  pub behind : (v : ℕ) → v < n → low v ≤ get_or p.adj_cursor v 0
  pub fits : (v : ℕ) → v < n → get_or p.adj_cursor v 0 + length (into v left) ≡ high v
  pub bound : (v : ℕ) → v < n → high v ≤ length p.adj_data
  pub rising : (v w : ℕ) → v < w → w < n → high v ≤ low w

abbrev pub AllInside : ℕ → List Edge → Type 0
AllInside n [] = Unit
AllInside n ((d, i) ∷ rest) = (d < n) × AllInside n rest

into-cons :
    (v d i : ℕ) (rest : List Edge)
    → length (into v ((d, i) ∷ rest)) ≡ bit d v + length (into v rest)
into-cons v d i rest = ground arith

module _ (n : ℕ) (low high : ℕ → ℕ) (d i : ℕ) (rest : List Edge) (p : Placed) (few : d < n)
    (room : Room n low high ((d, i) ∷ rest) p) where
  moved : (v : ℕ) → get_or (place_edge i d p).adj_cursor v 0 ≡ get_or p.adj_cursor v 0 + bit d v
  moved v = elim (Bool-cases (d == v)) [
    | inl e ↦
        let same : d ≡ v = ground (arith, e) in
        rw same (
          omega (
            arith,
            bit-same v,
            get_or-set_same 0 p.adj_cursor v (get_or p.adj_cursor v 0 + 1)
                (omega (arith, room.size, few)),
          ))
    | inr e ↦ ground (
      arith,
      e,
      get_or-set_other 0 p.adj_cursor d v (get_or p.adj_cursor d 0 + 1) (λ q. ground (arith, e, q)),
    )
  ]

  Room-step : Room n low high rest (place_edge i d p)
  Room-step = record {
    size = length-set p.adj_cursor d _ ∙ room.size;
    behind = λ v h. omega (arith, moved v, room.behind v h);
    fits = λ v h. omega (arith, moved v, room.fits v h, into-cons v d i rest);
    bound = λ v h. omega (arith, room.bound v h, length-set p.adj_data (get_or p.adj_cursor d 0) i);
    rising = room.rising;
  }

  -- A cell of the region of a node that is not the next one of this edge stays.
  kept :
      (v j : ℕ)
      → v < n
      → low v ≤ j
      → j < high v
      → j ≢ get_or p.adj_cursor d 0
      → get_or (place_edge i d p).adj_data j 0 ≡ get_or p.adj_data j 0
  kept v j h l k ne = get_or-set_other 0 p.adj_data (get_or p.adj_cursor d 0) j i (λ e. ne (sym e))

  next_in_region : get_or p.adj_cursor d 0 < high d
  next_in_region = omega (arith, room.fits d few, into-cons d d i rest, bit-same d)

  apart : (v j : ℕ) → v < n → low v ≤ j → j < high v → d ≢ v → j ≢ get_or p.adj_cursor d 0
  apart v j h l k ne e = elim (Bool-cases (ltb d v)) [
    | inl less ↦ omega (arith, room.rising d v (ground (arith, less)) h, next_in_region)
    | inr more ↦ omega (arith, room.rising v d (ground (arith, more, ne)) few, room.behind d few)
  ]

pub length-place_all :
    (left : List Edge) (p : Placed) → length (place_all left p).adj_data ≡ length p.adj_data
length-place_all [] p = refl
length-place_all ((d, i) ∷ rest) p =
    length-place_all rest (place_edge i d p) ∙ length-set p.adj_data (get_or p.adj_cursor d 0) i

module _ (n : ℕ) (low high : ℕ → ℕ) where
  -- In the region of a node, the cells in front of the next one stay.
  stays :
      (left : List Edge) (p : Placed) (v j : ℕ)
      → AllInside n left
      → Room n low high left p
      → v < n
      → low v ≤ j
      → j < get_or p.adj_cursor v 0
      → get_or (place_all left p).adj_data j 0 ≡ get_or p.adj_data j 0
  stays [] p v j a room h l k = refl
  stays ((d, i) ∷ rest) p v j (few, a) room h l k =
      let within : j < high v = omega (arith, room.fits v h) in
      stays rest (place_edge i d p) v j a (Room-step n low high d i rest p few room) h l
        (omega (arith, moved n low high d i rest p few room v))
      ∙ kept n low high d i rest p few room v j h l within (λ e. elim (Bool-cases (d == v)) [
        | inl q ↦
            let same : d ≡ v = ground (arith, q) in
            omega (arith, k, e, ap (λ x. get_or p.adj_cursor x 0) same)
        | inr q ↦ apart n low high d i rest p few room v j h l within (λ s. ground (arith, q, s)) e
      ])

  -- The next cell of a node is filled, and then those behind it.
  filled_same :
      (i : ℕ) (rest : List Edge) (p : Placed) (v j : ℕ)
      → AllInside n rest
      → Room n low high ((v, i) ∷ rest) p
      → v < n
      → ((k : ℕ)
          → k < length (into v rest)
          → get_or
              (place_all rest (place_edge i v p)).adj_data
              (get_or (place_edge i v p).adj_cursor v 0 + k)
              0
            ≡ get_or (into v rest) k 0)
      → j < suc (length (into v rest))
      → get_or (place_all rest (place_edge i v p)).adj_data (get_or p.adj_cursor v 0 + j) 0
        ≡ get_or (i ∷ into v rest) j 0
  filled_same i rest p v zero a room h more k =
      let at : ℕ = get_or p.adj_cursor v 0 in
      let e : at + 0 ≡ at = omega arith in
      rw e (
        stays rest (place_edge i v p) v at a (Room-step n low high v i rest p h room) h
          (room.behind v h) (omega (arith, moved n low high v i rest p h room v, bit-same v))
        ∙ get_or-set_same 0 p.adj_data at i
            (omega (arith, next_in_region n low high v i rest p h room, room.bound v h)))
  filled_same i rest p v (suc j) a room h more k =
      let e : get_or p.adj_cursor v 0 + suc j ≡ get_or (place_edge i v p).adj_cursor v 0 + j =
        omega (arith, moved n low high v i rest p h room v, bit-same v) in
      ap (λ x. get_or (place_all rest (place_edge i v p)).adj_data x 0) e ∙ more j (omega arith)

  -- The others are filled with the dependents of the node, in their order.
  pub filled :
      (left : List Edge) (p : Placed) (v j : ℕ)
      → AllInside n left
      → Room n low high left p
      → v < n
      → j < length (into v left)
      → get_or (place_all left p).adj_data (get_or p.adj_cursor v 0 + j) 0
        ≡ get_or (into v left) j 0
  filled [] p v j a room h k = absurd (omega arith)
  filled ((d, i) ∷ rest) p v j (few, a) room h k = elim (Bool-cases (d == v)) [
    | inl e ↦
        let same : d ≡ v = ground (arith, e) in
        let room' : Room n low high ((v, i) ∷ rest) p =
          subst (λ x. Room n low high ((x, i) ∷ rest) p) same room in
        rw e (
          ap
            (λ x.
              get_or (place_all rest (place_edge i x p)).adj_data (get_or p.adj_cursor v 0 + j) 0)
            same
          ∙ filled_same i rest p v j a room' h
              (λ k l.
                filled rest (place_edge i v p) v k a (Room-step n low high v i rest p h room') h l)
              (rw e at k))
    | inr e ↦
        let cell : get_or (place_edge i d p).adj_cursor v 0 ≡ get_or p.adj_cursor v 0 =
          ground (arith, e, moved n low high d i rest p few room v) in
        rw e (
          ap (λ x. get_or (place_all rest (place_edge i d p)).adj_data (x + j) 0) (sym cell)
          ∙ filled rest (place_edge i d p) v j a (Room-step n low high d i rest p few room) h
              (rw e at k))
  ]
