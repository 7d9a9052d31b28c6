-- ===== src/Linker/Layout/Order.antt =====
-- The exchange sort of `collectSectionsForRegion`.
use mathlib.Core.List.{Perm}
use mathlib.Core.List.Perm
use forge_zero.Prelude.{
  ℕ, zero, suc, ◌≤◌, ◌≡◌, refl, List, [], ◌∷◌, true, false, arith, length, All, ltb, Bool-cases,
  inl, inr,
}
use forge_zero.Linker.Layout.{
  SectionLayout, Region, exchange, exchange_sort, select, collect_sections_for_region, belongs,
}

abbrev pub Below : SectionLayout → SectionLayout → Type 0
Below m s = m.origin ≤ s.origin

-- The origins do not fall.
abbrev pub IsSorted : List SectionLayout → Type 0
IsSorted [] = Unit
IsSorted (s ∷ rest) = All (Below s) rest × IsSorted rest

pub record Exchanged (x : SectionLayout) (l : List SectionLayout)
    (r : SectionLayout × List SectionLayout) : Type 0 where
  pub least : Below r.0 x × All (Below r.0) r.1
  pub same_length : length r.1 ≡ length l
  pub perm : Perm (r.0 ∷ r.1) (x ∷ l)

module _ (x y : SectionLayout) (ys : List SectionLayout) where
  exchange_less :
      ltb y.origin x.origin ≡ true
      → exchange x (y ∷ ys) ≡ ((exchange y ys).0, x ∷ (exchange y ys).1)
  unfolding exchange
  exchange_less h = rw h

  exchange_more :
      ltb y.origin x.origin ≡ false
      → exchange x (y ∷ ys) ≡ ((exchange x ys).0, y ∷ (exchange x ys).1)
  unfolding exchange
  exchange_more h = rw h

exchange-Exchanged : (x : SectionLayout) (l : List SectionLayout) → Exchanged x l (exchange x l)
exchange-Exchanged x [] =
    unfold exchange in
    record { least = (omega arith, tt); same_length = refl; perm = Perm.refl (x ∷ []) }
exchange-Exchanged x (y ∷ ys) = elim (Bool-cases (ltb y.origin x.origin)) [
  | inl less ↦
      let e : Exchanged y ys (exchange y ys) = exchange-Exchanged y ys in
      let lower : Below (exchange y ys).0 x = ground (arith, e.least.0) in
      rw (exchange_less x y ys less) (record {
        least = (lower, (lower, e.least.1));
        same_length = omega (arith, e.same_length);
        perm = Perm.trans (Perm.swap x (exchange y ys).0 (exchange y ys).1) (Perm.cons x e.perm);
      })
  | inr more ↦
      let e : Exchanged x ys (exchange x ys) = exchange-Exchanged x ys in
      let lower : Below (exchange x ys).0 y = ground (arith, e.least.0) in
      rw (exchange_more x y ys more) (record {
        least = (e.least.0, (lower, e.least.1));
        same_length = omega (arith, e.same_length);
        perm =
            Perm.trans (Perm.swap y (exchange x ys).0 (exchange x ys).1)
              (Perm.trans (Perm.cons y e.perm) (Perm.swap x y ys));
      })
]

module _ (P : SectionLayout → Type 0) where
  All-exchange :
      (x : SectionLayout) (l : List SectionLayout)
      → P x
      → All P l
      → P (exchange x l).0 × All P (exchange x l).1
  unfolding exchange
  All-exchange x [] h hs = (h, tt)
  All-exchange x (y ∷ ys) h (hy, hs) =
      let a : P (exchange y ys).0 × All P (exchange y ys).1 = All-exchange y ys hy hs in
      let b : P (exchange x ys).0 × All P (exchange x ys).1 = All-exchange x ys h hs in
      elim (Bool-cases (ltb y.origin x.origin)) [
        | inl less ↦ rw less (a.0, (h, a.1))
        | inr more ↦ rw more (b.0, (hy, b.1))
      ]

  pub All-exchange_sort : (n : ℕ) (l : List SectionLayout) → All P l → All P (exchange_sort n l)
  unfolding exchange_sort
  All-exchange_sort zero l h = h
  All-exchange_sort (suc n) [] h = tt
  All-exchange_sort (suc n) (x ∷ xs) (h, hs) =
      let (first, others) = All-exchange x xs h hs in
      (first, All-exchange_sort n (exchange x xs).1 others)

  All-select : (region : Region) (l : List SectionLayout) → All P l → All P (select region l)
  unfolding select
  All-select region [] h = tt
  All-select region (s ∷ rest) (h, hs) = elim (Bool-cases (belongs region s)) [
    | inl b ↦ rw b (h, All-select region rest hs)
    | inr b ↦ rw b (All-select region rest hs)
  ]

  -- A property of the layout's sections holds of those that are collected.
  pub All-collect :
      (region : Region) (l : List SectionLayout)
      → All P l
      → All P (collect_sections_for_region region l)
  unfolding collect_sections_for_region
  All-collect region l h =
      All-exchange_sort (length (select region l)) (select region l) (All-select region l h)

exchange_sort-IsSorted :
    (n : ℕ) (l : List SectionLayout) → length l ≤ n → IsSorted (exchange_sort n l)
unfolding exchange_sort
exchange_sort-IsSorted zero [] h = tt
exchange_sort-IsSorted zero (x ∷ xs) h = absurd (omega arith)
exchange_sort-IsSorted (suc n) [] h = tt
exchange_sort-IsSorted (suc n) (x ∷ xs) h =
    let e : Exchanged x xs (exchange x xs) = exchange-Exchanged x xs in
    (
      All-exchange_sort (Below (exchange x xs).0) n (exchange x xs).1 e.least.1,
      exchange_sort-IsSorted n (exchange x xs).1 (omega (arith, e.same_length)),
    )

exchange_sort-perm : (n : ℕ) (l : List SectionLayout) → Perm (exchange_sort n l) l
unfolding exchange_sort
exchange_sort-perm zero l = Perm.refl l
exchange_sort-perm (suc n) [] = Perm.refl []
exchange_sort-perm (suc n) (x ∷ xs) =
    let e : Exchanged x xs (exchange x xs) = exchange-Exchanged x xs in
    Perm.trans (Perm.cons (exchange x xs).0 (exchange_sort-perm n (exchange x xs).1)) e.perm

-- The sections collected for a region are those that start in it and are not empty, by rising
-- origin.
pub collect_sections_for_region_sorts :
    (region : Region) (l : List SectionLayout)
    → IsSorted (collect_sections_for_region region l)
      × Perm (collect_sections_for_region region l) (select region l)
unfolding collect_sections_for_region
collect_sections_for_region_sorts region l = (
  exchange_sort-IsSorted (length (select region l)) (select region l) (omega arith),
  exchange_sort-perm (length (select region l)) (select region l),
)
