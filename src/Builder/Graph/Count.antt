-- ===== src/Builder/Graph/Count.antt =====
-- How often a number occurs in a list.
use forge_zero.Prelude.{
  ℕ, zero, suc, ◌+◌, ◌≤◌, ◌<◌, ◌≡◌, refl, sym, List, [], ◌∷◌, ◌++◌, arith, length, ◌==◌,
  if◌then◌else◌, Bool-cases, inl, inr,
}

abbrev pub bit : ℕ → ℕ → ℕ
bit a b = if a == b then 1 else 0

abbrev pub occ : ℕ → List ℕ → ℕ
occ a [] = 0
occ a (x ∷ rest) = bit a x + occ a rest

pub occ-append : (a : ℕ) (xs ys : List ℕ) → occ a (xs ++ ys) ≡ occ a xs + occ a ys
occ-append a [] ys = omega arith
occ-append a (x ∷ xs) ys = ground (arith, occ-append a xs ys)

-- The sum of the occurrences of the numbers below `n`.
abbrev pub occurrences : ℕ → List ℕ → ℕ
occurrences zero xs = 0
occurrences (suc n) xs = occ n xs + occurrences n xs

occurrences-nil : (n : ℕ) → occurrences n [] ≡ 0
occurrences-nil zero = refl
occurrences-nil (suc n) = omega (arith, occurrences-nil n)

abbrev is_below : ℕ → ℕ → ℕ
is_below zero x = 0
is_below (suc n) x = bit n x + is_below n x

occurrences-cons :
    (n x : ℕ) (xs : List ℕ) → occurrences n (x ∷ xs) ≡ is_below n x + occurrences n xs
occurrences-cons zero x xs = omega arith
occurrences-cons (suc n) x xs = omega (arith, occurrences-cons n x xs)

is_below-out : (n x : ℕ) → n ≤ x → is_below n x ≡ 0
is_below-out zero x h = refl
is_below-out (suc n) x h = ground (arith, is_below-out n x)

is_below-in : (n x : ℕ) → x < n → is_below n x ≡ 1
is_below-in zero x h = absurd (omega arith)
is_below-in (suc n) x h = ground (arith, is_below-out n x, is_below-in n x)

pub bit-same : (x : ℕ) → bit x x ≡ 1
bit-same x = ground arith

-- The length of a list of numbers below `n` is the sum of their occurrences.
pub length-occurrences :
    (n : ℕ) (xs : List ℕ) → ((i : ℕ) → n ≤ i → occ i xs ≡ 0) → length xs ≡ occurrences n xs
length-occurrences n [] h = sym (occurrences-nil n)
length-occurrences n (x ∷ xs) h =
    let few : x < n = ground (arith, h x, bit-same x) in
    omega (
      arith,
      occurrences-cons n x xs,
      is_below-in n x few,
      length-occurrences n xs (λ i k. omega (arith, h i k)),
    )

pub occurrences_at_most :
    (n : ℕ) (xs : List ℕ) → ((i : ℕ) → i < n → occ i xs ≤ 1) → occurrences n xs ≤ n
occurrences_at_most zero xs h = omega arith
occurrences_at_most (suc n) xs h =
    omega (arith, h n (omega arith), occurrences_at_most n xs (λ i k. h i (omega arith)))

pub occurrences_at_least :
    (n : ℕ) (xs : List ℕ) → ((i : ℕ) → i < n → 1 ≤ occ i xs) → n ≤ occurrences n xs
occurrences_at_least zero xs h = omega arith
occurrences_at_least (suc n) xs h =
    omega (arith, h n (omega arith), occurrences_at_least n xs (λ i k. h i (omega arith)))

-- If none of the numbers below `n` occurs twice, and `n` numbers do, then each occurs.
pub occurrences_full :
    (n : ℕ) (xs : List ℕ) (i : ℕ)
    → ((j : ℕ) → j < n → occ j xs ≤ 1)
    → n ≤ occurrences n xs
    → i < n
    → occ i xs ≡ 1
occurrences_full zero xs i h full k = absurd (omega arith)
occurrences_full (suc n) xs i h full k =
    let most : occurrences n xs ≤ n = occurrences_at_most n xs (λ j l. h j (omega arith)) in
    let last : occ n xs ≤ 1 = h n (omega arith) in
    elim (Bool-cases (i == n)) [
      | inl e ↦ ground (arith, e, most, last, full)
      | inr e ↦ occurrences_full n xs i (λ j l. h j (omega arith)) (omega arith) (ground (arith, e))
    ]
