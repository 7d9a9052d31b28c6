-- ===== src/Builder/Dag/Falls.antt =====
-- The counts of the dependencies that are not built, and how they fall.
use forge_zero.Prelude.{
  ℕ, ◌+◌, ◌-◌, ◌%◌, ◌^◌, ◌≤◌, ◌<◌, ◌≡◌, List, false, arith, length, get_or, set, get_or-set_same,
  get_or-set_other, ◌==◌, Bool-cases, inl, inr,
}
use forge_zero.Builder.Graph.Count.{bit, bit-same}
use forge_zero.Builder.Dag.{ready, taken}

-- The count of a node with `size` dependencies of which `left` are not built and taken off. It is
-- under way if it has been lowered and not been looked at.
pub record Pending (size left under_way count : ℕ) : Type 0 where
  pub some_left : 1 ≤ left → count ≡ left
  pub none_left : left ≡ 0 → 1 ≤ size → under_way ≡ 0 → taken ≤ count
  pub between : left ≡ 0 → 1 ≤ under_way → count ≡ 0
  pub has_size : 1 ≤ under_way → 1 ≤ size
  pub no_size : size ≡ 0 → count ≡ 0
  pub few : left ≤ size
  pub small : size < 2 ^ 63

pub Pending-built :
    (size left under_way count : ℕ) → Pending size left under_way count → count ≡ 0 → left ≡ 0
Pending-built size left under_way count p h = elim (Bool-cases (left == 0)) [
  | inl e ↦ ground (arith, e)
  | inr e ↦ let more : 1 ≤ left = ground (arith, e) in absurd (omega (arith, p.some_left more, h))
]

pub Pending-ready :
    (size left under_way count : ℕ)
    → Pending size left under_way count
    → count ≡ ready
    → (left ≡ 0) × (1 ≤ size)
Pending-ready size left under_way count p h = elim (Bool-cases (left == 0)) [
  | inl e ↦ (
    ground (arith, e),
    elim (Bool-cases (size == 0)) [
      | inl z ↦ absurd (omega (arith, p.no_size (ground (arith, z)), h))
      | inr z ↦ ground (arith, z)
    ],
  )
  | inr e ↦
      let more : 1 ≤ left = ground (arith, e) in
      absurd (omega (arith, p.some_left more, h, p.few, p.small))
]

-- A count falls by one.
Pending-fall :
    (size left under_way count : ℕ)
    → Pending size left under_way count
    → 1 ≤ left
    → Pending size (left - 1) 1 ((count + (2 ^ 64 - 1)) % 2 ^ 64)
Pending-fall size left under_way count p h =
    let e : (count + (2 ^ 64 - 1)) % 2 ^ 64 ≡ left - 1 =
      omega (arith, p.some_left h, p.few, p.small) in
    rw e (record {
      some_left = λ k. omega arith;
      none_left = λ k l m. absurd (omega (arith, m));
      between = λ k l. k;
      has_size = λ k. omega (arith, p.few);
      no_size = λ k. absurd (omega (arith, k, p.few));
      few = omega (arith, p.few);
      small = p.small;
    })

-- A mark of at least -2 in place of a count that is 0 or a mark.
pub Pending-mark :
    (size left under_way count mark : ℕ)
    → Pending size left under_way count
    → left ≡ 0
    → 1 ≤ size
    → taken ≤ mark
    → Pending size left 0 mark
Pending-mark size left under_way count mark p h k m = record {
  some_left = λ l. absurd (omega (arith, h, l));
  none_left = λ l n o. m;
  between = λ l n. absurd (omega (arith, n));
  has_size = λ l. absurd (omega (arith, l));
  no_size = λ l. absurd (omega (arith, k, l));
  few = p.few;
  small = p.small;
}

-- What is not 0 behind its fall stays as it is.
pub Pending-stays :
    (size left under_way count : ℕ)
    → Pending size left under_way count
    → 1 ≤ under_way
    → 1 ≤ count
    → Pending size left 0 count
Pending-stays size left under_way count p h k = record {
  some_left = p.some_left;
  none_left = λ l m n. absurd (omega (arith, p.between l h, k));
  between = λ l n. absurd (omega (arith, n));
  has_size = λ l. absurd (omega (arith, l));
  no_size = p.no_size;
  few = p.few;
  small = p.small;
}

-- The counts of all nodes, with functions for the numbers.
abbrev pub AllPending : (ℕ → ℕ) → (ℕ → ℕ) → (ℕ → ℕ) → List ℕ → Type 0
AllPending size left under_way pending =
    (i : ℕ) → Pending (size i) (left i) (under_way i) (get_or pending i 0)

-- A new count for one node.
pub AllPending-set :
    (child new : ℕ) (size left left' under_way under_way' : ℕ → ℕ) (pending : List ℕ)
    → AllPending size left under_way pending
    → child < length pending
    → Pending (size child) (left' child) (under_way' child) new
    → ((i : ℕ) → (i == child) ≡ false → (left' i ≡ left i) × (under_way' i ≡ under_way i))
    → AllPending size left' under_way' (set pending child new)
AllPending-set child new size left left' under_way under_way' pending p inside one others i =
    elim (Bool-cases (i == child)) [
      | inl e ↦
          let same : i ≡ child = ground (arith, e) in
          rw (same, get_or-set_same 0 pending child new inside) one
      | inr e ↦
          let kept : get_or (set pending child new) i 0 ≡ get_or pending i 0 =
            get_or-set_other 0 pending child i new (λ q. ground (arith, e, q)) in
          let (a, b) = others i e in rw (kept, a, b) (p i)
    ]

-- The count of one node falls.
pub AllPending-lower :
    (child : ℕ) (size left : ℕ → ℕ) (pending : List ℕ)
    → AllPending size left (λ i. 0) pending
    → child < length pending
    → 1 ≤ left child
    → AllPending size
        (λ i. left i - bit i child)
        (λ i. bit i child)
        (set pending child ((get_or pending child 0 + (2 ^ 64 - 1)) % 2 ^ 64))
AllPending-lower child size left pending p inside more =
    AllPending-set child _ size left (λ i. left i - bit i child) (λ i. 0) (λ i. bit i child) pending
      p inside (rw (bit-same child) (Pending-fall (size child) (left child) 0 _ (p child) more))
      (λ i e. (ground (arith, e), ground (arith, e)))
