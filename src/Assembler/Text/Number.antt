-- ===== src/Assembler/Text/Number.antt =====
-- What `parseNumber` accepts, against the value of the digits without a bound.
use forge_zero.Prelude.{
  ℕ, ◌+◌, ◌-◌, ◌*◌, ◌/◌, ◌^◌, ◌≤◌, ◌<◌, ◌≡◌, ◌≢◌, ◌⊎◌, refl, sym, subst, List, [], ◌∷◌, Option,
  none, some, arith, ltb, leb, Bool-cases, if◌then◌else◌, Option-cases, inl, inr,
}
use forge_zero.Assembler.Text.{digit_value, digits_value, number_base, behind_sign, parse_number}

-- The value of digits behind `v`, without an upper bound.
abbrev pub unbounded : ℕ → ℕ → List ℕ → Option ℕ
unbounded base v [] = some v
unbounded base v (c ∷ rest) = elim (digit_value base c) [
  | none ↦ none
  | some d ↦ unbounded base (v * base + d) rest
]

abbrev pub IsBase : ℕ → Type 0
IsBase b = (b ≡ 2) ⊎ (b ≡ 8) ⊎ (b ≡ 10) ⊎ (b ≡ 16)

number_base-IsBase : (token : List ℕ) → IsBase (number_base token).0
unfolding number_base
number_base-IsBase [] = ground arith
number_base-IsBase (z ∷ []) = ground arith
number_base-IsBase (z ∷ x ∷ rest) = ground arith

digit_value_bound : (base c d : ℕ) → digit_value base c ≡ some d → d < base
unfolding digit_value
digit_value_bound base c d h = ground arith

-- The test for an overflow.
overflow_exact :
    (base v d : ℕ)
    → IsBase base
    → d < base
    → ltb ((2 ^ 64 - 1 - d) / base) v ≡ leb (2 ^ 64) (v * base + d)
overflow_exact base v d (inl e) h =
    subst (λ b. d < b → ltb ((2 ^ 64 - 1 - d) / b) v ≡ leb (2 ^ 64) (v * b + d)) (sym e)
      (λ k. ground arith) h
overflow_exact base v d (inr (inl e)) h =
    subst (λ b. d < b → ltb ((2 ^ 64 - 1 - d) / b) v ≡ leb (2 ^ 64) (v * b + d)) (sym e)
      (λ k. ground arith) h
overflow_exact base v d (inr (inr (inl e))) h =
    subst (λ b. d < b → ltb ((2 ^ 64 - 1 - d) / b) v ≡ leb (2 ^ 64) (v * b + d)) (sym e)
      (λ k. ground arith) h
overflow_exact base v d (inr (inr (inr e))) h =
    subst (λ b. d < b → ltb ((2 ^ 64 - 1 - d) / b) v ≡ leb (2 ^ 64) (v * b + d)) (sym e)
      (λ k. ground arith) h

grows : (base v d : ℕ) → IsBase base → v ≤ v * base + d
grows base v d (inl e) = subst (λ b. v ≤ v * b + d) (sym e) (omega arith)
grows base v d (inr (inl e)) = subst (λ b. v ≤ v * b + d) (sym e) (omega arith)
grows base v d (inr (inr (inl e))) = subst (λ b. v ≤ v * b + d) (sym e) (omega arith)
grows base v d (inr (inr (inr e))) = subst (λ b. v ≤ v * b + d) (sym e) (omega arith)

-- A value that fits an uint64.
abbrev pub fitting : Option ℕ → Option ℕ
fitting none = none
fitting (some v) = if ltb v (2 ^ 64) then some v else none

too_large :
    (base v : ℕ) (l : List ℕ) → IsBase base → 2 ^ 64 ≤ v → fitting (unbounded base v l) ≡ none
too_large base v [] b h = ground arith
too_large base v (c ∷ rest) b h = elim (Option-cases (digit_value base c)) [
  | inl e ↦ rw (e, fitting, unbounded) refl
  | inr (d, e) ↦
      rw (e, fitting, unbounded)
        (too_large base (v * base + d) rest b (omega (arith, grows base v d b)))
]

digits_value-fitting :
    (base v : ℕ) (l : List ℕ)
    → IsBase base
    → v < 2 ^ 64
    → digits_value base v l ≡ fitting (unbounded base v l)
unfolding digits_value
digits_value-fitting base v [] b h = ground arith
digits_value-fitting base v (c ∷ rest) b h = elim (Option-cases (digit_value base c)) [
  | inl e ↦ rw (e, fitting, unbounded, digits_value) refl
  | inr (d, e) ↦
      let o = overflow_exact base v d b (digit_value_bound base c d e) in
      elim (Bool-cases (leb (2 ^ 64) (v * base + d))) [
        | inl big ↦
            rw (e, o, big, fitting, unbounded, digits_value)
              (sym (too_large base (v * base + d) rest b (ground arith)))
        | inr small ↦
            rw (e, o, small, fitting, unbounded, digits_value)
              (digits_value-fitting base (v * base + d) rest b (ground arith))
      ]
]

abbrev pub number_parts : List ℕ → ℕ × List ℕ
number_parts token = number_base (behind_sign token)

-- A token that is not empty is parsed to the value of its digits behind sign and prefix, computed
-- without a bound in the base of the prefix, if they are digits of this base and the value is
-- below 2^64, and else to an error.
pub parse_number_exact :
    (c : ℕ) (rest : List ℕ)
    → parse_number (c ∷ rest)
      ≡ fitting (unbounded (number_parts (c ∷ rest)).0 0 (number_parts (c ∷ rest)).1)
unfolding parse_number
parse_number_exact c rest =
    digits_value-fitting (number_parts (c ∷ rest)).0 0 (number_parts (c ∷ rest)).1
      (number_base-IsBase (behind_sign (c ∷ rest))) (omega arith)

-- A minus in front of a text that is not empty and has no other one in front does not change what
-- the text is parsed to.
pub parse_number_unsigned :
    (c : ℕ) (rest : List ℕ) → c ≢ b'-' → parse_number (b'-' ∷ c ∷ rest) ≡ parse_number (c ∷ rest)
unfolding parse_number
parse_number_unsigned c rest h = ground arith
