-- ===== src/Prelude/Masks.antt =====
-- The low bits of a number, as the bitwise and with a row of ones takes them.
-- Each row of ones takes a step from the one that is half as long.
use Prim.Native.Nat.{ℕ, zero, suc, ◌/◌, ◌%◌, ◌≤◌, min, digits, bit_and, bit_and-bitwise}
use mathlib.Core.Path.{◌≡◌, refl, ◌∙◌}
use native.Mathlib.Omega.{arith}

-- `n` digits of the two numbers.
abbrev low : ℕ → ℕ → ℕ → ℕ
low n a mask = digits (λ b. zero) min n a mask

low_0 : (n a : ℕ) → low n a 0 ≡ 0
low_0 zero a = refl
low_0 (suc n) zero = refl
low_0 (suc n) (suc a) = omega (arith, low_0 n (suc a / 2))

-- A row of ones that is right for the half of every number.
abbrev IsRow : ℕ → ℕ → Type 0
IsRow mask range = (n a : ℕ) → a ≤ n → low n a mask ≡ a % range

low_1 : IsRow 1 2
low_1 zero zero h = refl
low_1 zero (suc a) h = absurd (omega arith)
low_1 (suc n) zero h = refl
low_1 (suc n) (suc a) h = omega (arith, low_0 n (suc a / 2))

low_3 : IsRow 3 4
low_3 zero zero h = refl
low_3 zero (suc a) h = absurd (omega arith)
low_3 (suc n) zero h = refl
low_3 (suc n) (suc a) h = omega (arith, low_1 n (suc a / 2) (omega arith))

low_7 : IsRow 7 8
low_7 zero zero h = refl
low_7 zero (suc a) h = absurd (omega arith)
low_7 (suc n) zero h = refl
low_7 (suc n) (suc a) h = omega (arith, low_3 n (suc a / 2) (omega arith))

low_15 : IsRow 15 16
low_15 zero zero h = refl
low_15 zero (suc a) h = absurd (omega arith)
low_15 (suc n) zero h = refl
low_15 (suc n) (suc a) h = omega (arith, low_7 n (suc a / 2) (omega arith))

low_31 : IsRow 31 32
low_31 zero zero h = refl
low_31 zero (suc a) h = absurd (omega arith)
low_31 (suc n) zero h = refl
low_31 (suc n) (suc a) h = omega (arith, low_15 n (suc a / 2) (omega arith))

low_63 : IsRow 63 64
low_63 zero zero h = refl
low_63 zero (suc a) h = absurd (omega arith)
low_63 (suc n) zero h = refl
low_63 (suc n) (suc a) h = omega (arith, low_31 n (suc a / 2) (omega arith))

pub bit_and_low :
    (a : ℕ) → (bit_and a 63 ≡ a % 64) × (bit_and a 15 ≡ a % 16) × (bit_and a 3 ≡ a % 4)
bit_and_low a = (
  bit_and-bitwise a 63 ∙ low_63 a a (omega arith),
  bit_and-bitwise a 15 ∙ low_15 a a (omega arith),
  bit_and-bitwise a 3 ∙ low_3 a a (omega arith),
)
