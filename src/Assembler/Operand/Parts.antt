-- ===== src/Assembler/Operand/Parts.antt =====
-- The names of registers, and operands that are too long.
use forge_zero.Prelude.{
  ℕ, ◌<◌, ◌≡◌, refl, subst, List, [], ◌∷◌, Bool, true, ◌&&◌, ◌||◌, ◌==◌, Option, none, some, arith,
  length, Option-cases, inl, inr, ltb, String,
}
use forge_zero.Assembler.Text.{panic, trim_space}
use forge_zero.Assembler.Memory.{
  find_register, named_registers, numbered_register, register_named, parse_register, with_number,
}
use forge_zero.Assembler.Operand.{parse_trimmed, parse_operand}

parse_trimmed_long : (token : List ℕ) → 16 < length token → parse_trimmed token ≡ panic
unfolding parse_trimmed parse_register
parse_trimmed_long [] h = absurd (omega arith)
parse_trimmed_long (c ∷ rest) h =
    let e : ltb 16 (length (c ∷ rest)) ≡ true = ground arith in rw e refl

-- The parser of operands panics on every operand of more than 16 bytes, behind the spaces around
-- it.
pub parse_operand_panics :
    (token : List ℕ) → 16 < length (trim_space token) → parse_operand token ≡ panic
unfolding parse_operand
parse_operand_panics token h = parse_trimmed_long (trim_space token) h

-- A code of three bits and a width of a register.
abbrev pub is_register : Option (ℕ × ℕ) → Bool
is_register none = true
is_register (some (code, width)) =
    ltb code 8 && (width == 8 || width == 16 || width == 32 || width == 64)

abbrev all_registers : List (String × ℕ × ℕ) → Bool
all_registers [] = true
all_registers ((key, code, width) ∷ rest) = is_register (some (code, width)) && all_registers rest

find_register-is_register :
    (table : List (String × ℕ × ℕ)) (name : List ℕ)
    → all_registers table ≡ true
    → is_register (find_register table name) ≡ true
unfolding find_register
find_register-is_register [] name h = refl
find_register-is_register ((key, code, width) ∷ rest) name h =
    ground (arith, find_register-is_register rest name)

numbered_register-is_register :
    (digit : ℕ) (rest : List ℕ) → is_register (numbered_register digit rest) ≡ true
unfolding numbered_register
numbered_register-is_register digit [] = ground arith
numbered_register-is_register digit (c ∷ []) = ground arith
numbered_register-is_register digit (c ∷ d ∷ []) = ground arith
numbered_register-is_register digit (c ∷ d ∷ e ∷ rest) = refl

with_number-is_register : (name : List ℕ) → is_register (with_number name) ≡ true
with_number-is_register [] = refl
with_number-is_register (r ∷ []) = refl
with_number-is_register (r ∷ digit ∷ rest) =
    ground (arith, numbered_register-is_register digit rest)

-- A name of a register has a code below 8 and a width of 8, 16, 32 or 64 bits.
pub register_named-is_register : (name : List ℕ) → is_register (register_named name) ≡ true
unfolding register_named
register_named-is_register name = elim (Option-cases (find_register named_registers name)) [
  | inl e ↦ rw (e, register_named) (with_number-is_register name)
  | inr (found, e) ↦
      rw (e, register_named)
        (subst (λ f. is_register f ≡ true) e (find_register-is_register named_registers name refl))
]
