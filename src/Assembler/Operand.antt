-- ===== src/Assembler/Operand.antt =====
-- Operands, the parser of internal/assembler/x86.go.
pub mod Parts
use forge_zero.Prelude.{
  ℕ, zero, suc, ◌+◌, ◌-◌, ◌*◌, ◌/◌, ◌%◌, ◌^◌, List, [], ◌∷◌, Bool, true, false, ◌&&◌, ◌||◌, not,
  Option, none, some, String, codes, bytes_eq, is_digit, length, ltb, leb, ◌==◌, if◌then◌else◌, map,
  get_or, slice, ◌≢◌, refl, arith,
}
use forge_zero.Assembler.Text.{Answer, good, fault, panic, ◌>>=◌, trim_space, parse_number}
use forge_zero.Assembler.Memory.{Memory, parse_register, memory_parts, empty_memory}
use forge_zero.Assembler.Memory.Ends.{memory_parts_enough}

pub data Operand : Type 0 where
  reg : ℕ → Operand
  imm : ℕ → Operand
  mem : Memory → Operand
  label : List ℕ → Operand

-- The check behind the loop. Without a base the base is 5.
abbrev pub finish_memory : Memory → Answer Operand
finish_memory m =
    if m.base == 255 && m.index == 255
    then fault
    else if m.base == 255
    then good (Operand.mem (record m { base = 5 }))
    else good (Operand.mem m)

-- The answer of a loop whose fuel is enough.
abbrev answered {ℓ} : {A : Type ℓ} (answer : Option A) → answer ≢ none → A
answered none enough = absurd (enough refl)
answered (some found) enough = found

-- What is between the brackets.
unfoldable pub parse_memory : List ℕ → Answer Operand
parse_memory [] = fault
parse_memory (c ∷ rest) =
    answered (memory_parts (suc (length (c ∷ rest))) empty_memory (c ∷ rest))
      (memory_parts_enough (suc (length (c ∷ rest))) empty_memory (c ∷ rest) (omega arith))
    >>= finish_memory

-- The text between `[` and `]`, if the token has both and something between them.
abbrev pub bracketed : List ℕ → Option (List ℕ)
bracketed token =
    if ltb 2 (length token) && get_or token 0 0 == b'[' && get_or token (length token - 1) 0 == b']'
    then some (slice token 1 (length token - 1))
    else none

-- `parseImmediate`: a number behind a minus becomes a 32-bit pattern.
unfoldable pub parse_immediate : List ℕ → Option ℕ
parse_immediate (c ∷ d ∷ rest) =
    if c == b'-'
    then (elim (parse_number (d ∷ rest)) [
      | none ↦ none
      | some m ↦ if ltb (2 ^ 31) m then none else some ((2 ^ 32 - m) % 2 ^ 32)
    ])
    else parse_number (c ∷ d ∷ rest)
parse_immediate token = parse_number token

-- An operand that is no register.
unfoldable pub parse_other : List ℕ → Answer Operand
parse_other token = elim (bracketed token) [
  | some inner ↦ parse_memory (trim_space inner)
  | none ↦ elim (parse_immediate token) [
    | some n ↦ good (Operand.imm n)
    | none ↦ good (Operand.label token)
  ]
]

-- `parseOperand` behind its call of `trimSpace`.
unfoldable pub parse_trimmed : List ℕ → Answer Operand
parse_trimmed [] = fault
parse_trimmed (c ∷ rest) = parse_register (c ∷ rest) >>= (λ found. elim found [
  | some (code, width) ↦ good (Operand.reg code)
  | none ↦ parse_other (c ∷ rest)
])

unfoldable pub parse_operand : List ℕ → Answer Operand
parse_operand token = parse_trimmed (trim_space token)
