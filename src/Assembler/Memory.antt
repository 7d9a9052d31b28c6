-- ===== src/Assembler/Memory.antt =====
-- Registers, and the parts of a memory operand, the parser of internal/assembler/x86.go.
-- A displacement is a Go int64, modelled by its 64-bit pattern. 255 stands for no register.
pub mod Ends
use forge_zero.Prelude.{
  ℕ, zero, suc, ◌+◌, ◌-◌, ◌*◌, ◌/◌, ◌%◌, ◌^◌, List, [], ◌∷◌, Bool, true, false, ◌&&◌, ◌||◌, not,
  Option, none, some, String, codes, bytes_eq, is_digit, length, ltb, leb, ◌==◌, if◌then◌else◌, map,
  get_or, slice,
}
use forge_zero.Assembler.Text.{Answer, good, fault, panic, ◌>>=◌, trim_space, parse_number}

abbrev pub lower : ℕ → ℕ
lower c = if leb b'A' c && leb c b'Z' then c + 32 else c

-- The names of the registers without a number, in the order of the source.
abbrev pub named_registers : List (String × ℕ × ℕ)
named_registers =
    ("al", 0, 8)
    ∷ ("cl", 1, 8)
    ∷ ("dl", 2, 8)
    ∷ ("bl", 3, 8)
    ∷ ("ah", 4, 8)
    ∷ ("ch", 5, 8)
    ∷ ("dh", 6, 8)
    ∷ ("bh", 7, 8)
    ∷ ("ax", 0, 16)
    ∷ ("cx", 1, 16)
    ∷ ("dx", 2, 16)
    ∷ ("bx", 3, 16)
    ∷ ("sp", 4, 16)
    ∷ ("bp", 5, 16)
    ∷ ("si", 6, 16)
    ∷ ("di", 7, 16)
    ∷ ("eax", 0, 32)
    ∷ ("ecx", 1, 32)
    ∷ ("edx", 2, 32)
    ∷ ("ebx", 3, 32)
    ∷ ("esp", 4, 32)
    ∷ ("ebp", 5, 32)
    ∷ ("esi", 6, 32)
    ∷ ("edi", 7, 32)
    ∷ ("rax", 0, 64)
    ∷ ("rcx", 1, 64)
    ∷ ("rdx", 2, 64)
    ∷ ("rbx", 3, 64)
    ∷ ("rsp", 4, 64)
    ∷ ("rbp", 5, 64)
    ∷ ("rsi", 6, 64)
    ∷ ("rdi", 7, 64)
    ∷ []

unfoldable pub find_register : List (String × ℕ × ℕ) → List ℕ → Option (ℕ × ℕ)
find_register [] name = none
find_register ((key, code, width) ∷ rest) name =
    let more = find_register rest name in
    if bytes_eq name (codes key) then some (code, width) else more

-- The suffix of a numbered register.
abbrev pub suffix_width : ℕ → ℕ → Option (ℕ × ℕ)
suffix_width number c =
    if c == b'b'
    then some (number % 8, 8)
    else if c == b'w'
    then some (number % 8, 16)
    else if c == b'd'
    then some (number % 8, 32)
    else none

-- The names `r8` and on: a byte behind the `r`, and what follows it.
unfoldable pub numbered_register : ℕ → List ℕ → Option (ℕ × ℕ)
numbered_register digit [] =
    if not (is_digit digit) || ltb (digit - b'0') 8 then none else some ((digit - b'0') % 8, 64)
numbered_register digit (c ∷ []) =
    if not (is_digit digit) || ltb (digit - b'0') 8 then none else suffix_width (digit - b'0') c
numbered_register digit (c ∷ d ∷ []) =
    let number = ((c + 256 - b'0') % 256 + 10) % 256 in
    if not (digit == b'1') || ltb number 10 || ltb 15 number then none else suffix_width number d
numbered_register digit _ = none

abbrev pub with_number : List ℕ → Option (ℕ × ℕ)
with_number (r ∷ digit ∷ rest) = if r == b'r' then numbered_register digit rest else none
with_number _ = none

-- A name in small letters: the code of the register and its width in bits.
unfoldable pub register_named : List ℕ → Option (ℕ × ℕ)
register_named name = elim (find_register named_registers name) [
  | some found ↦ some found
  | none ↦ with_number name
]

-- `parseRegister`. The name is copied to an array of 16 bytes, which is then sliced to the length
-- of the token: a run-time panic for a longer one.
unfoldable pub parse_register : List ℕ → Answer (Option (ℕ × ℕ))
parse_register token =
    if ltb 16 (length token) then panic else good (register_named (map lower token))

pub record Memory : Type 0 where
  pub base : ℕ
  pub index : ℕ
  pub scale : ℕ
  pub disp : ℕ

abbrev pub is_blank : ℕ → Bool
is_blank c = c == b' ' || c == b'\t'

abbrev pub is_sign : ℕ → Bool
is_sign c = c == b'+' || c == b'-'

unfoldable pub skip_blanks : List ℕ → List ℕ
skip_blanks [] = []
skip_blanks (c ∷ rest) = let more = skip_blanks rest in if is_blank c then more else c ∷ rest

-- The bytes up to one that the test holds for, and the rest from there on.
unfoldable pub until : (ℕ → Bool) → List ℕ → List ℕ × List ℕ
until test [] = ([], [])
until test (c ∷ rest) =
    let (part, others) = until test rest in if test c then ([], c ∷ rest) else (c ∷ part, others)

-- A register is the base, or else the index.
abbrev pub add_register : Memory → ℕ → Answer Memory
add_register m code =
    if m.base == 255
    then good (record m { base = code })
    else if m.index == 255
    then good (record m { index = code })
    else fault

abbrev pub is_scale : ℕ → Bool
is_scale n = n == 1 || n == 2 || n == 4 || n == 8

-- A part of the form register * scale.
abbrev pub add_scaled : Memory → Option (ℕ × ℕ) → Option ℕ → Answer Memory
add_scaled m (some (code, width)) (some scale) =
    if is_scale scale && m.index == 255
    then good (record m { index = code; scale = scale % 256 })
    else fault
add_scaled m _ _ = fault

abbrev pub add_number : Memory → Bool → Option ℕ → Answer Memory
add_number m negative (some n) =
    good (record m { disp = (m.disp + (if negative then 2 ^ 64 - n else n)) % 2 ^ 64 })
add_number m negative none = fault

-- A part without a register's name.
abbrev pub add_other : Memory → Bool → List ℕ → List ℕ × List ℕ → Answer Memory
add_other m negative part (front, star ∷ behind) =
    parse_register (trim_space front)
    >>= (λ found. add_scaled m found (parse_number (trim_space behind)))
add_other m negative part (front, []) = add_number m negative (parse_number part)

-- One part of a memory operand, already trimmed.
unfoldable pub add_part : Memory → Bool → List ℕ → Answer Memory
add_part m negative [] = good m
add_part m negative (c ∷ rest) = parse_register (c ∷ rest) >>= (λ found. elim found [
  | some (code, width) ↦ add_register m code
  | none ↦ add_other m negative (c ∷ rest) (until (λ x. x == b'*') (c ∷ rest))
])

-- The sign in front of a part: whether it is a minus, and what follows; an error at the end.
abbrev pub take_sign : ℕ → List ℕ → Answer (Bool × List ℕ)
take_sign c rest =
    if is_sign c
    then (elim (skip_blanks rest) [ [] ↦ fault | d ∷ more ↦ good (c == b'-', d ∷ more) ])
    else good (false, c ∷ rest)

-- What the loop over the parts does behind a part: `again` is the rest of the loop.
unfoldable pub behind_part :
    (Memory → List ℕ → Option (Answer Memory)) → Answer Memory → List ℕ → Option (Answer Memory)
behind_part again (good m) others = again m others
behind_part again fault others = some fault
behind_part again panic others = some panic

-- A part behind its sign.
unfoldable pub signed_part :
    (Memory → List ℕ → Option (Answer Memory))
    → Memory
    → Answer (Bool × List ℕ)
    → Option (Answer Memory)
signed_part again m (good (negative, text)) =
    behind_part again (add_part m negative (trim_space (until is_sign text).0))
      (until is_sign text).1
signed_part again m fault = some fault
signed_part again m panic = some panic

-- One round of the loop, behind the blanks.
abbrev pub memory_round :
    (Memory → List ℕ → Option (Answer Memory)) → Memory → List ℕ → Option (Answer Memory)
memory_round again m [] = some (good m)
memory_round again m (c ∷ rest) = signed_part again m (take_sign c rest)

-- The loop over the parts of a memory operand, with a unit of fuel for each byte. Without fuel
-- the answer is none.
unfoldable pub memory_parts : ℕ → Memory → List ℕ → Option (Answer Memory)
memory_parts zero m inner = none
memory_parts (suc fuel) m inner = memory_round (memory_parts fuel) m (skip_blanks inner)

abbrev pub empty_memory : Memory
empty_memory = record { base = 255; index = 255; scale = 1; disp = 0 }
