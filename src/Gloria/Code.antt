-- ===== src/Gloria/Code.antt =====
-- internal/gloria/codegen.go, emitter_template.go and the epilogue of fn.go: the machine code.
-- A function of the source that appends to `out` answers the bytes that it appends. Registers are
-- numbers up to 15; where two of them share a byte they are below 8.
pub mod Peephole
use forge_zero.Prelude.{
  ℕ, zero, suc, ◌+◌, ◌-◌, ◌*◌, ◌/◌, ◌%◌, ◌^◌, List, [], ◌∷◌, ◌++◌, Bool, true, false, ◌&&◌, ◌||◌,
  not, Option, none, some, String, codes, bytes_eq, is_digit, length, ltb, leb, ◌==◌, if◌then◌else◌,
  little_endian,
}

abbrev pub abi_arg_regs : List ℕ
abi_arg_regs = 7 ∷ 6 ∷ 2 ∷ 1 ∷ 8 ∷ 9 ∷ []

-- The 32-bit pattern of a stack offset, which is the negative of a depth.
abbrev pub stack_disp : ℕ → ℕ
stack_disp depth = (2 ^ 32 - depth % 2 ^ 32) % 2 ^ 32

unfoldable pub emit_mov_reg_to_stack : ℕ → ℕ → List ℕ
emit_mov_reg_to_stack src_reg depth =
    0x48 ∷ 0x89 ∷ (0x85 + src_reg * 8) % 256 ∷ little_endian 4 (stack_disp depth)

unfoldable pub emit_mov_stack_to_reg : ℕ → ℕ → List ℕ
emit_mov_stack_to_reg dst_reg depth =
    0x48 ∷ 0x8B ∷ (0x85 + dst_reg * 8) % 256 ∷ little_endian 4 (stack_disp depth)

unfoldable pub emit_cmp_reg_to_reg : ℕ → ℕ → List ℕ
emit_cmp_reg_to_reg src dst = 0x48 ∷ 0x39 ∷ (0xC0 + src * 8 + dst) % 256 ∷ []

unfoldable pub emit_mov_imm64_to_reg : ℕ → ℕ → List ℕ
emit_mov_imm64_to_reg reg v = 0x48 ∷ (0xB8 + reg) % 256 ∷ little_endian 8 v

unfoldable pub emit_mov_imm16_to_reg : ℕ → ℕ → List ℕ
emit_mov_imm16_to_reg reg v = 0x66 ∷ (0xB8 + reg) % 256 ∷ little_endian 2 v

unfoldable pub emit_mov_imm8_to_reg : ℕ → ℕ → List ℕ
emit_mov_imm8_to_reg reg v = (0xB0 + reg) % 256 ∷ v ∷ []

unfoldable pub emit_mov_reg_to_reg : ℕ → ℕ → List ℕ
emit_mov_reg_to_reg src dst = 0x48 ∷ 0x89 ∷ (0xC0 + src * 8 + dst) % 256 ∷ []

unfoldable pub emit_add_reg_to_reg : ℕ → ℕ → List ℕ
emit_add_reg_to_reg src dst = 0x48 ∷ 0x01 ∷ (0xC0 + src * 8 + dst) % 256 ∷ []

unfoldable pub emit_sub_reg_to_reg : ℕ → ℕ → List ℕ
emit_sub_reg_to_reg src dst = 0x48 ∷ 0x29 ∷ (0xC0 + src * 8 + dst) % 256 ∷ []

unfoldable pub emit_add_imm64_to_reg : ℕ → ℕ → List ℕ
emit_add_imm64_to_reg reg v = 0x48 ∷ 0x81 ∷ (0xC0 + reg) % 256 ∷ little_endian 4 v

unfoldable pub emit_sub_imm64_to_reg : ℕ → ℕ → List ℕ
emit_sub_imm64_to_reg reg v = 0x48 ∷ 0x81 ∷ (0xE8 + reg) % 256 ∷ little_endian 4 v

-- The escapes `\n` and `\t`; every other backslash stands for itself.
abbrev pub escaped : ℕ → Option ℕ
escaped c = if c == b'n' then some 10 else if c == b't' then some 9 else none

unfoldable pub parse_string_literal : List ℕ → List ℕ
parse_string_literal [] = []
parse_string_literal (c ∷ []) = c ∷ []
parse_string_literal (c ∷ d ∷ rest) =
    let behind = parse_string_literal rest in
    let plain = parse_string_literal (d ∷ rest) in
    if c == b'\\' then (elim (escaped d) [ some e ↦ e ∷ behind | none ↦ c ∷ plain ]) else c ∷ plain

-- `appendBareMetalPrintHeader`: the template with the length and the displacement put in.
unfoldable pub print_header : ℕ → ℕ → List ℕ
print_header count disp =
    (0x48 ∷ 0xBA ∷ 0x00 ∷ 0x80 ∷ 0x0B ∷ 0x00 ∷ 0x00 ∷ 0x00 ∷ 0x00 ∷ 0x00 ∷ 0x48 ∷ 0xB9 ∷ [])
    ++ (little_endian 8 count
        ++ (0x48 ∷ 0x8D ∷ 0x35 ∷ [])
        ++ (little_endian 4 disp ++ (0x8A ∷ 0x06 ∷ 0xB4 ∷ 0x0A ∷ 0x66 ∷ [])))

-- The loop that stores the text in the video memory, and the text behind a short jump over it. The
-- displacement of the loop's jump is the start of the loop, 27 bytes behind that of the code, less
-- the end of the jump.
unfoldable pub emit_bare_metal_print : List ℕ → List ℕ
emit_bare_metal_print str =
    let bytes = parse_string_literal str in
    print_header (length bytes) 25
    ++ (0x89
        ∷ 0x02
        ∷ 0x48
        ∷ 0x83
        ∷ 0xC2
        ∷ 0x02
        ∷ 0x48
        ∷ 0xFF
        ∷ 0xC6
        ∷ 0x48
        ∷ 0xFF
        ∷ 0xC9
        ∷ 0x0F
        ∷ 0x85
        ∷ (little_endian 4 (2 ^ 32 + 27 - 50) ++ (0xEB ∷ length bytes % 256 ∷ bytes)))

abbrev pub self_move : ℕ → Bool
self_move m = m / 8 % 8 == m % 8

-- `peephole` takes away what it reads as a move of a register to itself.
unfoldable pub peephole : List ℕ → List ℕ
peephole [] = []
peephole (a ∷ []) = a ∷ []
peephole (a ∷ b ∷ []) = a ∷ b ∷ []
peephole (a ∷ b ∷ m ∷ rest) =
    let behind = peephole rest in
    let kept = peephole (b ∷ m ∷ rest) in
    if a == 0x48 && b == 0x89 && self_move m then behind else a ∷ kept

unfoldable pub emit_push_reg : ℕ → List ℕ
emit_push_reg reg =
    if leb 8 reg then 0x41 ∷ (0x50 + (reg - 8)) % 256 ∷ [] else (0x50 + reg) % 256 ∷ []

unfoldable pub emit_pop_reg : ℕ → List ℕ
emit_pop_reg reg =
    if leb 8 reg then 0x41 ∷ (0x58 + (reg - 8)) % 256 ∷ [] else (0x58 + reg) % 256 ∷ []

-- An int64 from the digits at the head of a text, which wraps around.
unfoldable pub head_number : ℕ → List ℕ → ℕ
head_number v [] = v
head_number v (c ∷ rest) =
    let more = head_number ((v * 10 + (c - b'0')) % 2 ^ 64) rest in if is_digit c then more else v

-- The digits of a number, the last one first: the loop over `digits` fills it from the end.
unfoldable pub digits_reversed : ℕ → ℕ → List ℕ
digits_reversed zero n = []
digits_reversed (suc fuel) n = elim (n == 0) [
  | true ↦ []
  | false ↦ (b'0' + n % 10) ∷ digits_reversed fuel (n / 10)
]

-- One byte is pushed, written by a system call, and popped.
abbrev pub write_digit : ℕ → List ℕ
write_digit d =
    0x6A ∷ d ∷ 0x48 ∷ 0xC7 ∷ 0xC0 ∷ 0x01 ∷ 0x00 ∷ 0x00 ∷ 0x00 ∷ 0x48 ∷ 0xC7 ∷ 0xC7 ∷ 0x01 ∷ 0x00
    ∷ 0x00 ∷ 0x00 ∷ 0x48 ∷ 0x8D ∷ 0x74 ∷ 0x24 ∷ 0x00 ∷ 0x48 ∷ 0xC7 ∷ 0xC2 ∷ 0x01 ∷ 0x00 ∷ 0x00
    ∷ 0x00 ∷ 0x0F ∷ 0x05 ∷ 0x48 ∷ 0x83 ∷ 0xC4 ∷ 0x08 ∷ []

unfoldable pub write_reversed : List ℕ → List ℕ → List ℕ
write_reversed [] code = code
write_reversed (d ∷ rest) code = write_reversed rest (write_digit d ++ code)

-- A number below 2^64 has at most 20 digits. A negative int64 has none: its loop does not run.
unfoldable pub emit_number_print : List ℕ → List ℕ
emit_number_print literal =
    let n = head_number 0 literal in
    if n == 0
    then write_digit b'0'
    else if leb (2 ^ 63) n
    then []
    else write_reversed (digits_reversed 20 n) []

-- The names of the registers that `print` knows.
abbrev pub register_names : List (String × ℕ)
register_names =
    ("rax", 0)
    ∷ ("rcx", 1)
    ∷ ("rdx", 2)
    ∷ ("rbx", 3)
    ∷ ("rsi", 6)
    ∷ ("rdi", 7)
    ∷ ("r8", 8)
    ∷ ("r9", 9)
    ∷ ("r10", 10)
    ∷ ("r11", 11)
    ∷ ("r12", 12)
    ∷ ("r13", 13)
    ∷ ("r14", 14)
    ∷ ("r15", 15)
    ∷ []

unfoldable pub register_index : List (String × ℕ) → List ℕ → Option ℕ
register_index [] name = none
register_index ((key, index) ∷ rest) name =
    let more = register_index rest name in if bytes_eq name (codes key) then some index else more

abbrev pub syscall_print_reg : List ℕ
syscall_print_reg =
    0x50 ∷ 0x48 ∷ 0xC7 ∷ 0xC0 ∷ 0x01 ∷ 0x00 ∷ 0x00 ∷ 0x00 ∷ 0x48 ∷ 0xC7 ∷ 0xC7 ∷ 0x01 ∷ 0x00 ∷ 0x00
    ∷ 0x00 ∷ 0x5E ∷ 0x48 ∷ 0xC7 ∷ 0xC2 ∷ 0x01 ∷ 0x00 ∷ 0x00 ∷ 0x00 ∷ 0x0F ∷ 0x05 ∷ []

-- The move of the register to rax, but for rax itself.
abbrev pub load_printed : ℕ → List ℕ
load_printed index =
    if index == 0
    then []
    else if leb index 7
    then 0x48 ∷ 0x89 ∷ (0xC0 + index * 8) % 256 ∷ []
    else 0x49 ∷ 0x89 ∷ (0xC0 + (index - 8)) % 256 ∷ []

-- A name that is no register's gives no code, and no error.
unfoldable pub emit_register_print : List ℕ → List ℕ
emit_register_print name = elim (register_index register_names name) [
  | none ↦ []
  | some index ↦
      (0x50 ∷ 0x51 ∷ 0x52 ∷ [])
      ++ (load_printed index ++ (syscall_print_reg ++ (0x5A ∷ 0x59 ∷ 0x58 ∷ [])))
]

unfoldable pub emit_epilogue : List ℕ
emit_epilogue = 0xC9 ∷ 0xC3 ∷ []
