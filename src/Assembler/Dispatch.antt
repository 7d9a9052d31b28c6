-- ===== src/Assembler/Dispatch.antt =====
-- The dispatch of an instruction by its name, in parseLine of internal/assembler/emitter.go.
-- The names of the directives, of mov, call and the jumps, and the prefix lock stand in Lines.
pub mod Names
use forge_zero.Prelude.{
  ℕ, ◌/◌, ◌%◌, List, [], ◌∷◌, Option, none, some, String, codes, bytes_eq, ◌==◌, if◌then◌else◌,
}
use forge_zero.Assembler.Text.{Answer, good, fault, trim_space, parse_number}
use forge_zero.Assembler.Memory.{is_blank, skip_blanks, until}
use forge_zero.Assembler.Encode.{
  emit_arith, emit_unary, emit_inc, emit_dec, emit_mul_div, emit_push, emit_pop, emit_lea,
  emit_movzx, emit_movsx, emit_test, emit_shift, emit_xchg, emit_imul, emit_cmp,
}

-- `readToken`
unfoldable pub read_token : List ℕ → List ℕ × List ℕ
read_token line = until is_blank (skip_blanks line)

abbrev pub plain : List ℕ → List ℕ → Answer (List ℕ)
plain bytes rest = good bytes

-- The number of an interrupt; 3 has a byte of its own.
abbrev pub int_bytes : Option ℕ → Answer (List ℕ)
int_bytes none = fault
int_bytes (some n) = if n == 3 then good (0xCC ∷ []) else good (0xCD ∷ n % 256 ∷ [])

unfoldable pub emit_int : List ℕ → Answer (List ℕ)
emit_int rest = int_bytes (parse_number (read_token rest).0)

-- The error of the second number of `enter` is dropped, and its value is then 0.
abbrev pub level_of : Option ℕ → ℕ
level_of none = 0
level_of (some level) = level

abbrev pub enter_bytes : Option ℕ → ℕ → Answer (List ℕ)
enter_bytes none level = fault
enter_bytes (some n) level = good (0xC8 ∷ n % 256 ∷ n / 256 % 256 ∷ level % 256 ∷ [])

unfoldable pub emit_enter : List ℕ → Answer (List ℕ)
emit_enter rest =
    let (token, others) = read_token rest in
    enter_bytes (parse_number token) (level_of (parse_number (trim_space others)))

-- The names, in the order of the source.
unfoldable pub instructions : List (String × (List ℕ → Answer (List ℕ)))
instructions =
    ("add", emit_arith 0x00 0x81)
    ∷ ("sub", emit_arith 0x28 0x81)
    ∷ ("and", emit_arith 0x20 0x81)
    ∷ ("or", emit_arith 0x08 0x81)
    ∷ ("xor", emit_arith 0x30 0x81)
    ∷ ("adc", emit_arith 0x10 0x81)
    ∷ ("sbb", emit_arith 0x18 0x81)
    ∷ ("inc", emit_inc)
    ∷ ("dec", emit_dec)
    ∷ ("neg", emit_unary 0xF7 3)
    ∷ ("not", emit_unary 0xF7 2)
    ∷ ("push", emit_push)
    ∷ ("pop", emit_pop)
    ∷ ("pushf", plain (0x9C ∷ []))
    ∷ ("popf", plain (0x9D ∷ []))
    ∷ ("pusha", plain (0x60 ∷ []))
    ∷ ("popa", plain (0x61 ∷ []))
    ∷ ("lea", emit_lea)
    ∷ ("test", emit_test)
    ∷ ("shl", emit_shift 0xD2 4)
    ∷ ("shr", emit_shift 0xD2 5)
    ∷ ("sar", emit_shift 0xD2 7)
    ∷ ("sal", emit_shift 0xD2 4)
    ∷ ("rol", emit_shift 0xD2 0)
    ∷ ("ror", emit_shift 0xD2 1)
    ∷ ("rcl", emit_shift 0xD2 2)
    ∷ ("rcr", emit_shift 0xD2 3)
    ∷ ("mul", emit_mul_div 0xF7 4)
    ∷ ("div", emit_mul_div 0xF7 6)
    ∷ ("idiv", emit_mul_div 0xF7 7)
    ∷ ("movzx", emit_movzx)
    ∷ ("movsx", emit_movsx)
    ∷ ("xchg", emit_xchg)
    ∷ ("imul", emit_imul)
    ∷ ("cmp", emit_cmp)
    ∷ ("nop", plain (0x90 ∷ []))
    ∷ ("hlt", plain (0xF4 ∷ []))
    ∷ ("cli", plain (0xFA ∷ []))
    ∷ ("sti", plain (0xFB ∷ []))
    ∷ ("iret", plain (0xCF ∷ []))
    ∷ ("int", emit_int)
    ∷ ("ud2", plain (0x0F ∷ 0x0B ∷ []))
    ∷ ("cpuid", plain (0x0F ∷ 0xA2 ∷ []))
    ∷ ("rdtsc", plain (0x0F ∷ 0x31 ∷ []))
    ∷ ("syscall", plain (0x0F ∷ 0x05 ∷ []))
    ∷ ("sysret", plain (0x0F ∷ 0x07 ∷ []))
    ∷ ("swapgs", plain (0x0F ∷ 0x01 ∷ 0xF8 ∷ []))
    ∷ ("ret", plain (0xC3 ∷ []))
    ∷ ("retf", plain (0xCB ∷ []))
    ∷ ("enter", emit_enter)
    ∷ ("leave", plain (0xC9 ∷ []))
    ∷ ("pause", plain (0xF3 ∷ 0x90 ∷ []))
    ∷ []

unfoldable pub find_instruction :
    List (String × (List ℕ → Answer (List ℕ))) → List ℕ → List ℕ → Option (Answer (List ℕ))
find_instruction [] name rest = none
find_instruction ((key, emit) ∷ others) name rest =
    let more = find_instruction others name rest in
    if bytes_eq name (codes key) then some (emit rest) else more

-- The bytes of an instruction, by its name and the text behind it; none for another name.
unfoldable pub assemble : List ℕ → List ℕ → Option (Answer (List ℕ))
assemble name rest = find_instruction instructions name rest
