-- ===== src/Assembler/Jumps/Sites.antt =====
-- The relocations of the instructions that name a symbol.
use forge_zero.Prelude.{ℕ, ◌+◌, ◌%◌, ◌≡◌, List, [], ◌∷◌, ◌++◌, length, replicate}
use forge_zero.Assembler.Text.{Answer, good, trim_space}
use forge_zero.Assembler.Operand.{reg, label, parse_operand}
use forge_zero.Assembler.State.{Parser, emit_reference}
use forge_zero.Assembler.State.Site.{Refers, Answers, emit_reference-Answers}
use forge_zero.Assembler.Jumps.{
  r_x86_64_64, r_x86_64_pc32, minus_four, emit_jmp, jmp_operand, emit_jcc, jcc_operand, emit_call,
  emit_jump, mov_operands,
}

-- A relative reference behind an opcode.
abbrev pub AnswersRelative : Parser → List ℕ → List ℕ → Answer Parser → Type 0
AnswersRelative p name opcode a =
    Answers p name (Refers p name opcode (replicate 4 0) r_x86_64_pc32 minus_four) a

-- When call, jmp and the two kinds of conditional jumps are given a name that can be read as a
-- label, and mov a register and that label, then either the name is new and the table of symbols is
-- full, and there is an error, or the opcode of the instruction and as many zeros as the address has
-- bytes stand at the end of the current section, and one relocation is new, whose offset is that of
-- the first of the zeros and whose symbol has that name: of type PC32 with the addend -4, and of
-- type 64 with the addend 0 for mov.
pub label_instructions_refer :
    (p : Parser) (rest tail : List ℕ) (c opcode d : ℕ)
    → trim_space rest ≡ c ∷ tail
    → parse_operand (c ∷ tail) ≡ good (label (c ∷ tail))
    → AnswersRelative p (c ∷ tail) (0xE8 ∷ []) (emit_call p rest)
      × AnswersRelative p (c ∷ tail) (0x0F ∷ opcode ∷ []) (emit_jump opcode p rest)
      × AnswersRelative p (c ∷ tail) (0x0F ∷ opcode ∷ []) (emit_jcc opcode p rest)
      × AnswersRelative p (c ∷ tail) (0xE9 ∷ []) (emit_jmp p rest)
      × Answers p
          (c ∷ tail)
          (Refers p (c ∷ tail) (0x48 ∷ (0xB8 + d) % 256 ∷ []) (replicate 8 0) r_x86_64_64 0)
          (mov_operands (reg d) (label (c ∷ tail)) p)
unfolding emit_call emit_jump emit_jcc emit_jmp jcc_operand jmp_operand mov_operands
label_instructions_refer p rest tail c opcode d h k =
    let name : List ℕ = c ∷ tail in
    let relative : (bytes : List ℕ)
        → AnswersRelative p name bytes (
            emit_reference name (bytes ++ replicate 4 0) (length bytes) r_x86_64_pc32 minus_four
              p) =
      λ bytes. emit_reference-Answers p name bytes (replicate 4 0) r_x86_64_pc32 minus_four in
    (
      rw h (relative (0xE8 ∷ [])),
      rw h (relative (0x0F ∷ opcode ∷ [])),
      rw (h, k) (relative (0x0F ∷ opcode ∷ [])),
      rw (h, k) (relative (0xE9 ∷ [])),
      emit_reference-Answers p name (0x48 ∷ (0xB8 + d) % 256 ∷ []) (replicate 8 0) r_x86_64_64 0,
    )
