-- ===== src/Assembler/Jumps.antt =====
-- The instructions of internal/assembler/x86.go that name a symbol: mov, call and the jumps.
-- An error ends the program's run on the source, so that the state that it leaves is left out.
pub mod Valid
pub mod Sites
use forge_zero.Prelude.{
  little_endian, ℕ, ◌+◌, ◌-◌, ◌%◌, ◌^◌, List, [], ◌∷◌, ◌++◌, ltb, if◌then◌else◌, replicate,
}
use forge_zero.Assembler.Text.{Answer, good, fault, panic, ◌>>=◌, trim_space, split_args}
use forge_zero.Assembler.Operand.{Operand, reg, imm, mem, label, parse_operand}
use forge_zero.Assembler.Encode.{encode_mod_rm, write_mem_operand}
use forge_zero.Assembler.State.{Parser, append_bytes, emit_reference}

-- The types of relocations, and -4 as the addend of a relative one.
abbrev pub r_x86_64_64 : ℕ
r_x86_64_64 = 1

abbrev pub r_x86_64_pc32 : ℕ
r_x86_64_pc32 = 2

abbrev pub minus_four : ℕ
minus_four = 2 ^ 64 - 4

abbrev pub emit_relative : List ℕ → ℕ → List ℕ → Parser → Answer Parser
emit_relative bytes at name p = emit_reference name bytes at r_x86_64_pc32 minus_four p

unfoldable pub jmp_operand : Operand → Parser → Answer Parser
jmp_operand (label name) p = emit_relative (0xE9 ∷ 0 ∷ 0 ∷ 0 ∷ 0 ∷ []) 1 name p
jmp_operand (reg r) p = good (append_bytes (0xFF ∷ (0xE0 + r) % 256 ∷ []) p)
jmp_operand (mem m) p = good (append_bytes (0xFF ∷ write_mem_operand m 4) p)
jmp_operand (imm n) p = fault

unfoldable pub emit_jmp : Parser → List ℕ → Answer Parser
emit_jmp p rest = parse_operand (trim_space rest) >>= (λ op. jmp_operand op p)

unfoldable pub jcc_operand : ℕ → Operand → Parser → Answer Parser
jcc_operand opcode (label name) p = emit_relative (0x0F ∷ opcode ∷ 0 ∷ 0 ∷ 0 ∷ 0 ∷ []) 2 name p
jcc_operand opcode _ p = fault

unfoldable pub emit_jcc : ℕ → Parser → List ℕ → Answer Parser
emit_jcc opcode p rest = parse_operand (trim_space rest) >>= (λ op. jcc_operand opcode op p)

-- `emitCall` and `emitJump` take any text for a name.
abbrev pub emit_named : List ℕ → ℕ → List ℕ → Parser → Answer Parser
emit_named bytes at [] p = fault
emit_named bytes at (c ∷ rest) p = emit_relative bytes at (c ∷ rest) p

unfoldable pub emit_call : Parser → List ℕ → Answer Parser
emit_call p rest = emit_named (0xE8 ∷ 0 ∷ 0 ∷ 0 ∷ 0 ∷ []) 1 (trim_space rest) p

unfoldable pub emit_jump : ℕ → Parser → List ℕ → Answer Parser
emit_jump opcode p rest = emit_named (0x0F ∷ opcode ∷ 0 ∷ 0 ∷ 0 ∷ 0 ∷ []) 2 (trim_space rest) p

-- A number of more than 32 bits has the form with 64 bits.
abbrev pub mov_immediate : ℕ → ℕ → List ℕ
mov_immediate r n =
    if ltb 0xFFFFFFFF n
    then 0x48 ∷ (0xB8 + r) % 256 ∷ little_endian 8 n
    else (0xB8 + r) % 256 ∷ little_endian 4 n

-- `emitMov` on its operands.
unfoldable pub mov_operands : Operand → Operand → Parser → Answer Parser
mov_operands (reg d) (reg s) p = good (append_bytes (0x48 ∷ 0x89 ∷ encode_mod_rm 3 s d ∷ []) p)
mov_operands (reg d) (imm n) p = good (append_bytes (mov_immediate d n) p)
mov_operands (mem m) (reg s) p = good (append_bytes (0x48 ∷ 0x89 ∷ write_mem_operand m s) p)
mov_operands (reg d) (mem m) p = good (append_bytes (0x48 ∷ 0x8B ∷ write_mem_operand m d) p)
mov_operands (reg d) (label name) p =
    emit_reference name (0x48 ∷ (0xB8 + d) % 256 ∷ replicate 8 0) 2 r_x86_64_64 0 p
mov_operands _ _ p = fault

abbrev pub mov_args : List (List ℕ) → Parser → Answer Parser
mov_args (first ∷ second ∷ []) p =
    parse_operand first >>= (λ d. parse_operand second >>= (λ s. mov_operands d s p))
mov_args _ p = fault

unfoldable pub emit_mov : Parser → List ℕ → Answer Parser
emit_mov p rest = mov_args (split_args (trim_space rest)) p
