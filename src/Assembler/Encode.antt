-- ===== src/Assembler/Encode.antt =====
-- The instructions of internal/assembler/x86.go: the bytes that each adds to the section.
-- Mov, and those that name a symbol, stand in Jumps.
pub mod Fields
pub mod Address
use forge_zero.Prelude.{
  little_endian, ℕ, zero, suc, ◌+◌, ◌-◌, ◌*◌, ◌/◌, ◌%◌, ◌^◌, List, [], ◌∷◌, ◌++◌, Bool, true, false,
  ◌&&◌, ◌||◌, not, ltb, leb, ◌==◌, if◌then◌else◌,
}
use forge_zero.Assembler.Text.{Answer, good, fault, panic, ◌>>=◌, trim_space, split_args}
use forge_zero.Assembler.Memory.{Memory}
use forge_zero.Assembler.Operand.{Operand, reg, imm, mem, label, parse_operand}

unfoldable pub encode_mod_rm : ℕ → ℕ → ℕ → ℕ
encode_mod_rm mod_bits r rm = mod_bits * 64 % 256 + r % 8 * 8 + rm % 8

unfoldable pub encode_sib : ℕ → ℕ → ℕ → ℕ
encode_sib scale index base = scale % 4 * 64 + index % 8 * 8 + base % 8

-- -128 <= disp <= 127, on the pattern of an int64.
abbrev pub is_short : ℕ → Bool
is_short disp = leb disp 127 || leb (2 ^ 64 - 128) disp

-- `writeMemOperand`; the order of the tests is that of the source.
unfoldable pub write_mem_operand : Memory → ℕ → List ℕ
write_mem_operand m r =
    if not (m.index == 255)
    then (if m.disp == 0
        then encode_mod_rm 0 r 4 ∷ encode_sib m.scale m.index m.base ∷ []
        else if is_short m.disp
        then encode_mod_rm 1 r 4 ∷ encode_sib m.scale m.index m.base ∷ m.disp % 256 ∷ []
        else encode_mod_rm 2 r 4
          ∷ encode_sib m.scale m.index m.base
          ∷ little_endian 4 (m.disp % 2 ^ 32))
    else if m.base == 255
    then encode_mod_rm 0 r 5 ∷ little_endian 4 (m.disp % 2 ^ 32)
    else if m.disp == 0
    then encode_mod_rm 0 r m.base ∷ []
    else if is_short m.disp
    then encode_mod_rm 1 r m.base ∷ m.disp % 256 ∷ []
    else encode_mod_rm 2 r m.base ∷ little_endian 4 (m.disp % 2 ^ 32)

-- A number as a 32-bit immediate, or an error if it does not fit.
abbrev pub imm32 : List ℕ → ℕ → Answer (List ℕ)
imm32 front n = if ltb (2 ^ 32 - 1) n then fault else good (front ++ little_endian 4 n)

-- `emitArith` on its operands.
unfoldable pub arith_operands : ℕ → ℕ → Operand → Operand → Answer (List ℕ)
arith_operands op_reg_reg op_reg_imm (reg d) (reg s) =
    good (0x48 ∷ op_reg_reg ∷ encode_mod_rm 3 s d ∷ [])
arith_operands op_reg_reg op_reg_imm (reg d) (imm n) =
    imm32 (0x48 ∷ op_reg_imm ∷ encode_mod_rm 3 0 d ∷ []) n
arith_operands op_reg_reg op_reg_imm (mem m) (reg s) =
    good (0x48 ∷ op_reg_reg ∷ write_mem_operand m s)
arith_operands op_reg_reg op_reg_imm (reg d) (mem m) =
    good (0x48 ∷ op_reg_reg ∷ write_mem_operand m d)
arith_operands op_reg_reg op_reg_imm (mem m) (imm n) =
    imm32 (0x48 ∷ op_reg_imm ∷ write_mem_operand m 0) n
arith_operands op_reg_reg op_reg_imm _ _ = fault

-- `emitUnary`, and `emitInc`, `emitDec` and `emitMulDiv`, which are the same code.
unfoldable pub unary_operand : ℕ → ℕ → Operand → Answer (List ℕ)
unary_operand opcode ext (reg r) = good (0x48 ∷ opcode ∷ encode_mod_rm 3 ext r ∷ [])
unary_operand opcode ext (mem m) = good (0x48 ∷ opcode ∷ write_mem_operand m ext)
unary_operand opcode ext _ = fault

unfoldable pub push_operand : Operand → Answer (List ℕ)
push_operand (reg r) = good ((0x50 + r) % 256 ∷ [])
push_operand (imm n) = imm32 (0x68 ∷ []) n
push_operand (mem m) = good (0xFF ∷ write_mem_operand m 6)
push_operand (label name) = fault

unfoldable pub pop_operand : Operand → Answer (List ℕ)
pop_operand (reg r) = good ((0x58 + r) % 256 ∷ [])
pop_operand (mem m) = good (0x8F ∷ write_mem_operand m 0)
pop_operand _ = fault

-- `emitLea`, `emitMovzx` and `emitMovsx` behind their opcodes.
unfoldable pub load_operands : List ℕ → Operand → Operand → Answer (List ℕ)
load_operands opcode (reg d) (mem m) = good (opcode ++ write_mem_operand m d)
load_operands opcode _ _ = fault

unfoldable pub test_operands : Operand → Operand → Answer (List ℕ)
test_operands (reg d) (reg s) = good (0x48 ∷ 0x85 ∷ encode_mod_rm 3 s d ∷ [])
test_operands (reg d) (imm n) = imm32 (0x48 ∷ 0xF7 ∷ encode_mod_rm 3 0 d ∷ []) n
test_operands (mem m) (reg s) = good (0x48 ∷ 0x85 ∷ write_mem_operand m s)
test_operands _ _ = fault

unfoldable pub shift_operands : ℕ → ℕ → Operand → Operand → Answer (List ℕ)
shift_operands opcode ext (reg d) (imm n) =
    good (0x48 ∷ opcode ∷ encode_mod_rm 3 ext d ∷ n % 256 ∷ [])
shift_operands opcode ext (mem m) (imm n) =
    good ((0x48 ∷ opcode ∷ write_mem_operand m ext) ++ n % 256 ∷ [])
shift_operands opcode ext _ _ = fault

unfoldable pub xchg_operands : Operand → Operand → Answer (List ℕ)
xchg_operands (reg d) (reg s) = good (0x48 ∷ 0x87 ∷ encode_mod_rm 3 s d ∷ [])
xchg_operands (mem m) (reg s) = good (0x48 ∷ 0x87 ∷ write_mem_operand m s)
xchg_operands (reg d) (mem m) = good (0x48 ∷ 0x87 ∷ write_mem_operand m d)
xchg_operands _ _ = fault

unfoldable pub imul_operands : Operand → Operand → Answer (List ℕ)
imul_operands (reg d) (reg s) = good (0x48 ∷ 0x0F ∷ 0xAF ∷ encode_mod_rm 3 s d ∷ [])
imul_operands (reg d) (mem m) = good (0x48 ∷ 0x0F ∷ 0xAF ∷ write_mem_operand m d)
imul_operands _ _ = fault

unfoldable pub cmp_operands : Operand → Operand → Answer (List ℕ)
cmp_operands (reg d) (reg s) = good (0x48 ∷ 0x39 ∷ encode_mod_rm 3 s d ∷ [])
cmp_operands (reg d) (imm n) = imm32 (0x48 ∷ 0x81 ∷ encode_mod_rm 3 7 d ∷ []) n
cmp_operands (mem m) (reg s) = good (0x48 ∷ 0x39 ∷ write_mem_operand m s)
cmp_operands (mem m) (imm n) = imm32 (0x48 ∷ 0x81 ∷ write_mem_operand m 7) n
cmp_operands _ _ = fault

-- An instruction with one operand, and one with two.
unfoldable pub with_operand : (Operand → Answer (List ℕ)) → List ℕ → Answer (List ℕ)
with_operand encode rest = parse_operand (trim_space rest) >>= encode

abbrev pub with_args : (Operand → Operand → Answer (List ℕ)) → List (List ℕ) → Answer (List ℕ)
with_args encode (first ∷ second ∷ []) =
    parse_operand first >>= (λ d. parse_operand second >>= (λ s. encode d s))
with_args encode _ = fault

unfoldable pub with_operands : (Operand → Operand → Answer (List ℕ)) → List ℕ → Answer (List ℕ)
with_operands encode rest = with_args encode (split_args (trim_space rest))

unfoldable pub emit_arith : ℕ → ℕ → List ℕ → Answer (List ℕ)
emit_arith op_reg_reg op_reg_imm = with_operands (arith_operands op_reg_reg op_reg_imm)

unfoldable pub emit_unary : ℕ → ℕ → List ℕ → Answer (List ℕ)
emit_unary opcode ext = with_operand (unary_operand opcode ext)

unfoldable pub emit_inc : List ℕ → Answer (List ℕ)
emit_inc = with_operand (unary_operand 0xFF 0)

unfoldable pub emit_dec : List ℕ → Answer (List ℕ)
emit_dec = with_operand (unary_operand 0xFF 1)

unfoldable pub emit_mul_div : ℕ → ℕ → List ℕ → Answer (List ℕ)
emit_mul_div opcode ext = with_operand (unary_operand opcode ext)

unfoldable pub emit_push : List ℕ → Answer (List ℕ)
emit_push = with_operand push_operand

unfoldable pub emit_pop : List ℕ → Answer (List ℕ)
emit_pop = with_operand pop_operand

unfoldable pub emit_lea : List ℕ → Answer (List ℕ)
emit_lea = with_operands (load_operands (0x48 ∷ 0x8D ∷ []))

unfoldable pub emit_movzx : List ℕ → Answer (List ℕ)
emit_movzx = with_operands (load_operands (0x0F ∷ 0xB6 ∷ []))

unfoldable pub emit_movsx : List ℕ → Answer (List ℕ)
emit_movsx = with_operands (load_operands (0x0F ∷ 0xBE ∷ []))

unfoldable pub emit_test : List ℕ → Answer (List ℕ)
emit_test = with_operands test_operands

unfoldable pub emit_shift : ℕ → ℕ → List ℕ → Answer (List ℕ)
emit_shift opcode ext = with_operands (shift_operands opcode ext)

unfoldable pub emit_xchg : List ℕ → Answer (List ℕ)
emit_xchg = with_operands xchg_operands

unfoldable pub emit_imul : List ℕ → Answer (List ℕ)
emit_imul = with_operands imul_operands

unfoldable pub emit_cmp : List ℕ → Answer (List ℕ)
emit_cmp = with_operands cmp_operands
