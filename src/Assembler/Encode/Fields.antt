-- ===== src/Assembler/Encode/Fields.antt =====
-- The fields of an encoded instruction.
use forge_zero.Prelude.{ℕ, ◌/◌, ◌%◌, ◌<◌, ◌≡◌, refl, List, [], ◌∷◌, arith}
use forge_zero.Assembler.Text.{good, trim_space, split_args}
use forge_zero.Assembler.Memory.{Memory}
use forge_zero.Assembler.Operand.{reg, mem, parse_operand}
use forge_zero.Assembler.Encode.{encode_mod_rm, arith_operands, with_operands, emit_arith}

-- The three fields of a ModRM byte with a mode and register codes in range are read back from it,
-- and it is a byte.
pub encode_mod_rm_fields :
    (m r rm : ℕ)
    → m < 4
    → r < 8
    → rm < 8
    → (encode_mod_rm m r rm < 256)
      × (encode_mod_rm m r rm / 64 ≡ m)
      × (encode_mod_rm m r rm / 8 % 8 ≡ r)
      × (encode_mod_rm m r rm % 8 ≡ rm)
unfolding encode_mod_rm
encode_mod_rm_fields m r rm h k l = (omega arith, omega arith, omega arith, omega arith)

-- An arithmetic instruction with a register and a memory operand encodes to the same bytes
-- whichever of the two is the destination.
pub emit_arith_direction :
    (op_reg_reg op_reg_imm r : ℕ) (m : Memory) (a b s t : List ℕ)
    → parse_operand a ≡ good (reg r)
    → parse_operand b ≡ good (mem m)
    → split_args (trim_space s) ≡ a ∷ b ∷ []
    → split_args (trim_space t) ≡ b ∷ a ∷ []
    → emit_arith op_reg_reg op_reg_imm s ≡ emit_arith op_reg_reg op_reg_imm t
unfolding emit_arith with_operands arith_operands
emit_arith_direction op_reg_reg op_reg_imm r m a b s t h k e f = rw (e, f, h, k) refl
