-- ===== src/Assembler/Dispatch/Names.antt =====
-- The instructions of emitArith with a number.
use forge_zero.Prelude.{ℕ, ◌≡◌, refl, ap, List, [], ◌∷◌, some, codes}
use forge_zero.Assembler.Text.{Answer, good, fault, panic, ◌>>=◌, trim_space, split_args}
use forge_zero.Assembler.Operand.{Operand, reg, imm, mem, label, parse_operand}
use forge_zero.Assembler.Encode.{arith_operands, with_operands, emit_arith}
use forge_zero.Assembler.Dispatch.{instructions, find_instruction, assemble}

arith_immediate :
    (x x' y n : ℕ) (a : Answer Operand)
    → (a >>= (λ d. good (imm n) >>= (λ s. arith_operands x y d s)))
      ≡ (a >>= (λ d. good (imm n) >>= (λ s. arith_operands x' y d s)))
unfolding arith_operands
arith_immediate x x' y n (good (reg d)) = refl
arith_immediate x x' y n (good (imm i)) = refl
arith_immediate x x' y n (good (mem m)) = refl
arith_immediate x x' y n (good (label l)) = refl
arith_immediate x x' y n fault = refl
arith_immediate x x' y n panic = refl

emit_arith_immediate :
    (x x' y n : ℕ) (a b s : List ℕ)
    → split_args (trim_space s) ≡ a ∷ b ∷ []
    → parse_operand b ≡ good (imm n)
    → emit_arith x y s ≡ emit_arith x' y s
unfolding emit_arith with_operands
emit_arith_immediate x x' y n a b s h k = rw (h, k) (arith_immediate x x' y n (parse_operand a))

-- With a number as the second operand, sub, and, or, xor, adc and sbb have the same outcome as
-- add.
pub assemble_immediate :
    (n : ℕ) (a b s : List ℕ)
    → split_args (trim_space s) ≡ a ∷ b ∷ []
    → parse_operand b ≡ good (imm n)
    → (assemble (codes "sub") s ≡ assemble (codes "add") s)
      × (assemble (codes "and") s ≡ assemble (codes "add") s)
      × (assemble (codes "or") s ≡ assemble (codes "add") s)
      × (assemble (codes "xor") s ≡ assemble (codes "add") s)
      × (assemble (codes "adc") s ≡ assemble (codes "add") s)
      × (assemble (codes "sbb") s ≡ assemble (codes "add") s)
unfolding assemble find_instruction instructions
assemble_immediate n a b s h k =
    let same : (x : ℕ) → some (emit_arith x 0x81 s) ≡ some (emit_arith 0 0x81 s) =
      λ x. ap some (emit_arith_immediate x 0 0x81 n a b s h k) in
    (same 0x28, same 0x20, same 0x08, same 0x30, same 0x10, same 0x18)
