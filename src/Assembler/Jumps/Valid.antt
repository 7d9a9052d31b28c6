-- ===== src/Assembler/Jumps/Valid.antt =====
-- The invariant of the parser behind mov, call and the jumps.
use forge_zero.Prelude.{ℕ, ◌+◌, ◌≤◌, List, [], ◌∷◌, length, arith}
use forge_zero.Assembler.Text.{Answer, good, fault, panic, ◌>>=◌, trim_space, split_args}
use forge_zero.Assembler.Operand.{Operand, reg, imm, mem, label, parse_operand}
use forge_zero.Assembler.State.{Parser}
use forge_zero.Assembler.State.Fits.{Valid, ValidAnswer, append_bytes-Valid}
use forge_zero.Assembler.State.References.{emit_reference-Valid}
use forge_zero.Assembler.Jumps.{
  emit_relative, jmp_operand, emit_jmp, jcc_operand, emit_jcc, emit_named, emit_call, emit_jump,
  mov_operands, mov_args, emit_mov,
}

-- What comes behind an answer.
pub >>=-ValidAnswer :
    {A : Type 0} (a : Answer A) (f : A → Answer Parser)
    → ((x : A) → ValidAnswer (f x))
    → ValidAnswer (a >>= f)
>>=-ValidAnswer (good x) f h = h x
>>=-ValidAnswer fault f h = tt
>>=-ValidAnswer panic f h = tt

emit_relative-Valid :
    (bytes : List ℕ) (at : ℕ) (name : List ℕ) (p : Parser)
    → at + 4 ≤ length bytes
    → Valid p
    → ValidAnswer (emit_relative bytes at name p)
emit_relative-Valid bytes at name p fits h =
    emit_reference-Valid name bytes at _ _ p (omega arith) (omega arith) (omega (arith, fits)) h

jmp_operand-Valid : (op : Operand) (p : Parser) → Valid p → ValidAnswer (jmp_operand op p)
unfolding jmp_operand
jmp_operand-Valid (label name) p h = emit_relative-Valid _ _ name p (omega arith) h
jmp_operand-Valid (reg r) p h = append_bytes-Valid _ p h
jmp_operand-Valid (mem m) p h = append_bytes-Valid _ p h
jmp_operand-Valid (imm n) p h = tt

pub emit_jmp-Valid : (p : Parser) (rest : List ℕ) → Valid p → ValidAnswer (emit_jmp p rest)
unfolding emit_jmp
emit_jmp-Valid p rest h =
    >>=-ValidAnswer (parse_operand (trim_space rest)) _ (λ op. jmp_operand-Valid op p h)

jcc_operand-Valid :
    (opcode : ℕ) (op : Operand) (p : Parser) → Valid p → ValidAnswer (jcc_operand opcode op p)
unfolding jcc_operand
jcc_operand-Valid opcode (label name) p h = emit_relative-Valid _ _ name p (omega arith) h
jcc_operand-Valid opcode (reg r) p h = tt
jcc_operand-Valid opcode (mem m) p h = tt
jcc_operand-Valid opcode (imm n) p h = tt

pub emit_jcc-Valid :
    (opcode : ℕ) (p : Parser) (rest : List ℕ) → Valid p → ValidAnswer (emit_jcc opcode p rest)
unfolding emit_jcc
emit_jcc-Valid opcode p rest h =
    >>=-ValidAnswer (parse_operand (trim_space rest)) _ (λ op. jcc_operand-Valid opcode op p h)

emit_named-Valid :
    (bytes : List ℕ) (at : ℕ) (name : List ℕ) (p : Parser)
    → at + 4 ≤ length bytes
    → Valid p
    → ValidAnswer (emit_named bytes at name p)
emit_named-Valid bytes at [] p fits h = tt
emit_named-Valid bytes at (c ∷ rest) p fits h = emit_relative-Valid bytes at (c ∷ rest) p fits h

pub emit_call-Valid : (p : Parser) (rest : List ℕ) → Valid p → ValidAnswer (emit_call p rest)
unfolding emit_call
emit_call-Valid p rest h = emit_named-Valid _ _ (trim_space rest) p (omega arith) h

pub emit_jump-Valid :
    (opcode : ℕ) (p : Parser) (rest : List ℕ) → Valid p → ValidAnswer (emit_jump opcode p rest)
unfolding emit_jump
emit_jump-Valid opcode p rest h = emit_named-Valid _ _ (trim_space rest) p (omega arith) h

mov_operands-Valid : (d s : Operand) (p : Parser) → Valid p → ValidAnswer (mov_operands d s p)
unfolding mov_operands
mov_operands-Valid (reg d) (reg s) p h = append_bytes-Valid _ p h
mov_operands-Valid (reg d) (imm n) p h = append_bytes-Valid _ p h
mov_operands-Valid (reg d) (mem m) p h = append_bytes-Valid _ p h
mov_operands-Valid (reg d) (label name) p h =
    emit_reference-Valid name _ _ _ _ p (omega arith) (omega arith) (omega arith) h
mov_operands-Valid (mem m) (reg s) p h = append_bytes-Valid _ p h
mov_operands-Valid (mem m) (imm n) p h = tt
mov_operands-Valid (mem m) (mem n) p h = tt
mov_operands-Valid (mem m) (label name) p h = tt
mov_operands-Valid (imm n) s p h = tt
mov_operands-Valid (label name) s p h = tt

mov_args-Valid : (args : List (List ℕ)) (p : Parser) → Valid p → ValidAnswer (mov_args args p)
mov_args-Valid [] p h = tt
mov_args-Valid (first ∷ []) p h = tt
mov_args-Valid (first ∷ second ∷ []) p h =
    >>=-ValidAnswer (parse_operand first) _
      (λ d. >>=-ValidAnswer (parse_operand second) _ (λ s. mov_operands-Valid d s p h))
mov_args-Valid (first ∷ second ∷ third ∷ more) p h = tt

pub emit_mov-Valid : (p : Parser) (rest : List ℕ) → Valid p → ValidAnswer (emit_mov p rest)
unfolding emit_mov
emit_mov-Valid p rest h = mov_args-Valid (split_args (trim_space rest)) p h
