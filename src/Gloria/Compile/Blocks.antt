-- ===== src/Gloria/Compile/Blocks.antt =====
-- `if`, `while` and `return` in `CompileFunc` of internal/gloria/emitter.go, and the loop over the
-- statements of a function.
-- A jump is patched where it stands in the code of its statement: the distance is the same.
pub mod Loops
pub mod Jumps
pub mod Names
pub mod Calls
use forge_zero.Prelude.{
  ℕ, zero, suc, ◌+◌, ◌-◌, ◌*◌, ◌/◌, ◌%◌, ◌^◌, List, [], ◌∷◌, ◌++◌, Bool, true, false, ◌&&◌, ◌||◌,
  not, Option, none, some, String, codes, bytes_eq, length, ltb, leb, ◌==◌, if◌then◌else◌, set,
  drop, little_endian,
}
use forge_zero.Gloria.Token.{TokenType}
use forge_zero.Gloria.Code.{
  abi_arg_regs, emit_mov_reg_to_stack, emit_mov_stack_to_reg, emit_cmp_reg_to_reg,
  emit_mov_imm64_to_reg, emit_add_reg_to_reg, emit_sub_reg_to_reg, emit_add_imm64_to_reg,
  emit_sub_imm64_to_reg, emit_epilogue, peephole,
}
use forge_zero.Gloria.Action.{
  Word, ◌is◌, says, State, Slots, no_slots, Outcome, done, failed, panicked, endless, stuck, Action,
  pure, fail, panic, hang, give_up, ◌>>=◌, next_word, peek_word, expect, with_fuel,
  get_stack_offset, declare_and_alloc, parse_uint,
}
use forge_zero.Gloria.Compile.{
  Code, arg_reg, parse_builtin_args, emit_builtin_call, poke_args, poke_values, builtin_call,
  print_statement, poke_statement, let_statement, body_statement, if_assign, while_assign,
  assign_statement,
}

-- The loop over the body of `if`, which may also end with the function.
-- A round of it; `again` is the rest of the loop.
unfoldable pub if_round : Action Code → Word → Action Code
if_round again w =
    if w is TokenType.rbrace || w is TokenType.eof
    then pure []
    else (do code ← body_statement if_assign w; more ← again; pure (code ++ more))

unfoldable pub if_body : ℕ → Action Code
if_body zero = give_up
if_body (suc fuel) = next_word >>= if_round (if_body fuel)

-- A round of it; `again` is the rest of the loop.
unfoldable pub while_round : Action Code → Word → Action Code
while_round again w =
    if w is TokenType.rbrace
    then pure []
    else if w is TokenType.eof
    then fail
    else (do code ← body_statement while_assign w; more ← again; pure (code ++ more))

unfoldable pub while_body : ℕ → Action Code
while_body zero = give_up
while_body (suc fuel) = next_word >>= while_round (while_body fuel)

-- Bytes that are written from a position on.
unfoldable pub patch : Code → ℕ → List ℕ → Code
patch code at [] = code
patch code at (b ∷ rest) = patch (set code at b) (suc at) rest

-- The 32-bit pattern of `to - from`.
abbrev pub distance : ℕ → ℕ → ℕ
distance to from = (to % 2 ^ 32 + (2 ^ 32 - from % 2 ^ 32)) % 2 ^ 32

-- The jump over the body, by the condition turned round.
abbrev pub jump_op : Word → ℕ
jump_op op = if op is TokenType.lt then 0x7D else if op is TokenType.gt then 0x7E else 0x75

abbrev pub if_head : ℕ → ℕ → Code
if_head l_offset r_offset =
    emit_mov_stack_to_reg 0 l_offset
    ++ (emit_mov_stack_to_reg 1 r_offset ++ emit_cmp_reg_to_reg 1 0)

-- The displacement of the jump is the byte in front of the body.
unfoldable pub if_code : Word → Code → Code → Code
if_code op head body = set (head ++ jump_op op ∷ 0 ∷ body) (length head + 1) (length body % 256)

unfoldable pub if_statement : Action Code
if_statement = do
  lhs ← expect TokenType.ident
  l_offset ← get_stack_offset lhs.text
  op ← next_word
  if not (op is TokenType.lt) && not (op is TokenType.gt) && not (op is TokenType.eq)
      then fail
      else (do
        rhs ← expect TokenType.ident
        r_offset ← get_stack_offset rhs.text
        _ ← expect TokenType.lbrace
        body ← with_fuel if_body
        if ltb 127 (length body) then fail else pure (if_code op (if_head l_offset r_offset) body))

abbrev pub while_head : ℕ → Code
while_head offset =
    emit_mov_stack_to_reg 0 offset ++ (emit_mov_imm64_to_reg 1 0 ++ emit_cmp_reg_to_reg 1 0)

abbrev pub unpatched : Code → Code → Code
unpatched head body = head ++ (0x0F ∷ 0x84 ∷ 0 ∷ 0 ∷ 0 ∷ 0 ∷ (body ++ 0xE9 ∷ 0 ∷ 0 ∷ 0 ∷ 0 ∷ []))

-- The jump back, and then the jump out of the loop.
unfoldable pub while_code : Code → Code → Code
while_code head body =
    let code = unpatched head body in
    let back = patch code (length code - 4) (little_endian 4 (distance 0 (length code))) in
    patch back (length head + 2) (little_endian 4 (distance (length code) (length head + 6)))

unfoldable pub while_statement : Action Code
while_statement = do
  condition ← expect TokenType.ident
  offset ← get_stack_offset condition.text
  _ ← expect TokenType.lbrace
  body ← with_fuel while_body
  pure (while_code (while_head offset) body)

-- The names in the brackets of a call or of a function. At the end of the tokens the loop goes round
-- for ever, as nothing but a bracket ends it.
-- A round of it; `again` is the rest of the loop.
unfoldable pub name_round : Action (List (List ℕ)) → Word → Action (List (List ℕ))
name_round again w =
    if w is TokenType.rparen
    then pure []
    else if w is TokenType.eof
    then hang
    else if w is TokenType.ident
    then (do
      behind ← next_word
      more ← (if behind is TokenType.rparen then pure [] else again)
      pure (w.text ∷ more))
    else again

unfoldable pub name_list : ℕ → Action (List (List ℕ))
name_list zero = give_up
name_list (suc fuel) = next_word >>= name_round (name_list fuel)

-- The registers of the arguments of a call.
unfoldable pub load_args : List ℕ → List (List ℕ) → Action Code
load_args regs [] = pure []
load_args regs (name ∷ rest) = do
  offset ← get_stack_offset name
  reg ← arg_reg regs
  more ← load_args (drop 1 regs) rest
  pure (emit_mov_stack_to_reg reg offset ++ more)

-- `Relocation`
pub record Relocation : Type 0 where
  pub call_instruction_offset : ℕ
  pub target_func_name : List ℕ

abbrev pub Final : Type 0
Final = Code × List Relocation

-- The code of a `return` with its epilogue.
abbrev pub finish : Code → Final
finish code = (code ++ emit_epilogue, [])

-- A call of a function, behind `at` bytes of code.
unfoldable pub return_call : ℕ → Word → Action Final
return_call at name = do
  args ← with_fuel name_list
  loads ← load_args abi_arg_regs args
  pure (
    loads ++ (0xE8 ∷ 0 ∷ 0 ∷ 0 ∷ 0 ∷ emit_epilogue),
    record { call_instruction_offset = at + length loads; target_func_name = name.text } ∷ [],
  )

unfoldable pub return_builtin : Word → Action Final
return_builtin name = do
  _ ← next_word
  args ← with_fuel parse_builtin_args
  code ← emit_builtin_call name args
  pure (finish code)

unfoldable pub return_poke : Action Final
return_poke = do
  _ ← next_word
  args ← with_fuel poke_args
  code ← poke_values args
  pure (finish code)

-- The right operand of a sum or a difference.
unfoldable pub return_operand : Word → Word → Action Code
return_operand op rhs =
    if rhs is TokenType.ident
    then (do
      r_offset ← get_stack_offset rhs.text
      pure (
          emit_mov_stack_to_reg 1 r_offset
          ++ (if op is TokenType.plus then emit_add_reg_to_reg 1 0 else emit_sub_reg_to_reg 1 0)))
    else pure (
        if op is TokenType.plus
        then emit_add_imm64_to_reg 0 (parse_uint rhs.text).0
        else emit_sub_imm64_to_reg 0 (parse_uint rhs.text).0)

unfoldable pub return_sum : Word → Action Final
return_sum lhs = do
  op ← next_word
  rhs ← next_word
  if not (rhs is TokenType.ident) && not (rhs is TokenType.int) then fail else (do
    l_offset ← get_stack_offset lhs.text
    operand ← return_operand op rhs
    pure (finish (emit_mov_stack_to_reg 0 l_offset ++ operand)))

unfoldable pub return_value : Word → Action Final
return_value w =
    if w is TokenType.ident
    then (do offset ← get_stack_offset w.text; pure (finish (emit_mov_stack_to_reg 0 offset)))
    else if w is TokenType.int
    then pure (finish (emit_mov_imm64_to_reg 0 (parse_uint w.text).0))
    else pure (finish [])

unfoldable pub return_word_statement : ℕ → Word → Word → Action Final
return_word_statement at w behind =
    if w is TokenType.ident && behind is TokenType.lparen
    then (if says w "out8" || says w "in8"
        then return_builtin w
        else if says w "poke"
        then return_poke
        else return_call at w)
    else if w is TokenType.ident && (behind is TokenType.plus || behind is TokenType.minus)
    then return_sum w
    else return_value w

unfoldable pub return_statement : ℕ → Action Final
return_statement at = do w ← next_word; behind ← peek_word; return_word_statement at w behind

-- A statement that begins with a name.
unfoldable pub name_statement : Word → Action Code
name_statement w =
    if says w "print"
    then print_statement
    else if says w "out8" || says w "in8"
    then builtin_call w
    else if says w "poke"
    then poke_statement
    else (do offset ← get_stack_offset w.text; op ← next_word; assign_statement offset op)

-- A statement that is no `return`. A token that begins none is skipped.
unfoldable pub statement : Word → Action Code
statement w =
    if w is TokenType.let_word
    then let_statement
    else if w is TokenType.if_word
    then if_statement
    else if w is TokenType.while_word
    then while_statement
    else if w is TokenType.ident
    then name_statement w
    else pure []

-- The loop over the statements, behind `at` bytes of code. `again` is the rest of it.
unfoldable pub statements_round : (ℕ → Action Final) → ℕ → Word → Action Final
statements_round again at w =
    if w is TokenType.eof
    then pure (finish [])
    else if w is TokenType.return_word
    then return_statement at
    else (do code ← statement w; more ← again (at + length code); pure (code ++ more.0, more.1))

unfoldable pub statements : ℕ → ℕ → Action Final
statements zero at = give_up
statements (suc fuel) at = next_word >>= statements_round (statements fuel) at

-- `EmitPrologue`: the frame of 128 bytes, and the arguments.
abbrev pub frame_code : Code
frame_code = 0x55 ∷ 0x48 ∷ 0x89 ∷ 0xE5 ∷ 0x48 ∷ 0x81 ∷ 0xEC ∷ 0x80 ∷ 0x00 ∷ 0x00 ∷ 0x00 ∷ []

unfoldable pub store_args : List ℕ → List (List ℕ) → Action Code
store_args regs [] = pure []
store_args regs (name ∷ rest) = do
  offset ← declare_and_alloc name
  reg ← arg_reg regs
  more ← store_args (drop 1 regs) rest
  pure (emit_mov_reg_to_stack reg offset ++ more)

unfoldable pub emit_prologue : List (List ℕ) → Action Code
emit_prologue args = do stores ← store_args abi_arg_regs args; pure (frame_code ++ stores)

-- The code of a function in front of the peephole pass, and its calls.
unfoldable pub function_code : List (List ℕ) → Action Final
function_code args = do
  prologue ← emit_prologue args
  final ← with_fuel (λ fuel. statements fuel (length prologue))
  pure (prologue ++ final.0, final.1)

unfoldable pub compile_func : List (List ℕ) → Action Final
compile_func args = do final ← function_code args; pure (peephole final.0, final.1)
