-- ===== src/Gloria/Compile.antt =====
-- The statements of a function in `CompileFunc` of internal/gloria/emitter.go, but for `if`, `while`
-- and `return`.
-- Each answers the code that the source appends to `out`. The loops over the tokens have fuel for
-- each token.
pub mod Blocks
pub mod Statements
use forge_zero.Prelude.{
  ℕ, zero, suc, ◌+◌, ◌-◌, ◌*◌, ◌/◌, ◌%◌, ◌^◌, List, [], ◌∷◌, ◌++◌, Bool, true, false, ◌&&◌, ◌||◌,
  not, Option, none, some, String, codes, bytes_eq, length, ltb, leb, ◌==◌, if◌then◌else◌, set,
  little_endian,
}
use forge_zero.Gloria.Token.{TokenType}
use forge_zero.Gloria.Code.{
  abi_arg_regs, emit_mov_reg_to_stack, emit_mov_stack_to_reg, emit_cmp_reg_to_reg,
  emit_mov_imm64_to_reg, emit_mov_imm16_to_reg, emit_mov_imm8_to_reg, emit_add_reg_to_reg,
  emit_sub_reg_to_reg, emit_add_imm64_to_reg, emit_sub_imm64_to_reg, emit_bare_metal_print,
  emit_number_print, emit_register_print, emit_epilogue, peephole,
}
use forge_zero.Gloria.Action.{
  Word, ◌is◌, says, State, Slots, no_slots, Outcome, done, failed, panicked, endless, stuck, Action,
  pure, fail, panic, hang, give_up, ◌>>=◌, next_word, peek_word, expect, with_fuel,
  get_stack_offset, declare_and_alloc, parse_uint,
}

abbrev pub Code : Type 0
Code = List ℕ

-- `parseBuiltinArgs`, with a unit of fuel for each argument.
-- A round of it; `again` is the rest of the loop.
unfoldable pub builtin_arg : Action (List (List ℕ)) → Word → Action (List (List ℕ))
builtin_arg again arg =
    if arg is TokenType.rparen || arg is TokenType.eof
    then pure []
    else if arg is TokenType.comma
    then again
    else if not (arg is TokenType.ident) && not (arg is TokenType.int)
    then fail
    else (do
      behind ← next_word
      if behind is TokenType.rparen
          then pure (arg.text ∷ [])
          else if behind is TokenType.comma
          then (do more ← again; pure (arg.text ∷ more))
          else fail)

unfoldable pub parse_builtin_args : ℕ → Action (List (List ℕ))
parse_builtin_args zero = give_up
parse_builtin_args (suc fuel) = next_word >>= builtin_arg (parse_builtin_args fuel)

-- The register of an argument; there are six, and an index past them is a run-time panic.
unfoldable pub arg_reg : List ℕ → Action ℕ
arg_reg [] = panic
arg_reg (r ∷ rest) = pure r

-- A number, or a variable from its slot, to a register.
unfoldable pub load_arg : ℕ → List ℕ → Action Code
load_arg reg arg =
    let (v, no_error) = parse_uint arg in
    if no_error
    then pure (emit_mov_imm64_to_reg reg v)
    else (do offset ← get_stack_offset arg; pure (emit_mov_stack_to_reg reg offset))

-- The port of `out8` and `in8`.
unfoldable pub load_port : List ℕ → Action Code
load_port arg =
    let (v, no_error) = parse_uint arg in
    if no_error
    then (if ltb 0xFFFF v then fail else pure (emit_mov_imm16_to_reg 2 v))
    else (do offset ← get_stack_offset arg; pure (emit_mov_stack_to_reg 2 offset))

-- The value of `out8`.
unfoldable pub load_byte : List ℕ → Action Code
load_byte arg =
    let (v, no_error) = parse_uint arg in
    if no_error
    then (if ltb 0xFF v then fail else pure (emit_mov_imm8_to_reg 0 v))
    else (do offset ← get_stack_offset arg; pure (emit_mov_stack_to_reg 0 offset))

unfoldable pub emit_out8 : List (List ℕ) → Action Code
emit_out8 (port ∷ value ∷ []) = do
  p ← load_port port
  v ← load_byte value
  pure (p ++ (v ++ 0xEE ∷ []))
emit_out8 args = fail

unfoldable pub emit_in8 : List (List ℕ) → Action Code
emit_in8 (port ∷ []) = do p ← load_port port; pure (p ++ (0xEC ∷ 0x48 ∷ 0x0F ∷ 0xB6 ∷ 0xC0 ∷ []))
emit_in8 args = fail

-- `emitBuiltinCall` behind the name, of which there are two.
unfoldable pub emit_builtin_call : Word → List (List ℕ) → Action Code
emit_builtin_call name args =
    if says name "out8" then emit_out8 args else if says name "in8" then emit_in8 args else pure []

-- The bracket and the arguments of a built-in call, and the call.
unfoldable pub builtin_call : Word → Action Code
builtin_call name = do
  _ ← expect TokenType.lparen
  args ← with_fuel parse_builtin_args
  emit_builtin_call name args

-- `print` with its bracket.
unfoldable pub print_value : Word → Action Code
print_value arg =
    if arg is TokenType.rparen
    then fail
    else if arg is TokenType.string
    then (do _ ← expect TokenType.rparen; pure (emit_bare_metal_print arg.text))
    else if arg is TokenType.int
    then (do _ ← expect TokenType.rparen; pure (emit_number_print arg.text))
    else if arg is TokenType.ident
    then (do _ ← expect TokenType.rparen; pure (emit_register_print arg.text))
    else fail

unfoldable pub print_statement : Action Code
print_statement = do _ ← expect TokenType.lparen; arg ← next_word; print_value arg

-- The loop over the arguments of `poke`: a token that is no name and no number is left out, and
-- so is one behind an argument that is no bracket.
-- A round of it; `again` is the rest of the loop.
unfoldable pub poke_arg : Action (List (List ℕ)) → Word → Action (List (List ℕ))
poke_arg again arg = if arg is TokenType.rparen || arg is TokenType.eof then pure [] else (do
  behind ← next_word
  more ← (if behind is TokenType.rparen then pure [] else again)
  pure (if arg is TokenType.ident || arg is TokenType.int then arg.text ∷ more else more))

unfoldable pub poke_args : ℕ → Action (List (List ℕ))
poke_args zero = give_up
poke_args (suc fuel) = next_word >>= poke_arg (poke_args fuel)

unfoldable pub poke_values : List (List ℕ) → Action Code
poke_values (address ∷ value ∷ []) = do
  a ← load_arg 7 address
  v ← load_arg 6 value
  pure (a ++ (v ++ 0x66 ∷ 0x89 ∷ 0x37 ∷ []))
poke_values args = fail

unfoldable pub poke_statement : Action Code
poke_statement = do _ ← expect TokenType.lparen; args ← with_fuel poke_args; poke_values args

-- The load behind the address of `peek`.
unfoldable pub peek_value : List ℕ → Action Code
peek_value address = do a ← load_arg 7 address; pure (a ++ 0x0F ∷ 0xB7 ∷ 0x07 ∷ [])

-- `peek` with its brackets, as `let` takes it.
unfoldable pub let_peek : Action Code
let_peek = do
  _ ← expect TokenType.lparen
  address ← next_word
  if not (address is TokenType.ident) && not (address is TokenType.int)
      then fail
      else (do _ ← expect TokenType.rparen; peek_value address.text)

unfoldable pub let_value : Word → Action Code
let_value rhs =
    if rhs is TokenType.int
    then pure (emit_mov_imm64_to_reg 0 (parse_uint rhs.text).0)
    else if rhs is TokenType.ident && says rhs "peek"
    then let_peek
    else if rhs is TokenType.ident && says rhs "in8"
    then builtin_call rhs
    else fail

unfoldable pub let_statement : Action Code
let_statement = do
  name ← expect TokenType.ident
  _ ← expect TokenType.assign
  offset ← declare_and_alloc name.text
  rhs ← next_word
  value ← let_value rhs
  pure (value ++ emit_mov_reg_to_stack 0 offset)

-- `+=` and `-=` with a number.
abbrev pub add_number : Word → ℕ → ℕ → Code
add_number op offset v =
    emit_mov_stack_to_reg 0 offset
    ++ ((if op is TokenType.plus_assign
          then emit_add_imm64_to_reg 0 v
          else emit_sub_imm64_to_reg 0 v)
        ++ emit_mov_reg_to_stack 0 offset)

-- `+=` and `-=` with a variable.
abbrev pub add_var : Word → ℕ → ℕ → Code
add_var op offset r_offset =
    emit_mov_stack_to_reg 0 offset
    ++ (emit_mov_stack_to_reg 1 r_offset
        ++ ((if op is TokenType.plus_assign
              then emit_add_reg_to_reg 1 0
              else emit_sub_reg_to_reg 1 0)
            ++ emit_mov_reg_to_stack 0 offset))

abbrev pub is_add : Word → Bool
is_add op = op is TokenType.plus_assign || op is TokenType.minus_assign

-- A value that is put in rax and then stored.
unfoldable pub stored : ℕ → Action Code → Action Code
stored offset load = do value ← load; pure (value ++ emit_mov_reg_to_stack 0 offset)

abbrev pub number_code : Word → Code
number_code w = emit_mov_imm64_to_reg 0 (parse_uint w.text).0

-- An assignment in the body of `if`: only a number may stand on its right; another token there is
-- read and gives no code.
unfoldable pub if_assign : ℕ → Word → Action Code
if_assign offset op =
    if op is TokenType.assign
    then (do
      rhs ← next_word
      if rhs is TokenType.int then stored offset (pure (number_code rhs)) else pure [])
    else if is_add op
    then (do
      rhs ← next_word
      if rhs is TokenType.int then pure (add_number op offset (parse_uint rhs.text).0) else pure [])
    else pure []

-- In the body of `while`, `in8` may stand on the right, too.
unfoldable pub while_assign : ℕ → Word → Action Code
while_assign offset op =
    if op is TokenType.assign
    then (do
      rhs ← next_word
      if rhs is TokenType.int
          then stored offset (pure (number_code rhs))
          else if rhs is TokenType.ident && says rhs "in8"
          then stored offset (builtin_call rhs)
          else pure [])
    else if is_add op
    then (do
      rhs ← next_word
      if rhs is TokenType.int then pure (add_number op offset (parse_uint rhs.text).0) else pure [])
    else pure []

-- `peek` on the right of an assignment; its closing bracket is left for the loop.
unfoldable pub assign_peek : Action Code
assign_peek = do _ ← expect TokenType.lparen; address ← next_word; peek_value address.text

-- An assignment outside of a body. One variable assigned to another stores rax in both.
unfoldable pub assign_value : ℕ → Word → Action Code
assign_value offset rhs =
    if rhs is TokenType.int
    then stored offset (pure (number_code rhs))
    else if rhs is TokenType.ident && says rhs "in8"
    then stored offset (builtin_call rhs)
    else if rhs is TokenType.ident && says rhs "peek"
    then stored offset assign_peek
    else if rhs is TokenType.ident
    then (do
      r_offset ← get_stack_offset rhs.text
      pure (emit_mov_reg_to_stack 0 r_offset ++ emit_mov_reg_to_stack 0 offset))
    else pure []

unfoldable pub add_value : ℕ → Word → Word → Action Code
add_value offset op rhs =
    if rhs is TokenType.int
    then pure (add_number op offset (parse_uint rhs.text).0)
    else if rhs is TokenType.ident
    then (do r_offset ← get_stack_offset rhs.text; pure (add_var op offset r_offset))
    else pure []

unfoldable pub assign_statement : ℕ → Word → Action Code
assign_statement offset op =
    if op is TokenType.assign
    then (do rhs ← next_word; assign_value offset rhs)
    else if is_add op
    then (do rhs ← next_word; add_value offset op rhs)
    else pure []

-- A statement in a body: `print`, a built-in call, or an assignment. Any other token is skipped.
unfoldable pub body_statement : (ℕ → Word → Action Code) → Word → Action Code
body_statement assign w =
    if w is TokenType.ident && says w "print"
    then print_statement
    else if w is TokenType.ident && (says w "out8" || says w "in8")
    then builtin_call w
    else if w is TokenType.ident
    then (do offset ← get_stack_offset w.text; op ← next_word; assign offset op)
    else pure []
