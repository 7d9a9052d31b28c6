-- ===== src/Gloria/Runs/Compiler.antt =====
-- Runs of the compiler on small programs, and its theorems at concrete inputs.
use forge_zero.Prelude.{
  ℕ, ◌+◌, ◌-◌, ◌*◌, ◌%◌, ◌^◌, ◌≤◌, ◌≡◌, refl, List, [], ◌∷◌, not, arith, length, codes, All, some,
  little_endian, inl,
}
use forge_zero.Gloria.Token.{TokenType}
use forge_zero.Gloria.Code.{peephole, emit_epilogue, emit_mov_reg_to_stack, emit_mov_stack_to_reg}
use forge_zero.Gloria.Action.{
  Word, State, no_slots, find_var, done, with_fuel, pure, ◌>>=◌, next_word, peek_word,
  declare_and_alloc, get_stack_offset,
}
use forge_zero.Gloria.Compile.{Code, arg_reg}
use forge_zero.Gloria.Compile.Blocks.{
  Final, while_code, name_list, function_code, compile_func, emit_prologue, store_args, statements,
  statements_round, return_statement, return_word_statement, return_call, name_round, load_args,
  patch,
}
use forge_zero.Gloria.Compile.Blocks.Jumps.{while_code_leads}
use forge_zero.Gloria.Compile.Blocks.Loops.{start, compile_func_slots}
use forge_zero.Gloria.Compile.Blocks.Names.{name_list_bracket, is_done, is_endless, has_bracket}
use forge_zero.Gloria.Compile.Blocks.Calls.{CallAt, function_code_call}
use forge_zero.Gloria.Link.{Program, built, link, patch_calls, patch_at, find_func}
use forge_zero.Gloria.Link.Patch.{read32}
use forge_zero.Gloria.Link.Lands.{ResolvedMain, ResolvedCall, link_lands}

abbrev word : TokenType → List ℕ → Word
word type text = record { type = type; text = text }

-- The body `return f(a)`.
abbrev one_call : List Word
one_call =
    word TokenType.return_word (codes "return")
    ∷ word TokenType.ident (codes "f")
    ∷ word TokenType.lparen (codes "(")
    ∷ word TokenType.ident (codes "a")
    ∷ word TokenType.rparen (codes ")")
    ∷ []

abbrev one_call_code : Code
one_call_code =
    85 ∷ 72 ∷ 137 ∷ 229 ∷ 72 ∷ 129 ∷ 236 ∷ 128 ∷ 0 ∷ 0 ∷ 0 ∷ 72 ∷ 137 ∷ 189 ∷ 248 ∷ 255 ∷ 255 ∷ 255
    ∷ 72 ∷ 139 ∷ 189 ∷ 248 ∷ 255 ∷ 255 ∷ 255 ∷ 232 ∷ 0 ∷ 0 ∷ 0 ∷ 0 ∷ 201 ∷ 195 ∷ []

abbrev one_call_final : Final
one_call_final =
    (one_call_code, record { call_instruction_offset = 25; target_func_name = codes "f" } ∷ [])

abbrev one_call_end : State
one_call_end = record { words = []; slots = record { vars = (codes "a", 8) ∷ []; depth = 8 } }

one_call_compiles :
    function_code (codes "a" ∷ []) (start one_call) ≡ done one_call_final one_call_end
unfolding function_code emit_prologue store_args declare_and_alloc find_var arg_reg pure ◌>>=◌
    next_word peek_word with_fuel statements statements_round return_statement return_word_statement
    return_call name_list name_round load_args get_stack_offset emit_mov_reg_to_stack
    emit_mov_stack_to_reg little_endian emit_epilogue
one_call_compiles = refl

one_call_kept : compile_func (codes "a" ∷ []) (start one_call) ≡ done one_call_final one_call_end
unfolding compile_func ◌>>=◌ pure peephole emit_epilogue
one_call_kept = rw one_call_compiles refl

found_a : find_var (codes "a") one_call_end.slots.vars ≡ some 8
unfolding find_var
found_a = refl

compile_func_slots_example :
    (codes "a" ≡ codes "a") × (8 ≤ 8) × (8 ≤ 8 * length one_call_end.slots.vars)
compile_func_slots_example =
    compile_func_slots (codes "a" ∷ []) one_call one_call_final one_call_end (codes "a") (codes "a")
      8 one_call_kept found_a found_a

function_code_call_example : CallAt 0 one_call_final
function_code_call_example =
    function_code_call (codes "a" ∷ []) (start one_call) one_call_end one_call_final
      one_call_compiles

-- Names without a bracket.
abbrev unclosed : List Word
unclosed = word TokenType.ident (codes "a") ∷ word TokenType.comma (codes ",") ∷ []

name_list_bracket_example :
    (is_done (with_fuel name_list (record { words = unclosed; slots = no_slots }))
      ≡ has_bracket unclosed)
    × (is_endless (with_fuel name_list (record { words = unclosed; slots = no_slots }))
        ≡ not (has_bracket unclosed))
name_list_bracket_example = name_list_bracket unclosed no_slots (refl, (refl, tt))

abbrev two_bytes : Code
two_bytes = 0x90 ∷ 0x91 ∷ []

while_code_leads_example :
    (length (while_code two_bytes two_bytes) ≡ length two_bytes + length two_bytes + 11)
    × ((length two_bytes + 6 + read32 (while_code two_bytes two_bytes) (length two_bytes + 2))
          % 2 ^ 32
        ≡ length (while_code two_bytes two_bytes) % 2 ^ 32)
    × ((length (while_code two_bytes two_bytes)
            + read32 (while_code two_bytes two_bytes) (length (while_code two_bytes two_bytes) - 4))
          % 2 ^ 32
        ≡ 0)
while_code_leads_example = while_code_leads two_bytes two_bytes

-- A move of one register to another.
abbrev other_move : Code
other_move = 0x48 ∷ 0x89 ∷ 0xD8 ∷ []

-- `main`, which calls `f` behind it.
abbrev two_functions : Program
two_functions = record {
  out = 0xE9 ∷ 0 ∷ 0 ∷ 0 ∷ 0 ∷ 0xE8 ∷ 0 ∷ 0 ∷ 0 ∷ 0 ∷ 0xC9 ∷ 0xC3 ∷ 0xC9 ∷ 0xC3 ∷ [];
  table = (codes "f", 12) ∷ (codes "main", 5) ∷ [];
  relocations = record { call_instruction_offset = 5; target_func_name = codes "f" } ∷ [];
}

abbrev two_functions_code : Code
two_functions_code = 0xE9 ∷ 0 ∷ 0 ∷ 0 ∷ 0 ∷ 0xE8 ∷ 2 ∷ 0 ∷ 0 ∷ 0 ∷ 0xC9 ∷ 0xC3 ∷ 0xC9 ∷ 0xC3 ∷ []

both_linked : link two_functions ≡ built two_functions_code
unfolding link patch_calls patch_at find_func patch little_endian
both_linked = refl

link_lands_example :
    ResolvedMain two_functions.table two_functions_code
    × All (ResolvedCall two_functions.table two_functions_code) two_functions.relocations
link_lands_example =
    link_lands two_functions two_functions_code both_linked refl (refl, tt) (inl (omega arith), tt)
      (tt, tt)

-- A program of one function.
abbrev small : List ℕ
small = codes "fn main() { return 7 }"
