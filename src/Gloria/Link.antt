-- ===== src/Gloria/Link.antt =====
-- `Emit` of internal/gloria/emitter.go: the functions of a source, and the code of the program.
pub mod Patch
pub mod Lands
pub mod Ends
use forge_zero.Prelude.{
  ℕ, zero, suc, ◌+◌, ◌-◌, ◌*◌, ◌/◌, ◌%◌, ◌^◌, List, [], ◌∷◌, ◌++◌, Bool, true, false, ◌&&◌, ◌||◌,
  not, Option, none, some, String, codes, bytes_eq, length, ltb, leb, ◌==◌, if◌then◌else◌, set, map,
  little_endian,
}
use forge_zero.Gloria.Token.{TokenType, Token, literal}
use forge_zero.Gloria.Lexer.{Lexer, new_lexer, next_token}
use forge_zero.Gloria.Action.{
  Word, ◌is◌, State, no_slots, Outcome, done, failed, panicked, endless, stuck, Action, pure, fail,
  panic, hang, give_up, ◌>>=◌, next_word, expect, with_fuel,
}
use forge_zero.Gloria.Compile.{Code}
use forge_zero.Gloria.Compile.Blocks.{patch, distance, name_list, Relocation, Final, compile_func}

abbrev pub to_word : List ℕ → Token → Word
to_word src t = record { type = t.type; text = literal t src }

-- The tokens in front of the end of the input. Behind it the lexer answers that end again and
-- again, as an action does behind its last token. There are none if the fuel runs out before.
unfoldable pub lex : ℕ → List ℕ → Lexer → Option (List Word)
lex zero src l = none
lex (suc fuel) src l =
    let (t, l') = next_token l in
    let rest = lex fuel src l' in
    if to_word src t is TokenType.eof
    then some []
    else (elim rest [ none ↦ none | some words ↦ some (to_word src t ∷ words) ])

-- `FuncAST`
pub record FuncAst : Type 0 where
  pub name : List ℕ
  pub args : List (List ℕ)
  pub body_tokens : List Word

-- The tokens of a body, in whose braces `depth` are open. `again` is the rest of the loop.
unfoldable pub body_round : (ℕ → Action (List Word)) → ℕ → Word → Action (List Word)
body_round again depth w =
    if w is TokenType.eof
    then fail
    else if w is TokenType.rbrace && depth == 1
    then pure []
    else (do
      more ← again (
          if w is TokenType.lbrace
          then depth + 1
          else if w is TokenType.rbrace
          then depth - 1
          else depth)
      pure (w ∷ more))

unfoldable pub body_words : ℕ → ℕ → Action (List Word)
body_words zero depth = give_up
body_words (suc fuel) depth = next_word >>= body_round (body_words fuel) depth

-- A function behind `fn`.
unfoldable pub function_decl : Action FuncAst
function_decl = do
  name ← expect TokenType.ident
  _ ← expect TokenType.lparen
  args ← with_fuel name_list
  _ ← expect TokenType.lbrace
  body ← with_fuel (λ fuel. body_words fuel 1)
  pure (record { name = name.text; args = args; body_tokens = body })

-- The first loop of `Emit`. Other tokens outside of functions are skipped.
unfoldable pub decls_round : Action (List FuncAst) → Word → Action (List FuncAst)
decls_round again w =
    if w is TokenType.eof
    then pure []
    else if w is TokenType.fn_word
    then (do decl ← function_decl; more ← again; pure (decl ∷ more))
    else again

unfoldable pub function_decls : ℕ → Action (List FuncAst)
function_decls zero = give_up
function_decls (suc fuel) = next_word >>= decls_round (function_decls fuel)

-- `funcTable`, with the function that was entered last in front: the offset of each.
abbrev pub Table : Type 0
Table = List (List ℕ × ℕ)

unfoldable pub find_func : List ℕ → Table → Option ℕ
find_func name [] = none
find_func name ((key, offset) ∷ rest) =
    let more = find_func name rest in if bytes_eq name key then some offset else more

-- The program so far.
pub record Program : Type 0 where
  pub out : Code
  pub table : Table
  pub relocations : List Relocation

-- A relocation of a function that begins at an offset.
abbrev pub shifted : ℕ → Relocation → Relocation
shifted offset r = record r { call_instruction_offset = r.call_instruction_offset + offset }

-- The code of a function is put behind the program.
unfoldable pub add_function : List ℕ → Final → Program → Program
add_function name (code, relocs) p = record {
  out = p.out ++ code;
  table = (name, length p.out) ∷ p.table;
  relocations = p.relocations ++ map (shifted (length p.out)) relocs;
}

-- What `Emit` answers: code, an error, a panic, or nothing for ever. `unfuelled` is the answer of a
-- model that has run out of fuel.
pub data Built {ℓ} (A : Type ℓ) : Type ℓ where
  built : A → Built A
  rejected : Built A
  crashed : Built A
  looping : Built A
  unfuelled : Built A

abbrev pub after_run {ℓ κ} : {A : Type ℓ} {B : Type κ} → (A → Built B) → Outcome A → Built B
after_run f (done a s) = f a
after_run f failed = rejected
after_run f panicked = crashed
after_run f endless = looping
after_run f stuck = unfuelled

abbrev pub run_on : List Word → State
run_on words = record { words = words; slots = no_slots }

-- The second loop of `Emit`.
unfoldable pub compile_decls : List FuncAst → Program → Built Program
compile_decls [] p = built p
compile_decls (d ∷ rest) p =
    after_run (λ final. compile_decls rest (add_function d.name final p))
      (compile_func d.args (run_on d.body_tokens))

-- Four bytes that are written one by one; a write past the end is a run-time panic.
unfoldable pub patch_at : Code → ℕ → ℕ → Built Code
patch_at out at value =
    if ltb (length out) (at + 4) then crashed else built (patch out at (little_endian 4 value))

abbrev pub after {ℓ κ} : {A : Type ℓ} {B : Type κ} → Built A → (A → Built B) → Built B
after (built a) f = f a
after rejected f = rejected
after crashed f = crashed
after looping f = looping
after unfuelled f = unfuelled

-- The displacement of a call.
abbrev pub patch_call : Relocation → Option ℕ → Code → Built Code
patch_call r none out = rejected
patch_call r (some target) out =
    patch_at out (r.call_instruction_offset + 1) (distance target (r.call_instruction_offset + 5))

unfoldable pub patch_calls : Table → List Relocation → Code → Built Code
patch_calls table [] out = built out
patch_calls table (r ∷ rest) out =
    after (patch_call r (find_func r.target_func_name table) out) (patch_calls table rest)

-- The jump to `main`, which is not there for every program.
abbrev pub patch_main : Option ℕ → Code → Built Code
patch_main none out = rejected
patch_main (some target) out = patch_at out 1 (distance target 5)

unfoldable pub link : Program → Built Code
link p =
    after (patch_main (find_func (codes "main") p.table) p.out) (patch_calls p.table p.relocations)

abbrev pub empty_program : Program
empty_program = record { out = 0xE9 ∷ 0 ∷ 0 ∷ 0 ∷ 0 ∷ []; table = []; relocations = [] }

unfoldable pub emit_words : List Word → Built Code
emit_words words =
    after_run (λ decls. after (compile_decls decls empty_program) link)
      (with_fuel function_decls (run_on words))

-- `Emit`; a source has no more tokens than bytes.
unfoldable pub emit : List ℕ → Built Code
emit src = elim (lex (suc (length src)) src (new_lexer src)) [
  | none ↦ unfuelled
  | some words ↦ emit_words words
]
