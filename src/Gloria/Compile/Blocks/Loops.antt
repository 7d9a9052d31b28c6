-- ===== src/Gloria/Compile/Blocks/Loops.antt =====
-- The compilation of a function ends, but for a call without a closing bracket, and keeps its
-- variables apart.
use forge_zero.Prelude.{
  ℕ, zero, suc, ◌*◌, ◌≤◌, ◌<◌, ◌≡◌, ◌≢◌, refl, List, [], ◌∷◌, true, arith, length, drop, some,
  subst, bytes_eq, Bool-cases, inl, inr,
}
use forge_zero.Gloria.Action.{no_slots, find_var, Word, State, done, stuck, Action, with_fuel}
use forge_zero.Gloria.Action.Runs.{
  Laid, IsLaid, Fine, Runs, Runs-read, Runs-with_fuel, Runs-pure, Runs-fail, Runs-panic, Runs-hang,
  runs_rules,
}
use forge_zero.Gloria.Compile.{Code, arg_reg, body_statement, if_assign, while_assign}
use forge_zero.Gloria.Compile.Statements.{
  Runs-emit_builtin_call, Runs-fuelled_builtin_args, Runs-fuelled_poke_args, Runs-poke_values,
  Runs-builtin_call, Runs-print_statement, Runs-poke_statement, Runs-let_statement,
  Runs-body_statement, Runs-if_assign, Runs-while_assign, Runs-assign_statement,
}
use forge_zero.Gloria.Compile.Blocks.{
  if_round, if_body, while_round, while_body, if_statement, while_statement, name_round, name_list,
  load_args, Final, return_call, return_builtin, return_poke, return_operand, return_sum,
  return_value, return_word_statement, return_statement, name_statement, statement,
  statements_round, statements, store_args, emit_prologue, function_code, compile_func,
}

Runs-if_item : (n : ℕ) (w : Word) → Runs n (body_statement if_assign w)
Runs-if_item n w = Runs-body_statement n if_assign w (Runs-if_assign n)

Runs-while_item : (n : ℕ) (w : Word) → Runs n (body_statement while_assign w)
Runs-while_item n w = Runs-body_statement n while_assign w (Runs-while_assign n)

Runs-if_round : (n : ℕ) (again : Action Code) (w : Word) → Runs n again → Runs n (if_round again w)
unfolding if_round
Runs-if_round n again w h = search (runs_rules, Runs-if_item) depth 16

Runs-if_body : (n fuel : ℕ) → n < fuel → Runs n (if_body fuel)
unfolding if_body
Runs-if_body n zero h = absurd (omega arith)
Runs-if_body n (suc fuel) h =
    Runs-read n (if_round (if_body fuel)) (unfold if_round in Runs-pure 0 [])
      (λ w k l. Runs-if_round k _ w (Runs-if_body k fuel (omega arith)))

Runs-fuelled_if_body : (n : ℕ) → Runs n (with_fuel if_body)
Runs-fuelled_if_body n = Runs-with_fuel n if_body Runs-if_body

Runs-while_round :
    (n : ℕ) (again : Action Code) (w : Word) → Runs n again → Runs n (while_round again w)
unfolding while_round
Runs-while_round n again w h = search (runs_rules, Runs-while_item) depth 16

Runs-while_body : (n fuel : ℕ) → n < fuel → Runs n (while_body fuel)
unfolding while_body
Runs-while_body n zero h = absurd (omega arith)
Runs-while_body n (suc fuel) h =
    Runs-read n (while_round (while_body fuel)) (unfold while_round in Runs-fail 0)
      (λ w k l. Runs-while_round k _ w (Runs-while_body k fuel (omega arith)))

Runs-fuelled_while_body : (n : ℕ) → Runs n (with_fuel while_body)
Runs-fuelled_while_body n = Runs-with_fuel n while_body Runs-while_body

Runs-name_round :
    (n : ℕ) (again : Action (List (List ℕ))) (w : Word) → Runs n again → Runs n (name_round again w)
unfolding name_round
Runs-name_round n again w h = search (runs_rules) depth 16

Runs-name_list : (n fuel : ℕ) → n < fuel → Runs n (name_list fuel)
unfolding name_list
Runs-name_list n zero h = absurd (omega arith)
Runs-name_list n (suc fuel) h =
    Runs-read n (name_round (name_list fuel)) (unfold name_round in Runs-hang 0)
      (λ w k l. Runs-name_round k _ w (Runs-name_list k fuel (omega arith)))

pub Runs-fuelled_name_list : (n : ℕ) → Runs n (with_fuel name_list)
Runs-fuelled_name_list n = Runs-with_fuel n name_list Runs-name_list

pub Runs-if_statement : (n : ℕ) → Runs n (if_statement)
unfolding if_statement
Runs-if_statement n = search (runs_rules, Runs-fuelled_if_body) depth 16

pub Runs-while_statement : (n : ℕ) → Runs n (while_statement)
unfolding while_statement
Runs-while_statement n = search (runs_rules, Runs-fuelled_while_body) depth 16

Runs-arg_reg : (n : ℕ) (regs : List ℕ) → Runs n (arg_reg regs)
unfolding arg_reg
Runs-arg_reg n [] = Runs-panic n
Runs-arg_reg n (r ∷ rest) = Runs-pure n r

Runs-load_args : (n : ℕ) (regs : List ℕ) (args : List (List ℕ)) → Runs n (load_args regs args)
unfolding load_args
Runs-load_args n regs [] = Runs-pure n []
Runs-load_args n regs (name ∷ rest) =
    search (runs_rules, Runs-arg_reg, (λ (r : ℕ). Runs-load_args n (drop 1 regs) rest)) depth 16

Runs-store_args : (n : ℕ) (regs : List ℕ) (args : List (List ℕ)) → Runs n (store_args regs args)
unfolding store_args
Runs-store_args n regs [] = Runs-pure n []
Runs-store_args n regs (name ∷ rest) =
    search (runs_rules, Runs-arg_reg, (λ (r : ℕ). Runs-store_args n (drop 1 regs) rest)) depth 16

pub Runs-return_call : (n : ℕ) (at : ℕ) (name : Word) → Runs n (return_call at name)
unfolding return_call
Runs-return_call n at name = search (runs_rules, Runs-fuelled_name_list, Runs-load_args) depth 16

pub Runs-return_builtin : (n : ℕ) (name : Word) → Runs n (return_builtin name)
unfolding return_builtin
Runs-return_builtin n name =
    search (runs_rules, Runs-fuelled_builtin_args, Runs-emit_builtin_call) depth 16

pub Runs-return_poke : (n : ℕ) → Runs n (return_poke)
unfolding return_poke
Runs-return_poke n = search (runs_rules, Runs-fuelled_poke_args, Runs-poke_values) depth 16

pub Runs-return_operand : (n : ℕ) (op : Word) (rhs : Word) → Runs n (return_operand op rhs)
unfolding return_operand
Runs-return_operand n op rhs = search (runs_rules) depth 16

pub Runs-return_sum : (n : ℕ) (lhs : Word) → Runs n (return_sum lhs)
unfolding return_sum
Runs-return_sum n lhs = search (runs_rules, Runs-return_operand) depth 16

pub Runs-return_value : (n : ℕ) (w : Word) → Runs n (return_value w)
unfolding return_value
Runs-return_value n w = search (runs_rules) depth 16

pub Runs-return_word_statement :
    (n : ℕ) (at : ℕ) (w : Word) (behind : Word) → Runs n (return_word_statement at w behind)
unfolding return_word_statement
Runs-return_word_statement n at w behind =
    search
      (
        runs_rules, Runs-return_call, Runs-return_builtin, Runs-return_poke, Runs-return_sum,
        Runs-return_value,
      )
      depth 16

pub Runs-return_statement : (n : ℕ) (at : ℕ) → Runs n (return_statement at)
unfolding return_statement
Runs-return_statement n at = search (runs_rules, Runs-return_word_statement) depth 16

pub Runs-name_statement : (n : ℕ) (w : Word) → Runs n (name_statement w)
unfolding name_statement
Runs-name_statement n w =
    search
      (
        runs_rules, Runs-print_statement, Runs-builtin_call, Runs-poke_statement,
        Runs-assign_statement,
      )
      depth 16

pub Runs-statement : (n : ℕ) (w : Word) → Runs n (statement w)
unfolding statement
Runs-statement n w =
    search
      (runs_rules, Runs-let_statement, Runs-if_statement, Runs-while_statement, Runs-name_statement)
      depth 16

Runs-statements_round :
    (n : ℕ) (again : ℕ → Action Final) (at : ℕ) (w : Word)
    → ((at' : ℕ) → Runs n (again at'))
    → Runs n (statements_round again at w)
unfolding statements_round
Runs-statements_round n again at w h =
    search (runs_rules, Runs-return_statement, Runs-statement, h) depth 16

Runs-statements : (n fuel at : ℕ) → n < fuel → Runs n (statements fuel at)
unfolding statements
Runs-statements n zero at h = absurd (omega arith)
Runs-statements n (suc fuel) at h =
    Runs-read n (statements_round (statements fuel) at) (unfold statements_round in Runs-pure 0 _)
      (λ w k l.
        Runs-statements_round k (statements fuel) at w
          (λ at'. Runs-statements k fuel at' (omega arith)))

Runs-fuelled_statements : (n at : ℕ) → Runs n (with_fuel (λ fuel. statements fuel at))
Runs-fuelled_statements n at =
    Runs-with_fuel n (λ fuel. statements fuel at) (λ k fuel h. Runs-statements k fuel at h)

pub Runs-emit_prologue : (n : ℕ) (args : List (List ℕ)) → Runs n (emit_prologue args)
unfolding emit_prologue
Runs-emit_prologue n args = search (runs_rules, Runs-store_args) depth 16

pub Runs-function_code : (n : ℕ) (args : List (List ℕ)) → Runs n (function_code args)
unfolding function_code
Runs-function_code n args =
    search (runs_rules, Runs-emit_prologue, Runs-fuelled_statements) depth 16

pub Runs-compile_func : (n : ℕ) (args : List (List ℕ)) → Runs n (compile_func args)
unfolding compile_func
Runs-compile_func n args = search (runs_rules, Runs-function_code) depth 16

-- The state in which `CompileFunc` begins.
abbrev pub start : List Word → State
start words = record { words = words; slots = no_slots }

-- Whatever the arguments and the tokens of a function, its compilation does not run out of the
-- fuel of the model, and when it answers code, the variables lie at the depths 8, 16 and so on.
pub compile_func_ends :
    (args : List (List ℕ)) (words : List Word)
    → (compile_func args (start words) ≢ stuck)
      × ((final : Final) (s : State)
          → compile_func args (start words) ≡ done final s
          → IsLaid s.slots)
compile_func_ends args words =
    let fine : Fine (start words) (compile_func args (start words)) =
      (Runs-compile_func (length words) args).at (start words) (omega arith) in
    (
      λ e. subst (Fine (start words)) e fine,
      λ final s e. (subst (Fine (start words)) e fine).1 (omega arith, tt),
    )

bytes_eq_sound : (a b : List ℕ) → bytes_eq a b ≡ true → a ≡ b
bytes_eq_sound [] [] h = refl
bytes_eq_sound [] (y ∷ b) h = absurd (ground arith)
bytes_eq_sound (x ∷ a) [] h = absurd (ground arith)
bytes_eq_sound (x ∷ a) (y ∷ b) h = ground (arith, bytes_eq_sound a b)

find_var_bound :
    (vars : List (List ℕ × ℕ)) (name : List ℕ) (d : ℕ)
    → Laid vars
    → find_var name vars ≡ some d
    → (8 ≤ d) × (d ≤ 8 * length vars)
unfolding find_var
find_var_bound [] name d l h = absurd (ground arith)
find_var_bound ((key, depth) ∷ rest) name d (e, l) h = elim (Bool-cases (bytes_eq name key)) [
  | inl same ↦ ground (arith, same)
  | inr other ↦ ground (arith, other, find_var_bound rest name d l)
]

find_var_apart :
    (vars : List (List ℕ × ℕ)) (a b : List ℕ) (d : ℕ)
    → Laid vars
    → find_var a vars ≡ some d
    → find_var b vars ≡ some d
    → a ≡ b
unfolding find_var
find_var_apart [] a b d l h k = absurd (ground arith)
find_var_apart ((key, depth) ∷ rest) a b d (e, l) h k = ground (
  arith,
  bytes_eq_sound a key,
  bytes_eq_sound b key,
  find_var_bound rest a d l,
  find_var_bound rest b d l,
  find_var_apart rest a b d l,
)

-- When the compilation of a function answers code, names with the same slot are the same name, and
-- a slot lies at least 8 bytes deep and at most 8 bytes for each variable.
pub compile_func_slots :
    (args : List (List ℕ)) (words : List Word) (final : Final) (s : State) (a b : List ℕ) (d : ℕ)
    → compile_func args (start words) ≡ done final s
    → find_var a s.slots.vars ≡ some d
    → find_var b s.slots.vars ≡ some d
    → (a ≡ b) × (8 ≤ d) × (d ≤ 8 * length s.slots.vars)
compile_func_slots args words final s a b d e h k =
    let (depth, laid) = (compile_func_ends args words).1 final s e in
    let (low, high) = find_var_bound s.slots.vars a d laid h in
    (find_var_apart s.slots.vars a b d laid h k, low, high)
