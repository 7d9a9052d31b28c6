-- ===== src/Gloria/Compile/Statements.antt =====
-- The statements of a function end, and keep its variables apart.
use forge_zero.Prelude.{ℕ, zero, suc, ◌<◌, List, [], ◌∷◌, arith}
use forge_zero.Gloria.Action.{Word, Action, with_fuel}
use forge_zero.Gloria.Action.Runs.{
  Runs, Runs-read, Runs-with_fuel, Runs-pure, Runs-fail, runs_rules,
}
use forge_zero.Gloria.Compile.{
  builtin_arg, poke_arg, Code, load_arg, load_port, load_byte, emit_out8, emit_in8,
  emit_builtin_call, parse_builtin_args, builtin_call, print_value, print_statement, poke_args,
  poke_values, poke_statement, peek_value, let_peek, let_value, let_statement, stored, if_assign,
  while_assign, assign_peek, assign_value, add_value, assign_statement, body_statement,
}

Runs-load_arg : (n reg : ℕ) (arg : List ℕ) → Runs n (load_arg reg arg)
unfolding load_arg
Runs-load_arg n reg arg = search (runs_rules) depth 16

Runs-load_port : (n : ℕ) (arg : List ℕ) → Runs n (load_port arg)
unfolding load_port
Runs-load_port n arg = search (runs_rules) depth 16

Runs-load_byte : (n : ℕ) (arg : List ℕ) → Runs n (load_byte arg)
unfolding load_byte
Runs-load_byte n arg = search (runs_rules) depth 16

Runs-emit_out8 : (n : ℕ) (args : List (List ℕ)) → Runs n (emit_out8 args)
unfolding emit_out8
Runs-emit_out8 n [] = Runs-fail n
Runs-emit_out8 n (a ∷ []) = Runs-fail n
Runs-emit_out8 n (a ∷ b ∷ []) = search (runs_rules, Runs-load_port, Runs-load_byte) depth 16
Runs-emit_out8 n (a ∷ b ∷ c ∷ rest) = Runs-fail n

Runs-builtin_arg :
    (n : ℕ) (again : Action (List (List ℕ))) (w : Word)
    → Runs n again
    → Runs n (builtin_arg again w)
unfolding builtin_arg
Runs-builtin_arg n again w h = search (runs_rules) depth 16

pub Runs-parse_builtin_args : (n fuel : ℕ) → n < fuel → Runs n (parse_builtin_args fuel)
unfolding parse_builtin_args
Runs-parse_builtin_args n zero h = absurd (omega arith)
Runs-parse_builtin_args n (suc fuel) h =
    Runs-read n (builtin_arg (parse_builtin_args fuel)) (unfold builtin_arg in Runs-pure 0 [])
      (λ w k l. Runs-builtin_arg k _ w (Runs-parse_builtin_args k fuel (omega arith)))

Runs-poke_arg :
    (n : ℕ) (again : Action (List (List ℕ))) (w : Word) → Runs n again → Runs n (poke_arg again w)
unfolding poke_arg
Runs-poke_arg n again w h = search (runs_rules) depth 16

pub Runs-poke_args : (n fuel : ℕ) → n < fuel → Runs n (poke_args fuel)
unfolding poke_args
Runs-poke_args n zero h = absurd (omega arith)
Runs-poke_args n (suc fuel) h =
    Runs-read n (poke_arg (poke_args fuel)) (unfold poke_arg in Runs-pure 0 [])
      (λ w k l. Runs-poke_arg k _ w (Runs-poke_args k fuel (omega arith)))

Runs-emit_in8 : (n : ℕ) (args : List (List ℕ)) → Runs n (emit_in8 args)
unfolding emit_in8
Runs-emit_in8 n [] = Runs-fail n
Runs-emit_in8 n (a ∷ []) = search (runs_rules, Runs-load_port) depth 16
Runs-emit_in8 n (a ∷ b ∷ rest) = Runs-fail n

pub Runs-emit_builtin_call :
    (n : ℕ) (name : Word) (args : List (List ℕ)) → Runs n (emit_builtin_call name args)
unfolding emit_builtin_call
Runs-emit_builtin_call n name args = search (runs_rules, Runs-emit_out8, Runs-emit_in8) depth 16

pub Runs-fuelled_builtin_args : (n : ℕ) → Runs n (with_fuel parse_builtin_args)
Runs-fuelled_builtin_args n = Runs-with_fuel n parse_builtin_args Runs-parse_builtin_args

pub Runs-fuelled_poke_args : (n : ℕ) → Runs n (with_fuel poke_args)
Runs-fuelled_poke_args n = Runs-with_fuel n poke_args Runs-poke_args

pub Runs-builtin_call : (n : ℕ) (name : Word) → Runs n (builtin_call name)
unfolding builtin_call
Runs-builtin_call n name =
    search (runs_rules, Runs-fuelled_builtin_args, Runs-emit_builtin_call) depth 16

pub Runs-print_value : (n : ℕ) (arg : Word) → Runs n (print_value arg)
unfolding print_value
Runs-print_value n arg = search (runs_rules) depth 16

pub Runs-print_statement : (n : ℕ) → Runs n (print_statement)
unfolding print_statement
Runs-print_statement n = search (runs_rules, Runs-print_value) depth 16

pub Runs-poke_values : (n : ℕ) (args : List (List ℕ)) → Runs n (poke_values args)
unfolding poke_values
Runs-poke_values n [] = Runs-fail n
Runs-poke_values n (a ∷ []) = Runs-fail n
Runs-poke_values n (a ∷ b ∷ []) = search (runs_rules, Runs-load_arg) depth 16
Runs-poke_values n (a ∷ b ∷ c ∷ rest) = Runs-fail n

pub Runs-poke_statement : (n : ℕ) → Runs n (poke_statement)
unfolding poke_statement
Runs-poke_statement n = search (runs_rules, Runs-fuelled_poke_args, Runs-poke_values) depth 16

pub Runs-peek_value : (n : ℕ) (address : List ℕ) → Runs n (peek_value address)
unfolding peek_value
Runs-peek_value n address = search (runs_rules, Runs-load_arg) depth 16

pub Runs-let_peek : (n : ℕ) → Runs n (let_peek)
unfolding let_peek
Runs-let_peek n = search (runs_rules, Runs-peek_value) depth 16

pub Runs-let_value : (n : ℕ) (rhs : Word) → Runs n (let_value rhs)
unfolding let_value
Runs-let_value n rhs = search (runs_rules, Runs-let_peek, Runs-builtin_call) depth 16

pub Runs-let_statement : (n : ℕ) → Runs n (let_statement)
unfolding let_statement
Runs-let_statement n = search (runs_rules, Runs-let_value) depth 16

Runs-stored : (n offset : ℕ) (load : Action Code) → Runs n load → Runs n (stored offset load)
unfolding stored
Runs-stored n offset load h = search (runs_rules, h) depth 16

pub Runs-if_assign : (n : ℕ) (offset : ℕ) (op : Word) → Runs n (if_assign offset op)
unfolding if_assign
Runs-if_assign n offset op = search (runs_rules, Runs-stored) depth 16

pub Runs-while_assign : (n : ℕ) (offset : ℕ) (op : Word) → Runs n (while_assign offset op)
unfolding while_assign
Runs-while_assign n offset op = search (runs_rules, Runs-stored, Runs-builtin_call) depth 16

pub Runs-assign_peek : (n : ℕ) → Runs n (assign_peek)
unfolding assign_peek
Runs-assign_peek n = search (runs_rules, Runs-peek_value) depth 16

pub Runs-assign_value : (n : ℕ) (offset : ℕ) (rhs : Word) → Runs n (assign_value offset rhs)
unfolding assign_value
Runs-assign_value n offset rhs =
    search (runs_rules, Runs-stored, Runs-builtin_call, Runs-assign_peek) depth 16

pub Runs-add_value :
    (n : ℕ) (offset : ℕ) (op : Word) (rhs : Word) → Runs n (add_value offset op rhs)
unfolding add_value
Runs-add_value n offset op rhs = search (runs_rules) depth 16

pub Runs-assign_statement : (n : ℕ) (offset : ℕ) (op : Word) → Runs n (assign_statement offset op)
unfolding assign_statement
Runs-assign_statement n offset op = search (runs_rules, Runs-assign_value, Runs-add_value) depth 16

pub Runs-body_statement :
    (n : ℕ) (assign : ℕ → Word → Action Code) (w : Word)
    → ((offset : ℕ) (op : Word) → Runs n (assign offset op))
    → Runs n (body_statement assign w)
unfolding body_statement
Runs-body_statement n assign w h =
    search (runs_rules, Runs-print_statement, Runs-builtin_call, h) depth 16
