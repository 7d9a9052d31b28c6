-- ===== src/Fzp/Runs.antt =====
-- Runs of the preprocessor on concrete lines, and its theorems at concrete inputs.
use forge_zero.Prelude.{ℕ, ◌≡◌, refl, List, [], ◌∷◌, true, false, codes}
use forge_zero.Fzp.Tokens.{tokens, tokenize, next, token_at, operator, span}
use forge_zero.Fzp.Expr.{
  value, panic, evaluate, parse, parse_or, level, level_loop, parse_unary, parse_primary, pick,
  strict, partial, divide, decimal, atoi,
}
use forge_zero.Fzp.Expr.Ends.{evaluate_blind}
use forge_zero.Fzp.Conditions.{CondState, Processor, handle_conditional, top_active, elif_frame}
use forge_zero.Fzp.Conditions.Nesting.{IsNested, KeepsNesting, handle_conditional-IsNested}
use forge_zero.Fzp.Conditions.Chain.{elif_chosen, first_frame, after_elifs}

-- A test opens the whole evaluator.
abbrev sum_line : List ℕ
sum_line = codes "2 + 3 * (4 - 1) >= 11"

evaluate_sum : evaluate [] sum_line ≡ value 1
unfolding evaluate parse parse_or level level_loop parse_unary parse_primary pick strict tokenize
    tokens next token_at operator span atoi decimal
evaluate_sum = refl

-- The operator `&&` is lost: the value is that of its left side.
abbrev and_line : List ℕ
and_line = codes "1 && 0"

evaluate_and : evaluate [] and_line ≡ value 1
unfolding evaluate parse parse_or level level_loop parse_unary parse_primary pick tokenize tokens
    next token_at operator span atoi decimal
evaluate_and = refl

evaluate_by_zero : evaluate [] (codes "1 / 0") ≡ panic
unfolding evaluate parse parse_or level level_loop parse_unary parse_primary pick partial divide
    tokenize tokens next token_at operator span atoi decimal
evaluate_by_zero = refl

evaluate_blind_example : evaluate [] (codes "1    0") ≡ evaluate [] and_line
evaluate_blind_example = evaluate_blind [] and_line

abbrev one_frame : CondState
one_frame = record { active = true; branch_taken = true; parent_active = true }

abbrev in_branch : Processor
in_branch = record { macros = (codes "A", codes "1") ∷ []; cond_stack = one_frame ∷ [] }

in_branch-IsNested : IsNested in_branch.cond_stack
unfolding top_active
in_branch-IsNested = (refl, λ _. (refl, refl), tt)

handle_conditional-IsNested_example : KeepsNesting (handle_conditional in_branch (codes "#elif B"))
handle_conditional-IsNested_example =
    handle_conditional-IsNested in_branch (codes "#elif B") in_branch-IsNested

elif_chosen_example :
    (elif_frame true (after_elifs (false ∷ []) (first_frame true false))).active ≡ true
elif_chosen_example = elif_chosen true false true (false ∷ [])
