-- ===== src/Fzp/Expr/Ends.antt =====
-- The evaluator ends on every expression.
use forge_zero.Prelude.{
  ℕ, suc, ◌≤◌, ◌<◌, ◌≡◌, refl, List, [], ◌∷◌, true, Option, none, some, arith, length, All, map,
}
use forge_zero.Fzp.Tokens.{Token}
use forge_zero.Fzp.Tokens.Blind.{blank_out, tokenize_blind}
use forge_zero.Fzp.Expr.{
  Outcome, value, panic, stuck, Parser, Operator, Macros, Table, evaluate, peek_value, advance,
}

-- A result that is not out of fuel, and that leaves at most `b` tokens.
abbrev pub Fine : ℕ → Outcome (ℕ × List Token) → Type 0
Fine b (value (v, rest)) = length rest ≤ b
Fine b panic = Unit
Fine b stuck = ⊥

-- A parser that ends on fewer than `n` tokens, and adds none.
abbrev pub Ready : ℕ → Parser → Type 0
Ready n p = (toks : List Token) → length toks < n → Fine (length toks) (p toks)

length-advance : (toks : List Token) → length (advance toks) ≤ length toks
length-advance [] = omega arith
length-advance (t ∷ rest) = omega arith

-- A token that has a text takes its place.
advance-shrinks :
    (text : List ℕ) (toks : List Token)
    → peek_value text toks ≡ true
    → suc (length (advance toks)) ≡ length toks
advance-shrinks text [] h = cc
advance-shrinks text (t ∷ rest) h = refl

-- An operator keeps what the parser of its right side keeps.
abbrev pub IsFineOperator : Operator → Type 0
IsFineOperator op =
    (left : ℕ) (sub : Parser) (toks : List Token)
    → Fine (length toks) (sub toks)
    → Fine (length toks) (op left sub toks)

abbrev pub IsFineTable : Table → Type 0
IsFineTable table = All (λ (e : List ℕ × Operator). IsFineOperator e.1) table

abbrev pub IsFineChoice : Option Operator → Type 0
IsFineChoice none = Unit
IsFineChoice (some op) = IsFineOperator op

-- An expression has the value, or the panic, of the expression in which every `&` and `|` is
-- written over by a space: the logical operators have no effect.
pub evaluate_blind :
    (macros : Macros) (input : List ℕ)
    → evaluate macros (map blank_out input) ≡ evaluate macros input
unfolding evaluate
evaluate_blind macros input = rw (tokenize_blind input)
