-- ===== src/Gloria/Runs.antt =====
-- Runs of the lexer on concrete sources, and its theorems at concrete inputs.
mod Compiler
use forge_zero.Prelude.{ℕ, ◌+◌, ◌≤◌, ◌<◌, ◌≡◌, refl, List, ◌⊎◌, arith, length, codes}
use forge_zero.Gloria.Token.{TokenType}
use forge_zero.Gloria.Lexer.{new_lexer, next_token}
use forge_zero.Gloria.Lexer.Advance.{IsValid}
use forge_zero.Gloria.Lexer.Stream.{
  new_lexer-IsValid, next_token_range, next_token_progress, after, reaches_eof,
}

abbrev source : List ℕ
source = codes " // x\nlet ab += 1"

first_word :
    (next_token (new_lexer source)).0 ≡ record { type = TokenType.let_word; start = 6; end = 9 }
unfolding next_token new_lexer
first_word = refl

next_token_range_example :
    IsValid (next_token (new_lexer source)).1
    × ((next_token (new_lexer source)).1.input ≡ (new_lexer source).input)
    × ((new_lexer source).pos ≤ (next_token (new_lexer source)).0.start)
    × ((next_token (new_lexer source)).0.start ≤ (next_token (new_lexer source)).0.end)
    × ((next_token (new_lexer source)).0.end ≤ (next_token (new_lexer source)).1.pos)
    × ((next_token (new_lexer source)).1.pos ≤ length (new_lexer source).input)
next_token_range_example = next_token_range (new_lexer source) (new_lexer-IsValid source)

fuel_fits : length (new_lexer source).input ≤ 17 + (new_lexer source).pos
unfolding new_lexer
fuel_fits = omega arith

reaches_eof_example :
    (k : ℕ) × (k ≤ 17) × ((next_token (after k (new_lexer source))).0.type ≡ TokenType.eof)
reaches_eof_example = reaches_eof 17 (new_lexer source) (new_lexer-IsValid source) fuel_fits

abbrev word : List ℕ
word = codes "while1 x"
