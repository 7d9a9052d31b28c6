-- ===== src/Gloria/Token.antt =====
-- internal/gloria/types.go: the token types and tokens.
use forge_zero.Prelude.{ℕ, ◌≤◌, ◌≡◌, arith, List, [], ◌||◌, ltb, length, slice, if◌then◌else◌}

pub data TokenType : Type 0 where
  illegal eof : TokenType
  ident int string atreg comma number : TokenType
  lit_int const_int : TokenType
  plus minus plus_assign minus_assign assign slash : TokenType
  lbrace rbrace lparen rparen : TokenType
  eq lt gt : TokenType
  amp star percent : TokenType
  pipe caret : TokenType
  fn_word let_word return_word reg_word if_word while_word : TokenType

pub record Token : Type 0 where
  pub type : TokenType
  pub start : ℕ
  pub end : ℕ

-- `Token.Literal`. A position is never negative here, so the test `t.Start < 0` has no counterpart.
unfoldable pub literal : Token → List ℕ → List ℕ
literal t src = if ltb (length src) t.end || ltb t.end t.start then [] else slice src t.start t.end

-- The text of a token whose range lies in the source.
pub literal_in_range :
    (type : TokenType) (start end : ℕ) (src : List ℕ)
    → start ≤ end
    → end ≤ length src
    → literal (record { type = type; start = start; end = end }) src ≡ slice src start end
unfolding literal
literal_in_range type start end src h k = ground arith
