-- ===== src/Fzp/Expr.antt =====
-- The expression evaluator of internal/fzp/lexer.go, which `#if` and `#elif` run.
-- The parser's position is what is left of its tokens. A Go `int` is its 64-bit pattern, a number
-- below 2 ^ 64. A division by 0 is a run-time panic; `stuck` is no behaviour of the source, but
-- the answer of a model that has run out of fuel.
pub mod Ends
use forge_zero.Prelude.{
  ℕ, zero, suc, ◌+◌, ◌-◌, ◌*◌, ◌/◌, ◌%◌, ◌^◌, List, [], ◌∷◌, Bool, true, false, ◌&&◌, ◌||◌, not,
  Option, none, some, codes, bytes_eq, is_digit, length, ltb, leb, ◌==◌, if◌then◌else◌,
}
use forge_zero.Fzp.Tokens.{Token, Kind, tokenize}

pub data Outcome {ℓ} (A : Type ℓ) : Type ℓ where
  value : A → Outcome A
  panic : Outcome A
  stuck : Outcome A

infixl 5 ◌>>=◌
abbrev pub ◌>>=◌ {ℓ κ} : {A : Type ℓ} {B : Type κ} → Outcome A → (A → Outcome B) → Outcome B
value a >>= f = f a
panic >>= f = panic
stuck >>= f = stuck

-- A parser reads tokens and answers a value and the tokens behind it.
abbrev pub Parser : Type 0
Parser = List Token → Outcome (ℕ × List Token)

-- Arithmetic on 64-bit patterns.
abbrev pub word_mod : ℕ
word_mod = 2 ^ 64

abbrev pub negate : ℕ → ℕ
negate a = (word_mod - a) % word_mod

abbrev pub is_negative : ℕ → Bool
is_negative a = leb (2 ^ 63) a

abbrev pub magnitude : ℕ → ℕ
magnitude a = if is_negative a then word_mod - a else a

abbrev pub signed : Bool → ℕ → ℕ
signed negative m = if negative then negate (m % word_mod) else m % word_mod

abbrev pub differ : Bool → Bool → Bool
differ a b = if a then not b else b

-- The order of signed numbers, by their patterns with the sign bit flipped.
abbrev pub signed_lt : ℕ → ℕ → Bool
signed_lt a b = ltb ((a + 2 ^ 63) % word_mod) ((b + 2 ^ 63) % word_mod)

-- Go's `/` and `%` truncate towards 0.
unfoldable pub divide : ℕ → ℕ → Outcome ℕ
divide a b =
    if b == 0
    then panic
    else value (signed (differ (is_negative a) (is_negative b)) (magnitude a / magnitude b))

unfoldable pub remainder : ℕ → ℕ → Outcome ℕ
remainder a b = if b == 0 then panic else value (signed (is_negative a) (magnitude a % magnitude b))

abbrev pub bool_value : Bool → ℕ
bool_value b = if b then 1 else 0

-- `strconv.Atoi`: the value, and whether the text is a number in range. Out of range the value is
-- the nearest `int`.
unfoldable pub decimal : ℕ → List ℕ → Option ℕ
decimal acc [] = some acc
decimal acc (c ∷ rest) =
    let more = decimal (acc * 10 + (c - b'0')) rest in if is_digit c then more else none

abbrev pub clamp_int : Bool → ℕ → ℕ × Bool
clamp_int negative m =
    if negative
    then (if ltb (2 ^ 63) m then (2 ^ 63, false) else (negate m, true))
    else (if leb (2 ^ 63) m then (2 ^ 63 - 1, false) else (m, true))

abbrev pub atoi_digits : Bool → List ℕ → ℕ × Bool
atoi_digits negative [] = (0, false)
atoi_digits negative (c ∷ rest) = elim (decimal 0 (c ∷ rest)) [
  | none ↦ (0, false)
  | some m ↦ clamp_int negative m
]

unfoldable pub atoi : List ℕ → ℕ × Bool
unfolding decimal
atoi [] = (0, false)
atoi (c ∷ rest) =
    if c == b'-'
    then atoi_digits true rest
    else if c == b'+'
    then atoi_digits false rest
    else atoi_digits false (c ∷ rest)

-- `strings.TrimSpace` on ASCII text.
abbrev pub is_white : ℕ → Bool
is_white c = c == b' ' || (leb 9 c && leb c 13)

unfoldable pub trim_left : List ℕ → List ℕ
trim_left [] = []
trim_left (c ∷ rest) = if is_white c then trim_left rest else c ∷ rest

unfoldable pub trim_right : List ℕ → List ℕ
trim_right [] = []
trim_right (c ∷ rest) = elim (trim_right rest) [
  | [] ↦ (if is_white c then [] else c ∷ [])
  | x ∷ xs ↦ c ∷ x ∷ xs
]

unfoldable pub trim_space : List ℕ → List ℕ
unfolding trim_left trim_right
trim_space s = trim_right (trim_left s)

pub record Macro : Type 0 where
  pub value : List ℕ
  pub has_args : Bool

abbrev pub Macros : Type 0
Macros = List (List ℕ × Macro)

unfoldable pub lookup : List ℕ → Macros → Option Macro
lookup name [] = none
lookup name ((key, m) ∷ rest) = if bytes_eq key name then some m else lookup name rest

abbrev pub is_some : Option Macro → Bool
is_some none = false
is_some (some m) = true

-- `peekValue`
abbrev pub peek_value : List ℕ → List Token → Bool
peek_value text [] = false
peek_value text (t ∷ rest) = bytes_eq t.value text

-- `p.pos++`
abbrev pub advance : List Token → List Token
advance [] = []
advance (t ∷ rest) = rest

abbrev pub is_kind_ident : Kind → Bool
is_kind_ident Kind.ident = true
is_kind_ident _ = false

-- What follows the word `defined`: a name in brackets. What does not fit counts as false, and the
-- position stays behind what did fit.
unfoldable pub defined_end : Macros → Token → Parser
defined_end macros arg rest =
    if peek_value (codes ")") rest
    then value (bool_value (is_some (lookup arg.value macros)), advance rest)
    else value (0, rest)

unfoldable pub defined_name : Macros → Parser
defined_name macros [] = value (0, [])
defined_name macros (arg ∷ rest) =
    if is_kind_ident arg.kind then defined_end macros arg rest else value (0, arg ∷ rest)

unfoldable pub parse_defined : Macros → Parser
unfolding defined_name defined_end
parse_defined macros toks =
    if peek_value (codes "(") toks then defined_name macros (advance toks) else value (0, toks)

-- The value of a name that is no `defined`.
unfoldable pub macro_value : Option Macro → ℕ
unfolding atoi trim_space
macro_value none = 0
macro_value (some m) =
    if m.has_args
    then 0
    else (let (v, fine) = atoi (trim_space m.value) in
        if fine then v else bool_value (not (bytes_eq m.value [])))

-- The closing bracket is optional.
abbrev pub close : ℕ × List Token → Outcome (ℕ × List Token)
close (v, rest) = if peek_value (codes ")") rest then value (v, advance rest) else value (v, rest)

-- The three cases of `parsePrimary`: a number, a name, and any other token.
abbrev pub by_kind {ℓ} : {A : Type ℓ} → Kind → A → A → A → A
by_kind Kind.number a b c = a
by_kind Kind.ident a b c = b
by_kind _ a b c = c

unfoldable pub name_value : Macros → Token → Parser
name_value macros t rest =
    if bytes_eq t.value (codes "defined")
    then parse_defined macros rest
    else value (macro_value (lookup t.value macros), rest)

-- A token that starts no operand counts as 0 and stays.
unfoldable pub bracket_value : Parser → Token → Parser
bracket_value inner t rest =
    if bytes_eq t.value (codes "(") then (do r ← inner rest; close r) else value (0, t ∷ rest)

-- `parsePrimary`, with the parser for what stands in brackets.
unfoldable pub parse_primary : Macros → Parser → Parser
unfolding name_value bracket_value
parse_primary macros inner [] = value (0, [])
parse_primary macros inner (t ∷ rest) =
    by_kind t.kind (value ((atoi t.value).0, rest)) (name_value macros t rest)
      (bracket_value inner t rest)

-- `parseUnary`
unfoldable pub parse_unary : ℕ → Parser → Parser
parse_unary zero primary toks = stuck
parse_unary (suc fuel) primary toks =
    let operand = parse_unary fuel primary (advance toks) in
    if peek_value (codes "!") toks
    then (do r ← operand; value (bool_value (r.0 == 0), r.1))
    else if peek_value (codes "+") toks
    then operand
    else if peek_value (codes "-") toks
    then (do r ← operand; value (negate r.0, r.1))
    else primary toks

-- What a binary operator does with the value on its left and the parser of its right side.
abbrev pub Operator : Type 0
Operator = ℕ → Parser → Parser

unfoldable pub strict : (ℕ → ℕ → ℕ) → Operator
strict f left right toks = do r ← right toks; value (f left r.0, r.1)

unfoldable pub partial : (ℕ → ℕ → Outcome ℕ) → Operator
partial f left right toks = do r ← right toks; v ← f left r.0; value (v, r.1)

-- Go's `||` and `&&` do not call the parser of the right side where the left side decides, so its
-- tokens are left.
unfoldable pub or_else : Operator
or_else left right toks =
    if left == 0
    then (do r ← right toks; value (bool_value (not (r.0 == 0)), r.1))
    else value (1, toks)

unfoldable pub and_then : Operator
and_then left right toks =
    if left == 0
    then value (0, toks)
    else (do r ← right toks; value (bool_value (not (r.0 == 0)), r.1))

-- The operators of each level by their text, in the order of the tests.
abbrev pub Table : Type 0
Table = List (List ℕ × Operator)

abbrev pub or_operators : Table
or_operators = (codes "||", or_else) ∷ []

abbrev pub and_operators : Table
and_operators = (codes "&&", and_then) ∷ []

abbrev pub compare_operators : Table
compare_operators =
    (codes "==", strict (λ a b. bool_value (a == b)))
    ∷ (codes "!=", strict (λ a b. bool_value (not (a == b))))
    ∷ (codes "<=", strict (λ a b. bool_value (not (signed_lt b a))))
    ∷ (codes ">=", strict (λ a b. bool_value (not (signed_lt a b))))
    ∷ (codes "<", strict (λ a b. bool_value (signed_lt a b)))
    ∷ (codes ">", strict (λ a b. bool_value (signed_lt b a)))
    ∷ []

abbrev pub add_operators : Table
add_operators =
    (codes "+", strict (λ a b. (a + b) % word_mod))
    ∷ (codes "-", strict (λ a b. (a + word_mod - b) % word_mod))
    ∷ []

abbrev pub mul_operators : Table
mul_operators =
    (codes "*", strict (λ a b. a * b % word_mod))
    ∷ (codes "/", partial divide)
    ∷ (codes "%", partial remainder)
    ∷ []

unfoldable pub find_operator : List ℕ → Table → Option Operator
find_operator text [] = none
find_operator text ((key, op) ∷ rest) =
    if bytes_eq text key then some op else find_operator text rest

unfoldable pub pick : Table → List Token → Option Operator
unfolding find_operator
pick table [] = none
pick table (t ∷ rest) = find_operator t.value table

-- The loop of a level: while an operator of the level follows, it is applied.
unfoldable pub level_loop : ℕ → Table → Parser → ℕ → Parser
level_loop zero table sub left toks = stuck
level_loop (suc fuel) table sub left toks = elim (pick table toks) [
  | none ↦ value (left, toks)
  | some act ↦ (do r ← act left sub (advance toks); level_loop fuel table sub r.0 r.1)
]

unfoldable pub level : ℕ → Table → Parser → Parser
level fuel table sub toks = do r ← sub toks; level_loop fuel table sub r.0 r.1

-- `parseOr` over the levels below it. Each bracket takes one unit of fuel, and so does each round
-- of a loop.
unfoldable pub parse_or : Macros → ℕ → Parser
parse_or macros zero toks = stuck
parse_or macros (suc fuel) toks =
    level (suc fuel) or_operators
      (level (suc fuel) and_operators (
        level (suc fuel) compare_operators (
          level (suc fuel) add_operators (
            level (suc fuel) mul_operators
              (parse_unary (suc fuel) (parse_primary macros (parse_or macros fuel)))))))
      toks

-- `parse`
unfoldable pub parse : Macros → List Token → Outcome ℕ
parse macros [] = value 0
parse macros (t ∷ rest) = do r ← parse_or macros (suc (length (t ∷ rest))) (t ∷ rest); value r.0

-- The value of an expression, `newParser(input, macros).parse()`.
unfoldable pub evaluate : Macros → List ℕ → Outcome ℕ
evaluate macros input = parse macros (tokenize input)
