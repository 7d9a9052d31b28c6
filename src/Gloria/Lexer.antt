-- ===== src/Gloria/Lexer.antt =====
-- internal/gloria/lexer.go: the lexer and its state.
-- The byte `ch` is 0 behind the end of the input, as in the source.
pub mod Advance
pub mod Trivia
pub mod Tokens
pub mod Stream
use forge_zero.Prelude.{
  ℕ, zero, suc, ◌+◌, List, Bool, ◌&&◌, ◌||◌, not, Option, none, some, codes, bytes_eq, slice,
  is_letter, is_digit, length, get_or, leb, ◌==◌, if◌then◌else◌,
}
use forge_zero.Gloria.Token.{TokenType, Token}

pub record Lexer : Type 0 where
  pub input : List ℕ
  pub pos : ℕ
  pub read_pos : ℕ
  pub ch : ℕ

unfoldable pub read_char : Lexer → Lexer
read_char l = record l {
  ch = if leb (length l.input) l.read_pos then 0 else get_or l.input l.read_pos 0;
  pos = l.read_pos;
  read_pos = l.read_pos + 1;
}

unfoldable pub new_lexer : List ℕ → Lexer
unfolding read_char
new_lexer input = read_char (record { input = input; pos = 0; read_pos = 0; ch = 0 })

unfoldable pub peek_char : Lexer → ℕ
peek_char l = if leb (length l.input) l.read_pos then 0 else get_or l.input l.read_pos 0

-- `for test(l.ch) { l.readChar() }`, the shape of every inner loop. The length of the input bounds
-- the rounds of each.
unfoldable pub read_while : (ℕ → Bool) → ℕ → Lexer → Lexer
unfolding read_char
read_while test zero l = l
read_while test (suc fuel) l =
    let rest = read_while test fuel (read_char l) in if test l.ch then rest else l

abbrev pub is_space : ℕ → Bool
is_space ch = ch == b' ' || ch == 9 || ch == 10 || ch == 13

abbrev pub is_alnum : ℕ → Bool
is_alnum ch = is_letter ch || is_digit ch

abbrev pub in_comment : ℕ → Bool
in_comment ch = not (ch == 10) && not (ch == 13) && not (ch == 0)

abbrev pub in_string : ℕ → Bool
in_string ch = not (ch == b'"') && not (ch == 0)

unfoldable pub skip_whitespace : Lexer → Lexer
unfolding read_while
skip_whitespace l = read_while is_space (length l.input) l

unfoldable pub skip_comment : Lexer → Lexer
unfolding read_while
skip_comment l = read_while in_comment (length l.input) l

-- The scanners return the range that they read.
unfoldable pub scan_identifier : Lexer → (ℕ × ℕ) × Lexer
unfolding read_while
scan_identifier l = let l' = read_while is_alnum (length l.input) l in ((l.pos, l'.pos), l')

unfoldable pub scan_number : Lexer → (ℕ × ℕ) × Lexer
unfolding read_while
scan_number l = let l' = read_while is_digit (length l.input) l in ((l.pos, l'.pos), l')

unfoldable pub scan_at_reg : Lexer → (ℕ × ℕ) × Lexer
unfolding read_while
scan_at_reg l = let l' = read_while is_alnum (length l.input) (read_char l) in ((l.pos, l'.pos), l')

unfoldable pub lookup_ident : List ℕ → TokenType
lookup_ident lit =
    if bytes_eq lit (codes "fn")
    then TokenType.fn_word
    else if bytes_eq lit (codes "let")
    then TokenType.let_word
    else if bytes_eq lit (codes "return")
    then TokenType.return_word
    else if bytes_eq lit (codes "reg")
    then TokenType.reg_word
    else if bytes_eq lit (codes "if")
    then TokenType.if_word
    else if bytes_eq lit (codes "while")
    then TokenType.while_word
    else TokenType.ident

-- The loop at the head of `NextToken`: whitespace, and as often as one follows, a comment.
unfoldable pub skip_trivia : ℕ → Lexer → Lexer
unfolding skip_whitespace skip_comment peek_char
skip_trivia zero l = skip_whitespace l
skip_trivia (suc fuel) l =
    let l' = skip_whitespace l in
    let rest = skip_trivia fuel (skip_comment l') in
    if l'.ch == b'/' && peek_char l' == b'/' then rest else l'

-- The cases of the switch that read one byte.
unfoldable pub single_byte : ℕ → Option TokenType
single_byte ch =
    if ch == b'/'
    then some TokenType.slash
    else if ch == b'{'
    then some TokenType.lbrace
    else if ch == b'}'
    then some TokenType.rbrace
    else if ch == b'('
    then some TokenType.lparen
    else if ch == b')'
    then some TokenType.rparen
    else if ch == b'<'
    then some TokenType.lt
    else if ch == b'>'
    then some TokenType.gt
    else if ch == b','
    then some TokenType.comma
    else if ch == b'*'
    then some TokenType.star
    else if ch == b'%'
    then some TokenType.percent
    else if ch == b'|'
    then some TokenType.pipe
    else if ch == b'^'
    then some TokenType.caret
    else none

-- The cases that look for a `=` behind the byte: the type with it, and the type without.
unfoldable pub maybe_assign : ℕ → Option (TokenType × TokenType)
maybe_assign ch =
    if ch == b'+'
    then some (TokenType.plus_assign, TokenType.plus)
    else if ch == b'-'
    then some (TokenType.minus_assign, TokenType.minus)
    else if ch == b'='
    then some (TokenType.eq, TokenType.assign)
    else none

abbrev pub token : TokenType → ℕ → Lexer → Token × Lexer
token type start l = (record { type = type; start = start; end = l.pos }, l)

-- The case of a quote: the token is what stands between the quotes.
unfoldable pub string_token : Lexer → Token × Lexer
unfolding read_while
string_token l =
    let l' = read_while in_string (length l.input) (read_char l) in
    if l'.ch == b'"'
    then (record { type = TokenType.string; start = l.pos + 1; end = l'.pos }, read_char l')
    else (record { type = TokenType.illegal; start = l.pos + 1; end = l'.pos }, l')

-- The default case.
unfoldable pub word_token : Lexer → Token × Lexer
unfolding scan_identifier scan_number lookup_ident read_char
word_token l =
    if is_letter l.ch
    then (let ((start, end), l') = scan_identifier l in
        (record { type = lookup_ident (slice l.input start end); start = start; end = end }, l'))
    else if is_digit l.ch
    then (let ((start, end), l') = scan_number l in
        (record { type = TokenType.int; start = start; end = end }, l'))
    else token TokenType.illegal l.pos (read_char l)

-- The cases of a quote, of `@` and of the end of the input, and the default case.
unfoldable pub other_token : Lexer → Token × Lexer
unfolding string_token word_token scan_at_reg
other_token l =
    if l.ch == b'"'
    then string_token l
    else if l.ch == b'@'
    then (let ((start, end), l') = scan_at_reg l in
        (record { type = TokenType.atreg; start = start; end = end }, l'))
    else if l.ch == 0
    then token TokenType.eof l.pos l
    else word_token l

-- The switch of `NextToken`, at a lexer behind the trivia.
unfoldable pub switch_token : Lexer → Token × Lexer
unfolding other_token peek_char read_char
switch_token l = elim (maybe_assign l.ch) [
  | some (with_eq, without) ↦
      (if peek_char l == b'='
        then token with_eq l.pos (read_char (read_char l))
        else token without l.pos (read_char l))
  | none ↦ elim (single_byte l.ch) [
    | some type ↦ token type l.pos (read_char l)
    | none ↦ other_token l
  ]
]

unfoldable pub next_token : Lexer → Token × Lexer
unfolding skip_trivia switch_token single_byte maybe_assign
next_token l = switch_token (skip_trivia (length l.input) l)
