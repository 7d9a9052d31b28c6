-- ===== src/Fzp/Tokens.antt =====
-- The tokenizer of internal/fzp/lexer.go. Its state is what is left of the input, which stands for
-- the source's position.
pub mod Blind
pub mod Progress
use forge_zero.Prelude.{
  ℕ, zero, suc, ◌+◌, List, [], ◌∷◌, Bool, true, false, ◌&&◌, ◌||◌, Option, none, some, codes,
  is_letter, is_digit, drop, length, ◌==◌, if◌then◌else◌,
}

pub data Kind : Type 0 where
  number ident op eof : Kind

pub record Token : Type 0 where
  pub kind : Kind
  pub value : List ℕ

abbrev pub is_blank : ℕ → Bool
is_blank ch = ch == b' ' || ch == 9 || ch == 10 || ch == 13

-- A letter, a digit or `_`.
abbrev pub is_word : ℕ → Bool
is_word ch = is_letter ch || is_digit ch

-- A loop that reads on while the test holds: the text that it read, and the rest.
unfoldable pub span : (ℕ → Bool) → List ℕ → List ℕ × List ℕ
span test [] = ([], [])
span test (c ∷ rest) =
    let (text, others) = span test rest in if test c then (c ∷ text, others) else ([], c ∷ rest)

abbrev pub is_single : ℕ → Bool
is_single ch =
    ch == b'(' || ch == b')' || ch == b'+' || ch == b'-' || ch == b'*' || ch == b'/' || ch == b'%'

abbrev pub opens_operator : ℕ → Bool
opens_operator ch = ch == b'!' || ch == b'=' || ch == b'<' || ch == b'>'

-- The operator at `ch` and the byte behind it, and the number of bytes behind `ch` that it takes.
-- The tests for `&` and `|` stand here as in the source.
unfoldable pub operator : ℕ → ℕ → List ℕ × ℕ
operator ch next =
    if ch == b'!' && next == b'='
    then (codes "!=", 1)
    else if ch == b'=' && next == b'='
    then (codes "==", 1)
    else if ch == b'<' && next == b'='
    then (codes "<=", 1)
    else if ch == b'>' && next == b'='
    then (codes ">=", 1)
    else if ch == b'&' && next == b'&'
    then (codes "&&", 1)
    else if ch == b'|' && next == b'|'
    then (codes "||", 1)
    else if ch == b'!'
    then (codes "!", 0)
    else if ch == b'='
    then (codes "=", 0)
    else if ch == b'<'
    then (codes "<", 0)
    else if ch == b'>'
    then (codes ">", 0)
    else ([], 0)

-- The byte behind the current one, 0 at the end.
abbrev pub peek : List ℕ → ℕ
peek [] = 0
peek (c ∷ rest) = c

-- A token that starts with the byte `ch`, if one does.
unfoldable pub token_at : ℕ → List ℕ → Option (Token × List ℕ)
token_at ch rest =
    if is_digit ch
    then (let (text, others) = span is_digit rest in
        some (record { kind = Kind.number; value = ch ∷ text }, others))
    else if is_letter ch
    then (let (text, others) = span is_word rest in
        some (record { kind = Kind.ident; value = ch ∷ text }, others))
    else if is_single ch
    then some (record { kind = Kind.op; value = ch ∷ [] }, rest)
    else if opens_operator ch
    then (let (text, taken) = operator ch (peek rest) in
        some (record { kind = Kind.op; value = text }, drop taken rest))
    else none

-- `tokenizer.next`: blanks are skipped, and so is every byte that starts no token.
unfoldable pub next : List ℕ → Token × List ℕ
next [] = (record { kind = Kind.eof; value = [] }, [])
next (ch ∷ rest) =
    let skipped = next rest in
    if is_blank ch then skipped else elim (token_at ch rest) [ none ↦ skipped | some found ↦ found ]

abbrev pub is_eof : Kind → Bool
is_eof Kind.eof = true
is_eof _ = false

-- The loop of `newParser`. Each round but the last takes a byte at least.
unfoldable pub tokens : ℕ → List ℕ → List Token
tokens zero input = []
tokens (suc fuel) input =
    let (token, rest) = next input in
    let others = tokens fuel rest in if is_eof token.kind then [] else token ∷ others

unfoldable pub tokenize : List ℕ → List Token
tokenize input = tokens (suc (length input)) input
