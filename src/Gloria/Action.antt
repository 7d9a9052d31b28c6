-- ===== src/Gloria/Action.antt =====
-- The actions of the compiler of internal/gloria/emitter.go and state.go: what is left of the
-- tokens of a function, and its variables.
-- A token is modelled with its literal. A stack offset is the negative of the depth that stands
-- for it. The text of an error is left out.
pub mod Runs
use forge_zero.Prelude.{
  ℕ, zero, suc, ◌+◌, ◌*◌, ◌^◌, List, [], ◌∷◌, Bool, true, false, Option, none, some, codes,
  bytes_eq, is_digit, length, leb, ◌-◌, ◌==◌, if◌then◌else◌, String,
}
use forge_zero.Gloria.Token.{TokenType}

-- The number of a token type in the source's enumeration.
abbrev pub type_code : TokenType → ℕ
type_code TokenType.illegal = 0
type_code TokenType.eof = 1
type_code TokenType.ident = 2
type_code TokenType.int = 3
type_code TokenType.string = 4
type_code TokenType.atreg = 5
type_code TokenType.comma = 6
type_code TokenType.number = 7
type_code TokenType.lit_int = 8
type_code TokenType.const_int = 9
type_code TokenType.plus = 10
type_code TokenType.minus = 11
type_code TokenType.plus_assign = 12
type_code TokenType.minus_assign = 13
type_code TokenType.assign = 14
type_code TokenType.slash = 15
type_code TokenType.lbrace = 16
type_code TokenType.rbrace = 17
type_code TokenType.lparen = 18
type_code TokenType.rparen = 19
type_code TokenType.eq = 20
type_code TokenType.lt = 21
type_code TokenType.gt = 22
type_code TokenType.amp = 23
type_code TokenType.star = 24
type_code TokenType.percent = 25
type_code TokenType.pipe = 26
type_code TokenType.caret = 27
type_code TokenType.fn_word = 28
type_code TokenType.let_word = 29
type_code TokenType.return_word = 30
type_code TokenType.reg_word = 31
type_code TokenType.if_word = 32
type_code TokenType.while_word = 33

-- A token with its literal.
pub record Word : Type 0 where
  pub type : TokenType
  pub text : List ℕ

infix 50 ◌is◌
abbrev pub ◌is◌ : Word → TokenType → Bool
w is t = type_code w.type == type_code t

abbrev pub says : Word → String → Bool
says w s = bytes_eq w.text (codes s)

-- What is answered at the end of the tokens: `Token{Type: EOF}`, whose literal is empty.
abbrev pub end_word : Word
end_word = record { type = TokenType.eof; text = [] }

-- `compilerState`: the declared variables with their depths, and the depth of the last one.
pub record Slots : Type 0 where
  pub vars : List (List ℕ × ℕ)
  pub depth : ℕ

abbrev pub no_slots : Slots
no_slots = record { vars = []; depth = 0 }

pub record State : Type 0 where
  pub words : List Word
  pub slots : Slots

-- A run answers a value, an error or a run-time panic, or never ends, as the source. `stuck` is no
-- behaviour of the source, but the answer of a model that has run out of fuel.
pub data Outcome {ℓ} (A : Type ℓ) : Type ℓ where
  done : A → State → Outcome A
  failed : Outcome A
  panicked : Outcome A
  endless : Outcome A
  stuck : Outcome A

abbrev pub Action {ℓ} : Type ℓ → Type ℓ
Action A = State → Outcome A

unfoldable pub pure {ℓ} : {A : Type ℓ} → A → Action A
pure a s = done a s

unfoldable pub fail {ℓ} : {A : Type ℓ} → Action A
fail s = failed

unfoldable pub panic {ℓ} : {A : Type ℓ} → Action A
panic s = panicked

unfoldable pub hang {ℓ} : {A : Type ℓ} → Action A
hang s = endless

unfoldable pub give_up {ℓ} : {A : Type ℓ} → Action A
give_up s = stuck

abbrev pub follow {ℓ κ} : {A : Type ℓ} {B : Type κ} → (A → Action B) → Outcome A → Outcome B
follow f (done a s) = f a s
follow f failed = failed
follow f panicked = panicked
follow f endless = endless
follow f stuck = stuck

infixl 5 ◌>>=◌
unfoldable pub ◌>>=◌ {ℓ κ} : {A : Type ℓ} {B : Type κ} → Action A → (A → Action B) → Action B
(m >>= f) s = follow f (m s)

-- The closures `nextToken` and `peekToken` of `CompileFunc`.
abbrev pub first_word : List Word → Word
first_word [] = end_word
first_word (w ∷ rest) = w

abbrev pub other_words : List Word → List Word
other_words [] = []
other_words (w ∷ rest) = rest

unfoldable pub next_word : Action Word
next_word s = done (first_word s.words) (record s { words = other_words s.words })

unfoldable pub peek_word : Action Word
peek_word s = done (first_word s.words) s

-- The next token must have a type.
unfoldable pub expect : TokenType → Action Word
expect t = do w ← next_word; if w is t then pure w else fail

-- A loop that reads tokens, with a unit of fuel more than there are tokens.
unfoldable pub with_fuel {ℓ} : {A : Type ℓ} → (ℕ → Action A) → Action A
with_fuel loop s = loop (suc (length s.words)) s

unfoldable pub find_var : List ℕ → List (List ℕ × ℕ) → Option ℕ
find_var name [] = none
find_var name ((key, depth) ∷ rest) =
    let more = find_var name rest in if bytes_eq name key then some depth else more

-- `getStackOffset`
unfoldable pub get_stack_offset : List ℕ → Action ℕ
get_stack_offset name s = elim (find_var name s.slots.vars) [
  | none ↦ failed
  | some depth ↦ done depth s
]

-- `declareAndAlloc`
unfoldable pub declare_and_alloc : List ℕ → Action ℕ
declare_and_alloc name s = elim (find_var name s.slots.vars) [
  | some depth ↦ failed
  | none ↦ done (s.slots.depth + 8) (record s {
    slots = record { vars = (name, s.slots.depth + 8) ∷ s.slots.vars; depth = s.slots.depth + 8 };
  })
]

-- `strconv.ParseUint(text, 10, 64)`: the value, and whether there is no error. Out of range the
-- value is the greatest one, and for another text 0.
unfoldable pub parse_digits : ℕ → List ℕ → ℕ × Bool
parse_digits v [] = (v, true)
parse_digits v (c ∷ rest) =
    let more = parse_digits (v * 10 + (c - b'0')) rest in
    if is_digit c
    then (if leb (2 ^ 64) (v * 10 + (c - b'0')) then (2 ^ 64 - 1, false) else more)
    else (0, false)

unfoldable pub parse_uint : List ℕ → ℕ × Bool
parse_uint [] = (0, false)
parse_uint (c ∷ rest) = parse_digits 0 (c ∷ rest)
