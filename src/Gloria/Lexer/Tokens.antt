-- ===== src/Gloria/Lexer/Tokens.antt =====
-- Every case of `NextToken`: the token's range and the state behind it.
use forge_zero.Prelude.{
  ℕ, ◌+◌, ◌≤◌, ◌<◌, ◌≡◌, ◌≢◌, ◌↔◌, refl, Bool, true, false, arith, length, ◌==◌, Bool-cases, inl,
  inr, List, some, Option-cases, slice, is_letter, is_digit, ap,
}
use forge_zero.Gloria.Token.{TokenType, Token}
use forge_zero.Gloria.Lexer.{
  Lexer, read_char, read_while, peek_char, is_alnum, in_string, single_byte, maybe_assign,
  lookup_ident, token, string_token, word_token, other_token, switch_token, skip_trivia, next_token,
  scan_at_reg,
}
use forge_zero.Gloria.Lexer.Advance.{
  IsValid, Advance, Advance-refl, Advance-trans, Scanned, read_while-Scanned, pos-lt-length,
  Advance-read_char, pos-read_char, input-read_char, Scanned-further,
}
use forge_zero.Gloria.Lexer.Trivia.{SkippedTrivia, skip_trivia-SkippedTrivia}

-- A token read between two states: its range lies between their positions, a byte at least was
-- read unless the byte at hand is 0, and exactly then the token is the end of the input.
pub record Lexed (l : Lexer) (p : Token × Lexer) : Type 0 where
  pub moved : Advance l p.1
  pub behind : l.pos ≤ p.0.start
  pub ordered : p.0.start ≤ p.0.end
  pub within : p.0.end ≤ p.1.pos
  pub progress : l.ch ≢ 0 → l.pos < p.1.pos
  pub ended : (p.0.type ≡ TokenType.eof) ↔ (l.ch ≡ 0)

not_both {ℓ κ} : {A : Type ℓ} {B : Type κ} → ¬ A → ¬ B → A ↔ B
not_both na nb = (λ a. absurd (na a), λ b. absurd (nb b))

module _ (l : Lexer) (v : IsValid l) (inside : l.ch ≢ 0) where
  one : Advance l (read_char l)
  one = Advance-read_char l v (pos-lt-length l v inside)

  -- The byte behind the current one, read after it.
  ch-read_char : (read_char l).ch ≡ peek_char l
  unfolding read_char peek_char
  ch-read_char = refl

  Lexed-one : (type : TokenType) → type ≢ TokenType.eof → Lexed l (token type l.pos (read_char l))
  Lexed-one type ne = record {
    moved = one;
    behind = omega arith;
    ordered = one.forward;
    within = omega arith;
    progress = λ _. omega (arith, pos-read_char l v);
    ended = not_both ne inside;
  }

  -- A loop behind the first byte, whose range is cut out by any `start` and `end`.
  Lexed-loop :
      (test : ℕ → Bool) (type : TokenType) (start : ℕ) (l' : Lexer)
      → type ≢ TokenType.eof
      → Scanned test (read_char l) l'
      → l.pos ≤ start
      → start ≤ l.pos + 1
      → Lexed l (token type start l')
  Lexed-loop test type start l' ne s low high = record {
    moved = Advance-trans one s.moved;
    behind = low;
    ordered = omega (arith, pos-read_char l v, s.moved.forward);
    within = omega arith;
    progress = λ _. omega (arith, pos-read_char l v, s.moved.forward);
    ended = not_both ne inside;
  }

  Lexed-two :
      (type : TokenType)
      → type ≢ TokenType.eof
      → peek_char l ≢ 0
      → Lexed l (token type l.pos (read_char (read_char l)))
  Lexed-two type ne more =
      let second : Advance (read_char l) (read_char (read_char l)) =
        Advance-read_char (read_char l) one.valid
          (pos-lt-length (read_char l) one.valid (rw ch-read_char more)) in
      record {
        moved = Advance-trans one second;
        behind = omega arith;
        ordered = omega (arith, one.forward, second.forward);
        within = omega arith;
        progress = λ _. omega (arith, pos-read_char l v, second.forward);
        ended = not_both ne inside;
      }

single_byte_facts :
    (c : ℕ) (type : TokenType) → single_byte c ≡ some type → (c ≢ 0) × (type ≢ TokenType.eof)
unfolding single_byte
single_byte_facts c type h = (ground arith, ground arith)

maybe_assign_facts :
    (c : ℕ) (with_eq without : TokenType)
    → maybe_assign c ≡ some (with_eq, without)
    → (c ≢ 0) × (with_eq ≢ TokenType.eof) × (without ≢ TokenType.eof)
unfolding maybe_assign
maybe_assign_facts c a b h = (ground arith, ground arith, ground arith)

lookup_ident-ne-eof : (lit : List ℕ) → lookup_ident lit ≢ TokenType.eof
unfolding lookup_ident
lookup_ident-ne-eof lit = ground arith

-- The loop behind a first byte.
after_first :
    (test : ℕ → Bool)
    → test 0 ≡ false
    → (l : Lexer) → IsValid l
    → l.ch ≢ 0
    → Scanned test (read_char l) (read_while test (length l.input) (read_char l))
after_first test e l v inside =
    read_while-Scanned test e (length l.input) (read_char l) (one l v inside).valid
      (rw (input-read_char l) (omega arith))

string_token-Lexed : (l : Lexer) → IsValid l → l.ch ≢ 0 → Lexed l (string_token l)
string_token-Lexed l v inside = elim (Bool-cases (l'.ch == b'"')) [
  | inl closed ↦
      let quote : l'.ch ≡ b'"' = ground arith in
      let last : Advance l' (read_char l') =
        Advance-read_char l' s.moved.valid (pos-lt-length l' s.moved.valid (λ e. omega arith)) in
      unfold string_token in
      rw closed (record {
        moved = Advance-trans (Advance-trans (one l v inside) s.moved) last;
        behind = omega arith;
        ordered = omega (arith, s.moved.forward, pos-read_char l v);
        within = last.forward;
        progress = λ _. omega (arith, s.moved.forward, pos-read_char l v, last.forward);
        ended = not_both (λ e. cc) inside;
      })
  | inr open_end ↦
      unfold string_token in
      rw open_end (
        Lexed-loop l v inside in_string TokenType.illegal (l.pos + 1) l' (λ e. cc) s (omega arith)
          (omega arith))
]
  where
    l' : Lexer
    l' = read_while in_string (length l.input) (read_char l)

    s : Scanned in_string (read_char l) l'
    s = after_first in_string refl l v inside

at_reg-Lexed :
    (l : Lexer) → IsValid l → l.ch ≢ 0 → Lexed l (token TokenType.atreg l.pos (scan_at_reg l).1)
unfolding scan_at_reg
at_reg-Lexed l v inside =
    Lexed-loop l v inside is_alnum TokenType.atreg l.pos _ (λ e. cc)
      (after_first is_alnum refl l v inside) (omega arith) (omega arith)

-- A loop from the current byte, which passes the test.
from_here :
    (test : ℕ → Bool) (type : TokenType) (l : Lexer)
    → test 0 ≡ false
    → type ≢ TokenType.eof
    → IsValid l
    → test l.ch ≡ true
    → Lexed l (token type l.pos (read_while test (length l.input) l))
from_here test type l e ne v h =
    let s : Scanned test l (read_while test (length l.input) l) =
      read_while-Scanned test e (length l.input) l v (omega arith) in
    let inside : l.ch ≢ 0 = λ z. cc (e, h, ap test z) in
    let further : l.pos < (read_while test (length l.input) l).pos = Scanned-further v h s in
    record {
      moved = s.moved;
      behind = omega arith;
      ordered = s.moved.forward;
      within = omega arith;
      progress = λ _. further;
      ended = not_both ne inside;
    }

abbrev word_of : Lexer → List ℕ
word_of l = slice l.input l.pos (read_while is_alnum (length l.input) l).pos

word_token-Lexed : (l : Lexer) → IsValid l → l.ch ≢ 0 → Lexed l (word_token l)
word_token-Lexed l v inside = elim (Bool-cases (is_letter l.ch)) [
  | inl letter ↦
      unfold word_token in
      rw letter (
        from_here is_alnum (lookup_ident (word_of l)) l refl (lookup_ident-ne-eof (word_of l)) v
          (rw letter))
  | inr other ↦ elim (Bool-cases (is_digit l.ch)) [
    | inl digit ↦
        unfold word_token in
        rw (other, digit) (from_here is_digit TokenType.int l refl (λ e. cc) v digit)
    | inr unknown ↦
        unfold word_token in rw (other, unknown) (Lexed-one l v inside TokenType.illegal (λ e. cc))
  ]
]

eof-Lexed : (l : Lexer) → IsValid l → l.ch ≡ 0 → Lexed l (token TokenType.eof l.pos l)
eof-Lexed l v h = record {
  moved = Advance-refl v;
  behind = omega arith;
  ordered = omega arith;
  within = omega arith;
  progress = λ inside. absurd (inside h);
  ended = (λ _. h, λ _. refl);
}

other_token-Lexed : (l : Lexer) → IsValid l → Lexed l (other_token l)
other_token-Lexed l v = elim (Bool-cases (l.ch == b'"')) [
  | inl quote ↦ unfold other_token in rw quote (string_token-Lexed l v (λ e. ground arith))
  | inr no_quote ↦ elim (Bool-cases (l.ch == b'@')) [
    | inl at ↦ unfold other_token in rw (no_quote, at) (at_reg-Lexed l v (λ e. ground arith))
    | inr no_at ↦ elim (Bool-cases (l.ch == 0)) [
      | inl end ↦ unfold other_token in rw (no_quote, no_at, end) (eof-Lexed l v (ground arith))
      | inr word ↦
          unfold other_token in
          rw (no_quote, no_at, word) (word_token-Lexed l v (λ e. ground arith))
    ]
  ]
]

pub switch_token-Lexed : (l : Lexer) → IsValid l → Lexed l (switch_token l)
switch_token-Lexed l v = elim (Option-cases (maybe_assign l.ch)) [
  | inr ((a, b), e) ↦
      let (inside, na, nb) = maybe_assign_facts l.ch a b e in
      elim (Bool-cases (peek_char l == b'=')) [
        | inl equals ↦
            unfold switch_token in
            rw (e, equals, switch_token) (Lexed-two l v inside a na (λ z. ground arith))
        | inr other ↦ unfold switch_token in rw (e, other, switch_token) (Lexed-one l v inside b nb)
      ]
  | inl no_assign ↦ elim (Option-cases (single_byte l.ch)) [
    | inr (type, e) ↦
        let (inside, ne) = single_byte_facts l.ch type e in
        unfold switch_token in rw (no_assign, e, switch_token) (Lexed-one l v inside type ne)
    | inl no_single ↦
        unfold switch_token in rw (no_assign, no_single, switch_token) (other_token-Lexed l v)
  ]
]

-- What a call of `NextToken` has read: whitespace and comments up to `l'`, and a token there.
pub record Next (l : Lexer) (p : Token × Lexer) : Type 0 where
  pub middle : Lexer
  pub skipped : SkippedTrivia l middle
  pub lexed : Lexed middle p

pub next_token-Next : (l : Lexer) → IsValid l → Next l (next_token l)
unfolding next_token
next_token-Next l v =
    let s : SkippedTrivia l (skip_trivia (length l.input) l) =
      skip_trivia-SkippedTrivia (length l.input) l v (omega arith) in
    record {
      middle = skip_trivia (length l.input) l;
      skipped = s;
      lexed = switch_token-Lexed (skip_trivia (length l.input) l) s.moved.valid;
    }
