-- ===== src/Fzp/Tokens/Blind.antt =====
-- The tokenizer does not see the operators `&&` and `||`: their bytes count as blanks.
use forge_zero.Prelude.{
  ℕ, zero, suc, ◌≡◌, refl, ap, List, [], ◌∷◌, Bool, true, false, ◌||◌, Option, none, some, arith,
  length, map, Bool-cases, Option-cases, inl, inr, drop, is_digit, if◌then◌else◌, ◌∙◌, ◌==◌,
}
use forge_zero.Fzp.Tokens.{
  Token, span, is_blank, is_word, opens_operator, operator, peek, token_at, next, tokens, tokenize,
}
use forge_zero.Fzp.Tokens.Progress.{next_blank, next_unknown, next_found}

abbrev pub is_logic : ℕ → Bool
is_logic c = c == b'&' || c == b'|'

-- The bytes `&` and `|` written over by a space.
abbrev pub blank_out : ℕ → ℕ
blank_out c = if is_logic c then b' ' else c

span-map :
    (test : ℕ → Bool) (s : List ℕ)
    → ((c : ℕ) → test (blank_out c) ≡ test c)
    → ((c : ℕ) → test c ≡ true → blank_out c ≡ c)
    → span test (map blank_out s) ≡ ((span test s).0, map blank_out (span test s).1)
unfolding span
span-map test [] same kept = refl
span-map test (c ∷ rest) same kept = elim (Bool-cases (test c)) [
  | inl go ↦
      rw (same c, go, kept c go)
        (ap (λ (p : List ℕ × List ℕ). (c ∷ p.0, p.1)) (span-map test rest same kept))
  | inr stop ↦ rw (same c, stop)
]

drop-map : (n : ℕ) (s : List ℕ) → drop n (map blank_out s) ≡ map blank_out (drop n s)
drop-map zero s = refl
drop-map (suc n) [] = refl
drop-map (suc n) (c ∷ s) = drop-map n s

operator_blind :
    (ch : ℕ) (s : List ℕ)
    → opens_operator ch ≡ true
    → operator ch (peek (map blank_out s)) ≡ operator ch (peek s)
unfolding operator
operator_blind ch [] h = refl
operator_blind ch (c ∷ s) h = ground arith

-- The result of `token_at`, with the rest of the input blanked out.
abbrev blank_rest : Option (Token × List ℕ) → Option (Token × List ℕ)
blank_rest none = none
blank_rest (some (t, rest)) = some (t, map blank_out rest)

token_at_blind : (ch : ℕ) (s : List ℕ) → token_at ch (map blank_out s) ≡ blank_rest (token_at ch s)
unfolding token_at
token_at_blind ch s = ground (
  arith,
  span-map is_digit s (λ c. ground arith) (λ c h. ground arith),
  span-map is_word s (λ c. ground arith) (λ c h. ground arith),
  operator_blind ch s,
  drop-map (operator ch (peek s)).1 s,
)

blanked : (ch : ℕ) → is_logic ch ≡ true → blank_out ch ≡ b' '
blanked ch h = rw h

kept : (ch : ℕ) → is_logic ch ≡ false → blank_out ch ≡ ch
kept ch h = rw h

logic_starts_none : (ch : ℕ) (rest : List ℕ) → is_logic ch ≡ true → token_at ch rest ≡ none
unfolding token_at
logic_starts_none ch rest h = ground arith

next_blind : (s : List ℕ) → next (map blank_out s) ≡ ((next s).0, map blank_out (next s).1)
next_blind [] = unfold next in refl
next_blind (ch ∷ rest) = elim (Bool-cases (is_logic ch)) [
  | inl logic ↦
      rw
        (
          blanked ch logic,
          next_blank b' ' (map blank_out rest) refl,
          next_unknown ch rest (ground arith) (logic_starts_none ch rest logic),
        )
        (next_blind rest)
  | inr other ↦ rw (kept ch other) (elim (Bool-cases (is_blank ch)) [
    | inl blank ↦
        rw (next_blank ch (map blank_out rest) blank, next_blank ch rest blank) (next_blind rest)
    | inr solid ↦ elim (Option-cases (token_at ch rest)) [
      | inl e ↦
          rw
            (
              next_unknown ch (map blank_out rest) solid (token_at_blind ch rest ∙ ap blank_rest e),
              next_unknown ch rest solid e,
            )
            (next_blind rest)
      | inr (p, e) ↦ rw (
        next_found ch (map blank_out rest) (p.0, map blank_out p.1) solid
            (token_at_blind ch rest ∙ ap blank_rest e),
        next_found ch rest p solid e,
      )
    ]
  ])
]

tokens_blind : (fuel : ℕ) (s : List ℕ) → tokens fuel (map blank_out s) ≡ tokens fuel s
unfolding tokens
tokens_blind zero s = refl
tokens_blind (suc fuel) s = rw (next_blind s, tokens_blind fuel (next s).1)

length-map_blank : (s : List ℕ) → length (map blank_out s) ≡ length s
length-map_blank [] = refl
length-map_blank (c ∷ s) = ap suc (length-map_blank s)

-- The tokens of an expression are those of the expression with every `&` and `|` written over by a
-- space: the logical operators never reach the parser.
pub tokenize_blind : (s : List ℕ) → tokenize (map blank_out s) ≡ tokenize s
unfolding tokenize
tokenize_blind s = rw length-map_blank (tokens_blind (suc (length s)) s)
