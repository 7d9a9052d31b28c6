-- ===== src/Fzp/Tokens/Progress.antt =====
-- The tokenizer ends: every token but the last takes a byte.
use forge_zero.Prelude.{
  ℕ, zero, suc, ◌≤◌, ◌<◌, ◌≡◌, ◌≢◌, refl, ap, List, [], ◌∷◌, Bool, true, false, none, some, arith,
  length, length-drop, Bool-cases, Option-cases, All, bytes_eq, codes, inl, inr, ◌⊎◌, is_digit,
}
use forge_zero.Fzp.Tokens.{
  Token, Kind, span, is_blank, is_word, operator, peek, token_at, next, tokens, is_eof,
}

length-span : (test : ℕ → Bool) (s : List ℕ) → length (span test s).1 ≤ length s
unfolding span
length-span test [] = omega arith
length-span test (c ∷ rest) = ground (arith, length-span test rest)

token_at_shrinks :
    (ch : ℕ) (rest : List ℕ) (t : Token) (others : List ℕ)
    → token_at ch rest ≡ some (t, others)
    → (length others ≤ length rest) × (t.kind ≢ Kind.eof)
unfolding token_at
token_at_shrinks ch rest t others h = ground (
  arith,
  length-span is_digit rest,
  length-span is_word rest,
  length-drop (operator ch (peek rest)).1 rest,
)

-- The equations of `next` on a byte.
pub next_blank : (ch : ℕ) (rest : List ℕ) → is_blank ch ≡ true → next (ch ∷ rest) ≡ next rest
unfolding next
next_blank ch rest h = rw h

pub next_unknown :
    (ch : ℕ) (rest : List ℕ)
    → is_blank ch ≡ false
    → token_at ch rest ≡ none
    → next (ch ∷ rest) ≡ next rest
unfolding next
next_unknown ch rest h e = rw (h, e)

pub next_found :
    (ch : ℕ) (rest : List ℕ) (p : Token × List ℕ)
    → is_blank ch ≡ false
    → token_at ch rest ≡ some p
    → next (ch ∷ rest) ≡ p
unfolding next
next_found ch rest p h e = rw (h, e)

-- The three ways that `next` takes on a byte.
pub next_cases :
    (ch : ℕ) (rest : List ℕ)
    → (next (ch ∷ rest) ≡ next rest)
      ⊎ ((p : Token × List ℕ) × (is_blank ch ≡ false)
          × (token_at ch rest ≡ some p)
          × (next (ch ∷ rest) ≡ p))
next_cases ch rest = elim (Bool-cases (is_blank ch)) [
  | inl blank ↦ inl (next_blank ch rest blank)
  | inr solid ↦ elim (Option-cases (token_at ch rest)) [
    | inl e ↦ inl (next_unknown ch rest solid e)
    | inr (p, e) ↦ inr (p, solid, e, next_found ch rest p solid e)
  ]
]

-- `next` answers the end of the input, or takes a byte at least.
pub next_shrinks : (s : List ℕ) → ((next s).0.kind ≡ Kind.eof) ⊎ (length (next s).1 < length s)
next_shrinks [] = unfold next in inl refl
next_shrinks (ch ∷ rest) = elim (next_cases ch rest) [
  | inl e ↦ rw e (elim (next_shrinks rest) [ inl end ↦ inl end | inr less ↦ inr (omega arith) ])
  | inr (p, solid, found, e) ↦
      rw e (inr (omega (arith, (token_at_shrinks ch rest p.0 p.1 found).0)))
]

not_eof : (k : Kind) → is_eof k ≡ false → k ≢ Kind.eof
not_eof k h e = cc (h, ap is_eof e)

-- With more fuel than there are bytes the loop of `newParser` ends by itself: more fuel changes
-- nothing.
pub tokens_enough : (f g : ℕ) (s : List ℕ) → length s < f → length s < g → tokens f s ≡ tokens g s
unfolding tokens
tokens_enough zero g s h k = absurd (omega arith)
tokens_enough (suc f) zero s h k = absurd (omega arith)
tokens_enough (suc f) (suc g) s h k = elim (Bool-cases (is_eof (next s).0.kind)) [
  | inl end ↦ rw end
  | inr more ↦
      let shorter : length (next s).1 < length s = elim (next_shrinks s) [
        | inl e ↦ absurd (not_eof (next s).0.kind more e)
        | inr less ↦ less
      ] in
      rw more
        (ap (λ ts. (next s).0 ∷ ts) (tokens_enough f g (next s).1 (omega arith) (omega arith)))
]

-- Neither logical operator is the text of a token.
abbrev pub NotLogic : Token → Type 0
NotLogic t = (bytes_eq t.value (codes "&&") ≡ false) × (bytes_eq t.value (codes "||") ≡ false)

token_at-NotLogic :
    (ch : ℕ) (rest : List ℕ) (t : Token) (others : List ℕ)
    → token_at ch rest ≡ some (t, others)
    → NotLogic t
unfolding token_at operator
token_at-NotLogic ch rest t others h = (ground arith, ground arith)

next-NotLogic : (s : List ℕ) → NotLogic (next s).0
next-NotLogic [] = unfold next in (refl, refl)
next-NotLogic (ch ∷ rest) = elim (next_cases ch rest) [
  | inl e ↦ rw e (next-NotLogic rest)
  | inr (p, solid, found, e) ↦ rw e (token_at-NotLogic ch rest p.0 p.1 found)
]

pub tokens-NotLogic : (fuel : ℕ) (s : List ℕ) → All NotLogic (tokens fuel s)
unfolding tokens
tokens-NotLogic zero s = tt
tokens-NotLogic (suc fuel) s =
    let others : All NotLogic (tokens fuel (next s).1) = tokens-NotLogic fuel (next s).1 in
    elim (Bool-cases (is_eof (next s).0.kind)) [
      | inl end ↦ rw end tt
      | inr more ↦ rw more (next-NotLogic s, others)
    ]
