-- ===== src/Gloria/Lexer/Stream.antt =====
-- `NextToken` called again and again, as the compiler calls it.
use forge_zero.Prelude.{
  ℕ, zero, suc, ◌+◌, ◌≤◌, ◌<◌, ◌≡◌, refl, arith, length, List, get_or, inl, inr, ◌⊎◌, [], ◌∷◌, leb,
  if◌then◌else◌,
}
use native.Mathlib.Decide.{ℕ_discrete}
use forge_zero.Gloria.Token.{TokenType}
use forge_zero.Gloria.Lexer.{Lexer, new_lexer, next_token}
use forge_zero.Gloria.Lexer.Advance.{IsValid, Advance, Advance-trans}
use forge_zero.Gloria.Lexer.Tokens.{Next, next_token-Next}

first_byte :
    (input : List ℕ) → (if leb (length input) 0 then 0 else get_or input 0 0) ≡ get_or input 0 0
first_byte [] = refl
first_byte (x ∷ xs) = ground arith

-- `NewLexer` sets up a state that satisfies the invariant.
pub new_lexer-IsValid : (input : List ℕ) → IsValid (new_lexer input)
unfolding new_lexer
new_lexer-IsValid input = record { bound = omega arith; ahead = refl; current = first_byte input }

-- On a valid state `NextToken` keeps the input and the invariant, and the token's range lies within
-- the input, between the old position and the new one.
pub next_token_range :
    (l : Lexer)
    → IsValid l
    → IsValid (next_token l).1
      × ((next_token l).1.input ≡ l.input)
      × (l.pos ≤ (next_token l).0.start)
      × ((next_token l).0.start ≤ (next_token l).0.end)
      × ((next_token l).0.end ≤ (next_token l).1.pos)
      × ((next_token l).1.pos ≤ length l.input)
next_token_range l v =
    let n : Next l (next_token l) = next_token-Next l v in
    let a : Advance l (next_token l).1 = Advance-trans n.skipped.moved n.lexed.moved in
    (
      a.valid,
      a.same,
      omega (arith, n.skipped.moved.forward, n.lexed.behind),
      n.lexed.ordered,
      n.lexed.within,
      rw a.same at a.valid.bound,
    )

-- `NextToken` consumes a byte unless it answers the end of the input.
pub next_token_progress :
    (l : Lexer)
    → IsValid l
    → ((next_token l).0.type ≡ TokenType.eof) ⊎ (l.pos < (next_token l).1.pos)
next_token_progress l v =
    let n : Next l (next_token l) = next_token-Next l v in
    elim (ℕ_discrete n.middle.ch 0) [
      | yes end ↦ inl (n.lexed.ended.1 end)
      | no more ↦ inr (omega (arith, n.skipped.moved.forward, n.lexed.progress more))
    ]

-- The state behind `k` calls.
pub after : ℕ → Lexer → Lexer
after zero l = l
after (suc k) l = after k (next_token l).1

-- Whatever the input, the lexer answers the end of the input within as many calls as there are
-- bytes left, and one more.
pub reaches_eof :
    (fuel : ℕ) (l : Lexer)
    → IsValid l
    → length l.input ≤ fuel + l.pos
    → (k : ℕ) × (k ≤ fuel) × ((next_token (after k l)).0.type ≡ TokenType.eof)
unfolding after
reaches_eof zero l v h = elim (next_token_progress l v) [
  | inl end ↦ (0, omega arith, end)
  | inr more ↦ absurd (omega (arith, (next_token_range l v).5))
]
reaches_eof (suc fuel) l v h = elim (next_token_progress l v) [
  | inl end ↦ (0, omega arith, end)
  | inr more ↦
      let (valid, same, _, _, _, _) = next_token_range l v in
      let (k, few, end) = reaches_eof fuel (next_token l).1 valid (rw same (omega arith)) in
      (suc k, omega arith, end)
]
