-- ===== src/Gloria/Compile/Blocks/Names.antt =====
-- When the loop over the names of a call or of a function ends.
use forge_zero.Prelude.{
  ℕ, zero, suc, ◌<◌, ◌≡◌, refl, List, [], ◌∷◌, Bool, true, false, ◌||◌, not, arith, length, All,
  Bool-cases, inl, inr,
}
use forge_zero.Gloria.Token.{TokenType}
use forge_zero.Gloria.Action.{
  Word, ◌is◌, Slots, State, Outcome, done, failed, panicked, endless, stuck, pure, hang, follow,
  ◌>>=◌, next_word, with_fuel,
}
use forge_zero.Gloria.Compile.Blocks.{name_round, name_list}

abbrev pub is_done {ℓ} : {A : Type ℓ} → Outcome A → Bool
is_done (done a s) = true
is_done failed = false
is_done panicked = false
is_done endless = false
is_done stuck = false

abbrev pub is_endless {ℓ} : {A : Type ℓ} → Outcome A → Bool
is_endless (done a s) = false
is_endless failed = false
is_endless panicked = false
is_endless endless = true
is_endless stuck = false

abbrev pub has_bracket : List Word → Bool
has_bracket [] = false
has_bracket (w ∷ rest) = w is TokenType.rparen || has_bracket rest

abbrev pub NotEnd : Word → Type 0
NotEnd w = w is TokenType.eof ≡ false

-- An outcome that is an answer or an endless loop, as a bit says.
abbrev EndsIf {ℓ} : {A : Type ℓ} → Bool → Outcome A → Type 0
EndsIf b o = (is_done o ≡ b) × (is_endless o ≡ not b)

EndsIf-map {ℓ κ} :
    {A : Type ℓ} {B : Type κ} (f : A → B) (b : Bool) (o : Outcome A)
    → EndsIf b o
    → EndsIf b (follow (λ a. pure (f a)) o)
unfolding pure
EndsIf-map f b (done a s) h = h
EndsIf-map f b failed h = h
EndsIf-map f b panicked h = h
EndsIf-map f b endless h = h
EndsIf-map f b stuck h = h

abbrev at_words : List Word → Slots → State
at_words words slots = record { words = words; slots = slots }

name_list_ends :
    (fuel : ℕ) (words : List Word) (slots : Slots)
    → length words < fuel
    → All NotEnd words
    → EndsIf (has_bracket words) (name_list fuel (at_words words slots))
unfolding name_list ◌>>=◌ next_word name_round hang pure
name_list_ends zero words slots h n = absurd (omega arith)
name_list_ends (suc fuel) [] slots h n = (refl, refl)
name_list_ends (suc fuel) (w ∷ []) slots h (n, ns) = elim (Bool-cases (w is TokenType.rparen)) [
  | inl closed ↦ rw closed (refl, refl)
  | inr other ↦ elim (Bool-cases (w is TokenType.ident)) [
    | inl name ↦
        rw (other, n, name) (EndsIf-map _ false _ (name_list_ends fuel [] slots (omega arith) tt))
    | inr no_name ↦ rw (other, n, no_name) (name_list_ends fuel [] slots (omega arith) tt)
  ]
]
name_list_ends (suc fuel) (w ∷ b ∷ rest) slots h (n, (nb, ns)) =
    elim (Bool-cases (w is TokenType.rparen)) [
      | inl closed ↦ rw closed (refl, refl)
      | inr other ↦ elim (Bool-cases (w is TokenType.ident)) [
        | inr no_name ↦
            rw (other, n, no_name) (name_list_ends fuel (b ∷ rest) slots (omega arith) (nb, ns))
        | inl name ↦ elim (Bool-cases (b is TokenType.rparen)) [
          | inl closed ↦ rw (other, n, name, closed) (refl, refl)
          | inr more ↦
              rw (other, n, name, more)
                (EndsIf-map _ (has_bracket rest) _
                  (name_list_ends fuel rest slots (omega arith) ns))
        ]
      ]
    ]

-- On tokens that are not the end of the input, the loop over the names of a call or a function
-- answers if there is a closing bracket among the tokens, and else goes round for ever.
pub name_list_bracket :
    (words : List Word) (slots : Slots)
    → All NotEnd words
    → (is_done (with_fuel name_list (record { words = words; slots = slots })) ≡ has_bracket words)
      × (is_endless (with_fuel name_list (record { words = words; slots = slots }))
          ≡ not (has_bracket words))
unfolding with_fuel
name_list_bracket words slots n = name_list_ends (suc (length words)) words slots (omega arith) n
