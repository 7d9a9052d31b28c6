-- ===== src/Assembler/Text/Trim.antt =====
-- What `trimSpace` takes away.
use forge_zero.Prelude.{
  ℕ, List, [], ◌∷◌, ◌++◌, ◌≡◌, refl, ap, ◌∙◌, true, false, arith, All, if◌then◌else◌, Bool-cases,
  inl, inr,
}
use forge_zero.Assembler.Text.{is_ascii_space, trim_start, trim_end, trim_space}

abbrev pub IsSpace : ℕ → Type 0
IsSpace c = is_ascii_space c ≡ true

-- No space at the first byte, and none at the last.
abbrev pub StartsBare : List ℕ → Type 0
StartsBare [] = Unit
StartsBare (c ∷ rest) = is_ascii_space c ≡ false

abbrev pub EndsBare : List ℕ → Type 0
EndsBare [] = Unit
EndsBare (c ∷ []) = is_ascii_space c ≡ false
EndsBare (c ∷ d ∷ rest) = EndsBare (d ∷ rest)

trim_start_exact :
    (s : List ℕ)
    → (front : List ℕ) × ((front ++ trim_start s) ≡ s)
      × All IsSpace front
      × StartsBare (trim_start s)
unfolding trim_start
trim_start_exact [] = ([], refl, tt, tt)
trim_start_exact (c ∷ rest) = elim (Bool-cases (is_ascii_space c)) [
  | inl h ↦
      let (front, e, a, b) = trim_start_exact rest in
      (c ∷ front, rw h (ap (λ l. c ∷ l) e), (h, a), rw h b)
  | inr h ↦ ([], rw h refl, tt, rw h h)
]

-- The last byte of a list with one more in front.
trim_end_step :
    (c : ℕ) (rest t back : List ℕ)
    → (t ++ back) ≡ rest
    → All IsSpace back
    → EndsBare t
    → (more : List ℕ) × (((elim t [
      | [] ↦ if is_ascii_space c then [] else c ∷ []
      | d ∷ l ↦ c ∷ d ∷ l
    ])
          ++ more)
        ≡ c ∷ rest)
      × All IsSpace more
      × EndsBare (elim t [ [] ↦ if is_ascii_space c then [] else c ∷ [] | d ∷ l ↦ c ∷ d ∷ l ])
trim_end_step c rest [] back e a b = elim (Bool-cases (is_ascii_space c)) [
  | inl h ↦ (c ∷ back, rw h (ap (λ l. c ∷ l) e), (h, a), rw h tt)
  | inr h ↦ (back, rw h (ap (λ l. c ∷ l) e), a, rw h h)
]
trim_end_step c rest (d ∷ l) back e a b = (back, ap (λ k. c ∷ k) e, a, b)

trim_end_exact :
    (s : List ℕ)
    → (back : List ℕ) × ((trim_end s ++ back) ≡ s) × All IsSpace back × EndsBare (trim_end s)
unfolding trim_end
trim_end_exact [] = ([], refl, tt, tt)
trim_end_exact (c ∷ rest) =
    let (back, e, a, b) = trim_end_exact rest in trim_end_step c rest (trim_end rest) back e a b

trim_end-StartsBare : (s : List ℕ) → StartsBare s → StartsBare (trim_end s)
unfolding trim_end
trim_end-StartsBare [] h = tt
trim_end-StartsBare (c ∷ rest) h = ground arith

-- What is left of a text is the text less spaces in front and behind, and it neither starts nor
-- ends with a space.
pub trim_space_exact :
    (s : List ℕ)
    → (front back : List ℕ) × ((front ++ (trim_space s ++ back)) ≡ s)
      × All IsSpace front
      × All IsSpace back
      × StartsBare (trim_space s)
      × EndsBare (trim_space s)
unfolding trim_space
trim_space_exact s =
    let (front, e, a, b) = trim_start_exact s in
    let (back, e', a', b') = trim_end_exact (trim_start s) in
    (front, back, ap (λ l. front ++ l) e' ∙ e, a, a', trim_end-StartsBare (trim_start s) b, b')
