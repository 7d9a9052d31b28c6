-- ===== src/Assembler/Text/Args.antt =====
-- The arguments that `splitArgs` finds.
use forge_zero.Prelude.{
  ℕ, List, [], ◌∷◌, ◌++◌, ◌≡◌, Bool, false, ◌||◌, Option, none, some, All, ◌==◌, if◌then◌else◌,
}

-- Arguments with a comma in front of each.
abbrev pub with_commas : List (List ℕ) → List ℕ
with_commas [] = []
with_commas (a ∷ rest) = b',' ∷ (a ++ with_commas rest)

abbrev pub joined : List (List ℕ) → List ℕ
joined [] = []
joined (a ∷ rest) = a ++ with_commas rest

-- Whether a comma stands outside quotes.
abbrev pub bare_comma : Option ℕ → List ℕ → Bool
bare_comma quote [] = false
bare_comma (some q) (c ∷ rest) = if c == q then bare_comma none rest else bare_comma (some q) rest
bare_comma none (c ∷ rest) =
    if c == b'"' || c == b'\'' then bare_comma (some c) rest else c == b',' || bare_comma none rest

abbrev pub IsPlain : List ℕ → Type 0
IsPlain a = bare_comma none a ≡ false

abbrev Splits : Option ℕ → List ℕ → List ℕ × List (List ℕ) → Type 0
Splits quote s (a, rest) =
    ((a ++ with_commas rest) ≡ s) × (bare_comma quote a ≡ false) × All IsPlain rest
