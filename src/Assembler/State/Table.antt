-- ===== src/Assembler/State/Table.antt =====
-- Finding a symbol by its name, and symbols with distinct names.
use forge_zero.Prelude.{
  ℕ, zero, suc, ◌<◌, ◌≡◌, refl, ◌∙◌, List, [], ◌∷◌, ◌++◌, true, false, Option, none, some, bytes_eq,
  arith, length, get_or, Bool-cases, Option-cases, inl, inr, if◌then◌else◌,
}
use forge_zero.Assembler.State.{Symbol, find_symbol, redefine, update_symbol}

pub bytes_eq_refl : (a : List ℕ) → bytes_eq a a ≡ true
bytes_eq_refl [] = refl
bytes_eq_refl (x ∷ xs) = ground (arith, bytes_eq_refl xs)

pub bytes_eq_exact : (a b : List ℕ) → bytes_eq a b ≡ true → a ≡ b
bytes_eq_exact [] [] h = refl
bytes_eq_exact [] (y ∷ ys) h = absurd (ground arith)
bytes_eq_exact (x ∷ xs) [] h = absurd (ground arith)
bytes_eq_exact (x ∷ xs) (y ∷ ys) h =
    let e : x ≡ y = ground arith in
    let k : bytes_eq xs ys ≡ true = ground arith in rw (e, bytes_eq_exact xs ys k) refl

pub bytes_eq_sym : (a b : List ℕ) → bytes_eq a b ≡ bytes_eq b a
bytes_eq_sym [] [] = refl
bytes_eq_sym [] (y ∷ ys) = refl
bytes_eq_sym (x ∷ xs) [] = refl
bytes_eq_sym (x ∷ xs) (y ∷ ys) = ground (arith, bytes_eq_sym xs ys)

abbrev pub no_symbol : Symbol
no_symbol = record { name = []; value = 0; shndx = 0; bind = 0 }

-- The symbol of a name.
unfoldable pub symbol_of : List Symbol → List ℕ → Option Symbol
symbol_of [] name = none
symbol_of (s ∷ rest) name =
    let more = symbol_of rest name in if bytes_eq s.name name then some s else more

-- No name stands twice.
abbrev pub Distinct : List Symbol → Type 0
Distinct [] = Unit
Distinct (s ∷ rest) = (find_symbol rest s.name ≡ none) × Distinct rest

pub find_symbol_bound :
    (xs : List Symbol) (name : List ℕ) (i : ℕ)
    → find_symbol xs name ≡ some i
    → (i < length xs) × ((get_or xs i no_symbol).name ≡ name)
unfolding find_symbol
find_symbol_bound [] name i h = absurd (ground arith)
find_symbol_bound (s ∷ rest) name i h = elim (Bool-cases (bytes_eq s.name name)) [
  | inl e ↦ let z : zero ≡ i = ground arith in rw (← z) (omega arith, bytes_eq_exact s.name name e)
  | inr e ↦ elim (Option-cases (find_symbol rest name)) [
    | inl f ↦ absurd (ground arith)
    | inr (j, f) ↦
        let z : suc j ≡ i = ground arith in
        let (a, b) = find_symbol_bound rest name j f in rw (← z) (omega arith, b)
  ]
]

pub find_symbol-update_symbol :
    (xs : List Symbol) (name other : List ℕ) (value shndx bind : ℕ)
    → find_symbol (update_symbol xs name value shndx bind) other ≡ find_symbol xs other
unfolding find_symbol update_symbol redefine
find_symbol-update_symbol [] name other value shndx bind = refl
find_symbol-update_symbol (s ∷ rest) name other value shndx bind =
    elim (Bool-cases (bytes_eq s.name name)) [
      | inl e ↦ rw e refl
      | inr e ↦ rw (e, find_symbol-update_symbol rest name other value shndx bind) refl
    ]

pub length-update_symbol :
    (xs : List Symbol) (name : List ℕ) (value shndx bind : ℕ)
    → length (update_symbol xs name value shndx bind) ≡ length xs
unfolding update_symbol
length-update_symbol [] name value shndx bind = refl
length-update_symbol (s ∷ rest) name value shndx bind =
    ground (arith, length-update_symbol rest name value shndx bind)

pub update_symbol-Distinct :
    (xs : List Symbol) (name : List ℕ) (value shndx bind : ℕ)
    → Distinct xs
    → Distinct (update_symbol xs name value shndx bind)
unfolding update_symbol redefine
update_symbol-Distinct [] name value shndx bind h = tt
update_symbol-Distinct (s ∷ rest) name value shndx bind (h, k) =
    elim (Bool-cases (bytes_eq s.name name)) [
      | inl e ↦ rw e (h, k)
      | inr e ↦ rw e (
        find_symbol-update_symbol rest name s.name value shndx bind ∙ h,
        update_symbol-Distinct rest name value shndx bind k,
      )
    ]

-- A name of no symbol is that of none in front, or behind.
pub find_symbol-none :
    (s : Symbol) (rest : List Symbol) (name : List ℕ)
    → find_symbol (s ∷ rest) name ≡ none
    → (bytes_eq s.name name ≡ false) × (find_symbol rest name ≡ none)
unfolding find_symbol
find_symbol-none s rest name h = ground arith

find_symbol_append :
    (xs : List Symbol) (s : Symbol) (name : List ℕ)
    → find_symbol xs name ≡ none
    → bytes_eq s.name name ≡ false
    → find_symbol (xs ++ s ∷ []) name ≡ none
unfolding find_symbol
find_symbol_append [] s name h k = rw k refl
find_symbol_append (x ∷ xs) s name h k =
    let (e, f) = find_symbol-none x xs name h in rw (e, find_symbol_append xs s name f k) refl

pub append-Distinct :
    (xs : List Symbol) (s : Symbol)
    → Distinct xs
    → find_symbol xs s.name ≡ none
    → Distinct (xs ++ s ∷ [])
unfolding find_symbol
append-Distinct [] s h k = (refl, tt)
append-Distinct (x ∷ xs) s (h, d) k =
    let (e, f) = find_symbol-none x xs s.name k in
    (find_symbol_append xs s x.name h (bytes_eq_sym s.name x.name ∙ e), append-Distinct xs s d f)
