-- ===== src/Assembler/Tables/Numbers.antt =====
-- The order of the symbols in .symtab and the numbers that the relocations have for them.
use forge_zero.Prelude.{
  little_endian, ℕ, zero, suc, ◌+◌, ◌*◌, ◌≤◌, ◌<◌, ◌≡◌, refl, sym, ap, ◌∙◌, List, [], ◌∷◌, Bool,
  true, false, not, length, length-append, get_or, replicate, length-replicate, arith, Bool-cases,
  inl, inr, get_or-append, get_or-append_right,
}
use forge_zero.Assembler.State.{Symbol}
use forge_zero.Assembler.State.Table.{no_symbol}
use forge_zero.Assembler.Tables.{
  name_offsets, is_local, select, symbol64, entries, ordered_symbols, null_symbol, symtab_bytes,
  symbol_local_count, number_symbols, map_idx,
}

length-symbol64 : (e : ℕ × Symbol) → length (symbol64 e) ≡ 24
unfolding symbol64 little_endian
length-symbol64 (o, s) = refl

length-entries : (es : List (ℕ × Symbol)) → length (entries symbol64 es) ≡ 24 * length es
unfolding entries
length-entries [] = refl
length-entries (e ∷ rest) = omega (
  arith,
  length-append (symbol64 e) (entries symbol64 rest),
  length-symbol64 e,
  length-entries rest,
)

select_parts :
    (o : ℕ) (xs : List Symbol)
    → length (select is_local (name_offsets o xs))
        + length (select (λ s. not (is_local s)) (name_offsets o xs))
      ≡ length xs
unfolding select name_offsets
select_parts o [] = refl
select_parts o (s ∷ rest) = ground (arith, select_parts (o + length s.name + 1) rest)

length-select :
    (o : ℕ) (xs : List Symbol)
    → length (select is_local (name_offsets o xs)) ≡ symbol_local_count xs
unfolding select name_offsets symbol_local_count
length-select o [] = refl
length-select o (s ∷ rest) = ground (arith, length-select (o + length s.name + 1) rest)

pub length-symtab_bytes :
    (xs : List Symbol) → length (symtab_bytes symbol64 xs) ≡ suc (length xs) * 24
unfolding symtab_bytes ordered_symbols
length-symtab_bytes xs = omega (
  arith,
  length-entries (null_symbol ∷ ordered_symbols xs),
  length-append (select is_local (name_offsets 1 xs))
      (select (λ s. not (is_local s)) (name_offsets 1 xs)),
  select_parts 1 xs,
)

pub symbol_local_count_bound : (xs : List Symbol) → symbol_local_count xs ≤ length xs
unfolding symbol_local_count
symbol_local_count_bound [] = omega arith
symbol_local_count_bound (s ∷ rest) = ground (arith, symbol_local_count_bound rest)

-- The offset of the name of a symbol.
abbrev pub name_offset : ℕ → List Symbol → ℕ → ℕ
name_offset o [] i = o
name_offset o (s ∷ rest) zero = o
name_offset o (s ∷ rest) (suc i) = name_offset (o + length s.name + 1) rest i

-- What the symbol `i` has for an entry of .symtab.
abbrev pub entry_of : ℕ → List Symbol → ℕ → ℕ × Symbol
entry_of o xs i = (name_offset o xs i, get_or xs i no_symbol)

-- A symbol that a test holds for has the number that the loop gives it, and the others keep theirs.
number_picked :
    (test : Symbol → Bool) (o idx i : ℕ) (xs : List Symbol) (numbers : List ℕ)
    → i < length xs
    → length xs ≡ length numbers
    → test (get_or xs i no_symbol) ≡ true
    → (k : ℕ) × (get_or (number_symbols test idx xs numbers) i 0 ≡ idx + k)
      × k < length (select test (name_offsets o xs))
      × (get_or (select test (name_offsets o xs)) k null_symbol ≡ entry_of o xs i)
unfolding number_symbols select name_offsets
number_picked test o idx i [] numbers h k l = absurd (omega arith)
number_picked test o idx i (s ∷ rest) [] h k l = absurd (omega (arith, k))
number_picked test o idx zero (s ∷ rest) (n ∷ numbers) h k l =
    rw l (zero, omega arith, omega arith, refl)
number_picked test o idx (suc i) (s ∷ rest) (n ∷ numbers) h k l = elim (Bool-cases (test s)) [
  | inl e ↦
      let (j, a, b, c) =
        number_picked test (o + length s.name + 1) (suc idx) i rest numbers (omega arith)
          (omega (arith, k)) l in
      rw e (suc j, omega (arith, a), omega (arith, b), c)
  | inr e ↦
      let (j, a, b, c) =
        number_picked test (o + length s.name + 1) idx i rest numbers (omega arith)
          (omega (arith, k)) l in
      rw e (j, a, b, c)
]

number_kept :
    (test : Symbol → Bool) (idx i : ℕ) (xs : List Symbol) (numbers : List ℕ)
    → i < length xs
    → length xs ≡ length numbers
    → test (get_or xs i no_symbol) ≡ false
    → get_or (number_symbols test idx xs numbers) i 0 ≡ get_or numbers i 0
unfolding number_symbols
number_kept test idx i [] numbers h k l = absurd (omega arith)
number_kept test idx i (s ∷ rest) [] h k l = absurd (omega (arith, k))
number_kept test idx zero (s ∷ rest) (n ∷ numbers) h k l = rw l refl
number_kept test idx (suc i) (s ∷ rest) (n ∷ numbers) h k l = elim (Bool-cases (test s)) [
  | inl e ↦ rw e (number_kept test (suc idx) i rest numbers (omega arith) (omega (arith, k)) l)
  | inr e ↦ rw e (number_kept test idx i rest numbers (omega arith) (omega (arith, k)) l)
]

length-number_symbols :
    (test : Symbol → Bool) (idx : ℕ) (xs : List Symbol) (numbers : List ℕ)
    → length xs ≡ length numbers
    → length (number_symbols test idx xs numbers) ≡ length xs
unfolding number_symbols
length-number_symbols test idx [] numbers h = sym h
length-number_symbols test idx (s ∷ rest) [] h = absurd (omega (arith, h))
length-number_symbols test idx (s ∷ rest) (n ∷ numbers) h = elim (Bool-cases (test s)) [
  | inl e ↦ rw e (ap suc (length-number_symbols test (suc idx) rest numbers (omega (arith, h))))
  | inr e ↦ rw e (ap suc (length-number_symbols test idx rest numbers (omega (arith, h))))
]

-- The number of a symbol is that of its entry in .symtab, behind the empty one; its name and its
-- offset are the symbol's.
pub get_or-map_idx :
    (xs : List Symbol) (i : ℕ)
    → i < length xs
    → (get_or (null_symbol ∷ ordered_symbols xs) (get_or (map_idx xs) i 0) null_symbol
        ≡ entry_of 1 xs i)
      × get_or (map_idx xs) i 0 < suc (length xs)
unfolding map_idx ordered_symbols
get_or-map_idx xs i h =
    let blank = replicate (length xs) zero in
    let n : length xs ≡ length blank = sym (length-replicate (length xs) zero) in
    let m = length-number_symbols is_local 1 xs blank n in
    let named = name_offsets 1 xs in
    let globals = select (λ s. not (is_local s)) named in
    let locals = select is_local named in
    elim (Bool-cases (is_local (get_or xs i no_symbol))) [
      | inl e ↦
          let (k, a, b, c) = number_picked is_local 1 1 i xs blank h n e in
          let d =
            number_kept (λ s. not (is_local s)) (1 + symbol_local_count xs) i xs
              (number_symbols is_local 1 xs blank) h (sym m) (ap not e) in
          let f : get_or (map_idx xs) i 0 ≡ suc k = d ∙ a ∙ omega arith in
          rw f
            (get_or-append null_symbol locals globals k b ∙ c, omega (arith, b, select_parts 1 xs))
      | inr e ↦
          let (k, a, b, c) =
            number_picked (λ s. not (is_local s)) 1 (1 + symbol_local_count xs) i xs
              (number_symbols is_local 1 xs blank) h (sym m) (ap not e) in
          let f : get_or (map_idx xs) i 0 ≡ suc (length locals + k) =
            a ∙ omega (arith, length-select 1 xs) in
          rw f (
            get_or-append_right null_symbol locals globals k ∙ c,
            omega (arith, b, select_parts 1 xs),
          )
    ]

pub length-ordered_symbols :
    (xs : List Symbol) → length (null_symbol ∷ ordered_symbols xs) ≡ suc (length xs)
unfolding ordered_symbols
length-ordered_symbols xs = omega (
  arith,
  length-append (select is_local (name_offsets 1 xs))
      (select (λ s. not (is_local s)) (name_offsets 1 xs)),
  select_parts 1 xs,
)
