-- ===== src/Assembler/Object/Entries.antt =====
-- The reader on the symbols and the relocations of an object file of class 64.
use forge_zero.Prelude.{
  little_endian, from_little_endian-little_endian, ℕ, zero, suc, ◌+◌, ◌*◌, ◌%◌, ◌^◌, ◌≤◌, ◌<◌, ◌≡◌,
  ◌≢◌, refl, sym, ap, ◌∙◌, List, [], ◌∷◌, ◌++◌, false, length, length-append, get_or, drop, All,
  arith, ◌==◌,
}
use forge_zero.Assembler.State.{Symbol, Parser}
use forge_zero.Assembler.State.Table.{no_symbol}
use forge_zero.Assembler.State.Fits.{LiesIn, Valid}
use forge_zero.Assembler.Target.{Profile}
use forge_zero.Assembler.Tables.{
  names_bytes, strtab_bytes, symbol64, entries, ordered_symbols, null_symbol, symtab_bytes, map_idx,
}
use forge_zero.Assembler.Tables.Numbers.{name_offset, get_or-map_idx, length-ordered_symbols}
use forge_zero.Assembler.Object.{emit64}
use forge_zero.Assembler.Object.Pieces.{append_assoc, drop-append}
use forge_zero.Assembler.Object.Found.{emit64-Finds}
use forge_zero.Assembler.Object.Read.{
  read, contents, before_zero, name_at, IsSmall, contents-emit64_parts,
}

-- An entry of .symtab: the offset of its name, its binding and type, its section and its value.
abbrev pub read_symbol : List ℕ → ℕ × ℕ × ℕ × ℕ
read_symbol bytes = (read 4 0 bytes, read 1 4 bytes, read 2 6 bytes, read 8 8 bytes)

abbrev pub symbol_at : List ℕ → ℕ → ℕ × ℕ × ℕ × ℕ
symbol_at file k = read_symbol (drop (24 * k) (contents file 5))

-- A relocation: its offset, its symbol and type, and its addend.
abbrev pub rela_at : List ℕ → ℕ → ℕ × ℕ × ℕ
rela_at file j =
    let bytes = drop (24 * j) (contents file 7) in (read 8 0 bytes, read 8 8 bytes, read 8 16 bytes)

drop-entries :
    (k : ℕ) (es : List (ℕ × Symbol))
    → k < length es
    → (rest : List ℕ) × (drop (24 * k) (entries symbol64 es)
        ≡ symbol64 (get_or es k null_symbol) ++ rest)
unfolding entries symbol64 little_endian
drop-entries k [] h = absurd (omega arith)
drop-entries zero (e ∷ es) h = (entries symbol64 es, refl)
drop-entries (suc k) (e ∷ es) h =
    let (rest, f) = drop-entries k es (omega arith) in
    let n : 24 * suc k ≡ length (symbol64 e) + 24 * k = omega arith in
    (
      rest,
      ap (λ m. drop m (symbol64 e ++ entries symbol64 es)) n
          ∙ drop-append (symbol64 e) (entries symbol64 es) (24 * k)
          ∙ f,
    )

read_symbol-symbol64 :
    (o : ℕ) (s : Symbol) (rest : List ℕ)
    → o < 2 ^ 32
    → s.bind ≤ 1
    → s.shndx ≤ 3
    → s.value < 2 ^ 64
    → read_symbol (symbol64 (o, s) ++ rest) ≡ (o, s.bind * 16, s.shndx, s.value)
unfolding symbol64 little_endian
read_symbol-symbol64 o s rest h k l m =
    let info : s.bind * 16 % 256 + 256 * 0 ≡ s.bind * 16 = omega arith in
    λ u. (
      from_little_endian-little_endian 4 o h u,
      info u,
      from_little_endian-little_endian 2 s.shndx (omega arith) u,
      from_little_endian-little_endian 8 s.value m u,
    )

-- No byte is zero.
abbrev pub NoZero : List ℕ → Type 0
NoZero = All (λ c. c ≢ 0)

before_zero-append : (name rest : List ℕ) → NoZero name → before_zero (name ++ 0 ∷ rest) ≡ name
before_zero-append [] rest h = refl
before_zero-append (c ∷ name) rest (h, more) =
    let e : (c == 0) ≡ false = ground arith in
    rw e (ap (λ l. c ∷ l) (before_zero-append name rest more))

drop-names_bytes :
    (i o : ℕ) (front : List ℕ) (xs : List Symbol)
    → i < length xs
    → o ≡ length front
    → (rest : List ℕ) × (drop (name_offset o xs i) (front ++ names_bytes xs)
        ≡ (get_or xs i no_symbol).name ++ 0 ∷ rest)
unfolding names_bytes
drop-names_bytes i o front [] h k = absurd (omega arith)
drop-names_bytes zero o front (s ∷ xs) h k =
    let n : o ≡ length front + 0 = omega (arith, k) in
    (
      names_bytes xs,
      ap (λ m. drop m (front ++ names_bytes (s ∷ xs))) n
          ∙ drop-append front (names_bytes (s ∷ xs)) 0,
    )
drop-names_bytes (suc i) o front (s ∷ xs) h k =
    let more = front ++ (s.name ++ 0 ∷ []) in
    let n : o + length s.name + 1 ≡ length more =
      omega (arith, k, length-append front (s.name ++ 0 ∷ []), length-append s.name (zero ∷ [])) in
    let (rest, f) = drop-names_bytes i (o + length s.name + 1) more xs (omega arith) n in
    let e : more ++ names_bytes xs ≡ front ++ (s.name ++ 0 ∷ names_bytes xs) =
      append_assoc front (s.name ++ 0 ∷ []) (names_bytes xs)
      ∙ ap (λ l. front ++ l) (append_assoc s.name (0 ∷ []) (names_bytes xs)) in
    (rest, ap (drop (name_offset (o + length s.name + 1) xs i)) (sym e) ∙ f)

name_at-strtab_bytes :
    (xs : List Symbol) (i : ℕ)
    → i < length xs
    → NoZero (get_or xs i no_symbol).name
    → name_at (strtab_bytes xs) (name_offset 1 xs i) ≡ (get_or xs i no_symbol).name
name_at-strtab_bytes xs i h k =
    let (rest, e) = drop-names_bytes i 1 (0 ∷ []) xs h refl in
    ap before_zero e ∙ before_zero-append (get_or xs i no_symbol).name rest k

name_offset_bound :
    (o : ℕ) (xs : List Symbol) (i : ℕ)
    → i < length xs
    → name_offset o xs i < o + length (names_bytes xs)
unfolding names_bytes
name_offset_bound o [] i h = absurd (omega arith)
name_offset_bound o (s ∷ xs) zero h = omega (arith, length-append s.name (0 ∷ names_bytes xs))
name_offset_bound o (s ∷ xs) (suc i) h = omega (
  arith,
  length-append s.name (0 ∷ names_bytes xs),
  name_offset_bound (o + length s.name + 1) xs i (omega arith),
)

pub All-get_or {ℓ κ} :
    {A : Type ℓ} (P : A → Type κ) (xs : List A) (i : ℕ) (d : A)
    → i < length xs
    → All P xs
    → P (get_or xs i d)
All-get_or P [] i d h a = absurd (omega arith)
All-get_or P (x ∷ xs) zero d h (a, more) = a
All-get_or P (x ∷ xs) (suc i) d h (a, more) = All-get_or P xs i d (omega arith) more

LiesIn-value : (t d : ℕ) (s : Symbol) → LiesIn t d s → t < 2 ^ 32 → d < 2 ^ 32 → s.value < 2 ^ 64
LiesIn-value t d s (a, b, c) h k = ground (arith, c)

-- What an entry of .symtab tells of a symbol, with the names in `table`.
abbrev pub Describes : List ℕ → ℕ × ℕ × ℕ × ℕ → Symbol → Type 0
Describes table (o, info, shndx, value) s =
    (name_at table o ≡ s.name) × (info ≡ s.bind * 16) × (shndx ≡ s.shndx) × (value ≡ s.value)

module _ (t : Profile) (p : Parser) (small : IsSmall t p) (short : length (emit64 t p) < 2 ^ 32)
    (valid : Valid p) where
  symbol_at_entry :
      (i : ℕ)
      → i < length p.symbols
      → symbol_at (emit64 t p) (get_or (map_idx p.symbols) i 0) ≡ (
        name_offset 1 p.symbols i,
        (get_or p.symbols i no_symbol).bind * 16,
        (get_or p.symbols i no_symbol).shndx,
        (get_or p.symbols i no_symbol).value,
      )
  unfolding symtab_bytes
  symbol_at_entry i h =
      let n = get_or (map_idx p.symbols) i 0 in
      let s = get_or p.symbols i no_symbol in
      let (text, data_part, symtab, strtab, names) = emit64-Finds t p in
      let (m, l) = get_or-map_idx p.symbols i h in
      let (rest, e) =
        drop-entries n (null_symbol ∷ ordered_symbols p.symbols)
          (omega (arith, l, length-ordered_symbols p.symbols)) in
      let placed =
        All-get_or (LiesIn (length p.text) (length p.data_bytes)) p.symbols i no_symbol h valid.2 in
      ap (λ bytes. read_symbol (drop (24 * n) bytes)) (contents-emit64_parts t p small).4
      ∙ ap read_symbol e
      ∙ ap (λ x. read_symbol (symbol64 x ++ rest)) m
      ∙ read_symbol-symbol64 (name_offset 1 p.symbols i) s rest
          (omega (arith, short, strtab.1, name_offset_bound 1 p.symbols i h)) placed.0 placed.1
          (LiesIn-value _ _ s placed (omega (arith, short, text.1))
            (omega (arith, short, data_part.1)))

  -- In a file of class 64 of less than 2^32 bytes that is written from a state with the invariant,
  -- the entry of .symtab that has the number of a symbol tells its name, its binding, its section
  -- and its value, if there is no zero in the name.
  pub symbol_at-Describes :
      (i : ℕ)
      → i < length p.symbols
      → NoZero (get_or p.symbols i no_symbol).name
      → Describes
          (contents (emit64 t p) 6)
          (symbol_at (emit64 t p) (get_or (map_idx p.symbols) i 0))
          (get_or p.symbols i no_symbol)
  symbol_at-Describes i h k =
      let r = symbol_at_entry i h in
      (
        ap (λ l. name_at l (symbol_at (emit64 t p) (get_or (map_idx p.symbols) i 0)).0)
              (contents-emit64_parts t p small).5
            ∙ ap (λ x. name_at (strtab_bytes p.symbols) x.0) r
            ∙ name_at-strtab_bytes p.symbols i h k,
        ap (λ x. x.1) r,
        ap (λ x. x.2) r,
        ap (λ x. x.3) r,
      )
