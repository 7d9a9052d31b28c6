-- ===== src/Assembler/Object/Relocations.antt =====
-- The reader on the relocations of an object file of class 64.
use forge_zero.Prelude.{
  little_endian, from_little_endian-little_endian, ℕ, zero, suc, ◌+◌, ◌*◌, ◌/◌, ◌%◌, ◌^◌, ◌≤◌, ◌<◌,
  ◌≡◌, refl, sym, ap, ◌∙◌, subst, List, [], ◌∷◌, ◌++◌, length, get_or, drop, All, arith, ◌==◌,
  if◌then◌else◌, Bool-cases, inl, inr,
}
use forge_zero.Assembler.State.{Reloc, Parser}
use forge_zero.Assembler.State.Table.{no_symbol}
use forge_zero.Assembler.State.Fits.{Fits, Valid}
use forge_zero.Assembler.Target.{Profile}
use forge_zero.Assembler.Tables.{map_idx, rela_bytes}
use forge_zero.Assembler.Tables.Numbers.{get_or-map_idx}
use forge_zero.Assembler.Object.{emit64}
use forge_zero.Assembler.Object.Pieces.{drop-append}
use forge_zero.Assembler.Object.Found.{emit64-Finds}
use forge_zero.Assembler.Object.Read.{read, contents, IsSmall, contents-emit64_parts}
use forge_zero.Assembler.Object.Entries.{
  symbol_at, rela_at, NoZero, Describes, All-get_or, symbol_at-Describes,
}

abbrev pub no_reloc : Reloc
no_reloc = record { sec = 0; off = 0; sym = 0; typ = 0; addend = 0 }

-- The relocations for .text.
abbrev pub text_relocs : List Reloc → List Reloc
text_relocs [] = []
text_relocs (r ∷ rest) = if r.sec == 1 then r ∷ text_relocs rest else text_relocs rest

text_relocs-Fits :
    (n t d b : ℕ) (rs : List Reloc)
    → All (Fits n t d b) rs
    → All (λ r. (r.sec ≡ 1) × Fits n t d b r) (text_relocs rs)
text_relocs-Fits n t d b [] h = tt
text_relocs-Fits n t d b (r ∷ rest) (h, more) = elim (Bool-cases (r.sec == 1)) [
  | inl e ↦ rw e ((ground arith, h), text_relocs-Fits n t d b rest more)
  | inr e ↦ rw e (text_relocs-Fits n t d b rest more)
]

-- The fields of an entry.
abbrev read_fields : List ℕ → ℕ × ℕ × ℕ
read_fields bytes = (read 8 0 bytes, read 8 8 bytes, read 8 16 bytes)

read_rela :
    (a b c : ℕ) (rest : List ℕ)
    → a < 2 ^ 64
    → b < 2 ^ 64
    → c < 2 ^ 64
    → read_fields (little_endian 8 a ++ (little_endian 8 b ++ (little_endian 8 c ++ rest)))
      ≡ (a, b, c)
unfolding little_endian
read_rela a b c rest h k l = λ u. (
  from_little_endian-little_endian 8 a h u,
  from_little_endian-little_endian 8 b k u,
  from_little_endian-little_endian 8 c l u,
)

-- The bytes of a relocation, with the number of its symbol.
abbrev rela_entry : List ℕ → Reloc → List ℕ → List ℕ
rela_entry numbers r rest =
    little_endian 8 r.off
    ++ (little_endian 8 (get_or numbers r.sym 0 * 2 ^ 32 + r.typ)
        ++ (little_endian 8 r.addend ++ rest))

-- The relocations of .text in a row.
entries_of : List ℕ → List Reloc → List ℕ
entries_of numbers [] = []
entries_of numbers (r ∷ rest) = rela_entry numbers r (entries_of numbers rest)

rela_bytes-text_relocs :
    (numbers : List ℕ) (rs : List Reloc)
    → rela_bytes numbers rs ≡ entries_of numbers (text_relocs rs)
unfolding rela_bytes entries_of
rela_bytes-text_relocs numbers [] = refl
rela_bytes-text_relocs numbers (r ∷ rest) = elim (Bool-cases (r.sec == 1)) [
  | inl e ↦ rw e (ap (rela_entry numbers r) (rela_bytes-text_relocs numbers rest))
  | inr e ↦ rw e (rela_bytes-text_relocs numbers rest)
]

drop_entry :
    (numbers : List ℕ) (j : ℕ) (r : Reloc) (rest : List ℕ)
    → drop (24 * suc j) (rela_entry numbers r rest) ≡ drop (24 * j) rest
unfolding little_endian
drop_entry numbers j r rest =
    let n : 24 * suc j ≡ length (rela_entry numbers r []) + 24 * j = omega arith in
    ap (λ m. drop m (rela_entry numbers r rest)) n
    ∙ drop-append (rela_entry numbers r []) rest (24 * j)

drop-entries_of :
    (numbers : List ℕ) (j : ℕ) (rs : List Reloc)
    → j < length rs
    → (rest : List ℕ) × (drop (24 * j) (entries_of numbers rs)
        ≡ rela_entry numbers (get_or rs j no_reloc) rest)
unfolding entries_of
drop-entries_of numbers j [] h = absurd (omega arith)
drop-entries_of numbers zero (r ∷ rest) h = (entries_of numbers rest, refl)
drop-entries_of numbers (suc j) (r ∷ rest) h =
    let (more, e) = drop-entries_of numbers j rest (omega arith) in
    (more, drop_entry numbers j r (entries_of numbers rest) ∙ e)

Fits-bounds :
    (n t d b : ℕ) (r : Reloc)
    → (r.sec ≡ 1) × Fits n t d b r
    → t < 2 ^ 32
    → (r.sym < n) × (r.typ ≤ 2) × (r.off < 2 ^ 64) × r.addend < 2 ^ 64
Fits-bounds n t d b r (e, (h, k, l, m)) i = (h, k, ground (arith, e, m), l)

-- The symbol and the type of a relocation, from the number that holds both.
reloc_info :
    (n typ : ℕ)
    → n < 2 ^ 32
    → typ ≤ 2
    → n * 2 ^ 32 + typ < 2 ^ 64
      × ((n * 2 ^ 32 + typ) / 2 ^ 32 ≡ n)
      × ((n * 2 ^ 32 + typ) % 2 ^ 32 ≡ typ)
reloc_info n typ h k = (omega arith, omega arith, omega arith)

-- What an entry of .rela.text tells of a relocation, with the symbol of its number in the file.
abbrev pub Relocates : List ℕ → ℕ × ℕ × ℕ → Parser → Reloc → Type 0
Relocates file (off, info, addend) p r =
    (off ≡ r.off)
    × (info % 2 ^ 32 ≡ r.typ)
    × (addend ≡ r.addend)
    × Describes (contents file 6) (symbol_at file (info / 2 ^ 32))
        (get_or p.symbols r.sym no_symbol)

-- In a file of class 64 of less than 2^32 bytes that is written from a state with the invariant,
-- the entry `j` of .rela.text tells the offset, the type and the addend of the relocation `j` of
-- .text, and the number of the entry of .symtab that describes its symbol, if there is no zero in
-- the symbol's name.
pub rela_at-Relocates :
    (t : Profile) (p : Parser) (j : ℕ)
    → IsSmall t p
    → length (emit64 t p) < 2 ^ 32
    → Valid p
    → j < length (text_relocs p.relocs)
    → NoZero (get_or p.symbols (get_or (text_relocs p.relocs) j no_reloc).sym no_symbol).name
    → Relocates (emit64 t p) (rela_at (emit64 t p) j) p (get_or (text_relocs p.relocs) j no_reloc)
rela_at-Relocates t p j small short valid h k =
    let r = get_or (text_relocs p.relocs) j no_reloc in
    let numbers = map_idx p.symbols in
    let n = get_or numbers r.sym 0 in
    let text = (emit64-Finds t p).0.1 in
    let (a, b, c, d) =
      Fits-bounds _ (length p.text) _ _ r
        (All-get_or _ (text_relocs p.relocs) j no_reloc h
          (text_relocs-Fits _ _ _ _ p.relocs valid.3))
        (omega (arith, short, text)) in
    let number = (get_or-map_idx p.symbols r.sym a).1 in
    let (x, y, z) = reloc_info n r.typ (omega (arith, number, valid.1)) b in
    let (rest, e) = drop-entries_of numbers j (text_relocs p.relocs) h in
    let s : rela_at (emit64 t p) j ≡ (r.off, n * 2 ^ 32 + r.typ, r.addend) =
      ap (λ l. read_fields (drop (24 * j) l))
        ((contents-emit64_parts t p small).6 ∙ rela_bytes-text_relocs numbers p.relocs)
      ∙ ap read_fields e
      ∙ read_rela r.off (n * 2 ^ 32 + r.typ) r.addend rest c x d in
    (
      ap (λ v. v.0) s,
      ap (λ v. v.1 % 2 ^ 32) s ∙ z,
      ap (λ v. v.2) s,
      subst
          (λ v.
            Describes (contents (emit64 t p) 6) (symbol_at (emit64 t p) v)
              (get_or p.symbols r.sym no_symbol))
          (sym (ap (λ v. v.1 / 2 ^ 32) s ∙ y))
          (symbol_at-Describes t p small short valid r.sym a k),
    )
