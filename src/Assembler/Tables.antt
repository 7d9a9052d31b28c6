-- ===== src/Assembler/Tables.antt =====
-- The tables of an object file, in internal/assembler/emitter.go: the names of the sections, the
-- symbols with their names, and the relocations.
-- A number that is cast to fewer bits is cut where it is written.
pub mod Numbers
use forge_zero.Prelude.{
  little_endian, ℕ, zero, suc, ◌+◌, ◌-◌, ◌*◌, ◌%◌, ◌^◌, List, [], ◌∷◌, ◌++◌, Bool, true, false,
  ◌&&◌, ◌||◌, not, codes, length, get_or, ltb, ◌==◌, if◌then◌else◌, replicate,
}
use forge_zero.Assembler.State.{Symbol, Reloc}

-- The names of the sections, each with a zero behind it; the first is empty, and a zero is in front.
abbrev pub section_names : List ℕ
section_names =
    0
    ∷ 0
    ∷ (codes ".text"
        ++ 0
          ∷ (codes ".data"
              ++ 0
                ∷ (codes ".bss"
                    ++ 0
                      ∷ (codes ".shstrtab"
                          ++ 0
                            ∷ (codes ".symtab"
                                ++ 0 ∷ (codes ".strtab" ++ 0 ∷ (codes ".rela.text" ++ 0 ∷ [])))))))

-- `matchBytes`
unfoldable pub match_bytes : List ℕ → List ℕ → Bool
match_bytes bytes [] = true
match_bytes [] (c ∷ rest) = false
match_bytes (x ∷ xs) (c ∷ rest) = x == c && match_bytes xs rest

-- The loop of `offsetOfNameInShstr`, at the byte `i`.
unfoldable pub offset_from : ℕ → List ℕ → List ℕ → ℕ
offset_from i name [] = 0
offset_from i name (c ∷ rest) =
    let more = offset_from (suc i) name rest in if match_bytes (c ∷ rest) name then i else more

unfoldable pub offset_of_name : List ℕ → List ℕ → ℕ
offset_of_name [] table = 0
offset_of_name (c ∷ rest) table = offset_from 0 (c ∷ rest) table

-- The symbols with the offsets of their names in .strtab, from `o` on.
unfoldable pub name_offsets : ℕ → List Symbol → List (ℕ × Symbol)
name_offsets o [] = []
name_offsets o (s ∷ rest) = (o, s) ∷ name_offsets (o + length s.name + 1) rest

unfoldable pub names_bytes : List Symbol → List ℕ
names_bytes [] = []
names_bytes (s ∷ rest) = s.name ++ 0 ∷ names_bytes rest

-- .strtab
abbrev pub strtab_bytes : List Symbol → List ℕ
strtab_bytes symbols = 0 ∷ names_bytes symbols

abbrev pub is_local : Symbol → Bool
is_local s = s.bind == 0

-- The symbols that a test holds for, in their order.
unfoldable pub select : (Symbol → Bool) → List (ℕ × Symbol) → List (ℕ × Symbol)
select test [] = []
select test ((o, s) ∷ rest) = let more = select test rest in if test s then (o, s) ∷ more else more

abbrev pub symbol_info : Symbol → ℕ
symbol_info s = s.bind * 16 % 256

-- `writeElf64SymAt`
unfoldable pub symbol64 : ℕ × Symbol → List ℕ
symbol64 (o, s) =
    little_endian 4 o
    ++ (symbol_info s
        ∷ 0
        ∷ (little_endian 2 s.shndx ++ (little_endian 8 s.value ++ little_endian 8 0)))

-- `writeElf32SymAt`, with the fields in the order of the source.
unfoldable pub symbol32 : ℕ × Symbol → List ℕ
symbol32 (o, s) =
    little_endian 4 o
    ++ (symbol_info s
        ∷ 0
        ∷ (little_endian 2 s.shndx ++ (little_endian 4 s.value ++ little_endian 4 0)))

unfoldable pub entries : (ℕ × Symbol → List ℕ) → List (ℕ × Symbol) → List ℕ
entries write [] = []
entries write (entry ∷ rest) = write entry ++ entries write rest

-- .symtab: an empty entry, the local symbols and the others.
unfoldable pub ordered_symbols : List Symbol → List (ℕ × Symbol)
ordered_symbols symbols =
    let named = name_offsets 1 symbols in
    select is_local named ++ select (λ s. not (is_local s)) named

abbrev pub null_symbol : ℕ × Symbol
null_symbol = (0, record { name = []; value = 0; shndx = 0; bind = 0 })

unfoldable pub symtab_bytes : (ℕ × Symbol → List ℕ) → List Symbol → List ℕ
symtab_bytes write symbols = entries write (null_symbol ∷ ordered_symbols symbols)

-- The check of the values for a file of class 32.
unfoldable pub has_large_value : List Symbol → Bool
has_large_value [] = false
has_large_value (s ∷ rest) = ltb (2 ^ 32 - 1) s.value || has_large_value rest

-- `symbolLocalCount`
unfoldable pub symbol_local_count : List Symbol → ℕ
symbol_local_count [] = 0
symbol_local_count (s ∷ rest) =
    let more = symbol_local_count rest in if is_local s then suc more else more

-- One of the loops that fill `mapIdx`: the symbols that the test holds for are numbered from `idx`.
unfoldable pub number_symbols : (Symbol → Bool) → ℕ → List Symbol → List ℕ → List ℕ
number_symbols test idx [] numbers = numbers
number_symbols test idx (s ∷ rest) [] = []
number_symbols test idx (s ∷ rest) (n ∷ numbers) =
    let next = number_symbols test (suc idx) rest numbers in
    let same = number_symbols test idx rest numbers in if test s then idx ∷ next else n ∷ same

-- `mapIdx`: the entry of each symbol in .symtab.
unfoldable pub map_idx : List Symbol → List ℕ
map_idx symbols =
    number_symbols (λ s. not (is_local s)) (1 + symbol_local_count symbols) symbols
      (number_symbols is_local 1 symbols (replicate (length symbols) 0))

-- The entries of .rela.text, for the relocations of .text.
unfoldable pub rela_bytes : List ℕ → List Reloc → List ℕ
rela_bytes numbers [] = []
rela_bytes numbers (r ∷ rest) =
    let more = rela_bytes numbers rest in
    if r.sec == 1
    then little_endian 8 r.off
      ++ (little_endian 8 (get_or numbers r.sym 0 * 2 ^ 32 + r.typ)
          ++ (little_endian 8 r.addend ++ more))
    else more
