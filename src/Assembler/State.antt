-- ===== src/Assembler/State.antt =====
-- The state of the parser in internal/assembler/emitter.go: the three sections, the symbols and the
-- relocations. The flags and alignments of the sections come from the target and stand in Object.
-- The name of a section is told by its place.
pub mod Table
pub mod Order
pub mod Fits
pub mod References
pub mod Site
use forge_zero.Prelude.{
  ℕ, suc, ◌+◌, List, [], ◌∷◌, ◌++◌, Bool, true, false, ◌||◌, Option, none, some, bytes_eq, length,
  leb, ◌==◌, if◌then◌else◌, map,
}
use forge_zero.Assembler.Text.{Answer, good, fault, panic}

-- `sectionState` by its name
pub data Place : Type 0 where
  in_text : Place
  in_data : Place
  in_bss : Place

-- `symbolState`. Its type is always 0, and the offset of its name is found by the writer.
pub record Symbol : Type 0 where
  pub name : List ℕ
  pub value : ℕ
  pub shndx : ℕ
  pub bind : ℕ

-- The addend is an int64, modelled by its 64-bit pattern.
pub record Reloc : Type 0 where
  pub sec : ℕ
  pub off : ℕ
  pub sym : ℕ
  pub typ : ℕ
  pub addend : ℕ

-- `parser`. The bytes of .bss are those that are emitted while it is the current section.
pub record Parser : Type 0 where
  pub text : List ℕ
  pub data_bytes : List ℕ
  pub bss_bytes : List ℕ
  pub bss_size : ℕ
  pub current : Place
  pub symbols : List Symbol
  pub relocs : List Reloc

-- `reset`
abbrev pub new_parser : Parser
new_parser = record {
  text = [];
  data_bytes = [];
  bss_bytes = [];
  bss_size = 0;
  current = in_text;
  symbols = [];
  relocs = [];
}

abbrev pub section_index : Place → ℕ
section_index in_text = 1
section_index in_data = 2
section_index in_bss = 3

-- The bytes of a section, by its index.
abbrev pub section_data : Parser → Place → List ℕ
section_data p in_text = p.text
section_data p in_data = p.data_bytes
section_data p in_bss = p.bss_bytes

-- `currentOffset`
abbrev pub current_offset : Parser → ℕ
current_offset p = elim p.current [
  | in_text ↦ length p.text
  | in_data ↦ length p.data_bytes
  | in_bss ↦ p.bss_size
]

-- Bytes added to the current section.
abbrev pub append_at : Place → List ℕ → Parser → Parser
append_at in_text bytes p = record p { text = p.text ++ bytes }
append_at in_data bytes p = record p { data_bytes = p.data_bytes ++ bytes }
append_at in_bss bytes p = record p { bss_bytes = p.bss_bytes ++ bytes }

unfoldable pub append_bytes : List ℕ → Parser → Parser
append_bytes bytes p = append_at p.current bytes p

-- `findSymbol`
unfoldable pub find_symbol : List Symbol → List ℕ → Option ℕ
find_symbol [] name = none
find_symbol (s ∷ rest) name =
    let more = find_symbol rest name in
    if bytes_eq s.name name then some 0 else (elim more [ none ↦ none | some i ↦ some (suc i) ])

-- What a second definition changes: a label sets the place, a global directive the binding.
unfoldable pub redefine : Symbol → ℕ → ℕ → ℕ → Symbol
redefine s value shndx bind = record {
  name = s.name;
  value = if shndx == 0 then s.value else value;
  shndx = if shndx == 0 then s.shndx else shndx;
  bind = if bind == 1 then 1 else s.bind;
}

-- The first symbol of that name is redefined.
unfoldable pub update_symbol : List Symbol → List ℕ → ℕ → ℕ → ℕ → List Symbol
update_symbol [] name value shndx bind = []
update_symbol (s ∷ rest) name value shndx bind =
    let more = update_symbol rest name value shndx bind in
    if bytes_eq s.name name then redefine s value shndx bind ∷ rest else s ∷ more

-- The capacity of the array of symbols.
abbrev pub symbol_capacity : ℕ
symbol_capacity = 4096

-- `addSymbol`
unfoldable pub add_symbol : List ℕ → ℕ → ℕ → ℕ → Parser → Answer Parser
add_symbol name value shndx bind p = elim (find_symbol p.symbols name) [
  | some i ↦ good (record p { symbols = update_symbol p.symbols name value shndx bind })
  | none ↦
      if leb symbol_capacity (length p.symbols)
      then fault
      else good (record p {
        symbols =
            p.symbols ++ record { name = name; value = value; shndx = shndx; bind = bind } ∷ [];
      })
]

unfoldable pub define_label : List ℕ → Parser → Answer Parser
define_label [] p = fault
define_label (c ∷ rest) p = add_symbol (c ∷ rest) (current_offset p) (section_index p.current) 0 p

unfoldable pub define_global : List ℕ → Parser → Answer Parser
define_global [] p = fault
define_global (c ∷ rest) p = add_symbol (c ∷ rest) 0 0 1 p

-- The end of `emitMov` with a label, `emitCall` and the jumps: a symbol for the name, the bytes of
-- the instruction, and a relocation at an offset among them, which each instruction gives.
unfoldable pub emit_reference : List ℕ → List ℕ → ℕ → ℕ → ℕ → Parser → Answer Parser
emit_reference name bytes at typ addend p = elim (add_symbol name 0 0 0 p) [
  | fault ↦ fault
  | panic ↦ panic
  | good q ↦ elim (find_symbol q.symbols name) [
    | none ↦ panic
    | some i ↦ good (
        append_bytes bytes (record q {
          relocs =
              q.relocs
              ++ record {
                sec = section_index q.current;
                off = length (section_data q q.current) + at;
                sym = i;
                typ = typ;
                addend = addend;
              }
                ∷ [];
        }))
  ]
]
