-- ===== src/Assembler/Object.antt =====
-- The writer of object files, `emit` and its helpers in internal/assembler/emitter.go, and
-- emitSourceObject and emitSourceRaw.
-- A slice is its bytes. The buffer has room for a write behind the end, which is lost.
-- A number that is cast to fewer bits is cut where it is written.
pub mod Pieces
pub mod Parts
pub mod Found
pub mod Read
pub mod Entries
pub mod Relocations
pub mod Source
use Prim.Native.Nat.{bit_and}
use forge_zero.Prelude.{
  little_endian, ℕ, zero, suc, ◌+◌, ◌-◌, ◌*◌, ◌%◌, ◌^◌, List, [], ◌∷◌, ◌++◌, Bool, true, false,
  ◌&&◌, Option, none, some, codes, length, ltb, ◌==◌, if◌then◌else◌, replicate, take,
}
use forge_zero.Assembler.Text.{Answer, good, fault, panic, align_out}
use forge_zero.Assembler.State.{Symbol, Reloc, Parser}
use forge_zero.Assembler.Lines.{parse_source}
use forge_zero.Assembler.Target.{Profile}
use forge_zero.Assembler.Tables.{
  section_names, offset_of_name, strtab_bytes, symbol64, symbol32, symtab_bytes, has_large_value,
  symbol_local_count, map_idx, rela_bytes,
}

-- `alignOutOffset`. Go's `x &^ m` is x less the bits that x and m share.
unfoldable pub align_out_offset : ℕ → ℕ → ℕ
align_out_offset offset align =
    let sum = offset + (align - 1) in if align == 0 then offset else sum - bit_and sum (align - 1)

-- Bytes written over those from an offset on; what is behind the end is lost.
unfoldable pub write_at : List ℕ → ℕ → List ℕ → List ℕ
write_at [] off bytes = []
write_at (x ∷ xs) zero [] = x ∷ xs
write_at (x ∷ xs) zero (b ∷ bytes) = b ∷ write_at xs zero bytes
write_at (x ∷ xs) (suc off) bytes = x ∷ write_at xs off bytes

pub record Section : Type 0 where
  pub name : ℕ
  pub typ : ℕ
  pub flags : ℕ
  pub addr : ℕ
  pub offset : ℕ
  pub size : ℕ
  pub link : ℕ
  pub info : ℕ
  pub addralign : ℕ
  pub entsize : ℕ

abbrev pub section_header : List ℕ → ℕ → ℕ → ℕ → ℕ → ℕ → ℕ → ℕ → ℕ → Section
section_header name typ flags offset size link info addralign entsize = record {
  name = offset_of_name name section_names;
  typ = typ;
  flags = flags;
  addr = 0;
  offset = offset;
  size = size;
  link = link;
  info = info;
  addralign = addralign;
  entsize = entsize;
}

-- `writeELF64Section` and `writeELF32Section`
unfoldable pub section64 : Section → List ℕ
section64 h =
    little_endian 4 h.name
    ++ (little_endian 4 h.typ
        ++ (little_endian 8 h.flags
            ++ (little_endian 8 h.addr
                ++ (little_endian 8 h.offset
                    ++ (little_endian 8 h.size
                        ++ (little_endian 4 h.link
                            ++ (little_endian 4 h.info
                                ++ (little_endian 8 h.addralign ++ little_endian 8 h.entsize))))))))

unfoldable pub section32 : Section → List ℕ
section32 h =
    little_endian 4 h.name
    ++ (little_endian 4 h.typ
        ++ (little_endian 4 h.flags
            ++ (little_endian 4 h.addr
                ++ (little_endian 4 h.offset
                    ++ (little_endian 4 h.size
                        ++ (little_endian 4 h.link
                            ++ (little_endian 4 h.info
                                ++ (little_endian 4 h.addralign ++ little_endian 4 h.entsize))))))))

unfoldable pub sections : (Section → List ℕ) → List Section → List ℕ
sections write [] = []
sections write (h ∷ rest) = write h ++ sections write rest

-- The first bytes of the file; `zeros` fills the identification up.
abbrev pub ident : ℕ → List ℕ
ident elf_class = 0x7F ∷ b'E' ∷ b'L' ∷ b'F' ∷ elf_class ∷ 1 ∷ 1 ∷ replicate 9 0

-- `populateELF64Header` and `populateELF32Header`, with 8 sections and 4 as the index of their names.
unfoldable pub header64 : ℕ → ℕ → List ℕ
header64 e_machine shoff =
    ident 2
    ++ (little_endian 2 1
        ++ (little_endian 2 e_machine
            ++ (little_endian 4 1
                ++ (little_endian 8 0
                    ++ (little_endian 8 0
                        ++ (little_endian 8 shoff
                            ++ (little_endian 4 0
                                ++ (little_endian 2 64
                                    ++ (little_endian 2 0
                                        ++ (little_endian 2 0
                                            ++ (little_endian 2 64
                                                ++ (little_endian 2 8
                                                    ++ little_endian 2 4))))))))))))

unfoldable pub header32 : ℕ → ℕ → List ℕ
header32 e_machine shoff =
    ident 1
    ++ (little_endian 2 1
        ++ (little_endian 2 e_machine
            ++ (little_endian 4 1
                ++ (little_endian 4 0
                    ++ (little_endian 4 0
                        ++ (little_endian 4 shoff
                            ++ (little_endian 4 0
                                ++ (little_endian 2 52
                                    ++ (little_endian 2 0
                                        ++ (little_endian 2 0
                                            ++ (little_endian 2 40
                                                ++ (little_endian 2 8
                                                    ++ little_endian 2 4))))))))))))

-- Where the parts of the file begin, and the size of the relocations.
pub record Offsets : Type 0 where
  pub text_at : ℕ
  pub data_at : ℕ
  pub symtab_at : ℕ
  pub strtab_at : ℕ
  pub names_at : ℕ
  pub rela_at : ℕ
  pub rela_size : ℕ

-- The headers of the sections; `entry` is the size of a symbol, and `word` and `rela` are the
-- alignment and the size of a relocation.
unfoldable pub section_list : Profile → Parser → Offsets → ℕ → ℕ → ℕ → List Section
section_list t p o entry word rela =
    section_header [] 0 0 0 0 0 0 0 0
    ∷ section_header (codes ".text") 1 6 o.text_at (length p.text) 0 0 t.align 0
    ∷ section_header (codes ".data") 1 3 o.data_at (length p.data_bytes) 0 0 t.align 0
    ∷ section_header (codes ".bss") 8 3 0 p.bss_size 0 0 t.align 0
    ∷ section_header (codes ".shstrtab") 3 0 o.names_at (length section_names) 0 0 1 0
    ∷ section_header (codes ".symtab") 2 0 o.symtab_at (suc (length p.symbols) * entry) 6
        (symbol_local_count p.symbols + 1) 8 entry
    ∷ section_header (codes ".strtab") 3 0 o.strtab_at (length (strtab_bytes p.symbols)) 0 0 1 0
    ∷ section_header (codes ".rela.text") 4 0 o.rela_at o.rela_size 5 1 word rela
    ∷ []

-- `populateELF32SectionHeaders` stops at a size of .bss that does not fit.
abbrev pub section_list32 : Profile → Parser → Offsets → List Section
section_list32 t p o =
    let all = section_list t p o 16 4 12 in if ltb (2 ^ 32 - 1) p.bss_size then take 3 all else all

-- The bytes of a section that has any, and where they begin; else 0.
unfoldable pub append_aligned : List ℕ → ℕ → List ℕ → List ℕ × ℕ
append_aligned out align [] = (out, 0)
append_aligned out align (c ∷ rest) =
    (align_out out align ++ (c ∷ rest), length (align_out out align))

-- The file from the bytes `front` in place of its own header up to the headers of the sections, and
-- where its parts begin; `word` is the alignment of the symbols.
unfoldable pub body : List ℕ → ℕ → (ℕ × Symbol → List ℕ) → Profile → Parser → List ℕ × Offsets
body front word write t p =
    let (out1, text_at) = append_aligned front t.align p.text in
    let (out2, data_at) = append_aligned out1 t.align p.data_bytes in
    let out3 = align_out out2 word in
    let out4 = out3 ++ symtab_bytes write p.symbols in
    let out5 = out4 ++ strtab_bytes p.symbols in
    (
      out5 ++ section_names,
      record {
        text_at = text_at;
        data_at = data_at;
        symtab_at = length out3;
        strtab_at = length out4;
        names_at = length out5;
        rela_at = 0;
        rela_size = 0;
      },
    )

-- `emit` for class 64.
unfoldable pub emit64 : Profile → Parser → List ℕ
emit64 t p =
    let (out, o) = body (replicate 64 0) 8 symbol64 t p in
    let shoff = align_out_offset (length out) 64 in
    let headers = align_out out 64 ++ replicate 512 0 in
    let rela = rela_bytes (map_idx p.symbols) p.relocs in
    let (whole, rela_at) = append_aligned headers 8 rela in
    write_at (write_at whole 0 (header64 t.e_machine shoff)) shoff (
      sections section64
        (section_list t p (record o { rela_at = rela_at; rela_size = length rela }) 24 8 24))

-- `emit` for class 32.
unfoldable pub emit32 : Profile → Parser → List ℕ
emit32 t p =
    let (out, o) = body (replicate 52 0) 4 symbol32 t p in
    let shoff = align_out_offset (length out) 40 in
    let whole = align_out out 40 ++ replicate 320 0 in
    write_at (write_at whole 0 (header32 t.e_machine shoff)) shoff
      (sections section32 (section_list32 t p o))

-- `emit`
unfoldable pub emit : Profile → Parser → Answer (List ℕ)
emit t p =
    if t.elf_class == 1
    then (if has_large_value p.symbols then fault else good (emit32 t p))
    else good (emit64 t p)

-- The check for an empty program.
abbrev pub is_empty : Parser → Bool
is_empty p = length p.text == 0 && length p.data_bytes == 0 && p.bss_size == 0

abbrev pub emit_answer : Profile → Answer Parser → Answer (List ℕ)
emit_answer t (good p) = if is_empty p then fault else emit t p
emit_answer t fault = fault
emit_answer t panic = panic

-- `emitSourceObject`; without fuel none, which does not happen.
unfoldable pub emit_source_object : List ℕ → Profile → Option (Answer (List ℕ))
emit_source_object src t = elim (parse_source src) [
  | none ↦ none
  | some answer ↦ some (emit_answer t answer)
]

-- `emitRaw`
unfoldable pub emit_raw : Parser → List ℕ
emit_raw p = p.text ++ (p.data_bytes ++ replicate p.bss_size 0)

abbrev pub raw_answer : Answer Parser → Answer (List ℕ)
raw_answer (good p) = good (emit_raw p)
raw_answer fault = fault
raw_answer panic = panic

-- `emitSourceRaw`
unfoldable pub emit_source_raw : List ℕ → Option (Answer (List ℕ))
emit_source_raw src = elim (parse_source src) [
  | none ↦ none
  | some answer ↦ some (raw_answer answer)
]
