-- ===== src/Assembler/Object/Read.antt =====
-- A reader of object files of class 64, written from the format, and what it reads in a file that
-- the assembler wrote.

use forge_zero.Prelude.{
  little_endian, from_little_endian, from_little_endian-little_endian, ℕ, zero, suc, ◌+◌, ◌*◌, ◌^◌,
  ◌≤◌, ◌<◌, ◌≡◌, refl, sym, ap, ◌∙◌, List, [], ◌∷◌, ◌++◌, length, length-append, get_or, slice,
  take, drop, All, arith, codes, map, ◌==◌, if◌then◌else◌,
}
use forge_zero.Assembler.Text.{align_out}
use forge_zero.Assembler.State.{Parser, symbol_capacity}
use forge_zero.Assembler.Target.{Profile}
use forge_zero.Assembler.Tables.{
  section_names, offset_of_name, offset_from, match_bytes, strtab_bytes, symbol64, symtab_bytes,
}
use forge_zero.Assembler.Tables.Numbers.{length-symtab_bytes, symbol_local_count_bound}
use forge_zero.Assembler.Object.{Section, section64, sections, header64, section_list, emit64}
use forge_zero.Assembler.Object.Pieces.{append_assoc, drop-append}
use forge_zero.Assembler.Object.Parts.{
  shoff64, body64, rela64, list64, tail64, shoff64_end, emit64_form,
}
use forge_zero.Assembler.Object.Found.{Found, emit64-Finds, emit64-front, rela64-Found}

-- A field of a number of bytes, at an offset.
abbrev pub read : ℕ → ℕ → List ℕ → ℕ
read width off bytes = from_little_endian (take width (drop off bytes))

-- The header of a section.
abbrev pub read_section : List ℕ → Section
read_section bytes = record {
  name = read 4 0 bytes;
  typ = read 4 4 bytes;
  flags = read 8 8 bytes;
  addr = read 8 16 bytes;
  offset = read 8 24 bytes;
  size = read 8 32 bytes;
  link = read 4 40 bytes;
  info = read 4 44 bytes;
  addralign = read 8 48 bytes;
  entsize = read 8 56 bytes;
}

-- The header of the section `k`, by the offset of the headers in the header of the file.
abbrev pub section_at : List ℕ → ℕ → Section
section_at file k = read_section (drop (read 8 40 file + 64 * k) file)

abbrev pub contents : List ℕ → ℕ → List ℕ
contents file k =
    slice file (section_at file k).offset ((section_at file k).offset + (section_at file k).size)

-- The fields of a header have as many bits as they are written with.
abbrev pub InRange : Section → Type 0
InRange h =
    h.name < 2 ^ 32
    × h.typ < 2 ^ 32
    × h.flags < 2 ^ 64
    × h.addr < 2 ^ 64
    × h.offset < 2 ^ 64
    × h.size < 2 ^ 64
    × h.link < 2 ^ 32
    × h.info < 2 ^ 32
    × h.addralign < 2 ^ 64
    × h.entsize < 2 ^ 64

read_section-section64 :
    (h : Section) (rest : List ℕ) → InRange h → read_section (section64 h ++ rest) ≡ h
unfolding section64 little_endian
read_section-section64 h rest (a, b, c, d, e, f, g, i, j, k) = λ u. record {
  name = from_little_endian-little_endian 4 h.name a u;
  typ = from_little_endian-little_endian 4 h.typ b u;
  flags = from_little_endian-little_endian 8 h.flags c u;
  addr = from_little_endian-little_endian 8 h.addr d u;
  offset = from_little_endian-little_endian 8 h.offset e u;
  size = from_little_endian-little_endian 8 h.size f u;
  link = from_little_endian-little_endian 4 h.link g u;
  info = from_little_endian-little_endian 4 h.info i u;
  addralign = from_little_endian-little_endian 8 h.addralign j u;
  entsize = from_little_endian-little_endian 8 h.entsize k u;
}

length-section64 : (h : Section) → length (section64 h) ≡ 64
unfolding section64 little_endian
length-section64 h = refl

abbrev pub no_section : Section
no_section = record {
  name = 0;
  typ = 0;
  flags = 0;
  addr = 0;
  offset = 0;
  size = 0;
  link = 0;
  info = 0;
  addralign = 0;
  entsize = 0;
}

read_section-sections :
    (k : ℕ) (hs : List Section) (rest : List ℕ)
    → k < length hs
    → All InRange hs
    → read_section (drop (64 * k) (sections section64 hs ++ rest)) ≡ get_or hs k no_section
unfolding sections
read_section-sections k [] rest l a = absurd (omega arith)
read_section-sections zero (h ∷ hs) rest l (a, more) =
    ap read_section (append_assoc (section64 h) (sections section64 hs) rest)
    ∙ read_section-section64 h (sections section64 hs ++ rest) a
read_section-sections (suc k) (h ∷ hs) rest l (a, more) =
    let e : 64 * suc k ≡ length (section64 h) + 64 * k = omega (arith, length-section64 h) in
    ap (λ b. read_section (drop (64 * suc k) b))
      (append_assoc (section64 h) (sections section64 hs) rest)
    ∙ ap (λ n. read_section (drop n (section64 h ++ (sections section64 hs ++ rest)))) e
    ∙ ap read_section (drop-append (section64 h) (sections section64 hs ++ rest) (64 * k))
    ∙ read_section-sections k hs rest (omega arith) more

read_shoff : (e s : ℕ) (rest : List ℕ) → s < 2 ^ 64 → read 8 40 (header64 e s ++ rest) ≡ s
unfolding header64 little_endian
read_shoff e s rest h = from_little_endian-little_endian 8 s h

-- The bytes up to a zero.
abbrev pub before_zero : List ℕ → List ℕ
before_zero [] = []
before_zero (c ∷ rest) = if c == 0 then [] else c ∷ before_zero rest

-- A name at an offset of a table of names, up to the zero behind it.
abbrev pub name_at : List ℕ → ℕ → List ℕ
name_at table n = before_zero (drop n table)

-- What the writer needs: numbers that fit in their fields.
abbrev pub IsSmall : Profile → Parser → Type 0
IsSmall t p =
    t.align < 2 ^ 64
    × p.bss_size < 2 ^ 64
    × length p.symbols ≤ symbol_capacity
    × length (emit64 t p) < 2 ^ 64

module _ (t : Profile) (p : Parser) (small : IsSmall t p) where
  list64-InRange : All InRange (list64 t p)
  unfolding section_list offset_of_name offset_from match_bytes
  list64-InRange =
      let (a, b, c, d) = small in
      let (text, data_part, symtab, strtab, names) = emit64-Finds t p in
      ground (
        arith,
        text.1,
        data_part.1,
        symtab.1,
        strtab.1,
        names.1,
        (rela64-Found t p).1,
        length-symtab_bytes p.symbols,
        symbol_local_count_bound p.symbols,
      )

  shoff64-read : read 8 40 (emit64 t p) ≡ shoff64 t p
  shoff64-read =
      let (r, e) = emit64-front t p in
      let bound : shoff64 t p < 2 ^ 64 = omega (
        arith,
        small.3,
        ap length (emit64_form t p),
        length-append (align_out (body64 t p) 64) (sections section64 (list64 t p) ++ tail64 t p),
        shoff64_end t p,
      ) in
      ap (read 8 40) e ∙ read_shoff t.e_machine (shoff64 t p) r bound

  -- The reader finds the headers that the writer has.
  section_at-emit64 : (k : ℕ) → k < 8 → section_at (emit64 t p) k ≡ get_or (list64 t p) k no_section
  unfolding section_list
  section_at-emit64 k h =
      let heads = sections section64 (list64 t p) ++ tail64 t p in
      ap (λ n. read_section (drop (n + 64 * k) (emit64 t p))) (shoff64-read ∙ shoff64_end t p)
      ∙ ap (λ l. read_section (drop (length (align_out (body64 t p) 64) + 64 * k) l))
          (emit64_form t p)
      ∙ ap read_section (drop-append (align_out (body64 t p) 64) heads (64 * k))
      ∙ read_section-sections k (list64 t p) (tail64 t p) h list64-InRange

  -- The contents of a section, when its header is known.
  contents-emit64 :
      (k : ℕ) (bytes : List ℕ)
      → k < 8
      → (get_or (list64 t p) k no_section).size ≡ length bytes
      → Found (emit64 t p) (get_or (list64 t p) k no_section).offset bytes
      → contents (emit64 t p) k ≡ bytes
  contents-emit64 k bytes h e f =
      ap (λ s. slice (emit64 t p) s.offset (s.offset + s.size)) (section_at-emit64 k h)
      ∙ ap
          (λ n.
            slice (emit64 t p) (get_or (list64 t p) k no_section).offset
              ((get_or (list64 t p) k no_section).offset + n))
          e
      ∙ f.0

-- In a file of class 64 whose numbers fit in their fields, a reader that goes by the headers alone
-- finds the bytes of .text and of .data, the size of .bss, and the tables of the section names, the
-- symbols, their names and the relocations, each behind the header of its number.
pub contents-emit64_parts :
    (t : Profile) (p : Parser)
    → IsSmall t p
    → (contents (emit64 t p) 1 ≡ p.text)
      × (contents (emit64 t p) 2 ≡ p.data_bytes)
      × ((section_at (emit64 t p) 3).size ≡ p.bss_size)
      × (contents (emit64 t p) 4 ≡ section_names)
      × (contents (emit64 t p) 5 ≡ symtab_bytes symbol64 p.symbols)
      × (contents (emit64 t p) 6 ≡ strtab_bytes p.symbols)
      × (contents (emit64 t p) 7 ≡ rela64 p)
unfolding section_list
contents-emit64_parts t p h =
    let (text, data_part, symtab, strtab, names) = emit64-Finds t p in
    (
      contents-emit64 t p h 1 p.text (omega arith) refl text,
      contents-emit64 t p h 2 p.data_bytes (omega arith) refl data_part,
      ap (λ s. s.size) (section_at-emit64 t p h 3 (omega arith)),
      contents-emit64 t p h 4 section_names (omega arith) refl names,
      contents-emit64 t p h 5 (symtab_bytes symbol64 p.symbols) (omega arith)
          (sym (length-symtab_bytes p.symbols)) symtab,
      contents-emit64 t p h 6 (strtab_bytes p.symbols) (omega arith) refl strtab,
      contents-emit64 t p h 7 (rela64 p) (omega arith) refl (rela64-Found t p),
    )

-- The sections have the names .text, .data, .bss, .shstrtab, .symtab, .strtab and .rela.text in a
-- file of class 64 whose numbers fit in their fields.
pub name_at-emit64 :
    (t : Profile) (p : Parser)
    → IsSmall t p
    → map
        (λ k. name_at section_names (section_at (emit64 t p) k).name)
        (1 ∷ 2 ∷ 3 ∷ 4 ∷ 5 ∷ 6 ∷ 7 ∷ [])
      ≡ codes ".text"
        ∷ codes ".data"
        ∷ codes ".bss"
        ∷ codes ".shstrtab"
        ∷ codes ".symtab"
        ∷ codes ".strtab"
        ∷ codes ".rela.text"
        ∷ []
unfolding section_list offset_of_name offset_from match_bytes
name_at-emit64 t p h =
    let read_name : (k : ℕ)
        → k < 8
        → name_at section_names (section_at (emit64 t p) k).name
          ≡ name_at section_names (get_or (list64 t p) k no_section).name =
      λ k l. ap (λ s. name_at section_names s.name) (section_at-emit64 t p h k l) in
    rw
      (
        read_name 1 (omega arith),
        read_name 2 (omega arith),
        read_name 3 (omega arith),
        read_name 4 (omega arith),
        read_name 5 (omega arith),
        read_name 6 (omega arith),
        read_name 7 (omega arith),
      )
      refl
