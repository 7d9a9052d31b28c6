-- ===== src/Assembler/Object/Parts.antt =====
-- An object file of class 64 as its parts in a row. The writer starts with zeros in place of the
-- header and writes over them last; a file that starts with the header is the same.
use forge_zero.Prelude.{
  little_endian, ℕ, ◌+◌, ◌≡◌, refl, sym, ap, ◌∙◌, List, [], ◌++◌, length, length-append, replicate,
  arith,
}
use forge_zero.Assembler.Text.{align_out}
use forge_zero.Assembler.State.{Symbol, Parser}
use forge_zero.Assembler.Target.{Profile}
use forge_zero.Assembler.Tables.{
  section_names, strtab_bytes, symbol64, symtab_bytes, map_idx, rela_bytes,
}
use forge_zero.Assembler.Object.{
  align_out_offset, write_at, append_aligned, Section, section64, sections, header64, Offsets,
  section_list, body, emit64,
}
use forge_zero.Assembler.Object.Pieces.{
  append_assoc, append_nil, write_at-append, write_at_front, align_out-pad, pad, part, part_at,
  append_aligned-part, align_out_offset-align_out,
}

-- Two lists that differ in their beginnings only.
abbrev pub Twins : List ℕ → List ℕ → List ℕ → List ℕ → Type 0
Twins z h a b = (r : List ℕ) × (a ≡ z ++ r) × (b ≡ h ++ r)

module _ (z h : List ℕ) (same : length z ≡ length h) where
  length-Twins : (a b : List ℕ) → Twins z h a b → length a ≡ length b
  length-Twins a b (r, e, f) =
      omega (arith, ap length e, ap length f, length-append z r, length-append h r, same)

  append-Twins : (a b x : List ℕ) → Twins z h a b → Twins z h (a ++ x) (b ++ x)
  append-Twins a b x (r, e, f) =
      (r ++ x, ap (λ l. l ++ x) e ∙ append_assoc z r x, ap (λ l. l ++ x) f ∙ append_assoc h r x)

  align_out-Twins :
      (a b : List ℕ) (n : ℕ) → Twins z h a b → Twins z h (align_out a n) (align_out b n)
  align_out-Twins a b n w =
      let k : align_out b n ≡ b ++ pad (length a) n =
        align_out-pad b n ∙ ap (λ l. b ++ pad l n) (sym (length-Twins a b w)) in
      rw (align_out-pad a n, k) (append-Twins a b (pad (length a) n) w)

  append_aligned-Twins :
      (a b : List ℕ) (n : ℕ) (x : List ℕ)
      → Twins z h a b
      → Twins z h (append_aligned a n x).0 (append_aligned b n x).0
        × ((append_aligned a n x).1 ≡ (append_aligned b n x).1)
  append_aligned-Twins a b n x w =
      let l = length-Twins a b w in
      let k : (append_aligned b n x).0 ≡ b ++ part (length a) n x =
        (append_aligned-part b n x).0 ∙ ap (λ m. b ++ part m n x) (sym l) in
      (
        rw ((append_aligned-part a n x).0, k) (append-Twins a b (part (length a) n x) w),
        (append_aligned-part a n x).1
            ∙ ap (λ m. part_at m n x) l
            ∙ sym (append_aligned-part b n x).1,
      )

  pub body-Twins :
      (word : ℕ) (write : ℕ × Symbol → List ℕ) (t : Profile) (p : Parser)
      → Twins z h (body z word write t p).0 (body h word write t p).0
        × ((body z word write t p).1 ≡ (body h word write t p).1)
  unfolding body
  body-Twins word write t p =
      let (w1, e1) =
        append_aligned-Twins z h t.align p.text ([], sym (append_nil z), sym (append_nil h)) in
      let (w2, e2) = append_aligned-Twins _ _ t.align p.data_bytes w1 in
      let w3 = align_out-Twins _ _ word w2 in
      let w4 = append-Twins _ _ (symtab_bytes write p.symbols) w3 in
      let w5 = append-Twins _ _ (strtab_bytes p.symbols) w4 in
      (
        append-Twins _ _ section_names w5,
        rw (e1, e2, length-Twins _ _ w3, length-Twins _ _ w4, length-Twins _ _ w5) refl,
      )

abbrev pub zeros64 : List ℕ
zeros64 = replicate 64 0

abbrev pub rela64 : Parser → List ℕ
rela64 p = rela_bytes (map_idx p.symbols) p.relocs

-- The names of the parts of `emit64`.
module _ (t : Profile) (p : Parser) where
  abbrev pub out64 : List ℕ
  out64 = (body zeros64 8 symbol64 t p).0

  abbrev pub shoff64 : ℕ
  shoff64 = align_out_offset (length out64) 64

  abbrev pub front64 : List ℕ
  front64 = header64 t.e_machine shoff64

  abbrev pub body64 : List ℕ
  body64 = (body front64 8 symbol64 t p).0

  abbrev pub rela_at64 : ℕ
  rela_at64 = (append_aligned (align_out out64 64 ++ replicate 512 0) 8 (rela64 p)).1

  abbrev pub offsets64 : Offsets
  offsets64 = record (body zeros64 8 symbol64 t p).1 {
    rela_at = rela_at64;
    rela_size = length (rela64 p);
  }

  abbrev pub list64 : List Section
  list64 = section_list t p offsets64 24 8 24

  abbrev pub tail64 : List ℕ
  tail64 = part (length (align_out body64 64 ++ sections section64 list64)) 8 (rela64 p)

  length-header64 : (e s : ℕ) → length zeros64 ≡ length (header64 e s)
  unfolding header64 little_endian
  length-header64 e s = refl

  length-sections : length (sections section64 list64) ≡ length (replicate {A = ℕ} 512 0)
  unfolding sections section64 section_list little_endian
  length-sections = refl

  pub body64-Twins : Twins zeros64 front64 out64 body64
  body64-Twins = (body-Twins zeros64 front64 (length-header64 t.e_machine shoff64) 8 symbol64 t p).0

  pub shoff64_end : shoff64 ≡ length (align_out body64 64)
  shoff64_end =
      align_out_offset-align_out out64
      ∙ length-Twins zeros64 front64 (length-header64 t.e_machine shoff64) _ _ (
          align_out-Twins zeros64 front64 (length-header64 t.e_machine shoff64) _ _ 64 body64-Twins)

  pub body64_offsets : (body zeros64 8 symbol64 t p).1 ≡ (body front64 8 symbol64 t p).1
  body64_offsets =
      (body-Twins zeros64 front64 (length-header64 t.e_machine shoff64) 8 symbol64 t p).1

  headers64_length :
      length (align_out out64 64 ++ replicate 512 0)
      ≡ length (align_out body64 64 ++ sections section64 list64)
  headers64_length =
      let k = length-header64 t.e_machine shoff64 in
      length-append (align_out out64 64) (replicate 512 0)
      ∙ ap (λ n. n + 512)
          (length-Twins zeros64 front64 k _ _
            (align_out-Twins zeros64 front64 k _ _ 64 body64-Twins))
      ∙ ap (λ n. length (align_out body64 64) + n) (sym length-sections)
      ∙ sym (length-append (align_out body64 64) (sections section64 list64))

  pub rela_at64_end :
      rela_at64 ≡ (append_aligned (align_out body64 64 ++ sections section64 list64) 8 (rela64 p)).1
  rela_at64_end =
      (append_aligned-part (align_out out64 64 ++ replicate 512 0) 8 (rela64 p)).1
      ∙ ap (λ n. part_at n 8 (rela64 p)) headers64_length
      ∙ sym (append_aligned-part (align_out body64 64 ++ sections section64 list64) 8 (rela64 p)).1

  -- The file is its header and parts, the headers of the sections and the relocations.
  pub emit64_form : emit64 t p ≡ align_out body64 64 ++ (sections section64 list64 ++ tail64)
  unfolding emit64
  emit64_form =
      let k = length-header64 t.e_machine shoff64 in
      let w = align_out-Twins zeros64 front64 k _ _ 64 body64-Twins in
      let w2 = append-Twins zeros64 front64 k _ _ (replicate 512 0) w in
      let (w3, e3) = append_aligned-Twins zeros64 front64 k _ _ 8 (rela64 p) w2 in
      let (r, a, b) = w3 in
      let a64 = align_out body64 64 in
      let blank : List ℕ = replicate 512 0 in
      let heads = sections section64 list64 in
      let m : length (a64 ++ blank) ≡ length (a64 ++ heads) =
        length-append a64 blank
        ∙ ap (λ n. length a64 + n) (sym length-sections)
        ∙ sym (length-append a64 heads) in
      let over = ap (λ l. write_at l 0 front64) a ∙ write_at_front zeros64 front64 r k ∙ sym b in
      let whole =
        over
        ∙ (append_aligned-part (a64 ++ blank) 8 (rela64 p)).0
        ∙ append_assoc a64 blank (part (length (a64 ++ blank)) 8 (rela64 p)) in
      ap (λ l. write_at l shoff64 heads) whole
      ∙ ap (λ n. write_at (a64 ++ (blank ++ part (length (a64 ++ blank)) 8 (rela64 p))) n heads)
          shoff64_end
      ∙ write_at-append a64 blank heads (part (length (a64 ++ blank)) 8 (rela64 p))
          (sym length-sections)
      ∙ ap (λ n. a64 ++ (heads ++ part n 8 (rela64 p))) m
