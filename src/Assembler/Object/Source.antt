-- ===== src/Assembler/Object/Source.antt =====
-- From a source to its object file.
use forge_zero.Prelude.{
  ℕ, ◌^◌, ◌<◌, ◌≡◌, ◌≢◌, refl, ap, ◌∙◌, subst, List, [], false, none, some, length, arith, ◌==◌,
  Bool-cases, Option-cases, inl, inr,
}
use forge_zero.Assembler.Text.{Answer, good, fault, panic}
use forge_zero.Assembler.State.{Parser}
use forge_zero.Assembler.State.Fits.{Valid}
use forge_zero.Assembler.Lines.{parse_source}
use forge_zero.Assembler.Lines.Enough.{parse_source-ne-unfuelled}
use forge_zero.Assembler.Lines.Valid.{parse_source-Valid}
use forge_zero.Assembler.Target.{Profile}
use forge_zero.Assembler.Tables.{strtab_bytes}
use forge_zero.Assembler.Object.{emit64, emit, is_empty, emit_answer, emit_source_object}
use forge_zero.Assembler.Object.Parts.{rela64}
use forge_zero.Assembler.Object.Read.{section_at, contents, IsSmall, contents-emit64_parts}

-- What an answer has, or else a default.
abbrev value_of : {A : Type 0} → A → Answer A → A
value_of d (good a) = a
value_of d fault = d
value_of d panic = d

-- The run of the parser behind an object file of class 64.
emit_answer_source :
    (t : Profile) (answer : Answer Parser) (file : List ℕ)
    → (t.elf_class == 1) ≡ false
    → emit_answer t answer ≡ good file
    → (p : Parser) × (answer ≡ good p) × (emit64 t p ≡ file)
unfolding emit
emit_answer_source t fault file h k = absurd (ground arith)
emit_answer_source t panic file h k = absurd (ground arith)
emit_answer_source t (good p) file h k = elim (Bool-cases (is_empty p)) [
  | inl e ↦ let m = rw e at k in absurd (ground arith)
  | inr e ↦ let m = rw (e, h) at k in (p, refl, ap (value_of []) m)
]

emit_source_object_source :
    (src : List ℕ) (t : Profile) (file : List ℕ)
    → (t.elf_class == 1) ≡ false
    → emit_source_object src t ≡ some (good file)
    → (p : Parser) × (parse_source src ≡ some (good p)) × (emit64 t p ≡ file)
unfolding emit_source_object
emit_source_object_source src t file h k = elim (Option-cases (parse_source src)) [
  | inl e ↦ absurd (parse_source-ne-unfuelled src e)
  | inr (answer, e) ↦
      let m : emit_answer t answer ≡ good file =
        (let n = rw (e, emit_source_object) at k in ground (arith, n)) in
      let (p, f, g) = emit_answer_source t answer file h m in (p, e ∙ ap some f, g)
]

-- When a source becomes an object file of class 64 of less than 2^32 bytes, the parser came to the
-- end of the source, with a state that has the invariant, and the file has the bytes of its .text
-- and .data, the size of its .bss and the names of its symbols behind the headers of the sections.
pub emit_source_object_reads :
    (src : List ℕ) (t : Profile) (file : List ℕ)
    → (t.elf_class == 1) ≡ false
    → t.align < 2 ^ 64
    → emit_source_object src t ≡ some (good file)
    → length file < 2 ^ 32
    → (p : Parser) × (parse_source src ≡ some (good p))
      × Valid p
      × (emit64 t p ≡ file)
      × (contents file 1 ≡ p.text)
      × (contents file 2 ≡ p.data_bytes)
      × ((section_at file 3).size ≡ p.bss_size)
      × (contents file 6 ≡ strtab_bytes p.symbols)
      × (contents file 7 ≡ rela64 p)
emit_source_object_reads src t file h a k l =
    let (p, e, f) = emit_source_object_source src t file h k in
    let v = parse_source-Valid src p e in
    let small : IsSmall t p = (a, v.4, v.1, omega (arith, l, ap length f)) in
    let (text, data_part, bss, names, symtab, strtab, rela) = contents-emit64_parts t p small in
    (
      p,
      e,
      v,
      f,
      subst (λ x. contents x 1 ≡ p.text) f text,
      subst (λ x. contents x 2 ≡ p.data_bytes) f data_part,
      subst (λ x. (section_at x 3).size ≡ p.bss_size) f bss,
      subst (λ x. contents x 6 ≡ strtab_bytes p.symbols) f strtab,
      subst (λ x. contents x 7 ≡ rela64 p) f rela,
    )

-- The writer of object files ends on every source and for every target.
pub emit_source_object-ne-unfuelled : (src : List ℕ) (t : Profile) → emit_source_object src t ≢ none
unfolding emit_source_object
emit_source_object-ne-unfuelled src t = elim (Option-cases (parse_source src)) [
  | inl e ↦ absurd (parse_source-ne-unfuelled src e)
  | inr (answer, e) ↦ rw (e, emit_source_object) (λ f. ground (arith, f))
]
