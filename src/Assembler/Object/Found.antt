-- ===== src/Assembler/Object/Found.antt =====
-- Where the parts of an object file are found.
use forge_zero.Prelude.{
  ℕ, ◌+◌, ◌≤◌, ◌≡◌, refl, sym, ◌∙◌, subst, List, [], ◌∷◌, ◌++◌, length, length-append, slice, arith,
}
use forge_zero.Assembler.Text.{align_out}
use forge_zero.Assembler.State.{Symbol, Parser}
use forge_zero.Assembler.Target.{Profile}
use forge_zero.Assembler.Tables.{section_names, strtab_bytes, symbol64, symtab_bytes}
use forge_zero.Assembler.Object.{append_aligned, Offsets, section64, sections, body, emit64}
use forge_zero.Assembler.Object.Pieces.{
  append_assoc, append_nil, Begins, Begins-trans, Begins-bound, slice-Begins, slice-append_aligned,
  append_aligned-part, align_out-pad,
}
use forge_zero.Assembler.Object.Parts.{
  front64, body64, rela64, rela_at64, offsets64, list64, body64-Twins, body64_offsets,
  rela_at64_end, emit64_form,
}

-- The bytes are in the file, at an offset.
abbrev pub Found : List ℕ → ℕ → List ℕ → Type 0
Found whole at bytes =
    (slice whole at (at + length bytes) ≡ bytes) × at + length bytes ≤ length whole

-- The parts of the file that `body` writes.
abbrev pub Finds : (ℕ × Symbol → List ℕ) → Parser → Offsets → List ℕ → Type 0
Finds write p o whole =
    Found whole o.text_at p.text
    × Found whole o.data_at p.data_bytes
    × Found whole o.symtab_at (symtab_bytes write p.symbols)
    × Found whole o.strtab_at (strtab_bytes p.symbols)
    × Found whole o.names_at section_names

end-Found :
    (out bytes whole : List ℕ) → Begins (out ++ bytes) whole → Found whole (length out) bytes
end-Found out bytes whole h = (
  slice-Begins out bytes whole h,
  omega (arith, Begins-bound (out ++ bytes) whole h, length-append out bytes),
)

part_at_bound :
    (out : List ℕ) (align : ℕ) (bytes : List ℕ)
    → (append_aligned out align bytes).1 + length bytes ≤ length (append_aligned out align bytes).0
unfolding append_aligned
part_at_bound out align [] = omega arith
part_at_bound out align (c ∷ rest) = omega (arith, length-append (align_out out align) (c ∷ rest))

pub append_aligned-Found :
    (out : List ℕ) (align : ℕ) (bytes whole : List ℕ)
    → Begins (append_aligned out align bytes).0 whole
    → Found whole (append_aligned out align bytes).1 bytes
append_aligned-Found out align bytes whole h = (
  slice-append_aligned out align bytes whole h,
  omega (arith, part_at_bound out align bytes, Begins-bound _ whole h),
)

append_aligned-Begins :
    (out : List ℕ) (align : ℕ) (bytes : List ℕ) → Begins out (append_aligned out align bytes).0
append_aligned-Begins out align bytes = (_, (append_aligned-part out align bytes).0)

pub body-Finds :
    (front : List ℕ) (word : ℕ) (write : ℕ × Symbol → List ℕ) (t : Profile) (p : Parser)
    (whole : List ℕ)
    → Begins (body front word write t p).0 whole
    → Finds write p (body front word write t p).1 whole
unfolding body
body-Finds front word write t p whole h =
    let out1 = (append_aligned front t.align p.text).0 in
    let out2 = (append_aligned out1 t.align p.data_bytes).0 in
    let out3 = align_out out2 word in
    let out4 = out3 ++ symtab_bytes write p.symbols in
    let out5 = out4 ++ strtab_bytes p.symbols in
    let h5 : Begins out5 whole =
      Begins-trans out5 (out5 ++ section_names) whole (section_names, refl) h in
    let h4 : Begins out4 whole = Begins-trans out4 out5 whole (strtab_bytes p.symbols, refl) h5 in
    let h3 : Begins out3 whole =
      Begins-trans out3 out4 whole (symtab_bytes write p.symbols, refl) h4 in
    let h2 : Begins out2 whole = Begins-trans out2 out3 whole (_, align_out-pad out2 word) h3 in
    let h1 : Begins out1 whole =
      Begins-trans out1 out2 whole (append_aligned-Begins out1 t.align p.data_bytes) h2 in
    (
      append_aligned-Found front t.align p.text whole h1,
      append_aligned-Found out1 t.align p.data_bytes whole h2,
      end-Found out3 _ whole h4,
      end-Found out4 _ whole h5,
      end-Found out5 _ whole h,
    )

module _ (t : Profile) (p : Parser) where
  body64-Begins : Begins (body64 t p) (emit64 t p)
  body64-Begins =
      Begins-trans (body64 t p) (align_out (body64 t p) 64) (emit64 t p)
        (_, align_out-pad (body64 t p) 64) (_, emit64_form t p)

  -- Every part is where the headers of the sections say.
  pub emit64-Finds : Finds symbol64 p (offsets64 t p) (emit64 t p)
  emit64-Finds =
      subst (λ o. Finds symbol64 p o (emit64 t p)) (sym (body64_offsets t p))
        (body-Finds (front64 t p) 8 symbol64 t p (emit64 t p) body64-Begins)

  pub emit64-front : Begins (front64 t p) (emit64 t p)
  emit64-front =
      let (r, a, b) = body64-Twins t p in
      Begins-trans (front64 t p) (body64 t p) (emit64 t p) (r, b) body64-Begins

  pub rela64-Found : Found (emit64 t p) (rela_at64 t p) (rela64 p)
  rela64-Found =
      let a = align_out (body64 t p) 64 ++ sections section64 (list64 t p) in
      rw (rela_at64_end t p) (
        append_aligned-Found a 8 (rela64 p) (emit64 t p) (
          [],
          emit64_form t p
              ∙ sym (append_assoc (align_out (body64 t p) 64) (sections section64 (list64 t p)) _)
              ∙ sym (append_aligned-part a 8 (rela64 p)).0
              ∙ sym (append_nil _),
        ))
