-- ===== src/Assembler/State/References.antt =====
-- The invariant behind an instruction that names a symbol.
use forge_zero.Prelude.{
  ℕ, ◌+◌, ◌^◌, ◌≤◌, ◌<◌, ◌≡◌, refl, List, [], ◌∷◌, ◌++◌, arith, length, length-append, Option-cases,
  inl, inr,
}
use forge_zero.Assembler.Text.{Answer, good, fault, panic}
use forge_zero.Assembler.State.{
  Place, in_text, in_data, in_bss, Parser, section_index, section_data, append_at, append_bytes,
  find_symbol, add_symbol, emit_reference,
}
use forge_zero.Assembler.State.Table.{find_symbol_bound}
use forge_zero.Assembler.State.Fits.{
  reloc_width, Valid, ValidAnswer, All-append, append_at-Valid, add_symbol-Valid,
}

append_reloc-Valid :
    (place : Place) (bytes : List ℕ) (at i typ addend : ℕ) (q : Parser)
    → i < length q.symbols
    → typ ≤ 2
    → addend < 2 ^ 64
    → at + reloc_width typ ≤ length bytes
    → Valid q
    → Valid (
        append_at place bytes (record q {
          relocs =
              q.relocs
              ++ record {
                sec = section_index place;
                off = length (section_data q place) + at;
                sym = i;
                typ = typ;
                addend = addend;
              }
                ∷ [];
        }))
append_reloc-Valid in_text bytes at i typ addend q h k g l v =
    let (a, b, c, d, e) = append_at-Valid in_text bytes q v in
    let m = length-append q.text bytes in
    (a, b, c, All-append _ q.relocs _ d (h, k, g, omega (arith, l, m)), e)
append_reloc-Valid in_data bytes at i typ addend q h k g l v =
    let (a, b, c, d, e) = append_at-Valid in_data bytes q v in
    let m = length-append q.data_bytes bytes in
    (a, b, c, All-append _ q.relocs _ d (h, k, g, omega (arith, l, m)), e)
append_reloc-Valid in_bss bytes at i typ addend q h k g l v =
    let (a, b, c, d, e) = append_at-Valid in_bss bytes q v in
    let m = length-append q.bss_bytes bytes in
    (a, b, c, All-append _ q.relocs _ d (h, k, g, omega (arith, l, m)), e)

reference_answer :
    (name bytes : List ℕ) (at typ addend : ℕ) (p : Parser) (answer : Answer Parser)
    → add_symbol name 0 0 0 p ≡ answer
    → typ ≤ 2
    → addend < 2 ^ 64
    → at + reloc_width typ ≤ length bytes
    → ValidAnswer answer
    → ValidAnswer (emit_reference name bytes at typ addend p)
unfolding emit_reference append_bytes
reference_answer name bytes at typ addend p fault h k g l v = rw (h, emit_reference) tt
reference_answer name bytes at typ addend p panic h k g l v = rw (h, emit_reference) tt
reference_answer name bytes at typ addend p (good q) h k g l v =
    elim (Option-cases (find_symbol q.symbols name)) [
      | inl e ↦ rw (h, e, emit_reference) tt
      | inr (i, e) ↦
          rw (h, e, emit_reference)
            (append_reloc-Valid q.current bytes at i typ addend q
              (find_symbol_bound q.symbols name i e).0 k g l v)
    ]

pub emit_reference-Valid :
    (name bytes : List ℕ) (at typ addend : ℕ) (p : Parser)
    → typ ≤ 2
    → addend < 2 ^ 64
    → at + reloc_width typ ≤ length bytes
    → Valid p
    → ValidAnswer (emit_reference name bytes at typ addend p)
emit_reference-Valid name bytes at typ addend p k g l v =
    reference_answer name bytes at typ addend p (add_symbol name 0 0 0 p) refl k g l
      (add_symbol-Valid name 0 0 0 p (ground arith) v)
