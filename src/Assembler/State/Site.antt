-- ===== src/Assembler/State/Site.antt =====
-- Where the relocation of an instruction that names a symbol points.
use forge_zero.Prelude.{
  ℕ, ◌+◌, ◌≡◌, ◌⊎◌, refl, ap, ◌∙◌, List, [], ◌∷◌, ◌++◌, true, leb, none, some, length, get_or,
  Bool-cases, Option-cases, inl, inr,
}
use forge_zero.Assembler.Text.{Answer, good, fault}
use forge_zero.Assembler.State.{
  Place, in_text, in_data, in_bss, Symbol, Reloc, Parser, section_index, section_data, append_at,
  append_bytes, find_symbol, update_symbol, symbol_capacity, add_symbol, emit_reference,
}
use forge_zero.Assembler.State.Table.{find_symbol_bound, find_symbol-update_symbol, no_symbol}
use forge_zero.Assembler.State.Order.{
  find_symbol_last, add_symbol_found, add_symbol_new, add_symbol_full,
}

-- The relocation for the first byte behind an opcode that is put at the end of the section.
abbrev pub site : Parser → List ℕ → ℕ → ℕ → ℕ → Reloc
site p opcode i typ addend = record {
  sec = section_index p.current;
  off = length (section_data p p.current) + length opcode;
  sym = i;
  typ = typ;
  addend = addend;
}

-- What the instruction leaves: the bytes, and the relocation for the zeros among them.
abbrev pub Refers : Parser → List ℕ → List ℕ → List ℕ → ℕ → ℕ → Parser → Type 0
Refers p name opcode zeros typ addend q =
    (i : ℕ) × ((get_or q.symbols i no_symbol).name ≡ name)
    × (q.relocs ≡ p.relocs ++ site p opcode i typ addend ∷ [])
    × (section_data q p.current ≡ section_data p p.current ++ (opcode ++ zeros))

-- An error if the table has no place for a new name, and else a state with a property.
abbrev pub Answers : Parser → List ℕ → (Parser → Type 0) → Answer Parser → Type 0
Answers p name P a =
    ((find_symbol p.symbols name ≡ none)
      × (leb symbol_capacity (length p.symbols) ≡ true)
      × (a ≡ fault))
    ⊎ ((q : Parser) × (a ≡ good q) × P q)

append_at_bytes :
    (place : Place) (bytes : List ℕ) (p : Parser) (symbols : List Symbol) (relocs : List Reloc)
    → (section_data (append_at place bytes (record p { symbols = symbols; relocs = relocs })) place
        ≡ section_data p place ++ bytes)
      × ((append_at place bytes (record p { symbols = symbols; relocs = relocs })).relocs ≡ relocs)
      × ((append_at place bytes (record p { symbols = symbols; relocs = relocs })).symbols
          ≡ symbols)
append_at_bytes in_text bytes p symbols relocs = (refl, refl, refl)
append_at_bytes in_data bytes p symbols relocs = (refl, refl, refl)
append_at_bytes in_bss bytes p symbols relocs = (refl, refl, refl)

module _ (p : Parser) (name opcode zeros : List ℕ) (typ addend : ℕ) where
  append_bytes-Refers :
      (i : ℕ) (symbols : List Symbol)
      → find_symbol symbols name ≡ some i
      → Refers p name opcode zeros typ addend (
          append_bytes
            (opcode ++ zeros)
            (record p { symbols = symbols; relocs = p.relocs ++ site p opcode i typ addend ∷ [] }))
  unfolding append_bytes
  append_bytes-Refers i symbols h =
      let (a, b, c) =
        append_at_bytes p.current (opcode ++ zeros) p symbols
          (p.relocs ++ site p opcode i typ addend ∷ []) in
      (i, ap (λ l. (get_or l i no_symbol).name) c ∙ (find_symbol_bound symbols name i h).1, b, a)

  entered :
      (i : ℕ) (symbols : List Symbol)
      → add_symbol name 0 0 0 p ≡ good (record p { symbols = symbols })
      → find_symbol symbols name ≡ some i
      → Answers p name
          (Refers p name opcode zeros typ addend)
          (emit_reference name (opcode ++ zeros) (length opcode) typ addend p)
  unfolding emit_reference
  entered i symbols h e =
      let q : Parser =
        append_bytes (opcode ++ zeros)
          (record p { symbols = symbols; relocs = p.relocs ++ site p opcode i typ addend ∷ [] }) in
      inr (q, rw (h, e, emit_reference) refl, append_bytes-Refers i symbols e)

  -- An instruction whose relocation is given at the length of its opcode.
  pub emit_reference-Answers :
      Answers p name
        (Refers p name opcode zeros typ addend)
        (emit_reference name (opcode ++ zeros) (length opcode) typ addend p)
  unfolding emit_reference
  emit_reference-Answers = elim (Option-cases (find_symbol p.symbols name)) [
    | inr (i, f) ↦
        entered i (update_symbol p.symbols name 0 0 0) (add_symbol_found name 0 0 0 i p f)
          (find_symbol-update_symbol p.symbols name name 0 0 0 ∙ f)
    | inl f ↦ elim (Bool-cases (leb symbol_capacity (length p.symbols))) [
      | inl g ↦ inl (f, g, rw (add_symbol_full name 0 0 0 p f g, emit_reference) refl)
      | inr g ↦
          let new : Symbol = record { name = name; value = 0; shndx = 0; bind = 0 } in
          entered (length p.symbols) (p.symbols ++ new ∷ []) (add_symbol_new name 0 0 0 p f g)
            (find_symbol_last p.symbols new f)
    ]
  ]
