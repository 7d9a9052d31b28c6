-- ===== src/Assembler/Sections/Valid.antt =====
-- The invariant of the parser behind the directives on the sections.
use forge_zero.Prelude.{
  ℕ, ◌*◌, ◌%◌, ◌^◌, ◌<◌, List, Bool, true, false, ◌||◌, codes, bytes_eq, arith, Bool-cases,
  Option-cases, inl, inr, ◌==◌, replicate,
}
use forge_zero.Assembler.Text.{trim_space, parse_number}
use forge_zero.Assembler.Dispatch.{read_token}
use forge_zero.Assembler.State.{Place, in_text, in_data, in_bss, Parser}
use forge_zero.Assembler.State.Fits.{Valid, ValidAnswer, append_bytes-Valid}
use forge_zero.Assembler.Sections.{
  switch_section, add_items, reserve_count, reserve, align_value, align_to, align_section,
}

pub switch_section-Valid :
    (name : List ℕ) (p : Parser) → Valid p → ValidAnswer (switch_section name p)
unfolding switch_section
switch_section-Valid name p h =
    elim (Bool-cases (bytes_eq name (codes ".text") || bytes_eq name (codes "text"))) [
      | inl e ↦ rw e h
      | inr e ↦ elim (Bool-cases (bytes_eq name (codes ".data") || bytes_eq name (codes "data"))) [
        | inl f ↦ rw (e, f) h
        | inr f ↦ elim (Bool-cases (bytes_eq name (codes ".bss") || bytes_eq name (codes "bss"))) [
          | inl g ↦ rw (e, f, g) h
          | inr g ↦ rw (e, f, g) tt
        ]
      ]
    ]

pub add_items-Valid :
    (items : List ℕ × Bool) (p : Parser) → Valid p → ValidAnswer (add_items items p)
add_items-Valid (bytes, true) p h = append_bytes-Valid bytes p h
add_items-Valid (bytes, false) p h = tt

-- The state with another place; the place is an argument of its own, to split on it.
reserve_at :
    (place : Place) (count : ℕ) (p : Parser)
    → Valid p
    → Valid (reserve_count count (record p { current = place }))
unfolding reserve_count
reserve_at in_text count p h =
    append_bytes-Valid (replicate count 0) (record p { current = in_text }) h
reserve_at in_data count p h =
    append_bytes-Valid (replicate count 0) (record p { current = in_data }) h
reserve_at in_bss count p (a, b, c, d, e) = (a, b, c, d, omega arith)

pub reserve-Valid :
    (width : ℕ) (p : Parser) (rest : List ℕ) → Valid p → ValidAnswer (reserve width p rest)
unfolding reserve
reserve-Valid width p rest h = elim (Option-cases (parse_number (read_token rest).0)) [
  | inl e ↦ rw (e, reserve) tt
  | inr (v, e) ↦ rw (e, reserve) (reserve_at p.current (v * width % 2 ^ 64) p h)
]

align_value_bound : (value align : ℕ) → value < 2 ^ 64 → align_value value align < 2 ^ 64
unfolding align_value
align_value_bound value align h = ground arith

align_at :
    (place : Place) (v : ℕ) (p : Parser)
    → Valid p
    → Valid (align_to v (record p { current = place }))
unfolding align_to
align_at in_text v p h = append_bytes-Valid _ (record p { current = in_text }) h
align_at in_data v p h = append_bytes-Valid _ (record p { current = in_data }) h
align_at in_bss v p (a, b, c, d, e) = (a, b, c, d, align_value_bound p.bss_size v e)

pub align_section-Valid :
    (p : Parser) (rest : List ℕ) → Valid p → ValidAnswer (align_section p rest)
unfolding align_section
align_section-Valid p rest h = elim (Option-cases (parse_number (trim_space (read_token rest).0))) [
  | inl e ↦ rw (e, align_section) tt
  | inr (v, e) ↦ elim (Bool-cases (v == 0)) [
    | inl f ↦ rw (e, f, align_section) h
    | inr f ↦ rw (e, f, align_section) (align_at p.current v p h)
  ]
]
