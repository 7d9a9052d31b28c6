-- ===== src/Assembler/Directives/Sizes.antt =====
-- How many bytes the directives add.
use forge_zero.Prelude.{
  ℕ, ◌+◌, ◌≡◌, refl, List, [], ◌∷◌, true, some, arith, length, length-append, length-little_endian,
  Option-cases, inl, inr,
}
use forge_zero.Assembler.Text.{trim_space, split_args, parse_number}
use forge_zero.Assembler.Directives.{word_item, put_items, emit_words}

-- The bytes of the items, if each that is not blank has the same width.
abbrev pub filled : ℕ → List ℕ → ℕ
filled width [] = 0
filled width (c ∷ rest) = width

abbrev pub items_size : ℕ → List (List ℕ) → ℕ
items_size width [] = 0
items_size width (item ∷ rest) = filled width (trim_space item) + items_size width rest

length-word_item :
    (width : ℕ) (item bytes : List ℕ)
    → word_item width item ≡ some bytes
    → length bytes ≡ filled width item
unfolding word_item
length-word_item width [] bytes h = ground arith
length-word_item width (c ∷ rest) bytes h = elim (Option-cases (parse_number (c ∷ rest))) [
  | inl e ↦ absurd (ground (arith, e))
  | inr (v, e) ↦ ground (arith, e, length-little_endian width v)
]

length-put_items :
    (width : ℕ) (items : List (List ℕ))
    → (put_items (word_item width) items).1 ≡ true
    → length (put_items (word_item width) items).0 ≡ items_size width items
unfolding put_items
length-put_items width [] h = refl
length-put_items width (item ∷ rest) h = elim (Option-cases (word_item width (trim_space item))) [
  | inl e ↦ absurd (ground (arith, e))
  | inr (bytes, e) ↦
      rw (e, length-append bytes (put_items (word_item width) rest).0)
        (omega (
          arith,
          length-word_item width (trim_space item) bytes e,
          length-put_items width rest (ground (arith, e)),
        ))
]

-- Without an error, dw, dd and dq add as many bytes as their width for each argument that is not
-- blank.
pub length-emit_words :
    (width : ℕ) (rest : List ℕ)
    → (emit_words width rest).1 ≡ true
    → length (emit_words width rest).0 ≡ items_size width (split_args rest)
unfolding emit_words
length-emit_words width rest h = length-put_items width (split_args rest) h
