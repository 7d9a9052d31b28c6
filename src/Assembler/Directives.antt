-- ===== src/Assembler/Directives.antt =====
-- The data directives in internal/assembler/emitter.go: db, dw, dd and dq.
-- The answer is the bytes that are added to the section, those in front of an error included, and
-- whether there was no error.
pub mod Sizes
use forge_zero.Prelude.{
  little_endian, ℕ, ◌-◌, ◌%◌, List, [], ◌∷◌, ◌++◌, Bool, true, false, ◌||◌, not, Option, none, some,
  length, ltb, get_or, slice, ◌==◌, if◌then◌else◌,
}
use forge_zero.Assembler.Text.{trim_space, split_args, parse_number}

-- `parseString`
unfoldable pub parse_string : List ℕ → Option (List ℕ)
parse_string token =
    if ltb (length token) 2 || not (get_or token (length token - 1) 0 == get_or token 0 0)
    then none
    else some (slice token 1 (length token - 1))

-- The bytes of an item and those of the items behind it.
abbrev pub put : Option (List ℕ) → List ℕ × Bool → List ℕ × Bool
put none others = ([], false)
put (some bytes) (others, done) = (bytes ++ others, done)

abbrev pub number_bytes : ℕ → Option ℕ → Option (List ℕ)
number_bytes width none = none
number_bytes width (some v) = some (little_endian width v)

-- An item that is trimmed: a text in quotes, or a number, whose lowest byte is taken.
unfoldable pub byte_item : List ℕ → Option (List ℕ)
byte_item [] = some []
byte_item (c ∷ rest) =
    if c == b'"' || c == b'\''
    then parse_string (c ∷ rest)
    else number_bytes 1 (parse_number (c ∷ rest))

unfoldable pub word_item : ℕ → List ℕ → Option (List ℕ)
word_item width [] = some []
word_item width (c ∷ rest) = number_bytes width (parse_number (c ∷ rest))

-- The loop over the items.
unfoldable pub put_items : (List ℕ → Option (List ℕ)) → List (List ℕ) → List ℕ × Bool
put_items one [] = ([], true)
put_items one (item ∷ rest) = put (one (trim_space item)) (put_items one rest)

unfoldable pub emit_bytes : List ℕ → List ℕ × Bool
emit_bytes rest = put_items byte_item (split_args rest)

unfoldable pub emit_words : ℕ → List ℕ → List ℕ × Bool
emit_words width rest = put_items (word_item width) (split_args rest)
