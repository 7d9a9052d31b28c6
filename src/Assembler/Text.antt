-- ===== src/Assembler/Text.antt =====
-- The helpers on lines of text and on bytes in internal/assembler/bytesutil.go.
-- The capacity of a slice is not modelled: a write in place and a copy to a larger slice give the
-- same bytes. The text of an error is left out.
pub mod Number
pub mod Args
pub mod Trim
use forge_zero.Prelude.{
  ℕ, zero, suc, ◌+◌, ◌-◌, ◌*◌, ◌/◌, ◌%◌, ◌^◌, List, [], ◌∷◌, ◌++◌, Bool, true, false, ◌&&◌, ◌||◌,
  not, Option, none, some, is_digit, length, ltb, leb, ◌==◌, if◌then◌else◌, replicate,
}

-- Errors are values; a panic ends the program.
pub data Answer {ℓ} (A : Type ℓ) : Type ℓ where
  good : A → Answer A
  fault : Answer A
  panic : Answer A

infixl 5 ◌>>=◌
abbrev pub ◌>>=◌ {ℓ κ} : {A : Type ℓ} {B : Type κ} → Answer A → (A → Answer B) → Answer B
good a >>= f = f a
fault >>= f = fault
panic >>= f = panic

-- `splitArgs`, from inside the argument that began with the bytes `start`; `quote` is the open
-- quote. The argument so far and the later ones are the result.
unfoldable pub split_from : Option ℕ → List ℕ → List ℕ × List (List ℕ)
split_from quote [] = ([], [])
split_from (some q) (c ∷ rest) =
    let after = split_from none rest in
    let inside = split_from (some q) rest in
    if c == q then (c ∷ after.0, after.1) else (c ∷ inside.0, inside.1)
split_from none (c ∷ rest) =
    let opened = split_from (some c) rest in
    let plain = split_from none rest in
    if c == b'"' || c == b'\''
    then (c ∷ opened.0, opened.1)
    else if c == b','
    then ([], plain.0 ∷ plain.1)
    else (c ∷ plain.0, plain.1)

unfoldable pub split_args : List ℕ → List (List ℕ)
split_args data_bytes = let (first, rest) = split_from none data_bytes in first ∷ rest

-- `asciiSpaceTable`
abbrev pub is_ascii_space : ℕ → Bool
is_ascii_space c = c == b' ' || c == b'\t' || c == b'\r' || c == b'\n'

-- The two loops of `trimSpace`.
unfoldable pub trim_start : List ℕ → List ℕ
trim_start [] = []
trim_start (c ∷ rest) = let more = trim_start rest in if is_ascii_space c then more else c ∷ rest

unfoldable pub trim_end : List ℕ → List ℕ
trim_end [] = []
trim_end (c ∷ rest) = elim (trim_end rest) [
  | [] ↦ if is_ascii_space c then [] else c ∷ []
  | d ∷ more ↦ c ∷ d ∷ more
]

unfoldable pub trim_space : List ℕ → List ℕ
trim_space data_bytes = trim_end (trim_start data_bytes)

-- The digit that a byte is in a base, as `parseNumber` finds it.
unfoldable pub digit_value : ℕ → ℕ → Option ℕ
digit_value base c =
    let digit =
      if is_digit c
      then some (c - b'0')
      else if base == 16 && leb b'a' c && leb c b'f'
      then some (10 + (c - b'a'))
      else if base == 16 && leb b'A' c && leb c b'F'
      then some (10 + (c - b'A'))
      else none in
    elim digit [ none ↦ none | some d ↦ if leb base d then none else some d ]

-- The loop of `parseNumber`.
unfoldable pub digits_value : ℕ → ℕ → List ℕ → Option ℕ
digits_value base v [] = some v
digits_value base v (c ∷ rest) = elim (digit_value base c) [
  | none ↦ none
  | some d ↦ if ltb ((2 ^ 64 - 1 - d) / base) v then none else digits_value base (v * base + d) rest
]

-- The base that the prefix behind the sign tells, and the digits behind it.
unfoldable pub number_base : List ℕ → ℕ × List ℕ
number_base (z ∷ x ∷ rest) =
    if not (z == b'0')
    then (10, z ∷ x ∷ rest)
    else if x == b'x' || x == b'X'
    then (16, rest)
    else if x == b'b' || x == b'B'
    then (2, rest)
    else if x == b'o' || x == b'O'
    then (8, rest)
    else (10, z ∷ x ∷ rest)
number_base token = (10, token)

abbrev pub behind_sign : List ℕ → List ℕ
behind_sign [] = []
behind_sign (c ∷ rest) = if c == b'-' then rest else c ∷ rest

-- `parseNumber`, an uint64 or an error.
unfoldable pub parse_number : List ℕ → Option ℕ
parse_number [] = none
parse_number (c ∷ rest) =
    let (base, digits) = number_base (behind_sign (c ∷ rest)) in digits_value base 0 digits

-- `alignOut`
unfoldable pub align_out : List ℕ → ℕ → List ℕ
align_out out align =
    if align == 0 then out else out ++ replicate ((align - length out % align) % align) 0
