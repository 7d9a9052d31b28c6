-- ===== src/Prelude/Bytes.antt =====
-- Go strings and byte slices as lists of byte values.
use Prim.Native.Nat.{ℕ, zero, suc, ◌+◌, ◌-◌, ◌*◌, ◌/◌, ◌%◌, ◌<◌}
use mathlib.Core.Path.{◌≡◌, refl, ap}
use Prim.Native.Char.{code}
use Prim.Native.String.{String}
use mathlib.Core.Logic.{◌≢◌}
use mathlib.Core.Bool.{Bool, true, false, ◌&&◌, ◌||◌}
use mathlib.Core.List.{List, [], ◌∷◌}
use native.Mathlib.Omega.{arith}
use forge_zero.Prelude.Tests.{leb, ◌==◌}
use forge_zero.Prelude.Lists.{length, get_or, take, drop}

-- The bytes of an ASCII literal. `String` has its own `[]` and `∷`.
abbrev pub codes : String → List ℕ
codes String.[] = []
codes (String.◌∷◌ c s) = code c ∷ codes s

abbrev pub bytes_eq : List ℕ → List ℕ → Bool
bytes_eq [] [] = true
bytes_eq (x ∷ xs) (y ∷ ys) = x == y && bytes_eq xs ys
bytes_eq _ _ = false

-- s[lo:hi]
abbrev pub slice : List ℕ → ℕ → ℕ → List ℕ
slice s lo hi = take (hi - lo) (drop lo s)

-- A predicate by recursion computes to tuples, which the tactics read and build.
abbrev pub All {ℓ κ} : {A : Type ℓ} → (A → Type κ) → List A → Type κ
All P [] = Unit
All P (x ∷ xs) = P x × All P xs

-- 'a'..'z', 'A'..'Z' and '_'
abbrev pub is_letter : ℕ → Bool
is_letter ch = (leb b'a' ch && leb ch b'z') || (leb b'A' ch && leb ch b'Z') || ch == b'_'

abbrev pub is_digit : ℕ → Bool
is_digit ch = leb b'0' ch && leb ch b'9'

-- A byte that is not the default was read within bounds.
pub get_or_bound : (xs : List ℕ) (i : ℕ) → get_or xs i 0 ≢ 0 → i < length xs
get_or_bound [] i h = absurd (h (omega arith))
get_or_bound (x ∷ xs) zero h = omega arith
get_or_bound (x ∷ xs) (suc i) h = omega (arith, get_or_bound xs i h)

-- The `n` low bytes of a number, the lowest first, as the writers of Go's encoding/binary and of
-- the assembler put them.
unfoldable pub little_endian : ℕ → ℕ → List ℕ
little_endian zero v = []
little_endian (suc n) v = v % 256 ∷ little_endian n (v / 256)

pub length-little_endian : (n v : ℕ) → length (little_endian n v) ≡ n
unfolding little_endian
length-little_endian zero v = refl
length-little_endian (suc n) v = ap suc (length-little_endian n (v / 256))

-- The number that bytes stand for, the lowest first.
abbrev pub from_little_endian : List ℕ → ℕ
from_little_endian [] = 0
from_little_endian (b ∷ rest) = b + 256 * from_little_endian rest

abbrev pub byte_range : ℕ → ℕ
byte_range zero = 1
byte_range (suc n) = 256 * byte_range n

pub from_little_endian-little_endian :
    (n v : ℕ) → v < byte_range n → from_little_endian (little_endian n v) ≡ v
unfolding little_endian
from_little_endian-little_endian zero v h = omega arith
from_little_endian-little_endian (suc n) v h =
    omega (arith, from_little_endian-little_endian n (v / 256) (omega arith))
