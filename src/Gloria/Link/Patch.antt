-- ===== src/Gloria/Link/Patch.antt =====
-- Displacements of 32 bits in code, written and read.
use forge_zero.Prelude.{
  ℕ, zero, suc, ◌+◌, ◌*◌, ◌%◌, ◌^◌, ◌≤◌, ◌<◌, ◌≡◌, ◌⊎◌, refl, ◌∙◌, List, [], ◌∷◌, arith, length,
  set, get_or, get_or-set_same, get_or-set_other, length-set, little_endian, inl, inr,
}
use forge_zero.Gloria.Compile.Blocks.{patch, distance}

pub length-patch :
    (code : List ℕ) (at : ℕ) (bytes : List ℕ) → length (patch code at bytes) ≡ length code
unfolding patch
length-patch code at [] = refl
length-patch code at (b ∷ rest) = length-patch (set code at b) (suc at) rest ∙ length-set code at b

pub get_or-patch_other :
    (code : List ℕ) (at : ℕ) (bytes : List ℕ) (j : ℕ)
    → (j < at) ⊎ (at + length bytes ≤ j)
    → get_or (patch code at bytes) j 0 ≡ get_or code j 0
unfolding patch
get_or-patch_other code at [] j h = refl
get_or-patch_other code at (b ∷ rest) j (inl h) =
    get_or-patch_other (set code at b) (suc at) rest j (inl (omega arith))
    ∙ get_or-set_other 0 code at j b (λ e. omega arith)
get_or-patch_other code at (b ∷ rest) j (inr h) =
    get_or-patch_other (set code at b) (suc at) rest j (inr (omega arith))
    ∙ get_or-set_other 0 code at j b (λ e. omega arith)

pub get_or-patch_same :
    (code : List ℕ) (at : ℕ) (bytes : List ℕ) (j : ℕ)
    → at + length bytes ≤ length code
    → j < length bytes
    → get_or (patch code at bytes) (at + j) 0 ≡ get_or bytes j 0
unfolding patch
get_or-patch_same code at [] j h k = absurd (omega arith)
get_or-patch_same code at (b ∷ rest) zero h k =
    let e : at + 0 ≡ at = omega arith in
    rw e (
      get_or-patch_other (set code at b) (suc at) rest at (inl (omega arith))
      ∙ get_or-set_same 0 code at b (omega arith))
get_or-patch_same code at (b ∷ rest) (suc j) h k =
    let e : at + suc j ≡ suc at + j = omega arith in
    rw e (
      get_or-patch_same (set code at b) (suc at) rest j (omega (arith, length-set code at b))
        (omega arith))

-- The number that four bytes stand for.
abbrev pub read32 : List ℕ → ℕ → ℕ
read32 code at =
    get_or code (at + 0) 0
    + 256 * get_or code (at + 1) 0
    + 65536 * get_or code (at + 2) 0
    + 16777216 * get_or code (at + 3) 0

pub read32-patch_same :
    (code : List ℕ) (at v : ℕ)
    → at + 4 ≤ length code
    → v < 2 ^ 32
    → read32 (patch code at (little_endian 4 v)) at ≡ v
unfolding little_endian
read32-patch_same code at v h k =
    let byte : (j : ℕ)
        → j < 4
        → get_or (patch code at (little_endian 4 v)) (at + j) 0 ≡ get_or (little_endian 4 v) j 0 =
      λ j l. get_or-patch_same code at (little_endian 4 v) j h l in
    rw (byte 0 (omega arith), byte 1 (omega arith), byte 2 (omega arith), byte 3 (omega arith))
      (omega arith)

pub read32-patch_other :
    (code : List ℕ) (at v j : ℕ)
    → (j + 4 ≤ at) ⊎ (at + 4 ≤ j)
    → read32 (patch code at (little_endian 4 v)) j ≡ read32 code j
unfolding little_endian
read32-patch_other code at v j h =
    let byte : (i : ℕ)
        → i < 4
        → get_or (patch code at (little_endian 4 v)) (j + i) 0 ≡ get_or code (j + i) 0 =
      λ i l. get_or-patch_other code at (little_endian 4 v) (j + i) (ground arith) in
    rw (byte 0 (omega arith), byte 1 (omega arith), byte 2 (omega arith), byte 3 (omega arith)) refl

-- A jump of the distance from a position leads to the target.
pub distance_leads :
    (target from : ℕ)
    → (distance target from < 2 ^ 32) × ((from + distance target from) % 2 ^ 32 ≡ target % 2 ^ 32)
distance_leads target from = (omega arith, omega arith)
