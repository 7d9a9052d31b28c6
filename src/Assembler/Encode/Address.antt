-- ===== src/Assembler/Encode/Address.antt =====
-- The bytes of a memory operand, read back as a processor reads them.
use forge_zero.Prelude.{
  little_endian, ℕ, ◌+◌, ◌-◌, ◌*◌, ◌/◌, ◌%◌, ◌^◌, ◌≤◌, ◌<◌, ◌≡◌, ◌≢◌, ◌⊎◌, List, [], ◌∷◌, true,
  ◌&&◌, Option, none, some, arith, ltb, ◌==◌, if◌then◌else◌,
}
use forge_zero.Assembler.Memory.{Memory, is_scale}
use forge_zero.Assembler.Encode.{encode_mod_rm, encode_sib, write_mem_operand}

-- What an operand means: a base register, an index with its factor, and a displacement, which is
-- a 64-bit pattern.
pub record Address : Type 0 where
  pub base : Option ℕ
  pub index : Option (ℕ × ℕ)
  pub disp : ℕ

-- A displacement of one byte or of four, extended by its sign.
abbrev pub extend8 : ℕ → ℕ
extend8 d = if ltb d 128 then d else 2 ^ 64 - 256 + d

abbrev pub extend32 : ℕ → ℕ
extend32 d = if ltb d (2 ^ 31) then d else 2 ^ 64 - 2 ^ 32 + d

-- The displacement that the mode asks for, from exactly the bytes that are there.
abbrev pub read_disp : ℕ → List ℕ → Option ℕ
read_disp mode [] = if mode == 0 then some 0 else none
read_disp mode (a ∷ []) = if mode == 1 then some (extend8 a) else none
read_disp mode (a ∷ b ∷ c ∷ d ∷ []) =
    if mode == 2 then some (extend32 (a + 256 * b + 65536 * c + 16777216 * d)) else none
read_disp mode _ = none

abbrev pub with_disp : Option ℕ → Option (ℕ × ℕ) → Option ℕ → Option Address
with_disp base index none = none
with_disp base index (some d) = some (record { base = base; index = index; disp = d })

-- The index of a SIB byte; 4 is none.
abbrev pub sib_index : ℕ → Option (ℕ × ℕ)
sib_index s = if s / 8 % 8 == 4 then none else some (s / 8 % 8, 2 ^ (s / 64 % 4))

abbrev pub read_sib : ℕ → List ℕ → Option Address
read_sib mode [] = none
read_sib mode (s ∷ rest) =
    if mode == 0 && s % 8 == 5
    then with_disp none (sib_index s) (read_disp 2 rest)
    else with_disp (some (s % 8)) (sib_index s) (read_disp mode rest)

-- A memory operand that takes up all the bytes. That relative to the instruction pointer (mode 0
-- and register 5) has no meaning here.
unfoldable pub read_address : List ℕ → Option Address
read_address [] = none
read_address (b ∷ rest) =
    if b % 8 == 4
    then read_sib (b / 64) rest
    else if b / 64 == 0 && b % 8 == 5
    then none
    else with_disp (some (b % 8)) none (read_disp (b / 64) rest)

-- The pattern of an int64 that is an int32.
abbrev pub IsInt32 : ℕ → Type 0
IsInt32 d = (d < 2 ^ 31) ⊎ ((2 ^ 64 - 2 ^ 31 ≤ d) × (d < 2 ^ 64))

-- Without an index, a displacement of 32 bits is read back with the base, unless the base is the
-- register 4, or the register 5 without a displacement.
pub read_address-write_mem_operand :
    (m : Memory) (r : ℕ)
    → m.index ≡ 255
    → m.base < 8
    → r < 8
    → m.base ≢ 4
    → (m.base ≢ 5) ⊎ (m.disp ≢ 0)
    → IsInt32 m.disp
    → read_address (write_mem_operand m r)
      ≡ some (record { base = some m.base; index = none; disp = m.disp })
unfolding read_address write_mem_operand encode_mod_rm little_endian
read_address-write_mem_operand m r i b h n k d = ground arith

-- Without an index, the bytes for the base register 4, and those for the register 5 without a
-- displacement, are no memory operand.
pub write_mem_operand_unreadable :
    (m : Memory) (r : ℕ)
    → m.index ≡ 255
    → (m.base ≡ 4) ⊎ ((m.base ≡ 5) × (m.disp ≡ 0))
    → read_address (write_mem_operand m r) ≡ none
unfolding read_address write_mem_operand encode_mod_rm little_endian
write_mem_operand_unreadable m r i b = ground arith

sib_factor_wrong :
    (scale index base : ℕ)
    → is_scale scale ≡ true
    → sib_index (encode_sib scale index base) ≢ some (index, scale)
unfolding encode_sib
sib_factor_wrong scale index base h = ground arith

-- With an index and any scale that the parser accepts, the bytes are not those of the operand's
-- base, index, scale and displacement.
pub write_mem_operand_scaled :
    (m : Memory) (r : ℕ)
    → m.index < 8
    → is_scale m.scale ≡ true
    → read_address (write_mem_operand m r)
      ≢ some (record { base = some m.base; index = some (m.index, m.scale); disp = m.disp })
unfolding read_address write_mem_operand encode_mod_rm little_endian
write_mem_operand_scaled m r i h = ground (arith, sib_factor_wrong m.scale m.index m.base h)
