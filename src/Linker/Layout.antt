-- ===== src/Linker/Layout.antt =====
-- internal/linker/flat_layout.go: the memory layout of a flat image and its emission.
-- A `uint32` is a number below 2 ^ 32 and a `uint64` one below 2 ^ 64, with the wrap-around written
-- out. The arrays of three sections with their count are lists of that length.
pub mod Naked
pub mod Packing
pub mod Image
pub mod Order
pub mod Emit
use forge_zero.Prelude.{
  ℕ, zero, suc, ◌+◌, ◌-◌, ◌*◌, ◌/◌, ◌%◌, ◌^◌, String, List, [], ◌∷◌, ◌++◌, Bool, true, false, ◌&&◌,
  ◌||◌, not, Option, none, some, length, take, drop, replicate, ltb, leb, ◌==◌, if◌then◌else◌, min,
}

-- `Permissions` is a set of the bits read, write and exec.
abbrev pub perm_read : ℕ
perm_read = 1

abbrev pub perm_write : ℕ
perm_write = 2

abbrev pub perm_exec : ℕ
perm_exec = 4

pub record Region : Type 0 where
  pub name : String
  pub origin : ℕ
  pub length : ℕ
  pub permissions : ℕ

-- `Data` is `none` where the slice is nil.
pub record SectionLayout : Type 0 where
  pub name : String
  pub origin : ℕ
  pub length : ℕ
  pub permissions : ℕ
  pub bytes : Option (List ℕ)

pub record Layout : Type 0 where
  pub flash : Region
  pub ram : Region
  pub text : SectionLayout
  pub data_section : SectionLayout
  pub bss : SectionLayout

pub data LayoutError : Type 0 where
  invalid_alignment region_overflow section_overlap : LayoutError

pub data Result {ℓ} (A : Type ℓ) : Type ℓ where
  ok : A → Result A
  err : LayoutError → Result A

infixl 5 ◌>>=◌
abbrev pub ◌>>=◌ {ℓ κ} : {A : Type ℓ} {B : Type κ} → Result A → (A → Result B) → Result B
ok a >>= f = f a
err e >>= f = err e

-- The bytes of a slice and their number; a nil slice has none.
abbrev pub contents : Option (List ℕ) → List ℕ
contents none = []
contents (some bytes) = bytes

abbrev pub size_of : Option (List ℕ) → ℕ
size_of b = length (contents b)

abbrev pub bytes_of : SectionLayout → List ℕ
bytes_of s = contents s.bytes

-- `Align4`, on uint32.
unfoldable pub align4 : ℕ → ℕ
align4 addr = (addr + 3) % 2 ^ 32 / 4 * 4

-- `align4Checked`, on uint64: the aligned value, and whether it is a uint32.
unfoldable pub align4_checked : ℕ → ℕ × Bool
align4_checked value =
    let aligned = (value + 3) % 2 ^ 64 / 4 * 4 in (aligned, leb aligned (2 ^ 32 - 1))

-- A section of `len` bytes at `base`, both aligned, if it ends within `limit`.
-- The sums are of uint64 values.
unfoldable pub place : ℕ → ℕ → ℕ → Result (ℕ × ℕ)
unfolding align4_checked
place base len limit =
    let (origin, origin_ok) = align4_checked base in
    let (size, size_ok) = align4_checked len in
    if not origin_ok || not size_ok || (ltb 0 size && ltb limit ((origin + size) % 2 ^ 64))
    then err LayoutError.region_overflow
    else ok (origin, size)

abbrev pub region_end : Region → ℕ
region_end r = (r.origin + r.length) % 2 ^ 64

abbrev pub section : String → ℕ × ℕ → ℕ → Option (List ℕ) → SectionLayout
section name (origin, size) permissions bytes = record {
  name = name;
  origin = origin % 2 ^ 32;
  length = size % 2 ^ 32;
  permissions = permissions;
  bytes = bytes;
}

abbrev pub layout :
    Region → Region → Option (List ℕ) → Option (List ℕ) → ℕ × ℕ → ℕ × ℕ → ℕ × ℕ → Layout
layout flash ram text_data data_data text data_place bss = record {
  flash = flash;
  ram = ram;
  text = section ".text" text (perm_read + perm_exec) text_data;
  data_section = section ".data" data_place (perm_read + perm_write) data_data;
  bss = section ".bss" bss (perm_read + perm_write) none;
}

unfoldable pub new_naked_memory_layout :
    Region → Region → Option (List ℕ) → Option (List ℕ) → ℕ → Result Layout
new_naked_memory_layout flash ram text_data data_data bss_size =
    if not (flash.origin % 4 == 0) || not (ram.origin % 4 == 0)
    then err LayoutError.invalid_alignment
    else do
      text ← place flash.origin (size_of text_data) (region_end flash)
      data_place ← place ram.origin (size_of data_data) (region_end ram)
      bss ← place ((data_place.0 + data_place.1) % 2 ^ 64) bss_size (region_end ram)
      ok (layout flash ram text_data data_data text data_place bss)

-- The filter of `collectSectionsForRegion`.
unfoldable pub belongs : Region → SectionLayout → Bool
belongs region s =
    not (s.length == 0 && (elim s.bytes [ none ↦ true | some _ ↦ false ]))
    && leb region.origin s.origin
    && ltb s.origin ((region.origin + region.length) % 2 ^ 64)

unfoldable pub select : Region → List SectionLayout → List SectionLayout
select region [] = []
select region (s ∷ rest) =
    let others = select region rest in if belongs region s then s ∷ others else others

-- The inner loop of its exchange sort: `x` is `result[i]`, and the list is what follows it.
unfoldable pub exchange : SectionLayout → List SectionLayout → SectionLayout × List SectionLayout
exchange x [] = (x, [])
exchange x (y ∷ ys) =
    if ltb y.origin x.origin
    then (let (least, rest) = exchange y ys in (least, x ∷ rest))
    else (let (least, rest) = exchange x ys in (least, y ∷ rest))

-- The outer loop, with a round for each section.
unfoldable pub exchange_sort : ℕ → List SectionLayout → List SectionLayout
exchange_sort zero l = l
exchange_sort (suc n) [] = []
exchange_sort (suc n) (x ∷ xs) = let (least, rest) = exchange x xs in least ∷ exchange_sort n rest

unfoldable pub collect_sections_for_region : Region → List SectionLayout → List SectionLayout
collect_sections_for_region region sections =
    let chosen = select region sections in exchange_sort (length chosen) chosen

-- `regionOutputSize` from `offset` on.
unfoldable pub region_output_size : Region → ℕ → List SectionLayout → Result ℕ
region_output_size region offset [] = ok offset
region_output_size region offset (s ∷ rest) =
    let relative = s.origin - region.origin in
    let end = (relative + s.length) % 2 ^ 64 in
    let more = region_output_size region end rest in
    if ltb s.origin region.origin
    then err LayoutError.region_overflow
    else if ltb relative offset
    then err LayoutError.section_overlap
    else if ltb region.length end
    then err LayoutError.region_overflow
    else more

abbrev pub sections_of : Layout → List SectionLayout
sections_of l = l.text ∷ l.data_section ∷ l.bss ∷ []

-- The regions in the order of the image.
unfoldable pub ordered_regions : Layout → Region × Region
ordered_regions l = if ltb l.ram.origin l.flash.origin then (l.ram, l.flash) else (l.flash, l.ram)

-- One round of the loop of `flatBinarySize`: a region without sections has no output.
unfoldable pub collected_size : Region → List SectionLayout → Result ℕ
unfolding region_output_size
collected_size region [] = ok 0
collected_size region (s ∷ rest) = region_output_size region 0 (s ∷ rest)

unfoldable pub region_size : Layout → Region → Result ℕ
region_size l region = collected_size region (collect_sections_for_region region (sections_of l))

-- The sizes of the two ordered regions. The image's size is their sum.
unfoldable pub flat_binary_size : Layout → Result (ℕ × ℕ)
flat_binary_size l = do
  first ← region_size l (ordered_regions l).0
  second ← region_size l (ordered_regions l).1
  ok (first, second)

-- `forge.MoveBytes(buffer[at:], data)`: as many bytes as fit are copied.
unfoldable pub move_bytes : List ℕ → ℕ → List ℕ → List ℕ
move_bytes buffer zero [] = buffer
move_bytes [] at bytes = []
move_bytes (b ∷ buffer) (suc at) bytes = b ∷ move_bytes buffer at bytes
move_bytes (b ∷ buffer) zero (x ∷ bytes) = x ∷ move_bytes buffer zero bytes

-- `writeRegionOutput` from `offset` on. The offset is a uint32.
unfoldable pub write_region_output : Region → ℕ → List SectionLayout → List ℕ → List ℕ
write_region_output region offset [] buffer = buffer
write_region_output region offset (s ∷ rest) buffer =
    let relative = (s.origin + 2 ^ 32 - region.origin) % 2 ^ 32 in
    let at = if ltb offset relative then relative else offset in
    let count = length (bytes_of s) in
    let behind = (at + count + (s.length + 2 ^ 32 - count) % 2 ^ 32) % 2 ^ 32 in
    let written = write_region_output region behind rest (move_bytes buffer at (bytes_of s)) in
    let skipped = write_region_output region ((at + s.length) % 2 ^ 32) rest buffer in
    if ltb 0 count then written else skipped

unfoldable pub region_image : Layout → Region → ℕ → List ℕ
region_image l region zero = []
region_image l region (suc size) =
    write_region_output region 0 (collect_sections_for_region region (sections_of l))
      (replicate (suc size) 0)

-- `EmitFlatBinary`: the two regions' parts of the buffer do not overlap, so they are written apart.
unfoldable pub emit_flat_binary : Layout → Result (List ℕ)
emit_flat_binary l = do
  sizes ← flat_binary_size l
  ok (region_image l (ordered_regions l).0 sizes.0 ++ region_image l (ordered_regions l).1 sizes.1)
