-- ===== src/Linker/Layout/Naked.antt =====
-- What `NewNakedMemoryLayout` accepts, and where it puts the three sections.
use forge_zero.Prelude.{
  ℕ, ◌+◌, ◌-◌, ◌*◌, ◌/◌, ◌%◌, ◌^◌, ◌≤◌, ◌<◌, ◌≡◌, refl, List, Option, none, arith, ◌⊎◌,
}
use forge_zero.Linker.Layout.{
  Region, Layout, ok, size_of, align4, place, region_end, layout, new_naked_memory_layout,
}

-- The least multiple of 4 that is not below `n`.
abbrev pub padded : ℕ → ℕ
padded n = (n + 3) / 4 * 4

abbrev pub IsU32 : ℕ → Type 0
IsU32 n = n < 2 ^ 32

-- The fields of a region are uint32 values.
abbrev pub IsRegion : Region → Type 0
IsRegion r = IsU32 r.origin × IsU32 r.length

-- `Align4` gives the least multiple of 4 at or above an address, unless that is past 2 ^ 32.
pub align4_least :
    (addr : ℕ)
    → addr ≤ 2 ^ 32 - 4
    → (align4 addr % 4 ≡ 0) × (addr ≤ align4 addr) × (align4 addr < addr + 4)
unfolding align4
align4_least addr h = omega arith

-- A section of `len` bytes behind `base` fits below `limit`, padded.
abbrev pub Fits : ℕ → ℕ → ℕ → Type 0
Fits base len limit =
    (padded base < 2 ^ 32)
    × (padded len < 2 ^ 32)
    × ((len ≡ 0) ⊎ (padded base + padded len ≤ limit))

-- Where a section is placed, and that its place fits.
place_ok :
    (base len limit : ℕ) {o s : ℕ}
    → base < 2 ^ 33
    → len < 2 ^ 63
    → place base len limit ≡ ok (o, s)
    → (o ≡ padded base) × (s ≡ padded len) × Fits base len limit
unfolding place
place_ok base len limit hb hl h = ground arith

place-Fits :
    (base len limit : ℕ) → Fits base len limit → place base len limit ≡ ok (padded base, padded len)
unfolding place
place-Fits base len limit h = ground arith

-- The sections stand where the linker script of a bare image would put them.
pub record Naked (flash ram : Region) (text data_bytes : Option (List ℕ)) (bss_size : ℕ)
    (l : Layout) : Type 0 where
  pub regions : (l.flash ≡ flash) × (l.ram ≡ ram)
  pub contents : (l.text.bytes ≡ text) × (l.data_section.bytes ≡ data_bytes) × (l.bss.bytes ≡ none)
  pub text_place : (l.text.origin ≡ flash.origin) × (l.text.length ≡ padded (size_of text))
  pub data_place :
      (l.data_section.origin ≡ ram.origin) × (l.data_section.length ≡ padded (size_of data_bytes))
  pub bss_place :
      (l.bss.origin ≡ ram.origin + padded (size_of data_bytes)) × (l.bss.length ≡ padded bss_size)

-- What the sizes and the regions have to satisfy.
abbrev pub Accepts : Region → Region → ℕ → ℕ → ℕ → Type 0
Accepts flash ram text_size data_size bss_size =
    (flash.origin % 4 ≡ 0)
    × (ram.origin % 4 ≡ 0)
    × Fits flash.origin text_size (flash.origin + flash.length)
    × Fits ram.origin data_size (ram.origin + ram.length)
    × Fits (ram.origin + padded data_size) bss_size (ram.origin + ram.length)

module _ (flash ram : Region) (text data_bytes : Option (List ℕ)) (bss_size : ℕ)
    (flash_region : IsRegion flash) (ram_region : IsRegion ram) (text_size : size_of text < 2 ^ 63)
    (data_size : size_of data_bytes < 2 ^ 63) (bss_u32 : IsU32 bss_size) where
  -- The three placements behind a layout that is made.
  parts :
      (l : Layout)
      → new_naked_memory_layout flash ram text data_bytes bss_size ≡ ok l
      → (flash.origin % 4 ≡ 0)
        × (ram.origin % 4 ≡ 0)
        × (t d b : ℕ × ℕ) × (place flash.origin (size_of text) (region_end flash) ≡ ok t)
        × (place ram.origin (size_of data_bytes) (region_end ram) ≡ ok d)
        × (place ((d.0 + d.1) % 2 ^ 64) bss_size (region_end ram) ≡ ok b)
        × (l ≡ layout flash ram text data_bytes t d b)
  unfolding new_naked_memory_layout
  parts l h = ground arith

  -- If a layout is made, then the addresses are aligned and all fits, and each section stands in
  -- its place: code at the start of the flash region, data at the start of the ram region, and the
  -- zeroed section directly behind the data, all padded to multiples of 4.
  pub new_naked_memory_layout_sound :
      (l : Layout)
      → new_naked_memory_layout flash ram text data_bytes bss_size ≡ ok l
      → Accepts flash ram (size_of text) (size_of data_bytes) bss_size
        × Naked flash ram text data_bytes bss_size l
  new_naked_memory_layout_sound l h =
      let (flash_aligned, ram_aligned, t, d, b, et, ed, eb, el) = parts l h in
      let (t_origin, t_size, t_fits) =
        place_ok flash.origin (size_of text) (region_end flash) {o = t.0} {s = t.1} (omega arith)
          text_size et in
      let (d_origin, d_size, d_fits) =
        place_ok ram.origin (size_of data_bytes) (region_end ram) {o = d.0} {s = d.1} (omega arith)
          data_size ed in
      let behind : (d.0 + d.1) % 2 ^ 64 ≡ ram.origin + padded (size_of data_bytes) = omega arith in
      let (b_origin, b_size, b_fits) =
        place_ok ((d.0 + d.1) % 2 ^ 64) bss_size (region_end ram) {o = b.0} {s = b.1} (omega arith)
          (omega arith) eb in
      rw el (
        (flash_aligned, ram_aligned, ground arith, ground arith, ground arith),
        record {
          regions = (refl, refl);
          contents = (refl, refl, refl);
          text_place = (omega arith, omega arith);
          data_place = (omega arith, omega arith);
          bss_place = (omega arith, omega arith);
        },
      )

  -- If the addresses are aligned and all fits, then a layout is made.
  pub new_naked_memory_layout_complete :
      Accepts flash ram (size_of text) (size_of data_bytes) bss_size
      → (l : Layout) × (new_naked_memory_layout flash ram text data_bytes bss_size ≡ ok l)
  unfolding new_naked_memory_layout
  new_naked_memory_layout_complete h = (
    layout flash ram text data_bytes (padded flash.origin, padded (size_of text))
        (padded ram.origin, padded (size_of data_bytes))
        (padded (ram.origin + padded (size_of data_bytes)), padded bss_size),
    ground (
      arith,
      place-Fits flash.origin (size_of text) (region_end flash),
      place-Fits ram.origin (size_of data_bytes) (region_end ram),
      place-Fits ((ram.origin + padded (size_of data_bytes)) % 2 ^ 64) bss_size (region_end ram),
    ),
  )
