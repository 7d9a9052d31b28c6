-- ===== src/Linker/Layout/Packing.antt =====
-- When the sections of a region are accepted, and the size of the region's output.
use forge_zero.Prelude.{ℕ, ◌+◌, ◌-◌, ◌≤◌, ◌≡◌, ◌↔◌, List, [], ◌∷◌, arith, All}
use forge_zero.Linker.Layout.{Region, SectionLayout, ok, region_output_size}
use forge_zero.Linker.Layout.Naked.{IsU32, IsRegion}

-- The fields of a section are uint32 values.
abbrev pub IsSection : SectionLayout → Type 0
IsSection s = IsU32 s.origin × IsU32 s.length

-- From `offset` in the region on, each section starts where the last one ended or behind it, and
-- all end inside the region; the last ends at `size`.
abbrev pub Packed : Region → ℕ → List SectionLayout → ℕ → Type 0
Packed region offset [] size = offset ≡ size
Packed region offset (s ∷ rest) size =
    (region.origin + offset ≤ s.origin)
    × (s.origin + s.length ≤ region.origin + region.length)
    × Packed region (s.origin + s.length - region.origin) rest size

-- `regionOutputSize` answers a size exactly when the sections, in their order, do not overlap and
-- lie inside the region, and the size is where the last section ends.
pub region_output_size-Packed :
    (region : Region) (offset size : ℕ) (sections : List SectionLayout)
    → IsRegion region
    → All IsSection sections
    → (region_output_size region offset sections ≡ ok size) ↔ Packed region offset sections size
unfolding region_output_size
region_output_size-Packed region offset size [] r h = ground arith
region_output_size-Packed region offset size (s ∷ rest) r h =
    ground (
      arith,
      region_output_size-Packed region (s.origin + s.length - region.origin) size rest r h.1,
    )

pub Packed-le :
    (region : Region) (offset size : ℕ) (sections : List SectionLayout)
    → Packed region offset sections size
    → offset ≤ size
Packed-le region offset size [] p = omega arith
Packed-le region offset size (s ∷ rest) p =
    omega (arith, Packed-le region (s.origin + s.length - region.origin) size rest p.2)

-- The output of a region is not larger than the region.
pub region_output_size_bound :
    (region : Region) (size : ℕ) (sections : List SectionLayout) (offset : ℕ)
    → offset ≤ region.length
    → Packed region offset sections size
    → size ≤ region.length
region_output_size_bound region size [] offset h p = omega arith
region_output_size_bound region size (s ∷ rest) offset h p =
    region_output_size_bound region size rest (s.origin + s.length - region.origin) (omega arith)
      p.2
