-- ===== src/Linker/Layout/Emit.antt =====
-- `EmitFlatBinary` as a whole.
use forge_zero.Prelude.{
  ℕ, zero, suc, ◌+◌, ◌-◌, ◌≤◌, ◌≡◌, refl, List, [], ◌∷◌, ◌++◌, arith, length, All, replicate,
  length-replicate, length-append, sym, ◌∙◌,
}
use forge_zero.Linker.Layout.{
  Region, SectionLayout, Layout, ok, region_size, region_image, sections_of,
  collect_sections_for_region, region_output_size, collected_size, emit_flat_binary,
  flat_binary_size, ordered_regions,
}
use forge_zero.Linker.Layout.Naked.{IsRegion}
use forge_zero.Linker.Layout.Packing.{
  IsSection, Packed, Packed-le, region_output_size-Packed, region_output_size_bound,
}
use forge_zero.Linker.Layout.Image.{
  Holds, HasRoom, Writable, write_region_output-Holds, length-write_region_output,
}
use forge_zero.Linker.Layout.Order.{All-collect}

-- A size of 0 leaves no room for a byte.
nothing_to_hold :
    (region : Region) (offset : ℕ) (sections : List SectionLayout)
    → Packed region offset sections 0
    → All HasRoom sections
    → All (Holds region []) sections
nothing_to_hold region offset [] p m = tt
nothing_to_hold region offset (s ∷ rest) (low, high, p) (m, ms) =
    let next : ℕ = s.origin + s.length - region.origin in
    let ends : next ≤ 0 = Packed-le region next 0 rest p in
    (λ i h. absurd (omega arith), nothing_to_hold region next rest p ms)

collected_size_lem :
    (region : Region) (c : List SectionLayout)
    → collected_size region c ≡ region_output_size region 0 c
collected_size_lem region [] = unfold collected_size region_output_size in refl
collected_size_lem region (s ∷ rest) = unfold collected_size in refl

-- The size of a region that is accepted, as a fact about its packed sections.
region_size-Packed :
    (l : Layout) (region : Region) (size : ℕ)
    → IsRegion region
    → All IsSection (sections_of l)
    → region_size l region ≡ ok size
    → Packed region 0 (collect_sections_for_region region (sections_of l)) size
unfolding region_size
region_size-Packed l region size r u h =
    (region_output_size-Packed region 0 size (collect_sections_for_region region (sections_of l)) r
        (All-collect IsSection region (sections_of l) u)).0
      (sym (collected_size_lem region (collect_sections_for_region region (sections_of l))) ∙ h)

-- If a region is accepted with a size, then its part of the image has that size, which is not more
-- than the region's, and every section that starts in the region has its bytes at its offset there.
pub region_image-Holds :
    (l : Layout) (region : Region) (size : ℕ)
    → IsRegion region
    → All IsSection (sections_of l)
    → All HasRoom (sections_of l)
    → region_size l region ≡ ok size
    → (length (region_image l region size) ≡ size)
      × (size ≤ region.length)
      × All
          (Holds region (region_image l region size))
          (collect_sections_for_region region (sections_of l))
region_image-Holds l region zero r u m h =
    let p : Packed region 0 (collect_sections_for_region region (sections_of l)) 0 =
      region_size-Packed l region 0 r u h in
    unfold region_image in
    (refl, omega arith, nothing_to_hold region 0 _ p (All-collect HasRoom region (sections_of l) m))
region_image-Holds l region (suc size) r u m h =
    let c : List SectionLayout = collect_sections_for_region region (sections_of l) in
    let p : Packed region 0 c (suc size) = region_size-Packed l region (suc size) r u h in
    let w : Writable region 0 c (suc size) = (
      r,
      All-collect IsSection region (sections_of l) u,
      All-collect HasRoom region (sections_of l) m,
      p,
    ) in
    unfold region_image in
    (
      length-write_region_output region 0 (suc size) c (replicate (suc size) 0) w
          ∙ length-replicate (suc size) 0,
      region_output_size_bound region (suc size) c 0 (omega arith) p,
      write_region_output-Holds region 0 (suc size) c (replicate (suc size) 0) w
          (omega (arith, length-replicate {A = ℕ} (suc size) 0)),
    )

-- An image that is emitted is the two regions' parts, the region of the lower origin first: each
-- part is as large as the region's accepted size.
pub emit_flat_binary_parts :
    (l : Layout) (image : List ℕ)
    → emit_flat_binary l ≡ ok image
    → (first second : ℕ) × (region_size l (ordered_regions l).0 ≡ ok first)
      × (region_size l (ordered_regions l).1 ≡ ok second)
      × (image
          ≡ region_image l (ordered_regions l).0 first
            ++ region_image l (ordered_regions l).1 second)
unfolding emit_flat_binary flat_binary_size
emit_flat_binary_parts l image h = ground arith

-- An emitted image is no larger than the two regions together.
pub emit_flat_binary_bound :
    (l : Layout) (image : List ℕ)
    → IsRegion l.flash
    → IsRegion l.ram
    → All IsSection (sections_of l)
    → All HasRoom (sections_of l)
    → emit_flat_binary l ≡ ok image
    → length image ≤ l.flash.length + l.ram.length
emit_flat_binary_bound l image f r u m h =
    let (first, second, e1, e2, e) = emit_flat_binary_parts l image h in
    let a =
      region_image-Holds l (ordered_regions l).0 first (unfold ordered_regions in ground arith) u m
        e1 in
    let b =
      region_image-Holds l (ordered_regions l).1 second (unfold ordered_regions in ground arith) u m
        e2 in
    let both : (ordered_regions l).0.length + (ordered_regions l).1.length
        ≡ l.flash.length + l.ram.length =
      unfold ordered_regions in ground arith in
    rw e (rw length-append (omega arith))
