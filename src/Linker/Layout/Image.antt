-- ===== src/Linker/Layout/Image.antt =====
-- What is written: every section's bytes stand at its offset from the region's origin.
use forge_zero.Prelude.{
  ℕ, zero, suc, ◌+◌, ◌-◌, ◌%◌, ◌^◌, ◌≤◌, ◌<◌, ◌≡◌, refl, List, [], ◌∷◌, arith, length, get_or, All,
  ap, sym, subst, ◌∙◌, ltb, Bool-cases, inl, inr, if◌then◌else◌,
}
use forge_zero.Linker.Layout.{Region, SectionLayout, bytes_of, move_bytes, write_region_output}
use forge_zero.Linker.Layout.Naked.{IsRegion}
use forge_zero.Linker.Layout.Packing.{IsSection, Packed, Packed-le}

pub length-move_bytes :
    (buffer : List ℕ) (at : ℕ) (bytes : List ℕ)
    → length (move_bytes buffer at bytes) ≡ length buffer
unfolding move_bytes
length-move_bytes [] zero [] = refl
length-move_bytes (b ∷ buffer) zero [] = refl
length-move_bytes [] zero (x ∷ bytes) = refl
length-move_bytes [] (suc at) bytes = refl
length-move_bytes (b ∷ buffer) (suc at) bytes = ap suc (length-move_bytes buffer at bytes)
length-move_bytes (b ∷ buffer) zero (x ∷ bytes) = ap suc (length-move_bytes buffer zero bytes)

-- What stands in front of the target stays.
move_bytes_before :
    (buffer : List ℕ) (at : ℕ) (bytes : List ℕ) (i : ℕ)
    → i < at
    → get_or (move_bytes buffer at bytes) i 0 ≡ get_or buffer i 0
unfolding move_bytes
move_bytes_before buffer zero bytes i h = absurd (omega arith)
move_bytes_before [] (suc at) bytes i h = refl
move_bytes_before (b ∷ buffer) (suc at) bytes zero h = refl
move_bytes_before (b ∷ buffer) (suc at) bytes (suc i) h =
    move_bytes_before buffer at bytes i (omega arith)

-- The target holds the bytes, if they fit.
move_bytes_at :
    (buffer : List ℕ) (at : ℕ) (bytes : List ℕ) (i : ℕ)
    → at + length bytes ≤ length buffer
    → i < length bytes
    → get_or (move_bytes buffer at bytes) (at + i) 0 ≡ get_or bytes i 0
unfolding move_bytes
move_bytes_at buffer at [] i h k = absurd (omega arith)
move_bytes_at [] zero (x ∷ bytes) i h k = absurd (omega arith)
move_bytes_at (b ∷ buffer) zero (x ∷ bytes) zero h k = refl
move_bytes_at (b ∷ buffer) zero (x ∷ bytes) (suc i) h k =
    let e : zero + suc i ≡ suc (zero + i) = omega arith in
    rw e (move_bytes_at buffer zero bytes i (omega arith) (omega arith))
move_bytes_at [] (suc at) (x ∷ bytes) i h k = absurd (omega arith)
move_bytes_at (b ∷ buffer) (suc at) (x ∷ bytes) i h k =
    let e : suc at + i ≡ suc (at + i) = omega arith in
    rw e (move_bytes_at buffer at (x ∷ bytes) i (omega arith) k)

move_bytes_none : (buffer : List ℕ) (at : ℕ) → move_bytes buffer at [] ≡ buffer
unfolding move_bytes
move_bytes_none [] zero = refl
move_bytes_none (b ∷ buffer) zero = refl
move_bytes_none [] (suc at) = refl
move_bytes_none (b ∷ buffer) (suc at) = ap (λ r. b ∷ r) (move_bytes_none buffer at)

-- The bytes of `s` stand at its offset from the region's origin.
abbrev pub Holds : Region → List ℕ → SectionLayout → Type 0
Holds region image s =
    (i : ℕ)
    → i < length (bytes_of s)
    → get_or image (s.origin - region.origin + i) 0 ≡ get_or (bytes_of s) i 0

-- A section is at least as long as its bytes.
abbrev pub HasRoom : SectionLayout → Type 0
HasRoom s = length (bytes_of s) ≤ s.length

no_bytes : (bytes : List ℕ) → length bytes ≡ 0 → bytes ≡ []
no_bytes [] h = refl
no_bytes (x ∷ bytes) h = absurd (omega arith)

-- One round of the loop, on a section that is accepted.
write_round :
    (region : Region) (offset : ℕ) (s : SectionLayout) (rest : List SectionLayout) (buffer : List ℕ)
    → IsRegion region
    → IsSection s
    → HasRoom s
    → region.origin + offset ≤ s.origin
    → s.origin + s.length ≤ region.origin + region.length
    → write_region_output region offset (s ∷ rest) buffer
      ≡ write_region_output region
          (s.origin + s.length - region.origin)
          rest
          (move_bytes buffer (s.origin - region.origin) (bytes_of s))
unfolding write_region_output
write_round region offset s rest buffer r u room low high =
    let rel : ℕ = s.origin - region.origin in
    let start : ((s.origin + 2 ^ 32 - region.origin) % 2 ^ 32) ≡ rel = omega arith in
    let at : (if ltb offset rel then rel else offset) ≡ rel = ground arith in
    elim (Bool-cases (ltb 0 (length (bytes_of s)))) [
      | inl full ↦
          let next : (rel
                  + length (bytes_of s)
                  + (s.length + 2 ^ 32 - length (bytes_of s)) % 2 ^ 32)
                % 2 ^ 32
              ≡ s.origin + s.length - region.origin =
            omega arith in
          rw (full, start, at, next)
      | inr void ↦
          let next : (rel + s.length) % 2 ^ 32 ≡ s.origin + s.length - region.origin =
            omega arith in
          rw (void, start, at, next, no_bytes (bytes_of s) (ground arith), move_bytes_none)
    ]

-- The facts about a region and its sections that the loop relies on.
abbrev pub Writable : Region → ℕ → List SectionLayout → ℕ → Type 0
Writable region offset sections size =
    IsRegion region
    × All IsSection sections
    × All HasRoom sections
    × Packed region offset sections size

write_before :
    (region : Region) (offset size : ℕ) (sections : List SectionLayout) (buffer : List ℕ) (i : ℕ)
    → Writable region offset sections size
    → i < offset
    → get_or (write_region_output region offset sections buffer) i 0 ≡ get_or buffer i 0
write_before region offset size [] buffer i w h = unfold write_region_output in refl
write_before region offset size (s ∷ rest) buffer i (r, (u, us), (m, ms), (low, high, p)) h =
    rw (write_round region offset s rest buffer r u m low high) (
      write_before region (s.origin + s.length - region.origin) size rest _ i (r, us, ms, p)
        (omega arith)
      ∙ move_bytes_before buffer (s.origin - region.origin) (bytes_of s) i (omega arith))

pub length-write_region_output :
    (region : Region) (offset size : ℕ) (sections : List SectionLayout) (buffer : List ℕ)
    → Writable region offset sections size
    → length (write_region_output region offset sections buffer) ≡ length buffer
length-write_region_output region offset size [] buffer w = unfold write_region_output in refl
length-write_region_output region offset size (s ∷ rest) buffer
      (r, (u, us), (m, ms), (low, high, p)) =
    rw (write_round region offset s rest buffer r u m low high) (
      length-write_region_output region (s.origin + s.length - region.origin) size rest _
        (r, us, ms, p)
      ∙ length-move_bytes buffer (s.origin - region.origin) (bytes_of s))

-- If the sections of a region are packed and have room for their bytes, then in the buffer that is
-- as large as the region's output every section's bytes stand at its offset.
pub write_region_output-Holds :
    (region : Region) (offset size : ℕ) (sections : List SectionLayout) (buffer : List ℕ)
    → Writable region offset sections size
    → size ≤ length buffer
    → All (Holds region (write_region_output region offset sections buffer)) sections
write_region_output-Holds region offset size [] buffer w h = tt
write_region_output-Holds region offset size (s ∷ rest) buffer (r, (u, us), (m, ms), (low, high, p))
      h =
    let next : ℕ = s.origin + s.length - region.origin in
    let rel : ℕ = s.origin - region.origin in
    let buffer' : List ℕ = move_bytes buffer rel (bytes_of s) in
    let ends : next ≤ size = Packed-le region next size rest p in
    subst (λ image. All (Holds region image) (s ∷ rest))
      (sym (write_round region offset s rest buffer r u m low high))
      (
        λ i k.
            write_before region next size rest buffer' (rel + i) (r, us, ms, p) (omega arith)
            ∙ move_bytes_at buffer rel (bytes_of s) i (omega arith) k,
        write_region_output-Holds region next size rest buffer' (r, us, ms, p)
            (rw length-move_bytes h),
      )
