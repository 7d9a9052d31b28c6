-- ===== src/Linker/Runs.antt =====
-- Runs of the image writer on a concrete layout, and its theorems at concrete inputs.
use forge_zero.Prelude.{ℕ, ◌+◌, ◌≤◌, ◌≡◌, ◌↔◌, refl, List, [], ◌∷◌, none, some, arith, length, All}
use forge_zero.Linker.Layout.{
  Region, SectionLayout, Layout, ok, new_naked_memory_layout, place, region_output_size,
  region_size, region_image, sections_of, collect_sections_for_region, select, emit_flat_binary,
  flat_binary_size, ordered_regions, exchange_sort, exchange, belongs, collected_size,
  write_region_output, move_bytes,
}
use forge_zero.Linker.Layout.Naked.{
  Accepts, Naked, new_naked_memory_layout_sound, new_naked_memory_layout_complete,
}
use forge_zero.Linker.Layout.Packing.{Packed, region_output_size-Packed}
use forge_zero.Linker.Layout.Image.{Holds}
use forge_zero.Linker.Layout.Emit.{region_image-Holds, emit_flat_binary_bound}

abbrev flash : Region
flash = record { name = "flash"; origin = 0; length = 16; permissions = 5 }

abbrev ram : Region
ram = record { name = "ram"; origin = 32; length = 16; permissions = 3 }

abbrev text_bytes : List ℕ
text_bytes = 1 ∷ 2 ∷ 3 ∷ []

abbrev made : Layout
made = record {
  flash = flash;
  ram = ram;
  text = record {
    name = ".text";
    origin = 0;
    length = 4;
    permissions = 5;
    bytes = some text_bytes;
  };
  data_section = record {
    name = ".data";
    origin = 32;
    length = 4;
    permissions = 3;
    bytes = some (9 ∷ []);
  };
  bss = record { name = ".bss"; origin = 36; length = 8; permissions = 3; bytes = none };
}

layout_made : new_naked_memory_layout flash ram (some text_bytes) (some (9 ∷ [])) 5 ≡ ok made
unfolding new_naked_memory_layout place
layout_made = refl

image_made :
    emit_flat_binary made ≡ ok (1 ∷ 2 ∷ 3 ∷ 0 ∷ 9 ∷ 0 ∷ 0 ∷ 0 ∷ 0 ∷ 0 ∷ 0 ∷ 0 ∷ 0 ∷ 0 ∷ 0 ∷ 0 ∷ [])
unfolding emit_flat_binary flat_binary_size region_size collected_size region_image ordered_regions
    collect_sections_for_region select exchange_sort exchange belongs write_region_output move_bytes
image_made = refl

new_naked_memory_layout_sound_example :
    Accepts flash ram 3 1 5 × Naked flash ram (some text_bytes) (some (9 ∷ [])) 5 made
new_naked_memory_layout_sound_example =
    new_naked_memory_layout_sound flash ram (some text_bytes) (some (9 ∷ [])) 5 (omega arith)
      (omega arith) (omega arith) (omega arith) (omega arith) made layout_made

new_naked_memory_layout_complete_example :
    (l : Layout) × (new_naked_memory_layout flash ram (some text_bytes) (some (9 ∷ [])) 5 ≡ ok l)
new_naked_memory_layout_complete_example =
    new_naked_memory_layout_complete flash ram (some text_bytes) (some (9 ∷ [])) 5 (omega arith)
      (omega arith) (omega arith) (omega arith) (omega arith)
      new_naked_memory_layout_sound_example.0

abbrev in_ram : List SectionLayout
in_ram = made.data_section ∷ made.bss ∷ []

region_output_size-Packed_example :
    (region_output_size ram 0 in_ram ≡ ok 12) ↔ Packed ram 0 in_ram 12
region_output_size-Packed_example =
    region_output_size-Packed ram 0 12 in_ram (omega arith) (omega arith)

size_made : region_size made flash ≡ ok 4
unfolding region_size collected_size collect_sections_for_region select exchange_sort exchange
    belongs
size_made = refl

region_image-Holds_example :
    (length (region_image made flash 4) ≡ 4)
    × (4 ≤ 16)
    × All
        (Holds flash (region_image made flash 4))
        (collect_sections_for_region flash (sections_of made))
region_image-Holds_example =
    region_image-Holds made flash 4 (omega arith) (omega arith) (omega arith) size_made

emit_flat_binary_bound_example : 16 ≤ 16 + 16
emit_flat_binary_bound_example =
    emit_flat_binary_bound made _ (omega arith) (omega arith) (omega arith) (omega arith) image_made
