-- ===== src/Assembler/Target.antt =====
-- The target of the native assembler: selfTargetProfile in internal/assembler/emitter.go and
-- containsFold in bytesutil.go.
use forge_zero.Prelude.{ℕ, List, [], ◌∷◌, Bool, true, false, ◌&&◌, ◌||◌, codes, ◌==◌, if◌then◌else◌}
use forge_zero.Assembler.Memory.{lower}

-- `targetEmitterProfile`, less the size of a pointer, which nothing reads.
pub record Profile : Type 0 where
  pub elf_class : ℕ
  pub align : ℕ
  pub e_machine : ℕ

unfoldable pub starts_fold : List ℕ → List ℕ → Bool
starts_fold s [] = true
starts_fold [] (c ∷ rest) = false
starts_fold (x ∷ xs) (c ∷ rest) = lower x == lower c && starts_fold xs rest

-- `containsFold`
unfoldable pub contains_fold : List ℕ → List ℕ → Bool
contains_fold s [] = false
contains_fold [] (c ∷ rest) = false
contains_fold (x ∷ xs) (c ∷ rest) = starts_fold (x ∷ xs) (c ∷ rest) || contains_fold xs (c ∷ rest)

abbrev pub profile : ℕ → ℕ → ℕ → Profile
profile elf_class align e_machine = record {
  elf_class = elf_class;
  align = align;
  e_machine = e_machine;
}

unfoldable pub self_target_profile : List ℕ → Profile
self_target_profile target =
    if contains_fold target (codes "x86_64")
    then profile 2 16 62
    else if contains_fold target (codes "aarch64")
    then profile 2 16 183
    else if contains_fold target (codes "riscv")
    then profile 2 4 243
    else if contains_fold target (codes "arm") || contains_fold target (codes "cortex-")
    then profile 1 4 40
    else if contains_fold target (codes "i386") || contains_fold target (codes "i686")
    then profile 1 4 3
    else profile 2 16 62
