-- ===== src/Gloria/Link/Lands.antt =====
-- Where the jumps and calls of a linked program lead.
use forge_zero.Prelude.{
  ℕ, ◌+◌, ◌%◌, ◌^◌, ◌≤◌, ◌≡◌, ◌⊎◌, refl, ◌∙◌, List, [], ◌∷◌, arith, length, Option, none, some,
  Bool-cases, get_or, ◌<◌, inl, inr, ltb, All, codes, little_endian,
}
use forge_zero.Gloria.Compile.{Code}
use forge_zero.Gloria.Compile.Blocks.{patch, distance, Relocation}
use forge_zero.Gloria.Link.{
  Table, find_func, Program, Built, built, rejected, crashed, looping, unfuelled, patch_at, after,
  patch_call, patch_calls, patch_main, link,
}
use forge_zero.Gloria.Link.Patch.{
  get_or-patch_other, read32, read32-patch_same, read32-patch_other, distance_leads,
}

-- The displacement behind the byte at `from` leads to the target.
abbrev pub Leads : Code → ℕ → ℕ → Type 0
Leads code from target = (from + 5 + read32 code (from + 1)) % 2 ^ 32 ≡ target % 2 ^ 32

-- A name stands for a function in the table, and the jump leads there.
abbrev pub Resolved : Table → Code → ℕ → List ℕ → Type 0
Resolved table code from name =
    (target : ℕ) × (find_func name table ≡ some target) × Leads code from target

-- The opcode of a call stands where the relocation says that the instruction is.
abbrev pub IsCall : Code → Relocation → Type 0
IsCall code r = get_or code r.call_instruction_offset 0 ≡ 0xE8

-- A call stands there, and it leads to the function of that name.
abbrev pub ResolvedCall : Table → Code → Relocation → Type 0
ResolvedCall table code r =
    IsCall code r × Resolved table code r.call_instruction_offset r.target_func_name

-- A jump stands at the front, and it leads to the function `main`.
abbrev pub ResolvedMain : Table → Code → Type 0
ResolvedMain table code = (get_or code 0 0 ≡ 0xE9) × Resolved table code 0 (codes "main")

-- The five bytes of a call are apart from those at another place.
abbrev pub ApartFrom : ℕ → Relocation → Type 0
ApartFrom from r = (from + 5 ≤ r.call_instruction_offset) ⊎ (r.call_instruction_offset + 5 ≤ from)

abbrev pub Separate : List Relocation → Type 0
Separate [] = Unit
Separate (r ∷ rest) = All (ApartFrom r.call_instruction_offset) rest × Separate rest

-- One patch that is made.
patch_at_built :
    (out code : Code) (at value : ℕ)
    → patch_at out at value ≡ built code
    → (at + 4 ≤ length out) × (code ≡ patch out at (little_endian 4 value))
unfolding patch_at
patch_at_built out code at value h = elim (Bool-cases (ltb (length out) (at + 4))) [
  | inl e ↦ absurd (ground (arith, h, e))
  | inr e ↦ (ground (arith, e), ground (arith, h, e))
]

resolve :
    (table : Table) (name : List ℕ) (out code : Code) (from target : ℕ)
    → find_func name table ≡ some target
    → patch_at out (from + 1) (distance target (from + 5)) ≡ built code
    → Resolved table code from name
resolve table name out code from target e h =
    let (fits, c) = patch_at_built out code (from + 1) (distance target (from + 5)) h in
    let (small, leads) = distance_leads target (from + 5) in
    (
      target,
      e,
      rw (c, read32-patch_same out (from + 1) (distance target (from + 5)) fits small) leads,
    )

-- A patch leaves the bytes outside of it as they are.
byte_kept :
    (out code : Code) (at value j : ℕ)
    → patch_at out at value ≡ built code
    → (j < at) ⊎ (at + 4 ≤ j)
    → get_or code j 0 ≡ get_or out j 0
unfolding little_endian
byte_kept out code at value j h a =
    let (fits, c) = patch_at_built out code at value h in
    rw c (get_or-patch_other out at (little_endian 4 value) j a)

-- A patch elsewhere leaves a displacement as it is.
untouched :
    (out code : Code) (at value from : ℕ)
    → patch_at out at value ≡ built code
    → (from + 5 ≤ at) ⊎ (at + 4 ≤ from + 1)
    → read32 code (from + 1) ≡ read32 out (from + 1)
untouched out code at value from h a =
    let (fits, c) = patch_at_built out code at value h in
    rw c (read32-patch_other out at value (from + 1) (ground arith))

pub after_built {ℓ κ} :
    {A : Type ℓ} {B : Type κ} (m : Built A) (f : A → Built B) (b : B)
    → after m f ≡ built b
    → (a : A) × (m ≡ built a) × (f a ≡ built b)
after_built (built a) f b h = (a, refl, h)
after_built rejected f b h = absurd (cc)
after_built crashed f b h = absurd (cc)
after_built looping f b h = absurd (cc)
after_built unfuelled f b h = absurd (cc)

patch_call_built :
    (r : Relocation) (found : Option ℕ) (out code : Code)
    → patch_call r found out ≡ built code
    → (target : ℕ) × (found ≡ some target)
      × (patch_at out
            (r.call_instruction_offset + 1)
            (distance target (r.call_instruction_offset + 5))
          ≡ built code)
patch_call_built r none out code h = absurd (cc)
patch_call_built r (some target) out code h = (target, refl, h)

patch_main_built :
    (found : Option ℕ) (out code : Code)
    → patch_main found out ≡ built code
    → (target : ℕ) × (found ≡ some target) × (patch_at out 1 (distance target 5) ≡ built code)
patch_main_built none out code h = absurd (cc)
patch_main_built (some target) out code h = (target, refl, h)

-- Calls that are apart from a place leave the displacement there as it is.
calls_untouched :
    (table : Table) (relocs : List Relocation) (out code : Code) (from : ℕ)
    → patch_calls table relocs out ≡ built code
    → All (ApartFrom from) relocs
    → read32 code (from + 1) ≡ read32 out (from + 1)
unfolding patch_calls
calls_untouched table [] out code from h a = ground (arith, h)
calls_untouched table (r ∷ rest) out code from h (a, others) =
    let (out', first, more) = after_built _ (patch_calls table rest) code h in
    let (target, e, p) = patch_call_built r (find_func r.target_func_name table) out out' first in
    calls_untouched table rest out' code from more others
    ∙ untouched out out' (r.call_instruction_offset + 1) _ from p (ground (arith, a))

-- Calls that are apart from a place leave the byte there as it is.
calls_kept :
    (table : Table) (relocs : List Relocation) (out code : Code) (from : ℕ)
    → patch_calls table relocs out ≡ built code
    → All (ApartFrom from) relocs
    → get_or code from 0 ≡ get_or out from 0
unfolding patch_calls
calls_kept table [] out code from h a = ground (arith, h)
calls_kept table (r ∷ rest) out code from h (a, others) =
    let (out', first, more) = after_built _ (patch_calls table rest) code h in
    let (target, e, p) = patch_call_built r (find_func r.target_func_name table) out out' first in
    calls_kept table rest out' code from more others
    ∙ byte_kept out out' (r.call_instruction_offset + 1) _ from p (ground (arith, a))

-- The bytes of the opcodes stay when the displacements are written.
opcodes_kept :
    (table : Table) (relocs : List Relocation) (out code : Code) (opcode from : ℕ)
    → patch_calls table relocs out ≡ built code
    → All (ApartFrom from) relocs
    → get_or out from 0 ≡ opcode
    → get_or code from 0 ≡ opcode
opcodes_kept table relocs out code opcode from h a e = calls_kept table relocs out code from h a ∙ e

patch_at-IsCall :
    (out out' : Code) (r : Relocation) (value : ℕ) (relocs : List Relocation)
    → patch_at out (r.call_instruction_offset + 1) value ≡ built out'
    → All (ApartFrom r.call_instruction_offset) relocs
    → All (IsCall out) relocs
    → All (IsCall out') relocs
patch_at-IsCall out out' r value [] h a c = tt
patch_at-IsCall out out' r value (s ∷ rest) h (a, others) (c, calls) = (
  byte_kept out out' (r.call_instruction_offset + 1) value s.call_instruction_offset h
        (ground (arith, a))
      ∙ c,
  patch_at-IsCall out out' r value rest h others calls,
)

-- The same for the jump at the front.
main_kept :
    (out out' : Code) (value : ℕ) (relocs : List Relocation)
    → patch_at out 1 value ≡ built out'
    → All (ApartFrom 0) relocs
    → All (IsCall out) relocs
    → All (IsCall out') relocs
main_kept out out' value relocs h far calls =
    patch_at-IsCall out out' (record { call_instruction_offset = 0; target_func_name = [] }) value
      relocs h far calls

calls_resolved :
    (table : Table) (relocs : List Relocation) (out code : Code)
    → patch_calls table relocs out ≡ built code
    → Separate relocs
    → All (IsCall out) relocs
    → All (ResolvedCall table code) relocs
unfolding patch_calls
calls_resolved table [] out code h a c = tt
calls_resolved table (r ∷ rest) out code h (a, others) (c, calls) =
    let (out', first, more) = after_built _ (patch_calls table rest) code h in
    let (target, e, p) = patch_call_built r (find_func r.target_func_name table) out out' first in
    let (t, found, leads) =
      resolve table r.target_func_name out out' r.call_instruction_offset target e p in
    let same = calls_untouched table rest out' code r.call_instruction_offset more a in
    let opcode : IsCall out' r =
      byte_kept out out' (r.call_instruction_offset + 1) _ r.call_instruction_offset p
        (inl (omega arith))
      ∙ c in
    (
      (
        opcodes_kept table rest out' code 0xE8 r.call_instruction_offset more a opcode,
        (t, found, rw same leads),
      ),
      calls_resolved table rest out' code more others (patch_at-IsCall out out' r _ rest p a calls),
    )

-- If a program is linked that has the opcode of a jump at its front and that of a call wherever a
-- relocation says that a call is, and these calls do not overlap with each other nor with the jump,
-- then in the code that comes out the same opcodes stand there, there is a function main and the
-- jump leads to it, and each of those calls leads to the function that its relocation names.
pub link_lands :
    (p : Program) (code : Code)
    → link p ≡ built code
    → get_or p.out 0 0 ≡ 0xE9
    → All (IsCall p.out) p.relocations
    → All (ApartFrom 0) p.relocations
    → Separate p.relocations
    → ResolvedMain p.table code × All (ResolvedCall p.table code) p.relocations
unfolding link
link_lands p code h jump calls far apart =
    let (out, first, more) = after_built _ (patch_calls p.table p.relocations) code h in
    let (target, e, b) = patch_main_built (find_func (codes "main") p.table) p.out out first in
    let (t, found, leads) = resolve p.table (codes "main") p.out out 0 target e b in
    let opcode : get_or out 0 0 ≡ 0xE9 =
      byte_kept p.out out 1 (distance target 5) 0 b (inl (omega arith)) ∙ jump in
    (
      (
        opcodes_kept p.table p.relocations out code 0xE9 0 more far opcode,
        (t, found, rw (calls_untouched p.table p.relocations out code 0 more far) leads),
      ),
      calls_resolved p.table p.relocations out code more apart
          (main_kept p.out out (distance target 5) p.relocations b far calls),
    )
