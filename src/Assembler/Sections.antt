-- ===== src/Assembler/Sections.antt =====
-- The directives on the sections, in internal/assembler/emitter.go and bytesutil.go.
pub mod Valid
use Prim.Native.Nat.{bit_and}
use forge_zero.Prelude.{
  ℕ, ◌+◌, ◌-◌, ◌*◌, ◌%◌, ◌^◌, List, [], ◌∷◌, Bool, ◌||◌, Option, none, some, codes, bytes_eq,
  length, ◌==◌, if◌then◌else◌, replicate,
}
use forge_zero.Assembler.Text.{Answer, good, fault, trim_space, parse_number}
use forge_zero.Assembler.Dispatch.{read_token}
use forge_zero.Assembler.State.{Place, in_text, in_data, in_bss, Parser, append_bytes}

abbrev pub go_to : Place → Parser → Answer Parser
go_to place p = good (record p { current = place })

unfoldable pub switch_section : List ℕ → Parser → Answer Parser
switch_section name p =
    if bytes_eq name (codes ".text") || bytes_eq name (codes "text")
    then go_to in_text p
    else if bytes_eq name (codes ".data") || bytes_eq name (codes "data")
    then go_to in_data p
    else if bytes_eq name (codes ".bss") || bytes_eq name (codes "bss")
    then go_to in_bss p
    else fault

-- The bytes of db, dw, dd and dq.
abbrev pub add_items : List ℕ × Bool → Parser → Answer Parser
add_items (bytes, done) p = if done then good (append_bytes bytes p) else fault

-- Bytes reserved in the current section: zeros, or the size of .bss.
unfoldable pub reserve_count : ℕ → Parser → Parser
reserve_count count p = elim p.current [
  | in_bss ↦ record p { bss_size = (p.bss_size + count) % 2 ^ 64 }
  | in_text ↦ append_bytes (replicate count 0) p
  | in_data ↦ append_bytes (replicate count 0) p
]

unfoldable pub reserve : ℕ → Parser → List ℕ → Answer Parser
reserve width p rest = elim (parse_number (read_token rest).0) [
  | none ↦ fault
  | some v ↦ good (reserve_count (v * width % 2 ^ 64) p)
]

-- `alignValue`, on uint64 values. Go's `x &^ m` is x less the bits that x and m share.
unfoldable pub align_value : ℕ → ℕ → ℕ
align_value value align =
    let sum = (value + (align - 1)) % 2 ^ 64 in
    if align == 0 then value else sum - bit_and sum (align - 1)

unfoldable pub align_to : ℕ → Parser → Parser
align_to v p = elim p.current [
  | in_bss ↦ record p { bss_size = align_value p.bss_size v }
  | in_text ↦
      append_bytes (replicate ((align_value (length p.text) v + 2 ^ 64 - length p.text) % 2 ^ 64) 0)
        p
  | in_data ↦
      append_bytes
        (replicate ((align_value (length p.data_bytes) v + 2 ^ 64 - length p.data_bytes) % 2 ^ 64)
          0)
        p
]

unfoldable pub align_section : Parser → List ℕ → Answer Parser
align_section p rest = elim (parse_number (trim_space (read_token rest).0)) [
  | none ↦ fault
  | some v ↦ if v == 0 then good p else good (align_to v p)
]
