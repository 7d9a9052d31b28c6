-- ===== src/Assembler/Runs.antt =====
-- Runs of the assembler on concrete texts, and its theorems at concrete inputs.
mod Objects
use forge_zero.Prelude.{
  little_endian, ℕ, ◌<◌, ◌≡◌, ◌≢◌, refl, List, [], ◌∷◌, ◌++◌, true, none, some, arith, length,
  codes, inl, inr,
}
use forge_zero.Assembler.Text.{
  good, panic, split_args, split_from, trim_space, trim_start, trim_end, parse_number, digits_value,
  digit_value, number_base,
}
use forge_zero.Assembler.Text.Number.{fitting, unbounded, number_parts, parse_number_exact}
use forge_zero.Assembler.Memory.{
  Memory, empty_memory, memory_parts, behind_part, signed_part, skip_blanks, until, add_part,
  parse_register, register_named, find_register, numbered_register,
}
use forge_zero.Assembler.Operand.{
  reg, imm, mem, parse_immediate, parse_operand, parse_trimmed, parse_other, parse_memory,
}
use forge_zero.Assembler.Operand.Parts.{parse_operand_panics}
use forge_zero.Assembler.Encode.{
  emit_arith, with_operands, arith_operands, encode_mod_rm, write_mem_operand,
}
use forge_zero.Assembler.Dispatch.{assemble}
use forge_zero.Assembler.Dispatch.Names.{assemble_immediate}
use forge_zero.Assembler.Directives.{
  emit_words, emit_bytes, put_items, word_item, byte_item, parse_string,
}
use forge_zero.Assembler.Encode.Address.{
  read_address, read_address-write_mem_operand, write_mem_operand_unreadable,
  write_mem_operand_scaled,
}

sub_runs : emit_arith 0x28 0x81 (codes " RAX, rbx") ≡ good (0x48 ∷ 0x28 ∷ 0xD8 ∷ [])
unfolding emit_arith arith_operands encode_mod_rm split_args trim_space parse_operand with_operands
    split_from trim_end trim_start parse_trimmed parse_register register_named find_register
sub_runs = refl

abbrev memory_text : List ℕ
memory_text = codes "[rbx+rcx*4-8]"

abbrev scaled_memory : Memory
scaled_memory = record { base = 3; index = 1; scale = 4; disp = 18446744073709551608 }

memory_runs : parse_operand memory_text ≡ good (mem scaled_memory)
unfolding parse_operand trim_space trim_start trim_end parse_trimmed parse_register register_named
    find_register parse_other parse_memory memory_parts signed_part behind_part skip_blanks until
    add_part parse_number number_base digits_value digit_value numbered_register
memory_runs = refl

register_runs : parse_operand (codes "rax") ≡ good (reg 0)
unfolding parse_operand trim_space trim_start trim_end parse_trimmed parse_register register_named
    find_register
register_runs = refl

parse_number_exact_example :
    parse_number (b'0' ∷ codes "x1F")
    ≡ fitting
        (unbounded (number_parts (b'0' ∷ codes "x1F")).0 0 (number_parts (b'0' ∷ codes "x1F")).1)
parse_number_exact_example = parse_number_exact b'0' (codes "x1F")

abbrev quoted : List ℕ
quoted = codes "a, 'b,c' ,\"d"

abbrev long_label : List ℕ
long_label = codes " a_rather_long_label"

long_label_length : 16 < length (trim_space long_label)
unfolding trim_space trim_start trim_end
long_label_length = omega arith

abbrev load_text : List ℕ
load_text = codes "rax,[rbx+rcx*4-8]"

abbrev store_text : List ℕ
store_text = codes "[rbx+rcx*4-8],rax"

load_args : split_args (trim_space load_text) ≡ codes "rax" ∷ memory_text ∷ []
unfolding split_args split_from trim_space trim_start trim_end
load_args = refl

store_args : split_args (trim_space store_text) ≡ memory_text ∷ codes "rax" ∷ []
unfolding split_args split_from trim_space trim_start trim_end
store_args = refl

abbrev plain_memory : Memory
plain_memory = record { base = 5; index = 255; scale = 1; disp = 18446744073709551608 }

read_address-write_mem_operand_example :
    read_address (write_mem_operand plain_memory 2)
    ≡ some (record { base = some 5; index = none; disp = 18446744073709551608 })
read_address-write_mem_operand_example =
    read_address-write_mem_operand plain_memory 2 refl (omega arith) (omega arith)
      (λ e. ground arith) (inr (λ e. ground arith)) (inr (omega arith, omega arith))

abbrev stack_memory : Memory
stack_memory = record { base = 4; index = 255; scale = 1; disp = 8 }

abbrev cmp_text : List ℕ
cmp_text = codes "[rbx+300], 7"

abbrev immediate_text : List ℕ
immediate_text = codes "rax,7"

immediate_args : split_args (trim_space immediate_text) ≡ codes "rax" ∷ codes "7" ∷ []
unfolding split_args split_from trim_space trim_start trim_end
immediate_args = refl

immediate_runs : parse_operand (codes "7") ≡ good (imm 7)
unfolding parse_operand trim_space trim_start trim_end parse_trimmed parse_register register_named
    find_register numbered_register parse_other parse_immediate parse_number number_base
    digits_value digit_value
immediate_runs = refl

assemble_immediate_example :
    (assemble (codes "sub") immediate_text ≡ assemble (codes "add") immediate_text)
    × (assemble (codes "and") immediate_text ≡ assemble (codes "add") immediate_text)
    × (assemble (codes "or") immediate_text ≡ assemble (codes "add") immediate_text)
    × (assemble (codes "xor") immediate_text ≡ assemble (codes "add") immediate_text)
    × (assemble (codes "adc") immediate_text ≡ assemble (codes "add") immediate_text)
    × (assemble (codes "sbb") immediate_text ≡ assemble (codes "add") immediate_text)
assemble_immediate_example =
    assemble_immediate 7 (codes "rax") (codes "7") immediate_text immediate_args immediate_runs

abbrev word_text : List ℕ
word_text = codes "1, ,0x102"

words_run : emit_words 2 word_text ≡ (1 ∷ 0 ∷ 2 ∷ 1 ∷ [], true)
unfolding emit_words put_items word_item split_args split_from trim_space trim_start trim_end
    parse_number number_base digits_value digit_value little_endian
words_run = refl

-- A text in quotes keeps its comma.
bytes_run : emit_bytes (codes "'a,b',7") ≡ (codes "a,b" ++ 7 ∷ [], true)
unfolding emit_bytes put_items byte_item parse_string split_args split_from trim_space trim_start
    trim_end parse_number number_base digits_value digit_value little_endian
bytes_run = refl

abbrev quoted_text : List ℕ
quoted_text = codes "\"a,b\", 'c', 1"
