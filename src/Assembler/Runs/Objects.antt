-- ===== src/Assembler/Runs/Objects.antt =====
-- Runs of the assembler on a source, and the object file of it.
use forge_zero.Prelude.{
  ℕ, ◌+◌, ◌-◌, ◌^◌, ◌%◌, List, [], ◌∷◌, ◌++◌, ◌≡◌, ◌≢◌, refl, none, some, codes, replicate, length,
  get_or, arith, little_endian,
}
use forge_zero.Assembler.Text.{
  good, ◌>>=◌, align_out, trim_space, trim_end, trim_start, split_args, split_from, parse_number,
  digits_value, digit_value, number_base,
}
use forge_zero.Assembler.Memory.{
  until, skip_blanks, parse_register, register_named, find_register, numbered_register,
}
use forge_zero.Assembler.Operand.{
  reg, label, parse_operand, parse_trimmed, parse_other, parse_immediate,
}
use forge_zero.Assembler.Encode.{emit_inc, with_operand, unary_operand, encode_mod_rm}
use forge_zero.Assembler.Dispatch.{read_token, assemble, find_instruction, instructions}
use forge_zero.Assembler.Directives.{emit_bytes, put_items, byte_item, parse_string}
use forge_zero.Assembler.Sections.{switch_section, reserve, reserve_count}
use forge_zero.Assembler.Jumps.{emit_mov, mov_operands, emit_call, emit_jump, emit_jcc, emit_jmp}
use forge_zero.Assembler.State.{
  in_bss, Symbol, Parser, new_parser, append_bytes, find_symbol, redefine, update_symbol,
  add_symbol, define_label, define_global, emit_reference,
}
use forge_zero.Assembler.State.Table.{no_symbol}
use forge_zero.Assembler.State.Order.{define_label-define_global}
use forge_zero.Assembler.State.Fits.{Valid}
use forge_zero.Assembler.State.Site.{Refers, Answers}
use forge_zero.Assembler.Jumps.Sites.{AnswersRelative, label_instructions_refer}
use forge_zero.Assembler.Lines.{
  remove_comment, directives, find_statement, parse_statement, before_colon, parse_token,
  parse_trimmed_line, parse_line, read_lines, parse_lines, parse_source,
}
use forge_zero.Assembler.Lines.Enough.{parse_source-ne-unfuelled}
use forge_zero.Assembler.Lines.Valid.{parse_source-Valid}
use forge_zero.Assembler.Target.{Profile, profile, self_target_profile, contains_fold, starts_fold}
use forge_zero.Assembler.Tables.{
  match_bytes, offset_from, offset_of_name, name_offsets, names_bytes, strtab_bytes, select,
  symbol64, entries, ordered_symbols, symtab_bytes, symbol_local_count, number_symbols, map_idx,
  rela_bytes,
}
use forge_zero.Assembler.Object.{
  align_out_offset, write_at, section64, sections, header64, section_list, append_aligned, body,
  emit64, emit_source_object, emit,
}
use forge_zero.Assembler.Object.Parts.{rela64}
use forge_zero.Assembler.Object.Read.{IsSmall, contents, section_at}
use forge_zero.Assembler.Object.Entries.{symbol_at, rela_at, Describes, symbol_at-Describes}
use forge_zero.Assembler.Object.Relocations.{no_reloc, text_relocs, Relocates, rela_at-Relocates}
use forge_zero.Assembler.Object.Source.{emit_source_object_reads}

abbrev line : List ℕ → List ℕ → List ℕ
line text rest = text ++ b'\n' ∷ rest

-- A label, two references, a global symbol, data and a reserved block.
abbrev source : List ℕ
source = line (codes "global start ; x") (
    line (codes "start: mov rax, msg") (
      line (codes "call puts") (
        line (codes "lock inc rax") (
          line (codes "section .data")
            (line (codes "msg: db 'hi', 0") (line (codes ".bss") (codes "buf: resw 3")))))))

abbrev symbol : List ℕ → ℕ → ℕ → Symbol
symbol name shndx bind = record { name = name; value = 0; shndx = shndx; bind = bind }

abbrev state : Parser
state = record {
  text = 0x48 ∷ 0xB8 ∷ (replicate 8 0 ++ 0xE8 ∷ (replicate 4 0 ++ 0xF0 ∷ 0x48 ∷ 0xFF ∷ 0xC0 ∷ []));
  data_bytes = codes "hi" ++ 0 ∷ [];
  bss_bytes = [];
  bss_size = 6;
  current = in_bss;
  symbols =
      symbol (codes "start") 1 1
      ∷ symbol (codes "msg") 2 0
      ∷ symbol (codes "puts") 0 0
      ∷ symbol (codes "buf") 3 0
      ∷ [];
  relocs =
      record { sec = 1; off = 2; sym = 1; typ = 1; addend = 0 }
      ∷ record { sec = 1; off = 11; sym = 2; typ = 2; addend = 2 ^ 64 - 4 }
      ∷ [];
}

source_parses : parse_source source ≡ some (good state)
unfolding parse_source parse_lines read_lines parse_line parse_trimmed_line trim_space trim_end
    trim_start remove_comment until before_colon parse_token read_token skip_blanks parse_statement
    find_statement directives define_global define_label add_symbol find_symbol update_symbol
    redefine emit_mov split_args split_from parse_operand parse_trimmed parse_register
    register_named find_register numbered_register parse_other parse_immediate parse_number
    digits_value digit_value number_base mov_operands emit_reference append_bytes emit_call assemble
    find_instruction instructions emit_inc with_operand unary_operand encode_mod_rm switch_section
    emit_bytes put_items byte_item parse_string reserve reserve_count little_endian
source_parses = refl

parse_source-Valid_example : Valid state
parse_source-Valid_example = parse_source-Valid source state source_parses

abbrev target : Profile
target = profile 2 16 62

target_found : self_target_profile (codes "X86_64-linux") ≡ target
unfolding self_target_profile contains_fold starts_fold
target_found = refl

state_length : length (emit64 target state) ≡ 880
unfolding emit64 write_at append_aligned align_out body rela_bytes little_endian symtab_bytes
    ordered_symbols entries select name_offsets symbol64 names_bytes header64 sections section64
    section_list offset_of_name offset_from match_bytes symbol_local_count map_idx number_symbols
    align_out_offset
state_length = refl

state-IsSmall : IsSmall target state
state-IsSmall = (omega arith, omega arith, omega arith, omega (arith, state_length))

parse_source-ne-unfuelled_example : parse_source source ≢ none
parse_source-ne-unfuelled_example = parse_source-ne-unfuelled source

define_label-define_global_example :
    (define_label (codes "f") new_parser >>= define_global (codes "f"))
    ≡ (define_global (codes "f") new_parser >>= define_label (codes "f"))
define_label-define_global_example = define_label-define_global (codes "f") new_parser

abbrev indented : List ℕ
indented = codes " f"

indented_name : trim_space indented ≡ codes "f"
unfolding trim_space trim_end trim_start
indented_name = refl

name_label : parse_operand (codes "f") ≡ good (label (codes "f"))
unfolding parse_operand parse_trimmed parse_register register_named find_register numbered_register
    parse_other parse_immediate parse_number trim_space trim_end trim_start digits_value number_base
    digit_value
name_label = refl

label_instructions_refer_example :
    AnswersRelative new_parser (codes "f") (0xE8 ∷ []) (emit_call new_parser indented)
    × AnswersRelative new_parser (codes "f") (0x0F ∷ 0x84 ∷ []) (emit_jump 0x84 new_parser indented)
    × AnswersRelative new_parser (codes "f") (0x0F ∷ 0x84 ∷ []) (emit_jcc 0x84 new_parser indented)
    × AnswersRelative new_parser (codes "f") (0xE9 ∷ []) (emit_jmp new_parser indented)
    × Answers new_parser
        (codes "f")
        (Refers new_parser (codes "f") (0x48 ∷ (0xB8 + 3) % 256 ∷ []) (replicate 8 0) 1 0)
        (mov_operands (reg 3) (label (codes "f")) new_parser)
label_instructions_refer_example =
    label_instructions_refer new_parser indented [] 102 0x84 3 indented_name name_label

state-Valid : Valid state
state-Valid = parse_source-Valid source state source_parses

symbol_at-Describes_example :
    Describes
      (contents (emit64 target state) 6)
      (symbol_at (emit64 target state) (get_or (map_idx state.symbols) 0 0))
      (get_or state.symbols 0 no_symbol)
symbol_at-Describes_example =
    symbol_at-Describes target state state-IsSmall (omega (arith, state_length)) state-Valid 0
      (omega arith) (ground arith)

rela_at-Relocates_example :
    Relocates
      (emit64 target state)
      (rela_at (emit64 target state) 1)
      state
      (get_or (text_relocs state.relocs) 1 no_reloc)
rela_at-Relocates_example =
    rela_at-Relocates target state 1 state-IsSmall (omega (arith, state_length)) state-Valid
      (omega arith) (ground arith)

source_emits : emit_source_object source target ≡ some (good (emit64 target state))
unfolding emit_source_object emit
source_emits = rw (source_parses, emit_source_object) refl

emit_source_object_reads_example :
    (p : Parser) × (parse_source source ≡ some (good p))
    × Valid p
    × (emit64 target p ≡ emit64 target state)
    × (contents (emit64 target state) 1 ≡ p.text)
    × (contents (emit64 target state) 2 ≡ p.data_bytes)
    × ((section_at (emit64 target state) 3).size ≡ p.bss_size)
    × (contents (emit64 target state) 6 ≡ strtab_bytes p.symbols)
    × (contents (emit64 target state) 7 ≡ rela64 p)
emit_source_object_reads_example =
    emit_source_object_reads source target (emit64 target state) refl (omega arith) source_emits
      (omega (arith, state_length))

-- In class 32 the headers are said to begin behind the place that is made for them.
offset_of_headers : align_out_offset 160 40 ≡ 192
unfolding align_out_offset
offset_of_headers = refl
