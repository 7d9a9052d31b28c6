-- ===== src/Assembler/Lines.antt =====
-- The lines of a source, in internal/assembler/emitter.go: parseLine and the loop over the lines.
-- Errors carry no line number here. The fuel of parse_line is a unit for each byte of the line.
pub mod Enough
pub mod Valid
use forge_zero.Prelude.{
  ℕ, zero, suc, List, [], ◌∷◌, ◌++◌, ◌||◌, Option, none, some, String, codes, bytes_eq, length,
  ◌==◌, if◌then◌else◌,
}
use forge_zero.Assembler.Text.{Answer, good, fault, panic, ◌>>=◌, trim_space}
use forge_zero.Assembler.Memory.{until}
use forge_zero.Assembler.Directives.{emit_bytes, emit_words}
use forge_zero.Assembler.Dispatch.{read_token, assemble}
use forge_zero.Assembler.State.{
  in_text, in_data, in_bss, Parser, new_parser, append_bytes, define_label, define_global,
}
use forge_zero.Assembler.Sections.{go_to, switch_section, add_items, reserve, align_section}
use forge_zero.Assembler.Jumps.{emit_jmp, emit_jcc, emit_call, emit_jump, emit_mov}

-- The rest of a line is a comment from `;` or `#` on.
unfoldable pub remove_comment : List ℕ → List ℕ
remove_comment line = (until (λ c. c == b';' || c == b'#') line).0

-- The names that parseLine tests, less those in Dispatch and lock.
unfoldable pub directives : List (String × (Parser → List ℕ → Answer Parser))
directives =
    ("section", λ p rest. switch_section (read_token rest).0 p)
    ∷ (".text", λ p rest. go_to in_text p)
    ∷ ("text", λ p rest. go_to in_text p)
    ∷ (".data", λ p rest. go_to in_data p)
    ∷ ("data", λ p rest. go_to in_data p)
    ∷ (".bss", λ p rest. go_to in_bss p)
    ∷ ("bss", λ p rest. go_to in_bss p)
    ∷ ("global", λ p rest. define_global (read_token rest).0 p)
    ∷ ("db", λ p rest. add_items (emit_bytes rest) p)
    ∷ ("byte", λ p rest. add_items (emit_bytes rest) p)
    ∷ ("dw", λ p rest. add_items (emit_words 2 rest) p)
    ∷ ("word", λ p rest. add_items (emit_words 2 rest) p)
    ∷ ("dd", λ p rest. add_items (emit_words 4 rest) p)
    ∷ ("dword", λ p rest. add_items (emit_words 4 rest) p)
    ∷ ("dq", λ p rest. add_items (emit_words 8 rest) p)
    ∷ ("qword", λ p rest. add_items (emit_words 8 rest) p)
    ∷ ("resb", reserve 1)
    ∷ ("resw", reserve 2)
    ∷ ("resd", reserve 4)
    ∷ ("resq", reserve 8)
    ∷ ("align", align_section)
    ∷ ("bits", λ p rest. good p)
    ∷ ("org", λ p rest. good p)
    ∷ ("jmp", emit_jmp)
    ∷ ("je", emit_jcc 0x84)
    ∷ ("jne", emit_jcc 0x85)
    ∷ ("jl", emit_jcc 0x8C)
    ∷ ("jge", emit_jcc 0x8D)
    ∷ ("ja", emit_jcc 0x87)
    ∷ ("jb", emit_jcc 0x82)
    ∷ ("jbe", emit_jcc 0x86)
    ∷ ("jae", emit_jcc 0x83)
    ∷ ("jc", emit_jcc 0x82)
    ∷ ("jnc", emit_jcc 0x83)
    ∷ ("jz", emit_jcc 0x84)
    ∷ ("jnz", emit_jcc 0x85)
    ∷ ("jo", emit_jcc 0x80)
    ∷ ("jno", emit_jcc 0x81)
    ∷ ("js", emit_jcc 0x88)
    ∷ ("jns", emit_jcc 0x89)
    ∷ ("jp", emit_jcc 0x8A)
    ∷ ("jnp", emit_jcc 0x8B)
    ∷ ("mov", emit_mov)
    ∷ ("call", emit_call)
    ∷ ("jle", emit_jump 0x8E)
    ∷ ("jg", emit_jump 0x8F)
    ∷ []

unfoldable pub find_statement :
    List (String × (Parser → List ℕ → Answer Parser))
    → List ℕ
    → Parser
    → List ℕ
    → Option (Answer Parser)
find_statement [] name p rest = none
find_statement ((key, run) ∷ others) name p rest =
    let more = find_statement others name p rest in
    if bytes_eq name (codes key) then some (run p rest) else more

-- The prefix lock: its byte, and then the line without it. `again` is the call of parseLine.
abbrev pub lock_line :
    (Parser → List ℕ → Option (Answer Parser)) → Parser → List ℕ → Option (Answer Parser)
lock_line again p rest =
    again (append_bytes (0xF0 ∷ []) p) ((read_token rest).0 ++ (read_token rest).1)

-- An instruction of Dispatch, or a name that is none of the others.
abbrev pub add_instruction : Option (Answer (List ℕ)) → Parser → Option (Answer Parser)
add_instruction none p = none
add_instruction (some answer) p = some (answer >>= (λ bytes. good (append_bytes bytes p)))

unfoldable pub parse_statement :
    (Parser → List ℕ → Option (Answer Parser)) → Parser → List ℕ → List ℕ → Option (Answer Parser)
parse_statement again p name rest = elim (find_statement directives name p rest) [
  | some answer ↦ some answer
  | none ↦ elim (add_instruction (assemble name rest) p) [
    | some answer ↦ some answer
    | none ↦ if bytes_eq name (codes "lock") then lock_line again p rest else some fault
  ]
]

-- The bytes in front of a colon at the end, if there is one.
unfoldable pub before_colon : List ℕ → Option (List ℕ)
before_colon [] = none
before_colon (c ∷ []) = if c == b':' then some [] else none
before_colon (c ∷ d ∷ rest) = elim (before_colon (d ∷ rest)) [
  | none ↦ none
  | some front ↦ some (c ∷ front)
]

-- A label in front of the rest of a line.
abbrev pub after_label :
    (Parser → List ℕ → Option (Answer Parser)) → Answer Parser → List ℕ → Option (Answer Parser)
after_label again (good p) rest = again p rest
after_label again fault rest = some fault
after_label again panic rest = some panic

-- A line with a token in front.
unfoldable pub parse_token :
    (Parser → List ℕ → Option (Answer Parser)) → Parser → List ℕ → List ℕ → Option (Answer Parser)
parse_token again p token rest = elim (before_colon token) [
  | some name ↦ after_label again (define_label name p) rest
  | none ↦ parse_statement again p token rest
]

-- A line without its comment and the spaces around it.
unfoldable pub parse_trimmed_line :
    (Parser → List ℕ → Option (Answer Parser)) → Parser → List ℕ → Option (Answer Parser)
parse_trimmed_line again p [] = some (good p)
parse_trimmed_line again p (c ∷ rest) = elim (before_colon (c ∷ rest)) [
  | some name ↦ some (define_label (trim_space name) p)
  | none ↦ parse_token again p (read_token (c ∷ rest)).0 (read_token (c ∷ rest)).1
]

-- `parseLine`; none without fuel.
unfoldable pub parse_line : ℕ → Parser → List ℕ → Option (Answer Parser)
parse_line zero p line = none
parse_line (suc fuel) p line =
    parse_trimmed_line (parse_line fuel) p (trim_space (remove_comment line))

-- The lines that the calls of `readLine` read.
unfoldable pub read_lines : List ℕ → List (List ℕ)
read_lines [] = []
read_lines (c ∷ rest) = elim (read_lines rest) [
  | [] ↦ if c == b'\n' then [] ∷ [] else (c ∷ []) ∷ []
  | line ∷ others ↦ if c == b'\n' then [] ∷ line ∷ others else (c ∷ line) ∷ others
]

-- The loop over the lines.
unfoldable pub parse_lines : Parser → List (List ℕ) → Option (Answer Parser)
parse_lines p [] = some (good p)
parse_lines p (line ∷ others) = elim (parse_line (suc (length line)) p line) [
  | none ↦ none
  | some answer ↦ elim answer [
    | good q ↦ parse_lines q others
    | fault ↦ some fault
    | panic ↦ some panic
  ]
]

-- The parser of a whole source, in `emitSourceObject` and `emitSourceRaw`.
unfoldable pub parse_source : List ℕ → Option (Answer Parser)
parse_source src = parse_lines new_parser (read_lines src)
