-- ===== src/Assembler/Lines/Valid.antt =====
-- The invariant of the parser behind every statement, line and source.
use forge_zero.Prelude.{
  ℕ, zero, suc, ◌≡◌, List, [], ◌∷◌, ◌++◌, Option, none, some, String, codes, bytes_eq, arith,
  length, Bool-cases, Option-cases, inl, inr, subst,
}
use forge_zero.Assembler.Text.{Answer, good, fault, panic, trim_space}
use forge_zero.Assembler.Directives.{emit_bytes, emit_words}
use forge_zero.Assembler.Dispatch.{read_token, assemble}
use forge_zero.Assembler.State.{Parser, new_parser, append_bytes, define_label}
use forge_zero.Assembler.State.Fits.{
  Valid, ValidAnswer, append_bytes-Valid, define_label-Valid, define_global-Valid,
}
use forge_zero.Assembler.Jumps.Valid.{
  >>=-ValidAnswer, emit_jmp-Valid, emit_jcc-Valid, emit_call-Valid, emit_jump-Valid, emit_mov-Valid,
}
use forge_zero.Assembler.Sections.Valid.{
  switch_section-Valid, add_items-Valid, reserve-Valid, align_section-Valid,
}
use forge_zero.Assembler.Lines.{
  remove_comment, directives, find_statement, add_instruction, parse_statement, before_colon,
  after_label, parse_token, parse_trimmed_line, parse_line, parse_lines, read_lines, parse_source,
}

abbrev Keeps : (Parser → List ℕ → Answer Parser) → Type 0
Keeps run = (p : Parser) (rest : List ℕ) → Valid p → ValidAnswer (run p rest)

abbrev AllKeep : List (String × (Parser → List ℕ → Answer Parser)) → Type 0
AllKeep [] = Unit
AllKeep ((key, run) ∷ others) = Keeps run × AllKeep others

-- A pair, to write nested ones in a row.
infixr 5 ◌⊗◌
abbrev ◌⊗◌ : {A B : Type 0} → A → B → A × B
a ⊗ b = (a, b)

directives-AllKeep : AllKeep directives
unfolding directives
directives-AllKeep =
    (λ p rest h. switch_section-Valid (read_token rest).0 p h)
    ⊗ (λ p rest h. h)
    ⊗ (λ p rest h. h)
    ⊗ (λ p rest h. h)
    ⊗ (λ p rest h. h)
    ⊗ (λ p rest h. h)
    ⊗ (λ p rest h. h)
    ⊗ (λ p rest h. define_global-Valid (read_token rest).0 p h)
    ⊗ (λ p rest h. add_items-Valid (emit_bytes rest) p h)
    ⊗ (λ p rest h. add_items-Valid (emit_bytes rest) p h)
    ⊗ (λ p rest h. add_items-Valid (emit_words 2 rest) p h)
    ⊗ (λ p rest h. add_items-Valid (emit_words 2 rest) p h)
    ⊗ (λ p rest h. add_items-Valid (emit_words 4 rest) p h)
    ⊗ (λ p rest h. add_items-Valid (emit_words 4 rest) p h)
    ⊗ (λ p rest h. add_items-Valid (emit_words 8 rest) p h)
    ⊗ (λ p rest h. add_items-Valid (emit_words 8 rest) p h)
    ⊗ (reserve-Valid 1)
    ⊗ (reserve-Valid 2)
    ⊗ (reserve-Valid 4)
    ⊗ (reserve-Valid 8)
    ⊗ (align_section-Valid)
    ⊗ (λ p rest h. h)
    ⊗ (λ p rest h. h)
    ⊗ (emit_jmp-Valid)
    ⊗ (emit_jcc-Valid 0x84)
    ⊗ (emit_jcc-Valid 0x85)
    ⊗ (emit_jcc-Valid 0x8C)
    ⊗ (emit_jcc-Valid 0x8D)
    ⊗ (emit_jcc-Valid 0x87)
    ⊗ (emit_jcc-Valid 0x82)
    ⊗ (emit_jcc-Valid 0x86)
    ⊗ (emit_jcc-Valid 0x83)
    ⊗ (emit_jcc-Valid 0x82)
    ⊗ (emit_jcc-Valid 0x83)
    ⊗ (emit_jcc-Valid 0x84)
    ⊗ (emit_jcc-Valid 0x85)
    ⊗ (emit_jcc-Valid 0x80)
    ⊗ (emit_jcc-Valid 0x81)
    ⊗ (emit_jcc-Valid 0x88)
    ⊗ (emit_jcc-Valid 0x89)
    ⊗ (emit_jcc-Valid 0x8A)
    ⊗ (emit_jcc-Valid 0x8B)
    ⊗ (emit_mov-Valid)
    ⊗ (emit_call-Valid)
    ⊗ (emit_jump-Valid 0x8E)
    ⊗ (emit_jump-Valid 0x8F)
    ⊗ tt

abbrev ValidIf : Option (Answer Parser) → Type 0
ValidIf none = Unit
ValidIf (some answer) = ValidAnswer answer

find_statement-ValidIf :
    (table : List (String × (Parser → List ℕ → Answer Parser))) (name : List ℕ) (p : Parser)
    (rest : List ℕ)
    → AllKeep table
    → Valid p
    → ValidIf (find_statement table name p rest)
unfolding find_statement
find_statement-ValidIf [] name p rest h v = tt
find_statement-ValidIf ((key, run) ∷ others) name p rest (h, k) v =
    elim (Bool-cases (bytes_eq name (codes key))) [
      | inl e ↦ rw e (h p rest v)
      | inr e ↦ rw e (find_statement-ValidIf others name p rest k v)
    ]

add_instruction-ValidIf :
    (found : Option (Answer (List ℕ))) (p : Parser) → Valid p → ValidIf (add_instruction found p)
add_instruction-ValidIf none p h = tt
add_instruction-ValidIf (some answer) p h =
    >>=-ValidAnswer answer _ (λ bytes. append_bytes-Valid bytes p h)

abbrev Again : (Parser → List ℕ → Option (Answer Parser)) → Type 0
Again again = (p : Parser) (line : List ℕ) → Valid p → ValidIf (again p line)

-- The first statement that answers.
parse_statement-ValidIf :
    (again : Parser → List ℕ → Option (Answer Parser)) (p : Parser) (name rest : List ℕ)
    → Again again
    → Valid p
    → ValidIf (parse_statement again p name rest)
unfolding parse_statement
parse_statement-ValidIf again p name rest k h =
    elim (Option-cases (find_statement directives name p rest)) [
      | inr (a, e) ↦
          rw (e, parse_statement)
            (subst ValidIf e (find_statement-ValidIf directives name p rest directives-AllKeep h))
      | inl e ↦ elim (Option-cases (add_instruction (assemble name rest) p)) [
        | inr (a, f) ↦
            rw (e, f, parse_statement)
              (subst ValidIf f (add_instruction-ValidIf (assemble name rest) p h))
        | inl f ↦ elim (Bool-cases (bytes_eq name (codes "lock"))) [
          | inl g ↦
              rw (e, f, g, parse_statement)
                (k (append_bytes (0xF0 ∷ []) p) ((read_token rest).0 ++ (read_token rest).1)
                  (append_bytes-Valid (0xF0 ∷ []) p h))
          | inr g ↦ rw (e, f, g, parse_statement) tt
        ]
      ]
    ]

after_label-ValidIf :
    (again : Parser → List ℕ → Option (Answer Parser)) (answer : Answer Parser) (rest : List ℕ)
    → Again again
    → ValidAnswer answer
    → ValidIf (after_label again answer rest)
after_label-ValidIf again (good p) rest k h = k p rest h
after_label-ValidIf again fault rest k h = tt
after_label-ValidIf again panic rest k h = tt

parse_token-ValidIf :
    (again : Parser → List ℕ → Option (Answer Parser)) (p : Parser) (token rest : List ℕ)
    → Again again
    → Valid p
    → ValidIf (parse_token again p token rest)
unfolding parse_token
parse_token-ValidIf again p token rest k h = elim (Option-cases (before_colon token)) [
  | inl e ↦ rw (e, parse_token) (parse_statement-ValidIf again p token rest k h)
  | inr (name, e) ↦
      rw (e, parse_token)
        (after_label-ValidIf again (define_label name p) rest k (define_label-Valid name p h))
]

parse_trimmed_line-ValidIf :
    (again : Parser → List ℕ → Option (Answer Parser)) (p : Parser) (line : List ℕ)
    → Again again
    → Valid p
    → ValidIf (parse_trimmed_line again p line)
unfolding parse_trimmed_line
parse_trimmed_line-ValidIf again p [] k h = h
parse_trimmed_line-ValidIf again p (c ∷ rest) k h = elim (Option-cases (before_colon (c ∷ rest))) [
  | inr (name, e) ↦ rw (e, parse_trimmed_line) (define_label-Valid (trim_space name) p h)
  | inl e ↦
      rw (e, parse_trimmed_line)
        (parse_token-ValidIf again p (read_token (c ∷ rest)).0 (read_token (c ∷ rest)).1 k h)
]

parse_line-ValidIf :
    (fuel : ℕ) (p : Parser) (line : List ℕ) → Valid p → ValidIf (parse_line fuel p line)
unfolding parse_line
parse_line-ValidIf zero p line h = tt
parse_line-ValidIf (suc fuel) p line h =
    parse_trimmed_line-ValidIf (parse_line fuel) p (trim_space (remove_comment line))
      (λ q l k. parse_line-ValidIf fuel q l k) h

parse_lines-ValidIf : (p : Parser) (lines : List (List ℕ)) → Valid p → ValidIf (parse_lines p lines)
unfolding parse_lines
parse_lines-ValidIf p [] h = h
parse_lines-ValidIf p (line ∷ others) h =
    elim (Option-cases (parse_line (suc (length line)) p line)) [
      | inl e ↦ rw (e, parse_lines) tt
      | inr (good q, e) ↦
          rw (e, parse_lines)
            (parse_lines-ValidIf q others
              (subst ValidIf e (parse_line-ValidIf (suc (length line)) p line h)))
      | inr (fault, e) ↦ rw (e, parse_lines) tt
      | inr (panic, e) ↦ rw (e, parse_lines) tt
    ]

-- When a source is parsed to the end: the names of its symbols are distinct and at most 4096 in
-- number; the value of a symbol that is defined in .text or .data is at most the number of bytes of
-- that section, and that of one in .bss, whose size can wrap around, is only a uint64 value, as is
-- the size of .bss; and a relocation is for one of the symbols, and lies, with the four or eight
-- bytes that it is for, within the bytes that were emitted in its section, which for .bss are not
-- those of its size and are never written to the object.
pub parse_source-Valid : (src : List ℕ) (p : Parser) → parse_source src ≡ some (good p) → Valid p
unfolding parse_source
parse_source-Valid src p h =
    subst ValidIf h
      (parse_lines-ValidIf new_parser (read_lines src) (tt, omega arith, tt, tt, omega arith))
