-- ===== src/Assembler/Lines/Enough.antt =====
-- The recursion of parseLine comes to an end.
use forge_zero.Prelude.{
  ℕ, zero, suc, ◌+◌, ◌≤◌, ◌<◌, ◌≡◌, ◌≢◌, refl, ap, List, [], ◌∷◌, ◌++◌, Bool, true, Option, none,
  some, codes, bytes_eq, arith, length, length-append, Bool-cases, Option-cases, inl, inr,
}
use forge_zero.Assembler.Text.{Answer, good, fault, panic, trim_space}
use forge_zero.Assembler.Text.Trim.{trim_space_exact}
use forge_zero.Assembler.Memory.Ends.{length-skip_blanks}
use forge_zero.Assembler.Memory.{until, skip_blanks}
use forge_zero.Assembler.Dispatch.{read_token, assemble}
use forge_zero.Assembler.State.{Parser, new_parser, append_bytes, define_label}
use forge_zero.Assembler.Lines.{
  remove_comment, directives, find_statement, lock_line, add_instruction, parse_statement,
  before_colon, after_label, parse_token, parse_trimmed_line, parse_line, parse_lines, read_lines,
  parse_source,
}

length-trim_space : (s : List ℕ) → length (trim_space s) ≤ length s
length-trim_space s =
    let (front, back, e, a, b, c, d) = trim_space_exact s in
    omega (
      arith,
      ap length e,
      length-append front (trim_space s ++ back),
      length-append (trim_space s) back,
    )

until_parts :
    (test : ℕ → Bool) (s : List ℕ) → length (until test s).0 + length (until test s).1 ≡ length s
unfolding until
until_parts test [] = refl
until_parts test (c ∷ rest) = ground (arith, until_parts test rest)

read_token_parts : (s : List ℕ) → length (read_token s).0 + length (read_token s).1 ≤ length s
unfolding read_token
read_token_parts s = omega (arith, until_parts _ (skip_blanks s), length-skip_blanks s)

length-remove_comment : (s : List ℕ) → length (remove_comment s) ≤ length s
unfolding remove_comment
length-remove_comment s = omega (arith, until_parts _ s)

-- A call of parseLine that answers whatever the state, on lines shorter than a number.
abbrev AnswersBelow : (Parser → List ℕ → Option (Answer Parser)) → ℕ → Type 0
AnswersBelow again size = (p : Parser) (line : List ℕ) → length line < size → again p line ≢ none

after_label_answers :
    (again : Parser → List ℕ → Option (Answer Parser)) (answer : Answer Parser) (rest : List ℕ)
    → ((p : Parser) → again p rest ≢ none)
    → after_label again answer rest ≢ none
after_label_answers again (good p) rest h = h p
after_label_answers again fault rest h = λ e. ground arith
after_label_answers again panic rest h = λ e. ground arith

some-ne-none : {A : Type 0} (o : Option A) (a : A) → o ≡ some a → o ≢ none
some-ne-none o a h k = ground (arith, h, k)

lock_name : (name : List ℕ) → bytes_eq name (codes "lock") ≡ true → 0 < length name
lock_name [] h = absurd (ground arith)
lock_name (c ∷ rest) h = omega arith

colon_name : (token name : List ℕ) → before_colon token ≡ some name → 0 < length token
unfolding before_colon
colon_name [] name h = absurd (ground arith)
colon_name (c ∷ rest) name h = omega arith

lock_line_answers :
    (again : Parser → List ℕ → Option (Answer Parser)) (p : Parser) (rest : List ℕ) (size : ℕ)
    → length rest < size
    → AnswersBelow again size
    → lock_line again p rest ≢ none
lock_line_answers again p rest size h k =
    k (append_bytes (0xF0 ∷ []) p) ((read_token rest).0 ++ (read_token rest).1)
      (omega (arith, length-append (read_token rest).0 (read_token rest).1, read_token_parts rest))

parse_statement_answers :
    (again : Parser → List ℕ → Option (Answer Parser)) (p : Parser) (name rest : List ℕ) (size : ℕ)
    → length name + length rest ≤ size
    → AnswersBelow again size
    → parse_statement again p name rest ≢ none
unfolding parse_statement
parse_statement_answers again p name rest size h k =
    elim (Option-cases (find_statement directives name p rest)) [
      | inr (a, e) ↦ rw (e, parse_statement) (λ f. ground (arith, f))
      | inl e ↦ elim (Option-cases (add_instruction (assemble name rest) p)) [
        | inr (a, f) ↦ rw (e, f, parse_statement) (λ g. ground (arith, g))
        | inl f ↦ elim (Bool-cases (bytes_eq name (codes "lock"))) [
          | inl g ↦
              rw (e, f, g, parse_statement)
                (lock_line_answers again p rest size (omega (arith, lock_name name g)) k)
          | inr g ↦ rw (e, f, g, parse_statement) (λ i. ground (arith, i))
        ]
      ]
    ]

parse_token_answers :
    (again : Parser → List ℕ → Option (Answer Parser)) (p : Parser) (token rest : List ℕ) (size : ℕ)
    → length token + length rest ≤ size
    → AnswersBelow again size
    → parse_token again p token rest ≢ none
unfolding parse_token
parse_token_answers again p token rest size h k = elim (Option-cases (before_colon token)) [
  | inl e ↦ rw (e, parse_token) (parse_statement_answers again p token rest size h k)
  | inr (name, e) ↦
      rw (e, parse_token)
        (after_label_answers again (define_label name p) rest
          (λ q. k q rest (omega (arith, colon_name token name e))))
]

parse_trimmed_line_answers :
    (again : Parser → List ℕ → Option (Answer Parser)) (p : Parser) (line : List ℕ) (size : ℕ)
    → length line ≤ size
    → AnswersBelow again size
    → parse_trimmed_line again p line ≢ none
unfolding parse_trimmed_line
parse_trimmed_line_answers again p [] size h k = λ e. ground arith
parse_trimmed_line_answers again p (c ∷ rest) size h k =
    elim (Option-cases (before_colon (c ∷ rest))) [
      | inr (name, e) ↦ rw (e, parse_trimmed_line) (λ f. ground (arith, f))
      | inl e ↦
          rw (e, parse_trimmed_line)
            (parse_token_answers again p (read_token (c ∷ rest)).0 (read_token (c ∷ rest)).1 size
              (omega (arith, read_token_parts (c ∷ rest))) k)
    ]

-- With more fuel than there are bytes, the parser of a line ends.
pub parse_line_enough :
    (fuel : ℕ) (p : Parser) (line : List ℕ) → length line < fuel → parse_line fuel p line ≢ none
unfolding parse_line
parse_line_enough zero p line h = absurd (omega arith)
parse_line_enough (suc fuel) p line h =
    parse_trimmed_line_answers (parse_line fuel) p (trim_space (remove_comment line)) fuel
      (omega (arith, length-trim_space (remove_comment line), length-remove_comment line))
      (λ q l k. parse_line_enough fuel q l k)

parse_lines_ends : (p : Parser) (lines : List (List ℕ)) → parse_lines p lines ≢ none
unfolding parse_lines
parse_lines_ends p [] = λ e. ground arith
parse_lines_ends p (line ∷ others) = elim (Option-cases (parse_line (suc (length line)) p line)) [
  | inl e ↦ absurd (parse_line_enough (suc (length line)) p line (omega arith) e)
  | inr (good q, e) ↦ rw (e, parse_lines) (parse_lines_ends q others)
  | inr (fault, e) ↦ rw (e, parse_lines) (λ f. ground (arith, f))
  | inr (panic, e) ↦ rw (e, parse_lines) (λ f. ground (arith, f))
]

-- The parser of a source ends on every source: with a state, an error or a panic.
pub parse_source-ne-unfuelled : (src : List ℕ) → parse_source src ≢ none
unfolding parse_source
parse_source-ne-unfuelled src = parse_lines_ends new_parser (read_lines src)
