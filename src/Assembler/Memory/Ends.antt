-- ===== src/Assembler/Memory/Ends.antt =====
-- The loop over the parts of a memory operand ends.
use forge_zero.Prelude.{
  ℕ, zero, suc, ◌≤◌, ◌<◌, ◌≡◌, ◌≢◌, refl, List, [], ◌∷◌, Bool, Option, none, arith, length,
}
use forge_zero.Assembler.Text.{Answer, good, fault, panic, trim_space}
use forge_zero.Assembler.Memory.{
  Memory, skip_blanks, until, is_sign, take_sign, add_part, memory_parts, memory_round, behind_part,
  signed_part,
}

pub length-skip_blanks : (s : List ℕ) → length (skip_blanks s) ≤ length s
unfolding skip_blanks
length-skip_blanks [] = omega arith
length-skip_blanks (c ∷ rest) = ground (arith, length-skip_blanks rest)

length-until : (test : ℕ → Bool) (s : List ℕ) → length (until test s).1 ≤ length s
unfolding until
length-until test [] = omega arith
length-until test (c ∷ rest) = ground (arith, length-until test rest)

-- A sign is read, or the part reads a byte.
take_sign_reads :
    (c : ℕ) (rest : List ℕ) (negative : Bool) (text : List ℕ)
    → take_sign c rest ≡ good (negative, text)
    → length (until is_sign text).1 ≤ length rest
unfolding until
take_sign_reads c rest negative text h =
    ground (arith, length-until is_sign rest, length-until is_sign text, length-skip_blanks rest)

-- Where the rest of the loop answers, the round does.
behind_part_answers :
    (again : Memory → List ℕ → Option (Answer Memory)) (answer : Answer Memory) (others : List ℕ)
    → ((m : Memory) → again m others ≢ none)
    → behind_part again answer others ≢ none
unfolding behind_part
behind_part_answers again (good m) others h = h m
behind_part_answers again fault others h = λ e. ground arith
behind_part_answers again panic others h = λ e. ground arith

signed_part_answers :
    (again : Memory → List ℕ → Option (Answer Memory)) (m : Memory) (s : Answer (Bool × List ℕ))
    → ((negative : Bool) (text : List ℕ) (m' : Memory)
        → s ≡ good (negative, text)
        → again m' (until is_sign text).1 ≢ none)
    → signed_part again m s ≢ none
unfolding signed_part
signed_part_answers again m (good (negative, text)) h =
    behind_part_answers again (add_part m negative (trim_space (until is_sign text).0))
      (until is_sign text).1 (λ m'. h negative text m' refl)
signed_part_answers again m fault h = λ e. ground arith
signed_part_answers again m panic h = λ e. ground arith

memory_round_answers :
    (again : Memory → List ℕ → Option (Answer Memory)) (m : Memory) (inner : List ℕ)
    → ((m' : Memory) (others : List ℕ) → length others < length inner → again m' others ≢ none)
    → memory_round again m inner ≢ none
memory_round_answers again m [] h = λ e. ground arith
memory_round_answers again m (c ∷ rest) h =
    signed_part_answers again m (take_sign c rest) (λ negative text m' e.
      h m' (until is_sign text).1 (omega (arith, take_sign_reads c rest negative text e)))

-- With more fuel than there are bytes, the loop over the parts of a memory operand ends: it
-- answers operands, an error or a panic.
pub memory_parts_enough :
    (fuel : ℕ) (m : Memory) (inner : List ℕ)
    → length inner < fuel
    → memory_parts fuel m inner ≢ none
unfolding memory_parts
memory_parts_enough zero m inner h = absurd (omega arith)
memory_parts_enough (suc fuel) m inner h =
    memory_round_answers (memory_parts fuel) m (skip_blanks inner)
      (λ m' others k. memory_parts_enough fuel m' others (omega (arith, length-skip_blanks inner)))
