-- ===== src/Fzp/Conditions.antt =====
-- The conditional directives of internal/fzp/processor.go, and the stack that they work on.
-- The top of the stack is the head of the list.
pub mod Nesting
pub mod Chain
use forge_zero.Prelude.{
  ℕ, zero, suc, ◌+◌, List, [], ◌∷◌, ◌++◌, Bool, true, false, ◌&&◌, ◌||◌, not, Option, none, some,
  codes, bytes_eq, map, ◌==◌, if◌then◌else◌,
}
use forge_zero.Fzp.Expr.{
  Outcome, value, panic, stuck, ◌>>=◌, Macro, Macros, lookup, is_some, is_white, evaluate,
}

pub record CondState : Type 0 where
  pub active : Bool
  pub branch_taken : Bool
  pub parent_active : Bool

-- The fields of `Processor` that the conditional directives read or write.
pub record Processor : Type 0 where
  pub macros : List (List ℕ × List ℕ)
  pub cond_stack : List CondState

unfoldable pub should_emit : List CondState → Bool
should_emit [] = true
should_emit (s ∷ rest) = s.parent_active && s.active

-- `makeMacroMap`
unfoldable pub make_macro_map : List (List ℕ × List ℕ) → Macros
make_macro_map = map (λ (e : List ℕ × List ℕ). (e.0, record { value = e.1; has_args = false }))

unfoldable pub is_defined : List ℕ → Processor → Bool
unfolding make_macro_map lookup
is_defined name p = is_some (lookup name (make_macro_map p.macros))

unfoldable pub has_prefix : List ℕ → List ℕ → Bool
has_prefix line [] = true
has_prefix [] (c ∷ prefix) = false
has_prefix (d ∷ line) (c ∷ prefix) = d == c && has_prefix line prefix

-- `strings.Fields` on ASCII text: the first list is what has been read of the current field.
unfoldable pub fields_from : List ℕ → List ℕ → List (List ℕ)
fields_from [] [] = []
fields_from (x ∷ xs) [] = (x ∷ xs) ∷ []
fields_from current (c ∷ rest) =
    let within = fields_from (current ++ (c ∷ [])) rest in
    let behind = fields_from [] rest in
    if is_white c then (elim current [ [] ↦ behind | x ∷ xs ↦ (x ∷ xs) ∷ behind ]) else within

unfoldable pub fields : List ℕ → List (List ℕ)
unfolding fields_from
fields line = fields_from [] line

-- `strings.Join(parts, " ")`
unfoldable pub join : List (List ℕ) → List ℕ
join [] = []
join (x ∷ []) = x
join (x ∷ y ∷ rest) = x ++ (b' ' ∷ join (y ∷ rest))

-- The cases of `handleDirective` from line 300 on, told apart in the source's order.
pub data Directive : Type 0 where
  ifdef ifndef if_expr elif else_branch endif other : Directive

unfoldable pub directive_of : List ℕ → Directive
unfolding has_prefix
directive_of line =
    if has_prefix line (codes "#ifdef")
    then ifdef
    else if has_prefix line (codes "#ifndef")
    then ifndef
    else if has_prefix line (codes "#if")
    then if_expr
    else if has_prefix line (codes "#elif")
    then elif
    else if has_prefix line (codes "#else")
    then else_branch
    else if has_prefix line (codes "#endif")
    then endif
    else other

-- Whether what stands around the current position is emitted.
unfoldable pub top_active : List CondState → Bool
top_active [] = true
top_active (s ∷ rest) = s.active

-- A new frame, by the value of its condition.
abbrev pub open_frame : Bool → List CondState → List CondState
open_frame test stack =
    let parent = top_active stack in
    record { active = parent && test; branch_taken = parent && test; parent_active = parent }
    ∷ stack

-- `#elif` with the value of its expression, which is asked for only if no branch was taken.
abbrev pub elif_frame : Bool → CondState → CondState
elif_frame test s =
    if s.parent_active && not s.branch_taken
    then record s { active = test; branch_taken = test }
    else record s { active = false }

abbrev pub else_frame : CondState → CondState
else_frame s =
    if s.parent_active && not s.branch_taken
    then record s { active = true; branch_taken = true }
    else record s { active = false }

abbrev pub truth : ℕ → Bool
truth v = not (v == 0)

unfoldable pub evaluate_fields : Processor → List (List ℕ) → Outcome Bool
evaluate_fields p args = do v ← evaluate (make_macro_map p.macros) (join args); value (truth v)

unfoldable pub elif_step : Processor → List (List ℕ) → List CondState → Outcome Processor
elif_step p args [] = value p
elif_step p [] (s ∷ rest) =
    if s.parent_active && not s.branch_taken
    then value p
    else value (record p { cond_stack = record s { active = false } ∷ rest })
elif_step p (x ∷ args) (s ∷ rest) =
    if s.parent_active && not s.branch_taken
    then (do
      test ← evaluate_fields p (x ∷ args)
      value (record p { cond_stack = elif_frame test s ∷ rest }))
    else value (record p { cond_stack = record s { active = false } ∷ rest })

abbrev pub else_stack : List CondState → List CondState
else_stack [] = []
else_stack (s ∷ rest) = else_frame s ∷ rest

abbrev pub endif_stack : List CondState → List CondState
endif_stack [] = []
endif_stack (s ∷ rest) = rest

-- A directive on its fields behind the first. A directive that opens a branch and has no further
-- field does nothing.
unfoldable pub step : Directive → List (List ℕ) → Processor → Outcome Processor
step ifdef (x ∷ args) p = value (record p { cond_stack = open_frame (is_defined x p) p.cond_stack })
step ifndef (x ∷ args) p =
    value (record p { cond_stack = open_frame (not (is_defined x p)) p.cond_stack })
step if_expr (x ∷ args) p = do
  test ← evaluate_fields p (x ∷ args)
  value (record p { cond_stack = open_frame test p.cond_stack })
step elif args p = elif_step p args p.cond_stack
step else_branch args p = value (record p { cond_stack = else_stack p.cond_stack })
step endif args p = value (record p { cond_stack = endif_stack p.cond_stack })
step _ args p = value p

abbrev pub rest_of : List (List ℕ) → List (List ℕ)
rest_of [] = []
rest_of (x ∷ xs) = xs

-- A line of the source that is a conditional directive.
unfoldable pub handle_conditional : Processor → List ℕ → Outcome Processor
unfolding step directive_of fields evaluate_fields elif_step
handle_conditional p line = step (directive_of line) (rest_of (fields line)) p
