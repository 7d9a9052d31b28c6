-- ===== src/Fzp/Conditions/Nesting.antt =====
-- The invariant of the stack of conditions.
use forge_zero.Prelude.{
  ℕ, ◌≡◌, ◌↔◌, refl, List, [], ◌∷◌, Bool, true, false, ◌&&◌, not, arith, All, if◌then◌else◌,
}
use forge_zero.Fzp.Expr.{Outcome, value, panic, stuck, ◌>>=◌}
use forge_zero.Fzp.Conditions.{
  CondState, Processor, Directive, should_emit, top_active, open_frame, elif_frame, else_frame,
  step, elif_step, else_stack, endif_stack, is_defined, evaluate_fields, handle_conditional, ifdef,
  ifndef, if_expr, elif, else_branch, endif, other, directive_of, rest_of, fields,
}

-- Each frame records whether what is around it is emitted, is active only there, and remembers a
-- branch that is active as taken.
abbrev pub IsNested : List CondState → Type 0
IsNested [] = Unit
IsNested (s ∷ rest) =
    (s.parent_active ≡ top_active rest)
    × (s.active ≡ true → (s.parent_active ≡ true) × (s.branch_taken ≡ true))
    × IsNested rest

-- A result whose stack is nested, unless the condition divides by 0.
abbrev pub KeepsNesting : Outcome Processor → Type 0
KeepsNesting (value p) = IsNested p.cond_stack
KeepsNesting panic = Unit
KeepsNesting stuck = Unit

open_frame-IsNested :
    (test : Bool) (stack : List CondState) → IsNested stack → IsNested (open_frame test stack)
open_frame-IsNested test stack h = (refl, ground arith, h)

elif_frame-IsNested :
    (test : Bool) (s : CondState) (rest : List CondState)
    → IsNested (s ∷ rest)
    → IsNested (elif_frame test s ∷ rest)
elif_frame-IsNested test s rest (p, a, h) = (ground arith, ground arith, h)

else_frame-IsNested :
    (s : CondState) (rest : List CondState) → IsNested (s ∷ rest) → IsNested (else_frame s ∷ rest)
else_frame-IsNested s rest (p, a, h) = (ground arith, ground arith, h)

-- A condition that has no value has a panic, and the directive panics with it.
after_test :
    (m : Outcome Bool) (f : Bool → Processor)
    → ((test : Bool) → IsNested (f test).cond_stack)
    → KeepsNesting (m >>= λ test. value (f test))
after_test (value test) f h = h test
after_test panic f h = tt
after_test stuck f h = tt

close_branch-IsNested :
    (s : CondState) (rest : List CondState)
    → IsNested (s ∷ rest)
    → IsNested (record s { active = false } ∷ rest)
close_branch-IsNested s rest (p, a, h) = (p, ground arith, h)

Keeps-if :
    (b : Bool) (x y : Outcome Processor)
    → KeepsNesting x
    → KeepsNesting y
    → KeepsNesting (if b then x else y)
Keeps-if true x y h k = h
Keeps-if false x y h k = k

elif_step-IsNested :
    (p : Processor) (args : List (List ℕ)) (stack : List CondState)
    → IsNested p.cond_stack
    → IsNested stack
    → KeepsNesting (elif_step p args stack)
unfolding elif_step
elif_step-IsNested p args [] hp h = hp
elif_step-IsNested p [] (s ∷ rest) hp h =
    Keeps-if (s.parent_active && not s.branch_taken) _ _ hp (close_branch-IsNested s rest h)
elif_step-IsNested p (x ∷ args) (s ∷ rest) hp h =
    Keeps-if (s.parent_active && not s.branch_taken) _ _
      (after_test (evaluate_fields p (x ∷ args))
        (λ test. record p { cond_stack = elif_frame test s ∷ rest })
        (λ test. elif_frame-IsNested test s rest h))
      (close_branch-IsNested s rest h)

else_stack-IsNested : (stack : List CondState) → IsNested stack → IsNested (else_stack stack)
else_stack-IsNested [] h = h
else_stack-IsNested (s ∷ rest) h = else_frame-IsNested s rest h

endif_stack-IsNested : (stack : List CondState) → IsNested stack → IsNested (endif_stack stack)
endif_stack-IsNested [] h = h
endif_stack-IsNested (s ∷ rest) (p, a, h) = h

-- Every directive keeps the stack nested.
pub step-IsNested :
    (d : Directive) (args : List (List ℕ)) (p : Processor)
    → IsNested p.cond_stack
    → KeepsNesting (step d args p)
unfolding step
step-IsNested ifdef [] p h = h
step-IsNested ifdef (x ∷ args) p h = open_frame-IsNested (is_defined x p) p.cond_stack h
step-IsNested ifndef [] p h = h
step-IsNested ifndef (x ∷ args) p h = open_frame-IsNested (not (is_defined x p)) p.cond_stack h
step-IsNested if_expr [] p h = h
step-IsNested if_expr (x ∷ args) p h =
    after_test (evaluate_fields p (x ∷ args))
      (λ test. record p { cond_stack = open_frame test p.cond_stack })
      (λ test. open_frame-IsNested test p.cond_stack h)
step-IsNested elif args p h = elif_step-IsNested p args p.cond_stack h h
step-IsNested else_branch args p h = else_stack-IsNested p.cond_stack h
step-IsNested endif args p h = endif_stack-IsNested p.cond_stack h
step-IsNested other args p h = h

-- A line of the source, whatever it is, keeps the stack nested.
pub handle_conditional-IsNested :
    (p : Processor) (line : List ℕ)
    → IsNested p.cond_stack
    → KeepsNesting (handle_conditional p line)
unfolding handle_conditional
handle_conditional-IsNested p line h = step-IsNested (directive_of line) (rest_of (fields line)) p h

All-active :
    (stack : List CondState)
    → IsNested stack
    → top_active stack ≡ true
    → All (λ (s : CondState). s.active ≡ true) stack
unfolding top_active
All-active [] h e = tt
All-active (s ∷ rest) (p, a, h) e = (e, All-active rest h (ground (arith, (a e).0)))

-- On a nested stack a line is emitted exactly when every frame is active.
pub should_emit-All_active :
    (stack : List CondState)
    → IsNested stack
    → (should_emit stack ≡ true) ↔ All (λ (s : CondState). s.active ≡ true) stack
unfolding should_emit
should_emit-All_active [] h = (λ _. tt, λ _. refl)
should_emit-All_active (s ∷ rest) (p, a, h) = (
  λ e. All-active (s ∷ rest) (p, a, h) (unfold top_active in ground arith),
  λ e. ground (arith, (a e.0).0),
)
