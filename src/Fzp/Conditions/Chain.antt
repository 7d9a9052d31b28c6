-- ===== src/Fzp/Conditions/Chain.antt =====
-- Which branch of a conditional is active.
use forge_zero.Prelude.{ℕ, ◌≡◌, refl, List, [], ◌∷◌, Bool, false, ◌&&◌, ◌||◌, not, arith}
use forge_zero.Fzp.Expr.{value, ◌>>=◌}
use forge_zero.Fzp.Conditions.{
  CondState, Processor, elif_frame, else_frame, step, elif_step, evaluate_fields, ifdef, elif,
  endif,
}

-- The frame behind `#elif` directives with the given values.
abbrev pub after_elifs : List Bool → CondState → CondState
after_elifs [] s = s
after_elifs (test ∷ tests) s = after_elifs tests (elif_frame test s)

abbrev pub any : List Bool → Bool
any [] = false
any (b ∷ bs) = b || any bs

-- The frame that a directive opens.
abbrev pub first_frame : Bool → Bool → CondState
first_frame parent test = record {
  active = parent && test;
  branch_taken = parent && test;
  parent_active = parent;
}

after_elifs_taken :
    (tests : List Bool) (s : CondState)
    → ((after_elifs tests s).parent_active ≡ s.parent_active)
      × ((after_elifs tests s).branch_taken ≡ s.branch_taken || (s.parent_active && any tests))
after_elifs_taken [] s = (refl, ground arith)
after_elifs_taken (test ∷ tests) s = ground (arith, after_elifs_taken tests (elif_frame test s))

-- In a chain of branches behind an `#if`, a further `#elif` is active exactly if what is around the
-- chain is, no test before was true, and its own is.
pub elif_chosen :
    (parent first test : Bool) (tests : List Bool)
    → (elif_frame test (after_elifs tests (first_frame parent first))).active
      ≡ parent && (not (first || any tests) && test)
elif_chosen parent first test tests =
    ground (arith, after_elifs_taken tests (first_frame parent first))

-- The `#else` behind such a chain is active exactly if what is around it is and no test was true.
pub else_chosen :
    (parent first : Bool) (tests : List Bool)
    → (else_frame (after_elifs tests (first_frame parent first))).active
      ≡ parent && not (first || any tests)
else_chosen parent first tests = ground (arith, after_elifs_taken tests (first_frame parent first))

-- The directive `#elif` on a stack does to the top frame what `elif_frame` says, by the value of
-- its expression.
pub step_elif :
    (p : Processor) (x : List ℕ) (args : List (List ℕ)) (test : Bool) (s : CondState)
    (rest : List CondState)
    → p.cond_stack ≡ s ∷ rest
    → evaluate_fields p (x ∷ args) ≡ value test
    → step elif (x ∷ args) p ≡ value (record p { cond_stack = elif_frame test s ∷ rest })
unfolding step elif_step evaluate_fields
step_elif p x args test s rest e h = rw (e, h) (ground arith)

-- An `#ifdef` without a name opens no frame, so that the `#endif` that belongs to it closes the
-- frame around it.
pub bare_ifdef_unbalances :
    (p : Processor) (s : CondState) (rest : List CondState)
    → p.cond_stack ≡ s ∷ rest
    → (step ifdef [] p >>= step endif []) ≡ value (record p { cond_stack = rest })
unfolding step
bare_ifdef_unbalances p s rest e = rw e
