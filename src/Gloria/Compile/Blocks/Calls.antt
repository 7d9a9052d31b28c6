-- ===== src/Gloria/Compile/Blocks/Calls.antt =====
-- Where the calls of a function stand in its code.
use forge_zero.Prelude.{
  ℕ, zero, suc, ◌+◌, ◌≡◌, ◌⊎◌, refl, sym, subst, List, [], ◌∷◌, ◌++◌, Bool, true, false, arith,
  length, length-append, inl, inr, if◌then◌else◌,
}
use mathlib.Core.List.{append_assoc}
use forge_zero.Gloria.Action.{
  Word, State, Outcome, done, failed, panicked, endless, stuck, Action, pure, fail, give_up, follow,
  ◌>>=◌, next_word, with_fuel,
}
use forge_zero.Gloria.Code.{emit_epilogue}
use forge_zero.Gloria.Compile.{Code}
use forge_zero.Gloria.Compile.Blocks.{
  Final, finish, return_call, return_builtin, return_poke, return_sum, return_value,
  return_word_statement, return_statement, statements_round, statements, function_code,
}

-- What holds of every value that an action answers.
abbrev Holds {ℓ} : {A : Type ℓ} → (A → Type 0) → Outcome A → Type 0
Holds P (done a s) = P a
Holds P failed = Unit
Holds P panicked = Unit
Holds P endless = Unit
Holds P stuck = Unit

record Ensures {ℓ} {A : Type ℓ} (P : A → Type 0) (m : Action A) : Type ℓ where
  at : (s : State) → Holds P (m s)

module _ {ℓ} {A : Type ℓ} (P : A → Type 0) where
  Ensures-pure : (a : A) → P a → Ensures P (pure a)
  unfolding pure
  Ensures-pure a h = record { at = λ s. h }

  Ensures-fail : Ensures P fail
  unfolding fail
  Ensures-fail = record { at = λ s. tt }

  Ensures-give_up : Ensures P give_up
  unfolding give_up
  Ensures-give_up = record { at = λ s. tt }

  Ensures-if :
      (b : Bool) (m k : Action A) → Ensures P m → Ensures P k → Ensures P (if b then m else k)
  Ensures-if true m k hm hk = hm
  Ensures-if false m k hm hk = hk

module _ {ℓ κ} {A : Type ℓ} {B : Type κ} (Q : A → Type 0) (P : B → Type 0) where
  Holds-follow :
      (o : Outcome A) (f : A → Action B)
      → Holds Q o
      → ((a : A) → Q a → Ensures P (f a))
      → Holds P (follow f o)
  Holds-follow (done a s) f h hf = (hf a h).at s
  Holds-follow failed f h hf = tt
  Holds-follow panicked f h hf = tt
  Holds-follow endless f h hf = tt
  Holds-follow stuck f h hf = tt

  Ensures-then :
      (m : Action A) (f : A → Action B)
      → Ensures Q m
      → ((a : A) → Q a → Ensures P (f a))
      → Ensures P (m >>= f)
  unfolding ◌>>=◌
  Ensures-then m f hm hf = record { at = λ s. Holds-follow (m s) f (hm.at s) hf }

Holds-any {ℓ} : {A : Type ℓ} (o : Outcome A) → Holds (λ (a : A). Unit) o
Holds-any (done a s) = tt
Holds-any failed = tt
Holds-any panicked = tt
Holds-any endless = tt
Holds-any stuck = tt

Ensures-bind {ℓ κ} :
    {A : Type ℓ} {B : Type κ} (P : B → Type 0) (m : Action A) (f : A → Action B)
    → ((a : A) → Ensures P (f a))
    → Ensures P (m >>= f)
Ensures-bind P m f hf =
    Ensures-then (λ a. Unit) P m f (record { at = λ s. Holds-any (m s) }) (λ a u. hf a)

Ensures-with_fuel {ℓ} :
    {A : Type ℓ} (P : A → Type 0) (loop : ℕ → Action A)
    → ((fuel : ℕ) → Ensures P (loop fuel))
    → Ensures P (with_fuel loop)
unfolding with_fuel
Ensures-with_fuel P loop h = record { at = λ s. (h (suc (length s.words))).at s }

-- Behind `at` bytes there is no call, or one, whose instruction stands right in front of the
-- epilogue at the end of the code.
abbrev pub CallAt : ℕ → Final → Type 0
CallAt at (code, relocs) =
    (relocs ≡ [])
    ⊎ ((pre : Code) × (name : List ℕ) × (relocs
          ≡ record { call_instruction_offset = at + length pre; target_func_name = name } ∷ [])
        × (code ≡ pre ++ 0xE8 ∷ 0 ∷ 0 ∷ 0 ∷ 0 ∷ emit_epilogue))

CallAt-behind :
    (at : ℕ) (code : Code) (more : Final)
    → CallAt (at + length code) more
    → CallAt at (code ++ more.0, more.1)
CallAt-behind at code (more, relocs) (inl e) = inl e
CallAt-behind at code (more, relocs) (inr (pre, name, e, c)) =
    let sum : at + length code + length pre ≡ at + length (code ++ pre) =
      omega (arith, length-append code pre) in
    inr (code ++ pre, name, rw sum at e, rw c (sym (append_assoc code pre _)))

CallAt-finish : (at : ℕ) (code : Code) → Ensures (CallAt at) (pure (finish code))
CallAt-finish at code = Ensures-pure (CallAt at) (finish code) (inl refl)

ruleset call_rules = (Ensures-fail, Ensures-give_up, Ensures-if, Ensures-bind, CallAt-finish)

CallAt-return_call : (at : ℕ) (name : Word) → Ensures (CallAt at) (return_call at name)
unfolding return_call
CallAt-return_call at name = Ensures-bind _ _ _ (λ args.
    Ensures-bind _ _ _ (λ loads. Ensures-pure (CallAt at) _ (inr (loads, name.text, refl, refl))))

CallAt-return_builtin : (at : ℕ) (name : Word) → Ensures (CallAt at) (return_builtin name)
unfolding return_builtin
CallAt-return_builtin at name = search (call_rules) depth 16

CallAt-return_poke : (at : ℕ) → Ensures (CallAt at) return_poke
unfolding return_poke
CallAt-return_poke at = search (call_rules) depth 16

CallAt-return_sum : (at : ℕ) (lhs : Word) → Ensures (CallAt at) (return_sum lhs)
unfolding return_sum
CallAt-return_sum at lhs = search (call_rules) depth 16

CallAt-return_value : (at : ℕ) (w : Word) → Ensures (CallAt at) (return_value w)
unfolding return_value
CallAt-return_value at w = search (call_rules) depth 16

CallAt-return_statement : (at : ℕ) → Ensures (CallAt at) (return_statement at)
unfolding return_statement return_word_statement
CallAt-return_statement at =
    search
      (
        call_rules, CallAt-return_call, CallAt-return_builtin, CallAt-return_poke,
        CallAt-return_sum, CallAt-return_value,
      )
      depth 16

CallAt-statements : (fuel at : ℕ) → Ensures (CallAt at) (statements fuel at)
unfolding statements statements_round
CallAt-statements zero at = Ensures-give_up (CallAt at)
CallAt-statements (suc fuel) at = Ensures-bind _ next_word _ (λ w.
    Ensures-if _ _ _ _ (CallAt-finish at []) (
      Ensures-if _ _ _ _ (CallAt-return_statement at) (
        Ensures-bind _ _ _ (λ code.
          Ensures-then (CallAt (at + length code)) (CallAt at) _ _
            (CallAt-statements fuel (at + length code))
            (λ more h. Ensures-pure (CallAt at) _ (CallAt-behind at code more h))))))

CallAt-function_code : (args : List (List ℕ)) → Ensures (CallAt 0) (function_code args)
unfolding function_code
CallAt-function_code args = Ensures-bind _ _ _ (λ prologue.
    let e : 0 + length prologue ≡ length prologue = omega arith in
    Ensures-then (CallAt (length prologue)) (CallAt 0) _ _
      (Ensures-with_fuel _ _ (λ fuel. CallAt-statements fuel (length prologue)))
      (λ final h. Ensures-pure (CallAt 0) _ (CallAt-behind 0 prologue final (rw e h))))

-- Before the peephole pass, the code of a function has at most one relocation, and its offset is
-- that of a call with an empty displacement, right in front of the epilogue at the code's end.
pub function_code_call :
    (args : List (List ℕ)) (s s' : State) (final : Final)
    → function_code args s ≡ done final s'
    → CallAt 0 final
function_code_call args s s' final e = subst (Holds (CallAt 0)) e ((CallAt-function_code args).at s)
