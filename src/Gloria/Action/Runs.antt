-- ===== src/Gloria/Action/Runs.antt =====
-- Actions that end, read no more tokens than there are, and keep the variables apart.
use forge_zero.Prelude.{
  ℕ, suc, ◌*◌, ◌≤◌, ◌<◌, ◌≡◌, refl, List, [], ◌∷◌, Bool, true, false, arith, length, if◌then◌else◌,
  Option-cases, inl, inr,
}
use forge_zero.Gloria.Token.{TokenType}
use forge_zero.Gloria.Action.{
  Word, ◌is◌, State, Slots, Outcome, done, failed, panicked, endless, stuck, Action, pure, fail,
  panic, hang, follow, ◌>>=◌, first_word, other_words, next_word, peek_word, expect, with_fuel,
  find_var, get_stack_offset, declare_and_alloc, end_word,
}

-- The variables lie at the depths 8, 16 and so on, the last one deepest.
abbrev pub Laid : List (List ℕ × ℕ) → Type 0
Laid [] = Unit
Laid ((name, depth) ∷ rest) = (depth ≡ 8 * suc (length rest)) × Laid rest

abbrev pub IsLaid : Slots → Type 0
IsLaid slots = (slots.depth ≡ 8 * length slots.vars) × Laid slots.vars

-- What an action may answer: never `stuck`; a value only with no more tokens than before, and with
-- variables that are laid out if they were before.
abbrev pub Fine {ℓ} : {A : Type ℓ} → State → Outcome A → Type 0
Fine s (done a s') = (length s'.words ≤ length s.words) × (IsLaid s.slots → IsLaid s'.slots)
Fine s failed = Unit
Fine s panicked = Unit
Fine s endless = Unit
Fine s stuck = ⊥

-- The action does so wherever at most `n` tokens are left.
pub record Runs {ℓ} {A : Type ℓ} (n : ℕ) (m : Action A) : Type ℓ where
  pub at : (s : State) → length s.words ≤ n → Fine s (m s)

module _ {ℓ} {A : Type ℓ} (n : ℕ) where
  pub Runs-pure : (a : A) → Runs n (pure a)
  unfolding pure
  Runs-pure a = record { at = λ s h. (omega arith, λ l. l) }

  pub Runs-fail : Runs n (fail {A = A})
  unfolding fail
  Runs-fail = record { at = λ s h. tt }

  pub Runs-panic : Runs n (panic {A = A})
  unfolding panic
  Runs-panic = record { at = λ s h. tt }

  pub Runs-hang : Runs n (hang {A = A})
  unfolding hang
  Runs-hang = record { at = λ s h. tt }

  pub Runs-if :
      (b : Bool) (m k : Action A)
      → (b ≡ true → Runs n m)
      → (b ≡ false → Runs n k)
      → Runs n (if b then m else k)
  Runs-if true m k hm hk = hm refl
  Runs-if false m k hm hk = hk refl

Fine-later {ℓ} :
    {A : Type ℓ} (s s' : State) (o : Outcome A)
    → length s'.words ≤ length s.words
    → (IsLaid s.slots → IsLaid s'.slots)
    → Fine s' o
    → Fine s o
Fine-later s s' (done a s'') few laid (few', laid') = (omega arith, λ l. laid' (laid l))
Fine-later s s' failed few laid h = tt
Fine-later s s' panicked few laid h = tt
Fine-later s s' endless few laid h = tt
Fine-later s s' stuck few laid h = h

module _ {ℓ κ} {A : Type ℓ} {B : Type κ} (n : ℕ) where
  Fine-follow :
      (s : State) (o : Outcome A) (f : A → Action B)
      → length s.words ≤ n
      → Fine s o
      → ((a : A) → Runs n (f a))
      → Fine s (follow f o)
  Fine-follow s (done a s') f h (few, laid) hf =
      Fine-later s s' (f a s') few laid ((hf a).at s' (omega arith))
  Fine-follow s failed f h o hf = tt
  Fine-follow s panicked f h o hf = tt
  Fine-follow s endless f h o hf = tt
  Fine-follow s stuck f h o hf = o

  pub Runs-bind :
      (m : Action A) (f : A → Action B) → Runs n m → ((a : A) → Runs n (f a)) → Runs n (m >>= f)
  unfolding ◌>>=◌
  Runs-bind m f hm hf = record { at = λ s h. Fine-follow s (m s) f h (hm.at s h) hf }

module _ {ℓ} {B : Type ℓ} (n : ℕ) where
  Fine-read :
      (f : Word → Action B) (words : List Word) (slots : Slots)
      → length words ≤ n
      → Runs 0 (f end_word)
      → ((w : Word) (k : ℕ) → suc k ≤ n → Runs k (f w))
      → Fine
          (record { words = words; slots = slots })
          (f (first_word words) (record { words = other_words words; slots = slots }))
  Fine-read f [] slots h he hf = he.at (record { words = []; slots = slots }) (omega arith)
  Fine-read f (w ∷ rest) slots h he hf =
      Fine-later (record { words = w ∷ rest; slots = slots })
        (record { words = rest; slots = slots }) _ (omega arith) (λ l. l)
        ((hf w (length rest) (omega arith)).at (record { words = rest; slots = slots })
          (omega arith))

  -- A token that is read leaves one less; at the end there is none.
  pub Runs-read :
      (f : Word → Action B)
      → Runs 0 (f end_word)
      → ((w : Word) (k : ℕ) → suc k ≤ n → Runs k (f w))
      → Runs n (next_word >>= f)
  unfolding ◌>>=◌ next_word
  Runs-read f he hf = record { at = λ s h. Fine-read f s.words s.slots h he hf }

  pub Runs-with_fuel :
      (loop : ℕ → Action B)
      → ((k fuel : ℕ) → k < fuel → Runs k (loop fuel))
      → Runs n (with_fuel loop)
  unfolding with_fuel
  Runs-with_fuel loop h = record {
    at = λ s l. (h (length s.words) (suc (length s.words)) (omega arith)).at s (omega arith);
  }

length-other_words : (words : List Word) → length (other_words words) ≤ length words
length-other_words [] = omega arith
length-other_words (w ∷ rest) = omega arith

pub Runs-next_word : (n : ℕ) → Runs n next_word
unfolding next_word
Runs-next_word n = record { at = λ s h. (length-other_words s.words, λ l. l) }

pub Runs-peek_word : (n : ℕ) → Runs n peek_word
unfolding peek_word
Runs-peek_word n = record { at = λ s h. (omega arith, λ l. l) }

pub Runs-get_stack_offset : (n : ℕ) (name : List ℕ) → Runs n (get_stack_offset name)
unfolding get_stack_offset
Runs-get_stack_offset n name = record {
  at = λ s h. elim (Option-cases (find_var name s.slots.vars)) [
    | inl e ↦ rw (e, get_stack_offset) tt
    | inr (depth, e) ↦ rw (e, get_stack_offset) (omega arith, λ l. l)
  ];
}

pub Runs-declare_and_alloc : (n : ℕ) (name : List ℕ) → Runs n (declare_and_alloc name)
unfolding declare_and_alloc
Runs-declare_and_alloc n name = record {
  at = λ s h. elim (Option-cases (find_var name s.slots.vars)) [
    | inl e ↦
        rw (e, declare_and_alloc)
          (omega arith, λ l. (omega (arith, l.0), (omega (arith, l.0), l.1)))
    | inr (depth, e) ↦ rw (e, declare_and_alloc) tt
  ];
}

pub Runs-expect : (n : ℕ) (t : TokenType) → Runs n (expect t)
unfolding expect
Runs-expect n t =
    Runs-bind n next_word _ (Runs-next_word n)
      (λ w. Runs-if n (w is t) (pure w) fail (λ h. Runs-pure n w) (λ h. Runs-fail n))

pub ruleset runs_rules = (
  Runs-pure, Runs-fail, Runs-panic, Runs-hang, Runs-if, Runs-bind, Runs-next_word, Runs-peek_word,
  Runs-expect, Runs-get_stack_offset, Runs-declare_and_alloc,
)
