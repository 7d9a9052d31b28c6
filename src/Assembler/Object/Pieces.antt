-- ===== src/Assembler/Object/Pieces.antt =====
-- Lists that are put together, cut and written over.
use forge_zero.Prelude.{
  ℕ, suc, ◌+◌, ◌-◌, ◌%◌, ◌≤◌, ◌≡◌, refl, sym, ap, ◌∙◌, List, [], ◌∷◌, ◌++◌, length, length-append,
  length-replicate, take, drop, slice, replicate, arith, ◌==◌, Bool-cases, inl, inr, if◌then◌else◌,
  bit_and_low,
}
use forge_zero.Assembler.Text.{align_out}
use forge_zero.Assembler.Object.{align_out_offset, write_at, append_aligned}

module _ {ℓ} {A : Type ℓ} where
  pub append_nil : (xs : List A) → xs ++ [] ≡ xs
  append_nil [] = refl
  append_nil (x ∷ xs) = ap (λ l. x ∷ l) (append_nil xs)

  pub append_assoc : (xs ys zs : List A) → (xs ++ ys) ++ zs ≡ xs ++ (ys ++ zs)
  append_assoc [] ys zs = refl
  append_assoc (x ∷ xs) ys zs = ap (λ l. x ∷ l) (append_assoc xs ys zs)

  pub drop-append : (xs ys : List A) (n : ℕ) → drop (length xs + n) (xs ++ ys) ≡ drop n ys
  drop-append [] ys n = let e : 0 + n ≡ n = omega arith in rw e refl
  drop-append (x ∷ xs) ys n =
      let e : suc (length xs) + n ≡ suc (length xs + n) = omega arith in rw e (drop-append xs ys n)

  pub take-append : (xs ys : List A) → take (length xs) (xs ++ ys) ≡ xs
  take-append [] ys = refl
  take-append (x ∷ xs) ys = ap (λ l. x ∷ l) (take-append xs ys)

-- A list that begins with another.
abbrev pub Begins : List ℕ → List ℕ → Type 0
Begins front whole = (rest : List ℕ) × (whole ≡ front ++ rest)

pub Begins-trans : (a b c : List ℕ) → Begins a b → Begins b c → Begins a c
Begins-trans a b c (r, e) (s, f) = (r ++ s, f ∙ ap (λ l. l ++ s) e ∙ append_assoc a r s)

pub Begins-bound : (a b : List ℕ) → Begins a b → length a ≤ length b
Begins-bound a b (r, e) = omega (arith, ap length e, length-append a r)

-- The bytes behind a beginning.
pub slice-Begins :
    (a bytes whole : List ℕ)
    → Begins (a ++ bytes) whole
    → slice whole (length a) (length a + length bytes) ≡ bytes
slice-Begins a bytes whole (r, e) =
    let n : (length a + length bytes) - length a ≡ length bytes = omega arith in
    let z : length a ≡ length a + 0 = omega arith in
    let k : drop (length a) whole ≡ bytes ++ r =
      rw z (ap (drop (length a + 0)) (e ∙ append_assoc a bytes r) ∙ drop-append a (bytes ++ r) 0) in
    rw (n, k) (take-append bytes r)

-- The zeros that alignOut adds to a list of a length.
abbrev pub pad : ℕ → ℕ → List ℕ
pad n align = if align == 0 then [] else replicate ((align - n % align) % align) 0

pub align_out-pad : (out : List ℕ) (align : ℕ) → align_out out align ≡ out ++ pad (length out) align
unfolding align_out
align_out-pad out align = elim (Bool-cases (align == 0)) [
  | inl e ↦ rw e (sym (append_nil out))
  | inr e ↦ rw e refl
]

-- The place and the bytes of a part depend on the length of what is in front of it.
abbrev pub part : ℕ → ℕ → List ℕ → List ℕ
part n align [] = []
part n align (c ∷ rest) = pad n align ++ c ∷ rest

abbrev pub part_at : ℕ → ℕ → List ℕ → ℕ
part_at n align [] = 0
part_at n align (c ∷ rest) = n + length (pad n align)

pub append_aligned-part :
    (out : List ℕ) (align : ℕ) (bytes : List ℕ)
    → ((append_aligned out align bytes).0 ≡ out ++ part (length out) align bytes)
      × ((append_aligned out align bytes).1 ≡ part_at (length out) align bytes)
unfolding append_aligned
append_aligned-part out align [] = (sym (append_nil out), refl)
append_aligned-part out align (c ∷ rest) = (
  ap (λ l. l ++ c ∷ rest) (align_out-pad out align) ∙ append_assoc out _ _,
  ap length (align_out-pad out align) ∙ length-append out _,
)

-- A part is found where it is said to be.
pub slice-append_aligned :
    (out : List ℕ) (align : ℕ) (bytes whole : List ℕ)
    → Begins (append_aligned out align bytes).0 whole
    → slice whole
        (append_aligned out align bytes).1
        ((append_aligned out align bytes).1 + length bytes)
      ≡ bytes
unfolding append_aligned
slice-append_aligned out align [] whole h = refl
slice-append_aligned out align (c ∷ rest) whole h =
    slice-Begins (align_out out align) (c ∷ rest) whole h

pub write_at_front :
    (old new rest : List ℕ) → length old ≡ length new → write_at (old ++ rest) 0 new ≡ new ++ rest
unfolding write_at
write_at_front [] [] [] h = refl
write_at_front [] [] (r ∷ rest) h = refl
write_at_front [] (y ∷ ys) rest h = absurd (omega (arith, h))
write_at_front (x ∷ xs) [] rest h = absurd (omega (arith, h))
write_at_front (x ∷ xs) (y ∷ ys) rest h =
    ap (λ l. y ∷ l) (write_at_front xs ys rest (omega (arith, h)))

-- Bytes are written over as many others.
pub write_at-append :
    (a old new rest : List ℕ)
    → length old ≡ length new
    → write_at (a ++ (old ++ rest)) (length a) new ≡ a ++ (new ++ rest)
unfolding write_at
write_at-append [] old new rest h = write_at_front old new rest h
write_at-append (x ∷ xs) old new rest h = ap (λ l. x ∷ l) (write_at-append xs old new rest h)

-- With 64 the offset of alignOutOffset is the length that alignOut gives.
pub align_out_offset-align_out :
    (out : List ℕ) → align_out_offset (length out) 64 ≡ length (align_out out 64)
unfolding align_out_offset align_out
align_out_offset-align_out out = omega (
  arith,
  (bit_and_low (length out + 63)).0,
  length-append out (replicate ((64 - length out % 64) % 64) 0),
  length-replicate {A = ℕ} ((64 - length out % 64) % 64) 0,
)
