-- ===== src/Prelude/Lists.antt =====
-- Lists measured and indexed by native numbers, under the library's names.
use Prim.Native.Nat.{ℕ, zero, suc, ◌+◌, ◌-◌, ◌<◌, min}
use mathlib.Core.Logic.{◌≢◌}
use mathlib.Core.Path.{◌≡◌, refl, ap}
use mathlib.Core.List.{List, [], ◌∷◌, ◌++◌}
use native.Mathlib.Omega.{arith}

module _ {ℓ} {A : Type ℓ} where
  abbrev pub length : List A → ℕ
  length [] = 0
  length (x ∷ xs) = suc (length xs)

  abbrev pub get_or : List A → ℕ → A → A
  get_or [] i d = d
  get_or (x ∷ xs) zero d = x
  get_or (x ∷ xs) (suc i) d = get_or xs i d

  -- A write out of bounds changes nothing.
  abbrev pub set : List A → ℕ → A → List A
  set [] i v = []
  set (x ∷ xs) zero v = v ∷ xs
  set (x ∷ xs) (suc i) v = x ∷ set xs i v

  abbrev pub take : ℕ → List A → List A
  take zero xs = []
  take (suc n) [] = []
  take (suc n) (x ∷ xs) = x ∷ take n xs

  abbrev pub drop : ℕ → List A → List A
  drop zero xs = xs
  drop (suc n) [] = []
  drop (suc n) (x ∷ xs) = drop n xs

  abbrev pub replicate : ℕ → A → List A
  replicate zero a = []
  replicate (suc n) a = a ∷ replicate n a

  pub length-append : (xs ys : List A) → length (xs ++ ys) ≡ length xs + length ys
  length-append [] ys = omega arith
  length-append (x ∷ xs) ys = omega (arith, length-append xs ys)

  pub length-set : (xs : List A) (i : ℕ) (v : A) → length (set xs i v) ≡ length xs
  length-set [] i v = refl
  length-set (x ∷ xs) zero v = refl
  length-set (x ∷ xs) (suc i) v = ap suc (length-set xs i v)

  pub length-take : (n : ℕ) (xs : List A) → length (take n xs) ≡ min n (length xs)
  length-take zero xs = omega arith
  length-take (suc n) [] = omega arith
  length-take (suc n) (x ∷ xs) = omega (arith, length-take n xs)

  pub length-drop : (n : ℕ) (xs : List A) → length (drop n xs) ≡ length xs - n
  length-drop zero xs = omega arith
  length-drop (suc n) [] = omega arith
  length-drop (suc n) (x ∷ xs) = omega (arith, length-drop n xs)

  pub length-replicate : (n : ℕ) (a : A) → length (replicate n a) ≡ n
  length-replicate zero a = refl
  length-replicate (suc n) a = ap suc (length-replicate n a)

module _ {ℓ} {A : Type ℓ} (d : A) where
  pub get_or-set_same : (xs : List A) (i : ℕ) (v : A) → i < length xs → get_or (set xs i v) i d ≡ v
  get_or-set_same [] i v h = absurd (omega arith)
  get_or-set_same (x ∷ xs) zero v h = refl
  get_or-set_same (x ∷ xs) (suc i) v h = get_or-set_same xs i v (omega arith)

  pub get_or-set_other :
      (xs : List A) (i j : ℕ) (v : A) → i ≢ j → get_or (set xs i v) j d ≡ get_or xs j d
  get_or-set_other [] i j v h = refl
  get_or-set_other (x ∷ xs) zero zero v h = absurd (h refl)
  get_or-set_other (x ∷ xs) zero (suc j) v h = refl
  get_or-set_other (x ∷ xs) (suc i) zero v h = refl
  get_or-set_other (x ∷ xs) (suc i) (suc j) v h = get_or-set_other xs i j v (λ e. h (ap suc e))

  pub get_or-append :
      (xs ys : List A) (j : ℕ) → j < length xs → get_or (xs ++ ys) j d ≡ get_or xs j d
  get_or-append [] ys j h = absurd (omega arith)
  get_or-append (x ∷ xs) ys zero h = refl
  get_or-append (x ∷ xs) ys (suc j) h = get_or-append xs ys j (omega arith)

  pub get_or-append_right :
      (xs ys : List A) (j : ℕ) → get_or (xs ++ ys) (length xs + j) d ≡ get_or ys j d
  get_or-append_right [] ys j = let e : 0 + j ≡ j = omega arith in rw e refl
  get_or-append_right (x ∷ xs) ys j =
      let e : suc (length xs) + j ≡ suc (length xs + j) = omega arith in
      rw e (get_or-append_right xs ys j)
