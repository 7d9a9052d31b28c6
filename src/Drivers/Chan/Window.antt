-- ===== src/Drivers/Chan/Window.antt =====
-- Positions that wrap around, and the slots that a row of them stands for.
use forge_zero.Prelude.{
  get_or-set_other, get_or-append, ℕ, zero, suc, ◌+◌, ◌%◌, ◌<◌, ◌≤◌, ◌≡◌, ◌≢◌, refl, ap, List, [],
  ◌∷◌, ◌++◌, arith, length, get_or, set, length-set, length-append, subst,
}
use native.Mathlib.Nat.{div-add-mod, mod-eq_of_lt}
use forge_zero.Drivers.Chan.{window}

-- Two positions less than a round apart have different slots.
pub mod-ne_near : (h t n : ℕ) → h < t → t < h + n → h % n ≢ t % n
mod-ne_near h t n a b e = absurd (grind (arith, div-add-mod h n, div-add-mod t n))

module _ {ℓ} {A : Type ℓ} (nil : A) where
  pub length-window : (slots : List A) (h k : ℕ) → length (window nil slots h k) ≡ k
  unfolding window
  length-window slots h zero = refl
  length-window slots h (suc k) = ap suc (length-window slots (suc h) k)

  -- A write to a slot that the row does not have leaves the row as it is.
  pub window-set :
      (slots : List A) (h k i : ℕ) (v : A)
      → ((j : ℕ) → h ≤ j → j < h + k → i ≢ j % length slots)
      → window nil (set slots i v) h k ≡ window nil slots h k
  unfolding window
  window-set slots h zero i v f = refl
  window-set slots h (suc k) i v f =
      rw
        (
          length-set slots i v,
          get_or-set_other nil slots i (h % length slots) v (f h (omega arith) (omega arith)),
          window-set slots (suc h) k i v (λ j a b. f j (omega arith) (omega arith)),
        )
        refl

  pub window_last :
      (slots : List A) (h k : ℕ)
      → window nil slots h (suc k)
        ≡ window nil slots h k ++ get_or slots ((h + k) % length slots) nil ∷ []
  unfolding window
  window_last slots h zero = let e : h + 0 ≡ h = omega arith in rw e refl
  window_last slots h (suc k) =
      let e : h + suc k ≡ suc h + k = omega arith in
      rw e (ap (λ l. get_or slots (h % length slots) nil ∷ l) (window_last slots (suc h) k))

  -- A row is a list that its slots hold.
  pub window_reads :
      (slots : List A) (h : ℕ) (w : List A)
      → ((j : ℕ) → j < length w → get_or slots ((h + j) % length slots) nil ≡ get_or w j nil)
      → window nil slots h (length w) ≡ w
  unfolding window
  window_reads slots h [] f = refl
  window_reads slots h (x ∷ w) f =
      let here : get_or slots (h % length slots) nil ≡ x =
        subst (λ p. get_or slots (p % length slots) nil ≡ x) (omega arith) (f 0 (omega arith)) in
      rw
        (
          here,
          window_reads slots (suc h) w (λ j a.
              subst (λ p. get_or slots (p % length slots) nil ≡ get_or w j nil) (omega arith)
                (f (suc j) (omega arith))),
        )
        refl

  -- The start of a list, read from the first slot.
  pub window_front : (w post : List A) → window nil (w ++ post) 0 (length w) ≡ w
  window_front w post = window_reads (w ++ post) 0 w (λ j a.
      let z : 0 + j ≡ j = omega arith in
      let e : j % length (w ++ post) ≡ j = mod-eq_of_lt (omega (arith, length-append w post)) in
      rw (z, e) (get_or-append nil w post j a))
