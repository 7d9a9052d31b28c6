-- ===== src/Drivers/Chan/Fifo.antt =====
-- The queue against the list of its items.
use forge_zero.Prelude.{
  get_or-set_same, ℕ, zero, suc, ◌+◌, ◌-◌, ◌*◌, ◌%◌, ◌^◌, ◌<◌, ◌≤◌, ◌≡◌, ◌⊎◌, refl, sym, ap, List,
  [], ◌∷◌, ◌++◌, arith, none, some, length, get_or, set, length-set, length-append,
  length-replicate, subst, ◌∙◌, Bool-cases, inl, inr, ◌==◌, replicate,
}
use native.Mathlib.Nat.{mod-lt, mod-eq_of_lt}
use forge_zero.Drivers.Chan.{Mpsc, power_size, new_mpsc, window, grow, put_item, enqueue, dequeue}
use forge_zero.Drivers.Chan.Window.{
  mod-ne_near, length-window, window-set, window_last, window_front,
}

-- The items lie in slots of their own, and the positions are in range.
abbrev pub IsValid {ℓ} : {A : Type ℓ} → Mpsc A → Type 0
IsValid q =
    (q.head ≤ q.tail)
    × (q.tail - q.head ≤ length q.slots)
    × (1 ≤ length q.slots)
    × (q.tail < 2 ^ 64)

-- A size that is doubled as often as there is fuel.
abbrev doubled : ℕ → ℕ → ℕ
doubled zero cap = cap
doubled (suc fuel) cap = doubled fuel (cap * 2)

power_size_enough :
    (fuel cap wanted : ℕ)
    → 1 ≤ cap
    → wanted ≤ doubled fuel cap
    → (wanted ≤ power_size fuel cap wanted) × (1 ≤ power_size fuel cap wanted)
unfolding power_size
power_size_enough zero cap wanted p h = (h, p)
power_size_enough (suc fuel) cap wanted p h =
    ground (arith, power_size_enough fuel (cap * 2) wanted (omega arith) h)

module _ {ℓ} {A : Type ℓ} (nil : A) where
  abbrev pub items : Mpsc A → List A
  items q = window nil q.slots q.head (q.tail - q.head)

  length-grow : (q : Mpsc A) → IsValid q → length (grow nil q).slots ≡ length q.slots * 2
  unfolding grow
  length-grow q (a, b, c, d) =
      rw
        (
          length-append (items q) (replicate (length q.slots * 2 - (q.tail - q.head)) nil),
          length-replicate (length q.slots * 2 - (q.tail - q.head)) nil,
          length-window nil q.slots q.head (q.tail - q.head),
        )
        (omega arith)

  grow-IsValid : (q : Mpsc A) → IsValid q → IsValid (grow nil q)
  unfolding grow
  grow-IsValid q (a, b, c, d) = (
    omega arith,
    omega (arith, length-grow q (a, b, c, d)),
    omega (arith, length-grow q (a, b, c, d)),
    omega arith,
  )

  -- There is room behind the copied items.
  grow_room :
      (q : Mpsc A)
      → IsValid q
      → ((grow nil q).tail - (grow nil q).head < length (grow nil q).slots)
        × ((grow nil q).tail ≤ q.tail)
  unfolding grow
  grow_room q (a, b, c, d) = (omega (arith, length-grow q (a, b, c, d)), omega arith)

  items-grow : (q : Mpsc A) → items (grow nil q) ≡ items q
  unfolding grow
  items-grow q =
      let rest : List A = replicate (length q.slots * 2 - (q.tail - q.head)) nil in
      let e : length (items q) ≡ q.tail - q.head - 0 =
        omega (arith, length-window nil q.slots q.head (q.tail - q.head)) in
      subst (λ k. window nil (items q ++ rest) 0 k ≡ items q) e (window_front nil (items q) rest)

  put_item_appends :
      (v : A) (q : Mpsc A)
      → IsValid q
      → q.tail - q.head < length q.slots
      → q.tail + 1 < 2 ^ 64
      → IsValid (put_item nil v q) × (items (put_item nil v q) ≡ items q ++ v ∷ [])
  unfolding put_item
  put_item_appends v q (a, b, c, d) r o =
      let spot : ℕ = q.tail % length q.slots in
      let fits : spot < length q.slots = mod-lt q.tail (omega arith) in
      let wraps : (q.tail + 1) % 2 ^ 64 ≡ q.tail + 1 = mod-eq_of_lt o in
      let count : q.tail + 1 - q.head ≡ suc (q.tail - q.head) = omega arith in
      let end : q.head + (q.tail - q.head) ≡ q.tail = omega arith in
      let kept : window nil (set q.slots spot v) q.head (q.tail - q.head) ≡ items q =
        window-set nil q.slots q.head (q.tail - q.head) spot v (λ j h k.
          λ e. mod-ne_near j q.tail (length q.slots) (omega arith) (omega arith) (sym e)) in
      (
        (
          omega (arith, wraps),
          omega (arith, wraps, length-set q.slots spot v),
          omega (arith, length-set q.slots spot v),
          omega arith,
        ),
        rw
            (
              wraps,
              count,
              window_last nil (set q.slots spot v) q.head (q.tail - q.head),
              end,
              kept,
              length-set q.slots spot v,
              get_or-set_same nil q.slots spot v fits,
            )
            refl,
      )

  -- If the positions do not reach 2^64, an item that is put in a valid queue comes behind the
  -- items that are there, also if the queue is full and grows, and the queue is valid again.
  pub enqueue_appends :
      (v : A) (q : Mpsc A)
      → IsValid q
      → q.tail + 1 < 2 ^ 64
      → IsValid (enqueue nil v q) × (items (enqueue nil v q) ≡ items q ++ v ∷ [])
  unfolding enqueue
  enqueue_appends v q (a, b, c, d) o = elim (Bool-cases (q.tail - q.head == length q.slots)) [
    | inl full ↦
        let valid : IsValid q = (a, b, c, d) in
        let (room, less) = grow_room q valid in
        let (kept, e) = put_item_appends v (grow nil q) (grow-IsValid q valid) room (omega arith) in
        rw full (kept, e ∙ ap (λ l. l ++ v ∷ []) (items-grow q))
    | inr room ↦ rw room (put_item_appends v q (a, b, c, d) (ground arith) o)
  ]

  -- A valid queue without items gives none and stays as it is; another gives the first of its
  -- items, keeps the others and is valid again.
  pub dequeue_takes :
      (q : Mpsc A)
      → IsValid q
      → IsValid (dequeue nil q).1
        × ((((dequeue nil q).0 ≡ none) × (items q ≡ []) × ((dequeue nil q).1 ≡ q))
            ⊎ ((v : A) × ((dequeue nil q).0 ≡ some v) × (items q ≡ v ∷ items (dequeue nil q).1)))
  unfolding dequeue window
  dequeue_takes q (a, b, c, d) = elim (Bool-cases (q.head == q.tail)) [
    | inl none_left ↦
        let z : q.tail - q.head ≡ 0 = ground arith in
        rw none_left ((a, b, c, d), inl (refl, rw z refl, refl))
    | inr some_left ↦
        let before : q.head < q.tail = ground arith in
        let wraps : (q.head + 1) % 2 ^ 64 ≡ suc q.head = mod-eq_of_lt (omega arith) ∙ omega arith in
        let z : q.tail - q.head ≡ suc (q.tail - suc q.head) = omega arith in
        let spot : ℕ = q.head % length q.slots in
        let kept : window nil (set q.slots spot nil) (suc q.head) (q.tail - suc q.head)
            ≡ window nil q.slots (suc q.head) (q.tail - suc q.head) =
          window-set nil q.slots (suc q.head) (q.tail - suc q.head) spot nil
            (λ j h k. mod-ne_near q.head j (length q.slots) (omega arith) (omega arith)) in
        rw (some_left, wraps, kept)
          (
            (
              omega arith,
              omega (arith, length-set q.slots spot nil),
              omega (arith, length-set q.slots spot nil),
              d,
            ),
            inr (get_or q.slots spot nil, refl, rw z refl),
          )
  ]

  -- A size that is asked for, up to 2^63, is given: the new queue is valid, has no items, and at
  -- least so many slots.
  pub new_mpsc_empty :
      (wanted : ℕ)
      → wanted ≤ 2 ^ 63
      → IsValid (new_mpsc nil wanted)
        × (items (new_mpsc nil wanted) ≡ [])
        × (wanted ≤ length (new_mpsc nil wanted).slots)
  unfolding new_mpsc window
  new_mpsc_empty wanted h =
      let size : ℕ = power_size 63 1 wanted in
      let e : length (replicate size nil) ≡ size = length-replicate size nil in
      let (big, some_room) = power_size_enough 63 1 wanted (omega arith) h in
      ((omega arith, omega (arith, e), omega (arith, e), omega arith), refl, omega (arith, e))
