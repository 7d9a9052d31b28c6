-- ===== src/Drivers/Ring/Fifo.antt =====
-- The items that the ring queue hands out.
use forge_zero.Prelude.{
  ℕ, zero, suc, ◌+◌, ◌%◌, ◌^◌, ◌≤◌, ◌<◌, ◌≡◌, refl, sym, ap, ◌∙◌, subst, arith,
}
use native.Mathlib.Nat.{div-add-mod, mod-eq_of_lt}
use forge_zero.Drivers.Ring.{
  Thread, idle, enq_start, enq_tail, enq_free, deq_start, deq_head, deq_full, deq_read, got, Ring,
  resume, new_ring, Step, Steps, begin_enqueue, load_tail, slot_free, slot_old, slot_ahead, claim,
  claim_lost, write_item, publish, begin_dequeue, load_head, slot_full, slot_empty, slot_taken,
  take, take_lost, read_value, release, finish, stay, then,
}
use forge_zero.Drivers.Ring.Sound.{enq_ticket, deq_ticket, Local, Sound}
use forge_zero.Drivers.Ring.Run.{Sound-moves}
use forge_zero.Drivers.Ring.Changes.{
  Sound-claim, Sound-take, Sound-write_item, Sound-publish, Sound-release,
}

module _ {A : Type 0} (cap : ℕ) (two : 2 ≤ cap) where
  -- No step but one moves the tail, and that by one.
  abbrev Goes : Ring A → Ring A → Type 0
  Goes s s' = Sound cap s' × s'.tail ≤ suc s.tail

  -- A thread that gives up a position or has none, at a place where it relies on nothing.
  moves :
      {s : Ring A} (i : ℕ) (thread : Thread A)
      → Sound cap s
      → Local cap s thread
      → enq_ticket thread ≡ 0
      → deq_ticket thread ≡ 0
      → Goes s (resume i thread s)
  moves {s = s} i thread sound here a b = (
    Sound-moves cap i thread s sound here (λ t e. absurd (omega (arith, a, e)))
        (λ h e. absurd (omega (arith, b, e))),
    omega arith,
  )

  Sound-Step : {s s' : Ring A} → s.tail + cap + 1 < 2 ^ 64 → Sound cap s → Step cap s s' → Goes s s'
  Sound-Step b sound (begin_enqueue i v e) = moves i (enq_start v) sound tt refl refl
  Sound-Step {s = s} b sound (load_tail i v e) =
      moves i (enq_tail v s.tail) sound (omega arith) refl refl
  Sound-Step {s = s} b sound (slot_free i v t e f) =
      moves i (enq_free v t) sound (subst (Local cap s) e (sound.local i), λ g. f) refl refl
  Sound-Step b sound (slot_old i v t e f) = moves i idle sound tt refl refl
  Sound-Step b sound (slot_ahead i v t e f) = moves i (enq_start v) sound tt refl refl
  Sound-Step {s = s} b sound (claim i v t e f) =
      let (x, y) = subst (Local cap s) e (sound.local i) in
      let w : (t + 1) % 2 ^ 64 ≡ suc t = omega (arith, b, f) in
      (Sound-claim cap two s sound i v t f w (y (sym f)), omega (arith, w, f))
  Sound-Step b sound (claim_lost i v t e f) = moves i (enq_start v) sound tt refl refl
  Sound-Step {s = s} b sound (write_item i v t e) =
      (Sound-write_item cap two s sound i v t e, omega arith)
  Sound-Step {s = s} b sound (publish i t e) =
      let (x, y, z) = subst (Local cap s) e (sound.local i) in
      (Sound-publish cap two s sound i t e (omega (arith, x, b)), omega arith)
  Sound-Step b sound (begin_dequeue i e) = moves i deq_start sound tt refl refl
  Sound-Step {s = s} b sound (load_head i e) =
      moves i (deq_head s.head) sound (omega arith) refl refl
  Sound-Step {s = s} b sound (slot_full i h e f) =
      let x = subst (Local cap s) e (sound.local i) in
      moves i (deq_full h) sound (x, λ g. f ∙ omega (arith, x, sound.order, b)) refl refl
  Sound-Step b sound (slot_empty i h e f g) = moves i idle sound tt refl refl
  Sound-Step b sound (slot_taken i h e f g) = moves i deq_start sound tt refl refl
  Sound-Step {s = s} b sound (take i h e f) =
      let (x, y) = subst (Local cap s) e (sound.local i) in
      (Sound-take cap two s sound i h f (omega (arith, x, sound.order, b)) (y (sym f)), omega arith)
  Sound-Step b sound (take_lost i h e f) = moves i deq_start sound tt refl refl
  Sound-Step {s = s} b sound (read_value i h e) =
      let (x, y) = subst (Local cap s) e (sound.local i) in
      let mine : deq_ticket (s.threads i) ≡ suc h = ap deq_ticket e in
      (
        Sound-moves cap i (deq_read h (s.value (h % cap))) s sound (x, y, (sound.full h y).1)
            (λ t q. absurd (omega (arith, q))) (λ t q. mine ∙ q),
        omega arith,
      )
  Sound-Step {s = s} b sound (release i h v e) =
      let (x, y, z) = subst (Local cap s) e (sound.local i) in
      (
        Sound-release cap two s sound i h v e (mod-eq_of_lt (omega (arith, x, sound.order, b))),
        omega arith,
      )
  Sound-Step b sound (finish i h v e) = moves i idle sound tt refl refl

  new_ring-Sound : (nil : A) → Sound cap (new_ring nil)
  new_ring-Sound nil = record {
    order = omega arith;
    full = λ p h. absurd (grind (arith, h, div-add-mod p cap));
    local = λ i. tt;
    enq_apart = λ i k t a b. absurd (omega (arith, a));
    deq_apart = λ i k t a b. absurd (omega (arith, a));
  }

  Sound-Steps :
      (nil : A) (n : ℕ) (s : Ring A)
      → Steps cap n (new_ring nil) s
      → n + cap < 2 ^ 64
      → Sound cap s × s.tail ≤ n
  Sound-Steps nil zero s stay h = (new_ring-Sound nil, omega arith)
  Sound-Steps nil (suc n) s (then {t = t} run step) h =
      let (a, b) = Sound-Steps nil n t run (omega arith) in
      let (c, d) = Sound-Step (omega (arith, b)) a step in (c, omega (arith, b, d))

-- Whatever the order of the steps of the threads, in a run of fewer than 2^64 steps less the
-- capacity of a ring queue with at least two slots: the item that tryDequeue answers from a position
-- is the one that tryEnqueue has put at that position, which has been claimed.
pub ring_fifo :
    {A : Type 0} (cap n : ℕ) (nil : A) (s : Ring A) (i p : ℕ) (v : A)
    → 2 ≤ cap
    → Steps cap n (new_ring nil) s
    → n + cap < 2 ^ 64
    → s.threads i ≡ got p v
    → (v ≡ s.sent p) × p < s.head × s.head ≤ s.tail
ring_fifo cap n nil s i p v two run h e =
    let sound = (Sound-Steps cap two nil n s run h).0 in
    let (a, b) = subst (Local cap s) e (sound.local i) in (b, a, sound.order)
