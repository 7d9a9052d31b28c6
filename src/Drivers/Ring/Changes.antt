-- ===== src/Drivers/Ring/Changes.antt =====
-- The five steps that change what the threads share.
use forge_zero.Prelude.{
  ℕ, suc, ◌+◌, ◌%◌, ◌^◌, ◌≤◌, ◌<◌, ◌≡◌, ◌≢◌, refl, sym, ap, ◌∙◌, subst, arith, ◌==◌, ==_iff,
  Bool-cases, inl, inr,
}
use forge_zero.Drivers.Chan.Window.{mod-ne_near}
use forge_zero.Drivers.Ring.{
  idle, enq_claimed, enq_wrote, deq_taken, deq_read, got, Ring, resume, claim_tail, take_head,
  write_value, write_seq,
}
use forge_zero.Drivers.Ring.Sound.{
  store_same, store_other, enq_ticket, deq_ticket, Local, Sound, Sound-resume,
}
use forge_zero.Drivers.Ring.Run.{enq_ticket-Local, deq_ticket-Local, Sound-changes}

module _ {A : Type 0} (cap : ℕ) (two : 2 ≤ cap) (s : Ring A) (sound : Sound cap s) (i : ℕ) where
  -- The slot of a position is not that of the next, nor that of the last one before it is free.
  next_slot : (t : ℕ) → t % cap ≢ suc t % cap
  next_slot t = mod-ne_near t (suc t) cap (omega arith) (omega arith)

  pub Sound-claim :
      (v : A) (t : ℕ)
      → s.tail ≡ t
      → (t + 1) % 2 ^ 64 ≡ suc t
      → s.seq (t % cap) ≡ t
      → Sound cap (resume i (enq_claimed v t) (claim_tail cap t v s))
  Sound-claim v t e w f =
      let s' = claim_tail cap t v s in
      let sent : (p : ℕ) → p < s.tail → s'.sent p ≡ s.sent p =
        λ p h. store_other s.sent t p v (λ q. omega (arith, e, h, q)) in
      Sound-resume cap i (enq_claimed v t) s s' sound (λ k. refl) (omega (arith, sound.order, w, e))
        (λ p h. let (a, b) = sound.full p h in (omega (arith, w, e, a), b ∙ sym (sent p a)))
        (omega (arith, w), f, store_same s.sent t v)
        (λ k n. record {
          tails = omega (arith, w, e);
          heads = omega arith;
          items =
              λ p h. elim h [ inl a ↦ sent p (omega (arith, a, sound.order)) | inr a ↦ sent p a ];
          free = λ u a b c. absurd (omega (arith, a, b, w, e));
          claimed = λ u a b. (b, λ c. c);
          filled = λ h a b c. c;
          taken = λ h a b. b;
        })
        (λ k u n a b.
          let (c, d) = enq_ticket-Local cap s (s.threads k) u (sound.local k) b in
          omega (arith, a, c, e))
        (λ k h n a b. omega (arith, a))

  pub Sound-take :
      (h : ℕ)
      → s.head ≡ h
      → (h + 1) % 2 ^ 64 ≡ suc h
      → s.seq (h % cap) ≡ suc h
      → Sound cap (resume i (deq_taken h) (take_head cap h s))
  Sound-take h e w f =
      let s' = take_head cap h s in
      Sound-resume cap i (deq_taken h) s s' sound (λ k. refl) (omega (arith, w, (sound.full h f).0))
        sound.full (omega (arith, w), f)
        (λ k n. record {
          tails = omega arith;
          heads = omega (arith, w, e);
          items = λ p q. refl;
          free = λ u a b c. c;
          claimed = λ u a b. (b, λ c. c);
          filled = λ u a b c. absurd (omega (arith, a, b, w, e));
          taken = λ u a b. b;
        })
        (λ k u n a b. omega (arith, a))
        (λ k u n a b.
          let (c, d) = deq_ticket-Local cap s (s.threads k) u (sound.local k) b in
          omega (arith, a, c, e))

  pub Sound-write_item :
      (v : A) (t : ℕ)
      → s.threads i ≡ enq_claimed v t
      → Sound cap (resume i (enq_wrote t) (write_value cap t v s))
  Sound-write_item v t e =
      let s' = write_value cap t v s in
      let (a, b, c) = subst (Local cap s) e (sound.local i) in
      let mine : enq_ticket (s.threads i) ≡ suc t = ap enq_ticket e in
      Sound-changes cap i (enq_wrote t) s s' sound (λ k. refl) sound.order
        (λ p h.
          let (x, y) = sound.full p h in
          let apart : p % cap ≢ t % cap = λ q.
            let z : suc p ≡ t = sym h ∙ ap s.seq q ∙ b in
            next_slot p (q ∙ ap (λ n. n % cap) (sym z)) in
          (x, store_other s.value (t % cap) (p % cap) v apart ∙ y))
        (a, b, store_same s.value (t % cap) v ∙ sym c)
        (λ k n. record {
          tails = omega arith;
          heads = omega arith;
          items = λ p q. refl;
          free = λ u x y z. z;
          claimed = λ u x y. (
            y,
            λ z.
                store_other s.value (t % cap) (u % cap) v (λ q.
                  let w : u ≡ t = sym y ∙ ap s.seq q ∙ b in
                  n (sound.enq_apart k i t (x ∙ ap suc w) mine))
                ∙ z,
          );
          filled = λ u x y z. z;
          taken = λ u x y. y;
        })
        (λ u x. mine ∙ x) (λ u x. absurd (omega (arith, x)))

  pub Sound-publish :
      (t : ℕ)
      → s.threads i ≡ enq_wrote t
      → (t + 1) % 2 ^ 64 ≡ suc t
      → Sound cap (resume i idle (write_seq cap t (t + 1) s))
  Sound-publish t e w =
      let s' = write_seq cap t (t + 1) s in
      let (a, b, c) = subst (Local cap s) e (sound.local i) in
      let mine : enq_ticket (s.threads i) ≡ suc t = ap enq_ticket e in
      let other : (p n : ℕ) → s.seq (p % cap) ≡ n → p % cap ≢ t % cap → s'.seq (p % cap) ≡ n =
        λ p n h q. store_other s.seq (t % cap) (p % cap) ((t + 1) % 2 ^ 64) q ∙ h in
      let full_apart : (h : ℕ) → s.seq (h % cap) ≡ suc h → h % cap ≢ t % cap = λ h x q.
        let z : suc h ≡ t = sym x ∙ ap s.seq q ∙ b in next_slot h (q ∙ ap (λ n. n % cap) (sym z)) in
      Sound-changes cap i idle s s' sound (λ k. refl) sound.order
        (λ p h. elim (Bool-cases (p % cap == t % cap)) [
          | inl q ↦
              let same : p % cap ≡ t % cap = (==_iff (p % cap) (t % cap)).0 q in
              let x : suc p ≡ suc t = sym (rw q at h) ∙ w in
              let z : t ≡ p = omega (arith, x) in
              subst (λ n. n < s.tail × s.value (n % cap) ≡ s.sent n) z (a, c)
          | inr q ↦ sound.full p (rw q at h)
        ])
        tt
        (λ k n. record {
          tails = omega arith;
          heads = omega arith;
          items = λ p q. refl;
          free = λ u x y z.
              other u u z (λ q. let m : u ≡ t = sym z ∙ ap s.seq q ∙ b in omega (arith, m, a, y));
          claimed = λ u x y. (
            other u u y (λ q.
                let m : u ≡ t = sym y ∙ ap s.seq q ∙ b in
                n (sound.enq_apart k i t (x ∙ ap suc m) mine)),
            λ z. z,
          );
          filled = λ u x y z. other u (suc u) z (full_apart u z);
          taken = λ u x y. other u (suc u) y (full_apart u y);
        })
        (λ u x. absurd (omega (arith, x))) (λ u x. absurd (omega (arith, x)))

  pub Sound-release :
      (h : ℕ) (v : A)
      → s.threads i ≡ deq_read h v
      → (h + cap) % 2 ^ 64 ≡ h + cap
      → Sound cap (resume i (got h v) (write_seq cap h (h + cap) s))
  Sound-release h v e w =
      let s' = write_seq cap h (h + cap) s in
      let (a, b, c) = subst (Local cap s) e (sound.local i) in
      let mine : deq_ticket (s.threads i) ≡ suc h = ap deq_ticket e in
      let other : (p n : ℕ) → s.seq (p % cap) ≡ n → p % cap ≢ h % cap → s'.seq (p % cap) ≡ n =
        λ p n x q. store_other s.seq (h % cap) (p % cap) ((h + cap) % 2 ^ 64) q ∙ x in
      let free_apart : (t : ℕ) → s.seq (t % cap) ≡ t → t % cap ≢ h % cap = λ t x q.
        let z : t ≡ suc h = sym x ∙ ap s.seq q ∙ b in next_slot h (sym q ∙ ap (λ n. n % cap) z) in
      Sound-changes cap i (got h v) s s' sound (λ k. refl) sound.order
        (λ p x. elim (Bool-cases (p % cap == h % cap)) [
          | inl q ↦
              let same : p % cap ≡ h % cap = (==_iff (p % cap) (h % cap)).0 q in
              let y : suc p ≡ h + cap = sym (rw q at x) ∙ w in
              absurd (mod-ne_near h p cap (omega (arith, y, two)) (omega (arith, y)) (sym same))
          | inr q ↦ sound.full p (rw q at x)
        ])
        (a, c)
        (λ k n. record {
          tails = omega arith;
          heads = omega arith;
          items = λ p q. refl;
          free = λ u x y z. other u u z (free_apart u z);
          claimed = λ u x y. (other u u y (free_apart u y), λ z. z);
          filled = λ u x y z.
              other u (suc u) z
                (λ q. let m : suc u ≡ suc h = sym z ∙ ap s.seq q ∙ b in omega (arith, m, a, y));
          taken = λ u x y. other u (suc u) y (λ q.
              let m : suc u ≡ suc h = sym y ∙ ap s.seq q ∙ b in
              n (sound.deq_apart k i h (x ∙ m) mine));
        })
        (λ u x. absurd (omega (arith, x))) (λ u x. absurd (omega (arith, x)))
