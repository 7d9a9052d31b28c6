-- ===== src/Drivers/Ring/Run.antt =====
-- What the tickets of a thread tell, and the steps that change nothing but the thread.
use forge_zero.Prelude.{ℕ, suc, ◌%◌, ◌≤◌, ◌<◌, ◌≡◌, ◌≢◌, refl, arith}
use forge_zero.Drivers.Ring.{
  Thread, idle, enq_start, enq_tail, enq_free, enq_claimed, enq_wrote, deq_start, deq_head,
  deq_full, deq_taken, deq_read, got, Ring, resume,
}
use forge_zero.Drivers.Ring.Sound.{enq_ticket, deq_ticket, Local, Sound, Keeps, Sound-resume}

module _ {A : Type 0} (cap : ℕ) where
  pub enq_ticket-Local :
      (s : Ring A) (thread : Thread A) (t : ℕ)
      → Local cap s thread
      → enq_ticket thread ≡ suc t
      → t < s.tail × s.seq (t % cap) ≡ t
  enq_ticket-Local s idle t l h = absurd (ground arith)
  enq_ticket-Local s (enq_start v) t l h = absurd (ground arith)
  enq_ticket-Local s (enq_tail v u) t l h = absurd (ground arith)
  enq_ticket-Local s (enq_free v u) t l h = absurd (ground arith)
  enq_ticket-Local s (enq_claimed v u) t (a, b, c) h =
      let e : u ≡ t = ground arith in rw (← e) (a, b)
  enq_ticket-Local s (enq_wrote u) t (a, b, c) h = let e : u ≡ t = ground arith in rw (← e) (a, b)
  enq_ticket-Local s deq_start t l h = absurd (ground arith)
  enq_ticket-Local s (deq_head u) t l h = absurd (ground arith)
  enq_ticket-Local s (deq_full u) t l h = absurd (ground arith)
  enq_ticket-Local s (deq_taken u) t l h = absurd (ground arith)
  enq_ticket-Local s (deq_read u v) t l h = absurd (ground arith)
  enq_ticket-Local s (got u v) t l h = absurd (ground arith)

  pub deq_ticket-Local :
      (s : Ring A) (thread : Thread A) (t : ℕ)
      → Local cap s thread
      → deq_ticket thread ≡ suc t
      → t < s.head × s.seq (t % cap) ≡ suc t
  deq_ticket-Local s idle t l h = absurd (ground arith)
  deq_ticket-Local s (enq_start v) t l h = absurd (ground arith)
  deq_ticket-Local s (enq_tail v u) t l h = absurd (ground arith)
  deq_ticket-Local s (enq_free v u) t l h = absurd (ground arith)
  deq_ticket-Local s (enq_claimed v u) t l h = absurd (ground arith)
  deq_ticket-Local s (enq_wrote u) t l h = absurd (ground arith)
  deq_ticket-Local s deq_start t l h = absurd (ground arith)
  deq_ticket-Local s (deq_head u) t l h = absurd (ground arith)
  deq_ticket-Local s (deq_full u) t l h = absurd (ground arith)
  deq_ticket-Local s (deq_taken u) t (a, b) h = let e : u ≡ t = ground arith in rw (← e) (a, b)
  deq_ticket-Local s (deq_read u v) t (a, b, c) h = let e : u ≡ t = ground arith in rw (← e) (a, b)
  deq_ticket-Local s (got u v) t l h = absurd (ground arith)

  pub same-Keeps : (s : Ring A) (thread : Thread A) → Keeps cap s s thread
  same-Keeps s thread = record {
    tails = omega arith;
    heads = omega arith;
    items = λ t h. refl;
    free = λ t a b c. c;
    claimed = λ t a b. (b, λ c. c);
    filled = λ h a b c. c;
    taken = λ h a b. b;
  }

  -- A step after which the thread has no ticket that it did not have before.
  pub Sound-changes :
      (i : ℕ) (thread : Thread A) (s s' : Ring A)
      → Sound cap s
      → ((k : ℕ) → s'.threads k ≡ s.threads k)
      → s'.head ≤ s'.tail
      → ((p : ℕ) → s'.seq (p % cap) ≡ suc p → p < s'.tail × s'.value (p % cap) ≡ s'.sent p)
      → Local cap s' thread
      → ((k : ℕ) → k ≢ i → Keeps cap s s' (s.threads k))
      → ((t : ℕ) → enq_ticket thread ≡ suc t → enq_ticket (s.threads i) ≡ suc t)
      → ((h : ℕ) → deq_ticket thread ≡ suc h → deq_ticket (s.threads i) ≡ suc h)
      → Sound cap (resume i thread s')
  Sound-changes i thread s s' sound same order full here others enq deq =
      Sound-resume cap i thread s s' sound same order full here others
        (λ k t n a b. n (sound.enq_apart k i t b (enq t a)))
        (λ k h n a b. n (sound.deq_apart k i h b (deq h a)))

  -- A step that changes nothing but the thread.
  pub Sound-moves :
      (i : ℕ) (thread : Thread A) (s : Ring A)
      → Sound cap s
      → Local cap s thread
      → ((t : ℕ) → enq_ticket thread ≡ suc t → enq_ticket (s.threads i) ≡ suc t)
      → ((h : ℕ) → deq_ticket thread ≡ suc h → deq_ticket (s.threads i) ≡ suc h)
      → Sound cap (resume i thread s)
  Sound-moves i thread s sound here enq deq =
      Sound-changes i thread s s sound (λ k. refl) sound.order sound.full here
        (λ k n. same-Keeps s (s.threads k)) enq deq
