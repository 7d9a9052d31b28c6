-- ===== src/Drivers/Ring/Sound.antt =====
-- What holds in every state of a run of the ring queue.
use forge_zero.Prelude.{
  ℕ, suc, ◌%◌, ◌≤◌, ◌<◌, ◌≡◌, ◌≢◌, refl, sym, ◌∙◌, arith, ◌==◌, ==_iff, Bool-cases, inl, inr, true,
  false,
}
use forge_zero.Prelude.{◌⊎◌}
use forge_zero.Drivers.Ring.{
  Thread, idle, enq_start, enq_tail, enq_free, enq_claimed, enq_wrote, deq_start, deq_head,
  deq_full, deq_taken, deq_read, got, Ring, store, resume,
}

module _ {ℓ} {A : Type ℓ} where
  pub store_same : (f : ℕ → A) (j : ℕ) (a : A) → store f j a j ≡ a
  store_same f j a = let e : (j == j) ≡ true = (==_iff j j).1 refl in rw e refl

  pub store_other : (f : ℕ → A) (j k : ℕ) (a : A) → k ≢ j → store f j a k ≡ f k
  store_other f j k a h = let e : (k == j) ≡ false = ground arith in rw e refl

-- The position that a thread has claimed for its item, and the one that it takes an item from, and
-- one more; else 0.
abbrev pub enq_ticket {ℓ} : {A : Type ℓ} → Thread A → ℕ
enq_ticket (enq_claimed v t) = suc t
enq_ticket (enq_wrote t) = suc t
enq_ticket _ = 0

abbrev pub deq_ticket {ℓ} : {A : Type ℓ} → Thread A → ℕ
deq_ticket (deq_taken h) = suc h
deq_ticket (deq_read h v) = suc h
deq_ticket _ = 0

-- No two of the threads `f` have the same ticket.
abbrev pub Apart : {A : Type 0} → (Thread A → ℕ) → (ℕ → Thread A) → Type 0
Apart ticket f = (i k t : ℕ) → ticket (f i) ≡ suc t → ticket (f k) ≡ suc t → i ≡ k

store-Apart :
    {A : Type 0} (ticket : Thread A → ℕ) (f g : ℕ → Thread A) (i : ℕ) (thread : Thread A)
    → Apart ticket f
    → ((k : ℕ) → g k ≡ f k)
    → ((k t : ℕ) → k ≢ i → ticket thread ≡ suc t → ticket (f k) ≢ suc t)
    → Apart ticket (store g i thread)
store-Apart ticket f g i thread apart same new j k t a b = elim (Bool-cases (j == i)) [
  | inl d ↦
      let a' = rw d at a in
      elim (Bool-cases (k == i)) [
        | inl e ↦ ground (arith, d, e)
        | inr e ↦ let b' = rw (e, same k) at b in absurd (new k t (ground (arith, e)) a' b')
      ]
  | inr d ↦
      let a' = rw (d, same j) at a in
      elim (Bool-cases (k == i)) [
        | inl e ↦ let b' = rw e at b in absurd (new j t (ground (arith, d)) b' a')
        | inr e ↦ let b' = rw (e, same k) at b in apart j k t a' b'
      ]
]

module _ {A : Type 0} (cap : ℕ) where
  -- What a thread may rely on.
  abbrev pub Local : Ring A → Thread A → Type 0
  Local s idle = Unit
  Local s (enq_start v) = Unit
  Local s (enq_tail v t) = t ≤ s.tail
  Local s (enq_free v t) = t ≤ s.tail × (t ≡ s.tail → s.seq (t % cap) ≡ t)
  Local s (enq_claimed v t) = t < s.tail × s.seq (t % cap) ≡ t × s.sent t ≡ v
  Local s (enq_wrote t) = t < s.tail × s.seq (t % cap) ≡ t × s.value (t % cap) ≡ s.sent t
  Local s deq_start = Unit
  Local s (deq_head h) = h ≤ s.head
  Local s (deq_full h) = h ≤ s.head × (h ≡ s.head → s.seq (h % cap) ≡ suc h)
  Local s (deq_taken h) = h < s.head × s.seq (h % cap) ≡ suc h
  Local s (deq_read h v) = h < s.head × s.seq (h % cap) ≡ suc h × v ≡ s.sent h
  Local s (got h v) = h < s.head × v ≡ s.sent h

  -- The positions are in order, a full slot has the item of its position, every thread may rely on
  -- what it has seen, and no two threads have claimed or taken the same position.
  pub record Sound (s : Ring A) : Type 0 where
    pub order : s.head ≤ s.tail
    pub full : (p : ℕ) → s.seq (p % cap) ≡ suc p → p < s.tail × s.value (p % cap) ≡ s.sent p
    pub local : (i : ℕ) → Local s (s.threads i)
    pub enq_apart : Apart enq_ticket s.threads
    pub deq_apart : Apart deq_ticket s.threads

  -- A change of the shared state that a thread does not notice.
  pub record Keeps (s s' : Ring A) (thread : Thread A) : Type 0 where
    pub tails : s.tail ≤ s'.tail
    pub heads : s.head ≤ s'.head
    pub items : (t : ℕ) → t < s.head ⊎ t < s.tail → s'.sent t ≡ s.sent t
    pub free : (t : ℕ) → t ≤ s.tail → t ≡ s'.tail → s.seq (t % cap) ≡ t → s'.seq (t % cap) ≡ t
    pub claimed :
        (t : ℕ)
        → enq_ticket thread ≡ suc t
        → s.seq (t % cap) ≡ t
        → s'.seq (t % cap) ≡ t × (s.value (t % cap) ≡ s.sent t → s'.value (t % cap) ≡ s.sent t)
    pub filled :
        (h : ℕ) → h ≤ s.head → h ≡ s'.head → s.seq (h % cap) ≡ suc h → s'.seq (h % cap) ≡ suc h
    pub taken :
        (h : ℕ) → deq_ticket thread ≡ suc h → s.seq (h % cap) ≡ suc h → s'.seq (h % cap) ≡ suc h

  Local-Keeps :
      (s s' : Ring A) (thread : Thread A) → Keeps s s' thread → Local s thread → Local s' thread
  Local-Keeps s s' idle k l = tt
  Local-Keeps s s' (enq_start v) k l = tt
  Local-Keeps s s' (enq_tail v t) k l = omega (arith, k.tails)
  Local-Keeps s s' (enq_free v t) k (a, b) =
      (omega (arith, k.tails), λ e. k.free t a e (b (omega (arith, k.tails))))
  Local-Keeps s s' (enq_claimed v t) k (a, b, c) =
      (omega (arith, k.tails), (k.claimed t refl b).0, k.items t (inr a) ∙ c)
  Local-Keeps s s' (enq_wrote t) k (a, b, c) = (
    omega (arith, k.tails),
    (k.claimed t refl b).0,
    (k.claimed t refl b).1 c ∙ sym (k.items t (inr a)),
  )
  Local-Keeps s s' deq_start k l = tt
  Local-Keeps s s' (deq_head h) k l = omega (arith, k.heads)
  Local-Keeps s s' (deq_full h) k (a, b) =
      (omega (arith, k.heads), λ e. k.filled h a e (b (omega (arith, k.heads))))
  Local-Keeps s s' (deq_taken h) k (a, b) = (omega (arith, k.heads), k.taken h refl b)
  Local-Keeps s s' (deq_read h v) k (a, b, c) =
      (omega (arith, k.heads), k.taken h refl b, c ∙ sym (k.items h (inl a)))
  Local-Keeps s s' (got h v) k (a, b) = (omega (arith, k.heads), b ∙ sym (k.items h (inl a)))

  -- A thread goes on and the shared state changes: what the threads must show.
  pub Sound-resume :
      (i : ℕ) (thread : Thread A) (s s' : Ring A)
      → Sound s
      → ((k : ℕ) → s'.threads k ≡ s.threads k)
      → s'.head ≤ s'.tail
      → ((p : ℕ) → s'.seq (p % cap) ≡ suc p → p < s'.tail × s'.value (p % cap) ≡ s'.sent p)
      → Local s' thread
      → ((k : ℕ) → k ≢ i → Keeps s s' (s.threads k))
      → ((k t : ℕ) → k ≢ i → enq_ticket thread ≡ suc t → enq_ticket (s.threads k) ≢ suc t)
      → ((k h : ℕ) → k ≢ i → deq_ticket thread ≡ suc h → deq_ticket (s.threads k) ≢ suc h)
      → Sound (resume i thread s')
  Sound-resume i thread s s' sound same order full here others enq deq = record {
    order = order;
    full = full;
    local = λ k. elim (Bool-cases (k == i)) [
      | inl e ↦ rw e here
      | inr e ↦
          rw (e, same k)
            (Local-Keeps s s' (s.threads k) (others k (ground (arith, e))) (sound.local k))
    ];
    enq_apart = store-Apart enq_ticket s.threads s'.threads i thread sound.enq_apart same enq;
    deq_apart = store-Apart deq_ticket s.threads s'.threads i thread sound.deq_apart same deq;
  }
