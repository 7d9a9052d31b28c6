-- ===== src/Drivers/Ring.antt =====
-- The ring queues of internal/drivers/scheduler, intqueue.go and queue.go, which are the same code
-- for two types of items. A step is one atomic operation of a thread, in any order of the threads.
-- The capacity is a power of two, so that `x & mask` is the remainder by the capacity. The positions
-- are uint64 values. `sent` records the item of each position for the theorems: no operation reads
-- it.
pub mod Sound
pub mod Run
pub mod Changes
pub mod Fifo
use forge_zero.Prelude.{ℕ, zero, suc, ◌+◌, ◌%◌, ◌^◌, ◌≤◌, ◌<◌, ◌≡◌, ◌≢◌, ltb, ◌==◌, if◌then◌else◌}

-- Where a thread is in tryEnqueue and tryDequeue. The first argument of the states of tryEnqueue
-- is the item, the next is the loaded position.
pub data Thread {ℓ} (A : Type ℓ) : Type ℓ where
  idle : Thread A
  enq_start : A → Thread A
  enq_tail : A → ℕ → Thread A
  enq_free : A → ℕ → Thread A
  enq_claimed : A → ℕ → Thread A
  enq_wrote : ℕ → Thread A
  deq_start : Thread A
  deq_head : ℕ → Thread A
  deq_full : ℕ → Thread A
  deq_taken : ℕ → Thread A
  deq_read : ℕ → A → Thread A
  got : ℕ → A → Thread A

pub record Ring {ℓ} (A : Type ℓ) : Type ℓ where
  pub seq : ℕ → ℕ
  pub value : ℕ → A
  pub head : ℕ
  pub tail : ℕ
  pub sent : ℕ → A
  pub threads : ℕ → Thread A

module _ {ℓ} {A : Type ℓ} where
  abbrev pub store : (ℕ → A) → ℕ → A → ℕ → A
  store f j a k = if k == j then a else f k

abbrev pub resume {ℓ} : {A : Type ℓ} → ℕ → Thread A → Ring A → Ring A
resume i thread s = record s { threads = store s.threads i thread }

-- `newIntRingQueue` with a capacity that is a power of two.
abbrev pub new_ring {ℓ} : {A : Type ℓ} → A → Ring A
new_ring nil = record {
  seq = λ j. j;
  value = λ j. nil;
  head = 0;
  tail = 0;
  sent = λ p. nil;
  threads = λ i. idle;
}

module _ {ℓ} {A : Type ℓ} (cap : ℕ) where
  -- The compare-and-swap of the tail, and that of the head.
  abbrev pub claim_tail : ℕ → A → Ring A → Ring A
  claim_tail t v s = record s { tail = (t + 1) % 2 ^ 64; sent = store s.sent t v }

  abbrev pub take_head : ℕ → Ring A → Ring A
  take_head h s = record s { head = (h + 1) % 2 ^ 64 }

  abbrev pub write_value : ℕ → A → Ring A → Ring A
  write_value t v s = record s { value = store s.value (t % cap) v }

  abbrev pub write_seq : ℕ → ℕ → Ring A → Ring A
  write_seq t n s = record s { seq = store s.seq (t % cap) (n % 2 ^ 64) }

  pub data Step : Ring A → Ring A → Type ℓ where
    begin_enqueue :
        {s : Ring A} (i : ℕ) (v : A) → s.threads i ≡ idle → Step s (resume i (enq_start v) s)
    load_tail :
        {s : Ring A} (i : ℕ) (v : A)
        → s.threads i ≡ enq_start v
        → Step s (resume i (enq_tail v s.tail) s)
    slot_free :
        {s : Ring A} (i : ℕ) (v : A) (t : ℕ)
        → s.threads i ≡ enq_tail v t
        → s.seq (t % cap) ≡ t
        → Step s (resume i (enq_free v t) s)
    slot_old :
        {s : Ring A} (i : ℕ) (v : A) (t : ℕ)
        → s.threads i ≡ enq_tail v t
        → s.seq (t % cap) < t
        → Step s (resume i idle s)
    slot_ahead :
        {s : Ring A} (i : ℕ) (v : A) (t : ℕ)
        → s.threads i ≡ enq_tail v t
        → t < s.seq (t % cap)
        → Step s (resume i (enq_start v) s)
    claim :
        {s : Ring A} (i : ℕ) (v : A) (t : ℕ)
        → s.threads i ≡ enq_free v t
        → s.tail ≡ t
        → Step s (resume i (enq_claimed v t) (claim_tail t v s))
    claim_lost :
        {s : Ring A} (i : ℕ) (v : A) (t : ℕ)
        → s.threads i ≡ enq_free v t
        → s.tail ≢ t
        → Step s (resume i (enq_start v) s)
    write_item :
        {s : Ring A} (i : ℕ) (v : A) (t : ℕ)
        → s.threads i ≡ enq_claimed v t
        → Step s (resume i (enq_wrote t) (write_value t v s))
    publish :
        {s : Ring A} (i t : ℕ)
        → s.threads i ≡ enq_wrote t
        → Step s (resume i idle (write_seq t (t + 1) s))
    begin_dequeue : {s : Ring A} (i : ℕ) → s.threads i ≡ idle → Step s (resume i deq_start s)
    load_head :
        {s : Ring A} (i : ℕ) → s.threads i ≡ deq_start → Step s (resume i (deq_head s.head) s)
    slot_full :
        {s : Ring A} (i h : ℕ)
        → s.threads i ≡ deq_head h
        → s.seq (h % cap) ≡ (h + 1) % 2 ^ 64
        → Step s (resume i (deq_full h) s)
    slot_empty :
        {s : Ring A} (i h : ℕ)
        → s.threads i ≡ deq_head h
        → s.seq (h % cap) ≢ (h + 1) % 2 ^ 64
        → s.seq (h % cap) ≤ h
        → Step s (resume i idle s)
    slot_taken :
        {s : Ring A} (i h : ℕ)
        → s.threads i ≡ deq_head h
        → s.seq (h % cap) ≢ (h + 1) % 2 ^ 64
        → h < s.seq (h % cap)
        → Step s (resume i deq_start s)
    take :
        {s : Ring A} (i h : ℕ)
        → s.threads i ≡ deq_full h
        → s.head ≡ h
        → Step s (resume i (deq_taken h) (take_head h s))
    take_lost :
        {s : Ring A} (i h : ℕ)
        → s.threads i ≡ deq_full h
        → s.head ≢ h
        → Step s (resume i deq_start s)
    read_value :
        {s : Ring A} (i h : ℕ)
        → s.threads i ≡ deq_taken h
        → Step s (resume i (deq_read h (s.value (h % cap))) s)
    release :
        {s : Ring A} (i h : ℕ) (v : A)
        → s.threads i ≡ deq_read h v
        → Step s (resume i (got h v) (write_seq h (h + cap) s))
    finish : {s : Ring A} (i h : ℕ) (v : A) → s.threads i ≡ got h v → Step s (resume i idle s)

  -- A run of a number of steps.
  pub data Steps : ℕ → Ring A → Ring A → Type ℓ where
    stay : {s : Ring A} → Steps 0 s s
    then : {n : ℕ} {s t u : Ring A} → Steps n s t → Step t u → Steps (suc n) s u
