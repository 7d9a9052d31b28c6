-- ===== src/Drivers/Chan.antt =====
-- The growing queue of internal/drivers/chan/mpsc.go.
-- Its operations run under a mutex, so that a call is one step. The positions are uint64 values.
pub mod Window
pub mod Fifo
use forge_zero.Prelude.{
  ℕ, zero, suc, ◌+◌, ◌-◌, ◌*◌, ◌%◌, ◌^◌, List, [], ◌∷◌, ◌++◌, Option, none, some, length, get_or,
  set, replicate, ltb, ◌==◌, if◌then◌else◌,
}

pub record Mpsc {ℓ} (A : Type ℓ) : Type ℓ where
  pub head : ℕ
  pub tail : ℕ
  pub slots : List A

-- The size that `NewMPSC` finds: 1 is doubled until it is not below the one asked for. There is a
-- unit of fuel for each doubling of an uint64.
unfoldable pub power_size : ℕ → ℕ → ℕ → ℕ
power_size zero cap wanted = cap
power_size (suc fuel) cap wanted =
    let more = power_size fuel (cap * 2) wanted in if ltb cap wanted then more else cap

-- `nil` is the empty interface value, which an unused slot holds.
module _ {ℓ} {A : Type ℓ} (nil : A) where
  unfoldable pub new_mpsc : ℕ → Mpsc A
  new_mpsc cap_pow2 = record {
    head = 0;
    tail = 0;
    slots = replicate (power_size 63 1 cap_pow2) nil;
  }

  -- The slots of `count` positions from `position` on.
  unfoldable pub window : List A → ℕ → ℕ → List A
  window slots position zero = []
  window slots position (suc count) =
      get_or slots (position % length slots) nil ∷ window slots (suc position) count

  -- `grow`: the items are copied to the start of new slots, twice as many.
  unfoldable pub grow : Mpsc A → Mpsc A
  grow q = record {
    head = 0;
    tail = q.tail - q.head;
    slots =
        window q.slots q.head (q.tail - q.head)
        ++ replicate (length q.slots * 2 - (q.tail - q.head)) nil;
  }

  -- The item is put at the tail of a queue that has room for it.
  unfoldable pub put_item : A → Mpsc A → Mpsc A
  put_item v q = record {
    head = q.head;
    tail = (q.tail + 1) % 2 ^ 64;
    slots = set q.slots (q.tail % length q.slots) v;
  }

  unfoldable pub enqueue : A → Mpsc A → Mpsc A
  enqueue v q = if q.tail - q.head == length q.slots then put_item v (grow q) else put_item v q

  unfoldable pub dequeue : Mpsc A → Option A × Mpsc A
  dequeue q =
      let index = q.head % length q.slots in
      if q.head == q.tail then (none, q) else (
        some (get_or q.slots index nil),
        record { head = (q.head + 1) % 2 ^ 64; tail = q.tail; slots = set q.slots index nil },
      )
