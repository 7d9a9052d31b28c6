-- ===== src/Drivers/Runs.antt =====
-- Runs of the queue, and its theorems at concrete inputs.
use forge_zero.Drivers.Ring.{
  idle, enq_start, enq_tail, enq_free, enq_claimed, enq_wrote, deq_start, deq_head, deq_full,
  deq_taken, deq_read, got, Ring, resume, new_ring, claim_tail, take_head, write_value, write_seq,
  Steps, begin_enqueue, load_tail, slot_free, claim, write_item, publish, begin_dequeue, load_head,
  slot_full, take, read_value, release, stay, then,
}
use forge_zero.Drivers.Ring.Fifo.{ring_fifo}
use forge_zero.Prelude.{ℕ, ◌<◌, ◌≤◌, ◌≡◌, ◌⊎◌, refl, [], ◌∷◌, ◌++◌, none, some, arith}
use forge_zero.Drivers.Chan.{Mpsc, enqueue, dequeue, put_item, grow, window}
use forge_zero.Drivers.Chan.Fifo.{IsValid, items, enqueue_appends, dequeue_takes}

-- A full queue whose items wrap around.
abbrev full_queue : Mpsc ℕ
full_queue = record { head = 3; tail = 5; slots = 8 ∷ 7 ∷ [] }

full_queue-IsValid : IsValid full_queue
full_queue-IsValid = (omega arith, omega arith, omega arith, omega arith)

grow_runs : enqueue 0 9 full_queue ≡ record { head = 0; tail = 3; slots = 7 ∷ 8 ∷ 9 ∷ 0 ∷ [] }
unfolding enqueue grow put_item window
grow_runs = refl

enqueue_appends_example :
    IsValid (enqueue 0 9 full_queue)
    × (items 0 (enqueue 0 9 full_queue) ≡ items 0 full_queue ++ 9 ∷ [])
enqueue_appends_example = enqueue_appends 0 9 full_queue full_queue-IsValid (omega arith)

dequeue_takes_example :
    IsValid (dequeue 0 full_queue).1
    × ((((dequeue 0 full_queue).0 ≡ none)
          × (items 0 full_queue ≡ [])
          × ((dequeue 0 full_queue).1 ≡ full_queue))
        ⊎ ((v : ℕ) × ((dequeue 0 full_queue).0 ≡ some v)
            × (items 0 full_queue ≡ v ∷ items 0 (dequeue 0 full_queue).1)))
dequeue_takes_example = dequeue_takes 0 full_queue full_queue-IsValid

abbrev no_item : ℕ
no_item = 0

-- One thread puts 7 in a ring of four slots, and another takes it.
abbrev put_7 : Ring ℕ
put_7 = resume 1 idle (
    write_seq 4 0 1 (
      resume 1 (enq_wrote 0) (
        write_value 4 0 7 (
          resume 1 (enq_claimed 7 0) (
            claim_tail 4 0 7 (
              resume 1 (enq_free 7 0)
                (resume 1 (enq_tail 7 0) (resume 1 (enq_start 7) (new_ring 0)))))))))

abbrev taken_7 : Ring ℕ
taken_7 = resume 2 (got 0 7) (
    write_seq 4 0 4 (
      resume 2 (deq_read 0 7) (
        resume 2 (deq_taken 0) (
          take_head 4 0
            (resume 2 (deq_full 0) (resume 2 (deq_head 0) (resume 2 deq_start put_7)))))))

puts : Steps 4 6 (new_ring 0) put_7
puts =
    then
      (then
        (then
          (then (then (then stay (begin_enqueue 1 7 refl)) (load_tail 1 7 refl))
            (slot_free 1 7 0 refl refl))
          (claim 1 7 0 refl refl))
        (write_item 1 7 0 refl))
      (publish 1 0 refl)

takes : Steps 4 12 (new_ring 0) taken_7
takes =
    then
      (then
        (then
          (then (then (then puts (begin_dequeue 2 refl)) (load_head 2 refl))
            (slot_full 2 0 refl refl))
          (take 2 0 refl refl))
        (read_value 2 0 refl))
      (release 2 0 7 refl)

ring_fifo_example : (7 ≡ taken_7.sent 0) × 0 < taken_7.head × taken_7.head ≤ taken_7.tail
ring_fifo_example = ring_fifo 4 12 0 taken_7 2 0 7 (omega arith) takes (omega arith) refl
