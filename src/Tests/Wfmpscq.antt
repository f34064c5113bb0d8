-- ===== src/Tests/Wfmpscq.antt =====
-- The queue of src/wfmpscq.c with two writers, and three slots of one byte for each.
use librtipc.Prelude.{ℕ, zero, suc, ◌+◌, ◌<◌, ◌≡◌, ◌⊎◌, refl, arith, All, ◌==◌, if◌then◌else◌}
use librtipc.Memory.{Bytes, memcpy, memcpy_loop}
use librtipc.Memory.Slots.{load}
use librtipc.Ring.{contents, used, slots_from}
use librtipc.Wfmpscq.{Descriptor, id_absolute, Segment, dequeue}
use librtipc.Wfmpscq.Entries.{IsValid, entries}
use librtipc.Wfmpscq.Fifo.{IsOrdered, Rising, NothingLeft, TakesOldest, dequeue-oldest}

abbrev second_writer : Descriptor
second_writer = record {
  obj_id = 3;
  mem = 64;
  writer_id = 1;
  num_writer = 2;
  dqstrat = id_absolute;
  node_data_size = 1;
  num_slots = 3;
}

-- Ring 0 holds the message 5 with id 1, ring 1 the message 6 with id 0.
abbrev two_messages : Segment
two_messages = record {
  id_cnt = 2;
  queues = λ i. record { head = 0; tail = 1 };
  ids = λ k. if k == 0 then 1 else 0;
  payloads = λ a. if a == 0 then 5 else 6;
}

two_messages-IsValid : IsValid second_writer two_messages
two_messages-IsValid = record { head_in = λ i h. omega arith; tail_in = λ i h. omega arith }

-- There are two rings.
below_two {ℓ} : (P : ℕ → Type ℓ) → P 0 → P 1 → (i : ℕ) → i < 2 → P i
below_two P a b zero h = a
below_two P a b (suc zero) h = b
below_two P a b (suc (suc i)) h = absurd (omega arith)

two_messages-IsOrdered : IsOrdered second_writer two_messages
unfolding entries contents used slots_from load
two_messages-IsOrdered = record {
  valid = two_messages-IsValid;
  small = omega arith;
  given = λ i h.
      below_two (λ i. All (λ e. e.0 < 2) (entries second_writer two_messages i)) (omega arith, tt)
        (omega arith, tt) i h;
  rising =
      λ i h. below_two (λ i. Rising (entries second_writer two_messages i)) (tt, tt) (tt, tt) i h;
}

abbrev message : Bytes
message = λ a. 7 + a

dequeue-oldest_example :
    let d = dequeue second_writer message 0 two_messages in
    NothingLeft second_writer message two_messages d ⊎ TakesOldest second_writer two_messages d
dequeue-oldest_example = dequeue-oldest two_messages-IsOrdered message 0 refl

-- What is taken is the message 6 of ring 1, which has id 0.
dequeue_takes_six :
    let d = dequeue second_writer message 0 two_messages in
    (d.ret ≡ 0) × (d.out 0 ≡ 6) × ((d.segment.queues 1).head ≡ 1) × ((d.segment.queues 0).head ≡ 0)
unfolding dequeue memcpy memcpy_loop
dequeue_takes_six = (refl, refl, refl, refl)
