-- ===== src/Tests/Spscq.antt =====
-- The queue of src/spscq.c with two slots of one byte.
use librtipc.Prelude.{◌+◌, ◌-◌, ◌≡◌, ◌⊎◌, ◌<◌, refl, arith, ◌++◌, length}
use librtipc.Status.{ok, received}
use librtipc.Memory.{Bytes}
use librtipc.Memory.Slots.{load}
use librtipc.Fifo
use librtipc.Spscq.{Descriptor, Segment, enqueue, dequeue}
use librtipc.Spscq.Refine.{IsValid, messages, enqueue_refines, dequeue_refines}
use librtipc.Spscq.Concurrent
use librtipc.Spscq.Concurrent.{Producer, Consumer, System, Reach}
use librtipc.Spscq.Concurrent.Safety.{in_flight, fifo}

abbrev blank : Bytes
blank = λ a. 0

abbrev message : Bytes
message = λ a. 7 + a

abbrev begun : System
begun = record (Concurrent.initial 2 1 blank) { producer = Producer.copying message 0 }

abbrev copied : System
copied = Concurrent.with_byte 2 1 begun message 0

abbrev sent : System
sent = Concurrent.published 2 1 copied message

abbrev taking : System
taking = record sent { consumer = Consumer.copying blank 0 }

abbrev taken : System
taken = Concurrent.with_read 2 1 taking blank 0

-- A message is enqueued whole, and the consumer has copied it but not yet moved `head`.
taken-Reach : Reach 2 1 blank taken
taken-Reach =
    Reach.later
      (Reach.later
        (Reach.later
          (Reach.later (Reach.later Reach.start (Concurrent.begin_put message refl (omega arith)))
            (Concurrent.put_byte message 0 refl (omega arith)))
          (Concurrent.publish message refl))
        (Concurrent.begin_take blank refl (omega arith)))
      (Concurrent.take_byte blank 0 refl (omega arith))

fifo_example : (taken.sent ≡ taken.got ++ in_flight 2 1 taken) × (length (in_flight 2 1 taken) < 2)
fifo_example = fifo 2 1 (omega arith) taken-Reach

abbrev two_slots : Descriptor
two_slots = record { obj_id = 3; q = 64; slot_size = 1; num_slots = 2 }

abbrev empty : Segment
empty = record { head = 1; next_slot = 1; slots = blank }

empty-IsValid : IsValid two_slots empty
empty-IsValid = record { head_in = omega arith; next_in = omega arith }

enqueue_refines_example :
    let (s, q') = enqueue two_slots message empty in
    (s, messages two_slots q') ≡ Fifo.put (2 - 1) (load message 0 1) (messages two_slots empty)
enqueue_refines_example = enqueue_refines empty-IsValid message

dequeue_refines_example :
    let (s, out, q') = dequeue two_slots blank empty in
    ((received s (load out 0 1), messages two_slots q') ≡ Fifo.take (messages two_slots empty))
    × ((s ≡ ok) ⊎ ((out ≡ blank) × (q' ≡ empty)))
dequeue_refines_example = dequeue_refines empty-IsValid blank
