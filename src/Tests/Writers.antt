-- ===== src/Tests/Writers.antt =====
-- Runs of src/wfmpscq.c with two producers, two slots in each ring and messages of one byte.
use librtipc.Prelude.{
  ℕ, ◌+◌, ◌≡◌, ◌≢◌, ◌<◌, ◌≤◌, refl, arith, none, [], ◌∷◌, ◌++◌, update, All, length,
}
use librtipc.Memory.{Bytes}
use librtipc.Memory.Slots.{load}
use librtipc.Ring.{contents, slots_from, used}
use librtipc.Wfmpscq.{max_id}
use librtipc.Wfmpscq.Concurrent.{System, initial}
use librtipc.Wfmpscq.Concurrent.Steps.{Move, Turn, Step, Reach, in_flight}
use librtipc.Wfmpscq.Concurrent.Rings.{ring_of, First}
use librtipc.Wfmpscq.Concurrent.Safety.{fifo_each}
use librtipc.Wfmpscq.Concurrent.Oldest.{oldest_there, nothing_there}
use librtipc.Wfmpscq.Concurrent.Turns.{in_turn, Passed, first_in_turn, none_in_turn}
use librtipc.Wfmpscq.Concurrent.WaitFree
use librtipc.Wfmpscq.Concurrent.Bounded
use librtipc.Wfmpscq.Concurrent.Bounded.{dequeue_wait_free}

abbrev blank : Bytes
blank a = 0

abbrev message : Bytes
message a = 7 + a

none_below : 0 < 2
none_below = omega arith

one_below : 1 < 2
one_below = omega arith

one_byte : 0 < 1
one_byte = omega arith

below_max : 1 < max_id
below_max = omega arith

one_ne : ◌≢◌ {A = ℕ} 1 0
one_ne = omega arith

none_ne : ◌≢◌ {A = ℕ} 0 1
none_ne = omega arith

-- The consumer passes ring 0, which is empty. Then producer 0 enqueues a message, with the id 0, and when
-- its call has returned, producer 1 one with the id 1. The consumer goes on and chooses that of ring 1.
abbrev scanned : (s : System) × Reach 2 1 2 s
scanned =
    let r0 : Reach 2 1 2 (initial (λ i k. 0) (λ i k. blank)) =
      Reach.start (λ i k. 0) (λ i k. blank) in
    let r1 = Reach.later r0 (Step.consumes (Turn.begin_scan blank refl)) in
    let r2 =
      Reach.later r1 (Step.consumes (Turn.pass_ring blank 0 max_id none refl none_below refl)) in
    let r3 = Reach.later r2 (Step.produces 0 none_below (Move.begin_enqueue message refl one_ne)) in
    let r4 = Reach.later r3 (Step.produces 0 none_below (Move.count message refl)) in
    let r5 =
      Reach.later r4 (Step.produces 0 none_below (Move.copy_byte message 0 0 refl one_byte)) in
    let r6 = Reach.later r5 (Step.produces 0 none_below (Move.copied message 0 refl)) in
    let r7 = Reach.later r6 (Step.produces 0 none_below (Move.stamp message 0 refl)) in
    let r8 = Reach.later r7 (Step.produces 0 none_below (Move.publish message 0 refl)) in
    let r9 = Reach.later r8 (Step.produces 1 one_below (Move.begin_enqueue message refl one_ne)) in
    let r10 = Reach.later r9 (Step.produces 1 one_below (Move.count message refl)) in
    let r11 =
      Reach.later r10 (Step.produces 1 one_below (Move.copy_byte message 1 0 refl one_byte)) in
    let r12 = Reach.later r11 (Step.produces 1 one_below (Move.copied message 1 refl)) in
    let r13 = Reach.later r12 (Step.produces 1 one_below (Move.stamp message 1 refl)) in
    let r14 = Reach.later r13 (Step.produces 1 one_below (Move.publish message 1 refl)) in
    let r15 =
      Reach.later r14 (Step.consumes (Turn.find_ring blank 1 max_id none refl one_below none_ne)) in
    (_, Reach.later r15 (Step.consumes (Turn.improve blank 1 max_id none refl below_max)))

-- So it takes the message with the greater id, although that with the lesser was enqueued before.
abbrev overtaken : (s : System) × Reach 2 1 2 s
overtaken =
    let r0 = scanned.1 in
    let r1 = Reach.later r0 (Step.consumes (Turn.choose blank 1 1 refl)) in
    let r2 = Reach.later r1 (Step.consumes (Turn.take_byte blank 1 1 0 refl one_byte)) in
    (_, Reach.later r2 (Step.consumes (Turn.release (update blank 0 7) 1 1 refl)))

overtaken_now :
    (overtaken.0.got 1 ≡ record { id = 1; body = 7 ∷ [] } ∷ [])
    × (overtaken.0.got 0 ≡ [])
    × (in_flight 2 1 2 overtaken.0 0 ≡ record { id = 0; body = 7 ∷ [] } ∷ [])
unfolding load contents slots_from used
overtaken_now = (refl, refl, refl)

fifo_each_example :
    (overtaken.0.sent 1 ≡ overtaken.0.got 1 ++ in_flight 2 1 2 overtaken.0 1)
    × (length (in_flight 2 1 2 overtaken.0 1) < 2)
fifo_each_example = fifo_each 2 1 2 none_below overtaken.1 1

counted_below : 2 ≤ max_id
counted_below = omega arith

oldest_there_example :
    First (ring_of scanned.0) 1 1 × ((j : ℕ) → j < 2 → All (λ m. 1 ≤ m.id) (scanned.0.seen j))
oldest_there_example = oldest_there 2 1 2 none_below scanned.1 counted_below blank 1 1 refl

-- Both rings are empty.
abbrev empty : (s : System) × Reach 2 1 2 s
empty =
    let r0 : Reach 2 1 2 (initial (λ i k. 0) (λ i k. blank)) =
      Reach.start (λ i k. 0) (λ i k. blank) in
    let r1 = Reach.later r0 (Step.consumes (Turn.begin_scan blank refl)) in
    let r2 =
      Reach.later r1 (Step.consumes (Turn.pass_ring blank 0 max_id none refl none_below refl)) in
    (_, Reach.later r2 (Step.consumes (Turn.pass_ring blank 1 max_id none refl one_below refl)))

nothing_counted : 0 ≤ max_id
nothing_counted = omega arith

nothing_there_example : empty.0.seen 1 ≡ []
nothing_there_example =
    nothing_there 2 1 2 none_below empty.1 nothing_counted blank max_id refl 1 one_below

-- Producer 0 has its id, and the consumer begins to go round the rings.
abbrev busy : (s : System) × Reach 2 1 2 s
busy =
    let r0 : Reach 2 1 2 (initial (λ i k. 0) (λ i k. blank)) =
      Reach.start (λ i k. 0) (λ i k. blank) in
    let r1 = Reach.later r0 (Step.produces 0 none_below (Move.begin_enqueue message refl one_ne)) in
    let r2 = Reach.later r1 (Step.produces 0 none_below (Move.count message refl)) in
    (_, Reach.later r2 (Step.consumes (Turn.begin_turn blank refl)))

dequeue_wait_free_example : Bounded.Proceeds 2 1 2 busy.0
dequeue_wait_free_example = dequeue_wait_free 2 1 2 busy.1 (λ e. absurd (cc e))

-- Producer 0 has enqueued a message, and the consumer goes round: ring 1 is empty, ring 0 is not.
abbrev turned : (s : System) × Reach 2 1 2 s
turned =
    let r0 : Reach 2 1 2 (initial (λ i k. 0) (λ i k. blank)) =
      Reach.start (λ i k. 0) (λ i k. blank) in
    let r1 = Reach.later r0 (Step.produces 0 none_below (Move.begin_enqueue message refl one_ne)) in
    let r2 = Reach.later r1 (Step.produces 0 none_below (Move.count message refl)) in
    let r3 =
      Reach.later r2 (Step.produces 0 none_below (Move.copy_byte message 0 0 refl one_byte)) in
    let r4 = Reach.later r3 (Step.produces 0 none_below (Move.copied message 0 refl)) in
    let r5 = Reach.later r4 (Step.produces 0 none_below (Move.stamp message 0 refl)) in
    let r6 = Reach.later r5 (Step.produces 0 none_below (Move.publish message 0 refl)) in
    let r7 = Reach.later r6 (Step.consumes (Turn.begin_turn blank refl)) in
    let r8 = Reach.later r7 (Step.consumes (Turn.pass_turn blank 1 refl refl)) in
    (_, Reach.later r8 (Step.consumes (Turn.find_turn blank 0 refl none_ne)))

first_in_turn_example :
    ((turned.0.queues 0).head ≢ (turned.0.queues 0).tail)
    × ((k : ℕ) × (k < 2) × (0 ≡ in_turn 2 turned.0 k) × Passed 2 turned.0 k)
first_in_turn_example = first_in_turn 2 2 1 none_below turned.1 blank 0 refl

-- Both rings are empty when the consumer goes round.
abbrev round : (s : System) × Reach 2 1 2 s
round =
    let r0 : Reach 2 1 2 (initial (λ i k. 0) (λ i k. blank)) =
      Reach.start (λ i k. 0) (λ i k. blank) in
    let r1 = Reach.later r0 (Step.consumes (Turn.begin_turn blank refl)) in
    let r2 = Reach.later r1 (Step.consumes (Turn.pass_turn blank 1 refl refl)) in
    (_, Reach.later r2 (Step.consumes (Turn.pass_turn blank 0 refl refl)))

none_in_turn_example : round.0.seen 1 ≡ []
none_in_turn_example = none_in_turn 2 2 1 none_below round.1 blank refl 1 one_below
