-- ===== src/Tests/LostMessage.antt =====
-- A run of src/lfmpscq.c with two producers, in which the consumer overtakes the tail.
use librtipc.Prelude.{ℕ, ◌≡◌, ◌≢◌, ◌<◌, Option, refl, arith, none, some, [], ◌∷◌, ◌++◌, update}
use librtipc.Memory.{Bytes}
use librtipc.Memory.Slots.{load}
use librtipc.Atomic.{cas32}
use librtipc.Lfmpscq.Chain.{IsChain}
use librtipc.Lfmpscq.Concurrent.{Producer, Consumer, System, initial}
use librtipc.Lfmpscq.Concurrent.Steps.{Step, Reach}

abbrev blank : Bytes
blank a = 0

abbrev first : Bytes
first a = 7

abbrev lost : Bytes
lost a = 8

abbrev third : Bytes
third a = 9

abbrev Anything : (s t : System) → Step 4 1 2 s t → Type 0
Anything s t st = Unit

first_below : 0 < 2
first_below = omega arith

second_below : 1 < 2
second_below = omega arith

one_byte : 0 < 1
one_byte = omega arith

one_ne : ◌≢◌ {A = ℕ} 1 0
one_ne = omega arith

none_ne : ◌≢◌ {A = Option ℕ} none (some 0)
none_ne e = absurd (cc e)

some_ne : ◌≢◌ {A = Option ℕ} (some 1) (some 0)
some_ne e = absurd (cc e)

-- Producer 1 has linked the first message, and the consumer takes it and goes through the shared
-- indexes: it has passed that of producer 0 when that one finds the tail still at the old head. When it
-- reaches that of producer 1, this one has moved the tail and is at its next message. So the old head
-- is freed, and producer 0 links its message to it and returns 0: the list that begins at the head is
-- empty, and the message is lost.
lost_message :
    (s : System) × Reach 4 1 2 Anything s
    × (s.producers 0 ≡ Producer.idle)
    × (s.consumer ≡ Consumer.idle)
    × IsChain s.nodes s.head []
    × (s.sent ≡ s.got ++ ((8 ∷ []) ∷ []))
unfolding cas32 load
lost_message =
    let r0 : Reach 4 1 2 Anything (initial (λ i. 0) (λ k. blank)) =
      Reach.start (λ i. 0) (λ k. blank) in
    let r1 = Reach.later r0 (Step.begin_enqueue 1 first second_below refl) tt in
    let r2 = Reach.later r1 (Step.skip_slot 1 first 3 second_below refl one_ne) tt in
    let r3 = Reach.later r2 (Step.take_slot 1 first 2 second_below refl refl) tt in
    let r4 = Reach.later r3 (Step.copy_byte 1 first 1 0 second_below refl one_byte) tt in
    let r5 = Reach.later r4 (Step.copied 1 first 1 second_below refl) tt in
    let r6 = Reach.later r5 (Step.end_node 1 first 1 second_below refl) tt in
    let r7 = Reach.later r6 (Step.read_tail 1 first 1 second_below refl) tt in
    let r8 = Reach.later r7 (Step.announce 1 first 1 0 second_below refl) tt in
    let r9 = Reach.later r8 (Step.tail_same 1 first 1 0 second_below refl refl) tt in
    let r10 = Reach.later r9 (Step.read_end 1 first 1 0 second_below refl refl) tt in
    let r11 = Reach.later r10 (Step.link 1 first 1 0 second_below refl refl) tt in
    let r12 = Reach.later r11 (Step.begin_enqueue 0 lost first_below refl) tt in
    let r13 = Reach.later r12 (Step.skip_slot 0 lost 3 first_below refl one_ne) tt in
    let r14 = Reach.later r13 (Step.skip_slot 0 lost 2 first_below refl one_ne) tt in
    let r15 = Reach.later r14 (Step.take_slot 0 lost 1 first_below refl refl) tt in
    let r16 = Reach.later r15 (Step.copy_byte 0 lost 2 0 first_below refl one_byte) tt in
    let r17 = Reach.later r16 (Step.copied 0 lost 2 first_below refl) tt in
    let r18 = Reach.later r17 (Step.end_node 0 lost 2 first_below refl) tt in
    let r19 = Reach.later r18 (Step.read_head blank refl) tt in
    let r20 = Reach.later r19 (Step.find_first blank 0 1 refl refl) tt in
    let r21 = Reach.later r20 (Step.take_byte blank 0 1 0 refl one_byte) tt in
    let r22 = Reach.later r21 (Step.move_head (update blank 0 7) 0 1 refl) tt in
    let r23 = Reach.later r22 (Step.begin_node 0 [] refl) tt in
    let r24 = Reach.later r23 (Step.next_hazard 0 [] 0 refl first_below none_ne) tt in
    let r25 = Reach.later r24 (Step.read_tail 0 lost 2 first_below refl) tt in
    let r26 = Reach.later r25 (Step.announce 0 lost 2 0 first_below refl) tt in
    let r27 = Reach.later r26 (Step.tail_same 0 lost 2 0 first_below refl refl) tt in
    let r28 = Reach.later r27 (Step.swing 1 1 0 second_below refl) tt in
    let r29 = Reach.later r28 (Step.begin_enqueue 1 third second_below refl) tt in
    let r30 = Reach.later r29 (Step.skip_slot 1 third 3 second_below refl one_ne) tt in
    let r31 = Reach.later r30 (Step.skip_slot 1 third 2 second_below refl one_ne) tt in
    let r32 = Reach.later r31 (Step.take_slot 1 third 1 second_below refl refl) tt in
    let r33 = Reach.later r32 (Step.copy_byte 1 third 3 0 second_below refl one_byte) tt in
    let r34 = Reach.later r33 (Step.copied 1 third 3 second_below refl) tt in
    let r35 = Reach.later r34 (Step.end_node 1 third 3 second_below refl) tt in
    let r36 = Reach.later r35 (Step.read_tail 1 third 3 second_below refl) tt in
    let r37 = Reach.later r36 (Step.announce 1 third 3 1 second_below refl) tt in
    let r38 = Reach.later r37 (Step.next_hazard 0 [] 1 refl second_below some_ne) tt in
    let r39 = Reach.later r38 (Step.no_hazard 0 [] refl) tt in
    let r40 = Reach.later r39 (Step.clear_next 0 [] refl) tt in
    let r41 = Reach.later r40 (Step.free_slot 0 [] refl) tt in
    let r42 = Reach.later r41 (Step.finish refl) tt in
    let r43 = Reach.later r42 (Step.read_end 0 lost 2 0 first_below refl refl) tt in
    let r44 = Reach.later r43 (Step.link 0 lost 2 0 first_below refl refl) tt in
    let r45 = Reach.later r44 (Step.swing 0 2 0 first_below refl) tt in
    (_, r45, refl, refl, refl, refl)
