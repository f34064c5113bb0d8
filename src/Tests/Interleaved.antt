-- ===== src/Tests/Interleaved.antt =====
-- A run of src/lfmpscq.c with two producers, in which the consumer stays behind the tail.
use librtipc.Prelude.{ℕ, ◌+◌, ◌≡◌, ◌≢◌, ◌<◌, refl, arith, [], ◌∷◌, ◌++◌, update, List}
use librtipc.Memory.{Bytes}
use librtipc.Atomic.{cas32}
use librtipc.Memory.Slots.{load}
use librtipc.Lfmpscq.Chain.{IsChain}
use librtipc.Lfmpscq.Concurrent.{System, initial}
use librtipc.Lfmpscq.Concurrent.Steps.{Step, Reach}
use librtipc.Lfmpscq.Concurrent.Invariant.{pending}
use librtipc.Lfmpscq.Concurrent.Safety.{InOrder, fifo_behind}

abbrev blank : Bytes
blank a = 0

abbrev message : Bytes
message a = 7 + a

one_below : 1 < 2
one_below = omega arith

none_below : 0 < 2
none_below = omega arith

one_byte : 0 < 1
one_byte = omega arith

one_ne : ◌≢◌ {A = ℕ} 1 0
one_ne = omega arith

-- Producer 1 links a message, and the consumer copies it while the tail is still at the head. Then
-- producer 1 moves the tail and prepares its next message, the consumer moves the head, and producer 0
-- prepares a message, too.
abbrev run : (s : System) × Reach 4 1 2 (InOrder 4 1 2) s
unfolding cas32
run =
    let r0 : Reach 4 1 2 (InOrder 4 1 2) (initial (λ i. 0) (λ k. blank)) =
      Reach.start (λ i. 0) (λ k. blank) in
    let r1 = Reach.later r0 (Step.begin_enqueue 1 message one_below refl) tt in
    let r2 = Reach.later r1 (Step.skip_slot 1 message 3 one_below refl one_ne) tt in
    let r3 = Reach.later r2 (Step.take_slot 1 message 2 one_below refl refl) tt in
    let r4 = Reach.later r3 (Step.copy_byte 1 message 1 0 one_below refl one_byte) tt in
    let r5 = Reach.later r4 (Step.copied 1 message 1 one_below refl) tt in
    let r6 = Reach.later r5 (Step.end_node 1 message 1 one_below refl) tt in
    let r7 = Reach.later r6 (Step.read_tail 1 message 1 one_below refl) tt in
    let r8 = Reach.later r7 (Step.announce 1 message 1 0 one_below refl) tt in
    let r9 = Reach.later r8 (Step.tail_same 1 message 1 0 one_below refl refl) tt in
    let r10 = Reach.later r9 (Step.read_end 1 message 1 0 one_below refl refl) tt in
    let r11 = Reach.later r10 (Step.link 1 message 1 0 one_below refl refl) tt in
    let r12 = Reach.later r11 (Step.read_head blank refl) tt in
    let r13 = Reach.later r12 (Step.find_first blank 0 1 refl refl) tt in
    let r14 = Reach.later r13 (Step.take_byte blank 0 1 0 refl one_byte) tt in
    let r15 = Reach.later r14 (Step.swing 1 1 0 one_below refl) tt in
    let r16 = Reach.later r15 (Step.begin_enqueue 1 message one_below refl) tt in
    let r17 = Reach.later r16 (Step.skip_slot 1 message 3 one_below refl one_ne) tt in
    let r18 = Reach.later r17 (Step.take_slot 1 message 2 one_below refl refl) tt in
    let r19 = Reach.later r18 (Step.move_head (update blank 0 7) 0 1 refl) one_ne in
    let r20 = Reach.later r19 (Step.begin_enqueue 0 message none_below refl) tt in
    let r21 = Reach.later r20 (Step.skip_slot 0 message 3 none_below refl one_ne) tt in
    let r22 = Reach.later r21 (Step.skip_slot 0 message 2 none_below refl one_ne) tt in
    let r23 = Reach.later r22 (Step.skip_slot 0 message 1 none_below refl one_ne) tt in
    (_, Reach.later r23 (Step.take_slot 0 message 0 none_below refl refl) tt)

fifo_behind_example :
    (xs : List ℕ) × IsChain run.0.nodes run.0.head xs
    × (run.0.sent ≡ run.0.got ++ pending 1 run.0 xs)
fifo_behind_example = fifo_behind 4 1 2 run.1

-- What it is in this run: the message has come through, and none is pending.
taken_now : (run.0.head ≡ 1) × (run.0.got ≡ (7 ∷ []) ∷ []) × (run.0.sent ≡ (7 ∷ []) ∷ [])
unfolding load cas32
taken_now = (refl, refl, refl)
