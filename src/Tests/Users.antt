-- ===== src/Tests/Users.antt =====
-- A run of src/mpmcq.c with two users, four slots and messages of one byte.
use librtipc.Prelude.{
  ℕ, ◌+◌, ◌≡◌, ◌≢◌, ◌<◌, refl, arith, some, none, List, All, [], ◌∷◌, ◌++◌, update,
}
use librtipc.Memory.{Bytes}
use librtipc.Memory.Slots.{load}
use librtipc.Atomic.{cas32}
use librtipc.Lfmpscq.Chain.{IsChain}
use librtipc.Mpmcq.Concurrent.{After, User, System, initial}
use librtipc.Mpmcq.Concurrent.Steps.{Move, Step, Reach}
use librtipc.Mpmcq.Concurrent.Invariant.{pending}
use librtipc.Mpmcq.Concurrent.Safety.{fifo_always, taken_whole, slots_disjoint}

abbrev blank : Bytes
blank a = 0

abbrev message : Bytes
message a = 7 + a

none_below : 0 < 2
none_below = omega arith

one_below : 1 < 2
one_below = omega arith

one_byte : 0 < 1
one_byte = omega arith

one_ne : ◌≢◌ {A = ℕ} 1 0
one_ne = omega arith

none_ne : ◌≢◌ {A = ℕ} 0 1
none_ne = omega arith

-- User 0 links a message and leaves the tail behind; user 1 finds the tail at the head, helps it on, moves
-- the head and copies the message; user 0 prepares the next one.
abbrev run : (s : System) × Reach 4 1 2 s
unfolding cas32 load
run =
    let r0 : Reach 4 1 2 (initial (λ i. 0) (λ k. blank)) = Reach.start (λ i. 0) (λ k. blank) in
    let r1 = Reach.later r0 (Step.pick 0 none_below (Move.begin_enqueue message refl)) in
    let r2 = Reach.later r1 (Step.pick 0 none_below (Move.resume (After.enqueues message) refl)) in
    let r3 = Reach.later r2 (Step.pick 0 none_below (Move.skip_slot message 3 refl one_ne)) in
    let r4 = Reach.later r3 (Step.pick 0 none_below (Move.take_slot message 2 refl refl)) in
    let r5 = Reach.later r4 (Step.pick 0 none_below (Move.copy_byte message 1 0 refl one_byte)) in
    let r6 = Reach.later r5 (Step.pick 0 none_below (Move.copied message 1 refl)) in
    let r7 = Reach.later r6 (Step.pick 0 none_below (Move.end_node message 1 refl)) in
    let r8 = Reach.later r7 (Step.pick 0 none_below (Move.read_tail message 1 refl)) in
    let r9 = Reach.later r8 (Step.pick 0 none_below (Move.announce message 1 0 refl)) in
    let r10 = Reach.later r9 (Step.pick 0 none_below (Move.tail_same message 1 0 refl refl)) in
    let r11 = Reach.later r10 (Step.pick 0 none_below (Move.read_end message 1 0 refl refl)) in
    let r12 = Reach.later r11 (Step.pick 0 none_below (Move.link message 1 0 refl refl)) in
    let r13 = Reach.later r12 (Step.pick 1 one_below (Move.begin_dequeue blank refl)) in
    let r14 = Reach.later r13 (Step.pick 1 one_below (Move.resume (After.dequeues blank) refl)) in
    let r15 = Reach.later r14 (Step.pick 1 one_below (Move.read_head blank refl)) in
    let r16 = Reach.later r15 (Step.pick 1 one_below (Move.save_head blank 0 refl)) in
    let r17 = Reach.later r16 (Step.pick 1 one_below (Move.head_same blank 0 refl refl)) in
    let r18 = Reach.later r17 (Step.pick 1 one_below (Move.locate_tail blank 0 refl)) in
    let r19 = Reach.later r18 (Step.pick 1 one_below (Move.follow blank 0 0 refl)) in
    let r20 = Reach.later r19 (Step.pick 1 one_below (Move.save_next blank 0 0 (some 1) refl)) in
    let r21 = Reach.later r20 (Step.pick 1 one_below (Move.find_behind blank 0 1 refl refl)) in
    let r22 = Reach.later r21 (Step.pick 1 one_below (Move.correct blank 0 1 refl)) in
    let r23 = Reach.later r22 (Step.pick 1 one_below (Move.read_head blank refl)) in
    let r24 = Reach.later r23 (Step.pick 1 one_below (Move.save_head blank 0 refl)) in
    let r25 = Reach.later r24 (Step.pick 1 one_below (Move.head_same blank 0 refl refl)) in
    let r26 = Reach.later r25 (Step.pick 1 one_below (Move.locate_tail blank 0 refl)) in
    let r27 = Reach.later r26 (Step.pick 1 one_below (Move.follow blank 0 1 refl)) in
    let r28 = Reach.later r27 (Step.pick 1 one_below (Move.save_next blank 0 1 (some 1) refl)) in
    let r29 =
      Reach.later r28 (Step.pick 1 one_below (Move.find_first blank 0 1 1 refl refl none_ne)) in
    let r30 = Reach.later r29 (Step.pick 1 one_below (Move.move_head blank 0 1 refl refl)) in
    let r31 =
      Reach.later r30
        (Step.pick 1 one_below (Move.fetch_byte blank 0 1 0 (7 ∷ []) refl one_byte)) in
    let r32 = Reach.later r31 (Step.pick 0 none_below (Move.swing 1 0 refl)) in
    let r33 = Reach.later r32 (Step.pick 0 none_below (Move.begin_enqueue message refl)) in
    let r34 =
      Reach.later r33 (Step.pick 0 none_below (Move.resume (After.enqueues message) refl)) in
    let r35 = Reach.later r34 (Step.pick 0 none_below (Move.skip_slot message 3 refl one_ne)) in
    (_, Reach.later r35 (Step.pick 0 none_below (Move.take_slot message 2 refl refl)))

fifo_always_example :
    (xs : List ℕ) × IsChain run.0.nodes run.0.head xs
    × (run.0.sent ≡ run.0.taken ++ pending 1 2 run.0 xs)
fifo_always_example = fifo_always 4 1 2 run.1

-- What it is in this run: the message has been taken, and none is pending.
taken_now :
    (run.0.head ≡ 1)
    × (run.0.tail ≡ 1)
    × (run.0.taken ≡ (7 ∷ []) ∷ [])
    × (run.0.sent ≡ (7 ∷ []) ∷ [])
unfolding run load
taken_now = (refl, refl, refl, refl)

slots_disjoint_example :
    ((q : Bytes) (b : ℕ) → run.0.users 1 ≡ User.copying q 2 b → ◌≡◌ {A = ℕ} 0 1)
    × ((out : Bytes) (h x b : ℕ) (taken : List ℕ)
        → run.0.users 1 ≡ User.fetching out h x b taken
        → 2 ≢ x)
    × (xs : List ℕ) × IsChain run.0.nodes run.0.head xs
    × All (λ k. k ≢ 2) (run.0.head ∷ xs)
unfolding run
slots_disjoint_example = slots_disjoint 4 1 2 run.1 0 1 2 message 0 none_below one_below refl

-- User 1 retires the old head.
abbrev later_run : (s : System) × Reach 4 1 2 s
unfolding run load
later_run = (
  _,
  Reach.later run.1 (Step.pick 1 one_below (Move.retire_head (update blank 0 7) 0 1 (7 ∷ []) refl)),
)

taken_whole_example : load (update blank 0 7) 0 1 ≡ 7 ∷ []
unfolding later_run run load
taken_whole_example =
    taken_whole 4 1 2 later_run.1 1 (update blank 0 7) (7 ∷ []) (0 ∷ []) one_below refl

-- User 1 finds no successor of the head.
abbrev empty_run : (s : System) × Reach 4 1 2 s
unfolding cas32
empty_run =
    let r0 : Reach 4 1 2 (initial (λ i. 0) (λ k. blank)) = Reach.start (λ i. 0) (λ k. blank) in
    let r1 = Reach.later r0 (Step.pick 1 one_below (Move.begin_dequeue blank refl)) in
    let r2 = Reach.later r1 (Step.pick 1 one_below (Move.resume (After.dequeues blank) refl)) in
    let r3 = Reach.later r2 (Step.pick 1 one_below (Move.read_head blank refl)) in
    let r4 = Reach.later r3 (Step.pick 1 one_below (Move.save_head blank 0 refl)) in
    let r5 = Reach.later r4 (Step.pick 1 one_below (Move.head_same blank 0 refl refl)) in
    let r6 = Reach.later r5 (Step.pick 1 one_below (Move.locate_tail blank 0 refl)) in
    let r7 = Reach.later r6 (Step.pick 1 one_below (Move.follow blank 0 0 refl)) in
    (_, Reach.later r7 (Step.pick 1 one_below (Move.save_next blank 0 0 none refl)))
