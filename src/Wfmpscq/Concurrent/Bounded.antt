-- ===== src/Wfmpscq/Concurrent/Bounded.antt =====
-- How many steps of its own `wfmpscq_dequeue` of src/wfmpscq.c still takes, whatever the producers do.
use librtipc.Prelude.{
  ℕ, zero, suc, ◌+◌, ◌-◌, ◌*◌, ◌<◌, ◌≤◌, ◌≡◌, ◌≢◌, refl, sym, arith, Option, none, some, ℕ_discrete,
  dec_lt,
}
use mathlib.Core.Path.{subst}
use librtipc.Memory.{Bytes}
use librtipc.Wfmpscq.Concurrent.{Consumer, System}
use librtipc.Wfmpscq.Concurrent.Steps.{Move, Turn, Step, Reach, next_queue}

module _ (num_slots size num_writer : ℕ) where
  -- A bound for the steps that are left: two for a ring, and those for the message
  abbrev pub take_left : Consumer → ℕ
  take_left Consumer.idle = 0
  take_left (Consumer.scanning out i min_id q) = 2 * (num_writer - i) + size + 2
  take_left (Consumer.weighing out i min_id q) = 2 * (num_writer - i) + size + 1
  take_left (Consumer.turning out rounds) = rounds + size + 3
  take_left (Consumer.naming out q) = size + 2
  take_left (Consumer.copying out q msg_id k) = (size - k) + 1

  abbrev InRange : Consumer → Type 0
  InRange (Consumer.scanning out i min_id q) = i ≤ num_writer
  InRange (Consumer.weighing out i min_id q) = i < num_writer
  InRange (Consumer.turning out rounds) = rounds ≤ num_writer
  InRange (Consumer.copying out q msg_id k) = k ≤ size
  InRange _ = Unit

  Turn-InRange :
      {s t : System} → InRange s.consumer → Turn num_slots size num_writer s t → InRange t.consumer
  Turn-InRange h (Turn.begin_scan out e) = omega arith
  Turn-InRange h (Turn.pass_ring out i min_id q e l f) = omega arith
  Turn-InRange h (Turn.find_ring out i min_id q e l f) = l
  Turn-InRange h (Turn.improve out i min_id q e f) = let k = subst InRange e h in omega (arith, k)
  Turn-InRange h (Turn.pass_id out i min_id q e f) = let k = subst InRange e h in omega (arith, k)
  Turn-InRange h (Turn.find_nothing out min_id e) = tt
  Turn-InRange h (Turn.choose out min_id q e) = omega arith
  Turn-InRange h (Turn.begin_turn out e) = omega arith
  Turn-InRange h (Turn.pass_turn out rounds e f) = let k = subst InRange e h in omega (arith, k)
  Turn-InRange h (Turn.find_turn out rounds e f) = tt
  Turn-InRange h (Turn.turn_empty out e) = tt
  Turn-InRange h (Turn.name out q e) = omega arith
  Turn-InRange h (Turn.take_byte out q msg_id k e l) = omega arith
  Turn-InRange h (Turn.release out q msg_id e) = tt

  Move-consumer :
      {s : System} (i : ℕ) {t : System}
      → Move num_slots size num_writer s i t
      → t.consumer ≡ s.consumer
  Move-consumer i (Move.refuse e f) = refl
  Move-consumer i (Move.count_again payload e) = refl
  Move-consumer i (Move.begin_enqueue payload e f) = refl
  Move-consumer i (Move.count payload e) = refl
  Move-consumer i (Move.copy_byte payload id k e l) = refl
  Move-consumer i (Move.copied payload id e) = refl
  Move-consumer i (Move.stamp payload id e) = refl
  Move-consumer i (Move.publish payload id e) = refl

  Reach-InRange : {s : System} → Reach num_slots size num_writer s → InRange s.consumer
  Reach-InRange (Reach.start ids bytes) = tt
  Reach-InRange (Reach.later rs (Step.produces i l m)) =
      subst InRange (sym (Move-consumer i m)) (Reach-InRange rs)
  Reach-InRange (Reach.later rs (Step.consumes c)) = Turn-InRange (Reach-InRange rs) c

  left-Turn :
      {s t : System}
      → s.consumer ≢ Consumer.idle
      → InRange s.consumer
      → Turn num_slots size num_writer s t
      → take_left t.consumer < take_left s.consumer
  left-Turn busy h (Turn.begin_scan out e) = absurd (busy e)
  left-Turn busy h (Turn.pass_ring out i min_id q e l f) = rw e (omega arith)
  left-Turn busy h (Turn.find_ring out i min_id q e l f) = rw e (omega arith)
  left-Turn busy h (Turn.improve out i min_id q e f) =
      let k = subst InRange e h in rw e (omega (arith, k))
  left-Turn busy h (Turn.pass_id out i min_id q e f) =
      let k = subst InRange e h in rw e (omega (arith, k))
  left-Turn busy h (Turn.find_nothing out min_id e) = rw e (omega arith)
  left-Turn busy h (Turn.choose out min_id q e) = rw e (omega arith)
  left-Turn busy h (Turn.begin_turn out e) = absurd (busy e)
  left-Turn busy h (Turn.pass_turn out rounds e f) = rw e (omega arith)
  left-Turn busy h (Turn.find_turn out rounds e f) = rw e (omega arith)
  left-Turn busy h (Turn.turn_empty out e) = rw e (omega arith)
  left-Turn busy h (Turn.name out q e) = rw e (omega arith)
  left-Turn busy h (Turn.take_byte out q msg_id k e l) = rw e (omega arith)
  left-Turn busy h (Turn.release out q msg_id e) = rw e (omega arith)

  abbrev CanTurn : System → Type 0
  CanTurn s = (t : System) × Turn num_slots size num_writer s t

  scan_ends :
      (s : System) (out : Bytes) (min_id : ℕ) (q : Option ℕ)
      → s.consumer ≡ Consumer.scanning out num_writer min_id q
      → CanTurn s
  scan_ends s out min_id none e = (_, Turn.find_nothing out min_id e)
  scan_ends s out min_id (some q) e = (_, Turn.choose out min_id q e)

  some_Turn :
      (s : System) (c : Consumer) → s.consumer ≡ c → c ≢ Consumer.idle → InRange c → CanTurn s
  some_Turn s Consumer.idle e busy h = absurd (busy refl)
  some_Turn s (Consumer.scanning out i min_id q) e busy h = elim (dec_lt i num_writer) [
    | no ge ↦
        scan_ends s out min_id q
          (subst (λ i. s.consumer ≡ Consumer.scanning out i min_id q) (omega (arith, ge)) e)
    | yes l ↦ elim (ℕ_discrete (s.queues i).head (s.queues i).tail) [
      | yes f ↦ (_, Turn.pass_ring out i min_id q e l f)
      | no f ↦ (_, Turn.find_ring out i min_id q e l f)
    ]
  ]
  some_Turn s (Consumer.weighing out i min_id q) e busy h =
      elim (dec_lt (s.ids i (s.queues i).head) min_id) [
        | yes f ↦ (_, Turn.improve out i min_id q e f)
        | no f ↦ (_, Turn.pass_id out i min_id q e f)
      ]
  some_Turn s (Consumer.turning out zero) e busy h = (_, Turn.turn_empty out e)
  some_Turn s (Consumer.turning out (suc rounds)) e busy h =
      elim (ℕ_discrete (s.queues (next_queue num_slots size num_writer s)).head
        (s.queues (next_queue num_slots size num_writer s)).tail) [
          | yes f ↦ (_, Turn.pass_turn out rounds e f)
          | no f ↦ (_, Turn.find_turn out rounds e f)
        ]
  some_Turn s (Consumer.naming out q) e busy h = (_, Turn.name out q e)
  some_Turn s (Consumer.copying out q msg_id k) e busy h = elim (dec_lt k size) [
    | yes l ↦ (_, Turn.take_byte out q msg_id k e l)
    | no ge ↦ (
      _,
      Turn.release out q msg_id
          (subst (λ k. s.consumer ≡ Consumer.copying out q msg_id k) (omega (arith, ge)) e),
    )
  ]

  take_left-le : (c : Consumer) → InRange c → take_left c ≤ 2 * num_writer + size + 3
  take_left-le Consumer.idle h = omega arith
  take_left-le (Consumer.scanning out i min_id q) h = omega arith
  take_left-le (Consumer.weighing out i min_id q) h = omega arith
  take_left-le (Consumer.turning out rounds) h = omega arith
  take_left-le (Consumer.naming out q) h = omega arith
  take_left-le (Consumer.copying out q msg_id k) h = omega arith

  -- What the consumer can do in the middle of a call, and what that and the steps of others change.
  pub record Proceeds (s : System) : Type 0 where
    pub next : System
    pub turn : Turn num_slots size num_writer s next
    pub own_turns :
        (t : System)
        → Turn num_slots size num_writer s t
        → take_left t.consumer < take_left s.consumer
    pub other_moves :
        (t : System) (i : ℕ) → Move num_slots size num_writer s i t → t.consumer ≡ s.consumer
    pub bounded : take_left s.consumer ≤ 2 * num_writer + size + 3

  -- In every interleaving, the consumer in the middle of `wfmpscq_dequeue`, with either strategy, can take
  -- a step, each step that it takes lowers a bound for the steps that are left, no step of a producer, not
  -- even the failed attempts of `atomic_faa64u` on ARM, changes that bound, and it is at most twice the
  -- number of rings, the size of a message and three: the call, which makes no atomic operation, returns
  -- after so many steps of its own on x86 and on ARM, whatever the producers do.
  pub dequeue_wait_free :
      {s : System} → Reach num_slots size num_writer s → s.consumer ≢ Consumer.idle → Proceeds s
  dequeue_wait_free {s} rs busy =
      let h = Reach-InRange rs in
      let (next, turn) = some_Turn s s.consumer refl busy h in
      record {
        next = next;
        turn = turn;
        own_turns = λ t c. left-Turn busy h c;
        other_moves = λ t i m. Move-consumer i m;
        bounded = take_left-le s.consumer h;
      }
