-- ===== src/Wfmpscq/Concurrent/Turns.antt =====
-- Which ring `wfmpscq_dequeue` of src/wfmpscq.c takes in round robin while the producers go on.
use native.Mathlib.Nat.{mod-add-mod, mod-eq_of_lt, mod-lt, add-mod_right}
use mathlib.Core.Path.{subst}
use librtipc.Prelude.{
  ℕ, ◌+◌, ◌-◌, ◌%◌, ◌<◌, ◌≡◌, ◌≢◌, refl, sym, ap, ◌∙◌, arith, dec_lt, [], ℕ_discrete,
}
use librtipc.Memory.{Bytes}
use librtipc.Wfmpscq.Concurrent.{Consumer, System}
use librtipc.Wfmpscq.Concurrent.Steps.{Move, Turn, Step, Reach}
use librtipc.Wfmpscq.Concurrent.Consuming.{Inv, at}
use librtipc.Wfmpscq.Concurrent.Order.{Move-history}
use librtipc.Wfmpscq.Concurrent.Producing.{OnRing, Move-OnRing}
use librtipc.Wfmpscq.Concurrent.Safety.{Reach-Inv}
use librtipc.Wfmpscq.Concurrent.Seen.{Grown, Grown-Move, Grown-begun, seen_empty}

module _ (num_writer : ℕ) where
  -- The ring whose turn it is after `k` others, in the call that last began
  abbrev pub in_turn : System → ℕ → ℕ
  in_turn s k = (s.from + (k + 1)) % num_writer

  -- The first `k` rings were empty when the call began.
  abbrev pub Passed : System → ℕ → Type 0
  Passed s k = (j : ℕ) → j < k → s.seen (in_turn s j) ≡ []

  abbrev Turned : System → Consumer → Type 0
  Turned s (Consumer.turning out rounds) =
      ((j : ℕ) → Grown s j)
      × ((k : ℕ) × (k + rounds ≡ num_writer)
          × ((s.lastqueue + 1) % num_writer ≡ in_turn s k)
          × Passed s k)
  Turned s (Consumer.naming out q) = (k : ℕ) × (k < num_writer) × (q ≡ in_turn s k) × Passed s k
  Turned s _ = Unit

  Turned-frame :
      (s t : System)
      → ((j : ℕ) → Grown s j → Grown t j)
      → t.seen ≡ s.seen
      → t.from ≡ s.from
      → t.lastqueue ≡ s.lastqueue
      → (c : Consumer) → Turned s c
      → Turned t c
  Turned-frame s t g e f l Consumer.idle h = tt
  Turned-frame s t g e f l (Consumer.scanning out i min_id q) h = tt
  Turned-frame s t g e f l (Consumer.weighing out i min_id q) h = tt
  Turned-frame s t g e f l (Consumer.turning out rounds) h = ((λ j. g j (h.0 j)), rw (e, f, l) h.1)
  Turned-frame s t g e f l (Consumer.naming out q) h = rw (e, f) h
  Turned-frame s t g e f l (Consumer.copying out q msg_id k) h = tt

  -- Every ring has its turn within one round.
  turn-of :
      (from j : ℕ)
      → j < num_writer
      → (k : ℕ) × (k < num_writer) × (j ≡ (from + (k + 1)) % num_writer)
  turn-of from j l =
      let f = from % num_writer in
      let below : f < num_writer = mod-lt from (omega arith) in
      elim (dec_lt f j) [
        | yes less ↦ (
          j - f - 1,
          omega arith,
          sym (mod-eq_of_lt l)
              ∙ ap (λ a. a % num_writer) (omega arith)
              ∙ mod-add-mod from num_writer (j - f - 1 + 1),
        )
        | no more ↦ (
          j + num_writer - f - 1,
          omega arith,
          sym (add-mod_right j num_writer ∙ mod-eq_of_lt l)
              ∙ ap (λ a. a % num_writer) (omega arith)
              ∙ mod-add-mod from num_writer (j + num_writer - f - 1 + 1),
        )
      ]

  module _ (n size : ℕ) where
    Move-lastqueue :
        {s : System} (i : ℕ) {t : System}
        → Move n size num_writer s i t
        → (t.from ≡ s.from) × (t.lastqueue ≡ s.lastqueue)
    Move-lastqueue i (Move.refuse e f) = (refl, refl)
    Move-lastqueue i (Move.count_again payload e) = (refl, refl)
    Move-lastqueue i (Move.begin_enqueue payload e f) = (refl, refl)
    Move-lastqueue i (Move.count payload e) = (refl, refl)
    Move-lastqueue i (Move.copy_byte payload id k e l) = (refl, refl)
    Move-lastqueue i (Move.copied payload id e) = (refl, refl)
    Move-lastqueue i (Move.stamp payload id e) = (refl, refl)
    Move-lastqueue i (Move.publish payload id e) = (refl, refl)

    Move-Turned :
        {s t : System} (i : ℕ)
        → OnRing n size s i t
        → Move n size num_writer s i t
        → Turned s s.consumer
        → Turned t t.consumer
    Move-Turned {s} {t} i o m h =
        let l = Move-lastqueue i m in
        Turned-frame s t (Grown-Move n size num_writer i m) (Move-history n size num_writer i m).1
          l.0 l.1 t.consumer (subst (Turned s) (sym o.same_consumer) h)

    module _ {s : System} (v : Inv n size s) (h : Turned s s.consumer) where
      at_turn : {c : Consumer} → s.consumer ≡ c → Turned s c
      at_turn e = subst (Turned s) e h

      -- A ring that is empty at its turn was empty when the call began.
      Passed-suc :
          (k : ℕ)
          → ((j : ℕ) → Grown s j)
          → (s.lastqueue + 1) % num_writer ≡ in_turn s k
          → (s.queues ((s.lastqueue + 1) % num_writer)).head
            ≡ (s.queues ((s.lastqueue + 1) % num_writer)).tail
          → Passed s k
          → Passed s (k + 1)
      Passed-suc k g turn f passed j l = elim (ℕ_discrete j k) [
        | yes e ↦
            ap (λ i. s.seen (in_turn s i)) e
            ∙ ap s.seen (sym turn)
            ∙ seen_empty n size num_writer v _ (g _) f
        | no ne ↦ passed j (omega arith)
      ]

      Turn-Turned : {t : System} → Turn n size num_writer s t → Turned t t.consumer
      Turn-Turned (Turn.begin_scan out e) = tt
      Turn-Turned (Turn.pass_ring out i min_id q e l f) = tt
      Turn-Turned (Turn.find_ring out i min_id q e l f) = tt
      Turn-Turned (Turn.improve out i min_id q e f) = tt
      Turn-Turned (Turn.pass_id out i min_id q e f) = tt
      Turn-Turned (Turn.find_nothing out min_id e) = tt
      Turn-Turned (Turn.choose out min_id q e) = tt
      Turn-Turned (Turn.begin_turn out e) = (
        Grown-begun n size num_writer v (Consumer.turning out num_writer),
        (0, omega arith, refl, λ j l. elim l [ ]),
      )
      Turn-Turned (Turn.pass_turn out rounds e f) =
          let (g, (k, sum, turn, passed)) = at_turn e in
          (
            g,
            (
              k + 1,
              omega (arith, sum),
              ap (λ i. (i + 1) % num_writer) turn
                  ∙ mod-add-mod (s.from + (k + 1)) num_writer 1
                  ∙ ap (λ i. i % num_writer) (omega arith),
              Passed-suc k g turn f passed,
            ),
          )
      Turn-Turned (Turn.find_turn out rounds e f) =
          let (g, (k, sum, turn, passed)) = at_turn e in (k, omega (arith, sum), turn, passed)
      Turn-Turned (Turn.turn_empty out e) = tt
      Turn-Turned (Turn.name out q e) = tt
      Turn-Turned (Turn.take_byte out q msg_id k e l) = tt
      Turn-Turned (Turn.release out q msg_id e) = tt

    Reach-Turned : {s : System} → 0 < n → Reach n size num_writer s → Turned s s.consumer
    Reach-Turned h (Reach.start ids bytes) = tt
    Reach-Turned h (Reach.later rs (Step.produces i l m)) =
        Move-Turned i
          (Move-OnRing n size num_writer i ((Reach-Inv n size num_writer h rs).rings i) m) m
          (Reach-Turned h rs)
    Reach-Turned h (Reach.later rs (Step.consumes c)) =
        Turn-Turned (Reach-Inv n size num_writer h rs) (Reach-Turned h rs) c

    -- In every interleaving, over at least one slot, the ring that `wfmpscq_dequeue` in round robin takes
    -- a message from is not empty, and it is within one round after `lastqueue` as the call found it; each
    -- ring whose turn was before was empty when the call began.
    pub first_in_turn :
        {s : System}
        → 0 < n
        → Reach n size num_writer s
        → (out : Bytes) (q : ℕ) → s.consumer ≡ Consumer.naming out q
        → ((s.queues q).head ≢ (s.queues q).tail)
          × ((k : ℕ) × (k < num_writer) × (q ≡ in_turn s k) × Passed s k)
    first_in_turn h rs out q e =
        let v = Reach-Inv n size num_writer h rs in (at n size v e, at_turn v (Reach-Turned h rs) e)

    -- In every interleaving, over at least one slot, when `wfmpscq_dequeue` in round robin is about to
    -- return -1, all rings were empty when the call began.
    pub none_in_turn :
        {s : System}
        → 0 < n
        → Reach n size num_writer s
        → (out : Bytes) → s.consumer ≡ Consumer.turning out 0
        → (j : ℕ) → j < num_writer
        → s.seen j ≡ []
    none_in_turn {s} h rs out e j l =
        let v = Reach-Inv n size num_writer h rs in
        let (g, (k, sum, turn, passed)) = at_turn v (Reach-Turned h rs) e in
        let (i, below, is) = turn-of s.from j l in
        ap s.seen is ∙ passed i (omega (arith, sum, below))
