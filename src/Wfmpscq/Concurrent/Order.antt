-- ===== src/Wfmpscq/Concurrent/Order.antt =====
-- The ids that the producers of src/wfmpscq.c give to their messages.
use librtipc.Prelude.{
  ℕ, ◌<◌, ◌≤◌, ◌≡◌, refl, sym, arith, List, [], ◌∷◌, ◌++◌, All, append-nil, update_self, ℕ_discrete,
}
use mathlib.Core.Path.{subst}
use librtipc.Memory.Slots.{load}
use librtipc.Lfmpscq.Chain.{All-map, All-snoc}
use librtipc.Wfmpscq.{max_id, to_uint}
use librtipc.Wfmpscq.Concurrent.{Producer, Message, System}
use librtipc.Wfmpscq.Concurrent.Steps.{Move, Turn}
use librtipc.Wfmpscq.Concurrent.Rings.{Ring, ring_of}
use librtipc.Wfmpscq.Concurrent.Producing.{OnRing}

-- The ids rise.
abbrev pub Rising : List Message → Type 0
Rising [] = Unit
Rising (m ∷ ms) = All (λ x. m.id < x.id) ms × Rising ms

abbrev pub Below : ℕ → List Message → Type 0
Below id ms = All (λ m. m.id < id) ms

Rising-snoc :
    (ms : List Message) (m : Message) → Rising ms → Below m.id ms → Rising (ms ++ (m ∷ []))
Rising-snoc [] m r b = (tt, tt)
Rising-snoc (x ∷ ms) m r b = (All-snoc _ ms m r.0 b.0, Rising-snoc ms m r.1 b.1)

pub Rising-append : (xs ys : List Message) → Rising (xs ++ ys) → Rising ys
Rising-append [] ys r = r
Rising-append (x ∷ xs) ys r = Rising-append xs ys r.1

Below-le : (a b : ℕ) (ms : List Message) → a ≤ b → Below a ms → Below b ms
Below-le a b ms l h = All-map _ _ (λ m k. omega (arith, k)) ms h

-- What a producer knows of the ids: the one that it has got is above those of its messages.
abbrev pub Pending : ℕ → List Message → Producer → Type 0
Pending cnt sent (Producer.copying payload id k) = Below id sent × (id < cnt)
Pending cnt sent (Producer.stamping payload id) = Below id sent × (id < cnt)
Pending cnt sent (Producer.publishing payload id) = Below id sent × (id < cnt)
Pending cnt sent _ = Below cnt sent

Pending-le :
    (a b : ℕ) (sent : List Message) → a ≤ b → (p : Producer) → Pending a sent p → Pending b sent p
Pending-le a b sent l Producer.idle h = Below-le a b sent l h
Pending-le a b sent l (Producer.counting payload) h = Below-le a b sent l h
Pending-le a b sent l (Producer.copying payload id k) h = (h.0, omega (arith, h.1))
Pending-le a b sent l (Producer.stamping payload id) h = (h.0, omega (arith, h.1))
Pending-le a b sent l (Producer.publishing payload id) h = (h.0, omega (arith, h.1))

pub Pending-Below :
    (cnt : ℕ) (sent : List Message) (p : Producer) → Pending cnt sent p → Below cnt sent
Pending-Below cnt sent Producer.idle h = h
Pending-Below cnt sent (Producer.counting payload) h = h
Pending-Below cnt sent (Producer.copying payload id k) h =
    Below-le id cnt sent (omega (arith, h.1)) h.0
Pending-Below cnt sent (Producer.stamping payload id) h =
    Below-le id cnt sent (omega (arith, h.1)) h.0
Pending-Below cnt sent (Producer.publishing payload id) h =
    Below-le id cnt sent (omega (arith, h.1)) h.0

abbrev pub RingOrder : ℕ → Ring → Type 0
RingOrder cnt r = Rising r.sent × Pending cnt r.sent r.producer

module _ (n size num_writer : ℕ) {s : System} (i : ℕ) where
  pub Move-id_cnt : {t : System} → Move n size num_writer s i t → s.id_cnt ≤ t.id_cnt
  Move-id_cnt (Move.refuse e f) = omega arith
  Move-id_cnt (Move.count_again payload e) = omega arith
  Move-id_cnt (Move.begin_enqueue payload e f) = omega arith
  Move-id_cnt (Move.count payload e) = omega arith
  Move-id_cnt (Move.copy_byte payload id k e l) = omega arith
  Move-id_cnt (Move.copied payload id e) = omega arith
  Move-id_cnt (Move.stamp payload id e) = omega arith
  Move-id_cnt (Move.publish payload id e) = omega arith

  -- The step keeps the order in the ring of the producer, while the count of messages fits a word.
  own-RingOrder :
      {t : System}
      → RingOrder s.id_cnt (ring_of s i)
      → t.id_cnt ≤ max_id
      → Move n size num_writer s i t
      → RingOrder t.id_cnt (ring_of t i)
  own-RingOrder h b (Move.refuse e f) = h
  own-RingOrder h b (Move.count_again payload e) = h
  own-RingOrder h b (Move.begin_enqueue payload e f) =
      rw update_self (h.0, subst (Pending s.id_cnt (s.sent i)) e h.1)
  own-RingOrder h b (Move.count payload e) =
      let below = subst (Pending s.id_cnt (s.sent i)) e h.1 in
      let fits : to_uint s.id_cnt ≡ s.id_cnt = omega arith in
      rw (update_self, fits) (h.0, (below, omega arith))
  own-RingOrder h b (Move.copy_byte payload id k e l) =
      rw update_self (h.0, subst (Pending s.id_cnt (s.sent i)) e h.1)
  own-RingOrder h b (Move.copied payload id e) =
      rw update_self (h.0, subst (Pending s.id_cnt (s.sent i)) e h.1)
  own-RingOrder h b (Move.stamp payload id e) =
      rw update_self (h.0, subst (Pending s.id_cnt (s.sent i)) e h.1)
  own-RingOrder h b (Move.publish payload id e) =
      let p = subst (Pending s.id_cnt (s.sent i)) e h.1 in
      rw (update_self, update_self)
        (
          Rising-snoc (s.sent i) _ h.0 p.0,
          All-snoc _ (s.sent i) _ (Below-le id s.id_cnt (s.sent i) (omega (arith, p.1)) p.0) p.1,
        )

  pub Move-Order :
      {t : System}
      → ((j : ℕ) → RingOrder s.id_cnt (ring_of s j))
      → t.id_cnt ≤ max_id
      → OnRing n size s i t
      → Move n size num_writer s i t
      → (j : ℕ) → RingOrder t.id_cnt (ring_of t j)
  Move-Order {t} h b o m j = elim (ℕ_discrete j i) [
    | yes e ↦ subst (λ k. RingOrder t.id_cnt (ring_of t k)) (sym e) (own-RingOrder (h i) b m)
    | no ne ↦
        subst (RingOrder t.id_cnt) (sym (o.away j ne))
          ((h j).0, Pending-le s.id_cnt t.id_cnt (s.sent j) (Move-id_cnt m) (s.producers j) (h j).1)
  ]

  -- A ring gets messages behind those that have been enqueued, and nothing else of the history changes.
  pub Move-sent :
      {t : System}
      → Move n size num_writer s i t
      → (j : ℕ) → (more : List Message) × (t.sent j ≡ s.sent j ++ more)
  Move-sent (Move.refuse e f) j = ([], sym (append-nil (s.sent j)))
  Move-sent (Move.count_again payload e) j = ([], sym (append-nil (s.sent j)))
  Move-sent (Move.begin_enqueue payload e f) j = ([], sym (append-nil (s.sent j)))
  Move-sent (Move.count payload e) j = ([], sym (append-nil (s.sent j)))
  Move-sent (Move.copy_byte payload id k e l) j = ([], sym (append-nil (s.sent j)))
  Move-sent (Move.copied payload id e) j = ([], sym (append-nil (s.sent j)))
  Move-sent (Move.stamp payload id e) j = ([], sym (append-nil (s.sent j)))
  Move-sent (Move.publish payload id e) j = elim (ℕ_discrete i j) [
    | yes q ↦ (record { id = id; body = load payload 0 size } ∷ [], ground (arith))
    | no ne ↦ ([], ground (arith, append-nil (s.sent j)))
  ]

  pub Move-history :
      {t : System} → Move n size num_writer s i t → (t.got ≡ s.got) × (t.seen ≡ s.seen)
  Move-history (Move.refuse e f) = (refl, refl)
  Move-history (Move.count_again payload e) = (refl, refl)
  Move-history (Move.begin_enqueue payload e f) = (refl, refl)
  Move-history (Move.count payload e) = (refl, refl)
  Move-history (Move.copy_byte payload id k e l) = (refl, refl)
  Move-history (Move.copied payload id e) = (refl, refl)
  Move-history (Move.stamp payload id e) = (refl, refl)
  Move-history (Move.publish payload id e) = (refl, refl)

module _ (n size num_writer : ℕ) where
  pub Turn-id_cnt : {s t : System} → Turn n size num_writer s t → t.id_cnt ≡ s.id_cnt
  Turn-id_cnt (Turn.begin_scan out e) = refl
  Turn-id_cnt (Turn.pass_ring out i min_id q e l f) = refl
  Turn-id_cnt (Turn.find_ring out i min_id q e l f) = refl
  Turn-id_cnt (Turn.improve out i min_id q e f) = refl
  Turn-id_cnt (Turn.pass_id out i min_id q e f) = refl
  Turn-id_cnt (Turn.find_nothing out min_id e) = refl
  Turn-id_cnt (Turn.choose out min_id q e) = refl
  Turn-id_cnt (Turn.begin_turn out e) = refl
  Turn-id_cnt (Turn.pass_turn out rounds e f) = refl
  Turn-id_cnt (Turn.find_turn out rounds e f) = refl
  Turn-id_cnt (Turn.turn_empty out e) = refl
  Turn-id_cnt (Turn.name out q e) = refl
  Turn-id_cnt (Turn.take_byte out q msg_id k e l) = refl
  Turn-id_cnt (Turn.release out q msg_id e) = refl
