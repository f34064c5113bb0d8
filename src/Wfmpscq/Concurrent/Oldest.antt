-- ===== src/Wfmpscq/Concurrent/Oldest.antt =====
-- Which message `wfmpscq_dequeue` of src/wfmpscq.c takes by ids while the producers go on.
use librtipc.Prelude.{
  ℕ, ◌+◌, ◌<◌, ◌≤◌, ◌≡◌, ◌≢◌, refl, sym, ap, ◌∙◌, arith, Option, none, some, [], ◌∷◌, All,
  ℕ_discrete,
}
use mathlib.Core.Path.{subst}
use librtipc.Memory.{Bytes}
use librtipc.Ring.{after, contents, contents-front}
use librtipc.Lfmpscq.Chain.{All-map}
use librtipc.Wfmpscq.{max_id}
use librtipc.Wfmpscq.Concurrent.{Consumer, System, message}
use librtipc.Wfmpscq.Concurrent.Steps.{Move, Turn, Step, Reach, in_flight}
use librtipc.Wfmpscq.Concurrent.Rings.{ring_of, First}
use librtipc.Wfmpscq.Concurrent.Producing.{OnRing, Move-OnRing}
use librtipc.Wfmpscq.Concurrent.Consuming.{Inv, at}
use librtipc.Wfmpscq.Concurrent.Safety.{Reach-Inv}
use librtipc.Wfmpscq.Concurrent.Seen.{
  All-left, All-right, Grown, Grown-Move, Grown-begun, seen-in_flight, seen_empty,
}
use librtipc.Wfmpscq.Concurrent.Order.{
  Rising, Rising-append, Below, Pending-Below, RingOrder, Move-id_cnt, Turn-id_cnt, Move-Order,
  Move-history,
}

-- What the first loop has found in the rings before `i`
abbrev Found : System → ℕ → ℕ → Option ℕ → Type 0
Found s i min_id q =
    ((j : ℕ) → j < i → All (λ m. min_id ≤ m.id) (s.seen j))
    × (q ≡ none → (min_id ≡ max_id) × ((j : ℕ) → j < i → s.seen j ≡ []))

abbrev Scanned : System → Consumer → Type 0
Scanned s (Consumer.scanning out i min_id q) = ((j : ℕ) → Grown s j) × Found s i min_id q
Scanned s (Consumer.weighing out i min_id q) = ((j : ℕ) → Grown s j) × Found s i min_id q
Scanned s _ = Unit

record Past (s : System) : Type 0 where
  order : (j : ℕ) → RingOrder s.id_cnt (ring_of s j)
  scanned : Scanned s s.consumer

Scanned-frame :
    (s t : System)
    → ((j : ℕ) → Grown s j → Grown t j)
    → t.seen ≡ s.seen
    → (c : Consumer) → Scanned s c
    → Scanned t c
Scanned-frame s t g e Consumer.idle h = tt
Scanned-frame s t g e (Consumer.scanning out i min_id q) h = ((λ j. g j (h.0 j)), rw e h.1)
Scanned-frame s t g e (Consumer.weighing out i min_id q) h = ((λ j. g j (h.0 j)), rw e h.1)
Scanned-frame s t g e (Consumer.turning out rounds) h = tt
Scanned-frame s t g e (Consumer.naming out q) h = tt
Scanned-frame s t g e (Consumer.copying out q msg_id k) h = tt

module _ (n size num_writer : ℕ) where
  -- A step of a producer
  Move-Past :
      {s t : System} (i : ℕ)
      → Past s
      → t.id_cnt ≤ max_id
      → OnRing n size s i t
      → Move n size num_writer s i t
      → Past t
  Move-Past {s} {t} i p b o m = record {
    order = Move-Order n size num_writer i p.order b o m;
    scanned =
        Scanned-frame s t (Grown-Move n size num_writer i m) (Move-history n size num_writer i m).1
          t.consumer (subst (Scanned s) (sym o.same_consumer) p.scanned);
  }

  module _ {s : System} (v : Inv n size s) (p : Past s) (b : s.id_cnt ≤ max_id) where
    -- The first message of a ring has the least id of those that were there, which is below the greatest.
    module _ (i : ℕ) (g : Grown s i) (ne : (s.queues i).head ≢ (s.queues i).tail) where
      front :
          in_flight n size num_writer s i
          ≡ message n size s i (s.queues i).head
            ∷ contents n (message n size s i) (after n (s.queues i).head) (s.queues i).tail
      front =
          contents-front n (message n size s i) (s.queues i).head (s.queues i).tail
            (v.rings i).head_in (v.rings i).tail_in ne

      rising : Rising (in_flight n size num_writer s i)
      rising =
          Rising-append (s.got i) (in_flight n size num_writer s i)
            (subst Rising (v.rings i).flow (p.order i).0)

      id-le : All (λ m. s.ids i (s.queues i).head ≤ m.id) (s.seen i)
      id-le = All-left _ (s.seen i) g.0 (
          subst (All (λ m. s.ids i (s.queues i).head ≤ m.id))
            (sym front ∙ seen-in_flight n size num_writer v i g)
            (omega arith, All-map _ _ (λ m l. omega (arith, l)) _ (subst Rising front rising).0))

      id-below : s.ids i (s.queues i).head < max_id
      id-below =
          let below = subst (Below s.id_cnt) front (
            All-right _ (s.got i) (in_flight n size num_writer s i) (
              subst (Below s.id_cnt) (v.rings i).flow
                (Pending-Below s.id_cnt (s.sent i) (s.producers i) (p.order i).1))) in
          omega (arith, below.0)

    at_scan : {c : Consumer} → s.consumer ≡ c → Scanned s c
    at_scan e = subst (Scanned s) e p.scanned

    -- What the first loop has found when it goes on from ring `i` without a new least id, and with one
    passed :
        (i min_id : ℕ) (q : Option ℕ)
        → Found s i min_id q
        → All (λ m. min_id ≤ m.id) (s.seen i)
        → (q ≡ none → s.seen i ≡ [])
        → Found s (i + 1) min_id q
    passed i min_id q f here none_here = (
      λ j l. elim (ℕ_discrete j i) [
        | yes e ↦ subst (λ k. All (λ m. min_id ≤ m.id) (s.seen k)) (sym e) here
        | no ne ↦ f.0 j (omega arith)
      ],
      λ e. (
        (f.1 e).0,
        λ j l. elim (ℕ_discrete j i) [
          | yes q ↦ ap s.seen q ∙ none_here e
          | no ne ↦ (f.1 e).1 j (omega arith)
        ],
      ),
    )

    improved :
        (i min_id id : ℕ) (q : Option ℕ)
        → Found s i min_id q
        → id < min_id
        → All (λ m. id ≤ m.id) (s.seen i)
        → Found s (i + 1) id (some i)
    improved i min_id id q f less here = (
      λ j l. elim (ℕ_discrete j i) [
        | yes e ↦ subst (λ k. All (λ m. id ≤ m.id) (s.seen k)) (sym e) here
        | no ne ↦ All-map _ _ (λ m k. omega (arith, k)) (s.seen j) (f.0 j (omega arith))
      ],
      λ e. absurd (cc e),
    )

  -- A step of the consumer
  Turn-Past :
      {s t : System}
      → Inv n size s
      → Past s
      → s.id_cnt ≤ max_id
      → Turn n size num_writer s t
      → Past t
  Turn-Past {s} v p b (Turn.begin_scan out e) = record {
    order = p.order;
    scanned = (
      Grown-begun n size num_writer v (Consumer.scanning out 0 max_id none),
      (λ j l. elim l [ ], λ e. (refl, λ j l. elim l [ ])),
    );
  }
  Turn-Past {s} v p b (Turn.pass_ring out i min_id q e l f) =
      let (g, found) = at_scan v p b e in
      let empty = seen_empty n size num_writer v i (g i) f in
      record {
        order = p.order;
        scanned = (
          g,
          passed v p b i min_id q found (subst (All (λ m. min_id ≤ m.id)) (sym empty) tt)
              (λ k. empty),
        );
      }
  Turn-Past v p b (Turn.find_ring out i min_id q e l f) = record {
    order = p.order;
    scanned = at_scan v p b e;
  }
  Turn-Past {s} v p b (Turn.improve out i min_id q e f) =
      let (g, found) = at_scan v p b e in
      record {
        order = p.order;
        scanned = (
          g,
          improved v p b i min_id (s.ids i (s.queues i).head) q found f
              (id-le v p b i (g i) (at n size v e).0),
        );
      }
  Turn-Past {s} v p b (Turn.pass_id out i min_id q e f) =
      let (g, found) = at_scan v p b e in
      let ne = (at n size v e).0 in
      record {
        order = p.order;
        scanned = (
          g,
          passed v p b i min_id q found
              (All-map _ _ (λ m k. omega (arith, k, f)) (s.seen i) (id-le v p b i (g i) ne))
              (λ k. absurd (
                f (
                  subst (λ w. s.ids i (s.queues i).head < w) (sym (found.1 k).0)
                    (id-below v p b i (g i) ne)))),
        );
      }
  Turn-Past v p b (Turn.find_nothing out min_id e) = record { order = p.order; scanned = tt }
  Turn-Past v p b (Turn.choose out min_id q e) = record { order = p.order; scanned = tt }
  Turn-Past v p b (Turn.begin_turn out e) = record { order = p.order; scanned = tt }
  Turn-Past v p b (Turn.pass_turn out rounds e f) = record { order = p.order; scanned = tt }
  Turn-Past v p b (Turn.find_turn out rounds e f) = record { order = p.order; scanned = tt }
  Turn-Past v p b (Turn.turn_empty out e) = record { order = p.order; scanned = tt }
  Turn-Past v p b (Turn.name out q e) = record { order = p.order; scanned = tt }
  Turn-Past v p b (Turn.take_byte out q msg_id k e l) = record { order = p.order; scanned = tt }
  Turn-Past v p b (Turn.release out q msg_id e) = record { order = p.order; scanned = tt }

  Reach-Past : {s : System} → 0 < n → s.id_cnt ≤ max_id → Reach n size num_writer s → Past s
  Reach-Past h b (Reach.start ids bytes) = record { order = λ j. (tt, tt); scanned = tt }
  Reach-Past h b (Reach.later {s = s} rs (Step.produces i l m)) =
      let before : s.id_cnt ≤ max_id = omega (arith, Move-id_cnt n size num_writer i m) in
      Move-Past i (Reach-Past h before rs) b
        (Move-OnRing n size num_writer i ((Reach-Inv n size num_writer h rs).rings i) m) m
  Reach-Past h b (Reach.later {s = s} rs (Step.consumes c)) =
      let before : s.id_cnt ≤ max_id = omega (arith, Turn-id_cnt n size num_writer c) in
      Turn-Past (Reach-Inv n size num_writer h rs) (Reach-Past h before rs) before c

  -- In every interleaving, over at least one slot and while fewer than 2 ^ 32 messages have been counted,
  -- the message that `wfmpscq_dequeue` by ids chooses is the first of its ring, and no message that was in
  -- a ring when the call began has a lesser id.
  pub oldest_there :
      {s : System}
      → 0 < n
      → Reach n size num_writer s
      → s.id_cnt ≤ max_id
      → (out : Bytes) (min_id q : ℕ) → s.consumer ≡ Consumer.scanning out num_writer min_id (some q)
      → First (ring_of s) q min_id
        × ((j : ℕ) → j < num_writer → All (λ m. min_id ≤ m.id) (s.seen j))
  oldest_there h rs b out min_id q e =
      let v = Reach-Inv n size num_writer h rs in
      let p = Reach-Past h b rs in (at n size v e q refl, (at_scan v p b e).1.0)

  -- In every interleaving, over at least one slot and while fewer than 2 ^ 32 messages have been counted,
  -- when `wfmpscq_dequeue` by ids is about to return -1, all rings were empty when the call began.
  pub nothing_there :
      {s : System}
      → 0 < n
      → Reach n size num_writer s
      → s.id_cnt ≤ max_id
      → (out : Bytes) (min_id : ℕ) → s.consumer ≡ Consumer.scanning out num_writer min_id none
      → (j : ℕ) → j < num_writer
      → s.seen j ≡ []
  nothing_there h rs b out min_id e =
      let v = Reach-Inv n size num_writer h rs in
      let p = Reach-Past h b rs in ((at_scan v p b e).1.1 refl).1
