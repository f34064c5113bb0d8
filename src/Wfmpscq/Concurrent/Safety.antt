-- ===== src/Wfmpscq/Concurrent/Safety.antt =====
-- What the producers and the consumer of src/wfmpscq.c keep in every interleaving.
use librtipc.Prelude.{ℕ, ◌<◌, ◌≡◌, refl, sym, ◌++◌, length}
use mathlib.Core.Path.{subst}
use librtipc.Ring.{contents-empty, length-contents, used-lt}
use librtipc.Wfmpscq.Concurrent.{System, message}
use librtipc.Wfmpscq.Concurrent.Steps.{Step, Reach, in_flight}
use librtipc.Wfmpscq.Concurrent.Rings.{
  ring_of, RingInv, TakenSoFar, TakenSoFar-frame, rings-update, Stays-update,
}
use librtipc.Wfmpscq.Concurrent.Producing.{OnRing, Move-OnRing}
use librtipc.Wfmpscq.Concurrent.Consuming.{Inv, Turn-Inv}

module _ (n size num_writer : ℕ) where
  on_ring-Inv : {s t : System} (i : ℕ) → Inv n size s → OnRing n size s i t → Inv n size t
  on_ring-Inv {s} {t} i v o = record {
    rings =
        rings-update (RingInv n size) (ring_of s) (ring_of t) i o.ring o.here o.away o.kept.inv
          v.rings;
    taken =
        TakenSoFar-frame (Stays-update (ring_of s) (ring_of t) i o.ring o.here o.away o.kept.stays)
          t.consumer (subst (TakenSoFar (ring_of s)) (sym o.same_consumer) v.taken);
  }

  pub Step-Inv : {s t : System} → Step n size num_writer s t → Inv n size s → Inv n size t
  Step-Inv (Step.produces i l m) v = on_ring-Inv i v (Move-OnRing n size num_writer i (v.rings i) m)
  Step-Inv (Step.consumes c) v = Turn-Inv n size v num_writer c

  pub Reach-Inv : {s : System} → 0 < n → Reach n size num_writer s → Inv n size s
  Reach-Inv h (Reach.start ids bytes) = record {
    rings = λ i. record {
      head_in = h;
      tail_in = h;
      put_part = tt;
      flow = sym (contents-empty n _ 0 0 refl);
    };
    taken = tt;
  }
  Reach-Inv h (Reach.later rs st) = Step-Inv st (Reach-Inv h rs)

  -- In every interleaving of the producers and the consumer, over at least one slot and with either
  -- strategy at each call, what has been dequeued from a ring and then what is in it is exactly what its
  -- producer has enqueued, whole messages with their ids in their order; and the ring holds fewer messages
  -- than slots.
  pub fifo_each :
      {s : System}
      → 0 < n
      → Reach n size num_writer s
      → (i : ℕ)
      → (s.sent i ≡ s.got i ++ in_flight n size num_writer s i)
        × (length (in_flight n size num_writer s i) < n)
  fifo_each {s} h r i =
      let v = (Reach-Inv h r).rings i in
      (
        v.flow,
        rw (length-contents n (message n size s i) (s.queues i).head (s.queues i).tail)
            (used-lt n (s.queues i).head (s.queues i).tail v.head_in v.tail_in),
      )
