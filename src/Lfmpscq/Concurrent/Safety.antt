-- ===== src/Lfmpscq/Concurrent/Safety.antt =====
-- What the producers and the consumer of src/lfmpscq.c keep in every interleaving in which the
-- consumer does not overtake the tail.
use librtipc.Prelude.{
  ℕ, ◌<◌, ◌≡◌, ◌≢◌, inl, refl, sym, ap, ◌∙◌, arith, some, List, [], ◌++◌, ℕ_discrete, if◌then◌else◌,
  ◌==◌,
}
use native.Mathlib.Nat.{zero-add}
use librtipc.Atomic.{cas32}
use librtipc.Atomic.Cas.{exchanged}
use librtipc.Memory.{Bytes}
use librtipc.Memory.Slots.{load_congr}
use librtipc.Lfmpscq.Chain.{IsChain}
use librtipc.Lfmpscq.Concurrent.{Producer, System}
use librtipc.Lfmpscq.Concurrent.Steps.{Step, Reach}
use librtipc.Lfmpscq.Concurrent.Invariant.{Place, free, chained, pending, Inv}
use librtipc.Lfmpscq.Concurrent.Producing.{goes-Inv, announce-Inv}
use librtipc.Lfmpscq.Concurrent.Tail.{advance-Inv, link-Inv}
use librtipc.Lfmpscq.Concurrent.Consuming.{clear_next-Inv, free_slot-Inv}
use librtipc.Lfmpscq.Concurrent.Moves.{
  Kept, at, consumer_at, validated, search-Inv, take, copy, end_at, keep, consumer_step, move,
}

module _ (num_slots size m : ℕ) where
  -- The step does not move the head off the node at which the tail is.
  abbrev pub InOrder : (s t : System) → Step num_slots size m s t → Type 0
  InOrder s _ (Step.move_head out h x e) = s.tail ≢ h
  InOrder s _ _ = Unit

  -- Every step of a producer or of the consumer keeps the invariant.
  Step-Inv :
      {s t : System} {place : ℕ → Place} {xs : List ℕ}
      → (st : Step num_slots size m s t) → InOrder s t st
      → Inv size m s place xs
      → Kept size m t
  Step-Inv {s} {place = place} {xs = xs} (Step.begin_enqueue i payload l e) o v =
      (place, xs, goes-Inv size m v i _ tt)
  Step-Inv {s} {place = place} {xs = xs} (Step.give_up i payload l e) o v =
      (place, xs, goes-Inv size m v i _ tt)
  Step-Inv {s} {place = place} {xs = xs} (Step.skip_slot i payload r l e u) o v =
      (place, xs, goes-Inv size m (search-Inv size m v _) i _ tt)
  Step-Inv {s} {place = place} {xs = xs} (Step.take_slot i payload r l e u) o v =
      take size m v i payload u
  Step-Inv {s} {place = place} {xs = xs} (Step.copy_byte i payload n k l e lt) o v =
      copy size m v i payload n k (at size m v i l e)
  Step-Inv {s} {place = place} {xs = xs} (Step.copied i payload n l e) o v =
      let k = at size m v i l e in
      (
        place,
        xs,
        goes-Inv size m v i _
            (k.0, load_congr (s.bytes n) payload 0 0 size (λ j b. rw zero-add (k.1 j b))),
      )
  Step-Inv {s} {place = place} {xs = xs} (Step.end_node i payload n l e) o v =
      end_at size m v i payload n (at size m v i l e)
  Step-Inv {s} {place = place} {xs = xs} (Step.read_tail i payload n l e) o v =
      (place, xs, goes-Inv size m v i _ (at size m v i l e))
  Step-Inv {s} {place = place} {xs = xs} (Step.announce i payload n t l e) o v =
      (place, xs, announce-Inv size m v i payload n t (at size m v i l e))
  Step-Inv {s} {place = place} {xs = xs} (Step.tail_moved i payload n t l e ne) o v =
      (place, xs, goes-Inv size m v i _ (at size m v i l e).0)
  Step-Inv {s} {place = place} {xs = xs} (Step.tail_same i payload n t l e q) o v =
      let k = at size m v i l e in
      (place, xs, goes-Inv size m v i _ (k.0, validated size m v i t q k.1))
  Step-Inv {s} {place = place} {xs = xs} (Step.read_next i payload n t x l e q) o v =
      let k = at size m v i l e in (place, xs, goes-Inv size m v i _ (k.0, k.1, q))
  Step-Inv {s} {place = place} {xs = xs} (Step.read_end i payload n t l e q) o v =
      (place, xs, goes-Inv size m v i _ (at size m v i l e))
  Step-Inv {s} {place = place} {xs = xs} (Step.help i payload n t x l e) o v =
      let k = at size m v i l e in
      (
        place,
        xs,
        advance-Inv size m v i t x (cas32 s.tail t x).1 (Producer.looping payload n)
            (exchanged s.tail t x) k.2 k.0,
      )
  Step-Inv {s} {place = place} {xs = xs} (Step.link i payload n t l e q) o v =
      let k = at size m v i l e in (_, _, link-Inv size m v i t payload n k.0 k.1 q)
  Step-Inv {s} {place = place} {xs = xs} (Step.link_failed i payload n t l e q) o v =
      (place, xs, goes-Inv size m v i _ (at size m v i l e).0)
  Step-Inv {s} {place = place} {xs = xs} (Step.swing i n t l e) o v =
      let k = at size m v i l e in
      (
        place,
        xs,
        advance-Inv size m v i t n (cas32 s.tail t n).1 Producer.idle (exchanged s.tail t n) k.1 tt,
      )
  Step-Inv {s} (Step.read_head out e) o v = consumer_step size m v e _ refl (λ i t l g c. tt) refl
  Step-Inv {s} (Step.find_empty out h e q) o v =
      consumer_step size m v e _ refl (λ i t l g c. tt) tt
  Step-Inv {s} (Step.find_first out h x e q) o v =
      consumer_step size m v e _ refl (λ i t l g c. tt)
        (consumer_at size m v e, q, λ j b. elim b [ ])
  Step-Inv {s} (Step.take_byte out h x k e lt) o v =
      let kn = consumer_at size m v e in
      consumer_step size m v e _ refl (λ i t l g c. tt) (kn.0, kn.1, λ j b. ground (arith, kn.2 j))
  Step-Inv {s} {place = place} {xs = xs} (Step.move_head out h x e) o v =
      move size m xs v out h x e o
  Step-Inv {s} (Step.finish e) o v = consumer_step size m v e _ refl (λ i t l g c. tt) tt
  Step-Inv {s} (Step.begin_node r rest e) o v =
      consumer_step size m v e _ refl (λ i t l g c q. omega arith) tt
  Step-Inv {s} {place = place} {xs = xs} (Step.keep_node r rest k e lt h) o v =
      keep size m v r rest k e
  Step-Inv {s} (Step.next_hazard r rest k e lt h) o v =
      consumer_step size m v e _ refl
        (λ i t l g c q. elim (ℕ_discrete k i) [
          | yes here ↦ absurd (h (ap s.hazards here ∙ g.hazard ∙ ap some (sym q)))
          | no ne ↦ omega (arith, c q)
        ])
        tt
  Step-Inv {s} (Step.no_hazard r rest e) o v =
      consumer_step size m v e _ refl (λ i t l g c q. absurd (omega (arith, c q))) tt
  Step-Inv {s} {place = place} {xs = xs} (Step.clear_next r rest e) o v =
      (place, xs, clear_next-Inv size m v r rest e)
  Step-Inv {s} {place = place} {xs = xs} (Step.free_slot r rest e) o v =
      (_, xs, free_slot-Inv size m v r rest e)

  Reach-Inv : {s : System} → Reach num_slots size m InOrder s → Kept size m s
  Reach-Inv (Reach.start search bytes) = (
    λ k. if k == 0 then chained else free,
    [],
    record {
      chain = refl;
      distinct = (tt, tt);
      in_list = (refl, tt);
      tail_in = refl;
      tail_near = inl refl;
      unused = λ k u. ground (arith, u);
      listed = tt;
      listed_once = tt;
      knows = λ i l. tt;
      consumer_knows = tt;
      flow = refl;
    },
  )
  Reach-Inv (Reach.later rs st o) = let (place, xs, v) = Reach-Inv rs in Step-Inv st o v

  -- In every interleaving of the producers and the consumer in which the consumer never moves the head
  -- off the node at which the tail is, no message is lost, torn, doubled or overtaken: the nodes `xs`
  -- that can be reached from the head hold what has been linked and not yet taken, whole and in order.
  pub fifo_behind :
      {s : System}
      → Reach num_slots size m InOrder s
      → (xs : List ℕ) × IsChain s.nodes s.head xs × (s.sent ≡ s.got ++ pending size s xs)
  fifo_behind rs = let (place, xs, v) = Reach-Inv rs in (xs, v.chain, v.flow)

  -- In the same interleavings two producers never prepare the same slot, nor one that is in the list.
  pub slots_apart :
      {s : System}
      → Reach num_slots size m InOrder s
      → (i j n : ℕ) (p q : Bytes) (a b : ℕ) → i < m
      → j < m
      → s.producers i ≡ Producer.copying p n a
      → s.producers j ≡ Producer.copying q n b
      → (i ≡ j) × (n ≢ s.head) × (n ≢ s.tail)
  slots_apart rs i j n p q a b li lj ei ej =
      let (place, xs, v) = Reach-Inv rs in
      let oi = (at size m v i li ei).0 in
      let oj = (at size m v j lj ej).0 in
      (
        cc (sym oi ∙ oj),
        λ e. absurd (cc (sym oi ∙ ap place e ∙ v.in_list.0)),
        λ e. absurd (cc (sym oi ∙ ap place e ∙ v.tail_in)),
      )
