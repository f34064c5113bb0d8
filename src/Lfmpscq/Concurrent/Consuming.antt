-- ===== src/Lfmpscq/Concurrent/Consuming.antt =====
-- The steps of the consumer of src/lfmpscq.c keep the invariant.
use librtipc.Prelude.{
  ℕ, ◌<◌, ◌≡◌, ◌≢◌, ◌⊎◌, refl, sym, ap, ◌∙◌, arith, none, some, List, ◌∷◌, ◌++◌, All, update,
  update_self, update-ne, ℕ_discrete,
}
use mathlib.Core.Path.{subst}
use librtipc.Lfmpscq.{Node}
use librtipc.Lfmpscq.Chain.{
  IsChain, IsChain-congr, last_of, Distinct, All-map, All-map2, All-middle, All-drop, Distinct-drop,
}
use librtipc.Lfmpscq.Concurrent.{Consumer, System, next_cleared, slot_freed}
use librtipc.Lfmpscq.Concurrent.Invariant.{
  Place, free, owned, retired, aside, Clear, Linked, Guarded, ConsumerKnows, Inv,
}
use librtipc.Lfmpscq.Concurrent.Frame.{Frame, Knows-frame}

module _ (size m : ℕ) {s : System} {place : ℕ → Place} {xs : List ℕ}
    (v : Inv size m s place xs) where
  -- A step that changes nothing but where the consumer stands and how the retired nodes are split
  pub turn-Inv :
      (c : Consumer) (rs : List ℕ)
      → rs ++ aside c ≡ s.retired ++ aside s.consumer
      → ((i t : ℕ) → i < m → Guarded s place i t → Clear c i t)
      → ConsumerKnows size s c
      → Inv size m (record s { consumer = c; retired = rs }) place xs
  turn-Inv c rs same clear own = record {
    chain = v.chain;
    distinct = v.distinct;
    in_list = v.in_list;
    tail_in = v.tail_in;
    tail_near = v.tail_near;
    unused = v.unused;
    listed = subst (All (λ k. place k ≡ retired)) (sym same) v.listed;
    listed_once = subst Distinct (sym same) v.listed_once;
    knows = λ i l. Knows-frame size (frame i l) (s.producers i) (v.knows i l);
    consumer_knows = own;
    flow = v.flow;
  }
    where
      frame : (i : ℕ) → i < m → Frame s (record s { consumer = c; retired = rs }) place place i
      frame i l = record {
        same_hazard = refl;
        same_place = λ n e. e;
        same_next = λ n e. refl;
        same_bytes = λ n e. refl;
        guards = λ t g. record {
          linked = g.linked;
          known = g.known;
          hazard = g.hazard;
          clear = clear i t l g;
        };
        links = λ t x g e. e;
      }

  -- The two writes that free a slot
  module _ (r : ℕ) (rest : List ℕ) where
    owned-ne : (i k : ℕ) → place k ≡ owned i → place r ≡ retired → k ≢ r
    owned-ne i k o c e = absurd (cc (sym o ∙ ap place e ∙ c))

    nodes_ne : (x : Node) (k : ℕ) → k ≢ r → update s.nodes r x k ≡ s.nodes k
    nodes_ne x k ne = update-ne s.nodes r x k (λ e. ne (sym e))

    module _ (c : place r ≡ retired) where
      list-ne : All (λ k. k ≢ r) (s.head ∷ xs)
      list-ne = All-map _ _ (λ k l e. absurd (cc (sym l ∙ ap place e ∙ c))) (s.head ∷ xs) v.in_list

      tail-ne : s.tail ≢ r
      tail-ne e = absurd (cc (sym v.tail_in ∙ ap place e ∙ c))

      IsChain-kept : (x : Node) → IsChain (update s.nodes r x) s.head xs
      IsChain-kept x =
          IsChain-congr s.nodes (update s.nodes r x) s.head xs
            (All-map _ _ (λ k ne. ap (λ y. y.next) (nodes_ne x k ne)) (s.head ∷ xs) list-ne) v.chain

      tail_near-kept :
          (x : Node)
          → (s.tail ≡ last_of s.head xs)
            ⊎ ((update s.nodes r x s.tail).next ≡ some (last_of s.head xs))
      tail_near-kept x =
          subst (λ y. (s.tail ≡ last_of s.head xs) ⊎ (y.next ≡ some (last_of s.head xs)))
            (sym (nodes_ne x s.tail tail-ne)) v.tail_near

    pub clear_next-Inv :
        s.consumer ≡ Consumer.clearing r rest → Inv size m (next_cleared s r rest) place xs
    clear_next-Inv at = record {
      chain = IsChain-kept c emptied;
      distinct = v.distinct;
      in_list = v.in_list;
      tail_in = v.tail_in;
      tail_near = tail_near-kept c emptied;
      unused = λ k u. v.unused k (ground (arith, u));
      listed = listed;
      listed_once = subst (λ q. Distinct (s.retired ++ aside q)) at v.listed_once;
      knows = λ i l. Knows-frame size (frame i) (s.producers i) (v.knows i l);
      consumer_knows = tt;
      flow = v.flow;
    }
      where
        emptied : Node
        emptied = record (s.nodes r) { next = none }

        listed : All (λ k. place k ≡ retired) (s.retired ++ (r ∷ rest))
        listed = subst (λ q. All (λ k. place k ≡ retired) (s.retired ++ aside q)) at v.listed

        c : place r ≡ retired
        c = All-middle _ s.retired r rest listed

        frame : (i : ℕ) → Frame s (next_cleared s r rest) place place i
        frame i = record {
          same_hazard = refl;
          same_place = λ n e. e;
          same_next = λ n e. ap (λ y. y.next) (nodes_ne emptied n (owned-ne i n e c));
          same_bytes = λ n e. refl;
          guards = λ t g.
              let ne : r ≢ t = subst (λ q. Clear q i t) at g.clear in
              record {
                linked = g.linked;
                known =
                    subst (λ y. (s.tail ≡ t) ⊎ (y.next ≢ none))
                      (sym (nodes_ne emptied t (λ e. ne (sym e)))) g.known;
                hazard = g.hazard;
                clear = ne;
              };
          links = λ t x g e.
              let ne : r ≢ t = subst (λ q. Clear q i t) at g.clear in
              ap (λ y. y.next) (nodes_ne emptied t (λ e. ne (sym e))) ∙ e;
        }

    pub free_slot-Inv :
        s.consumer ≡ Consumer.freeing r rest
        → Inv size m (slot_freed s r rest) (update place r free) xs
    free_slot-Inv at = record {
      chain = IsChain-kept c freed;
      distinct = v.distinct;
      in_list = All-map2 _ _ _ (λ k ne l. place_ne k ne ∙ l) (s.head ∷ xs) (list-ne c) v.in_list;
      tail_in = place_ne s.tail (tail-ne c) ∙ v.tail_in;
      tail_near = tail_near-kept c freed;
      unused = λ k u. elim (ℕ_discrete k r) [
        | yes q ↦ ap (update place r free) q ∙ update_self place r free
        | no ne ↦ place_ne k ne ∙ v.unused k (ap (λ y. y.used) (sym (nodes_ne freed k ne)) ∙ u)
      ];
      listed =
          All-map2 _ _ _ (λ k ne l. place_ne k ne ∙ l) (s.retired ++ rest)
            (Distinct-drop s.retired r rest once).1 (All-drop _ s.retired r rest listed);
      listed_once = (Distinct-drop s.retired r rest once).0;
      knows = λ i l. Knows-frame size (frame i) (s.producers i) (v.knows i l);
      consumer_knows = tt;
      flow = v.flow;
    }
      where
        freed : Node
        freed = record (s.nodes r) { used = 0 }

        listed : All (λ k. place k ≡ retired) (s.retired ++ (r ∷ rest))
        listed = subst (λ q. All (λ k. place k ≡ retired) (s.retired ++ aside q)) at v.listed

        once : Distinct (s.retired ++ (r ∷ rest))
        once = subst (λ q. Distinct (s.retired ++ aside q)) at v.listed_once

        c : place r ≡ retired
        c = All-middle _ s.retired r rest listed

        place_ne : (k : ℕ) → k ≢ r → update place r free k ≡ place k
        place_ne k ne = update-ne place r free k (λ e. ne (sym e))

        frame : (i : ℕ) → Frame s (slot_freed s r rest) place (update place r free) i
        frame i = record {
          same_hazard = refl;
          same_place = λ n e. place_ne n (owned-ne i n e c) ∙ e;
          same_next = λ n e. ap (λ y. y.next) (nodes_ne freed n (owned-ne i n e c));
          same_bytes = λ n e. refl;
          guards = λ t g.
              let ne : r ≢ t = subst (λ q. Clear q i t) at g.clear in
              record {
                linked = subst Linked (sym (place_ne t (λ e. ne (sym e)))) g.linked;
                known =
                    subst (λ y. (s.tail ≡ t) ⊎ (y.next ≢ none))
                      (sym (nodes_ne freed t (λ e. ne (sym e)))) g.known;
                hazard = g.hazard;
                clear = tt;
              };
          links = λ t x g e.
              let ne : r ≢ t = subst (λ q. Clear q i t) at g.clear in
              ap (λ y. y.next) (nodes_ne freed t (λ e. ne (sym e))) ∙ e;
        }
