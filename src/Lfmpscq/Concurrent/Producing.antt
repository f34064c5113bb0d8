-- ===== src/Lfmpscq/Concurrent/Producing.antt =====
-- The steps of a producer of src/lfmpscq.c keep the invariant.
use librtipc.Prelude.{
  ℕ, ◌≡◌, ◌≢◌, ◌⊎◌, inl, inr, refl, sym, ap, ◌∙◌, none, some, List, ◌∷◌, ◌++◌, All, map_congr,
  update, update_self, update-ne, ℕ_discrete,
}
use mathlib.Core.Path.{subst}
use librtipc.Memory.{Bytes}
use librtipc.Memory.Slots.{load}
use librtipc.Lfmpscq.{Node}
use librtipc.Lfmpscq.Chain.{IsChain-congr, last_of, All-map, All-map2}
use librtipc.Lfmpscq.Concurrent.{Producer, System, goes, announced}
use librtipc.Lfmpscq.Concurrent.Invariant.{Place, free, owned, aside, Linked, Filled, Knows, Inv}
use librtipc.Lfmpscq.Concurrent.Frame.{
  Frame, Knows-frame, knows-update, first-chained, ConsumerKnows-frame,
}

place-clash : ¬ Linked free
place-clash l = elim l [ inl e ↦ absurd (cc e) | inr e ↦ absurd (cc e) ]

pub owned-clash : (i : ℕ) → ¬ Linked (owned i)
owned-clash i l = elim l [ inl e ↦ absurd (cc e) | inr e ↦ absurd (cc e) ]

module _ (size m : ℕ) {s : System} {place : ℕ → Place} {xs : List ℕ} (v : Inv size m s place xs)
    (i : ℕ) where
  -- A step that changes only what the process knows and its shared index
  pub goes-Inv : (p : Producer) → Knows size s place i p → Inv size m (goes s i p) place xs
  goes-Inv p own = record {
    chain = v.chain;
    distinct = v.distinct;
    in_list = v.in_list;
    tail_in = v.tail_in;
    tail_near = v.tail_near;
    unused = v.unused;
    listed = v.listed;
    listed_once = v.listed_once;
    knows = knows-update (Knows size s place) m s.producers i p own (λ j l ne. v.knows j l);
    consumer_knows = v.consumer_knows;
    flow = v.flow;
  }

  -- A step that sets the shared index
  pub announce-Inv :
      (payload : Bytes) (n t : ℕ)
      → Filled size s place i payload n
      → Inv size m (announced s i payload n t) place xs
  announce-Inv payload n t own = record {
    chain = v.chain;
    distinct = v.distinct;
    in_list = v.in_list;
    tail_in = v.tail_in;
    tail_near = v.tail_near;
    unused = v.unused;
    listed = v.listed;
    listed_once = v.listed_once;
    knows =
        knows-update (Knows size s' place) m s.producers i (Producer.checking payload n t)
          (own, update_self s.hazards i (some t))
          (λ j l ne. Knows-frame size (others j ne) (s.producers j) (v.knows j l));
    consumer_knows = v.consumer_knows;
    flow = v.flow;
  }
    where
      s' : System
      s' = announced s i payload n t

      others : (j : ℕ) → j ≢ i → Frame s s' place place j
      others j ne = record {
        same_hazard = hazard;
        same_place = λ n e. e;
        same_next = λ n e. refl;
        same_bytes = λ n e. refl;
        guards = λ t g. record {
          linked = g.linked;
          known = g.known;
          hazard = hazard ∙ g.hazard;
          clear = g.clear;
        };
        links = λ t x g e. e;
      }
        where
          hazard : s'.hazards j ≡ s.hazards j
          hazard = update-ne s.hazards i (some t) j (λ e. ne (sym e))

  -- A step that changes only a slot of the process, or one that was free
  module _ (n : ℕ) (mine : (place n ≡ free) ⊎ (place n ≡ owned i)) (p : Producer)
      (nodes' : ℕ → Node) (bytes' : ℕ → Bytes)
      (away : (k : ℕ) → k ≢ n → (nodes' k ≡ s.nodes k) × (bytes' k ≡ s.bytes k))
      (busy : (nodes' n).used ≢ 0) where
    abbrev changed : System
    changed = record (goes s i p) { nodes = nodes'; bytes = bytes' }

    abbrev taken : ℕ → Place
    taken = update place n (owned i)

    linked-ne : (k : ℕ) → Linked (place k) → k ≢ n
    linked-ne k l e = elim mine [
      | inl f ↦ place-clash (subst Linked (ap place e ∙ f) l)
      | inr o ↦ owned-clash i (subst Linked (ap place e ∙ o) l)
    ]

    other-ne : (j k : ℕ) → j ≢ i → place k ≡ owned j → k ≢ n
    other-ne j k ne o e = elim mine [
      | inl f ↦ absurd (cc (sym o ∙ ap place e ∙ f))
      | inr q ↦ ne (cc (sym o ∙ ap place e ∙ q))
    ]

    taken_ne : (k : ℕ) → k ≢ n → taken k ≡ place k
    taken_ne k ne = update-ne place n (owned i) k (λ e. ne (sym e))

    others-Frame : (j : ℕ) → j ≢ i → Frame s changed place taken j
    others-Frame j ne = record {
      same_hazard = refl;
      same_place = λ k e. taken_ne k (other-ne j k ne e) ∙ e;
      same_next = λ k e. ap (λ x. x.next) (away k (other-ne j k ne e)).0;
      same_bytes = λ k e. (away k (other-ne j k ne e)).1;
      guards = λ t g.
          let out = linked-ne t g.linked in
          record {
            linked = subst Linked (sym (taken_ne t out)) g.linked;
            known = subst (λ x. (s.tail ≡ t) ⊎ (x.next ≢ none)) (sym (away t out).0) g.known;
            hazard = g.hazard;
            clear = g.clear;
          };
      links = λ t x g e. ap (λ x. x.next) (away t (linked-ne t g.linked)).0 ∙ e;
    }

    in_list-ne : All (λ k. k ≢ n) (s.head ∷ xs)
    in_list-ne = All-map _ _ (λ k c. linked-ne k (inl c)) (s.head ∷ xs) v.in_list

    tail-ne : s.tail ≢ n
    tail-ne = linked-ne s.tail (inl v.tail_in)

    pub changed-Inv : Knows size changed taken i p → Inv size m changed taken xs
    changed-Inv own = record {
      chain =
          IsChain-congr s.nodes nodes' s.head xs
            (All-map _ _ (λ k ne. ap (λ x. x.next) (away k ne).0) (s.head ∷ xs) in_list-ne) v.chain;
      distinct = v.distinct;
      in_list = All-map2 _ _ _ (λ k ne c. taken_ne k ne ∙ c) (s.head ∷ xs) in_list-ne v.in_list;
      tail_in = taken_ne s.tail tail-ne ∙ v.tail_in;
      tail_near =
          subst (λ x. (s.tail ≡ last_of s.head xs) ⊎ (x.next ≡ some (last_of s.head xs)))
            (sym (away s.tail tail-ne).0) v.tail_near;
      unused = λ k u. elim (ℕ_discrete k n) [
        | yes e ↦ absurd (busy (subst (λ x. (nodes' x).used ≡ 0) e u))
        | no ne ↦ taken_ne k ne ∙ v.unused k (subst (λ x. x.used ≡ 0) (away k ne).0 u)
      ];
      listed =
          All-map _ _ (λ k c. taken_ne k (linked-ne k (inr c)) ∙ c) (s.retired ++ aside s.consumer)
            v.listed;
      listed_once = v.listed_once;
      knows =
          knows-update (Knows size changed taken) m s.producers i p own
            (λ j l ne. Knows-frame size (others-Frame j ne) (s.producers j) (v.knows j l));
      consumer_knows =
          ConsumerKnows-frame size s changed refl
            (λ x e.
              let out =
                linked-ne x (inl (first-chained s.nodes place s.head xs v.chain v.in_list e)) in
              (ap (λ y. y.next) (away s.head in_list-ne.0).0 ∙ e, (away x out).1))
            s.consumer v.consumer_knows;
      flow =
          v.flow
          ∙ ap (λ m. s.got ++ m)
              (sym (
                map_congr _ _ xs
                  (All-map _ _ (λ k ne. ap (λ b. load b 0 size) (away k ne).1) xs in_list-ne.1)));
    }
