-- ===== src/Lfmpscq/Concurrent/Tail.antt =====
-- The steps of a producer of src/lfmpscq.c that change the list or its tail keep the invariant.
use librtipc.Prelude.{
  ℕ, ◌≡◌, ◌≢◌, ◌⊎◌, inl, inr, refl, sym, ap, ◌∙◌, arith, none, some, List, [], ◌∷◌, ◌++◌, All,
  map-append, append_assoc, update, update_self, update-ne, ℕ_discrete,
}
use mathlib.Core.Path.{subst}
use librtipc.Memory.{Bytes}
use librtipc.Memory.Slots.{load}
use librtipc.Lfmpscq.{Node}
use librtipc.Lfmpscq.Chain.{
  IsChain-snoc, IsChain-last, last_of, last_of-snoc, Distinct-snoc, All-map, All-map2, All-snoc,
  All-last,
}
use librtipc.Lfmpscq.Concurrent.{Producer, System, goes, linked}
use librtipc.Lfmpscq.Concurrent.Invariant.{
  Place, owned, chained, aside, Linked, Guarded, Filled, Knows, pending, Inv,
}
use librtipc.Lfmpscq.Concurrent.Frame.{Frame, Knows-frame, knows-update, ConsumerKnows-frame}
use librtipc.Lfmpscq.Concurrent.Producing.{owned-clash}

module _ (size m : ℕ) {s : System} {place : ℕ → Place} {xs : List ℕ} (v : Inv size m s place xs)
    (i t : ℕ) where
  -- The successor of the tail is the last node.
  next-last : (x : ℕ) → s.tail ≡ t → (s.nodes t).next ≡ some x → x ≡ last_of s.head xs
  next-last x at e = elim v.tail_near [
    | inl l ↦ absurd (
        cc (
          sym e ∙ ap (λ k. (s.nodes k).next) (sym at ∙ l) ∙ IsChain-last s.nodes s.head xs v.chain))
    | inr n ↦ cc (sym e ∙ ap (λ k. (s.nodes k).next) (sym at) ∙ n)
  ]

  -- The tail moves on to a node that is the last one, if it moves.
  pub advance-Inv :
      (x tail' : ℕ) (p : Producer)
      → ((s.tail ≡ t) × (tail' ≡ x)) ⊎ (tail' ≡ s.tail)
      → (s.nodes t).next ≡ some x
      → Knows size (record (goes s i p) { tail = tail' }) place i p
      → Inv size m (record (goes s i p) { tail = tail' }) place xs
  advance-Inv x tail' p move e own = record {
    chain = v.chain;
    distinct = v.distinct;
    in_list = v.in_list;
    tail_in = elim move [
      | inl (at, to) ↦
          subst (λ k. place k ≡ chained) (sym (to ∙ next-last x at e))
            (All-last _ s.head xs v.in_list)
      | inr same ↦ ap place same ∙ v.tail_in
    ];
    tail_near = elim move [
      | inl (at, to) ↦ inl (to ∙ next-last x at e)
      | inr same ↦
          subst (λ k. (k ≡ last_of s.head xs) ⊎ ((s.nodes k).next ≡ some (last_of s.head xs)))
            (sym same) v.tail_near
    ];
    unused = v.unused;
    listed = v.listed;
    listed_once = v.listed_once;
    knows =
        knows-update (Knows size s' place) m s.producers i p own
          (λ j l ne. Knows-frame size (others j) (s.producers j) (v.knows j l));
    consumer_knows =
        ConsumerKnows-frame size s s' refl (λ x e. (e, refl)) s.consumer v.consumer_knows;
    flow = v.flow;
  }
    where
      s' : System
      s' = record (goes s i p) { tail = tail' }

      still :
          (t' : ℕ)
          → (s.tail ≡ t') ⊎ ((s.nodes t').next ≢ none)
          → (tail' ≡ t') ⊎ ((s.nodes t').next ≢ none)
      still t' (inr ne) = inr ne
      still t' (inl at') = elim move [
        | inl (at, to) ↦
            inr (λ n. absurd (cc (sym e ∙ ap (λ k. (s.nodes k).next) (sym at ∙ at') ∙ n)))
        | inr same ↦ inl (same ∙ at')
      ]

      others : (j : ℕ) → Frame s s' place place j
      others j = record {
        same_hazard = refl;
        same_place = λ n e. e;
        same_next = λ n e. refl;
        same_bytes = λ n e. refl;
        guards = λ t' g. record {
          linked = g.linked;
          known = still t' g.known;
          hazard = g.hazard;
          clear = g.clear;
        };
        links = λ t' x g e. e;
      }

  -- The exchange of `next` that links a node
  module _ (payload : Bytes) (n : ℕ) (f : Filled size s place i payload n) (g : Guarded s place i t)
      (end : (s.nodes t).next ≡ none) where
    abbrev joined : ℕ → Place
    joined = update place n chained

    abbrev nodes' : ℕ → Node
    nodes' = update s.nodes t (record (s.nodes t) { next = some n })

    abbrev s' : System
    s' = linked size s i payload n t

    mine-ne : (k : ℕ) → Linked (place k) → k ≢ n
    mine-ne k l e = owned-clash i (subst Linked (ap place e ∙ f.mine) l)

    other-ne : (j k : ℕ) → j ≢ i → place k ≡ owned j → k ≢ n
    other-ne j k ne o e = ne (cc (sym o ∙ ap place e ∙ f.mine))

    unlinked-ne : (j k : ℕ) → place k ≡ owned j → k ≢ t
    unlinked-ne j k o e = owned-clash j (subst Linked (sym (ap place e) ∙ o) g.linked)

    joined_ne : (k : ℕ) → k ≢ n → joined k ≡ place k
    joined_ne k ne = update-ne place n chained k (λ e. ne (sym e))

    nodes_ne : (k : ℕ) → k ≢ t → nodes' k ≡ s.nodes k
    nodes_ne k ne = update-ne s.nodes t _ k (λ e. ne (sym e))

    next-t : (nodes' t).next ≡ some n
    next-t = ap (λ x. x.next) (update_self s.nodes t _)

    next-some : (k x : ℕ) → (s.nodes k).next ≡ some x → (nodes' k).next ≡ some x
    next-some k x e =
        ap (λ y. y.next)
          (nodes_ne k (λ q. absurd (cc (sym e ∙ ap (λ k. (s.nodes k).next) q ∙ end))))
        ∙ e

    next-ne : (k : ℕ) → (s.nodes k).next ≢ none → (nodes' k).next ≢ none
    next-ne k ne q = elim (ℕ_discrete k t) [
      | yes e ↦ ne (ap (λ k. (s.nodes k).next) e ∙ end)
      | no out ↦ ne (ap (λ y. y.next) (sym (nodes_ne k out)) ∙ q)
    ]

    at_tail : s.tail ≡ t
    at_tail = elim g.known [ inl e ↦ e | inr ne ↦ absurd (ne end) ]

    last-t : t ≡ last_of s.head xs
    last-t = elim v.tail_near [
      | inl l ↦ sym at_tail ∙ l
      | inr q ↦ absurd (cc (sym q ∙ ap (λ k. (s.nodes k).next) at_tail ∙ end))
    ]

    fresh : All (λ k. k ≢ n) (s.head ∷ xs)
    fresh = All-map _ _ (λ k c. mine-ne k (inl c)) (s.head ∷ xs) v.in_list

    guard-t : Guarded s' joined i t
    guard-t = record {
      linked = subst Linked (sym (joined_ne t (mine-ne t g.linked))) g.linked;
      known = inl at_tail;
      hazard = g.hazard;
      clear = g.clear;
    }

    others : (j : ℕ) → j ≢ i → Frame s s' place joined j
    others j ne = record {
      same_hazard = refl;
      same_place = λ k e. joined_ne k (other-ne j k ne e) ∙ e;
      same_next = λ k e. ap (λ x. x.next) (nodes_ne k (unlinked-ne j k e));
      same_bytes = λ k e. refl;
      guards = λ k h. record {
        linked = subst Linked (sym (joined_ne k (mine-ne k h.linked))) h.linked;
        known = elim h.known [ inl e ↦ inl e | inr q ↦ inr (next-ne k q) ];
        hazard = h.hazard;
        clear = h.clear;
      };
      links = λ k x h e. next-some k x e;
    }

    pub link-Inv : Inv size m s' joined (xs ++ (n ∷ []))
    link-Inv = record {
      chain =
          IsChain-snoc s.nodes nodes' s.head n xs v.chain v.distinct
            (λ j a b. ap (λ x. x.next) (nodes_ne j (λ e. a (e ∙ last-t)))) fresh
            (subst (λ k. (nodes' k).next ≡ some n) last-t next-t)
            (ap (λ x. x.next) (nodes_ne n (unlinked-ne i n f.mine)) ∙ f.end);
      distinct = Distinct-snoc (s.head ∷ xs) n v.distinct fresh;
      in_list =
          All-snoc _ (s.head ∷ xs) n
            (All-map2 _ _ _ (λ k ne c. joined_ne k ne ∙ c) (s.head ∷ xs) fresh v.in_list)
            (update_self place n chained);
      tail_in = joined_ne s.tail (mine-ne s.tail (inl v.tail_in)) ∙ v.tail_in;
      tail_near =
          inr
            (ap (λ k. (nodes' k).next) at_tail ∙ next-t ∙ ap some (sym (last_of-snoc s.head n xs)));
      unused = λ k u.
          let was = v.unused k (used-same k u) in
          joined_ne k (λ e. absurd (cc (sym was ∙ ap place e ∙ f.mine))) ∙ was;
      listed =
          All-map _ _ (λ k c. joined_ne k (mine-ne k (inr c)) ∙ c) (s.retired ++ aside s.consumer)
            v.listed;
      listed_once = v.listed_once;
      knows =
          knows-update (Knows size s' joined) m s.producers i (Producer.swinging n t)
            (guard-t, next-t)
            (λ j l ne. Knows-frame size (others j ne) (s.producers j) (v.knows j l));
      consumer_knows =
          ConsumerKnows-frame size s s' refl (λ x e. (next-some s.head x e, refl)) s.consumer
            v.consumer_knows;
      flow =
          ap (λ l. l ++ (load payload 0 size ∷ [])) v.flow
          ∙ append_assoc s.got (pending size s xs) (load payload 0 size ∷ [])
          ∙ ap (λ l. s.got ++ (pending size s xs ++ (l ∷ []))) (sym f.whole)
          ∙ ap (λ l. s.got ++ l) (sym (map-append (λ k. load (s.bytes k) 0 size) xs (n ∷ [])));
    }
      where
        used-same : (k : ℕ) → (nodes' k).used ≡ 0 → (s.nodes k).used ≡ 0
        used-same k u = ground (arith, u)
