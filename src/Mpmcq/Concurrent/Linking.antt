-- ===== src/Mpmcq/Concurrent/Linking.antt =====
-- The exchange of src/mpmcq.c that links a node keeps the invariant.
use librtipc.Prelude.{
  ℕ, ◌<◌, ◌≡◌, ◌≢◌, inl, inr, refl, sym, ap, ◌∙◌, arith, none, some, List, [], ◌∷◌, ◌++◌, All,
  map-append, append_assoc, update, update_self, update-ne, ℕ_discrete,
}
use mathlib.Core.Path.{subst}
use librtipc.Memory.{Bytes}
use librtipc.Memory.Slots.{load}
use librtipc.Lfmpscq.{Node}
use librtipc.Lfmpscq.Chain.{
  IsChain-snoc, last_of, last_of-snoc, Distinct, Distinct-snoc, All-map, All-map2, All-snoc,
}
use librtipc.Mpmcq.Concurrent.{User, System, linked}
use librtipc.Mpmcq.Concurrent.Invariant.{
  Place, owned, chained, retired_by, aside, Linked, Guarded, In, Filled, TailGuarded, Knows,
  pending, Inv,
}
use librtipc.Mpmcq.Concurrent.Frame.{Frame, Knows-frame, users-update, Clear-update}
use librtipc.Mpmcq.Concurrent.Slots.{Linked-owned}

In-snoc : (t n : ℕ) (xs : List ℕ) → In t xs → In t (xs ++ (n ∷ []))
In-snoc t n [] e = absurd e
In-snoc t n (x ∷ xs) (inl e) = inl e
In-snoc t n (x ∷ xs) (inr e) = inr (In-snoc t n xs e)

module _ (size m : ℕ) {s : System} {place : ℕ → Place} {xs : List ℕ} (v : Inv size m s place xs)
    (i t : ℕ) (l : i < m) where
  -- The exchange of `next` that links a node
  module _ (payload : Bytes) (n : ℕ) (f : Filled size m s place i payload n)
      (g : TailGuarded size m s place i t) (end : (s.nodes t).next ≡ none)
      (alone : aside (s.users i) ≡ []) where
    abbrev joined : ℕ → Place
    joined = update place n chained

    abbrev nodes' : ℕ → Node
    nodes' = update s.nodes t (record (s.nodes t) { next = some n })

    abbrev s' : System
    s' = linked size s i payload n t

    mine-ne : (k : ℕ) → Linked (place k) → k ≢ n
    mine-ne k l e = Linked-owned place i k l (ap place e ∙ f.mine)

    other-ne : (j k : ℕ) → j ≢ i → place k ≡ owned j → k ≢ n
    other-ne j k ne o e = ne (cc (sym o ∙ ap place e ∙ f.mine))

    unlinked-ne : (j k : ℕ) → place k ≡ owned j → k ≢ t
    unlinked-ne j k o e = Linked-owned place j t g.0.linked (sym (ap place e) ∙ o)

    joined_ne : (k : ℕ) → k ≢ n → joined k ≡ place k
    joined_ne k ne = update-ne place n chained k (λ e. ne (sym e))

    nodes_ne : (k : ℕ) → k ≢ t → nodes' k ≡ s.nodes k
    nodes_ne k ne = update-ne s.nodes t _ k (λ e. ne (sym e))

    next-t : (nodes' t).next ≡ some n
    next-t = ap (λ x. x.next) (update_self s.nodes t _)

    next-some : (k x : ℕ) → (s.nodes k).next ≡ some x → (nodes' k).next ≡ some x
    next-some k x e =
        ap (λ y. y.next)
          (nodes_ne k (λ q. absurd (cc (sym e ∙ ap (λ k. (s.nodes k).next) q ∙ end))))
        ∙ e

    next-ne : (k : ℕ) → (s.nodes k).next ≢ none → (nodes' k).next ≢ none
    next-ne k ne q = elim (ℕ_discrete k t) [
      | yes e ↦ ne (ap (λ k. (s.nodes k).next) e ∙ end)
      | no out ↦ ne (ap (λ y. y.next) (sym (nodes_ne k out)) ∙ q)
    ]

    at_tail : s.tail ≡ t
    at_tail = elim g.1 [ inl e ↦ e | inr ne ↦ absurd (ne end) ]

    last-t : t ≡ last_of s.head xs
    last-t = elim v.tail_near [
      | inl l ↦ sym at_tail ∙ l
      | inr q ↦ absurd (cc (sym q ∙ ap (λ k. (s.nodes k).next) at_tail ∙ end))
    ]

    fresh : All (λ k. k ≢ n) (s.head ∷ xs)
    fresh = All-map _ _ (λ k c. mine-ne k (inl c)) (s.head ∷ xs) v.in_list

    guards' : (q k : ℕ) → Guarded m s place q k → Guarded m s' joined q k
    guards' q k h = record {
      index = h.index;
      linked = subst Linked (sym (joined_ne k (mine-ne k h.linked))) h.linked;
      hazard = h.hazard;
      clear = Clear-update m s.users i (User.swinging n t) q k tt h.clear;
    }

    others' : (j : ℕ) → j ≢ i → Frame size m s s' place joined j
    others' j ne = record {
      same_hazard = λ q o. refl;
      same_place = λ k e. joined_ne k (other-ne j k ne e) ∙ e;
      same_next = λ k e. ap (λ x. x.next) (nodes_ne k (unlinked-ne j k e));
      same_bytes = λ k e. refl;
      guards = λ q k o h. guards' q k h;
      tails = λ q k h w. elim w [ inl e ↦ inl e | inr z ↦ inr (next-ne k z) ];
      heads = λ q k h w. elim w [
        | inl e ↦ inl e
        | inr r ↦ inr (r.0, joined_ne k (mine-ne k h.linked) ∙ r.1)
      ];
      gone = λ q k h r. (r.0, joined_ne k (mine-ne k h.linked) ∙ r.1);
      aheads = λ q k h w a. a;
      same_seen = refl;
      links = λ q k x h e. next-some k x e;
      kept = λ q k h. refl;
    }

    pub link-Inv : Inv size m s' joined (xs ++ (n ∷ []))
    link-Inv = record {
      chain =
          IsChain-snoc s.nodes nodes' s.head n xs v.chain v.distinct
            (λ j a b. ap (λ x. x.next) (nodes_ne j (λ e. a (e ∙ last-t)))) fresh
            (subst (λ k. (nodes' k).next ≡ some n) last-t next-t)
            (ap (λ x. x.next) (nodes_ne n (unlinked-ne i n f.mine)) ∙ f.end);
      distinct = Distinct-snoc (s.head ∷ xs) n v.distinct fresh;
      in_list =
          All-snoc _ (s.head ∷ xs) n
            (All-map2 _ _ _ (λ k ne c. joined_ne k ne ∙ c) (s.head ∷ xs) fresh v.in_list)
            (update_self place n chained);
      tail_in = In-snoc s.tail n (s.head ∷ xs) v.tail_in;
      tail_near =
          inr
            (ap (λ k. (nodes' k).next) at_tail ∙ next-t ∙ ap some (sym (last_of-snoc s.head n xs)));
      unused = λ k u.
          let was = v.unused k (used-same k u) in
          joined_ne k (λ e. absurd (cc (sym was ∙ ap place e ∙ f.mine))) ∙ was;
      listed =
          users-update (λ j u. All (λ k. joined k ≡ retired_by j) (s.retired j ++ aside u)) m
            s.users i (User.swinging n t)
            (listed' i [] (
              subst (λ r. All (λ k. place k ≡ retired_by i) (s.retired i ++ r)) alone
                (v.listed i l)))
            (λ j l ne. listed' j (aside (s.users j)) (v.listed j l));
      listed_once =
          users-update (λ j u. Distinct (s.retired j ++ aside u)) m s.users i (User.swinging n t)
            (subst (λ r. Distinct (s.retired i ++ r)) alone (v.listed_once i l))
            (λ j l ne. v.listed_once j l);
      knows =
          users-update (Knows size m s' joined) m s.users i (User.swinging n t)
            ((guards' _ t g.0, inl at_tail), next-t)
            (λ j l ne. Knows-frame size m (others' j ne) (s.users j) (v.knows j l));
      flow =
          ap (λ l. l ++ (load payload 0 size ∷ [])) v.flow
          ∙ append_assoc s.taken (pending size m s xs) (load payload 0 size ∷ [])
          ∙ ap (λ l. s.taken ++ (pending size m s xs ++ (l ∷ []))) (sym f.whole)
          ∙ ap (λ l. s.taken ++ l) (sym (map-append (λ k. load (s.bytes k) 0 size) xs (n ∷ [])));
    }
      where
        used-same : (k : ℕ) → (nodes' k).used ≡ 0 → (s.nodes k).used ≡ 0
        used-same k u = ground (arith, u)

        listed' :
            (j : ℕ) (r : List ℕ)
            → All (λ k. place k ≡ retired_by j) (s.retired j ++ r)
            → All (λ k. joined k ≡ retired_by j) (s.retired j ++ r)
        listed' j r a =
            All-map _ _ (λ k c. joined_ne k (mine-ne k (inr (j, c))) ∙ c) (s.retired j ++ r) a
