-- ===== src/Lfmpscq/Concurrent/Head.antt =====
-- The step of the consumer of src/lfmpscq.c that moves the head keeps the invariant.
use librtipc.Prelude.{
  ℕ, ◌≡◌, ◌≢◌, inr, refl, sym, ap, ◌∙◌, List, [], ◌∷◌, ◌++◌, All, append-nil, append_assoc, update,
  update_self, update-ne, ℕ_discrete,
}
use native.Mathlib.Nat.{zero-add}
use mathlib.Core.Path.{subst}
use librtipc.Memory.{Bytes}
use librtipc.Memory.Slots.{load, load_congr}
use librtipc.Lfmpscq.Chain.{Distinct, Distinct-snoc, All-map, All-map2, All-snoc}
use librtipc.Lfmpscq.Concurrent.{Consumer, System, head_moved}
use librtipc.Lfmpscq.Concurrent.Invariant.{
  Place, chained, retired, aside, Linked, ConsumerKnows, pending, Inv,
}
use librtipc.Lfmpscq.Concurrent.Frame.{Frame, Knows-frame}

-- The head moves on to the first node, unless the tail is still at the old one.
module _ (size m : ℕ) {s : System} {place : ℕ → Place} {x : ℕ} {xs : List ℕ}
    (v : Inv size m s place (x ∷ xs)) where
  pub move_head-Inv :
      (out : Bytes) (h : ℕ)
      → s.consumer ≡ Consumer.copying out h x size
      → s.tail ≢ h
      → Inv size m (head_moved size s out h x) (update place h retired) xs
  move_head-Inv out h at ahead = record {
    chain = v.chain.1;
    distinct = v.distinct.1;
    in_list = All-map2 _ _ _ (λ k ne l. place_ne k ne ∙ l) (x ∷ xs) out_of_list v.in_list.1;
    tail_in = place_ne s.tail ahead ∙ v.tail_in;
    tail_near = v.tail_near;
    unused = λ k u.
        let was = v.unused k u in place_ne k (λ e. absurd (cc (sym was ∙ ap place e ∙ c))) ∙ was;
    listed =
        All-snoc _ s.retired h
          (All-map _ _ (λ k l. place_ne k (λ e. absurd (cc (sym l ∙ ap place e ∙ c))) ∙ l) s.retired
            listed)
          (update_self place h retired);
    listed_once =
        Distinct-snoc s.retired h once
          (All-map _ _ (λ k l e. absurd (cc (sym l ∙ ap place e ∙ c))) s.retired listed);
    knows = λ i l. Knows-frame size (frame i) (s.producers i) (v.knows i l);
    consumer_knows = tt;
    flow =
        v.flow
        ∙ ap (λ l. s.got ++ (l ∷ pending size s xs))
            (load_congr (s.bytes x) out 0 0 size (λ j l. rw zero-add (sym (knows.2 j l))))
        ∙ sym (append_assoc s.got (load out 0 size ∷ []) (pending size s xs));
  }
    where
      knows : ConsumerKnows size s (Consumer.copying out h x size)
      knows = subst (ConsumerKnows size s) at v.consumer_knows

      c : place h ≡ chained
      c = ap place (sym knows.0) ∙ v.in_list.0

      out_of_list : All (λ k. k ≢ h) (x ∷ xs)
      out_of_list = All-map _ _ (λ k ne e. ne (e ∙ sym knows.0)) (x ∷ xs) v.distinct.0

      listed : All (λ k. place k ≡ retired) s.retired
      listed =
          subst (All (λ k. place k ≡ retired)) (append-nil s.retired)
            (subst (λ q. All (λ k. place k ≡ retired) (s.retired ++ aside q)) at v.listed)

      once : Distinct s.retired
      once =
          subst Distinct (append-nil s.retired)
            (subst (λ q. Distinct (s.retired ++ aside q)) at v.listed_once)

      place_ne : (k : ℕ) → k ≢ h → update place h retired k ≡ place k
      place_ne k ne = update-ne place h retired k (λ e. ne (sym e))

      linked-kept : (t : ℕ) → Linked (place t) → Linked (update place h retired t)
      linked-kept t l = elim (ℕ_discrete t h) [
        | yes q ↦ inr (ap (update place h retired) q ∙ update_self place h retired)
        | no ne ↦ subst Linked (sym (place_ne t ne)) l
      ]

      frame : (i : ℕ) → Frame s (head_moved size s out h x) place (update place h retired) i
      frame i = record {
        same_hazard = refl;
        same_place = λ n e. place_ne n (λ q. absurd (cc (sym e ∙ ap place q ∙ c))) ∙ e;
        same_next = λ n e. refl;
        same_bytes = λ n e. refl;
        guards = λ t g. record {
          linked = linked-kept t g.linked;
          known = g.known;
          hazard = g.hazard;
          clear = tt;
        };
        links = λ t y g e. e;
      }
