-- ===== src/Lfmpscq/Concurrent/Moves.antt =====
-- What the steps of src/lfmpscq.c make of the invariant, one kind of step at a time.
use librtipc.Prelude.{
  ℕ, ◌+◌, ◌<◌, ◌≡◌, ◌≢◌, inl, inr, refl, sym, ap, ◌∙◌, arith, none, some, List, [], ◌∷◌, ◌++◌, All,
  append_assoc, update, update_self, update-ne,
}
use mathlib.Core.Path.{subst}
use librtipc.Memory.{Bytes}
use librtipc.Lfmpscq.Chain.{All-middle}
use librtipc.Lfmpscq.Concurrent.{
  Producer, Consumer, System, slot_taken, byte_copied, ended, head_moved,
}
use librtipc.Lfmpscq.Concurrent.Invariant.{
  Place, owned, chained, retired, aside, Clear, Guarded, Knows, ConsumerKnows, Inv,
}
use librtipc.Lfmpscq.Concurrent.Producing.{changed-Inv}
use librtipc.Lfmpscq.Concurrent.Consuming.{turn-Inv}
use librtipc.Lfmpscq.Concurrent.Head.{move_head-Inv}

-- A node of the list is none of those that the consumer may free.
Clear-chained :
    (place : ℕ → Place) (rs : List ℕ) (i t : ℕ)
    → place t ≡ chained
    → (c : Consumer) → All (λ k. place k ≡ retired) (rs ++ aside c)
    → Clear c i t
Clear-chained place rs i t here Consumer.idle a = tt
Clear-chained place rs i t here (Consumer.at_head out h) a = tt
Clear-chained place rs i t here (Consumer.copying out h x j) a = tt
Clear-chained place rs i t here (Consumer.sweeping todo) a = tt
Clear-chained place rs i t here (Consumer.comparing r rest k) a =
    λ q. absurd (cc (sym (All-middle _ rs r rest a) ∙ ap place q ∙ here))
Clear-chained place rs i t here (Consumer.clearing r rest) a =
    λ q. absurd (cc (sym (All-middle _ rs r rest a) ∙ ap place q ∙ here))
Clear-chained place rs i t here (Consumer.freeing r rest) a =
    λ q. absurd (cc (sym (All-middle _ rs r rest a) ∙ ap place q ∙ here))

module _ (size m : ℕ) where
  abbrev pub Kept : System → Type 0
  Kept s = (place : ℕ → Place) × (xs : List ℕ) × Inv size m s place xs

  module _ {s : System} {place : ℕ → Place} {xs : List ℕ} (v : Inv size m s place xs) where
    -- What producer `i` knows, where it stands
    pub at : (i : ℕ) {p : Producer} → i < m → s.producers i ≡ p → Knows size s place i p
    at i l e = subst (Knows size s place i) e (v.knows i l)

    pub consumer_at : {c : Consumer} → s.consumer ≡ c → ConsumerKnows size s c
    consumer_at e = subst (ConsumerKnows size s) e v.consumer_knows

    pub validated : (i t : ℕ) → s.tail ≡ t → s.hazards i ≡ some t → Guarded s place i t
    validated i t e h = record {
      linked = inl here;
      known = inl e;
      hazard = h;
      clear = Clear-chained place s.retired i t here s.consumer v.listed;
    }
      where
        here : place t ≡ chained
        here = ap place (sym e) ∙ v.tail_in

    pub busy : (i n : ℕ) → place n ≡ owned i → (s.nodes n).used ≢ 0
    busy i n o u = absurd (cc (sym (v.unused n u) ∙ o))

    pub search-Inv : (f : ℕ → ℕ) → Inv size m (record s { search = f }) place xs
    search-Inv f = record {
      chain = v.chain;
      distinct = v.distinct;
      in_list = v.in_list;
      tail_in = v.tail_in;
      tail_near = v.tail_near;
      unused = v.unused;
      listed = v.listed;
      listed_once = v.listed_once;
      knows = v.knows;
      consumer_knows = v.consumer_knows;
      flow = v.flow;
    }

    -- The steps of producer `i` that change a slot
    pub take :
        (i : ℕ) (payload : Bytes) → (s.nodes (s.search i)).used ≡ 0 → Kept (slot_taken s i payload)
    take i payload u = (
      _,
      xs,
      changed-Inv size m v i n (inl (v.unused n u)) (Producer.copying payload n 0)
          (update s.nodes n (record (s.nodes n) { used = 1 })) s.bytes
          (λ k ne. (update-ne s.nodes n _ k (λ e. ne (sym e)), refl)) (ground arith)
          (update_self place n (owned i), λ j b. elim b [ ]),
    )
      where
        n : ℕ
        n = s.search i

    pub copy :
        (i : ℕ) (payload : Bytes) (n k : ℕ)
        → Knows size s place i (Producer.copying payload n k)
        → Kept (byte_copied s i payload n k)
    copy i payload n k own = (
      _,
      xs,
      changed-Inv size m v i n (inr own.0) (Producer.copying payload n (k + 1)) s.nodes
          (update s.bytes n (update (s.bytes n) k (payload k)))
          (λ j ne. (refl, update-ne s.bytes n _ j (λ e. ne (sym e)))) (busy i n own.0)
          (update_self place n (owned i), λ j b. ground (arith, own.1 j)),
    )

    pub end_at :
        (i : ℕ) (payload : Bytes) (n : ℕ)
        → Knows size s place i (Producer.ending payload n)
        → Kept (ended s i payload n)
    end_at i payload n own = (
      _,
      xs,
      changed-Inv size m v i n (inr own.0) (Producer.looping payload n)
          (update s.nodes n (record (s.nodes n) { next = none })) s.bytes
          (λ j ne. (update-ne s.nodes n _ j (λ e. ne (sym e)), refl))
          (λ u. busy i n own.0 (sym (ap (λ x. x.used) (update_self s.nodes n _)) ∙ u))
          (record {
            mine = update_self place n (owned i);
            whole = own.1;
            end = ap (λ x. x.next) (update_self s.nodes n _);
          }),
    )

    pub keep :
        (r : ℕ) (rest : List ℕ) (k : ℕ)
        → s.consumer ≡ Consumer.comparing r rest k
        → Kept (record s { consumer = Consumer.sweeping rest; retired = s.retired ++ (r ∷ []) })
    keep r rest k e = (
      place,
      xs,
      turn-Inv size m v (Consumer.sweeping rest) (s.retired ++ (r ∷ []))
          (append_assoc s.retired (r ∷ []) rest ∙ ap (λ c. s.retired ++ aside c) (sym e))
          (λ i t l g. tt) tt,
    )

    pub consumer_step :
        {c : Consumer}
        → s.consumer ≡ c
        → (c' : Consumer) → aside c' ≡ aside c
        → ((i t : ℕ) → i < m → Guarded s place i t → Clear c i t → Clear c' i t)
        → ConsumerKnows size s c'
        → Kept (record s { consumer = c' })
    consumer_step e c' same clear own = (
      place,
      xs,
      turn-Inv size m v c' s.retired (ap (λ l. s.retired ++ l) (same ∙ ap aside (sym e)))
          (λ i t l g. clear i t l g (subst (λ c. Clear c i t) e g.clear)) own,
    )

  -- The head moves on to the first node.
  pub move :
      {s : System} {place : ℕ → Place} (xs : List ℕ) (v : Inv size m s place xs) (out : Bytes)
      (h x : ℕ)
      → s.consumer ≡ Consumer.copying out h x size
      → s.tail ≢ h
      → Kept (head_moved size s out h x)
  move {s} [] v out h x e ahead =
      let kn = consumer_at v e in absurd (cc (sym v.chain ∙ ap (λ k. (s.nodes k).next) kn.0 ∙ kn.1))
  move {s} {place} (y ∷ xs) v out h x e ahead =
      subst (λ z. Kept (head_moved size s out h z)) first
        (
          _,
          xs,
          move_head-Inv size m v out h
              (subst (λ z. s.consumer ≡ Consumer.copying out h z size) (sym first) e) ahead,
        )
    where
      first : y ≡ x
      first =
          let kn = consumer_at v e in cc (sym v.chain.0 ∙ ap (λ k. (s.nodes k).next) kn.0 ∙ kn.1)
