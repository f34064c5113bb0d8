-- ===== src/Mpmcq/Concurrent/Slots.antt =====
-- The steps of src/mpmcq.c that change shared indexes and slots that a user prepares keep the invariant.
use librtipc.Prelude.{
  ℕ, ◌<◌, ◌≡◌, ◌≢◌, ◌⊎◌, inl, inr, refl, sym, ap, ◌∙◌, arith, Option, List, ◌++◌, All, update,
  update-ne, ℕ_discrete,
}
use mathlib.Core.Path.{subst}
use librtipc.Memory.{Bytes}
use librtipc.Lfmpscq.{Node}
use librtipc.Lfmpscq.Chain.{Distinct, All-map}
use librtipc.Mpmcq.Concurrent.{User, System, goes, announced}
use librtipc.Mpmcq.Concurrent.Invariant.{
  Place, free, owned, retired_by, Private, aside, Clear, Linked, Guarded, Knows, Inv,
}
use librtipc.Mpmcq.Concurrent.Frame.{Mine, Knows-frame, Frame}
use librtipc.Mpmcq.Concurrent.Local.{Quiet, quiet-Frame, quiet-Inv, Guarded-quiet}

Mine-ne : (i j q q' : ℕ) → j ≢ i → Mine i q → Mine j q' → q ≢ q'
Mine-ne i j q q' ne (inl a) (inl b) e = ne (omega arith)
Mine-ne i j q q' ne (inl a) (inr b) e = omega arith
Mine-ne i j q q' ne (inr a) (inl b) e = omega arith
Mine-ne i j q q' ne (inr a) (inr b) e = ne (omega arith)

-- A node that a shared index keeps is not one that a user prepares.
pub Linked-owned : (place : ℕ → Place) (j k : ℕ) → Linked (place k) → place k ≢ owned j
Linked-owned place j k (inl c) e = absurd (cc (sym c ∙ e))
Linked-owned place j k (inr r) e = absurd (cc (sym r.1 ∙ e))

Linked-free : (place : ℕ → Place) (k : ℕ) → Linked (place k) → place k ≢ free
Linked-free place k (inl c) e = absurd (cc (sym c ∙ e))
Linked-free place k (inr r) e = absurd (cc (sym r.1 ∙ e))

module _ (size m : ℕ) {s : System} {place : ℕ → Place} {xs : List ℕ} (v : Inv size m s place xs)
    (i : ℕ) (l : i < m) where
  -- A step that changes nothing but where the user stands, where it searches and how its nodes are split
  pub turn-Inv :
      (p : User) (rt : ℕ → List ℕ) (se : ℕ → ℕ)
      → ((j : ℕ) → j ≢ i → rt j ≡ s.retired j)
      → rt i ++ aside p ≡ s.retired i ++ aside (s.users i)
      → ((q t : ℕ) → Guarded m s place q t → Clear p q t)
      → Knows size m s place i p
      → Inv size m (record (goes s i p) { retired = rt; search = se }) place xs
  turn-Inv p rt se lists split turn own =
      quiet-Inv size m i p s.hazards s.nodes s.bytes rt se place (λ k. ⊥) c v
        (Knows-frame size m
          (quiet-Frame size m i p s.hazards s.nodes s.bytes rt se place (λ k. ⊥) c i (λ q o. refl)
            (λ n e t. t))
          p own)
    where
      c : Quiet m s place i p s.hazards s.nodes s.bytes rt place (λ k. ⊥)
      c = record {
        others = λ j ne q o. refl;
        mine = λ k t. absurd t;
        same = λ k n. (refl, refl, refl);
        untouched = λ q t g n. n;
        turn = turn;
        lists = lists;
        unused = v.unused;
        listed = subst (All (λ k. place k ≡ retired_by i)) (sym split) (v.listed i l);
        listed_once = subst Distinct (sym split) (v.listed_once i l);
      }

  -- What a user has seen is noted.
  pub see-Inv :
      (f : ℕ → List (List ℕ) × List (List ℕ))
      → ((j : ℕ) → j ≢ i → f j ≡ s.seen j)
      → Knows size m (record s { seen = f }) place i (s.users i)
      → Inv size m (record s { seen = f }) place xs
  see-Inv f same own = record {
    chain = v.chain;
    distinct = v.distinct;
    in_list = v.in_list;
    tail_in = v.tail_in;
    tail_near = v.tail_near;
    unused = v.unused;
    listed = v.listed;
    listed_once = v.listed_once;
    knows = λ j b. elim (ℕ_discrete j i) [
      | yes e ↦ subst (λ k. Knows size m (record s { seen = f }) place k (s.users k)) (sym e) own
      | no ne ↦ Knows-frame size m (others j ne) (s.users j) (v.knows j b)
    ];
    flow = v.flow;
  }
    where
      others : (j : ℕ) → j ≢ i → Frame size m s (record s { seen = f }) place place j
      others j ne = record {
        same_hazard = λ q o. refl;
        same_place = λ n e. e;
        same_next = λ n e. refl;
        same_bytes = λ n e. refl;
        same_seen = same j ne;
        guards = λ q t o g. record {
          index = g.index;
          linked = g.linked;
          hazard = g.hazard;
          clear = g.clear;
        };
        tails = λ q t g k. k;
        heads = λ q t g k. k;
        gone = λ q t g r. r;
        aheads = λ q t g k a. a;
        links = λ q t x g e. e;
        kept = λ q t g. refl;
      }

  -- A step that sets a shared index; what it keeps of the other one
  module _ (p : User) (q0 : ℕ) (x : Option ℕ) (own0 : Mine i q0)
      (same : aside p ≡ aside (s.users i)) (turn : (q t : ℕ) → Clear p q t) where
    set : Quiet m s place i p (update s.hazards q0 x) s.nodes s.bytes s.retired place (λ k. ⊥)
    set = record {
      others = λ j ne q o. update-ne s.hazards q0 x q (Mine-ne i j q0 q ne own0 o);
      mine = λ k t. absurd t;
      same = λ k n. (refl, refl, refl);
      untouched = λ q t g n. n;
      turn = λ q t g. turn q t;
      lists = λ j ne. refl;
      unused = v.unused;
      listed =
          subst (λ r. All (λ k. place k ≡ retired_by i) (s.retired i ++ r)) (sym same)
            (v.listed i l);
      listed_once = subst (λ r. Distinct (s.retired i ++ r)) (sym same) (v.listed_once i l);
    }

    pub Guarded-announce :
        (q t : ℕ) → q0 ≢ q → Guarded m s place q t → Guarded m (announced s i p q0 x) place q t
    Guarded-announce q t ne g =
        Guarded-quiet size m i p (update s.hazards q0 x) s.nodes s.bytes s.retired s.search place
          (λ k. ⊥) set q t (update-ne s.hazards q0 x q ne) g

    pub announce-Inv :
        Knows size m (announced s i p q0 x) place i p → Inv size m (announced s i p q0 x) place xs
    announce-Inv own =
        quiet-Inv size m i p (update s.hazards q0 x) s.nodes s.bytes s.retired s.search place
          (λ k. ⊥) set v own

  -- A step that changes a slot of the user, or one that was free
  pub prepare-Inv :
      (n : ℕ) (mine : (place n ≡ free) ⊎ (place n ≡ owned i)) (p : User) (nd : ℕ → Node)
      (by : ℕ → Bytes)
      → ((k : ℕ) → k ≢ n → (nd k ≡ s.nodes k) × (by k ≡ s.bytes k))
      → (nd n).used ≢ 0
      → aside p ≡ aside (s.users i)
      → ((q t : ℕ) → Clear p q t)
      → Knows size m (record (goes s i p) { nodes = nd; bytes = by }) (update place n (owned i)) i p
      → Inv size m (record (goes s i p) { nodes = nd; bytes = by }) (update place n (owned i)) xs
  prepare-Inv n mine p nd by away busy same turn own =
      quiet-Inv size m i p s.hazards nd by s.retired s.search (update place n (owned i))
        (λ k. k ≡ n) c v own
    where
      place_ne : (k : ℕ) → k ≢ n → update place n (owned i) k ≡ place k
      place_ne k ne = update-ne place n (owned i) k (λ e. ne (sym e))

      unlinked : (k : ℕ) → Linked (place k) → k ≢ n
      unlinked k g e = elim mine [
        | inl f ↦ Linked-free place k g (ap place e ∙ f)
        | inr o ↦ Linked-owned place i k g (ap place e ∙ o)
      ]

      c : Quiet m s place i p s.hazards nd by s.retired (update place n (owned i)) (λ k. k ≡ n)
      c = record {
        others = λ j ne q o. refl;
        mine = λ k e. elim mine [
          | inl f ↦ subst (Private i) (sym (ap place e ∙ f)) tt
          | inr o ↦ subst (Private i) (sym (ap place e ∙ o)) refl
        ];
        same = λ k ne. ((away k ne).0, (away k ne).1, place_ne k ne);
        untouched = λ q t g. unlinked t g.linked;
        turn = λ q t g. turn q t;
        lists = λ j ne. refl;
        unused = λ k u. elim (ℕ_discrete k n) [
          | yes e ↦ absurd (busy (subst (λ x. (nd x).used ≡ 0) e u))
          | no ne ↦ place_ne k ne ∙ v.unused k (subst (λ x. x.used ≡ 0) (away k ne).0 u)
        ];
        listed =
            All-map _ _ (λ k e. place_ne k (unlinked k (inr (i, e))) ∙ e) (s.retired i ++ aside p)
              (subst (λ r. All (λ k. place k ≡ retired_by i) (s.retired i ++ r)) (sym same)
                (v.listed i l));
        listed_once = subst (λ r. Distinct (s.retired i ++ r)) (sym same) (v.listed_once i l);
      }
