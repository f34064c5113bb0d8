-- ===== src/Mpmcq/Concurrent/Local.antt =====
-- The steps of a user of src/mpmcq.c that change only slots of its own keep the invariant.
use librtipc.Prelude.{
  ℕ, ◌≡◌, ◌≢◌, ◌⊎◌, inl, inr, refl, sym, ap, ◌∙◌, Option, none, some, List, [], ◌∷◌, ◌++◌, All,
  map_congr, update,
}
use mathlib.Core.Path.{subst}
use librtipc.Memory.{Bytes}
use librtipc.Memory.Slots.{load}
use librtipc.Lfmpscq.{Node}
use librtipc.Lfmpscq.Chain.{IsChain-congr, last_of, Distinct, All-map}
use librtipc.Mpmcq.Concurrent.{User, System}
use librtipc.Mpmcq.Concurrent.Invariant.{
  Place, free, owned, chained, retired_by, Private, aside, Clear, Linked, Guarded, In, Knows, Inv,
}
use librtipc.Mpmcq.Concurrent.Frame.{Mine, Frame, Knows-frame, users-update, Clear-update}

-- What is somewhere in the list has what all of it has.
pub In-All : (P : ℕ → Type 0) (t : ℕ) (xs : List ℕ) → In t xs → All P xs → P t
In-All P t [] n a = absurd n
In-All P t (x ∷ xs) (inl e) a = subst P (sym e) a.0
In-All P t (x ∷ xs) (inr n) a = In-All P t xs n a.1

module _ (m : ℕ) (s : System) (place : ℕ → Place) (i : ℕ) (p : User) (hz : ℕ → Option ℕ)
    (nd : ℕ → Node) (by : ℕ → Bytes) (rt : ℕ → List ℕ) (place' : ℕ → Place)
    (touched : ℕ → Type 0) where
  -- The step of user `i` to `p` changes no shared index of another, and slots that nobody else has to do
  -- with.
  pub record Quiet : Type 0 where
    pub others : (j : ℕ) → j ≢ i → (q : ℕ) → Mine j q → hz q ≡ s.hazards q
    pub mine : (k : ℕ) → touched k → Private i (place k)
    pub same :
        (k : ℕ) → ¬ touched k → (nd k ≡ s.nodes k) × (by k ≡ s.bytes k) × (place' k ≡ place k)
    pub untouched : (q t : ℕ) → Guarded m s place q t → ¬ touched t
    pub turn : (q t : ℕ) → Guarded m s place q t → Clear p q t
    pub lists : (j : ℕ) → j ≢ i → rt j ≡ s.retired j
    pub unused : (k : ℕ) → (nd k).used ≡ 0 → place' k ≡ free
    pub listed : All (λ k. place' k ≡ retired_by i) (rt i ++ aside p)
    pub listed_once : Distinct (rt i ++ aside p)

module _ (size m : ℕ) {s : System} {place : ℕ → Place} (i : ℕ) (p : User) (hz : ℕ → Option ℕ)
    (nd : ℕ → Node) (by : ℕ → Bytes) (rt : ℕ → List ℕ) (se : ℕ → ℕ) (place' : ℕ → Place)
    (touched : ℕ → Type 0) (c : Quiet m s place i p hz nd by rt place' touched) where
  abbrev pub quiet : System
  quiet = record s {
    hazards = hz;
    nodes = nd;
    bytes = by;
    search = se;
    users = update s.users i p;
    retired = rt;
  }

  far_from : (k : ℕ) (l : Place) → place k ≡ l → ¬ Private i l → ¬ touched k
  far_from k l e n t = n (subst (Private i) e (c.mine k t))

  pub Guarded-quiet :
      (q t : ℕ) → hz q ≡ s.hazards q → Guarded m s place q t → Guarded m quiet place' q t
  Guarded-quiet q t h g = record {
    index = g.index;
    linked = subst Linked (sym (c.same t (c.untouched q t g)).2) g.linked;
    hazard = h ∙ g.hazard;
    clear = Clear-update m s.users i p q t (c.turn q t g) g.clear;
  }

  -- A user whose shared indexes and slots are not changed knows what it knew.
  pub quiet-Frame :
      (j : ℕ)
      → ((q : ℕ) → Mine j q → hz q ≡ s.hazards q)
      → ((n : ℕ) → place n ≡ owned j → ¬ touched n)
      → Frame size m s quiet place place' j
  quiet-Frame j hs os = record {
    same_hazard = hs;
    same_place = λ n e. (c.same n (os n e)).2 ∙ e;
    same_next = λ n e. ap (λ x. x.next) (c.same n (os n e)).0;
    same_bytes = λ n e. (c.same n (os n e)).1;
    guards = λ q t o g. Guarded-quiet q t (hs q o) g;
    tails = λ q t g k.
        subst (λ x. (s.tail ≡ t) ⊎ (x.next ≢ none)) (sym (c.same t (c.untouched q t g)).0) k;
    heads = λ q t g k. elim k [
      | inl e ↦ inl e
      | inr r ↦ inr (r.0, (c.same t (c.untouched q t g)).2 ∙ r.1)
    ];
    gone = λ q t g r. (r.0, (c.same t (c.untouched q t g)).2 ∙ r.1);
    aheads = λ q t g k a. a;
    same_seen = refl;
    links = λ q t x g e. ap (λ x. x.next) (c.same t (c.untouched q t g)).0 ∙ e;
    kept = λ q t g. (c.same t (c.untouched q t g)).1;
  }

  pub quiet-Inv :
      {xs : List ℕ}
      → Inv size m s place xs
      → Knows size m quiet place' i p
      → Inv size m quiet place' xs
  quiet-Inv {xs} v own = record {
    chain =
        IsChain-congr s.nodes nd s.head xs
          (All-map _ _ (λ k e. ap (λ x. x.next) (away k e).0) (s.head ∷ xs) v.in_list) v.chain;
    distinct = v.distinct;
    in_list = All-map _ _ (λ k e. (away k e).2 ∙ e) (s.head ∷ xs) v.in_list;
    tail_in = v.tail_in;
    tail_near =
        subst (λ x. (s.tail ≡ last_of s.head xs) ⊎ (x.next ≡ some (last_of s.head xs)))
          (sym (away s.tail (In-All _ s.tail (s.head ∷ xs) v.tail_in v.in_list)).0) v.tail_near;
    unused = c.unused;
    listed =
        users-update (λ j u. All (λ k. place' k ≡ retired_by j) (rt j ++ aside u)) m s.users i p
          c.listed
          (λ j l ne.
            All-map _ _ (λ k e. (c.same k (far_from k (retired_by j) e ne)).2 ∙ e)
              (rt j ++ aside (s.users j))
              (subst (λ l. All (λ k. place k ≡ retired_by j) (l ++ aside (s.users j)))
                (sym (c.lists j ne)) (v.listed j l)));
    listed_once =
        users-update (λ j u. Distinct (rt j ++ aside u)) m s.users i p c.listed_once
          (λ j l ne.
            subst (λ l. Distinct (l ++ aside (s.users j))) (sym (c.lists j ne))
              (v.listed_once j l));
    knows = users-update (Knows size m quiet place') m s.users i p own (λ j l ne.
        Knows-frame size m (quiet-Frame j (c.others j ne) (λ n e. far_from n (owned j) e ne))
          (s.users j) (v.knows j l));
    flow =
        v.flow
        ∙ ap (λ l. s.taken ++ l)
            (sym (
              map_congr _ _ xs
                (All-map _ _ (λ k e. ap (λ b. load b 0 size) (away k e).1) xs v.in_list.1)));
  }
    where
      away :
          (k : ℕ)
          → place k ≡ chained
          → (nd k ≡ s.nodes k) × (by k ≡ s.bytes k) × (place' k ≡ place k)
      away k e = c.same k (far_from k chained e (λ n. n))
