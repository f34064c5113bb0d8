-- ===== src/Mpmcq/Concurrent/Tail.antt =====
-- The steps of src/mpmcq.c that move the tail keep the invariant.
use librtipc.Prelude.{
  ℕ, ◌<◌, ◌≡◌, ◌≢◌, ◌⊎◌, inl, inr, refl, sym, ap, ◌∙◌, some, List, [], ◌∷◌, ◌++◌, All,
}
use mathlib.Core.Path.{subst}
use librtipc.Lfmpscq.Chain.{IsChain-last, last_of, Distinct, All-last}
use librtipc.Mpmcq.Concurrent.{User, System, goes}
use librtipc.Mpmcq.Concurrent.Invariant.{
  Place, retired_by, aside, Clear, TailKnown, Ahead, In, Knows, Inv,
}
use librtipc.Mpmcq.Concurrent.Frame.{Frame, Knows-frame, users-update, Clear-update}

In-last : (h : ℕ) (xs : List ℕ) → In (last_of h xs) (h ∷ xs)
In-last h [] = inl refl
In-last h (x ∷ xs) = inr (In-last x xs)

-- When the tail is behind the head, so is the last node.
last-ahead : (t h : ℕ) (xs : List ℕ) → Distinct (h ∷ xs) → In t (h ∷ xs) → t ≢ h → last_of h xs ≢ h
last-ahead t h [] d n ne = absurd (elim n [ inl e ↦ ne e | inr e ↦ e ])
last-ahead t h (x ∷ xs) d n ne = All-last (λ y. y ≢ h) x xs d.0

module _ (size m : ℕ) {s : System} {place : ℕ → Place} {xs : List ℕ} (v : Inv size m s place xs)
    (i t : ℕ) (l : i < m) where
  -- The successor of the tail is the last node.
  next-last : (x : ℕ) → s.tail ≡ t → (s.nodes t).next ≡ some x → x ≡ last_of s.head xs
  next-last x at e = elim v.tail_near [
    | inl l ↦ absurd (
        cc (
          sym e ∙ ap (λ k. (s.nodes k).next) (sym at ∙ l) ∙ IsChain-last s.nodes s.head xs v.chain))
    | inr n ↦ cc (sym e ∙ ap (λ k. (s.nodes k).next) (sym at) ∙ n)
  ]

  -- The tail moves on to a node that is the last one, if it moves.
  pub advance-Inv :
      (x tail' : ℕ) (p : User)
      → ((s.tail ≡ t) × (tail' ≡ x)) ⊎ (tail' ≡ s.tail)
      → (s.nodes t).next ≡ some x
      → aside p ≡ aside (s.users i)
      → ((q k : ℕ) → Clear p q k)
      → Knows size m (record (goes s i p) { tail = tail' }) place i p
      → Inv size m (record (goes s i p) { tail = tail' }) place xs
  advance-Inv x tail' p move e same turn own = record {
    chain = v.chain;
    distinct = v.distinct;
    in_list = v.in_list;
    tail_in = elim move [
      | inl (at, to) ↦
          subst (λ k. In k (s.head ∷ xs)) (sym (to ∙ next-last x at e)) (In-last s.head xs)
      | inr still ↦ subst (λ k. In k (s.head ∷ xs)) (sym still) v.tail_in
    ];
    tail_near = elim move [
      | inl (at, to) ↦ inl (to ∙ next-last x at e)
      | inr still ↦
          subst (λ k. (k ≡ last_of s.head xs) ⊎ ((s.nodes k).next ≡ some (last_of s.head xs)))
            (sym still) v.tail_near
    ];
    unused = v.unused;
    listed =
        users-update (λ j u. All (λ k. place k ≡ retired_by j) (s.retired j ++ aside u)) m s.users i
          p
          (subst (λ r. All (λ k. place k ≡ retired_by i) (s.retired i ++ r)) (sym same)
            (v.listed i l))
          (λ j l ne. v.listed j l);
    listed_once =
        users-update (λ j u. Distinct (s.retired j ++ aside u)) m s.users i p
          (subst (λ r. Distinct (s.retired i ++ r)) (sym same) (v.listed_once i l))
          (λ j l ne. v.listed_once j l);
    knows =
        users-update (Knows size m s' place) m s.users i p own
          (λ j l ne. Knows-frame size m (others j) (s.users j) (v.knows j l));
    flow = v.flow;
  }
    where
      s' : System
      s' = record (goes s i p) { tail = tail' }

      tail-kept : (t' : ℕ) → TailKnown s t' → TailKnown s' t'
      tail-kept t' (inr ne) = inr ne
      tail-kept t' (inl at') = elim move [
        | inl (at, to) ↦
            inr (λ n. absurd (cc (sym e ∙ ap (λ k. (s.nodes k).next) (sym at ∙ at') ∙ n)))
        | inr still ↦ inl (still ∙ at')
      ]

      ahead-kept : (h : ℕ) → Ahead s h → Ahead s' h
      ahead-kept h a hd = elim move [
        | inl (at, to) ↦ λ q.
            last-ahead s.tail s.head xs v.distinct v.tail_in (λ w. a hd (w ∙ hd))
              (sym (to ∙ next-last x at e) ∙ q ∙ sym hd)
        | inr still ↦ λ q. a hd (sym still ∙ q)
      ]

      others : (j : ℕ) → Frame size m s s' place place j
      others j = record {
        same_hazard = λ q o. refl;
        same_place = λ n e. e;
        same_next = λ n e. refl;
        same_bytes = λ n e. refl;
        guards = λ q t' o g. record {
          index = g.index;
          linked = g.linked;
          hazard = g.hazard;
          clear = Clear-update m s.users i p q t' (turn q t') g.clear;
        };
        tails = λ q t' g k. tail-kept t' k;
        heads = λ q t' g k. k;
        gone = λ q t' g r. r;
        same_seen = refl;
        aheads = λ q t' g k a. ahead-kept t' a;
        links = λ q t' x g e. e;
        kept = λ q t' g. refl;
      }
