-- ===== src/Mpmcq/Concurrent/Head.antt =====
-- The step of src/mpmcq.c that moves the head keeps the invariant.
use librtipc.Prelude.{
  ℕ, ◌<◌, ◌≡◌, ◌≢◌, inl, inr, refl, sym, ap, ◌∙◌, List, [], ◌∷◌, ◌++◌, All, append-nil,
  append_assoc, update, update_self, update-ne, ℕ_discrete,
}
use mathlib.Core.Path.{subst}
use librtipc.Memory.{Bytes}
use librtipc.Memory.Slots.{load}
use librtipc.Lfmpscq.Chain.{Distinct, Distinct-snoc, All-map, All-map2, All-snoc}
use librtipc.Mpmcq.Concurrent.{User, System, head_moved, hazard1}
use librtipc.Mpmcq.Concurrent.Invariant.{
  Place, owned, chained, retired_by, aside, Linked, Guarded, HeadKnown, Ahead, Knows, pending, Inv,
}
use librtipc.Mpmcq.Concurrent.Frame.{Frame, Knows-frame, users-update, Clear-update}

module _ (size m : ℕ) {s : System} {place : ℕ → Place} {x : ℕ} {xs : List ℕ}
    (v : Inv size m s place (x ∷ xs)) (i : ℕ) (l : i < m) (out : Bytes) (h : ℕ) (at : s.head ≡ h)
    (behind : s.tail ≢ h) (alone : aside (s.users i) ≡ []) where
  abbrev s' : System
  s' = head_moved size s i out h x

  abbrev left : ℕ → Place
  left = update place h (retired_by i)

  c : place h ≡ chained
  c = ap place (sym at) ∙ v.in_list.0

  left_ne : (k : ℕ) → k ≢ h → left k ≡ place k
  left_ne k ne = update-ne place h (retired_by i) k (λ e. ne (sym e))

  left-h : left h ≡ retired_by i
  left-h = update_self place h (retired_by i)

  not_h : (k : ℕ) (p : Place) → place k ≡ p → p ≢ chained → k ≢ h
  not_h k p e n q = n (sym e ∙ ap place q ∙ c)

  retired-kept : (j k : ℕ) → place k ≡ retired_by j → left k ≡ retired_by j
  retired-kept j k e = left_ne k (not_h k (retired_by j) e (λ q. absurd (cc q))) ∙ e

  Linked-kept : (t : ℕ) → Linked (place t) → Linked (left t)
  Linked-kept t k = elim (ℕ_discrete t h) [
    | yes e ↦ inr (i, ap left e ∙ left-h)
    | no ne ↦ subst Linked (sym (left_ne t ne)) k
  ]

  guards' : (q t : ℕ) → Guarded m s place q t → Guarded m s' left q t
  guards' q t g = record {
    index = g.index;
    linked = Linked-kept t g.linked;
    hazard = g.hazard;
    clear =
        Clear-update m s.users i (User.fetching out h x 0 (load (s.bytes x) 0 size)) q t tt g.clear;
  }

  heads' : (t : ℕ) → HeadKnown s place t → HeadKnown s' left t
  heads' t (inl e) = inr (i, ap left (sym e ∙ at) ∙ left-h)
  heads' t (inr r) = inr (r.0, retired-kept r.0 t r.1)

  -- A user that has made sure of a head does not meet it again while it keeps it.
  aheads' : (t : ℕ) → HeadKnown s place t → Ahead s' t
  aheads' t (inl e) q = absurd (v.distinct.0.0 (q ∙ sym e))
  aheads' t (inr r) q = absurd (cc (sym v.in_list.1.0 ∙ ap place q ∙ r.1))

  others' : (j : ℕ) → Frame size m s s' place left j
  others' j = record {
    same_hazard = λ q o. refl;
    same_place = λ n e. left_ne n (not_h n (owned j) e (λ q. absurd (cc q))) ∙ e;
    same_next = λ n e. refl;
    same_bytes = λ n e. refl;
    guards = λ q t o g. guards' q t g;
    tails = λ q t g k. k;
    heads = λ q t g k. heads' t k;
    gone = λ q t g r. (r.0, retired-kept r.0 t r.1);
    same_seen = refl;
    aheads = λ q t g k a. aheads' t k;
    links = λ q t y g e. e;
    kept = λ q t g. refl;
  }

  pub move_head-Inv : Guarded m s place (hazard1 i) x → Inv size m s' left xs
  move_head-Inv g = record {
    chain = v.chain.1;
    distinct = v.distinct.1;
    in_list =
        All-map2 _ _ _ (λ k ne e. left_ne k (λ q. ne (q ∙ sym at)) ∙ e) (x ∷ xs) v.distinct.0
          v.in_list.1;
    tail_in = elim v.tail_in [ inl e ↦ absurd (behind (e ∙ at)) | inr n ↦ n ];
    tail_near = v.tail_near;
    unused = λ k u.
        let was = v.unused k u in left_ne k (λ e. absurd (cc (sym was ∙ ap place e ∙ c))) ∙ was;
    listed =
        users-update (λ j u. All (λ k. left k ≡ retired_by j) (s.retired j ++ aside u)) m s.users i
          (User.fetching out h x 0 (load (s.bytes x) 0 size))
          (All-snoc _ (s.retired i) h (All-map _ _ (λ k e. retired-kept i k e) (s.retired i) listed)
            left-h)
          (λ j b ne.
            All-map _ _ (λ k e. retired-kept j k e) (s.retired j ++ aside (s.users j))
              (v.listed j b));
    listed_once =
        users-update (λ j u. Distinct (s.retired j ++ aside u)) m s.users i
          (User.fetching out h x 0 (load (s.bytes x) 0 size))
          (Distinct-snoc (s.retired i) h once (
            All-map _ _ (λ k e. not_h k (retired_by i) e (λ q. absurd (cc q))) (s.retired i)
              listed))
          (λ j b ne. v.listed_once j b);
    knows =
        users-update (Knows size m s' left) m s.users i
          (User.fetching out h x 0 (load (s.bytes x) 0 size))
          (guards' (hazard1 i) x g, refl, λ j b. elim b [ ])
          (λ j b ne. Knows-frame size m (others' j) (s.users j) (v.knows j b));
    flow = v.flow ∙ sym (append_assoc s.taken (load (s.bytes x) 0 size ∷ []) (pending size m s xs));
  }
    where
      listed : All (λ k. place k ≡ retired_by i) (s.retired i)
      listed =
          subst (All (λ k. place k ≡ retired_by i)) (append-nil (s.retired i))
            (subst (λ r. All (λ k. place k ≡ retired_by i) (s.retired i ++ r)) alone (v.listed i l))

      once : Distinct (s.retired i)
      once =
          subst Distinct (append-nil (s.retired i))
            (subst (λ r. Distinct (s.retired i ++ r)) alone (v.listed_once i l))
