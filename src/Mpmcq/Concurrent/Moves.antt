-- ===== src/Mpmcq/Concurrent/Moves.antt =====
-- What the steps of a user of src/mpmcq.c make of the invariant, one kind of step at a time.
use librtipc.Prelude.{
  ℕ, suc, ◌+◌, ◌*◌, ◌<◌, ◌≡◌, ◌≢◌, inl, inr, refl, sym, ap, ◌∙◌, arith, none, some, List, [], ◌∷◌,
  ◌++◌, All, append-nil, append_assoc, update, update_self, update-ne,
}
use mathlib.Core.Path.{subst}
use librtipc.Atomic.{cas32}
use librtipc.Memory.{Bytes}
use librtipc.Lfmpscq.{Node}
use librtipc.Lfmpscq.Chain.{IsChain, All-middle}
use librtipc.Atomic.Cas.{exchanged}
use librtipc.Mpmcq.Concurrent.{After, User, System, goes, sweeps, slot_taken, byte_copied, ended}
use librtipc.Mpmcq.Concurrent.Invariant.{
  Place, owned, chained, retired_by, aside, Clear, Guarded, Holds, Knows, Inv,
}
use librtipc.Mpmcq.Concurrent.Local.{In-All}
use librtipc.Mpmcq.Concurrent.Slots.{turn-Inv, prepare-Inv}
use librtipc.Mpmcq.Concurrent.Tail.{advance-Inv}

-- A node of the list is none of those that a user may free.
Clear-chained :
    (place : ℕ → Place) (rs : List ℕ) (j q t : ℕ)
    → place t ≡ chained
    → (u : User) → All (λ k. place k ≡ retired_by j) (rs ++ aside u)
    → Clear u q t
Clear-chained place rs j q t here (User.comparing a r rest k) l =
    λ e. absurd (cc (sym (All-middle _ rs r rest l) ∙ ap place e ∙ here))
Clear-chained place rs j q t here (User.clearing a r rest) l =
    λ e. absurd (cc (sym (All-middle _ rs r rest l) ∙ ap place e ∙ here))
Clear-chained place rs j q t here (User.freeing a r rest) l =
    λ e. absurd (cc (sym (All-middle _ rs r rest l) ∙ ap place e ∙ here))
Clear-chained place rs j q t here _ l = tt

-- The successor of the head is a node of the list.
first-All :
    (P : ℕ → Type 0) (nodes : ℕ → Node) (h : ℕ) (xs : List ℕ) (x : ℕ)
    → IsChain nodes h xs
    → All P xs
    → (nodes h).next ≡ some x
    → P x
first-All P nodes h [] x c a e = absurd (cc (sym c ∙ e))
first-All P nodes h (y ∷ xs) x c a e = subst P (cc (sym c.0 ∙ e)) a.0

module _ (size m : ℕ) where
  abbrev pub Kept : System → Type 0
  Kept s = (place : ℕ → Place) × (xs : List ℕ) × Inv size m s place xs

  module _ {s : System} {place : ℕ → Place} {xs : List ℕ} (v : Inv size m s place xs) (i : ℕ)
      (l : i < m) where
    -- What the user knows, where it stands
    pub at : {u : User} → s.users i ≡ u → Knows size m s place i u
    at e = subst (Knows size m s place i) e (v.knows i l)

    -- A node of the list stays what it is from when a shared index names it.
    pub validated :
        (q t : ℕ) → q < 2 * m → place t ≡ chained → s.hazards q ≡ some t → Guarded m s place q t
    validated q t b here h = record {
      index = b;
      linked = inl here;
      hazard = h;
      clear = λ j b. Clear-chained place (s.retired j) j q t here (s.users j) (v.listed j b);
    }

    pub tail-chained : (t : ℕ) → s.tail ≡ t → place t ≡ chained
    tail-chained t e =
        ap place (sym e) ∙ In-All (λ k. place k ≡ chained) s.tail (s.head ∷ xs) v.tail_in v.in_list

    pub next-chained : (h x : ℕ) → s.head ≡ h → (s.nodes h).next ≡ some x → place x ≡ chained
    next-chained h x e n =
        first-All (λ k. place k ≡ chained) s.nodes s.head xs x v.chain v.in_list.1
          (ap (λ k. (s.nodes k).next) e ∙ n)

    -- The user goes on to `p`, with the same nodes.
    pub go :
        {u : User}
        → s.users i ≡ u
        → (p : User) → aside p ≡ aside u
        → ((q t : ℕ) → Guarded m s place q t → Clear u q t → Clear p q t)
        → Knows size m s place i p
        → Kept (goes s i p)
    go e p same turn own = (
      place,
      xs,
      turn-Inv size m v i l p s.retired s.search (λ j ne. refl)
          (ap (λ r. s.retired i ++ r) (same ∙ ap aside (sym e)))
          (λ q t g. turn q t g (subst (λ u. Clear u q t) e (g.clear i l))) own,
    )

    -- It goes through its retire list and the nodes beside it.
    pub begin :
        {u : User}
        → s.users i ≡ u
        → (a : After) → Holds size a
        → Kept (sweeps s i a (s.retired i ++ aside u))
    begin {u} e a own = (
      place,
      xs,
      turn-Inv size m v i l (User.sweeping a (s.retired i ++ aside u)) (update s.retired i [])
          s.search (λ j ne. update-ne s.retired i [] j (λ q. ne (sym q)))
          (ap (λ r. r ++ (s.retired i ++ aside u)) (update_self s.retired i [])
            ∙ ap (λ u. s.retired i ++ aside u) (sym e))
          (λ q t g. tt) own,
    )

    pub begin_idle :
        s.users i ≡ User.idle → (a : After) → Holds size a → Kept (sweeps s i a (s.retired i))
    begin_idle e a own =
        subst (λ r. Kept (sweeps s i a r)) (append-nil (s.retired i)) (begin e a own)

    pub keep :
        (a : After) (r : ℕ) (rest : List ℕ) (k : ℕ)
        → s.users i ≡ User.comparing a r rest k
        → Kept (record (goes s i (User.sweeping a rest)) {
          retired = update s.retired i (s.retired i ++ (r ∷ []));
        })
    keep a r rest k e = (
      place,
      xs,
      turn-Inv size m v i l (User.sweeping a rest) (update s.retired i (s.retired i ++ (r ∷ [])))
          s.search (λ j ne. update-ne s.retired i _ j (λ q. ne (sym q)))
          (ap (λ l. l ++ rest) (update_self s.retired i (s.retired i ++ (r ∷ [])))
            ∙ append_assoc (s.retired i) (r ∷ []) rest
            ∙ ap (λ u. s.retired i ++ aside u) (sym e))
          (λ q t g. tt) (at e),
    )

    pub skip :
        (payload : Bytes) (rounds : ℕ) (se : ℕ → ℕ)
        → s.users i ≡ User.searching payload (suc rounds)
        → Kept (record (goes s i (User.searching payload rounds)) { search = se })
    skip payload rounds se e = (
      place,
      xs,
      turn-Inv size m v i l (User.searching payload rounds) s.retired se (λ j ne. refl)
          (ap (λ u. s.retired i ++ aside u) (sym e)) (λ q t g. tt) tt,
    )

    pub take :
        (payload : Bytes) (rounds : ℕ)
        → s.users i ≡ User.searching payload (suc rounds)
        → (s.nodes (s.search i)).used ≡ 0
        → Kept (slot_taken s i payload)
    take payload rounds e u = (
      _,
      xs,
      prepare-Inv size m v i l n (inl (v.unused n u)) (User.copying payload n 0)
          (update s.nodes n (record (s.nodes n) { used = 1 })) s.bytes
          (λ k ne. (update-ne s.nodes n _ k (λ e. ne (sym e)), refl)) (ground arith)
          (ap aside (sym e)) (λ q t. tt) (update_self place n (owned i), λ j b. elim b [ ]),
    )
      where
        n : ℕ
        n = s.search i

    busy : (n : ℕ) → place n ≡ owned i → (s.nodes n).used ≢ 0
    busy n o u = absurd (cc (sym (v.unused n u) ∙ o))

    pub copy :
        (payload : Bytes) (n k : ℕ)
        → s.users i ≡ User.copying payload n k
        → Kept (byte_copied s i payload n k)
    copy payload n k e = (
      _,
      xs,
      prepare-Inv size m v i l n (inr (at e).0) (User.copying payload n (k + 1)) s.nodes
          (update s.bytes n (update (s.bytes n) k (payload k)))
          (λ j ne. (refl, update-ne s.bytes n _ j (λ e. ne (sym e)))) (busy n (at e).0)
          (ap aside (sym e)) (λ q t. tt)
          (update_self place n (owned i), λ j b. let own = (at e).1 j in ground (arith, own)),
    )

    pub end_at :
        (payload : Bytes) (n : ℕ) → s.users i ≡ User.ending payload n → Kept (ended s i payload n)
    end_at payload n e = (
      _,
      xs,
      prepare-Inv size m v i l n (inr (at e).0) (User.looping payload n)
          (update s.nodes n (record (s.nodes n) { next = none })) s.bytes
          (λ j ne. (update-ne s.nodes n _ j (λ e. ne (sym e)), refl))
          (λ u. busy n (at e).0 (sym (ap (λ x. x.used) (update_self s.nodes n _)) ∙ u))
          (ap aside (sym e)) (λ q t. tt)
          (record {
            mine = update_self place n (owned i);
            whole = (at e).1;
            end = ap (λ x. x.next) (update_self s.nodes n _);
          }),
    )

    -- It moves the tail on from `t`, if that is still there.
    pub advance :
        {u : User}
        → s.users i ≡ u
        → (t x : ℕ) (p : User) → (s.nodes t).next ≡ some x
        → aside p ≡ aside u
        → ((q k : ℕ) → Clear p q k)
        → Knows size m (record (goes s i p) { tail = (cas32 s.tail t x).1 }) place i p
        → Kept (record (goes s i p) { tail = (cas32 s.tail t x).1 })
    advance e t x p n same turn own = (
      place,
      xs,
      advance-Inv size m v i t l x (cas32 s.tail t x).1 p (exchanged s.tail t x) n
          (same ∙ ap aside (sym e)) turn own,
    )
