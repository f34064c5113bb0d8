-- ===== src/Mpmcq/Concurrent/Dequeuing.antt =====
-- The steps of `mpmcq_dequeue` in src/mpmcq.c that follow and move the head keep the invariant.
use librtipc.Prelude.{
  ℕ, ◌<◌, ◌≡◌, inl, inr, refl, sym, ap, ◌∙◌, arith, Option, none, List, [], ◌∷◌, append-nil, update,
  update_self, update-ne,
}
use mathlib.Core.Path.{subst}
use librtipc.Memory.{Bytes}
use librtipc.Mpmcq.Concurrent.{User, System, hazard0, hazard1, announced, followed, head_moved}
use librtipc.Mpmcq.Concurrent.Invariant.{Place, aside, Guarded, Knows, Inv, HeadKnown, Settled}
use librtipc.Mpmcq.Concurrent.Slots.{see-Inv, Guarded-announce, announce-Inv}
use librtipc.Mpmcq.Concurrent.Head.{move_head-Inv}
use librtipc.Mpmcq.Concurrent.Moves.{Kept, at, go}

-- The messages that have been linked have been taken when the head has no successor.
all_taken :
    {size m : ℕ} {s : System} {place : ℕ → Place} (xs : List ℕ)
    → Inv size m s place xs
    → (s.nodes s.head).next ≡ none
    → s.sent ≡ s.taken
all_taken {s = s} [] v n = v.flow ∙ append-nil s.taken
all_taken (x ∷ xs) v n = absurd (cc (sym n ∙ v.chain.0))

module _ (size m : ℕ) where
  module _ {s : System} {place : ℕ → Place} {xs : List ℕ} (v : Inv size m s place xs) (i : ℕ)
      (l : i < m) where
    -- The head is saved in the first shared index, its successor in the second.
    pub save_next :
        (out : Bytes) (h t : ℕ) (x : Option ℕ)
        → s.users i ≡ User.saving_next out h t x
        → Kept size m (announced s i (User.verifying_next out h t x) (hazard1 i) x)
    save_next out h t x e =
        let k = at size m v i l e in
        let same = ap aside (sym e) in
        (
          place,
          xs,
          announce-Inv size m v i l (User.verifying_next out h t x) (hazard1 i) x (inr refl) same
              (λ q t. tt)
              (
                (
                  (
                    (
                      Guarded-announce size m v i l (User.verifying_next out h t x) (hazard1 i) x
                          (inr refl) same (λ q t. tt) (hazard0 i) h (omega arith) k.0.0.0,
                      k.0.0.1,
                    ),
                    k.0.1,
                  ),
                  k.1,
                  k.2,
                ),
                update_self s.hazards (hazard1 i) x,
              ),
        )

  -- The successor of the head is read: if there is none, the list is empty or the head has moved.
  pub follow :
      {s : System} {place : ℕ → Place} {xs : List ℕ} (v : Inv size m s place xs) (i : ℕ)
      → i < m
      → (out : Bytes) (h t : ℕ) → s.users i ≡ User.following out h t
      → Kept size m (followed s i out h t)
  follow {s} {place} {xs} v i l out h t e =
      go size m noted i l e (User.saving_next out h t (s.nodes h).next) refl (λ q t g c. tt)
        (k, λ y q. q, settled k.0.1)
    where
      k : Knows size m s place i (User.following out h t)
      k = at size m v i l e

      s' : System
      s' = record s { seen = update s.seen i (s.sent, s.taken) }

      noted : Inv size m s' place xs
      noted =
          see-Inv size m v i l (update s.seen i (s.sent, s.taken))
            (λ j ne. update-ne s.seen i (s.sent, s.taken) j (λ q. ne (sym q)))
            (subst (Knows size m s' place i) (sym e) k)

      settled : HeadKnown s place h → (s.nodes h).next ≡ none → Settled size m s' place i h
      settled (inr r) n = inr r
      settled (inl hd) n = inl (
          ap (λ w. w.0) (update_self s.seen i (s.sent, s.taken))
          ∙ all_taken xs v (ap (λ k. (s.nodes k).next) hd ∙ n)
          ∙ sym (ap (λ w. w.1) (update_self s.seen i (s.sent, s.taken))))

  -- The head moves on to the first node.
  pub move :
      {s : System} {place : ℕ → Place} (xs : List ℕ) (v : Inv size m s place xs) (i : ℕ)
      → i < m
      → (out : Bytes) (h x : ℕ) → s.users i ≡ User.moving out h x
      → s.head ≡ h
      → Kept size m (head_moved size s i out h x)
  move {s} [] v i l out h x e hd =
      absurd (cc (sym v.chain ∙ ap (λ k. (s.nodes k).next) hd ∙ (at size m v i l e).2))
  move {s} {place} (y ∷ xs) v i l out h x e hd =
      subst (λ z. Kept size m (head_moved size s i out h z)) first
        (
          _,
          xs,
          move_head-Inv size m v i l out h hd (k.1 hd) (ap aside e)
              (subst (Guarded m s place (hazard1 i)) (sym first) k.3),
        )
    where
      k : Knows size m s place i (User.moving out h x)
      k = at size m v i l e

      first : y ≡ x
      first = cc (sym v.chain.0 ∙ ap (λ k. (s.nodes k).next) hd ∙ k.2)
