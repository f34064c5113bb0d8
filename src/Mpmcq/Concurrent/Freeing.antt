-- ===== src/Mpmcq/Concurrent/Freeing.antt =====
-- The two writes of src/mpmcq.c that free a slot keep the invariant.
use librtipc.Prelude.{
  ℕ, ◌<◌, ◌≡◌, ◌≢◌, refl, sym, ap, ◌∙◌, arith, none, List, ◌∷◌, ◌++◌, All, update, update_self,
  update-ne, ℕ_discrete,
}
use mathlib.Core.Path.{subst}
use librtipc.Lfmpscq.{Node}
use librtipc.Lfmpscq.Chain.{Distinct, All-map2, All-middle, All-drop, Distinct-drop}
use librtipc.Mpmcq.Concurrent.{After, User, System, next_cleared, slot_freed}
use librtipc.Mpmcq.Concurrent.Invariant.{
  Place, free, retired_by, Private, aside, Clear, Guarded, Knows, Inv,
}
use librtipc.Mpmcq.Concurrent.Local.{Quiet, quiet-Inv}

module _ (size m : ℕ) {s : System} {place : ℕ → Place} {xs : List ℕ} (v : Inv size m s place xs)
    (i : ℕ) (l : i < m) where
  -- The two writes that free a slot
  module _ (a : After) (r : ℕ) (rest : List ℕ) where
    pub clear_next-Inv :
        s.users i ≡ User.clearing a r rest → Inv size m (next_cleared s i a r rest) place xs
    clear_next-Inv at =
        quiet-Inv size m i (User.freeing a r rest) s.hazards nd s.bytes s.retired s.search place
          (λ k. k ≡ r) c v (subst (Knows size m s place i) at (v.knows i l))
      where
        nd : ℕ → Node
        nd = update s.nodes r (record (s.nodes r) { next = none })

        listed : All (λ k. place k ≡ retired_by i) (s.retired i ++ (r ∷ rest))
        listed =
            subst (λ u. All (λ k. place k ≡ retired_by i) (s.retired i ++ aside u)) at
              (v.listed i l)

        kept : (q t : ℕ) → Guarded m s place q t → r ≢ t
        kept q t g = subst (λ u. Clear u q t) at (g.clear i l)

        c :
            Quiet m s place i
              (User.freeing a r rest)
              s.hazards
              nd
              s.bytes
              s.retired
              place
              (λ k. k ≡ r)
        c = record {
          others = λ j ne q o. refl;
          mine = λ k e.
              subst (Private i) (sym (ap place e ∙ All-middle _ (s.retired i) r rest listed)) refl;
          same = λ k ne. (update-ne s.nodes r _ k (λ e. ne (sym e)), refl, refl);
          untouched = λ q t g e. kept q t g (sym e);
          turn = kept;
          lists = λ j ne. refl;
          unused = λ k u. v.unused k (ground (arith, u));
          listed = listed;
          listed_once = subst (λ u. Distinct (s.retired i ++ aside u)) at (v.listed_once i l);
        }

    pub free_slot-Inv :
        s.users i ≡ User.freeing a r rest
        → Inv size m (slot_freed s i a r rest) (update place r free) xs
    free_slot-Inv at =
        quiet-Inv size m i (User.sweeping a rest) s.hazards nd s.bytes s.retired s.search
          (update place r free) (λ k. k ≡ r) c v (subst (Knows size m s place i) at (v.knows i l))
      where
        nd : ℕ → Node
        nd = update s.nodes r (record (s.nodes r) { used = 0 })

        listed : All (λ k. place k ≡ retired_by i) (s.retired i ++ (r ∷ rest))
        listed =
            subst (λ u. All (λ k. place k ≡ retired_by i) (s.retired i ++ aside u)) at
              (v.listed i l)

        once : Distinct (s.retired i ++ (r ∷ rest))
        once = subst (λ u. Distinct (s.retired i ++ aside u)) at (v.listed_once i l)

        place_ne : (k : ℕ) → k ≢ r → update place r free k ≡ place k
        place_ne k ne = update-ne place r free k (λ e. ne (sym e))

        nodes_ne : (k : ℕ) → k ≢ r → nd k ≡ s.nodes k
        nodes_ne k ne = update-ne s.nodes r _ k (λ e. ne (sym e))

        c :
            Quiet m s place i
              (User.sweeping a rest)
              s.hazards
              nd
              s.bytes
              s.retired
              (update place r free)
              (λ k. k ≡ r)
        c = record {
          others = λ j ne q o. refl;
          mine = λ k e.
              subst (Private i) (sym (ap place e ∙ All-middle _ (s.retired i) r rest listed)) refl;
          same = λ k ne. (nodes_ne k ne, refl, place_ne k ne);
          untouched = λ q t g e. subst (λ u. Clear u q t) at (g.clear i l) (sym e);
          turn = λ q t g. tt;
          lists = λ j ne. refl;
          unused = λ k u. elim (ℕ_discrete k r) [
            | yes e ↦ ap (update place r free) e ∙ update_self place r free
            | no ne ↦ place_ne k ne ∙ v.unused k (ap (λ y. y.used) (sym (nodes_ne k ne)) ∙ u)
          ];
          listed =
              All-map2 _ _ _ (λ k ne e. place_ne k ne ∙ e) (s.retired i ++ rest)
                (Distinct-drop (s.retired i) r rest once).1
                (All-drop _ (s.retired i) r rest listed);
          listed_once = (Distinct-drop (s.retired i) r rest once).0;
        }
