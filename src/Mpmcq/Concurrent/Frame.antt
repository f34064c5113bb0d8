-- ===== src/Mpmcq/Concurrent/Frame.antt =====
-- What a user of src/mpmcq.c knows outlasts the steps of the others.
use librtipc.Prelude.{
  ℕ, ◌<◌, ◌≡◌, ◌≢◌, ◌⊎◌, inl, inr, Option, refl, sym, ap, ◌∙◌, some, update, ℕ_discrete,
  update_self, update-ne,
}
use mathlib.Core.Path.{subst}
use librtipc.Memory.Slots.{load}
use librtipc.Mpmcq.Concurrent.{User, System, hazard0, hazard1}
use librtipc.Mpmcq.Concurrent.Invariant.{
  Place, owned, retired_by, Clear, Guarded, TailKnown, HeadKnown, Ahead, TailGuarded, HeadGuarded,
  Located, Read, Filled, Knows,
}

-- The two shared indexes of user `i`
abbrev pub Mine : ℕ → ℕ → Type 0
Mine i q = (q ≡ hazard0 i) ⊎ (q ≡ hazard1 i)

module _ (size m : ℕ) where
  -- What a change of the state leaves alone, as far as user `i` sees it.
  pub record Frame (s s' : System) (place place' : ℕ → Place) (i : ℕ) : Type 0 where
    pub same_hazard : (q : ℕ) → Mine i q → s'.hazards q ≡ s.hazards q
    pub same_place : (n : ℕ) → place n ≡ owned i → place' n ≡ owned i
    pub same_next : (n : ℕ) → place n ≡ owned i → (s'.nodes n).next ≡ (s.nodes n).next
    pub same_seen : s'.seen i ≡ s.seen i
    pub same_bytes : (n : ℕ) → place n ≡ owned i → s'.bytes n ≡ s.bytes n
    pub guards : (q t : ℕ) → Mine i q → Guarded m s place q t → Guarded m s' place' q t
    pub tails : (q t : ℕ) → Guarded m s place q t → TailKnown s t → TailKnown s' t
    pub heads : (q t : ℕ) → Guarded m s place q t → HeadKnown s place t → HeadKnown s' place' t
    pub gone :
        (q t : ℕ)
        → Guarded m s place q t
        → ((j : ℕ) × (place t ≡ retired_by j))
        → (j : ℕ) × (place' t ≡ retired_by j)
    pub aheads : (q t : ℕ) → Guarded m s place q t → HeadKnown s place t → Ahead s t → Ahead s' t
    pub links :
        (q t x : ℕ) → Guarded m s place q t → (s.nodes t).next ≡ some x → (s'.nodes t).next ≡ some x
    pub kept : (q t : ℕ) → Guarded m s place q t → s'.bytes t ≡ s.bytes t

  module _ {s s' : System} {place place' : ℕ → Place} {i : ℕ} (f : Frame s s' place place' i) where
    Filled-frame :
        (payload : ℕ → ℕ) (n : ℕ)
        → Filled size m s place i payload n
        → Filled size m s' place' i payload n
    Filled-frame payload n k = record {
      mine = f.same_place n k.mine;
      whole = ap (λ b. load b 0 size) (f.same_bytes n k.mine) ∙ k.whole;
      end = f.same_next n k.mine ∙ k.end;
    }

    TailGuarded-frame : (t : ℕ) → TailGuarded size m s place i t → TailGuarded size m s' place' i t
    TailGuarded-frame t k = (f.guards (hazard0 i) t (inl refl) k.0, f.tails (hazard0 i) t k.0 k.1)

    HeadGuarded-frame : (h : ℕ) → HeadGuarded size m s place i h → HeadGuarded size m s' place' i h
    HeadGuarded-frame h k = (f.guards (hazard0 i) h (inl refl) k.0, f.heads (hazard0 i) h k.0 k.1)

    Located-frame : (h t : ℕ) → Located size m s place i h t → Located size m s' place' i h t
    Located-frame h t k =
        (HeadGuarded-frame h k.0, λ ne. f.aheads (hazard0 i) h k.0.0 k.0.1 (k.1 ne))

    Read-frame :
        (h t : ℕ) (x : Option ℕ) → Read size m s place i h t x → Read size m s' place' i h t x
    Read-frame h t x k = (
      Located-frame h t k.0,
      λ y e. f.links (hazard0 i) h y k.0.0.0 (k.1 y e),
      λ e. elim (k.2 e) [
        | inl q ↦ inl (ap (λ w. w.0) f.same_seen ∙ q ∙ sym (ap (λ w. w.1) f.same_seen))
        | inr r ↦ inr (f.gone (hazard0 i) h k.0.0.0 r)
      ],
    )

    pub Knows-frame : (p : User) → Knows size m s place i p → Knows size m s' place' i p
    Knows-frame User.idle k = tt
    Knows-frame (User.sweeping a todo) k = k
    Knows-frame (User.comparing a r rest j) k = k
    Knows-frame (User.clearing a r rest) k = k
    Knows-frame (User.freeing a r rest) k = k
    Knows-frame (User.searching payload r) k = tt
    Knows-frame (User.copying payload n j) k =
        (f.same_place n k.0, λ a l. ap (λ b. b a) (f.same_bytes n k.0) ∙ k.1 a l)
    Knows-frame (User.ending payload n) k =
        (f.same_place n k.0, ap (λ b. load b 0 size) (f.same_bytes n k.0) ∙ k.1)
    Knows-frame (User.looping payload n) k = Filled-frame payload n k
    Knows-frame (User.announcing payload n t) k = Filled-frame payload n k
    Knows-frame (User.checking payload n t) k =
        (Filled-frame payload n k.0, f.same_hazard (hazard0 i) (inl refl) ∙ k.1)
    Knows-frame (User.reading payload n t) k = (Filled-frame payload n k.0, TailGuarded-frame t k.1)
    Knows-frame (User.helping payload n t x) k =
        (Filled-frame payload n k.0, TailGuarded-frame t k.1, f.links (hazard0 i) t x k.1.0 k.2)
    Knows-frame (User.linking payload n t) k = (Filled-frame payload n k.0, TailGuarded-frame t k.1)
    Knows-frame (User.swinging n t) k = (TailGuarded-frame t k.0, f.links (hazard0 i) t n k.0.0 k.1)
    Knows-frame (User.starting out) k = tt
    Knows-frame (User.saving out h) k = tt
    Knows-frame (User.verifying out h) k = f.same_hazard (hazard0 i) (inl refl) ∙ k
    Knows-frame (User.locating out h) k = HeadGuarded-frame h k
    Knows-frame (User.following out h t) k = Located-frame h t k
    Knows-frame (User.saving_next out h t x) k = Read-frame h t x k
    Knows-frame (User.verifying_next out h t x) k =
        (Read-frame h t x k.0, f.same_hazard (hazard1 i) (inr refl) ∙ k.1)
    Knows-frame (User.correcting out h x) k =
        (HeadGuarded-frame h k.0, f.links (hazard0 i) h x k.0.0 k.1)
    Knows-frame (User.moving out h x) k = (
      HeadGuarded-frame h k.0,
      f.aheads (hazard0 i) h k.0.0 k.0.1 k.1,
      f.links (hazard0 i) h x k.0.0 k.2,
      f.guards (hazard1 i) x (inr refl) k.3,
    )
    Knows-frame (User.fetching out h x j taken) k =
        let same = f.kept (hazard1 i) x k.0 in
        (
          f.guards (hazard1 i) x (inr refl) k.0,
          ap (λ b. load b 0 size) same ∙ k.1,
          λ a l. k.2 a l ∙ ap (λ b. b a) (sym same),
        )

-- What holds of each user holds after user `i` has gone on to `p`.
pub users-update {ℓ} :
    (P : ℕ → User → Type ℓ) (m : ℕ) (f : ℕ → User) (i : ℕ) (p : User)
    → P i p
    → ((j : ℕ) → j < m → j ≢ i → P j (f j))
    → (j : ℕ) → j < m
    → P j (update f i p j)
users-update P m f i p own others j l = elim (ℕ_discrete i j) [
  | yes e ↦ subst (λ k. P k (update f i p k)) e (subst (P i) (sym (update_self f i p)) own)
  | no ne ↦ subst (P j) (sym (update-ne f i p j ne)) (others j l (λ e. ne (sym e)))
]

-- User `i` goes on to `p`, which does not free what a shared index keeps.
pub Clear-update :
    (m : ℕ) (users : ℕ → User) (i : ℕ) (p : User) (q t : ℕ)
    → Clear p q t
    → ((j : ℕ) → j < m → Clear (users j) q t)
    → (j : ℕ) → j < m
    → Clear (update users i p j) q t
Clear-update m users i p q t own clear =
    users-update (λ j u. Clear u q t) m users i p own (λ j l ne. clear j l)
