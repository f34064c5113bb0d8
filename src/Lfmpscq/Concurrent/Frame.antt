-- ===== src/Lfmpscq/Concurrent/Frame.antt =====
-- What a process of src/lfmpscq.c knows outlasts the steps of the others.
use librtipc.Prelude.{
  ℕ, ◌<◌, ◌≡◌, ◌≢◌, sym, ap, ◌∙◌, some, List, [], ◌∷◌, All, update, ℕ_discrete, update_self,
  update-ne,
}
use mathlib.Core.Path.{subst}
use librtipc.Memory.Slots.{load}
use librtipc.Lfmpscq.{Node}
use librtipc.Lfmpscq.Chain.{IsChain}
use librtipc.Lfmpscq.Concurrent.{Producer, Consumer, System}
use librtipc.Lfmpscq.Concurrent.Invariant.{
  Place, owned, chained, Guarded, Filled, Knows, ConsumerKnows,
}

-- What a change of the state leaves alone, as far as process `i` sees it.
pub record Frame (s s' : System) (place place' : ℕ → Place) (i : ℕ) : Type 0 where
  pub same_hazard : s'.hazards i ≡ s.hazards i
  pub same_place : (n : ℕ) → place n ≡ owned i → place' n ≡ owned i
  pub same_next : (n : ℕ) → place n ≡ owned i → (s'.nodes n).next ≡ (s.nodes n).next
  pub same_bytes : (n : ℕ) → place n ≡ owned i → s'.bytes n ≡ s.bytes n
  pub guards : (t : ℕ) → Guarded s place i t → Guarded s' place' i t
  pub links :
      (t x : ℕ) → Guarded s place i t → (s.nodes t).next ≡ some x → (s'.nodes t).next ≡ some x

module _ (size : ℕ) {s s' : System} {place place' : ℕ → Place} {i : ℕ}
    (f : Frame s s' place place' i) where
  Filled-frame :
      (payload : ℕ → ℕ) (n : ℕ)
      → Filled size s place i payload n
      → Filled size s' place' i payload n
  Filled-frame payload n k = record {
    mine = f.same_place n k.mine;
    whole = ap (λ b. load b 0 size) (f.same_bytes n k.mine) ∙ k.whole;
    end = f.same_next n k.mine ∙ k.end;
  }

  pub Knows-frame : (p : Producer) → Knows size s place i p → Knows size s' place' i p
  Knows-frame Producer.idle k = tt
  Knows-frame (Producer.searching payload r) k = tt
  Knows-frame (Producer.copying payload n j) k =
      (f.same_place n k.0, λ a l. ap (λ b. b a) (f.same_bytes n k.0) ∙ k.1 a l)
  Knows-frame (Producer.ending payload n) k =
      (f.same_place n k.0, ap (λ b. load b 0 size) (f.same_bytes n k.0) ∙ k.1)
  Knows-frame (Producer.looping payload n) k = Filled-frame payload n k
  Knows-frame (Producer.announcing payload n t) k = Filled-frame payload n k
  Knows-frame (Producer.checking payload n t) k = (Filled-frame payload n k.0, f.same_hazard ∙ k.1)
  Knows-frame (Producer.reading payload n t) k = (Filled-frame payload n k.0, f.guards t k.1)
  Knows-frame (Producer.helping payload n t x) k =
      (Filled-frame payload n k.0, f.guards t k.1, f.links t x k.1 k.2)
  Knows-frame (Producer.linking payload n t) k = (Filled-frame payload n k.0, f.guards t k.1)
  Knows-frame (Producer.swinging n t) k = (f.guards t k.0, f.links t n k.0 k.1)

-- What holds of each process holds after process `i` has gone on to `p`.
pub knows-update {ℓ} :
    (P : ℕ → Producer → Type ℓ) (m : ℕ) (f : ℕ → Producer) (i : ℕ) (p : Producer)
    → P i p
    → ((j : ℕ) → j < m → j ≢ i → P j (f j))
    → (j : ℕ) → j < m
    → P j (update f i p j)
knows-update P m f i p own others j l = elim (ℕ_discrete i j) [
  | yes e ↦ subst (λ k. P k (update f i p k)) e (subst (P i) (sym (update_self f i p)) own)
  | no ne ↦ subst (P j) (sym (update-ne f i p j ne)) (others j l (λ e. ne (sym e)))
]

-- The first node of a chain belongs to the list.
pub first-chained :
    (nodes : ℕ → Node) (place : ℕ → Place) (h : ℕ) (xs : List ℕ) {x : ℕ}
    → IsChain nodes h xs
    → All (λ k. place k ≡ chained) (h ∷ xs)
    → (nodes h).next ≡ some x
    → place x ≡ chained
first-chained nodes place h [] c a e = absurd (cc)
first-chained nodes place h (y ∷ xs) c a e = subst (λ k. place k ≡ chained) (cc (sym c.0 ∙ e)) a.1.0

-- What the consumer knows depends on the head and the first node of the list only.
pub ConsumerKnows-frame :
    (size : ℕ) (s s' : System)
    → s'.head ≡ s.head
    → ((x : ℕ)
        → (s.nodes s.head).next ≡ some x
        → ((s'.nodes s.head).next ≡ some x) × (s'.bytes x ≡ s.bytes x))
    → (c : Consumer) → ConsumerKnows size s c
    → ConsumerKnows size s' c
ConsumerKnows-frame size s s' e first Consumer.idle k = tt
ConsumerKnows-frame size s s' e first (Consumer.at_head out h) k = e ∙ k
ConsumerKnows-frame size s s' e first (Consumer.copying out h x j) k =
    let kept = first x (ap (λ h. (s.nodes h).next) k.0 ∙ k.1) in
    (
      e ∙ k.0,
      ap (λ h. (s'.nodes h).next) (sym k.0) ∙ kept.0,
      λ a l. k.2 a l ∙ ap (λ b. b a) (sym kept.1),
    )
ConsumerKnows-frame size s s' e first (Consumer.sweeping todo) k = tt
ConsumerKnows-frame size s s' e first (Consumer.comparing r rest j) k = tt
ConsumerKnows-frame size s s' e first (Consumer.clearing r rest) k = tt
ConsumerKnows-frame size s s' e first (Consumer.freeing r rest) k = tt
