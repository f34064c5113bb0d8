-- ===== src/Lfmpscq/Slots.antt =====
-- Taking and freeing slots in src/lfmpscq.c.
use librtipc.Prelude.{
  ℕ, zero, suc, ◌+◌, ◌%◌, ◌<◌, ◌≡◌, ◌≢◌, ◌⊎◌, inl, inr, refl, arith, Bool-cases, Bool, true, false,
  List, [], ◌∷◌, ◌++◌, All, Option, none, some, update, if◌then◌else◌, ℕ_discrete, update-ne, ap,
  ◌∙◌, ◌-◌, sym, dec_lt,
}
use native.Mathlib.Nat.{mod-add-mod, mod-eq_of_lt, mod-lt, add-mod_right}
use mathlib.Core.Path.{subst}
use librtipc.Atomic.Cas.{cas32-win, cas32-lose}
use librtipc.Lfmpscq.Chain.{All-snoc}
use librtipc.Lfmpscq.{Node, get_free_slot, is_shared, sweep}

-- What `getFreeSlot` finds: no slot, and then nothing is changed; or a slot that was free and that it
-- marks as used.
pub record Taken (nodes : ℕ → Node) (k : ℕ) (nodes' : ℕ → Node) : Type 0 where
  pub was_free : (nodes k).used ≡ 0
  pub marks : nodes' ≡ update nodes k (record (nodes k) { used = 1 })

abbrev pub Search : (ℕ → Node) → Option ℕ → (ℕ → Node) → Type 0
Search nodes none nodes' = nodes' ≡ nodes
Search nodes (some k) nodes' = Taken nodes k nodes'

pub get_free_slot-Search :
    (n rounds i : ℕ) (nodes : ℕ → Node)
    → let (found, i', nodes') = get_free_slot n rounds i nodes in Search nodes found nodes'
unfolding get_free_slot
get_free_slot-Search n zero i nodes = refl
get_free_slot-Search n (suc rounds) i nodes = elim (ℕ_discrete (nodes i).used 0) [
  | yes free ↦ rw (cas32-win (nodes i).used 0 1 free) (record { was_free = free; marks = refl })
  | no taken ↦
      rw (cas32-lose (nodes i).used 0 1 taken) (get_free_slot-Search n rounds ((i + 1) % n) nodes)
]

-- A round of `getFreeSlot` at a free slot, and at one that is used
get_free_slot-found :
    (n rounds i : ℕ) (nodes : ℕ → Node)
    → (nodes i).used ≡ 0
    → get_free_slot n (suc rounds) i nodes
      ≡ (some i, i, update nodes i (record (nodes i) { used = 1 }))
unfolding get_free_slot
get_free_slot-found n rounds i nodes free = rw (cas32-win (nodes i).used 0 1 free) refl

get_free_slot-next :
    (n rounds i : ℕ) (nodes : ℕ → Node)
    → (nodes i).used ≢ 0
    → (get_free_slot n (suc rounds) i nodes).0 ≡ (get_free_slot n rounds ((i + 1) % n) nodes).0
unfolding get_free_slot
get_free_slot-next n rounds i nodes taken = rw (cas32-lose (nodes i).used 0 1 taken) refl

-- `getFreeSlot` gives up only if each slot that it looks at is used.
get_free_slot-none :
    (n rounds i : ℕ) (nodes : ℕ → Node)
    → i < n
    → (get_free_slot n rounds i nodes).0 ≡ none
    → (j : ℕ) → j < rounds
    → (nodes ((i + j) % n)).used ≢ 0
unfolding get_free_slot
get_free_slot-none n zero i nodes l e j h = elim h [ ]
get_free_slot-none n (suc rounds) i nodes l e j h = elim (ℕ_discrete (nodes i).used 0) [
  | yes free ↦ absurd (cc (sym e ∙ ap (λ r. r.0) (get_free_slot-found n rounds i nodes free)))
  | no taken ↦ elim (ℕ_discrete j 0) [
    | yes first ↦
        subst (λ k. (nodes k).used ≢ 0) (sym (mod-eq_of_lt l) ∙ ap (λ a. a % n) (omega arith)) taken
    | no later ↦
        subst (λ k. (nodes k).used ≢ 0)
          (mod-add-mod (i + 1) n (j - 1) ∙ ap (λ a. a % n) (omega arith))
          (get_free_slot-none n rounds ((i + 1) % n) nodes (mod-lt (i + 1) (omega arith))
            (sym (get_free_slot-next n rounds i nodes taken) ∙ e) (j - 1) (omega arith))
  ]
]

-- One round for every slot looks at them all.
pub get_free_slot-full :
    (n i : ℕ) (nodes : ℕ → Node)
    → i < n
    → (get_free_slot n n i nodes).0 ≡ none
    → (k : ℕ) → k < n
    → (nodes k).used ≢ 0
get_free_slot-full n i nodes l e k h = elim (dec_lt k i) [
  | yes before ↦
      subst (λ k. (nodes k).used ≢ 0)
        (ap (λ a. a % n) (omega arith) ∙ add-mod_right k n ∙ mod-eq_of_lt h)
        (get_free_slot-none n n i nodes l e (k + n - i) (omega arith))
  | no behind ↦
      subst (λ k. (nodes k).used ≢ 0) (ap (λ a. a % n) (omega arith) ∙ mod-eq_of_lt h)
        (get_free_slot-none n n i nodes l e (k - i) (omega arith))
]

module _ (users : ℕ) (shared : ℕ → Option ℕ) where
  keeps :
      (r : ℕ) (rs kept : List ℕ) (nodes : ℕ → Node)
      → is_shared users shared r ≡ true
      → sweep users shared (r ∷ rs) kept nodes ≡ sweep users shared rs (kept ++ (r ∷ [])) nodes
  unfolding sweep
  keeps r rs kept nodes h =
      ap
        (λ (b : Bool).
          sweep users shared rs (if b then kept ++ (r ∷ []) else kept)
            (if b then nodes else update nodes r (record { used = 0; next = none })))
        h

  frees :
      (r : ℕ) (rs kept : List ℕ) (nodes : ℕ → Node)
      → is_shared users shared r ≡ false
      → sweep users shared (r ∷ rs) kept nodes
        ≡ sweep users shared rs kept (update nodes r (record { used = 0; next = none }))
  unfolding sweep
  frees r rs kept nodes h =
      ap
        (λ (b : Bool).
          sweep users shared rs (if b then kept ++ (r ∷ []) else kept)
            (if b then nodes else update nodes r (record { used = 0; next = none })))
        h

  -- A node that is not listed, or that is shared, does not change.
  pub sweep-keeps :
      (rs kept : List ℕ) (nodes : ℕ → Node) (j : ℕ)
      → (is_shared users shared j ≡ true) ⊎ All (λ r. r ≢ j) rs
      → (sweep users shared rs kept nodes).1 j ≡ nodes j
  unfolding sweep
  sweep-keeps [] kept nodes j h = refl
  sweep-keeps (r ∷ rs) kept nodes j (inl h) = elim (Bool-cases (is_shared users shared r)) [
    | inl is ↦ rw (keeps r rs kept nodes is) (sweep-keeps rs (kept ++ (r ∷ [])) nodes j (inl h))
    | inr isnt ↦ rw (frees r rs kept nodes isnt) (
        sweep-keeps rs kept (update nodes r (record { used = 0; next = none })) j (inl h)
        ∙ update-ne nodes r _ j (λ e. cc (ap (is_shared users shared) e)))
  ]
  sweep-keeps (r ∷ rs) kept nodes j (inr h) = elim (Bool-cases (is_shared users shared r)) [
    | inl is ↦ rw (keeps r rs kept nodes is) (sweep-keeps rs (kept ++ (r ∷ [])) nodes j (inr h.1))
    | inr isnt ↦ rw (frees r rs kept nodes isnt) (
        sweep-keeps rs kept (update nodes r (record { used = 0; next = none })) j (inr h.1)
        ∙ update-ne nodes r _ j h.0)
  ]

  -- All that is kept was listed.
  pub sweep-All {ℓ} :
      (P : ℕ → Type ℓ) (rs kept : List ℕ) (nodes : ℕ → Node)
      → All P rs
      → All P kept
      → All P (sweep users shared rs kept nodes).0
  unfolding sweep
  sweep-All P [] kept nodes hr hk = hk
  sweep-All P (r ∷ rs) kept nodes hr hk = elim (Bool-cases (is_shared users shared r)) [
    | inl is ↦
        rw (keeps r rs kept nodes is)
          (sweep-All P rs (kept ++ (r ∷ [])) nodes hr.1 (All-snoc P kept r hk hr.0))
    | inr isnt ↦ rw (frees r rs kept nodes isnt) (sweep-All P rs kept _ hr.1 hk)
  ]

  -- All that is kept is shared.
  pub sweep-shared :
      (rs kept : List ℕ) (nodes : ℕ → Node)
      → All (λ k. is_shared users shared k ≡ true) kept
      → All (λ k. is_shared users shared k ≡ true) (sweep users shared rs kept nodes).0
  unfolding sweep
  sweep-shared [] kept nodes hk = hk
  sweep-shared (r ∷ rs) kept nodes hk = elim (Bool-cases (is_shared users shared r)) [
    | inl is ↦
        rw (keeps r rs kept nodes is)
          (sweep-shared rs (kept ++ (r ∷ [])) nodes (All-snoc _ kept r hk is))
    | inr isnt ↦ rw (frees r rs kept nodes isnt) (sweep-shared rs kept _ hk)
  ]
