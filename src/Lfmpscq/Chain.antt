-- ===== src/Lfmpscq/Chain.antt =====
-- The linked list of src/lfmpscq.c.
use librtipc.Prelude.{ℕ, ◌≡◌, ◌≢◌, refl, sym, ◌∙◌, List, [], ◌∷◌, ◌++◌, All, none, some}
use librtipc.Lfmpscq.{Node}

-- From node `h` the list goes on through `xs` and ends.
abbrev pub IsChain : (ℕ → Node) → ℕ → List ℕ → Type 0
IsChain nodes h [] = (nodes h).next ≡ none
IsChain nodes h (x ∷ xs) = ((nodes h).next ≡ some x) × IsChain nodes x xs

abbrev pub last_of : ℕ → List ℕ → ℕ
last_of h [] = h
last_of h (x ∷ xs) = last_of x xs

abbrev pub Distinct : List ℕ → Type 0
Distinct [] = Unit
Distinct (x ∷ xs) = All (λ y. y ≢ x) xs × Distinct xs

-- A chain depends only on its own nodes.
pub IsChain-congr :
    (nodes nodes' : ℕ → Node) (h : ℕ) (xs : List ℕ)
    → All (λ k. (nodes' k).next ≡ (nodes k).next) (h ∷ xs)
    → IsChain nodes h xs
    → IsChain nodes' h xs
IsChain-congr nodes nodes' h [] same c = same.0 ∙ c
IsChain-congr nodes nodes' h (x ∷ xs) same c =
    (same.0 ∙ c.0, IsChain-congr nodes nodes' x xs same.1 c.1)

-- Linking a new node behind the last one makes the chain longer by that node.
pub IsChain-snoc :
    (nodes nodes' : ℕ → Node) (h k : ℕ) (xs : List ℕ)
    → IsChain nodes h xs
    → Distinct (h ∷ xs)
    → ((j : ℕ) → j ≢ last_of h xs → j ≢ k → (nodes' j).next ≡ (nodes j).next)
    → All (λ x. x ≢ k) (h ∷ xs)
    → (nodes' (last_of h xs)).next ≡ some k
    → (nodes' k).next ≡ none
    → IsChain nodes' h (xs ++ (k ∷ []))
IsChain-snoc nodes nodes' h k [] c d same fresh link end = (link, end)
IsChain-snoc nodes nodes' h k (x ∷ xs) c d same fresh link end = (
  same h (λ e. last-ne x xs d.0 (sym e)) fresh.0 ∙ c.0,
  IsChain-snoc nodes nodes' x k xs c.1 d.1 same fresh.1 link end,
)
  where
    last-ne : (y : ℕ) (ys : List ℕ) → All (λ z. z ≢ h) (y ∷ ys) → last_of y ys ≢ h
    last-ne y [] a = a.0
    last-ne y (z ∷ ys) a = last-ne z ys a.1

pub last_of-snoc : (h k : ℕ) (xs : List ℕ) → last_of h (xs ++ (k ∷ [])) ≡ k
last_of-snoc h k [] = refl
last_of-snoc h k (x ∷ xs) = last_of-snoc x k xs

pub IsChain-last :
    (nodes : ℕ → Node) (h : ℕ) (xs : List ℕ)
    → IsChain nodes h xs
    → (nodes (last_of h xs)).next ≡ none
IsChain-last nodes h [] c = c
IsChain-last nodes h (x ∷ xs) c = IsChain-last nodes x xs c.1

module _ {ℓ} {A : Type ℓ} where
  pub All-map {κ ν} :
      (P : A → Type κ) (Q : A → Type ν)
      → ((a : A) → P a → Q a)
      → (xs : List A) → All P xs
      → All Q xs
  All-map P Q f [] h = tt
  All-map P Q f (x ∷ xs) h = (f x h.0, All-map P Q f xs h.1)

  pub All-map2 {κ ν μ} :
      (P : A → Type κ) (Q : A → Type ν) (R : A → Type μ)
      → ((a : A) → P a → Q a → R a)
      → (xs : List A) → All P xs
      → All Q xs
      → All R xs
  All-map2 P Q R f [] h k = tt
  All-map2 P Q R f (x ∷ xs) h k = (f x h.0 k.0, All-map2 P Q R f xs h.1 k.1)

  pub All-snoc {κ} :
      (P : A → Type κ) (xs : List A) (x : A) → All P xs → P x → All P (xs ++ (x ∷ []))
  All-snoc P [] x h p = (p, tt)
  All-snoc P (y ∷ xs) x h p = (h.0, All-snoc P xs x h.1 p)

pub Distinct-snoc :
    (xs : List ℕ) (k : ℕ) → Distinct xs → All (λ x. x ≢ k) xs → Distinct (xs ++ (k ∷ []))
Distinct-snoc [] k d h = (tt, tt)
Distinct-snoc (x ∷ xs) k d h = (All-snoc _ xs k d.0 (λ e. h.0 (sym e)), Distinct-snoc xs k d.1 h.1)

pub All-last {ℓ} : (P : ℕ → Type ℓ) (h : ℕ) (xs : List ℕ) → All P (h ∷ xs) → P (last_of h xs)
All-last P h [] a = a.0
All-last P h (x ∷ xs) a = All-last P x xs a.1

-- What holds between all of `xs` and all of `ys` holds in either order.
pub All-swap {ℓ} :
    (R : ℕ → ℕ → Type ℓ) (xs ys : List ℕ)
    → All (λ x. All (R x) ys) xs
    → All (λ y. All (λ x. R x y) xs) ys
All-swap R xs [] h = tt
All-swap R xs (y ∷ ys) h =
    (All-map _ _ (λ x a. a.0) xs h, All-swap R xs ys (All-map _ _ (λ x a. a.1) xs h))

-- Taking an element out of the middle of a list
pub All-middle {ℓ} :
    (P : ℕ → Type ℓ) (xs : List ℕ) (r : ℕ) (ys : List ℕ) → All P (xs ++ (r ∷ ys)) → P r
All-middle P [] r ys a = a.0
All-middle P (x ∷ xs) r ys a = All-middle P xs r ys a.1

pub All-drop {ℓ} :
    (P : ℕ → Type ℓ) (xs : List ℕ) (r : ℕ) (ys : List ℕ) → All P (xs ++ (r ∷ ys)) → All P (xs ++ ys)
All-drop P [] r ys a = a.1
All-drop P (x ∷ xs) r ys a = (a.0, All-drop P xs r ys a.1)

pub Distinct-drop :
    (xs : List ℕ) (r : ℕ) (ys : List ℕ)
    → Distinct (xs ++ (r ∷ ys))
    → Distinct (xs ++ ys) × All (λ y. y ≢ r) (xs ++ ys)
Distinct-drop [] r ys d = (d.1, d.0)
Distinct-drop (x ∷ xs) r ys d =
    let rest = Distinct-drop xs r ys d.1 in
    ((All-drop _ xs r ys d.0, rest.0), ((λ e. All-middle (λ y. y ≢ x) xs r ys d.0 (sym e)), rest.1))
