-- ===== src/Ring.antt =====
-- Index arithmetic of a ring of `n` slots with a first used slot and a next free slot, as
-- src/spscq.c and src/wfmpscq.c write it: `(i + 1) % n` is the index after `i`, and the slots from
-- `head` up to `next`, round the end, are in use.
use native.Mathlib.Nat.{mod-eq_of_lt, mod-eq-sub-mod}
use mathlib.Core.Path.{subst}
use librtipc.Prelude.{
  ℕ, zero, suc, ◌+◌, ◌-◌, ◌%◌, ◌<◌, ◌≡◌, ◌≢◌, refl, ap, ◌∙◌, sym, List, [], ◌∷◌, ◌++◌, All, arith,
  ltb, dec_lt, if◌then◌else◌, map, map_congr, map-append, length, length-map, ◌==◌,
}

-- Below twice the modulus a remainder is the number, or the number less the modulus.
pub mod-wrap : (n a : ℕ) → a < n + n → a % n ≡ (if ltb a n then a else a - n)
mod-wrap n a h = elim (dec_lt a n) [
  | yes p ↦ ground (arith, mod-eq_of_lt p)
  | no p ↦ ground (
    arith,
    mod-eq-sub-mod {n = a} {m = n} (omega arith),
    mod-eq_of_lt {n = a - n} {m = n} (omega arith),
  )
]

abbrev pub after : ℕ → ℕ → ℕ
after n i = (i + 1) % n

pub after-eq : (n i : ℕ) → i < n → after n i ≡ (if suc i == n then 0 else suc i)
after-eq n i h = ground (arith, mod-wrap n (i + 1) (omega arith))

pub after-injective : (n i j : ℕ) → i < n → j < n → after n i ≡ after n j → i ≡ j
after-injective n i j h k e = ground (arith, after-eq n i h, after-eq n j k)

-- the number of used slots
unfoldable pub used : ℕ → ℕ → ℕ → ℕ
used n head next = if ltb next head then next + n - head else next - head

pub used-lt : (n head next : ℕ) → head < n → next < n → used n head next < n
unfolding used
used-lt n head next h k = ground arith

pub used_self : (n head : ℕ) → used n head head ≡ 0
unfolding used
used_self n head = ground arith

pub used-after :
    (n head next : ℕ)
    → head < n
    → next < n
    → after n next ≢ head
    → used n head (after n next) ≡ suc (used n head next)
unfolding used
used-after n head next h k e = ground (arith, after-eq n next k)

pub used-full :
    (n head next : ℕ) → head < n → next < n → after n next ≡ head → suc (used n head next) ≡ n
unfolding used
used-full n head next h k e = ground (arith, after-eq n next k)

pub used-ne :
    (n head next : ℕ)
    → head < n
    → next < n
    → head ≢ next
    → used n head next ≡ suc (used n (after n head) next)
unfolding used
used-ne n head next h k e = ground (arith, after-eq n head h)

-- the `k` indices from `i` on, going round at `n`
unfoldable pub slots_from : ℕ → ℕ → ℕ → List ℕ
slots_from n i zero = []
slots_from n i (suc k) = i ∷ slots_from n (after n i) k

-- the index `k` places after `i`
unfoldable pub place : ℕ → ℕ → ℕ → ℕ
place n i k = if ltb (i + k) n then i + k else i + k - n

place-after : (n i k : ℕ) → i < n → suc k < n → place n (after n i) k ≡ place n i (suc k)
unfolding place
place-after n i k h l = ground (arith, after-eq n i h)

pub after-lt : (n i : ℕ) → i < n → after n i < n
after-lt n i h = omega arith

-- One more slot in use is the slot at the end.
pub slots_from-suc :
    (n i k : ℕ) → i < n → k < n → slots_from n i (suc k) ≡ slots_from n i k ++ (place n i k ∷ [])
unfolding slots_from
slots_from-suc n i zero h l = unfold place in ground arith
slots_from-suc n i (suc k) h l =
    ap (λ r. i ∷ r)
      (slots_from-suc n (after n i) k (after-lt n i h) (omega arith)
        ∙ ap (λ p. slots_from n (after n i) k ++ (p ∷ [])) (place-after n i k h l))

-- The next free slot is where the used ones end.
pub place-used : (n head next : ℕ) → head < n → next < n → place n head (used n head next) ≡ next
unfolding place used
place-used n head next h k = ground arith

place-ne : (n i k : ℕ) → i < n → suc k < n → i ≢ place n i (suc k)
unfolding place
place-ne n i k h l = ground arith

-- The slot at the end is none of those in use.
pub slots_from-fresh : (n i k : ℕ) → i < n → k < n → All (λ s. s ≢ place n i k) (slots_from n i k)
unfolding slots_from
slots_from-fresh n i zero h l = tt
slots_from-fresh n i (suc k) h l = (
  place-ne n i k h l,
  subst (λ p. All (λ s. s ≢ p) (slots_from n (after n i) k)) (place-after n i k h l)
      (slots_from-fresh n (after n i) k (after-lt n i h) (omega arith)),
)

pub slots_from-lt : (n i k : ℕ) → i < n → All (λ s. s < n) (slots_from n i k)
unfolding slots_from
slots_from-lt n i zero h = tt
slots_from-lt n i (suc k) h = (h, slots_from-lt n (after n i) k (after-lt n i h))

pub length-slots_from : (n i k : ℕ) → length (slots_from n i k) ≡ k
unfolding slots_from
length-slots_from n i zero = refl
length-slots_from n i (suc k) = ap suc (length-slots_from n (after n i) k)

-- What the used slots hold, first used slot first.
unfoldable pub contents {ℓ} : {A : Type ℓ} → ℕ → (ℕ → A) → ℕ → ℕ → List A
contents n slot head next = map slot (slots_from n head (used n head next))

module _ {ℓ} {A : Type ℓ} (n : ℕ) (slot : ℕ → A) (head next : ℕ) where
  pub length-contents : length (contents n slot head next) ≡ used n head next
  unfolding contents
  length-contents =
      length-map slot (slots_from n head (used n head next))
      ∙ length-slots_from n head (used n head next)

  pub contents-empty : head ≡ next → contents n slot head next ≡ []
  unfolding contents slots_from
  contents-empty e = rw (e, used_self n next)

  -- A used slot at the front is the first of the contents.
  pub contents-front :
      head < n
      → next < n
      → head ≢ next
      → contents n slot head next ≡ slot head ∷ contents n slot (after n head) next
  unfolding contents slots_from
  contents-front h k e = rw (used-ne n head next h k e)

  -- The next free slot is not among the contents.
  pub contents-keep :
      (slot' : ℕ → A)
      → head < n
      → next < n
      → ((i : ℕ) → i ≢ next → slot' i ≡ slot i)
      → contents n slot' head next ≡ contents n slot head next
  unfolding contents
  contents-keep slot' h k same =
      map_congr slot' slot _ (others _ (slots_from-fresh n head (used n head next) h below))
    where
      below : used n head next < n
      below = used-lt n head next h k

      others :
          (xs : List ℕ)
          → All (λ s. s ≢ place n head (used n head next)) xs
          → All (λ s. slot' s ≡ slot s) xs
      others [] a = tt
      others (x ∷ xs) a = (same x (λ q. a.0 (q ∙ sym (place-used n head next h k))), others xs a.1)

  -- Storing into the next free slot and moving `next` on appends what was stored.
  pub contents-store :
      (slot' : ℕ → A)
      → head < n
      → next < n
      → after n next ≢ head
      → ((i : ℕ) → i ≢ next → slot' i ≡ slot i)
      → contents n slot' head (after n next) ≡ contents n slot head next ++ (slot' next ∷ [])
  contents-store slot' h k e same =
      last ∙ ap (λ c. c ++ (slot' next ∷ [])) (contents-keep slot' h k same)
    where
      last : contents n slot' head (after n next) ≡ contents n slot' head next ++ (slot' next ∷ [])
      last =
          unfold contents in
          (ap (λ c. map slot' (slots_from n head c)) (used-after n head next h k e)
            ∙ ap (map slot') (slots_from-suc n head (used n head next) h (used-lt n head next h k))
            ∙ map-append slot' (slots_from n head (used n head next)) _
            ∙ ap (λ i. map slot' (slots_from n head (used n head next)) ++ (slot' i ∷ []))
                (place-used n head next h k))

  -- Only slots of the ring are in use.
  pub contents-congr :
      (slot' : ℕ → A)
      → head < n
      → ((i : ℕ) → i < n → slot' i ≡ slot i)
      → contents n slot' head next ≡ contents n slot head next
  unfolding contents
  contents-congr slot' h same =
      map_congr slot' slot _ (agree _ (slots_from-lt n head (used n head next) h))
    where
      agree : (xs : List ℕ) → All (λ i. i < n) xs → All (λ i. slot' i ≡ slot i) xs
      agree [] a = tt
      agree (x ∷ xs) a = (same x a.0, agree xs a.1)
