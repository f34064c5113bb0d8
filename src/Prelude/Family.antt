-- ===== src/Prelude/Family.antt =====
-- Functions on the native numbers: the update at one argument, and the sum of the first values.
use Prim.Native.Nat.{ℕ, zero, suc, ◌+◌, ◌≤◌, ◌<◌}
use mathlib.Core.Path.{◌≡◌, refl, ap₂}
use mathlib.Core.Logic.{◌≢◌}
use native.Mathlib.Decide.{ℕ_discrete}
use native.Mathlib.Omega.{arith}
use librtipc.Prelude.Tests.{◌==◌, if◌then◌else◌}

abbrev pub update {ℓ} : {A : Type ℓ} → (ℕ → A) → ℕ → A → ℕ → A
update f i a j = if i == j then a else f j

module _ {ℓ} {A : Type ℓ} (f : ℕ → A) (i : ℕ) (a : A) where
  pub update_self : update f i a i ≡ a
  update_self = ground arith

  pub update-ne : (j : ℕ) → i ≢ j → update f i a j ≡ f j
  update-ne j h = ground arith

-- g 0 + … + g (k - 1)
unfoldable pub sum_below : (ℕ → ℕ) → ℕ → ℕ
sum_below g zero = 0
sum_below g (suc k) = g k + sum_below g k

sum_below-congr :
    (g g' : ℕ → ℕ) (k : ℕ) → ((j : ℕ) → j < k → g j ≡ g' j) → sum_below g k ≡ sum_below g' k
unfolding sum_below
sum_below-congr g g' zero same = refl
sum_below-congr g g' (suc k) same =
    ap₂ ◌+◌ (same k (omega arith)) (sum_below-congr g g' k (λ j l. same j (omega arith)))

-- Two sums that differ in one summand differ by it.
sum_below-differ :
    (g g' : ℕ → ℕ) (i : ℕ)
    → ((j : ℕ) → j ≢ i → g j ≡ g' j)
    → (k : ℕ) → i < k
    → sum_below g k + g' i ≡ sum_below g' k + g i
unfolding sum_below
sum_below-differ g g' i same zero l = absurd (omega arith)
sum_below-differ g g' i same (suc k) l = elim (ℕ_discrete k i) [
  | yes at_last ↦
      let rest = sum_below-congr g g' k (λ j b. same j (omega arith)) in ground (arith, rest)
  | no later ↦ omega (arith, same k later, sum_below-differ g g' i same k (omega arith))
]

summand-le : (g : ℕ → ℕ) (k i : ℕ) → i < k → g i ≤ sum_below g k
unfolding sum_below
summand-le g zero i l = absurd (omega arith)
summand-le g (suc k) i l = elim (ℕ_discrete k i) [
  | yes at_last ↦ ground arith
  | no later ↦ omega (arith, summand-le g k i (omega arith))
]

module _ {ℓ} {A : Type ℓ} (w : A → ℕ) where
  -- The weights of the first `k` members of a family
  abbrev pub total : ℕ → (ℕ → A) → ℕ
  total k f = sum_below (λ i. w (f i)) k

  -- The sum changes by the weights of the member that is replaced.
  pub total-update :
      (k : ℕ) (f : ℕ → A) (i : ℕ) (a : A)
      → i < k
      → total k (update f i a) + w (f i) ≡ total k f + w a
  total-update k f i a l = ground (
    arith,
    sum_below-differ (λ j. w (update f i a j)) (λ j. w (f j)) i (λ j ne. ground arith) k l,
  )

  pub le-total : (k : ℕ) (f : ℕ → A) (i : ℕ) → i < k → w (f i) ≤ total k f
  le-total k f i l = summand-le (λ j. w (f j)) k i l

  pub total-const : (k : ℕ) (a : A) → w a ≡ 0 → total k (λ _. a) ≡ 0
  unfolding sum_below
  total-const zero a e = refl
  total-const (suc k) a e = omega (arith, e, total-const k a e)
