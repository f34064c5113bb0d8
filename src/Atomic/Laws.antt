-- ===== src/Atomic/Laws.antt =====
-- The atomic operations of arch/x86/src/atomic.c and arch/arm/src/atomic.c compared.
use mathlib.Core.Option
use librtipc.Prelude.{
  ◌⊎◌, inl, inr, sym, ◌∙◌, ℕ, ◌+◌, ◌/◌, ◌%◌, ◌^◌, ◌<◌, ◌≤◌, All, ◌≡◌, ◌≢◌, refl, Bool, true, false,
  ◌==◌, if◌then◌else◌, ◌&&◌, Option, none, some, List, [], ◌∷◌, arith, ◌↔◌,
}
use librtipc.Atomic.{cmpxchg, low_word, high_word, join_words, cas32, cas64, cas64u, faa32}
use librtipc.Atomic.Arm
use librtipc.Atomic.Arm.{Attempt, cas_loop, faa_loop, sum_words}

-- The attempt with which a compare-and-swap loop ends, if it ends: the first that loads another
-- value or stores.
unfoldable pub deciding : (ℕ → Bool) → List Attempt → Option ℕ
deciding same [] = none
deciding same (a ∷ rest) =
    if same a.loaded && (if a.stores then false else true)
    then deciding same rest
    else some a.loaded

-- The exclusive-store loop of `atomic_cas32` on ARM does what `lock cmpxchg` does to the word as
-- the deciding attempt finds it, and runs on if there is none: if each attempt loads the old value
-- and fails to store.
pub cas32-deciding :
    (old new : ℕ) (tries : List Attempt)
    → Arm.cas32 old new tries ≡ Option.map (λ v. cas32 v old new) (deciding (λ v. v == old) tries)
unfolding Arm.cas32 deciding cas32
cas32-deciding old new [] = refl
cas32-deciding old new (a ∷ rest) = ground (arith, cas32-deciding old new rest)

-- The first attempt whose store goes through.
unfoldable pub storing : List Attempt → Option ℕ
storing [] = none
storing (a ∷ rest) = if a.stores then some a.loaded else storing rest

-- `atomic_faa32` on ARM does what `lock xadd` does to the word as the first successful store finds
-- it, and runs on while no store succeeds.
pub faa32-storing :
    (val : ℕ) (tries : List Attempt)
    → Arm.faa32 val tries ≡ Option.map (λ v. faa32 v val) (storing tries)
unfolding Arm.faa32 storing faa32
faa32-storing val [] = refl
faa32-storing val (a ∷ rest) = ground (arith, faa32-storing val rest)

-- On x86 the 64-bit compare-and-swap, which passes its values in halves, compares and stores the
-- whole words, for values below 2 ^ 64.
pub cas64-cmpxchg :
    (mem old new : ℕ)
    → old < 2 ^ 64
    → new < 2 ^ 64
    → (cas64 mem old new ≡ cmpxchg mem old new) × (cas64u mem old new ≡ cmpxchg mem old new)
unfolding cas64 cas64u
cas64-cmpxchg mem old new h k = ground (arith, x old h, x new k)
  where
    x : (a : ℕ) → a < 2 ^ 64 → join_words (low_word a) (high_word a) ≡ a
    x a l = omega arith

-- A loop that succeeds leaves the value that it stores.
cas_loop-stores :
    (same : ℕ → Bool) (new v : ℕ) (tries : List Attempt)
    → cas_loop same new tries ≡ some (1, v)
    → v ≡ new
unfolding cas_loop
cas_loop-stores same new v [] e = absurd (cc)
cas_loop-stores same new v (a ∷ rest) e = ground (arith, cas_loop-stores same new v rest)

mixed-ne :
    (old new : ℕ) → low_word old ≢ low_word new → join_words (low_word old) (high_word new) ≢ new
mixed-ne old new ne e = ne (omega (arith, e))

-- On ARM, if the low words of the old and the new value differ, a 64-bit compare-and-swap that
-- succeeds, signed or unsigned, does not store the new value.
pub cas64-ne :
    (old new v : ℕ) (tries : List Attempt)
    → low_word old ≢ low_word new
    → (Arm.cas64 old new tries ≡ some (1, v)) ⊎ (Arm.cas64u old new tries ≡ some (1, v))
    → v ≢ new
unfolding Arm.cas64 Arm.cas64u
cas64-ne old new v tries ne (inl e) q =
    mixed-ne old new ne (sym (cas_loop-stores _ _ v tries e) ∙ q)
cas64-ne old new v tries ne (inr e) q =
    mixed-ne old new ne (sym (cas_loop-stores _ _ v tries e) ∙ q)

-- On ARM, for values below 2 ^ 64, the 64-bit sum that is stored is right exactly when the carry
-- flag, which the addition of the low words does not set, happens to be their carry.
pub sum_words_iff :
    (carry : ℕ → ℕ) (val v : ℕ)
    → v < 2 ^ 64
    → val < 2 ^ 64
    → carry v < 2
    → (sum_words carry val v ≡ (v + val) % 2 ^ 64)
      ↔ (carry v ≡ (low_word v + low_word val) / 2 ^ 32)
sum_words_iff carry val v h k l = (λ e. omega arith, λ e. omega arith)

-- A loop in which no attempt loads the value that it compares with does not succeed.
cas_loop-never :
    (word new v : ℕ) (tries : List Attempt)
    → All (λ a. a.loaded < 2 ^ 16) tries
    → 2 ^ 16 ≤ word
    → cas_loop (λ w. w == word) new tries ≢ some (1, v)
unfolding cas_loop
cas_loop-never word new v [] low high e = absurd (cc)
cas_loop-never word new v (a ∷ rest) low high e =
    let other : a.loaded ≢ word = λ q. omega (arith, low.0) in absurd (ground (arith, e, other))

-- On ARM, if the register of the old value holds 2 ^ 16 or more, as that of a negative value does that
-- is passed sign-extended, then no 8-bit or 16-bit signed compare-and-swap succeeds, whatever words
-- below 2 ^ 16 are loaded.
pub cas8-extended :
    (extend : ℕ → ℕ) (old new v : ℕ) (tries : List Attempt)
    → All (λ a. a.loaded < 2 ^ 16) tries
    → 2 ^ 16 ≤ extend old
    → (Arm.cas8 extend old new tries ≢ some (1, v)) × (Arm.cas16 extend old new tries ≢ some (1, v))
unfolding Arm.cas8 Arm.cas16
cas8-extended extend old new v tries low high = (
  cas_loop-never (extend old) new v tries low high,
  cas_loop-never (extend old) new v tries low high,
)
