-- ===== src/Atomic/Arm.antt =====
-- arch/arm/src/atomic.c: the same operations by exclusive loads and stores, which are retried. What
-- the processor and the others do is a list of attempts: what the exclusive load reads, and whether
-- the exclusive store goes through (then nothing came between). `none`: the attempts are used up and
-- the loop still runs.
use librtipc.Prelude.{
  ℕ, ◌+◌, ◌%◌, ◌^◌, Bool, ◌==◌, if◌then◌else◌, ◌&&◌, Option, none, some, List, [], ◌∷◌,
}
use librtipc.Atomic.{low_word, high_word, join_words}

pub record Attempt : Type 0 where
  pub loaded : ℕ
  pub stores : Bool

-- `1: ldrex; teq; bne 2f; strex; teq; beq 1b; mov #1; 2:` where `same` is the test of the loaded
-- value and `new` what is stored
unfoldable pub cas_loop : (ℕ → Bool) → ℕ → List Attempt → Option (ℕ × ℕ)
cas_loop same new [] = none
cas_loop same new (a ∷ rest) =
    if same a.loaded
    then (if a.stores then some (1, new) else cas_loop same new rest)
    else some (0, a.loaded)

-- The narrow words are loaded zero-extended, as the unsigned arguments are passed.
unfoldable pub cas8u : ℕ → ℕ → List Attempt → Option (ℕ × ℕ)
unfolding cas_loop
cas8u old new = cas_loop (λ v. v == old) new

-- A signed argument is passed as `extend` says, which depends on how it is called; the load is
-- zero-extended as well.
unfoldable pub cas8 : (extend : ℕ → ℕ) → ℕ → ℕ → List Attempt → Option (ℕ × ℕ)
unfolding cas_loop
cas8 extend old new = cas_loop (λ v. v == extend old) new

unfoldable pub cas16 : (extend : ℕ → ℕ) → ℕ → ℕ → List Attempt → Option (ℕ × ℕ)
unfolding cas_loop
cas16 extend old new = cas_loop (λ v. v == extend old) new

unfoldable pub cas16u : ℕ → ℕ → List Attempt → Option (ℕ × ℕ)
unfolding cas_loop
cas16u old new = cas_loop (λ v. v == old) new

unfoldable pub cas32 : ℕ → ℕ → List Attempt → Option (ℕ × ℕ)
unfolding cas_loop
cas32 old new = cas_loop (λ v. v == old) new

unfoldable pub cas32u : ℕ → ℕ → List Attempt → Option (ℕ × ℕ)
unfolding cas_loop
cas32u old new = cas_loop (λ v. v == old) new

-- The operand `newval0` of the assembly is the low word of `oldval`, not of `newval`.
unfoldable pub cas64 : ℕ → ℕ → List Attempt → Option (ℕ × ℕ)
unfolding cas_loop
cas64 old new =
    cas_loop (λ v. low_word v == low_word old && high_word v == high_word old)
      (join_words (low_word old) (high_word new))

-- `atomic_cas64u` has the same operands.
unfoldable pub cas64u : ℕ → ℕ → List Attempt → Option (ℕ × ℕ)
unfolding cas_loop
cas64u old new =
    cas_loop (λ v. low_word v == low_word old && high_word v == high_word old)
      (join_words (low_word old) (high_word new))

-- `1: ldrex; add; strex; teq; beq 1b` where `sum` is what is stored
unfoldable pub faa_loop : (ℕ → ℕ) → List Attempt → Option (ℕ × ℕ)
faa_loop sum [] = none
faa_loop sum (a ∷ rest) = if a.stores then some (a.loaded, sum a.loaded) else faa_loop sum rest

unfoldable pub faa8 : ℕ → List Attempt → Option (ℕ × ℕ)
unfolding faa_loop
faa8 val = faa_loop (λ v. (v + val) % 2 ^ 8)

unfoldable pub faa8u : ℕ → List Attempt → Option (ℕ × ℕ)
unfolding faa_loop
faa8u val = faa_loop (λ v. (v + val) % 2 ^ 8)

unfoldable pub faa16 : ℕ → List Attempt → Option (ℕ × ℕ)
unfolding faa_loop
faa16 val = faa_loop (λ v. (v + val) % 2 ^ 16)

unfoldable pub faa16u : ℕ → List Attempt → Option (ℕ × ℕ)
unfolding faa_loop
faa16u val = faa_loop (λ v. (v + val) % 2 ^ 16)

unfoldable pub faa32 : ℕ → List Attempt → Option (ℕ × ℕ)
unfolding faa_loop
faa32 val = faa_loop (λ v. (v + val) % 2 ^ 32)

unfoldable pub faa32u : ℕ → List Attempt → Option (ℕ × ℕ)
unfolding faa_loop
faa32u val = faa_loop (λ v. (v + val) % 2 ^ 32)

-- `add` of the low words sets no flag, so `adc` of the high words adds the carry flag as it was
-- before: `carry` gives it for each value that is loaded.
abbrev pub sum_words : (ℕ → ℕ) → ℕ → ℕ → ℕ
sum_words carry val v =
    join_words ((low_word v + low_word val) % 2 ^ 32)
      ((high_word v + high_word val + carry v) % 2 ^ 32)

unfoldable pub faa64 : (ℕ → ℕ) → ℕ → List Attempt → Option (ℕ × ℕ)
unfolding faa_loop
faa64 carry val = faa_loop (sum_words carry val)

unfoldable pub faa64u : (ℕ → ℕ) → ℕ → List Attempt → Option (ℕ × ℕ)
unfolding faa_loop
faa64u carry val = faa_loop (sum_words carry val)
