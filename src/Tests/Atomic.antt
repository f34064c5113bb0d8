-- ===== src/Tests/Atomic.antt =====
-- The atomic operations of arch/x86/src/atomic.c and arch/arm/src/atomic.c.
use librtipc.Prelude.{
  inl, ◌==◌, ℕ, ◌+◌, ◌/◌, ◌%◌, ◌^◌, ◌-◌, ◌≡◌, ◌≢◌, ◌↔◌, refl, arith, true, false, List, [], ◌∷◌,
  some,
}
use librtipc.Atomic.{low_word, cas32}
use librtipc.Atomic.Arm
use mathlib.Core.Option
use librtipc.Atomic.Arm.{Attempt, sum_words}
use librtipc.Atomic.Laws.{deciding, cas32-deciding, cas64-ne, sum_words_iff, cas8-extended}

-- From 5 to 7, at the second attempt
abbrev tries : List Attempt
tries = record { loaded = 5; stores = false } ∷ record { loaded = 5; stores = true } ∷ []

stores_five : Arm.cas64 5 7 tries ≡ some (1, 5)
unfolding Arm.cas64
stores_five = refl

cas64-ne_example : ◌≢◌ {A = ℕ} 5 7
cas64-ne_example = cas64-ne 5 7 5 tries (omega arith) (inl stores_five)

sum_words_iff_example :
    (sum_words (λ v. 0) 1 (2 ^ 32 - 1) ≡ (2 ^ 32 - 1 + 1) % 2 ^ 64)
    ↔ (0 ≡ (low_word (2 ^ 32 - 1) + low_word 1) / 2 ^ 32)
sum_words_iff_example =
    sum_words_iff (λ v. 0) 1 (2 ^ 32 - 1) (omega arith) (omega arith) (omega arith)

cas32-deciding_example :
    Arm.cas32 5 7 tries ≡ Option.map (λ v. cas32 v 5 7) (deciding (λ v. v == 5) tries)
cas32-deciding_example = cas32-deciding 5 7 tries

-- The old value is -1, and the byte is -1.
cas8-extended_example :
    (Arm.cas8 (λ v. 2 ^ 32 - 2 ^ 8 + v) 255 7 (record { loaded = 255; stores = true } ∷ [])
      ≢ some (1, 7))
    × (Arm.cas16 (λ v. 2 ^ 32 - 2 ^ 8 + v) 255 7 (record { loaded = 255; stores = true } ∷ [])
        ≢ some (1, 7))
cas8-extended_example =
    cas8-extended (λ v. 2 ^ 32 - 2 ^ 8 + v) 255 7 7 (record { loaded = 255; stores = true } ∷ [])
      (omega arith, tt) (omega arith)
