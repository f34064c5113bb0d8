-- ===== src/Flag/Waiting.antt =====
-- What a process that waits on a flag of src/flag.c sees.
use librtipc.Prelude.{ℕ, ◌≡◌, ◌≢◌, ◌↔◌, refl, arith, none, some, List, [], ◌∷◌, ◌++◌, All}
use librtipc.Flag.{FlagData, set, reset, getval, spin}

-- `flag_spin` for 1 runs over every state in which the flag was last reset, and ends at the first state
-- in which it was last set.
pub spin-set :
    (d : FlagData) (before rest : List FlagData)
    → All (λ x. x ≡ reset d) before
    → spin 1 (before ++ (set d ∷ rest)) ≡ some rest
unfolding spin set reset
spin-set d [] rest h = refl
spin-set d (x ∷ before) rest h = rw h.0 (spin-set d before rest h.1)

-- `flag_spin` for 0 runs over every state in which the flag was last set, and ends at the first state
-- in which it was last reset.
pub spin-reset :
    (d : FlagData) (before rest : List FlagData)
    → All (λ x. x ≡ set d) before
    → spin 0 (before ++ (reset d ∷ rest)) ≡ some rest
unfolding spin set reset
spin-reset d [] rest h = refl
spin-reset d (x ∷ before) rest h = rw h.0 (spin-reset d before rest h.1)

-- `flag_spin` is still running exactly if no test has seen the value.
pub spin-none :
    (val : ℕ) (seen : List FlagData) → (spin val seen ≡ none) ↔ All (λ d. getval d ≢ val) seen
unfolding spin
spin-none val [] = (λ e. tt, λ h. refl)
spin-none val (d ∷ rest) =
    let ih = spin-none val rest in
    (λ e. (ground (arith), ih.0 (ground (arith))), λ h. ground (arith, ih.1 h.1))
