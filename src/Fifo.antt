-- ===== src/Fifo.antt =====
-- What a queue promises: messages leave in the order in which they came, and at most `cap` are held.
use librtipc.Prelude.{ℕ, ◌==◌, if◌then◌else◌, List, [], ◌∷◌, ◌++◌, length, Option, none, some}
use librtipc.Status.{Status, ok, fail}

module _ {ℓ} {A : Type ℓ} where
  unfoldable pub put : ℕ → A → List A → Status × List A
  put cap x xs = if length xs == cap then (fail, xs) else (ok, xs ++ (x ∷ []))

  unfoldable pub take : List A → Option A × List A
  take [] = (none, [])
  take (x ∷ xs) = (some x, xs)
