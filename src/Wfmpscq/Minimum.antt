-- ===== src/Wfmpscq/Minimum.antt =====
-- The search of src/wfmpscq.c for the ring with the least id.
use native.Mathlib.Nat.{le_trans}
use librtipc.Prelude.{
  ℕ, zero, suc, ◌+◌, ◌≤◌, ◌<◌, ◌≡◌, ◌≢◌, ◌⊎◌, inl, inr, refl, sym, arith, Option, some, Bool-cases,
  true, false, ℕ_discrete,
}
use librtipc.Wfmpscq.{Descriptor, Segment, head_id, improves, find_min}

module _ (qd : Descriptor) (s : Segment) where
  -- Ring `j` holds a message.
  abbrev pub Holds : ℕ → Type 0
  Holds j = (s.queues j).head ≢ (s.queues j).tail

  -- What the loop has found in the rings from `i` to `i + k`.
  pub record Found (k i min_id : ℕ) (queue_id : Option ℕ) (out : ℕ × Option ℕ) : Type 0 where
    pub least : out.0 ≤ min_id
    pub below : (j : ℕ) → i ≤ j → j < i + k → Holds j → out.0 ≤ head_id qd s j
    pub from :
        ((out.0 ≡ min_id) × (out.1 ≡ queue_id))
        ⊎ ((j : ℕ) × (j < i + k)
            × (out.1 ≡ some j)
            × Holds j
            × (head_id qd s j ≡ out.0)
            × (out.0 < min_id))

  taken :
      (k i min_id : ℕ) (queue_id : Option ℕ) (out : ℕ × Option ℕ)
      → Holds i
      → head_id qd s i < min_id
      → Found k (i + 1) (head_id qd s i) (some i) out
      → Found (suc k) i min_id queue_id out
  taken k i min_id queue_id out held lt f = record {
    least = omega (arith, f.least);
    below = λ j h l m. elim (ℕ_discrete i j) [
      | yes e ↦ rw (← e) f.least
      | no ne ↦ f.below j (omega arith) (omega arith) m
    ];
    from = elim f.from [
      | inl (a, b) ↦ inr (i, omega arith, b, held, sym a, omega arith)
      | inr (j, a, b, c, d, e) ↦ inr (j, omega arith, b, c, d, omega arith)
    ];
  }

  passed :
      (k i min_id : ℕ) (queue_id : Option ℕ) (out : ℕ × Option ℕ)
      → (Holds i → min_id ≤ head_id qd s i)
      → Found k (i + 1) min_id queue_id out
      → Found (suc k) i min_id queue_id out
  passed k i min_id queue_id out large f = record {
    least = f.least;
    below = λ j h l m. elim (ℕ_discrete i j) [
      | yes e ↦ rw (← e) (le_trans f.least (large (rw e m)))
      | no ne ↦ f.below j (omega arith) (omega arith) m
    ];
    from = elim f.from [
      | inl (a, b) ↦ inl (a, b)
      | inr (j, a, b, c, d, e) ↦ inr (j, omega arith, b, c, d, e)
    ];
  }

  improves-true :
      (i min_id : ℕ) → improves qd s i min_id ≡ true → Holds i × (head_id qd s i < min_id)
  improves-true i min_id h = (ground arith, ground arith)

  improves-false :
      (i min_id : ℕ) → improves qd s i min_id ≡ false → Holds i → min_id ≤ head_id qd s i
  improves-false i min_id h m = ground arith

  -- What the loop finds: no ring that holds a message has a lesser id than the result, and the
  -- result is that of a ring that holds one, or what the loop began with.
  pub find_min-Found :
      (k i min_id : ℕ) (queue_id : Option ℕ)
      → Found k i min_id queue_id (find_min qd s k i min_id queue_id)
  unfolding find_min
  find_min-Found zero i min_id queue_id = record {
    least = omega arith;
    below = λ j h l m. absurd (omega arith);
    from = inl (refl, refl);
  }
  find_min-Found (suc k) i min_id queue_id = elim (Bool-cases (improves qd s i min_id)) [
    | inl better ↦
        let (held, lt) = improves-true i min_id better in
        rw better
          (taken k i min_id queue_id _ held lt (find_min-Found k (i + 1) (head_id qd s i) (some i)))
    | inr worse ↦ rw worse (
        passed k i min_id queue_id _ (improves-false i min_id worse)
          (find_min-Found k (i + 1) min_id queue_id))
  ]
