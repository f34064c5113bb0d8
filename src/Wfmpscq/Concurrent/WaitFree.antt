-- ===== src/Wfmpscq/Concurrent/WaitFree.antt =====
-- How many steps of its own a call of src/wfmpscq.c still takes, whatever the other processes do.
use librtipc.Prelude.{ℕ, suc, ◌+◌, ◌-◌, ◌≤◌, ◌≡◌, ◌≢◌}
use librtipc.Wfmpscq.Concurrent.{Producer, System}
use librtipc.Wfmpscq.Concurrent.Steps.{Move, Turn}

-- The steps that are left of `wfmpscq_enqueue` for messages of `size` bytes
abbrev pub put_left : ℕ → Producer → ℕ
put_left size Producer.idle = 0
put_left size (Producer.counting payload) = size + 4
put_left size (Producer.copying payload id k) = (size - k) + 3
put_left size (Producer.stamping payload id) = 2
put_left size (Producer.publishing payload id) = 1

abbrev Within : ℕ → Producer → Type 0
Within size (Producer.copying payload id k) = k ≤ size
Within size _ = Unit

module _ (num_slots size num_writer : ℕ) where
  -- The exclusive store of `atomic_faa64u` on ARM fails, and it tries again.
  abbrev pub IsRetry :
      {s : System} {i : ℕ} {t : System} → Move num_slots size num_writer s i t → Type 0
  IsRetry (Move.count_again payload e) = Unit {0}
  IsRetry _ = ⊥

  -- What producer `i` can do in the middle of a call, and what that and the steps of others change.
  pub record Proceeds (s : System) (i : ℕ) : Type 0 where
    pub next : System
    pub moves : Move num_slots size num_writer s i next
    pub own_moves :
        (t : System)
        → (m : Move num_slots size num_writer s i t) → ¬ IsRetry m
        → suc (put_left size (t.producers i)) ≡ put_left size (s.producers i)
    pub retries : (t : System) (m : Move num_slots size num_writer s i t) → IsRetry m → t ≡ s
    pub other_moves :
        (t : System) (j : ℕ)
        → j ≢ i
        → Move num_slots size num_writer s j t
        → t.producers i ≡ s.producers i
    pub other_turns :
        (t : System) → Turn num_slots size num_writer s t → t.producers i ≡ s.producers i
    pub bounded : put_left size (s.producers i) ≤ size + 4
