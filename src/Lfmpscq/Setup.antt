-- ===== src/Lfmpscq/Setup.antt =====
-- What `lfmpscq_get` of src/lfmpscq.c sets up.
use librtipc.Prelude.{
  ℕ, zero, suc, ◌+◌, ◌-◌, ◌<◌, ◌≡◌, refl, arith, [], none, update, if◌then◌else◌, leb, ltb, ◌&&◌,
}
use librtipc.Lfmpscq.{Node, Segment, clear_nodes, setup}
use librtipc.Lfmpscq.Refine.{Inv}

pub clear_nodes-at :
    (n i : ℕ) (nodes : ℕ → Node) (k : ℕ)
    → clear_nodes n i nodes k
      ≡ (if leb i k && ltb k (i + n) then record { used = 0; next = none } else nodes k)
unfolding clear_nodes
clear_nodes-at zero i nodes k = ground arith
clear_nodes-at (suc n) i nodes k =
    ground (arith, clear_nodes-at n (i + 1) (update nodes i (record { used = 0; next = none })) k)

-- A segment that has just been set up, and a process that has retired nothing, are in order and hold no
-- message; slot 0 is in use, and each other slot is free, whatever the memory held before.
pub setup-Inv :
    (max_user num_slots search : ℕ) (s : Segment)
    → Inv (setup max_user num_slots s) (record { retired = []; search = search }) []
      × ((k : ℕ) → 0 < k → k < num_slots → ((setup max_user num_slots s).nodes k).used ≡ 0)
unfolding setup
setup-Inv max_user num_slots search s = (
  record {
    chain = ground (arith, at_zero);
    last = refl;
    distinct = (tt, tt);
    in_use = (ground (arith, at_zero), tt);
    retired_in_use = tt;
    apart = tt;
  },
  λ k lo hi. ground (arith, clear_nodes-at (num_slots - 1) 1 dummy k),
)
  where
    dummy : ℕ → Node
    dummy = update s.nodes 0 (record { used = 1; next = none })

    at_zero : clear_nodes (num_slots - 1) 1 dummy 0 ≡ dummy 0
    at_zero = ground (arith, clear_nodes-at (num_slots - 1) 1 dummy 0)
