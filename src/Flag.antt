-- ===== src/Flag.antt =====
-- src/flag.c and include/flag.h: a flag in shared memory.
pub mod Waiting
use librtipc.Prelude.{ℕ, Option, none, some, List, [], ◌∷◌, ◌==◌, if◌then◌else◌}
use librtipc.Status.{Status}
use librtipc.Object.{Segments, World, get as get_object, obtain, release as release_object}

-- `flag_data_t` after its fields `lock` and `init`, which are those of `Object.Shared`
pub record FlagData : Type 0 where
  pub f : ℕ  -- unsigned char

-- `flag_d_t`; `f` is the address of the data.
pub record Descriptor : Type 0 where
  pub obj_id : ℕ
  pub f : ℕ

unfoldable pub setup : FlagData → FlagData
setup d = record { f = 0 }

-- `flag_get`; `sizeof(flag_data_t)` is 12.
unfoldable pub get :
    (S : Segments)
    → ℕ
    → Descriptor
    → (obj_id : ℕ) → World S FlagData
    → Option (Status × Descriptor × World S FlagData)
unfolding setup get_object obtain
get S fuel fd obj_id w =
    let fd' : Descriptor = record fd { obj_id = obj_id } in
    obtain S fd' (λ a. record fd' { f = a }) (get_object S fuel setup 12 obj_id w)

-- `flag_set`
unfoldable pub set : FlagData → FlagData
set d = record { f = 1 }

-- `flag_reset`
unfoldable pub reset : FlagData → FlagData
reset d = record { f = 0 }

-- `flag_getval`
unfoldable pub getval : FlagData → ℕ
getval d = d.f

-- `flag_spin`, over what the other processes make of the flag: the data at each test of the loop. The
-- result is what follows the last test; `none` while the loop still runs.
unfoldable pub spin : ℕ → List FlagData → Option (List FlagData)
unfolding getval
spin val [] = none
spin val (d ∷ rest) = if getval d == val then some rest else spin val rest

-- `flag_release`
unfoldable pub release : (S : Segments) → Descriptor → World S FlagData → Status × World S FlagData
unfolding release_object
release S fd w = release_object S fd.obj_id w
