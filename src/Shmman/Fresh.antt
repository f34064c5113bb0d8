-- ===== src/Shmman/Fresh.antt =====
-- What `shmman_initialize` of system/linux/src/shmman.c makes of memory that is new, that is all zero.
use librtipc.Prelude.{ℕ, zero, suc, ◌+◌, ◌≡◌, refl, arith, update}
use librtipc.Shmman.{SegEntry, Tables, max_shmseg}
use librtipc.Shmman.Startup.{clear_segs, init_tables}
use librtipc.Shmman.Layout.{Inv}

clear_segs-zero :
    (rounds i : ℕ) (segs : ℕ → SegEntry) (k : ℕ)
    → (segs k).init ≡ 0
    → (clear_segs rounds i segs k).init ≡ 0
unfolding clear_segs
clear_segs-zero zero i segs k e = e
clear_segs-zero (suc n) i segs k e =
    clear_segs-zero n (i + 1) (update segs i (record (segs i) { init = 0 })) k (ground arith)

-- Memory as a new System V segment has it
abbrev pub zeros : Tables
zeros = record {
  lock = 0;
  initflag = 0;
  sysv_seg_cnt = 0;
  shmseg_cnt = 0;
  key_cnt = 0;
  sysvs = λ v. record { sysv_key = 0; size = 0; offset = 0 };
  segs = λ k. record { init = 0; sysv_table_idx = 0; offset = 0; size = 0; cnt = 0 };
}

-- The tables that `shmman_initialize` sets up in new memory are well formed, and no segment exists.
pub init_tables-zeros : Inv (init_tables zeros) × ((k : ℕ) → ((init_tables zeros).segs k).init ≡ 0)
unfolding init_tables
init_tables-zeros = (
  record {
    room = λ v. omega arith;
    small = λ v. omega arith;
    room_aligned = λ v. refl;
    unused = λ v le. refl;
    home = λ k i. absurd (omega (arith, i, none_yet k));
    inside = λ k i. absurd (omega (arith, i, none_yet k));
    aligned = λ k i. absurd (omega (arith, i, none_yet k));
    apart = λ j k ne i i' same. absurd (omega (arith, i, none_yet j));
  },
  none_yet,
)
  where
    none_yet : (k : ℕ) → (clear_segs max_shmseg 0 zeros.segs k).init ≡ 0
    none_yet k = clear_segs-zero max_shmseg 0 zeros.segs k refl
