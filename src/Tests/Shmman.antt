-- ===== src/Tests/Shmman.antt =====
-- The manager of system/linux/src/shmman.c over a Linux that hands out ids and addresses in order, and
-- over one that refuses.
use librtipc.Prelude.{ℕ, ◌+◌, ◌*◌, ◌<◌, ◌≡◌, refl, arith, none, some}
use librtipc.Status.{ok, fail}
use librtipc.Atomic.{cas32}
use librtipc.Shmman.{
  Linux, Tables, Manager, take_lock, create_shmseg, created, create_locked, aligned_size, find_room,
}
use librtipc.Shmman.Attach.{get_shmseg, got, get_created, connect_in, connect, result}
use librtipc.Shmman.Fresh.{zeros, init_tables-zeros}
use librtipc.Shmman.Startup.{init_tables}
use librtipc.Shmman.Refused.{create_shmseg-refused}

-- `shmat` gives the address 65536 times the id.
abbrev pub generous : Linux
generous = record {
  Kernel = ℕ;
  shmget = λ key size create k. (some (k + 1), k + 1);
  shmat = λ id k. (some (id * 65536), k);
  shmdt = λ addr k. (ok, k);
  shmctl_rmid = λ id k. (ok, k);
  ftok = λ n. n + 100;
  pagesize = 4096;
}

abbrev strict : Linux
strict = record generous { shmget = λ key size create k. (none, k) }

abbrev new_tables : Tables
new_tables = init_tables zeros

abbrev pub started : (L : Linux) → L.Kernel → Manager L
started L k = record {
  tables = new_tables;
  attached = λ v. record { sysv_id = none; ptr = 0; cnt = 0 };
  seg_ptr = λ i. 0;
  own_key = 7;
  own_id = 8;
  own_addr = 9;
  words = λ a. 5;
  kernel = k;
}

lock_free : new_tables.lock ≡ 0
unfolding init_tables
lock_free = refl

-- Segment 2 lies at offset 16 of a System V segment that this process has attached.
abbrev pub attached : Manager generous
attached = record (started generous 0) {
  tables = record zeros {
    initflag = 1;
    sysv_seg_cnt = 1;
    shmseg_cnt = 1;
    sysvs = λ v. record { sysv_key = 101; size = 16384; offset = 24 };
    segs = λ k. record { init = 1; sysv_table_idx = 0; offset = 16; size = 8; cnt = 1 };
  };
  attached = λ v. record { sysv_id = some 1; ptr = 65536; cnt = 0 };
}

abbrev pub found : Manager generous
found = connect 2 0 65536 attached

first_get : get_shmseg 1 2 5 attached ≡ some (some 65552, found)
unfolding get_shmseg got get_created connect_in connect result take_lock create_shmseg created
    create_locked cas32
first_get = refl

no_room : find_room 25 0 (aligned_size 100) new_tables.sysvs ≡ none
unfolding find_room init_tables
no_room = refl

few_segments : new_tables.shmseg_cnt < 1000
unfolding init_tables
few_segments = omega arith

few_sysvs : new_tables.sysv_seg_cnt < 25
unfolding init_tables
few_sysvs = omega arith

create_shmseg-refused_example :
    (m' : Manager strict) × (create_shmseg 1 2 100 (started strict 0) ≡ some (fail, m'))
    × ((fuel' shmid' size' : ℕ) → create_shmseg fuel' shmid' size' m' ≡ none)
create_shmseg-refused_example =
    create_shmseg-refused 0 2 100 (started strict 0) {k = 0} lock_free (init_tables-zeros.1 2)
      few_segments few_sysvs no_room refl
