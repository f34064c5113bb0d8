-- ===== src/Tests/Segments.antt =====
-- A process that gets two segments from the manager of system/linux/src/shmman.c.
use librtipc.Prelude.{ℕ, ◌<◌, ◌≡◌, ◌≢◌, refl, arith, none, some, ◌^◌}
use librtipc.Atomic.{cas32, faa32}
use librtipc.Shmman.{
  Manager, take_lock, create_shmseg, created, create_locked, place, grow, grow_at, add_sysv,
  add_segment, create_sysv_key, sysv_size, aligned_size, find_room,
}
use librtipc.Shmman.Attach.{get_shmseg, got, get_created, connect_in, connect, result}
use librtipc.Shmman.Addresses.{Placed}
use librtipc.Shmman.Apart.{Attachments, Disjoint, get_shmseg-keeps, get_shmseg-apart}
use librtipc.Shmman.Creation.{locked}
use librtipc.Shmman.Fresh.{init_tables-zeros}
use librtipc.Shmman.Layout.{Inv}
use librtipc.Shmman.Startup.{init_tables}
use librtipc.Tests.Shmman.{generous, started}

abbrev fresh : Manager generous
fresh = started generous 0

-- It has got segment 2, and then also segment 3.
abbrev one_got : Manager generous
one_got = (get_created 2 (create_locked 2 (aligned_size 100) (locked fresh))).1

abbrev two_got : Manager generous
two_got = (get_created 3 (create_locked 3 (aligned_size 20) (locked one_got))).1

first_get : get_shmseg 1 2 100 fresh ≡ some (some 65536, one_got)
unfolding get_shmseg got get_created connect_in connect result take_lock create_shmseg created
    create_locked place grow grow_at add_sysv add_segment create_sysv_key sysv_size aligned_size
    find_room cas32 faa32 init_tables
first_get = refl

second_get : get_shmseg 1 3 20 one_got ≡ some (some 65640, two_got)
unfolding get_shmseg got get_created connect_in connect result take_lock create_shmseg created
    create_locked place grow grow_at add_sysv add_segment create_sysv_key sysv_size aligned_size
    find_room cas32 faa32 init_tables
second_get = refl

small_first : sysv_size 4096 (aligned_size 100) < 2 ^ 32
unfolding sysv_size aligned_size
small_first = omega arith

small_second : sysv_size 4096 (aligned_size 20) < 2 ^ 32
unfolding sysv_size aligned_size
small_second = omega arith

get_shmseg-keeps_example : Inv one_got.tables × Placed one_got
get_shmseg-keeps_example =
    get_shmseg-keeps 1 2 100 (some 65536) fresh one_got (omega arith) small_first
      init_tables-zeros.0 (λ k ne. absurd (ne refl)) first_get

kept : Inv one_got.tables × Placed one_got
kept =
    get_shmseg-keeps 1 2 100 (some 65536) fresh one_got (omega arith) small_first
      init_tables-zeros.0 (λ k ne. absurd (ne refl)) first_get

one_attached : (v : ℕ) → v ≢ 0 → (two_got.attached v).sysv_id ≡ none
unfolding get_created connect_in connect result create_locked place grow grow_at add_sysv
    add_segment create_sysv_key sysv_size aligned_size find_room cas32 faa32 init_tables
one_attached v ne = ground arith

apart : Attachments two_got
apart v w ne a b = ground (arith, one_attached v, one_attached w)

used_first : two_got.seg_ptr 2 ≢ 0
unfolding get_created connect_in connect result create_locked place grow grow_at add_sysv
    add_segment create_sysv_key sysv_size aligned_size find_room cas32 faa32 init_tables
used_first = omega arith

get_shmseg-apart_example :
    Disjoint 65640 (two_got.tables.segs 3).size (two_got.seg_ptr 2) (two_got.tables.segs 2).size
get_shmseg-apart_example =
    get_shmseg-apart 1 3 20 65640 2 one_got two_got (omega arith) small_second kept.0 kept.1
      second_get (omega arith) apart (omega arith) used_first
