-- ===== src/Shmman/Layout.antt =====
-- Where system/linux/src/shmman.c puts the segments that it hands out.
use native.Mathlib.Nat.{mod-lt, div-add-mod, mul-le-mul_right}
use librtipc.Prelude.{
  ℕ, zero, suc, ◌+◌, ◌-◌, ◌*◌, ◌/◌, ◌%◌, ◌^◌, ◌≤◌, ◌<◌, ◌≡◌, ◌≢◌, ◌⊎◌, inl, inr, refl, arith, ◌==◌,
  leb, Option, none, some, Bool-cases, dec_lt,
}
use librtipc.Shmman.{
  Linux, SysvEntry, Tables, Manager, aligned_size, sysv_size, find_room, add_segment, add_sysv,
  grow, grow_at, place, create_locked, create_sysv_key, max_svshmseg, max_shmseg,
}

pub aligned_size-mod : (size : ℕ) → aligned_size size % 8 ≡ 0
unfolding aligned_size
aligned_size-mod size = omega arith

-- The size that a segment gets is more than what was asked for, by at most 8.
pub aligned_size_bounds : (size : ℕ) → (size < aligned_size size) × (aligned_size size ≤ size + 8)
unfolding aligned_size
aligned_size_bounds size = (omega arith, omega arith)

-- A new System V segment has room for what it was made for.
pub sysv_size-le : (pagesize shm_size : ℕ) → 0 < pagesize → shm_size ≤ sysv_size pagesize shm_size
unfolding sysv_size
sysv_size-le p n h = elim (dec_lt (n / p + 1) 4) [
  | yes few ↦ ground (arith, pages, mul-le-mul_right {m = n / p + 1} {n = 4} p (omega arith))
  | no many ↦ ground (arith, pages)
]
  where
    pages : n ≤ (n / p + 1) * p
    pages = omega (arith, div-add-mod n p, mod-lt n h)

-- The segments that exist lie within the used part of their System V segments, one beside the other.
pub record Inv (t : Tables) : Type 0 where
  pub room : (v : ℕ) → (t.sysvs v).offset ≤ (t.sysvs v).size
  pub small : (v : ℕ) → (t.sysvs v).size < 2 ^ 32
  pub room_aligned : (v : ℕ) → (t.sysvs v).offset % 8 ≡ 0
  pub unused : (v : ℕ) → t.sysv_seg_cnt ≤ v → (t.sysvs v).sysv_key ≡ 0
  pub home : (k : ℕ) → (t.segs k).init ≡ 1 → (t.segs k).sysv_table_idx < t.sysv_seg_cnt
  pub inside :
      (k : ℕ)
      → (t.segs k).init ≡ 1
      → (t.segs k).offset + (t.segs k).size ≤ (t.sysvs (t.segs k).sysv_table_idx).offset
  pub aligned : (k : ℕ) → (t.segs k).init ≡ 1 → (t.segs k).offset % 8 ≡ 0
  pub apart :
      (j k : ℕ)
      → j ≢ k
      → (t.segs j).init ≡ 1
      → (t.segs k).init ≡ 1
      → (t.segs j).sysv_table_idx ≡ (t.segs k).sysv_table_idx
      → ((t.segs j).offset + (t.segs j).size ≤ (t.segs k).offset)
        ⊎ ((t.segs k).offset + (t.segs k).size ≤ (t.segs j).offset)

-- The search gives a System V segment that exists and has room.
find_room-some :
    (rounds i n : ℕ) (sysvs : ℕ → SysvEntry) (v : ℕ)
    → find_room rounds i n sysvs ≡ some v
    → ((sysvs v).sysv_key ≢ 0) × (n ≤ ((sysvs v).size + 2 ^ 32 - (sysvs v).offset) % 2 ^ 32)
unfolding find_room
find_room-some zero i n sysvs v e = ground (arith, e)
find_room-some (suc rounds) i n sysvs v e = ground (arith, find_room-some rounds (i + 1) n sysvs v)

-- That one is in the table.
pub found-below :
    (t : Tables) (n v : ℕ)
    → Inv t
    → find_room max_svshmseg 0 n t.sysvs ≡ some v
    → v < t.sysv_seg_cnt
found-below t n v h e = elim (dec_lt v t.sysv_seg_cnt) [
  | yes below ↦ below
  | no above ↦ absurd ((find_room-some max_svshmseg 0 n t.sysvs v e).0 (h.unused v (omega arith)))
]

module _ {L : Linux} (shmid n : ℕ) (a : n % 8 ≡ 0) (m : Manager L) (h : Inv m.tables) where
  add_segment-Inv :
      (v : ℕ)
      → v < m.tables.sysv_seg_cnt
      → (m.tables.sysvs v).offset + n ≤ (m.tables.sysvs v).size
      → Inv (add_segment shmid n v m).tables
  unfolding add_segment
  add_segment-Inv v lt fits = record {
    room = λ u. ground (arith, h.room u);
    small = λ u. ground (arith, h.small u, h.small v);
    room_aligned = λ u. ground (arith, h.room_aligned u, h.room_aligned v);
    unused = λ u le. ground (arith, h.unused u le);
    home = λ k i. ground (arith, h.home k);
    inside = λ k i. ground (arith, h.inside k);
    aligned = λ k i. ground (arith, h.aligned k, h.room_aligned v);
    apart = λ j k ne i i' same. ground (arith, h.apart j k ne, h.inside j, h.inside k);
  }

module _ {L : Linux} (m : Manager L) (h : Inv m.tables) where
  add_sysv-Inv : (key size id mem : ℕ) → size < 2 ^ 32 → Inv (add_sysv key size id mem m).tables
  unfolding add_sysv
  add_sysv-Inv key size id mem lt = record {
    room = λ u. ground (arith, h.room u);
    small = λ u. ground (arith, h.small u);
    room_aligned = λ u. ground (arith, h.room_aligned u);
    unused = λ u le. ground (arith, h.unused u);
    home = λ k i. ground (arith, h.home k i);
    inside = λ k i. ground (arith, h.home k i, h.inside k i);
    aligned = λ k i. ground (arith, h.aligned k i);
    apart = λ j k ne i i' same. h.apart j k ne i i' same;
  }

  unlock-Inv : Inv (record m.tables { lock = 0 })
  unlock-Inv = record {
    room = h.room;
    small = h.small;
    room_aligned = h.room_aligned;
    unused = h.unused;
    home = h.home;
    inside = h.inside;
    aligned = h.aligned;
    apart = h.apart;
  }

module _ {L : Linux} (shmid n key : ℕ) (a : n % 8 ≡ 0) (small : sysv_size L.pagesize n < 2 ^ 32)
    (page : 0 < L.pagesize) where
  grow_at-Inv :
      (id : ℕ) (m : Manager L) (r : Option ℕ × L.Kernel)
      → Inv m.tables
      → Inv (grow_at shmid n key id m r).1.tables
  unfolding grow_at
  grow_at-Inv id m (none, k) h = h
  grow_at-Inv id m (some mem, k) h =
      add_segment-Inv shmid n a
        (add_sysv key (sysv_size L.pagesize n) id mem (record m { kernel = k }))
        (add_sysv-Inv (record m { kernel = k }) h key (sysv_size L.pagesize n) id mem small)
        m.tables.sysv_seg_cnt (omega arith) (ground (arith, sysv_size-le L.pagesize n page))

  grow-Inv :
      (m : Manager L) (r : Option ℕ × L.Kernel) → Inv m.tables → Inv (grow shmid n key m r).1.tables
  unfolding grow
  grow-Inv m (none, k) h = h
  grow-Inv m (some id, k) h = grow_at-Inv id (record m { kernel = k }) (L.shmat id k) h

module _ {L : Linux} (shmid n : ℕ) (a : n % 8 ≡ 0) (small : sysv_size L.pagesize n < 2 ^ 32)
    (page : 0 < L.pagesize) (m : Manager L) (h : Inv m.tables) where
  key-Inv : Inv (create_sysv_key m).1.tables
  unfolding create_sysv_key
  key-Inv = record {
    room = h.room;
    small = h.small;
    room_aligned = h.room_aligned;
    unused = h.unused;
    home = h.home;
    inside = h.inside;
    aligned = h.aligned;
    apart = h.apart;
  }

  place-Inv :
      (f : Option ℕ)
      → find_room max_svshmseg 0 n m.tables.sysvs ≡ f
      → Inv (place shmid n m f).1.tables
  unfolding place
  place-Inv (some v) e =
      add_segment-Inv shmid n a m h v (found-below m.tables n v h e)
        (omega (arith, found.1, h.room v, h.small v))
    where
      found :
          ((m.tables.sysvs v).sysv_key ≢ 0)
          × (n ≤ ((m.tables.sysvs v).size + 2 ^ 32 - (m.tables.sysvs v).offset) % 2 ^ 32)
      found = find_room-some max_svshmseg 0 n m.tables.sysvs v e
  place-Inv none e = elim (Bool-cases (leb max_svshmseg m.tables.sysv_seg_cnt)) [
    | inl full ↦ rw full (unlock-Inv m h)
    | inr space ↦
        rw space
          (grow-Inv shmid n (create_sysv_key m).0 a small page (create_sysv_key m).1 _ key-Inv)
  ]

  -- `shmman_create_shmseg`, on every branch, keeps the segments apart and within their System V
  -- segments, if the size is a multiple of 8 and a new System V segment of it is below 2 ^ 32.
  pub create_locked-Inv : Inv (create_locked shmid n m).1.tables
  unfolding create_locked
  create_locked-Inv = elim (Bool-cases ((m.tables.segs shmid).init == 1)) [
    | inl is ↦ rw is (unlock-Inv m h)
    | inr isnt ↦ elim (Bool-cases (leb max_shmseg m.tables.shmseg_cnt)) [
      | inl full ↦ rw (isnt, full) (unlock-Inv m h)
      | inr space ↦ rw (isnt, space) (place-Inv (find_room max_svshmseg 0 n m.tables.sysvs) refl)
    ]
  ]
