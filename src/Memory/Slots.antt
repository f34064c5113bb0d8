-- ===== src/Memory/Slots.antt =====
-- Messages of `size` bytes in memory, side by side: slot `i` begins at `i * size`, as the queues of
-- src/spscq.c, src/wfmpscq.c, src/lfmpscq.c and src/mpmcq.c compute it.
use librtipc.Prelude.{
  ℕ, zero, suc, ◌+◌, ◌*◌, ◌≤◌, ◌<◌, ◌≡◌, ◌≢◌, refl, ap₂, List, [], ◌∷◌, arith, dec_lt, update,
}
use librtipc.Memory.{Bytes, memcpy, memcpy-at}

-- the `n` bytes at `off`
unfoldable pub load : Bytes → ℕ → ℕ → List ℕ
load mem off zero = []
load mem off (suc n) = mem off ∷ load mem (off + 1) n

-- Two ranges of bytes that agree pairwise are the same message.
pub load_congr :
    (m m' : Bytes) (o o' n : ℕ)
    → ((k : ℕ) → k < n → m (o + k) ≡ m' (o' + k))
    → load m o n ≡ load m' o' n
unfolding load
load_congr m m' o o' zero h = refl
load_congr m m' o o' (suc n) h = ap₂ ◌∷◌ first (load_congr m m' (o + 1) (o' + 1) n rest)
  where
    first : m o ≡ m' o'
    first = ground (arith, h 0)

    rest : (k : ℕ) → k < n → m (o + 1 + k) ≡ m' (o' + 1 + k)
    rest k l = ground (arith, h (suc k))

-- A copied message is read back.
pub load-memcpy :
    (dst : Bytes) (d : ℕ) (src : Bytes) (s size : ℕ)
    → load (memcpy dst d src s size) d size ≡ load src s size
load-memcpy dst d src s size = load_congr _ src d s size same
  where
    same : (k : ℕ) → k < size → memcpy dst d src s size (d + k) ≡ src (s + k)
    same k l = ground (arith, memcpy-at dst d src s size (d + k))

pub slots-disjoint : (i j size : ℕ) → i < j → i * size + size ≤ j * size
slots-disjoint i j size h = grind arith

-- A message that is copied into one slot leaves every other slot as it was.
pub load-memcpy_ne :
    (dst : Bytes) (i j : ℕ) (src : Bytes) (s size : ℕ)
    → j ≢ i
    → load (memcpy dst (i * size) src s size) (j * size) size ≡ load dst (j * size) size
load-memcpy_ne dst i j src s size ne = load_congr _ dst _ _ size same
  where
    same : (k : ℕ) → k < size → memcpy dst (i * size) src s size (j * size + k) ≡ dst (j * size + k)
    same k l = elim (dec_lt i j) [
      | yes p ↦
          ground
            (arith, memcpy-at dst (i * size) src s size (j * size + k), slots-disjoint i j size p)
      | no p ↦ ground (
        arith,
        memcpy-at dst (i * size) src s size (j * size + k),
        slots-disjoint j i size (omega arith),
      )
    ]

-- Bytes of different slots have different addresses.
pub byte-update_ne :
    (mem : Bytes) (i j k l b size : ℕ)
    → j ≢ i
    → k < size
    → l < size
    → update mem (i * size + k) b (j * size + l) ≡ mem (j * size + l)
byte-update_ne mem i j k l b size ne lt h = elim (dec_lt i j) [
  | yes p ↦ ground (arith, slots-disjoint i j size p)
  | no p ↦ ground (arith, slots-disjoint j i size (omega arith))
]

-- One byte written into a slot leaves the messages of the others.
pub load-update_ne :
    (mem : Bytes) (i j k b size : ℕ)
    → j ≢ i
    → k < size
    → load (update mem (i * size + k) b) (j * size) size ≡ load mem (j * size) size
load-update_ne mem i j k b size ne lt =
    load_congr _ mem _ _ size (λ l h. byte-update_ne mem i j k l b size ne lt h)
