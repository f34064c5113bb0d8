-- ===== src/Memory.antt =====
-- Bytes of memory, and `hwfunctions_memcpy` of arch/x86/src/hwfunctions.c and
-- arch/arm/src/hwfunctions.c, which is the same loop in both. Memory is a function from addresses
-- to bytes; a pointer is the memory that it points into and an offset.
pub mod Slots
use librtipc.Prelude.{
  ℕ, zero, suc, ◌+◌, ◌-◌, ◌≡◌, refl, arith, ltb, leb, ◌&&◌, if◌then◌else◌, update,
}

abbrev pub Bytes : Type 0
Bytes = ℕ → ℕ

-- `for (i …; i < size; i++) dstptr[i] = srcptr[i];` with `n` rounds left
unfoldable pub memcpy_loop : ℕ → ℕ → Bytes → ℕ → Bytes → ℕ → Bytes
memcpy_loop i zero dst d src s = dst
memcpy_loop i (suc n) dst d src s = memcpy_loop (i + 1) n (update dst (d + i) (src (s + i))) d src s

-- `dst + d` and `src + s` are the pointers, in different objects.
unfoldable pub memcpy : Bytes → ℕ → Bytes → ℕ → ℕ → Bytes
unfolding memcpy_loop
memcpy dst d src s size = memcpy_loop 0 size dst d src s

memcpy_loop-at :
    (i n : ℕ) (dst : Bytes) (d : ℕ) (src : Bytes) (s a : ℕ)
    → memcpy_loop i n dst d src s a
      ≡ (if leb (d + i) a && ltb a (d + i + n) then src (s + (a - d)) else dst a)
unfolding memcpy_loop
memcpy_loop-at i zero dst d src s a = ground arith
memcpy_loop-at i (suc n) dst d src s a =
    ground (arith, memcpy_loop-at (i + 1) n (update dst (d + i) (src (s + i))) d src s a)

-- Every byte after a copy: those of the target range are the source's, all others are as before.
pub memcpy-at :
    (dst : Bytes) (d : ℕ) (src : Bytes) (s size a : ℕ)
    → memcpy dst d src s size a ≡ (if leb d a && ltb a (d + size) then src (s + (a - d)) else dst a)
unfolding memcpy
memcpy-at dst d src s size a = ground (arith, memcpy_loop-at 0 size dst d src s a)
