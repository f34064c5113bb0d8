-- ===== src/Atomic.antt =====
-- arch/x86/src/atomic.c: compare-and-swap and fetch-and-add. A call takes what the word holds when
-- the locked instruction reads it, and gives what the function returns and what the word then
-- holds. Words are bit patterns below 2 ^ w. `Arm` models arch/arm/src/atomic.c.
pub mod Arm
pub mod Cas
pub mod Laws
use librtipc.Prelude.{ℕ, ◌+◌, ◌*◌, ◌/◌, ◌%◌, ◌^◌, Bool, true, false, ◌==◌, if◌then◌else◌}

-- `lock cmpxchg` and `setz`
unfoldable pub cmpxchg : ℕ → ℕ → ℕ → ℕ × ℕ
cmpxchg mem old new = if mem == old then (1, new) else (0, mem)

-- `lock xadd` on words of `w` bits
unfoldable pub xadd : ℕ → ℕ → ℕ → ℕ × ℕ
xadd w mem val = (mem, (mem + val) % 2 ^ w)

-- `x & 0x00000000ffffffff` and `x >> 32`, as unsigned int
abbrev pub low_word : ℕ → ℕ
low_word x = x % 2 ^ 32

abbrev pub high_word : ℕ → ℕ
high_word x = x / 2 ^ 32 % 2 ^ 32

abbrev pub join_words : ℕ → ℕ → ℕ
join_words low high = low + high * 2 ^ 32

unfoldable pub cas8 : ℕ → ℕ → ℕ → ℕ × ℕ
unfolding cmpxchg
cas8 mem old new = cmpxchg mem old new

unfoldable pub cas8u : ℕ → ℕ → ℕ → ℕ × ℕ
unfolding cmpxchg
cas8u mem old new = cmpxchg mem old new

unfoldable pub cas16 : ℕ → ℕ → ℕ → ℕ × ℕ
unfolding cmpxchg
cas16 mem old new = cmpxchg mem old new

unfoldable pub cas16u : ℕ → ℕ → ℕ → ℕ × ℕ
unfolding cmpxchg
cas16u mem old new = cmpxchg mem old new

unfoldable pub cas32 : ℕ → ℕ → ℕ → ℕ × ℕ
unfolding cmpxchg
cas32 mem old new = cmpxchg mem old new

unfoldable pub cas32u : ℕ → ℕ → ℕ → ℕ × ℕ
unfolding cmpxchg
cas32u mem old new = cmpxchg mem old new

-- `cmpxchg8b` takes both values in halves.
unfoldable pub cas64 : ℕ → ℕ → ℕ → ℕ × ℕ
unfolding cmpxchg
cas64 mem old new =
    let oldval0 = low_word old in
    let oldval1 = high_word old in
    let newval0 = low_word new in
    let newval1 = high_word new in
    cmpxchg mem (join_words oldval0 oldval1) (join_words newval0 newval1)

unfoldable pub cas64u : ℕ → ℕ → ℕ → ℕ × ℕ
unfolding cmpxchg
cas64u mem old new =
    let oldval0 = low_word old in
    let oldval1 = high_word old in
    let newval0 = low_word new in
    let newval1 = high_word new in
    cmpxchg mem (join_words oldval0 oldval1) (join_words newval0 newval1)

unfoldable pub faa8 : ℕ → ℕ → ℕ × ℕ
unfolding xadd
faa8 mem val = xadd 8 mem val

unfoldable pub faa8u : ℕ → ℕ → ℕ × ℕ
unfolding xadd
faa8u mem val = xadd 8 mem val

unfoldable pub faa16 : ℕ → ℕ → ℕ × ℕ
unfolding xadd
faa16 mem val = xadd 16 mem val

unfoldable pub faa16u : ℕ → ℕ → ℕ × ℕ
unfolding xadd
faa16u mem val = xadd 16 mem val

unfoldable pub faa32 : ℕ → ℕ → ℕ × ℕ
unfolding xadd
faa32 mem val = xadd 32 mem val

unfoldable pub faa32u : ℕ → ℕ → ℕ × ℕ
unfolding xadd
faa32u mem val = xadd 32 mem val

-- The first argument says whether the compiler defines `__AMD64__`; if not, the function returns 0
-- and leaves the word alone.
unfoldable pub faa64 : Bool → ℕ → ℕ → ℕ × ℕ
unfolding xadd
faa64 true mem val = xadd 64 mem val
faa64 false mem val = (0, mem)

unfoldable pub faa64u : Bool → ℕ → ℕ → ℕ × ℕ
unfolding xadd
faa64u true mem val = xadd 64 mem val
faa64u false mem val = (0, mem)
