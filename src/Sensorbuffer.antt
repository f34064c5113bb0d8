-- ===== src/Sensorbuffer.antt =====
-- src/sensorbuffer.c and include/sensorbuffer.h: a buffer of which only the newest value matters,
-- with one writer that never waits and one reader that starts over if the writer got in its way. The
-- functions here run alone; `Concurrent` interleaves them.
pub mod Sequential
pub mod Concurrent
use librtipc.Prelude.{ℕ, zero, suc, ◌+◌, ◌*◌, ◌%◌, ◌==◌, if◌then◌else◌, Option, none, some, update}
use librtipc.Status.{Status, ok, fail}
use librtipc.Memory.{Bytes, memcpy}
use librtipc.Object.{Segments, World, get as get_object, obtain, release as release_object}

-- `sensorbuffer_d_t`; `mem` is the address of the segment.
pub record Descriptor : Type 0 where
  pub obj_id : ℕ
  pub mem : ℕ
  pub buffer_data_size : ℕ
  pub num_buffer : ℕ

-- `sensorbuffer_bufferhead_t`, and the bytes that follow it
pub record Buffer : Type 0 where
  pub r : ℕ  -- 1: a reader has announced itself since the writer was last here
  pub v : ℕ  -- 1: the bytes are valid
  pub bytes : Bytes

-- `sensorbuffer_head_t` after its fields `lock` and `init`, which are those of `Object.Shared`, and
-- the buffers. `none` is the index -1.
pub record Segment : Type 0 where
  pub last_written : Option ℕ
  pub buffers : ℕ → Buffer

-- `(last_written + 1) % numBuffer`
unfoldable pub next_buffer : ℕ → Option ℕ → ℕ
next_buffer n none = 0 % n
next_buffer n (some k) = (k + 1) % n

-- `sensorbuffer_update`
unfoldable pub write : Descriptor → Bytes → Segment → Segment
unfolding next_buffer
write bfd payload s =
    let current = next_buffer bfd.num_buffer s.last_written in
    let b : Buffer = record (s.buffers current) { v = 0; r = 0 } in
    let b' : Buffer = record b { bytes = memcpy b.bytes 0 payload 0 bfd.buffer_data_size; v = 1 } in
    record { last_written = some current; buffers = update s.buffers current b' }

-- `sensorbuffer_read`: rounds of its loop while the writer does not move. Fuel is the number of
-- rounds; `none` when they are used up.
unfoldable pub read : ℕ → Descriptor → Bytes → Segment → Option (Status × Bytes × Segment)
read zero bfd out s = none
read (suc fuel) bfd out s = elim s.last_written [
  | none ↦ some (fail, out, s)
  | some current ↦
      let b : Buffer = record (s.buffers current) { r = 1 } in
      let s' : Segment = record s { buffers = update s.buffers current b } in
      let copied = memcpy out 0 b.bytes 0 bfd.buffer_data_size in
      let again = read fuel bfd out s' in
      let torn = read fuel bfd copied s' in
      if b.v == 1 then (if b.r == 1 then some (ok, copied, s') else torn) else again
]

-- `b` is advanced before the first header is written, so the loop of `sensorbuffer_get` clears the
-- headers 1 to `numBuffer`: not header 0, and one behind the last buffer.
unfoldable pub clear_from : ℕ → ℕ → (ℕ → Buffer) → ℕ → Buffer
clear_from i zero bs = bs
clear_from i (suc n) bs =
    clear_from (i + 1) n (update bs (i + 1) (record (bs (i + 1)) { r = 0; v = 0 }))

unfoldable pub setup : ℕ → Segment → Segment
unfolding clear_from
setup num_buffer s = record { last_written = none; buffers = clear_from 0 num_buffer s.buffers }

-- `sensorbuffer_get`; the heads are 12 and 8 bytes.
unfoldable pub get :
    (S : Segments)
    → ℕ
    → Descriptor
    → (obj_id buffer_data_size num_buffer : ℕ) → World S Segment
    → Option (Status × Descriptor × World S Segment)
unfolding setup get_object obtain
get S fuel bfd obj_id buffer_data_size num_buffer w =
    let bfd' : Descriptor = record bfd {
      obj_id = obj_id;
      buffer_data_size = buffer_data_size;
      num_buffer = num_buffer;
    } in
    obtain S bfd' (λ a. record bfd' { mem = a })
      (get_object S fuel (setup num_buffer) (12 + num_buffer * (8 + buffer_data_size)) obj_id w)

-- `sensorbuffer_release`
unfoldable pub release : (S : Segments) → Descriptor → World S Segment → Status × World S Segment
unfolding release_object
release S bfd w = release_object S bfd.obj_id w
