-- ===== src/Sensorbuffer/Sequential.antt =====
-- The functions of src/sensorbuffer.c, used by one process at a time.
use librtipc.Prelude.{
  ℕ, zero, suc, ◌+◌, ◌≡◌, refl, arith, Option, none, some, List, update, if◌then◌else◌, leb, ◌&&◌,
}
use librtipc.Status.{Status, ok, fail, received}
use librtipc.Memory.{Bytes, memcpy}
use librtipc.Memory.Slots.{load, load-memcpy}
use librtipc.Sensorbuffer.{Descriptor, Buffer, Segment, write, read, next_buffer, clear_from, setup}

-- The last written buffer, if any, is valid.
abbrev pub IsValid : Segment → Type 0
IsValid s = (k : ℕ) → s.last_written ≡ some k → (s.buffers k).v ≡ 1

-- The message in the buffer that was written last.
unfoldable pub newest : ℕ → Segment → Option (List ℕ)
newest size s = elim s.last_written [
  | none ↦ none
  | some k ↦ some (load (s.buffers k).bytes 0 size)
]

-- `sensorbuffer_update` makes its message the newest one, in a buffer that is valid, whatever the
-- buffers held.
pub newest-write :
    (bfd : Descriptor) (payload : Bytes) (s : Segment)
    → (newest bfd.buffer_data_size (write bfd payload s)
        ≡ some (load payload 0 bfd.buffer_data_size))
      × IsValid (write bfd payload s)
unfolding newest write
newest-write bfd payload s = (
  ground (arith, load-memcpy (s.buffers current).bytes 0 payload 0 bfd.buffer_data_size),
  λ k e. ground arith,
)
  where
    current : ℕ
    current = next_buffer bfd.num_buffer s.last_written

-- What a call of `sensorbuffer_read` on `s` with the buffer `out` comes to.
pub record Reads (fuel : ℕ) (bfd : Descriptor) (out : Bytes) (s : Segment) : Type 0 where
  pub status : Status
  pub got : Bytes
  pub next : Segment
  pub returns : read fuel bfd out s ≡ some (status, got, next)
  pub message : received status (load got 0 bfd.buffer_data_size) ≡ newest bfd.buffer_data_size s
  pub kept : newest bfd.buffer_data_size next ≡ newest bfd.buffer_data_size s
  pub valid : IsValid next

-- While the writer does not move, and if the last written buffer is valid, `sensorbuffer_read`
-- returns in its first round: -1 if nothing has been written, and otherwise the newest message. It
-- changes neither the message nor its validity.
pub read-newest :
    (fuel : ℕ) (bfd : Descriptor) (out : Bytes) (s : Segment)
    → IsValid s
    → Reads (suc fuel) bfd out s
unfolding read newest
read-newest fuel bfd out s v = go s.last_written refl
  where
    go : (o : Option ℕ) → s.last_written ≡ o → Reads (suc fuel) bfd out s
    go none e = record {
      status = fail;
      got = out;
      next = s;
      returns = ground arith;
      message = ground arith;
      kept = refl;
      valid = v;
    }
    go (some k) e = record {
      status = ok;
      got = memcpy out 0 (s.buffers k).bytes 0 bfd.buffer_data_size;
      next = record s { buffers = update s.buffers k (record (s.buffers k) { r = 1 }) };
      returns = ground (arith, v k);
      message = ground (arith, load-memcpy out 0 (s.buffers k).bytes 0 bfd.buffer_data_size);
      kept = ground arith;
      valid = λ j h. ground (arith, v j);
    }

clear_from-at :
    (i n : ℕ) (bs : ℕ → Buffer) (j : ℕ)
    → clear_from i n bs j
      ≡ (if leb (i + 1) j && leb j (i + n) then record (bs j) { r = 0; v = 0 } else bs j)
unfolding clear_from
clear_from-at i zero bs j = ground arith
clear_from-at i (suc n) bs j =
    ground
      (arith, clear_from-at (i + 1) n (update bs (i + 1) (record (bs (i + 1)) { r = 0; v = 0 })) j)

-- The set-up in `sensorbuffer_get` clears the flags of the buffers 1 to `num_buffer` and no
-- others: not those of buffer 0, but those of the one behind the last buffer.
pub setup-clears :
    (n : ℕ) (s : Segment) (i : ℕ)
    → (setup n s).buffers i
      ≡ (if leb 1 i && leb i n then record (s.buffers i) { r = 0; v = 0 } else s.buffers i)
unfolding setup
setup-clears n s i = ground (arith, clear_from-at 0 n s.buffers i)
