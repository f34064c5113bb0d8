-- ===== src/Sensorbuffer/Concurrent.antt =====
-- src/sensorbuffer.c with its writer and its reader interleaved, one shared access at a time. Buffer
-- `i` and its byte `k` are written `bytes i k`. Memory is sequentially consistent.
pub mod Invariant
pub mod Updating
pub mod Untorn
pub mod Pace
pub mod Retry
use librtipc.Prelude.{ℕ, ◌+◌, ◌<◌, ◌≡◌, ◌≢◌, Option, none, some, List, [], ◌∷◌, update}
use librtipc.Memory.{Bytes}
use librtipc.Memory.Slots.{load}
use librtipc.Sensorbuffer.{next_buffer}

-- Where `sensorbuffer_update` stands. `i` is `current`.
pub data Writer : Type 0 where
  idle : Writer
  before_r : (payload : Bytes) (i : ℕ) → Writer  -- `b->v = 0` is done
  filling : (payload : Bytes) (i k : ℕ) → Writer  -- `b->r = 0` and `k` bytes are done
  before_last : (payload : Bytes) (i : ℕ) → Writer  -- `b->v = 1` is done

-- Where `sensorbuffer_read` stands, with the caller's buffer. `i` is `current`.
pub data Reader : Type 0 where
  idle : Reader
  looking : (out : Bytes) → Reader  -- head of the loop
  before_flag : (out : Bytes) (i : ℕ) → Reader  -- `last_written` is read
  before_test : (out : Bytes) (i : ℕ) → Reader  -- `b->r = 1` is done
  reading : (out : Bytes) (i k : ℕ) → Reader  -- `b->v` was 1, and `k` bytes are copied
  returned : (out : Bytes) → Reader  -- `return 0`

-- The segment, the two processes, and the history: the messages that were handed to
-- `sensorbuffer_update`, newest first, how many updates have returned, and how many had when the last
-- read began and when it last looked up the buffer.
pub record System : Type 0 where
  pub last_written : Option ℕ
  pub r : ℕ → ℕ
  pub v : ℕ → ℕ
  pub bytes : ℕ → Bytes
  pub writer : Writer
  pub reader : Reader
  pub written : List (List ℕ)
  pub done : ℕ
  pub seen : ℕ
  pub found : ℕ

module _ (num_buffer size : ℕ) where
  -- What the steps of the writer make of the state.
  abbrev pub invalidated : System → Bytes → System
  invalidated s payload = record s {
    v = update s.v (next_buffer num_buffer s.last_written) 0;
    writer = Writer.before_r payload (next_buffer num_buffer s.last_written);
    written = load payload 0 size ∷ s.written;
  }

  abbrev pub r_cleared : System → Bytes → ℕ → System
  r_cleared s payload i = record s { r = update s.r i 0; writer = Writer.filling payload i 0 }

  abbrev pub byte_filled : System → Bytes → ℕ → ℕ → System
  byte_filled s payload i k = record s {
    bytes = update s.bytes i (update (s.bytes i) k (payload k));
    writer = Writer.filling payload i (k + 1);
  }

  abbrev pub v_set : System → Bytes → ℕ → System
  v_set s payload i = record s { v = update s.v i 1; writer = Writer.before_last payload i }

  abbrev pub last_set : System → ℕ → System
  last_set s i = record s { last_written = some i; writer = Writer.idle; done = s.done + 1 }

  -- The reader begins a call.
  abbrev pub read_begun : System → Bytes → System
  read_begun s out = record s { reader = Reader.looking out; seen = s.done }

  -- The reader looks the buffer up.
  abbrev pub buffer_found : System → Bytes → ℕ → System
  buffer_found s out i = record s { reader = Reader.before_flag out i; found = s.done }

  pub data Step (s : System) : System → Type 0 where
    -- the writer
    begin_update : (payload : Bytes) → s.writer ≡ Writer.idle → Step s (invalidated s payload)
    clear_r :
        (payload : Bytes) (i : ℕ)
        → s.writer ≡ Writer.before_r payload i
        → Step s (r_cleared s payload i)
    fill_byte :
        (payload : Bytes) (i k : ℕ)
        → s.writer ≡ Writer.filling payload i k
        → k < size
        → Step s (byte_filled s payload i k)
    set_v :
        (payload : Bytes) (i : ℕ)
        → s.writer ≡ Writer.filling payload i size
        → Step s (v_set s payload i)
    set_last :
        (payload : Bytes) (i : ℕ) → s.writer ≡ Writer.before_last payload i → Step s (last_set s i)
    -- the reader
    begin_read : (out : Bytes) → s.reader ≡ Reader.idle → Step s (read_begun s out)
    find_nothing :
        (out : Bytes)
        → s.reader ≡ Reader.looking out
        → s.last_written ≡ none
        → Step s (record s { reader = Reader.idle })
    find :
        (out : Bytes) (i : ℕ)
        → s.reader ≡ Reader.looking out
        → s.last_written ≡ some i
        → Step s (buffer_found s out i)
    set_r :
        (out : Bytes) (i : ℕ)
        → s.reader ≡ Reader.before_flag out i
        → Step s (record s { r = update s.r i 1; reader = Reader.before_test out i })
    invalid :
        (out : Bytes) (i : ℕ)
        → s.reader ≡ Reader.before_test out i
        → s.v i ≢ 1
        → Step s (record s { reader = Reader.looking out })
    valid :
        (out : Bytes) (i : ℕ)
        → s.reader ≡ Reader.before_test out i
        → s.v i ≡ 1
        → Step s (record s { reader = Reader.reading out i 0 })
    read_byte :
        (out : Bytes) (i k : ℕ)
        → s.reader ≡ Reader.reading out i k
        → k < size
        → Step s (record s { reader = Reader.reading (update out k (s.bytes i k)) i (k + 1) })
    torn :
        (out : Bytes) (i : ℕ)
        → s.reader ≡ Reader.reading out i size
        → s.r i ≢ 1
        → Step s (record s { reader = Reader.looking out })
    accept :
        (out : Bytes) (i : ℕ)
        → s.reader ≡ Reader.reading out i size
        → s.r i ≡ 1
        → Step s (record s { reader = Reader.returned out })
    leave :
        (out : Bytes) → s.reader ≡ Reader.returned out → Step s (record s { reader = Reader.idle })

  -- As `sensorbuffer_get` sets the segment up; flags and bytes are whatever they were.
  abbrev pub initial : (r v : ℕ → ℕ) → (ℕ → Bytes) → System
  initial r v bytes = record {
    last_written = none;
    r = r;
    v = v;
    bytes = bytes;
    writer = Writer.idle;
    reader = Reader.idle;
    written = [];
    done = 0;
    seen = 0;
    found = 0;
  }

  pub data Reach : System → Type 0 where
    start : (r v : ℕ → ℕ) (bytes : ℕ → Bytes) → Reach (initial r v bytes)
    later : {s t : System} → Reach s → Step s t → Reach t
