-- ===== src/Wfmpscq/Entries.antt =====
-- What the rings of src/wfmpscq.c hold, and what the operations do to it.
use librtipc.Prelude.{
  ℕ_discrete, ==_of_eq, ==_of_ne, if◌then◌else◌, ℕ, ◌+◌, ◌*◌, ◌%◌, ◌^◌, ◌<◌, ◌≡◌, ◌≢◌, refl, ap,
  ap₂, ◌∙◌, arith, List, [], ◌∷◌, ◌++◌, Bool, true, update, ◌==◌, Bool-cases, inl, inr, eq_of_==,
  ne_of_==, dec_lt, ◌⊎◌,
}
use librtipc.Status.{ok, fail}
use librtipc.Atomic.{faa64u}
use librtipc.Memory.{Bytes, memcpy}
use librtipc.Memory.Slots.{load, load-memcpy, load-memcpy_ne}
use librtipc.Ring.{after-lt, contents, contents-store, contents-congr}
use librtipc.Wfmpscq.{Descriptor, Segment, enqueue, to_uint}

-- A message and its id.
abbrev pub Entry : Type 0
Entry = ℕ × List ℕ

-- What slot `k` of ring `i` holds. Slots are numbered ring after ring.
abbrev pub slot : Descriptor → Segment → ℕ → ℕ → Entry
slot qd s i k = (
  to_uint (s.ids (i * qd.num_slots + k)),
  load s.payloads ((i * qd.num_slots + k) * qd.node_data_size) qd.node_data_size,
)

-- The messages of ring `i`, oldest first.
unfoldable pub entries : Descriptor → Segment → ℕ → List Entry
entries qd s i = contents qd.num_slots (slot qd s i) (s.queues i).head (s.queues i).tail

-- All indices name slots.
pub record IsValid (qd : Descriptor) (s : Segment) : Type 0 where
  pub head_in : (i : ℕ) → i < qd.num_writer → (s.queues i).head < qd.num_slots
  pub tail_in : (i : ℕ) → i < qd.num_writer → (s.queues i).tail < qd.num_slots

-- Slots of different rings, and different slots of a ring, have different numbers.
number-ne : (n i j k l : ℕ) → k < n → l < n → i ≢ j → i * n + k ≢ j * n + l
number-ne n i j k l hk hl ne e = elim (dec_lt i j) [
  | yes p ↦ absurd (grind arith)
  | no p ↦ absurd (grind arith)
]

module _ {qd : Descriptor} {s : Segment} (v : IsValid qd s) (payload : Bytes)
    (own : qd.writer_id < qd.num_writer) where
  abbrev w : ℕ
  w = qd.writer_id

  abbrev tail : ℕ
  tail = (s.queues w).tail

  -- The slot that is written, as the source computes its place.
  abbrev new_payloads : Bytes
  new_payloads =
      memcpy s.payloads (w * qd.num_slots * qd.node_data_size + tail * qd.node_data_size) payload 0
        qd.node_data_size

  place :
      w * qd.num_slots * qd.node_data_size + tail * qd.node_data_size
      ≡ (w * qd.num_slots + tail) * qd.node_data_size
  place = omega arith

  -- A message in a slot with another number stays.
  others_kept :
      (g : ℕ)
      → g ≢ w * qd.num_slots + tail
      → load new_payloads (g * qd.node_data_size) qd.node_data_size
        ≡ load s.payloads (g * qd.node_data_size) qd.node_data_size
  others_kept g ne =
      rw place
        (load-memcpy_ne s.payloads (w * qd.num_slots + tail) g payload 0 qd.node_data_size ne)

  written :
      load new_payloads ((w * qd.num_slots + tail) * qd.node_data_size) qd.node_data_size
      ≡ load payload 0 qd.node_data_size
  written = rw place (
      load-memcpy s.payloads ((w * qd.num_slots + tail) * qd.node_data_size) payload 0
        qd.node_data_size)

  abbrev pushed : Bool → Segment
  pushed amd64 = record {
    id_cnt = (faa64u amd64 s.id_cnt 1).1;
    queues = update s.queues w (record (s.queues w) { tail = (tail + 1) % qd.num_slots });
    ids = update s.ids (w * qd.num_slots + tail) (to_uint (faa64u amd64 s.id_cnt 1).0);
    payloads = new_payloads;
  }

  slot-pushed_ne :
      (amd64 : Bool) (i k : ℕ)
      → i * qd.num_slots + k ≢ w * qd.num_slots + tail
      → slot qd (pushed amd64) i k ≡ slot qd s i k
  slot-pushed_ne amd64 i k ne =
      ap₂ (λ a b. (a, b)) (ground arith) (others_kept (i * qd.num_slots + k) ne)

  slot-pushed : slot qd (pushed true) w tail ≡ (to_uint s.id_cnt, load payload 0 qd.node_data_size)
  unfolding faa64u
  slot-pushed = ap₂ (λ a b. (a, b)) (ground arith) written

  queue-pushed :
      (amd64 : Bool)
      → (pushed amd64).queues w ≡ record (s.queues w) { tail = (tail + 1) % qd.num_slots }
  queue-pushed amd64 = ground arith

  entries-pushed :
      (tail + 1) % qd.num_slots ≢ (s.queues w).head
      → entries qd (pushed true) w
        ≡ entries qd s w ++ ((to_uint s.id_cnt, load payload 0 qd.node_data_size) ∷ [])
  unfolding entries
  entries-pushed room = rw (queue-pushed true) (
      contents-store qd.num_slots (slot qd s w) (s.queues w).head tail (slot qd (pushed true) w)
        (v.head_in w own) (v.tail_in w own) room
        (λ k ne. slot-pushed_ne true w k (λ e. ne (omega arith)))
      ∙ ap (λ e. entries qd s w ++ (e ∷ [])) slot-pushed)

  entries-pushed_ne :
      (amd64 : Bool) (i : ℕ)
      → i < qd.num_writer
      → i ≢ w
      → entries qd (pushed amd64) i ≡ entries qd s i
  unfolding entries
  entries-pushed_ne amd64 i h ne = rw queue (
      contents-congr qd.num_slots (slot qd s i) (s.queues i).head (s.queues i).tail
        (slot qd (pushed amd64) i) (v.head_in i h)
        (λ k l.
          slot-pushed_ne amd64 i k (number-ne qd.num_slots i w k tail l (v.tail_in w own) ne)))
    where
      queue : (pushed amd64).queues i ≡ s.queues i
      queue = ground arith

  -- The branches of `wfmpscq_enqueue`.
  pub enqueue_lem :
      let (status, s') = enqueue true qd payload s in
      (((tail + 1) % qd.num_slots ≡ (s.queues w).head) × (status ≡ fail) × (s' ≡ s))
      ⊎ ((status ≡ ok)
          × (s'.id_cnt ≡ (s.id_cnt + 1) % 2 ^ 64)
          × (entries qd s' w
              ≡ entries qd s w ++ ((to_uint s.id_cnt, load payload 0 qd.node_data_size) ∷ []))
          × ((i : ℕ) → i < qd.num_writer → i ≢ w → entries qd s' i ≡ entries qd s i))
  unfolding enqueue
  enqueue_lem = elim (Bool-cases ((tail + 1) % qd.num_slots == (s.queues w).head)) [
    | inl full ↦ rw full (inl (eq_of_== _ _ full, refl, refl))
    | inr room ↦
        rw room (inr (refl, refl, entries-pushed (ne_of_== _ _ room), entries-pushed_ne true))
  ]

  -- `wfmpscq_enqueue` keeps all indices inside the rings.
  pub enqueue-IsValid : (amd64 : Bool) → IsValid qd (enqueue amd64 qd payload s).1
  unfolding enqueue
  enqueue-IsValid amd64 = record {
    head_in = λ i h. ground (arith, v.head_in i h);
    tail_in = λ i h. ground (arith, v.tail_in i h, v.tail_in w own, after-lt qd.num_slots tail);
  }

  -- On x86-64, with indices in range and a writer that has a ring, `wfmpscq_enqueue` returns -1
  -- and changes nothing when that ring is full. Otherwise it returns 0, counts the id, appends the
  -- message to that ring under the id, and leaves the rings of the other writers as they are.
  pub enqueue-entries :
      (i : ℕ)
      → i < qd.num_writer
      → let (status, s') = enqueue true qd payload s in
        (((tail + 1) % qd.num_slots ≡ (s.queues w).head) × (status ≡ fail) × (s' ≡ s))
        ⊎ ((status ≡ ok)
            × (s'.id_cnt ≡ (s.id_cnt + 1) % 2 ^ 64)
            × (entries qd s' i ≡ (
                if i == w
                then entries qd s w ++ ((to_uint s.id_cnt, load payload 0 qd.node_data_size) ∷ [])
                else entries qd s i)))
  enqueue-entries i h = elim enqueue_lem [
    | inl full ↦ inl full
    | inr (done, cnt, new, old) ↦ elim (ℕ_discrete i w) [
      | yes e ↦
          inr
            (done, cnt, rw (==_of_eq i w e) (ap (entries qd (enqueue true qd payload s).1) e ∙ new))
      | no ne ↦ inr (done, cnt, rw (==_of_ne i w ne) (old i h ne))
    ]
  ]
