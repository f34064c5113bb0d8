-- ===== src/Sensorbuffer/Concurrent/Invariant.antt =====
-- What the writer and the reader of src/sensorbuffer.c know by where they stand.
use librtipc.Prelude.{
  ℕ, suc, ◌+◌, ◌<◌, ◌≤◌, ◌≡◌, ◌⊎◌, sym, ◌∙◌, arith, none, some, List, [], ◌∷◌, length,
}
use librtipc.Memory.{Bytes}
use librtipc.Memory.Slots.{load}
use librtipc.Sensorbuffer.Concurrent.{Writer, Reader, System}

-- `m` is the message of the update with number `k`, from 1.
abbrev pub Numbered : ℕ → List ℕ → List (List ℕ) → Type 0
Numbered k m [] = ⊥
Numbered k m (x ∷ xs) = ((k ≡ suc (length xs)) × (m ≡ x)) ⊎ Numbered k m xs

-- The writer has invalidated buffer `i` and not yet touched the rest of it.
abbrev pub Closing : Writer → ℕ → Type 0
Closing (Writer.before_r payload j) i = j ≡ i
Closing _ i = ⊥

-- The writer is changing the bytes of buffer `i`.
abbrev pub Filling : Writer → ℕ → Type 0
Filling (Writer.filling payload j k) i = j ≡ i
Filling _ i = ⊥

-- Buffer `i` is valid, or was until just now.
abbrev pub Open : System → ℕ → Type 0
Open s i = (s.v i ≡ 1) ⊎ Closing s.writer i

-- `number i` is the number of the update whose message buffer `i` has, 0 if it has none yet: one that is
-- not older than those that had returned when the read began.
abbrev pub Recent : (ℕ → ℕ) → System → ℕ → Type 0
Recent number s i = (1 ≤ number i) × (s.seen ≤ number i)

module _ (size : ℕ) where
  -- The bytes of buffer `i` are the message of its update.
  abbrev pub Whole : (ℕ → ℕ) → System → ℕ → Type 0
  Whole number s i = Numbered (number i) (load (s.bytes i) 0 size) s.written

  -- The update in progress is the last, and the others have returned.
  abbrev pub Newest : System → Bytes → Type 0
  Newest s payload =
      (s.done + 1 ≡ length s.written) × Numbered (length s.written) (load payload 0 size) s.written

  abbrev pub WriterKnows : (ℕ → ℕ) → System → Writer → Type 0
  WriterKnows number s Writer.idle = s.done ≡ length s.written
  WriterKnows number s (Writer.before_r payload i) = (s.v i ≡ 0) × Newest s payload
  WriterKnows number s (Writer.filling payload i k) =
      (s.v i ≡ 0) × Newest s payload × ((j : ℕ) → j < k → s.bytes i j ≡ payload j)
  WriterKnows number s (Writer.before_last payload i) =
      (s.done + 1 ≡ length s.written) × (number i ≡ length s.written)

  -- If its announcement still stands, what the reader has copied are the bytes of a buffer that is open.
  abbrev pub ReaderKnows : (ℕ → ℕ) → System → Reader → Type 0
  ReaderKnows number s (Reader.before_flag out i) = Recent number s i
  ReaderKnows number s (Reader.before_test out i) = Recent number s i
  ReaderKnows number s (Reader.reading out i k) =
      Recent number s i × (s.r i ≡ 1 → Open s i × ((j : ℕ) → j < k → out j ≡ s.bytes i j))
  ReaderKnows number s (Reader.returned out) =
      (k : ℕ) × (s.seen ≤ k) × Numbered k (load out 0 size) s.written
  ReaderKnows number s _ = Unit {0}

  -- Of a buffer that has been written.
  abbrev pub Fine : (ℕ → ℕ) → System → ℕ → Type 0
  Fine number s i =
      ((s.v i ≡ 1) × Whole number s i)
      ⊎ ((Closing s.writer i × Whole number s i) ⊎ Filling s.writer i)

  pub record Inv (number : ℕ → ℕ) (s : System) : Type 0 where
    pub none_done : s.last_written ≡ none → s.done ≡ 0
    pub last_done : (i : ℕ) → s.last_written ≡ some i → (1 ≤ number i) × (s.done ≤ number i)
    pub bound : (i : ℕ) → number i ≤ length s.written
    pub fine : (i : ℕ) → 1 ≤ number i → Fine number s i
    pub seen_done : s.seen ≤ s.done
    pub writer_knows : WriterKnows number s s.writer
    pub reader_knows : ReaderKnows number s s.reader

  -- What a step of the writer may do to the reader.
  pub record Spares (number number' : ℕ → ℕ) (s t : System) : Type 0 where
    pub newer : (i : ℕ) → number i ≤ number' i
    pub flags : (i : ℕ) → t.r i ≡ 1 → s.r i ≡ 1
    pub opens : (i : ℕ) → t.r i ≡ 1 → Open s i → Open t i
    pub same : (i j : ℕ) → t.r i ≡ 1 → Open s i → t.bytes i j ≡ s.bytes i j
    pub same_seen : t.seen ≡ s.seen
    pub grows : (k : ℕ) (m : List ℕ) → Numbered k m s.written → Numbered k m t.written

  Spares-Recent :
      (number number' : ℕ → ℕ) (s t : System) (i : ℕ)
      → Spares number number' s t
      → Recent number s i
      → Recent number' t i
  Spares-Recent number number' s t i h (one, seen) =
      (omega (arith, one, h.newer i), omega (arith, seen, h.newer i, h.same_seen))

  pub spare :
      (number number' : ℕ → ℕ) (s t : System) (rd : Reader)
      → Spares number number' s t
      → ReaderKnows number s rd
      → ReaderKnows number' t rd
  spare number number' s t Reader.idle h k = tt
  spare number number' s t (Reader.looking out) h k = tt
  spare number number' s t (Reader.before_flag out i) h k = Spares-Recent number number' s t i h k
  spare number number' s t (Reader.before_test out i) h k = Spares-Recent number number' s t i h k
  spare number number' s t (Reader.reading out i c) h k = (
    Spares-Recent number number' s t i h k.0,
    λ flag.
        let (o, copied) = k.1 (h.flags i flag) in
        (h.opens i flag o, λ j l. copied j l ∙ sym (h.same i j flag o)),
  )
  spare number number' s t (Reader.returned out) h (k, le, n) =
      (k, omega (arith, le, h.same_seen), h.grows k _ n)
