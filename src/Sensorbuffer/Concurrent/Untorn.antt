-- ===== src/Sensorbuffer/Concurrent/Untorn.antt =====
-- What a reader of src/sensorbuffer.c gets in any interleaving with the writer.
use mathlib.Core.Path.{subst}
use native.Mathlib.Nat.{zero-add}
use librtipc.Prelude.{
  ℕ, ◌+◌, ◌≤◌, ◌≡◌, ◌⊎◌, inl, inr, refl, sym, arith, none, some, List, [], ◌∷◌, update,
}
use librtipc.Memory.{Bytes}
use librtipc.Memory.Slots.{load, load_congr}
use librtipc.Sensorbuffer.Concurrent.{
  Writer, Reader, System, read_begun, buffer_found, Step, begin_update, clear_r, fill_byte, set_v,
  set_last, begin_read, find_nothing, find, set_r, invalid, valid, read_byte, torn, accept, leave,
  Reach, start, later,
}
use librtipc.Sensorbuffer.Concurrent.Invariant.{
  Numbered, Recent, Closing, Filling, Whole, WriterKnows, ReaderKnows, Inv,
}
use librtipc.Sensorbuffer.Concurrent.Updating.{
  reader_is, begin_update-Inv, clear_r-Inv, fill_byte-Inv, set_v-Inv, set_last-Inv,
}

-- One of the messages of the list.
abbrev pub OneOf : List ℕ → List (List ℕ) → Type 0
OneOf m [] = ⊥
OneOf m (x ∷ xs) = (m ≡ x) ⊎ OneOf m xs

-- A message of a certain update is one of the messages.
Numbered-OneOf : (k : ℕ) (m : List ℕ) (ms : List (List ℕ)) → Numbered k m ms → OneOf m ms
Numbered-OneOf k m [] h = h
Numbered-OneOf k m (x ∷ xs) (inl h) = inl h.1
Numbered-OneOf k m (x ∷ xs) (inr h) = inr (Numbered-OneOf k m xs h)

module _ (n size : ℕ) where
  -- The bytes of an open buffer in use are whole.
  Whole-of_open :
      (number : ℕ → ℕ) (s : System) (i : ℕ) (w : Writer)
      → WriterKnows size number s w
      → (s.v i ≡ 1) ⊎ Closing w i
      → ((s.v i ≡ 1) × Whole size number s i)
        ⊎ ((Closing w i × Whole size number s i) ⊎ Filling w i)
      → Whole size number s i
  Whole-of_open number s i w k o (inl (a, h)) = h
  Whole-of_open number s i w k o (inr (inl (a, h))) = h
  Whole-of_open number s i (Writer.filling payload j c) k (inl v1) (inr (inr q)) =
      absurd (ground arith)
  Whole-of_open number s i (Writer.filling payload j c) k (inr x) (inr (inr q)) = absurd x
  Whole-of_open number s i Writer.idle k o (inr (inr q)) = absurd q
  Whole-of_open number s i (Writer.before_r payload j) k o (inr (inr q)) = absurd q
  Whole-of_open number s i (Writer.before_last payload j) k o (inr (inr q)) = absurd q

  -- Steps of the reader.
  module _ {number : ℕ → ℕ} {s : System} (inv : Inv size number s) where
    -- One that touches nothing but its own position.
    moved :
        (rd : Reader) → ReaderKnows size number s rd → Inv size number (record s { reader = rd })
    moved rd k = record {
      none_done = inv.none_done;
      last_done = inv.last_done;
      bound = inv.bound;
      fine = inv.fine;
      seen_done = inv.seen_done;
      writer_knows = inv.writer_knows;
      reader_knows = k;
    }

    begin_read-Inv : (out : Bytes) → Inv size number (read_begun n size s out)
    begin_read-Inv out = record {
      none_done = inv.none_done;
      last_done = inv.last_done;
      bound = inv.bound;
      fine = inv.fine;
      seen_done = omega arith;
      writer_knows = inv.writer_knows;
      reader_knows = tt;
    }

    set_r-Inv :
        (out : Bytes) (i : ℕ)
        → Recent number s i
        → Inv size number (record s { r = update s.r i 1; reader = Reader.before_test out i })
    set_r-Inv out i u = record {
      none_done = inv.none_done;
      last_done = inv.last_done;
      bound = inv.bound;
      fine = inv.fine;
      seen_done = inv.seen_done;
      writer_knows = inv.writer_knows;
      reader_knows = u;
    }

    -- The buffer that was written last has a message that is not older than the read.
    last-Recent : (i : ℕ) → s.last_written ≡ some i → Recent number s i
    last-Recent i e =
        let (one, done) = inv.last_done i e in (one, omega (arith, done, inv.seen_done))

    find-Inv :
        (out : Bytes) (i : ℕ)
        → s.last_written ≡ some i
        → Inv size number (buffer_found n size s out i)
    find-Inv out i e = record {
      none_done = inv.none_done;
      last_done = inv.last_done;
      bound = inv.bound;
      fine = inv.fine;
      seen_done = inv.seen_done;
      writer_knows = inv.writer_knows;
      reader_knows = last-Recent i e;
    }

    accept-Inv :
        (out : Bytes) (i : ℕ)
        → s.reader ≡ Reader.reading out i size
        → s.r i ≡ 1
        → Inv size number (record s { reader = Reader.returned out })
    accept-Inv out i e flag = moved (Reader.returned out) (
      number i,
      k.0.1,
      subst (λ m. Numbered (number i) m s.written)
          (load_congr (s.bytes i) out 0 0 size (λ j l. rw zero-add (sym ((k.1 flag).1 j l))))
          (Whole-of_open number s i s.writer inv.writer_knows (k.1 flag).0 (inv.fine i k.0.0)),
    )
      where
        k : ReaderKnows size number s (Reader.reading out i size)
        k = reader_is n size inv e

  Step-Inv :
      {number : ℕ → ℕ} {s t : System}
      → Step n size s t
      → Inv size number s
      → (f : ℕ → ℕ) × Inv size f t
  Step-Inv (begin_update payload e) v = (_, begin_update-Inv n size v payload e)
  Step-Inv (clear_r payload i e) v = (_, clear_r-Inv n size v payload i e)
  Step-Inv (fill_byte payload i k e l) v = (_, fill_byte-Inv n size v payload i k e)
  Step-Inv (set_v payload i e) v = (_, set_v-Inv n size v payload i e)
  Step-Inv (set_last payload i e) v = (_, set_last-Inv n size v payload i e)
  Step-Inv (begin_read out e) v = (_, begin_read-Inv v out)
  Step-Inv (find_nothing out e h) v = (_, moved v Reader.idle tt)
  Step-Inv (find out i e h) v = (_, find-Inv v out i h)
  Step-Inv (set_r out i e) v = (_, set_r-Inv v out i (reader_is n size v e))
  Step-Inv (invalid out i e h) v = (_, moved v (Reader.looking out) tt)
  Step-Inv (valid out i e h) v =
      (_, moved v (Reader.reading out i 0) (reader_is n size v e, λ f. (inl h, λ j l. elim l [ ])))
  Step-Inv {s = s} (read_byte out i k e l) v =
      let kn = reader_is n size v e in
      (
        _,
        moved v (Reader.reading (update out k (s.bytes i k)) i (k + 1))
            (kn.0, λ f. ((kn.1 f).0, λ j h. ground (arith, (kn.1 f).1 j))),
      )
  Step-Inv (torn out i e h) v = (_, moved v (Reader.looking out) tt)
  Step-Inv (accept out i e h) v = (_, accept-Inv v out i e h)
  Step-Inv (leave out e) v = (_, moved v Reader.idle tt)

  Reach-Inv : {s : System} → Reach n size s → (f : ℕ → ℕ) × Inv size f s
  Reach-Inv (start r v bytes) = (
    λ _. 0,
    record {
      none_done = λ e. refl;
      last_done = λ i e. absurd (cc);
      bound = λ i. omega arith;
      fine = λ i u. absurd (omega (arith, u));
      seen_done = omega arith;
      writer_knows = refl;
      reader_knows = tt;
    },
  )
  Reach-Inv (later rs st) = let (f, v) = Reach-Inv rs in Step-Inv st v

  -- However the writer and the reader are interleaved, what a call of `sensorbuffer_read` returns is
  -- one of the messages that were handed to `sensorbuffer_update`, whole: never a mixture.
  pub untorn :
      {s : System} (out : Bytes)
      → Reach n size s
      → s.reader ≡ Reader.returned out
      → OneOf (load out 0 size) s.written
  untorn out rs e =
      let (f, v) = Reach-Inv rs in
      let (k, seen, h) = reader_is n size v e in Numbered-OneOf k (load out 0 size) _ h

  -- However the writer and the reader are interleaved, what a call of `sensorbuffer_read` returns is the
  -- whole message of an update, never a mixture, and one that is not older than any that had returned when
  -- the call began.
  pub up_to_date :
      {s : System} (out : Bytes)
      → Reach n size s
      → s.reader ≡ Reader.returned out
      → (k : ℕ) × (s.seen ≤ k) × Numbered k (load out 0 size) s.written
  up_to_date out rs e = let (f, v) = Reach-Inv rs in reader_is n size v e

  -- However the writer and the reader are interleaved, when a call of `sensorbuffer_read` finds no buffer, which makes it fail,
  -- no update had returned when the call began.
  pub nothing_yet :
      {s : System} (out : Bytes)
      → Reach n size s
      → s.reader ≡ Reader.looking out
      → s.last_written ≡ none
      → s.seen ≡ 0
  nothing_yet out rs e h = let (f, v) = Reach-Inv rs in omega (arith, v.seen_done, v.none_done h)
