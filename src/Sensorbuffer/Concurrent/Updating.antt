-- ===== src/Sensorbuffer/Concurrent/Updating.antt =====
-- The steps of the writer of src/sensorbuffer.c keep what the reader knows.
use mathlib.Core.Path.{subst}
use native.Mathlib.Nat.{zero-add}
use librtipc.Prelude.{ℕ, ◌≡◌, inl, inr, refl, sym, arith, update, length}
use librtipc.Memory.{Bytes}
use librtipc.Memory.Slots.{load, load_congr}
use librtipc.Sensorbuffer.Concurrent.{
  Writer, Reader, System, invalidated, r_cleared, byte_filled, v_set, last_set,
}
use librtipc.Sensorbuffer.Concurrent.Invariant.{Numbered, WriterKnows, ReaderKnows, Inv, spare}

module _ (n size : ℕ) where
  -- When all bytes are copied, the buffer has the message of the last update.
  filled-Numbered :
      (number : ℕ → ℕ) (s : System) (payload : Bytes) (i : ℕ)
      → WriterKnows size number s (Writer.filling payload i size)
      → Numbered (length s.written) (load (s.bytes i) 0 size) s.written
  filled-Numbered number s payload i (v0, (_, one), copied) =
      subst (λ m. Numbered (length s.written) m s.written)
        (sym (load_congr (s.bytes i) payload 0 0 size (λ j l. rw zero-add (copied j l)))) one

  -- Steps of the writer.
  module _ {number : ℕ → ℕ} {s : System} (inv : Inv size number s) where
    pub writer_is : {w : Writer} → s.writer ≡ w → WriterKnows size number s w
    writer_is e = subst (WriterKnows size number s) e inv.writer_knows

    pub reader_is : {r : Reader} → s.reader ≡ r → ReaderKnows size number s r
    reader_is e = subst (ReaderKnows size number s) e inv.reader_knows

    pub begin_update-Inv :
        (payload : Bytes) → s.writer ≡ Writer.idle → Inv size number (invalidated n size s payload)
    begin_update-Inv payload e = record {
      none_done = inv.none_done;
      last_done = inv.last_done;
      bound = λ i. omega (arith, inv.bound i);
      fine = λ i u. ground (arith, inv.fine i u);
      seen_done = inv.seen_done;
      writer_knows = (ground arith, (omega (arith, writer_is e), inl (refl, refl)));
      reader_knows =
          spare size number number s (invalidated n size s payload) s.reader
            (record {
              newer = λ i. omega arith;
              flags = λ i f. f;
              opens = λ i f o. ground arith;
              same = λ i j f o. refl;
              same_seen = refl;
              grows = λ k m o. inr o;
            })
            inv.reader_knows;
    }

    pub clear_r-Inv :
        (payload : Bytes) (i : ℕ)
        → s.writer ≡ Writer.before_r payload i
        → Inv size number (r_cleared n size s payload i)
    clear_r-Inv payload i e = record {
      none_done = inv.none_done;
      last_done = inv.last_done;
      bound = inv.bound;
      fine = λ j u. ground (arith, inv.fine j u);
      seen_done = inv.seen_done;
      writer_knows = let k = writer_is e in (k.0, k.1, λ j l. elim l [ ]);
      reader_knows =
          spare size number number s (r_cleared n size s payload i) s.reader
            (record {
              newer = λ i. omega arith;
              flags = λ j f. ground arith;
              opens = λ j f o. ground arith;
              same = λ j l f o. refl;
              same_seen = refl;
              grows = λ k m o. o;
            })
            inv.reader_knows;
    }

    pub fill_byte-Inv :
        (payload : Bytes) (i k : ℕ)
        → s.writer ≡ Writer.filling payload i k
        → Inv size number (byte_filled n size s payload i k)
    fill_byte-Inv payload i k e = record {
      none_done = inv.none_done;
      last_done = inv.last_done;
      bound = inv.bound;
      fine = λ j u. ground (arith, inv.fine j u);
      seen_done = inv.seen_done;
      writer_knows = (w.0, w.1, λ j l. ground (arith, w.2 j));
      reader_knows =
          spare size number number s (byte_filled n size s payload i k) s.reader
            (record {
              newer = λ i. omega arith;
              flags = λ j f. f;
              opens = λ j f o. ground arith;
              same = λ j l f o. ground arith;
              same_seen = refl;
              grows = λ k m o. o;
            })
            inv.reader_knows;
    }
      where
        w : WriterKnows size number s (Writer.filling payload i k)
        w = writer_is e

    -- The buffer now has the message of the last update.
    pub set_v-Inv :
        (payload : Bytes) (i : ℕ)
        → s.writer ≡ Writer.filling payload i size
        → Inv size (update number i (length s.written)) (v_set n size s payload i)
    set_v-Inv payload i e = record {
      none_done = inv.none_done;
      last_done = λ j q. ground (arith, inv.last_done j q, w.1.0);
      bound = λ j. ground (arith, inv.bound j);
      fine = λ j u. ground (arith, inv.fine j, filled-Numbered number s payload i w);
      seen_done = inv.seen_done;
      writer_knows = (w.1.0, ground arith);
      reader_knows =
          spare size number (update number i (length s.written)) s (v_set n size s payload i)
            s.reader
            (record {
              newer = λ j. ground (arith, inv.bound j);
              flags = λ j f. f;
              opens = λ j f o. ground arith;
              same = λ j l f o. refl;
              same_seen = refl;
              grows = λ k m o. o;
            })
            inv.reader_knows;
    }
      where
        w : WriterKnows size number s (Writer.filling payload i size)
        w = writer_is e

    pub set_last-Inv :
        (payload : Bytes) (i : ℕ)
        → s.writer ≡ Writer.before_last payload i
        → Inv size number (last_set n size s i)
    set_last-Inv payload i e = record {
      none_done = λ q. absurd (cc);
      last_done = λ j q. ground (arith, writer_is e);
      bound = inv.bound;
      fine = λ j u. ground (arith, inv.fine j u);
      seen_done = omega (arith, inv.seen_done);
      writer_knows = (writer_is e).0;
      reader_knows =
          spare size number number s (last_set n size s i) s.reader
            (record {
              newer = λ i. omega arith;
              flags = λ j f. f;
              opens = λ j f o. ground arith;
              same = λ j l f o. refl;
              same_seen = refl;
              grows = λ k m o. o;
            })
            inv.reader_knows;
    }
