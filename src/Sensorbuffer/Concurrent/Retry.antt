-- ===== src/Sensorbuffer/Concurrent/Retry.antt =====
-- When the reader of src/sensorbuffer.c has to look a buffer up again.
use native.Mathlib.Nat.{mod-add-mod}
use mathlib.Core.Path.{subst}
use librtipc.Prelude.{
  ℕ, ◌+◌, ◌-◌, ◌%◌, ◌≤◌, ◌≡◌, ◌≢◌, ◌⊎◌, inl, inr, refl, sym, ap, ◌∙◌, arith, dec_lt, some, update,
}
use librtipc.Memory.{Bytes}
use librtipc.Sensorbuffer.{next_buffer}
use librtipc.Sensorbuffer.Concurrent.{
  Writer, Reader, System, invalidated, r_cleared, byte_filled, v_set, last_set, buffer_found, Step,
  begin_update, clear_r, fill_byte, set_v, set_last, begin_read, find_nothing, find, set_r, invalid,
  valid, read_byte, torn, accept, leave, Reach, start, later,
}
use librtipc.Sensorbuffer.Concurrent.Pace.{
  mod-apart, Early, Kept, WriterAt, ReaderAt, Pace, Leaves-ReaderAt,
}

module _ (n size : ℕ) where
  module _ {s : System} (p : Pace n size s) where
    writer_is : {w : Writer} → s.writer ≡ w → WriterAt n size s w
    writer_is e = subst (WriterAt n size s) e p.writer_at

    reader_is : {r : Reader} → s.reader ≡ r → ReaderAt n size s r
    reader_is e = subst (ReaderAt n size s) e p.reader_at

    -- The buffer of the update in progress is not the one that the reader has looked up.
    elsewhere :
        (i j : ℕ)
        → j ≡ s.done % n
        → i ≡ (s.found - 1) % n
        → Early n size s
        → s.found ≤ s.done
        → 1 ≤ s.found
        → i ≢ j
    elsewhere i j at place early past one e =
        let far =
          mod-apart n s.done (s.found - 1) (sym at ∙ sym e ∙ place) (omega (arith, past, one)) in
        omega (arith, far, early, one)

    -- It is not the one that was written last, if there are two.
    not_last : (i j : ℕ) → j ≡ s.done % n → s.last_written ≡ some i → 2 ≤ n → i ≢ j
    not_last i j at e two same =
        let (one, place, held) = p.last i e in
        let far =
          mod-apart n s.done (s.done - 1) (sym at ∙ sym same ∙ place) (omega (arith, one)) in
        omega (arith, far, one)

    begin_update-Pace :
        (payload : Bytes) → s.writer ≡ Writer.idle → Pace n size (invalidated n size s payload)
    begin_update-Pace payload e = record {
      next = p.next;
      last = λ i q.
          let (one, place, held) = p.last i q in
          (one, place, λ two. let other = not_last i _ p.next q two in ground (arith, held two));
      writer_at = p.next;
      reader_at =
          Leaves-ReaderAt n size s (invalidated n size s payload) s.reader
            (record {
              same_found = refl;
              later = omega arith;
              keeps_v = λ i at early past one h.
                  let other = elsewhere i _ p.next at early past one in ground arith;
              keeps_r = λ i at early past one h. h;
            })
            p.reader_at;
    }

    clear_r-Pace :
        (payload : Bytes) (j : ℕ)
        → s.writer ≡ Writer.before_r payload j
        → Pace n size (r_cleared n size s payload j)
    clear_r-Pace payload j e = record {
      next = p.next;
      last = p.last;
      writer_at = writer_is e;
      reader_at =
          Leaves-ReaderAt n size s (r_cleared n size s payload j) s.reader
            (record {
              same_found = refl;
              later = omega arith;
              keeps_v = λ i at early past one h. h;
              keeps_r = λ i at early past one h.
                  let other = elsewhere i j (writer_is e) at early past one in ground arith;
            })
            p.reader_at;
    }

    fill_byte-Pace :
        (payload : Bytes) (j k : ℕ)
        → s.writer ≡ Writer.filling payload j k
        → Pace n size (byte_filled n size s payload j k)
    fill_byte-Pace payload j k e = record {
      next = p.next;
      last = p.last;
      writer_at = writer_is e;
      reader_at =
          Leaves-ReaderAt n size s (byte_filled n size s payload j k) s.reader
            (record {
              same_found = refl;
              later = omega arith;
              keeps_v = λ i at early past one h. h;
              keeps_r = λ i at early past one h. h;
            })
            p.reader_at;
    }

    set_v-Pace :
        (payload : Bytes) (j : ℕ)
        → s.writer ≡ Writer.filling payload j size
        → Pace n size (v_set n size s payload j)
    set_v-Pace payload j e = record {
      next = p.next;
      last = λ i q.
          let (one, place, held) = p.last i q in
          (one, place, λ two. let h = held two in ground arith);
      writer_at = (writer_is e, ground arith);
      reader_at =
          Leaves-ReaderAt n size s (v_set n size s payload j) s.reader
            (record {
              same_found = refl;
              later = omega arith;
              keeps_v = λ i at early past one h. ground arith;
              keeps_r = λ i at early past one h. h;
            })
            p.reader_at;
    }

    set_last-Pace :
        (payload : Bytes) (j : ℕ)
        → s.writer ≡ Writer.before_last payload j
        → Pace n size (last_set n size s j)
    unfolding next_buffer
    set_last-Pace payload j e =
        let (at, v) = writer_is e in
        record {
          next = ap (λ a. (a + 1) % n) at ∙ mod-add-mod s.done n 1;
          last = λ i q.
              let same : j ≡ i = cc q in
              (
                omega arith,
                sym same ∙ at ∙ ap (λ a. a % n) (omega arith),
                λ two. ap s.v (sym same) ∙ v,
              );
          writer_at = tt;
          reader_at =
              Leaves-ReaderAt n size s (last_set n size s j) s.reader
                (record {
                  same_found = refl;
                  later = omega arith;
                  keeps_v = λ i at early past one h. h;
                  keeps_r = λ i at early past one h. h;
                })
                p.reader_at;
        }

    -- A step of the reader that touches nothing but its own position
    moved :
        (rd : Reader)
        → ReaderAt n size (record s { reader = rd }) rd
        → Pace n size (record s { reader = rd })
    moved rd k = record { next = p.next; last = p.last; writer_at = p.writer_at; reader_at = k }

    find-Pace :
        (out : Bytes) (i : ℕ) → s.last_written ≡ some i → Pace n size (buffer_found n size s out i)
    find-Pace out i e =
        let (one, place, held) = p.last i e in
        record {
          next = p.next;
          last = p.last;
          writer_at = p.writer_at;
          reader_at = record {
            some_done = one;
            place = place;
            past = omega arith;
            holds = λ early. held (omega (arith, early));
          };
        }

    set_r-Pace :
        (out : Bytes) (i : ℕ)
        → Kept n size s i
        → Pace n size (record s { r = update s.r i 1; reader = Reader.before_test out i })
    set_r-Pace out i k = record {
      next = p.next;
      last = p.last;
      writer_at = p.writer_at;
      reader_at = (k, λ early. ground arith);
    }

    Step-Pace : {t : System} → Step n size s t → Pace n size t
    Step-Pace (begin_update payload e) = begin_update-Pace payload e
    Step-Pace (clear_r payload j e) = clear_r-Pace payload j e
    Step-Pace (fill_byte payload j k e l) = fill_byte-Pace payload j k e
    Step-Pace (set_v payload j e) = set_v-Pace payload j e
    Step-Pace (set_last payload j e) = set_last-Pace payload j e
    Step-Pace (begin_read out e) = record {
      next = p.next;
      last = p.last;
      writer_at = p.writer_at;
      reader_at = tt;
    }
    Step-Pace (find_nothing out e h) = moved Reader.idle tt
    Step-Pace (find out i e h) = find-Pace out i h
    Step-Pace (set_r out i e) = set_r-Pace out i (reader_is e)
    Step-Pace (invalid out i e h) = moved (Reader.looking out) tt
    Step-Pace (valid out i e h) = moved (Reader.reading out i 0) (reader_is e)
    Step-Pace (read_byte out i k e l) = moved (Reader.reading _ i (k + 1)) (reader_is e)
    Step-Pace (torn out i e h) = moved (Reader.looking out) tt
    Step-Pace (accept out i e h) = moved (Reader.returned out) tt
    Step-Pace (leave out e) = moved Reader.idle tt

  Reach-Pace : {s : System} → Reach n size s → Pace n size s
  unfolding next_buffer
  Reach-Pace (start r v bytes) = record {
    next = refl;
    last = λ i e. absurd (cc e);
    writer_at = tt;
    reader_at = tt;
  }
  Reach-Pace (later rs st) = Step-Pace (Reach-Pace rs) st

  -- The reader is about to look the buffer up again, since it is not valid or its own flag is reset.
  abbrev pub Retries : System → Type 0
  Retries s =
      (out : Bytes) × (i : ℕ) × (((s.reader ≡ Reader.before_test out i) × (s.v i ≢ 1))
        ⊎ ((s.reader ≡ Reader.reading out i size) × (s.r i ≢ 1)))

  -- In every interleaving, when `sensorbuffer_read` has to look the buffer up again, at least as many
  -- updates have returned since it last did as there are other buffers.
  pub retry_late : {s : System} → Reach n size s → Retries s → s.found + n ≤ s.done + 1
  retry_late {s} rs (out, i, inl (e, broken)) =
      let p = Reach-Pace rs in
      elim (dec_lt (s.done + 1) (s.found + n)) [
        | yes early ↦ absurd (broken ((reader_is p e).0.holds early))
        | no late ↦ omega (arith, late)
      ]
  retry_late {s} rs (out, i, inr (e, reset)) =
      let p = Reach-Pace rs in
      elim (dec_lt (s.done + 1) (s.found + n)) [
        | yes early ↦ absurd (reset ((reader_is p e).1 early))
        | no late ↦ omega (arith, late)
      ]
