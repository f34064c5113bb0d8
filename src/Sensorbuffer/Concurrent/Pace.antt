-- ===== src/Sensorbuffer/Concurrent/Pace.antt =====
-- How far the writer of src/sensorbuffer.c is from the buffer that the reader has looked up.
use native.Mathlib.Nat.{mod-add-mod, mod-lt}
use librtipc.Prelude.{ℕ, ◌+◌, ◌-◌, ◌%◌, ◌<◌, ◌≤◌, ◌≡◌, sym, ap, ◌∙◌, arith, dec_lt, some}
use librtipc.Ring.{mod-wrap}
use librtipc.Sensorbuffer.{next_buffer}
use librtipc.Sensorbuffer.Concurrent.{Writer, Reader, System}

-- Two numbers with the same remainder are at least the modulus apart.
pub mod-apart : (n a b : ℕ) → a % n ≡ b % n → b < a → b + n ≤ a
mod-apart n a b e l = elim (dec_lt a (b + n)) [
  | no far ↦ omega (arith, far)
  | yes near ↦ absurd (
      let f : b % n < n = mod-lt b (omega arith) in
      let same : (b % n + (a - b)) % n ≡ b % n =
        mod-add-mod b n (a - b) ∙ ap (λ x. x % n) (omega arith) ∙ e in
      ground (arith, mod-wrap n (b % n + (a - b)) (omega arith)))
]

module _ (n size : ℕ) where
  -- Fewer updates have returned since the reader looked the buffer up than there are other buffers.
  abbrev pub Early : System → Type 0
  Early s = s.done + 1 < s.found + n

  -- Buffer `i`, whose valid flag is `v`, is that which the reader has looked up.
  pub record KeptAt (done found i v : ℕ) : Type 0 where
    pub some_done : 1 ≤ found
    pub place : i ≡ (found - 1) % n
    pub past : found ≤ done
    pub holds : done + 1 < found + n → v ≡ 1

  abbrev pub Kept : System → ℕ → Type 0
  Kept s i = KeptAt s.done s.found i (s.v i)

  abbrev pub WriterAt : System → Writer → Type 0
  WriterAt s Writer.idle = Unit {0}
  WriterAt s (Writer.before_r payload i) = i ≡ s.done % n
  WriterAt s (Writer.filling payload i k) = i ≡ s.done % n
  WriterAt s (Writer.before_last payload i) = (i ≡ s.done % n) × (s.v i ≡ 1)

  abbrev pub ReaderAt : System → Reader → Type 0
  ReaderAt s (Reader.before_flag out i) = Kept s i
  ReaderAt s (Reader.before_test out i) = Kept s i × (Early s → s.r i ≡ 1)
  ReaderAt s (Reader.reading out i k) = Kept s i × (Early s → s.r i ≡ 1)
  ReaderAt s _ = Unit {0}

  pub record Pace (s : System) : Type 0 where
    pub next : next_buffer n s.last_written ≡ s.done % n
    pub last :
        (i : ℕ)
        → s.last_written ≡ some i
        → (1 ≤ s.done) × (i ≡ (s.done - 1) % n) × (2 ≤ n → s.v i ≡ 1)
    pub writer_at : WriterAt s s.writer
    pub reader_at : ReaderAt s s.reader

  -- What a step of the writer may do to the reader.
  pub record Leaves (s t : System) : Type 0 where
    pub same_found : t.found ≡ s.found
    pub later : s.done ≤ t.done
    pub keeps_v :
        (i : ℕ)
        → i ≡ (s.found - 1) % n
        → Early s
        → s.found ≤ s.done
        → 1 ≤ s.found
        → s.v i ≡ 1
        → t.v i ≡ 1
    pub keeps_r :
        (i : ℕ)
        → i ≡ (s.found - 1) % n
        → Early s
        → s.found ≤ s.done
        → 1 ≤ s.found
        → s.r i ≡ 1
        → t.r i ≡ 1

  Leaves-Kept : (s t : System) (i : ℕ) → Leaves s t → Kept s i → Kept t i
  Leaves-Kept s t i l k = record {
    some_done = omega (arith, l.same_found, k.some_done);
    place = k.place ∙ ap (λ f. (f - 1) % n) (sym l.same_found);
    past = omega (arith, l.same_found, l.later, k.past);
    holds = λ e.
        let before : Early s = omega (arith, e, l.same_found, l.later) in
        l.keeps_v i k.place before k.past k.some_done (k.holds before);
  }

  Leaves-r :
      (s t : System) (i : ℕ) → Leaves s t → Kept s i → (Early s → s.r i ≡ 1) → Early t → t.r i ≡ 1
  Leaves-r s t i l k h e =
      let before : Early s = omega (arith, e, l.same_found, l.later) in
      l.keeps_r i k.place before k.past k.some_done (h before)

  pub Leaves-ReaderAt : (s t : System) (rd : Reader) → Leaves s t → ReaderAt s rd → ReaderAt t rd
  Leaves-ReaderAt s t Reader.idle l h = tt
  Leaves-ReaderAt s t (Reader.looking out) l h = tt
  Leaves-ReaderAt s t (Reader.before_flag out i) l h = Leaves-Kept s t i l h
  Leaves-ReaderAt s t (Reader.before_test out i) l h =
      (Leaves-Kept s t i l h.0, Leaves-r s t i l h.0 h.1)
  Leaves-ReaderAt s t (Reader.reading out i k) l h =
      (Leaves-Kept s t i l h.0, Leaves-r s t i l h.0 h.1)
  Leaves-ReaderAt s t (Reader.returned out) l h = tt
