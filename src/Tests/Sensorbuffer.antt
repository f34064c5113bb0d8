-- ===== src/Tests/Sensorbuffer.antt =====
-- The buffer of src/sensorbuffer.c with two buffers of one byte.
use librtipc.Prelude.{
  ℕ, ◌≤◌, leb, ◌≡◌, ◌≢◌, inl, ◌&&◌, if◌then◌else◌, ◌+◌, refl, arith, some, update,
}
use librtipc.Memory.{Bytes}
use librtipc.Memory.Slots.{load}
use librtipc.Sensorbuffer.{Descriptor, Segment, next_buffer, setup}
use librtipc.Sensorbuffer.Sequential.{IsValid, setup-clears}
use librtipc.Sensorbuffer.Concurrent
use librtipc.Sensorbuffer.Concurrent.{Writer, Reader, System, Reach}
use librtipc.Sensorbuffer.Concurrent.Invariant.{Numbered}
use librtipc.Sensorbuffer.Concurrent.Retry.{retry_late}
use librtipc.Sensorbuffer.Concurrent.Untorn.{up_to_date}

abbrev blank : Bytes
blank = λ a. 0

abbrev message : Bytes
message = λ a. 7 + a

-- The state when the message has been written whole
abbrev written : System
written =
    Concurrent.last_set 2 1
      (Concurrent.v_set 2 1
        (Concurrent.byte_filled 2 1
          (Concurrent.r_cleared 2 1
            (Concurrent.invalidated 2 1 (Concurrent.initial 2 1 (λ i. 0) (λ i. 0) (λ i. blank))
              message)
            message 0)
          message 0 0)
        message 0)
      0

written-Reach : Reach 2 1 written
unfolding next_buffer
written-Reach =
    Reach.later
      (Reach.later
        (Reach.later
          (Reach.later
            (Reach.later (Reach.start (λ i. 0) (λ i. 0) (λ i. blank))
              (Concurrent.begin_update message refl))
            (Concurrent.clear_r message 0 refl))
          (Concurrent.fill_byte message 0 0 refl (omega arith)))
        (Concurrent.set_v message 0 refl))
      (Concurrent.set_last message 0 refl)

abbrev copied : Bytes
copied = update blank 0 (written.bytes 0 0)

abbrev returned : System
returned = record written {
  r = update written.r 0 1;
  reader = Reader.returned copied;
  seen = 1;
  found = 1;
}

-- Then the message is read.
returned-Reach : Reach 2 1 returned
returned-Reach =
    Reach.later
      (Reach.later
        (Reach.later
          (Reach.later
            (Reach.later (Reach.later written-Reach (Concurrent.begin_read blank refl))
              (Concurrent.find blank 0 refl refl))
            (Concurrent.set_r blank 0 refl))
          (Concurrent.valid blank 0 refl refl))
        (Concurrent.read_byte blank 0 0 refl (omega arith)))
      (Concurrent.accept copied 0 refl refl)

up_to_date_example : (k : ℕ) × (1 ≤ k) × Numbered k (load copied 0 1) returned.written
up_to_date_example = up_to_date 2 1 copied returned-Reach refl

abbrev two_buffers : Descriptor
two_buffers = record { obj_id = 1; mem = 64; buffer_data_size = 1; num_buffer = 2 }

abbrev stored : Segment
stored = record { last_written = some 1; buffers = λ i. record { r = 0; v = 1; bytes = message } }

stored-IsValid : IsValid stored
stored-IsValid k e = refl

setup-clears_example :
    (setup 2 stored).buffers 0
    ≡ (if leb 1 0 && leb 0 2 then record (stored.buffers 0) { r = 0; v = 0 } else stored.buffers 0)
setup-clears_example = setup-clears 2 stored 0

-- The reader has looked up buffer 0 of two and set its flag; a second update runs, into buffer 1, and a
-- third resets the valid flag of buffer 0.
abbrev overtaken : (s : System) × Reach 2 1 s
unfolding next_buffer
overtaken =
    let r0 = Reach.later written-Reach (Concurrent.begin_read blank refl) in
    let r1 = Reach.later r0 (Concurrent.find blank 0 refl refl) in
    let r2 = Reach.later r1 (Concurrent.set_r blank 0 refl) in
    let r3 = Reach.later r2 (Concurrent.begin_update message refl) in
    let r4 = Reach.later r3 (Concurrent.clear_r message 1 refl) in
    let r5 = Reach.later r4 (Concurrent.fill_byte message 1 0 refl (omega arith)) in
    let r6 = Reach.later r5 (Concurrent.set_v message 1 refl) in
    let r7 = Reach.later r6 (Concurrent.set_last message 1 refl) in
    (_, Reach.later r7 (Concurrent.begin_update message refl))

invalid_now : overtaken.0.v 0 ≢ 1
unfolding next_buffer
invalid_now = omega arith

retry_late_example : overtaken.0.found + 2 ≤ overtaken.0.done + 1
unfolding next_buffer
retry_late_example = retry_late 2 1 overtaken.1 (blank, 0, inl (refl, invalid_now))
