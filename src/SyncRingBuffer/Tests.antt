-- ===== src/SyncRingBuffer/Tests.antt =====
-- Two threads on a ring of eight bytes: one writes, the other wants to read.
use mathlib.Core.Option.{some-injective}
use mathlib.Core.Path.{subst}
use libpussy.Base.{ℕ, ◌≡◌, refl, sym, true, false, some, List, [], ◌∷◌, update, ok}
use libpussy.Base.Memory.{load, store}
use libpussy.MemoryMap.Zeroed.{zeroed}
use libpussy.RingBuffer.{RingBuffer, mapped, write_ringbuffer}
use libpussy.SyncRingBuffer.{
  Call, srb_read, srb_write, Answer, flag, idle, waiting, inside, worked, SyncRingBuffer, is_free,
  initial, work, call, acquire, do_work, Reach, start, later,
}
use libpussy.SyncRingBuffer.Inv.{is_critical, answer_of, last_of, Replays, linearizable}
use libpussy.SyncRingBuffer.Progress.{Advances, no_deadlock}

abbrev zeros : List ℕ
zeros = 0 ∷ 0 ∷ 0 ∷ 0 ∷ 0 ∷ 0 ∷ 0 ∷ 0 ∷ []

abbrev empty : RingBuffer
empty = record { buf = mapped zeros; size = 8; head = 0; tail = 0 }

abbrev with_two : RingBuffer
with_two = record empty { buf = mapped (5 ∷ 6 ∷ 0 ∷ 0 ∷ 0 ∷ 0 ∷ 0 ∷ 0 ∷ []); tail = 2 }

abbrev two_bytes : Call
two_bytes = srb_write (5 ∷ 6 ∷ []) 2

abbrev both_called : SyncRingBuffer
both_called = record (initial empty) {
  place = update (update (λ i. idle) 0 (waiting two_bytes)) 1 (waiting (srb_read 9));
}

abbrev writing : SyncRingBuffer
writing = record both_called {
  lock = some 0;
  place = update both_called.place 0 (inside two_bytes);
}

abbrev written : SyncRingBuffer
written = record writing {
  ringbuf = with_two;
  place = update writing.place 0 (worked two_bytes (flag true));
  log = record { thread = 0; call = two_bytes; answer = flag true } ∷ [];
}

write_two : work zeroed 4 two_bytes empty ≡ ok (flag true, with_two)
unfolding work write_ringbuffer load store
write_two = refl

written-Reach : Reach zeroed 4 (initial empty) written
unfolding initial is_free
written-Reach =
    later
      (later (later (later start (call 0 two_bytes refl)) (call 1 (srb_read 9) refl))
        (acquire 0 two_bytes refl refl))
      (do_work 0 two_bytes (flag true) with_two refl write_two)

linearizable_example :
    Replays zeroed 4 empty written.log with_two
    × ((i : ℕ) (e : Call × Answer)
        → answer_of (written.place i) ≡ some e
        → last_of i written.log ≡ some e)
    × ((i j : ℕ)
        → is_critical (written.place i) ≡ true
        → is_critical (written.place j) ≡ true
        → i ≡ j)
linearizable_example = linearizable zeroed 4 empty written written-Reach

waits : is_free (written.place 1) ≡ false
unfolding is_free initial
waits = refl

not_inside : (c c' : Call) (a : Answer) → ¬ (worked c' a ≡ inside c)
not_inside c c' a e = cc

returns :
    (j : ℕ) (c : Call)
    → written.lock ≡ some j
    → written.place j ≡ inside c
    → (done : Answer × RingBuffer) × (work zeroed 4 c written.ringbuf ≡ ok done)
unfolding initial
returns j c held at = absurd (
    not_inside c two_bytes (flag true)
      (subst (λ x. written.place x ≡ inside c) (sym (some-injective 0 j held)) at))

no_deadlock_example : Advances zeroed 4 written
no_deadlock_example = no_deadlock zeroed 4 empty written 1 written-Reach waits returns
