-- ===== src/RingBuffer/Tests.antt =====
-- Runs of the ring buffer of src/ringbuffer_base.c, with pages of four bytes, and the theorems at
-- concrete rings.
use libpussy.Base.{
  ℕ, ◌^◌, ◌<◌, max, ◌≡◌, ◌⊎◌, refl, true, false, none, List, [], ◌∷◌, arith, ok, undefined,
}
use libpussy.Base.Memory.{load, store}
use libpussy.Align.{align_unsigned}
use libpussy.MemoryMap.Zeroed.{zeroed, zeroed-IsMemoryMap}
use libpussy.RingBuffer.{
  RingBuffer, ReadResult, mapped, nullptr, round_size, grow_ringbuffer, shrink_ringbuffer,
  write_ringbuffer, read_ringbuffer,
}
use libpussy.RingBuffer.Inv.{IsRing, used}
use libpussy.RingBuffer.Write.{Appended, write_ringbuffer-accepts}
use libpussy.RingBuffer.Read.{Taken, read_ringbuffer-ordered, read_ringbuffer-split}
use libpussy.RingBuffer.Grow.{Grown, grow_ringbuffer_lem}
use libpussy.RingBuffer.Shrink.{Shrunk, shrink_ringbuffer-ordered}
use libpussy.RingBuffer.Shrink.Reclaim.{StopsOnMremap}
use libpussy.RingBuffer.Shrink.Split.{ShrunkSplit, shrink_ringbuffer-split}

abbrev bytes8 : List ℕ
bytes8 = 1 ∷ 2 ∷ 3 ∷ 4 ∷ 5 ∷ 6 ∷ 7 ∷ 8 ∷ []

-- 3, 4 and 5 are held.
abbrev straight : RingBuffer
straight = record { buf = mapped bytes8; size = 8; head = 2; tail = 5 }

-- 7, 8 and 1 are held.
abbrev split : RingBuffer
split = record { buf = mapped bytes8; size = 8; head = 6; tail = 1 }

abbrev unset : RingBuffer
unset = record { buf = nullptr; size = 0; head = 0; tail = 0 }

straight-IsRing : IsRing (2 ^ 2) straight bytes8
straight-IsRing = record {
  live = refl;
  extent = refl;
  small = omega arith;
  head_in = omega arith;
  tail_in = omega arith;
  pages = refl;
}

split-IsRing : IsRing (2 ^ 2) split bytes8
split-IsRing = record {
  live = refl;
  extent = refl;
  small = omega arith;
  head_in = omega arith;
  tail_in = omega arith;
  pages = refl;
}

write_goes_round :
    write_ringbuffer straight (10 ∷ 11 ∷ 12 ∷ 13 ∷ []) 4
    ≡ ok (true, record straight { buf = mapped (13 ∷ 2 ∷ 3 ∷ 4 ∷ 5 ∷ 10 ∷ 11 ∷ 12 ∷ []); tail = 1 })
unfolding write_ringbuffer load store
write_goes_round = refl

write_ringbuffer-accepts_example :
    Appended
      (2 ^ 2)
      straight
      bytes8
      (10 ∷ 11 ∷ 12 ∷ 13 ∷ [])
      (write_ringbuffer straight (10 ∷ 11 ∷ 12 ∷ 13 ∷ []) 4)
unfolding used
write_ringbuffer-accepts_example =
    write_ringbuffer-accepts straight-IsRing (10 ∷ 11 ∷ 12 ∷ 13 ∷ []) 4 (omega arith) (omega arith)
      (omega arith)

read_ringbuffer-ordered_example : Taken (2 ^ 2) straight bytes8 2 (read_ringbuffer straight 2)
read_ringbuffer-ordered_example =
    read_ringbuffer-ordered straight-IsRing 2 (omega arith) (omega arith)

read_ringbuffer-split_example :
    (read_ringbuffer split 2 ≡ undefined)
    ⊎ ((out : ReadResult) × (read_ringbuffer split 2 ≡ ok out) × (8 < out.ring.head))
read_ringbuffer-split_example =
    read_ringbuffer-split 2 split-IsRing (omega arith) (omega arith) (omega arith)

grow_ringbuffer_lem_example :
    let result = grow_ringbuffer zeroed (2 ^ 2) split 10 in
    let n = round_size zeroed (2 ^ 2) 10 in
    Grown (2 ^ 2) split bytes8 (max 8 n) result
    ⊎ ((8 < n) × (zeroed.mremap bytes8 n ≡ none) × (result ≡ ok (false, split)))
grow_ringbuffer_lem_example =
    grow_ringbuffer_lem zeroed 2 10 zeroed-IsMemoryMap (omega arith) split-IsRing (omega arith)

shrink_ringbuffer-ordered_example :
    let result = shrink_ringbuffer zeroed (2 ^ 2) straight 1 in
    Shrunk (2 ^ 2) straight bytes8 (round_size zeroed (2 ^ 2) 1) result
    ⊎ StopsOnMremap zeroed result
shrink_ringbuffer-ordered_example =
    shrink_ringbuffer-ordered zeroed 2 1 zeroed-IsMemoryMap (omega arith) straight-IsRing
      (omega arith) (omega arith)

shrink_ringbuffer-split_example :
    let result = shrink_ringbuffer zeroed (2 ^ 2) split 1 in
    ShrunkSplit 2 split bytes8 (round_size zeroed (2 ^ 2) 1) result ⊎ StopsOnMremap zeroed result
unfolding round_size align_unsigned
shrink_ringbuffer-split_example =
    shrink_ringbuffer-split zeroed 2 1 zeroed-IsMemoryMap (omega arith) split-IsRing (omega arith)
      (omega arith) (omega arith) (omega arith)
