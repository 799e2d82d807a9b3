-- ===== src/RingBuffer/Shrink/Split.antt =====
-- `shrink_ringbuffer` of src/ringbuffer_base.c on a ring whose data goes round the end: the upper data
-- moves down by `shrinkable_bytes`, and the mapping is cut to the larger of the request and what the
-- data needs.
use native.Mathlib.Decide.{dec_lt}
use libpussy.Base.{
  ℕ, ◌+◌, ◌-◌, ◌%◌, ◌^◌, ◌≤◌, ◌<◌, min, max, ◌≡◌, ◌≢◌, ◌⊎◌, refl, sym, ap, ap₂, ◌∙◌, inl, inr,
  false, some, List, ◌++◌, arith, ltb, ◌==◌, if◌then◌else◌, length, take, drop, take-take, take-all,
  drop-take, take-append_le, length-drop, sub32, Run, ok, lt→ltb, le→ltb, lt→leb, Option-cases,
}
use libpussy.Base.Memory.{memmove, slice, splice, load_inside, store_inside}
use libpussy.Base.Memory.Splice.{length-slice, length-splice, take-splice_before, drop-splice_at}
use libpussy.Align.Laws.{sub_multiple, round_down_multiple}
use libpussy.MemoryMap.{MemoryMap, IsMemoryMap}
use libpussy.RingBuffer.{
  RingBuffer, mapped, round_size, whole_pages, reclaim, shrink_mapping, shrink_ringbuffer,
}
use libpussy.RingBuffer.Inv.{IsRing, used, deref_live, contents, window_split}
use libpussy.RingBuffer.Size.{IsExtent, round_size-IsExtent}
use libpussy.RingBuffer.Shrink.Reclaim.{StopsOnMremap, whole_pages_lem}

-- The whole pages between `tail` and `head`, one byte left out.
abbrev pub spare : ℕ → RingBuffer → ℕ
spare k r = r.head - r.tail - 1 - (r.head - r.tail - 1) % 2 ^ k

-- A result of `shrink_ringbuffer` on such a ring, for a request of `n` bytes in whole pages.
pub record ShrunkSplit (k : ℕ) (r : RingBuffer) (b : List ℕ) (n : ℕ) (result : Run RingBuffer)
    : Type 0 where
  pub ring : RingBuffer
  pub bytes : List ℕ
  pub returns : result ≡ ok ring
  pub valid : IsRing (2 ^ k) ring bytes
  pub count : used ring ≡ used r + (n - (r.size - spare k r))
  pub kept : n ≤ r.size - spare k r → contents ring bytes ≡ contents r b

module _ (m : MemoryMap) (k : ℕ) (small : k < 32) {r : RingBuffer} {b : List ℕ}
    (v : IsRing (2 ^ k) r b) (order : r.tail < r.head) where
  abbrev pub upper : List ℕ
  upper = slice r.head (r.size - r.head) b

  abbrev pub moved : List ℕ
  moved = splice (r.head - spare k r) upper b

  pub length-upper : length upper ≡ r.size - r.head
  length-upper = length-slice r.head (r.size - r.head) b (omega (arith, v.head_in, v.extent))

  pub room : r.head - spare k r + length upper ≤ length b
  room = omega (arith, length-upper, v.head_in, v.extent)

  pub spare_whole : spare k r % 2 ^ k ≡ 0
  spare_whole = round_down_multiple k small (r.head - r.tail - 1)

  code_spare : whole_pages m (2 ^ k) (sub32 (sub32 r.head r.tail) 1) ≡ spare k r
  code_spare =
      ap (whole_pages m (2 ^ k)) {y = r.head - r.tail - 1} (omega (arith, v.head_in, v.small))
      ∙ whole_pages_lem m k small v (r.head - r.tail - 1) (omega (arith, v.head_in, v.small))

  memmove_upper : memmove b (r.head - spare k r) r.head (r.size - r.head) ≡ ok moved
  unfolding memmove
  memmove_upper = rw (
    load_inside b r.head (r.size - r.head) (omega (arith, v.head_in, v.extent)),
    store_inside b (r.head - spare k r) upper room,
  )

  pub reclaim_split :
      spare k r ≢ 0
      → reclaim m (2 ^ k) r
        ≡ ok ((spare k r), record r { buf = mapped moved; head = r.head - spare k r })
  unfolding reclaim
  reclaim_split some_spare =
      rw (apart, lt→ltb _ _ order, code_spare, nonzero, deref_live v, start, count, memmove_upper)
        refl
    where
      apart : (r.head == r.tail) ≡ false
      apart = ground arith

      nonzero : (spare k r == 0) ≡ false
      nonzero = ground arith

      start : sub32 r.head (spare k r) ≡ r.head - spare k r
      start = omega (arith, v.head_in, v.small)

      count : sub32 r.size r.head ≡ r.size - r.head
      count = omega (arith, v.head_in, v.small)

  module _ (laws : IsMemoryMap m) (n : ℕ) (e : IsExtent (2 ^ k) n) (less : n < r.size)
      (some_spare : spare k r ≢ 0) where
    abbrev target : ℕ
    target = if ltb n (sub32 r.size (spare k r)) then sub32 r.size (spare k r) else n

    target_bounds :
        (target ≡ max n (r.size - spare k r))
        × (target < r.size)
        × (r.head - spare k r < target)
        × (r.tail < target)
    target_bounds = ground (arith, v.head_in, v.small)

    target_whole : target % 2 ^ k ≡ 0
    target_whole = elim (dec_lt n (sub32 r.size (spare k r))) [
      | yes below ↦
          rw (lt→ltb _ _ below, least) (sub_multiple (2 ^ k) r.size (spare k r) v.pages spare_whole)
      | no above ↦ rw (le→ltb n (sub32 r.size (spare k r)) (omega arith)) e.whole
    ]
      where
        least : sub32 r.size (spare k r) ≡ r.size - spare k r
        least = omega (arith, v.small)

    extent_moved : length moved ≡ r.size
    extent_moved = length-splice (r.head - spare k r) upper b room ∙ v.extent

    prefix : (b' : List ℕ) → m.mremap moved target ≡ some b' → take target b' ≡ take target moved
    prefix b' got =
        ap (λ i. take i b') {y = min (length moved) target}
          (omega (arith, target_bounds, extent_moved))
        ∙ laws.mremap_keeps moved target b' got
        ∙ ap (λ i. take i moved) {y = target} (omega (arith, target_bounds, extent_moved))

    kept_upper :
        (b' : List ℕ)
        → m.mremap moved target ≡ some b'
        → n ≤ r.size - spare k r
        → drop (r.head - spare k r) b' ≡ drop r.head b
    kept_upper b' got fits =
        ap (drop start) (
          sym (take-all target b' (omega (arith, laws.mremap_length moved target b' got)))
          ∙ prefix b' got)
        ∙ drop-take start target moved
        ∙ ap (λ i. take i (drop start moved)) {y = length upper}
            (omega (arith, length-upper, target_bounds, v.head_in))
        ∙ ap (take (length upper)) (drop-splice_at start upper b room)
        ∙ take-append_le (length upper) upper _ (omega arith)
        ∙ take-all (length upper) upper (omega arith)
        ∙ take-all (r.size - r.head) (drop r.head b) (omega (arith, length-drop r.head b, v.extent))
      where
        start : ℕ
        start = r.head - spare k r

    kept_lower : (b' : List ℕ) → m.mremap moved target ≡ some b' → take r.tail b' ≡ take r.tail b
    kept_lower b' got =
        sym (take-take r.tail target b' (omega (arith, target_bounds)))
        ∙ ap (take r.tail) (prefix b' got)
        ∙ take-take r.tail target moved (omega (arith, target_bounds))
        ∙ take-splice_before (r.head - spare k r) upper b room r.tail (omega (arith, target_bounds))

    kept_split :
        (b' : List ℕ)
        → m.mremap moved target ≡ some b'
        → n ≤ r.size - spare k r
        → contents (record r { head = r.head - spare k r }) b' ≡ contents r b
    kept_split b' got fits =
        window_split b' (r.head - spare k r) r.tail (omega (arith, target_bounds))
        ∙ ap₂ ◌++◌ (kept_upper b' got fits) (kept_lower b' got)
        ∙ sym (window_split b r.head r.tail order)

    shrink_mapping_split :
        let result =
          shrink_mapping m
            (2 ^ k)
            (record r { buf = mapped moved; head = r.head - spare k r })
            (spare k r)
            n in
        ShrunkSplit k r b n result ⊎ StopsOnMremap m result
    unfolding shrink_mapping used
    shrink_mapping_split = elim (Option-cases (m.mremap moved target)) [
      | inl failed ↦
          inr (record { old = moved; size = target; failed = failed; stops = rw failed refl })
      | inr (b', got) ↦ inl (record {
        ring = record { buf = mapped b'; size = target; head = r.head - spare k r; tail = r.tail };
        bytes = b';
        returns = rw got refl;
        valid = record {
          live = refl;
          extent = laws.mremap_length moved target b' got;
          small = omega (arith, v.small, target_bounds);
          head_in = omega (arith, target_bounds);
          tail_in = omega (arith, target_bounds);
          pages = target_whole;
        };
        count =
            rw (lt→ltb _ _ order, lt→ltb r.tail (r.head - spare k r) (omega (arith, target_bounds)))
              (omega (arith, target_bounds, v.head_in));
        kept = kept_split b' got;
      })
    ]

-- On a well formed ring whose data goes round the end and that has whole pages between its ends to spare,
-- for a request below 2^32 that is less than the size of the ring when it is rounded up to pages,
-- shrink_ringbuffer keeps the invariant, or stops the program where mremap fails. It keeps the contents if
-- the rounded request is no larger than what is left without the spare pages; if it is larger, the ring
-- claims as many more bytes than it held as it is larger, although nothing was written.
pub shrink_ringbuffer-split :
    (m : MemoryMap) (k : ℕ) {r : RingBuffer} {b : List ℕ} (size : ℕ)
    → IsMemoryMap m
    → k < 32
    → IsRing (2 ^ k) r b
    → r.tail < r.head
    → spare k r ≢ 0
    → size < 2 ^ 32
    → round_size m (2 ^ k) size < r.size
    → let result = shrink_ringbuffer m (2 ^ k) r size in
      ShrunkSplit k r b (round_size m (2 ^ k) size) result ⊎ StopsOnMremap m result
unfolding shrink_ringbuffer
shrink_ringbuffer-split m k {r} {b} size laws small v order some_spare h less =
    rw (lt→leb _ _ less, reclaim_split m k small v order some_spare, nonzero)
      (shrink_mapping_split m k small v order laws (round_size m (2 ^ k) size)
        (round_size-IsExtent m k small size h) less some_spare)
  where
    nonzero : (spare k r == 0) ≡ false
    nonzero = ground arith
