-- ===== src/RingBuffer/Grow.antt =====
-- `grow_ringbuffer` of src/ringbuffer_base.c.
use mathlib.Core.List.{append-nil}
use native.Mathlib.Decide.{dec_lt}
use libpussy.Base.{
  ℕ, ◌+◌, ◌-◌, ◌^◌, ◌≤◌, ◌<◌, min, max, ◌≡◌, ◌⊎◌, refl, sym, ap, ap₂, ◌∙◌, inl, inr, Bool, true,
  false, none, some, List, ◌++◌, arith, length, take, drop, take-all, drop-all, take-take,
  drop-take, u32, sub32, Run, ok, lt→ltb, le→ltb, le→leb, lt→leb, Option-cases,
}
use libpussy.Base.Memory.{memmove, slice, splice, load_inside, store_inside}
use libpussy.Base.Memory.Splice.{length-slice, length-splice, take-splice_before, drop-splice_at}
use libpussy.MemoryMap.{MemoryMap, IsMemoryMap}
use libpussy.RingBuffer.{RingBuffer, mapped, round_size, grow_moved, grow_ringbuffer}
use libpussy.RingBuffer.Inv.{IsRing, deref_live, contents, window_ordered, window_split}
use libpussy.RingBuffer.Size.{IsExtent, round_size-IsExtent}

-- A result of `grow_ringbuffer` that holds what the ring held, in a buffer of size `n`.
pub record Grown (page : ℕ) (r : RingBuffer) (b : List ℕ) (n : ℕ) (result : Run (Bool × RingBuffer))
    : Type 0 where
  pub ring : RingBuffer
  pub bytes : List ℕ
  pub returns : result ≡ ok (true, ring)
  pub valid : IsRing page ring bytes
  pub kept : contents ring bytes ≡ contents r b
  pub grown : ring.size ≡ n

-- The region after `mremap`: its first bytes are the old region.
module _ (m : MemoryMap) {page : ℕ} {r : RingBuffer} {b : List ℕ} (v : IsRing page r b) (n : ℕ)
    (e : IsExtent page n) (larger : r.size < n) (b' : List ℕ) (extent : length b' ≡ n)
    (prefix : take r.size b' ≡ b) where
  take_old : (i : ℕ) → i ≤ r.size → take i b' ≡ take i b
  take_old i h = sym (take-take i r.size b' h) ∙ ap (take i) prefix

  abbrev offset : ℕ
  offset = n - r.size

  upper : List ℕ
  upper = slice r.head (r.size - r.head) b'

  length-upper : length upper ≡ r.size - r.head
  unfolding upper
  length-upper = length-slice r.head (r.size - r.head) b' (omega (arith, v.head_in))

  upper_old : upper ≡ drop r.head b
  unfolding upper
  upper_old = sym (drop-take r.head r.size b') ∙ ap (drop r.head) prefix

  moved : List ℕ
  moved = splice (r.head + offset) upper b'

  room : r.head + offset + length upper ≤ length b'
  room = omega (arith, length-upper, v.head_in)

  memmove_upper : memmove b' (r.head + offset) r.head (r.size - r.head) ≡ ok moved
  unfolding memmove moved upper
  memmove_upper = rw (
    load_inside b' r.head (r.size - r.head) (omega (arith, v.head_in)),
    store_inside b' (r.head + offset) (slice r.head (r.size - r.head) b') room,
  )

  contents-moved :
      r.tail < r.head → contents (record r { head = r.head + offset }) moved ≡ contents r b
  unfolding moved
  contents-moved order =
      window_split moved (r.head + offset) r.tail (omega arith)
      ∙ ap₂ ◌++◌
          (drop-splice_at (r.head + offset) upper b' room
            ∙ ap (λ t. upper ++ t)
                (drop-all (r.head + offset + length upper) b'
                  (omega (arith, length-upper, v.head_in)))
            ∙ append-nil upper
            ∙ upper_old)
          (take-splice_before (r.head + offset) upper b' room r.tail (omega arith)
            ∙ take_old r.tail (omega (arith, v.tail_in)))
      ∙ sym (window_split b r.head r.tail order)

  valid_moved :
      r.tail < r.head
      → IsRing page (record r { buf = mapped moved; size = n; head = r.head + offset }) moved
  unfolding moved
  valid_moved order = record {
    live = refl;
    extent = length-splice (r.head + offset) upper b' room ∙ extent;
    small = e.small;
    head_in = omega (arith, v.head_in);
    tail_in = omega (arith, v.tail_in);
    pages = e.whole;
  }

  pub grow_moved_lem : Grown page r b n (grow_moved m page r b' n)
  unfolding grow_moved
  grow_moved_lem = elim (dec_lt r.tail r.head) [
    | yes order ↦ record {
      ring = record r { buf = mapped moved; size = n; head = r.head + offset };
      bytes = moved;
      returns = rw (lt→ltb _ _ order, step, shift, count, memmove_upper) refl;
      valid = valid_moved order;
      kept = contents-moved order;
      grown = refl;
    }
    | no order ↦ record {
      ring = record r { buf = mapped b'; size = n };
      bytes = b';
      returns = rw (le→ltb r.tail r.head (omega arith)) refl;
      valid = record {
        live = refl;
        extent = extent;
        small = e.small;
        head_in = omega (arith, v.head_in);
        tail_in = omega (arith, v.tail_in);
        pages = e.whole;
      };
      kept =
          window_ordered b' r.head r.tail (omega arith)
          ∙ ap (drop r.head) (take_old r.tail (omega (arith, v.tail_in)))
          ∙ sym (window_ordered b r.head r.tail (omega arith));
      grown = refl;
    }
  ]
    where
      step : sub32 n r.size ≡ offset
      step = omega (arith, v.small, e.small)

      shift : u32 (r.head + offset) ≡ r.head + offset
      shift = omega (arith, v.head_in, e.small)

      count : sub32 r.size r.head ≡ r.size - r.head
      count = omega (arith, v.head_in, v.small)

-- `grow_ringbuffer` keeps the invariant and the contents: where the request is larger than the buffer
-- it returns true with a buffer of the rounded size, or false and the same ring if `mremap` fails;
-- otherwise it returns true and the same ring.
pub grow_ringbuffer_lem :
    (m : MemoryMap) (k : ℕ) {r : RingBuffer} {b : List ℕ} (size : ℕ)
    → IsMemoryMap m
    → k < 32
    → IsRing (2 ^ k) r b
    → size < 2 ^ 32
    → let result = grow_ringbuffer m (2 ^ k) r size in
      let n = round_size m (2 ^ k) size in
      Grown (2 ^ k) r b (max r.size n) result
      ⊎ ((r.size < n) × (m.mremap b n ≡ none) × (result ≡ ok (false, r)))
unfolding grow_ringbuffer
grow_ringbuffer_lem m k {r} {b} size laws small v h = elim (dec_lt r.size n) [
  | yes larger ↦ elim (Option-cases (m.mremap b n)) [
    | inl failed ↦ inr (larger, failed, rw (lt→leb _ _ larger, deref_live v, failed) refl)
    | inr (b', got) ↦ inl (
        rw (lt→leb _ _ larger, deref_live v, got, max_n larger)
          (grow_moved_lem m v n (round_size-IsExtent m k small size h) larger b'
            (laws.mremap_length b n b' got) (prefix larger b' got)))
  ]
  | no fits ↦ inl (record {
    ring = r;
    bytes = b;
    returns = rw (le→leb n r.size (omega arith)) refl;
    valid = v;
    kept = refl;
    grown = omega arith;
  })
]
  where
    n : ℕ
    n = round_size m (2 ^ k) size

    max_n : r.size < n → max r.size n ≡ n
    max_n larger = omega arith

    prefix : r.size < n → (b' : List ℕ) → m.mremap b n ≡ some b' → take r.size b' ≡ b
    prefix larger b' got =
        ap (λ i. take i b') {y = min (length b) n} (omega (arith, v.extent))
        ∙ laws.mremap_keeps b n b' got
        ∙ take-all (min (length b) n) b (omega (arith, v.extent))
