-- ===== src/RingBuffer/Write.antt =====
-- `write_ringbuffer` of src/ringbuffer_base.c appends all the bytes or none.
mod Steps
use Steps.{
  write_within_plain, write_within-wrapped, stored, length-upper, upper, lower, wrapped,
  contents_below_head, contents_below_end, contents-wrapped,
}
use native.Mathlib.Decide.{dec_lt}
use libpussy.Base.{
  ℕ, ◌+◌, ◌-◌, ◌%◌, ◌^◌, ◌≤◌, ◌<◌, ◌≡◌, refl, ◌∙◌, inl, inr, Bool, true, false, List, ◌++◌, arith,
  ltb, leb, if◌then◌else◌, length, take, u32, sub32, Run, ok, lt→ltb, le→ltb, le→leb, Bool-cases,
  ltb→lt, ltb→le,
}
use libpussy.Base.Memory.{splice, slice}
use libpussy.Base.Memory.Splice.{length-splice, length-slice}
use libpussy.RingBuffer.{RingBuffer, mapped, write_within, write_ringbuffer}
use libpussy.RingBuffer.Inv.{used, IsRing, contents}

-- A result of `write_ringbuffer` that has appended `xs`.
pub record Appended (page : ℕ) (r : RingBuffer) (b xs : List ℕ) (result : Run (Bool × RingBuffer))
    : Type 0 where
  pub ring : RingBuffer
  pub bytes : List ℕ
  pub returns : result ≡ ok (true, ring)
  pub valid : IsRing page ring bytes
  pub appended : contents ring bytes ≡ contents r b ++ xs
  pub same_size : ring.size ≡ r.size
  pub same_head : ring.head ≡ r.head

module _ {page : ℕ} {r : RingBuffer} {b : List ℕ} (v : IsRing page r b) (src : List ℕ) (n : ℕ)
    (enough : n ≤ length src) (word : n < 2 ^ 32) where
  -- The bytes go straight after the tail.
  plain :
      (tail_len avail : ℕ)
      → n < tail_len
      → n < avail
      → r.tail + tail_len ≤ r.size
      → contents (record r { tail = r.tail + n }) (splice r.tail (slice 0 n src) b)
        ≡ contents r b ++ take n src
      → Appended page r b (take n src) (write_within r src n tail_len avail)
  plain tail_len avail p q fits same = record {
    ring = record r { buf = mapped (splice r.tail (slice 0 n src) b); tail = r.tail + n };
    bytes = splice r.tail (slice 0 n src) b;
    returns = write_within_plain v src n enough word tail_len avail p q fits;
    valid = record {
      live = refl;
      extent = (stored v src n enough word n (omega arith) (omega arith)).0;
      small = v.small;
      head_in = v.head_in;
      tail_in = omega arith;
      pages = v.pages;
    };
    appended = same;
    same_size = refl;
    same_head = refl;
  }

  -- The bytes go round the end.
  round :
      (t avail : ℕ)
      → t ≤ n
      → n < avail
      → r.head ≤ r.tail
      → r.tail + t ≡ r.size
      → n - t < r.head
      → Appended page r b (take n src) (write_within r src n t avail)
  round t avail p q order fits fit = record {
    ring = record r { buf = mapped (wrapped v src n enough word t); tail = n - t };
    bytes = wrapped v src n enough word t;
    returns = write_within-wrapped v src n enough word t avail p q fits (omega (arith, v.head_in));
    valid = record {
      live = refl;
      extent =
          length-splice 0 (slice t (n - t) src) (splice r.tail (slice 0 t src) b)
            (omega (arith, length-slice t (n - t) src, first, v.head_in))
          ∙ first;
      small = v.small;
      head_in = v.head_in;
      tail_in = omega (arith, v.head_in);
      pages = v.pages;
    };
    appended = contents-wrapped v src n enough word t p order fits fit;
    same_size = refl;
    same_head = refl;
  }
    where
      first : length (splice r.tail (slice 0 t src) b) ≡ r.size
      first = (stored v src n enough word t p (omega arith)).0

  -- The free bytes at the end of the region and at its start.
  when_ordered :
      r.head ≤ r.tail
      → r.tail - r.head + n < r.size
      → let tail_len = sub32 r.size r.tail in
        Appended page r b (take n src) (write_within r src n tail_len (u32 (r.head + tail_len)))
  when_ordered order room = elim (dec_lt n (sub32 r.size r.tail)) [
    | yes p ↦
        plain _ _ p (omega arith) (omega arith)
          (contents_below_end v src n enough word order (omega arith))
    | no p ↦ round _ _ (omega arith) (omega arith) order (omega arith) (omega arith)
  ]

  when_split :
      r.tail < r.head
      → r.tail + n < r.head
      → Appended page r b
          (take n src)
          (write_within r src n (sub32 r.head r.tail) (sub32 r.head r.tail))
  when_split order room =
      plain _ _ (omega arith) (omega arith) (omega arith)
        (contents_below_head v src n enough word room)

  -- `write_ringbuffer` stores `n` bytes that leave at least one byte free: it returns true, keeps the
  -- invariant and the size, and appends exactly the first `n` bytes of the source to the contents.
  pub write_ringbuffer-accepts :
      used r + n < r.size → Appended page r b (take n src) (write_ringbuffer r src n)
  unfolding write_ringbuffer used
  write_ringbuffer-accepts room = elim (Bool-cases (ltb r.tail r.head)) [
    | inl e ↦
        rw e (when_split (ltb→lt _ _ e) (omega (arith, rw e at room, ltb→lt _ _ e, v.head_in)))
    | inr e ↦ rw e (when_ordered (ltb→le _ _ e) (rw e at room))
  ]

-- `write_ringbuffer` refuses bytes that would leave no byte free: it returns false and changes
-- nothing.
pub write_ringbuffer-rejects :
    {page : ℕ} {r : RingBuffer} {b : List ℕ} (src : List ℕ) (n : ℕ)
    → IsRing page r b
    → r.size ≤ used r + n
    → write_ringbuffer r src n ≡ ok (false, r)
unfolding write_ringbuffer used
write_ringbuffer-rejects {r = r} src n v full = elim (Bool-cases (ltb r.tail r.head)) [
  | inl e ↦
      let full' = rw e at full in
      rw (e, le→leb (sub32 r.head r.tail) n (omega (arith, full', ltb→lt _ _ e)))
  | inr e ↦
      let full' = rw e at full in
      rw (e, le→leb (u32 (r.head + sub32 r.size r.tail)) n (omega (arith, full', ltb→le _ _ e)))
]
