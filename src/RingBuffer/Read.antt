-- ===== src/RingBuffer/Read.antt =====
-- `read_ringbuffer` of src/ringbuffer_base.c: a queue while the data does not go round the end.
use native.Mathlib.Decide.{dec_lt}
use libpussy.Base.{
  ℕ, ◌+◌, ◌-◌, ◌^◌, ◌≤◌, ◌<◌, min, ◌≡◌, ◌⊎◌, refl, sym, ap, ◌∙◌, inl, inr, false, List, [], arith,
  ltb, leb, ◌==◌, if◌then◌else◌, length, take, drop, drop-all, take-take, drop-take, drop-drop,
  take-nil, drop-nil, length-take, length-drop, take-min, drop-min, u32, sub32, Run, ok, undefined,
  lt→ltb, Bool-cases, ==_iff,
}
use libpussy.Base.Memory.{slice, load_inside, load_outside}
use libpussy.RingBuffer.{RingBuffer, ReadResult, mapped, read_ringbuffer}
use libpussy.RingBuffer.Inv.{window_ordered, used, IsRing, contents, length-contents}

-- A result of `read_ringbuffer` that has taken the first `n` bytes, or all where there are fewer.
pub record Taken (page : ℕ) (r : RingBuffer) (b : List ℕ) (n : ℕ) (result : Run ReadResult)
    : Type 0 where
  pub out : ReadResult
  pub returns : result ≡ ok out
  pub bytes : out.bytes ≡ take n (contents r b)
  pub count : out.count ≡ min n (used r)
  pub valid : IsRing page out.ring b
  pub left : contents out.ring b ≡ drop n (contents r b)

module _ {page : ℕ} {r : RingBuffer} {b : List ℕ} (v : IsRing page r b) (n : ℕ)
    (word : n < 2 ^ 32) where
  contents_ordered : r.head ≤ r.tail → contents r b ≡ drop r.head (take r.tail b)
  contents_ordered order = window_ordered b r.head r.tail order

  -- Reading `k` bytes that are there.
  abbrev after : ℕ → ReadResult
  after k = record { bytes = slice r.head k b; count = k; ring = record r { head = r.head + k } }

  read_some : r.head < r.tail → read_ringbuffer r n ≡ ok (after (min n (r.tail - r.head)))
  unfolding read_ringbuffer
  read_some order =
      let apart : (r.head == r.tail) ≡ false = ground arith in
      let len : (if leb (sub32 r.tail r.head) n then sub32 r.tail r.head else n)
          ≡ min n (r.tail - r.head) =
        ground arith in
      rw
        (
          apart,
          lt→ltb _ _ order,
          len,
          v.live,
          load_inside b r.head (min n (r.tail - r.head)) (omega (arith, v.extent, v.tail_in)),
        )
        (ap
          (λ t. ok (record {
            bytes = slice r.head (min n (r.tail - r.head)) b;
            count = min n (r.tail - r.head);
            ring = record r { buf = mapped b; head = t };
          }))
          (omega (arith, v.small, v.tail_in)))

  taken_bytes :
      (k : ℕ) → r.head + k ≤ r.tail → slice r.head k b ≡ take k (drop r.head (take r.tail b))
  taken_bytes k fits = sym (
      ap (take k) (drop-take r.head r.tail b)
      ∙ take-take k (r.tail - r.head) (drop r.head b) (omega arith))

  -- While the data does not go round the end, `read_ringbuffer` takes from the front: the bytes
  -- returned are the first `n` of the contents, their number is the count, what is left is the rest,
  -- and the invariant is kept.
  pub read_ringbuffer-ordered : r.head ≤ r.tail → Taken page r b n (read_ringbuffer r n)
  read_ringbuffer-ordered order = elim (dec_lt r.head r.tail) [
    | yes more ↦ read_more more
    | no done ↦ read_none (omega arith)
  ]
    where
      X : List ℕ
      X = drop r.head (take r.tail b)

      k : ℕ
      k = min n (r.tail - r.head)

      span : length X ≡ r.tail - r.head
      span =
          omega
            (arith, length-drop r.head (take r.tail b), length-take r.tail b, v.extent, v.tail_in)

      held : used r ≡ r.tail - r.head
      held = omega (arith, sym (length-contents v), ap length (contents_ordered order), span)

      read_more : r.head < r.tail → Taken page r b n (read_ringbuffer r n)
      read_more more = record {
        out = after k;
        returns = read_some more;
        bytes = rw (contents_ordered order) (
            taken_bytes k (omega arith)
            ∙ ap (λ i. take i X) {y = min n (length X)} (omega (arith, span))
            ∙ take-min n X);
        count = omega (arith, held);
        valid = record {
          live = v.live;
          extent = v.extent;
          small = v.small;
          head_in = omega (arith, v.tail_in);
          tail_in = v.tail_in;
          pages = v.pages;
        };
        left =
            window_ordered b (r.head + k) r.tail (omega arith)
            ∙ sym (drop-drop k r.head (take r.tail b))
            ∙ ap (λ i. drop i X) {y = min n (length X)} (omega (arith, span))
            ∙ drop-min n X
            ∙ sym (ap (drop n) (contents_ordered order));
      }

      read_none : r.head ≡ r.tail → Taken page r b n (read_ringbuffer r n)
      read_none same = record {
        out = record { bytes = []; count = 0; ring = r };
        returns = unfold read_ringbuffer in rw ((==_iff r.head r.tail).1 same);
        bytes =
            rw
              (
                contents_ordered order,
                drop-all r.head (take r.tail b) (omega (arith, length-take r.tail b, same)),
              )
              (sym (take-nil n));
        count = omega (arith, held, same);
        valid = v;
        left =
            rw
              (
                contents_ordered order,
                drop-all r.head (take r.tail b) (omega (arith, length-take r.tail b, same)),
              )
              (sym (drop-nil n));
      }

-- On a well formed ring of at most 2^31 bytes whose data goes round the end, read_ringbuffer either reads
-- outside the mapping or leaves head beyond the end of the buffer, for every count below 2^32.
pub read_ringbuffer-split :
    {page : ℕ} {r : RingBuffer} {b : List ℕ} (n : ℕ)
    → IsRing page r b
    → r.tail < r.head
    → r.size ≤ 2 ^ 31
    → n < 2 ^ 32
    → (read_ringbuffer r n ≡ undefined)
      ⊎ ((out : ReadResult) × (read_ringbuffer r n ≡ ok out) × (r.size < out.ring.head))
unfolding read_ringbuffer
read_ringbuffer-split {r = r} {b = b} n v order half word =
    elim (Bool-cases (leb n (sub32 r.size r.tail))) [
      | inl small ↦ elim (dec_lt r.size (r.head + n)) [
        | yes beyond ↦ inl (
            rw (
              apart,
              back,
              small,
              v.live,
              load_outside b r.head n (omega (arith, v.extent, beyond)),
            ))
        | no within ↦ inr (
          record { bytes = slice r.head n b; count = n; ring = record r { head = head' } },
          rw (apart, back, small, v.live, load_inside b r.head n (omega (arith, v.extent, within)))
              refl,
          ground (arith, v.head_in, v.tail_in),
        )
      ]
      | inr large ↦ inl (
          rw (
            apart,
            back,
            large,
            v.live,
            load_outside b r.head (sub32 r.size r.tail) (omega (arith, v.extent)),
          ))
    ]
  where
    head' : ℕ
    head' = if n == sub32 r.size r.tail then 0 else u32 (r.head + sub32 r.size r.tail)

    apart : (r.head == r.tail) ≡ false
    apart = ground arith

    back : ltb r.head r.tail ≡ false
    back = ground arith
