-- ===== src/RingBuffer/Write/Steps.antt =====
-- The two ways that `write_ringbuffer` of src/ringbuffer_base.c stores bytes: straight, and round the end.
use mathlib.Core.List.{append_assoc}
use libpussy.Base.{
  ℕ, ◌+◌, ◌-◌, ◌^◌, ◌≤◌, ◌<◌, ◌≡◌, refl, sym, ap, ◌∙◌, inl, inr, true, List, ◌++◌, arith, ◌==◌,
  if◌then◌else◌, length, take, drop, length-take, take-add, take-all, drop-append_le, sub32, ok,
  ◌>>=◌, lt→ltb, le→ltb, lt→leb, Bool-cases, ==_iff,
}
use libpussy.Base.Memory.{load, store, slice, splice, load_inside, store_inside}
use libpussy.Base.Memory.Splice.{length-slice, length-splice, take-splice, drop-splice_after}
use libpussy.RingBuffer.{RingBuffer, mapped, write_within}
use libpussy.RingBuffer.Inv.{window, IsRing, contents}

module _ {page : ℕ} {r : RingBuffer} {b : List ℕ} (v : IsRing page r b) (src : List ℕ) (n : ℕ)
    (enough : n ≤ length src) (word : n < 2 ^ 32) where
  -- Writing strictly below the limit of the region at hand.
  pub write_within_plain :
      (tail_len avail : ℕ)
      → n < tail_len
      → n < avail
      → r.tail + tail_len ≤ r.size
      → write_within r src n tail_len avail
        ≡ ok (true, record r { buf = mapped (splice r.tail (slice 0 n src) b); tail = r.tail + n })
  unfolding write_within
  write_within_plain tail_len avail p q fits =
      rw
        (
          lt→leb _ _ q,
          lt→ltb _ _ p,
          load_inside src 0 n (omega arith),
          v.live,
          store_inside b r.tail (slice 0 n src) (omega (arith, length-slice 0 n src, v.extent)),
        )
        (ap (λ t. ok (true, record r { buf = mapped (splice r.tail (slice 0 n src) b); tail = t }))
          (omega (arith, v.small)))

  -- The bytes before and after the wrap.
  abbrev pub upper : ℕ → List ℕ
  upper t = slice 0 t src

  abbrev pub lower : ℕ → List ℕ
  lower t = slice t (n - t) src

  abbrev pub wrapped : ℕ → List ℕ
  wrapped t = splice 0 (lower t) (splice r.tail (upper t) b)

  pub stored :
      (t : ℕ)
      → t ≤ n
      → r.tail + t ≤ r.size
      → (length (splice r.tail (upper t) b) ≡ r.size) × (r.tail + length (upper t) ≡ r.tail + t)
  stored t p fits = (
    length-splice r.tail (upper t) b (omega (arith, len, v.extent)) ∙ v.extent,
    omega (arith, len),
  )
    where
      len : length (upper t) ≡ t
      len = length-slice 0 t src (omega arith)

  store-lower :
      (t : ℕ) (mem : List ℕ)
      → t ≤ n
      → n - t ≤ length mem
      → (if n - t == 0 then ok mem else (do y ← load src t (n - t); store mem 0 y))
        ≡ ok (splice 0 (lower t) mem)
  store-lower t mem p q = elim (Bool-cases (n - t == 0)) [
    | inl e ↦ rw (e, (==_iff (n - t) 0).0 e)
    | inr e ↦ rw (
      e,
      load_inside src t (n - t) (omega arith),
      store_inside mem 0 (lower t) (omega (arith, length-slice t (n - t) src)),
    )
  ]

  pub write_within-wrapped :
      (t avail : ℕ)
      → t ≤ n
      → n < avail
      → r.tail + t ≡ r.size
      → n - t < r.size
      → write_within r src n t avail
        ≡ ok (true, record r { buf = mapped (wrapped t); tail = n - t })
  unfolding write_within
  write_within-wrapped t avail p q fits fit =
      let e : sub32 n t ≡ n - t = omega arith in
      rw
        (
          lt→leb _ _ q,
          le→ltb _ _ p,
          load_inside src 0 t (omega arith),
          v.live,
          store_inside b r.tail (slice 0 t src) (omega (arith, length-slice 0 t src, v.extent)),
          e,
          store-lower t (splice r.tail (upper t) b) p (omega (arith, stored t p)),
        )
        refl

  pub length-upper : (t : ℕ) → t ≤ n → length (upper t) ≡ t
  length-upper t p = length-slice 0 t src (omega arith)

  -- Up to the new tail the region holds what it held up to the old one, and the bytes written.
  take_written :
      (t : ℕ)
      → t ≤ n
      → r.tail + t ≤ r.size
      → take (r.tail + t) (splice r.tail (upper t) b) ≡ take r.tail b ++ upper t
  take_written t p fits =
      ap (λ k. take k (splice r.tail (upper t) b)) {x = r.tail + t} {y = r.tail + length (upper t)}
        (omega (arith, length-upper t p))
      ∙ take-splice r.tail (upper t) b (omega (arith, length-upper t p, v.extent))

  pub contents_below_head :
      r.tail + n < r.head
      → window (splice r.tail (upper n) b) r.head (r.tail + n) ≡ contents r b ++ take n src
  unfolding window
  contents_below_head below =
      rw
        (
          lt→ltb (r.tail + n) r.head below,
          lt→ltb r.tail r.head (omega arith),
          drop-splice_after r.tail (upper n) b (omega (arith, len, v.extent, v.head_in)) r.head
              (omega (arith, len)),
          take_written n (omega arith) (omega (arith, v.head_in)),
        )
        (sym (append_assoc (drop r.head b) (take r.tail b) (upper n)))
    where
      len : length (upper n) ≡ n
      len = length-upper n (omega arith)

  pub contents_below_end :
      r.head ≤ r.tail
      → r.tail + n ≤ r.size
      → window (splice r.tail (upper n) b) r.head (r.tail + n) ≡ contents r b ++ take n src
  unfolding window
  contents_below_end order below =
      rw
        (
          le→ltb (r.tail + n) r.head (omega arith),
          le→ltb r.tail r.head order,
          take_written n (omega arith) below,
        )
        (drop-append_le r.head (take r.tail b) (upper n)
          (omega (arith, length-take r.tail b, v.extent)))

  pub contents-wrapped :
      (t : ℕ)
      → t ≤ n
      → r.head ≤ r.tail
      → r.tail + t ≡ r.size
      → n - t < r.head
      → window (wrapped t) r.head (n - t) ≡ contents r b ++ take n src
  unfolding window
  contents-wrapped t p order fits fit =
      rw
        (
          lt→ltb _ _ fit,
          le→ltb _ _ order,
          drop-splice_after 0 (lower t) mid room r.head (omega (arith, low)),
          first,
          second,
        )
        (append_assoc (drop r.head (take r.tail b)) (upper t) (lower t)
          ∙ ap (λ t. drop r.head (take r.tail b) ++ t) joined)
    where
      mid : List ℕ
      mid = splice r.tail (upper t) b

      low : length (lower t) ≡ n - t
      low = length-slice t (n - t) src (omega arith)

      room : 0 + length (lower t) ≤ length mid
      room = omega (arith, low, stored t p, v.head_in)

      all : take (r.tail + t) mid ≡ mid
      all = take-all (r.tail + t) mid (omega (arith, stored t p))

      first : drop r.head mid ≡ drop r.head (take r.tail b) ++ upper t
      first =
          ap (drop r.head) (sym all ∙ take_written t p (omega arith))
          ∙ drop-append_le r.head (take r.tail b) (upper t)
              (omega (arith, length-take r.tail b, v.extent))

      second : take (n - t) (wrapped t) ≡ lower t
      second =
          ap (λ k. take k (wrapped t)) {x = n - t} {y = 0 + length (lower t)} (omega (arith, low))
          ∙ take-splice 0 (lower t) mid room

      joined : upper t ++ lower t ≡ take n src
      joined = sym (take-add t (n - t) src) ∙ ap (λ k. take k src) (omega arith)
