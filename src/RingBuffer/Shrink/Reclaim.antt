-- ===== src/RingBuffer/Shrink/Reclaim.antt =====
-- `shrinkable_bytes` and the move of the data in `shrink_ringbuffer` of src/ringbuffer_base.c, on a ring
-- whose data does not go round the end.
use native.Mathlib.Decide.{ℕ_discrete}
use native.Mathlib.Nat.{mod_self, mod-eq_of_lt}
use libpussy.Base.{
  ℕ, ◌+◌, ◌-◌, ◌%◌, ◌^◌, ◌≤◌, ◌<◌, ◌≡◌, refl, sym, ap, ◌∙◌, inl, inr, false, none, List, arith, ltb,
  ◌==◌, length, length-take, take, drop-all, drop-take, u32, sub32, Run, ok, aborted, Bool-cases,
  ==_iff,
}
use libpussy.Base.Bits.{pow2_pos}
use libpussy.Base.Memory.{memmove, slice, splice, load_inside, store_inside}
use libpussy.Base.Memory.Splice.{length-slice, length-splice, take-splice}
use libpussy.Align.Laws.{round_down, round_down_multiple, sub_multiple, le_of_multiple}
use libpussy.MemoryMap.{MemoryMap}
use libpussy.RingBuffer.{RingBuffer, mapped, whole_pages, reclaim}
use libpussy.RingBuffer.Inv.{IsRing, deref_live, contents, window_ordered}

-- The call of `mremap` fails somewhere, and the program stops.
pub record StopsOnMremap (m : MemoryMap) (result : Run RingBuffer) : Type 0 where
  pub old : List ℕ
  pub size : ℕ
  pub failed : m.mremap old size ≡ none
  pub stops : result ≡ aborted

-- A result of `reclaim`: the data has been moved out of the last `spare` bytes.
pub record Reclaimed (page : ℕ) (r : RingBuffer) (b : List ℕ) (result : Run (ℕ × RingBuffer))
    : Type 0 where
  pub spare : ℕ
  pub ring : RingBuffer
  pub bytes : List ℕ
  pub returns : result ≡ ok (spare, ring)
  pub valid : IsRing page ring bytes
  pub kept : contents ring bytes ≡ contents r b
  pub ordered : ring.head ≤ ring.tail
  pub room : ring.tail + spare < ring.size
  pub whole : spare % page ≡ 0
  pub same_size : ring.size ≡ r.size

module _ (m : MemoryMap) (k : ℕ) (small : k < 32) {r : RingBuffer} {b : List ℕ}
    (v : IsRing (2 ^ k) r b) where
  pub whole_pages_lem : (x : ℕ) → x < 2 ^ 32 → whole_pages m (2 ^ k) x ≡ x - x % 2 ^ k
  unfolding whole_pages
  whole_pages_lem x h = round_down k small x h

  pub page_le : 2 ^ k ≤ r.size
  page_le = le_of_multiple (2 ^ k) r.size (omega (arith, v.head_in)) v.pages

  reclaim_empty : r.head ≡ r.tail → Reclaimed (2 ^ k) r b (reclaim m (2 ^ k) r)
  unfolding reclaim
  reclaim_empty same = record {
    spare = r.size - 2 ^ k;
    ring = record r { head = 0; tail = 0 };
    bytes = b;
    returns =
        rw ((==_iff r.head r.tail).1 same)
          (ap (λ t. ok (t, record r { head = 0; tail = 0 })) (omega (arith, page_le, v.small)));
    valid = record {
      live = v.live;
      extent = v.extent;
      small = v.small;
      head_in = omega (arith, v.head_in);
      tail_in = omega (arith, v.head_in);
      pages = v.pages;
    };
    kept =
        window_ordered b 0 0 (omega arith)
        ∙ sym (drop-all r.head (take r.tail b) (omega (arith, length-take r.tail b, same)))
        ∙ sym (window_ordered b r.head r.tail (omega arith));
    ordered = omega arith;
    room = omega (arith, page_le, pow2_pos k);
    whole = sub_multiple (2 ^ k) r.size (2 ^ k) v.pages (mod_self (2 ^ k));
    same_size = refl;
  }

  -- Free bytes after the data, before it, and one to spare.
  abbrev gap : ℕ
  gap = r.head + r.size - r.tail - 1

  abbrev moved : List ℕ
  moved = splice 0 (slice r.head (r.tail - r.head) b) b

  -- `shrinkable_bytes` of this branch, as the code computes it.
  abbrev spare : ℕ
  spare = whole_pages m (2 ^ k) (sub32 (sub32 (u32 (r.head + r.size)) r.tail) 1)

  spare_lem : r.head < r.tail → spare ≡ gap - gap % 2 ^ k
  spare_lem order =
      ap (whole_pages m (2 ^ k)) {y = gap} (omega (arith, v.tail_in, v.small))
      ∙ whole_pages_lem gap (omega (arith, v.tail_in, v.small))

  apart : r.head < r.tail → (r.head == r.tail) ≡ false
  apart order = ground arith

  back : r.head < r.tail → ltb r.tail r.head ≡ false
  back order = ground arith

  -- The data stays where it is.
  stays :
      (s : ℕ)
      → r.head ≤ r.tail
      → r.tail + s < r.size
      → s % 2 ^ k ≡ 0
      → reclaim m (2 ^ k) r ≡ ok (s, r)
      → Reclaimed (2 ^ k) r b (reclaim m (2 ^ k) r)
  stays s order room whole returns = record {
    spare = s;
    ring = r;
    bytes = b;
    returns = returns;
    valid = v;
    kept = refl;
    ordered = order;
    room = room;
    whole = whole;
    same_size = refl;
  }

  length-moved : r.head < r.tail → length (slice r.head (r.tail - r.head) b) ≡ r.tail - r.head
  length-moved order = length-slice r.head (r.tail - r.head) b (omega (arith, v.tail_in, v.extent))

  contents-moved :
      r.head < r.tail
      → contents (record r { head = 0; tail = r.tail - r.head }) moved ≡ contents r b
  contents-moved order =
      window_ordered moved 0 (r.tail - r.head) (omega arith)
      ∙ ap (λ i. take i moved) {y = 0 + length (slice r.head (r.tail - r.head) b)}
          (omega (arith, length-moved order))
      ∙ take-splice 0 (slice r.head (r.tail - r.head) b) b
          (omega (arith, length-moved order, v.extent, v.tail_in))
      ∙ sym (drop-take r.head r.tail b)
      ∙ sym (window_ordered b r.head r.tail (omega arith))

  memmove_down : r.head < r.tail → memmove b 0 r.head (r.tail - r.head) ≡ ok moved
  unfolding memmove
  memmove_down order = rw (
    load_inside b r.head (r.tail - r.head) (omega (arith, v.tail_in, v.extent)),
    store_inside b 0 (slice r.head (r.tail - r.head) b)
        (omega (arith, length-moved order, v.extent, v.tail_in)),
  )

  reclaim_moved :
      r.head < r.tail
      → (spare == 0) ≡ false
      → (r.head == 0) ≡ false
      → Reclaimed (2 ^ k) r b (reclaim m (2 ^ k) r)
  unfolding reclaim
  reclaim_moved order some_spare away = record {
    spare = spare;
    ring = record r { buf = mapped moved; head = 0; tail = r.tail - r.head };
    bytes = moved;
    returns =
        rw (apart order, back order, some_spare, away, deref_live v, count, memmove_down order)
          refl;
    valid = record {
      live = refl;
      extent =
          length-splice 0 (slice r.head (r.tail - r.head) b) b
            (omega (arith, length-moved order, v.extent, v.tail_in))
          ∙ v.extent;
      small = v.small;
      head_in = omega (arith, v.head_in);
      tail_in = omega (arith, v.tail_in);
      pages = v.pages;
    };
    kept = contents-moved order;
    ordered = omega arith;
    room = omega (arith, v.tail_in, spare_lem order);
    whole = rw (spare_lem order) (round_down_multiple k small gap);
    same_size = refl;
  }
    where
      count : sub32 r.tail r.head ≡ r.tail - r.head
      count = omega (arith, v.tail_in, v.small)

  -- While the data does not go round the end, `reclaim` moves it to the start of the region.
  pub reclaim_ordered : r.head ≤ r.tail → Reclaimed (2 ^ k) r b (reclaim m (2 ^ k) r)
  reclaim_ordered order = elim (ℕ_discrete r.head r.tail) [
    | yes same ↦ reclaim_empty same
    | no differ ↦
        let more : r.head < r.tail = omega arith in
        elim (Bool-cases (spare == 0)) [
          | inl nothing ↦
              stays 0 order (omega (arith, v.tail_in)) (mod-eq_of_lt (pow2_pos k))
                (unfold reclaim in rw (apart more, back more, nothing) refl)
          | inr some_spare ↦ elim (Bool-cases (r.head == 0)) [
            | inl start ↦
                stays spare order
                  (omega (arith, spare_lem more, (==_iff r.head 0).0 start, v.tail_in))
                  (rw (spare_lem more) (round_down_multiple k small gap))
                  (unfold reclaim in rw (apart more, back more, some_spare, start) refl)
            | inr away ↦ reclaim_moved more some_spare away
          ]
        ]
  ]
