-- ===== src/RingBuffer/Shrink.antt =====
-- `shrink_ringbuffer` of src/ringbuffer_base.c.
pub mod Reclaim
pub mod Split
use native.Mathlib.Decide.{dec_lt}
use libpussy.Base.{
  ℕ, ◌+◌, ◌-◌, ◌%◌, ◌^◌, ◌≤◌, ◌<◌, min, max, ◌≡◌, ◌≢◌, ◌⊎◌, refl, sym, ap, ◌∙◌, inl, inr, Bool,
  true, false, Option, none, some, List, arith, ltb, ◌==◌, if◌then◌else◌, length, take, drop,
  take-take, sub32, Run, ok, aborted, ◌>>=◌, lt→ltb, le→ltb, le→leb, lt→leb, Option-cases,
  Bool-cases, ==_iff,
}
use libpussy.Align.Laws.{sub_multiple}
use libpussy.MemoryMap.{MemoryMap, IsMemoryMap}
use libpussy.RingBuffer.{RingBuffer, mapped, round_size, reclaim, shrink_mapping, shrink_ringbuffer}
use libpussy.RingBuffer.Inv.{IsRing, deref_live, contents, window_ordered}
use libpussy.RingBuffer.Size.{IsExtent, round_size-IsExtent}
use Reclaim.{StopsOnMremap, Reclaimed, reclaim_ordered}

-- A result of `shrink_ringbuffer` that holds what the ring held, in a buffer no larger than before and
-- no smaller than `n`, unless it was smaller before.
pub record Shrunk (page : ℕ) (r : RingBuffer) (b : List ℕ) (n : ℕ) (result : Run RingBuffer)
    : Type 0 where
  pub ring : RingBuffer
  pub bytes : List ℕ
  pub returns : result ≡ ok ring
  pub valid : IsRing page ring bytes
  pub kept : contents ring bytes ≡ contents r b
  pub not_larger : ring.size ≤ r.size
  pub enough : min r.size n ≤ ring.size

module _ (m : MemoryMap) (laws : IsMemoryMap m) {page : ℕ} {r : RingBuffer} {b : List ℕ}
    (v : IsRing page r b) (order : r.head ≤ r.tail) (s n : ℕ) (room : r.tail + s < r.size)
    (whole : s % page ≡ 0) (some_spare : s ≢ 0) (e : IsExtent page n) (less : n < r.size) where
  abbrev target : ℕ
  target = if ltb n (sub32 r.size s) then sub32 r.size s else n

  target_bounds : (n ≤ target) × (target < r.size) × (r.tail < target)
  target_bounds = ground (arith, v.small)

  target_whole : target % page ≡ 0
  target_whole = elim (dec_lt n (sub32 r.size s)) [
    | yes below ↦ rw (lt→ltb _ _ below, least) (sub_multiple page r.size s v.pages whole)
    | no above ↦ rw (le→ltb n (sub32 r.size s) (omega arith)) e.whole
  ]
    where
      least : sub32 r.size s ≡ r.size - s
      least = omega (arith, v.small)

  remapped : (b' : List ℕ) → m.mremap b target ≡ some b' → take r.tail b' ≡ take r.tail b
  remapped b' got =
      sym (take-take r.tail target b' (omega (arith, target_bounds)))
      ∙ ap (take r.tail) (
          ap (λ i. take i b') {y = min (length b) target} (omega (arith, target_bounds, v.extent))
          ∙ laws.mremap_keeps b target b' got
          ∙ ap (λ i. take i b) {y = target} (omega (arith, target_bounds, v.extent)))
      ∙ take-take r.tail target b (omega (arith, target_bounds))

  shrink_mapping_lem :
      Shrunk page r b n (shrink_mapping m page r s n)
      ⊎ StopsOnMremap m (shrink_mapping m page r s n)
  unfolding shrink_mapping
  shrink_mapping_lem = elim (Option-cases (m.mremap b target)) [
    | inl failed ↦
        inr (record {
          old = b;
          size = target;
          failed = failed;
          stops = rw (deref_live v, failed) refl;
        })
    | inr (b', got) ↦ inl (record {
      ring = record r { buf = mapped b'; size = target };
      bytes = b';
      returns = rw (deref_live v, got) refl;
      valid = record {
        live = refl;
        extent = laws.mremap_length b target b' got;
        small = omega (arith, v.small, target_bounds);
        head_in = omega (arith, target_bounds);
        tail_in = omega (arith, target_bounds);
        pages = target_whole;
      };
      kept =
          window_ordered b' r.head r.tail order
          ∙ ap (drop r.head) (remapped b' got)
          ∙ sym (window_ordered b r.head r.tail order);
      not_larger = omega (arith, target_bounds);
      enough = omega (arith, target_bounds);
    })
  ]

-- On a ring whose data does not go round the end, `shrink_ringbuffer` keeps the invariant and the
-- contents, makes the buffer no larger than it was and no smaller than the request in whole pages, or
-- stops the program where `mremap` fails.
pub shrink_ringbuffer-ordered :
    (m : MemoryMap) (k : ℕ) {r : RingBuffer} {b : List ℕ} (size : ℕ)
    → IsMemoryMap m
    → k < 32
    → IsRing (2 ^ k) r b
    → r.head ≤ r.tail
    → size < 2 ^ 32
    → let result = shrink_ringbuffer m (2 ^ k) r size in
      Shrunk (2 ^ k) r b (round_size m (2 ^ k) size) result ⊎ StopsOnMremap m result
unfolding shrink_ringbuffer
shrink_ringbuffer-ordered m k {r} {b} size laws small v order h = elim (dec_lt n r.size) [
  | yes less ↦ elim (Bool-cases (moved.spare == 0)) [
    | inl nothing ↦ inl (record {
      ring = moved.ring;
      bytes = moved.bytes;
      returns = rw (lt→leb _ _ less, moved.returns, nothing) refl;
      valid = moved.valid;
      kept = moved.kept;
      not_larger = omega (arith, moved.same_size);
      enough = omega (arith, moved.same_size);
    })
    | inr some_spare ↦
        rw (lt→leb _ _ less, moved.returns, some_spare)
          (elim (shrink_mapping_lem m laws moved.valid moved.ordered moved.spare n moved.room
            moved.whole (λ z. cc (some_spare, (==_iff moved.spare 0).1 z))
            (round_size-IsExtent m k small size h) (omega (arith, moved.same_size, less))) [
              | inl done ↦ inl (record {
                ring = done.ring;
                bytes = done.bytes;
                returns = done.returns;
                valid = done.valid;
                kept = done.kept ∙ moved.kept;
                not_larger = omega (arith, done.not_larger, moved.same_size);
                enough = omega (arith, done.enough, moved.same_size);
              })
              | inr stopped ↦ inr stopped
            ])
  ]
  | no fits ↦ inl (record {
    ring = r;
    bytes = b;
    returns = rw (le→leb r.size n (omega arith)) refl;
    valid = v;
    kept = refl;
    not_larger = omega arith;
    enough = omega arith;
  })
]
  where
    n : ℕ
    n = round_size m (2 ^ k) size

    moved : Reclaimed (2 ^ k) r b (reclaim m (2 ^ k) r)
    moved = reclaim_ordered m k small v order
