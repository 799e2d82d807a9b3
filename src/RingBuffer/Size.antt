-- ===== src/RingBuffer/Size.antt =====
-- The sizes that src/ringbuffer_base.c maps, and `init_ringbuffer`.
use libpussy.Base.{
  ℕ, ◌+◌, ◌-◌, ◌%◌, ◌^◌, ◌≤◌, ◌<◌, ◌≡◌, refl, true, false, some, List, [], arith, ◌⊎◌, inl, inr,
  Option-cases,
}
use libpussy.Base.Bits.{pow2_pos}
use native.Mathlib.Nat.{mod_self}
use libpussy.Align.Laws.{
  align_unsigned_least, align_unsigned_multiple, align_unsigned-lt, pow_bound,
}
use libpussy.MemoryMap.{MemoryMap, IsMemoryMap}
use libpussy.RingBuffer.{RingBuffer, mapped, map_failed, round_size, init_ringbuffer}
use libpussy.RingBuffer.Inv.{IsRing, contents, window_ordered}

-- A size that can be mapped: whole pages, at least one.
pub record IsExtent (page n : ℕ) : Type 0 where
  pub whole : n % page ≡ 0
  pub pos : 0 < n
  pub small : n < 2 ^ 32

module _ (m : MemoryMap) (k : ℕ) (small : k < 32) where
  pub round_size-IsExtent :
      (size : ℕ) → size < 2 ^ 32 → IsExtent (2 ^ k) (round_size m (2 ^ k) size)
  unfolding round_size
  round_size-IsExtent size h = ground (
    arith,
    pow2_pos k,
    pow_bound k small,
    mod_self (2 ^ k),
    align_unsigned_multiple k small size h,
    align_unsigned-lt k small size h,
  )

  pub le-round_size : (size : ℕ) → size + (2 ^ k - 1) < 2 ^ 32 → size ≤ round_size m (2 ^ k) size
  unfolding round_size
  le-round_size size fits = ground (arith, (align_unsigned_least k small size fits).0)

  -- `init_ringbuffer` either fails with the mapping and returns false, or returns true and leaves a
  -- well formed, empty ring, as large as was asked for unless rounding up leaves 32 bits.
  pub init_ringbuffer_lem :
      IsMemoryMap m
      → (r : RingBuffer) (size : ℕ) → size < 2 ^ 32
      → let (done, r') = init_ringbuffer m (2 ^ k) r size in
        ((done ≡ false) × (r'.buf ≡ map_failed))
        ⊎ ((b : List ℕ) × (done ≡ true)
            × IsRing (2 ^ k) r' b
            × (contents r' b ≡ [])
            × (size + (2 ^ k - 1) < 2 ^ 32 → size ≤ r'.size))
  unfolding init_ringbuffer
  init_ringbuffer_lem laws r size h = elim (Option-cases (m.mmap n)) [
    | inl failed ↦ inl (rw (failed, init_ringbuffer) refl, rw (failed, init_ringbuffer) refl)
    | inr (b, got) ↦ inr (
        rw (got, init_ringbuffer)
          (b, refl, ready b got, window_ordered b 0 0 (omega arith), le-round_size size))
  ]
    where
      n : ℕ
      n = round_size m (2 ^ k) size

      extent : IsExtent (2 ^ k) n
      extent = round_size-IsExtent size h

      ready :
          (b : List ℕ)
          → m.mmap n ≡ some b
          → IsRing (2 ^ k) (record { buf = mapped b; size = n; head = 0; tail = 0 }) b
      ready b got = record {
        live = refl;
        extent = laws.mmap_length n b got;
        small = extent.small;
        head_in = extent.pos;
        tail_in = extent.pos;
        pages = extent.whole;
      }
