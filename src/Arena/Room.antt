-- ===== src/Arena/Room.antt =====
-- `region_alloc` of src/arena.c on one region.
use native.Mathlib.Nat.{zero-mod, pow-le-pow_right}
use libpussy.Base.Bits.{pow2_pos}
use libpussy.Base.{
  lt→ltb, ap, ◌∙◌, ℕ, zero, suc, ◌+◌, ◌-◌, ◌%◌, ◌^◌, ◌≤◌, ◌<◌, ◌≡◌, ◌⊎◌, ◌↔◌, inl, inr, refl, arith,
  none, some, ltb, leb, ◌&&◌, true, ok, u32, sub32, Bool-cases, leb→le, leb→lt, ltb→lt, ltb→le,
}
use libpussy.Align.{align_unsigned}
use libpussy.Align.Laws.{align_unsigned_least, align_unsigned_bounds}
use libpussy.Arena.{Region, Block, region_alloc, region_header_size, is_power_of_two, max_alignment}

-- A region whose allocated part lies in it, at an address `malloc` could return.
pub record IsRegion (r : Region) : Type 0 where
  pub tail_inside : r.tail ≤ r.capacity
  pub small : r.capacity + 32 ≤ 2 ^ 32
  pub aligned : r.address % 16 ≡ 0

-- `b` is a block of `size` bytes from the free part of `r`.
pub record Grants (r : Region) (size alignment : ℕ) (b : Block) : Type 0 where
  pub above : r.address + 16 + r.tail ≤ b.result
  pub ends : b.result + size ≡ r.address + 16 + b.region.tail
  pub fits : b.region.tail ≤ r.capacity
  pub aligned : b.result % alignment ≡ 0
  pub same_address : b.region.address ≡ r.address
  pub same_capacity : b.region.capacity ≡ r.capacity

-- No aligned place in the free part of `r` has `size` bytes left.
abbrev pub NoRoom : Region → ℕ → ℕ → Type 0
NoRoom r size alignment =
    (place : ℕ)
    → r.tail ≤ place
    → (r.address + 16 + place) % alignment ≡ 0
    → r.capacity < place + size

multiple_iff : (k a b : ℕ) → k ≤ 4 → a % 16 ≡ 0 → (b % 2 ^ k ≡ 0) ↔ ((a + b) % 2 ^ k ≡ 0)
multiple_iff zero a b h e = ground arith
multiple_iff (suc zero) a b h e = ground arith
multiple_iff (suc (suc zero)) a b h e = ground arith
multiple_iff (suc (suc (suc zero))) a b h e = ground arith
multiple_iff (suc (suc (suc (suc zero)))) a b h e = ground arith
multiple_iff (suc (suc (suc (suc (suc k))))) a b h e = absurd (omega arith)

valid_alignment : (k : ℕ) → k ≤ 4 → (leb (2 ^ k) max_alignment && is_power_of_two (2 ^ k)) ≡ true
unfolding is_power_of_two
valid_alignment zero h = refl
valid_alignment (suc zero) h = refl
valid_alignment (suc (suc zero)) h = refl
valid_alignment (suc (suc (suc zero))) h = refl
valid_alignment (suc (suc (suc (suc zero)))) h = refl
valid_alignment (suc (suc (suc (suc (suc k))))) h = absurd (omega arith)

-- The place that `region_alloc` computes is the first aligned one of the free part.
record IsPlace (r : Region) (alignment start : ℕ) : Type 0 where
  computed :
      sub32 (align_unsigned (u32 (r.tail + region_header_size)) alignment) region_header_size
      ≡ start
  free : r.tail ≤ start
  aligned : (r.address + 16 + start) % alignment ≡ 0
  first : (place : ℕ) → r.tail ≤ place → (r.address + 16 + place) % alignment ≡ 0 → start ≤ place

small_power : (k : ℕ) → k ≤ 4 → (0 < 2 ^ k) × (2 ^ k ≤ 16)
small_power k h = omega (arith, pow2_pos k, pow-le-pow_right {n = 2} (omega arith) h)

IsPlace-of : (r : Region) (k : ℕ) → IsRegion r → k ≤ 4 → (start : ℕ) × IsPlace r (2 ^ k) start
IsPlace-of r k wf small =
    let p = small_power k small in
    let least =
      align_unsigned_least k (omega arith) (r.tail + 16)
        (omega (arith, wf.tail_inside, wf.small)) in
    let x = align_unsigned (r.tail + 16) (2 ^ k) in
    let bounds =
      align_unsigned_bounds (r.tail + 16) (2 ^ k) p.0 (omega (arith, wf.tail_inside, wf.small)) in
    (
      x - 16,
      record {
        computed =
            let e : u32 (r.tail + 16) ≡ r.tail + 16 = omega (arith, wf.tail_inside, wf.small) in
            rw e (omega (arith, bounds, wf.tail_inside, wf.small));
        free = omega (arith, least.0);
        aligned =
            same_sum (x - 16) x (omega (arith, least.0))
              ((multiple_iff k r.address x small wf.aligned).0 least.1);
        first = λ place above even. omega (
          arith,
          least.2 (16 + place)
              ((multiple_iff k r.address (16 + place) small wf.aligned).1 (same_sum' place even))
              (omega arith),
        );
      },
    )
  where
    same_sum :
        (start x : ℕ)
        → 16 + start ≡ x
        → (r.address + x) % 2 ^ k ≡ 0
        → (r.address + 16 + start) % 2 ^ k ≡ 0
    same_sum start x e h = ap (λ t. t % 2 ^ k) {y = r.address + x} (omega arith) ∙ h

    same_sum' :
        (start : ℕ) → (r.address + 16 + start) % 2 ^ k ≡ 0 → (r.address + (16 + start)) % 2 ^ k ≡ 0
    same_sum' start h = ap (λ t. t % 2 ^ k) {y = r.address + 16 + start} (omega arith) ∙ h

-- For at least one byte, at an alignment of at most 16, `region_alloc` never aborts. It returns an
-- aligned block of the free part and moves the tail to the end of it, or returns null if there is no
-- aligned place with enough room.
pub region_alloc_lem :
    (r : Region) (size k : ℕ)
    → IsRegion r
    → 0 < size
    → k ≤ 4
    → ((b : Block) × (region_alloc r size (2 ^ k) ≡ ok (some b)) × Grants r size (2 ^ k) b)
      ⊎ ((region_alloc r size (2 ^ k) ≡ ok none) × NoRoom r size (2 ^ k))
unfolding region_alloc
region_alloc_lem r size k wf some_bytes small = at (IsPlace-of r k wf small)
  where
    at :
        (start : ℕ) × IsPlace r (2 ^ k) start
        → ((b : Block) × (region_alloc r size (2 ^ k) ≡ ok (some b)) × Grants r size (2 ^ k) b)
          ⊎ ((region_alloc r size (2 ^ k) ≡ ok none) × NoRoom r size (2 ^ k))
    at place =
        let start = place.0 in
        let p = place.1 in
        rw (valid_alignment k small, lt→ltb _ _ some_bytes, p.computed)
          (elim (Bool-cases (leb r.capacity start)) [
            | inl full ↦
                rw full
                  (inr (refl, λ q above even. omega (arith, p.first q above even, leb→le _ _ full)))
            | inr more ↦ rw more (elim (Bool-cases (ltb (r.capacity - start) size)) [
              | inl short ↦ rw short (
                  inr (
                    refl,
                    λ q above even.
                        omega (arith, p.first q above even, ltb→lt _ _ short, leb→lt _ _ more),
                  ))
              | inr fits ↦ rw fits (
                  inl (
                    _,
                    refl,
                    record {
                      above = omega (arith, p.free);
                      ends = omega arith;
                      fits = omega (arith, ltb→le _ _ fits, leb→lt _ _ more);
                      aligned = p.aligned;
                      same_address = refl;
                      same_capacity = refl;
                    },
                  ))
            ])
          ])

-- An empty region has room for what it has the capacity for.
pub empty_has_room :
    (r : Region) (size k : ℕ)
    → IsRegion r
    → k ≤ 4
    → r.tail ≡ 0
    → size ≤ r.capacity
    → ¬ NoRoom r size (2 ^ k)
empty_has_room r size k wf small empty room no_room = omega (
  arith,
  no_room 0 (omega arith)
      ((multiple_iff k (r.address + 16) 0 small (omega (arith, wf.aligned))).0 (zero-mod (2 ^ k))),
)
