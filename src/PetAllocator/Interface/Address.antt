-- ===== src/PetAllocator/Interface/Address.antt =====
-- The address of a block in src/allocator_pet.c gives its page and its first unit back.
use native.Mathlib.Nat.{mod-eq_of_lt, mod-add-mod, pow-le-pow_right}
use libpussy.Base.{◌-◌, bit_and, ℕ, ◌+◌, ◌*◌, ◌%◌, ◌^◌, ◌≤◌, ◌<◌, ◌≡◌, sym, ap, ◌∙◌, arith}
use libpussy.Base.Bits.{complement, bit_and-complement-low_mask}
use libpussy.PetAllocator.Sizes.{bm_page_by_addr, ptrdiff_to_units}

-- A page of 2^k bytes.
pub record IsPlaced (k page : ℕ) : Type 0 where
  pub aligned : page % 2 ^ k ≡ 0
  pub inside : page + 2 ^ k ≤ 2 ^ 64

small_mod : (d m : ℕ) → d < m → (0 + d) % m ≡ d
small_mod d m h = ap (λ x. x % m) {x = 0 + d} {y = d} (omega arith) ∙ mod-eq_of_lt h

-- An address in a page gives the page back.
pub page_of :
    (k page d : ℕ)
    → k < 32
    → IsPlaced k page
    → d < 2 ^ k
    → bit_and (page + d) (complement 64 (2 ^ k - 1)) ≡ page
page_of k page d small placed low =
    let rest =
      sym (mod-add-mod page (2 ^ k) d)
      ∙ ap (λ r. (r + d) % 2 ^ k) placed.aligned
      ∙ small_mod d (2 ^ k) low in
    bit_and-complement-low_mask 64 k (page + d) (omega arith) (omega (arith, placed.inside))
    ∙ omega (arith, rest)

-- The address of a block in a page gives the page and the offset back.
pub address-page :
    (k page offset : ℕ)
    → k < 32
    → IsPlaced k page
    → offset * 16 < 2 ^ k
    → (bm_page_by_addr (2 ^ k) (page + offset * 16) ≡ page)
      × (ptrdiff_to_units (page + offset * 16) page ≡ offset)
unfolding bm_page_by_addr ptrdiff_to_units
address-page k page offset small placed low = (
  page_of k page (offset * 16) small placed low,
  omega (arith, pow-le-pow_right {n = 2} (omega arith) {i = k} {j = 32} (omega arith)),
)
