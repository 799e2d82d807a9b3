-- ===== src/DebugAllocator/Check.antt =====
-- What `check_region` of src/allocator_debug.c finds, and that an untouched wrap passes it.
use native.Mathlib.Decide.{ℕ_discrete}
use libpussy.Base.{
  ℕ, zero, suc, ◌+◌, ◌-◌, ◌^◌, ◌≤◌, ◌<◌, ◌≡◌, inl, inr, refl, sym, ap, ◌∙◌, arith, true, false,
  Bool-cases, ◌==◌, if◌then◌else◌, Run, ok, aborted,
}
use libpussy.Heap.{Heap}
use libpussy.DebugAllocator.{calc_memsize, damaged_lower, damaged_upper, check_region}

-- The `n` bytes from `start` on are 0xFF.
abbrev pub AllFf : (ℕ → ℕ) → ℕ → ℕ → Type 0
AllFf bytes start n = (a : ℕ) → start ≤ a → a < start + n → bytes a ≡ 255

-- The 32 bytes on either side of a block of `n` bytes are.
pub record IsIntact (bytes : ℕ → ℕ) (block n : ℕ) : Type 0 where
  pub below : AllFf bytes (block - 32) 32
  pub above : AllFf bytes (block + n) 32

no_damage : (x k : ℕ) → x ≡ 255 → k ≡ 0 → (if x == 255 then 0 else 1) + k ≡ 0
no_damage x k e h = ground (arith, e, h)

one_more_ff : (x k : ℕ) → (if x == 255 then 0 else 1) + k ≡ 0 → (x ≡ 255) × (k ≡ 0)
one_more_ff x k h = (ground (arith, h), ground (arith, h))

module _ (bytes : ℕ → ℕ) where
  damaged_lower-none : (start n : ℕ) → AllFf bytes start n → damaged_lower bytes start n ≡ 0
  unfolding damaged_lower
  damaged_lower-none start zero all = refl
  damaged_lower-none start (suc n) all =
      no_damage (bytes (start + n)) _ (all (start + n) (omega arith) (omega arith))
        (damaged_lower-none start n (λ a lo hi. all a lo (omega arith)))

  damaged_lower-some : (start n : ℕ) → damaged_lower bytes start n ≡ 0 → AllFf bytes start n
  unfolding damaged_lower
  damaged_lower-some start zero none_damaged a lo hi = absurd (omega arith)
  damaged_lower-some start (suc n) none_damaged a lo hi =
      let both = one_more_ff (bytes (start + n)) _ none_damaged in
      elim (ℕ_discrete a (start + n)) [
        | yes e ↦ ap bytes e ∙ both.0
        | no ne ↦ damaged_lower-some start n both.1 a lo (omega arith)
      ]

  damaged_upper-none : (start n : ℕ) → AllFf bytes start n → damaged_upper bytes start n ≡ 0
  unfolding damaged_upper
  damaged_upper-none start zero all = refl
  damaged_upper-none start (suc n) all =
      no_damage (bytes start) _ (all start (omega arith) (omega arith))
        (damaged_upper-none (start + 1) n (λ a lo hi. all a (omega arith) (omega arith)))

  damaged_upper-some : (start n : ℕ) → damaged_upper bytes start n ≡ 0 → AllFf bytes start n
  unfolding damaged_upper
  damaged_upper-some start zero none_damaged a lo hi = absurd (omega arith)
  damaged_upper-some start (suc n) none_damaged a lo hi =
      let both = one_more_ff (bytes start) _ none_damaged in
      elim (ℕ_discrete a start) [
        | yes e ↦ ap bytes e ∙ both.0
        | no ne ↦ damaged_upper-some (start + 1) n both.1 a (omega arith) (omega arith)
      ]

-- `exit(1)` exactly if a byte of the wrap is damaged.
pub data Checked (s : Heap) (block n : ℕ) (result : Run Heap) : Type 0 where
  passes : IsIntact s.bytes block n → result ≡ ok s → Checked s block n result
  exits : ¬ IsIntact s.bytes block n → result ≡ aborted → Checked s block n result

==-zero : (n : ℕ) → (n == 0) ≡ true → n ≡ 0
==-zero n e = ground arith

zero-== : (n : ℕ) → n ≡ 0 → (n == 0) ≡ true
zero-== n e = ground arith

false-true : ¬ (false ≡ true)
false-true e = cc

-- The places of the wrap in a block behind a header.
lower_start : (block : ℕ) → 48 ≤ block → block - 16 - 32 + 16 ≡ block - 32
lower_start block h = omega arith

upper_start : (block n : ℕ) → 48 ≤ block → block - 32 + 32 + n ≡ block + n
upper_start block n h = omega arith

upper_length :
    (block n : ℕ)
    → 48 ≤ block
    → n + 80 < 2 ^ 32
    → block - 16 - 32 + calc_memsize n - (block + n) ≡ 32
unfolding calc_memsize
upper_length block n h k = omega arith

-- For a block behind a header, of a size that the header and the wrap can be added to, `check_region` returns
-- if all 32 bytes below the block and all 32 above it are 0xFF, and else ends the program.
pub check_region-Checked :
    (s : Heap) (block n : ℕ)
    → 48 ≤ block
    → n + 80 < 2 ^ 32
    → Checked s block n (check_region s block n)
unfolding check_region
check_region-Checked s block n high fits =
    rw (lower_start block high, upper_start block n high, upper_length block n high fits)
      (elim (Bool-cases (damaged_upper s.bytes (block + n) 32 == 0)) [
        | inr some_upper ↦
            exits
              (λ v.
                false-true
                  (sym some_upper ∙ zero-== _ (damaged_upper-none s.bytes (block + n) 32 v.above)))
              (rw some_upper refl)
        | inl none_upper ↦ elim (Bool-cases (damaged_lower s.bytes (block - 32) 32 == 0)) [
          | inr some_lower ↦
              exits
                (λ v.
                  false-true (
                    sym some_lower
                    ∙ zero-== _ (damaged_lower-none s.bytes (block - 32) 32 v.below)))
                (rw (none_upper, some_lower) refl)
          | inl none_lower ↦
              passes
                (record {
                  below = damaged_lower-some s.bytes (block - 32) 32 (==-zero _ none_lower);
                  above = damaged_upper-some s.bytes (block + n) 32 (==-zero _ none_upper);
                })
                (rw (none_upper, none_lower) refl)
        ]
      ])
