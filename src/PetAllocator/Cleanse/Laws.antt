-- ===== src/PetAllocator/Cleanse/Laws.antt =====
-- `cleanse` of src/allocator_pet.c clears exactly its range.
use libpussy.Base.{
  inl, inr, ℕ, zero, suc, ◌+◌, ◌-◌, ◌^◌, ◌%◌, ◌≤◌, ◌<◌, ◌≡◌, ◌∙◌, refl, sym, ap, arith, List, [],
  ◌∷◌, ◌++◌, leb, ltb, ◌==◌, if◌then◌else◌, sub32, ok, replicate, length, length-replicate,
  Bool-cases, leb→le,
}
use libpussy.Base.Bits.{bit_and-low_mask}
use libpussy.Base.Memory.{splice, store_inside}
use libpussy.Base.Memory.Splice.{splice-join, splice-none, length-splice}
use libpussy.PetAllocator.Cleanse.{clear_bytes, clear_words, cleanse, word_size}

-- `result` is `b` with `n` zeros from `pos` on.
abbrev pub zeroed_at : List ℕ → ℕ → ℕ → List ℕ
zeroed_at b pos n = splice pos (replicate n 0) b

length-zeroed_at :
    (b : List ℕ) (pos n : ℕ) → pos + n ≤ length b → length (zeroed_at b pos n) ≡ length b
length-zeroed_at b pos n h =
    length-splice pos (replicate n 0) b (omega (arith, length-replicate {A = ℕ} n 0))

replicate-add :
    (n k s : ℕ) → n + k ≡ s → replicate {A = ℕ} n 0 ++ replicate {A = ℕ} k 0 ≡ replicate {A = ℕ} s 0
replicate-add zero k s e = ap (λ i. replicate {A = ℕ} i 0) (omega arith)
replicate-add (suc n) k zero e = absurd (omega arith)
replicate-add (suc n) k (suc s) e = ap (λ t. 0 ∷ t) (replicate-add n k s (omega arith))

zeroed_at-join :
    (b : List ℕ) (pos n k : ℕ)
    → pos + (n + k) ≤ length b
    → zeroed_at (zeroed_at b pos n) (pos + n) k ≡ zeroed_at b pos (n + k)
zeroed_at-join b pos n k h =
    ap (λ i. splice i (replicate k 0) (zeroed_at b pos n)) {y = pos + length (replicate n 0)}
      (omega (arith, length-replicate {A = ℕ} n 0))
    ∙ splice-join pos (replicate n 0) (replicate k 0) b
        (omega (arith, length-replicate {A = ℕ} n 0, length-replicate {A = ℕ} k 0))
    ∙ ap (λ t. splice pos t b) (replicate-add n k (n + k) refl)

clear_bytes_lem :
    (n : ℕ) (b : List ℕ) (pos : ℕ)
    → pos + n ≤ length b
    → clear_bytes n b pos ≡ ok (zeroed_at b pos n)
unfolding clear_bytes
clear_bytes_lem zero b pos h = ap ok (sym (splice-none pos b (omega arith)))
clear_bytes_lem (suc n) b pos h = rw (store_inside b pos (0 ∷ []) (omega arith)) (
    clear_bytes_lem n (zeroed_at b pos 1) (pos + 1)
      (omega (arith, length-zeroed_at b pos 1 (omega arith)))
    ∙ ap ok (
        zeroed_at-join b pos 1 n (omega arith)
        ∙ ap (zeroed_at b pos) {x = 1 + n} {y = suc n} (omega arith)))

clear_words_lem :
    (fuel : ℕ) (b : List ℕ) (pos n : ℕ)
    → n < fuel
    → pos + n ≤ length b
    → clear_words fuel b pos n ≡ ok (zeroed_at b pos n)
unfolding clear_words
clear_words_lem zero b pos n h room = absurd (omega arith)
clear_words_lem (suc fuel) b pos n h room = elim (Bool-cases (leb word_size n)) [
  | inl whole ↦
      rw (whole, store_inside b pos (replicate word_size 0) (omega (arith, leb→le _ _ whole)))
        (clear_words_lem fuel (zeroed_at b pos 8) (pos + 8) (n - 8)
            (omega (arith, leb→le _ _ whole))
            (omega
              (arith, leb→le _ _ whole, length-zeroed_at b pos 8 (omega (arith, leb→le _ _ whole))))
          ∙ ap ok (
              zeroed_at-join b pos 8 (n - 8) (omega (arith, leb→le _ _ whole))
              ∙ ap (zeroed_at b pos) (omega (arith, leb→le _ _ whole))))
  | inr part ↦ rw part (elim (Bool-cases (n == 0)) [
    | inl done ↦ rw done (
        ap ok (
          sym (splice-none pos b (omega arith))
          ∙ ap (zeroed_at b pos) {x = 0} {y = n} (ground arith)))
    | inr some_left ↦ rw some_left (clear_bytes_lem n b pos room)
  ])
]

-- If the range lies in the block and its end is below 2^32, `cleanse` writes nothing outside of the block, and leaves
-- it with zeros in the bytes from `start` up to `end` and the others as they were.
pub cleanse_lem :
    (b : List ℕ) (start end : ℕ)
    → start ≤ end
    → end ≤ length b
    → end < 2 ^ 32
    → cleanse b start end ≡ ok (splice start (replicate (end - start) 0) b)
unfolding cleanse
cleanse_lem b start end h room small =
    rw (bit_and-low_mask 3 start, length_32)
      (elim (Bool-cases (start % 8 == 0)) [
        | inl aligned ↦
            rw aligned
              (clear_words_lem (end - start + 1) b start (end - start) (omega arith) (omega arith))
        | inr unaligned ↦ rw unaligned (
            rw (clear_bytes_lem first b start (omega (arith, first_le))) (
              clear_words_lem (end - start - first + 1) (zeroed_at b start first) (start + first)
                (end - start - first) (omega arith)
                (omega (arith, first_le, length-zeroed_at b start first (omega (arith, first_le))))
              ∙ ap ok (
                  zeroed_at-join b start first (end - start - first) (omega (arith, first_le))
                  ∙ ap (zeroed_at b start) (omega (arith, first_le)))))
      ])
  where
    length_32 : sub32 end start ≡ end - start
    length_32 = omega arith

    first : ℕ
    first = if ltb (end - start) (8 - start % 8) then end - start else 8 - start % 8

    first_le : first ≤ end - start
    first_le = ground arith
