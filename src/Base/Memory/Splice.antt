-- ===== src/Base/Memory/Splice.antt =====
-- What a region holds after bytes of it were overwritten.
use Prim.Native.Nat.{ℕ, zero, suc, ◌+◌, ◌-◌, ◌≤◌}
use mathlib.Core.Path.{◌≡◌, refl, ap, sym, ◌∙◌}
use mathlib.Core.List.{List, [], ◌∷◌, ◌++◌}
use native.Mathlib.Omega.{arith}
use libpussy.Base.Lists.{
  length, take, drop, length-append, length-take, length-drop, take-all, take-append_le,
  take-append_ge, drop-append_ge, take-take, drop-drop,
}
use libpussy.Base.Memory.{splice, slice}

module _ {ℓ} {A : Type ℓ} where
  pub length-slice :
      (off n : ℕ) (mem : List A) → off + n ≤ length mem → length (slice off n mem) ≡ n
  length-slice off n mem h = omega (arith, length-take n (drop off mem), length-drop off mem)

module _ {ℓ} {A : Type ℓ} (off : ℕ) (xs mem : List A) (inside : off + length xs ≤ length mem) where
  length-before : length (take off mem) ≡ off
  length-before = omega (arith, length-take off mem)

  pub length-splice : length (splice off xs mem) ≡ length mem
  length-splice = omega (
    arith,
    length-append (take off mem) (xs ++ drop (off + length xs) mem),
    length-append xs (drop (off + length xs) mem),
    length-before,
    length-drop (off + length xs) mem,
  )

  pub take-splice : take (off + length xs) (splice off xs mem) ≡ take off mem ++ xs
  take-splice =
      take-append_ge (off + length xs) (take off mem) _ (omega (arith, length-before))
      ∙ ap (λ k. take off mem ++ take k (xs ++ drop (off + length xs) mem)) {y = length xs}
          (omega (arith, length-before))
      ∙ ap (λ t. take off mem ++ t)
          (take-append_le (length xs) xs _ (omega arith) ∙ take-all (length xs) xs (omega arith))

  pub take-splice_before : (k : ℕ) → k ≤ off → take k (splice off xs mem) ≡ take k mem
  take-splice_before k h =
      take-append_le k (take off mem) _ (omega (arith, length-before)) ∙ take-take k off mem h

  pub drop-splice_at : drop off (splice off xs mem) ≡ xs ++ drop (off + length xs) mem
  drop-splice_at =
      drop-append_ge off (take off mem) _ (omega (arith, length-before))
      ∙ ap (λ k. drop k (xs ++ drop (off + length xs) mem)) {y = 0} (omega (arith, length-before))

  pub drop-splice_after : (k : ℕ) → off + length xs ≤ k → drop k (splice off xs mem) ≡ drop k mem
  drop-splice_after k h =
      ap (λ i. drop i (splice off xs mem)) {y = off + (k - off)} (omega arith)
      ∙ sym (drop-drop (k - off) off (splice off xs mem))
      ∙ ap (drop (k - off)) drop-splice_at
      ∙ drop-append_ge (k - off) xs _ (omega arith)
      ∙ drop-drop (k - off - length xs) (off + length xs) mem
      ∙ ap (λ i. drop i mem) (omega arith)

module _ {ℓ} {A : Type ℓ} where
  append_assoc : (xs ys zs : List A) → (xs ++ ys) ++ zs ≡ xs ++ (ys ++ zs)
  append_assoc [] ys zs = refl
  append_assoc (x ∷ xs) ys zs = ap (λ t. x ∷ t) (append_assoc xs ys zs)

  take-append-drop : (n : ℕ) (xs : List A) → take n xs ++ drop n xs ≡ xs
  take-append-drop zero xs = refl
  take-append-drop (suc n) [] = refl
  take-append-drop (suc n) (x ∷ xs) = ap (λ t. x ∷ t) (take-append-drop n xs)

  pub splice-none : (off : ℕ) (mem : List A) → off ≤ length mem → splice off [] mem ≡ mem
  splice-none off mem h =
      ap (λ n. take off mem ++ drop n mem) {y = off} (omega arith) ∙ take-append-drop off mem

  -- Two stores side by side are one.
  pub splice-join :
      (off : ℕ) (xs ys mem : List A)
      → off + length xs + length ys ≤ length mem
      → splice (off + length xs) ys (splice off xs mem) ≡ splice off (xs ++ ys) mem
  splice-join off xs ys mem h =
      ap (λ t. t ++ (ys ++ drop (off + length xs + length ys) (splice off xs mem)))
        (take-splice off xs mem (omega arith))
      ∙ ap (λ t. (take off mem ++ xs) ++ (ys ++ t))
          (drop-splice_after off xs mem (omega arith) (off + length xs + length ys) (omega arith))
      ∙ append_assoc (take off mem) xs (ys ++ drop (off + length xs + length ys) mem)
      ∙ ap (λ t. take off mem ++ t)
          (sym (append_assoc xs ys (drop (off + length xs + length ys) mem)))
      ∙ ap (λ n. take off mem ++ ((xs ++ ys) ++ drop n mem)) (omega (arith, length-append xs ys))
