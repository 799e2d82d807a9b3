-- ===== src/PetAllocator/Cleanse/Blocks.antt =====
-- `cleanse` of src/allocator_pet.c on a block in the address space: what the functions that hand out blocks take it for.
use libpussy.Base.{
  ℕ, zero, suc, ◌+◌, ◌-◌, ◌^◌, ◌≤◌, ◌<◌, ◌≡◌, ◌⊎◌, inl, inr, ◌∙◌, refl, sym, ap, ap₂, arith, List,
  [], ◌∷◌, ◌++◌, ok, replicate, length, length-replicate, take, drop,
}
use libpussy.PetAllocator.Cleanse.{cleanse}
use libpussy.PetAllocator.Cleanse.Laws.{cleanse_lem}
use libpussy.PetAllocator.Blocks.{cleansed}

-- The `n` bytes from an address on.
unfoldable pub contents : (ℕ → ℕ) → ℕ → ℕ → List ℕ
contents bytes addr zero = []
contents bytes addr (suc n) = bytes addr ∷ contents bytes (addr + 1) n

length-contents : (bytes : ℕ → ℕ) (addr n : ℕ) → length (contents bytes addr n) ≡ n
unfolding contents
length-contents bytes addr zero = refl
length-contents bytes addr (suc n) = ap suc (length-contents bytes (addr + 1) n)

contents-same :
    (f g : ℕ → ℕ) (addr n : ℕ)
    → ((p : ℕ) → addr ≤ p → p < addr + n → f p ≡ g p)
    → contents f addr n ≡ contents g addr n
unfolding contents
contents-same f g addr zero same = refl
contents-same f g addr (suc n) same =
    ap₂ (λ x xs. x ∷ xs) (same addr (omega arith) (omega arith))
      (contents-same f g (addr + 1) n (λ p lo hi. same p (omega arith) (omega arith)))

contents_zero :
    (f : ℕ → ℕ) (addr n : ℕ)
    → ((p : ℕ) → addr ≤ p → p < addr + n → f p ≡ 0)
    → contents f addr n ≡ replicate n 0
unfolding contents
contents_zero f addr zero zeros = refl
contents_zero f addr (suc n) zeros =
    ap₂ (λ x xs. x ∷ xs) (zeros addr (omega arith) (omega arith))
      (contents_zero f (addr + 1) n (λ p lo hi. zeros p (omega arith) (omega arith)))

take-contents : (f : ℕ → ℕ) (addr m n : ℕ) → m ≤ n → take m (contents f addr n) ≡ contents f addr m
unfolding contents
take-contents f addr zero n h = refl
take-contents f addr (suc m) zero h = absurd (omega arith)
take-contents f addr (suc m) (suc n) h =
    ap (λ t. f addr ∷ t) (take-contents f (addr + 1) m n (omega arith))

drop-contents :
    (f : ℕ → ℕ) (addr m n : ℕ) → m ≤ n → drop m (contents f addr n) ≡ contents f (addr + m) (n - m)
unfolding contents
drop-contents f addr zero n h = ap₂ (contents f) (omega arith) (omega arith)
drop-contents f addr (suc m) zero h = absurd (omega arith)
drop-contents f addr (suc m) (suc n) h =
    drop-contents f (addr + 1) m n (omega arith) ∙ ap₂ (contents f) (omega arith) (omega arith)

contents_split :
    (f : ℕ → ℕ) (addr m n : ℕ)
    → m ≤ n
    → contents f addr n ≡ contents f addr m ++ contents f (addr + m) (n - m)
unfolding contents
contents_split f addr zero n h = ap₂ (contents f) (omega arith) (omega arith)
contents_split f addr (suc m) zero h = absurd (omega arith)
contents_split f addr (suc m) (suc n) h =
    ap (λ t. f addr ∷ t)
      (contents_split f (addr + 1) m n (omega arith)
        ∙ ap (λ t. contents f (addr + 1) m ++ t) (ap₂ (contents f) (omega arith) (omega arith)))

cleansed-outside :
    (addr start end p : ℕ) (bytes : ℕ → ℕ)
    → (p < addr + start) ⊎ (addr + end ≤ p)
    → bytes p ≡ cleansed addr start end bytes p
unfolding cleansed
cleansed-outside addr start end p bytes out = ground arith

cleansed-inside :
    (addr start end p : ℕ) (bytes : ℕ → ℕ)
    → addr + start ≤ p
    → p < addr + end
    → cleansed addr start end bytes p ≡ 0
unfolding cleansed
cleansed-inside addr start end p bytes lo hi = ground arith

-- For a range that lies in a block and ends below 2^32, cleanse, which clears bytes up to a word, then
-- words, then the remaining bytes, writes nothing outside of the block, and leaves in it what clearing the
-- bytes of the range one at a time leaves, which is what the model of the functions that hand out blocks
-- does.
pub cleanse-cleansed :
    (bytes : ℕ → ℕ) (addr n start end : ℕ)
    → start ≤ end
    → end ≤ n
    → end < 2 ^ 32
    → cleanse (contents bytes addr n) start end
      ≡ ok (contents (cleansed addr start end bytes) addr n)
cleanse-cleansed bytes addr n start end h room small =
    let after = cleansed addr start end bytes in
    let zeros = replicate {A = ℕ} (end - start) 0 in
    cleanse_lem (contents bytes addr n) start end h (omega (arith, length-contents bytes addr n))
      small
    ∙ ap ok (
        ap₂ (λ xs ys. xs ++ (zeros ++ ys))
          (take-contents bytes addr start n (omega arith)
            ∙ contents-same bytes after addr start
                (λ p lo hi. cleansed-outside addr start end p bytes (inl hi)))
          (ap (λ i. drop i (contents bytes addr n)) {y = end}
              (omega (arith, length-replicate {A = ℕ} (end - start) 0))
            ∙ drop-contents bytes addr end n room
            ∙ contents-same bytes after (addr + end) (n - end)
                (λ p lo hi. cleansed-outside addr start end p bytes (inr lo)))
        ∙ sym (
            contents_split after addr start n (omega arith)
            ∙ ap (λ t. contents after addr start ++ t)
                (contents_split after (addr + start) (end - start) (n - start) (omega arith)
                  ∙ ap₂ (λ xs ys. xs ++ ys)
                      (contents_zero after (addr + start) (end - start)
                        (λ p lo hi. cleansed-inside addr start end p bytes lo (omega arith)))
                      (ap₂ (contents after) (omega arith) (omega arith)))))
