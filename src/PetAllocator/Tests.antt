-- ===== src/PetAllocator/Tests.antt =====
-- The bitmap functions and `cleanse` of src/allocator_pet.c on a page of 256 units with a header of 4.
use libpussy.PetAllocator.Cleanse.{cleanse}
use libpussy.PetAllocator.Blocks.{cleansed}
use libpussy.PetAllocator.Cleanse.Blocks.{contents, cleanse-cleansed}
use libpussy.Base.Memory.{store}
use libpussy.Base.{
  replicate, ◌++◌, ℕ, zero, suc, ◌+◌, ◌-◌, ◌^◌, ◌<◌, ◌≡◌, refl, arith, List, [], ◌∷◌, ok,
}
use libpussy.PetAllocator.Bitmap.{
  load_word, count_zero_bits, count_nonzero_bits, set_bits, clear_bits,
}
use libpussy.Word.{count_trailing_zeros}
use libpussy.PetAllocator.Bitmap.Range.{IsWords}
use libpussy.PetAllocator.Search.{find_free_block, find_longest_free_block}
use libpussy.PetAllocator.Search.FirstFit.{FirstFit, find_free_block-FirstFit}
use libpussy.PetAllocator.Search.Longest.{Longest, find_longest_free_block-Longest}

IsWords-nil : IsWords []
IsWords-nil i = omega arith

IsWords-cons : (w : ℕ) (bm : List ℕ) → w < 2 ^ 64 → IsWords bm → IsWords (w ∷ bm)
IsWords-cons w bm h t zero = h
IsWords-cons w bm h t (suc i) = t i

-- Units 0 to 3 hold the header, and 6 to 69 a block.
abbrev page : List ℕ
page = (2 ^ 64 - 64 + 15) ∷ 63 ∷ 0 ∷ 0 ∷ []

page-IsWords : IsWords page
page-IsWords = IsWords-cons (2 ^ 64 - 64 + 15) (63 ∷ 0 ∷ 0 ∷ []) (omega arith) (
    IsWords-cons 63 (0 ∷ 0 ∷ []) (omega arith)
      (IsWords-cons 0 (0 ∷ []) (omega arith) (IsWords-cons 0 [] (omega arith) IsWords-nil)))

zeros_test : count_zero_bits 256 page 4 100 ≡ ok 2
unfolding count_zero_bits load_word count_trailing_zeros
zeros_test = refl

ones_test : count_nonzero_bits 256 page 6 100 ≡ ok 64
unfolding count_nonzero_bits load_word count_trailing_zeros
ones_test = refl

to_end_test : count_zero_bits 256 page 70 1000 ≡ ok 186
unfolding count_zero_bits load_word count_trailing_zeros
to_end_test = refl

limit_test : count_zero_bits 256 page 70 10 ≡ ok 58
unfolding count_zero_bits load_word count_trailing_zeros
limit_test = refl

fit_test : find_free_block 256 4 page 2 ≡ ok 4
unfolding find_free_block count_zero_bits count_nonzero_bits load_word count_trailing_zeros
fit_test = refl

behind_test : find_free_block 256 4 page 3 ≡ ok 70
unfolding find_free_block count_zero_bits count_nonzero_bits load_word count_trailing_zeros
behind_test = refl

full_test : find_free_block 256 4 page 187 ≡ ok 0
unfolding find_free_block count_zero_bits count_nonzero_bits load_word count_trailing_zeros
full_test = refl

longest_test : find_longest_free_block 256 4 page ≡ ok 186
unfolding find_longest_free_block count_zero_bits count_nonzero_bits load_word count_trailing_zeros
longest_test = refl

set_test : set_bits page 4 2 ≡ ok ((2 ^ 64 - 1) ∷ 63 ∷ 0 ∷ 0 ∷ [])
unfolding set_bits
set_test = refl

clear_test : clear_bits page 6 64 ≡ ok (15 ∷ 0 ∷ 0 ∷ 0 ∷ [])
unfolding clear_bits
clear_test = refl

find_free_block-FirstFit_example : FirstFit page 4 3 (find_free_block 256 4 page 3)
find_free_block-FirstFit_example =
    find_free_block-FirstFit 256 4 page page-IsWords (omega arith) 3 (omega arith) (omega arith)

find_longest_free_block-Longest_example : Longest page 4 (find_longest_free_block 256 4 page)
find_longest_free_block-Longest_example =
    find_longest_free_block-Longest 256 4 page page-IsWords (omega arith) (omega arith)
      (omega arith)

cleanse_test :
    cleanse (replicate 24 7) 5 21 ≡ ok (replicate 5 7 ++ (replicate 16 0 ++ replicate 3 7))
unfolding cleanse store
cleanse_test = refl

cleanse-cleansed_example :
    cleanse (contents (λ a. 7) 4112 24) 5 21 ≡ ok (contents (cleansed 4112 5 21 (λ a. 7)) 4112 24)
cleanse-cleansed_example =
    cleanse-cleansed (λ a. 7) 4112 24 5 21 (omega arith) (omega arith) (omega arith)
