-- ===== src/PetAllocator/Cleanse.antt =====
-- `cleanse` of src/allocator_pet.c: zeros from byte `start` up to byte `end`, mostly a word at a time.
pub mod Laws
pub mod Blocks
use libpussy.Base.{
  ℕ, zero, suc, ◌+◌, ◌-◌, bit_and, List, [], ◌∷◌, leb, ltb, ◌==◌, if◌then◌else◌, sub32, Run, ok,
  ◌>>=◌, replicate,
}
use libpussy.Base.Memory.{store}

-- `sizeof(Word)`
abbrev pub word_size : ℕ
word_size = 8

-- `n` times `*byteptr++ = 0`
unfoldable pub clear_bytes : ℕ → List ℕ → ℕ → Run (List ℕ)
clear_bytes zero b pos = ok b
clear_bytes (suc n) b pos = do b' ← store b pos (0 ∷ []); clear_bytes n b' (pos + 1)

-- The loop over words, and the bytes that remain. The fuel is more than `length`.
unfoldable pub clear_words : ℕ → List ℕ → ℕ → ℕ → Run (List ℕ)
unfolding clear_bytes
clear_words zero b pos length = ok b
clear_words (suc fuel) b pos length =
    if leb word_size length
    then (do
      b' ← store b pos (replicate word_size 0)
      clear_words fuel b' (pos + word_size) (length - word_size))
    else if length == 0
    then ok b
    else clear_bytes length b pos

unfoldable pub cleanse : List ℕ → ℕ → ℕ → Run (List ℕ)
unfolding clear_words
cleanse b start end =
    let length = sub32 end start in
    let nbytes = bit_and start (word_size - 1) in
    if nbytes == 0 then clear_words (length + 1) b start length else (do
      let to_word = word_size - nbytes
      let n = if ltb length to_word then length else to_word
      b' ← clear_bytes n b start
      clear_words (length - n + 1) b' (start + n) (length - n))
