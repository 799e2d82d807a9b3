-- ===== src/PetAllocator/Bitmap/Put.antt =====
-- `set_bits` and `clear_bits` of src/allocator_pet.c overwrite exactly the range they are given.
use native.Mathlib.Decide.{dec_lt}
use libpussy.Base.{
  ℕ, zero, suc, ◌+◌, ◌-◌, ◌*◌, ◌/◌, ◌%◌, ◌^◌, ◌≤◌, ◌<◌, ◌≡◌, ◌≢◌, ◌∙◌, refl, ap, arith, min, Bool,
  true, List, leb, ◌==◌, if◌then◌else◌, length, set, bit_and, bit_or, Bool-cases, inl, inr, leb→le,
  leb→lt, Run, ok, ◌>>=◌, ==_iff,
}
use libpussy.Base.Bits.{
  bit, bit-lt, bit-bit_and, bit-bit_or, bit_and-le, bit_and-low_mask, complement,
}
use libpussy.Base.Bits.Shift.{bit_high, bit-complement, lt_of_bits}
use libpussy.Word.{word_max, word_width}
use libpussy.PetAllocator.Bitmap.{
  ones, start_mask, store_word, put_mask, put_words, put_bits, set_bits, clear_bits,
}
use libpussy.PetAllocator.Bitmap.Range.{
  IsWords, in_range, word_at, Puts, Puts-none, Puts-join, load_word_inside, store_word-Puts,
}
use libpussy.PetAllocator.Bitmap.Masks.{
  IsMask, ones-IsMask, word_max-IsMask, start_mask-IsMask, one_if,
}

-- `put` writes `value` where the mask has a one, and `whole` has it everywhere.
pub record IsPut (put : ℕ → ℕ → ℕ) (whole value : ℕ) : Type 0 where
  pub digit :
      (w mask j : ℕ)
      → mask < 2 ^ 64
      → j < 64
      → bit (put w mask) j ≡ (if bit mask j == 1 then value else bit w j)
  pub fits : (w mask : ℕ) → w < 2 ^ 64 → mask < 2 ^ 64 → put w mask < 2 ^ 64
  pub whole_digit : (j : ℕ) → j < 64 → bit whole j ≡ value
  pub whole_fits : whole < 2 ^ 64

pub bit_or-IsPut : IsPut bit_or word_max 1
bit_or-IsPut = record {
  digit = λ w mask j hm hj. ground (arith, bit-bit_or w mask j, bit-lt w j, bit-lt mask j);
  fits = λ w mask hw hm.
      lt_of_bits 64 (bit_or w mask)
        λ i p. omega (arith, bit-bit_or w mask i, bit_high 64 w i hw p, bit_high 64 mask i hm p);
  whole_digit = λ j h. word_max-IsMask.digits j h ∙ ap one_if {y = true} (ground arith);
  whole_fits = omega arith;
}

pub bit_clear-IsPut : IsPut (λ w mask. bit_and w (complement word_width mask)) 0 0
bit_clear-IsPut = record {
  digit = λ w mask j hm hj. ground (
    arith,
    bit-bit_and w (complement 64 mask) j,
    bit-complement 64 mask j hm hj,
    bit-lt w j,
    bit-lt mask j,
  );
  fits = λ w mask hw hm. omega (arith, bit_and-le w (complement 64 mask));
  whole_digit = λ j h. bit_high 0 0 j (omega arith) (omega arith);
  whole_fits = omega arith;
}

-- A run that ends with the range overwritten.
pub record Done (value lo hi : ℕ) (bm : List ℕ) (result : Run (List ℕ)) : Type 0 where
  pub after : List ℕ
  pub returns : result ≡ ok after
  pub puts : Puts value lo hi bm after

pub Done-at :
    {value lo hi : ℕ} (lo' hi' : ℕ) {bm : List ℕ} {result : Run (List ℕ)}
    → lo ≡ lo'
    → hi ≡ hi'
    → Done value lo hi bm result
    → Done value lo' hi' bm result
Done-at lo' hi' e e' d = rw (← e, ← e') d

-- An empty range has no place.
Done-empty :
    {value lo hi : ℕ} (lo' hi' : ℕ) {bm : List ℕ} {result : Run (List ℕ)}
    → hi ≤ lo
    → hi' ≤ lo'
    → Done value lo hi bm result
    → Done value lo' hi' bm result
Done-empty lo' hi' h h' d = record {
  after = d.after;
  returns = d.returns;
  puts = record {
    same_length = d.puts.same_length;
    bits = λ p. ground (arith, d.puts.bits p);
    words = d.puts.words;
  };
}

-- Two neighbouring ranges, one after the other.
Done-then :
    {value : ℕ} (lo mid hi : ℕ) {bm : List ℕ} {first : Run (List ℕ)}
    (second : List ℕ → Run (List ℕ))
    → lo ≤ mid
    → mid ≤ hi
    → Done value lo mid bm first
    → ((bm' : List ℕ) → Puts value lo mid bm bm' → Done value mid hi bm' (second bm'))
    → Done value lo hi bm (first >>= second)
Done-then lo mid hi second h k d next = record {
  after = (next d.after d.puts).after;
  returns = rw d.returns (next d.after d.puts).returns;
  puts = Puts-join h k d.puts (next d.after d.puts).puts;
}

module _ (put : ℕ → ℕ → ℕ) (whole value : ℕ) (law : IsPut put whole value) where
  pub put_mask-Done :
      (bm : List ℕ) (i lo hi mask : ℕ)
      → IsWords bm
      → i < length bm
      → hi ≤ 64
      → IsMask lo hi mask
      → Done value (i * 64 + lo) (i * 64 + hi) bm (put_mask put whole bm i mask)
  unfolding put_mask
  put_mask-Done bm i lo hi mask words inside top is_mask = record {
    after = set bm i (put (word_at bm i) mask);
    returns = rw (load_word_inside bm i inside) stored.0;
    puts = stored.1;
  }
    where
      chosen : (j : ℕ) → j < 64 → (bit mask j == 1) ≡ in_range lo hi j
      chosen j p = rw (is_mask.digits j p) (ground arith)

      digits :
          (j : ℕ)
          → j < 64
          → bit (put (word_at bm i) mask) j
            ≡ (if in_range lo hi j then value else bit (word_at bm i) j)
      digits j p =
          law.digit (word_at bm i) mask j is_mask.fits p
          ∙ ap (λ (t : Bool). if t then value else bit (word_at bm i) j) (chosen j p)

      stored :
          (store_word bm i (put (word_at bm i) mask) ≡ ok (set bm i (put (word_at bm i) mask)))
          × Puts value (i * 64 + lo) (i * 64 + hi) bm (set bm i (put (word_at bm i) mask))
      stored =
          store_word-Puts value i lo hi bm (put (word_at bm i) mask) inside top
            (law.fits _ _ (words i) is_mask.fits) digits

  store_whole-Done :
      (bm : List ℕ) (i : ℕ)
      → i < length bm
      → Done value (i * 64) (i * 64 + 64) bm (store_word bm i whole)
  store_whole-Done bm i inside =
      Done-at (i * 64) (i * 64 + 64) (omega arith) refl
        (record { after = set bm i whole; returns = stored.0; puts = stored.1 })
    where
      digits :
          (j : ℕ) → j < 64 → bit whole j ≡ (if in_range 0 64 j then value else bit (word_at bm i) j)
      digits j p =
          law.whole_digit j p
          ∙ ap (λ (t : Bool). if t then value else bit (word_at bm i) j) {x = true} (ground arith)

      stored :
          (store_word bm i whole ≡ ok (set bm i whole))
          × Puts value (i * 64 + 0) (i * 64 + 64) bm (set bm i whole)
      stored = store_word-Puts value i 0 64 bm whole inside (omega arith) law.whole_fits digits

  put_words-Done :
      (fuel : ℕ) (bm : List ℕ) (i n : ℕ)
      → IsWords bm
      → n < fuel
      → i * 64 + n ≤ length bm * 64
      → Done value (i * 64) (i * 64 + n) bm (put_words put whole fuel bm i n)
  unfolding put_words
  put_words-Done zero bm i n words enough room = absurd (omega arith)
  put_words-Done (suc fuel) bm i n words enough room = elim (Bool-cases (leb 64 n)) [
    | inl more ↦ rw more (
        Done-then (i * 64) (i * 64 + 64) (i * 64 + n)
          (λ bm'. put_words put whole fuel bm' (i + 1) (n - 64)) (omega arith)
          (omega (arith, leb→le _ _ more)) (store_whole-Done bm i (omega (arith, leb→le _ _ more)))
          (λ bm' p.
            Done-at (i * 64 + 64) (i * 64 + n) (omega arith) (omega (arith, leb→le _ _ more)) (
              put_words-Done fuel bm' (i + 1) (n - 64) (p.words words)
                (omega (arith, leb→le _ _ more)) (omega (arith, leb→le _ _ more, p.same_length)))))
    | inr less ↦ rw less (elim (Bool-cases (n == 0)) [
      | inl empty ↦ rw empty (record {
        after = bm;
        returns = refl;
        puts = Puts-none bm (omega (arith, (==_iff n 0).0 empty));
      })
      | inr some_left ↦ rw some_left (
          Done-at (i * 64) (i * 64 + n) (omega arith) refl (
            put_mask-Done bm i 0 n (ones n) words (ground arith) (omega (arith, leb→lt _ _ less))
              (ones-IsMask n (leb→lt _ _ less))))
    ])
  ]

  put_bits-Done :
      (bm : List ℕ) (offset n : ℕ)
      → IsWords bm
      → offset + n ≤ length bm * 64
      → Done value offset (offset + n) bm (put_bits put whole bm offset n)
  unfolding put_bits
  put_bits-Done bm offset n words room =
      rw (bit_and-low_mask 6 offset) (elim (Bool-cases (s == 0)) [
        | inl aligned ↦
            let e : s ≡ 0 = (==_iff s 0).0 aligned in
            rw aligned (
              Done-at offset (offset + n) (omega (arith, e)) (omega (arith, e))
                (put_words-Done (n + 1) bm (offset / 64) n words (omega arith) (omega (arith, e))))
        | inr inside ↦
            rw (inside, done_min)
              (Done-then offset (offset + done) (offset + n)
                (λ bm'. put_words put whole (n + 1) bm' (offset / 64 + 1) (n - done)) (omega arith)
                (omega arith) (first (ground arith)) (λ bm' p. second (ground arith) bm' p))
      ])
    where
      s : ℕ
      s = offset % 64

      done : ℕ
      done = min n (64 - s)

      done_min : (if leb n (64 - s) then n else 64 - s) ≡ done
      done_min = ground arith

      first :
          s ≢ 0
          → Done value offset
              (offset + done)
              bm
              (put_mask put whole bm (offset / 64) (start_mask s n))
      first ne = Done-at offset (offset + done) (omega arith) (omega arith) (
          put_mask-Done bm (offset / 64) s (s + done) (start_mask s n) words (omega arith)
            (omega arith) (start_mask-IsMask s n (omega arith)))

      second :
          s ≢ 0
          → (bm' : List ℕ) → Puts value offset (offset + done) bm bm'
          → Done value
              (offset + done)
              (offset + n)
              bm'
              (put_words put whole (n + 1) bm' (offset / 64 + 1) (n - done))
      second ne bm' p = elim (dec_lt n (64 - s)) [
        | yes small ↦
            Done-empty (offset + done) (offset + n) (omega arith) (omega arith)
              (rest (omega (arith, p.same_length)))
        | no large ↦
            Done-at (offset + done) (offset + n) (omega arith) (omega arith)
              (rest (omega (arith, p.same_length)))
      ]
        where
          rest :
              (offset / 64 + 1) * 64 + (n - done) ≤ length bm' * 64
              → Done value
                  ((offset / 64 + 1) * 64)
                  ((offset / 64 + 1) * 64 + (n - done))
                  bm'
                  (put_words put whole (n + 1) bm' (offset / 64 + 1) (n - done))
          rest room' =
              put_words-Done (n + 1) bm' (offset / 64 + 1) (n - done) (p.words words) (omega arith)
                room'

-- `set_bits` puts ones into exactly the `length` bits from `offset` on, and writes nothing outside the
-- bitmap, if the range lies in it.
pub set_bits-Done :
    (bm : List ℕ) (offset n : ℕ)
    → IsWords bm
    → offset + n ≤ length bm * 64
    → Done 1 offset (offset + n) bm (set_bits bm offset n)
unfolding set_bits
set_bits-Done = put_bits-Done bit_or word_max 1 bit_or-IsPut

-- `clear_bits` puts zeros into exactly the `length` bits from `offset` on, and writes nothing outside
-- the bitmap, if the range lies in it.
pub clear_bits-Done :
    (bm : List ℕ) (offset n : ℕ)
    → IsWords bm
    → offset + n ≤ length bm * 64
    → Done 0 offset (offset + n) bm (clear_bits bm offset n)
unfolding clear_bits
clear_bits-Done =
    put_bits-Done (λ w mask. bit_and w (complement word_width mask)) 0 0 bit_clear-IsPut
