-- ===== src/MemoryMap/Zeroed.antt =====
-- A memory that never runs out: new bytes are zero.
use libpussy.Base.{
  ℕ, min, ◌≡◌, ◌∙◌, ap, some, List, ◌++◌, arith, length, take, replicate, length-take,
  length-append, length-replicate, take-take, take-append_le,
}
use libpussy.MemoryMap.{MemoryMap, IsMemoryMap}

abbrev pub zeroed : MemoryMap
zeroed = record {
  mmap = λ n. some (replicate n 0);
  mremap = λ old n. some (take n (old ++ replicate n 0));
}

length-extended : (old : List ℕ) (n : ℕ) → length (take n (old ++ replicate n 0)) ≡ n
length-extended old n = omega (
  arith,
  length-take n (old ++ replicate n 0),
  length-append old (replicate n 0),
  length-replicate {A = ℕ} n 0,
)

take-extended :
    (old : List ℕ) (n : ℕ)
    → take (min (length old) n) (take n (old ++ replicate n 0)) ≡ take (min (length old) n) old
take-extended old n =
    take-take (min (length old) n) n (old ++ replicate n 0) (omega arith)
    ∙ take-append_le (min (length old) n) old (replicate n 0) (omega arith)

extended_eq : {a b : List ℕ} → some a ≡ some b → b ≡ a
extended_eq e = cc

pub zeroed-IsMemoryMap : IsMemoryMap zeroed
zeroed-IsMemoryMap = record {
  mmap_length = λ n b e. ap length (extended_eq e) ∙ length-replicate n 0;
  mremap_length = λ old n b e. ap length (extended_eq e) ∙ length-extended old n;
  mremap_keeps = λ old n b e. ap (take (min (length old) n)) (extended_eq e) ∙ take-extended old n;
}
