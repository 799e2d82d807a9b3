-- ===== src/MmArray/Inv.antt =====
-- What a well formed array of src/mmarray.c is, and its items.
use native.Mathlib.Nat.{mul-le-mul_right, div-le_self}
use libpussy.Base.{
  ℕ, ◌+◌, ◌-◌, ◌*◌, ◌/◌, ◌^◌, ◌≤◌, ◌<◌, ◌≡◌, refl, arith, List, take, drop, length, ok, u32, ◌==◌,
  false,
}
use libpussy.MmArray.{MmArray, capacity_of}
use libpussy.MmArray.Size.{IsMemsize, fill}

-- The mapping is the one that `calc_memsize` gives for the capacity.
pub record IsArray (page : ℕ) (a : MmArray) : Type 0 where
  pub some_bytes : 0 < a.item_size
  pub filled : a.length ≤ a.capacity
  pub memsize : IsMemsize page a.item_size a.capacity (length a.bytes)
  pub small : length a.bytes + page ≤ 2 ^ 32

-- The bytes up to the end of the items, and those of the items.
abbrev pub used : MmArray → List ℕ
used a = take (16 + a.length * a.item_size) a.bytes

abbrev pub items : MmArray → List ℕ
items a = drop 16 (used a)

pub refill :
    (page item_size n size : ℕ)
    → 0 < item_size
    → IsMemsize page item_size n size
    → IsMemsize page item_size ((size - 16) / item_size) size
refill page item_size n size pos v = record {
  room = f.1;
  tight =
      omega (arith, v.tight, mul-le-mul_right {m = n} {n = (size - 16) / item_size} item_size f.0);
  multiple = v.multiple;
}
  where
    f : (n ≤ (size - 16) / item_size) × (16 + (size - 16) / item_size * item_size ≤ size)
    f = fill item_size n size pos v.room

pub capacity_of_lem :
    (item_size size : ℕ)
    → 0 < item_size
    → size < 2 ^ 32
    → capacity_of size item_size ≡ ok ((size - 16) / item_size)
unfolding capacity_of
capacity_of_lem item_size size pos small =
    let e : (item_size == 0) ≡ false = ground arith in
    let e' : u32 ((size - 16) / item_size) ≡ (size - 16) / item_size =
      omega (arith, div-le_self (size - 16) item_size) in
    rw (e, e') refl
