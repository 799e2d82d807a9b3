-- ===== src/MmArray/Grow.antt =====
-- `mmarray_allocate` and `mmarray_grow` of src/mmarray.c.
use native.Mathlib.Nat.{mul-le-mul_right}
use libpussy.Base.{
  ℕ, ◌+◌, ◌-◌, ◌*◌, ◌/◌, ◌^◌, ◌≤◌, ◌<◌, ◌≡◌, ◌⊎◌, ◌∙◌, sym, ap, refl, inl, inr, arith, none, some,
  List, take, length, Run, ok, aborted, u32, min, ltb, ◌==◌, true, Bool-cases, ltb→le, Option-cases,
  take-take,
}
use libpussy.MemoryMap.{MemoryMap, IsMemoryMap}
use libpussy.MmArray.{MmArray, calc_memsize, remap, mmarray_allocate, mmarray_grow}
use libpussy.MmArray.Size.{IsMemsize, calc_memsize-IsMemsize, same_memsize, fill}
use libpussy.MmArray.Inv.{IsArray, used, refill, capacity_of_lem}

-- A new array of `n` items.
pub record Allocated (page n item_size : ℕ) (result : Run MmArray) : Type 0 where
  pub array : MmArray
  pub returned : result ≡ ok array
  pub wf : IsArray page array
  pub as_long : array.length ≡ n
  pub same_item_size : array.item_size ≡ item_size

module _ (m : MemoryMap) (law : IsMemoryMap m) (k : ℕ) (small : k < 32) where
  -- For items of at least one byte, as long as the array stays a page below 2^32 bytes,
  -- `mmarray_allocate` returns a well formed array of the given length and item size. Or `mmap` fails, and it
  -- aborts.
  pub mmarray_allocate_lem :
      (n item_size : ℕ)
      → 0 < item_size
      → 16 + n * item_size + 2 * 2 ^ k ≤ 2 ^ 32
      → Allocated (2 ^ k) n item_size (mmarray_allocate m (2 ^ k) n item_size)
        ⊎ ((size : ℕ) × (m.mmap size ≡ none) × (mmarray_allocate m (2 ^ k) n item_size ≡ aborted))
  unfolding mmarray_allocate
  mmarray_allocate_lem n item_size some_bytes fits = elim (Option-cases (m.mmap memsize)) [
    | inl failed ↦ inr (memsize, failed, rw (mmarray_allocate, failed) refl)
    | inr got ↦ inl (record {
      array = record {
        capacity = (memsize - 16) / item_size;
        length = n;
        item_size = item_size;
        bytes = got.0;
      };
      returned =
          rw
            (
              mmarray_allocate,
              got.1,
              capacity_of_lem item_size memsize some_bytes (omega (arith, v.tight)),
            )
            refl;
      wf = record {
        some_bytes = some_bytes;
        filled = (fill item_size n memsize some_bytes v.room).0;
        memsize =
            rw (law.mmap_length memsize got.0 got.1)
              (refill (2 ^ k) item_size n memsize some_bytes v);
        small = omega (arith, law.mmap_length memsize got.0 got.1, v.tight);
      };
      as_long = refl;
      same_item_size = refl;
    })
  ]
    where
      memsize : ℕ
      memsize = calc_memsize (2 ^ k) n item_size

      v : IsMemsize (2 ^ k) item_size n memsize
      v = calc_memsize-IsMemsize k small n item_size (omega arith)

pub record Grown (page : ℕ) (a : MmArray) (increment : ℕ) (result : Run MmArray) : Type 0 where
  pub after : MmArray
  pub returned : result ≡ ok after
  pub wf : IsArray page after
  pub longer : after.length ≡ a.length + increment
  pub same_item_size : after.item_size ≡ a.item_size
  pub same_items : take (16 + a.length * a.item_size) after.bytes ≡ used a

module _ (m : MemoryMap) (law : IsMemoryMap m) (k : ℕ) (small : k < 32) where
  -- On a well formed array, as long as it stays a page below 2^32 bytes, `mmarray_grow` tells `mremap` the
  -- right old size and keeps the array well formed: it is longer by the increment, and the items are kept.
  -- Or `mremap` fails, and it aborts.
  pub mmarray_grow_lem :
      (a : MmArray) (increment : ℕ)
      → IsArray (2 ^ k) a
      → 16 + (a.length + increment) * a.item_size + 2 * 2 ^ k ≤ 2 ^ 32
      → Grown (2 ^ k) a increment (mmarray_grow m (2 ^ k) a increment)
        ⊎ ((n : ℕ) × (m.mremap a.bytes n ≡ none) × (mmarray_grow m (2 ^ k) a increment ≡ aborted))
  unfolding mmarray_grow remap
  mmarray_grow_lem a increment wf fits =
      rw no_wrap (elim (Bool-cases (ltb a.capacity (a.length + increment))) [
        | inr enough ↦ rw enough (
            inl (record {
              after = record a { length = a.length + increment };
              returned = refl;
              wf = record {
                some_bytes = wf.some_bytes;
                filled = ltb→le _ _ enough;
                memsize = wf.memsize;
                small = wf.small;
              };
              longer = refl;
              same_item_size = refl;
              same_items = refl;
            }))
        | inl more ↦
            rw (more, old_memsize, same_test)
              (elim (Option-cases (m.mremap a.bytes new_memsize)) [
                | inl failed ↦ inr (new_memsize, failed, rw failed refl)
                | inr got ↦
                    rw
                      (
                        got.1,
                        capacity_of_lem a.item_size new_memsize wf.some_bytes
                            (omega (arith, new.tight)),
                      )
                      (inl (record {
                        after = record {
                          capacity = (new_memsize - 16) / a.item_size;
                          length = a.length + increment;
                          item_size = a.item_size;
                          bytes = got.0;
                        };
                        returned = refl;
                        wf = grown got.0 got.1;
                        longer = refl;
                        same_item_size = refl;
                        same_items = kept got.0 got.1;
                      }))
              ])
      ])
    where
      new_memsize : ℕ
      new_memsize = calc_memsize (2 ^ k) (a.length + increment) a.item_size

      no_wrap : u32 (a.length + increment) ≡ a.length + increment
      no_wrap = omega (
        arith,
        mul-le-mul_right {m = 1} {n = a.item_size} (a.length + increment)
            (omega (arith, wf.some_bytes)),
      )

      old_memsize : calc_memsize (2 ^ k) a.capacity a.item_size ≡ length a.bytes
      old_memsize =
          same_memsize k small a.item_size a.capacity a.capacity (length a.bytes)
            (calc_memsize (2 ^ k) a.capacity a.item_size) wf.memsize
            (calc_memsize-IsMemsize k small a.capacity a.item_size (omega (arith, wf.small)))
            (omega arith) wf.memsize.room

      same_test : (length a.bytes == length a.bytes) ≡ true
      same_test = ground arith

      new : IsMemsize (2 ^ k) a.item_size (a.length + increment) new_memsize
      new = calc_memsize-IsMemsize k small (a.length + increment) a.item_size (omega arith)

      grown :
          (b : List ℕ)
          → m.mremap a.bytes new_memsize ≡ some b
          → IsArray (2 ^ k) (record {
            capacity = (new_memsize - 16) / a.item_size;
            length = a.length + increment;
            item_size = a.item_size;
            bytes = b;
          })
      grown b got = record {
        some_bytes = wf.some_bytes;
        filled = (fill a.item_size (a.length + increment) new_memsize wf.some_bytes new.room).0;
        memsize =
            rw (law.mremap_length a.bytes new_memsize b got)
              (refill (2 ^ k) a.item_size (a.length + increment) new_memsize wf.some_bytes new);
        small = omega (arith, law.mremap_length a.bytes new_memsize b got, new.tight);
      }

      room : 16 + a.length * a.item_size ≤ min (length a.bytes) new_memsize
      room = omega (
        arith,
        new.room,
        wf.memsize.room,
        mul-le-mul_right {m = a.length} {n = a.capacity} a.item_size wf.filled,
        mul-le-mul_right {m = a.length} {n = a.length + increment} a.item_size (omega arith),
      )

      kept :
          (b : List ℕ)
          → m.mremap a.bytes new_memsize ≡ some b
          → take (16 + a.length * a.item_size) b ≡ used a
      kept b got =
          sym (take-take _ (min (length a.bytes) new_memsize) b room)
          ∙ ap (take (16 + a.length * a.item_size)) (law.mremap_keeps a.bytes new_memsize b got)
          ∙ take-take _ (min (length a.bytes) new_memsize) a.bytes room
