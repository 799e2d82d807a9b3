-- ===== src/MmArray/Append.antt =====
-- `mmarray_append_item` of src/mmarray.c puts the item behind the others.
use native.Mathlib.Nat.{mul-le-mul_right, add-mul}
use libpussy.Base.{
  ℕ, ◌+◌, ◌*◌, ◌^◌, ◌≤◌, ◌<◌, ◌≡◌, ◌⊎◌, ◌∙◌, ap, ap₂, refl, inl, inr, arith, none, List, ◌++◌, take,
  drop, length, Run, ok, aborted, u32, drop-append_le, take-all, length-take,
}
use libpussy.Base.Memory.{load, load_inside, store_inside, splice}
use libpussy.Base.Memory.Splice.{take-splice, length-splice}
use libpussy.MemoryMap.{MemoryMap, IsMemoryMap}
use libpussy.MmArray.{MmArray, mmarray_grow, mmarray_append_item}
use libpussy.MmArray.Inv.{IsArray, used, items}
use libpussy.MmArray.Grow.{Grown, mmarray_grow_lem}

pub record Appended (page : ℕ) (a : MmArray) (item : List ℕ) (result : Run MmArray) : Type 0 where
  pub after : MmArray
  pub returned : result ≡ ok after
  pub wf : IsArray page after
  pub longer : after.length ≡ a.length + 1
  pub same_item_size : after.item_size ≡ a.item_size
  pub appended : items after ≡ items a ++ item

module _ (m : MemoryMap) (law : IsMemoryMap m) (k : ℕ) (small : k < 32) where
  -- On a well formed array, with an item of the right size and as long as the array stays a page below
  -- 2^32 bytes, `mmarray_append_item` stays inside the mapping and keeps the array well formed: there is one
  -- more item, and the items are those before with the new one behind them. Or `mremap` fails, and it
  -- aborts.
  pub mmarray_append_item_lem :
      (a : MmArray) (item : List ℕ)
      → IsArray (2 ^ k) a
      → length item ≡ a.item_size
      → 16 + (a.length + 1) * a.item_size + 2 * 2 ^ k ≤ 2 ^ 32
      → Appended (2 ^ k) a item (mmarray_append_item m (2 ^ k) a item)
        ⊎ ((n : ℕ) × (m.mremap a.bytes n ≡ none) × (mmarray_append_item m (2 ^ k) a item ≡ aborted))
  unfolding mmarray_append_item
  mmarray_append_item_lem a item wf same fits = elim (mmarray_grow_lem m law k small a 1 wf fits) [
    | inr failed ↦ inr (failed.0, failed.1, rw failed.2 refl)
    | inl g ↦
        rw (g.returned, whole_item g, offset g, store_inside g.after.bytes off item (inside g))
          (inl (record {
            after = record g.after { bytes = splice off item g.after.bytes };
            returned = refl;
            wf = record {
              some_bytes = g.wf.some_bytes;
              filled = g.wf.filled;
              memsize = rw (length-splice off item g.after.bytes (inside g)) g.wf.memsize;
              small = omega (arith, length-splice off item g.after.bytes (inside g), g.wf.small);
            };
            longer = g.longer;
            same_item_size = g.same_item_size;
            appended = appended g;
          }))
  ]
    where
      off : ℕ
      off = 16 + a.length * a.item_size

      one_more : (a.length + 1) * a.item_size ≡ a.length * a.item_size + a.item_size
      one_more = omega (arith, add-mul a.length 1 a.item_size)

      size_after :
          (g : Grown (2 ^ k) a 1 (mmarray_grow m (2 ^ k) a 1))
          → g.after.length * g.after.item_size ≡ a.length * a.item_size + a.item_size
      size_after g = ap₂ (λ x y. x * y) g.longer g.same_item_size ∙ one_more

      whole_item :
          (g : Grown (2 ^ k) a 1 (mmarray_grow m (2 ^ k) a 1))
          → load item 0 g.after.item_size ≡ ok item
      whole_item g =
          load_inside item 0 g.after.item_size (omega (arith, g.same_item_size))
          ∙ ap ok (take-all g.after.item_size item (omega (arith, g.same_item_size)))

      offset :
          (g : Grown (2 ^ k) a 1 (mmarray_grow m (2 ^ k) a 1))
          → 16 + u32 (a.length * g.after.item_size) ≡ off
      offset g = ap (λ n. 16 + u32 (a.length * n)) g.same_item_size ∙ omega (arith, one_more)

      inside :
          (g : Grown (2 ^ k) a 1 (mmarray_grow m (2 ^ k) a 1))
          → off + length item ≤ length g.after.bytes
      inside g = omega (
        arith,
        size_after g,
        g.wf.memsize.room,
        mul-le-mul_right {m = g.after.length} {n = g.after.capacity} g.after.item_size g.wf.filled,
      )

      head_inside : (g : Grown (2 ^ k) a 1 (mmarray_grow m (2 ^ k) a 1)) → 16 ≤ length (used a)
      head_inside g = omega (
        arith,
        length-take (16 + a.length * a.item_size) a.bytes,
        wf.memsize.room,
        mul-le-mul_right {m = a.length} {n = a.capacity} a.item_size wf.filled,
      )

      appended :
          (g : Grown (2 ^ k) a 1 (mmarray_grow m (2 ^ k) a 1))
          → drop 16 (take (16 + g.after.length * g.after.item_size) (splice off item g.after.bytes))
            ≡ items a ++ item
      appended g =
          ap (λ n. drop 16 (take n (splice off item g.after.bytes))) {y = off + length item}
            (omega (arith, size_after g))
          ∙ ap (drop 16)
              (take-splice off item g.after.bytes (inside g) ∙ ap (λ t. t ++ item) g.same_items)
          ∙ drop-append_le 16 (used a) item (head_inside g)
