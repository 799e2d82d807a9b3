-- ===== src/PetAllocator/Blocks/Marked.antt =====
-- What the block operations of src/allocator_pet.c do to the bitmap of a page in hand.
use mathlib.Core.Path.{subst}
use libpussy.Base.{
  ℕ, ◌*◌, ◌≡◌, ◌≢◌, sym, ap, ◌∙◌, arith, List, length, some, Bool-cases, inl, inr, ◌==◌, update,
  update-same, update-other, Run, ok,
}
use libpussy.PetAllocator.Bitmap.Range.{IsWords, Puts, Puts-none}
use libpussy.PetAllocator.Sizes.{units_per_page}
use libpussy.PetAllocator.Sizes.Laws.{IsPageSize}
use libpussy.PetAllocator.State.{Pet, lru, unhand_page}
use libpussy.PetAllocator.State.Frame.{SameBlocks}
use libpussy.PetAllocator.State.Unhand.{IsPet, unhand_page-Unhanded}

update-all {ℓ κ} :
    {A : Type ℓ} (P : A → Type κ) (f : ℕ → A) (i : ℕ) (a : A)
    → P a
    → ((j : ℕ) → P (f j))
    → (j : ℕ) → P (update f i a j)
update-all P f i a h all j = elim (Bool-cases (j == i)) [ inl e ↦ rw e h | inr e ↦ rw e (all j) ]

-- The bits from `lo` to `hi` of one page have the value, and nothing else of the blocks has changed. The
-- page is in `lru_page` afterwards.
pub record Marked (page_size value lo hi : ℕ) (s : Pet) (page : ℕ) (s' : Pet) : Type 0 where
  pub puts : Puts value lo hi (s.bitmap page) (s'.bitmap page)
  pub others : (q : ℕ) → q ≢ page → s'.bitmap q ≡ s.bitmap q
  pub bytes : s'.bytes ≡ s.bytes
  pub blocks_allocated : s'.blocks_allocated ≡ s.blocks_allocated
  pub recent : s'.lru_page ≡ some page
  pub listed : s'.list page ≡ some lru
  pub pet : IsPet page_size s'.bitmap

pub record Marks (page_size value lo hi : ℕ) (s : Pet) (page : ℕ) (result : Run Pet) : Type 0 where
  pub after : Pet
  pub returns : result ≡ ok after
  pub marked : Marked page_size value lo hi s page after

-- Before the page was taken out of its list.
pub Marks-before :
    {page_size value lo hi page : ℕ} {s s' : Pet} {result : Run Pet}
    → SameBlocks s s'
    → Marks page_size value lo hi s' page result
    → Marks page_size value lo hi s page result
Marks-before {value = value} {lo = lo} {hi = hi} {page = page} same m = record {
  after = m.after;
  returns = m.returns;
  marked = record {
    puts = subst (λ f. Puts value lo hi (f page) (m.after.bitmap page)) same.bitmap m.marked.puts;
    others = λ q ne. m.marked.others q ne ∙ ap (λ f. f q) same.bitmap;
    bytes = m.marked.bytes ∙ same.bytes;
    blocks_allocated = m.marked.blocks_allocated ∙ same.blocks_allocated;
    recent = m.marked.recent;
    listed = m.marked.listed;
    pet = m.marked.pet;
  };
}

module _ (page_size : ℕ) (size : IsPageSize page_size) (s : Pet)
    (pet : IsPet page_size s.bitmap) where
  pub update-IsPet :
      (page : ℕ) (bm : List ℕ)
      → IsWords bm
      → units_per_page page_size ≡ length bm * 64
      → IsPet page_size (update s.bitmap page bm)
  update-IsPet page bm words whole = record {
    words = update-all IsWords s.bitmap page bm words pet.words;
    whole =
        update-all (λ b. units_per_page page_size ≡ length b * 64) s.bitmap page bm whole pet.whole;
  }

  pub unhand_page-Marks :
      {value lo hi : ℕ} (page : ℕ) (bm : List ℕ)
      → Puts value lo hi (s.bitmap page) bm
      → Marks page_size value lo hi s page
          (unhand_page page_size (record s { bitmap = update s.bitmap page bm }) page)
  unhand_page-Marks {value = value} {lo = lo} {hi = hi} page bm puts =
      let pet' =
        update-IsPet page bm (puts.words (pet.words page))
          (pet.whole page ∙ ap (λ n. n * 64) (sym puts.same_length)) in
      let back =
        unhand_page-Unhanded page_size size (record s { bitmap = update s.bitmap page bm }) pet'
          page in
      record {
        after = back.after;
        returns = back.returns;
        marked = record {
          puts =
              subst (Puts value lo hi (s.bitmap page))
                (sym (ap (λ f. f page) back.bitmap ∙ update-same s.bitmap page bm)) puts;
          others = λ q ne. ap (λ f. f q) back.bitmap ∙ update-other s.bitmap page bm q ne;
          bytes = back.bytes;
          blocks_allocated = back.blocks_allocated;
          recent = back.recent;
          listed = back.listed;
          pet = subst (IsPet page_size) (sym back.bitmap) pet';
        };
      }

  -- The page as it was.
  pub unhand_page-unmarked :
      (value lo page : ℕ) → Marks page_size value lo lo s page (unhand_page page_size s page)
  unhand_page-unmarked value lo page =
      let back = unhand_page-Unhanded page_size size s pet page in
      record {
        after = back.after;
        returns = back.returns;
        marked = record {
          puts =
              subst (Puts value lo lo (s.bitmap page)) (sym (ap (λ f. f page) back.bitmap))
                (Puts-none (s.bitmap page) (omega arith));
          others = λ q ne. ap (λ f. f q) back.bitmap;
          bytes = back.bytes;
          blocks_allocated = back.blocks_allocated;
          recent = back.recent;
          listed = back.listed;
          pet = subst (IsPet page_size) (sym back.bitmap) pet;
        };
      }
