-- ===== src/FsbArena/Walk/Ends.antt =====
-- A walk through the pages of src/fsb_arena.c comes to its end when the callback gives no page up.
use Prim.{absurd}
use mathlib.Core.Path.{subst}
use libpussy.Base.{
  ℕ, zero, suc, ◌+◌, ◌*◌, ◌^◌, ◌≤◌, ◌<◌, ◌≡◌, refl, arith, bit_and, false, Option, List, [], ◌∷◌,
  length, ◌==◌, Run, ok, blocked, blocked, sym, ne→==, ◌∙◌,
}
use libpussy.Base.Returns.{Returns, Returns-bind, Returns-if, Returns-elim, Returns-value}
use libpussy.Word.{word_width}
use libpussy.PetAllocator.Bitmap.Range.{word_at, load_word_inside}
use libpussy.PageList.{Links}
use libpussy.PageList.Ring.{Chain, IsRing}
use libpussy.FsbArena.{header_size}
use libpussy.FsbArena.Blocks.{Fsba, avail_list}
use libpussy.FsbArena.Walk.{
  walk_block, walk_bits, walk_words, walk_pages, walk_from, fsb_arena_walk,
}

differ : (a b : ℕ) → a ≡ b → (a == b) ≡ false → ⊥
differ a b e d = ground arith

-- No page has left the list, and each has its bitmap.
pub record KeepsPages (s s' : Fsba) : Type 0 where
  pub next : (p : ℕ) → s'.next p ≡ s.next p
  pub bitmaps : (p : ℕ) → length (s'.bitmap p) ≡ s.arena.bitmap_size

abbrev pub Kept : {A : Type 0} → Fsba → A × Fsba → Type 0
Kept s r = KeepsPages s r.1

module _ {A : Type 0} (callback : A → Fsba → ℕ → Run (A × Fsba)) (s : Fsba) where
  module _
      (keeps : (x : A) (s' : Fsba) (block : ℕ)
        → KeepsPages s s'
        → Returns (Kept s) (callback x s' block)) where
    walk_block-ends :
        (page w j block : ℕ) (x : A) (s' : Fsba)
        → KeepsPages s s'
        → Returns (λ r. Kept s r.1) (walk_block callback page w j block x s')
    unfolding walk_block Returns
    walk_block-ends page w j block x s' k =
        Returns-if _ (bit_and w (2 ^ j) == 0) (ok (false, (x, s'))) _ k
          (Returns-bind _ (callback x s' block) _ (keeps x s' block k) (λ visited k'. k'))

    walk_bits-ends :
        (page size w n j block : ℕ) (x : A) (s' : Fsba)
        → KeepsPages s s'
        → Returns (λ r. Kept s r.1) (walk_bits callback page size w n j block x s')
    unfolding walk_bits Returns
    walk_bits-ends page size w zero j block x s' k = k
    walk_bits-ends page size w (suc n) j block x s' k =
        Returns-bind _ (walk_block callback page w j block x s') _
          (walk_block-ends page w j block x s' k)
          (λ r k'.
            Returns-elim _ r.0 _ _ (λ e. k')
              (λ e. walk_bits-ends page size w n (j + 1) (block + size) r.1.0 r.1.1 k'))

    walk_words-ends :
        (page size n i block : ℕ) (x : A) (s' : Fsba)
        → KeepsPages s s'
        → i + n ≤ s.arena.bitmap_size
        → Returns (Kept s) (walk_words callback page size n i block x s')
    unfolding walk_words Returns
    walk_words-ends page size zero i block x s' k room = k
    walk_words-ends page size (suc n) i block x s' k room =
        rw (load_word_inside (s'.bitmap page) i (rw (k.bitmaps page) (omega arith))) (
          Returns-bind _
            (walk_bits callback page size (word_at (s'.bitmap page) i) word_width 0 block x s') _
            (walk_bits-ends page size (word_at (s'.bitmap page) i) word_width 0 block x s' k)
            (λ r k'.
              Returns-elim _ r.0 _ _ (λ e. k')
                (λ e.
                  walk_words-ends page size n (i + 1) (block + word_width * size) r.1.0 r.1.1 k'
                    (omega arith))))

    abbrev list_from : Option ℕ → Links
    list_from head = record { head = head; next = s.next; prev = s.prev }

    walk_pages-ends :
        (head : Option ℕ) (fuel page : ℕ) (pages : List ℕ) (first : ℕ) (x : A) (s' : Fsba)
        → KeepsPages s s'
        → Chain (list_from head) page pages first
        → length pages < fuel
        → Returns (Kept s) (walk_pages callback s.arena fuel first page x s')
    unfolding walk_pages Returns Chain
    walk_pages-ends head zero page pages first x s' k c enough = absurd (omega arith)
    walk_pages-ends head (suc fuel) page [] first x s' k c enough =
        Returns-bind _
          (walk_words callback page s.arena.block_size s.arena.bitmap_size 0
            (page + header_size s.arena.bitmap_size s.arena.block_size) x s')
          _
          (walk_words-ends page s.arena.block_size s.arena.bitmap_size 0
            (page + header_size s.arena.bitmap_size s.arena.block_size) x s' k (omega arith))
          (λ r k'.
            Returns-elim _ (s'.next page == first) _ _ (λ e. k')
              (λ e. absurd (differ (s'.next page) first (k.next page ∙ c.0) e)))
    walk_pages-ends head (suc fuel) page (p ∷ pages) first x s' k c enough =
        Returns-bind _
          (walk_words callback page s.arena.block_size s.arena.bitmap_size 0
            (page + header_size s.arena.bitmap_size s.arena.block_size) x s')
          _
          (walk_words-ends page s.arena.block_size s.arena.bitmap_size 0
            (page + header_size s.arena.bitmap_size s.arena.block_size) x s' k (omega arith))
          (λ r k'.
            Returns-elim _ (s'.next page == first) _ _ (λ e. k')
              (λ e.
                walk_pages-ends head fuel (s'.next page) pages first r.0 r.1 k'
                  (rw (k.next page ∙ c.0) c.2) (omega arith)))

    -- Once the first page has left the list, no page is the first one again, and the walk goes on for ever.
    pub walk_pages-lost :
        (first : ℕ) (In : ℕ → Type 0)
        → ((p : ℕ) → In p → In (s.next p))
        → (In first → ⊥)
        → (fuel page : ℕ) (x : A) (s' : Fsba) → In page
        → KeepsPages s s'
        → walk_pages callback s.arena fuel first page x s' ≡ blocked
    unfolding walk_pages
    walk_pages-lost first In closed away zero page x s' there k = refl
    walk_pages-lost first In closed away (suc fuel) page x s' there k =
        let (r, e, k') = Returns-value _ (
          walk_words-ends page s.arena.block_size s.arena.bitmap_size 0
            (page + header_size s.arena.bitmap_size s.arena.block_size) x s' k (omega arith)) in
        let next = subst In (sym (k.next page)) (closed page there) in
        rw (e, ne→== (s'.next page) first (λ q. away (subst In q next)))
          (walk_pages-lost first In closed away fuel (s'.next page) r.0 r.1 next k')

    walk_from-ends :
        (head : Option ℕ) (pages : List ℕ) (x : A)
        → IsRing (list_from head) pages
        → KeepsPages s s
        → Returns (Kept s) (walk_from callback s.arena (length pages) head x s)
    unfolding walk_from Returns IsRing
    walk_from-ends head [] x ring k = rw ring k
    walk_from-ends head (p ∷ pages) x ring k =
        rw ring.0 (walk_pages-ends head (suc (length pages)) p pages p x s k ring.1 (omega arith))

    -- A walk returns when the callback does and gives no page up, with fuel for each page of the list.
    pub fsb_arena_walk-ends :
        (pages : List ℕ) (x : A)
        → IsRing (avail_list s) pages
        → ((p : ℕ) → length (s.bitmap p) ≡ s.arena.bitmap_size)
        → Returns (Kept s) (fsb_arena_walk callback (length pages) x s)
    unfolding fsb_arena_walk
    fsb_arena_walk-ends pages x ring whole =
        walk_from-ends s.arena.avail_pages pages x ring
          (record { next = λ p. refl; bitmaps = whole })
