-- ===== src/PetAllocator/Blocks/Find.antt =====
-- `find_available_page` of src/allocator_pet.c.
use native.Mathlib.Decide.{dec_lt, ℕ_discrete}
use mathlib.Core.Path.{subst}
use mathlib.Core.Option.{some-injective, none-ne-some}
use libpussy.Base.{
  ℕ, zero, suc, ◌+◌, ◌-◌, ◌*◌, ◌≤◌, ◌<◌, ◌≡◌, ◌⊎◌, refl, sym, ap, ◌∙◌, arith, List, length, Option,
  none, some, inl, inr, Option-cases, update, update-same, update-other, ◌==◌, false, Run, ok,
}
use libpussy.PetAllocator.Search.{find_free_block, find_longest_free_block}
use libpussy.PetAllocator.Search.Gap.{IsGap}
use libpussy.PetAllocator.Search.FirstFit.{
  found, missing, FirstFit, NoGap, find_free_block-FirstFit,
}
use libpussy.PetAllocator.Search.Longest.{Longest}
use libpussy.PetAllocator.Sizes.{units_per_page, header_units, max_data_units}
use libpussy.PetAllocator.Sizes.Laws.{IsPageSize, init_sizes}
use libpussy.PetAllocator.State.{Pet, Slot, lru, entry, add_page, put_links, to_superblock, longest}
use libpussy.PetAllocator.State.Frame.{
  SameBlocks, SameBlocks-refl, SameBlocks-trans, take_page-Taken, lru-entries, add_page-SameBlocks,
}
use libpussy.PetAllocator.State.Unhand.{IsPet, longest-Longest}
use libpussy.PetAllocator.Blocks.{
  free_block, first_entry, search_superblock, find_from, find_available_page,
}

pub record HasGap (bm : List ℕ) (header n : ℕ) : Type 0 where
  pub start : ℕ
  pub behind : header ≤ start
  pub gap : IsGap bm start n

abbrev pub IsListed : Pet → ℕ → Type 0
IsListed s page = (slot : Slot) × (s.list page ≡ some slot)

-- The page is in `lru_page`, or first in an entry of the superblock.
abbrev pub IsFirst : Pet → ℕ → Type 0
IsFirst s page = (s.lru_page ≡ some page) ⊎ ((i : ℕ) × (s.superblock i ≡ some page))

-- The pages that the allocator looks at first are where their fields say, and the first page of an entry has
-- a gap of the size that the entry stands for.
pub record IsReady (page_size : ℕ) (s : Pet) : Type 0 where
  pub recent : (p : ℕ) → s.lru_page ≡ some p → s.list p ≡ some lru
  pub listed : (i p : ℕ) → s.superblock i ≡ some p → IsListed s p
  pub gaps : (i p : ℕ) → s.superblock i ≡ some p → HasGap (s.bitmap p) (header_units page_size) i

-- The page with the first gap in it, or none if neither `lru_page` has one nor any entry from `n` on is used.
pub data Available (page_size n : ℕ) (s : Pet) (result : Run (Option (ℕ × ℕ) × Pet)) : Type 0 where
  available :
      (page offset : ℕ) (after : Pet)
      → result ≡ ok (some (page, offset), after)
      → header_units page_size ≤ offset
      → IsGap (s.bitmap page) offset n
      → NoGap (s.bitmap page) n (header_units page_size) offset
      → SameBlocks s after
      → IsFirst s page
      → Available page_size n s result
  exhausted :
      (after : Pet)
      → result ≡ ok (none, after)
      → ((p : ℕ) → s.lru_page ≡ some p → ¬ HasGap (s.bitmap p) (header_units page_size) n)
      → ((i : ℕ) → n ≤ i → i ≤ max_data_units page_size → s.superblock i ≡ none)
      → SameBlocks s after
      → Available page_size n s result

data FirstEntry (s : Pet) (rounds lfb : ℕ) (result : Option ℕ) : Type 0 where
  none_used :
      result ≡ none
      → ((i : ℕ) → lfb ≤ i → i < lfb + rounds → s.superblock i ≡ none)
      → FirstEntry s rounds lfb result
  used :
      (i page : ℕ)
      → result ≡ some page
      → lfb ≤ i
      → s.superblock i ≡ some page
      → FirstEntry s rounds lfb result

first_entry-FirstEntry :
    (page_size : ℕ) (s : Pet) (rounds lfb : ℕ)
    → FirstEntry s rounds lfb (first_entry page_size s rounds lfb)
unfolding first_entry
first_entry-FirstEntry page_size s zero lfb = none_used refl (λ i lo hi. absurd (omega arith))
first_entry-FirstEntry page_size s (suc rounds) lfb = elim (Option-cases (s.superblock lfb)) [
  | inr (page, e) ↦ used lfb page (rw (e, first_entry) refl) (omega arith) e
  | inl e ↦ elim (first_entry-FirstEntry page_size s rounds (lfb + 1)) [
    | used i page r lo at ↦ used i page (rw (e, first_entry) r) (omega arith) at
    | none_used r all ↦ none_used (rw (e, first_entry) r) (λ i lo hi. elim (ℕ_discrete lfb i) [
      | yes same ↦ subst (λ j. s.superblock j ≡ none) same e
      | no ne ↦ all i (omega arith) (omega arith)
    ])
  ]
]

narrow : {bm : List ℕ} {header n i : ℕ} → HasGap bm header i → n ≤ i → HasGap bm header n
narrow g h = record {
  start = g.start;
  behind = g.behind;
  gap = record {
    inside = omega (arith, g.gap.inside);
    free = λ p lo hi. g.gap.free p lo (omega arith);
  };
}

module _ (page_size : ℕ) (size : IsPageSize page_size) (s : Pet) (pet : IsPet page_size s.bitmap)
    (n : ℕ) (some_units : 0 < n) where
  -- The search in a page of a state with the same blocks.
  first_fit :
      (s' : Pet) (page : ℕ)
      → SameBlocks s s'
      → FirstFit (s.bitmap page) (header_units page_size) n (free_block page_size s' page n)
  first_fit s' page same =
      subst
        (λ f.
          FirstFit (s.bitmap page) (header_units page_size) n
            (find_free_block (units_per_page page_size) (header_units page_size) (f page) n))
        (sym same.bitmap)
        (find_free_block-FirstFit (units_per_page page_size) (header_units page_size)
          (s.bitmap page) (pet.words page) (pet.whole page) n some_units
          (omega (arith, init_sizes page_size size)))

  offset_some : (r : ℕ) → header_units page_size ≤ r → (r == 0) ≡ false
  offset_some r h = ground (arith, header_some)
    where
      header_some : 0 < header_units page_size
      header_some = omega (arith, init_sizes page_size size)

  no_HasGap :
      (page : ℕ)
      → NoGap (s.bitmap page) n (header_units page_size) (length (s.bitmap page) * 64)
      → ¬ HasGap (s.bitmap page) (header_units page_size) n
  no_HasGap page no_gap g = no_gap g.start g.behind (omega (arith, g.gap.inside)) g.gap

  -- The superblock of `s'` is that of `s` from entry `n` on.
  search_superblock-Available :
      (s' : Pet)
      → SameBlocks s s'
      → ((i p : ℕ)
          → n ≤ i
          → s'.superblock i ≡ some p
          → IsListed s' p × HasGap (s.bitmap p) (header_units page_size) i)
      → ((i : ℕ) → n ≤ i → s'.superblock i ≡ s.superblock i)
      → ((p : ℕ) → s.lru_page ≡ some p → ¬ HasGap (s.bitmap p) (header_units page_size) n)
      → Available page_size n s (search_superblock page_size s' n)
  unfolding search_superblock
  search_superblock-Available s' same entries as_before recent =
      elim (first_entry-FirstEntry page_size s' (max_data_units page_size + 1 - n) n) [
        | none_used e all ↦
            exhausted s' (rw (e, search_superblock) refl) recent
              (λ i lo hi. sym (as_before i lo) ∙ all i lo (omega arith)) same
        | used i page e lo at ↦
            let slot = (entries i page lo at).0.0 in
            let taken = take_page-Taken s' page slot (entries i page lo at).0.1 in
            let same' = SameBlocks-trans same taken.same in
            let fit = first_fit taken.after page same' in
            let wide = (entries i page lo at).1 in
            elim fit.first [
              | found behind gap first ↦
                  available page fit.offset taken.after
                    (rw
                      (
                        e,
                        search_superblock,
                        taken.returns,
                        fit.returns,
                        offset_some fit.offset behind,
                      )
                      refl)
                    behind gap first same' (inr (i, sym (as_before i lo) ∙ at))
              | missing nothing no_gap ↦ absurd (no_HasGap page no_gap (narrow wide lo))
            ]
      ]

  -- What the superblock has once the page from `lru_page` is in it.
  module _ (p lfb : ℕ) (taken : Pet) (few : lfb < n)
      (same_entries : taken.superblock ≡ s.superblock) where
    entry-other : (i : ℕ) → n ≤ i → (add_page taken (entry lfb) p).superblock i ≡ s.superblock i
    unfolding add_page put_links
    entry-other i h =
        update-other taken.superblock lfb _ i (omega arith) ∙ ap (λ f. f i) same_entries

    IsListed-still :
        (i q : ℕ)
        → taken.list ≡ update s.list p none
        → IsListed s q
        → IsListed (add_page taken (entry lfb) p) q
    unfolding add_page put_links
    IsListed-still i q unlisted listed = elim (ℕ_discrete q p) [
      | yes e ↦ (
        entry lfb,
        subst (λ x. update taken.list p (some (entry lfb)) x ≡ some (entry lfb)) (sym e)
            (update-same taken.list p (some (entry lfb))),
      )
      | no ne ↦ (
        listed.0,
        update-other taken.list p (some (entry lfb)) q ne
            ∙ ap (λ f. f q) unlisted
            ∙ update-other s.list p none q ne
            ∙ listed.1,
      )
    ]

  too_short :
      (p : ℕ) (lfb : Longest (s.bitmap p) (header_units page_size) (longest page_size s p))
      → NoGap (s.bitmap p) n (header_units page_size) (length (s.bitmap p) * 64)
      → lfb.size < n
  too_short p lfb no_gap = elim (dec_lt lfb.size n) [
    | yes h ↦ h
    | no h ↦ absurd (
        no_HasGap p no_gap (
          narrow
            (record {
              start = lfb.longest.start;
              behind = lfb.longest.behind;
              gap = lfb.longest.gap;
            })
            (omega arith)))
  ]

  longest_same :
      (s' : Pet) (p : ℕ) → SameBlocks s s' → longest page_size s' p ≡ longest page_size s p
  longest_same s' p same =
      ap (λ f. find_longest_free_block (units_per_page page_size) (header_units page_size) (f p))
        same.bitmap

  find_from-Available :
      (old : Option ℕ)
      → IsReady page_size s
      → s.lru_page ≡ old
      → Available page_size n s (find_from page_size s old n)
  unfolding find_from to_superblock
  find_from-Available none ready e =
      search_superblock-Available s (SameBlocks-refl s)
        (λ i p h at. (ready.listed i p at, ready.gaps i p at)) (λ i h. refl)
        (λ p at gap. none-ne-some p (sym e ∙ at))
  find_from-Available (some p) ready e =
      let taken = take_page-Taken s p lru (ready.recent p e) in
      let fit = first_fit taken.after p taken.same in
      elim fit.first [
        | found behind gap first ↦
            available p fit.offset taken.after
              (rw (taken.returns, fit.returns, offset_some fit.offset behind) refl) behind gap first
              taken.same (inl e)
        | missing nothing no_gap ↦
            let lfb = longest-Longest page_size size s pet p in
            let few = too_short p lfb no_gap in
            let other = entry-other p lfb.size taken.after few (lru-entries taken) in
            rw
              (
                taken.returns,
                fit.returns,
                nothing,
                longest_same taken.after p taken.same,
                lfb.returns,
              )
              (search_superblock-Available (add_page taken.after (entry lfb.size) p)
                (SameBlocks-trans taken.same (add_page-SameBlocks taken.after (entry lfb.size) p))
                (λ i q h at. (
                  IsListed-still p lfb.size taken.after few (lru-entries taken) i q taken.unlisted
                      (ready.listed i q (sym (other i h) ∙ at)),
                  ready.gaps i q (sym (other i h) ∙ at),
                ))
                other
                (λ q at.
                  subst (λ x. ¬ HasGap (s.bitmap x) (header_units page_size) n)
                    (some-injective p q (sym e ∙ at)) (no_HasGap p no_gap)))
      ]

  -- On a state that is ready and for at least one unit, `find_available_page` returns and changes no block.
  -- It takes a page out of its list and gives the first gap of `n` units in it, or says that neither
  -- `lru_page` has such a gap nor an entry of the superblock from `n` on a page.
  pub find_available_page-Available :
      IsReady page_size s → Available page_size n s (find_available_page page_size s n)
  unfolding find_available_page
  find_available_page-Available ready = find_from-Available s.lru_page ready refl
