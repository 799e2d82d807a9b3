-- ===== src/PageList.antt =====
-- The circular, doubly linked lists of pages that src/allocator_pet.c and src/fsb_arena.c keep. A page is
-- its address; the `next` and `prev` of all pages are the store. Each file has its own `add_to_list`, the
-- two of `delete_from_list` do the same to these fields. The field `list` of src/allocator_pet.c, by which a page
-- knows its list, is not here: each function is about the one list that it is called for.
pub mod Ring
pub mod Laws
mod Tests
use libpussy.Base.{ℕ, ◌==◌, if◌then◌else◌, Option, none, some, Bool, false}

pub record Links : Type 0 where
  pub head : Option ℕ
  pub next : ℕ → ℕ
  pub prev : ℕ → ℕ

-- The field of page `p` is overwritten.
abbrev pub write : (ℕ → ℕ) → ℕ → ℕ → ℕ → ℕ
write field p value q = if q == p then value else field q

unfoldable pub link_before : Links → ℕ → ℕ → Links
link_before l first page =
    let prev' = write l.prev page (l.prev first) in
    let next' = write l.next page first in
    let next'' = write next' (prev' first) page in
    record { head = l.head; next = next''; prev = write prev' first page }

-- `add_to_list` of src/allocator_pet.c adds at the end.
unfoldable pub add_to_list : Links → ℕ → Links
unfolding link_before
add_to_list l page = elim l.head [
  | some first ↦ link_before l first page
  | none ↦ record { head = some page; next = write l.next page page; prev = write l.prev page page }
]

-- `add_to_list` of src/fsb_arena.c adds at the front.
unfoldable pub add_to_front : Links → ℕ → Links
unfolding link_before
add_to_front l page = elim l.head [
  | some first ↦ record (link_before l first page) { head = some page }
  | none ↦ record { head = some page; next = write l.next page page; prev = write l.prev page page }
]

-- `*list == bm_page`
unfoldable pub is_head : Links → ℕ → Bool
is_head l page = elim l.head [ some first ↦ first == page | none ↦ false ]

unfoldable pub delete_from_list : Links → ℕ → Links
unfolding is_head
delete_from_list l page =
    if l.next page == l.prev page
    then record l { head = none }
    else (let head' = if is_head l page then some (l.next page) else l.head in
        let prev' = write l.prev (l.next page) (l.prev page) in
        record { head = head'; next = write l.next (prev' page) (l.next page); prev = prev' })
