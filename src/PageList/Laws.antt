-- ===== src/PageList/Laws.antt =====
-- `add_to_list` and `delete_from_list` of src/allocator_pet.c and src/fsb_arena.c on a circular list.
use Prim.{tt}
use mathlib.Core.Path.{subst}
use libpussy.Base.{
  ℕ, ◌≤◌, ◌≡◌, ◌≢◌, ◌∙◌, refl, sym, ap, arith, Option, some, List, [], ◌∷◌, ◌++◌, ◌==◌, true, false,
  length,
}
use libpussy.PageList.{
  Links, write, link_before, add_to_list, add_to_front, is_head, delete_from_list,
}
use libpussy.PageList.Ring.{
  NotIn, Distinct, Chain, IsRing, last_ne, Chain-append, Distinct-append, Chain-redirect,
}

write_same : (f : ℕ → ℕ) (p v : ℕ) → write f p v p ≡ v
write_same f p v = ground arith

write_other : (f : ℕ → ℕ) (p v q : ℕ) → q ≢ p → write f p v q ≡ f q
write_other f p v q ne = ground arith

-- The links do not depend on the head.
Chain-head :
    (l : Links) (h : Option ℕ) (a : ℕ) (xs : List ℕ) (z : ℕ)
    → Chain l a xs z
    → Chain (record l { head = h }) a xs z
unfolding Chain
Chain-head l h a [] z c = c
Chain-head l h a (x ∷ xs) z c = (c.0, c.1, Chain-head l h x xs z c.2)

-- A page that is linked in before the first of a circular list is behind the last.
module _ (l : Links) (x : ℕ) (xs : List ℕ) (page : ℕ) (c : Chain l x xs x) (d : Distinct (x ∷ xs))
    (away : NotIn page (x ∷ xs)) where
  first_ne : page ≢ x
  unfolding NotIn
  first_ne = away.0

  -- The fields after the page itself is linked.
  abbrev page_prev : ℕ → ℕ
  page_prev = write l.prev page (l.prev x)

  abbrev page_next : ℕ → ℕ
  page_next = write l.next page x

  last_read : page_prev x ≡ l.prev x
  last_read = write_other l.prev page (l.prev x) x (λ e. first_ne (sym e))

  link_before-next_page : (link_before l x page).next page ≡ x
  unfolding link_before
  link_before-next_page =
      write_other page_next (page_prev x) page page
        (λ e. last_ne l page x xs x c away (e ∙ last_read))
      ∙ write_same l.next page x

  link_before-prev_first : (link_before l x page).prev x ≡ page
  unfolding link_before
  link_before-prev_first = write_same page_prev x page

  link_before-Chain : Chain (link_before l x page) x xs page
  unfolding link_before NotIn Distinct
  link_before-Chain =
      Chain-redirect l (link_before l x page) x page page
        (ap (link_before l x page).next (sym last_read) ∙ write_same page_next (page_prev x) page)
        (write_other page_prev x page page first_ne ∙ write_same l.prev page (l.prev x))
        (λ r ne ne'.
          write_other page_next (page_prev x) page r (λ e. ne' (e ∙ last_read))
          ∙ write_other l.next page x r ne)
        (λ r ne ne'. write_other page_prev x page r ne' ∙ write_other l.prev page (l.prev x) r ne) x
        xs c d away away.1 d.0

-- In src/allocator_pet.c `add_to_list` puts a page that is not in the list behind the others, and the
-- list stays circular.
pub add_to_list-IsRing :
    (l : Links) (xs : List ℕ) (page : ℕ)
    → IsRing l xs
    → NotIn page xs
    → IsRing (add_to_list l page) (xs ++ (page ∷ []))
unfolding add_to_list IsRing Distinct
add_to_list-IsRing l [] page ring away =
    rw (add_to_list, ring)
      ((refl, (write_same l.next page page, write_same l.prev page page), (tt, tt)))
add_to_list-IsRing l (x ∷ xs) page ring away =
    rw (add_to_list, ring.0)
      ((
        unfold link_before in ring.0,
        Chain-append (link_before l x page) x xs page x
            (link_before-Chain l x xs page ring.1 ring.2 away)
            (link_before-next_page l x xs page ring.1 ring.2 away)
            (link_before-prev_first l x xs page ring.1 ring.2 away),
        Distinct-append (x ∷ xs) page ring.2 away,
      ))

-- In src/fsb_arena.c `add_to_list` puts a page that is not in the list before the others, and the list
-- stays circular.
pub add_to_front-IsRing :
    (l : Links) (xs : List ℕ) (page : ℕ)
    → IsRing l xs
    → NotIn page xs
    → IsRing (add_to_front l page) (page ∷ xs)
unfolding add_to_front IsRing Distinct Chain
add_to_front-IsRing l [] page ring away =
    rw (add_to_front, ring)
      ((refl, (write_same l.next page page, write_same l.prev page page), (tt, tt)))
add_to_front-IsRing l (x ∷ xs) page ring away =
    subst (λ t. IsRing t (page ∷ (x ∷ xs))) (sym linked)
      (
        refl,
        (
          link_before-next_page l x xs page ring.1 ring.2 away,
          link_before-prev_first l x xs page ring.1 ring.2 away,
          Chain-head (link_before l x page) (some page) x xs page
              (link_before-Chain l x xs page ring.1 ring.2 away),
        ),
        (away, ring.2),
      )
  where
    linked : add_to_front l page ≡ record (link_before l x page) { head = some page }
    linked = rw (add_to_front, ring.0) refl

equal : (p : ℕ) → (p == p) ≡ true
equal p = ground arith

different : {p q : ℕ} → p ≢ q → (p == q) ≡ false
different ne = ground arith

-- In a list of three pages or more, `delete_from_list` takes the first page out, and the others stay a
-- circular list.
pub delete_from_list-IsRing :
    (l : Links) (x : ℕ) (xs : List ℕ)
    → IsRing l (x ∷ xs)
    → 2 ≤ length xs
    → IsRing (delete_from_list l x) xs
unfolding delete_from_list IsRing Distinct Chain NotIn is_head
delete_from_list-IsRing l x [] ring long = absurd (omega arith)
delete_from_list-IsRing l x (y ∷ []) ring long = absurd (omega arith)
delete_from_list-IsRing l x (y ∷ (y' ∷ ys)) ring long =
    subst (λ t. IsRing t (y ∷ (y' ∷ ys))) (sym taken_out) (ap some ring.1.0, kept, ring.2.1)
  where
    chain : Chain l y (y' ∷ ys) x
    chain = ring.1.2

    prev' : ℕ → ℕ
    prev' = write l.prev (l.next x) (l.prev x)

    after : Links
    after = record {
      head = some (l.next x);
      next = write l.next (prev' x) (l.next x);
      prev = prev';
    }

    not_last : (l.next x == l.prev x) ≡ false
    not_last = different (λ e. last_ne l y y' ys x chain.2 ring.2.1.0 (sym ring.1.0 ∙ e))

    taken_out : delete_from_list l x ≡ after
    taken_out = rw (delete_from_list, not_last, ring.0, equal x) refl

    not_next : x ≢ l.next x
    not_next e = ring.2.0.0 (e ∙ ring.1.0)

    last_read : prev' x ≡ l.prev x
    last_read = write_other l.prev (l.next x) (l.prev x) x not_next

    kept : Chain after y (y' ∷ ys) y
    kept =
        Chain-redirect l after x y x
          (ap after.next (sym last_read) ∙ write_same l.next (prev' x) (l.next x) ∙ ring.1.0)
          (ap prev' (sym ring.1.0) ∙ write_same l.prev (l.next x) (l.prev x))
          (λ r ne ne'. write_other l.next (prev' x) (l.next x) r (λ e. ne' (e ∙ last_read)))
          (λ r ne ne'. write_other l.prev (l.next x) (l.prev x) r (λ e. ne (e ∙ ring.1.0))) y
          (y' ∷ ys) chain ring.2.1 ring.2.0 ring.2.1.0 ring.2.0.1

-- In a list of at most two pages, `delete_from_list` on the first leaves the empty list: of two pages,
-- both are lost to it.
pub delete_from_list-short :
    (l : Links) (x : ℕ) (xs : List ℕ)
    → IsRing l (x ∷ xs)
    → length xs ≤ 1
    → IsRing (delete_from_list l x) []
unfolding delete_from_list IsRing Chain
delete_from_list-short l x [] ring short = rw (ring.1.0, ring.1.1, equal x) refl
delete_from_list-short l x (y ∷ []) ring short = rw (ring.1.0, ring.1.2.1, equal y) refl
delete_from_list-short l x (y ∷ (y' ∷ ys)) ring short = absurd (omega arith)
