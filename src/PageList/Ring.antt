-- ===== src/PageList/Ring.antt =====
-- What it means that the links of pages (src/allocator_pet.c, src/fsb_arena.c) are a circular list.
use Prim.{tt}
use libpussy.Base.{ℕ, ◌≡◌, ◌≢◌, ◌∙◌, sym, ap, none, some, List, [], ◌∷◌, ◌++◌}
use libpussy.PageList.{Links}

unfoldable pub NotIn : ℕ → List ℕ → Type 0
NotIn p [] = Unit
NotIn p (x ∷ xs) = (p ≢ x) × NotIn p xs

unfoldable pub Distinct : List ℕ → Type 0
unfolding NotIn
Distinct [] = Unit
Distinct (x ∷ xs) = NotIn x xs × Distinct xs

-- From page `a` the links lead through `xs` to page `z`, and back.
unfoldable pub Chain : Links → ℕ → List ℕ → ℕ → Type 0
Chain l a [] z = (l.next a ≡ z) × (l.prev z ≡ a)
Chain l a (x ∷ xs) z = (l.next a ≡ x) × (l.prev x ≡ a) × Chain l x xs z

-- The pages of the list from its head on.
unfoldable pub IsRing : Links → List ℕ → Type 0
unfolding Chain Distinct
IsRing l [] = l.head ≡ none
IsRing l (x ∷ xs) = (l.head ≡ some x) × Chain l x xs x × Distinct (x ∷ xs)

-- The page before the end of a chain is in it.
pub last_ne :
    (l : Links) (p a : ℕ) (xs : List ℕ) (z : ℕ) → Chain l a xs z → NotIn p (a ∷ xs) → p ≢ l.prev z
unfolding Chain NotIn
last_ne l p a [] z c away e = away.0 (e ∙ c.1)
last_ne l p a (x ∷ xs) z c away e = last_ne l p x xs z c.2 away.1 e

pub Chain-append :
    (l : Links) (a : ℕ) (xs : List ℕ) (p z : ℕ)
    → Chain l a xs p
    → l.next p ≡ z
    → l.prev z ≡ p
    → Chain l a (xs ++ (p ∷ [])) z
unfolding Chain
Chain-append l a [] p z c n b = (c.0, c.1, (n, b))
Chain-append l a (x ∷ xs) p z c n b = (c.0, c.1, Chain-append l x xs p z c.2 n b)

pub NotIn-append : (q : ℕ) (xs : List ℕ) (p : ℕ) → NotIn q xs → q ≢ p → NotIn q (xs ++ (p ∷ []))
unfolding NotIn
NotIn-append q [] p away ne = (ne, tt)
NotIn-append q (x ∷ xs) p away ne = (away.0, NotIn-append q xs p away.1 ne)

pub Distinct-append : (xs : List ℕ) (p : ℕ) → Distinct xs → NotIn p xs → Distinct (xs ++ (p ∷ []))
unfolding Distinct
Distinct-append [] p d away = (tt, tt)
Distinct-append (x ∷ xs) p d away =
    (NotIn-append x xs p d.0 (λ e. away.0 (sym e)), Distinct-append xs p d.1 away.1)

-- A chain to `z` becomes one to `w`, when the page before the end is linked to `w` and the other links
-- of the chain are kept. Page `n` is not in it.
module _ (l l' : Links) (z w n : ℕ) (forth : l'.next (l.prev z) ≡ w) (back : l'.prev w ≡ l.prev z)
    (next_kept : (r : ℕ) → r ≢ n → r ≢ l.prev z → l'.next r ≡ l.next r)
    (prev_kept : (r : ℕ) → r ≢ w → r ≢ z → l'.prev r ≡ l.prev r) where
  pub Chain-redirect :
      (a : ℕ) (xs : List ℕ)
      → Chain l a xs z
      → Distinct (a ∷ xs)
      → NotIn n (a ∷ xs)
      → NotIn w xs
      → NotIn z xs
      → Chain l' a xs w
  unfolding Chain Distinct
  Chain-redirect a [] c d away_n away_w away_z = (ap l'.next (sym c.1) ∙ forth, back ∙ c.1)
  Chain-redirect a (x ∷ xs) c d away_n away_w away_z = (
    next_kept a (λ e. away_n.0 (sym e)) (last_ne l a x xs z c.2 d.0) ∙ c.0,
    prev_kept x (λ e. away_w.0 (sym e)) (λ e. away_z.0 (sym e)) ∙ c.1,
    Chain-redirect x xs c.2 d.1 away_n.1 away_w.1 away_z.1,
  )
