-- ===== src/PageList/Tests.antt =====
-- Circular lists of one to three pages.
use Prim.{tt}
use libpussy.Base.{◌≡◌, refl, arith, none, some, [], ◌∷◌}
use libpussy.PageList.{Links, add_to_list, delete_from_list}
use libpussy.PageList.Ring.{NotIn, IsRing}
use libpussy.PageList.Laws.{add_to_list-IsRing, delete_from_list-IsRing, delete_from_list-short}

abbrev empty : Links
empty = record { head = none; next = λ p. 0; prev = λ p. 0 }

abbrev one : Links
one = add_to_list empty 4096

abbrev two : Links
two = add_to_list one 8192

abbrev three : Links
three = add_to_list two 12288

one-IsRing : IsRing one (4096 ∷ [])
unfolding IsRing NotIn
one-IsRing = add_to_list-IsRing empty [] 4096 refl tt

two-IsRing : IsRing two (4096 ∷ (8192 ∷ []))
unfolding NotIn
two-IsRing = add_to_list-IsRing one (4096 ∷ []) 8192 one-IsRing ((λ e. omega arith), tt)

three-IsRing : IsRing three (4096 ∷ (8192 ∷ (12288 ∷ [])))
unfolding NotIn
three-IsRing =
    add_to_list-IsRing two (4096 ∷ (8192 ∷ [])) 12288 two-IsRing
      ((λ e. omega arith), ((λ e. omega arith), tt))

head_test : (delete_from_list three 4096).head ≡ some 8192
unfolding delete_from_list add_to_list
head_test = refl

lost_test : (delete_from_list two 4096).head ≡ none
unfolding delete_from_list add_to_list
lost_test = refl

delete_from_list-IsRing_example : IsRing (delete_from_list three 4096) (8192 ∷ (12288 ∷ []))
delete_from_list-IsRing_example =
    delete_from_list-IsRing three 4096 (8192 ∷ (12288 ∷ [])) three-IsRing (omega arith)

delete_from_list-short_example : IsRing (delete_from_list two 4096) []
delete_from_list-short_example =
    delete_from_list-short two 4096 (8192 ∷ []) two-IsRing (omega arith)
