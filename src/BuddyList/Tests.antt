-- ===== src/BuddyList/Tests.antt =====
-- The lists of buddyList.c: the theorems at a list of two nodes.
use dog_os.Prelude.{◌≡◌, some, [], ◌∷◌, arith}
use dog_os.BuddyList.{Links, list_initialize, list_push, list_pop}
use dog_os.BuddyList.Rings.{Ring, list_initialize-Ring, list_push-Ring, list_pop-list_push}

abbrev empty : Links
empty = list_initialize 100 (record { prev = λ a. 0; next = λ a. 0 })

-- The list at 100 with the nodes 8 and 9.
abbrev both : Links
both = list_push 100 9 (list_push 100 8 empty)

both-Ring : Ring both 100 (8 ∷ 9 ∷ [])
both-Ring =
    list_push-Ring (list_push 100 8 empty) 100 9 (8 ∷ [])
      (list_push-Ring empty 100 8 []
        (list_initialize-Ring (record { prev = λ a. 0; next = λ a. 0 }) 100) (omega arith, tt))
      (omega arith, (omega arith, tt))

list_pop-list_push_example :
    (k' : Links) × (list_pop 100 (list_push 100 10 both) ≡ (some 10, k')) × Ring k' 100 (8 ∷ 9 ∷ [])
list_pop-list_push_example =
    list_pop-list_push both 100 10 (8 ∷ 9 ∷ []) both-Ring
      (omega arith, (omega arith, (omega arith, tt)))
