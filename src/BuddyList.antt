-- ===== src/BuddyList.antt =====
-- Kernel/memoryManagement/buddyList.c: circular lists with links in both directions. The fields `prev` and
-- `next` of the nodes are functions of their addresses; a list is the node that is its head.
mod Rings
mod Tests
use dog_os.Prelude.{ℕ, Bool, true, false, Option, none, some, ◌==◌, put}

pub record Links : Type 0 where
  pub prev : ℕ → ℕ
  pub next : ℕ → ℕ

-- `listInitialize`
unfoldable pub list_initialize : ℕ → Links → Links
list_initialize list k = record { prev = put k.prev list list; next = put k.next list list }

-- `listPush`
unfoldable pub list_push : (list entry : ℕ) → Links → Links
list_push list entry k =
    let before = k.prev list in
    record {
      prev = put (put k.prev entry before) list entry;
      next = put (put k.next entry list) before entry;
    }

-- `listRemove`
unfoldable pub list_remove : ℕ → Links → Links
list_remove entry k =
    let before = k.prev entry in
    let after = k.next entry in
    record { prev = put k.prev after before; next = put k.next before after }

-- `listPop`: `none` for NULL.
unfoldable pub list_pop : ℕ → Links → Option ℕ × Links
unfolding list_remove
list_pop list k =
    let back = k.prev list in
    elim (back == list) [ true ↦ (none, k) | false ↦ (some back, list_remove back k) ]

-- `listIsEmpty`
abbrev pub list_is_empty : ℕ → Links → Bool
list_is_empty list k = k.prev list == list
