-- ===== src/ListHead.antt =====
-- src/kernel/include/list.h: the intrusive doubly linked list. Every `struct list_head` that is
-- in memory stands at an address of the store; a write changes one field at one address.
pub mod Chain
pub mod Insert
pub mod Remove
pub mod Tests
use ukoos.Prelude.{
  ℕ, Bool, true, ◌&&◌, not, ◌==◌, if◌then◌else◌, Run, ok, panic, ◌>>=◌, ◌>>◌, assert,
}

abbrev pub Ptr : Type 0
Ptr = ℕ

pub record Links : Type 0 where
  pub prev : Ptr
  pub next : Ptr

abbrev pub Store : Type 0
Store = Ptr → Links

-- `p->prev = v` and `p->next = v`.
unfoldable pub set_prev : Store → Ptr → Ptr → Store
set_prev s p v a = if a == p then record { prev = v; next = (s p).next } else s a

unfoldable pub set_next : Store → Ptr → Ptr → Store
set_next s p v a = if a == p then record { prev = (s p).prev; next = v } else s a

-- `*p = LIST_INIT(*p)`.
unfoldable pub list_init : Store → Ptr → Store
list_init s p a = if a == p then record { prev = p; next = p } else s a

unfoldable pub list_is_empty : Store → Ptr → Run Bool
list_is_empty s list =
    if list == (s list).prev
    then (do assert (list == (s list).next); ok true)
    else if list == (s list).next
    then (do assert (list == (s list).prev); ok true)
    else ok Bool.false

-- The last two writes of `list_unshift` and `list_push`: the new neighbours are made to point at
-- `elem`, each read through the links that `elem` now has.
abbrev link_neighbours : Store → Ptr → Store
link_neighbours s elem = let s₁ = set_next s (s elem).prev elem in set_prev s₁ (s₁ elem).next elem

abbrev is_unlinked : Store → Ptr → Bool
is_unlinked s elem = elem == (s elem).prev && elem == (s elem).next

unfoldable pub list_unshift : Store → Ptr → Ptr → Run Store
list_unshift s list elem = do
  assert (is_unlinked s elem)
  let s₁ = set_prev s elem list
  let s₂ = set_next s₁ elem (s₁ list).next
  ok (link_neighbours s₂ elem)

unfoldable pub list_push : Store → Ptr → Ptr → Run Store
list_push s list elem = do
  assert (is_unlinked s elem)
  let s₁ = set_prev s elem (s list).prev
  let s₂ = set_next s₁ elem list
  ok (link_neighbours s₂ elem)

abbrev is_linked : Store → Ptr → Bool
is_linked s elem = not (elem == (s elem).prev) && not (elem == (s elem).next)

unfoldable pub list_shift : Store → Ptr → Run (Ptr × Store)
list_shift s list = do
  assert (is_linked s list)
  let out = (s list).next
  let s₁ = set_next s list (s out).next
  let s₂ = set_prev s₁ (s₁ list).next list
  ok (out, list_init s₂ out)

unfoldable pub list_pop : Store → Ptr → Run (Ptr × Store)
list_pop s list = do
  assert (is_linked s list)
  let out = (s list).prev
  let s₁ = set_prev s list (s out).prev
  let s₂ = set_next s₁ (s₁ list).prev list
  ok (out, list_init s₂ out)

unfoldable pub list_remove : Store → Ptr → Run Store
list_remove s elem = do
  assert (is_linked s elem)
  let s₁ = set_next s (s elem).prev (s elem).next
  let s₂ = set_prev s₁ (s₁ elem).next (s₁ elem).prev
  ok (list_init s₂ elem)
