-- ===== src/Alloc/Malloc.antt =====
-- src/kernel/mm/alloc.c: `free`, the allocation functions and `realloc`, on the hart whose heap is
-- in the memory.
use ukoos.Prelude.{
  ℕ, zero, suc, ◌+◌, ◌%◌, ◌^◌, bit_and, true, false, not, ◌&&◌, ltb, leb, ◌==◌, if◌then◌else◌,
  Option, none, some, Run, ok, panic, out_of_fuel, ◌>>=◌, ◌>>◌, assert,
}
use Prim.Native.Nat.{bit_or}
use ukoos.ListHead.{Ptr, list_is_empty, list_remove, list_push}
use ukoos.Align.{complement}
use ukoos.SizeClasses.{size_is_small, size_is_huge, size_class_of_size, size_of_size_class}
use ukoos.Alloc.{Memory, Services, null, set_page, memcpy}
use ukoos.Alloc.Bounds.{segment_of_ptr, page_of_ptr, page_segment, page_is_empty}
use ukoos.Alloc.Blocks.{page_free_pop, page_local_free_push, page_collect, page_is_full}
use ukoos.Alloc.Direct.{pages_head, full_pages, pages_direct_index_of_size}
use ukoos.Alloc.Segments.{page_new_small, page_new_large, page_new_huge, page_free}

-- The move of a page that has a free block again, out of the list of the full pages.
unfoldable pub leave_full_list : Ptr → Memory → Run Memory
leave_full_list page m = do
  lists ← list_remove m.lists page
  lists' ← list_push lists (pages_head m (m.pages page).size_class) page
  ok (
      set_page (record m { lists = lists' }) page
        (record (m.pages page) {
          remote = bit_and (m.pages page).remote (complement 1);
          in_full_list = false;
        }))

unfoldable pub enter_full_list : Ptr → Memory → Run Memory
enter_full_list page m = do
  lists ← list_remove m.lists page
  lists' ← list_push lists (full_pages m) page
  ok (
      set_page (record m { lists = lists' }) page
        (record (m.pages page) { remote = bit_or (m.pages page).remote 1; in_full_list = true }))

-- `page->used_blocks++`.
unfoldable pub used_blocks_inc : Ptr → Memory → Memory
used_blocks_inc page m =
    set_page m page
      (record (m.pages page) { used_blocks = ((m.pages page).used_blocks + 1) % 2 ^ 32 })

unfoldable pub alloc_generic_from_page : Ptr → Memory → Run (Ptr × Memory)
alloc_generic_from_page page m = do
  unlinked ← list_is_empty m.lists page
  assert (not unlinked)
  assert (not ((m.segments (page_segment page)).used_pages == 0))
  (block, m') ← page_free_pop page m
  assert (not (block == null))
  ok (block, used_blocks_inc page m')

module _ (services : Services) where
  open services use {World}

  -- A remote free is `TODO`, which panics.
  unfoldable pub free : Ptr → Memory → World → Run (Memory × World)
  free ptr m w = if ptr == null then ok (m, w) else (do
    page ← page_of_ptr m ptr
    if not ((m.segments (segment_of_ptr ptr)).hart_id == m.hart_id) then panic else (do
      m' ← page_local_free_push page ptr m
      if page_is_empty m' page
          then page_free services page m' w
          else (if (m'.pages page).in_full_list
              then (do m₂ ← leave_full_list page m'; ok (m₂, w))
              else ok (m', w))))

  -- The loop over the delayed free list.
  unfoldable pub free_delayed : ℕ → Memory → World → Run (Memory × World)
  free_delayed zero m w = out_of_fuel
  free_delayed (suc fuel) m w =
      let block = (m.heap).delayed_free in
      elim (block == null) [
        | true ↦ ok (m, w)
        | false ↦ (do
          (m', w') ←
              free block (record m { heap = record (m.heap) { delayed_free = m.words block } }) w
          free_delayed fuel m' w')
      ]

  -- The loop over the pages of a size class, from the node `at` on: the block that was found, if any.
  unfoldable pub search_pages : ℕ → ℕ → Ptr → Memory → World → Run (Option Ptr × Memory × World)
  search_pages zero size_class at m w = out_of_fuel
  search_pages (suc fuel) size_class at m w = elim (at == pages_head m size_class) [
    | true ↦ ok (none, m, w)
    | false ↦ (do
      let following = (m.lists at).next
      elim (page_is_empty m at) [
        | true ↦ (do
          (m', w') ← page_free services at m w
          search_pages fuel size_class following m' w')
        | false ↦ (do
          m₁ ← page_collect at m
          full ← page_is_full m₁ at
          elim full [
            | false ↦ (do (block, m₂) ← alloc_generic_from_page at m₁; ok (some block, m₂, w))
            | true ↦ (do m₂ ← enter_full_list at m₁; search_pages fuel size_class following m₂ w)
          ])
      ])
  ]

  unfoldable pub alloc_huge : ℕ → Memory → World → Run (Ptr × Memory × World)
  alloc_huge size m w = do
    assert (size_is_huge size)
    (page, m', w') ← page_new_huge services size m w
    if page == null
        then ok (null, m', w')
        else (do (block, m₂) ← alloc_generic_from_page page m'; ok (block, m₂, w'))

  -- The allocation of a new page, where no page of the class has a free block.
  unfoldable pub alloc_new_page : ℕ → ℕ → Memory → World → Run (Ptr × Memory × World)
  alloc_new_page size size_class m w = do
    empty ← list_is_empty m.lists (pages_head m size_class)
    assert empty
    (page, m', w') ←
        if size_is_small size
        then page_new_small services size_class m w
        else page_new_large services size_class m w
    if page == null
        then ok (null, m', w')
        else (do (block, m₂) ← alloc_generic_from_page page m'; ok (block, m₂, w'))

  -- The fuel bounds the length of the delayed list and of the list of pages.
  unfoldable pub alloc_generic : ℕ → ℕ → Memory → World → Run (Ptr × Memory × World)
  alloc_generic fuel size m w = do
    assert (not (size == 0))
    (m₁, w₁) ← free_delayed fuel m w
    if size_is_huge size then alloc_huge size m₁ w₁ else (do
      size_class ← size_class_of_size size
      (found, m₂, w₂) ←
          search_pages fuel size_class (m₁.lists (pages_head m₁ size_class)).next m₁ w₁
      elim found [ some block ↦ ok (block, m₂, w₂) | none ↦ alloc_new_page size size_class m₂ w₂ ])

  unfoldable pub alloc_small : ℕ → ℕ → Memory → World → Run (Ptr × Memory × World)
  alloc_small fuel size m w = do
    assert (ltb 0 size && leb size 1024)
    i ← pages_direct_index_of_size size
    let page = (m.heap).pages_direct i
    assert (not (page == null))
    (block, m') ← page_free_pop page m
    if block == null then alloc_generic fuel size m' w else ok (block, used_blocks_inc page m', w)

  unfoldable pub alloc : ℕ → ℕ → Memory → World → Run (Ptr × Memory × World)
  alloc fuel size m w =
      if size == 0
      then alloc_small fuel 1 m w
      else (if leb size 1024 then alloc_small fuel size m w else alloc_generic fuel size m w)

  unfoldable pub realloc : ℕ → Ptr → ℕ → Memory → World → Run (Ptr × Memory × World)
  realloc fuel ptr new_size m w = do
    page ← page_of_ptr m ptr
    new_size_class ← size_class_of_size new_size
    if (m.pages page).size_class == new_size_class then ok (ptr, m, w) else (do
      old_size ← size_of_size_class (m.pages page).size_class
      (out, m₁, w₁) ← alloc fuel new_size m w
      if out == null
          then ok (null, m₁, w₁)
          else (do (m₂, w₂) ← free ptr (memcpy m₁ out ptr old_size) w₁; ok (out, m₂, w₂)))
