-- ===== src/Alloc/Blocks.antt =====
-- src/kernel/mm/alloc/block.c, and the free lists of page.c and page.h: references to blocks are
-- addresses mixed with the page's cookie, and a free list is linked through its blocks.
use ukoos.Prelude.{
  ℕ, ◌+◌, ◌-◌, ◌/◌, ◌%◌, ◌^◌, bit_and, bit_xor, Bool, not, leb, ◌==◌, if◌then◌else◌, Run, ok, panic,
  ◌>>=◌, ◌>>◌, assert,
}
use ukoos.ListHead.{Ptr}
use ukoos.Align.{is_aligned}
use ukoos.Alloc.{Memory, null, set_page, set_word, bzero}
use ukoos.Alloc.Bounds.{page_in_bounds, page_is_empty}

unfoldable pub block_ref_is_valid : ℕ → Bool
block_ref_is_valid ref = bit_and ref 7 == 7

unfoldable pub block_ref_make : Memory → Ptr → Ptr → Run ℕ
block_ref_make m page block = do
  assert (bit_and (m.pages page).xor_cookie 7 == 7)
  if block == null then ok tt else (do
    inside ← page_in_bounds m page block
    assert inside
    assert (is_aligned block 3)
    assert (block / 2 ^ 56 == 0xff))
  let out = bit_xor block (m.pages page).xor_cookie
  assert (block_ref_is_valid out)
  ok out

unfoldable pub block_ref_deref : Memory → Ptr → ℕ → Run Ptr
block_ref_deref m page ref = do
  assert (bit_and (m.pages page).xor_cookie 7 == 7)
  assert (block_ref_is_valid ref)
  let block = bit_xor ref (m.pages page).xor_cookie
  if block == null
      then ok tt
      else (do inside ← page_in_bounds m page block; assert inside; assert (block / 2 ^ 56 == 0xff))
  ok block

-- The block that is taken, or null, and the memory afterwards.
unfoldable pub page_free_pop : Ptr → Memory → Run (Ptr × Memory)
page_free_pop page m = do
  assert (not (page == null))
  assert (block_ref_is_valid (m.pages page).free)
  block ← block_ref_deref m page (m.pages page).free
  if block == null then ok (null, m) else (do
    assert (block_ref_is_valid (m.words block))
    ok (block, set_page m page (record (m.pages page) { free = m.words block })))

-- `page_push`, on the list whose head is given: the new head, and the memory with the block linked.
unfoldable pub page_push : Ptr → Ptr → ℕ → Memory → Run (ℕ × Memory)
page_push page block list m = do
  inside ← page_in_bounds m page block
  assert inside
  assert (block_ref_is_valid list)
  let linked = set_word m block list
  head ← block_ref_make linked page block
  ok (head, linked)

unfoldable pub page_free_push : Ptr → Ptr → ℕ → Memory → Run Memory
page_free_push page block block_size m = do
  assert (leb 8 block_size)
  let cleared = bzero m block block_size
  (head, linked) ← page_push page block (m.pages page).free cleared
  ok (set_page linked page (record (linked.pages page) { free = head }))

-- `used_blocks` is a 32-bit number.
unfoldable pub page_local_free_push : Ptr → Ptr → Memory → Run Memory
page_local_free_push page block m = do
  assert (not (page_is_empty m page))
  (head, linked) ← page_push page block (m.pages page).local_free m
  ok (
      set_page linked page (record (linked.pages page) {
        local_free = head;
        used_blocks = ((linked.pages page).used_blocks + 2 ^ 32 - 1) % 2 ^ 32;
      }))

-- The remote list of a page is not taken over: that is `TODO`, which panics.
unfoldable pub page_collect : Ptr → Memory → Run Memory
page_collect page m = do
  block ← block_ref_deref m page (m.pages page).free
  if not (block == null) then ok m else (do
    head ← block_ref_make m page null
    let m' =
        set_page m page
          (record (m.pages page) { free = (m.pages page).local_free; local_free = head })
    if (m.pages page).remote_free_length == 0 then ok m' else panic)

unfoldable pub page_is_full : Memory → Ptr → Run Bool
page_is_full m page = do
  assert (block_ref_is_valid (m.pages page).free)
  block ← block_ref_deref m page (m.pages page).free
  ok (block == null)
