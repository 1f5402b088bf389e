-- ===== src/Alloc/Direct.antt =====
-- src/kernel/mm/alloc/heap.h and heap.c: the list heads of a heap, and the table `pages_direct`.
use ukoos.Prelude.{
  ℕ, zero, suc, ◌+◌, ◌-◌, ◌*◌, ◌/◌, ◌%◌, ◌^◌, bit_and, Bool, false, not, ◌&&◌, ltb, leb, ◌==◌,
  if◌then◌else◌, Run, ok, ◌>>=◌, ◌>>◌, assert,
}
use ukoos.ListHead.{Ptr, list_init, list_is_empty, list_push}
use ukoos.Align.{complement}
use ukoos.SizeClasses.{size_of_size_class, size_class_of_size}
use ukoos.Alloc.{Memory, Page, page_shift_small, set_page}
use ukoos.Alloc.Bounds.{page_segment, page_is_empty}

-- `&heap->pages[size_class]`, `&heap->unused_pages` and `&heap->full_pages`.
abbrev pub pages_head : Memory → ℕ → Ptr
pages_head m size_class = (m.heap).base + 1032 + 16 * size_class

abbrev pub unused_pages : Memory → Ptr
unused_pages m = (m.heap).base + 1320

abbrev pub full_pages : Memory → Ptr
full_pages m = (m.heap).base + 1336

unfoldable pub size_class_in_pages_direct : ℕ → Run Bool
size_class_in_pages_direct size_class = do size ← size_of_size_class size_class; ok (leb size 1024)

unfoldable pub pages_direct_index_of_size : ℕ → Run ℕ
pages_direct_index_of_size size = do
  assert (ltb 0 size && leb size 1024)
  let rounded = bit_and ((size + 7) % 2 ^ 64) (complement 7)
  let i = (rounded / 8 + 2 ^ 64 - 1) % 2 ^ 64
  assert (ltb i 128)
  ok i

unfoldable pub size_of_pages_direct_index : ℕ → Run ℕ
size_of_pages_direct_index i = do assert (ltb i 128); ok ((i + 1) * 8)

-- The entries of `left` indices from `i` on.
unfoldable pub set_pages_direct : ℕ → ℕ → ℕ → Ptr → Memory → Run Memory
set_pages_direct zero i size_class page m = ok m
set_pages_direct (suc left) i size_class page m = do
  size ← size_of_pages_direct_index i
  c ← size_class_of_size size
  assert (c == size_class)
  set_pages_direct left (i + 1) size_class page (record m {
    heap = record (m.heap) { pages_direct = λ j. if j == i then page else (m.heap).pages_direct j };
  })

abbrev pub smallest_size : ℕ → Run ℕ
smallest_size zero = ok 1
smallest_size (suc c) = do size ← size_of_size_class c; ok (size + 1)

unfoldable pub heap_update_pages_direct : ℕ → Memory → Run Memory
heap_update_pages_direct size_class m = do
  empty ← list_is_empty m.lists (pages_head m size_class)
  assert (not empty)
  let page = (m.lists (pages_head m size_class)).next
  direct ← size_class_in_pages_direct size_class
  if not direct then ok m else (do
    smallest ← smallest_size size_class
    first ← pages_direct_index_of_size smallest
    size ← size_of_size_class size_class
    last ← pages_direct_index_of_size size
    set_pages_direct (last + 1 - first) first size_class page m)

-- A page whose bytes are all zero.
abbrev pub zero_page : Page
zero_page = record {
  free = 0;
  local_free = 0;
  remote = 0;
  used_blocks = 0;
  remote_free_length = 0;
  xor_cookie = 0;
  size_class = 0;
  in_full_list = false;
}

unfoldable pub heap_push_unused_page : Ptr → Memory → Run Memory
heap_push_unused_page page m = do
  assert ((m.segments (page_segment page)).page_shift == page_shift_small)
  unlinked ← list_is_empty m.lists page
  assert unlinked
  assert (page_is_empty m page)
  let cleared = set_page m page zero_page
  lists ← list_push (list_init cleared.lists page) (unused_pages m) page
  ok (record cleared { lists = lists })
