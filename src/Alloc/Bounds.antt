-- ===== src/Alloc/Bounds.antt =====
-- src/kernel/mm/alloc/page.c and segment.c: where a page and its blocks lie.
use ukoos.Prelude.{
  ℕ, ◌+◌, ◌-◌, ◌*◌, ◌/◌, ◌%◌, ◌^◌, Bool, true, ◌&&◌, ltb, leb, ◌==◌, if◌then◌else◌, Run, ok, ◌>>=◌,
  ◌>>◌, assert,
}
use ukoos.ListHead.{Ptr}
use ukoos.Align.{align_down, is_aligned}
use ukoos.SizeClasses.{size_class_is_valid}
use ukoos.Alloc.{
  Memory, segment_shift, size_class_huge_sentinel, pages_offset, page_size, page_shift_small,
}

unfoldable pub segment_of_ptr : Ptr → Ptr
segment_of_ptr ptr = align_down ptr segment_shift

unfoldable pub page_segment : Ptr → Ptr
page_segment page = segment_of_ptr page

-- `&segment->pages[i]`.
unfoldable pub page_at : Ptr → ℕ → Ptr
page_at segment i = segment + pages_offset + i * page_size

-- `page - &segment->pages[0]` is the difference of the addresses by the size of a page, below 0
-- where the page lies before the array.
unfoldable pub page_index : Ptr → Run ℕ
page_index page = do
  let segment = page_segment page
  let first = page_at segment 0
  assert (leb first page)
  let i = (page - first) / page_size
  assert (ltb i 64)
  ok i

unfoldable pub page_of_ptr : Memory → Ptr → Run Ptr
page_of_ptr m ptr = do
  let segment = segment_of_ptr ptr
  let shift = (m.segments segment).page_shift
  let i = (ptr - segment) / 2 ^ shift
  assert (if i == 0 then true else shift == page_shift_small)
  ok (page_at segment i)

unfoldable pub page_bounds : Memory → Ptr → Run (ℕ × ℕ)
page_bounds m page = do
  assert (size_class_is_valid (m.pages page).size_class)
  let segment = page_segment page
  i ← page_index page
  let shift = (m.segments segment).page_shift
  let page_start = (segment + i * 2 ^ shift) % 2 ^ 64
  let page_end = (page_start + 2 ^ shift) % 2 ^ 64
  let page_start = if i == 0 then (page_start + 2 * 2 ^ 12) % 2 ^ 64 else page_start
  assert (is_aligned page_start 12)
  assert (is_aligned page_end 16)
  ok (page_start, page_end)

unfoldable pub page_in_bounds : Memory → Ptr → ℕ → Run Bool
page_in_bounds m page addr =
    if (m.pages page).size_class == size_class_huge_sentinel
    then ok (addr == (align_down page 12 + 2 * 2 ^ 12) % 2 ^ 64)
    else (do
      (page_start, page_end) ← page_bounds m page
      ok (leb page_start addr && ltb addr page_end))

unfoldable pub page_is_empty : Memory → Ptr → Bool
page_is_empty m page = (m.pages page).used_blocks == (m.pages page).remote_free_length
