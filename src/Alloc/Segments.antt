-- ===== src/Alloc/Segments.antt =====
-- src/kernel/mm/alloc/segment.c, and the pages that page.c takes from segments and gives back.
use ukoos.Prelude.{
  ℕ, zero, suc, ◌+◌, ◌-◌, ◌*◌, ◌%◌, ◌^◌, Bool, true, false, not, ◌||◌, ◌==◌, if◌then◌else◌, Run, ok,
  ◌>>=◌, ◌>>◌, assert,
}
use ukoos.ListHead.{Ptr, set_prev, set_next, list_init, list_is_empty, list_shift, list_remove}
use ukoos.Align.{align_up, is_aligned}
use ukoos.SizeClasses.{size_is_huge, size_class_is_valid, size_class_is_small}
use ukoos.Alloc.{
  Memory, Services, null, page_shift_small, page_shift_large, page_shift_huge, segment_shift,
  set_page, set_segment,
}
use ukoos.Alloc.Bounds.{page_segment, page_at, page_is_empty}
use ukoos.Alloc.Direct.{
  unused_pages, size_class_in_pages_direct, heap_update_pages_direct, heap_push_unused_page,
  zero_page,
}
use ukoos.Alloc.Init.{page_init_small_or_large, page_init_huge}

-- `*segment = (struct mm_alloc_segment){ .hart_id = hart, .page_shift = shift, … }`: the pages of
-- `left` indices from `i` on are zero.
unfoldable pub zero_pages : ℕ → ℕ → Ptr → Memory → Memory
zero_pages zero i segment m = m
zero_pages (suc left) i segment m =
    let page = page_at segment i in
    let m' = set_page m page zero_page in
    zero_pages left (i + 1) segment
      (record m' { lists = set_prev (set_next m'.lists page null) page null })

unfoldable pub segment_init : ℕ → ℕ → Ptr → Memory → Memory
segment_init hart shift segment m =
    zero_pages 64 0 segment
      (set_segment m segment (record { hart_id = hart; used_pages = 0; page_shift = shift }))

abbrev pub list_init_page : Ptr → Memory → Memory
list_init_page page m = record m { lists = list_init m.lists page }

unfoldable pub push_unused_pages : ℕ → ℕ → Ptr → Memory → Run Memory
push_unused_pages zero i segment m = ok m
push_unused_pages (suc left) i segment m = do
  let page = page_at segment i
  m' ← heap_push_unused_page page (list_init_page page m)
  push_unused_pages left (i + 1) segment m'

unfoldable pub segment_init_small : Ptr → Memory → Run Memory
segment_init_small segment m = do
  assert (is_aligned segment segment_shift)
  assert ((m.heap).hart_id == m.hart_id)
  push_unused_pages 64 0 segment (segment_init (m.heap).hart_id page_shift_small segment m)

unfoldable pub segment_init_large : Ptr → Memory → Run Memory
segment_init_large segment m = do
  assert (is_aligned segment segment_shift)
  ok (list_init_page (page_at segment 0) (segment_init m.hart_id page_shift_large segment m))

unfoldable pub segment_init_huge : Ptr → Memory → Run Memory
segment_init_huge segment m = do
  assert (is_aligned segment segment_shift)
  ok (list_init_page (page_at segment 0) (segment_init m.hart_id page_shift_huge segment m))

-- The pages of `left` indices from `i` on are taken out of their lists. The Boolean is
-- `found_unlinked_page`.
unfoldable pub unlink_pages : ℕ → ℕ → Ptr → Bool → Memory → Run (Bool × Memory)
unlink_pages zero i segment found m = ok (found, m)
unlink_pages (suc left) i segment found m = do
  unlinked ← list_is_empty m.lists (page_at segment i)
  elim unlinked [
    | true ↦ (do assert (not found); unlink_pages left (i + 1) segment true m)
    | false ↦ (do
      lists ← list_remove m.lists (page_at segment i)
      unlink_pages left (i + 1) segment found (record m { lists = lists }))
  ]

-- `segment->used_pages` by one up or down. The count is a 64-bit number.
abbrev pub used_pages_inc : Ptr → Memory → Memory
used_pages_inc segment m =
    set_segment m segment
      (record (m.segments segment) { used_pages = ((m.segments segment).used_pages + 1) % 2 ^ 64 })

abbrev pub used_pages_dec : Ptr → Memory → Memory
used_pages_dec segment m = set_segment m segment (record (m.segments segment) {
  used_pages = ((m.segments segment).used_pages + 2 ^ 64 - 1) % 2 ^ 64;
})

module _ (services : Services) where
  open services use {World, map_segment, unmap_segment}

  unfoldable pub segment_alloc : ℕ → World → Run (Ptr × World)
  segment_alloc size w = do
    assert (size_is_huge size)
    (segment, w') ← map_segment (align_up size 12) w
    assert (segment == null || is_aligned segment segment_shift)
    ok (segment, w')

  unfoldable pub segment_free : Ptr → Memory → World → Run (Memory × World)
  segment_free segment m w = do
    assert ((m.segments segment).used_pages == 0)
    let page_count = if (m.segments segment).page_shift == page_shift_small then 64 else 1
    (found, m') ← unlink_pages page_count 0 segment false m
    assert found
    w' ← unmap_segment segment (m.segments segment).page_shift w
    ok (m', w')

  -- The page, or null, with the memory and the services afterwards.
  unfoldable pub page_alloc_small : ℕ → Memory → World → Run (Ptr × Memory × World)
  page_alloc_small size_class m w = do
    assert (size_class_is_valid size_class)
    small ← size_class_is_small size_class
    assert small
    none_left ← list_is_empty m.lists (unused_pages m)
    (done, m₁, w₁) ← if not none_left then ok (true, m, w) else (do
      (segment, w') ← segment_alloc (2 ^ segment_shift) w
      if segment == null then ok (false, m, w') else (do
        m' ← segment_init_small segment m
        empty ← list_is_empty m'.lists (unused_pages m')
        assert (not empty)
        ok (true, m', w')))
    if not done then ok (null, m₁, w₁) else (do
      (page, lists) ← list_shift m₁.lists (unused_pages m₁)
      let m₂ = record m₁ { lists = lists }
      let segment = page_segment page
      assert ((m₂.segments segment).hart_id == (m₂.heap).hart_id)
      assert ((m₂.segments segment).page_shift == page_shift_small)
      ok (page, used_pages_inc segment m₂, w₁))

  unfoldable pub page_new_small : ℕ → Memory → World → Run (Ptr × Memory × World)
  page_new_small size_class m w = do
    assert (size_class_is_valid size_class)
    small ← size_class_is_small size_class
    assert small
    (page, m₁, w₁) ← page_alloc_small size_class m w
    if page == null then ok (null, m₁, w₁) else (do
      (m₂, w₂) ← page_init_small_or_large services page size_class m₁ w₁
      ok (page, m₂, w₂))

  unfoldable pub page_new_large : ℕ → Memory → World → Run (Ptr × Memory × World)
  page_new_large size_class m w = do
    assert (size_class_is_valid size_class)
    small ← size_class_is_small size_class
    assert (not small)
    (segment, w₁) ← segment_alloc (2 ^ segment_shift) w
    if segment == null then ok (null, m, w₁) else (do
      m₁ ← segment_init_large segment m
      let page = page_at segment 0
      (m₂, w₂) ← page_init_small_or_large services page size_class m₁ w₁
      assert ((m₂.segments segment).hart_id == (m₂.heap).hart_id)
      assert ((m₂.segments segment).page_shift == page_shift_large)
      ok (page, used_pages_inc segment m₂, w₂))

  unfoldable pub page_new_huge : ℕ → Memory → World → Run (Ptr × Memory × World)
  page_new_huge size m w = do
    assert (size_is_huge size)
    (segment, w₁) ← segment_alloc ((size + 2 * 2 ^ 12) % 2 ^ 64) w
    if segment == null then ok (null, m, w₁) else (do
      m₁ ← segment_init_huge segment m
      let page = page_at segment 0
      (m₂, w₂) ← page_init_huge services page size m₁ w₁
      assert ((m₂.segments segment).hart_id == (m₂.heap).hart_id)
      assert ((m₂.segments segment).page_shift == page_shift_huge)
      ok (page, used_pages_inc segment m₂, w₂))

  -- The second half of `page_free`: the page is in no list any more.
  unfoldable pub page_release : Ptr → Memory → World → Run (Memory × World)
  page_release page m w = do
    let segment = page_segment page
    assert (not ((m.segments segment).used_pages == 0))
    let m' = used_pages_dec segment m
    if (m'.segments segment).used_pages == 0
        then segment_free segment m' w
        else (do m₂ ← heap_push_unused_page page m'; ok (m₂, w))

  unfoldable pub page_free : Ptr → Memory → World → Run (Memory × World)
  page_free page m w = do
    assert (page_is_empty m page)
    let size_class = (m.pages page).size_class
    direct ←
        if size_class_is_valid size_class then size_class_in_pages_direct size_class else ok false
    if direct
        then (if (m.lists page).prev == (m.lists page).next then ok (m, w) else (do
          lists ← list_remove m.lists page
          m' ← heap_update_pages_direct size_class (record m { lists = lists })
          page_release page m' w))
        else (do lists ← list_remove m.lists page; page_release page (record m { lists = lists }) w)
