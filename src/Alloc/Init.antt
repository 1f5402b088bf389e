-- ===== src/Alloc/Init.antt =====
-- src/kernel/mm/alloc/page.c: a page is initialised, and its blocks are put into the free list in
-- random order.
use ukoos.Prelude.{
  ℕ, zero, suc, ◌+◌, ◌-◌, ◌*◌, ◌%◌, ◌^◌, bit_and, true, false, not, ◌||◌, ltb, leb, ◌==◌,
  if◌then◌else◌, List, [], ◌∷◌, length, get_or, set, Run, ok, out_of_fuel, ◌>>=◌, ◌>>◌, assert,
}
use Prim.Native.Nat.{bit_or}
use ukoos.ListHead.{Ptr, list_is_empty, list_push}
use ukoos.Align.{complement, align_up, is_aligned}
use ukoos.SizeClasses.{size_class_is_valid, size_of_size_class, log2_size_of_size_class}
use ukoos.Alloc.{Memory, Services, null, size_class_huge_sentinel, set_page}
use ukoos.Alloc.Bounds.{page_segment, page_bounds}
use ukoos.Alloc.Blocks.{block_ref_make, page_free_push}
use ukoos.Alloc.Direct.{pages_head, heap_update_pages_direct}

-- The cookie that a random word gives.
abbrev pub cookie_of : ℕ → ℕ
cookie_of r = bit_or (bit_and r (2 ^ 56 - 1)) 7

-- `page_init_common`, from the random word that it draws.
unfoldable pub page_init_fields : Ptr → ℕ → ℕ → Memory → Run Memory
page_init_fields page size_class r m = do
  let m' = set_page m page (record (m.pages page) { xor_cookie = cookie_of r })
  head ← block_ref_make m' page null
  ok (
      set_page m' page (record {
        free = head;
        local_free = head;
        remote = bit_and head (complement 1);
        used_blocks = 0;
        remote_free_length = 0;
        xor_cookie = cookie_of r;
        size_class = bit_and size_class 0x7f;
        in_full_list = false;
      }))

-- The array `blocks` when it is first filled, with the address at which the filling stops.
unfoldable pub fill_blocks : ℕ → ℕ → ℕ → ℕ → List ℕ × ℕ
fill_blocks zero size start stop = ([], start)
fill_blocks (suc left) size start stop =
    let (rest, end) = fill_blocks left size (start + size) stop in
    if start == stop then ([], start) else (start ∷ rest, end)

unfoldable pub push_blocks : Ptr → ℕ → List ℕ → Memory → Run Memory
push_blocks page size [] m = ok m
push_blocks page size (b ∷ bs) m = do m' ← page_free_push page b size m; push_blocks page size bs m'

module _ (services : Services) where
  open services use {World, random, random_u64}

  unfoldable pub page_init_common : Ptr → ℕ → Memory → World → Run (Memory × World)
  page_init_common page size_class m w = do
    assert (size_class_is_valid size_class || size_class == size_class_huge_sentinel)
    (r, w') ← random_u64 w
    m' ← page_init_fields page size_class r m
    ok (m', w')

  -- The loop with the full array of 16 blocks, and the loop that empties it.
  unfoldable pub mix_blocks : ℕ → Ptr → ℕ → ℕ → ℕ → List ℕ → Memory → World → Run (Memory × World)
  mix_blocks zero page size start stop blocks m w = out_of_fuel
  mix_blocks (suc fuel) page size start stop blocks m w = elim (start == stop) [
    | true ↦ (do m' ← push_blocks page size blocks m; ok (m', w))
    | false ↦ (do
      assert (ltb start stop)
      (r, w') ← random w
      let i = bit_and r 0xf
      m' ← page_free_push page (get_or blocks i 0) size m
      mix_blocks fuel page size (start + size) stop (set blocks i start) m' w')
  ]

  -- The loop for fewer than 16 blocks: the first `len` entries of the array are left.
  unfoldable pub drain_blocks : ℕ → Ptr → ℕ → List ℕ → Memory → World → Run (Memory × World)
  drain_blocks zero page size blocks m w = ok (m, w)
  drain_blocks (suc len) page size blocks m w = do
    (r, w') ← random w
    let i = r % suc len
    assert (not (get_or blocks i 0 == 0))
    m' ← page_free_push page (get_or blocks i 0) size m
    drain_blocks len page size (set blocks i (get_or blocks len 0)) m' w'

  -- The free list from the blocks between two addresses. The fuel is the distance and one more.
  unfoldable pub page_init_blocks : Ptr → ℕ → ℕ → ℕ → Memory → World → Run (Memory × World)
  page_init_blocks page size start stop m w = do
    let (blocks, start') = fill_blocks 16 size start stop
    assert (not (length blocks == 0))
    assert (leb start' stop)
    if length blocks == 16
        then mix_blocks (suc (stop - start')) page size start' stop blocks m w
        else drain_blocks (length blocks) page size blocks m w

  unfoldable pub page_init_small_or_large : Ptr → ℕ → Memory → World → Run (Memory × World)
  page_init_small_or_large page size_class m w = do
    unlinked ← list_is_empty m.lists page
    assert unlinked
    block_size ← size_of_size_class size_class
    (m₁, w₁) ← page_init_common page size_class m w
    (lo, stop) ← page_bounds m₁ page
    log2_size ← log2_size_of_size_class size_class
    let start = align_up lo log2_size
    assert (is_aligned start log2_size)
    assert (is_aligned stop log2_size)
    (m₂, w₂) ← page_init_blocks page block_size start stop m₁ w₁
    lists ← list_push m₂.lists (pages_head m₂ size_class) page
    m₃ ← heap_update_pages_direct size_class (record m₂ { lists = lists })
    ok (m₃, w₂)

  unfoldable pub page_init_huge : Ptr → ℕ → Memory → World → Run (Memory × World)
  page_init_huge page size m w = do
    unlinked ← list_is_empty m.lists page
    assert unlinked
    (m₁, w₁) ← page_init_common page size_class_huge_sentinel m w
    let start = (page_segment page + 2 * 2 ^ 12) % 2 ^ 64
    m₂ ← page_free_push page start (align_up size 12) m₁
    lists ← list_push m₂.lists (pages_head m₂ size_class_huge_sentinel) page
    ok (record m₂ { lists = lists }, w₁)
