-- ===== src/Alloc/Start.antt =====
-- src/kernel/mm/alloc/heap.c: a heap is set up on its first segment.
use ukoos.Prelude.{ℕ, zero, suc, ◌+◌, ◌==◌, not, Run, ok, ◌>>=◌, ◌>>◌, assert}
use ukoos.ListHead.{Ptr, list_init}
use ukoos.SizeClasses.{size_class_of_size}
use ukoos.Alloc.{Memory, Services, null}
use ukoos.Alloc.Direct.{pages_head, unused_pages, full_pages, size_of_pages_direct_index}
use ukoos.Alloc.Segments.{segment_init_small, page_new_small}

-- `LIST_INIT` of the heads of `left` classes from `c` on.
unfoldable pub init_heads : ℕ → ℕ → Memory → Memory
init_heads zero c m = m
init_heads (suc left) c m =
    init_heads left (c + 1) (record m { lists = list_init m.lists (pages_head m c) })

-- The heap at an address before its segment is there.
unfoldable pub heap_clear : Ptr → Memory → Memory
heap_clear base m =
    let m' = record m {
      heap = record {
        base = base;
        hart_id = m.hart_id;
        pages_direct = λ i. null;
        delayed_free = null;
      };
    } in
    init_heads 18 0
      (record m' { lists = list_init (list_init m'.lists (unused_pages m')) (full_pages m') })

-- The check of `left` entries of `pages_direct` from `i` on.
unfoldable pub check_pages_direct : ℕ → ℕ → Memory → Run (Unit {0})
check_pages_direct zero i m = ok tt
check_pages_direct (suc left) i m = do
  let page = (m.heap).pages_direct i
  assert (not (page == null))
  size ← size_of_pages_direct_index i
  c ← size_class_of_size size
  assert (c == (m.pages page).size_class)
  check_pages_direct left (i + 1) m

module _ (services : Services) where
  open services use {World}

  -- A new page for each of `left` classes from `c` on.
  unfoldable pub new_pages : ℕ → ℕ → Memory → World → Run (Memory × World)
  new_pages zero c m w = ok (m, w)
  new_pages (suc left) c m w = do
    (page, m', w') ← page_new_small services c m w
    assert (not (page == null))
    new_pages left (c + 1) m' w'

  unfoldable pub heap_init : Ptr → Ptr → Memory → World → Run (Memory × World)
  heap_init base segment m w = do
    m₁ ← segment_init_small segment (heap_clear base m)
    (m₂, w₂) ← new_pages 8 0 m₁ w
    check_pages_direct 128 0 m₂
    ok (m₂, w₂)
