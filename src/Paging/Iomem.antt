-- ===== src/Paging/Iomem.antt =====
-- src/kernel/arch/riscv64/paging.c: device memory is mapped into an area of the kernel's addresses.
use ukoos.Prelude.{
  ℕ, zero, suc, ◌+◌, ◌-◌, ◌/◌, ◌%◌, ◌^◌, Bool, true, false, not, ◌==◌, if◌then◌else◌, Run, ok,
  ◌>>=◌, ◌>>◌, assert,
}
use ukoos.Align.{align_up, align_down_paddr, paddr_diff, paddr_offset}
use ukoos.Treap.{Ptr}
use ukoos.VirtualAlloc.{VmaAllocator, vma_alloc, vma_find, vma_lo, vma_hi}
use ukoos.VirtualAlloc.Areas.{vma_free}
use ukoos.Paging.{PagingState, krw, mm_paging_map, mm_paging_unmap}

-- The page tables, and the areas of `kernel_virtual_allocator`.
pub record KernelMemory : Type 0 where
  pub paging : PagingState
  pub areas : VmaAllocator

-- The rounds of a loop from 0 up to `len` in steps of a page.
abbrev pub page_rounds : ℕ → ℕ
page_rounds len = (len + 4095) / 4096

-- The loop that maps, of `left` rounds from the offset `i` on: whether it came to its end, and the
-- offset at which it stopped.
unfoldable pub map_range : ℕ → ℕ → ℕ → ℕ → PagingState → Run (Bool × ℕ × PagingState)
map_range zero lo addr i s = ok (true, i, s)
map_range (suc left) lo addr i s = do
  pa ← paddr_offset addr i
  (done, s') ← mm_paging_map (lo + i) pa krw s
  elim done [ true ↦ map_range left lo addr (i + 4096) s' | false ↦ ok (false, i, s') ]

-- The loops that unmap, of `left` rounds from the offset `i` on.
unfoldable pub unmap_range : ℕ → ℕ → ℕ → PagingState → Run PagingState
unmap_range zero lo i s = ok s
unmap_range (suc left) lo i s = do
  (done, pa, s') ← mm_paging_unmap (lo + i) s
  assert done
  unmap_range left lo (i + 4096) s'

abbrev pub area_len : VmaAllocator → Ptr → ℕ
area_len areas vma = (vma_hi areas vma + 2 ^ 64 - vma_lo areas vma) % 2 ^ 64

-- The pointer, or null. The fuel is that of the search for an area.
unfoldable pub iomem_map : ℕ → ℕ → ℕ → KernelMemory → Run (Ptr × KernelMemory)
iomem_map fuel addr size k = do
  addr_aligned ← align_down_paddr addr 12
  offset ← paddr_diff addr addr_aligned
  let len = align_up ((size + offset) % 2 ^ 64) 12
  (vma, areas) ← vma_alloc fuel (len / 2 ^ 12) k.areas
  if vma == 0 then ok (0, record k { areas = areas }) else (do
    let lo = vma_lo areas vma
    (done, i, s) ← map_range (page_rounds (area_len areas vma)) lo addr_aligned 0 k.paging
    if done then ok (lo, record { paging = s; areas = areas }) else (do
      s' ← unmap_range (page_rounds i) lo 0 s
      ok (0, record { paging = s'; areas = areas })))

unfoldable pub iomem_unmap : ℕ → Ptr → KernelMemory → Run KernelMemory
iomem_unmap fuel ptr k = if ptr == 0 then ok k else (do
  vma ← vma_find fuel ptr k.areas
  assert (not (vma == 0))
  s ← unmap_range (page_rounds (area_len k.areas vma)) (vma_lo k.areas vma) 0 k.paging
  areas ← vma_free fuel vma k.areas
  ok (record { paging = s; areas = areas }))
