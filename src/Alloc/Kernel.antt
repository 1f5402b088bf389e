-- ===== src/Alloc/Kernel.antt =====
-- src/kernel/mm/alloc/segment.c: the range of a segment over the virtual address allocator, the page
-- tables and the physical page allocator, and the random numbers of random.c, put together as what
-- the allocator takes from the rest of the kernel.
use ukoos.Prelude.{
  ℕ, zero, suc, ◌+◌, ◌/◌, ◌^◌, not, ◌||◌, ◌==◌, if◌then◌else◌, Run, ok, panic, ◌>>=◌, ◌>>◌, assert,
}
use ukoos.SizeClasses.{size_is_huge}
use ukoos.PhysicalAlloc.{mm_alloc_physical, mm_free_physical}
use ukoos.VirtualAlloc.{vma_find, vma_lo}
use ukoos.VirtualAlloc.Areas.{vma_alloc_aligned, vma_free}
use ukoos.Paging.{PagingState, krw, mm_paging_map, mm_paging_unmap}
use ukoos.Paging.Iomem.{KernelMemory, area_len, page_rounds}
use ukoos.Random.{Random, random, random_u64}
use ukoos.Alloc.{Services, segment_shift, page_shift_huge}
use ukoos.ListHead.{Ptr}

pub record KernelWorld : Type 0 where
  pub memory : KernelMemory
  pub random : Random

-- The loop that maps a frame at each of `left` pages from `va` on. Running out of memory is `TODO`,
-- which panics.
unfoldable pub map_frames : ℕ → ℕ → PagingState → Run PagingState
map_frames zero va s = ok s
map_frames (suc left) va s = do
  r ← mm_alloc_physical 0 s.physical
  if not r.found then panic else (do
    (done, s') ← mm_paging_map va r.out krw (record s { physical = r.state })
    if not done then panic else map_frames left (va + 2 ^ 12) s')

-- The loop that unmaps and frees the frame of each of `left` pages from `va` on.
unfoldable pub free_frames : ℕ → ℕ → PagingState → Run PagingState
free_frames zero va s = ok s
free_frames (suc left) va s = do
  (done, pa, s') ← mm_paging_unmap va s
  assert done
  p ← mm_free_physical pa s'.physical
  free_frames left (va + 2 ^ 12) (record s' { physical = p })

-- The alignment of the segment is asserted by `segment_alloc`, which calls this.
unfoldable pub map_segment : ℕ → ℕ → KernelMemory → Run (Ptr × KernelMemory)
map_segment fuel size k = do
  (vma, areas) ← vma_alloc_aligned fuel (size / 2 ^ 12) segment_shift k.areas
  if vma == 0 then ok (0, record k { areas = areas }) else (do
    let start = vma_lo areas vma
    assert (area_len areas vma == size)
    s ← map_frames (page_rounds size) start k.paging
    ok (start, record { paging = s; areas = areas }))

unfoldable pub unmap_segment : ℕ → Ptr → ℕ → KernelMemory → Run KernelMemory
unmap_segment fuel segment page_shift k = do
  vma ← vma_find fuel segment k.areas
  assert (not (vma == 0))
  assert (vma_lo k.areas vma == segment)
  let len = area_len k.areas vma
  assert (size_is_huge len)
  assert (page_shift == page_shift_huge || len == 2 ^ segment_shift)
  s ← free_frames (page_rounds len) segment k.paging
  areas ← vma_free fuel vma k.areas
  ok (record { paging = s; areas = areas })

-- The fuel is that of the searches for an area.
abbrev pub kernel_services : ℕ → Services
kernel_services fuel = record {
  World = KernelWorld;
  random = λ w. (do (r, next) ← random w.random; ok (r, record w { random = next }));
  random_u64 = λ w. (do (r, next) ← random_u64 w.random; ok (r, record w { random = next }));
  map_segment = λ size w. (do
    (segment, memory) ← map_segment fuel size w.memory
    ok (segment, record w { memory = memory }));
  unmap_segment = λ segment page_shift w. (do
    memory ← unmap_segment fuel segment page_shift w.memory
    ok (record w { memory = memory }));
}
