-- ===== src/VirtualAlloc/Areas.antt =====
-- src/kernel/mm/virtual_alloc.c: allocation at a given address, at an aligned address, and the
-- freeing of an area, which merges it with its free neighbours.
use ukoos.Prelude.{
  ℕ, ◌+◌, ◌-◌, ◌*◌, ◌/◌, ◌%◌, ◌^◌, Bool, false, ◌&&◌, not, leb, ltb, ◌==◌, if◌then◌else◌, Run, ok,
  ◌>>=◌, ◌>>◌, assert,
}
use ukoos.ListHead.{list_unshift, list_remove}
use ukoos.Treap.{Ptr}
use ukoos.Align.{is_aligned, align_up}
use ukoos.VirtualAlloc.{
  VmaAllocator, alloc, insert_by_addr, insert_by_size, remove_by_addr, remove_by_size, set_size,
  vma_lo, vma_hi, is_vma_free, vma_init, vma_find, vma_alloc,
}

-- `vma->list_head.prev` and `next` of an area, or `nullptr` where that is the allocator.
abbrev neighbour : VmaAllocator → Ptr → Ptr
neighbour st p = if p == st.vmas then 0 else p

abbrev is_free_area : VmaAllocator → Ptr → Bool
is_free_area st p = if p == 0 then false else is_vma_free st p

-- A new area of `vma_alloc_by_addr`, put behind `prev` in the list and into the treap by address.
unfoldable pub place : ℕ → ℕ → ℕ → Ptr → Ptr → VmaAllocator → Run VmaAllocator
unfolding vma_init
place fuel lo hi prev vma st = do
  st₁ ← vma_init lo hi vma st
  links ← list_unshift st₁.links prev vma
  insert_by_addr fuel vma (record st₁ { links = links })

unfoldable pub place_free : ℕ → ℕ → ℕ → Ptr → Ptr → VmaAllocator → Run VmaAllocator
unfolding place
place_free fuel lo hi prev vma st =
    if vma == 0 then ok st else (do st' ← place fuel lo hi prev vma st; insert_by_size fuel vma st')

-- The area is replaced by what is below `lo`, the range itself, and what is above `hi`.
unfoldable pub carve : ℕ → ℕ → ℕ → Ptr → Ptr → Ptr → VmaAllocator → Run (Ptr × VmaAllocator)
unfolding vma_hi place place_free
carve fuel lo hi vma new_lo new_hi st = do
  let old_lo = vma_lo st vma
  let old_hi = vma_hi st vma
  let prev = (st.links vma).prev
  links ← list_remove st.links vma
  st₁ ← remove_by_addr fuel vma (record st { links = links })
  st₂ ← remove_by_size fuel vma st₁
  st₃ ← place_free fuel hi old_hi prev new_hi st₂
  st₄ ← place fuel lo hi prev vma st₃
  st₅ ← place_free fuel old_lo lo prev new_lo st₄
  ok (vma, st₅)

unfoldable pub vma_alloc_by_addr : ℕ → ℕ → ℕ → VmaAllocator → Run (Ptr × VmaAllocator)
unfolding vma_find carve
vma_alloc_by_addr fuel lo hi st = do
  assert (is_aligned lo 12 && is_aligned hi 12)
  assert (ltb lo hi)
  vma ← vma_find fuel lo st
  let needs_lo = not (vma_lo st vma == lo)
  let needs_hi = not (vma_hi st vma == hi)
  let (new_lo, st₁) : Ptr × VmaAllocator = if needs_lo then alloc st else (0, st)
  let (new_hi, st₂) : Ptr × VmaAllocator = if needs_hi then alloc st₁ else (0, st₁)
  let done = carve fuel lo hi vma new_lo new_hi st₂
  if vma == 0
      then ok (0, st)
      else if not (is_vma_free st vma)
      then ok (0, st)
      else if ltb (vma_hi st vma) hi
      then ok (0, st)
      else if needs_lo && (new_lo == 0)
      then ok (0, st₁)
      else if needs_hi && (new_hi == 0)
      then ok (0, st₂)
      else done

unfoldable pub vma_merge : ℕ → Ptr → VmaAllocator → Run VmaAllocator
unfolding vma_hi is_vma_free
vma_merge fuel vma st = do
  let next = (st.links vma).next
  assert (is_vma_free st vma)
  assert (is_vma_free st next)
  let lo = vma_lo st vma
  let hi = vma_hi st next
  links ← list_remove st.links next
  st₁ ← remove_by_addr fuel next (record st { links = links })
  st₂ ← remove_by_size fuel next st₁
  st₃ ← remove_by_size fuel vma st₂
  insert_by_size fuel vma
      (set_size vma ((((hi + 2 ^ 64 - lo) % 2 ^ 64 / 2 ^ 12) + 2 ^ 64 - 1) % 2 ^ 32) st₃)

unfoldable pub vma_free : ℕ → Ptr → VmaAllocator → Run VmaAllocator
unfolding vma_merge
vma_free fuel vma st = if vma == 0 then ok st else (do
  assert (not (is_vma_free st vma))
  st₁ ← insert_by_size fuel vma st
  let prev = neighbour st₁ (st₁.links vma).prev
  let next = neighbour st₁ (st₁.links vma).next
  let merged = vma_merge fuel vma st₁
  st₂ ← if is_free_area st₁ next then merged else ok st₁
  let merged' = vma_merge fuel prev st₂
  if is_free_area st₂ prev then merged' else ok st₂)

unfoldable pub vma_alloc_aligned : ℕ → ℕ → ℕ → VmaAllocator → Run (Ptr × VmaAllocator)
unfolding vma_alloc vma_alloc_by_addr vma_free vma_lo
vma_alloc_aligned fuel num_pages align_bits st = do
  assert (leb 12 align_bits)
  (vma, st₁) ← vma_alloc fuel num_pages st
  let again = (do
    st₂ ← vma_free fuel vma st₁
    (vma', st₃) ← vma_alloc fuel (num_pages + 2 ^ (align_bits - 12)) st₂
    let carved = (do
      let addr = align_up (vma_lo st₃ vma') align_bits
      st₄ ← vma_free fuel vma' st₃
      out ← vma_alloc_by_addr fuel addr ((addr + num_pages * 2 ^ 12) % 2 ^ 64) st₄
      assert (not (out.0 == 0))
      ok out)
    if vma' == 0 then ok (0, st₃) else carved)
  if vma == 0
      then ok (0, st₁)
      else if is_aligned (vma_lo st₁ vma) align_bits
      then ok (vma, st₁)
      else again
