-- ===== src/VirtualAlloc.antt =====
-- src/kernel/mm/virtual_alloc.c: the allocator of virtual address ranges, over the list of all its
-- areas (`struct vma`) in the order of their addresses and its two treaps. One allocator is
-- modelled. A `struct vma` begins with its `struct list_head`, and so does the allocator: one
-- address stands for both. What `alloc` of mm/alloc.c returns is a list in the state, and so are
-- the numbers that `random_u32` draws.
pub mod Areas
pub mod Find
pub mod Fit
pub mod Tests
use ukoos.Prelude.{
  ℕ, zero, suc, ◌+◌, ◌-◌, ◌*◌, ◌/◌, ◌%◌, ◌^◌, Bool, true, false, ◌&&◌, ◌||◌, not, leb, ltb, ◌==◌,
  if◌then◌else◌, List, [], ◌∷◌, Run, ok, panic, out_of_fuel, ◌>>=◌, ◌>>◌, assert,
}
use ukoos.ListHead.{Store, list_init, list_push, list_unshift, list_remove}
use ukoos.Treap.{
  Ptr, Side, left, right, TreapHead, child, Heads, Treap, update, treap_init, treap_insert,
  treap_remove,
}
use ukoos.Align.{is_aligned, align_up}

pub record VmaAllocator : Type 0 where
  pub vmas : Ptr
  pub links : Store
  pub lo_address : ℕ
  pub hi_address : ℕ
  pub by_addr : Treap
  pub by_size : Treap
  pub allocs : List Ptr
  pub draws : List ℕ

-- `nullptr`, once there is no memory left.
abbrev next_alloc : List Ptr → Ptr × List Ptr
next_alloc [] = (0, [])
next_alloc (p ∷ ps) = (p, ps)

abbrev pub alloc : VmaAllocator → Ptr × VmaAllocator
alloc st = let r = next_alloc st.allocs in (r.0, record st { allocs = r.1 })

abbrev pub insert_by_addr : ℕ → Ptr → VmaAllocator → Run VmaAllocator
insert_by_addr fuel vma st = do
  r ← treap_insert fuel vma st.draws st.by_addr
  ok (record st { by_addr = r.0; draws = r.1 })

abbrev pub insert_by_size : ℕ → Ptr → VmaAllocator → Run VmaAllocator
insert_by_size fuel vma st = do
  r ← treap_insert fuel vma st.draws st.by_size
  ok (record st { by_size = r.0; draws = r.1 })

abbrev pub remove_by_addr : ℕ → Ptr → VmaAllocator → Run VmaAllocator
remove_by_addr fuel vma st = do t ← treap_remove fuel vma st.by_addr; ok (record st { by_addr = t })

abbrev pub remove_by_size : ℕ → Ptr → VmaAllocator → Run VmaAllocator
remove_by_size fuel vma st = do t ← treap_remove fuel vma st.by_size; ok (record st { by_size = t })

-- `vma->treaps[BY_SIZE].value = size`.
abbrev pub set_size : Ptr → ℕ → VmaAllocator → VmaAllocator
set_size vma size st = record st {
  by_size = record (st.by_size) {
    heads = update vma (λ h. record h { value = size }) (st.by_size.heads);
  };
}

unfoldable pub vma_size : VmaAllocator → Ptr → ℕ
vma_size st vma = ((st.by_size.heads vma).value + 1) * 2 ^ 12 % 2 ^ 64

-- The two addresses that `vma_bounds` writes.
unfoldable pub vma_lo : VmaAllocator → Ptr → ℕ
vma_lo st vma = (st.lo_address + (st.by_addr.heads vma).value * 2 ^ 12 % 2 ^ 64) % 2 ^ 64

unfoldable pub vma_hi : VmaAllocator → Ptr → ℕ
unfolding vma_lo vma_size
vma_hi st vma = (vma_lo st vma + vma_size st vma) % 2 ^ 64

unfoldable pub is_vma_free : VmaAllocator → Ptr → Bool
is_vma_free st vma = not ((st.by_size.heads vma).priority == 0)

unfoldable pub vma_init : ℕ → ℕ → Ptr → VmaAllocator → Run VmaAllocator
vma_init lo hi out st = do
  assert (is_aligned lo 12 && is_aligned hi 12)
  assert (ltb lo hi)
  assert (leb st.lo_address lo)
  let addr = lo - st.lo_address
  let size = hi - lo
  assert (leb (addr / 2 ^ 12) (2 ^ 32 - 1))
  assert (leb (size / 2 ^ 12 - 1) (2 ^ 32 - 1))
  ok (record st {
    links = list_init st.links out;
    by_addr = record (st.by_addr) {
      heads = treap_init out (addr / 2 ^ 12 % 2 ^ 32) (st.by_addr.heads);
    };
    by_size = record (st.by_size) {
      heads = treap_init out ((size / 2 ^ 12 - 1) % 2 ^ 32) (st.by_size.heads);
    };
  })

unfoldable pub vma_allocator_init : ℕ → ℕ → ℕ → VmaAllocator → Run (Bool × VmaAllocator)
unfolding vma_init
vma_allocator_init fuel lo hi st₀ = do
  assert (is_aligned lo 12 && is_aligned hi 12)
  assert (ltb lo hi)
  assert (leb hi 274877906944 || leb 18446743798831644672 lo)
  assert (leb (hi - lo) (2 ^ 44))
  let (vma, st) = alloc st₀
  let st₁ : VmaAllocator = record st {
    links = list_init st.links st.vmas;
    lo_address = lo;
    hi_address = hi;
    by_addr = record (st.by_addr) { root = 0 };
    by_size = record (st.by_size) { root = 0 };
  }
  if vma == 0 then ok (false, st) else (do
    st₂ ← vma_init lo hi vma st₁
    links ← list_push st₂.links st₂.vmas vma
    st₃ ← insert_by_addr fuel vma (record st₂ { links = links })
    st₄ ← insert_by_size fuel vma st₃
    ok (true, st₄))

unfoldable pub vma_allocator_new : ℕ → ℕ → ℕ → VmaAllocator → Run (Ptr × VmaAllocator)
unfolding vma_allocator_init
vma_allocator_new fuel lo hi st = do
  let (allocator, st₁) = alloc st
  if allocator == 0 then ok (0, st₁) else (do
    r ← vma_allocator_init fuel lo hi (record st₁ { vmas = allocator })
    ok (if r.0 then allocator else 0, r.1))

-- The loop of `vma_find`: the area with the address, or `nullptr`.
unfoldable pub find_loop : ℕ → ℕ → Ptr → VmaAllocator → Run Ptr
unfolding vma_hi
find_loop zero addr vma st = out_of_fuel
find_loop (suc fuel) addr vma st =
    let below = find_loop fuel addr (st.by_addr.heads vma).left_child st in
    let above = find_loop fuel addr (st.by_addr.heads vma).right_child st in
    if vma == 0
    then ok vma
    else if ltb addr (vma_lo st vma)
    then below
    else if leb (vma_hi st vma) addr
    then above
    else ok vma

unfoldable pub vma_find : ℕ → ℕ → VmaAllocator → Run Ptr
unfolding find_loop
vma_find fuel addr st = do
  assert (leb st.lo_address addr && ltb addr st.hi_address)
  vma ← find_loop fuel addr st.by_addr.root st
  assert (not (vma == 0))
  ok vma

-- The loop of `vma_alloc`: the smallest free area that is large enough, or `nullptr`.
unfoldable pub fit_loop : ℕ → ℕ → Ptr → Ptr → VmaAllocator → Run Ptr
unfolding vma_size
fit_loop zero wanted vma best st = out_of_fuel
fit_loop (suc fuel) wanted vma best st =
    let larger = fit_loop fuel wanted (st.by_size.heads vma).right_child best st in
    let smaller = fit_loop fuel wanted (st.by_size.heads vma).left_child vma st in
    if vma == 0
    then ok best
    else if ltb (vma_size st vma) wanted
    then larger
    else if ltb wanted (vma_size st vma)
    then smaller
    else ok vma

-- The area is cut to the wanted size, and the rest of it is a free area behind it. Without
-- memory for that one the code is at its `TODO`, which panics.
unfoldable pub split : ℕ → ℕ → Ptr → VmaAllocator → Run (Ptr × VmaAllocator)
unfolding vma_hi vma_init
split fuel wanted vma st₀ = do
  let (new_vma, st) = alloc st₀
  let old_hi = vma_hi st vma
  if new_vma == 0 then panic else (do
    st₁ ← remove_by_size fuel vma st
    let st₂ = set_size vma ((wanted / 2 ^ 12 - 1) % 2 ^ 32) st₁
    st₃ ← vma_init (vma_hi st₂ vma) old_hi new_vma st₂
    links ← list_unshift st₃.links vma new_vma
    st₄ ← insert_by_addr fuel new_vma (record st₃ { links = links })
    st₅ ← insert_by_size fuel new_vma st₄
    ok (vma, st₅))

unfoldable pub vma_alloc : ℕ → ℕ → VmaAllocator → Run (Ptr × VmaAllocator)
unfolding fit_loop split
vma_alloc fuel num_pages st = do
  assert (ltb 0 num_pages && leb num_pages (2 ^ 26))
  let wanted = num_pages * 2 ^ 12
  vma ← fit_loop fuel wanted st.by_size.root 0 st
  let whole = (do st' ← remove_by_size fuel vma st; ok (vma, st'))
  if vma == 0
      then ok (0, st)
      else if ltb wanted (vma_size st vma)
      then split fuel wanted vma st
      else whole
