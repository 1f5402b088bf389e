-- ===== src/PhysicalAlloc.antt =====
-- src/kernel/mm/physical_alloc.c and the accesses of src/kernel/arch/riscv64/physical.c that it
-- makes: the allocator of physical pages. Memory is the 64-bit word at each address that is a
-- multiple of 8; a `struct physical_free_list` takes two of them. A static variable is a field of
-- the state, and a pointer to one of the two heads is a `Zone`.
pub mod FreeList
pub mod Lists
pub mod Pages
pub mod Pool
pub mod Reserve
pub mod Tests
use ukoos.Prelude.{
  ℕ, ◌+◌, ◌-◌, ◌/◌, ◌^◌, Bool, true, false, ltb, leb, ◌==◌, if◌then◌else◌, Run, ok, panic,
  out_of_fuel, ◌>>=◌, ◌>>◌, assert, bit_and,
}
use ukoos.Align.{
  bits_of_paddr, paddr_of_bits, paddr_offset, paddr_diff, align_down_paddr, align_up_paddr,
}

abbrev pub Memory : Type 0
Memory = ℕ → ℕ

pub record Link : Type 0 where
  pub next : ℕ
  pub length : ℕ

pub data Zone : Type 0 where
  above_4g : Zone
  below_4g : Zone

pub record PhysicalState : Type 0 where
  pub memory : Memory
  pub free_list_head_above_4g : ℕ
  pub free_list_head_below_4g : ℕ

-- The value of `*free_list_head`, and a write to it.
abbrev pub free_list_head : Zone → PhysicalState → ℕ
free_list_head above_4g s = s.free_list_head_above_4g
free_list_head below_4g s = s.free_list_head_below_4g

abbrev pub set_free_list_head : Zone → ℕ → PhysicalState → PhysicalState
set_free_list_head z v s = record {
  memory = s.memory;
  free_list_head_above_4g = elim z [ above_4g ↦ v | below_4g ↦ s.free_list_head_above_4g ];
  free_list_head_below_4g = elim z [ above_4g ↦ s.free_list_head_below_4g | below_4g ↦ v ];
}

abbrev pub set_memory : Memory → PhysicalState → PhysicalState
set_memory m s = record {
  memory = m;
  free_list_head_above_4g = s.free_list_head_above_4g;
  free_list_head_below_4g = s.free_list_head_below_4g;
}

abbrev pub page_size : ℕ
page_size = 4096

-- `physical_map_end - physical_map_start`.
abbrev pub physical_map_len : ℕ
physical_map_len = 0xffffffe000000000 - 0xffffffc000000000

-- The offset into the mapping, where the access is within bounds.
unfoldable pub ptr_of_paddr : ℕ → ℕ → Run ℕ
unfolding paddr_offset bits_of_paddr
ptr_of_paddr paddr len = do
  end ← paddr_offset paddr len
  e ← bits_of_paddr end
  assert (leb e physical_map_len)
  bits_of_paddr paddr

unfoldable pub store_word : Memory → ℕ → ℕ → Memory
store_word m address v a = if a == address then v else m a

-- `copy_to_physical` and `copy_from_physical` of one `struct physical_free_list`.
unfoldable pub copy_to_physical : ℕ → Link → Memory → Run Memory
unfolding ptr_of_paddr store_word
copy_to_physical dst link m = do
  p ← ptr_of_paddr dst 16
  ok (store_word (store_word m p link.next) (p + 8) link.length)

unfoldable pub copy_from_physical : ℕ → Memory → Run Link
unfolding ptr_of_paddr
copy_from_physical src m = do
  p ← ptr_of_paddr src 16
  ok (record { next = m p; length = m (p + 8) })

unfoldable pub physical_free_list_push : ℕ → ℕ → Zone → PhysicalState → Run PhysicalState
unfolding copy_to_physical
physical_free_list_push length start z s = do
  m ← copy_to_physical start (record { next = free_list_head z s; length = length }) s.memory
  ok (set_free_list_head z start (set_memory m s))

-- What `physical_free_list_pop` answers, what it leaves in `*out`, and the state after it.
pub record Popped : Type 0 where
  pub found : Bool
  pub out : ℕ
  pub state : PhysicalState

-- The case where the link has pages left.
unfoldable pub advance_head : Zone → Link → PhysicalState → Run PhysicalState
unfolding paddr_offset copy_to_physical
advance_head z link s = do
  head ← paddr_offset (free_list_head z s) page_size
  m ← copy_to_physical head (record { next = link.next; length = link.length - 1 }) s.memory
  ok (set_free_list_head z head (set_memory m s))

unfoldable pub physical_free_list_pop : Zone → PhysicalState → Run Popped
unfolding bits_of_paddr copy_from_physical advance_head
physical_free_list_pop z s = do
  out ← ok (free_list_head z s)
  bits ← bits_of_paddr out
  if bits == 0 then ok (record { found = false; out = out; state = s }) else (do
    link ← copy_from_physical (free_list_head z s) s.memory
    assert (ltb 0 link.length)
    s' ← (if link.length == 1 then ok (set_free_list_head z link.next s) else advance_head z link s)
    ok (record { found = true; out = out; state = s' }))

unfoldable pub mm_alloc_physical : ℕ → PhysicalState → Run Popped
unfolding physical_free_list_pop
mm_alloc_physical flags s =
    if bit_and flags 1 == 0
    then (do
      r ← physical_free_list_pop above_4g s
      if r.found then ok r else physical_free_list_pop below_4g r.state)
    else physical_free_list_pop below_4g s

unfoldable pub mm_free_physical : ℕ → PhysicalState → Run PhysicalState
unfolding bits_of_paddr physical_free_list_push
mm_free_physical frame s = do
  bits ← bits_of_paddr frame
  assert (ltb 0 bits)
  if leb (2 ^ 32) bits
      then physical_free_list_push 1 frame above_4g s
      else physical_free_list_push 1 frame below_4g s

-- The number of pages between two page boundaries.
unfoldable pub pages_between : ℕ → ℕ → Run ℕ
unfolding paddr_diff
pages_between start end = do d ← paddr_diff end start; ok (d / 2 ^ 12)

unfoldable pub add_physical_chunk : ℕ → ℕ → PhysicalState → Run PhysicalState
unfolding align_up_paddr align_down_paddr bits_of_paddr paddr_of_bits pages_between
    physical_free_list_push
add_physical_chunk start end s = do
  start' ← align_up_paddr start 12
  end' ← align_down_paddr end 12
  b ← bits_of_paddr start'
  e ← bits_of_paddr end'
  if leb e b
      then ok s
      else if leb (2 ^ 32) b
      then (do n ← pages_between start' end'; physical_free_list_push n start' above_4g s)
      else if leb (2 ^ 32) e
      then (do
        border ← paddr_of_bits (2 ^ 32)
        n ← pages_between start' border
        s' ← physical_free_list_push n start' below_4g s
        k ← pages_between border end'
        physical_free_list_push k border above_4g s')
      else (do n ← pages_between start' end'; physical_free_list_push n start' below_4g s)
