-- ===== src/Alloc.antt =====
-- src/kernel/mm/alloc/: the memory that the allocator works on. A page's `list` is its first field,
-- so that a page and its list node have one address, and `container_of` changes nothing. The blocks
-- are memory that is read and written in aligned words of 8 bytes, under the word's address.
pub mod Bounds
pub mod Blocks
pub mod FreeList
pub mod Push
pub mod Direct
pub mod Init
pub mod Multiset
pub mod Shuffle
pub mod Fill
pub mod Segments
pub mod Start
pub mod Malloc
pub mod Take
pub mod Emptied
pub mod Shrink
pub mod Kernel
pub mod Tests
use ukoos.Prelude.{ℕ, ◌+◌, ◌-◌, ◌*◌, ◌<◌, Bool, ◌&&◌, leb, ltb, ◌==◌, if◌then◌else◌, Run, ok}
use ukoos.ListHead.{Ptr, Store}

-- `remote` is the word of the union's `bits`: the flag `needs_delayed_free` is its lowest bit.
pub record Page : Type 0 where
  pub free : ℕ
  pub local_free : ℕ
  pub remote : ℕ
  pub used_blocks : ℕ
  pub remote_free_length : ℕ
  pub xor_cookie : ℕ
  pub size_class : ℕ
  pub in_full_list : Bool

pub record Segment : Type 0 where
  pub hart_id : ℕ
  pub used_pages : ℕ
  pub page_shift : ℕ

-- `base` is the address of the heap itself.
pub record Heap : Type 0 where
  pub base : Ptr
  pub hart_id : ℕ
  pub pages_direct : ℕ → Ptr
  pub delayed_free : Ptr

-- `hart_id` and `heap` are those of the locals of the hart that runs.
pub record Memory : Type 0 where
  pub lists : Store
  pub pages : Ptr → Page
  pub segments : Ptr → Segment
  pub words : ℕ → ℕ
  pub hart_id : ℕ
  pub heap : Heap

abbrev pub page_shift_small : ℕ
page_shift_small = 16

abbrev pub page_shift_large : ℕ
page_shift_large = 22

abbrev pub page_shift_huge : ℕ
page_shift_huge = 14

abbrev pub segment_shift : ℕ
segment_shift = 22

abbrev pub size_class_huge_sentinel : ℕ
size_class_huge_sentinel = 17

-- `offsetof(struct mm_alloc_segment, pages)` and `sizeof(struct mm_alloc_page)`.
abbrev pub pages_offset : ℕ
pages_offset = 24

abbrev pub page_size : ℕ
page_size = 56

-- `null`, and the writes `*page = g` and `*word = v`.
abbrev pub null : Ptr
null = 0

unfoldable pub set_page : Memory → Ptr → Page → Memory
set_page m p g = record m { pages = λ q. if q == p then g else m.pages q }

unfoldable pub set_segment : Memory → Ptr → Segment → Memory
set_segment m s g = record m { segments = λ q. if q == s then g else m.segments q }

unfoldable pub set_word : Memory → ℕ → ℕ → Memory
set_word m a v = record m { words = λ b. if b == a then v else m.words b }

-- `bzero(addr, len)` on the memory of the blocks.
unfoldable pub bzero : Memory → ℕ → ℕ → Memory
bzero m addr len = record m {
  words = λ b. if leb addr b && ltb b (addr + len) then 0 else m.words b;
}

-- `memcpy(to, from, len)` of words that do not overlap.
unfoldable pub memcpy : Memory → ℕ → ℕ → ℕ → Memory
memcpy m to from len = record m {
  words = λ b. if leb to b && ltb b (to + len) then m.words (from + (b - to)) else m.words b;
}

-- What the allocator takes from other parts of the kernel, with the state that they keep: the two
-- draws of random.c; the reserved and mapped range of `segment_alloc`, of so many bytes, or null
-- where no address range is left; and, from the segment and its `page_shift`, the unmapping and
-- release of the range in `segment_free`. Alloc/Kernel puts the parts of the kernel in.
pub record Services : Type 1 where
  pub World : Type 0
  pub random : World → Run (ℕ × World)
  pub random_u64 : World → Run (ℕ × World)
  pub map_segment : ℕ → World → Run (Ptr × World)
  pub unmap_segment : Ptr → ℕ → World → Run World
