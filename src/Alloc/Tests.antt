-- ===== src/Alloc/Tests.antt =====
-- The allocator on a segment with two pages in use.
use ukoos.Prelude.{
  ℕ, ◌+◌, ◌-◌, ◌*◌, ◌%◌, ◌^◌, ◌≡◌, refl, true, false, ◌==◌, if◌then◌else◌, [], arith, ok, panic,
  Yields, ◌>>=◌,
}
use ukoos.ListHead.{Ptr}
use ukoos.Align.{align_down, is_aligned}
use ukoos.SizeClasses.{
  size_class_is_valid, size_class_of_size, size_of_size_class, log2_size_of_size_class,
}
use ukoos.Alloc.{Page, Memory, Services, null, set_page, set_word, memcpy}
use ukoos.Alloc.Bounds.{
  segment_of_ptr, page_segment, page_at, page_index, page_bounds, page_in_bounds, page_of_ptr,
  page_is_empty,
}
use ukoos.Alloc.Blocks.{
  page_free_push, page_free_pop, page_local_free_push, page_push, block_ref_make, block_ref_deref,
  block_ref_is_valid,
}
use ukoos.Alloc.FreeList.{IsBlock}
use ukoos.Alloc.Push.{Pushes, page_free_push-cons}
use ukoos.Alloc.Multiset.{spread}
use ukoos.Alloc.Init.{page_init_blocks}
use ukoos.Alloc.Shuffle.{Filled}
use ukoos.Alloc.Fill.{page_init_blocks-Filled}
use ukoos.Alloc.Direct.{pages_direct_index_of_size}
use ukoos.Alloc.Malloc.{alloc, alloc_small, realloc, free, used_blocks_inc}
use ukoos.Alloc.Take.{Takes, alloc_small-cons}
use ukoos.Alloc.Emptied.{alloc_small-emptied}
use ukoos.Alloc.Shrink.{realloc-overflow}

abbrev first_segment : Ptr
first_segment = 0xffffffe000000000

-- The pages of index 1 and 2, and the first blocks of each.
abbrev page_one : Ptr
page_one = 0xffffffe000000050

abbrev page_two : Ptr
page_two = 0xffffffe000000088

abbrev block_one : ℕ
block_one = 0xffffffe000010000

abbrev block_two : ℕ
block_two = 0xffffffe000020000

abbrev sample_cookie : ℕ
sample_cookie = 0x1234567

-- A page of a class with nothing in its free list.
abbrev page_of_class : ℕ → ℕ → Page
page_of_class c used = record {
  free = sample_cookie;
  local_free = sample_cookie;
  remote = sample_cookie - 1;
  used_blocks = used;
  remote_free_length = 0;
  xor_cookie = sample_cookie;
  size_class = c;
  in_full_list = false;
}

abbrev heap_base : Ptr
heap_base = 0xffffffff80000000

abbrev class_three : Ptr
class_three = 0xffffffff80000438

-- The page of 64-byte objects is the only one in its list, and the page of 8-byte objects has one
-- free block.
abbrev sample : ℕ → Memory
sample used = record {
  lists = λ p.
      if p == class_three
      then record { prev = page_one; next = page_one }
      else if p == page_one
      then record { prev = class_three; next = class_three }
      else record { prev = p; next = p };
  pages = λ p.
      if p == page_one
      then page_of_class 3 used
      else record (page_of_class 0 0) { free = 0xffffffe001214567 };
  segments = λ s. record { hart_id = 0; used_pages = 2; page_shift = 16 };
  words = λ a. sample_cookie;
  hart_id = 0;
  heap = record {
    base = heap_base;
    hart_id = 0;
    pages_direct = λ i. if i == 0 then page_two else page_one;
    delayed_free = 0;
  };
}

abbrev sample_services : Services
sample_services = record {
  World = ℕ;
  random = λ w. ok ((w * 0x5851f42d4c957f2d + 1) % 2 ^ 64, w + 1);
  random_u64 = λ w. ok (w, w + 1);
  map_segment = λ size w. ok (null, w);
  unmap_segment = λ segment shift w. ok w;
}

page_one-bounds : page_bounds (sample 1) page_one ≡ ok (0xffffffe000010000, 0xffffffe000020000)
unfolding page_bounds page_index page_segment segment_of_ptr page_at align_down is_aligned
    size_class_is_valid
page_one-bounds = refl

block_one-IsBlock : IsBlock (sample 1) page_one block_one
unfolding page_in_bounds page_bounds page_index page_segment segment_of_ptr page_at align_down
    is_aligned size_class_is_valid
block_one-IsBlock = (refl, refl, refl)

block_two-IsBlock : IsBlock (sample 1) page_two block_two
unfolding page_in_bounds page_bounds page_index page_segment segment_of_ptr page_at align_down
    is_aligned size_class_is_valid
block_two-IsBlock = (refl, refl, refl)

page_free_push-cons_example :
    Yields
      (page_free_push page_one block_one 64 (sample 1))
      (Pushes (sample 1) page_one block_one 64 [])
page_free_push-cons_example =
    page_free_push-cons (sample 1) page_one block_one 64 [] (omega arith) block_one-IsBlock
      (omega arith) refl (λ x h. cc)

draws_end : (w : ℕ) → Yields (sample_services.random w) (λ r. Unit {0})
draws_end w = (_, refl, tt)

page_init_blocks-Filled_example :
    Yields
      (page_init_blocks sample_services page_one 4096 block_one
        (block_one + 16 * 4096)
        (sample 1)
        7)
      (λ (g, w'). Filled (sample 1) page_one (spread block_one 4096 16) g)
page_init_blocks-Filled_example =
    page_init_blocks-Filled (sample 1) page_one 0xffffffe000010000 0xffffffe000020000 4096 block_one
      16 refl page_one-bounds (omega arith) (omega arith) refl (omega arith) (omega arith) refl refl
      sample_services draws_end refl refl (omega arith) 7

-- 8 bytes are taken from the second page.
alloc_small-cons_example :
    Yields
      (alloc_small sample_services 2 8 (sample 1) 7)
      (λ (out, g, w'). Takes (sample 1) page_two block_two [] out g)
alloc_small-cons_example =
    alloc_small-cons sample_services 2 8 (sample 1) 7 (omega arith) (omega arith) block_two [] refl
      refl (block_two-IsBlock, refl, refl)

class_of_64 : size_class_of_size 64 ≡ ok 3
unfolding size_class_of_size
class_of_64 = refl

nothing_used : page_is_empty (sample 0) page_one ≡ true
unfolding page_is_empty
nothing_used = refl

alloc_small-emptied_example : alloc_small sample_services 2 64 (sample 0) 7 ≡ panic
alloc_small-emptied_example =
    alloc_small-emptied sample_services 7 (sample 0) 0 64 3 (omega arith) (omega arith) class_of_64
      refl refl refl nothing_used refl
      (record { chain = ((refl, refl), (refl, refl)); distinct = (refl, (refl, tt)) }) refl

-- Two free blocks of 8 bytes, one behind the other, and an object of 64 bytes whose second word is
-- 42.
abbrev with_object : Memory
with_object = record (sample 2) {
  words = λ a.
      if a == block_two
      then 0xffffffe00121456f
      else if a == block_one + 8
      then 42
      else sample_cookie;
}

both_free : IsBlock with_object page_two block_two × IsBlock with_object page_two (block_two + 8)
unfolding page_in_bounds page_bounds page_index page_segment segment_of_ptr page_at align_down
    is_aligned size_class_is_valid
both_free = ((refl, refl, refl), (refl, refl, refl))

class_of_8 : size_class_of_size 8 ≡ ok 0
unfolding size_class_of_size
class_of_8 = refl

block_one-page : page_of_ptr with_object block_one ≡ ok page_one
unfolding page_of_ptr segment_of_ptr page_at align_down
block_one-page = refl

realloc-overflow_example :
    (g : Memory) × (k : Memory) × (w₁ : ℕ) × (alloc sample_services 2 8 with_object 7
      ≡ ok (block_two, g, w₁))
    × Yields (page_free_pop page_two g) (λ (next, h). next ≡ block_two + 8)
    × (realloc sample_services 2 block_one 8 with_object 7
        ≡ (free sample_services block_one k w₁ >>= λ (m₂, w₂). ok (block_two, m₂, w₂)))
    × (page_free_pop page_two k ≡ panic)
realloc-overflow_example =
    realloc-overflow sample_services 7 with_object 2 block_one 8 page_one 0 3 block_two []
      (omega arith) (omega arith) class_of_8 (omega arith) (omega arith) block_one-page refl refl
      refl (both_free.0, refl, (both_free.1, refl, refl)) refl

-- The object of 64 bytes is made one of 8 bytes, and the next allocation panics.
next_alloc :
    (realloc sample_services 2 block_one 8 with_object 7 >>= λ (out, m, w).
    alloc sample_services 2 8 m w)
    ≡ panic
unfolding realloc alloc alloc_small free page_of_ptr segment_of_ptr page_at page_segment page_index
    page_bounds page_in_bounds page_is_empty align_down is_aligned size_class_of_size
    size_of_size_class log2_size_of_size_class size_class_is_valid pages_direct_index_of_size
    page_free_pop page_local_free_push page_push block_ref_make block_ref_deref block_ref_is_valid
    used_blocks_inc set_page set_word memcpy
next_alloc = refl
