-- ===== src/Alloc/Take.antt =====
-- `alloc_small`, where the page for the size has a free block.
use ukoos.Prelude.{
  ℕ, ◌+◌, ◌-◌, ◌*◌, ◌/◌, ◌%◌, ◌^◌, ◌≤◌, ◌<◌, ◌≡◌, refl, ap, ◌∙◌, bit_and, true, false, ltb, leb,
  ◌==◌, ◌&&◌, List, ◌∷◌, arith, ok, Yields, lt→ltb, ==_refl,
}
use ukoos.ListHead.{Ptr}
use ukoos.Align.{complement, align_down}
use ukoos.Align.Bounds.{align_down-eq}
use ukoos.Alloc.{Memory, Services, null, set_page}
use ukoos.Alloc.FreeList.{
  HasCookie, FreeList, SamePage, FreeList-frame, SamePage-trans, page_free_pop-cons, block-nonnull,
}
use ukoos.Alloc.Direct.{pages_direct_index_of_size}
use ukoos.Alloc.Malloc.{alloc_small, used_blocks_inc}

-- The index of the smallest multiple of 8 that is not below the size, counted from 8.
abbrev pub direct_index : ℕ → ℕ
direct_index size = (size + 7) / 8 - 1

pub pages_direct_index_of_size-eq :
    (size : ℕ) → 0 < size → size ≤ 1024 → pages_direct_index_of_size size ≡ ok (direct_index size)
unfolding pages_direct_index_of_size
pages_direct_index_of_size-eq size h k =
    let test : (ltb 0 size && leb size 1024) ≡ true = ground arith in
    let narrow : (size + 7) % 2 ^ 64 ≡ size + 7 = omega arith in
    let rounded : bit_and (size + 7) (complement 7) ≡ (size + 7) / 8 * 8 =
      unfold align_down in align_down-eq (size + 7) 3 (omega arith) (omega arith) in
    let index : ((size + 7) / 8 * 8 / 8 + 2 ^ 64 - 1) % 2 ^ 64 ≡ direct_index size = omega arith in
    let bound : ltb (direct_index size) 128 ≡ true = lt→ltb _ _ (omega arith) in
    rw (test, narrow, rounded, index, bound) refl

-- The block that is given out, and what becomes of the page.
abbrev pub Takes : Memory → Ptr → ℕ → List ℕ → Ptr → Memory → Type 0
Takes m page b bs out g =
    (out ≡ b)
    × FreeList g page (g.pages page).free bs
    × ((g.pages page).used_blocks ≡ ((m.pages page).used_blocks + 1) % 2 ^ 32)
    × SamePage m page g
    × (g.words ≡ m.words)

used_blocks_inc-SamePage : (m : Memory) (page : Ptr) → SamePage m page (used_blocks_inc page m)
unfolding used_blocks_inc set_page
used_blocks_inc-SamePage m page = record {
  cookie = rw (==_refl page) refl;
  class = rw (==_refl page) refl;
  segments = refl;
}

used_blocks_inc-page :
    (m : Memory) (page : Ptr)
    → (((used_blocks_inc page m).pages page).free ≡ (m.pages page).free)
      × (((used_blocks_inc page m).pages page).used_blocks
          ≡ ((m.pages page).used_blocks + 1) % 2 ^ 32)
unfolding used_blocks_inc set_page
used_blocks_inc-page m page = (rw (==_refl page) refl, rw (==_refl page) refl)

used_blocks_inc-words : (m : Memory) (page : Ptr) → (used_blocks_inc page m).words ≡ m.words
unfolding used_blocks_inc set_page
used_blocks_inc-words m page = refl

module _ (services : Services) (fuel size : ℕ) (m : Memory) (w : services.World)
    (some_bytes : 0 < size) (small : size ≤ 1024) where
  -- For a size from 1 to 1024, where the page that `pages_direct` has for the size is not null,
  -- has a cookie that ends in three ones and a free list that stands for `b` and `bs`:
  -- `alloc_small` fails no assertion and gives `b`; the free list of the page then stands for
  -- `bs`, its count of used blocks is one more (as a 32-bit number), and its cookie and class, the
  -- segments and the words of memory are as before.
  pub alloc_small-cons :
      (b : ℕ) (bs : List ℕ)
      → let page = (m.heap).pages_direct (direct_index size) in
        (page == null) ≡ false
        → HasCookie m page
        → FreeList m page (m.pages page).free (b ∷ bs)
        → Yields (alloc_small services fuel size m w) (λ (out, g, w'). Takes m page b bs out g)
  unfolding alloc_small
  alloc_small-cons b bs nonnull cookie list =
      let page = (m.heap).pages_direct (direct_index size) in
      let test : (ltb 0 size && leb size 1024) ≡ true = ground arith in
      let ((out, g), eq, (out_eq, list', used, same, words)) =
        page_free_pop-cons m page nonnull cookie b bs list in
      let inc = used_blocks_inc-page g page in
      let k = used_blocks_inc page g in
      let still = used_blocks_inc-SamePage g page in
      let same_words = used_blocks_inc-words g page in
      let found : (out == null) ≡ false = rw out_eq (block-nonnull m page cookie b list.0) in
      (
        (out, k, w),
        rw (test, pages_direct_index_of_size-eq size some_bytes small, nonnull, eq, found) refl,
        (
          out_eq,
          rw inc.0 (
              FreeList-frame g page k (g.pages page).free bs still (λ x h. ap (λ f. f x) same_words)
                list'),
          inc.1 ∙ ap (λ (n : ℕ). (n + 1) % 2 ^ 32) used,
          SamePage-trans m page g k same still,
          same_words ∙ words,
        ),
      )
