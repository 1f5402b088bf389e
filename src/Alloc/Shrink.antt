-- ===== src/Alloc/Shrink.antt =====
-- `realloc` to a smaller class.
use native.Mathlib.Nat.{pow-suc, one-le-pow}
use ukoos.Prelude.{
  ℕ, suc, ◌+◌, ◌-◌, ◌%◌, ◌^◌, ◌≤◌, ◌<◌, ◌≡◌, refl, sym, ap, ◌∙◌, true, false, leb, ltb, ◌==◌, ◌&&◌,
  arith, bit_xor, List, ◌∷◌, ok, panic, Yields, ◌>>=◌, lt→ltb,
}
use ukoos.Prelude.Bits.{bit_and-seven}
use ukoos.ListHead.{Ptr}
use ukoos.SizeClasses.{size_class_of_size, size_of_size_class}
use ukoos.SizeClasses.Fit.{two_pow-le}
use ukoos.Alloc.{Memory, Services, null, memcpy}
use ukoos.Alloc.Bounds.{page_of_ptr}
use ukoos.Alloc.Blocks.{block_ref_is_valid, page_free_pop}
use ukoos.Alloc.FreeList.{
  IsBlock, HasCookie, FreeList, SamePage, IsBlock-SamePage, block_ref_is_valid-mod, mixed_mod,
  block_ref_deref-block, block-nonnull, page_free_pop-cons,
}
use ukoos.Alloc.Malloc.{free, alloc, alloc_small, realloc}
use ukoos.Alloc.Take.{direct_index, alloc_small-cons}

two_pow-step : (i j : ℕ) → i < j → 2 ^ i < 2 ^ j
two_pow-step i j h = omega (arith, pow-suc 2 i, one-le-pow i 2, two_pow-le (suc i) j (omega arith))

memcpy-words :
    (m : Memory) (to from len d : ℕ)
    → d < len
    → (memcpy m to from len).words (to + d) ≡ m.words (from + d)
unfolding memcpy
memcpy-words m to from len d h =
    let inside : (leb to (to + d) && ltb (to + d) (to + len)) ≡ true = ground arith in
    let offset : to + d - to ≡ d = omega arith in rw (inside, offset) refl

memcpy-SamePage :
    (m : Memory) (to from len : ℕ) (page : Ptr) → SamePage m page (memcpy m to from len)
unfolding memcpy
memcpy-SamePage m to from len page = record { cookie = refl; class = refl; segments = refl }

memcpy-pages : (m : Memory) (to from len : ℕ) → (memcpy m to from len).pages ≡ m.pages
unfolding memcpy
memcpy-pages m to from len = refl

alloc-small :
    (services : Services) (fuel size : ℕ) (m : Memory) (w : services.World)
    → 0 < size
    → size ≤ 1024
    → alloc services fuel size m w ≡ alloc_small services fuel size m w
unfolding alloc
alloc-small services fuel size m w h k =
    let some_bytes : (size == 0) ≡ false = ground arith in
    let small : leb size 1024 ≡ true = ground arith in rw (some_bytes, small) refl

-- A free block whose word is not a reference.
page_free_pop-panic :
    (m : Memory) (page : Ptr) (b : ℕ)
    → (page == null) ≡ false
    → HasCookie m page
    → IsBlock m page b
    → (m.pages page).free ≡ bit_xor b (m.pages page).xor_cookie
    → (m.words b % 8 == 7) ≡ false
    → page_free_pop page m ≡ panic
unfolding page_free_pop
page_free_pop-panic m page b nonnull cookie block head wrong =
    let valid : block_ref_is_valid (m.words b) ≡ false =
      unfold block_ref_is_valid in rw (bit_and-seven (m.words b)) wrong in
    rw
      (
        nonnull,
        head,
        block_ref_is_valid-mod _ (mixed_mod m page cookie b block),
        block_ref_deref-block m page cookie b block,
        block-nonnull m page cookie b block,
        valid,
      )
      refl

module _ (services : Services) (w : services.World) (m : Memory) (fuel ptr new_size : ℕ)
    (old_page : Ptr) (c old b : ℕ) (rest : List ℕ) where
  -- For a new size from 1 to 1024, of class `c`, and a pointer into a page of a valid class above
  -- `c`, where the page that `pages_direct` has for the new size is not null, has a cookie that
  -- ends in three ones, and has as its first two free blocks `b` and the block right behind it, `2
  -- ^ (3 + c)` bytes on, and where the word of the object at the offset `2 ^ (3 + c)` does not end
  -- in three ones: `alloc` of the new size gives `b`, and the next pop from the page would then
  -- give the block behind `b`; but `realloc`, which gives `b` as well, copies so much of the
  -- object that the memory that it frees the old block in has a free list on which the next pop
  -- panics.
  pub realloc-overflow :
      let page = (m.heap).pages_direct (direct_index new_size) in
      0 < new_size
      → new_size ≤ 1024
      → size_class_of_size new_size ≡ ok c
      → c < old
      → old < 17
      → page_of_ptr m ptr ≡ ok old_page
      → (m.pages old_page).size_class ≡ old
      → (page == null) ≡ false
      → HasCookie m page
      → FreeList m page (m.pages page).free (b ∷ (b + 2 ^ (3 + c)) ∷ rest)
      → (m.words (ptr + 2 ^ (3 + c)) % 8 == 7) ≡ false
      → (g : Memory) × (k : Memory) × (w₁ : services.World) × (alloc services fuel new_size m w
          ≡ ok (b, g, w₁))
        × Yields (page_free_pop page g) (λ (next, h). next ≡ b + 2 ^ (3 + c))
        × (realloc services fuel ptr new_size m w
            ≡ (free services ptr k w₁ >>= λ (m₂, w₂). ok (b, m₂, w₂)))
        × (page_free_pop page k ≡ panic)
  unfolding realloc size_of_size_class
  realloc-overflow some_bytes small new_class smaller valid found class nonnull cookie list wrong =
      let page = (m.heap).pages_direct (direct_index new_size) in
      let next = b + 2 ^ (3 + c) in
      let ((out, g, w₁), eq, (out_eq, list', _, same, words)) =
        alloc_small-cons services fuel new_size m w some_bytes small b (next ∷ rest) nonnull cookie
          list in
      let allocated : alloc services fuel new_size m w ≡ ok (b, g, w₁) =
        alloc-small services fuel new_size m w some_bytes small
        ∙ (eq ∙ ap (λ o. ok (o, g, w₁)) out_eq) in
      let k = memcpy g b ptr (2 ^ (3 + old)) in
      let still = memcpy-SamePage g b ptr (2 ^ (3 + old)) page in
      let cookie_g : HasCookie g page = rw same.cookie cookie in
      let (popped, pops, done) = page_free_pop-cons g page nonnull cookie_g next rest list' in
      let differs : (old == c) ≡ false = ground arith in
      let copied : k.words next ≡ m.words (ptr + 2 ^ (3 + c)) =
        memcpy-words g b ptr (2 ^ (3 + old)) (2 ^ (3 + c))
          (two_pow-step (3 + c) (3 + old) (omega arith))
        ∙ ap (λ f. f (ptr + 2 ^ (3 + c))) words in
      let b_nonnull = block-nonnull m page cookie b list.0 in
      (
        g,
        k,
        w₁,
        allocated,
        (popped, pops, done.0),
        rw (found, new_class, class, differs, lt→ltb old 17 valid, allocated, b_nonnull) refl,
        page_free_pop-panic k page next nonnull (rw still.cookie cookie_g)
            (IsBlock-SamePage g page k next still list'.0)
            (ap (λ p. (p page).free) (memcpy-pages g b ptr (2 ^ (3 + old)))
              ∙ (list'.1 ∙ ap (bit_xor next) (sym still.cookie)))
            (rw copied wrong),
      )
