-- ===== src/Alloc/Emptied.antt =====
-- An allocation from the only page of a class, all of whose blocks were given out and freed again.
use ukoos.Prelude.{
  ℕ, suc, ◌+◌, ◌*◌, ◌^◌, ◌≤◌, ◌<◌, ◌≡◌, refl, ap, ◌∙◌, true, false, ltb, leb, ◌==◌, ◌&&◌, [], ◌∷◌,
  arith, none, ok, panic, lt→ltb, le→leb, ==_refl, Bool-cases, inl, inr, ◌⊎◌, subst,
}
use ukoos.ListHead.{Ptr}
use ukoos.ListHead.Chain.{IsRing}
use ukoos.ListHead.Remove.{list_is_empty-IsRing}
use ukoos.SizeClasses.{size_class_is_valid, size_is_huge, size_class_of_size, size_of_size_class}
use ukoos.SizeClasses.Fit.{size_class_of_size-Fits, two_pow-le}
use ukoos.Alloc.{Memory, Services, null}
use ukoos.Alloc.Bounds.{page_is_empty}
use ukoos.Alloc.FreeList.{HasCookie, FreeList, page_free_pop-nil}
use ukoos.Alloc.Direct.{pages_head, size_class_in_pages_direct}
use ukoos.Alloc.Segments.{page_free}
use ukoos.Alloc.Malloc.{free_delayed, search_pages, alloc_new_page, alloc_generic, alloc_small}
use ukoos.Alloc.Take.{direct_index, pages_direct_index_of_size-eq}

power-bound : (k size : ℕ) → size ≤ 1024 → (k ≡ 0) ⊎ (2 ^ (3 + k) < 2 * size) → 2 ^ (3 + k) ≤ 1024
power-bound k size h (inl z) = rw z (omega arith)
power-bound k size h (inr near) = elim (Bool-cases (leb k 7)) [
  | inl low ↦ two_pow-le (3 + k) 10 (ground arith)
  | inr high ↦ absurd (omega (arith, two_pow-le 11 (3 + k) (ground arith)))
]

-- A size of at most 1024 has one of the first eight classes, which have entries in `pages_direct`.
class-small :
    (size c : ℕ) → size ≤ 1024 → size_class_of_size size ≡ ok c → (c < 17) × (2 ^ (3 + c) ≤ 1024)
class-small size c h e =
    let (c', found, (lt, _, _, near)) = size_class_of_size-Fits size (omega arith) in
    let same : c' ≡ c = cc in
    (
      omega arith,
      power-bound c size h (subst (λ (k : ℕ). (k ≡ 0) ⊎ (2 ^ (3 + k) < 2 * size)) same near),
    )

module _ (m : Memory) (page : Ptr) (c : ℕ) (class_bound : c < 17) (direct : 2 ^ (3 + c) ≤ 1024)
    (class : (m.pages page).size_class ≡ c) (empty : page_is_empty m page ≡ true)
    (ring : IsRing m.lists (pages_head m c) (page ∷ [])) where
  direct_class : size_class_in_pages_direct c ≡ ok true
  unfolding size_class_in_pages_direct size_of_size_class
  direct_class = rw (lt→ltb c 17 class_bound, le→leb (2 ^ (3 + c)) 1024 direct) refl

  module _ (services : Services) (w : services.World) where
    page_free-only : page_free services page m w ≡ ok (m, w)
    unfolding page_free size_class_is_valid
    page_free-only =
        let alone : ((m.lists page).prev == (m.lists page).next) ≡ true = ground arith in
        rw (empty, class, lt→ltb c 17 class_bound, direct_class, alone) refl

    search_pages-end :
        (fuel : ℕ) → search_pages services (suc fuel) c (pages_head m c) m w ≡ ok (none, m, w)
    unfolding search_pages
    search_pages-end fuel = rw (==_refl (pages_head m c), search_pages) refl

    -- The only page is passed over, and stays in its list.
    search_pages-skip :
        (fuel : ℕ)
        → search_pages services (suc fuel) c page m w
          ≡ search_pages services fuel c (m.lists page).next m w
    unfolding search_pages
    search_pages-skip fuel =
        let test : (page == pages_head m c) ≡ false = ground arith in
        rw (test, search_pages, empty, page_free-only) refl

    search_pages-only :
        (fuel : ℕ)
        → search_pages services (suc (suc fuel)) c (m.lists (pages_head m c)).next m w
          ≡ ok (none, m, w)
    search_pages-only fuel =
        ap (λ at. search_pages services (suc (suc fuel)) c at m w) (ring.chain.0).0
        ∙ search_pages-skip (suc fuel)
        ∙ ap (λ at. search_pages services (suc fuel) c at m w) (ring.chain.1).0
        ∙ search_pages-end fuel

    alloc_new_page-only : (size : ℕ) → alloc_new_page services size c m w ≡ panic
    unfolding alloc_new_page
    alloc_new_page-only size =
        let (answer, eq, says) = list_is_empty-IsRing m.lists (pages_head m c) (page ∷ []) ring in
        let not_empty : answer ≡ false = elim (Bool-cases answer) [
          | inl e ↦ cc (says.0 e)
          | inr e ↦ e
        ] in
        rw (eq, not_empty) refl

    alloc_generic-only :
        (fuel size : ℕ)
        → 0 < size
        → size ≤ 1024
        → size_class_of_size size ≡ ok c
        → (m.heap).delayed_free ≡ null
        → alloc_generic services (suc (suc fuel)) size m w ≡ panic
    unfolding alloc_generic free_delayed size_is_huge
    alloc_generic-only fuel size h k e none_delayed =
        let some_bytes : (size == 0) ≡ false = ground arith in
        let not_huge : ltb (512 * 1024) size ≡ false = ground arith in
        let no_block : ((m.heap).delayed_free == null) ≡ true = ground arith in
        rw
          (
            some_bytes,
            no_block,
            free_delayed,
            not_huge,
            e,
            search_pages-only fuel,
            alloc_new_page-only size,
          )
          refl

-- For a size from 1 to 1024: where the page that `pages_direct` has for the size is of the class
-- of the size, has a cookie that ends in three ones, has no free block and none in use (all have
-- been given out and freed again), and is the only page in the list of its class, and no free is
-- delayed, `alloc_small` panics, with any fuel from 2 on: `page_free` leaves the page in the list,
-- which has to be empty afterwards.
pub alloc_small-emptied :
    (services : Services) (w : services.World) (m : Memory) (fuel size c : ℕ)
    → let page = (m.heap).pages_direct (direct_index size) in
      0 < size
      → size ≤ 1024
      → size_class_of_size size ≡ ok c
      → (page == null) ≡ false
      → HasCookie m page
      → FreeList m page (m.pages page).free []
      → page_is_empty m page ≡ true
      → (m.pages page).size_class ≡ c
      → IsRing m.lists (pages_head m c) (page ∷ [])
      → (m.heap).delayed_free ≡ null
      → alloc_small services (suc (suc fuel)) size m w ≡ panic
unfolding alloc_small
alloc_small-emptied services w m fuel size c h k e nonnull cookie list empty class ring
      none_delayed =
    let page = (m.heap).pages_direct (direct_index size) in
    let test : (ltb 0 size && leb size 1024) ≡ true = ground arith in
    let bounds = class-small size c k e in
    rw
      (
        test,
        pages_direct_index_of_size-eq size h k,
        nonnull,
        page_free_pop-nil m page nonnull cookie list,
      )
      (alloc_generic-only m page c bounds.0 bounds.1 class empty ring services w fuel size h k e
        none_delayed)
