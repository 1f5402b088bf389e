-- ===== src/Alloc/FreeList.antt =====
-- What a free list stands for: a sequence of blocks of the page, which `page_free_push` and
-- `page_free_pop` use as a stack.
use ukoos.Prelude.{
  ℕ, ◌/◌, ◌%◌, ◌^◌, bit_and, bit_xor, true, false, ◌==◌, ◌≡◌, refl, sym, ap, ◌∙◌, List, [], ◌∷◌,
  arith, ok, Yields, ==_refl,
}
use ukoos.Prelude.Bits.{zero-bit_xor, bit_xor_cancel, bit_and-seven, bit_xor-mod-eight}
use ukoos.ListHead.{Ptr}
use ukoos.ListHead.Chain.{has}
use ukoos.Align.{is_aligned}
use ukoos.Align.Bounds.{is_aligned_iff}
use ukoos.Alloc.{Memory, null, set_page}
use ukoos.Alloc.Bounds.{page_in_bounds, page_bounds}
use ukoos.Alloc.Blocks.{block_ref_is_valid, block_ref_make, block_ref_deref, page_free_pop}

-- An address at which the page may have a block.
abbrev pub IsBlock : Memory → Ptr → ℕ → Type 0
IsBlock m page b = (page_in_bounds m page b ≡ ok true) × (b % 8 ≡ 0) × (b / 2 ^ 56 ≡ 0xff)

abbrev pub HasCookie : Memory → Ptr → Type 0
HasCookie m page = (m.pages page).xor_cookie % 8 ≡ 7

-- From the reference `ref`, the words of the blocks lead through `xs` to a null reference.
abbrev pub FreeList : Memory → Ptr → ℕ → List ℕ → Type 0
FreeList m page ref [] = ref ≡ (m.pages page).xor_cookie
FreeList m page ref (b ∷ bs) =
    IsBlock m page b × (ref ≡ bit_xor b (m.pages page).xor_cookie) × FreeList m page (m.words b) bs

pub block_ref_is_valid-mod : (ref : ℕ) → ref % 8 ≡ 7 → block_ref_is_valid ref ≡ true
unfolding block_ref_is_valid
block_ref_is_valid-mod ref h = rw (bit_and-seven ref) (ground arith)

module _ (m : Memory) (page : Ptr) (cookie : HasCookie m page) where
  cookie_test : (bit_and (m.pages page).xor_cookie 7 == 7) ≡ true
  cookie_test = rw (bit_and-seven (m.pages page).xor_cookie) (ground arith)

  pub block_ref_make-null : block_ref_make m page null ≡ ok (m.pages page).xor_cookie
  unfolding block_ref_make
  block_ref_make-null =
      rw
        (
          cookie_test,
          zero-bit_xor (m.pages page).xor_cookie,
          block_ref_is_valid-mod (m.pages page).xor_cookie cookie,
        )
        refl

  pub block_ref_deref-null : block_ref_deref m page (m.pages page).xor_cookie ≡ ok null
  unfolding block_ref_deref
  block_ref_deref-null =
      let c = (m.pages page).xor_cookie in
      let gone : bit_xor c c ≡ 0 =
        ap (λ (x : ℕ). bit_xor x c) (sym (zero-bit_xor c)) ∙ bit_xor_cancel 0 c in
      rw (cookie_test, block_ref_is_valid-mod c cookie, gone) refl

  module _ (b : ℕ) (block : IsBlock m page b) where
    pub mixed_mod : bit_xor b (m.pages page).xor_cookie % 8 ≡ 7
    mixed_mod = bit_xor-mod-eight b (m.pages page).xor_cookie block.1 cookie

    pub block-nonnull : (b == null) ≡ false
    block-nonnull = ground arith

    pub block_ref_make-block : block_ref_make m page b ≡ ok (bit_xor b (m.pages page).xor_cookie)
    unfolding block_ref_make
    block_ref_make-block =
        let aligned : is_aligned b 3 ≡ true =
          (is_aligned_iff b 3 (omega arith) (omega arith)).1 block.1 in
        let top : (b / 2 ^ 56 == 0xff) ≡ true = ground arith in
        rw (cookie_test, block-nonnull, block.0, aligned, top, block_ref_is_valid-mod _ mixed_mod)
          refl

    pub block_ref_deref-block : block_ref_deref m page (bit_xor b (m.pages page).xor_cookie) ≡ ok b
    unfolding block_ref_deref
    block_ref_deref-block =
        let top : (b / 2 ^ 56 == 0xff) ≡ true = ground arith in
        rw
          (
            cookie_test,
            block_ref_is_valid-mod _ mixed_mod,
            bit_xor_cancel b (m.pages page).xor_cookie,
            block-nonnull,
            block.0,
            top,
          )
          refl

-- `g` has what a free list of the page depends on, apart from the words.
pub record SamePage (m : Memory) (page : Ptr) (g : Memory) : Type 0 where
  pub cookie : (g.pages page).xor_cookie ≡ (m.pages page).xor_cookie
  pub class : (g.pages page).size_class ≡ (m.pages page).size_class
  pub segments : g.segments ≡ m.segments

pub SamePage-trans :
    (m : Memory) (page : Ptr) (g h : Memory)
    → SamePage m page g
    → SamePage g page h
    → SamePage m page h
SamePage-trans m page g h p q = record {
  cookie = q.cookie ∙ p.cookie;
  class = q.class ∙ p.class;
  segments = q.segments ∙ p.segments;
}

pub page_in_bounds-SamePage :
    (m : Memory) (page : Ptr) (g : Memory) (a : ℕ)
    → SamePage m page g
    → page_in_bounds g page a ≡ page_in_bounds m page a
unfolding page_in_bounds page_bounds
page_in_bounds-SamePage m page g a same = rw (same.class, same.segments) refl

pub IsBlock-SamePage :
    (m : Memory) (page : Ptr) (g : Memory) (b : ℕ)
    → SamePage m page g
    → IsBlock m page b
    → IsBlock g page b
IsBlock-SamePage m page g b same block =
    (page_in_bounds-SamePage m page g b same ∙ block.0, block.1, block.2)

-- A list survives a change that spares the words of its blocks.
pub FreeList-frame :
    (m : Memory) (page : Ptr) (g : Memory) (ref : ℕ) (xs : List ℕ)
    → SamePage m page g
    → ((x : ℕ) → has x xs ≡ true → g.words x ≡ m.words x)
    → FreeList m page ref xs
    → FreeList g page ref xs
FreeList-frame m page g ref [] same words l = l ∙ sym same.cookie
FreeList-frame m page g ref (b ∷ bs) same words l =
    let here : g.words b ≡ m.words b = words b (ground (arith, ==_refl b)) in
    (
      IsBlock-SamePage m page g b same l.0,
      l.1 ∙ ap (bit_xor b) (sym same.cookie),
      rw here (FreeList-frame m page g (m.words b) bs same (λ x h. words x (ground arith)) l.2),
    )

-- The head of a list passes the check of `block_ref_is_valid`.
pub FreeList-valid :
    (m : Memory) (page : Ptr) (ref : ℕ) (xs : List ℕ)
    → HasCookie m page
    → FreeList m page ref xs
    → block_ref_is_valid ref ≡ true
FreeList-valid m page ref [] cookie l = rw l (block_ref_is_valid-mod _ cookie)
FreeList-valid m page ref (b ∷ bs) cookie l =
    rw l.1 (block_ref_is_valid-mod _ (mixed_mod m page cookie b l.0))

-- The memory behind a pop of a list that goes on at `b`.
abbrev popped : Memory → Ptr → ℕ → Memory
popped m page b = set_page m page (record (m.pages page) { free = m.words b })

pub set_free-SamePage :
    (m : Memory) (page : Ptr) (head : ℕ)
    → SamePage m page (set_page m page (record (m.pages page) { free = head }))
unfolding set_page
set_free-SamePage m page head = record {
  cookie = rw (==_refl page) refl;
  class = rw (==_refl page) refl;
  segments = refl;
}

pub set_free-free :
    (m : Memory) (page : Ptr) (head : ℕ)
    → ((set_page m page (record (m.pages page) { free = head })).pages page).free ≡ head
unfolding set_page
set_free-free m page head = rw (==_refl page) refl

abbrev pub Pops : Memory → Ptr → ℕ → List ℕ → Ptr × Memory → Type 0
Pops m page b bs (out, g) =
    (out ≡ b)
    × FreeList g page (g.pages page).free bs
    × ((g.pages page).used_blocks ≡ (m.pages page).used_blocks)
    × SamePage m page g
    × (g.words ≡ m.words)

module _ (m : Memory) (page : Ptr) (nonnull : (page == null) ≡ false)
    (cookie : HasCookie m page) where
  -- On a page whose free list is a block `b` and more, `page_free_pop` fails no assertion.
  pub page_free_pop-cons :
      (b : ℕ) (bs : List ℕ)
      → FreeList m page (m.pages page).free (b ∷ bs)
      → Yields (page_free_pop page m) (Pops m page b bs)
  unfolding page_free_pop
  page_free_pop-cons b bs l =
      let g = popped m page b in
      (
        (b, g),
        rw
            (
              nonnull,
              FreeList-valid m page (m.pages page).free (b ∷ bs) cookie l,
              l.1,
              block_ref_deref-block m page cookie b l.0,
              block-nonnull m page cookie b l.0,
              FreeList-valid m page (m.words b) bs cookie l.2,
            )
            refl,
        (
          refl,
          rw (set_free-free m page (m.words b)) (
              FreeList-frame m page g (m.words b) bs (set_free-SamePage m page (m.words b))
                (unfold set_page in λ x h. refl) l.2),
          unfold set_page in rw (==_refl page) refl,
          set_free-SamePage m page (m.words b),
          unfold set_page in refl,
        ),
      )

  pub page_free_pop-nil :
      FreeList m page (m.pages page).free [] → page_free_pop page m ≡ ok (null, m)
  unfolding page_free_pop
  page_free_pop-nil l =
      let valid : block_ref_is_valid (m.pages page).xor_cookie ≡ true =
        block_ref_is_valid-mod _ cookie in
      rw (nonnull, l, valid, block_ref_deref-null m page cookie) refl
