-- ===== src/Alloc/Push.antt =====
-- `page_free_push`: a block more in front of the free list, cleared behind its link.
use ukoos.Prelude.{
  ℕ, ◌+◌, ◌≤◌, ◌<◌, bit_xor, true, false, ◌&&◌, ltb, leb, ◌≡◌, refl, sym, ap, ◌∙◌, List, ◌∷◌, arith,
  ok, Yields, ==_refl, le→leb,
}
use ukoos.ListHead.{Ptr}
use ukoos.ListHead.Chain.{has}
use ukoos.Alloc.{Memory, set_page, set_word, bzero}
use ukoos.Alloc.Blocks.{block_ref_is_valid, page_push, page_free_push}
use ukoos.Alloc.FreeList.{
  IsBlock, HasCookie, FreeList, SamePage, page_in_bounds-SamePage, IsBlock-SamePage, FreeList-frame,
  FreeList-valid, set_free-SamePage, set_free-free, block_ref_make-block,
}

-- The block has `size` bytes, and a word at `x` is not among them.
abbrev pub Apart : ℕ → ℕ → ℕ → Type 0
Apart b size x = (leb b x && ltb x (b + size)) ≡ false

-- The memory with the block cleared and linked in front of a list, before the head is written.
abbrev pub linked : Memory → ℕ → ℕ → ℕ → Memory
linked m b size list = set_word (bzero m b size) b list

module _ (m : Memory) (b size list : ℕ) where
  linked-SamePage : (page : Ptr) → SamePage m page (linked m b size list)
  unfolding set_word bzero
  linked-SamePage page = record { cookie = refl; class = refl; segments = refl }

  linked-pages : (linked m b size list).pages ≡ m.pages
  unfolding set_word bzero
  linked-pages = refl

  linked-first : (linked m b size list).words b ≡ list
  unfolding set_word
  linked-first = rw (==_refl b) refl

  linked-Apart : (x : ℕ) → 8 ≤ size → Apart b size x → (linked m b size list).words x ≡ m.words x
  unfolding set_word bzero
  linked-Apart x h out = ground arith

  linked-rest : (x : ℕ) → b < x → x < b + size → (linked m b size list).words x ≡ 0
  unfolding set_word bzero
  linked-rest x h k = ground arith

  pub linked-FreeList :
      (page : Ptr) (xs : List ℕ)
      → 8 ≤ size
      → FreeList m page list xs
      → ((x : ℕ) → has x xs ≡ true → Apart b size x)
      → FreeList (linked m b size list) page ((linked m b size list).words b) xs
  linked-FreeList page xs h l apart = rw linked-first (
      FreeList-frame m page (linked m b size list) list xs (linked-SamePage page)
        (λ x k. linked-Apart x h (apart x k)) l)

-- What a push of a block of `size` bytes on a list `xs` promises: the list with the block in front,
-- the rest of the block zero, and no word outside the block written.
abbrev pub Pushes : Memory → Ptr → ℕ → ℕ → List ℕ → Memory → Type 0
Pushes m page b size xs g =
    FreeList g page (g.pages page).free (b ∷ xs)
    × SamePage m page g
    × ((x : ℕ) → b < x → x < b + size → g.words x ≡ 0)
    × ((x : ℕ) → Apart b size x → g.words x ≡ m.words x)

bzero-SamePage : (m : Memory) (page : Ptr) (b size : ℕ) → SamePage m page (bzero m b size)
unfolding bzero
bzero-SamePage m page b size = record { cookie = refl; class = refl; segments = refl }

page_push-linked :
    (m : Memory) (page : Ptr) (b size list : ℕ)
    → HasCookie m page
    → IsBlock m page b
    → block_ref_is_valid list ≡ true
    → page_push page b list (bzero m b size)
      ≡ ok (bit_xor b (m.pages page).xor_cookie, linked m b size list)
unfolding page_push
page_push-linked m page b size list cookie block valid =
    let same = linked-SamePage m b size list page in
    let block' = IsBlock-SamePage m page (linked m b size list) b same block in
    let cleared =
      page_in_bounds-SamePage m page (bzero m b size) b (bzero-SamePage m page b size) in
    rw
      (
        cleared,
        block.0,
        valid,
        block_ref_make-block (linked m b size list) page (rw same.cookie cookie) b block',
        same.cookie,
      )
      refl

module _ (m : Memory) (page : Ptr) (b size : ℕ) (xs : List ℕ) where
  -- On a page whose cookie ends in three ones, with a free list that stands for the blocks `xs`:
  -- `page_free_push` of a place for a block of the page, with a size of at least 8 bytes that
  -- reach over none of `xs`, fails no assertion; the free list then stands for the block and `xs`
  -- behind it, the rest of the block is zero, no word outside the block is written, and what the
  -- page's other lists depend on (cookie, class and segments) is as before.
  pub page_free_push-cons :
      HasCookie m page
      → IsBlock m page b
      → 8 ≤ size
      → FreeList m page (m.pages page).free xs
      → ((x : ℕ) → has x xs ≡ true → Apart b size x)
      → Yields (page_free_push page b size m) (Pushes m page b size xs)
  unfolding page_free_push
  page_free_push-cons cookie block h l apart =
      let list = (m.pages page).free in
      let k = linked m b size list in
      let same = linked-SamePage m b size list page in
      let head = bit_xor b (m.pages page).xor_cookie in
      let g = set_page k page (record (k.pages page) { free = head }) in
      let same' = set_free-SamePage k page head in
      let valid = FreeList-valid m page list xs cookie l in
      let cells : FreeList k page head (b ∷ xs) = (
        IsBlock-SamePage m page k b same block,
        ap (bit_xor b) (sym same.cookie),
        linked-FreeList m b size list page xs h l apart,
      ) in
      (
        g,
        rw (le→leb 8 size h, page_push-linked m page b size list cookie block valid) refl,
        (
          rw (set_free-free k page head)
              (FreeList-frame k page g head (b ∷ xs) same' (unfold set_page in λ x p. refl) cells),
          record {
            cookie = same'.cookie ∙ same.cookie;
            class = same'.class ∙ same.class;
            segments = same'.segments ∙ same.segments;
          },
          unfold set_page in λ x p q. linked-rest m b size list x p q,
          unfold set_page in λ x p. linked-Apart m b size list x h p,
        ),
      )
