-- ===== src/VirtualAlloc/Tests.antt =====
-- A small allocator of src/kernel/mm/virtual_alloc.c, and the theorems applied to it.
use ukoos.Prelude.{ℕ, ◌≡◌, refl, true, ◌==◌, if◌then◌else◌, [], ◌∷◌, arith, ok, Yields, ◌>>=◌}
use ukoos.Align.{is_aligned, align_down}
use ukoos.ListHead.{list_init, list_push, list_unshift, list_remove, set_prev, set_next}
use ukoos.ListHead.Chain.{has}
use ukoos.Treap.{Ptr, Side, left, right, TreapHead, Treap, treap_init, treap_insert, treap_remove}
use ukoos.Treap.Shape.{Tree, leaf, node, inorder}
use ukoos.Treap.Invariant.{IsTreap}
use ukoos.Treap.Remove.{IsRemoved}
use ukoos.VirtualAlloc.{
  VmaAllocator, vma_size, vma_lo, vma_hi, is_vma_free, vma_allocator_init, vma_find, vma_alloc,
}
use ukoos.VirtualAlloc.Areas.{vma_alloc_by_addr, vma_free}
use ukoos.VirtualAlloc.Find.{contains, InOrder, vma_find-contains}
use ukoos.VirtualAlloc.Fit.{NoneFits, IsNarrow, vma_alloc-NoneFits, vma_alloc-exact}

abbrev head : ℕ → Side → ℕ → Ptr → Ptr → Ptr → TreapHead
head v s n p l r = record {
  value = v;
  which_child = s;
  priority = n;
  parent = p;
  left_child = l;
  right_child = r;
}

-- Areas of 3, 5 and 8 pages one after the other, all of them free.
abbrev areas : (ℕ → ℕ → ℕ → Treap)
areas x y z = record {
  heads = λ q.
      if q == 1
      then head y left 30 0 2 3
      else if q == 2
      then head x left 5 1 0 0
      else if q == 3
      then head z right 20 1 0 0
      else head 0 left 0 0 0 0;
  root = 1;
}

abbrev three : VmaAllocator
three = record {
  vmas = 50;
  links = λ q.
      if q == 50
      then record { prev = 3; next = 2 }
      else if q == 2
      then record { prev = 50; next = 1 }
      else if q == 1
      then record { prev = 2; next = 3 }
      else record { prev = 1; next = 50 };
  lo_address = 65536;
  hi_address = 131072;
  by_addr = areas 0 3 8;
  by_size = areas 2 4 7;
  allocs = 60 ∷ 61 ∷ [];
  draws = 7 ∷ 8 ∷ 9 ∷ 10 ∷ [];
}

abbrev tree : Tree
tree = node 1 (node 2 leaf leaf) (node 3 leaf leaf)

three-IsTreap : IsTreap three.by_size tree
three-IsTreap = record {
  rep = (
    refl,
    refl,
    refl,
    refl,
    (refl, refl, refl, refl, refl, refl),
    (refl, refl, refl, refl, refl, refl),
  );
  distinct = (refl, (refl, (refl, tt)));
  sorted = (λ q m. ground (arith, m), (λ q m. ground (arith, m), (λ q m. ground (arith, m), tt)));
  heap = (refl, refl, (tt, tt, tt, tt), (tt, tt, tt, tt));
}

three-InOrder : InOrder three (inorder tree)
unfolding vma_lo vma_hi
three-InOrder = (
  refl,
  λ q m. ground (arith, m),
  (refl, λ q m. ground (arith, m), (refl, λ q m. ground (arith, m), tt)),
)

three-contains : contains three 90000 1 ≡ true
unfolding vma_lo vma_hi
three-contains = refl

vma_find_example :
    Yields
      (vma_find 4 90000 three)
      (λ r. (has r (inorder tree) ≡ true) × (contains three 90000 r ≡ true))
vma_find_example =
    vma_find-contains 4 90000 three tree 1
      (
        refl,
        refl,
        refl,
        refl,
        (refl, refl, refl, refl, refl, refl),
        (refl, refl, refl, refl, refl, refl),
      )
      three-InOrder refl refl refl three-contains (omega arith)

three-IsNarrow : IsNarrow three
three-IsNarrow q = ground arith

three-NoneFits : NoneFits three 36864 (inorder tree)
unfolding vma_size
three-NoneFits q m = ground (arith, m)

three-size : vma_size three 1 ≡ 20480
unfolding vma_size
three-size = refl

three-free : (q : Ptr) → has q (inorder tree) ≡ true → is_vma_free three q ≡ true
unfolding is_vma_free
three-free q m = ground (arith, m)

vma_alloc-NoneFits_example : vma_alloc 4 9 three ≡ ok (0, three)
vma_alloc-NoneFits_example =
    vma_alloc-NoneFits 4 9 three tree (refl, refl) three-IsTreap three-IsNarrow (omega arith)
      three-NoneFits

vma_alloc-exact_example : Yields (vma_alloc 4 5 three) (λ r.
    (vma_size three r.0 ≡ 20480)
    × IsRemoved three.by_size tree r.0 (r.1).by_size
    × (r.1 ≡ record three { by_size = (r.1).by_size }))
vma_alloc-exact_example =
    vma_alloc-exact 4 5 three tree (refl, refl) three-IsTreap three-IsNarrow (omega arith) 1 refl
      three-size three-free

-- An allocator of 16 pages; 4 pages of it are allocated and freed again.
abbrev none : VmaAllocator
none = record {
  vmas = 50;
  links = λ q. record { prev = 0; next = 0 };
  lo_address = 0;
  hi_address = 0;
  by_addr = record { heads = λ q. head 0 left 0 0 0 0; root = 0 };
  by_size = record { heads = λ q. head 0 left 0 0 0 0; root = 0 };
  allocs = 60 ∷ 61 ∷ 62 ∷ [];
  draws = 7 ∷ 8 ∷ 9 ∷ 10 ∷ 11 ∷ 12 ∷ 13 ∷ [];
}

allocated_and_freed :
    (do
      made ← vma_allocator_init 4 65536 131072 none
      taken ← vma_alloc 4 4 made.1
      let st = taken.1
      done ← vma_free 4 taken.0 st
      ok (
          taken.0
          ∷ vma_lo st taken.0
          ∷ vma_hi st taken.0
          ∷ vma_size done 60
          ∷ (done.links 50).next
          ∷ (done.links 60).next
          ∷ []))
    ≡ ok (60 ∷ 65536 ∷ 81920 ∷ 65536 ∷ 60 ∷ 50 ∷ [])
unfolding vma_allocator_init vma_alloc vma_free is_aligned align_down list_push list_init
    treap_insert treap_init treap_remove list_unshift set_prev set_next list_remove
allocated_and_freed = refl

-- The part of the range from the third page on is taken out of the middle.
carved :
    (do
      made ← vma_allocator_init 4 65536 131072 none
      taken ← vma_alloc_by_addr 4 73728 81920 made.1
      let st = taken.1
      ok (
          taken.0
          ∷ vma_lo st taken.0
          ∷ vma_hi st taken.0
          ∷ (st.links 50).next
          ∷ (st.links (st.links 50).next).next
          ∷ []))
    ≡ ok (60 ∷ 73728 ∷ 81920 ∷ 61 ∷ 60 ∷ [])
unfolding vma_allocator_init vma_alloc_by_addr is_aligned align_down list_push list_init
    treap_insert treap_init treap_remove list_unshift set_prev set_next list_remove is_vma_free
carved = refl
