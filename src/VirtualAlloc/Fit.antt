-- ===== src/VirtualAlloc/Fit.antt =====
-- `vma_alloc`: the search by size finds the smallest free area that is large enough.
use ukoos.Prelude.{
  ℕ, zero, suc, ◌*◌, ◌^◌, ◌≡◌, refl, sym, ◌∙◌, subst, true, false, ◌==◌, ◌<◌, leb, ltb, Bool-cases,
  ◌⊎◌, inl, inr, List, ◌∷◌, ◌++◌, arith, ok, Yields,
}
use ukoos.ListHead.Chain.{has}
use ukoos.Treap.{Ptr, Side, left, right, Treap, treap_remove}
use ukoos.Treap.Shape.{Tree, leaf, node, inorder, Rep, in_middle, on_left, on_right, has-parts}
use ukoos.Treap.Around.{Rep-nonzero}
use ukoos.Treap.Climb.{size}
use ukoos.Treap.Order.{Sorted, Sorted-split}
use ukoos.Treap.Invariant.{IsTreap}
use ukoos.Treap.Remove.{IsRemoved, treap_remove-IsRemoved}
use ukoos.VirtualAlloc.{VmaAllocator, vma_size, is_vma_free, fit_loop, vma_alloc}

-- `r` is large enough, and no larger than any other of the areas that is.
abbrev pub IsBestFit : VmaAllocator → ℕ → List Ptr → Ptr → Type 0
IsBestFit st wanted xs r =
    (has r xs ≡ true)
    × (leb wanted (vma_size st r) ≡ true)
    × ((q : Ptr)
        → has q xs ≡ true
        → leb wanted (vma_size st q) ≡ true
        → leb (vma_size st r) (vma_size st q) ≡ true)

-- No area is large enough.
abbrev pub NoneFits : VmaAllocator → ℕ → List Ptr → Type 0
NoneFits st wanted xs = (q : Ptr) → has q xs ≡ true → ltb (vma_size st q) wanted ≡ true

abbrev IsFit : VmaAllocator → ℕ → List Ptr → Ptr → Ptr → Type 0
IsFit st wanted xs best r = IsBestFit st wanted xs r ⊎ ((r ≡ best) × NoneFits st wanted xs)

-- The values are 32-bit numbers.
abbrev pub IsNarrow : VmaAllocator → Type 0
IsNarrow st = (q : Ptr) → (st.by_size.heads q).value < 2 ^ 32

vma_size-le :
    (st : VmaAllocator) (a b : Ptr)
    → IsNarrow st
    → leb (st.by_size.heads a).value (st.by_size.heads b).value ≡ true
    → leb (vma_size st a) (vma_size st b) ≡ true
unfolding vma_size
vma_size-le st a b narrow le = let na = narrow a in let nb = narrow b in ground arith

module _ (fuel : ℕ) (wanted : ℕ) (p best : Ptr) (st : VmaAllocator) where
  fit_loop-end : (p == 0) ≡ true → fit_loop (suc fuel) wanted p best st ≡ ok best
  unfolding fit_loop
  fit_loop-end e = rw e refl

  fit_loop-larger :
      (p == 0) ≡ false
      → ltb (vma_size st p) wanted ≡ true
      → fit_loop (suc fuel) wanted p best st
        ≡ fit_loop fuel wanted (st.by_size.heads p).right_child best st
  unfolding fit_loop
  fit_loop-larger z e = rw (z, e) refl

  fit_loop-smaller :
      (p == 0) ≡ false
      → ltb (vma_size st p) wanted ≡ false
      → ltb wanted (vma_size st p) ≡ true
      → fit_loop (suc fuel) wanted p best st
        ≡ fit_loop fuel wanted (st.by_size.heads p).left_child p st
  unfolding fit_loop
  fit_loop-smaller z e e' = rw (z, e, e') refl

  fit_loop-exact :
      (p == 0) ≡ false
      → ltb (vma_size st p) wanted ≡ false
      → ltb wanted (vma_size st p) ≡ false
      → fit_loop (suc fuel) wanted p best st ≡ ok p
  unfolding fit_loop
  fit_loop-exact z e e' = rw (z, e, e') refl

-- How the result for one side of a node gives that for the whole.
module _ (st : VmaAllocator) (wanted : ℕ) (xs : List Ptr) (a : Ptr) (ys : List Ptr)
    (lower : (q : Ptr) → has q xs ≡ true → leb (vma_size st q) (vma_size st a) ≡ true)
    (upper : (q : Ptr) → has q ys ≡ true → leb (vma_size st a) (vma_size st q) ≡ true) where
  IsFit-larger :
      (best r : Ptr)
      → ltb (vma_size st a) wanted ≡ true
      → IsFit st wanted ys best r
      → IsFit st wanted (xs ++ (a ∷ ys)) best r
  IsFit-larger best r lt (inl (m, le, least)) = inl (
    on_right r a xs ys m,
    le,
    λ q m' le'. elim (has-parts q a xs ys m') [
      | inl mx ↦ let e = lower q mx in ground arith
      | inr (inl e) ↦
          let le'' = subst (λ y. leb wanted (vma_size st y) ≡ true) e le' in ground arith
      | inr (inr my) ↦ least q my le'
    ],
  )
  IsFit-larger best r lt (inr (e, none)) = inr (
    e,
    λ q m. elim (has-parts q a xs ys m) [
      | inl mx ↦ let e = lower q mx in ground arith
      | inr (inl e) ↦ rw e lt
      | inr (inr my) ↦ none q my
    ],
  )

  not_below :
      (q : Ptr)
      → has q (xs ++ (a ∷ ys)) ≡ true
      → (has q xs ≡ true) ⊎ (leb (vma_size st a) (vma_size st q) ≡ true)
  not_below q m = elim (has-parts q a xs ys m) [
    | inl mx ↦ inl mx
    | inr (inl e) ↦ inr (rw e (ground arith))
    | inr (inr my) ↦ inr (upper q my)
  ]

  IsFit-smaller :
      (best r : Ptr)
      → ltb (vma_size st a) wanted ≡ false
      → IsFit st wanted xs a r
      → IsFit st wanted (xs ++ (a ∷ ys)) best r
  IsFit-smaller best r ge (inl (m, le, least)) = inl (
    on_left r a xs ys m,
    le,
    λ q m' le'. elim (not_below q m') [
      | inl mx ↦ least q mx le'
      | inr above ↦ let e = lower r m in ground arith
    ],
  )
  IsFit-smaller best r ge (inr (e, none)) = inl (
    rw e (in_middle a xs ys),
    rw e (ground arith),
    λ q m' le'. elim (not_below q m') [
      | inl mx ↦ let no = none q mx in ground arith
      | inr above ↦ rw e above
    ],
  )

  IsFit-exact :
      (best : Ptr)
      → ltb (vma_size st a) wanted ≡ false
      → ltb wanted (vma_size st a) ≡ false
      → IsFit st wanted (xs ++ (a ∷ ys)) best a
  IsFit-exact best ge le = inl (in_middle a xs ys, ground arith, λ q m' le'. ground arith)

fit_loop-IsFit :
    (fuel wanted : ℕ) (st : VmaAllocator) (parent : Ptr) (side : Side) (p best : Ptr) (t : Tree)
    → Rep st.by_size.heads parent side p t
    → Sorted st.by_size.heads (inorder t)
    → IsNarrow st
    → size t < fuel
    → Yields (fit_loop fuel wanted p best st) (IsFit st wanted (inorder t) best)
fit_loop-IsFit zero wanted st parent side p best t rep sorted narrow enough = ground arith
fit_loop-IsFit (suc fuel) wanted st parent side p best leaf rep sorted narrow enough =
    (best, fit_loop-end fuel wanted p best st (rw rep refl), inr (refl, λ q m. ground (arith, m)))
fit_loop-IsFit (suc fuel) wanted st parent side p best (node a l r) (e, ne, _, _, rl, rr) sorted
      narrow enough =
    let h = st.by_size.heads in
    let (sl, most, least, sr) = Sorted-split h (inorder l) a (inorder r) sorted in
    let lower = λ (q : Ptr) (m : has q (inorder l) ≡ true). vma_size-le st q a narrow (most q m) in
    let upper = λ (q : Ptr) (m : has q (inorder r) ≡ true). vma_size-le st a q narrow (least q m) in
    subst
      (λ q.
        Yields (fit_loop (suc fuel) wanted q best st)
          (IsFit st wanted (inorder l ++ (a ∷ inorder r)) best))
      (sym e)
      (elim (Bool-cases (ltb (vma_size st a) wanted)) [
        | inl lt ↦
            let (v, run, fit) =
              fit_loop-IsFit fuel wanted st a right (h a).right_child best r rr sr narrow
                (omega arith) in
            (
              v,
              fit_loop-larger fuel wanted a best st ne lt ∙ run,
              IsFit-larger st wanted (inorder l) a (inorder r) lower upper best v lt fit,
            )
        | inr ge ↦ elim (Bool-cases (ltb wanted (vma_size st a))) [
          | inl gt ↦
              let (v, run, fit) =
                fit_loop-IsFit fuel wanted st a left (h a).left_child a l rl sl narrow
                  (omega arith) in
              (
                v,
                fit_loop-smaller fuel wanted a best st ne ge gt ∙ run,
                IsFit-smaller st wanted (inorder l) a (inorder r) lower upper best v ge fit,
              )
          | inr le ↦ (
            a,
            fit_loop-exact fuel wanted a best st ne ge le,
            IsFit-exact st wanted (inorder l) a (inorder r) lower upper best ge le,
          )
        ]
      ])

-- The number of pages is one that `vma_alloc` takes.
abbrev pub IsCount : ℕ → Type 0
IsCount n = (ltb 0 n ≡ true) × (leb n (2 ^ 26) ≡ true)

is_vma_free-priority :
    (st : VmaAllocator) (q : Ptr)
    → is_vma_free st q ≡ true
    → ((st.by_size.heads q).priority == 0) ≡ false
unfolding is_vma_free
is_vma_free-priority st q e = ground arith

-- The branch of `vma_alloc` for an area of the wanted size.
vma_alloc-whole :
    (fuel n : ℕ) (st : VmaAllocator) (v : Ptr) (t' : Treap)
    → IsCount n
    → fit_loop fuel (n * 2 ^ 12) st.by_size.root 0 st ≡ ok v
    → (v == 0) ≡ false
    → vma_size st v ≡ n * 2 ^ 12
    → treap_remove fuel v st.by_size ≡ ok t'
    → vma_alloc fuel n st ≡ ok (v, record st { by_size = t' })
unfolding vma_alloc
vma_alloc-whole fuel n st v t' count run ne same removal =
    let no_more : ltb (n * 2 ^ 12) (vma_size st v) ≡ false = rw same (ground arith) in
    rw (count.0, count.1, run, ne, no_more, removal) refl

module _ (fuel num_pages : ℕ) (st : VmaAllocator) (tree : Tree) (count : IsCount num_pages)
    (treap : IsTreap st.by_size tree) (narrow : IsNarrow st) (enough : size tree < fuel) where
  -- For a number of pages from 1 to 2 ^ 26, with the free areas in a treap with 32-bit values and
  -- fuel for more than its nodes, where none of them is large enough: `vma_alloc` returns
  -- `nullptr` and changes nothing.
  pub vma_alloc-NoneFits :
      NoneFits st (num_pages * 2 ^ 12) (inorder tree) → vma_alloc fuel num_pages st ≡ ok (0, st)
  unfolding vma_alloc
  vma_alloc-NoneFits none =
      let (v, run, fit) =
        fit_loop-IsFit fuel (num_pages * 2 ^ 12) st 0 left st.by_size.root 0 tree treap.rep
          treap.sorted narrow enough in
      elim fit [
        | inl (m, le, least) ↦ let e = none v m in ground arith
        | inr (z, _) ↦ rw (count.0, count.1, run, z) refl
      ]

  -- For a number of pages from 1 to 2 ^ 26, with the free areas in a treap with 32-bit values and
  -- fuel for more than its nodes, all of them marked free and one of just the wanted size:
  -- `vma_alloc` ends without a failed assertion, returns an area of that size, takes it out of the
  -- treap by size as `treap_remove` does, and leaves the rest of the state.
  pub vma_alloc-exact :
      (area : Ptr)
      → has area (inorder tree) ≡ true
      → vma_size st area ≡ num_pages * 2 ^ 12
      → ((q : Ptr) → has q (inorder tree) ≡ true → is_vma_free st q ≡ true)
      → Yields (vma_alloc fuel num_pages st) (λ r.
        (vma_size st r.0 ≡ num_pages * 2 ^ 12)
        × IsRemoved st.by_size tree r.0 (r.1).by_size
        × (r.1 ≡ record st { by_size = (r.1).by_size }))
  vma_alloc-exact area m same free =
      let wanted = num_pages * 2 ^ 12 in
      let (v, run, fit) =
        fit_loop-IsFit fuel wanted st 0 left st.by_size.root 0 tree treap.rep treap.sorted narrow
          enough in
      elim fit [
        | inl (m', le, least) ↦
            let size_eq : vma_size st v ≡ wanted =
              let e = least area m (rw same (ground arith)) in ground arith in
            let ne = Rep-nonzero st.by_size.heads 0 left st.by_size.root tree treap.rep v m' in
            let (t', removal, removed) =
              treap_remove-IsRemoved fuel v st.by_size tree treap m'
                (is_vma_free-priority st v (free v m')) (omega arith) in
            (
              (v, record st { by_size = t' }),
              vma_alloc-whole fuel num_pages st v t' count run ne size_eq removal,
              (size_eq, removed, refl),
            )
        | inr (z, none) ↦ let e = none area m in ground arith
      ]
