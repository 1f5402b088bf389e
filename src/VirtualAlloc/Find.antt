-- ===== src/VirtualAlloc/Find.antt =====
-- `vma_find`: the search by address finds the area that has the address.
use ukoos.Prelude.{
  ℕ, zero, suc, ◌≡◌, refl, sym, ap, ◌∙◌, subst, Bool, true, false, ◌&&◌, ◌||◌, ◌==◌, ◌<◌, leb, ltb,
  ==_iff, Bool-cases, ◌⊎◌, inl, inr, List, [], ◌∷◌, ◌++◌, arith, ok, Yields,
}
use ukoos.ListHead.Chain.{has, has-append}
use ukoos.Treap.{Ptr, Side, left, right}
use ukoos.Treap.Shape.{Tree, leaf, node, inorder, Rep, in_middle, on_right}
use ukoos.Treap.Around.{Rep-nonzero}
use ukoos.Treap.Climb.{size}
use ukoos.VirtualAlloc.{VmaAllocator, vma_lo, vma_hi, find_loop, vma_find}

abbrev pub contains : VmaAllocator → ℕ → Ptr → Bool
contains st addr q = leb (vma_lo st q) addr && ltb addr (vma_hi st q)

-- The areas follow each other without overlap.
abbrev pub InOrder : VmaAllocator → List Ptr → Type 0
InOrder st [] = Unit
InOrder st (x ∷ xs) =
    (leb (vma_lo st x) (vma_hi st x) ≡ true)
    × ((q : Ptr) → has q xs ≡ true → leb (vma_hi st x) (vma_lo st q) ≡ true)
    × InOrder st xs

InOrder-split :
    (st : VmaAllocator) (xs : List Ptr) (a : Ptr) (ys : List Ptr)
    → InOrder st (xs ++ (a ∷ ys))
    → InOrder st xs
      × (leb (vma_lo st a) (vma_hi st a) ≡ true)
      × ((q : Ptr) → has q xs ≡ true → leb (vma_hi st q) (vma_lo st a) ≡ true)
      × ((q : Ptr) → has q ys ≡ true → leb (vma_hi st a) (vma_lo st q) ≡ true)
      × InOrder st ys
InOrder-split st [] a ys (e, later, o) = (tt, e, λ q m. ground (arith, m), later, o)
InOrder-split st (x ∷ xs) a ys (e, later, o) =
    let (ox, ea, earlier, after, oy) = InOrder-split st xs a ys o in
    let here = later a (ground (arith, has-append a xs (a ∷ ys))) in
    (
      (e, λ q m. later q (ground (arith, has-append q xs (a ∷ ys))), ox),
      ea,
      λ q m. elim (Bool-cases (has q xs)) [
        | inl m' ↦ earlier q m'
        | inr n ↦
            subst (λ y. leb (vma_hi st y) (vma_lo st a) ≡ true)
              (sym ((==_iff q x).0 (ground arith))) here
      ],
      after,
      oy,
    )

-- The area of the list that has the address, or `nullptr` where none has it.
abbrev pub IsFound : VmaAllocator → ℕ → List Ptr → Ptr → Type 0
IsFound st addr xs r =
    ((has r xs ≡ true) × (contains st addr r ≡ true))
    ⊎ ((r ≡ 0) × ((q : Ptr) → has q xs ≡ true → contains st addr q ≡ false))

module _ (fuel : ℕ) (addr : ℕ) (p : Ptr) (st : VmaAllocator) where
  find_loop-end : (p == 0) ≡ true → find_loop (suc fuel) addr p st ≡ ok p
  unfolding find_loop
  find_loop-end e = rw e refl

  find_loop-below :
      (p == 0) ≡ false
      → ltb addr (vma_lo st p) ≡ true
      → find_loop (suc fuel) addr p st ≡ find_loop fuel addr (st.by_addr.heads p).left_child st
  unfolding find_loop
  find_loop-below z e = rw (z, e) refl

  find_loop-above :
      (p == 0) ≡ false
      → ltb addr (vma_lo st p) ≡ false
      → leb (vma_hi st p) addr ≡ true
      → find_loop (suc fuel) addr p st ≡ find_loop fuel addr (st.by_addr.heads p).right_child st
  unfolding find_loop
  find_loop-above z e e' = rw (z, e, e') refl

  find_loop-here :
      (p == 0) ≡ false
      → ltb addr (vma_lo st p) ≡ false
      → leb (vma_hi st p) addr ≡ false
      → find_loop (suc fuel) addr p st ≡ ok p
  unfolding find_loop
  find_loop-here z e e' = rw (z, e, e') refl

IsFound-left :
    (st : VmaAllocator) (addr : ℕ) (xs : List Ptr) (a : Ptr) (ys : List Ptr) (r : Ptr)
    → IsFound st addr xs r
    → ((q : Ptr) → has q (a ∷ ys) ≡ true → contains st addr q ≡ false)
    → IsFound st addr (xs ++ (a ∷ ys)) r
IsFound-left st addr xs a ys r (inl (m, c)) rest =
    inl (rw (has-append r xs (a ∷ ys)) (rw m refl), c)
IsFound-left st addr xs a ys r (inr (z, none)) rest = inr (
  z,
  λ q m. elim (Bool-cases (has q xs)) [
    | inl m' ↦ none q m'
    | inr n ↦
        rest q
          (let e = sym (has-append q xs (a ∷ ys)) ∙ m in rw⁻¹ (ap (λ b. b || has q (a ∷ ys)) n) e)
  ],
)

IsFound-right :
    (st : VmaAllocator) (addr : ℕ) (xs : List Ptr) (a : Ptr) (ys : List Ptr) (r : Ptr)
    → IsFound st addr ys r
    → ((q : Ptr) → has q xs ≡ true → contains st addr q ≡ false)
    → contains st addr a ≡ false
    → IsFound st addr (xs ++ (a ∷ ys)) r
IsFound-right st addr xs a ys r (inl (m, c)) rest here = inl (on_right r a xs ys m, c)
IsFound-right st addr xs a ys r (inr (z, none)) rest here = inr (
  z,
  λ q m. elim (Bool-cases (has q xs)) [
    | inl m' ↦ rest q m'
    | inr n ↦ elim (Bool-cases (q == a)) [
      | inl e ↦ rw ((==_iff q a).0 e) here
      | inr ne ↦ none q (ground (arith, has-append q xs (a ∷ ys)))
    ]
  ],
)

-- An address that is below an area, or above it, is in none of those on the other side.
below_none :
    (st : VmaAllocator) (addr : ℕ) (a : Ptr) (ys : List Ptr)
    → ltb addr (vma_lo st a) ≡ true
    → leb (vma_lo st a) (vma_hi st a) ≡ true
    → ((q : Ptr) → has q ys ≡ true → leb (vma_hi st a) (vma_lo st q) ≡ true)
    → (q : Ptr) → has q (a ∷ ys) ≡ true
    → contains st addr q ≡ false
below_none st addr a ys lt le later q m = elim (Bool-cases (q == a)) [
  | inl e ↦ rw ((==_iff q a).0 e) (ground arith)
  | inr ne ↦ let le' = later q (ground arith) in ground arith
]

find_loop-IsFound :
    (fuel addr : ℕ) (st : VmaAllocator) (parent : Ptr) (side : Side) (p : Ptr) (t : Tree)
    → Rep st.by_addr.heads parent side p t
    → InOrder st (inorder t)
    → size t < fuel
    → Yields (find_loop fuel addr p st) (IsFound st addr (inorder t))
find_loop-IsFound zero addr st parent side p t rep order enough = ground arith
find_loop-IsFound (suc fuel) addr st parent side p leaf rep order enough =
    (p, find_loop-end fuel addr p st (rw rep refl), inr (rep, λ q m. ground (arith, m)))
find_loop-IsFound (suc fuel) addr st parent side p (node a l r) (e, ne, _, _, rl, rr) order enough =
    let (ol, here, earlier, later, o_right) = InOrder-split st (inorder l) a (inorder r) order in
    subst
      (λ q.
        Yields (find_loop (suc fuel) addr q st) (IsFound st addr (inorder l ++ (a ∷ inorder r))))
      (sym e)
      (elim (Bool-cases (ltb addr (vma_lo st a))) [
        | inl lt ↦
            let (v, run, found) =
              find_loop-IsFound fuel addr st a left (st.by_addr.heads a).left_child l rl ol
                (omega arith) in
            (
              v,
              find_loop-below fuel addr a st ne lt ∙ run,
              IsFound-left st addr (inorder l) a (inorder r) v found
                  (below_none st addr a (inorder r) lt here later),
            )
        | inr ge ↦ elim (Bool-cases (leb (vma_hi st a) addr)) [
          | inl le ↦
              let (v, run, found) =
                find_loop-IsFound fuel addr st a right (st.by_addr.heads a).right_child r rr o_right
                  (omega arith) in
              (
                v,
                find_loop-above fuel addr a st ne ge le ∙ run,
                IsFound-right st addr (inorder l) a (inorder r) v found
                    (λ q m. let le' = earlier q m in ground arith) (ground arith),
              )
          | inr gt ↦ (
            a,
            find_loop-here fuel addr a st ne ge gt,
            inl (in_middle a (inorder l) (inorder r), ground arith),
          )
        ]
      ])

-- For an address within the bounds of the allocator, in a tree of areas that follow each other
-- from left to right, one of which has the address: `vma_find` ends without a failed assertion and
-- returns an area of the tree that has the address.
pub vma_find-contains :
    (fuel addr : ℕ) (st : VmaAllocator) (tree : Tree) (area : Ptr)
    → Rep st.by_addr.heads 0 left st.by_addr.root tree
    → InOrder st (inorder tree)
    → leb st.lo_address addr ≡ true
    → ltb addr st.hi_address ≡ true
    → has area (inorder tree) ≡ true
    → contains st addr area ≡ true
    → size tree < fuel
    → Yields
        (vma_find fuel addr st)
        (λ r. (has r (inorder tree) ≡ true) × (contains st addr r ≡ true))
unfolding vma_find
vma_find-contains fuel addr st tree area rep order lo hi m c enough =
    let (v, run, found) =
      find_loop-IsFound fuel addr st 0 left st.by_addr.root tree rep order enough in
    elim found [
      | inl (m', c') ↦
          let ne = Rep-nonzero st.by_addr.heads 0 left st.by_addr.root tree rep v m' in
          (v, rw (lo, hi, run, ne) refl, (m', c'))
      | inr (z, none) ↦ let e = none area m in cc
    ]
