-- ===== src/Treap/Invariant.antt =====
-- The invariant of a treap, and lemmas on the lists of its nodes.
use ukoos.Prelude.{ℕ, ◌≡◌, refl, sym, ◌∙◌, subst, true, false, ◌||◌, List, [], ◌∷◌, ◌++◌, arith}
use ukoos.ListHead.Chain.{has, has-append, has-ne, Distinct}
use ukoos.Treap.{Ptr, left, Heads, Treap}
use ukoos.Treap.Shape.{
  Tree, leaf, node, node_on, inorder, Rep, Context, top, under, plug, on_left, on_right, in_middle,
}
use ukoos.Treap.Rotate.{Distinct-append, has-on}
use ukoos.Treap.Around.{around, Distinct-join}
use ukoos.Treap.Order.{AtMost, AtLeast, Sorted, Sorted-join, TopAtMost, IsHeap}

-- The pointers form a tree without a node at two places, the values never go down from left to
-- right, and no node has a higher priority than its parent.
pub record IsTreap (t : Treap) (tree : Tree) : Type 0 where
  pub rep : Rep t.heads 0 left t.root tree
  pub distinct : Distinct (inorder tree)
  pub sorted : Sorted t.heads (inorder tree)
  pub heap : IsHeap t.heads tree

-- Both orders look only at the keys of the nodes.
pub AtLeast-frame :
    (h h' : Heads) (v : ℕ) (xs : List Ptr)
    → AtLeast h v xs
    → ((q : Ptr) → has q xs ≡ true → (h' q).value ≡ (h q).value)
    → AtLeast h' v xs
AtLeast-frame h h' v xs least same q m = rw (same q m) (least q m)

pub Sorted-frame :
    (h h' : Heads) (xs : List Ptr)
    → Sorted h xs
    → ((q : Ptr) → has q xs ≡ true → (h' q).value ≡ (h q).value)
    → Sorted h' xs
Sorted-frame h h' [] s same = tt
Sorted-frame h h' (x ∷ xs) (least, s) same = (
  subst (λ v. AtLeast h' v xs) (sym (same x (ground arith)))
      (AtLeast-frame h h' (h x).value xs least (λ q m. same q (ground arith))),
  Sorted-frame h h' xs s (λ q m. same q (ground arith)),
)

TopAtMost-frame :
    (h h' : Heads) (m : ℕ) (t : Tree)
    → TopAtMost h m t
    → ((q : Ptr) → has q (inorder t) ≡ true → (h' q).priority ≡ (h q).priority)
    → TopAtMost h' m t
TopAtMost-frame h h' m leaf top_ok same = tt
TopAtMost-frame h h' m (node a l r) top_ok same =
    rw (same a (in_middle a (inorder l) (inorder r))) top_ok

pub IsHeap-frame :
    (h h' : Heads) (t : Tree)
    → IsHeap h t
    → ((q : Ptr) → has q (inorder t) ≡ true → (h' q).priority ≡ (h q).priority)
    → IsHeap h' t
IsHeap-frame h h' leaf heap same = tt
IsHeap-frame h h' (node a l r) (tl, t_right, hl, hr) same =
    let here = same a (in_middle a (inorder l) (inorder r)) in
    let same_l =
      λ (q : Ptr) (m : has q (inorder l) ≡ true). same q (on_left q a (inorder l) (inorder r) m) in
    let same_r =
      λ (q : Ptr) (m : has q (inorder r) ≡ true). same q (on_right q a (inorder l) (inorder r) m) in
    (
      subst (λ m. TopAtMost h' m l) (sym here) (TopAtMost-frame h h' (h a).priority l tl same_l),
      subst (λ m. TopAtMost h' m r) (sym here)
          (TopAtMost-frame h h' (h a).priority r t_right same_r),
      IsHeap-frame h h' l hl same_l,
      IsHeap-frame h h' r hr same_r,
    )

-- The nodes of a tree in a context.
pub has-plug :
    (q : Ptr) (k : Context) (t : Tree)
    → has q (inorder (plug k t)) ≡ (has q (around k) || has q (inorder t))
has-plug q top t = refl
has-plug q (under s a u k) t =
    has-plug q k (node_on s a t u)
    ∙ ground (arith, has-on s q a t u, has-append q (inorder u) (around k))

-- A new element between two parts.
pub Distinct-insert :
    (a : Ptr) (xs ys : List Ptr)
    → Distinct (xs ++ ys)
    → has a (xs ++ ys) ≡ false
    → Distinct (xs ++ (a ∷ ys))
Distinct-insert a xs ys d n =
    let (dx, dy, apart) = Distinct-append xs ys d in
    let n' = sym (has-append a xs ys) ∙ n in
    Distinct-join xs (a ∷ ys) dx (ground arith, dy)
      (λ q m. let e = apart q m in let ne = has-ne q a xs m (ground arith) in ground arith)

pub Sorted-append : (h : Heads) (xs ys : List Ptr) → Sorted h (xs ++ ys) → Sorted h xs × Sorted h ys
Sorted-append h [] ys s = (tt, s)
Sorted-append h (x ∷ xs) ys (least, s) =
    let (sx, sy) = Sorted-append h xs ys s in
    ((λ q m. least q (ground (arith, has-append q xs ys)), sx), sy)

pub Sorted-insert :
    (h : Heads) (a : Ptr) (xs ys : List Ptr)
    → Sorted h (xs ++ ys)
    → AtMost h (h a).value xs
    → AtLeast h (h a).value ys
    → Sorted h (xs ++ (a ∷ ys))
Sorted-insert h a xs ys s most least =
    let (sx, sy) = Sorted-append h xs ys s in Sorted-join h xs a ys sx most least sy
