-- ===== src/Treap/Shape.antt =====
-- Which tree the pointers of a treap stand for, as a whole and seen from one of its nodes.
use mathlib.Core.List.{append_assoc, append-nil}
use ukoos.Prelude.{
  ◌≡◌, sym, ap, ◌∙◌, subst, true, false, ◌==◌, ==_iff, Bool-cases, ◌⊎◌, inl, inr, List, [], ◌∷◌,
  ◌++◌, arith,
}
use ukoos.ListHead.Chain.{has, has-append}
use ukoos.Treap.{Ptr, Side, left, right, flip, TreapHead, child, Heads}

pub data Tree : Type 0 where
  leaf : Tree
  node : Ptr → Tree → Tree → Tree

-- A node with a subtree on the given side and one on the other.
abbrev pub node_on : Side → Ptr → Tree → Tree → Tree
node_on left a t u = node a t u
node_on right a t u = node a u t

-- The nodes from left to right, which is the order of the search.
abbrev pub inorder : Tree → List Ptr
inorder leaf = []
inorder (node a l r) = inorder l ++ (a ∷ inorder r)

-- The pointer `p`, as the child on `side` of `parent`, leads to the tree.
abbrev pub Rep : Heads → Ptr → Side → Ptr → Tree → Type 0
Rep h parent side p leaf = p ≡ 0
Rep h parent side p (node a l r) =
    (p ≡ a)
    × ((a == 0) ≡ false)
    × ((h a).parent ≡ parent)
    × ((h a).which_child ≡ side)
    × Rep h a left (h a).left_child l
    × Rep h a right (h a).right_child r

-- What is around a subtree: going up, the parent, the side of it that the subtree is on, and the
-- subtree on its other side.
pub data Context : Type 0 where
  top : Context
  under : Side → Ptr → Tree → Context → Context

abbrev pub plug : Context → Tree → Tree
plug top t = t
plug (under side a u k) t = plug k (node_on side a t u)

-- The nodes to the left and to the right of the place.
abbrev pub before : Context → List Ptr
before top = []
before (under left a u k) = before k
before (under right a u k) = before k ++ (inorder u ++ (a ∷ []))

abbrev pub behind : Context → List Ptr
behind top = []
behind (under left a u k) = a ∷ (inorder u ++ behind k)
behind (under right a u k) = behind k

-- The pointer `p`, as the child on `side` of `parent`, is at the place in the context.
abbrev pub RepContext : Heads → Ptr → Ptr → Side → Ptr → Context → Type 0
RepContext h root parent side p top = (parent ≡ 0) × (side ≡ left) × (root ≡ p)
RepContext h root parent side p (under s a u k) =
    (parent ≡ a)
    × ((a == 0) ≡ false)
    × (side ≡ s)
    × (child s (h a) ≡ p)
    × Rep h a (flip s) (child (flip s) (h a)) u
    × RepContext h root (h a).parent (h a).which_child a k

pub inorder-plug :
    (k : Context) (t : Tree) → inorder (plug k t) ≡ before k ++ (inorder t ++ behind k)
inorder-plug top t = sym (append-nil (inorder t))
inorder-plug (under left a u k) t = rw (inorder-plug k (node a t u)) (simp (append_assoc))
inorder-plug (under right a u k) t = rw (inorder-plug k (node a u t)) (simp (append_assoc))

pub in_middle : (a : Ptr) (us vs : List Ptr) → has a (us ++ (a ∷ vs)) ≡ true
in_middle a us vs = rw (has-append a us (a ∷ vs)) (ground arith)

pub on_left : (q a : Ptr) (us vs : List Ptr) → has q us ≡ true → has q (us ++ (a ∷ vs)) ≡ true
on_left q a us vs m = rw (has-append q us (a ∷ vs)) (ground arith)

pub on_right : (q a : Ptr) (us vs : List Ptr) → has q vs ≡ true → has q (us ++ (a ∷ vs)) ≡ true
on_right q a us vs m = rw (has-append q us (a ∷ vs)) (ground arith)

-- Where in a list an element is.
pub has-parts :
    (q a : Ptr) (us vs : List Ptr)
    → has q (us ++ (a ∷ vs)) ≡ true
    → (has q us ≡ true) ⊎ ((q ≡ a) ⊎ (has q vs ≡ true))
has-parts q a us vs m = elim (Bool-cases (has q us)) [
  | inl m' ↦ inl m'
  | inr n ↦ elim (Bool-cases (q == a)) [
    | inl e ↦ inr (inl ((==_iff q a).0 e))
    | inr ne ↦ inr (inr (ground (arith, has-append q us (a ∷ vs))))
  ]
]

-- A tree is seen only through the heads of its nodes.
pub Rep-frame :
    (h h' : Heads) (parent : Ptr) (side : Side) (p : Ptr) (t : Tree)
    → Rep h parent side p t
    → ((q : Ptr) → has q (inorder t) ≡ true → h' q ≡ h q)
    → Rep h' parent side p t
Rep-frame h h' parent side p leaf r same = r
Rep-frame h h' parent side p (node a l r) (e, ne, up, on, rl, rr) same =
    let here : h' a ≡ h a = same a (in_middle a (inorder l) (inorder r)) in
    (
      e,
      ne,
      ap TreapHead.parent here ∙ up,
      ap TreapHead.which_child here ∙ on,
      subst (λ q. Rep h' a left q l) (sym (ap TreapHead.left_child here))
          (Rep-frame h h' a left (h a).left_child l rl
            (λ q m. same q (on_left q a (inorder l) (inorder r) m))),
      subst (λ q. Rep h' a right q r) (sym (ap TreapHead.right_child here))
          (Rep-frame h h' a right (h a).right_child r rr
            (λ q m. same q (on_right q a (inorder l) (inorder r) m))),
    )
