-- ===== src/Treap/Rotate.antt =====
-- `treap_rotate`: which heads it changes, and the tree that is there afterwards.
use ukoos.Prelude.{
  ◌≡◌, refl, sym, ap, subst, true, false, ◌||◌, ◌==◌, ==_iff, Bool-cases, inl, inr, List, [], ◌∷◌,
  ◌++◌, arith,
}
use ukoos.ListHead.Chain.{has, has-append, has-ne, Distinct}
use ukoos.Treap.{
  Ptr, Side, left, right, flip, TreapHead, child, with_child, with_parent, Heads, rotate_heads,
}
use ukoos.Treap.Shape.{Tree, leaf, node, node_on, inorder, Rep, Rep-frame, on_left, on_right}

-- What a rotation of `d` leaves at each address: `b` is its child on the side `s`, `c` the inner
-- child of that one, and `d` is the child on `side` of `p`.
pub record IsRotated (h h' : Heads) (s side : Side) (d b c p : Ptr) : Type 0 where
  pub at_lower : h' b ≡ with_parent p side (with_child (flip s) d (h b))
  pub at_node : h' d ≡ with_parent b (flip s) (with_child s c (h d))
  pub at_inner : (c == 0) ≡ false → h' c ≡ with_parent d s (h c)
  pub at_parent : (p == 0) ≡ false → h' p ≡ with_child side b (h p)
  pub elsewhere :
      (q : Ptr)
      → (q == d) ≡ false
      → (q == b) ≡ false
      → (q == c) ≡ false
      → (q == p) ≡ false
      → h' q ≡ h q

-- No two of the four are the same, but for an inner child and a parent that are both missing.
abbrev pub IsSeparate : Ptr → Ptr → Ptr → Ptr → Type 0
IsSeparate d b c p =
    ((d == b) ≡ false)
    × ((c == d) ≡ false)
    × ((c == b) ≡ false)
    × ((p == d) ≡ false)
    × ((p == b) ≡ false)
    × ((c == 0) ≡ false → (p == c) ≡ false)

module _ (h : Heads) (d : Ptr) where
  rotate_heads-IsRotated_left :
      IsSeparate d (h d).left_child (h (h d).left_child).right_child (h d).parent
      → IsRotated h
          (rotate_heads d left h)
          left
          (h d).which_child
          d
          (h d).left_child
          (h (h d).left_child).right_child
          (h d).parent
  unfolding rotate_heads
  rotate_heads-IsRotated_left (n₁, n₂, n₃, n₄, n₅, n₆) = record {
    at_lower = ground arith;
    at_node = ground arith;
    at_inner = λ z. ground (arith, n₆ z);
    at_parent = λ z. ground arith;
    elsewhere = λ q x y z w. ground arith;
  }

  rotate_heads-IsRotated_right :
      IsSeparate d (h d).right_child (h (h d).right_child).left_child (h d).parent
      → IsRotated h
          (rotate_heads d right h)
          right
          (h d).which_child
          d
          (h d).right_child
          (h (h d).right_child).left_child
          (h d).parent
  unfolding rotate_heads
  rotate_heads-IsRotated_right (n₁, n₂, n₃, n₄, n₅, n₆) = record {
    at_lower = ground arith;
    at_node = ground arith;
    at_inner = λ z. ground (arith, n₆ z);
    at_parent = λ z. ground arith;
    elsewhere = λ q x y z w. ground arith;
  }

  rotate_heads-IsRotated_here :
      (s : Side)
      → IsSeparate d (child s (h d)) (child (flip s) (h (child s (h d)))) (h d).parent
      → IsRotated h
          (rotate_heads d s h)
          s
          (h d).which_child
          d
          (child s (h d))
          (child (flip s) (h (child s (h d))))
          (h d).parent
  rotate_heads-IsRotated_here left n = rotate_heads-IsRotated_left n
  rotate_heads-IsRotated_here right n = rotate_heads-IsRotated_right n

  pub rotate_heads-IsRotated :
      (s side : Side) (b c p : Ptr)
      → IsSeparate d b c p
      → (h d).parent ≡ p
      → (h d).which_child ≡ side
      → child s (h d) ≡ b
      → child (flip s) (h b) ≡ c
      → IsRotated h (rotate_heads d s h) s side d b c p
  rotate_heads-IsRotated s side b c p n up on down in_child =
      let n' : IsSeparate d (child s (h d)) (child (flip s) (h (child s (h d)))) (h d).parent =
        rw (down, in_child, up) n in
      rw (sym up, sym on, sym in_child, sym down) (rotate_heads-IsRotated_here s n')

-- The fields of a changed head, on either side.
pub child_set : (s : Side) (p : Ptr) (x : TreapHead) → child s (with_child s p x) ≡ p
child_set left p x = refl
child_set right p x = refl

pub child_other :
    (s : Side) (p : Ptr) (x : TreapHead) → child (flip s) (with_child s p x) ≡ child (flip s) x
child_other left p x = refl
child_other right p x = refl

pub child_kept :
    (s : Side) (p : Ptr) (x : TreapHead) → child s (with_child (flip s) p x) ≡ child s x
child_kept left p x = refl
child_kept right p x = refl

pub child_parent :
    (s : Side) (p : Ptr) (s' : Side) (x : TreapHead) → child s (with_parent p s' x) ≡ child s x
child_parent left p s' x = refl
child_parent right p s' x = refl

-- A node of a tree, with its subtrees named by the side.
abbrev pub RepNode : Heads → Ptr → Side → Ptr → Side → Ptr → Tree → Tree → Type 0
RepNode h parent side p s a t u =
    (p ≡ a)
    × ((a == 0) ≡ false)
    × ((h a).parent ≡ parent)
    × ((h a).which_child ≡ side)
    × Rep h a s (child s (h a)) t
    × Rep h a (flip s) (child (flip s) (h a)) u

pub Rep-RepNode :
    (h : Heads) (parent : Ptr) (side : Side) (p : Ptr) (s : Side) (a : Ptr) (t u : Tree)
    → Rep h parent side p (node_on s a t u)
    → RepNode h parent side p s a t u
Rep-RepNode h parent side p left a t u r = r
Rep-RepNode h parent side p right a t u (e, ne, up, on, l, r) = (e, ne, up, on, r, l)

pub RepNode-Rep :
    (h : Heads) (parent : Ptr) (side : Side) (p : Ptr) (s : Side) (a : Ptr) (t u : Tree)
    → RepNode h parent side p s a t u
    → Rep h parent side p (node_on s a t u)
RepNode-Rep h parent side p left a t u r = r
RepNode-Rep h parent side p right a t u (e, ne, up, on, r, l) = (e, ne, up, on, l, r)

pub Distinct-append :
    (xs ys : List Ptr)
    → Distinct (xs ++ ys)
    → Distinct xs × Distinct ys × ((q : Ptr) → has q xs ≡ true → has q ys ≡ false)
Distinct-append [] ys d = (tt, d, λ q m. ground (arith, m))
Distinct-append (x ∷ xs) ys (n, d) =
    let (dx, dy, apart) = Distinct-append xs ys d in
    (
      (ground (arith, has-append x xs ys), dx),
      dy,
      λ q m. elim (Bool-cases (q == x)) [
        | inl e ↦ rw ((==_iff q x).0 e) (ground (arith, has-append x xs ys))
        | inr ne ↦ apart q (ground arith)
      ],
    )

-- The root of a tree is one of its nodes.
pub Rep-root :
    (h : Heads) (parent : Ptr) (side : Side) (p : Ptr) (t : Tree)
    → Rep h parent side p t
    → (p == 0) ≡ false
    → has p (inorder t) ≡ true
Rep-root h parent side p leaf r ne = ground arith
Rep-root h parent side p (node a l r) (e, z, up, on, rl, rr) ne =
    ground (arith, has-append p (inorder l) (a ∷ inorder r))

pub Rep-root_ne :
    (h : Heads) (parent : Ptr) (side : Side) (p q : Ptr) (t : Tree)
    → Rep h parent side p t
    → (q == 0) ≡ false
    → has q (inorder t) ≡ false
    → (p == q) ≡ false
Rep-root_ne h parent side p q leaf r ne m = ground arith
Rep-root_ne h parent side p q (node a l r) (e, z, up, on, rl, rr) ne m =
    ground (arith, has-append q (inorder l) (a ∷ inorder r))

-- A tree whose root gets another parent and side.
pub Rep-move :
    (h h' : Heads) (parent parent' : Ptr) (side side' : Side) (p : Ptr) (t : Tree)
    → Rep h parent side p t
    → Distinct (inorder t)
    → ((p == 0) ≡ false → h' p ≡ with_parent parent' side' (h p))
    → ((q : Ptr) → has q (inorder t) ≡ true → (q == p) ≡ false → h' q ≡ h q)
    → Rep h' parent' side' p t
Rep-move h h' parent parent' side side' p leaf r d moved same = r
Rep-move h h' parent parent' side side' p (node a l r) (e, ne, up, on, rl, rr) d moved same =
    let (dl, (na, dr), apart) = Distinct-append (inorder l) (a ∷ inorder r) d in
    let here : h' a ≡ with_parent parent' side' (h a) =
      subst (λ x. h' x ≡ with_parent parent' side' (h x)) e (moved (rw e ne)) in
    (
      e,
      ne,
      ap TreapHead.parent here,
      ap TreapHead.which_child here,
      subst (λ q. Rep h' a left q l) (sym (ap TreapHead.left_child here))
          (Rep-frame h h' a left (h a).left_child l rl (λ q m.
            same q (on_left q a (inorder l) (inorder r) m) (rw e (ground (arith, apart q m))))),
      subst (λ q. Rep h' a right q r) (sym (ap TreapHead.right_child here))
          (Rep-frame h h' a right (h a).right_child r rr (λ q m.
            same q (on_right q a (inorder l) (inorder r) m) (rw e (has-ne q a (inorder r) m na)))),
    )

-- The facts about a rotated tree's five parts that a rotation needs: no two share a node.
pub record IsApart (d b : Ptr) (inner outer beside : List Ptr) : Type 0 where
  pub different : (b == d) ≡ false
  pub inner_distinct : Distinct inner
  pub node_out : (has d inner ≡ false) × (has d outer ≡ false) × (has d beside ≡ false)
  pub lower_out : (has b inner ≡ false) × (has b outer ≡ false) × (has b beside ≡ false)
  pub outer_inner : (q : Ptr) → has q outer ≡ true → has q inner ≡ false
  pub beside_inner : (q : Ptr) → has q beside ≡ true → has q inner ≡ false

pub has-on :
    (s : Side) (q a : Ptr) (t u : Tree)
    → has q (inorder (node_on s a t u)) ≡ ((q == a) || (has q (inorder t) || has q (inorder u)))
has-on left q a t u = ground (arith, has-append q (inorder t) (a ∷ inorder u))
has-on right q a t u = ground (arith, has-append q (inorder u) (a ∷ inorder t))

-- What is in the second list is not in the first.
pub apart_sym :
    (us vs : List Ptr)
    → ((q : Ptr) → has q us ≡ true → has q vs ≡ false)
    → (q : Ptr) → has q vs ≡ true
    → has q us ≡ false
apart_sym us vs apart q m = elim (Bool-cases (has q us)) [
  | inl both ↦ cc (apart q both)
  | inr out ↦ out
]

pub has_head : (a : Ptr) (xs : List Ptr) → has a (a ∷ xs) ≡ true
has_head a xs = ground arith

pub Distinct-on :
    (s : Side) (a : Ptr) (t u : Tree)
    → Distinct (inorder (node_on s a t u))
    → Distinct (inorder t)
      × Distinct (inorder u)
      × (has a (inorder t) ≡ false)
      × (has a (inorder u) ≡ false)
      × ((q : Ptr) → has q (inorder t) ≡ true → has q (inorder u) ≡ false)
Distinct-on left a t u d =
    let (dt, (na, du), apart) = Distinct-append (inorder t) (a ∷ inorder u) d in
    (
      dt,
      du,
      apart_sym (inorder t) (a ∷ inorder u) apart a (has_head a (inorder u)),
      na,
      λ q m. ground (arith, apart q m),
    )
Distinct-on right a t u d =
    let (du, (na, dt), apart) = Distinct-append (inorder u) (a ∷ inorder t) d in
    (
      dt,
      du,
      na,
      apart_sym (inorder u) (a ∷ inorder t) apart a (has_head a (inorder t)),
      λ q m. apart_sym (inorder u) (a ∷ inorder t) apart q (ground arith),
    )

pub Distinct-IsApart :
    (s : Side) (d b : Ptr) (t u v : Tree)
    → Distinct (inorder (node_on s d (node_on s b t u) v))
    → IsApart d b (inorder u) (inorder t) (inorder v)
Distinct-IsApart s d b t u v distinct =
    let (dl, dv, nd, ndv, out) = Distinct-on s d (node_on s b t u) v distinct in
    let (dt, du, nbt, nbu, apart) = Distinct-on s b t u dl in
    record {
      different = ground (arith, has-on s d b t u);
      inner_distinct = du;
      node_out = (ground (arith, has-on s d b t u), ground (arith, has-on s d b t u), ndv);
      lower_out = (nbu, nbt, out b (ground (arith, has-on s b b t u)));
      outer_inner = apart;
      beside_inner = λ q m.
          let e = apart_sym (inorder (node_on s b t u)) (inorder v) out q m in
          ground (arith, has-on s q b t u);
    }
