-- ===== src/Treap/Turn.antt =====
-- `treap_rotate` in its context: the tree around the rotated one stays as it is.
use ukoos.Prelude.{
  ◌≡◌, refl, sym, ap, ◌∙◌, subst, true, false, ◌||◌, ◌==◌, ◌++◌, arith, if◌then◌else◌,
}
use ukoos.ListHead.Chain.{has, has-append, has-ne, Distinct}
use ukoos.Treap.{
  Ptr, Side, left, right, flip, TreapHead, child, with_child, Heads, Treap, rotate_heads,
  treap_rotate,
}
use ukoos.Treap.Shape.{
  Tree, node_on, inorder, Rep, Rep-frame, Context, top, under, plug, RepContext,
}
use ukoos.Treap.Rotate.{
  IsSeparate, IsRotated, rotate_heads-IsRotated, child_set, child_other, child_kept, child_parent,
  Rep-RepNode, RepNode-Rep, Rep-root, Rep-root_ne, Rep-move, IsApart, Distinct-IsApart, has-on,
  Distinct-append,
}
use ukoos.Treap.Around.{
  Rep-nonzero, ==_comm_false, around, RepContext-frame, RepContext-nonzero, RepContext-parent_out,
  Distinct-plug,
}

-- Two nodes below each other, with their subtrees.
abbrev pub twice : Side → Ptr → Ptr → Tree → Tree → Tree → Tree
twice s d b t u v = node_on s d (node_on s b t u) v

pub has-twice :
    (s : Side) (q d b : Ptr) (t u v : Tree)
    → has q (inorder (twice s d b t u v))
      ≡ ((q == d) || (((q == b) || (has q (inorder t) || has q (inorder u))) || has q (inorder v)))
has-twice s q d b t u v =
    has-on s q d (node_on s b t u) v
    ∙ ap (λ m. (q == d) || (m || has q (inorder v))) (has-on s q b t u)

IsApart-IsSeparate :
    (h : Heads) (s : Side) (d b c p : Ptr) (t u v : Tree)
    → IsApart d b (inorder u) (inorder t) (inorder v)
    → (d == 0) ≡ false
    → (b == 0) ≡ false
    → Rep h b (flip s) c u
    → has p (inorder (twice s d b t u v)) ≡ false
    → IsSeparate d b c p
IsApart-IsSeparate h s d b c p t u v apart nd nb ru out =
    let parts = sym (has-twice s p d b t u v) ∙ out in
    (
      ground (arith, apart.different),
      Rep-root_ne h b (flip s) c d u ru nd apart.node_out.0,
      Rep-root_ne h b (flip s) c b u ru nb apart.lower_out.0,
      ground (arith, parts),
      ground (arith, parts),
      λ z.
          let out_inner : has p (inorder u) ≡ false = ground (arith, parts) in
          ==_comm_false c p (has-ne c p (inorder u) (Rep-root h b (flip s) c u ru z) out_inner),
    )

-- The tree that a rotation makes of `d`, with `b` below it on the side `s`.
IsRotated-Rep :
    (h h' : Heads) (s side : Side) (d b c p : Ptr) (t u v : Tree)
    → IsRotated h h' s side d b c p
    → IsApart d b (inorder u) (inorder t) (inorder v)
    → (d == 0) ≡ false
    → (b == 0) ≡ false
    → Rep h b s (child s (h b)) t
    → Rep h b (flip s) c u
    → Rep h d (flip s) (child (flip s) (h d)) v
    → has p (inorder (twice s d b t u v)) ≡ false
    → Rep h' p side b (node_on s b t (node_on s d u v))
IsRotated-Rep h h' s side d b c p t u v rotated apart nd nb rt ru rv out =
    let parts = sym (has-twice s p d b t u v) ∙ out in
    let at_b = rotated.at_lower in
    let at_d = rotated.at_node in
    let b_left : child s (h' b) ≡ child s (h b) =
      ap (child s) at_b
      ∙ (child_parent s p side (with_child (flip s) d (h b)) ∙ child_kept s d (h b)) in
    let b_right : child (flip s) (h' b) ≡ d =
      ap (child (flip s)) at_b
      ∙ (child_parent (flip s) p side (with_child (flip s) d (h b)) ∙ child_set (flip s) d (h b)) in
    let d_left : child s (h' d) ≡ c =
      ap (child s) at_d
      ∙ (child_parent s b (flip s) (with_child s c (h d)) ∙ child_set s c (h d)) in
    let d_right : child (flip s) (h' d) ≡ child (flip s) (h d) =
      ap (child (flip s)) at_d
      ∙ (child_parent (flip s) b (flip s) (with_child s c (h d)) ∙ child_other s c (h d)) in
    let (dn, dt, dv) = apart.node_out in
    let (bn, bt, bv) = apart.lower_out in
    let pt : has p (inorder t) ≡ false = ground (arith, parts) in
    let pu : has p (inorder u) ≡ false = ground (arith, parts) in
    let pv : has p (inorder v) ≡ false = ground (arith, parts) in
    let outer : Rep h' b s (child s (h b)) t = Rep-frame h h' b s (child s (h b)) t rt (λ q m.
      rotated.elsewhere q (has-ne q d (inorder t) m dt) (has-ne q b (inorder t) m bt)
        (==_comm_false c q (
          Rep-root_ne h b (flip s) c q u ru (Rep-nonzero h b s (child s (h b)) t rt q m)
            (apart.outer_inner q m)))
        (has-ne q p (inorder t) m pt)) in
    let beside : Rep h' d (flip s) (child (flip s) (h d)) v =
      Rep-frame h h' d (flip s) (child (flip s) (h d)) v rv (λ q m.
        rotated.elsewhere q (has-ne q d (inorder v) m dv) (has-ne q b (inorder v) m bv)
          (==_comm_false c q (
            Rep-root_ne h b (flip s) c q u ru
              (Rep-nonzero h d (flip s) (child (flip s) (h d)) v rv q m) (apart.beside_inner q m)))
          (has-ne q p (inorder v) m pv)) in
    let inner : Rep h' d s c u =
      Rep-move h h' b d (flip s) s c u ru apart.inner_distinct rotated.at_inner (λ q m n.
        rotated.elsewhere q (has-ne q d (inorder u) m dn) (has-ne q b (inorder u) m bn) n
          (has-ne q p (inorder u) m pu)) in
    let low : Rep h' b (flip s) d (node_on s d u v) = RepNode-Rep h' b (flip s) d s d u v (
      refl,
      nd,
      ap TreapHead.parent at_d,
      ap TreapHead.which_child at_d,
      subst (λ q. Rep h' d s q u) (sym d_left) inner,
      subst (λ q. Rep h' d (flip s) q v) (sym d_right) beside,
    ) in
    RepNode-Rep h' p side b s b t (node_on s d u v) (
      refl,
      nb,
      ap TreapHead.parent at_b,
      ap TreapHead.which_child at_b,
      subst (λ q. Rep h' b s q t) (sym b_left) outer,
      subst (λ q. Rep h' b (flip s) q (node_on s d u v)) (sym b_right) low,
    )

with_child_parent : (s : Side) (p : Ptr) (x : TreapHead) → (with_child s p x).parent ≡ x.parent
with_child_parent left p x = refl
with_child_parent right p x = refl

with_child_side :
    (s : Side) (p : Ptr) (x : TreapHead) → (with_child s p x).which_child ≡ x.which_child
with_child_side left p x = refl
with_child_side right p x = refl

-- What is around a place stays as it is, but for the link to the place.
pub RepContext-turned :
    (h h' : Heads) (root : Ptr) (side : Side) (d b p : Ptr) (k : Context)
    → RepContext h root p side d k
    → Distinct (around k)
    → ((p == 0) ≡ false → h' p ≡ with_child side b (h p))
    → ((q : Ptr) → has q (around k) ≡ true → (q == p) ≡ false → h' q ≡ h q)
    → RepContext h' (if p == 0 then b else root) p side b k
RepContext-turned h h' root side d b p top (e, on, r) dk linked same = (e, on, rw e refl)
RepContext-turned h h' root side d b p (under s a u k) (e, ne, on, down, ru, rk) (na, dk) linked
      same =
    let (_, drest, _) = Distinct-append (inorder u) (around k) dk in
    let here : h' a ≡ with_child s b (h a) =
      subst (λ x. h' a ≡ with_child x b (h a)) on
        (subst (λ q. (q == 0) ≡ false → h' q ≡ with_child side b (h q)) e linked ne) in
    let kept : (q : Ptr) → has q (inorder u ++ around k) ≡ true → h' q ≡ h q =
      λ q m. same q (ground arith) (rw e (has-ne q a (inorder u ++ around k) m na)) in
    let above : RepContext h' root (h a).parent (h a).which_child a k =
      RepContext-frame h h' root (h a).parent (h a).which_child a k rk
        (λ q m. kept q (ground (arith, has-append q (inorder u) (around k)))) in
    (
      e,
      ne,
      on,
      ap (child s) here ∙ child_set s b (h a),
      subst (λ q. Rep h' a (flip s) q u) (sym (ap (child (flip s)) here ∙ child_other s b (h a)))
          (Rep-frame h h' a (flip s) (child (flip s) (h a)) u ru
            (λ q m. kept q (ground (arith, has-append q (inorder u) (around k))))),
      subst (λ r. RepContext h' r (h' a).parent (h' a).which_child a k) (rw (e, ne) refl)
          (subst (λ q. RepContext h' root q (h' a).which_child a k)
            (sym (ap TreapHead.parent here ∙ with_child_parent s b (h a)))
            (subst (λ x. RepContext h' root (h a).parent x a k)
              (sym (ap TreapHead.which_child here ∙ with_child_side s b (h a))) above)),
    )

-- `treap_rotate` of a node that has a child on the side, anywhere in a tree of distinct nodes: the
-- child takes the place of the node and the node goes below it, the inner subtree changes sides,
-- every link up and down is right again, and what is around the place, the root included, is as
-- before but for the link to the child.
pub treap_rotate-Rep :
    (x : Treap) (s side : Side) (d b p : Ptr) (t u v : Tree) (k : Context)
    → RepContext x.heads x.root p side d k
    → Rep x.heads p side d (twice s d b t u v)
    → Distinct (inorder (plug k (twice s d b t u v)))
    → let x' = treap_rotate d s x in
      RepContext x'.heads x'.root p side b k
      × Rep x'.heads p side b (node_on s b t (node_on s d u v))
unfolding treap_rotate
treap_rotate-Rep x s side d b p t u v k rk rt distinct =
    let h = x.heads in
    let (dt, dk, apart) = Distinct-plug k (twice s d b t u v) distinct in
    let (_, nd, up, on, rb, rv) = Rep-RepNode h p side d s d (node_on s b t u) v rt in
    let (e, nb, bup, bon, rt', ru) = Rep-RepNode h d s (child s (h d)) s b t u rb in
    let c = child (flip s) (h b) in
    let parts = Distinct-IsApart s d b t u v dt in
    let out = RepContext-parent_out h x.root p side d k (twice s d b t u v) rk rt apart in
    let rotated : IsRotated h (rotate_heads d s h) s side d b c p =
      rotate_heads-IsRotated h d s side b c p
        (IsApart-IsSeparate h s d b c p t u v parts nd nb ru out) up on e refl in
    let spared : (q : Ptr)
        → has q (around k) ≡ true
        → (q == p) ≡ false
        → rotate_heads d s h q ≡ h q =
      λ q m ne.
        let e = sym (has-twice s q d b t u v) ∙ apart q m in
        rotated.elsewhere q (ground arith) (ground arith)
          (==_comm_false c q (
            Rep-root_ne h b (flip s) c q u ru (RepContext-nonzero h x.root p side d k rk q m)
              (ground arith)))
          ne in
    let new_root : (if p == 0 then b else x.root)
        ≡ (if (h d).parent == 0 then child s (h d) else x.root) =
      ap (λ y. if y == 0 then b else x.root) (sym up)
      ∙ ap (λ y. if (h d).parent == 0 then y else x.root) (sym e) in
    (
      subst (λ r. RepContext (rotate_heads d s h) r p side b k) new_root
          (RepContext-turned h (rotate_heads d s h) x.root side d b p k rk dk rotated.at_parent
            spared),
      IsRotated-Rep h (rotate_heads d s h) s side d b c p t u v rotated parts nd nb rt' ru rv out,
    )
