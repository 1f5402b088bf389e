-- ===== src/Treap/Links.antt =====
-- Where a node is in a treap, and that the place hangs on the links of the nodes alone.
use ukoos.Prelude.{◌≡◌, refl, sym, ◌∙◌, subst, true, ◌≤◌, ==_iff, Bool-cases, inl, inr, ◌∷◌, arith}
use ukoos.ListHead.Chain.{has, has-append}
use ukoos.Treap.{Ptr, Side, left, right, flip, child, Heads}
use ukoos.Treap.Shape.{Tree, leaf, node, inorder, Rep, Context, top, under, plug, RepContext}
use ukoos.Treap.Climb.{size}

-- A tree is seen only through the links of its nodes.
unfoldable pub SameLinks : Heads → Heads → Type 0
SameLinks h h' =
    (q : Ptr)
    → ((h' q).parent ≡ (h q).parent)
      × ((h' q).which_child ≡ (h q).which_child)
      × ((h' q).left_child ≡ (h q).left_child)
      × ((h' q).right_child ≡ (h q).right_child)

child-links : (h h' : Heads) (s : Side) (a : Ptr) → SameLinks h h' → child s (h' a) ≡ child s (h a)
unfolding SameLinks
child-links h h' left a same = (same a).2
child-links h h' right a same = (same a).3

pub Rep-links :
    (h h' : Heads) (parent : Ptr) (side : Side) (p : Ptr) (t : Tree)
    → Rep h parent side p t
    → SameLinks h h'
    → Rep h' parent side p t
unfolding SameLinks
Rep-links h h' parent side p leaf r same = r
Rep-links h h' parent side p (node a l r) (e, ne, up, on, rl, rr) same =
    let (e₁, e₂, e₃, e₄) = same a in
    (
      e,
      ne,
      e₁ ∙ up,
      e₂ ∙ on,
      subst (λ q. Rep h' a left q l) (sym e₃) (Rep-links h h' a left (h a).left_child l rl same),
      subst (λ q. Rep h' a right q r) (sym e₄) (Rep-links h h' a right (h a).right_child r rr same),
    )

pub RepContext-links :
    (h h' : Heads) (root parent : Ptr) (side : Side) (p : Ptr) (k : Context)
    → RepContext h root parent side p k
    → SameLinks h h'
    → RepContext h' root parent side p k
unfolding SameLinks
RepContext-links h h' root parent side p top r same = r
RepContext-links h h' root parent side p (under s a u k) (e, ne, on, down, ru, rk) same =
    let (e₁, e₂, _, _) = same a in
    (
      e,
      ne,
      on,
      child-links h h' s a same ∙ down,
      subst (λ q. Rep h' a (flip s) q u) (sym (child-links h h' (flip s) a same))
          (Rep-links h h' a (flip s) (child (flip s) (h a)) u ru same),
      subst (λ q. RepContext h' root q (h' a).which_child a k) (sym e₁)
          (subst (λ y. RepContext h' root (h a).parent y a k) (sym e₂)
            (RepContext-links h h' root (h a).parent (h a).which_child a k rk same)),
    )

pub size-plug : (k : Context) (t : Tree) → size t ≤ size (plug k t)
size-plug top t = omega arith
size-plug (under left a u k) t = let le = size-plug k (node a t u) in omega arith
size-plug (under right a u k) t = let le = size-plug k (node a u t) in omega arith

-- Where a node is in a tree.
pub record IsAt (h : Heads) (root : Ptr) (tree : Tree) (a : Ptr) : Type 0 where
  pub context : Context
  pub l : Tree
  pub r : Tree
  pub above : RepContext h root (h a).parent (h a).which_child a context
  pub below : Rep h (h a).parent (h a).which_child a (node a l r)
  pub whole : plug context (node a l r) ≡ tree

pub has-IsAt :
    (h : Heads) (root parent : Ptr) (side : Side) (p : Ptr) (k : Context) (t : Tree) (a : Ptr)
    → RepContext h root parent side p k
    → Rep h parent side p t
    → has a (inorder t) ≡ true
    → IsAt h root (plug k t) a
has-IsAt h root parent side p k leaf a rk rt m = ground arith
has-IsAt h root parent side p k (node b l r) a rk (e, ne, up, on, rl, rr) m =
    let rk' : RepContext h root (h b).parent (h b).which_child b k =
      subst (λ q. RepContext h root (h b).parent (h b).which_child q k) e
        (subst (λ y. RepContext h root (h b).parent y p k) (sym on)
          (subst (λ q. RepContext h root q side p k) (sym up) rk)) in
    elim (Bool-cases (has a (inorder l))) [
      | inl m' ↦
          has-IsAt h root b left (h b).left_child (under left b r k) l a
            (refl, ne, refl, refl, rr, rk') rl m'
      | inr n ↦ elim (Bool-cases (has a (inorder r))) [
        | inl m' ↦
            has-IsAt h root b right (h b).right_child (under right b l k) r a
              (refl, ne, refl, refl, rl, rk') rr m'
        | inr n' ↦
            let same : b ≡ a =
              sym ((==_iff a b).0 (ground (arith, has-append a (inorder l) (b ∷ inorder r)))) in
            subst (IsAt h root (plug k (node b l r))) same (record {
              context = k;
              l = l;
              r = r;
              above = rk';
              below = (refl, ne, refl, refl, rl, rr);
              whole = refl;
            })
      ]
    ]
