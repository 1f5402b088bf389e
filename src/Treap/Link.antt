-- ===== src/Treap/Link.antt =====
-- What `treap_insert` does at the free place: the leaf is linked and climbs.
use ukoos.Prelude.{
  ℕ, ◌≡◌, refl, sym, ap, ◌∙◌, subst, false, ◌==◌, ◌≤◌, List, ◌∷◌, ◌++◌, arith, Yields,
}
use ukoos.ListHead.Chain.{has, has-ne, Distinct}
use ukoos.Treap.{
  Ptr, Side, TreapHead, with_child, with_parent, Treap, update, restore_heap, link_leaf,
}
use ukoos.Treap.Shape.{
  Tree, leaf, node, inorder, Rep, Context, under, plug, before, behind, RepContext, inorder-plug,
}
use ukoos.Treap.Around.{around, Distinct-plug}
use ukoos.Treap.Turn.{RepContext-turned}
use ukoos.Treap.Order.{SameKeys-link_leaf, Sorted}
use ukoos.Treap.Climb.{size, IsClimbing, restore_heap-IsRestored}
use ukoos.Treap.Descend.{IsPlace}
use ukoos.Treap.Invariant.{
  IsTreap, Sorted-frame, IsHeap-frame, has-plug, Distinct-insert, Sorted-insert,
}

module _ (x : Treap) (a p : Ptr) (s : Side) (ne : (p == a) ≡ false) where
  link_leaf-parent : (link_leaf a p s x).heads p ≡ with_child s a (x.heads p)
  unfolding link_leaf update
  link_leaf-parent = ground arith

  link_leaf-leaf : (link_leaf a p s x).heads a ≡ with_parent p s (x.heads a)
  unfolding link_leaf update
  link_leaf-leaf = ground arith

  link_leaf-other :
      (q : Ptr) → (q == a) ≡ false → (q == p) ≡ false → (link_leaf a p s x).heads q ≡ x.heads q
  unfolding link_leaf update
  link_leaf-other q n m = ground arith

link_leaf-root : (x : Treap) (a p : Ptr) (s : Side) → (link_leaf a p s x).root ≡ x.root
unfolding link_leaf
link_leaf-root x a p s = refl

-- A leaf that is linked at a free place.
link_leaf-Rep :
    (x : Treap) (a p : Ptr) (s : Side) (u : Tree) (k : Context)
    → RepContext x.heads x.root p s 0 (under s p u k)
    → Distinct (around (under s p u k))
    → has a (around (under s p u k)) ≡ false
    → (a == 0) ≡ false
    → (x.heads a).left_child ≡ 0
    → (x.heads a).right_child ≡ 0
    → let x' = link_leaf a p s x in
      RepContext x'.heads x'.root p s a (under s p u k) × Rep x'.heads p s a (node a leaf leaf)
link_leaf-Rep x a p s u k above distinct fresh ne no_left no_right =
    let x' = link_leaf a p s x in
    let pa : (p == a) ≡ false = ground arith in
    let (_, np, _, _, _, _) = above in
    let there = link_leaf-leaf x a p s pa in
    (
      subst (λ r. RepContext x'.heads r p s a (under s p u k))
          (rw np (sym (link_leaf-root x a p s)))
          (RepContext-turned x.heads x'.heads x.root s 0 a p (under s p u k) above distinct
            (λ z. link_leaf-parent x a p s pa)
            (λ q m n.
              link_leaf-other x a p s pa q (has-ne q a (around (under s p u k)) m fresh) n)),
      (
        refl,
        ne,
        ap TreapHead.parent there,
        ap TreapHead.which_child there,
        ap TreapHead.left_child there ∙ no_left,
        ap TreapHead.right_child there ∙ no_right,
      ),
    )

-- What an insertion of `a` leads to, for the treap `t` with the nodes of `tree`.
pub record IsInserted (t : Treap) (tree : Tree) (a : Ptr) (priority : ℕ) (t' : Treap) : Type 0 where
  pub tree' : Tree
  pub is_treap : IsTreap t' tree'
  pub before' : List Ptr
  pub behind' : List Ptr
  pub old : inorder tree ≡ before' ++ behind'
  pub new : inorder tree' ≡ before' ++ (a ∷ behind')
  pub values : (q : Ptr) → (t'.heads q).value ≡ (t.heads q).value
  pub priorities : (q : Ptr) → (q == a) ≡ false → (t'.heads q).priority ≡ (t.heads q).priority
  pub own_priority : (t'.heads a).priority ≡ priority

-- From the free place to the end: the leaf is linked and climbs.
pub climb-IsInserted :
    (fuel : ℕ) (x : Treap) (tree : Tree) (a : Ptr) (place : Ptr × Side)
    → IsTreap x tree
    → has a (inorder tree) ≡ false
    → (a == 0) ≡ false
    → (x.heads a).left_child ≡ 0
    → (x.heads a).right_child ≡ 0
    → IsPlace x.heads x.root (x.heads a).value (size tree) tree place
    → size tree ≤ fuel
    → Yields
        (restore_heap fuel a place.0 place.1 (link_leaf a place.0 place.1 x))
        (IsInserted x tree a (x.heads a).priority)
climb-IsInserted fuel x tree a (p, s) treap fresh ne no_left no_right found enough =
    let k = under s p found.beside found.rest in
    let x₁ = link_leaf a p s x in
    let keys = SameKeys-link_leaf x a p s in
    let whole : inorder (plug k leaf) ≡ inorder tree = ap inorder found.whole in
    let cut : inorder tree ≡ before k ++ behind k = sym whole ∙ inorder-plug k leaf in
    let new_parts : inorder (plug k (node a leaf leaf)) ≡ before k ++ (a ∷ behind k) =
      inorder-plug k (node a leaf leaf) in
    let (_, around_distinct, _) =
      Distinct-plug k leaf (subst Distinct (sym whole) treap.distinct) in
    let fresh' : has a (around k) ≡ false =
      let e = sym (has-plug a k leaf) ∙ (ap (has a) whole ∙ fresh) in ground arith in
    let (above, below) =
      link_leaf-Rep x a p s found.beside found.rest found.above around_distinct fresh' ne no_left
        no_right in
    let climbing : IsClimbing x.heads x₁ p s a k leaf leaf = record {
      above = above;
      below = below;
      distinct = subst Distinct (sym new_parts) (
          Distinct-insert a (before k) (behind k) (subst Distinct cut treap.distinct)
            (ap (has a) (sym cut) ∙ fresh));
      heap = (tt, tt, tt, tt);
      open_above = found.open_above;
      keys = keys;
    } in
    let (y, run, done) =
      restore_heap-IsRestored fuel x.heads x₁ a s p found.beside found.rest leaf leaf climbing
        (let short = found.shallow in omega arith) in
    (
      y,
      run,
      record {
        tree' = done.tree;
        is_treap = record {
          rep = done.rep;
          distinct = subst Distinct (sym done.order) climbing.distinct;
          sorted = subst (Sorted y.heads) (sym (done.order ∙ new_parts)) (
              Sorted-frame x.heads y.heads (before k ++ (a ∷ behind k))
                (Sorted-insert x.heads a (before k) (behind k)
                  (subst (Sorted x.heads) cut treap.sorted) found.most found.least)
                (λ q m. (done.keys q).0));
          heap = IsHeap-frame x.heads y.heads done.tree done.heap (λ q m. (done.keys q).1);
        };
        before' = before k;
        behind' = behind k;
        old = cut;
        new = done.order ∙ new_parts;
        values = λ q. (done.keys q).0;
        priorities = λ q n. (done.keys q).1;
        own_priority = (done.keys a).1;
      },
    )
