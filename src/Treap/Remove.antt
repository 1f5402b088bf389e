-- ===== src/Treap/Remove.antt =====
-- `treap_remove`: the node goes down to a leaf by rotations and is taken off.
use ukoos.Prelude.{
  ℕ, ◌≡◌, refl, sym, ap, ◌∙◌, subst, true, false, ◌==◌, ◌≤◌, ==_iff, ==_refl, ◌>>=◌, Bool-cases,
  inl, inr, List, [], ◌∷◌, ◌++◌, arith, if◌then◌else◌, ok, Yields,
}
use ukoos.ListHead.Chain.{has, has-append, has-ne, Distinct}
use ukoos.Treap.{
  Ptr, left, TreapHead, with_child, Heads, Treap, update, sink, unlink_leaf, treap_init,
  treap_remove,
}
use ukoos.Treap.Shape.{
  Tree, leaf, node, inorder, Rep, Rep-frame, Context, top, under, plug, before, behind, RepContext,
  inorder-plug,
}
use ukoos.Treap.Rotate.{Distinct-append, apart_sym, has_head}
use ukoos.Treap.Around.{around, Rep-plug, Distinct-plug, Distinct-join}
use ukoos.Treap.Turn.{RepContext-turned}
use ukoos.Treap.Order.{SameKeys, SameKeys-child, Sorted}
use ukoos.Treap.Climb.{size}
use ukoos.Treap.Insert.{IsOutside}
use ukoos.Treap.Invariant.{IsTreap, has-plug, Sorted-frame}
use ukoos.Treap.Sink.{IsSinking, sink-IsSunk}
use ukoos.Treap.Links.{SameLinks, Rep-links, RepContext-links, size-plug, IsAt, has-IsAt}

-- What a removal of `a` leads to, for the treap `t` with the nodes of `tree`.
pub record IsRemoved (t : Treap) (tree : Tree) (a : Ptr) (t' : Treap) : Type 0 where
  pub tree' : Tree
  pub rep : Rep t'.heads 0 left t'.root tree'
  pub distinct : Distinct (inorder tree')
  pub sorted : Sorted t'.heads (inorder tree')
  pub before' : List Ptr
  pub behind' : List Ptr
  pub old : inorder tree ≡ before' ++ (a ∷ behind')
  pub new : inorder tree' ≡ before' ++ behind'
  pub outside : IsOutside (t'.heads a)
  pub values : (q : Ptr) → (t'.heads q).value ≡ (t.heads q).value
  pub priorities : (q : Ptr) → (q == a) ≡ false → (t'.heads q).priority ≡ (t.heads q).priority

-- The leaf is taken off, and the rest of the treap stays.
unlink_leaf-Rep :
    (x : Treap) (a : Ptr) (k : Context)
    → RepContext x.heads x.root (x.heads a).parent (x.heads a).which_child a k
    → Distinct (around k)
    → Yields
        (unlink_leaf a x)
        (λ x'. Rep x'.heads 0 left x'.root (plug k leaf) × SameKeys x.heads x'.heads)
unfolding unlink_leaf
unlink_leaf-Rep x a top (up, on, at_root) distinct =
    (record x { root = 0 }, rw (up, at_root, ==_refl a) refl, (refl, λ q. (refl, refl)))
unlink_leaf-Rep x a (under s b u k) above distinct =
    let (up, ne, on, down, ru, rk) = above in
    let x' : Treap = record x { heads = update b (with_child s 0) x.heads } in
    let turned : RepContext x'.heads (if b == 0 then 0 else x.root) b s 0 (under s b u k) =
      RepContext-turned x.heads x'.heads x.root s a 0 b (under s b u k)
        (refl, ne, refl, down, ru, rk) distinct (λ z. rw (==_refl b) refl) (λ q m n. rw n refl) in
    let same_root : (if b == 0 then 0 else x.root) ≡ x.root = rw ne refl in
    (
      x',
      rw (up, ne, on, down, ==_refl a) refl,
      (
        Rep-plug x'.heads x.root b s 0 (under s b u k) leaf
            (subst (λ r. RepContext x'.heads r b s 0 (under s b u k)) same_root turned) refl,
        SameKeys-child x.heads x.heads b s 0 (λ q. (refl, refl)),
      ),
    )

-- The node with its priority taken away.
demoted : Ptr → Treap → Treap
demoted a t = record t { heads = update a (λ h. record h { priority = 0 }) t.heads }

demoted-SameLinks : (a : Ptr) (t : Treap) → SameLinks t.heads (demoted a t).heads
unfolding demoted update SameLinks
demoted-SameLinks a t q = (ground arith, ground arith, ground arith, ground arith)

demoted-keys :
    (a : Ptr) (t : Treap) (q : Ptr)
    → (((demoted a t).heads q).value ≡ (t.heads q).value)
      × ((q == a) ≡ false → ((demoted a t).heads q).priority ≡ (t.heads q).priority)
unfolding demoted update
demoted-keys a t q = (ground arith, λ n. ground arith)

demoted-root : (a : Ptr) (t : Treap) → (demoted a t).root ≡ t.root
unfolding demoted
demoted-root a t = refl

treap_remove-run :
    (fuel : ℕ) (a : Ptr) (t : Treap)
    → ((t.heads a).priority == 0) ≡ false
    → treap_remove fuel a t ≡ (do
      t₂ ← sink fuel a (demoted a t)
      t₃ ← unlink_leaf a t₂
      ok (record t₃ { heads = treap_init a (t₃.heads a).value t₃.heads }))
unfolding treap_remove demoted
treap_remove-run fuel a t ne = rw ne refl

treap_remove-steps :
    (fuel : ℕ) (a : Ptr) (t t₂ t₃ : Treap)
    → ((t.heads a).priority == 0) ≡ false
    → sink fuel a (demoted a t) ≡ ok t₂
    → unlink_leaf a t₂ ≡ ok t₃
    → treap_remove fuel a t ≡ ok (record t₃ { heads = treap_init a (t₃.heads a).value t₃.heads })
treap_remove-steps fuel a t t₂ t₃ ne e e' = treap_remove-run fuel a t ne ∙ rw (e, e') refl

treap_init-other : (a v : ℕ) (h : Heads) (q : Ptr) → (q == a) ≡ false → treap_init a v h q ≡ h q
unfolding treap_init
treap_init-other a v h q n = rw n refl

treap_init-IsOutside : (a v : ℕ) (h : Heads) → IsOutside (treap_init a v h a)
unfolding treap_init
treap_init-IsOutside a v h = rw (==_refl a) (refl, refl, refl, refl, refl)

treap_init-value :
    (a : ℕ) (h : Heads) (q : Ptr) → (treap_init a (h a).value h q).value ≡ (h q).value
unfolding treap_init
treap_init-value a h q = elim (Bool-cases (q == a)) [
  | inl e ↦ rw ((==_iff q a).0 e) (rw (==_refl a) refl)
  | inr n ↦ rw n refl
]

Sorted-delete :
    (h : Heads) (xs : List Ptr) (a : Ptr) (ys : List Ptr)
    → Sorted h (xs ++ (a ∷ ys))
    → Sorted h (xs ++ ys)
Sorted-delete h [] a ys (least, s) = s
Sorted-delete h (x ∷ xs) a ys (least, s) = (
  λ q m. least q (let e = sym (has-append q xs ys) ∙ m in ground (arith, has-append q xs (a ∷ ys))),
  Sorted-delete h xs a ys s,
)

Distinct-delete :
    (xs : List Ptr) (a : Ptr) (ys : List Ptr) → Distinct (xs ++ (a ∷ ys)) → Distinct (xs ++ ys)
Distinct-delete xs a ys d =
    let (dx, (n, dy), apart) = Distinct-append xs (a ∷ ys) d in
    Distinct-join xs ys dx dy (λ q m. ground (arith, apart q m))

IsAt-IsSinking :
    (a : Ptr) (t : Treap) (tree : Tree) (place : IsAt t.heads t.root tree a)
    → IsTreap t tree
    → IsSinking (demoted a t).heads (demoted a t) a place.context place.l place.r
unfolding SameLinks
IsAt-IsSinking a t tree place treap =
    let x = demoted a t in
    let links = demoted-SameLinks a t in
    let (up, on, _, _) = links a in
    record {
      above =
          subst (λ q. RepContext x.heads x.root q (x.heads a).which_child a place.context) (sym up)
            (subst (λ y. RepContext x.heads x.root (t.heads a).parent y a place.context) (sym on)
              (subst
                (λ r.
                  RepContext x.heads r (t.heads a).parent (t.heads a).which_child a place.context)
                (sym (demoted-root a t))
                (RepContext-links t.heads x.heads t.root (t.heads a).parent (t.heads a).which_child
                  a place.context place.above links)));
      below =
          subst (λ q. Rep x.heads q (x.heads a).which_child a (node a place.l place.r)) (sym up)
            (subst (λ y. Rep x.heads (t.heads a).parent y a (node a place.l place.r)) (sym on)
              (Rep-links t.heads x.heads (t.heads a).parent (t.heads a).which_child a
                (node a place.l place.r) place.below links));
      distinct = subst (λ u. Distinct (inorder u)) (sym place.whole) treap.distinct;
      keys = λ q. (refl, refl);
    }

-- For a node with a priority of a treap, with fuel for the number of nodes: `treap_remove` ends
-- without a failed assertion, the heads form a tree of the other nodes in the same order, the
-- values as before and in order, and the node is as `treap_init` leaves it.
pub treap_remove-IsRemoved :
    (fuel : ℕ) (a : Ptr) (t : Treap) (tree : Tree)
    → IsTreap t tree
    → has a (inorder tree) ≡ true
    → ((t.heads a).priority == 0) ≡ false
    → size tree ≤ fuel
    → Yields (treap_remove fuel a t) (IsRemoved t tree a)
treap_remove-IsRemoved fuel a t tree treap m ne enough =
    let place = has-IsAt t.heads t.root 0 left t.root top tree a (refl, refl, refl) treap.rep m in
    let x = demoted a t in
    let keys = demoted-keys a t in
    let (t₂, run, sunk) =
      sink-IsSunk fuel x.heads x a place.context place.l place.r
        (IsAt-IsSinking a t tree place treap)
        (let e = ap size place.whole in
          let le = size-plug place.context (node a place.l place.r) in omega arith) in
    let k = sunk.context in
    let s = sunk.sinking in
    let (_, around_distinct, apart) = Distinct-plug k (node a leaf leaf) s.distinct in
    let (t₃, run', (rep, keys')) = unlink_leaf-Rep t₂ a k s.above around_distinct in
    let old : inorder tree ≡ before k ++ (a ∷ behind k) =
      ap inorder (sym place.whole) ∙ (sym sunk.order ∙ inorder-plug k (node a leaf leaf)) in
    let gone : has a (inorder (plug k leaf)) ≡ false =
      has-plug a k leaf ∙ ground (arith, apart_sym (around k) (a ∷ []) apart a (has_head a [])) in
    let h' = treap_init a (t₃.heads a).value t₃.heads in
    let values : (q : Ptr) → (h' q).value ≡ (t.heads q).value =
      λ q. treap_init-value a t₃.heads q ∙ ((keys' q).0 ∙ ((s.keys q).0 ∙ (keys q).0)) in
    (
      record t₃ { heads = h' },
      treap_remove-steps fuel a t t₂ t₃ ne run run',
      record {
        tree' = plug k leaf;
        rep = Rep-frame t₃.heads h' 0 left t₃.root (plug k leaf) rep (λ q m.
            treap_init-other a (t₃.heads a).value t₃.heads q
              (has-ne q a (inorder (plug k leaf)) m gone));
        distinct =
            subst Distinct (sym (inorder-plug k leaf))
              (Distinct-delete (before k) a (behind k) (subst Distinct old treap.distinct));
        sorted = subst (Sorted h') (sym (inorder-plug k leaf)) (
            Sorted-frame t.heads h' (before k ++ behind k)
              (Sorted-delete t.heads (before k) a (behind k)
                (subst (Sorted t.heads) old treap.sorted))
              (λ q m. values q));
        before' = before k;
        behind' = behind k;
        old = old;
        new = inorder-plug k leaf;
        outside = treap_init-IsOutside a (t₃.heads a).value t₃.heads;
        values = values;
        priorities = λ q n.
            ap TreapHead.priority (treap_init-other a (t₃.heads a).value t₃.heads q n)
            ∙ ((keys' q).1 ∙ ((s.keys q).1 ∙ (keys q).1 n));
      },
    )
