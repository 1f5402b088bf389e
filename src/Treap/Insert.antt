-- ===== src/Treap/Insert.antt =====
-- `treap_insert`: the new node is in its place, and both orders hold again.
use ukoos.Prelude.{
  ℕ, ◌+◌, ◌%◌, ◌^◌, ◌≡◌, refl, ap, ◌∙◌, true, false, ◌==◌, ◌≤◌, ◌>>=◌, List, [], ◌∷◌, arith,
  if◌then◌else◌, Run, ok, Yields,
}
use ukoos.ListHead.Chain.{has, has-ne}
use ukoos.Treap.{
  Ptr, Side, left, TreapHead, Treap, update, draw_priority, find_place, restore_heap, link_leaf,
  treap_insert,
}
use ukoos.Treap.Shape.{Tree, leaf, node, inorder, Rep-frame, top}
use ukoos.Treap.Climb.{size, depth}
use ukoos.Treap.Descend.{IsSearch, find_place-IsPlace, Yields-IsPlace-le}
use ukoos.Treap.Invariant.{IsTreap, Sorted-frame, IsHeap-frame}
use ukoos.Treap.Link.{IsInserted, climb-IsInserted}

-- The state of a node that is in no treap, as `treap_init` leaves it.
abbrev pub IsOutside : TreapHead → Type 0
IsOutside x =
    (x.which_child ≡ left)
    × (x.priority ≡ 0)
    × (x.parent ≡ 0)
    × (x.left_child ≡ 0)
    × (x.right_child ≡ 0)

-- The treap once the priority of the new node is set.
prioritized : Ptr → ℕ → Treap → Treap
prioritized a n t = record t {
  heads = update a (λ h. record h { which_child = left; priority = n % 2 ^ 31 }) t.heads;
}

treap_insert-run :
    (fuel : ℕ) (a n : ℕ) (draws : List ℕ) (t : Treap)
    → IsOutside (t.heads a)
    → (n == 0) ≡ false
    → let x = prioritized a n t in
      treap_insert fuel a (n ∷ draws) t ≡ (
        if x.root == 0 then ok (record x { root = a }, draws) else (do
          place ← find_place fuel (x.heads a).value x.root x.heads
          t' ← restore_heap fuel a place.0 place.1 (link_leaf a place.0 place.1 x)
          ok (t', draws)))
unfolding treap_insert draw_priority prioritized update
treap_insert-run fuel a n draws t (e₁, e₂, e₃, e₄, e₅) ne = rw (e₁, e₂, e₃, e₄, e₅, ne) refl

prioritized-other :
    (a n : ℕ) (t : Treap) (q : Ptr) → (q == a) ≡ false → (prioritized a n t).heads q ≡ t.heads q
unfolding prioritized update
prioritized-other a n t q ne = rw ne refl

prioritized-IsTreap :
    (a n : ℕ) (t : Treap) (tree : Tree)
    → IsTreap t tree
    → has a (inorder tree) ≡ false
    → IsTreap (prioritized a n t) tree
unfolding prioritized
prioritized-IsTreap a n t tree treap fresh =
    let x = prioritized a n t in
    let same = λ (q : Ptr) (m : has q (inorder tree) ≡ true).
      prioritized-other a n t q (has-ne q a (inorder tree) m fresh) in
    record {
      rep = Rep-frame t.heads x.heads 0 left t.root tree treap.rep same;
      distinct = treap.distinct;
      sorted =
          Sorted-frame t.heads x.heads (inorder tree) treap.sorted
            (λ q m. ap TreapHead.value (same q m));
      heap = IsHeap-frame t.heads x.heads tree treap.heap (λ q m. ap TreapHead.priority (same q m));
    }

prioritized-own :
    (a n : ℕ) (t : Treap)
    → IsOutside (t.heads a)
    → let own = (prioritized a n t).heads a in
      (own.value ≡ (t.heads a).value)
      × (own.priority ≡ n % 2 ^ 31)
      × (own.which_child ≡ left)
      × (own.parent ≡ 0)
      × (own.left_child ≡ 0)
      × (own.right_child ≡ 0)
unfolding prioritized update
prioritized-own a n t (e₁, e₂, e₃, e₄, e₅) =
    (ground arith, ground arith, ground arith, ground arith, ground arith, ground arith)

prioritized-value :
    (a n : ℕ) (t : Treap) (q : Ptr) → ((prioritized a n t).heads q).value ≡ (t.heads q).value
unfolding prioritized update
prioritized-value a n t q = ground arith

-- The first node of a treap.
IsTreap-single :
    (x : Treap) (a : Ptr)
    → (a == 0) ≡ false
    → (x.heads a).parent ≡ 0
    → (x.heads a).which_child ≡ left
    → (x.heads a).left_child ≡ 0
    → (x.heads a).right_child ≡ 0
    → IsTreap (record x { root = a }) (node a leaf leaf)
IsTreap-single x a ne up on no_left no_right = record {
  rep = (refl, ne, up, on, no_left, no_right);
  distinct = (refl, tt);
  sorted = (λ q m. ground (arith, m), tt);
  heap = (tt, tt, tt, tt);
}

IsTreap-IsSearch :
    (x : Treap) (v : ℕ) (a : Ptr) (l r : Tree)
    → IsTreap x (node a l r)
    → IsSearch x.heads x.root v top 0 left a (node a l r)
IsTreap-IsSearch x v a l r treap =
    let (e, ne, up, on, rl, rr) = treap.rep in
    record {
      above = (refl, refl, e);
      below = (refl, ne, up, on, rl, rr);
      most = λ q m. ground (arith, m);
      least = λ q m. ground (arith, m);
      sorted = treap.sorted;
      heap = treap.heap;
      open_above = tt;
      fits = λ b l' r' e. tt;
    }

insert-steps :
    (fuel : ℕ) (x y : Treap) (a : Ptr) (draws : List ℕ) (place : Ptr × Side)
    → (x.root == 0) ≡ false
    → find_place fuel (x.heads a).value x.root x.heads ≡ ok place
    → restore_heap fuel a place.0 place.1 (link_leaf a place.0 place.1 x) ≡ ok y
    → Path
        (Run (Treap × List ℕ))
        (if x.root == 0 then ok (record x { root = a }, draws) else (do
          p ← find_place fuel (x.heads a).value x.root x.heads
          t' ← restore_heap fuel a p.0 p.1 (link_leaf a p.0 p.1 x)
          ok (t', draws)))
        (ok (y, draws))
insert-steps fuel x y a draws place z e₁ e₂ = rw (z, e₁, e₂) refl

-- The node is inserted with the given priority, once that is set.
insert-IsInserted :
    (fuel : ℕ) (x : Treap) (tree : Tree) (a : Ptr) (draws : List ℕ)
    → IsTreap x tree
    → has a (inorder tree) ≡ false
    → (a == 0) ≡ false
    → (x.heads a).parent ≡ 0
    → (x.heads a).which_child ≡ left
    → (x.heads a).left_child ≡ 0
    → (x.heads a).right_child ≡ 0
    → size tree ≤ fuel
    → Yields {A = Treap × List ℕ}
        (if x.root == 0 then ok (record x { root = a }, draws) else (do
          place ← find_place fuel (x.heads a).value x.root x.heads
          t' ← restore_heap fuel a place.0 place.1 (link_leaf a place.0 place.1 x)
          ok (t', draws)))
        (λ out. IsInserted x tree a (x.heads a).priority out.0 × (out.1 ≡ draws))
insert-IsInserted fuel x leaf a draws treap fresh ne up on no_left no_right enough =
    let e : (x.root == 0) ≡ true = rw treap.rep refl in
    (
      (record x { root = a }, draws),
      rw e refl,
      (
        record {
          tree' = node a leaf leaf;
          is_treap = IsTreap-single x a ne up on no_left no_right;
          before' = [];
          behind' = [];
          old = refl;
          new = refl;
          values = λ q. refl;
          priorities = λ q n. refl;
          own_priority = refl;
        },
        refl,
      ),
    )
insert-IsInserted fuel x (node b l r) a draws treap fresh ne up on no_left no_right enough =
    let v = (x.heads a).value in
    let e : (x.root == 0) ≡ false = rw (treap.rep.0, treap.rep.1) refl in
    let (place, found, is_place) =
      Yields-IsPlace-le (find_place fuel v b x.heads) x.heads x.root v
        (depth top + size (node b l r)) (size (node b l r)) (node b l r)
        (find_place-IsPlace fuel x.heads x.root v top 0 left b l r
          (IsTreap-IsSearch x v b l r treap) enough)
        (omega arith) in
    let (y, run, done) =
      climb-IsInserted fuel x (node b l r) a place treap fresh ne no_left no_right is_place
        enough in
    (
      (y, draws),
      insert-steps fuel x y a draws place e
          (ap (λ q. find_place fuel v q x.heads) treap.rep.0 ∙ found) run,
      (done, refl),
    )

-- Where the heads form a treap (a tree of distinct nodes, values that never go down from left to
-- right, no priority above that of the parent), the new node is not null, outside the tree and as
-- `treap_init` leaves it, the first number drawn is not zero and there is fuel for the number of
-- nodes: `treap_insert` ends, the heads form a treap again, its nodes from left to right are the
-- old ones with the new one among them, every value and the other priorities are as before, and
-- the new priority is the number drawn modulo 2 ^ 31.
pub treap_insert-IsInserted :
    (fuel : ℕ) (t : Treap) (tree : Tree) (a n : ℕ) (draws : List ℕ)
    → IsTreap t tree
    → has a (inorder tree) ≡ false
    → (a == 0) ≡ false
    → IsOutside (t.heads a)
    → (n == 0) ≡ false
    → size tree ≤ fuel
    → Yields
        (treap_insert fuel a (n ∷ draws) t)
        (λ out. IsInserted t tree a (n % 2 ^ 31) out.0 × (out.1 ≡ draws))
treap_insert-IsInserted fuel t tree a n draws treap fresh ne outside drawn enough =
    let x = prioritized a n t in
    let (_, own, on, up, no_left, no_right) = prioritized-own a n t outside in
    let (out, run, (done, rest)) =
      insert-IsInserted fuel x tree a draws (prioritized-IsTreap a n t tree treap fresh) fresh ne up
        on no_left no_right enough in
    (
      out,
      treap_insert-run fuel a n draws t outside drawn ∙ run,
      (
        record {
          tree' = done.tree';
          is_treap = done.is_treap;
          before' = done.before';
          behind' = done.behind';
          old = done.old;
          new = done.new;
          values = λ q. done.values q ∙ prioritized-value a n t q;
          priorities =
              λ q m. done.priorities q m ∙ ap TreapHead.priority (prioritized-other a n t q m);
          own_priority = done.own_priority ∙ own;
        },
        rest,
      ),
    )
