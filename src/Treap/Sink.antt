-- ===== src/Treap/Sink.antt =====
-- The loop of `treap_remove` that brings a node down to a leaf by rotations.
use ukoos.Prelude.{
  ℕ, zero, suc, ◌+◌, ◌≡◌, refl, sym, ◌∙◌, subst, true, false, ◌==◌, ◌<◌, List, arith, ok, Yields,
}
use ukoos.ListHead.Chain.{Distinct}
use ukoos.Treap.{Ptr, Side, left, right, flip, child, Heads, Treap, treap_rotate, sink}
use ukoos.Treap.Shape.{Tree, leaf, node, node_on, inorder, Rep, Context, under, plug, RepContext}
use ukoos.Treap.Rotate.{Rep-RepNode, RepNode-Rep}
use ukoos.Treap.Turn.{treap_rotate-Rep}
use ukoos.Treap.Order.{SameKeys, SameKeys-trans}
use ukoos.Treap.Climb.{size, inorder-plug_turn, SameKeys-turn}

-- A node in a context, on its way down.
pub record IsSinking (h₀ : Heads) (x : Treap) (a : Ptr) (k : Context) (l r : Tree) : Type 0 where
  pub above : RepContext x.heads x.root (x.heads a).parent (x.heads a).which_child a k
  pub below : Rep x.heads (x.heads a).parent (x.heads a).which_child a (node a l r)
  pub distinct : Distinct (inorder (plug k (node a l r)))
  pub keys : SameKeys h₀ x.heads

-- A leaf, with the nodes of the treap in the given order.
pub record IsSunk (h₀ : Heads) (xs : List Ptr) (a : Ptr) (x : Treap) : Type 0 where
  pub context : Context
  pub sinking : IsSinking h₀ x a context leaf leaf
  pub order : inorder (plug context (node a leaf leaf)) ≡ xs

flip-flip : (s : Side) → flip (flip s) ≡ s
flip-flip left = refl
flip-flip right = refl

treap_rotate-sink :
    (x : Treap) (a : Ptr) (k : Context) (s : Side) (b : Ptr) (t u v : Tree)
    → RepContext x.heads x.root (x.heads a).parent (x.heads a).which_child a k
    → Rep x.heads (x.heads a).parent (x.heads a).which_child a (node_on s a (node_on s b t u) v)
    → Distinct (inorder (plug k (node_on s a (node_on s b t u) v)))
    → let x' = treap_rotate a s x in
      RepContext x'.heads x'.root
        (x'.heads a).parent
        (x'.heads a).which_child
        a
        (under (flip s) b t k)
      × Rep x'.heads (x'.heads a).parent (x'.heads a).which_child a (node_on s a u v)
treap_rotate-sink x a k s b t u v above below distinct =
    let x' = treap_rotate a s x in
    let (rk, rb) =
      treap_rotate-Rep x s (x.heads a).which_child a b (x.heads a).parent t u v k above below
        distinct in
    let (e, nb, up, on, rt, ra) =
      Rep-RepNode x'.heads (x.heads a).parent (x.heads a).which_child b s b t (node_on s a u v)
        rb in
    let (e', na, up', on', ru, rv) =
      Rep-RepNode x'.heads b (flip s) (child (flip s) (x'.heads b)) s a u v ra in
    (
      (
        up',
        nb,
        on',
        e',
        subst (λ c. Rep x'.heads b c (child c (x'.heads b)) t) (sym (flip-flip s)) rt,
        subst (λ q. RepContext x'.heads x'.root q (x'.heads b).which_child b k) (sym up)
            (subst (λ y. RepContext x'.heads x'.root (x.heads a).parent y b k) (sym on) rk),
      ),
      RepNode-Rep x'.heads (x'.heads a).parent (x'.heads a).which_child a s a u v
          (refl, na, refl, refl, ru, rv),
    )

-- One round of the loop, to the left and to the right.
IsSinking-left :
    (h₀ : Heads) (x : Treap) (a : Ptr) (k : Context) (b : Ptr) (t u r : Tree)
    → IsSinking h₀ x a k (node b t u) r
    → IsSinking h₀ (treap_rotate a left x) a (under right b t k) u r
IsSinking-left h₀ x a k b t u r c =
    let (above, below) = treap_rotate-sink x a k left b t u r c.above c.below c.distinct in
    record {
      above = above;
      below = below;
      distinct = subst Distinct (inorder-plug_turn left a b t u r k) c.distinct;
      keys =
          SameKeys-trans h₀ x.heads (treap_rotate a left x).heads c.keys (SameKeys-turn x a left);
    }

IsSinking-right :
    (h₀ : Heads) (x : Treap) (a : Ptr) (k : Context) (b : Ptr) (t u : Tree)
    → IsSinking h₀ x a k leaf (node b u t)
    → IsSinking h₀ (treap_rotate a right x) a (under left b t k) leaf u
IsSinking-right h₀ x a k b t u c =
    let (above, below) =
      treap_rotate-sink x a k right b t u leaf c.above
        (RepNode-Rep x.heads (x.heads a).parent (x.heads a).which_child a right a (node b u t) leaf
          (Rep-RepNode x.heads (x.heads a).parent (x.heads a).which_child a right a (node b u t)
            leaf c.below))
        c.distinct in
    record {
      above = above;
      below = below;
      distinct = subst Distinct (inorder-plug_turn right a b t u leaf k) c.distinct;
      keys =
          SameKeys-trans h₀ x.heads (treap_rotate a right x).heads c.keys (SameKeys-turn x a right);
    }

module _ (fuel : ℕ) (x : Treap) (a : Ptr) where
  sink-leaf :
      ((x.heads a).left_child == 0) ≡ true
      → ((x.heads a).right_child == 0) ≡ true
      → sink (suc fuel) a x ≡ ok x
  unfolding sink
  sink-leaf e e' = rw (e, e') refl

  sink-right :
      ((x.heads a).left_child == 0) ≡ true
      → ((x.heads a).right_child == 0) ≡ false
      → sink (suc fuel) a x ≡ sink fuel a (treap_rotate a right x)
  unfolding sink
  sink-right e e' = rw (e, e') refl

  sink-left :
      ((x.heads a).left_child == 0) ≡ false
      → sink (suc fuel) a x ≡ sink fuel a (treap_rotate a left x)
  unfolding sink
  sink-left e = rw e refl

-- The loop ends at a leaf, within as many rounds as there are nodes below.
pub sink-IsSunk :
    (fuel : ℕ) (h₀ : Heads) (x : Treap) (a : Ptr) (k : Context) (l r : Tree)
    → IsSinking h₀ x a k l r
    → size l + size r < fuel
    → Yields (sink fuel a x) (IsSunk h₀ (inorder (plug k (node a l r))) a)
sink-IsSunk zero h₀ x a k l r c enough = ground arith
sink-IsSunk (suc fuel) h₀ x a k leaf leaf c enough = (
  x,
  sink-leaf fuel x a (rw c.below.4 refl) (rw c.below.5 refl),
  record { context = k; sinking = c; order = refl },
)
sink-IsSunk (suc fuel) h₀ x a k leaf (node b u t) c enough =
    let (y, run, done) =
      sink-IsSunk fuel h₀ (treap_rotate a right x) a (under left b t k) leaf u
        (IsSinking-right h₀ x a k b t u c) (omega arith) in
    (
      y,
      sink-right fuel x a (rw c.below.4 refl)
            (let (_, _, _, _, _, (e, ne, _, _, _, _)) = c.below in rw e ne)
          ∙ run,
      record {
        context = done.context;
        sinking = done.sinking;
        order = done.order ∙ sym (inorder-plug_turn right a b t u leaf k);
      },
    )
sink-IsSunk (suc fuel) h₀ x a k (node b t u) r c enough =
    let (y, run, done) =
      sink-IsSunk fuel h₀ (treap_rotate a left x) a (under right b t k) u r
        (IsSinking-left h₀ x a k b t u r c) (omega arith) in
    (
      y,
      sink-left fuel x a (let (_, _, _, _, (e, ne, _, _, _, _), _) = c.below in rw e ne) ∙ run,
      record {
        context = done.context;
        sinking = done.sinking;
        order = done.order ∙ sym (inorder-plug_turn left a b t u r k);
      },
    )
