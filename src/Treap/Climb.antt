-- ===== src/Treap/Climb.antt =====
-- The two loops of `treap_insert`: down to the place for a value, and up to restore the heap.
use mathlib.Core.List.{append_assoc}
use ukoos.Prelude.{
  ℕ, zero, suc, ◌+◌, ◌≡◌, refl, sym, ap, ap₂, ◌∙◌, subst, true, false, ◌==◌, ◌≤◌, leb, Bool-cases,
  inl, inr, List, ◌++◌, arith, if◌then◌else◌, ok, Yields,
}
use ukoos.ListHead.Chain.{Distinct}
use ukoos.Treap.{Ptr, Side, left, right, Heads, Treap, treap_rotate, restore_heap}
use ukoos.Treap.Shape.{
  Tree, leaf, node, node_on, inorder, Rep, Context, top, under, plug, before, behind, RepContext,
  inorder-plug,
}
use ukoos.Treap.Rotate.{RepNode-Rep}
use ukoos.Treap.Around.{Rep-plug}
use ukoos.Treap.Turn.{twice, treap_rotate-Rep}
use ukoos.Treap.Order.{
  SameKeys, SameKeys-trans, SameKeys-rotate, TopAtMost, TopAtMost-le, IsHeap, IsHeap-plug, Fits,
}

abbrev pub size : Tree → ℕ
size leaf = 0
size (node a l r) = suc (size l + size r)

abbrev pub depth : Context → ℕ
depth top = 0
depth (under s a u k) = suc (depth k)

inorder-turn :
    (s : Side) (d b : Ptr) (t u v : Tree)
    → inorder (twice s d b t u v) ≡ inorder (node_on s b t (node_on s d u v))
inorder-turn left d b t u v = simp (append_assoc)
inorder-turn right d b t u v = simp (append_assoc)

pub inorder-plug_turn :
    (s : Side) (d b : Ptr) (t u v : Tree) (k : Context)
    → inorder (plug k (twice s d b t u v)) ≡ inorder (plug k (node_on s b t (node_on s d u v)))
inorder-plug_turn s d b t u v k =
    inorder-plug k (twice s d b t u v)
    ∙ (ap (λ xs. before k ++ (xs ++ behind k)) (inorder-turn s d b t u v)
        ∙ sym (inorder-plug k (node_on s b t (node_on s d u v))))

-- What the climb needs to know of the context below the node that it is at, whose subtrees are
-- `l` and `r`: all but that node is in heap order.
abbrev pub IsOpen : Heads → Context → Tree → Tree → Type 0
IsOpen h top l r = Unit
IsOpen h (under s a u k) l r =
    TopAtMost h (h a).priority l
    × TopAtMost h (h a).priority r
    × TopAtMost h (h a).priority u
    × IsHeap h u
    × Fits h k (h a).priority

-- The climb of a node ends, with a heap that has the same nodes in the same order.
pub record IsRestored (h₀ : Heads) (xs : List Ptr) (x : Treap) : Type 0 where
  pub tree : Tree
  pub rep : Rep x.heads 0 left x.root tree
  pub order : inorder tree ≡ xs
  pub heap : IsHeap h₀ tree
  pub keys : SameKeys h₀ x.heads

-- A node in its place: the state of the climb.
pub record IsClimbing (h₀ : Heads) (x : Treap) (parent : Ptr) (side : Side) (a : Ptr) (k : Context)
    (l r : Tree) : Type 0 where
  pub above : RepContext x.heads x.root parent side a k
  pub below : Rep x.heads parent side a (node a l r)
  pub distinct : Distinct (inorder (plug k (node a l r)))
  pub heap : IsHeap h₀ (node a l r)
  pub open_above : IsOpen h₀ k l r
  pub keys : SameKeys h₀ x.heads

IsClimbing-IsRestored :
    (h₀ : Heads) (x : Treap) (parent : Ptr) (side : Side) (a : Ptr) (k : Context) (l r : Tree)
    → IsClimbing h₀ x parent side a k l r
    → Fits h₀ k (h₀ a).priority
    → IsRestored h₀ (inorder (plug k (node a l r))) x
IsClimbing-IsRestored h₀ x parent side a k l r c f = record {
  tree = plug k (node a l r);
  rep = Rep-plug x.heads x.root parent side a k (node a l r) c.above c.below;
  order = refl;
  heap = IsHeap-plug h₀ k a l r c.heap f;
  keys = c.keys;
}

-- After a turn, the context above is open again.
Fits-IsOpen :
    (h : Heads) (k : Context) (m : ℕ) (t v : Tree)
    → Fits h k m
    → TopAtMost h m t
    → ((n : ℕ) → leb m n ≡ true → TopAtMost h n v)
    → IsOpen h k t v
Fits-IsOpen h top m t v f tm vm = tt
Fits-IsOpen h (under s a u k) m t v (le, tu, hu, f) tm vm =
    (TopAtMost-le h m (h a).priority t tm le, vm (h a).priority le, tu, hu, f)

IsOpen-swap : (h : Heads) (k : Context) (l r : Tree) → IsOpen h k l r → IsOpen h k r l
IsOpen-swap h top l r o = tt
IsOpen-swap h (under s a u k) l r (tl, tright, tu, hu, f) = (tright, tl, tu, hu, f)

pub SameKeys-turn : (x : Treap) (d : Ptr) (s : Side) → SameKeys x.heads (treap_rotate d s x).heads
unfolding treap_rotate
SameKeys-turn x d s = SameKeys-rotate x.heads d s

treap_rotate-climb :
    (x : Treap) (parent : Ptr) (side s : Side) (d a : Ptr) (k : Context) (t w u : Tree)
    → RepContext x.heads x.root parent side a (under s d u k)
    → Rep x.heads parent side a (node_on s a t w)
    → Distinct (inorder (plug k (twice s d a t w u)))
    → let x' = treap_rotate d s x in
      let h = x.heads d in
      RepContext x'.heads x'.root h.parent h.which_child a k
      × Rep x'.heads h.parent h.which_child a (node_on s a t (node_on s d w u))
treap_rotate-climb x parent side s d a k t w u (e, ne, on, down, ru, rk) rt distinct =
    treap_rotate-Rep x s (x.heads d).which_child d a (x.heads d).parent t w u k rk
      (RepNode-Rep x.heads (x.heads d).parent (x.heads d).which_child d s d (node_on s a t w) u (
        refl,
        ne,
        refl,
        refl,
        subst (λ q. Rep x.heads d s q (node_on s a t w)) (sym down)
            (subst (λ y. Rep x.heads d y a (node_on s a t w)) on
              (subst (λ q. Rep x.heads q side a (node_on s a t w)) e rt)),
        ru,
      ))
      distinct

-- One round of the loop: the node is turned above its parent `d`.
IsClimbing-left :
    (h₀ : Heads) (x : Treap) (parent d : Ptr) (side : Side) (a : Ptr) (k : Context) (l r u : Tree)
    → IsClimbing h₀ x parent side a (under left d u k) l r
    → leb (h₀ a).priority (h₀ d).priority ≡ false
    → IsClimbing h₀
        (treap_rotate d left x)
        (x.heads d).parent
        (x.heads d).which_child
        a
        k
        l
        (node d r u)
IsClimbing-left h₀ x parent d side a k l r u c lt =
    let (above, below) =
      treap_rotate-climb x parent side left d a k l r u c.above c.below c.distinct in
    let (tl, tright, hl, hr) = c.heap in
    let (dl, dr, du, hu, f) = c.open_above in
    record {
      above = above;
      below = below;
      distinct = subst Distinct (inorder-plug_turn left d a l r u k) c.distinct;
      heap = (tl, ground arith, hl, (dr, du, hr, hu));
      open_above = Fits-IsOpen h₀ k (h₀ d).priority l (node d r u) f dl (λ n le. le);
      keys =
          SameKeys-trans h₀ x.heads (treap_rotate d left x).heads c.keys (SameKeys-turn x d left);
    }

IsClimbing-right :
    (h₀ : Heads) (x : Treap) (parent d : Ptr) (side : Side) (a : Ptr) (k : Context) (l r u : Tree)
    → IsClimbing h₀ x parent side a (under right d u k) l r
    → leb (h₀ a).priority (h₀ d).priority ≡ false
    → IsClimbing h₀
        (treap_rotate d right x)
        (x.heads d).parent
        (x.heads d).which_child
        a
        k
        (node d u l)
        r
IsClimbing-right h₀ x parent d side a k l r u c lt =
    let (above, below) =
      treap_rotate-climb x parent side right d a k r l u c.above c.below c.distinct in
    let (tl, tright, hl, hr) = c.heap in
    let (dl, dr, du, hu, f) = c.open_above in
    record {
      above = above;
      below = below;
      distinct = subst Distinct (inorder-plug_turn right d a r l u k) c.distinct;
      heap = (ground arith, tright, (du, dl, hu, hl), hr);
      open_above =
          IsOpen-swap h₀ k r (node d u l)
            (Fits-IsOpen h₀ k (h₀ d).priority r (node d u l) f dr (λ n le. le));
      keys =
          SameKeys-trans h₀ x.heads (treap_rotate d right x).heads c.keys (SameKeys-turn x d right);
    }

module _ (fuel : ℕ) (x : Treap) (a parent : Ptr) (side : Side) where
  restore_heap-stop :
      leb (x.heads a).priority (x.heads parent).priority ≡ true
      → restore_heap (suc fuel) a parent side x ≡ ok x
  unfolding restore_heap
  restore_heap-stop le = rw le refl

  restore_heap-turn :
      leb (x.heads a).priority (x.heads parent).priority ≡ false
      → restore_heap (suc fuel) a parent side x ≡ (
          let x' = treap_rotate parent side x in
          if (x'.heads a).parent == 0
          then ok x'
          else restore_heap fuel a (x'.heads a).parent (x'.heads a).which_child x')
  unfolding restore_heap
  restore_heap-turn gt = rw gt refl

-- One round, when the rest of the loop is known.
restore_heap-round :
    (fuel : ℕ) (h₀ : Heads) (x : Treap) (d : Ptr) (s : Side) (p' : Ptr) (s' : Side) (a : Ptr)
    (k : Context) (l r : Tree) (xs : List Ptr)
    → leb (x.heads a).priority (x.heads d).priority ≡ false
    → IsClimbing h₀ (treap_rotate d s x) p' s' a k l r
    → inorder (plug k (node a l r)) ≡ xs
    → depth k ≤ fuel
    → ((s₂ : Side) (d₂ : Ptr) (u₂ : Tree) (k₂ : Context)
        → IsClimbing h₀ (treap_rotate d s x) d₂ s₂ a (under s₂ d₂ u₂ k₂) l r
        → depth (under s₂ d₂ u₂ k₂) ≤ fuel
        → Yields
            (restore_heap fuel a d₂ s₂ (treap_rotate d s x))
            (IsRestored h₀ (inorder (plug (under s₂ d₂ u₂ k₂) (node a l r)))))
    → Yields (restore_heap (suc fuel) a d s x) (IsRestored h₀ xs)
restore_heap-round fuel h₀ x d s p' s' a top l r xs gt c e enough rest =
    let x' = treap_rotate d s x in
    let (_, _, up, on, _, _) = c.below in
    let at_top : ((x'.heads a).parent == 0) ≡ true = rw (up, c.above.0) refl in
    (
      x',
      restore_heap-turn fuel x a d s gt ∙ rw at_top refl,
      subst (λ ys. IsRestored h₀ ys x') e (IsClimbing-IsRestored h₀ x' p' s' a top l r c tt),
    )
restore_heap-round fuel h₀ x d s p' s' a (under s₂ d₂ u₂ k₂) l r xs gt c e enough rest =
    let x' = treap_rotate d s x in
    let (_, _, up, on, _, _) = c.below in
    let (e', ne, on', _, _, _) = c.above in
    let not_top : ((x'.heads a).parent == 0) ≡ false = rw (up, e') ne in
    let c' =
      subst (λ q. IsClimbing h₀ x' q s₂ a (under s₂ d₂ u₂ k₂) l r) e'
        (subst (λ t. IsClimbing h₀ x' p' t a (under s₂ d₂ u₂ k₂) l r) on' c) in
    let (y, run, done) = rest s₂ d₂ u₂ k₂ c' enough in
    (
      y,
      restore_heap-turn fuel x a d s gt
          ∙ (rw not_top (ap₂ (λ q t. restore_heap fuel a q t x') (up ∙ e') (on ∙ on')) ∙ run),
      subst (λ ys. IsRestored h₀ ys y) e done,
    )

restore_heap-stopped :
    (fuel : ℕ) (h₀ : Heads) (x : Treap) (a : Ptr) (s : Side) (d : Ptr) (u : Tree) (k : Context)
    (l r : Tree)
    → IsClimbing h₀ x d s a (under s d u k) l r
    → leb (h₀ a).priority (h₀ d).priority ≡ true
    → Yields
        (restore_heap (suc fuel) a d s x)
        (IsRestored h₀ (inorder (plug (under s d u k) (node a l r))))
restore_heap-stopped fuel h₀ x a s d u k l r c le =
    let (_, _, du, hu, f) = c.open_above in
    (
      x,
      restore_heap-stop fuel x a d s (rw ((c.keys a).1, (c.keys d).1) le),
      IsClimbing-IsRestored h₀ x d s a (under s d u k) l r c (le, du, hu, f),
    )

-- The loop, from any place: the climb ends within the depth of the place.
pub restore_heap-IsRestored :
    (fuel : ℕ) (h₀ : Heads) (x : Treap) (a : Ptr) (s : Side) (d : Ptr) (u : Tree) (k : Context)
    (l r : Tree)
    → IsClimbing h₀ x d s a (under s d u k) l r
    → depth (under s d u k) ≤ fuel
    → Yields
        (restore_heap fuel a d s x)
        (IsRestored h₀ (inorder (plug (under s d u k) (node a l r))))
restore_heap-IsRestored zero h₀ x a s d u k l r c enough = ground arith
restore_heap-IsRestored (suc fuel) h₀ x a left d u k l r c enough =
    elim (Bool-cases (leb (h₀ a).priority (h₀ d).priority)) [
      | inl le ↦ restore_heap-stopped fuel h₀ x a left d u k l r c le
      | inr gt ↦
          restore_heap-round fuel h₀ x d left (x.heads d).parent (x.heads d).which_child a k l
            (node d r u) (inorder (plug (under left d u k) (node a l r)))
            (rw ((c.keys a).1, (c.keys d).1) gt) (IsClimbing-left h₀ x d d left a k l r u c gt)
            (sym (inorder-plug_turn left d a l r u k)) (ground arith)
            (λ s₂ d₂ u₂ k₂.
              restore_heap-IsRestored fuel h₀ (treap_rotate d left x) a s₂ d₂ u₂ k₂ l (node d r u))
    ]
restore_heap-IsRestored (suc fuel) h₀ x a right d u k l r c enough =
    elim (Bool-cases (leb (h₀ a).priority (h₀ d).priority)) [
      | inl le ↦ restore_heap-stopped fuel h₀ x a right d u k l r c le
      | inr gt ↦
          restore_heap-round fuel h₀ x d right (x.heads d).parent (x.heads d).which_child a k
            (node d u l) r (inorder (plug (under right d u k) (node a l r)))
            (rw ((c.keys a).1, (c.keys d).1) gt) (IsClimbing-right h₀ x d d right a k l r u c gt)
            (sym (inorder-plug_turn right d a r l u k)) (ground arith)
            (λ s₂ d₂ u₂ k₂.
              restore_heap-IsRestored fuel h₀ (treap_rotate d right x) a s₂ d₂ u₂ k₂ (node d u l) r)
    ]
