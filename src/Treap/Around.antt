-- ===== src/Treap/Around.antt =====
-- The tree around a place of a treap.
use ukoos.Prelude.{
  ℕ, ◌≡◌, refl, sym, ap, ◌∙◌, subst, true, false, ◌==◌, ==_iff, Bool-cases, inl, inr, List, [], ◌∷◌,
  ◌++◌, arith,
}
use ukoos.ListHead.Chain.{has, has-append, Distinct}
use ukoos.Treap.{Ptr, Side, left, right, flip, child, Heads}
use ukoos.Treap.Shape.{
  Tree, leaf, node, node_on, inorder, Rep, Rep-frame, Context, top, under, plug, RepContext,
}
use ukoos.Treap.Rotate.{RepNode-Rep, has-on, has_head, Distinct-on, apart_sym}

-- The nodes of a represented tree are not null.
pub Rep-nonzero :
    (h : Heads) (parent : Ptr) (side : Side) (p : Ptr) (t : Tree)
    → Rep h parent side p t
    → (q : Ptr) → has q (inorder t) ≡ true
    → (q == 0) ≡ false
Rep-nonzero h parent side p leaf r q m = ground arith
Rep-nonzero h parent side p (node a l r) (e, ne, up, on, rl, rr) q m =
    elim (Bool-cases (has q (inorder l))) [
      | inl m' ↦ Rep-nonzero h a left (h a).left_child l rl q m'
      | inr n ↦ elim (Bool-cases (has q (inorder r))) [
        | inl m' ↦ Rep-nonzero h a right (h a).right_child r rr q m'
        | inr n' ↦ ground (arith, has-append q (inorder l) (a ∷ inorder r))
      ]
    ]

pub ==_comm_false : (a b : ℕ) → (a == b) ≡ false → (b == a) ≡ false
==_comm_false a b e = ground arith

pub Distinct-join :
    (xs ys : List Ptr)
    → Distinct xs
    → Distinct ys
    → ((q : Ptr) → has q xs ≡ true → has q ys ≡ false)
    → Distinct (xs ++ ys)
Distinct-join [] ys dx dy apart = dy
Distinct-join (x ∷ xs) ys (n, dx) dy apart =
    let fresh = apart x (has_head x xs) in
    (ground (arith, has-append x xs ys), Distinct-join xs ys dx dy (λ q m. apart q (ground arith)))

-- Every node around a place.
abbrev pub around : Context → List Ptr
around top = []
around (under s a u k) = a ∷ (inorder u ++ around k)

pub RepContext-frame :
    (h h' : Heads) (root parent : Ptr) (side : Side) (p : Ptr) (k : Context)
    → RepContext h root parent side p k
    → ((q : Ptr) → has q (around k) ≡ true → h' q ≡ h q)
    → RepContext h' root parent side p k
RepContext-frame h h' root parent side p top r same = r
RepContext-frame h h' root parent side p (under s a u k) (e, ne, on, down, ru, rk) same =
    let here : h' a ≡ h a = same a (has_head a (inorder u ++ around k)) in
    let above : RepContext h' root (h a).parent (h a).which_child a k =
      RepContext-frame h h' root (h a).parent (h a).which_child a k rk
        (λ q m. same q (ground (arith, has-append q (inorder u) (around k)))) in
    (
      e,
      ne,
      on,
      ap (child s) here ∙ down,
      subst (λ q. Rep h' a (flip s) q u) (sym (ap (child (flip s)) here))
          (Rep-frame h h' a (flip s) (child (flip s) (h a)) u ru
            (λ q m. same q (ground (arith, has-append q (inorder u) (around k))))),
      subst (λ x. RepContext h' root x.parent x.which_child a k) (sym here) above,
    )

-- A tree with the tree around it is the whole tree, seen from the root.
pub Rep-plug :
    (h : Heads) (root parent : Ptr) (side : Side) (p : Ptr) (k : Context) (t : Tree)
    → RepContext h root parent side p k
    → Rep h parent side p t
    → Rep h 0 left root (plug k t)
Rep-plug h root parent side p top t (e, on, r) rt =
    subst (λ q. Rep h 0 left q t) (sym r)
      (subst (λ x. Rep h 0 x p t) on (subst (λ q. Rep h q side p t) e rt))
Rep-plug h root parent side p (under s a u k) t (e, ne, on, down, ru, rk) rt =
    Rep-plug h root (h a).parent (h a).which_child a k (node_on s a t u) rk (
      RepNode-Rep h (h a).parent (h a).which_child a s a t u (
        refl,
        ne,
        refl,
        refl,
        subst (λ q. Rep h a s q t) (sym down)
            (subst (λ x. Rep h a x p t) on (subst (λ q. Rep h q side p t) e rt)),
        ru,
      ))

-- No node is at two places of a tree.
pub Distinct-plug :
    (k : Context) (t : Tree)
    → Distinct (inorder (plug k t))
    → Distinct (inorder t)
      × Distinct (around k)
      × ((q : Ptr) → has q (around k) ≡ true → has q (inorder t) ≡ false)
Distinct-plug top t d = (d, tt, λ q m. ground (arith, m))
Distinct-plug (under s a u k) t d =
    let (dn, dk, apart) = Distinct-plug k (node_on s a t u) d in
    let (dt, du, nt, nu, out) = Distinct-on s a t u dn in
    let sub : (q : Ptr) → has q (inorder u) ≡ true → has q (around k) ≡ false = λ q m.
      apart_sym (around k) (inorder (node_on s a t u)) apart q (ground (arith, has-on s q a t u)) in
    let fresh : has a (around k) ≡ false =
      apart_sym (around k) (inorder (node_on s a t u)) apart a (ground (arith, has-on s a a t u)) in
    (
      dt,
      (
        ground (arith, has-append a (inorder u) (around k)),
        Distinct-join (inorder u) (around k) du dk sub,
      ),
      λ q m. elim (Bool-cases (q == a)) [
        | inl e ↦ rw ((==_iff q a).0 e) nt
        | inr ne ↦ elim (Bool-cases (has q (inorder u))) [
          | inl m' ↦ apart_sym (inorder t) (inorder u) out q m'
          | inr n ↦
              let e = apart q (ground (arith, has-append q (inorder u) (around k))) in
              ground (arith, has-on s q a t u)
        ]
      ],
    )

pub RepContext-nonzero :
    (h : Heads) (root parent : Ptr) (side : Side) (p : Ptr) (k : Context)
    → RepContext h root parent side p k
    → (q : Ptr) → has q (around k) ≡ true
    → (q == 0) ≡ false
RepContext-nonzero h root parent side p top r q m = ground arith
RepContext-nonzero h root parent side p (under s a u k) (e, ne, on, down, ru, rk) q m =
    elim (Bool-cases (has q (inorder u))) [
      | inl m' ↦ Rep-nonzero h a (flip s) (child (flip s) (h a)) u ru q m'
      | inr n ↦ elim (Bool-cases (has q (around k))) [
        | inl m' ↦ RepContext-nonzero h root (h a).parent (h a).which_child a k rk q m'
        | inr n' ↦ ground (arith, has-append q (inorder u) (around k))
      ]
    ]

-- The parent of a place is not in the tree that is there.
pub RepContext-parent_out :
    (h : Heads) (root parent : Ptr) (side : Side) (p : Ptr) (k : Context) (t : Tree)
    → RepContext h root parent side p k
    → Rep h parent side p t
    → ((q : Ptr) → has q (around k) ≡ true → has q (inorder t) ≡ false)
    → has parent (inorder t) ≡ false
RepContext-parent_out h root parent side p top t (e, on, r) rt apart =
    elim (Bool-cases (has parent (inorder t))) [
      | inl m ↦ let ne = Rep-nonzero h parent side p t rt parent m in ground arith
      | inr n ↦ n
    ]
RepContext-parent_out h root parent side p (under s a u k) t (e, ne, on, down, ru, rk) rt apart =
    rw e (apart a (has_head a (inorder u ++ around k)))
