-- ===== src/Treap/Descend.antt =====
-- The loop of `treap_insert` that goes down to the place for a value.
use ukoos.Prelude.{
  ℕ, zero, suc, ◌+◌, ◌≡◌, refl, sym, ap, ◌∙◌, subst, true, false, ◌==◌, ==_iff, ◌≤◌, leb,
  Bool-cases, inl, inr, [], ◌∷◌, ◌++◌, arith, if◌then◌else◌, Run, ok, Yields,
}
use ukoos.ListHead.Chain.{has, has-append}
use ukoos.Treap.{Ptr, Side, left, right, is_left, child, Heads, find_place}
use ukoos.Treap.Shape.{
  Tree, leaf, node, inorder, Rep, Context, under, plug, before, behind, RepContext,
}
use ukoos.Treap.Rotate.{RepNode, Rep-RepNode}
use ukoos.Treap.Order.{AtMost, AtLeast, Sorted, Sorted-split, TopAtMost, IsHeap, Fits, leb_trans}
use ukoos.Treap.Climb.{size, depth, IsOpen}

-- A free place at `place`, in a treap with the nodes `xs` from left to right: the values on its
-- left are at most `v`, and those on its right at least `v`.
pub record IsPlace (h : Heads) (root : Ptr) (v n : ℕ) (t : Tree) (place : Ptr × Side) : Type 0 where
  pub beside : Tree
  pub rest : Context
  pub above : RepContext h root place.0 place.1 0 (under place.1 place.0 beside rest)
  pub most : AtMost h v (before (under place.1 place.0 beside rest))
  pub least : AtLeast h v (behind (under place.1 place.0 beside rest))
  pub whole : plug (under place.1 place.0 beside rest) leaf ≡ t
  pub open_above : IsOpen h (under place.1 place.0 beside rest) leaf leaf
  pub shallow : suc (depth rest) ≤ n

find_place-down :
    (fuel : ℕ) (h : Heads) (v : ℕ) (a : Ptr) (s : Side)
    → leb v (h a).value ≡ is_left s
    → find_place (suc fuel) v a h
      ≡ (if child s (h a) == 0 then ok (a, s) else find_place fuel v (child s (h a)) h)
unfolding find_place
find_place-down fuel h v a left e = rw e refl
find_place-down fuel h v a right e = rw e refl

-- The search is at the node `a` of the context `k`.
pub record IsSearch (h : Heads) (root : Ptr) (v : ℕ) (k : Context) (parent : Ptr) (side : Side)
    (a : Ptr) (t : Tree) : Type 0 where
  pub above : RepContext h root parent side a k
  pub below : Rep h parent side a t
  pub most : AtMost h v (before k)
  pub least : AtLeast h v (behind k)
  pub sorted : Sorted h (inorder t)
  pub heap : IsHeap h t
  pub open_above : IsOpen h k leaf leaf
  pub fits : (b : Ptr) (l r : Tree) → t ≡ node b l r → Fits h k (h b).priority

-- One step down, to the subtree `t` on the side `s`.
find_place-step :
    (fuel : ℕ) (h : Heads) (root : Ptr) (v : ℕ) (k : Context) (a : Ptr) (s : Side) (t u : Tree)
    → leb v (h a).value ≡ is_left s
    → IsSearch h root v (under s a u k) a s (child s (h a)) t
    → depth k + suc (size t) ≤ suc (depth k + fuel)
    → ((b : Ptr) (l r : Tree)
        → t ≡ node b l r
        → IsSearch h root v (under s a u k) a s b (node b l r)
        → Yields
            (find_place fuel v b h)
            (IsPlace h root v (depth k + suc (size t)) (plug (under s a u k) (node b l r))))
    → Yields
        (find_place (suc fuel) v a h)
        (IsPlace h root v (depth k + suc (size t)) (plug (under s a u k) t))
find_place-step fuel h root v k a s leaf u e search enough rest =
    let no_child : (child s (h a) == 0) ≡ true = rw search.below refl in
    (
      (a, s),
      find_place-down fuel h v a s e ∙ rw no_child refl,
      record {
        beside = u;
        rest = k;
        above = subst (λ q. RepContext h root a s q (under s a u k)) search.below search.above;
        most = search.most;
        least = search.least;
        whole = refl;
        open_above = search.open_above;
        shallow = omega arith;
      },
    )
find_place-step fuel h root v k a s (node b l r) u e search enough rest =
    let (e', ne, _, _, _, _) = search.below in
    let some_child : (child s (h a) == 0) ≡ false = rw e' ne in
    let (place, run, found) =
      rest b l r refl
        (subst (λ q. IsSearch h root v (under s a u k) a s q (node b l r)) e' search) in
    (
      place,
      find_place-down fuel h v a s e ∙ (rw some_child (ap (λ q. find_place fuel v q h) e') ∙ run),
      found,
    )

IsPlace-le :
    (h : Heads) (root : Ptr) (v m n : ℕ) (t : Tree) (place : Ptr × Side)
    → IsPlace h root v m t place
    → m ≤ n
    → IsPlace h root v n t place
IsPlace-le h root v m n t place found le = record {
  beside = found.beside;
  rest = found.rest;
  above = found.above;
  most = found.most;
  least = found.least;
  whole = found.whole;
  open_above = found.open_above;
  shallow = let s = found.shallow in omega arith;
}

pub Yields-IsPlace-le :
    (r : Run (Ptr × Side)) (h : Heads) (root : Ptr) (v m n : ℕ) (t : Tree)
    → Yields r (IsPlace h root v m t)
    → m ≤ n
    → Yields r (IsPlace h root v n t)
Yields-IsPlace-le r h root v m n t (place, run, found) le =
    (place, run, IsPlace-le h root v m n t place found le)

-- What the step to either side leads to.
module _ (h : Heads) (root : Ptr) (v : ℕ) (k : Context) (parent : Ptr) (side : Side) (a : Ptr)
    (l r : Tree) (search : IsSearch h root v k parent side a (node a l r)) where
  step-above :
      (s : Side) (t u : Tree)
      → RepNode h parent side a s a t u
      → RepContext h root a s (child s (h a)) (under s a u k)
  step-above s t u (e, ne, up, on, rt, ru) = (
    refl,
    ne,
    refl,
    refl,
    ru,
    subst (λ q. RepContext h root q (h a).which_child a k) (sym up)
        (subst (λ x. RepContext h root parent x a k) (sym on) search.above),
  )

  step-Fits :
      (s : Side) (t u : Tree)
      → TopAtMost h (h a).priority t
      → TopAtMost h (h a).priority u
      → IsHeap h u
      → (b : Ptr) (l' r' : Tree) → t ≡ node b l' r'
      → Fits h (under s a u k) (h b).priority
  step-Fits s t u tt' tu hu b l' r' e =
      (subst (TopAtMost h (h a).priority) e tt', tu, hu, search.fits a l r refl)

  IsSearch-left :
      leb v (h a).value ≡ true → IsSearch h root v (under left a r k) a left (h a).left_child l
  IsSearch-left le =
      let (e, ne, up, on, rl, rr) = search.below in
      let (sl, most, least, sr) = Sorted-split h (inorder l) a (inorder r) search.sorted in
      let (tl, t_right, hl, hr) = search.heap in
      record {
        above = step-above left l r search.below;
        below = rl;
        most = search.most;
        least = λ q m. elim (Bool-cases (q == a)) [
          | inl same ↦ subst (λ y. leb v (h y).value ≡ true) (sym ((==_iff q a).0 same)) le
          | inr ne ↦ elim (Bool-cases (has q (inorder r))) [
            | inl m' ↦ leb_trans v (h a).value (h q).value le (least q m')
            | inr n ↦ search.least q (ground (arith, has-append q (inorder r) (behind k)))
          ]
        ];
        sorted = sl;
        heap = hl;
        open_above = (tt, tt, t_right, hr, search.fits a l r refl);
        fits = step-Fits left l r tl t_right hr;
      }

  IsSearch-right :
      leb v (h a).value ≡ false → IsSearch h root v (under right a l k) a right (h a).right_child r
  IsSearch-right gt =
      let (sl, most, least, sr) = Sorted-split h (inorder l) a (inorder r) search.sorted in
      let (tl, t_right, hl, hr) = search.heap in
      let here : leb (h a).value v ≡ true = ground arith in
      record {
        above = step-above right r l (Rep-RepNode h parent side a right a r l search.below);
        below = search.below.5;
        most = λ q m. elim (Bool-cases (has q (before k))) [
          | inl m' ↦ search.most q m'
          | inr n ↦ elim (Bool-cases (has q (inorder l))) [
            | inl m' ↦ leb_trans (h q).value (h a).value v (most q m') here
            | inr n' ↦
                let e : (q == a) ≡ true = ground (
                  arith,
                  has-append q (before k) (inorder l ++ (a ∷ [])),
                  has-append q (inorder l) (a ∷ []),
                ) in
                subst (λ y. leb (h y).value v ≡ true) (sym ((==_iff q a).0 e)) here
          ]
        ];
        least = search.least;
        sorted = sr;
        heap = hr;
        open_above = (tt, tt, tl, hl, search.fits a l r refl);
        fits = step-Fits right r l t_right tl hl;
      }

-- The search ends at a free place, within as many rounds as there are nodes.
pub find_place-IsPlace :
    (fuel : ℕ) (h : Heads) (root : Ptr) (v : ℕ) (k : Context) (parent : Ptr) (side : Side) (a : Ptr)
    (l r : Tree)
    → IsSearch h root v k parent side a (node a l r)
    → size (node a l r) ≤ fuel
    → Yields
        (find_place fuel v a h)
        (IsPlace h root v (depth k + size (node a l r)) (plug k (node a l r)))
find_place-IsPlace zero h root v k parent side a l r search enough = ground arith
find_place-IsPlace (suc fuel) h root v k parent side a l r search enough =
    elim (Bool-cases (leb v (h a).value)) [
      | inl le ↦
          Yields-IsPlace-le (find_place (suc fuel) v a h) h root v (depth k + suc (size l))
            (depth k + size (node a l r)) (plug k (node a l r))
            (find_place-step fuel h root v k a left l r le
              (IsSearch-left h root v k parent side a l r search le) (omega arith)
              (λ b l' r' e next.
                let same = ap size e in
                Yields-IsPlace-le (find_place fuel v b h) h root v
                  (depth (under left a r k) + size (node b l' r')) (depth k + suc (size l))
                  (plug (under left a r k) (node b l' r'))
                  (find_place-IsPlace fuel h root v (under left a r k) a left b l' r' next
                    (omega arith))
                  (omega arith)))
            (omega arith)
      | inr gt ↦
          Yields-IsPlace-le (find_place (suc fuel) v a h) h root v (depth k + suc (size r))
            (depth k + size (node a l r)) (plug k (node a l r))
            (find_place-step fuel h root v k a right r l gt
              (IsSearch-right h root v k parent side a l r search gt) (omega arith)
              (λ b l' r' e next.
                let same = ap size e in
                Yields-IsPlace-le (find_place fuel v b h) h root v
                  (depth (under right a l k) + size (node b l' r')) (depth k + suc (size r))
                  (plug (under right a l k) (node b l' r'))
                  (find_place-IsPlace fuel h root v (under right a l k) a right b l' r' next
                    (omega arith))
                  (omega arith)))
            (omega arith)
    ]
