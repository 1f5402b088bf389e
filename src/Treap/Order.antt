-- ===== src/Treap/Order.antt =====
-- The two orders of a treap: the values from left to right, and the priorities from the root down.
use ukoos.Prelude.{
  ℕ, ◌≡◌, refl, sym, ◌∙◌, subst, Bool, true, false, ◌==◌, ==_iff, leb, Bool-cases, inl, inr, List,
  [], ◌∷◌, ◌++◌, arith, if◌then◌else◌,
}
use ukoos.ListHead.Chain.{has, has-append}
use ukoos.Treap.{
  Ptr, Side, left, right, flip, TreapHead, child, with_child, with_parent, Heads, Treap, update,
  rotate_heads, link_leaf,
}
use ukoos.Treap.Rotate.{has_head}
use ukoos.Treap.Shape.{Tree, leaf, node, Context, top, under, plug}

-- The fields that both orders read stay the same.
abbrev pub SameKeys : Heads → Heads → Type 0
SameKeys h h' = (q : Ptr) → ((h' q).value ≡ (h q).value) × ((h' q).priority ≡ (h q).priority)

-- Every value is at most `v`, or more than `v`.
abbrev pub AtMost : Heads → ℕ → List Ptr → Type 0
AtMost h v xs = (q : Ptr) → has q xs ≡ true → leb (h q).value v ≡ true

abbrev pub AtLeast : Heads → ℕ → List Ptr → Type 0
AtLeast h v xs = (q : Ptr) → has q xs ≡ true → leb v (h q).value ≡ true

-- The values never go down.
abbrev pub Sorted : Heads → List Ptr → Type 0
Sorted h [] = Unit
Sorted h (x ∷ xs) = AtLeast h (h x).value xs × Sorted h xs

-- The priority at the root is at most `m`.
abbrev pub TopAtMost : Heads → ℕ → Tree → Type 0
TopAtMost h m leaf = Unit
TopAtMost h m (node a l r) = leb (h a).priority m ≡ true

-- No node has a higher priority than its parent.
abbrev pub IsHeap : Heads → Tree → Type 0
IsHeap h leaf = Unit
IsHeap h (node a l r) =
    TopAtMost h (h a).priority l × TopAtMost h (h a).priority r × IsHeap h l × IsHeap h r

-- A heap whose root has the priority `m` completes the context to a heap.
abbrev pub Fits : Heads → Context → ℕ → Type 0
Fits h top m = Unit
Fits h (under s a u k) m =
    (leb m (h a).priority ≡ true)
    × TopAtMost h (h a).priority u
    × IsHeap h u
    × Fits h k (h a).priority

pub IsHeap-plug :
    (h : Heads) (k : Context) (a : Ptr) (l r : Tree)
    → IsHeap h (node a l r)
    → Fits h k (h a).priority
    → IsHeap h (plug k (node a l r))
IsHeap-plug h top a l r t f = t
IsHeap-plug h (under left b u k) a l r t (le, tu, hu, f) =
    IsHeap-plug h k b (node a l r) u (le, tu, t, hu) f
IsHeap-plug h (under right b u k) a l r t (le, tu, hu, f) =
    IsHeap-plug h k b u (node a l r) (tu, le, hu, t) f

pub TopAtMost-le :
    (h : Heads) (m n : ℕ) (t : Tree) → TopAtMost h m t → leb m n ≡ true → TopAtMost h n t
TopAtMost-le h m n leaf t le = tt
TopAtMost-le h m n (node a l r) t le = ground arith

pub leb_trans : (a b c : ℕ) → leb a b ≡ true → leb b c ≡ true → leb a c ≡ true
leb_trans a b c x y = ground arith

-- A sorted list, cut before an element and behind it.
pub Sorted-split :
    (h : Heads) (xs : List Ptr) (a : Ptr) (ys : List Ptr)
    → Sorted h (xs ++ (a ∷ ys))
    → Sorted h xs × AtMost h (h a).value xs × AtLeast h (h a).value ys × Sorted h ys
Sorted-split h [] a ys (least, s) = (tt, λ q m. ground (arith, m), least, s)
Sorted-split h (x ∷ xs) a ys (least, s) =
    let (sx, most, rest, sy) = Sorted-split h xs a ys s in
    let first = least a (ground (arith, has-append a xs (a ∷ ys))) in
    (
      (λ q m. least q (ground (arith, has-append q xs (a ∷ ys))), sx),
      λ q m. elim (Bool-cases (has q xs)) [
        | inl m' ↦ most q m'
        | inr n ↦
            subst (λ y. leb (h y).value (h a).value ≡ true) (sym ((==_iff q x).0 (ground arith)))
              first
      ],
      rest,
      sy,
    )

-- And put together around another one.
pub Sorted-join :
    (h : Heads) (xs : List Ptr) (a : Ptr) (ys : List Ptr)
    → Sorted h xs
    → AtMost h (h a).value xs
    → AtLeast h (h a).value ys
    → Sorted h ys
    → Sorted h (xs ++ (a ∷ ys))
Sorted-join h [] a ys sx most least sy = (least, sy)
Sorted-join h (x ∷ xs) a ys (lx, sx) most least sy =
    let here = most x (has_head x xs) in
    (
      λ q m. elim (Bool-cases (has q xs)) [
        | inl m' ↦ lx q m'
        | inr n ↦ elim (Bool-cases (q == a)) [
          | inl e ↦ subst (λ y. leb (h x).value (h y).value ≡ true) (sym ((==_iff q a).0 e)) here
          | inr ne ↦
              leb_trans (h x).value (h a).value (h q).value here
                (least q (ground (arith, has-append q xs (a ∷ ys))))
        ]
      ],
      Sorted-join h xs a ys sx (λ q m. most q (ground arith)) least sy,
    )

KeepsKeys : (TreapHead → TreapHead) → Type 0
KeepsKeys f = (x : TreapHead) → ((f x).value ≡ x.value) × ((f x).priority ≡ x.priority)

SameKeys-update :
    (h : Heads) (p : Ptr) (f : TreapHead → TreapHead) → KeepsKeys f → SameKeys h (update p f h)
unfolding update KeepsKeys
SameKeys-update h p f keeps q = elim (Bool-cases (q == p)) [
  | inl e ↦ rw e (keeps (h q))
  | inr n ↦ rw n (refl, refl)
]

pub SameKeys-trans : (h₀ h₁ h₂ : Heads) → SameKeys h₀ h₁ → SameKeys h₁ h₂ → SameKeys h₀ h₂
SameKeys-trans h₀ h₁ h₂ e e' q = ((e' q).0 ∙ (e q).0, (e' q).1 ∙ (e q).1)

SameKeys-if :
    (h h₁ h₂ : Heads) (c : Bool) → SameKeys h h₁ → SameKeys h h₂ → SameKeys h (if c then h₁ else h₂)
SameKeys-if h h₁ h₂ true e e' = e
SameKeys-if h h₁ h₂ false e e' = e'

pub SameKeys-child :
    (h₀ h : Heads) (a : Ptr) (s : Side) (p : Ptr)
    → SameKeys h₀ h
    → SameKeys h₀ (update a (with_child s p) h)
unfolding KeepsKeys
SameKeys-child h₀ h a left p e =
    SameKeys-trans h₀ h (update a (with_child left p) h) e
      (SameKeys-update h a (with_child left p) (λ x. (refl, refl)))
SameKeys-child h₀ h a right p e =
    SameKeys-trans h₀ h (update a (with_child right p) h) e
      (SameKeys-update h a (with_child right p) (λ x. (refl, refl)))

SameKeys-parent :
    (h₀ h : Heads) (a p : Ptr) (s : Side)
    → SameKeys h₀ h
    → SameKeys h₀ (update a (with_parent p s) h)
unfolding KeepsKeys
SameKeys-parent h₀ h a p s e =
    SameKeys-trans h₀ h (update a (with_parent p s) h) e
      (SameKeys-update h a (with_parent p s) (λ x. (refl, refl)))

pub SameKeys-rotate : (h : Heads) (d : Ptr) (s : Side) → SameKeys h (rotate_heads d s h)
unfolding rotate_heads
SameKeys-rotate h d s =
    let b = child s (h d) in
    let p = (h d).parent in
    let c = child (flip s) (h b) in
    let h₁ = update d (with_child s c) h in
    let h₂ = if c == 0 then h₁ else update c (with_parent d s) h₁ in
    let h₃ = update b (with_child (flip s) d) h₂ in
    let h₄ = update b (with_parent p (h₃ d).which_child) h₃ in
    let h₅ = update d (with_parent b (flip s)) h₄ in
    let e₁ = SameKeys-child h h d s c (λ q. (refl, refl)) in
    let e₂ =
      SameKeys-if h h₁ (update c (with_parent d s) h₁) (c == 0) e₁
        (SameKeys-parent h h₁ c d s e₁) in
    let e₃ = SameKeys-child h h₂ b (flip s) d e₂ in
    let e₄ = SameKeys-parent h h₃ b p (h₃ d).which_child e₃ in
    let e₅ = SameKeys-parent h h₄ d b (flip s) e₄ in
    SameKeys-if h h₅ (update p (with_child (h₅ b).which_child b) h₅) (p == 0) e₅
      (SameKeys-child h h₅ p (h₅ b).which_child b e₅)

pub SameKeys-link_leaf :
    (x : Treap) (a p : Ptr) (s : Side) → SameKeys x.heads (link_leaf a p s x).heads
unfolding link_leaf
SameKeys-link_leaf x a p s =
    SameKeys-parent x.heads (update p (with_child s a) x.heads) a p s
      (SameKeys-child x.heads x.heads p s a (λ q. (refl, refl)))
