-- ===== src/Init/Sorted.antt =====
-- What `sort_initializers` does.
use mathlib.Core.List.{Permᴰ}
use mathlib.Core.List.Permᴰ
use mathlib.Core.Option.{some_inj}
use ukoos.Prelude.{
  ℕ, zero, suc, ◌+◌, ◌≤◌, ◌≡◌, ◌⊎◌, inl, inr, refl, ap, ◌∙◌, arith, ltb, Bool-cases, List, [], ◌∷◌,
  get_or, get_elem?, set, length, length-set, some,
}
use ukoos.Init.{Initializer, find_min, swap_first, sort_initializers}

-- No entry has a priority below `p`.
abbrev pub Least : ℕ → List Initializer → Type 0
Least p [] = Unit
Least p (x ∷ xs) = (p ≤ x.priority) × Least p xs

-- In the order of ascending priorities.
abbrev pub Ascending : List Initializer → Type 0
Ascending [] = Unit
Ascending (x ∷ xs) = Least x.priority xs × Ascending xs

Least-le : (p q : ℕ) (xs : List Initializer) → p ≤ q → Least q xs → Least p xs
Least-le p q [] h l = tt
Least-le p q (x ∷ xs) h (le, l) = (omega arith, Least-le p q xs h l)

Least-Permᴰ : (p : ℕ) {xs ys : List Initializer} → Permᴰ xs ys → Least p xs → Least p ys
Least-Permᴰ p Permᴰ.nil l = tt
Least-Permᴰ p (Permᴰ.cons e perm) (le, l) =
    (omega (arith, le, ap (λ x. Initializer.priority x) e), Least-Permᴰ p perm l)
Least-Permᴰ p (Permᴰ.swap e f) (le, (le', l)) = (
  omega (arith, le', ap (λ x. Initializer.priority x) f),
  (omega (arith, le, ap (λ x. Initializer.priority x) e), l),
)
Least-Permᴰ p (Permᴰ.trans perm perm') l = Least-Permᴰ p perm' (Least-Permᴰ p perm l)

-- The entry at an index is a least one, and not above `p`.
abbrev LeastAt : ℕ → List Initializer → ℕ → Type 0
LeastAt p xs k =
    (y : Initializer) × (get_elem? xs k ≡ some y) × Least y.priority xs × (y.priority ≤ p)

find_min-LeastAt :
    (xs : List Initializer) (i p best : ℕ)
    → ((find_min xs i p best ≡ best) × Least p xs)
      ⊎ ((k : ℕ) × (find_min xs i p best ≡ i + k) × LeastAt p xs k)
unfolding find_min
find_min-LeastAt [] i p best = inl (refl, tt)
find_min-LeastAt (x ∷ xs) i p best = elim (Bool-cases (ltb x.priority p)) [
  | inl less ↦ rw less (elim (find_min-LeastAt xs (i + 1) x.priority i) [
    | inl (m, l) ↦ inr (0, m ∙ omega arith, (x, refl, (omega arith, l), ground arith))
    | inr (k, m, (y, at, l, le)) ↦ inr (suc k, m ∙ omega arith, (y, at, (le, l), ground arith))
  ])
  | inr more ↦ rw more (elim (find_min-LeastAt xs (i + 1) p best) [
    | inl (m, l) ↦ inl (m, (ground arith, l))
    | inr (k, m, (y, at, l, le)) ↦ inr (suc k, m ∙ omega arith, (y, at, (ground arith, l), le))
  ])
]

Permᴰ-swap :
    (x y : Initializer) (xs : List Initializer) (k : ℕ)
    → get_elem? xs k ≡ some y
    → Permᴰ (x ∷ xs) (y ∷ set xs k x)
Permᴰ-swap x y [] k at = absurd (ground (arith, at))
Permᴰ-swap x y (z ∷ zs) zero at = Permᴰ.swap refl (some_inj.0 at)
Permᴰ-swap x y (z ∷ zs) (suc k) at =
    Permᴰ.trans (Permᴰ.swap refl refl)
      (Permᴰ.trans (Permᴰ.cons refl (Permᴰ-swap x y zs k at)) (Permᴰ.swap refl refl))

get_or-get_elem? :
    (x y : Initializer) (xs : List Initializer) (k : ℕ)
    → get_elem? xs k ≡ some y
    → get_or xs k x ≡ y
get_or-get_elem? x y [] k at = absurd (ground (arith, at))
get_or-get_elem? x y (z ∷ zs) zero at = some_inj.0 at
get_or-get_elem? x y (z ∷ zs) (suc k) at = get_or-get_elem? x y zs k at

-- What `find_min` and the change of places give: a least entry in front, and the same entries.
abbrev Selected : Initializer → List Initializer → Initializer × List Initializer → Type 0
Selected x xs r = Permᴰ (x ∷ xs) (r.0 ∷ r.1) × Least r.0.priority r.1 × (length r.1 ≡ length xs)

Least-set :
    (q : ℕ) (xs : List Initializer) (k : ℕ) (x : Initializer)
    → q ≤ x.priority
    → Least q xs
    → Least q (set xs k x)
Least-set q [] k x h l = tt
Least-set q (z ∷ zs) zero x h (le, l) = (h, l)
Least-set q (z ∷ zs) (suc k) x h (le, l) = (le, Least-set q zs k x h l)

swap_first-Selected :
    (x : Initializer) (xs : List Initializer) (m k : ℕ)
    → m ≡ 0 + k
    → LeastAt x.priority (x ∷ xs) k
    → Selected x xs (swap_first x xs m)
unfolding swap_first
swap_first-Selected x xs zero zero e (y, at, (le, l), below) = (
  Permᴰ.refl (x ∷ xs),
  Least-le x.priority y.priority xs
      (omega (arith, ap (λ z. Initializer.priority z) (some_inj.0 at))) l,
  refl,
)
swap_first-Selected x xs zero (suc k) e least = absurd (omega arith)
swap_first-Selected x xs (suc m) zero e least = absurd (omega arith)
swap_first-Selected x xs (suc m) (suc k) e (y, at, (le, l), below) =
    let same : m ≡ k = omega arith in
    rw (same, get_or-get_elem? x y xs k at)
      (Permᴰ-swap x y xs k at, Least-set y.priority xs k x below l, length-set xs k x)

select-Selected :
    (x : Initializer) (xs : List Initializer)
    → Selected x xs (swap_first x xs (find_min (x ∷ xs) 0 x.priority 0))
select-Selected x xs = elim (find_min-LeastAt (x ∷ xs) 0 x.priority 0) [
  | inl (m, (le, l)) ↦
      swap_first-Selected x xs (find_min (x ∷ xs) 0 x.priority 0) 0 m
        (x, refl, (le, l), omega arith)
  | inr (k, m, least) ↦ swap_first-Selected x xs (find_min (x ∷ xs) 0 x.priority 0) k m least
]

-- `sort_initializers` of a whole array gives the same entries, each as often, in the order of ascending priorities.
pub sort_initializers-Ascending :
    (ptr : List Initializer) (len : ℕ)
    → length ptr ≡ len
    → Permᴰ ptr (sort_initializers ptr len) × Ascending (sort_initializers ptr len)
unfolding sort_initializers
sort_initializers-Ascending [] zero e = (Permᴰ.nil, tt)
sort_initializers-Ascending [] (suc len) e = absurd (omega arith)
sort_initializers-Ascending (x ∷ xs) zero e = absurd (omega arith)
sort_initializers-Ascending (x ∷ xs) (suc len) e =
    let swapped = swap_first x xs (find_min (x ∷ xs) 0 x.priority 0) in
    let (perm, least, size) = select-Selected x xs in
    let (perm', up) = sort_initializers-Ascending swapped.1 len (omega (arith, size)) in
    (Permᴰ.trans perm (Permᴰ.cons refl perm'), (Least-Permᴰ swapped.0.priority perm' least, up))
