-- ===== src/Alloc/Multiset.antt =====
-- Sequences of blocks up to order: how often each address occurs, and the blocks of a range.
use native.Mathlib.Nat.{suc-mul, mul-le-mul_right}
use ukoos.Prelude.{
  ℕ, zero, suc, ◌+◌, ◌*◌, ◌≤◌, ◌<◌, ◌≡◌, refl, sym, ap, ◌∙◌, ◌≢◌, true, false, ◌==◌, ltb, inl, inr,
  if◌then◌else◌, List, [], ◌∷◌, arith, length, get_or, set, take, Bool-cases,
}
use ukoos.ListHead.Chain.{has}
use ukoos.Alloc.Push.{Apart}

abbrev pub count : ℕ → List ℕ → ℕ
count a [] = 0
count a (x ∷ xs) = (if x == a then 1 else 0) + count a xs

-- The same items, as often.
abbrev pub SameItems : List ℕ → List ℕ → Type 0
SameItems xs ys = (a : ℕ) → count a xs ≡ count a ys

-- `start`, `start + size`, and so on: `n` addresses.
abbrev pub spread : ℕ → ℕ → ℕ → List ℕ
spread start size zero = []
spread start size (suc n) = start ∷ spread (start + size) size n

pub count-has : (a : ℕ) (xs : List ℕ) → has a xs ≡ true → 1 ≤ count a xs
count-has a [] h = cc
count-has a (x ∷ xs) h = ground (arith, count-has a xs)

pub has-count : (a : ℕ) (xs : List ℕ) → 1 ≤ count a xs → has a xs ≡ true
has-count a [] h = absurd (omega arith)
has-count a (x ∷ xs) h = ground (arith, has-count a xs)

-- Overwriting an entry takes one item out and puts one in.
pub count-set :
    (a : ℕ) (xs : List ℕ) (i v : ℕ)
    → i < length xs
    → count a (set xs i v) + (if get_or xs i 0 == a then 1 else 0)
      ≡ count a xs + (if v == a then 1 else 0)
count-set a [] i v h = absurd (omega arith)
count-set a (x ∷ xs) zero v h = omega arith
count-set a (x ∷ xs) (suc i) v h = omega (arith, count-set a xs i v)

-- An entry is counted.
pub count-get_or : (xs : List ℕ) (i : ℕ) → i < length xs → 1 ≤ count (get_or xs i 0) xs
count-get_or [] i h = absurd (omega arith)
count-get_or (x ∷ xs) zero h = ground arith
count-get_or (x ∷ xs) (suc i) h = omega (arith, count-get_or xs i)

count-take-last :
    (a : ℕ) (xs : List ℕ) (n : ℕ)
    → n < length xs
    → count a (take (suc n) xs) ≡ count a (take n xs) + (if get_or xs n 0 == a then 1 else 0)
count-take-last a [] n h = absurd (omega arith)
count-take-last a (x ∷ xs) zero h = omega arith
count-take-last a (x ∷ xs) (suc n) h = omega (arith, count-take-last a xs n)

-- Overwriting entry `i` by the last entry takes out the entry.
pub count-take-set :
    (a : ℕ) (xs : List ℕ) (i n : ℕ)
    → i ≤ n
    → n < length xs
    → count a (take n (set xs i (get_or xs n 0))) + (if get_or xs i 0 == a then 1 else 0)
      ≡ count a (take (suc n) xs)
count-take-set a [] i n h k = absurd (omega arith)
count-take-set a (x ∷ xs) zero zero h k = omega arith
count-take-set a (x ∷ xs) (suc i) zero h k = absurd (omega arith)
count-take-set a (x ∷ xs) zero (suc n) h k = omega (arith, count-take-last a xs n)
count-take-set a (x ∷ xs) (suc i) (suc n) h k = omega (arith, count-take-set a xs i n)

-- The range holds the addresses `start + k * size` only, each once.
pub spread-has :
    (a start size n : ℕ)
    → has a (spread start size n) ≡ true
    → (k : ℕ) × (k < n) × (a ≡ start + k * size)
spread-has a start size zero h = cc
spread-has a start size (suc n) h = elim (Bool-cases (a == start)) [
  | inl e ↦ (0, omega arith, ground arith)
  | inr e ↦
      let (k, lt, at) = spread-has a (start + size) size n (ground arith) in
      (suc k, omega arith, omega (arith, suc-mul k size))
]

pub spread-below : (a start size n : ℕ) → a < start → count a (spread start size n) ≡ 0
spread-below a start size zero h = refl
spread-below a start size (suc n) h =
    ground (arith, spread-below a (start + size) size n (omega arith))

pub spread-once : (a start size n : ℕ) → 0 < size → count a (spread start size n) ≤ 1
spread-once a start size zero h = omega arith
spread-once a start size (suc n) h =
    ground (arith, spread-once a (start + size) size n h, spread-below a (start + size) size n)

pub multiple_gap : (i j size : ℕ) → i < j → i * size + size ≤ j * size
multiple_gap i j size h =
    let h' : suc i ≤ j = omega arith in omega (arith, suc-mul i size, mul-le-mul_right size h')

pub spread-Apart :
    (start size n x y : ℕ)
    → has x (spread start size n) ≡ true
    → has y (spread start size n) ≡ true
    → (x == y) ≡ false
    → Apart x size y
spread-Apart start size n x y h k ne =
    let (i, _, ex) = spread-has x start size n h in
    let (j, _, ey) = spread-has y start size n k in
    let ne' : i ≢ j =
      λ e. let same : x ≡ y = ex ∙ ap (λ (t : ℕ). start + t * size) e ∙ sym ey in ground arith in
    elim (Bool-cases (ltb i j)) [
      | inl lt ↦ ground (arith, multiple_gap i j size)
      | inr ge ↦ ground (arith, multiple_gap j i size)
    ]
