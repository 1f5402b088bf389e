-- ===== src/SizeClasses/Fit.antt =====
-- The size class of a request is the least one whose objects hold it.
use native.Mathlib.Nat.{pow-suc, pow-le-pow_right}
use ukoos.Prelude.{
  ℕ, zero, suc, ◌+◌, ◌-◌, ◌*◌, ◌/◌, ◌%◌, ◌^◌, ◌≤◌, ◌<◌, ◌≡◌, ◌⊎◌, inl, inr, refl, ap, ◌∙◌, subst,
  true, false, ltb, leb, ◌==◌, Bool-cases, lt→ltb, le→leb, ok, arith, Yields,
}
use ukoos.SizeClasses.{
  bit_ceil_from, bit_ceil, trailing_zeros_of, trailing_zeros, size_is_huge, size_class_of_size,
  size_of_size_class,
}

trailing_zeros_of-pow : (left k : ℕ) → k < left → trailing_zeros_of left (2 ^ k) ≡ k
trailing_zeros_of-pow zero k h = absurd (omega arith)
trailing_zeros_of-pow (suc left) zero h = refl
trailing_zeros_of-pow (suc left) (suc k) h =
    let half : 2 ^ suc k / 2 ≡ 2 ^ k = omega (arith, pow-suc 2 k) in
    let even : (2 ^ suc k % 2 == 0) ≡ true = ground (arith, pow-suc 2 k) in
    rw (even, half, trailing_zeros_of-pow left k (omega arith)) refl

doubled : (k j size : ℕ) → 2 ^ k < size → (j ≡ k + 1) ⊎ (2 ^ j < 2 * size) → 2 ^ j < 2 * size
doubled k j size h (inl e) = let e' : j ≡ suc k = omega arith in rw e' (omega (arith, pow-suc 2 k))
doubled k j size h (inr lt) = lt

not_huge : (size : ℕ) → size ≤ 512 * 1024 → size_is_huge size ≡ false
unfolding size_is_huge
not_huge size h = ground arith

-- The power of two that `bit_ceil_from` finds.
bit_ceil_from-pow :
    (left k size : ℕ)
    → size ≤ 2 ^ (k + left)
    → (j : ℕ) × (bit_ceil_from left k size ≡ 2 ^ j)
      × (k ≤ j)
      × (j ≤ k + left)
      × (size ≤ 2 ^ j)
      × ((j ≡ k) ⊎ (2 ^ j < 2 * size))
bit_ceil_from-pow zero k size h =
    let e : k + 0 ≡ k = omega arith in
    (k, refl, omega arith, omega arith, subst (λ n. size ≤ 2 ^ n) e h, inl refl)
bit_ceil_from-pow (suc left) k size h = elim (Bool-cases (leb size (2 ^ k))) [
  | inl fits ↦ (k, rw fits refl, omega arith, omega arith, ground arith, inl refl)
  | inr more ↦
      let e : k + suc left ≡ k + 1 + left = omega arith in
      let (j, found, from, to, holds, near) =
        bit_ceil_from-pow left (k + 1) size (subst (λ n. size ≤ 2 ^ n) e h) in
      (
        j,
        rw more found,
        omega arith,
        omega arith,
        holds,
        inr (doubled k j size (ground arith) near),
      )
]

pub two_pow-le : (i j : ℕ) → i ≤ j → 2 ^ i ≤ 2 ^ j
two_pow-le i j h = pow-le-pow_right (omega arith) h

exponent-ge : (i j size : ℕ) → 2 ^ i < size → size ≤ 2 ^ j → i < j
exponent-ge i j size h k = elim (Bool-cases (leb j i)) [
  | inl e ↦ absurd (omega (arith, two_pow-le j i (ground arith)))
  | inr e ↦ ground arith
]

exponent-le : (i j size : ℕ) → size ≤ 2 ^ i → 2 ^ j < 2 * size → j ≤ i
exponent-le i j size h k = elim (Bool-cases (leb j i)) [
  | inl e ↦ ground arith
  | inr e ↦ absurd (omega (arith, pow-suc 2 i, two_pow-le (suc i) j (ground arith)))
]

near_twice : (j size : ℕ) → 0 < size → (j ≡ 0) ⊎ (2 ^ j < 2 * size) → 2 ^ j < 2 * size
near_twice j size h (inl e) = rw e (omega arith)
near_twice j size h (inr lt) = lt

-- The objects of the class have at least the size, and less than twice the size where they are not the smallest ones.
abbrev pub Fits : ℕ → ℕ → Type 0
Fits size c =
    (c < 17)
    × (size_of_size_class c ≡ ok (2 ^ (3 + c)))
    × (size ≤ 2 ^ (3 + c))
    × ((c ≡ 0) ⊎ (2 ^ (3 + c) < 2 * size))

size_of_size_class-ok : (c : ℕ) → c < 17 → size_of_size_class c ≡ ok (2 ^ (3 + c))
unfolding size_of_size_class
size_of_size_class-ok c h = rw (lt→ltb c 17 h) refl

-- `size_class_of_size` of a size that is not huge fails no assertion and gives a class whose objects hold the size, and the least such class: its objects have less than twice the size, or it is the first.
pub size_class_of_size-Fits :
    (size : ℕ) → size ≤ 512 * 1024 → Yields (size_class_of_size size) (Fits size)
unfolding size_class_of_size
size_class_of_size-Fits size h = elim (Bool-cases (ltb size 8)) [
  | inl tiny ↦ (
    0,
    rw (not_huge size h, tiny) refl,
    (omega arith, size_of_size_class-ok 0 (omega arith), ground arith, inl refl),
  )
  | inr more ↦
      let (j, found, from, to, holds, near) = bit_ceil_from-pow 63 0 size (omega arith) in
      let twice : 2 ^ j < 2 * size = near_twice j size (ground arith) near in
      let low : 2 < j = exponent-ge 2 j size (ground arith) holds in
      let high : j ≤ 19 = exponent-le 19 j size h twice in
      let log : trailing_zeros (bit_ceil size) ≡ j =
        ap trailing_zeros found ∙ trailing_zeros_of-pow 64 j (omega arith) in
      let back : 3 + (j - 3) ≡ j = omega arith in
      (
        j - 3,
        rw (not_huge size h, more)
            (rw log (rw (le→leb 3 j low, lt→ltb (j - 3) 17 (omega arith)) refl)),
        (
          omega arith,
          size_of_size_class-ok (j - 3) (omega arith),
          rw back holds,
          inr (rw back twice),
        ),
      )
]
