-- ===== src/Align/Bounds.antt =====
-- What the alignment functions compute, as arithmetic.
use native.Mathlib.Nat.{
  pow-suc, one-le-pow, div-add-mod', mod-lt, mul_right_comm, suc-mul, mod-eq_of_lt, mul-mod_left,
}
use ukoos.Prelude.{
  ℕ, zero, suc, ◌+◌, ◌-◌, ◌*◌, ◌/◌, ◌%◌, ◌^◌, ◌≤◌, ◌<◌, ◌≡◌, ◌↔◌, ap, ◌∙◌, true, arith, ==_iff,
  bit_and, sym, subst,
}
use ukoos.Prelude.Bits.{bit_and_above}
use ukoos.Align.{complement, align_down, align_up, is_aligned}

two_pow-add : (m n : ℕ) → 2 ^ (m + n) ≡ 2 ^ m * 2 ^ n
two_pow-add zero n = let e : 0 + n ≡ n = omega arith in rw e (omega arith)
two_pow-add (suc m) n =
    let e : suc m + n ≡ suc (m + n) = omega arith in
    rw (e, pow-suc 2 (m + n), two_pow-add m n, pow-suc 2 m)
      (omega (arith, mul_right_comm (2 ^ m) (2 ^ n) 2, mul_right_comm (2 ^ m) 2 (2 ^ n)))

below_places : (p q : ℕ) → 1 ≤ p → 1 ≤ q → p * q - 1 - (q - 1) ≡ (p - 1) * q
below_places zero q h k = absurd (omega arith)
below_places (suc p) q h k =
    let e : suc p - 1 ≡ p = omega arith in rw (e, suc-mul p q) (omega arith)

two_pow-split : (bits : ℕ) → bits ≤ 64 → 2 ^ 64 ≡ 2 ^ (64 - bits) * 2 ^ bits
two_pow-split bits h =
    let e : 64 - bits + bits ≡ 64 = omega arith in
    sym (ap (λ (w : ℕ). 2 ^ w) e) ∙ two_pow-add (64 - bits) bits

low_mask-complement :
    (bits : ℕ) → bits ≤ 64 → complement (2 ^ bits - 1) ≡ (2 ^ (64 - bits) - 1) * 2 ^ bits
low_mask-complement bits h =
    ap (λ (w : ℕ). w - 1 - (2 ^ bits - 1)) (two_pow-split bits h)
    ∙ below_places (2 ^ (64 - bits)) (2 ^ bits) (one-le-pow (64 - bits) 2 (omega arith))
        (one-le-pow bits 2 (omega arith))

-- `align_down` rounds a 64-bit address down to a multiple of `2 ^ bits`, for every `bits` below 64.
pub align_down-eq :
    (addr bits : ℕ) → addr < 2 ^ 64 → bits < 64 → align_down addr bits ≡ addr / 2 ^ bits * 2 ^ bits
unfolding align_down
align_down-eq addr bits h k =
    ap (bit_and addr) (low_mask-complement bits (omega arith))
    ∙ bit_and_above bits (64 - bits) addr
        (subst (λ (w : ℕ). addr < w) (two_pow-split bits (omega arith)) h)

rounding_up : (addr p : ℕ) → 1 ≤ p → let r = (addr + (p - 1)) / p * p in (addr ≤ r) × (r < addr + p)
rounding_up addr p h = (
  ground (arith, div-add-mod' (addr + (p - 1)) p, mod-lt (addr + (p - 1)) h),
  ground (arith, div-add-mod' (addr + (p - 1)) p, h),
)

-- `align_up` of a 64-bit address gives a multiple of `2 ^ bits` that is at least the address and less than `2 ^ bits` above it, where adding the mask does not wrap around and `bits` is below 64.
pub align_up-bounds :
    (addr bits : ℕ)
    → bits < 64
    → addr + (2 ^ bits - 1) < 2 ^ 64
    → (addr ≤ align_up addr bits)
      × (align_up addr bits < addr + 2 ^ bits)
      × (align_up addr bits % 2 ^ bits ≡ 0)
unfolding align_up
align_up-bounds addr bits k h =
    let pos : 1 ≤ 2 ^ bits = one-le-pow bits 2 (omega arith) in
    let around : (addr + (2 ^ bits - 1)) % 2 ^ 64 ≡ addr + (2 ^ bits - 1) = mod-eq_of_lt h in
    let rounded : align_up addr bits ≡ (addr + (2 ^ bits - 1)) / 2 ^ bits * 2 ^ bits =
      ap (λ (w : ℕ). align_down w bits) around ∙ align_down-eq (addr + (2 ^ bits - 1)) bits h k in
    let bounds = rounding_up addr (2 ^ bits) pos in
    rw rounded (bounds.0, bounds.1, mul-mod_left ((addr + (2 ^ bits - 1)) / 2 ^ bits) (2 ^ bits))

-- `is_aligned` of a 64-bit address is true exactly if `2 ^ bits` divides it, for every `bits` below 64.
pub is_aligned_iff :
    (addr bits : ℕ)
    → addr < 2 ^ 64
    → bits < 64
    → (is_aligned addr bits ≡ true) ↔ (addr % 2 ^ bits ≡ 0)
unfolding is_aligned
is_aligned_iff addr bits h k =
    let e = align_down-eq addr bits h k in
    let parts = div-add-mod' addr (2 ^ bits) in
    (
      (λ t. omega (arith, e, parts, (==_iff (align_down addr bits) addr).0 t)),
      λ z. (==_iff (align_down addr bits) addr).1 (omega (arith, e, parts, z)),
    )
