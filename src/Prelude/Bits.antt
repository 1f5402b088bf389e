-- ===== src/Prelude/Bits.antt =====
-- Laws of `bit_xor` and `bit_and` at every width, from their recursion on binary digits.
use Prim.Native.Nat.{◌-◌, ℕ, zero, suc, ◌+◌, ◌*◌, ◌/◌, ◌%◌, ◌^◌, ◌≤◌, ◌<◌}
use Prim.Native.Nat.{
  digits, differ, bit_xor, bit_xor-bitwise, bit_and, bit_and-bitwise, bit_or, bit_or-bitwise, min,
  max,
}
use mathlib.Core.Path.{◌≡◌, refl, sym, ap, ◌∙◌}
use native.Mathlib.Nat.{pow-suc, one-le-pow, div-add-mod', div-lt_iff_lt-mul, mod-lt}
use native.Mathlib.Omega.{arith}

abbrev xor_digits : ℕ → ℕ → ℕ → ℕ
xor_digits n a b = digits (λ y. y) differ n a b

xor_digits_fuel : (n m a b : ℕ) → a ≤ n → a ≤ m → xor_digits n a b ≡ xor_digits m a b
xor_digits_fuel zero zero a b p q = refl
xor_digits_fuel zero (suc m) zero b p q = refl
xor_digits_fuel zero (suc m) (suc a) b p q = absurd (omega arith)
xor_digits_fuel (suc n) zero zero b p q = refl
xor_digits_fuel (suc n) zero (suc a) b p q = absurd (omega arith)
xor_digits_fuel (suc n) (suc m) zero b p q = refl
xor_digits_fuel (suc n) (suc m) (suc a) b p q =
    omega (arith, xor_digits_fuel n m (suc a / 2) (b / 2) (omega arith) (omega arith))

differ_lt : (a b : ℕ) → a < 2 → b < 2 → differ a b < 2
differ_lt zero b p q = omega arith
differ_lt (suc zero) zero p q = omega arith
differ_lt (suc zero) (suc b) p q = omega arith
differ_lt (suc (suc a)) b p q = absurd (omega arith)

differ_cancel : (a b : ℕ) → a < 2 → b < 2 → differ (differ a b) b ≡ a
differ_cancel zero zero p q = refl
differ_cancel zero (suc zero) p q = refl
differ_cancel zero (suc (suc b)) p q = absurd (omega arith)
differ_cancel (suc zero) zero p q = refl
differ_cancel (suc zero) (suc zero) p q = refl
differ_cancel (suc zero) (suc (suc b)) p q = absurd (omega arith)
differ_cancel (suc (suc a)) b p q = absurd (omega arith)

pub zero-bit_xor : (b : ℕ) → bit_xor 0 b ≡ b
zero-bit_xor b = bit_xor-bitwise 0 b

-- The law for the lowest digit.
pub bit_xor_step : (a b : ℕ) → bit_xor a b ≡ bit_xor (a / 2) (b / 2) * 2 + differ (a % 2) (b % 2)
bit_xor_step zero b = omega (arith, zero-bit_xor b, zero-bit_xor (b / 2))
bit_xor_step (suc a) b = omega (
  arith,
  bit_xor-bitwise (suc a) b,
  bit_xor-bitwise (suc a / 2) (b / 2),
  xor_digits_fuel a (suc a / 2) (suc a / 2) (b / 2) (omega arith) (omega arith),
)

xor_cancel_fuel : (n a b : ℕ) → a ≤ n → b ≤ n → bit_xor (bit_xor a b) b ≡ a
xor_cancel_fuel zero a b p q =
    let ea : a ≡ 0 = omega arith in let eb : b ≡ 0 = omega arith in rw (ea, eb) refl
xor_cancel_fuel (suc n) a b p q = ground (
  arith,
  bit_xor_step a b,
  bit_xor_step (bit_xor a b) b,
  xor_cancel_fuel n (a / 2) (b / 2) (omega arith) (omega arith),
  differ_cancel (a % 2) (b % 2),
  differ_lt (a % 2) (b % 2),
)

-- Mixing the same word in twice gives the first word back.
pub bit_xor_cancel : (a b : ℕ) → bit_xor (bit_xor a b) b ≡ a
bit_xor_cancel a b = xor_cancel_fuel (a + b) a b (omega arith) (omega arith)

pub bit_xor-lt : (k a b : ℕ) → a < 2 ^ k → b < 2 ^ k → bit_xor a b < 2 ^ k
bit_xor-lt zero a b p q =
    let ea : a ≡ 0 = omega arith in let eb : b ≡ 0 = omega arith in rw (ea, eb) (omega arith)
bit_xor-lt (suc k) a b p q = ground (
  arith,
  bit_xor_step a b,
  pow-suc 2 k,
  differ_lt (a % 2) (b % 2),
  bit_xor-lt k (a / 2) (b / 2) (ground (arith, pow-suc 2 k)) (ground (arith, pow-suc 2 k)),
)

-- One place further to the left.
shifted_once : (q k : ℕ) → q * 2 ^ k * 2 ≡ q * 2 ^ suc k
shifted_once q k = omega (arith, ap (λ (power : ℕ). power * q) (pow-suc 2 k))

-- The bits above and below place `k` are mixed apart.
pub bit_xor_fields :
    (k p q r s : ℕ)
    → r < 2 ^ k
    → s < 2 ^ k
    → bit_xor (r + p * 2 ^ k) (s + q * 2 ^ k) ≡ bit_xor r s + bit_xor p q * 2 ^ k
bit_xor_fields zero p q r s hr hs =
    let er : r ≡ 0 = omega arith in let es : s ≡ 0 = omega arith in rw (er, es) (ground arith)
bit_xor_fields (suc k) p q r s hr hs = ground (
  arith,
  bit_xor_step (r + p * 2 ^ suc k) (s + q * 2 ^ suc k),
  bit_xor_step r s,
  shifted_once p k,
  shifted_once q k,
  shifted_once (bit_xor p q) k,
  pow-suc 2 k,
  bit_xor_fields k p q (r / 2) (s / 2),
)

abbrev and_digits : ℕ → ℕ → ℕ → ℕ
and_digits n a b = digits (λ y. 0) min n a b

-- More fuel than digits changes nothing.
and_digits_enough : (n m a b : ℕ) → a ≤ n → a ≤ m → and_digits n a b ≡ and_digits m a b
and_digits_enough zero zero a b p q = refl
and_digits_enough zero (suc m) zero b p q = refl
and_digits_enough (suc n) zero zero b p q = refl
and_digits_enough (suc n) (suc m) zero b p q = refl
and_digits_enough zero m (suc a) b p q = absurd (omega arith)
and_digits_enough (suc n) zero (suc a) b p q = absurd (omega arith)
and_digits_enough (suc n) (suc m) (suc a) b p q =
    ap (λ high. high * 2 + min (suc a % 2) (b % 2))
      (and_digits_enough n m (suc a / 2) (b / 2) (omega arith) (omega arith))

pub bit_and_digit : (b a : ℕ) → bit_and a b ≡ bit_and (a / 2) (b / 2) * 2 + min (a % 2) (b % 2)
bit_and_digit b zero = ground (arith, bit_and-bitwise 0 b, bit_and-bitwise 0 (b / 2))
bit_and_digit b (suc a) =
    bit_and-bitwise (suc a) b
    ∙ ap (λ high. high * 2 + min (suc a % 2) (b % 2))
        (and_digits_enough a (suc a / 2) (suc a / 2) (b / 2) (omega arith) (omega arith)
          ∙ sym (bit_and-bitwise (suc a / 2) (b / 2)))

-- The places above and below `k` are masked apart.
pub bit_and_places :
    (k p q r s : ℕ)
    → r < 2 ^ k
    → s < 2 ^ k
    → bit_and (p * 2 ^ k + r) (q * 2 ^ k + s) ≡ bit_and p q * 2 ^ k + bit_and r s
bit_and_places zero p q r s hr hs =
    let er : r ≡ 0 = omega arith in let es : s ≡ 0 = omega arith in rw (er, es) (ground arith)
bit_and_places (suc k) p q r s hr hs = ground (
  arith,
  bit_and_digit (q * 2 ^ suc k + s) (p * 2 ^ suc k + r),
  bit_and_digit s r,
  shifted_once p k,
  shifted_once q k,
  shifted_once (bit_and p q) k,
  pow-suc 2 k,
  bit_and_places k p q (r / 2) (s / 2),
)

bit_and_nothing : (n a : ℕ) → a < 2 ^ n → bit_and a 0 ≡ 0
bit_and_nothing zero a h = let e : a ≡ 0 = omega arith in rw e refl
bit_and_nothing (suc n) a h =
    ground (arith, bit_and_digit 0 a, bit_and_nothing n (a / 2) (ground (arith, pow-suc 2 n)))

-- A mask of `n` ones keeps a number of `n` digits.
pub bit_and_ones : (n a : ℕ) → a < 2 ^ n → bit_and a (2 ^ n - 1) ≡ a
bit_and_ones zero a h = let e : a ≡ 0 = omega arith in rw e refl
bit_and_ones (suc n) a h = ground (
  arith,
  bit_and_digit (2 ^ suc n - 1) a,
  pow-suc 2 n,
  one-le-pow n 2,
  bit_and_ones n (a / 2) (ground (arith, pow-suc 2 n)),
)

-- A mask of ones above `k` zeros clears the low places.
pub bit_and_above :
    (k n a : ℕ) → a < 2 ^ n * 2 ^ k → bit_and a ((2 ^ n - 1) * 2 ^ k) ≡ a / 2 ^ k * 2 ^ k
bit_and_above k n a h =
    let pos : 0 < 2 ^ k = one-le-pow k 2 (omega arith) in
    let padded : (2 ^ n - 1) * 2 ^ k ≡ (2 ^ n - 1) * 2 ^ k + 0 = omega arith in
    let low : a % 2 ^ k < 2 ^ k = mod-lt a pos in
    let high : a / 2 ^ k < 2 ^ n = (div-lt_iff_lt-mul pos).1 h in
    ap (λ m. bit_and m ((2 ^ n - 1) * 2 ^ k)) (sym (div-add-mod' a (2 ^ k)))
    ∙ ap (bit_and (a / 2 ^ k * 2 ^ k + a % 2 ^ k)) padded
    ∙ bit_and_places k (a / 2 ^ k) (2 ^ n - 1) (a % 2 ^ k) 0 low pos
    ∙ ground (arith, bit_and_ones n (a / 2 ^ k) high, bit_and_nothing k (a % 2 ^ k) low)

lt-two_pow : (n : ℕ) → n < 2 ^ n
lt-two_pow zero = omega arith
lt-two_pow (suc n) = omega (arith, pow-suc 2 n, lt-two_pow n)

-- The lowest three bits of a word.
pub bit_and-seven : (a : ℕ) → bit_and a 7 ≡ a % 8
bit_and-seven a = omega (
  arith,
  bit_and_digit 7 a,
  bit_and_digit 3 (a / 2),
  bit_and_digit 1 (a / 2 / 2),
  bit_and_nothing (a / 2 / 2 / 2) (a / 2 / 2 / 2) (lt-two_pow (a / 2 / 2 / 2)),
)

-- Mixing works on the lowest three bits alone.
pub bit_xor-mod-eight : (a b : ℕ) → a % 8 ≡ 0 → b % 8 ≡ 7 → bit_xor a b % 8 ≡ 7
bit_xor-mod-eight a b h k =
    let parts = bit_xor_fields 3 (a / 8) (b / 8) 0 7 (omega arith) (omega arith) in
    let ea : 0 + a / 8 * 2 ^ 3 ≡ a = omega arith in
    let eb : 7 + b / 8 * 2 ^ 3 ≡ b = omega arith in
    let low : bit_xor 0 7 ≡ 7 = zero-bit_xor 7 in
    let whole : bit_xor a b ≡ bit_xor 0 7 + bit_xor (a / 8) (b / 8) * 2 ^ 3 =
      sym (ap (λ (x : ℕ). bit_xor x (7 + b / 8 * 2 ^ 3)) ea ∙ ap (bit_xor a) eb) ∙ parts in
    omega (arith, whole, low)

pub bit_and-fifteen : (a : ℕ) → bit_and a 15 ≡ a % 16
bit_and-fifteen a = omega (arith, bit_and_digit 15 a, bit_and-seven (a / 2))

abbrev or_digits : ℕ → ℕ → ℕ → ℕ
or_digits n a b = digits (λ y. y) max n a b

or_digits_enough : (n m a b : ℕ) → a ≤ n → a ≤ m → or_digits n a b ≡ or_digits m a b
or_digits_enough zero zero a b p q = refl
or_digits_enough zero (suc m) zero b p q = refl
or_digits_enough (suc n) zero zero b p q = refl
or_digits_enough (suc n) (suc m) zero b p q = refl
or_digits_enough zero m (suc a) b p q = absurd (omega arith)
or_digits_enough (suc n) zero (suc a) b p q = absurd (omega arith)
or_digits_enough (suc n) (suc m) (suc a) b p q =
    ap (λ high. high * 2 + max (suc a % 2) (b % 2))
      (or_digits_enough n m (suc a / 2) (b / 2) (omega arith) (omega arith))

bit_or_digit : (b a : ℕ) → bit_or a b ≡ bit_or (a / 2) (b / 2) * 2 + max (a % 2) (b % 2)
bit_or_digit b zero = ground (arith, bit_or-bitwise 0 b, bit_or-bitwise 0 (b / 2))
bit_or_digit b (suc a) =
    bit_or-bitwise (suc a) b
    ∙ ap (λ high. high * 2 + max (suc a % 2) (b % 2))
        (or_digits_enough a (suc a / 2) (suc a / 2) (b / 2) (omega arith) (omega arith)
          ∙ sym (bit_or-bitwise (suc a / 2) (b / 2)))

-- Setting the lowest three bits.
pub bit_or-seven : (a : ℕ) → bit_or a 7 % 8 ≡ 7
bit_or-seven a = omega (arith, bit_or_digit 7 a, bit_or_digit 3 (a / 2), bit_or_digit 1 (a / 2 / 2))
