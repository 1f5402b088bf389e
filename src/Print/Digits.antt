-- ===== src/Print/Digits.antt =====
-- The digits of a number, read back.
use native.Mathlib.Nat.{div-add-mod', mod-lt, mul-le-mul_left, mul-le-mul_right, mul_comm}
use ukoos.Prelude.{
  ℕ, zero, suc, ◌+◌, ◌-◌, ◌*◌, ◌/◌, ◌%◌, ◌^◌, ◌≤◌, ◌<◌, ◌≡◌, refl, ap, ◌⊎◌, ltb, ◌==◌, inl, inr,
  length, if◌then◌else◌, true, false, List, [], ◌∷◌, arith, Bool-cases,
}
use native.Mathlib.Nat.{pow-suc, pow-zero}
use ukoos.Print.{number_alphabet, buf_loop, buf_rev}

-- What a digit stands for, and what a sequence of digits does, the lowest first.
abbrev pub digit_value : ℕ → ℕ
digit_value c = if ltb c 58 then c - 48 else c - 87

abbrev pub value_rev : ℕ → List ℕ → ℕ
value_rev base [] = 0
value_rev base (c ∷ cs) = digit_value c + base * value_rev base cs

abbrev pub IsDigit : ℕ → Type 0
IsDigit c = ((b'0' ≤ c) × (c ≤ b'9')) ⊎ ((b'a' ≤ c) × (c ≤ b'f'))

-- Each is one of the bytes "0" to "9" and "a" to "f", and a digit of the base.
abbrev pub AreDigits : ℕ → List ℕ → Type 0
AreDigits base [] = Unit
AreDigits base (c ∷ cs) = IsDigit c × (digit_value c < base) × AreDigits base cs

number_alphabet-IsDigit : (d : ℕ) → d < 16 → IsDigit (number_alphabet d)
unfolding number_alphabet
number_alphabet-IsDigit d h = elim (Bool-cases (ltb d 10)) [
  | inl small ↦ rw small (inl (ground arith, ground arith))
  | inr large ↦ rw large (inr (ground arith, ground arith))
]

digit_value-number_alphabet : (d : ℕ) → d < 16 → digit_value (number_alphabet d) ≡ d
unfolding number_alphabet
digit_value-number_alphabet d h = ground arith

halved : (base n k : ℕ) → 2 ≤ base → n < 2 * k → n / base < k
halved base n k h lt =
    let parts = div-add-mod' n base in
    let twice : n / base * 2 ≤ n / base * base = mul-le-mul_left (n / base) h in
    omega (arith, parts, twice)

buf_loop-value :
    (fuel base n : ℕ)
    → 2 ≤ base
    → base ≤ 16
    → n < 2 ^ fuel
    → (value_rev base (buf_loop fuel base n) ≡ n) × AreDigits base (buf_loop fuel base n)
unfolding buf_loop
buf_loop-value zero base n h k lt = (omega arith, tt)
buf_loop-value (suc fuel) base n h k lt = elim (Bool-cases (n == 0)) [
  | inl done ↦ rw done (ground arith, tt)
  | inr more ↦
      let small : n % base < base = mod-lt n (omega arith) in
      let first = digit_value-number_alphabet (n % base) (omega arith) in
      let (rest, digits) =
        buf_loop-value fuel base (n / base) h k
          (halved base n (2 ^ fuel) h (omega (arith, pow-suc 2 fuel))) in
      let parts = div-add-mod' n base in
      rw more (
        rw (first, rest) (omega (arith, mul_comm base (n / base))),
        (number_alphabet-IsDigit (n % base) (omega arith), omega (arith, first), digits),
      )
]

buf_loop-zero : (fuel base n : ℕ) → (n == 0) ≡ true → buf_loop fuel base n ≡ []
unfolding buf_loop
buf_loop-zero zero base n z = refl
buf_loop-zero (suc fuel) base n z = rw z refl

-- There is no digit more than the number asks for.
buf_loop-length :
    (fuel base n : ℕ)
    → 2 ≤ base
    → n < 2 ^ fuel
    → (n == 0) ≡ false
    → (k : ℕ) × (length (buf_loop fuel base n) ≡ suc k) × (base ^ k ≤ n)
unfolding buf_loop
buf_loop-length zero base n h lt pos = ground arith
buf_loop-length (suc fuel) base n h lt pos = elim (Bool-cases (n / base == 0)) [
  | inl done ↦ (
    0,
    rw pos (ap suc (ap length (buf_loop-zero fuel base (n / base) done))),
    ground (arith, pow-zero base),
  )
  | inr more ↦
      let (k, long, below) =
        buf_loop-length fuel base (n / base) h
          (halved base n (2 ^ fuel) h (omega (arith, pow-suc 2 fuel))) more in
      let parts = div-add-mod' n base in
      let grown : base ^ k * base ≤ n / base * base = mul-le-mul_right base below in
      (suc k, rw pos (ap suc long), omega (arith, pow-suc base k, parts, grown))
]

-- The digits in `buf_rev` stand for the number.
pub buf_rev-value :
    (base n : ℕ)
    → 2 ≤ base
    → base ≤ 16
    → n < 2 ^ 64
    → (value_rev base (buf_rev base n) ≡ n) × AreDigits base (buf_rev base n)
unfolding buf_rev
buf_rev-value base n h k lt = elim (Bool-cases (n == 0)) [
  | inl z ↦ rw z (ground arith, (inl (omega arith, omega arith), omega arith, tt))
  | inr more ↦ rw more (buf_loop-value 64 base n h k lt)
]

pub buf_rev-length :
    (base n : ℕ)
    → 2 ≤ base
    → n < 2 ^ 64
    → (k : ℕ) × (length (buf_rev base n) ≡ suc k) × ((k ≡ 0) ⊎ (base ^ k ≤ n))
unfolding buf_rev
buf_rev-length base n h lt = elim (Bool-cases (n == 0)) [
  | inl z ↦ (0, rw z refl, inl refl)
  | inr more ↦
      let (k, long, below) = buf_loop-length 64 base n h lt more in (k, rw more long, inr below)
]
