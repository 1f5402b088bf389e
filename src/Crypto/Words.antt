-- ===== src/Crypto/Words.antt =====
-- Arithmetic on machine words of `w` bits, and arrays of words.
use ukoos.Prelude.{
  ℕ, zero, suc, ◌+◌, ◌-◌, ◌*◌, ◌/◌, ◌%◌, ◌^◌, ◌<◌, ◌≡◌, List, [], ◌∷◌, ◌++◌, length, get_or, set,
}

-- `x + y` of two unsigned words.
abbrev pub add_word : ℕ → ℕ → ℕ → ℕ
add_word w x y = (x + y) % 2 ^ w

-- `stdc_rotate_left` and `stdc_rotate_right` of the C library's <stdbit.h>, for `0 < k < w`.
abbrev pub rotate_left : ℕ → ℕ → ℕ → ℕ
rotate_left w x k = x * 2 ^ k % 2 ^ w + x / 2 ^ (w - k)

abbrev pub rotate_right : ℕ → ℕ → ℕ → ℕ
rotate_right w x k = x / 2 ^ k + x * 2 ^ (w - k) % 2 ^ w

-- `words[i]`. The arrays have a fixed size and every index is in range.
abbrev pub at : List ℕ → ℕ → ℕ
at words i = get_or words i 0

-- Every entry of an array is below a bound.
abbrev pub AllBelow : ℕ → List ℕ → Type 0
AllBelow m [] = Unit
AllBelow m (x ∷ xs) = (x < m) × AllBelow m xs

-- An array of `n` words below `m`.
pub record IsArray (n m : ℕ) (words : List ℕ) : Type 0 where
  pub size : length words ≡ n
  pub below : AllBelow m words

pub at-lt : (m : ℕ) (words : List ℕ) (i : ℕ) → 0 < m → AllBelow m words → at words i < m
at-lt m [] i pos h = pos
at-lt m (x ∷ xs) zero pos h = h.0
at-lt m (x ∷ xs) (suc i) pos h = at-lt m xs i pos h.1

pub set-AllBelow :
    (m : ℕ) (words : List ℕ) (i v : ℕ) → v < m → AllBelow m words → AllBelow m (set words i v)
set-AllBelow m [] i v hv h = h
set-AllBelow m (x ∷ xs) zero v hv h = (hv, h.1)
set-AllBelow m (x ∷ xs) (suc i) v hv h = (h.0, set-AllBelow m xs i v hv h.1)

pub AllBelow-append :
    (m : ℕ) (xs ys : List ℕ) → AllBelow m xs → AllBelow m ys → AllBelow m (xs ++ ys)
AllBelow-append m [] ys h k = k
AllBelow-append m (x ∷ xs) ys h k = (h.0, AllBelow-append m xs ys h.1 k)
