-- ===== src/Print/Number.antt =====
-- What `format_number` writes.
use mathlib.Core.List.{reverse}
use ukoos.Prelude.{
  ℕ, ◌+◌, ◌-◌, ◌%◌, ◌^◌, ◌≤◌, ◌≡◌, Bool, true, false, ◌==◌, if◌then◌else◌, List, [], ◌∷◌, ◌++◌,
  length, replicate,
}
use ukoos.Print.{NumberArgs}
use ukoos.Print.Digits.{value_rev}

-- The base is one that there are digits for, and the padding is of zeros where it stands behind the
-- prefix, else of spaces.
abbrev HasBase : NumberArgs → Type 0
HasBase a =
    (2 ≤ a.base) × (a.base ≤ 16) × (a.pad_byte ≡ (if a.pad_after_prefix then b'0' else b' '))

-- How a number is written: the sign, the base where it is asked for, and the padding, of zeros
-- between these and the digits or else of spaces in front.
abbrev pub sign_text : Bool → List ℕ
sign_text true = b'-' ∷ []
sign_text false = []

abbrev pub base_text : Bool → ℕ → List ℕ
base_text false base = []
base_text true base =
    if base == 2
    then b'0' ∷ b'b' ∷ []
    else (if base == 8 then b'0' ∷ b'o' ∷ [] else (if base == 16 then b'0' ∷ b'x' ∷ [] else []))

abbrev pub layout : Bool → ℕ → List ℕ → List ℕ → List ℕ
layout true pad prefix ds = prefix ++ (replicate (pad - (length prefix + length ds)) b'0' ++ ds)
layout false pad prefix ds = replicate (pad - (length prefix + length ds)) b' ' ++ (prefix ++ ds)

-- The number without its sign: 64-bit two's complement.
abbrev pub absolute : Bool → ℕ → ℕ
absolute true n = (2 ^ 64 - n) % 2 ^ 64
absolute false n = n

-- What the digits stand for, read from the left.
abbrev pub value : ℕ → List ℕ → ℕ
value base ds = value_rev base (reverse ds)
