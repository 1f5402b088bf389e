-- ===== src/Prelude/Runs.antt =====
-- What a run of the code can come to: a value, a failed assertion, or no end within the fuel.
use mathlib.Core.Path.{◌≡◌}
use mathlib.Core.Bool.{Bool, true, false}

pub data Run {ℓ} (A : Type ℓ) : Type ℓ where
  ok : A → Run A
  panic : Run A
  out_of_fuel : Run A

infixl 5 ◌>>=◌ ◌>>◌
abbrev pub ◌>>=◌ {ℓ κ} : {A : Type ℓ} {B : Type κ} → Run A → (A → Run B) → Run B
ok a >>= f = f a
panic >>= f = panic
out_of_fuel >>= f = out_of_fuel

abbrev pub ◌>>◌ {ℓ} : {B : Type ℓ} → Run (Unit {0}) → Run B → Run B
m >> k = m >>= λ _. k

-- `assert(cond)` of include/panic.h: it panics where the condition fails.
abbrev pub assert : Bool → Run (Unit {0})
assert true = ok tt
assert false = panic

-- Total correctness: the run ends normally, in a value with the property.
abbrev pub Yields {ℓ κ} : {A : Type ℓ} → Run A → (A → Type κ) → Type (ℓ ⊔ κ)
Yields {A} r P = (a : A) × (r ≡ ok a) × P a
