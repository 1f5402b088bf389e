-- ===== src/Builtins.antt =====
-- src/kernel/builtins: the comparison and the length of byte sequences. A pointer is the list of
-- the bytes from its address to the end of what may be read, and a read behind that is `none`.
pub mod Strings
pub mod Tests
use ukoos.Prelude.{
  ℕ, zero, suc, ◌-◌, ◌+◌, leb, ltb, ◌==◌, if◌then◌else◌, List, [], ◌∷◌, Option, none, some,
}

-- `int`.
pub data ℤ : Type 0 where
  pos : ℕ → ℤ
  negsuc : ℕ → ℤ

-- `c1 - c2` of two bytes.
unfoldable pub byte_difference : ℕ → ℕ → ℤ
byte_difference a b = if leb b a then pos (a - b) else negsuc (b - a - 1)

unfoldable pub memcmp : List ℕ → List ℕ → ℕ → Option ℤ
memcmp xs ys zero = some (pos 0)
memcmp (x ∷ xs) (y ∷ ys) (suc n) =
    let rest = memcmp xs ys n in
    if ltb x y then some (negsuc 0) else if ltb y x then some (pos 1) else rest
memcmp _ _ (suc n) = none

unfoldable pub strcmp : List ℕ → List ℕ → Option ℤ
unfolding byte_difference
strcmp (x ∷ xs) (y ∷ ys) =
    let rest = strcmp xs ys in
    if x == y
    then (if x == 0 then some (byte_difference x y) else rest)
    else some (byte_difference x y)
strcmp _ _ = none

-- `strlen`, with the number of bytes that were passed.
unfoldable pub count_loop : ℕ → List ℕ → Option ℕ
count_loop n [] = none
count_loop n (x ∷ xs) = let rest = count_loop (n + 1) xs in if x == 0 then some n else rest

unfoldable pub strlen : List ℕ → Option ℕ
unfolding count_loop
strlen s = count_loop 0 s

unfoldable pub bounded_loop : ℕ → List ℕ → ℕ → Option ℕ
bounded_loop n s zero = some n
bounded_loop n [] (suc left) = none
bounded_loop n (x ∷ xs) (suc left) =
    let rest = bounded_loop (n + 1) xs left in if x == 0 then some n else rest

unfoldable pub strnlen : List ℕ → ℕ → Option ℕ
unfolding bounded_loop
strnlen s max_len = bounded_loop 0 s max_len
