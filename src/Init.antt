-- ===== src/Init.antt =====
-- src/kernel/init.c: the initializers are sorted by priority before they run.
pub mod Sorted
pub mod Tests
use ukoos.Prelude.{ℕ, zero, suc, ◌+◌, ltb, if◌then◌else◌, List, [], ◌∷◌, get_or, set, length, map}

-- A pointer is its address, and a priority its number, which is not negative.
pub record Initializer : Type 0 where
  pub func : ℕ
  pub file : ℕ
  pub line : ℕ
  pub priority : ℕ

-- The `for` loop from index `i` on.
unfoldable pub find_min : List Initializer → ℕ → ℕ → ℕ → ℕ
find_min [] i min_priority min_index = min_index
find_min (x ∷ xs) i min_priority min_index =
    let less = ltb x.priority min_priority in
    find_min xs (i + 1) (if less then x.priority else min_priority) (if less then i else min_index)

-- The first entry and those behind it, after `*ptr` and `ptr[min_index]` have changed places.
unfoldable pub swap_first : Initializer → List Initializer → ℕ → Initializer × List Initializer
swap_first x xs zero = (x, xs)
swap_first x xs (suc k) = (get_or xs k x, set xs k x)

unfoldable pub sort_initializers : List Initializer → ℕ → List Initializer
unfolding find_min swap_first
sort_initializers ptr zero = ptr
sort_initializers [] (suc len) = []
sort_initializers (x ∷ xs) (suc len) =
    let swapped = swap_first x xs (find_min (x ∷ xs) 0 x.priority 0) in
    swapped.0 ∷ sort_initializers swapped.1 len

-- The functions called, in their order. What they do is not modelled.
unfoldable pub run_initializers : List Initializer → List ℕ
unfolding sort_initializers
run_initializers kernel_initializers =
    map (λ x. Initializer.func x)
      (sort_initializers kernel_initializers (length kernel_initializers))
