-- ===== src/Init/Tests.antt =====
-- The initializers sorted at a small table.
use mathlib.Core.List.{Permᴰ}
use ukoos.Prelude.{ℕ, ◌≡◌, refl, List, [], ◌∷◌}
use ukoos.Init.{Initializer, sort_initializers, run_initializers}
use ukoos.Init.Sorted.{Ascending, sort_initializers-Ascending}

abbrev entry : ℕ → ℕ → Initializer
entry func priority = record { func = func; file = 0; line = 1; priority = priority }

abbrev table : List Initializer
table = entry 100 10 ∷ entry 101 3 ∷ entry 102 0 ∷ entry 103 3 ∷ []

run_table : run_initializers table ≡ 102 ∷ 101 ∷ 103 ∷ 100 ∷ []
unfolding run_initializers
run_table = refl

sort_initializers-Ascending_example :
    Permᴰ table (sort_initializers table 4) × Ascending (sort_initializers table 4)
sort_initializers-Ascending_example = sort_initializers-Ascending table 4 refl
