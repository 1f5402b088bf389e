-- ===== src/Builtins/Tests.antt =====
-- Short byte sequences for src/kernel/builtins.
use ukoos.Prelude.{ℕ, ◌≡◌, ◌↔◌, refl, List, [], ◌∷◌, ◌++◌, some}
use ukoos.Builtins.{pos, negsuc, strcmp, strlen, strnlen}
use ukoos.Builtins.Strings.{strcmp_zero, strnlen-strlen}

abbrev first : List ℕ
first = 97 ∷ 98 ∷ 99 ∷ []

abbrev second : List ℕ
second = 97 ∷ 98 ∷ 100 ∷ []

strcmp_zero_example :
    (strcmp (first ++ (0 ∷ 5 ∷ [])) (second ++ (0 ∷ [])) ≡ some (pos 0)) ↔ (first ≡ second)
strcmp_zero_example =
    strcmp_zero first second (5 ∷ []) [] (refl, (refl, (refl, tt))) (refl, (refl, (refl, tt)))

strnlen-strlen_example :
    (strlen (97 ∷ 98 ∷ 0 ∷ 5 ∷ []) ≡ some 2) × (strnlen (97 ∷ 98 ∷ 0 ∷ 5 ∷ []) 1 ≡ some 1)
strnlen-strlen_example = strnlen-strlen (97 ∷ 98 ∷ []) (5 ∷ []) 1 (refl, (refl, tt))

-- The difference of the first bytes that are not the same.
strcmp_difference : strcmp (97 ∷ 98 ∷ 0 ∷ []) (97 ∷ 100 ∷ 0 ∷ []) ≡ some (negsuc 1)
unfolding strcmp
strcmp_difference = refl
