-- ===== src/Symbolicate/Tests.antt =====
-- Addresses looked up in a small table of symbols.
use ukoos.Prelude.{ℕ, ◌≡◌, refl, List, [], ◌∷◌, some}
use ukoos.Symbolicate.{Elf64Sym, symbolicate}
use ukoos.Symbolicate.Best.{Answers, symbolicate-Answers}

abbrev function_at : ℕ → ℕ → Elf64Sym
function_at name value = record { st_name = name; st_info = 0x12; st_value = value }

abbrev table : List Elf64Sym
table =
    function_at 7 0x3000
    ∷ record { st_name = 9; st_info = 0x11; st_value = 0x2fff }
    ∷ function_at 5 0x1000
    ∷ function_at 6 0x2000
    ∷ []

in_second : symbolicate (record { symtab = some table; strtab_len = 20 }) 0x2fff ≡ some (6, 0xfff)
unfolding symbolicate
in_second = refl

symbolicate-Answers_example :
    Answers 20 0x2fff table (symbolicate (record { symtab = some table; strtab_len = 20 }) 0x2fff)
symbolicate-Answers_example = symbolicate-Answers table 20 0x2fff
