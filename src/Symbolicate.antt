-- ===== src/Symbolicate.antt =====
-- src/kernel/symbolicate.c: the function that an address belongs to, from the table of symbols.
pub mod Best
pub mod Tests
use ukoos.Prelude.{
  ℕ, ◌-◌, Bool, true, false, ltb, leb, ◌==◌, if◌then◌else◌, List, [], ◌∷◌, Option, none, some,
  bit_and, Run, ok, panic,
}

pub record Elf64Sym : Type 0 where
  pub st_name : ℕ
  pub st_info : ℕ
  pub st_value : ℕ

unfoldable pub st_type : ℕ → ℕ
st_type st_info = bit_and st_info 0xf

-- Whether the loop gets past its `continue`s and the symbol starts at the address or below.
unfoldable pub is_candidate : ℕ → ℕ → Elf64Sym → Bool
unfolding st_type
is_candidate strtab_len addr sym =
    if sym.st_name == 0
    then false
    else if leb strtab_len sym.st_name
    then false
    else if st_type sym.st_info == 2
    then leb sym.st_value addr
    else false

-- `best_match` where `found_match` is set.
unfoldable pub better : Elf64Sym → Option Elf64Sym → Option Elf64Sym
better sym none = some sym
better sym (some best_match) =
    if ltb best_match.st_value sym.st_value then some sym else some best_match

unfoldable pub find_best : ℕ → ℕ → List Elf64Sym → Option Elf64Sym → Option Elf64Sym
unfolding is_candidate better
find_best strtab_len addr [] best = best
find_best strtab_len addr (sym ∷ syms) best =
    find_best strtab_len addr syms
      (if is_candidate strtab_len addr sym then better sym best else best)

-- The static variables: the table, where it is set, and the length of the table of strings.
pub record Symbols : Type 0 where
  pub symtab : Option (List Elf64Sym)
  pub strtab_len : ℕ

-- The table of strings is given by its length alone, and the table of symbols as whole symbols.
unfoldable pub symbolicate_init : Option (List Elf64Sym) → ℕ → Run Symbols
symbolicate_init none strtab_len = panic
symbolicate_init (some syms) strtab_len =
    ok (record { symtab = some syms; strtab_len = strtab_len })

-- The name, as an index into the table of strings, and the offset.
unfoldable pub symbolicate : Symbols → ℕ → Option (ℕ × ℕ)
unfolding find_best
symbolicate symbols addr = elim symbols.symtab [
  | none ↦ none
  | some syms ↦ elim (find_best symbols.strtab_len addr syms none) [
    | none ↦ none
    | some best_match ↦ some (best_match.st_name, addr - best_match.st_value)
  ]
]
