-- ===== src/Symbolicate/Best.antt =====
-- The scan finds a symbol that starts highest among those at the address or below.
use ukoos.Prelude.{
  ℕ, suc, ◌-◌, ◌≤◌, ◌<◌, ◌≡◌, ◌⊎◌, ◌%◌, inl, inr, refl, sym, subst, ◌+◌, true, false, ltb,
  Bool-cases, List, [], ◌∷◌, get_elem?, Option, none, some, arith,
}
use ukoos.Prelude.Bits.{bit_and-fifteen}
use ukoos.Symbolicate.{Elf64Sym, st_type, is_candidate, better, find_best, symbolicate}

module _ (strtab_len addr : ℕ) where
  -- A symbol with a name in the table of strings, of the type `STT_FUNC` by the low four bits of its
  -- information, that starts at the address or below.
  abbrev pub IsFunctionBelow : Elf64Sym → Type 0
  IsFunctionBelow s =
      (0 < s.st_name) × (s.st_name < strtab_len) × (s.st_info % 16 ≡ 2) × (s.st_value ≤ addr)

  -- No such symbol starts above `v`.
  abbrev pub Highest : ℕ → List Elf64Sym → Type 0
  Highest v [] = Unit
  Highest v (s ∷ ss) = ((¬ IsFunctionBelow s) ⊎ (s.st_value ≤ v)) × Highest v ss

  abbrev pub NoFunction : List Elf64Sym → Type 0
  NoFunction [] = Unit
  NoFunction (s ∷ ss) = (¬ IsFunctionBelow s) × NoFunction ss

  -- Such a symbol of the table.
  abbrev pub IsListed : Elf64Sym → List Elf64Sym → Type 0
  IsListed c syms = IsFunctionBelow c × ((k : ℕ) × (get_elem? syms k ≡ some c))

  abbrev pub Best : List Elf64Sym → Option Elf64Sym → Type 0
  Best syms none = NoFunction syms
  Best syms (some c) = IsListed c syms × Highest c.st_value syms

  is_candidate-IsFunctionBelow :
      (s : Elf64Sym) → is_candidate strtab_len addr s ≡ true → IsFunctionBelow s
  unfolding is_candidate st_type
  is_candidate-IsFunctionBelow s h =
      let low = bit_and-fifteen s.st_info in
      (ground arith, ground arith, ground arith, ground arith)

  is_candidate-not : (s : Elf64Sym) → is_candidate strtab_len addr s ≡ false → ¬ IsFunctionBelow s
  unfolding is_candidate st_type
  is_candidate-not s h (named, listed, function, below) =
      let low = bit_and-fifteen s.st_info in ground arith

  IsListed-later : (c s : Elf64Sym) (syms : List Elf64Sym) → IsListed c syms → IsListed c (s ∷ syms)
  IsListed-later c s syms (is, (k, at)) = (is, (suc k, at))

  -- The scan with a best match so far.
  abbrev Improved : Elf64Sym → List Elf64Sym → Elf64Sym → Type 0
  Improved b syms c =
      (b.st_value ≤ c.st_value) × Highest c.st_value syms × ((c ≡ b) ⊎ IsListed c syms)

  better-cases :
      (s b : Elf64Sym)
      → ((better s (some b) ≡ some s) × (b.st_value < s.st_value))
        ⊎ ((better s (some b) ≡ some b) × (s.st_value ≤ b.st_value))
  unfolding better
  better-cases s b = elim (Bool-cases (ltb b.st_value s.st_value)) [
    | inl e ↦ inl (rw e refl, ground arith)
    | inr e ↦ inr (rw e refl, ground arith)
  ]

  from_head :
      (c s : Elf64Sym) (syms : List Elf64Sym)
      → is_candidate strtab_len addr s ≡ true
      → (c ≡ s) ⊎ IsListed c syms
      → IsListed c (s ∷ syms)
  from_head c s syms is (inl e) =
      subst (λ x. IsListed x (s ∷ syms)) (sym e) (is_candidate-IsFunctionBelow s is, (0, refl))
  from_head c s syms is (inr listed) = IsListed-later c s syms listed

  from_tail :
      (c b s : Elf64Sym) (syms : List Elf64Sym)
      → (c ≡ b) ⊎ IsListed c syms
      → (c ≡ b) ⊎ IsListed c (s ∷ syms)
  from_tail c b s syms (inl e) = inl e
  from_tail c b s syms (inr listed) = inr (IsListed-later c s syms listed)

  find_best-Improved :
      (syms : List Elf64Sym) (b : Elf64Sym)
      → (c : Elf64Sym) × (find_best strtab_len addr syms (some b) ≡ some c) × Improved b syms c
  unfolding find_best
  find_best-Improved [] b = (b, refl, (omega arith, tt, inl refl))
  find_best-Improved (s ∷ syms) b = elim (Bool-cases (is_candidate strtab_len addr s)) [
    | inl is ↦ elim (better-cases s b) [
      | inl (e, lt) ↦
          let (c, run, (le, high, from)) = find_best-Improved syms s in
          (c, rw (is, e) run, (omega arith, (inr le, high), inr (from_head c s syms is from)))
      | inr (e, ge) ↦
          let (c, run, (le, high, from)) = find_best-Improved syms b in
          (c, rw (is, e) run, (le, (inr (omega arith), high), from_tail c b s syms from))
    ]
    | inr isnt ↦
        let (c, run, (le, high, from)) = find_best-Improved syms b in
        (c, rw isnt run, (le, (inl (is_candidate-not s isnt), high), from_tail c b s syms from))
  ]

  better-none : (s : Elf64Sym) → better s none ≡ some s
  unfolding better
  better-none s = refl

  Best-later :
      (s : Elf64Sym) (syms : List Elf64Sym) (r : Option Elf64Sym)
      → is_candidate strtab_len addr s ≡ false
      → Best syms r
      → Best (s ∷ syms) r
  Best-later s syms none isnt B = (is_candidate-not s isnt, B)
  Best-later s syms (some c) isnt (listed, high) =
      (IsListed-later c s syms listed, (inl (is_candidate-not s isnt), high))

  find_best-Best : (syms : List Elf64Sym) → Best syms (find_best strtab_len addr syms none)
  unfolding find_best
  find_best-Best [] = tt
  find_best-Best (s ∷ syms) = elim (Bool-cases (is_candidate strtab_len addr s)) [
    | inl is ↦
        let (c, run, (le, high, from)) = find_best-Improved syms s in
        rw (is, better-none s) (rw run (from_head c s syms is from, (inr le, high)))
    | inr isnt ↦
        rw isnt (Best-later s syms (find_best strtab_len addr syms none) isnt (find_best-Best syms))
  ]

  -- An answer names such a symbol that starts highest and the distance to it, and there is none
  -- only where there is no such symbol.
  abbrev pub Answers : List Elf64Sym → Option (ℕ × ℕ) → Type 0
  Answers syms none = NoFunction syms
  Answers syms (some (name, offset)) =
      (c : Elf64Sym) × IsListed c syms
      × Highest c.st_value syms
      × (c.st_name ≡ name)
      × (c.st_value + offset ≡ addr)

  Best-Answers :
      (syms : List Elf64Sym) (r : Option Elf64Sym)
      → Best syms r
      → Answers syms (elim r [
        | none ↦ none
        | some best_match ↦ some (best_match.st_name, addr - best_match.st_value)
      ])
  Best-Answers syms none B = B
  Best-Answers syms (some c) ((is, at), high) = (c, (is, at), high, refl, omega (arith, is.3))

-- With a table of symbols, `symbolicate` answers with the name of a symbol of the table and with
-- the distance from its start to the address, where the symbol has a name, an index that is not 0
-- and within the table of strings, is of the type `STT_FUNC` (2 in the low four bits of its
-- information) and starts at the address or below, and no such symbol of the table starts above
-- it. It finds nothing only where the table has no such symbol.
pub symbolicate-Answers :
    (syms : List Elf64Sym) (strtab_len addr : ℕ)
    → Answers strtab_len addr syms
        (symbolicate (record { symtab = some syms; strtab_len = strtab_len }) addr)
unfolding symbolicate
symbolicate-Answers syms strtab_len addr =
    Best-Answers strtab_len addr syms (find_best strtab_len addr syms none)
      (find_best-Best strtab_len addr syms)
