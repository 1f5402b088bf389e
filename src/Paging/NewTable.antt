-- ===== src/Paging/NewTable.antt =====
-- The walk where the last table on the way is missing and is allocated.
use ukoos.Prelude.{
  ℕ, ◌+◌, ◌*◌, ◌/◌, ◌%◌, ◌^◌, ◌≤◌, ◌≡◌, refl, sym, ap, ◌∙◌, Bool, true, false, ltb, leb, ◌==◌, ◌&&◌,
  if◌then◌else◌, arith, some, ok, Yields, ==_refl,
}
use ukoos.PhysicalAlloc.{
  PhysicalState, Popped, Memory, set_memory, physical_map_len, mm_alloc_physical, store_word,
}
use ukoos.PhysicalAlloc.FreeList.{paddr_offset-ok, ptr_of_paddr-ok}
use ukoos.Paging.{
  Pte, zero_pte, pte_of_bits, bits_of_pte, PagingState, satp_ppn, satp_mode, satp_mode_sv39,
  page_paddr, vpn, is_canonical, zero_table, write_pte, walk_level, mm_paging_walk,
}
use ukoos.Align.{is_aligned}
use ukoos.Paging.Entry.{pte_of_bits-bits_of_pte}
use ukoos.Paging.Walk.{memory_of, entry, IsSlot, Reaches, read_pte-entry, walk_level-valid}

-- The way to a page up to the table that has no entry for it yet.
pub record IsMissing (s : PagingState) (va a₂ a₁ : ℕ) : Type 0 where
  pub aligned : is_aligned va 12 ≡ true
  pub canonical : is_canonical va ≡ true
  pub mode : satp_mode s.satp ≡ satp_mode_sv39
  pub first : IsSlot (satp_ppn s.satp) (vpn va 30) a₂
  pub first_valid : (entry s a₂).valid ≡ true
  pub second : IsSlot (entry s a₂).ppn (vpn va 21) a₁
  pub second_unused : (entry s a₁).valid ≡ false

-- An address is in the page at `p`.
abbrev pub in_page : ℕ → ℕ → Bool
in_page p a = leb p a && ltb a (p + 4096)

-- What the allocation of a page answers: it is found, mapped and aligned, the two entries on the way
-- are not in it, and the allocator leaves the upper one as it is.
pub record IsFresh (s : PagingState) (a₂ a₁ : ℕ) (r : Popped) : Type 0 where
  pub found : r.found ≡ true
  pub aligned : r.out % 2 ^ 12 ≡ 0
  pub mapped : r.out + 4096 ≤ physical_map_len
  pub apart₂ : in_page r.out a₂ ≡ false
  pub apart₁ : in_page r.out a₁ ≡ false
  pub kept : (r.state).memory a₂ ≡ memory_of s a₂

abbrev new_table : Popped → Pte
new_table r = record zero_pte { valid = true; ppn = r.out / 2 ^ 12 }

abbrev zeroed : Popped → Memory
zeroed r = λ a. if leb r.out a && ltb a (r.out + 4096) then 0 else (r.state).memory a

abbrev extended : Popped → ℕ → PhysicalState
extended r a₁ = set_memory (store_word (zeroed r) a₁ (bits_of_pte (new_table r))) r.state

module _ (s : PagingState) (va a₂ a₁ : ℕ) (r : Popped) (way : IsMissing s va a₂ a₁)
    (alloc : mm_alloc_physical 0 s.physical ≡ ok r) (fresh : IsFresh s a₂ a₁ r)
    (differ : (a₂ == a₁) ≡ false) where
  second_level :
      walk_level true (page_paddr (entry s a₂).ppn) (vpn va 21) s.physical
      ≡ ok (some (page_paddr (r.out / 2 ^ 12)), extended r a₁)
  unfolding walk_level zero_table write_pte
  second_level =
      let (at, within) = way.second in
      rw
        (
          paddr_offset-ok (page_paddr (entry s a₂).ppn) (vpn va 21 * 8) (omega arith),
          sym at,
          read_pte-entry s.physical a₁ within,
          way.second_unused,
          alloc,
          fresh.found,
          ptr_of_paddr-ok r.out 4096 fresh.mapped,
          ptr_of_paddr-ok a₁ 8 within,
        )
        refl

  -- The entry of the page in the new table.
  abbrev pub slot : ℕ
  slot = r.out + vpn va 12 * 8

  walk-extended : mm_paging_walk va true s ≡ ok (some slot, record s { physical = extended r a₁ })
  unfolding mm_paging_walk
  walk-extended =
      let back : page_paddr (r.out / 2 ^ 12) ≡ r.out = let h = fresh.aligned in omega arith in
      let mapped = fresh.mapped in
      rw
        (
          way.aligned,
          way.canonical,
          way.mode,
          walk_level-valid true (satp_ppn s.satp) (vpn va 30) a₂ s.physical way.first
              way.first_valid,
          second_level,
          back,
          paddr_offset-ok r.out (vpn va 12 * 8) (omega arith),
        )
        refl

  extended-first : memory_of (record s { physical = extended r a₁ }) a₂ ≡ memory_of s a₂
  unfolding store_word
  extended-first = rw (differ, fresh.apart₂) fresh.kept

  extended-second : entry (record s { physical = extended r a₁ }) a₁ ≡ new_table r
  unfolding store_word
  extended-second =
      let mapped = fresh.mapped in
      rw (==_refl a₁) (pte_of_bits-bits_of_pte (new_table r) (omega arith))

  extended-zero :
      (x : ℕ) → in_page r.out x ≡ true → memory_of (record s { physical = extended r a₁ }) x ≡ 0
  unfolding store_word
  extended-zero x h =
      let apart = fresh.apart₁ in let ne : (x == a₁) ≡ false = ground arith in rw (ne, h) refl

  extended-other :
      (x : ℕ)
      → in_page r.out x ≡ false
      → (x == a₁) ≡ false
      → memory_of (record s { physical = extended r a₁ }) x ≡ (r.state).memory x
  unfolding store_word
  extended-other x h ne = rw (ne, h) refl

  extended-Reaches : Reaches (record s { physical = extended r a₁ }) va a₂ a₁ slot
  extended-Reaches =
      let there = extended-second in
      let mapped = fresh.mapped in
      let table : page_paddr (entry (record s { physical = extended r a₁ }) a₁).ppn ≡ r.out =
        ap (λ (p : Pte). page_paddr p.ppn) there ∙ (let h = fresh.aligned in omega arith) in
      record {
        aligned = way.aligned;
        canonical = way.canonical;
        mode = way.mode;
        first = way.first;
        first_valid = ap (λ (w : ℕ). (pte_of_bits w).valid) extended-first ∙ way.first_valid;
        second = rw extended-first way.second;
        second_valid = ap (λ (p : Pte). p.valid) there;
        third = (omega (arith, table), omega arith);
      }

  -- For a page whose upper table is there, with a valid entry at `a₂`, while the entry at `a₁` of
  -- the middle table is not valid, where `mm_alloc_physical` answers with an aligned and mapped
  -- page that holds neither entry, and leaves the word at `a₂` as it was: the walk that may
  -- allocate fails no assertion and gives the entry of the page in the new table; the page is then
  -- reached through `a₂` and `a₁`, every word of the new table is zero, and every other word but
  -- that at `a₁` is as the allocator left it.
  pub mm_paging_walk-new : Yields (mm_paging_walk va true s) (λ (found, t).
      (found ≡ some slot)
      × Reaches t va a₂ a₁ slot
      × ((x : ℕ) → in_page r.out x ≡ true → memory_of t x ≡ 0)
      × ((x : ℕ)
          → in_page r.out x ≡ false
          → (x == a₁) ≡ false
          → memory_of t x ≡ (r.state).memory x))
  mm_paging_walk-new = (_, walk-extended, (refl, extended-Reaches, extended-zero, extended-other))
