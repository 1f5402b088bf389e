-- ===== src/Paging/Walk.antt =====
-- The walk where the tables are there, and the mapping and unmapping of a page.
use ukoos.Prelude.{
  ℕ, ◌+◌, ◌*◌, ◌≤◌, ◌≡◌, refl, sym, Bool, true, false, ◌==◌, arith, some, ok, ==_refl,
}
use ukoos.Align.{is_aligned}
use ukoos.PhysicalAlloc.{PhysicalState, Memory, set_memory, physical_map_len, store_word}
use ukoos.PhysicalAlloc.FreeList.{paddr_offset-ok, ptr_of_paddr-ok}
use ukoos.Paging.{
  Pte, bits_of_pte, pte_of_bits, PagingState, satp_ppn, satp_mode, satp_mode_sv39, read_pte,
  write_pte, page_paddr, vpn, is_canonical, walk_level, mm_paging_walk,
}
use ukoos.Paging.Entry.{FitsPte, pte_of_bits-bits_of_pte}

abbrev pub memory_of : PagingState → Memory
memory_of s = (s.physical).memory

-- The entry that a word of memory holds.
abbrev pub entry : PagingState → ℕ → Pte
entry s a = pte_of_bits (memory_of s a)

-- `a` is the place of entry `index` in the table of page number `ppn`, within the mapped memory.
abbrev pub IsSlot : ℕ → ℕ → ℕ → Type 0
IsSlot ppn index a = (a ≡ page_paddr ppn + index * 8) × (a + 8 ≤ physical_map_len)

-- The tables on the way to a page are there: the root's entry at `a₂` is valid, and so is the next
-- one at `a₁`; the entry of the page itself is at `a₀`.
pub record Reaches (s : PagingState) (va a₂ a₁ a₀ : ℕ) : Type 0 where
  pub aligned : is_aligned va 12 ≡ true
  pub canonical : is_canonical va ≡ true
  pub mode : satp_mode s.satp ≡ satp_mode_sv39
  pub first : IsSlot (satp_ppn s.satp) (vpn va 30) a₂
  pub first_valid : (entry s a₂).valid ≡ true
  pub second : IsSlot (entry s a₂).ppn (vpn va 21) a₁
  pub second_valid : (entry s a₁).valid ≡ true
  pub third : IsSlot (entry s a₁).ppn (vpn va 12) a₀

pub read_pte-entry :
    (s : PhysicalState) (a : ℕ)
    → a + 8 ≤ physical_map_len
    → read_pte a s ≡ ok (pte_of_bits (s.memory a))
unfolding read_pte
read_pte-entry s a h = rw (ptr_of_paddr-ok a 8 h) refl

-- The state with an entry written.
abbrev pub written : PagingState → ℕ → Pte → PagingState
written s a p = record s {
  physical = set_memory (store_word (memory_of s) a (bits_of_pte p)) s.physical;
}

pub write_pte-entry :
    (s : PagingState) (a : ℕ) (p : Pte)
    → a + 8 ≤ physical_map_len
    → write_pte a p s.physical ≡ ok (written s a p).physical
unfolding write_pte
write_pte-entry s a p h = rw (ptr_of_paddr-ok a 8 h) refl

pub written-same : (s : PagingState) (a : ℕ) (p : Pte) → FitsPte p → entry (written s a p) a ≡ p
unfolding store_word
written-same s a p fits = rw (==_refl a) (pte_of_bits-bits_of_pte p fits)

pub written-other :
    (s : PagingState) (a : ℕ) (p : Pte) (x : ℕ)
    → (x == a) ≡ false
    → memory_of (written s a p) x ≡ memory_of s x
unfolding store_word
written-other s a p x ne = rw ne refl

-- The way to a page survives a change that spares the entries of the tables.
pub Reaches-frame :
    (s t : PagingState) (va a₂ a₁ a₀ : ℕ)
    → Reaches s va a₂ a₁ a₀
    → t.satp ≡ s.satp
    → memory_of t a₂ ≡ memory_of s a₂
    → memory_of t a₁ ≡ memory_of s a₁
    → Reaches t va a₂ a₁ a₀
Reaches-frame s t va a₂ a₁ a₀ r satp e₂ e₁ = record {
  aligned = r.aligned;
  canonical = r.canonical;
  mode = rw satp r.mode;
  first = rw satp r.first;
  first_valid = rw e₂ r.first_valid;
  second = rw e₂ r.second;
  second_valid = rw e₁ r.second_valid;
  third = rw e₁ r.third;
}

pub walk_level-valid :
    (alloc : Bool) (ppn index a : ℕ) (s : PhysicalState)
    → IsSlot ppn index a
    → (pte_of_bits (s.memory a)).valid ≡ true
    → walk_level alloc (page_paddr ppn) index s
      ≡ ok (some (page_paddr (pte_of_bits (s.memory a)).ppn), s)
unfolding walk_level
walk_level-valid alloc ppn index a s (at, within) valid =
    rw
      (
        paddr_offset-ok (page_paddr ppn) (index * 8) (omega arith),
        sym at,
        read_pte-entry s a within,
        valid,
      )
      refl

pub mm_paging_walk-Reaches :
    (s : PagingState) (va a₂ a₁ a₀ : ℕ) (alloc : Bool)
    → Reaches s va a₂ a₁ a₀
    → mm_paging_walk va alloc s ≡ ok (some a₀, s)
unfolding mm_paging_walk
mm_paging_walk-Reaches s va a₂ a₁ a₀ alloc r =
    let (at, within) = r.third in
    rw
      (
        r.aligned,
        r.canonical,
        r.mode,
        walk_level-valid alloc (satp_ppn s.satp) (vpn va 30) a₂ s.physical r.first r.first_valid,
        walk_level-valid alloc (entry s a₂).ppn (vpn va 21) a₁ s.physical r.second r.second_valid,
        paddr_offset-ok (page_paddr (entry s a₁).ppn) (vpn va 12 * 8) (omega arith),
        sym at,
      )
      refl
