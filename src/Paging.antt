-- ===== src/Paging.antt =====
-- src/kernel/arch/riscv64/paging.c: the Sv39 page tables, over the physical memory and the page
-- allocator of PhysicalAlloc. A bit-field `struct` is the 64-bit word that it takes in memory, with
-- the first field at the lowest bits, as the ABI lays it out.
pub mod Entry
pub mod Walk
pub mod Map
pub mod NewTable
pub mod Iomem
pub mod Tests
use ukoos.Prelude.{
  ℕ, ◌+◌, ◌-◌, ◌*◌, ◌/◌, ◌%◌, ◌^◌, Bool, true, false, not, ◌&&◌, ltb, leb, ◌==◌, if◌then◌else◌,
  Option, none, some, Run, ok, panic, ◌>>=◌, ◌>>◌, assert,
}
use ukoos.Align.{is_aligned, is_aligned_paddr, paddr_offset}
use ukoos.PhysicalAlloc.{PhysicalState, set_memory, ptr_of_paddr, store_word, mm_alloc_physical}

pub record Pte : Type 0 where
  pub valid : Bool
  pub readable : Bool
  pub writable : Bool
  pub executable : Bool
  pub user : Bool
  pub global : Bool
  pub accessed : Bool
  pub dirty : Bool
  pub rsvd1 : ℕ
  pub ppn : ℕ
  pub rsvd0 : ℕ

-- `(struct pte){0}`.
abbrev pub zero_pte : Pte
zero_pte = record {
  valid = false;
  readable = false;
  writable = false;
  executable = false;
  user = false;
  global = false;
  accessed = false;
  dirty = false;
  rsvd1 = 0;
  ppn = 0;
  rsvd0 = 0;
}

abbrev pub bit : Bool → ℕ
bit true = 1
bit false = 0

unfoldable pub bits_of_pte : Pte → ℕ
bits_of_pte p =
    bit p.valid
    + 2
      * (bit p.readable
          + 2
            * (bit p.writable
                + 2
                  * (bit p.executable
                      + 2
                        * (bit p.user
                            + 2
                              * (bit p.global
                                  + 2
                                    * (bit p.accessed
                                        + 2
                                          * (bit p.dirty
                                              + 2
                                                * (p.rsvd1 + 4 * (p.ppn + 2 ^ 44 * p.rsvd0)))))))))

abbrev odd : ℕ → Bool
odd n = n % 2 == 1

unfoldable pub pte_of_bits : ℕ → Pte
pte_of_bits n = record {
  valid = odd n;
  readable = odd (n / 2);
  writable = odd (n / 4);
  executable = odd (n / 8);
  user = odd (n / 16);
  global = odd (n / 32);
  accessed = odd (n / 64);
  dirty = odd (n / 128);
  rsvd1 = n / 256 % 4;
  ppn = n / 2 ^ 10 % 2 ^ 44;
  rsvd0 = n / 2 ^ 54;
}

-- The state: the memory with the page allocator, and the value of the CSR.
pub record PagingState : Type 0 where
  pub physical : PhysicalState
  pub satp : ℕ

abbrev pub satp_ppn : ℕ → ℕ
satp_ppn satp = satp % 2 ^ 44

abbrev pub satp_mode : ℕ → ℕ
satp_mode satp = satp / 2 ^ 60

abbrev pub satp_mode_sv39 : ℕ
satp_mode_sv39 = 8

-- `copy_from_physical` and `copy_to_physical` of one `struct pte`, and `bzero_physical` of a table.
unfoldable pub read_pte : ℕ → PhysicalState → Run Pte
read_pte addr s = do p ← ptr_of_paddr addr 8; ok (pte_of_bits (s.memory p))

unfoldable pub write_pte : ℕ → Pte → PhysicalState → Run PhysicalState
write_pte addr pte s = do
  p ← ptr_of_paddr addr 8
  ok (set_memory (store_word s.memory p (bits_of_pte pte)) s)

unfoldable pub zero_table : ℕ → PhysicalState → Run PhysicalState
zero_table addr s = do
  p ← ptr_of_paddr addr 4096
  ok (set_memory (λ a. if leb p a && ltb a (p + 4096) then 0 else s.memory a) s)

-- A physical address from the number of its page.
abbrev pub page_paddr : ℕ → ℕ
page_paddr ppn = ppn * 2 ^ 12

abbrev pub vpn : ℕ → ℕ → ℕ
vpn va shift = va / 2 ^ shift % 512

-- `(uaddr)(((iaddr)va >> 39) + 1) <= 1`: the upper bits are all equal.
unfoldable pub is_canonical : ℕ → Bool
is_canonical va =
    let shifted = if ltb va (2 ^ 63) then va / 2 ^ 39 else va / 2 ^ 39 + (2 ^ 64 - 2 ^ 25) in
    leb ((shifted + 1) % 2 ^ 64) 1

-- One level of the walk: the next table, where the entry of the table is valid or may be allocated.
unfoldable pub walk_level : Bool → ℕ → ℕ → PhysicalState → Run (Option ℕ × PhysicalState)
walk_level alloc table index s = do
  addr ← paddr_offset table (index * 8)
  pte ← read_pte addr s
  if pte.valid
      then ok (some (page_paddr pte.ppn), s)
      else (if not alloc then ok (none, s) else (do
        r ← mm_alloc_physical 0 s
        if not r.found then ok (none, r.state) else (do
          s₁ ← zero_table r.out r.state
          let new = record zero_pte { valid = true; ppn = r.out / 2 ^ 12 }
          s₂ ← write_pte addr new s₁
          ok (some (page_paddr new.ppn), s₂))))

-- The address of the entry for a page, if the tables on the way are there.
unfoldable pub mm_paging_walk : ℕ → Bool → PagingState → Run (Option ℕ × PagingState)
mm_paging_walk va alloc s = do
  assert (is_aligned va 12)
  assert (is_canonical va)
  if not (satp_mode s.satp == satp_mode_sv39) then panic else (do
    (first, p₁) ← walk_level alloc (page_paddr (satp_ppn s.satp)) (vpn va 30) s.physical
    elim first [
      | none ↦ ok (none, record s { physical = p₁ })
      | some table₁ ↦ (do
        (second, p₂) ← walk_level alloc table₁ (vpn va 21) p₁
        elim second [
          | none ↦ ok (none, record s { physical = p₂ })
          | some table₀ ↦ (do
            addr ← paddr_offset table₀ (vpn va 12 * 8)
            ok (some addr, record s { physical = p₂ }))
        ])
    ])

pub data PagePermissions : Type 0 where
  kro : PagePermissions
  krw : PagePermissions
  krx : PagePermissions
  uro : PagePermissions
  urw : PagePermissions
  urx : PagePermissions

-- The entry that `mm_paging_map` writes.
abbrev pub leaf_pte : ℕ → PagePermissions → Pte
leaf_pte pa perms =
    let base = record zero_pte {
      valid = true;
      readable = true;
      accessed = true;
      dirty = true;
      ppn = pa / 2 ^ 12;
    } in
    elim perms [
      | kro ↦ record base { global = true }
      | krw ↦ record base { writable = true; global = true }
      | krx ↦ record base { executable = true; global = true }
      | uro ↦ record base { user = true }
      | urw ↦ record base { writable = true; user = true }
      | urx ↦ record base { executable = true; user = true }
    ]

unfoldable pub mm_paging_map : ℕ → ℕ → PagePermissions → PagingState → Run (Bool × PagingState)
mm_paging_map va pa perms s = do
  assert (is_aligned va 12)
  assert (is_canonical va)
  aligned ← is_aligned_paddr pa 12
  assert aligned
  (found, s₁) ← mm_paging_walk va true s
  elim found [
    | none ↦ ok (false, s₁)
    | some addr ↦ (do
      pte ← read_pte addr s₁.physical
      assert (not pte.valid)
      p ← write_pte addr (leaf_pte pa perms) s₁.physical
      ok (true, record s₁ { physical = p }))
  ]

-- The answer, and what is written to `*pa`.
unfoldable pub mm_paging_unmap : ℕ → PagingState → Run (Bool × ℕ × PagingState)
mm_paging_unmap va s = do
  assert (is_aligned va 12)
  assert (is_canonical va)
  (found, s₁) ← mm_paging_walk va false s
  elim found [
    | none ↦ ok (false, 0, s₁)
    | some addr ↦ (do
      pte ← read_pte addr s₁.physical
      if not pte.valid then ok (false, 0, s₁) else (do
        p ← write_pte addr zero_pte s₁.physical
        ok (true, page_paddr pte.ppn, record s₁ { physical = p })))
  ]
