-- ===== src/PhysicalAlloc/Reserve.antt =====
-- `consider_physical_memory` of src/kernel/mm/physical_alloc.c: the parts of a range of memory that
-- no reservation has are added to the allocator.
pub mod Scan
pub mod Chunks
pub mod Tests
use ukoos.Prelude.{
  ℕ, zero, suc, ◌+◌, ◌^◌, Bool, true, false, leb, if◌then◌else◌, Run, ok, out_of_fuel, ◌>>=◌, List,
  [], ◌∷◌, Option, none, some,
}
use ukoos.Align.{bits_of_paddr, paddr_offset, paddr_in_range}
use ukoos.PhysicalAlloc.{PhysicalState, add_physical_chunk}

pub record MemoryReservation : Type 0 where
  pub start : ℕ
  pub end : ℕ

-- The first loop, up to its `goto`: the end of the first reservation that has `start`.
unfoldable pub find_containing : ℕ → List MemoryReservation → Run (Option ℕ)
unfolding paddr_in_range
find_containing start [] = ok none
find_containing start (r ∷ rs) = do
  inside ← paddr_in_range start r.start r.end
  if inside then ok (some r.end) else find_containing start rs

-- The second loop: `top` after the reservations that are left.
unfoldable pub find_top : ℕ → ℕ → ℕ → List MemoryReservation → Run ℕ
unfolding paddr_in_range
find_top start end top [] = ok top
find_top start end top (r ∷ rs) = do
  inside ← paddr_in_range r.start start end
  find_top start end (if inside then r.start else top) rs

-- What is done from the label `bump_up_start` on, once for each `goto` to it, on fuel.
unfoldable pub consider_loop :
    ℕ → ℕ → ℕ → List MemoryReservation → PhysicalState → Run PhysicalState
unfolding find_containing find_top add_physical_chunk bits_of_paddr
consider_loop zero start end rs s = out_of_fuel
consider_loop (suc fuel) start end rs s = do
  bumped ← find_containing start rs
  elim bumped [
    | some start' ↦ consider_loop fuel start' end rs s
    | none ↦ (do
      b ← bits_of_paddr start
      e ← bits_of_paddr end
      elim (leb e b) [
        | true ↦ ok s
        | false ↦ (do
          top ← find_top start end end rs
          s' ← add_physical_chunk start top s
          consider_loop fuel top end rs s')
      ])
  ]

-- The fuel is for the loop, each turn of which raises `start`.
unfoldable pub consider_physical_memory :
    ℕ → ℕ → ℕ → List MemoryReservation → PhysicalState → Run PhysicalState
unfolding consider_loop paddr_offset
consider_physical_memory fuel addr size rs s = do
  end ← paddr_offset addr size
  consider_loop fuel addr end rs s
