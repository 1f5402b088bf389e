-- ===== src/PhysicalAlloc/Reserve/Tests.antt =====
-- `consider_physical_memory` on small ranges.
use ukoos.Prelude.{ℕ, ◌≡◌, refl, Run, ok, ◌>>=◌, List, [], ◌∷◌, arith}
use ukoos.PhysicalAlloc.{PhysicalState}
use ukoos.PhysicalAlloc.Reserve.{MemoryReservation, consider_physical_memory}
use ukoos.PhysicalAlloc.Reserve.Chunks.{Adds, consider_physical_memory-Adds}

abbrev near : MemoryReservation
near = record { start = 0x2000; end = 0x4000 }

abbrev far : MemoryReservation
far = record { start = 0x8000; end = 0x9000 }

abbrev no_memory : PhysicalState
no_memory = record { memory = λ a. 0; free_list_head_above_4g = 0; free_list_head_below_4g = 0 }

consider_physical_memory-Adds_example :
    Adds 0x1000 0xa000
      (far ∷ near ∷ [])
      (consider_physical_memory 0x9001 0x1000 0x9000 (far ∷ near ∷ []))
consider_physical_memory-Adds_example =
    consider_physical_memory-Adds 0x9001 0x1000 0x9000 0xa000 0xa000 (far ∷ near ∷ []) (omega arith)
      (omega arith) (omega arith)
      (omega arith, omega arith, omega arith, (omega arith, omega arith, omega arith, tt))

-- The lengths, in pages, of the links at four addresses.
abbrev lengths : PhysicalState → Run (List ℕ)
lengths s = ok (s.memory 0x1008 ∷ s.memory 0x4008 ∷ s.memory 0x9008 ∷ [])

descending_run :
    (consider_physical_memory 9 0x1000 0x9000 (far ∷ near ∷ []) no_memory >>= lengths)
    ≡ ok (1 ∷ 4 ∷ 1 ∷ [])
unfolding consider_physical_memory
descending_run = refl

-- In the order of ascending starts the first chunk added goes up to the second reservation, over the first.
ascending_run :
    (consider_physical_memory 9 0x1000 0x9000 (near ∷ far ∷ []) no_memory >>= lengths)
    ≡ ok (7 ∷ 0 ∷ 1 ∷ [])
unfolding consider_physical_memory
ascending_run = refl
