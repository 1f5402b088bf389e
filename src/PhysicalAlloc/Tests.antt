-- ===== src/PhysicalAlloc/Tests.antt =====
-- The theorems about the physical allocator at concrete states: three free pages above 4 GiB, in a
-- chunk of two and a chunk of one, and one page below.
use ukoos.Prelude.{
  ℕ, ◌+◌, ◌^◌, ◌≡◌, refl, inl, inr, arith, leb, ◌==◌, if◌then◌else◌, Run, ok, ◌>>=◌, Yields, List,
  [], ◌∷◌, bit_and,
}
use ukoos.PhysicalAlloc.{
  Memory, above_4g, below_4g, PhysicalState, physical_free_list_push, physical_free_list_pop,
  mm_alloc_physical, mm_free_physical, add_physical_chunk,
}
use ukoos.PhysicalAlloc.FreeList.{Chunk}
use ukoos.PhysicalAlloc.Lists.{
  Holds, Taken, physical_free_list_push-Holds, physical_free_list_pop-Taken,
}
use ukoos.PhysicalAlloc.Pages.{IsPool}
use ukoos.PhysicalAlloc.Pool.{alloc_page, Agrees, mm_alloc_physical-IsPool, mm_free_physical-IsPool}

abbrev far : ℕ
far = 0x100000000

-- Words at `far` (a link with two pages), at the page after these two, and at 0x80000000.
abbrev memory : Memory
memory a =
    if a == far
    then far + 0x2000
    else if a == far + 8
    then 2
    else if a == far + 0x2008
    then 1
    else if a == 0x80000008
    then 1
    else 0

abbrev state : PhysicalState
state = record {
  memory = memory;
  free_list_head_above_4g = far;
  free_list_head_below_4g = 0x80000000;
}

abbrev double : Chunk
double = record { start = far; pages = 2 }

abbrev single : Chunk
single = record { start = far + 0x2000; pages = 1 }

abbrev low : Chunk
low = record { start = 0x80000000; pages = 1 }

state-Holds_above : Holds above_4g (double ∷ single ∷ []) state
state-Holds_above = (
  refl,
  (omega arith, refl, omega arith, omega arith),
  refl,
  (refl, (omega arith, refl, omega arith, omega arith), refl, refl),
)

state-Holds_below : Holds below_4g (low ∷ []) state
state-Holds_below = (refl, (omega arith, refl, omega arith, omega arith), refl, refl)

abbrev upper : List ℕ
upper = far ∷ (far + 0x1000) ∷ (far + 0x2000) ∷ []

abbrev lower : List ℕ
lower = 0x80000000 ∷ []

state-IsPool : IsPool upper lower state
state-IsPool = (
  double ∷ single ∷ [],
  low ∷ [],
  (state-Holds_above, ((inl (omega arith), tt), (tt, tt)), (omega arith, (omega arith, tt)), refl),
  (state-Holds_below, (tt, tt), (omega arith, tt), refl),
)

mm_alloc_physical-IsPool_example :
    Yields
      (mm_alloc_physical 0 state)
      (Agrees (alloc_page (bit_and 0 1 == 0) upper lower) upper lower)
mm_alloc_physical-IsPool_example = mm_alloc_physical-IsPool 0 state upper lower state-IsPool

mm_free_physical-IsPool_example : Yields (mm_free_physical 0x80001000 state) (λ t.
    if leb (2 ^ 32) 0x80001000
    then IsPool (0x80001000 ∷ upper) lower t
    else IsPool upper (0x80001000 ∷ lower) t)
mm_free_physical-IsPool_example =
    mm_free_physical-IsPool 0x80001000 state upper lower (omega arith, refl, omega arith)
      ((λ e. omega (arith, e)), ((λ e. omega (arith, e)), ((λ e. omega (arith, e)), tt)))
      ((λ e. omega (arith, e)), tt) state-IsPool

physical_free_list_pop-Taken_example :
    Yields (physical_free_list_pop above_4g state) (Taken above_4g double (single ∷ []) (low ∷ []))
physical_free_list_pop-Taken_example =
    physical_free_list_pop-Taken above_4g state double (single ∷ []) (low ∷ [])
      (inl (omega arith), tt) (inr (omega arith), tt) state-Holds_above state-Holds_below

physical_free_list_push-Holds_example :
    Yields (physical_free_list_push 3 (far + 0x8000) above_4g state) (λ t.
      Holds above_4g (record { start = far + 0x8000; pages = 3 } ∷ double ∷ single ∷ []) t
      × Holds below_4g (low ∷ []) t)
physical_free_list_push-Holds_example =
    physical_free_list_push-Holds above_4g state (record { start = far + 0x8000; pages = 3 })
      (double ∷ single ∷ []) (low ∷ []) (omega arith, refl, omega arith, omega arith)
      (inr (omega arith), (inr (omega arith), tt)) (inr (omega arith), tt) state-Holds_above
      state-Holds_below

abbrev no_memory : PhysicalState
no_memory = record { memory = λ a. 0; free_list_head_above_4g = 0; free_list_head_below_4g = 0 }

-- The heads of the two lists, and the lengths of their first links.
abbrev summary : PhysicalState → Run (ℕ × ℕ × ℕ × ℕ)
summary s = ok (
  s.free_list_head_below_4g,
  s.memory (s.free_list_head_below_4g + 8),
  s.free_list_head_above_4g,
  s.memory (s.free_list_head_above_4g + 8),
)

-- The chunk across the border at 4 GiB is split there.
split_chunk :
    (add_physical_chunk 0xffffe800 (far + 0x1800) no_memory >>= summary)
    ≡ ok (0xfffff000, 1, far, 1)
unfolding add_physical_chunk
split_chunk = refl
