-- ===== src/Paging/Tests.antt =====
-- A page is mapped through the tables at 0x1000, 0x2000 and 0x3000, of which the last may be missing.
use ukoos.Prelude.{
  ℕ, ◌+◌, ◌*◌, ◌^◌, ◌≡◌, refl, true, false, ◌==◌, if◌then◌else◌, arith, some, ok, Yields,
}
use ukoos.Align.{is_aligned, align_down}
use ukoos.PhysicalAlloc.{Popped, below_4g, set_free_list_head, mm_alloc_physical}
use ukoos.Paging.{PagingState, pte_of_bits, is_canonical, mm_paging_walk}
use ukoos.Paging.Walk.{memory_of, Reaches}
use ukoos.Paging.NewTable.{in_page, IsMissing, IsFresh, mm_paging_walk-new}

abbrev page_va : ℕ
page_va = 0x40003000

-- The word is the entry for the last table, or 0. The page at 0x10000 is free.
abbrev sample : ℕ → PagingState
sample word = record {
  physical = record {
    memory = λ a.
        if a == 0x1008 then 2049 else if a == 0x2000 then word else if a == 0x10008 then 1 else 0;
    free_list_head_above_4g = 0;
    free_list_head_below_4g = 0x10000;
  };
  satp = 8 * 2 ^ 60 + 1;
}

abbrev has_table : ℕ
has_table = 3073

page_va-IsMissing : IsMissing (sample 0) page_va 0x1008 0x2000
unfolding is_aligned align_down is_canonical pte_of_bits
page_va-IsMissing = record {
  aligned = refl;
  canonical = refl;
  mode = refl;
  first = (refl, omega arith);
  first_valid = refl;
  second = (refl, omega arith);
  second_unused = refl;
}

abbrev answer : Popped
answer = record {
  found = true;
  out = 0x10000;
  state = set_free_list_head below_4g 0 (sample 0).physical;
}

answered : mm_alloc_physical 0 (sample 0).physical ≡ ok answer
unfolding mm_alloc_physical
answered = refl

answer-IsFresh : IsFresh (sample 0) 0x1008 0x2000 answer
answer-IsFresh = record {
  found = refl;
  aligned = refl;
  mapped = omega arith;
  apart₂ = refl;
  apart₁ = refl;
  kept = refl;
}

mm_paging_walk-new_example : Yields (mm_paging_walk page_va true (sample 0)) (λ (found, t).
    (found ≡ some 0x10018)
    × Reaches t page_va 0x1008 0x2000 0x10018
    × ((x : ℕ) → in_page 0x10000 x ≡ true → memory_of t x ≡ 0)
    × ((x : ℕ)
        → in_page 0x10000 x ≡ false
        → (x == 0x2000) ≡ false
        → memory_of t x ≡ memory_of (sample 0) x))
mm_paging_walk-new_example =
    mm_paging_walk-new (sample 0) page_va 0x1008 0x2000 answer page_va-IsMissing answered
      answer-IsFresh refl
