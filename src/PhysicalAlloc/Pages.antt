-- ===== src/PhysicalAlloc/Pages.antt =====
-- What the physical allocator promises: two stacks of free pages.
use ukoos.Prelude.{
  ℕ, zero, suc, ◌+◌, ◌-◌, ◌*◌, ◌%◌, ◌^◌, ◌≤◌, ◌<◌, ◌≡◌, ◌≢◌, inl, inr, refl, ap, ◌∙◌, false, arith,
  ◌==◌, Bool-cases, List, [], ◌∷◌, ◌++◌,
}
use ukoos.PhysicalAlloc.{
  Memory, Zone, above_4g, below_4g, PhysicalState, page_size, physical_map_len,
}
use ukoos.PhysicalAlloc.FreeList.{Chunk, IsChunk, FreeList, Apart, Clear, Disjoint, rest, page}
use ukoos.PhysicalAlloc.Lists.{other, Holds}

-- The addresses of `n` pages in a row.
abbrev pub pages_from : ℕ → ℕ → List ℕ
pages_from start zero = []
pages_from start (suc n) = start ∷ pages_from (start + page_size) n

abbrev pub free_pages : List Chunk → List ℕ
free_pages [] = []
free_pages (c ∷ cs) = pages_from c.start c.pages ++ free_pages cs

-- The page is none of the list.
abbrev pub Absent : ℕ → List ℕ → Type 0
Absent p [] = Unit
Absent p (q ∷ qs) = (p ≢ q) × Absent p qs

-- On which side of the border at 4 GiB the chunks of a zone are.
abbrev pub InZone : Zone → Chunk → Type 0
InZone above_4g c = 2 ^ 32 ≤ c.start
InZone below_4g c = c.start + c.pages * page_size ≤ 2 ^ 32

abbrev pub AllInZone : Zone → List Chunk → Type 0
AllInZone z [] = Unit
AllInZone z (c ∷ cs) = InZone z c × AllInZone z cs

-- The list of a zone stands for chunks of that zone that do not overlap, and these hold the pages.
abbrev pub IsStack : Zone → List ℕ → List Chunk → PhysicalState → Type 0
IsStack z ps cs s = Holds z cs s × Disjoint cs × AllInZone z cs × (free_pages cs ≡ ps)

-- The allocator has the two stacks of free pages.
abbrev pub IsPool : List ℕ → List ℕ → PhysicalState → Type 0
IsPool above below s =
    (cs : List Chunk) × (ds : List Chunk) × IsStack above_4g above cs s
    × IsStack below_4g below ds s

-- A page that is free in neither stack and lies within the mapped memory.
abbrev pub IsFrame : ℕ → Type 0
IsFrame p = (0 < p) × (p % page_size ≡ 0) × (p + page_size ≤ physical_map_len)

pages_from-first : (s n : ℕ) → 0 < n → pages_from s n ≡ s ∷ pages_from (s + page_size) (n - 1)
pages_from-first s zero h = absurd (omega arith)
pages_from-first s (suc n) h = let e : suc n - 1 ≡ n = omega arith in rw e refl

pub free_pages-rest :
    (c : Chunk) (cs : List Chunk)
    → IsChunk c
    → free_pages (c ∷ cs) ≡ c.start ∷ free_pages (rest c cs)
free_pages-rest c cs valid =
    let first = ap (◌++ free_pages cs) (pages_from-first c.start c.pages (ground arith)) in
    elim (Bool-cases (c.pages == 1)) [
      | inl last ↦
          let e : c.pages - 1 ≡ 0 = ground arith in
          first
          ∙ ap (λ (n : ℕ). c.start ∷ (pages_from (c.start + page_size) n ++ free_pages cs)) e
          ∙ rw last refl
      | inr more ↦ first ∙ rw more refl
    ]

InZone-shrink :
    (z : Zone) (c : Chunk)
    → 0 < c.pages
    → InZone z c
    → InZone z (record { start = c.start + page_size; pages = c.pages - 1 })
InZone-shrink above_4g c h i = omega arith
InZone-shrink below_4g c h i = omega arith

pub AllInZone-rest :
    (z : Zone) (c : Chunk) (cs : List Chunk)
    → IsChunk c
    → AllInZone z (c ∷ cs)
    → AllInZone z (rest c cs)
AllInZone-rest z c cs valid (i, all) = elim (Bool-cases (c.pages == 1)) [
  | inl last ↦ rw last all
  | inr more ↦ rw more (InZone-shrink z c (ground arith) i, all)
]

Clear-rest :
    (c : Chunk) (cs : List Chunk)
    → (c.pages == 1) ≡ false
    → IsChunk c
    → Clear c cs
    → Clear (record { start = c.start + page_size; pages = c.pages - 1 }) cs
Clear-rest c [] more valid a = tt
Clear-rest c (d ∷ ds) more valid (a, apart) = (ground arith, Clear-rest c ds more valid apart)

pub Disjoint-rest :
    (c : Chunk) (cs : List Chunk) → IsChunk c → Disjoint (c ∷ cs) → Disjoint (rest c cs)
Disjoint-rest c cs valid (a, apart) = elim (Bool-cases (c.pages == 1)) [
  | inl last ↦ rw last apart
  | inr more ↦ rw more (Clear-rest c cs more valid a, apart)
]

pub zones-Clear :
    (z : Zone) (c : Chunk) (ds : List Chunk) → InZone z c → AllInZone (other z) ds → Clear c ds
zones-Clear z c [] i a = tt
zones-Clear above_4g c (d ∷ ds) i (j, js) = (inr (omega arith), zones-Clear above_4g c ds i js)
zones-Clear below_4g c (d ∷ ds) i (j, js) = (inl (omega arith), zones-Clear below_4g c ds i js)

Absent-append : (p : ℕ) (xs ys : List ℕ) → Absent p (xs ++ ys) → Absent p xs × Absent p ys
Absent-append p [] ys a = (tt, a)
Absent-append p (x ∷ xs) ys (h, a) = let r = Absent-append p xs ys a in ((h, r.0), r.1)

Absent-Apart :
    (p start n : ℕ)
    → p % page_size ≡ 0
    → start % page_size ≡ 0
    → Absent p (pages_from start n)
    → Apart (page p) (record { start = start; pages = n })
Absent-Apart p start zero h k a = ground arith
Absent-Apart p start (suc n) h k (d, a) =
    let apart = Absent-Apart p (start + page_size) n h (ground arith) a in
    elim apart [ inl before ↦ inl (ground arith) | inr behind ↦ inr (ground arith) ]

pub Absent-Clear :
    (p : ℕ) (cs : List Chunk) (m : Memory) (head : ℕ)
    → p % page_size ≡ 0
    → FreeList m head cs
    → Absent p (free_pages cs)
    → Clear (page p) cs
Absent-Clear p [] m head h f a = tt
Absent-Clear p (c ∷ cs) m head h (e, valid, n, f) a =
    let r = Absent-append p (pages_from c.start c.pages) (free_pages cs) a in
    (Absent-Apart p c.start c.pages h (ground arith) r.0, Absent-Clear p cs m (m c.start) h f r.1)
