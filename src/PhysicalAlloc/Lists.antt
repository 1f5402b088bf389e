-- ===== src/PhysicalAlloc/Lists.antt =====
-- What `physical_free_list_push` and `physical_free_list_pop` do to the sequences of chunks that the
-- two free lists stand for.
use ukoos.Prelude.{
  ℕ, ◌+◌, ◌-◌, ◌<◌, ◌≡◌, inl, inr, refl, sym, ◌∙◌, subst, true, false, arith, ◌==◌, lt→ltb,
  Bool-cases, if◌then◌else◌, ok, ◌>>=◌, Yields, List, [], ◌∷◌,
}
use ukoos.PhysicalAlloc.{
  Memory, Link, Zone, above_4g, below_4g, PhysicalState, free_list_head, set_free_list_head,
  set_memory, page_size, physical_free_list_push, Popped, advance_head, physical_free_list_pop,
}
use ukoos.PhysicalAlloc.FreeList.{
  Chunk, IsChunk, FreeList, Clear, rest, write_link, page, bits_of_paddr-ok, paddr_offset-ok,
  copy_to_physical-ok, copy_from_physical-ok, FreeList-write_link, write_link-next,
  write_link-length, ==-false,
}

abbrev pub other : Zone → Zone
other above_4g = below_4g
other below_4g = above_4g

-- The free list of a zone stands for the chunks.
abbrev pub Holds : Zone → List Chunk → PhysicalState → Type 0
Holds z cs s = FreeList s.memory (free_list_head z s) cs

head-set : (z : Zone) (v : ℕ) (s : PhysicalState) → free_list_head z (set_free_list_head z v s) ≡ v
head-set above_4g v s = refl
head-set below_4g v s = refl

head-set_other :
    (z : Zone) (v : ℕ) (s : PhysicalState)
    → free_list_head (other z) (set_free_list_head z v s) ≡ free_list_head (other z) s
head-set_other above_4g v s = refl
head-set_other below_4g v s = refl

head-set_memory :
    (z : Zone) (m : Memory) (s : PhysicalState)
    → free_list_head z (set_memory m s) ≡ free_list_head z s
head-set_memory above_4g m s = refl
head-set_memory below_4g m s = refl

-- After a write to memory and to the head of a zone.
abbrev updated : Zone → ℕ → Memory → PhysicalState → PhysicalState
updated z v m s = set_free_list_head z v (set_memory m s)

Holds-updated :
    (z : Zone) (v : ℕ) (m : Memory) (s : PhysicalState) (cs : List Chunk)
    → FreeList m v cs
    → Holds z cs (updated z v m s)
Holds-updated z v m s cs f = subst (λ h. FreeList m h cs) (sym (head-set z v (set_memory m s))) f

Holds-other-updated :
    (z : Zone) (v : ℕ) (m : Memory) (s : PhysicalState) (ds : List Chunk)
    → FreeList m (free_list_head (other z) s) ds
    → Holds (other z) ds (updated z v m s)
Holds-other-updated z v m s ds f =
    subst (λ h. FreeList m h ds)
      (sym (head-set_other z v (set_memory m s) ∙ head-set_memory (other z) m s)) f

-- Pushing a chunk that overlaps none of the listed ones puts it in front of its zone's list and leaves the other zone's list as it was.
pub physical_free_list_push-Holds :
    (z : Zone) (s : PhysicalState) (c : Chunk) (cs ds : List Chunk)
    → IsChunk c
    → Clear (page c.start) cs
    → Clear (page c.start) ds
    → Holds z cs s
    → Holds (other z) ds s
    → Yields
        (physical_free_list_push c.pages c.start z s)
        (λ t. Holds z (c ∷ cs) t × Holds (other z) ds t)
unfolding physical_free_list_push
physical_free_list_push-Holds z s c cs ds valid a b f g =
    let link : Link = record { next = free_list_head z s; length = c.pages } in
    let m : Memory = write_link c.start link s.memory in
    let kept = FreeList-write_link cs s.memory (free_list_head z s) c.start link a f in
    (
      updated z c.start m s,
      rw (copy_to_physical-ok c.start link s.memory (ground arith)) refl,
      (
        Holds-updated z c.start m s (c ∷ cs) (
          refl,
          valid,
          write_link-length s.memory c.start link,
          subst (λ h. FreeList m h cs) (sym (write_link-next s.memory c.start link)) kept,
        ),
        Holds-other-updated z c.start m s ds
            (FreeList-write_link ds s.memory (free_list_head (other z) s) c.start link b g),
      ),
    )

-- An empty list gives nothing.
pub physical_free_list_pop_none :
    (z : Zone) (s : PhysicalState)
    → Holds z [] s
    → physical_free_list_pop z s ≡ ok (record { found = false; out = 0; state = s })
unfolding physical_free_list_pop
physical_free_list_pop_none z s f = rw f refl

abbrev pub Taken : Zone → Chunk → List Chunk → List Chunk → Popped → Type 0
Taken z c cs ds r =
    (r.found ≡ true) × (r.out ≡ c.start) × Holds z (rest c cs) r.state × Holds (other z) ds r.state

-- The run of a pop on a list whose first link is known.
pop-link :
    (z : Zone) (s : PhysicalState) (c : Chunk) (cs : List Chunk)
    → Holds z (c ∷ cs) s
    → physical_free_list_pop z s ≡ (do
      t ←
          (if c.pages == 1
            then ok (set_free_list_head z (s.memory c.start) s)
            else advance_head z (record { next = s.memory c.start; length = c.pages }) s)
      ok (record { found = true; out = c.start; state = t }))
unfolding physical_free_list_pop
pop-link z s c cs (e, valid, n, f) = rw e (
    rw
      (
        copy_from_physical-ok c.start s.memory (ground arith),
        bits_of_paddr-ok c.start (ground arith),
        ==-false c.start 0 (ground arith),
        n,
        lt→ltb 0 c.pages (ground arith),
      )
      refl)

advance_head-ok :
    (z : Zone) (s : PhysicalState) (c : Chunk) (next : ℕ)
    → free_list_head z s ≡ c.start
    → IsChunk c
    → 1 < c.pages
    → advance_head z (record { next = next; length = c.pages }) s
      ≡ ok (
          updated z
            (c.start + page_size)
            (write_link
              (c.start + page_size)
              (record { next = next; length = c.pages - 1 })
              s.memory)
            s)
unfolding advance_head
advance_head-ok z s c next e valid h = rw e (
    rw
      (
        paddr_offset-ok c.start page_size (ground arith),
        copy_to_physical-ok (c.start + page_size) (record { next = next; length = c.pages - 1 })
            s.memory (ground arith),
      )
      refl)

-- A chunk without its first page is still apart from what the chunk is apart from.
Clear-shrink :
    (c : Chunk) (ds : List Chunk) → 1 < c.pages → Clear c ds → Clear (page (c.start + page_size)) ds
Clear-shrink c [] h a = tt
Clear-shrink c (d ∷ ds) h (a, apart) = (ground arith, Clear-shrink c ds h apart)

pop-last :
    (z : Zone) (s : PhysicalState) (c : Chunk) (cs ds : List Chunk)
    → Holds z (c ∷ cs) s
    → Holds (other z) ds s
    → (c.pages == 1) ≡ true
    → Yields (physical_free_list_pop z s) (Taken z c cs ds)
pop-last z s c cs ds (e, valid, n, f) g last = (
  record { found = true; out = c.start; state = updated z (s.memory c.start) s.memory s },
  pop-link z s c cs (e, valid, n, f) ∙ rw last refl,
  (
    refl,
    refl,
    rw last (Holds-updated z (s.memory c.start) s.memory s cs f),
    Holds-other-updated z (s.memory c.start) s.memory s ds g,
  ),
)

pop-more :
    (z : Zone) (s : PhysicalState) (c : Chunk) (cs ds : List Chunk)
    → Holds z (c ∷ cs) s
    → Holds (other z) ds s
    → Clear c cs
    → Clear c ds
    → (c.pages == 1) ≡ false
    → Yields (physical_free_list_pop z s) (Taken z c cs ds)
pop-more z s c cs ds (e, valid, n, f) g a b more =
    let many : 1 < c.pages = ground arith in
    let p : ℕ = c.start + page_size in
    let link : Link = record { next = s.memory c.start; length = c.pages - 1 } in
    let m : Memory = write_link p link s.memory in
    let left =
      FreeList-write_link cs s.memory (s.memory c.start) p link (Clear-shrink c cs many a) f in
    (
      record { found = true; out = c.start; state = updated z p m s },
      pop-link z s c cs (e, valid, n, f)
          ∙ rw more (rw (advance_head-ok z s c (s.memory c.start) e valid many) refl),
      (
        refl,
        refl,
        rw more (
            Holds-updated z p m s (record { start = p; pages = c.pages - 1 } ∷ cs) (
              refl,
              ground arith,
              write_link-length s.memory p link,
              subst (λ h. FreeList m h cs) (sym (write_link-next s.memory p link)) left,
            )),
        Holds-other-updated z p m s ds (
            FreeList-write_link ds s.memory (free_list_head (other z) s) p link
              (Clear-shrink c ds many b) g),
      ),
    )

-- A pop on a list with a first chunk takes the first page of that chunk, and leaves the rest of the chunk, the other chunks and the other zone's list.
pub physical_free_list_pop-Taken :
    (z : Zone) (s : PhysicalState) (c : Chunk) (cs ds : List Chunk)
    → Clear c cs
    → Clear c ds
    → Holds z (c ∷ cs) s
    → Holds (other z) ds s
    → Yields (physical_free_list_pop z s) (Taken z c cs ds)
physical_free_list_pop-Taken z s c cs ds a b f g = elim (Bool-cases (c.pages == 1)) [
  | inl last ↦ pop-last z s c cs ds f g last
  | inr more ↦ pop-more z s c cs ds f g a b more
]
