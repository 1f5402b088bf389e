-- ===== src/PhysicalAlloc/Pool.antt =====
-- `mm_alloc_physical` and `mm_free_physical` as operations on two stacks of free pages.
use ukoos.Prelude.{
  ℕ, ◌^◌, ◌≡◌, inl, inr, refl, sym, ap, ◌∙◌, subst, Bool, true, false, arith, leb, ◌==◌, lt→ltb,
  Bool-cases, if◌then◌else◌, ok, ◌>>=◌, Yields, List, [], ◌∷◌, bit_and, Option, none, some, length,
  drop, get_or,
}
use ukoos.PhysicalAlloc.{
  Zone, above_4g, below_4g, PhysicalState, physical_free_list_push, Popped, physical_free_list_pop,
  mm_alloc_physical, mm_free_physical,
}
use ukoos.PhysicalAlloc.FreeList.{Chunk, rest, page, bits_of_paddr-ok}
use ukoos.PhysicalAlloc.Lists.{
  other, physical_free_list_push-Holds, physical_free_list_pop_none, physical_free_list_pop-Taken,
}
use ukoos.PhysicalAlloc.Pages.{
  Absent, InZone, IsStack, IsPool, IsFrame, AllInZone-rest, Disjoint-rest, zones-Clear,
  Absent-Clear, free_pages-rest,
}

-- The abstract allocator: the top page of the first stack that the caller accepts and that has one.
abbrev pub alloc_page : Bool → List ℕ → List ℕ → Option (ℕ × List ℕ × List ℕ)
alloc_page true (p ∷ above) below = some (p, above, below)
alloc_page true [] (q ∷ below) = some (q, [], below)
alloc_page true [] [] = none
alloc_page false above (q ∷ below) = some (q, above, below)
alloc_page false above [] = none

-- The run answered as the abstract allocator does, and left its stacks.
abbrev pub Agrees : Option (ℕ × List ℕ × List ℕ) → List ℕ → List ℕ → Popped → Type 0
Agrees none above below r = (r.found ≡ false) × IsPool above below r.state
Agrees (some (p, above', below')) above below r =
    (r.found ≡ true) × (r.out ≡ p) × IsPool above' below' r.state

abbrev PopsTo : Zone → ℕ → List ℕ → List ℕ → List Chunk → Popped → Type 0
PopsTo z p ps qs ds r =
    (r.found ≡ true)
    × (r.out ≡ p)
    × ((cs : List Chunk) × IsStack z ps cs r.state)
    × IsStack (other z) qs ds r.state

pop-IsStack :
    (z : Zone) (s : PhysicalState) (p : ℕ) (ps qs : List ℕ) (cs ds : List Chunk)
    → IsStack z (p ∷ ps) cs s
    → IsStack (other z) qs ds s
    → Yields (physical_free_list_pop z s) (PopsTo z p ps qs ds)
pop-IsStack z s p ps qs [] ds (f, apart, all, e) t = absurd (omega (arith, ap length e))
pop-IsStack z s p ps qs (c ∷ cs) ds (f, apart, all, e) (g, apart', all', e') =
    let front = sym (free_pages-rest c cs f.1) ∙ e in
    let (r, run, (found, out, holds, others)) =
      physical_free_list_pop-Taken z s c cs ds apart.0 (zones-Clear z c ds all.0 all') f g in
    (
      r,
      run,
      (
        found,
        out ∙ ap (λ (l : List ℕ). get_or l 0 0) front,
        (
          rest c cs,
          (holds, Disjoint-rest c cs f.1 apart, AllInZone-rest z c cs f.1 all, ap (drop 1) front),
        ),
        (others, apart', all', e'),
      ),
    )

pop_none-IsStack :
    (z : Zone) (s : PhysicalState) (cs : List Chunk)
    → IsStack z [] cs s
    → physical_free_list_pop z s ≡ ok (record { found = false; out = 0; state = s })
pop_none-IsStack z s [] (f, apart, all, e) = physical_free_list_pop_none z s f
pop_none-IsStack z s (c ∷ cs) (f, apart, all, e) =
    absurd (omega (arith, ap length (sym (free_pages-rest c cs f.1) ∙ e)))

-- A pop of the lower zone is what the flag asks for, whatever the upper stack has.
pop_below :
    (s : PhysicalState) (above below : List ℕ)
    → IsPool above below s
    → Yields (physical_free_list_pop below_4g s) (Agrees (alloc_page false above below) above below)
pop_below s above [] (cs, ds, upper, lower) =
    (_, pop_none-IsStack below_4g s ds lower, (refl, (cs, ds, upper, lower)))
pop_below s above (q ∷ below) (cs, ds, upper, lower) =
    let (r, run, (found, out, (ds', left), others)) =
      pop-IsStack below_4g s q below above ds cs lower upper in
    (r, run, (found, out, (cs, ds', others, left)))

pop_any :
    (s : PhysicalState) (above below : List ℕ)
    → IsPool above below s
    → Yields
        (do
          r ← physical_free_list_pop above_4g s
          if r.found then ok r else physical_free_list_pop below_4g r.state)
        (Agrees (alloc_page true above below) above below)
pop_any s [] [] (cs, ds, upper, lower) =
    let (r, run, P) = pop_below s [] [] (cs, ds, upper, lower) in
    (r, rw (pop_none-IsStack above_4g s cs upper) run, P)
pop_any s [] (q ∷ below) (cs, ds, upper, lower) =
    let (r, run, P) = pop_below s [] (q ∷ below) (cs, ds, upper, lower) in
    (r, rw (pop_none-IsStack above_4g s cs upper) run, P)
pop_any s (p ∷ above) below (cs, ds, upper, lower) =
    let (r, run, (found, out, (cs', left), others)) =
      pop-IsStack above_4g s p above below cs ds upper lower in
    (r, rw run (rw found refl), (found, out, (cs', ds, left, others)))

-- `mm_alloc_physical` does what the abstract allocator does: without the flag for memory below 4 GiB it takes the top page of the upper stack, or of the lower one where the upper one is empty, with the flag the top page of the lower stack, and it answers false exactly where these are empty.
pub mm_alloc_physical-IsPool :
    (flags : ℕ) (s : PhysicalState) (above below : List ℕ)
    → IsPool above below s
    → Yields
        (mm_alloc_physical flags s)
        (Agrees (alloc_page (bit_and flags 1 == 0) above below) above below)
unfolding mm_alloc_physical
mm_alloc_physical-IsPool flags s above below pool = elim (Bool-cases (bit_and flags 1 == 0)) [
  | inl any ↦ rw any (pop_any s above below pool)
  | inr low ↦ rw low (pop_below s above below pool)
]

push-IsStack :
    (z : Zone) (s : PhysicalState) (p : ℕ) (ps qs : List ℕ) (cs ds : List Chunk)
    → IsFrame p
    → InZone z (page p)
    → Absent p ps
    → IsStack z ps cs s
    → IsStack (other z) qs ds s
    → Yields
        (physical_free_list_push 1 p z s)
        (λ t. IsStack z (p ∷ ps) (page p ∷ cs) t × IsStack (other z) qs ds t)
push-IsStack z s p ps qs cs ds frame i absent (f, apart, all, e) (g, apart', all', e') =
    let clear = Absent-Clear p cs s.memory _ (ground arith) f (subst (Absent p) (sym e) absent) in
    let (t, run, (holds, others)) =
      physical_free_list_push-Holds z s (page p) cs ds (ground arith) clear
        (zones-Clear z (page p) ds i all') f g in
    (t, run, ((holds, (clear, apart), (i, all), ap (p ∷◌) e), (others, apart', all', e')))

mm_free_physical-zone :
    (frame : ℕ) (s : PhysicalState)
    → IsFrame frame
    → mm_free_physical frame s ≡ (
        if leb (2 ^ 32) frame
        then physical_free_list_push 1 frame above_4g s
        else physical_free_list_push 1 frame below_4g s)
unfolding mm_free_physical
mm_free_physical-zone frame s valid =
    rw (bits_of_paddr-ok frame (ground arith), lt→ltb 0 frame (ground arith)) refl

-- `mm_free_physical` of a page of mapped memory that is not free puts it on top of the stack of its side of 4 GiB and leaves the other stack.
pub mm_free_physical-IsPool :
    (frame : ℕ) (s : PhysicalState) (above below : List ℕ)
    → IsFrame frame
    → Absent frame above
    → Absent frame below
    → IsPool above below s
    → Yields (mm_free_physical frame s) (λ t.
      if leb (2 ^ 32) frame then IsPool (frame ∷ above) below t else IsPool above (frame ∷ below) t)
mm_free_physical-IsPool frame s above below valid a b (cs, ds, upper, lower) =
    elim (Bool-cases (leb (2 ^ 32) frame)) [
      | inl up ↦
          let (t, run, (left, others)) =
            push-IsStack above_4g s frame above below cs ds valid (ground arith) a upper lower in
          (
            t,
            rw (mm_free_physical-zone frame s valid, up) run,
            rw up (page frame ∷ cs, ds, left, others),
          )
      | inr low ↦
          let (t, run, (left, others)) =
            push-IsStack below_4g s frame below above ds cs valid (ground arith) b lower upper in
          (
            t,
            rw (mm_free_physical-zone frame s valid, low) run,
            rw low (cs, page frame ∷ ds, others, left),
          )
    ]
