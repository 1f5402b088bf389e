-- ===== src/Paging/Map.antt =====
-- Mapping and unmapping a page whose tables are there.
use ukoos.Prelude.{
  ℕ, ◌%◌, ◌^◌, ◌<◌, ◌≡◌, refl, ◌∙◌, Bool, true, false, ◌==◌, arith, ok, Yields, lt→ltb, ==_refl,
}
use ukoos.Align.{is_aligned_paddr, align_down_paddr, bits_of_paddr, paddr_of_bits, align_down}
use ukoos.Align.Bounds.{align_down-eq}
use ukoos.Paging.{
  Pte, zero_pte, PagingState, page_paddr, PagePermissions, kro, krw, krx, uro, urw, urx, leaf_pte,
  mm_paging_map, mm_paging_unmap,
}
use ukoos.Paging.Entry.{FitsPte}
use ukoos.Paging.Walk.{
  memory_of, entry, Reaches, Reaches-frame, read_pte-entry, written, write_pte-entry, written-same,
  written-other, mm_paging_walk-Reaches,
}

is_aligned_paddr-page : (pa : ℕ) → pa % 2 ^ 12 ≡ 0 → pa < 2 ^ 56 → is_aligned_paddr pa 12 ≡ ok true
unfolding is_aligned_paddr align_down_paddr bits_of_paddr paddr_of_bits
is_aligned_paddr-page pa h k =
    let down : align_down pa 12 ≡ pa =
      align_down-eq pa 12 (omega arith) (omega arith) ∙ omega arith in
    let narrow = lt→ltb pa (2 ^ 56) k in
    rw (narrow, down, narrow, bits_of_paddr, narrow, ==_refl pa) refl

leaf_pte-FitsPte : (pa : ℕ) (perms : PagePermissions) → pa < 2 ^ 56 → FitsPte (leaf_pte pa perms)
leaf_pte-FitsPte pa kro h = omega arith
leaf_pte-FitsPte pa krw h = omega arith
leaf_pte-FitsPte pa krx h = omega arith
leaf_pte-FitsPte pa uro h = omega arith
leaf_pte-FitsPte pa urw h = omega arith
leaf_pte-FitsPte pa urx h = omega arith

-- `t` is `s` but for the entry at `a`, which is `p`.
pub record Sets (s : PagingState) (a : ℕ) (p : Pte) (t : PagingState) : Type 0 where
  pub there : entry t a ≡ p
  pub elsewhere : (x : ℕ) → (x == a) ≡ false → memory_of t x ≡ memory_of s x
  pub satp : t.satp ≡ s.satp

written-Sets : (s : PagingState) (a : ℕ) (p : Pte) → FitsPte p → Sets s a p (written s a p)
written-Sets s a p fits = record {
  there = written-same s a p fits;
  elsewhere = written-other s a p;
  satp = refl;
}

-- The way to a page does not lead through the entry at `a`.
abbrev pub Avoids : ℕ → ℕ → ℕ → Type 0
Avoids a a₂ a₁ = ((a₂ == a) ≡ false) × ((a₁ == a) ≡ false)

pub Sets-Reaches :
    (s : PagingState) (a : ℕ) (p : Pte) (t : PagingState) (va a₂ a₁ a₀ : ℕ)
    → Sets s a p t
    → Reaches s va a₂ a₁ a₀
    → Avoids a a₂ a₁
    → Reaches t va a₂ a₁ a₀
Sets-Reaches s a p t va a₂ a₁ a₀ sets r (ne₂, ne₁) =
    Reaches-frame s t va a₂ a₁ a₀ r sets.satp (sets.elsewhere a₂ ne₂) (sets.elsewhere a₁ ne₁)

module _ (s : PagingState) (va a₂ a₁ a₀ : ℕ) (way : Reaches s va a₂ a₁ a₀) where
  pub mm_paging_map-Sets :
      (pa : ℕ) (perms : PagePermissions)
      → pa % 2 ^ 12 ≡ 0
      → pa < 2 ^ 56
      → (entry s a₀).valid ≡ false
      → Yields
          (mm_paging_map va pa perms s)
          (λ (done, t). (done ≡ true) × Sets s a₀ (leaf_pte pa perms) t)
  unfolding mm_paging_map
  mm_paging_map-Sets pa perms h k unused = (
    (true, written s a₀ (leaf_pte pa perms)),
    rw
        (
          way.aligned,
          way.canonical,
          is_aligned_paddr-page pa h k,
          mm_paging_walk-Reaches s va a₂ a₁ a₀ true way,
          read_pte-entry s.physical a₀ (way.third).1,
          unused,
          write_pte-entry s a₀ (leaf_pte pa perms) (way.third).1,
        )
        refl,
    (refl, written-Sets s a₀ (leaf_pte pa perms) (leaf_pte-FitsPte pa perms k)),
  )

  pub mm_paging_unmap-Sets :
      (entry s a₀).valid ≡ true
      → Yields (mm_paging_unmap va s) (λ (done, pa, t).
        (done ≡ true) × (pa ≡ page_paddr (entry s a₀).ppn) × Sets s a₀ zero_pte t)
  unfolding mm_paging_unmap
  mm_paging_unmap-Sets used = (
    (true, page_paddr (entry s a₀).ppn, written s a₀ zero_pte),
    rw
        (
          way.aligned,
          way.canonical,
          mm_paging_walk-Reaches s va a₂ a₁ a₀ false way,
          read_pte-entry s.physical a₀ (way.third).1,
          used,
          write_pte-entry s a₀ zero_pte (way.third).1,
        )
        refl,
    (refl, refl, written-Sets s a₀ zero_pte (omega arith)),
  )

  pub mm_paging_unmap-unused : (entry s a₀).valid ≡ false → mm_paging_unmap va s ≡ ok (false, 0, s)
  unfolding mm_paging_unmap
  mm_paging_unmap-unused unused =
      rw
        (
          way.aligned,
          way.canonical,
          mm_paging_walk-Reaches s va a₂ a₁ a₀ false way,
          read_pte-entry s.physical a₀ (way.third).1,
          unused,
        )
        refl

abbrev pub Unmaps : PagingState → ℕ → ℕ → Bool × ℕ × PagingState → Type 0
Unmaps s a₀ pa (done, pa', u) = (done ≡ true) × (pa' ≡ pa) × Sets s a₀ zero_pte u

abbrev pub MapsAndUnmaps : PagingState → ℕ → ℕ → ℕ → PagePermissions → Bool × PagingState → Type 0
MapsAndUnmaps s va a₀ pa perms (done, t) =
    (done ≡ true)
    × Sets s a₀ (leaf_pte pa perms) t
    × ((va' b₂ b₁ b₀ : ℕ) → Reaches s va' b₂ b₁ b₀ → Avoids a₀ b₂ b₁ → Reaches t va' b₂ b₁ b₀)
    × Yields (mm_paging_unmap va t) (Unmaps s a₀ pa)
