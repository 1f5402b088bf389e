-- ===== src/PhysicalAlloc/Reserve/Chunks.antt =====
-- Which addresses `consider_physical_memory` adds.
use ukoos.Prelude.{
  ℕ, zero, suc, ◌+◌, ◌^◌, ◌≤◌, ◌<◌, ◌≡◌, refl, ◌∙◌, Bool, true, false, not, ◌&&◌, ◌||◌, leb, ltb,
  Bool-cases, inl, inr, Run, ok, panic, out_of_fuel, ◌>>=◌, List, [], ◌∷◌, Option, none, some,
  arith,
}
use ukoos.Align.{bits_of_paddr}
use ukoos.PhysicalAlloc.{PhysicalState, add_physical_chunk}
use ukoos.PhysicalAlloc.FreeList.{bits_of_paddr-ok, paddr_offset-ok}
use ukoos.PhysicalAlloc.Reserve.{
  MemoryReservation, find_containing, find_top, consider_loop, consider_physical_memory,
}
use ukoos.PhysicalAlloc.Reserve.Scan.{
  reserved, Descending, Bumped, find_containing-Bumped, find_top-Unreserved, Unreserved-reserved,
}

-- `add_physical_chunk` on one range after another.
abbrev pub add_chunks : List (ℕ × ℕ) → PhysicalState → Run PhysicalState
add_chunks [] s = ok s
add_chunks ((a, b) ∷ cs) s = add_physical_chunk a b s >>= λ t. add_chunks cs t

abbrev pub in_chunks : ℕ → List (ℕ × ℕ) → Bool
in_chunks x [] = false
in_chunks x ((a, b) ∷ cs) = (leb a x && ltb x b) || in_chunks x cs

-- The address is in the range and in no reservation.
abbrev pub usable : ℕ → ℕ → List MemoryReservation → ℕ → Bool
usable start end rs x = (leb start x && ltb x end) && not (reserved x rs)

-- The run adds ranges that have exactly the usable addresses.
abbrev pub Adds : ℕ → ℕ → List MemoryReservation → (PhysicalState → Run PhysicalState) → Type 0
Adds start end rs run =
    (chunks : List (ℕ × ℕ)) × ((s : PhysicalState) → run s ≡ add_chunks chunks s)
    × ((x : ℕ) → in_chunks x chunks ≡ usable start end rs x)

>>=_ext :
    {A B : Type 0} (m : Run A) (f g : A → Run B) → ((a : A) → f a ≡ g a) → (m >>= f) ≡ (m >>= g)
>>=_ext (ok a) f g h = h a
>>=_ext panic f g h = refl
>>=_ext out_of_fuel f g h = refl

usable_none :
    (start end x : ℕ) (rest : Bool) → end ≤ start → false ≡ ((leb start x && ltb x end) && rest)
usable_none start end x rest h = ground arith

usable_bumped :
    (start end e x : ℕ) (ρ : Bool)
    → start < e
    → (start ≤ x → x < e → ρ ≡ true)
    → ((leb e x && ltb x end) && not ρ) ≡ ((leb start x && ltb x end) && not ρ)
usable_bumped start end e x true lt h = ground arith
usable_bumped start end e x false lt h = ground arith

usable_first :
    (start end t x : ℕ) (ρ : Bool)
    → start < t
    → t ≤ end
    → (start ≤ x → x < t → ρ ≡ false)
    → ((leb start x && ltb x t) || ((leb t x && ltb x end) && not ρ))
      ≡ ((leb start x && ltb x end) && not ρ)
usable_first start end t x true lt le h = ground arith
usable_first start end t x false lt le h = ground arith

stops : {A : Type 0} (b : Bool) (x y : Run A) → b ≡ true → elim b [ true ↦ x | false ↦ y ] ≡ x
stops true x y h = refl
stops false x y h = ground arith

goes_on : {A : Type 0} (b : Bool) (x y : Run A) → b ≡ false → elim b [ true ↦ x | false ↦ y ] ≡ y
goes_on true x y h = ground arith
goes_on false x y h = refl

add_first :
    (fuel start end top : ℕ) (rs : List MemoryReservation) (cs : List (ℕ × ℕ)) (s : PhysicalState)
    → find_top start end end rs ≡ ok top
    → ((t : PhysicalState) → consider_loop fuel top end rs t ≡ add_chunks cs t)
    → (do
      top' ← find_top start end end rs
      s' ← add_physical_chunk start top' s
      consider_loop fuel top' end rs s')
      ≡ add_chunks ((start, top) ∷ cs) s
add_first fuel start end top rs cs s scan adds =
    rw scan (
      >>=_ext (add_physical_chunk start top s) (consider_loop fuel top end rs) (add_chunks cs) adds)

-- What is left of a turn when no reservation has `start`.
abbrev add_and_go_on : ℕ → ℕ → ℕ → List MemoryReservation → PhysicalState → Run PhysicalState
add_and_go_on fuel start end rs s = do
  b ← bits_of_paddr start
  e ← bits_of_paddr end
  elim (leb e b) [
    | true ↦ ok s
    | false ↦ (do
      top ← find_top start end end rs
      s' ← add_physical_chunk start top s
      consider_loop fuel top end rs s')
  ]

consider_loop-bumped :
    (fuel start end e : ℕ) (rs : List MemoryReservation) (s : PhysicalState)
    → find_containing start rs ≡ ok (some e)
    → consider_loop (suc fuel) start end rs s ≡ consider_loop fuel e end rs s
unfolding consider_loop
consider_loop-bumped fuel start end e rs s run = rw run refl

consider_loop-clear :
    (fuel start end : ℕ) (rs : List MemoryReservation) (s : PhysicalState)
    → find_containing start rs ≡ ok none
    → consider_loop (suc fuel) start end rs s ≡ add_and_go_on fuel start end rs s
unfolding consider_loop
consider_loop-clear fuel start end rs s run = rw run refl

-- One turn of the loop, where the turns after it are right.
turn-Adds :
    (fuel start end limit high : ℕ) (rs : List MemoryReservation) (found : Option ℕ)
    → start < 2 ^ 56
    → end ≤ limit
    → limit < 2 ^ 56
    → Descending limit high rs
    → find_containing start rs ≡ ok found
    → Bumped limit start rs found
    → ((start' : ℕ)
        → start < start'
        → start' ≤ limit
        → Adds start' end rs (consider_loop fuel start' end rs))
    → Adds start end rs (consider_loop (suc fuel) start end rs)
turn-Adds fuel start end limit high rs (some e) h k l d run (lt, le, B) later =
    let (cs, adds, has) = later e lt (omega arith) in
    (
      cs,
      (λ s. consider_loop-bumped fuel start end e rs s run ∙ adds s),
      λ x. has x ∙ usable_bumped start end e x (reserved x rs) lt (B x),
    )
turn-Adds fuel start end limit high rs none h k l d run B later =
    elim (Bool-cases (leb end start)) [
      | inl done ↦ (
        [],
        (λ s.
            consider_loop-clear fuel start end rs s run
            ∙ (rw (bits_of_paddr-ok start h)
                (rw (bits_of_paddr-ok end (omega arith)) (stops (leb end start) (ok s) _ done)))),
        λ x. usable_none start end x (not (reserved x rs)) (ground arith),
      )
      | inr more ↦
          let lt : start < end = ground arith in
          let (top, scan, (after, before, free)) =
            find_top-Unreserved start end limit high end rs (omega arith) l d B lt (omega arith)
              (inl refl) in
          let (cs, adds, has) = later top after (omega arith) in
          (
            (start, top) ∷ cs,
            (λ s.
                consider_loop-clear fuel start end rs s run
                ∙ (rw (bits_of_paddr-ok start h) (
                    rw (bits_of_paddr-ok end (omega arith)) (
                      goes_on (leb end start) (ok s) _ more
                      ∙ add_first fuel start end top rs cs s scan adds)))),
            λ x. rw (has x) (
                usable_first start end top x (reserved x rs) after before
                  (Unreserved-reserved start top x rs free)),
          )
    ]

consider_loop-Adds :
    (fuel start end limit high : ℕ) (rs : List MemoryReservation)
    → start ≤ limit
    → end ≤ limit
    → limit < 2 ^ 56
    → limit < fuel + start
    → Descending limit high rs
    → Adds start end rs (consider_loop fuel start end rs)
consider_loop-Adds zero start end limit high rs h k l enough d = absurd (omega arith)
consider_loop-Adds (suc fuel) start end limit high rs h k l enough d =
    let (found, run, B) = find_containing-Bumped start limit high rs (omega arith) l d in
    turn-Adds fuel start end limit high rs found (omega arith) k l d run B
      (λ start' lt h'. consider_loop-Adds fuel start' end limit high rs h' k l (omega arith) d)

-- Where the range and every reservation end at `limit` or below, `limit` is below `2 ^ 56` and the fuel more than what `addr` is below `limit`, and the reservations are not empty and stand in the order of descending starts, `consider_physical_memory` runs `add_physical_chunk` on ranges that together have exactly the addresses of the range that no reservation has.
pub consider_physical_memory-Adds :
    (fuel addr size limit high : ℕ) (rs : List MemoryReservation)
    → addr + size ≤ limit
    → limit < 2 ^ 56
    → limit < fuel + addr
    → Descending limit high rs
    → Adds addr (addr + size) rs (consider_physical_memory fuel addr size rs)
unfolding consider_physical_memory
consider_physical_memory-Adds fuel addr size limit high rs h l enough d =
    let (cs, adds, has) =
      consider_loop-Adds fuel addr (addr + size) limit high rs (omega arith) h l enough d in
    (cs, (λ s. rw (paddr_offset-ok addr size (omega arith)) (adds s)), has)
