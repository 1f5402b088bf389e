-- ===== src/PhysicalAlloc/Reserve/Scan.antt =====
-- What the two scans over the reservations find.
use ukoos.Prelude.{
  ℕ, ◌^◌, ◌≤◌, ◌<◌, ◌≡◌, ◌⊎◌, inl, inr, refl, Bool, true, false, ◌&&◌, ◌||◌, leb, ltb, lt→ltb,
  le→leb, Bool-cases, ok, ◌>>=◌, List, [], ◌∷◌, Option, none, some, arith, Yields,
}
use ukoos.Align.{paddr_in_range, bits_of_paddr}
use ukoos.PhysicalAlloc.FreeList.{bits_of_paddr-ok}
use ukoos.PhysicalAlloc.Reserve.{MemoryReservation, find_containing, find_top}

-- The address is in a reservation.
abbrev pub reserved : ℕ → List MemoryReservation → Bool
reserved x [] = false
reserved x (r ∷ rs) = (leb r.start x && ltb x r.end) || reserved x rs

-- No reservation is empty or ends above `limit`, and they stand in the order of descending starts, the first one not above `high`.
abbrev pub Descending : ℕ → ℕ → List MemoryReservation → Type 0
Descending limit high [] = Unit
Descending limit high (r ∷ rs) =
    (r.start ≤ high) × (r.start < r.end) × (r.end ≤ limit) × Descending limit r.start rs

-- The address is in no reservation.
abbrev pub Outside : ℕ → List MemoryReservation → Type 0
Outside x [] = Unit
Outside x (r ∷ rs) = ((x < r.start) ⊎ (r.end ≤ x)) × Outside x rs

-- No reservation has an address from `a` up to `b`.
abbrev pub Unreserved : ℕ → ℕ → List MemoryReservation → Type 0
Unreserved a b [] = Unit
Unreserved a b (r ∷ rs) = ((b ≤ r.start) ⊎ (r.end ≤ a)) × Unreserved a b rs

upper_bound :
    (b : Bool) (a hi : ℕ)
    → a < 2 ^ 56
    → hi < 2 ^ 56
    → elim b [
      | false ↦ ok false
      | true ↦ (do a' ← bits_of_paddr a; h ← bits_of_paddr hi; ok (ltb a' h))
    ]
      ≡ ok (b && ltb a hi)
upper_bound true a hi h l = rw (bits_of_paddr-ok a h, bits_of_paddr-ok hi l) refl
upper_bound false a hi h l = refl

paddr_in_range-ok :
    (a lo hi : ℕ)
    → a < 2 ^ 56
    → lo < 2 ^ 56
    → hi < 2 ^ 56
    → paddr_in_range a lo hi ≡ ok (leb lo a && ltb a hi)
unfolding paddr_in_range
paddr_in_range-ok a lo hi h k l =
    rw (lt→ltb lo (2 ^ 56) k) (rw (bits_of_paddr-ok a h) (upper_bound (leb lo a) a hi h l))

||-true : (b : Bool) → (b || true) ≡ true
||-true true = refl
||-true false = refl

-- Every address from `start` up to the end found is reserved.
abbrev pub Bumped : ℕ → ℕ → List MemoryReservation → Option ℕ → Type 0
Bumped limit start rs none = Outside start rs
Bumped limit start rs (some e) =
    (start < e) × (e ≤ limit) × ((x : ℕ) → start ≤ x → x < e → reserved x rs ≡ true)

reserved_first :
    (x : ℕ) (r : MemoryReservation) (rs : List MemoryReservation)
    → r.start ≤ x
    → x < r.end
    → reserved x (r ∷ rs) ≡ true
reserved_first x r rs h k = rw (le→leb r.start x h, lt→ltb x r.end k) refl

reserved_later :
    (x : ℕ) (r : MemoryReservation) (rs : List MemoryReservation)
    → reserved x rs ≡ true
    → reserved x (r ∷ rs) ≡ true
reserved_later x r rs h = rw h (||-true (leb r.start x && ltb x r.end))

Bumped-later :
    (limit start : ℕ) (r : MemoryReservation) (rs : List MemoryReservation) (found : Option ℕ)
    → (start < r.start) ⊎ (r.end ≤ start)
    → Bumped limit start rs found
    → Bumped limit start (r ∷ rs) found
Bumped-later limit start r rs none side B = (side, B)
Bumped-later limit start r rs (some e) side (lt, le, B) =
    (lt, le, λ x from to. reserved_later x r rs (B x from to))

pub find_containing-Bumped :
    (start limit high : ℕ) (rs : List MemoryReservation)
    → start < 2 ^ 56
    → limit < 2 ^ 56
    → Descending limit high rs
    → Yields (find_containing start rs) (Bumped limit start rs)
unfolding find_containing
find_containing-Bumped start limit high [] h k d = (none, refl, tt)
find_containing-Bumped start limit high (r ∷ rs) h k (below, full, fits, d) =
    let scanned = paddr_in_range-ok start r.start r.end h (omega arith) (omega arith) in
    elim (Bool-cases (leb r.start start && ltb start r.end)) [
      | inl inside ↦ (
        some r.end,
        rw (scanned, inside) refl,
        (ground arith, fits, λ x from to. reserved_first x r rs (ground arith) to),
      )
      | inr beside ↦
          let (found, run, B) = find_containing-Bumped start limit r.start rs h k d in
          (found, rw (scanned, beside) run, Bumped-later limit start r rs found (ground arith) B)
    ]

pub find_top-Unreserved :
    (start end limit high top : ℕ) (rs : List MemoryReservation)
    → end < 2 ^ 56
    → limit < 2 ^ 56
    → Descending limit high rs
    → Outside start rs
    → start < top
    → top ≤ end
    → (top ≡ end) ⊎ (high ≤ top)
    → Yields (find_top start end top rs) (λ t. (start < t) × (t ≤ top) × Unreserved start t rs)
unfolding find_top
find_top-Unreserved start end limit high top [] h k d o lt le at =
    (top, refl, (lt, omega arith, tt))
find_top-Unreserved start end limit high top (r ∷ rs) h k (below, full, fits, d) (side, o) lt le
      at =
    let scanned = paddr_in_range-ok r.start start end (omega arith) (omega arith) h in
    elim (Bool-cases (leb start r.start && ltb r.start end)) [
      | inl inside ↦
          let (t, run, (after, before, free)) =
            find_top-Unreserved start end limit r.start r.start rs h k d o (ground arith)
              (ground arith) (inr (omega arith)) in
          (t, rw (scanned, inside) run, (after, ground arith, (inl before, free)))
      | inr beside ↦
          let (t, run, (after, before, free)) =
            find_top-Unreserved start end limit r.start top rs h k d o lt le (ground arith) in
          (t, rw (scanned, beside) run, (after, before, (ground arith, free)))
    ]

pub Unreserved-reserved :
    (a b x : ℕ) (rs : List MemoryReservation)
    → Unreserved a b rs
    → a ≤ x
    → x < b
    → reserved x rs ≡ false
Unreserved-reserved a b x [] u h k = refl
Unreserved-reserved a b x (r ∷ rs) (side, u) h k =
    rw (Unreserved-reserved a b x rs u h k) (ground arith)
