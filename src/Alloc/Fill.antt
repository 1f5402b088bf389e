-- ===== src/Alloc/Fill.antt =====
-- `page_init_small_or_large` on the range of a page: the blocks of the range, each exactly once.
use native.Mathlib.Nat.{suc-mul, mul-mod_left, mul_assoc, le-mul_of_pos_right}
use ukoos.Prelude.{
  ℕ, zero, suc, ◌+◌, ◌-◌, ◌*◌, ◌/◌, ◌%◌, ◌^◌, ◌≤◌, ◌<◌, ◌≡◌, refl, sym, ap, ◌∙◌, true, false, ltb,
  leb, ◌==◌, inl, inr, [], ◌∷◌, arith, length, take, min, take-length, Bool-cases, ok, Yields,
}
use ukoos.ListHead.{Ptr}
use ukoos.ListHead.Chain.{has}
use ukoos.Alloc.{Memory, Services}
use ukoos.Alloc.Bounds.{page_bounds, page_in_bounds}
use ukoos.Alloc.FreeList.{IsBlock, HasCookie}
use ukoos.Alloc.Multiset.{count, spread, spread-has, spread-once, spread-Apart, multiple_gap}
use ukoos.Alloc.Init.{fill_blocks, page_init_blocks}
use ukoos.Alloc.Shuffle.{IsStock, IsPart, Filled, Draws, drain_blocks-Filled, mix_blocks-Filled}

length-spread : (start size n : ℕ) → length (spread start size n) ≡ n
length-spread start size zero = refl
length-spread start size (suc n) = ap suc (length-spread (start + size) size n)

-- The array is filled with the first blocks of the range, at most 16 of them.
fill_blocks-spread :
    (left n size start stop : ℕ)
    → 0 < size
    → stop ≡ start + n * size
    → fill_blocks left size start stop ≡ (spread start size (min left n), start + min left n * size)
unfolding fill_blocks
fill_blocks-spread zero n size start stop h e =
    let k : min 0 n ≡ 0 = omega arith in rw k (ap (λ (s : ℕ). ([], s)) (omega arith))
fill_blocks-spread (suc left) zero size start stop h e =
    let k : min (suc left) 0 ≡ 0 = omega arith in
    let test : (start == stop) ≡ true = ground arith in
    rw (k, test) (ap (λ (s : ℕ). ([], s)) (omega arith))
fill_blocks-spread (suc left) (suc n) size start stop h e =
    let k : min (suc left) (suc n) ≡ suc (min left n) = omega arith in
    let test : (start == stop) ≡ false = ground (arith, suc-mul n size) in
    let rest =
      fill_blocks-spread left n size (start + size) stop h (omega (arith, suc-mul n size)) in
    rw (k, test, rest)
      (ap (λ (s : ℕ). (start ∷ spread (start + size) size (min left n), s))
        (omega (arith, suc-mul (min left n) size)))

spread-split :
    (a start size k n : ℕ)
    → count a (spread start size (k + n))
      ≡ count a (spread start size k) + count a (spread (start + k * size) size n)
spread-split a start size zero n =
    let e : start + 0 * size ≡ start = omega arith in
    let z : 0 + n ≡ n = omega arith in rw (e, z) (omega arith)
spread-split a start size (suc k) n =
    let z : suc k + n ≡ suc (k + n) = omega arith in
    let e : start + suc k * size ≡ start + size + k * size = omega (arith, suc-mul k size) in
    rw (z, e) (omega (arith, spread-split a (start + size) size k n))

multiple_mod : (k size : ℕ) → size % 8 ≡ 0 → k * size % 8 ≡ 0
multiple_mod k size h =
    let e : size ≡ size / 8 * 8 = omega arith in
    let whole : k * size ≡ k * (size / 8) * 8 =
      ap (λ (s : ℕ). k * s) e ∙ sym (mul_assoc k (size / 8) 8) in
    rw whole (mul-mod_left (k * (size / 8)) 8)

module _ (m : Memory) (page : Ptr) (lo hi size start n : ℕ)
    (small : ((m.pages page).size_class == 17) ≡ false) (bounds : page_bounds m page ≡ ok (lo, hi))
    (above : lo ≤ start) (below : start + n * size ≤ hi) (top : start / 2 ^ 56 ≡ 0xff)
    (end : hi < 2 ^ 64) (wide : 8 ≤ size) (aligned : start % 8 ≡ 0) (aligned' : size % 8 ≡ 0) where
  spread-IsBlock : (x : ℕ) → has x (spread start size n) ≡ true → IsBlock m page x
  unfolding page_in_bounds
  spread-IsBlock x h =
      let (k, lt, at) = spread-has x start size n h in
      let in_range : k * size + size ≤ n * size = multiple_gap k n size lt in
      let l : leb lo x ≡ true = ground arith in
      let u : ltb x hi ≡ true = ground arith in
      (rw (small, bounds, l, u) refl, omega (arith, multiple_mod k size aligned'), omega arith)

  spread-IsStock : IsStock m page size (spread start size n)
  spread-IsStock = record {
    wide = wide;
    blocks = spread-IsBlock;
    apart = λ x y. spread-Apart start size n x y;
    once = λ a. spread-once a start size n (omega arith);
  }

  spread-nonzero : (x : ℕ) → has x (spread start size n) ≡ true → (x == 0) ≡ false
  spread-nonzero x h = let block = spread-IsBlock x h in ground arith

  module _ (services : Services) (draws : Draws services) (cookie : HasCookie m page)
      (fresh : (m.pages page).free ≡ (m.pages page).xor_cookie) (some_room : 0 < n) where
    started :
        (left : ℕ → ℕ)
        → ((a : ℕ) → left a ≡ count a (spread start size n))
        → IsPart m page size (spread start size n) [] left
    started left whole = record {
      list = fresh;
      cookie = cookie;
      stock = spread-IsStock;
      split = λ a. omega (arith, whole a);
    }

    few_blocks :
        (w : services.World)
        → n < 16
        → Yields
            (page_init_blocks services page size start (start + n * size) m w)
            (λ (g, w'). Filled m page (spread start size n) g)
    unfolding page_init_blocks
    few_blocks w h =
        let all = spread start size n in
        let k : min 16 n ≡ n = omega arith in
        let filled = fill_blocks-spread 16 n size start (start + n * size) (omega arith) refl in
        let filled' : fill_blocks 16 size start (start + n * size) ≡ (all, start + n * size) =
          filled ∙ ap (λ (i : ℕ). (spread start size i, start + i * size)) k in
        let len = length-spread start size n in
        let whole : take n all ≡ all = ap (λ (i : ℕ). take i all) (sym len) ∙ take-length all in
        let some_blocks : (n == 0) ≡ false = ground arith in
        let not_full : (n == 16) ≡ false = ground arith in
        let fits : leb (start + n * size) (start + n * size) ≡ true = ground arith in
        let (out, eq, done) =
          drain_blocks-Filled services draws n m page size all [] all w (omega (arith, len))
            spread-nonzero (started _ (λ a. ap (count a) whole)) in
        (out, rw (filled', len, some_blocks, fits, not_full, eq) refl, done)

    many_blocks :
        (w : services.World) (d : ℕ)
        → n ≡ 16 + d
        → Yields
            (page_init_blocks services page size start (start + n * size) m w)
            (λ (g, w'). Filled m page (spread start size n) g)
    unfolding page_init_blocks
    many_blocks w d h =
        let all = spread start size n in
        let stop = start + n * size in
        let first = start + 16 * size in
        let k : min 16 n ≡ 16 = omega arith in
        let area : n * size ≡ 16 * size + d * size = ap (λ (i : ℕ). i * size) h ∙ grind arith in
        let filled = fill_blocks-spread 16 n size start stop (omega arith) refl in
        let filled' : fill_blocks 16 size start stop ≡ (spread start size 16, first) =
          filled ∙ ap (λ (i : ℕ). (spread start size i, start + i * size)) k in
        let fits : leb first stop ≡ true = ground arith in
        let fuel : d < suc (stop - first) =
          omega (arith, area, (let pos : 0 < size = omega arith in le-mul_of_pos_right d pos)) in
        let parts : (a : ℕ)
            → count a (spread start size 16) + count a (spread first size d) ≡ count a all =
          λ a.
            sym
              (ap (λ (i : ℕ). count a (spread start size i)) h ∙ spread-split a start size 16 d) in
        let (out, eq, done) =
          mix_blocks-Filled services draws (suc (stop - first)) d m page size first stop all []
            (spread start size 16) w fuel refl (omega (arith, area)) (started _ parts) in
        (out, rw (filled', fits, eq) refl, done)

    -- On a page that is not huge, whose bounds are `lo` and `hi`, whose cookie ends in three ones
    -- and whose free list is empty, for `n` blocks, one or more, of a size that is a multiple of 8
    -- and not 0, between `start` and an end that is within the bounds, with `start` a multiple of
    -- 8 at an address whose top byte is 0xff, and whatever numbers the generator draws, as long as
    -- its draws end: filling the free list fails no assertion and ends, and the free list stands
    -- for a sequence that has each of the `n` blocks of the range exactly as often as the range
    -- has it, which is once, and nothing else; cookie, class and segments are as before.
    pub page_init_blocks-Filled :
        (w : services.World)
        → Yields
            (page_init_blocks services page size start (start + n * size) m w)
            (λ (g, w'). Filled m page (spread start size n) g)
    unfolding page_init_blocks
    page_init_blocks-Filled w = elim (Bool-cases (ltb n 16)) [
      | inl e ↦ few_blocks w (ground arith)
      | inr e ↦ many_blocks w (n - 16) (ground arith)
    ]
