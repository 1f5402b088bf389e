-- ===== src/Alloc/Shuffle.antt =====
-- The random order of the free list: the loops of `page_init_small_or_large` put every block into
-- it exactly once, whatever the random numbers are.
use ukoos.Prelude.{
  ℕ, zero, suc, ◌+◌, ◌*◌, ◌%◌, ◌≤◌, ◌<◌, ◌≡◌, refl, sym, ap, ◌∙◌, bit_and, true, false, ltb, ◌==◌,
  inl, inr, if◌then◌else◌, List, [], ◌∷◌, arith, length, get_or, set, take, length-set, Bool-cases,
  Yields, ==_iff, subst,
}
use native.Mathlib.Nat.{mod-lt, suc-mul}
use ukoos.Prelude.Bits.{bit_and-fifteen}
use ukoos.ListHead.{Ptr}
use ukoos.ListHead.Chain.{has}
use ukoos.Alloc.{Memory, Services}
use ukoos.Alloc.Blocks.{page_free_push}
use ukoos.Alloc.FreeList.{IsBlock, HasCookie, FreeList, SamePage, SamePage-trans, IsBlock-SamePage}
use ukoos.Alloc.Push.{Apart, page_free_push-cons}
use ukoos.Alloc.Multiset.{
  count, SameItems, spread, count-has, has-count, count-set, count-get_or, count-take-set,
}
use ukoos.Alloc.Init.{push_blocks, mix_blocks, drain_blocks}

-- The blocks that a page is to be given: places for blocks, that do not overlap.
pub record IsStock (m : Memory) (page : Ptr) (size : ℕ) (all : List ℕ) : Type 0 where
  pub wide : 8 ≤ size
  pub blocks : (x : ℕ) → has x all ≡ true → IsBlock m page x
  pub apart : (x y : ℕ) → has x all ≡ true → has y all ≡ true → (x == y) ≡ false → Apart x size y
  pub once : (a : ℕ) → count a all ≤ 1

-- The blocks `xs` are in the free list, and `left` says how often each address is still to come.
pub record IsPart (m : Memory) (page : Ptr) (size : ℕ) (all xs : List ℕ) (left : ℕ → ℕ)
    : Type 0 where
  pub list : FreeList m page (m.pages page).free xs
  pub cookie : HasCookie m page
  pub stock : IsStock m page size all
  pub split : (a : ℕ) → count a xs + left a ≡ count a all

-- What filling the free list comes to: all blocks of the stock are in it, each as often as there.
abbrev pub Filled : Memory → Ptr → List ℕ → Memory → Type 0
Filled m page all g =
    (ys : List ℕ) × FreeList g page (g.pages page).free ys × SameItems ys all × SamePage m page g

pub Filled-trans :
    (m : Memory) (page : Ptr) (all : List ℕ) (g h : Memory)
    → SamePage m page g
    → Filled g page all h
    → Filled m page all h
Filled-trans m page all g h same (ys, list, items, same') =
    (ys, list, items, SamePage-trans m page g h same same')

IsStock-SamePage :
    (m : Memory) (page : Ptr) (g : Memory) (size : ℕ) (all : List ℕ)
    → SamePage m page g
    → IsStock m page size all
    → IsStock g page size all
IsStock-SamePage m page g size all same s = record {
  wide = s.wide;
  blocks = λ x h. IsBlock-SamePage m page g x same (s.blocks x h);
  apart = s.apart;
  once = s.once;
}

module _ (m : Memory) (page : Ptr) (size : ℕ) (all xs : List ℕ) (left : ℕ → ℕ)
    (part : IsPart m page size all xs left) where
  left-mem : (b : ℕ) → 1 ≤ left b → has b all ≡ true
  left-mem b h = has-count b all (omega (arith, part.split b))

  pushed-mem : (x : ℕ) → has x xs ≡ true → has x all ≡ true
  pushed-mem x h = has-count x all (omega (arith, part.split x, count-has x xs h))

  left-ne : (b x : ℕ) → 1 ≤ left b → has x xs ≡ true → (b == x) ≡ false
  left-ne b x h k = elim (Bool-cases (b == x)) [
    | inl e ↦
        let twice : 1 ≤ count b xs =
          subst (λ y. 1 ≤ count y xs) (sym ((==_iff b x).0 e)) (count-has x xs k) in
        absurd (omega (arith, part.split b, (part.stock).once b))
    | inr e ↦ e
  ]

  push-IsPart :
      (b : ℕ) (left' : ℕ → ℕ)
      → 1 ≤ left b
      → ((a : ℕ) → left' a + (if b == a then 1 else 0) ≡ left a)
      → Yields
          (page_free_push page b size m)
          (λ g. IsPart g page size all (b ∷ xs) left' × SamePage m page g)
  push-IsPart b left' h fewer =
      let stock = part.stock in
      let (g, eq, (list, same, _, _)) =
        page_free_push-cons m page b size xs part.cookie (stock.blocks b (left-mem b h)) stock.wide
          part.list (λ x k. stock.apart b x (left-mem b h) (pushed-mem x k) (left-ne b x h k)) in
      (
        g,
        eq,
        (
          record {
            list = list;
            cookie = ap (λ (c : ℕ). c % 8) same.cookie ∙ part.cookie;
            stock = IsStock-SamePage m page g size all same stock;
            split = λ a. omega (arith, fewer a, part.split a);
          },
          same,
        ),
      )

-- Nothing is left.
IsPart-Filled :
    (m : Memory) (page : Ptr) (size : ℕ) (all xs : List ℕ) (left : ℕ → ℕ)
    → IsPart m page size all xs left
    → ((a : ℕ) → left a ≡ 0)
    → Filled m page all m
IsPart-Filled m page size all xs left part none_left = (
  xs,
  part.list,
  (λ a. omega (arith, part.split a, none_left a)),
  record { cookie = refl; class = refl; segments = refl },
)

pub push_blocks-Filled :
    (m : Memory) (page : Ptr) (size : ℕ) (all xs bs : List ℕ)
    → IsPart m page size all xs (λ a. count a bs)
    → Yields (push_blocks page size bs m) (Filled m page all)
unfolding push_blocks
push_blocks-Filled m page size all xs [] part =
    (m, refl, IsPart-Filled m page size all xs _ part (λ a. refl))
push_blocks-Filled m page size all xs (b ∷ bs) part =
    let (g, eq, (part', same)) =
      push-IsPart m page size all xs _ part b (λ a. count a bs) (ground arith) (λ a. omega arith) in
    let (h, eq', filled) = push_blocks-Filled g page size all (b ∷ xs) bs part' in
    (h, rw (eq, eq') refl, Filled-trans m page all g h same filled)

-- The draws end normally.
abbrev pub Draws : Services → Type 0
Draws services = (w : services.World) → Yields (services.random w) (λ r. Unit {0})

module _ (services : Services) (draws : Draws services) where
  pub drain_blocks-Filled :
      (len : ℕ) (m : Memory) (page : Ptr) (size : ℕ) (all xs bs : List ℕ) (w : services.World)
      → len ≤ length bs
      → ((x : ℕ) → has x all ≡ true → (x == 0) ≡ false)
      → IsPart m page size all xs (λ a. count a (take len bs))
      → Yields (drain_blocks services len page size bs m w) (λ (g, w'). Filled m page all g)
  unfolding drain_blocks
  drain_blocks-Filled zero m page size all xs bs w h nonzero part =
      ((m, w), refl, IsPart-Filled m page size all xs _ part (λ a. refl))
  drain_blocks-Filled (suc len) m page size all xs bs w h nonzero part =
      let ((r, w'), drawn, _) = draws w in
      let i = r % suc len in
      let b = get_or bs i 0 in
      let small : i ≤ len =
        let bound : r % suc len < suc len = mod-lt r (omega arith) in omega arith in
      let fewer = λ (a : ℕ). count-take-set a bs i len small (omega arith) in
      let there : 1 ≤ count b (take (suc len) bs) = ground (arith, fewer b) in
      let (g, eq, (part', same)) =
        push-IsPart m page size all xs _ part b
          (λ a. count a (take len (set bs i (get_or bs len 0)))) there fewer in
      let test = nonzero b (left-mem m page size all xs _ part b there) in
      let (out, eq', filled) =
        drain_blocks-Filled len g page size all (b ∷ xs) (set bs i (get_or bs len 0)) w'
          (omega (arith, length-set bs i (get_or bs len 0))) nonzero part' in
      (out, rw (drawn, test, eq, eq') refl, Filled-trans m page all g out.0 same filled)

  pub mix_blocks-Filled :
      (fuel n : ℕ) (m : Memory) (page : Ptr) (size start stop : ℕ) (all xs bs : List ℕ)
      (w : services.World)
      → n < fuel
      → length bs ≡ 16
      → stop ≡ start + n * size
      → IsPart m page size all xs (λ a. count a bs + count a (spread start size n))
      → Yields
          (mix_blocks services fuel page size start stop bs m w)
          (λ (g, w'). Filled m page all g)
  unfolding mix_blocks
  mix_blocks-Filled zero n m page size start stop all xs bs w f h e part = absurd (omega arith)
  mix_blocks-Filled (suc fuel) zero m page size start stop all xs bs w f h e part =
      let test : (start == stop) ≡ true = ground arith in
      let part' : IsPart m page size all xs (λ a. count a bs) = record {
        list = part.list;
        cookie = part.cookie;
        stock = part.stock;
        split = λ a. omega (arith, part.split a);
      } in
      let (g, eq, filled) = push_blocks-Filled m page size all xs bs part' in
      ((g, w), rw (test, mix_blocks, eq) refl, filled)
  mix_blocks-Filled (suc fuel) (suc n) m page size start stop all xs bs w f h e part =
      let far : stop ≡ start + size + n * size = omega (arith, suc-mul n size) in
      let wide = (part.stock).wide in
      let test : (start == stop) ≡ false = ground arith in
      let before : ltb start stop ≡ true = ground arith in
      let ((r, w'), drawn, _) = draws w in
      let i = bit_and r 0xf in
      let b = get_or bs i 0 in
      let small : i < length bs = omega (arith, bit_and-fifteen r) in
      let set_count = λ (a : ℕ). count-set a bs i start small in
      let there : 1 ≤ count b bs + count b (spread start size (suc n)) =
        omega (arith, count-get_or bs i small) in
      let (g, eq, (part', same)) =
        push-IsPart m page size all xs _ part b
          (λ a. count a (set bs i start) + count a (spread (start + size) size n)) there
          (λ a. omega (arith, set_count a)) in
      let (out, eq', filled) =
        mix_blocks-Filled fuel n g page size (start + size) stop all (b ∷ xs) (set bs i start) w'
          (omega arith) (length-set bs i start ∙ h) far part' in
      (
        out,
        rw (test, mix_blocks, before, drawn, eq, eq') refl,
        Filled-trans m page all g out.0 same filled,
      )
