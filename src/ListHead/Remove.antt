-- ===== src/ListHead/Remove.antt =====
-- `list_remove`, `list_shift` and `list_pop`: one element less. All three take an element out
-- between its neighbours; `list_is_empty` says whether there is one to take out.
use mathlib.Core.List.{append_assoc, append-nil}
use ukoos.Prelude.{◌≡◌, refl, ◌↔◌, true, false, List, [], ◌∷◌, ◌++◌, arith, ◌==◌, ok, panic, Yields}
use ukoos.ListHead.{
  Ptr, Store, set_prev, set_next, list_init, list_remove, list_shift, list_pop, list_is_empty,
}
use ukoos.ListHead.Chain.{
  has, has-append, has-ne, has-snoc, Chain-split, Linked, Chain, IsRing, IsUnlinked, Chain-frame,
  IsRing-rotate, SameOutside, snoc_induction,
}

abbrev removed : Store → Ptr → Store
removed s e =
    let s₁ = set_next s (s e).prev (s e).next in
    let s₂ = set_prev s₁ (s₁ e).next (s₁ e).prev in list_init s₂ e

-- The store behind the removal of `e` from between `a` and `n`, address by address.
record IsRemoved (s : Store) (a e n : Ptr) (t : Store) : Type 0 where
  gone : t e ≡ record { prev = e; next = e }
  next_of : (p : Ptr) → (p == e) ≡ false → (p == a) ≡ false → (t p).next ≡ (s p).next
  prev_of : (p : Ptr) → (p == e) ≡ false → (p == n) ≡ false → (t p).prev ≡ (s p).prev
  joined : Linked t a n

module _ (s : Store) (a e n : Ptr) (before : Linked s a e) (behind : Linked s e n)
    (ne : (a == e) ≡ false) (ne' : (n == e) ≡ false) where
  removed-IsRemoved : IsRemoved s a e n (removed s e)
  unfolding set_prev set_next list_init
  removed-IsRemoved = record {
    gone = ground arith;
    next_of = λ p h k. ground arith;
    prev_of = λ p h k. ground arith;
    joined = ground arith;
  }

  list_remove-removed : list_remove s e ≡ ok (removed s e)
  unfolding list_remove
  list_remove-removed = ground arith

  list_shift-removed : (a == (s a).prev) ≡ false → list_shift s a ≡ ok (e, removed s e)
  unfolding list_shift set_prev set_next list_init
  list_shift-removed linked = ground arith

  list_pop-removed : (n == (s n).next) ≡ false → list_pop s n ≡ ok (e, removed s e)
  unfolding list_pop set_prev set_next list_init
  list_pop-removed linked = ground arith

-- The element before the end of a chain is its start or one of its elements.
prev-mem : (s : Store) (a b : Ptr) (xs : List Ptr) → Chain s a xs b → has (s b).prev (a ∷ xs) ≡ true
prev-mem s a b [] c = ground arith
prev-mem s a b (x ∷ xs) c = ground (arith, prev-mem s x b xs c.1)

next-mem :
    (s : Store) (a b : Ptr) (xs : List Ptr) → Chain s a xs b → has (s a).next (xs ++ b ∷ []) ≡ true
next-mem s a b [] c = ground arith
next-mem s a b (x ∷ xs) c = ground arith

-- What every removal of `e` promises: the ring `xs` is left, `e` is in no list, and no other
-- address is written.
abbrev pub Removes : Store → Ptr → Ptr → List Ptr → Store → Type 0
Removes s owner e xs t = IsRing t owner xs × IsUnlinked t e × SameOutside (e ∷ owner ∷ xs) s t

abbrev Removal : Store → Ptr → Ptr → List Ptr → Type 0
Removal s owner e xs = (list_remove s e ≡ ok (removed s e)) × Removes s owner e xs (removed s e)

prev-Linked : (s : Store) (a b : Ptr) (xs : List Ptr) → Chain s a xs b → Linked s (s b).prev b
prev-Linked s a b [] c = ground arith
prev-Linked s a b (x ∷ xs) c = prev-Linked s x b xs c.1

-- Taking out the first element, by way of its neighbours.
module _ (s : Store) (owner e : Ptr) where
  IsRemoved-Removes :
      (t : Store) (n : Ptr) (xs : List Ptr)
      → IsRing s owner (e ∷ xs)
      → Linked s e n
      → IsRemoved s owner e n t
      → Removes s owner e xs t
  IsRemoved-Removes t n [] ring behind rem = (
    record { chain = ground arith; distinct = ground arith },
    ground arith,
    λ p h. ground (arith, rem.next_of p, rem.prev_of p),
  )
  IsRemoved-Removes t n (x ∷ xs) ring behind rem =
      let at_x : n ≡ x = ground arith in
      (
        record {
          chain = (
            ground arith,
            Chain-frame s t x owner xs ring.chain.1.1
                (λ p h.
                  rem.next_of p (has-ne p e (x ∷ xs) h ring.distinct.1.0)
                    (has-ne p owner (x ∷ xs) h (ground arith)))
                (λ p h.
                  rem.prev_of p (has-ne p e _ h (has-snoc e owner xs (ground arith)))
                    (rw at_x (has-ne p x _ h (has-snoc x owner xs (ground arith))))),
          );
          distinct = ground arith;
        },
        ground arith,
        λ p h. ground (arith, rem.next_of p, rem.prev_of p),
      )

  -- The neighbours of the first element, for the steps of the three operations.
  first_neighbours :
      (xs : List Ptr)
      → IsRing s owner (e ∷ xs)
      → Linked s e (s e).next × (((s e).next == e) ≡ false)
  first_neighbours [] ring = ground arith
  first_neighbours (x ∷ xs) ring = ground arith

  first-Removal : (xs : List Ptr) → IsRing s owner (e ∷ xs) → Removal s owner e xs
  first-Removal xs ring =
      let near = first_neighbours xs ring in
      let rem = removed-IsRemoved s owner e (s e).next ring.chain.0 near.0 (ground arith) near.1 in
      (
        list_remove-removed s owner e (s e).next ring.chain.0 near.0 (ground arith) near.1,
        IsRemoved-Removes (removed s e) (s e).next xs ring near.0 rem,
      )

-- The others follow by turning the ring until the element is the first.
behind-Removal :
    (s : Store) (owner e p : Ptr) (ws vs : List Ptr)
    → IsRing s owner ((ws ++ p ∷ []) ++ e ∷ vs)
    → Removal s owner e ((ws ++ p ∷ []) ++ vs)
behind-Removal s owner e p ws vs ring =
    let turned = IsRing-rotate s owner p ws (e ∷ vs) (rw append_assoc at ring) in
    let (eq, (ring', free, same)) = first-Removal s p e (vs ++ owner ∷ ws) turned in
    (
      eq,
      (
        rw append_assoc (IsRing-rotate (removed s e) p owner vs ws ring'),
        free,
        λ q h. same q (
            ground (
              arith,
              has-append q (ws ++ p ∷ []) vs,
              has-append q ws (p ∷ []),
              has-append q vs (owner ∷ ws),
            )),
      ),
    )

list_remove-Removal :
    (s : Store) (owner e : Ptr) (us vs : List Ptr)
    → IsRing s owner (us ++ e ∷ vs)
    → Removal s owner e (us ++ vs)
list_remove-Removal s owner e us vs =
    snoc_induction (λ us. IsRing s owner (us ++ e ∷ vs) → Removal s owner e (us ++ vs))
      (first-Removal s owner e vs) (λ ws p. behind-Removal s owner e p ws vs) us

-- `list_remove` on any element of a ring takes out that element and leaves the order of the others,
-- the element itself unlinked, and the rest of the store as it was.
pub list_remove-IsRing :
    (s : Store) (owner e : Ptr) (us vs : List Ptr)
    → IsRing s owner (us ++ e ∷ vs)
    → Yields (list_remove s e) (Removes s owner e (us ++ vs))
list_remove-IsRing s owner e us vs ring =
    let (eq, spec) = list_remove-Removal s owner e us vs ring in (removed s e, eq, spec)

-- `list_shift` on a ring with a first element returns that element, unlinked, and leaves the ring
-- of the others, and the rest of the store as it was.
pub list_shift-IsRing :
    (s : Store) (owner e : Ptr) (xs : List Ptr)
    → IsRing s owner (e ∷ xs)
    → Yields (list_shift s owner) (λ (out, t). (out ≡ e) × Removes s owner e xs t)
list_shift-IsRing s owner e xs ring =
    let near = first_neighbours s owner e xs ring in
    let last = has-ne (s owner).prev owner (e ∷ xs) (prev-mem s e owner xs ring.chain.1) in
    (
      (e, removed s e),
      list_shift-removed s owner e (s e).next ring.chain.0 near.0 (ground arith) near.1
          (ground (arith, last ring.distinct.0)),
      (refl, (first-Removal s owner e xs ring).1),
    )

-- `list_pop` on a ring with a last element returns that element, unlinked, and leaves the ring of
-- the others, and the rest of the store as it was.
pub list_pop-IsRing :
    (s : Store) (owner z : Ptr) (zs : List Ptr)
    → IsRing s owner (zs ++ z ∷ [])
    → Yields (list_pop s owner) (λ (out, t). (out ≡ z) × Removes s owner z zs t)
list_pop-IsRing s owner z zs ring =
    let parts = Chain-split s owner z owner zs [] ring.chain in
    let turned = IsRing-rotate s owner z zs [] ring in
    let last = has-ne (s z).prev z (owner ∷ zs) (prev-mem s owner z zs parts.0) turned.distinct.0 in
    let first =
      has-ne (s owner).next owner (zs ++ z ∷ []) (next-mem s owner z zs parts.0) ring.distinct.0 in
    (
      (z, removed s z),
      list_pop-removed s (s z).prev z owner (prev-Linked s owner z zs parts.0) parts.1 last
          (ground (arith, turned.distinct.0)) (ground arith),
      (refl, rw append-nil at (list_remove-Removal s owner z zs [] ring).1),
    )

-- `list_is_empty` on a ring never fails an assertion, and answers whether the sequence is empty.
pub list_is_empty-IsRing :
    (s : Store) (owner : Ptr) (xs : List Ptr)
    → IsRing s owner xs
    → Yields (list_is_empty s owner) (λ b. (b ≡ true) ↔ (xs ≡ []))
unfolding list_is_empty
list_is_empty-IsRing s owner [] ring = (true, ground arith, (λ _. refl, λ _. refl))
list_is_empty-IsRing s owner (x ∷ xs) ring =
    let last = has-ne (s owner).prev owner (x ∷ xs) (prev-mem s x owner xs ring.chain.1) in
    (false, ground (arith, last ring.distinct.0), (λ h. cc, λ h. cc))

-- `list_shift` and `list_pop` on an empty ring, and `list_remove` of an element that is in no list,
-- fail their assertion.
pub unlinked-panic :
    (s : Store) (p : Ptr)
    → IsUnlinked s p
    → (list_shift s p ≡ panic) × (list_pop s p ≡ panic) × (list_remove s p ≡ panic)
unfolding list_shift list_pop list_remove
unlinked-panic s p free = ground arith
