-- ===== src/ListHead/Insert.antt =====
-- `list_unshift` and `list_push`: one element more at the start or the end of the sequence.
use mathlib.Core.List.{append_assoc}
use ukoos.Prelude.{◌≡◌, ◌∙◌, false, List, [], ◌∷◌, ◌++◌, arith, ◌==◌, ok, Yields}
use ukoos.ListHead.{Ptr, Store, set_prev, set_next, list_unshift, list_push}
use ukoos.ListHead.Chain.{
  has, has-append, has-ne, has-snoc, Chain-split, Linked, Chain, IsRing, IsUnlinked, Chain-frame,
  IsRing-rotate, SameOutside, snoc_induction,
}

-- The store behind an insertion of `e` right behind `a`, address by address.
pub record IsInserted (s : Store) (a e : Ptr) (t : Store) : Type 0 where
  pub new : t e ≡ record { prev = a; next = (s a).next }
  pub next_of : (p : Ptr) → (p == e) ≡ false → (p == a) ≡ false → (t p).next ≡ (s p).next
  pub prev_of : (p : Ptr) → (p == e) ≡ false → (p == (s a).next) ≡ false → (t p).prev ≡ (s p).prev
  pub behind : (t a).next ≡ e
  pub before : (t (s a).next).prev ≡ e

abbrev inserted : Store → Ptr → Ptr → Store
inserted s a e =
    let s₁ = set_prev s e a in
    let s₂ = set_next s₁ e (s₁ a).next in
    let s₃ = set_next s₂ (s₂ e).prev e in set_prev s₃ (s₃ e).next e

module _ (s : Store) (a e : Ptr) (new : (e == a) ≡ false) (free : IsUnlinked s e) where
  inserted-IsInserted : (e == (s a).next) ≡ false → IsInserted s a e (inserted s a e)
  unfolding set_prev set_next
  inserted-IsInserted new' = record {
    new = ground arith;
    next_of = λ p h k. ground arith;
    prev_of = λ p h k. ground arith;
    behind = ground arith;
    before = ground arith;
  }

  list_unshift-inserted : list_unshift s a e ≡ ok (inserted s a e)
  unfolding list_unshift
  list_unshift-inserted = ground arith

-- From the first link of a ring.
first-ne :
    (s : Store) (a e : Ptr) (xs : List Ptr)
    → Chain s a xs a
    → has e (a ∷ xs) ≡ false
    → (e == (s a).next) ≡ false
first-ne s a e [] c out = ground arith
first-ne s a e (x ∷ xs) c out = ground arith

IsInserted-Chain :
    (s t : Store) (a e : Ptr) (xs : List Ptr)
    → IsInserted s a e t
    → IsRing s a xs
    → has e (a ∷ xs) ≡ false
    → Chain t a (e ∷ xs) a
IsInserted-Chain s t a e [] ins ring out = let open_new = ins.new in ground arith
IsInserted-Chain s t a e (x ∷ xs) ins ring out = (
  ground arith,
  (
    ground arith,
    Chain-frame s t x a xs ring.chain.1
        (λ p h.
          ins.next_of p (has-ne p e (x ∷ xs) h (ground arith))
            (has-ne p a (x ∷ xs) h ring.distinct.0))
        (λ p h.
          ins.prev_of p (has-ne p e _ h (has-snoc e a xs (ground arith)))
            (rw ring.chain.0.0 (has-ne p x _ h (has-snoc x a xs (ground arith))))),
  ),
)

IsInserted-SameOutside :
    (s t : Store) (a e : Ptr) (xs : List Ptr)
    → IsInserted s a e t
    → IsRing s a xs
    → SameOutside (e ∷ a ∷ xs) s t
IsInserted-SameOutside s t a e xs ins ring p h =
    ground (arith, first-ne s a p xs ring.chain, ins.next_of p, ins.prev_of p)

-- What both insertions promise: the ring `ys` comes out, and no other address is written.
abbrev pub Inserts : Store → Ptr → Ptr → List Ptr → List Ptr → Store → Type 0
Inserts s owner e xs ys t = IsRing t owner ys × SameOutside (e ∷ owner ∷ xs) s t

-- `list_unshift` in a ring, for an element that is in no list, succeeds: the new ring has the
-- element in front of the old sequence, and no other address of the store is written.
pub list_unshift-IsRing :
    (s : Store) (owner e : Ptr) (xs : List Ptr)
    → IsRing s owner xs
    → IsUnlinked s e
    → has e (owner ∷ xs) ≡ false
    → Yields (list_unshift s owner e) (Inserts s owner e xs (e ∷ xs))
list_unshift-IsRing s owner e xs ring free out =
    let ins =
      inserted-IsInserted s owner e (ground arith) free (first-ne s owner e xs ring.chain out) in
    (
      inserted s owner e,
      list_unshift-inserted s owner e (ground arith) free,
      (
        record { chain = IsInserted-Chain s _ owner e xs ins ring out; distinct = ground arith },
        IsInserted-SameOutside s _ owner e xs ins ring,
      ),
    )

-- Adding before the owner is adding behind the element that stands before it.
list_push-list_unshift :
    (s : Store) (z owner e : Ptr)
    → Linked s z owner
    → (e == owner) ≡ false
    → (e == z) ≡ false
    → list_push s owner e ≡ list_unshift s z e
unfolding list_push list_unshift set_prev set_next
list_push-list_unshift s z owner e link ne ne' = ground arith

list_push-snoc :
    (s : Store) (owner e : Ptr) (zs : List Ptr) (z : Ptr)
    → IsRing s owner (zs ++ z ∷ [])
    → IsUnlinked s e
    → has e (owner ∷ zs ++ z ∷ []) ≡ false
    → Yields (list_push s owner e) (Inserts s owner e (zs ++ z ∷ []) ((zs ++ z ∷ []) ++ e ∷ []))
list_push-snoc s owner e zs z ring free out =
    let turned = IsRing-rotate s owner z zs [] ring in
    let apart = has-append e zs (z ∷ []) in
    let (t, eq, (ring', same)) =
      list_unshift-IsRing s z e (owner ∷ zs) turned free (ground arith) in
    (
      t,
      list_push-list_unshift s z owner e (Chain-split s owner z owner zs [] ring.chain).1
            (ground arith) (ground arith)
          ∙ eq,
      (
        rw append_assoc (IsRing-rotate t z owner (e ∷ []) zs ring'),
        λ p h. same p (ground (arith, has-append p zs (z ∷ []))),
      ),
    )

-- `list_push` in a ring, for an element that is in no list, succeeds: the new ring has the element
-- behind the old sequence, and no other address of the store is written.
pub list_push-IsRing :
    (s : Store) (owner e : Ptr) (xs : List Ptr)
    → IsRing s owner xs
    → IsUnlinked s e
    → has e (owner ∷ xs) ≡ false
    → Yields (list_push s owner e) (Inserts s owner e xs (xs ++ e ∷ []))
list_push-IsRing s owner e =
    snoc_induction _
      (λ ring free out.
        let (t, eq, spec) = list_unshift-IsRing s owner e [] ring free out in
        (
          t,
          list_push-list_unshift s owner owner e ring.chain (ground arith) (ground arith) ∙ eq,
          spec,
        ))
      (λ zs z. list_push-snoc s owner e zs z)
