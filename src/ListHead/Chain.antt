-- ===== src/ListHead/Chain.antt =====
-- What a linked list of include/list.h stands for: the ring that runs from an owner through a
-- sequence of elements and back, with `prev` and `next` in agreement.
use mathlib.Core.List.{append-nil, append_assoc}
use ukoos.Prelude.{◌≡◌, refl, Bool, true, false, ◌||◌, List, [], ◌∷◌, ◌++◌, arith, ◌==◌}
use ukoos.ListHead.{Ptr, Store}

abbrev pub has : Ptr → List Ptr → Bool
has a [] = false
has a (x ∷ xs) = (a == x) || has a xs

abbrev pub Distinct : List Ptr → Type 0
Distinct [] = Unit
Distinct (x ∷ xs) = (has x xs ≡ false) × Distinct xs

-- `b` comes right behind `a`.
abbrev pub Linked : Store → Ptr → Ptr → Type 0
Linked s a b = ((s a).next ≡ b) × ((s b).prev ≡ a)

-- The links lead from `a` through `xs` to `b`.
abbrev pub Chain : Store → Ptr → List Ptr → Ptr → Type 0
Chain s a [] b = Linked s a b
Chain s a (x ∷ xs) b = Linked s a x × Chain s x xs b

pub record IsRing (s : Store) (owner : Ptr) (xs : List Ptr) : Type 0 where
  pub chain : Chain s owner xs owner
  pub distinct : Distinct (owner ∷ xs)

-- An element that is in no list points at itself.
abbrev pub IsUnlinked : Store → Ptr → Type 0
IsUnlinked s e = ((s e).prev ≡ e) × ((s e).next ≡ e)

pub has-append : (p : Ptr) (us vs : List Ptr) → has p (us ++ vs) ≡ (has p us || has p vs)
has-append p [] vs = refl
has-append p (u ∷ us) vs = ground (arith, has-append p us vs)

pub has-ne : (p q : Ptr) (xs : List Ptr) → has p xs ≡ true → has q xs ≡ false → (p == q) ≡ false
has-ne p q [] h k = cc
has-ne p q (x ∷ xs) h k = ground (arith, has-ne p q xs)

pub has-snoc : (q a : Ptr) (xs : List Ptr) → has q (a ∷ xs) ≡ false → has q (xs ++ a ∷ []) ≡ false
has-snoc q a xs h = ground (arith, has-append q xs (a ∷ []))

pub Chain-append :
    (s : Store) (a y b : Ptr) (xs ys : List Ptr)
    → Chain s a xs y
    → Chain s y ys b
    → Chain s a (xs ++ y ∷ ys) b
Chain-append s a y b [] ys c d = (c, d)
Chain-append s a y b (x ∷ xs) ys c d = (c.0, Chain-append s x y b xs ys c.1 d)

pub Chain-split :
    (s : Store) (a y b : Ptr) (xs ys : List Ptr)
    → Chain s a (xs ++ y ∷ ys) b
    → Chain s a xs y × Chain s y ys b
Chain-split s a y b [] ys c = c
Chain-split s a y b (x ∷ xs) ys c =
    let rest = Chain-split s x y b xs ys c.1 in ((c.0, rest.0), rest.1)

-- A chain survives a change that spares the `next` of all but its end and the `prev` of all but
-- its start.
pub Chain-frame :
    (s t : Store) (a b : Ptr) (xs : List Ptr)
    → Chain s a xs b
    → ((p : Ptr) → has p (a ∷ xs) ≡ true → (t p).next ≡ (s p).next)
    → ((p : Ptr) → has p (xs ++ b ∷ []) ≡ true → (t p).prev ≡ (s p).prev)
    → Chain t a xs b
Chain-frame s t a b [] c next prev = ground (arith, next a, prev b)
Chain-frame s t a b (x ∷ xs) c next prev = (
  ground (arith, next a, prev x),
  Chain-frame s t x b xs c.1 (λ p h. next p (ground arith)) (λ p h. prev p (ground arith)),
)

-- Moving the head to the end, and from there any rotation, keeps the elements distinct.
pub Distinct-snoc :
    (x : Ptr) (xs : List Ptr) → has x xs ≡ false → Distinct xs → Distinct (xs ++ x ∷ [])
Distinct-snoc x [] h d = ground arith
Distinct-snoc x (y ∷ ys) h d =
    (rw (has-append y ys (x ∷ [])) (ground arith), Distinct-snoc x ys (ground arith) d.1)

pub Distinct-rotate : (xs ys : List Ptr) → Distinct (xs ++ ys) → Distinct (ys ++ xs)
Distinct-rotate [] ys d = rw append-nil d
Distinct-rotate (x ∷ xs) ys d =
    rw (← append_assoc ys (x ∷ []) xs)
      (Distinct-rotate xs (ys ++ x ∷ []) (rw append_assoc at (Distinct-snoc x (xs ++ ys) d.0 d.1)))

-- A ring has no first element: it can be told from any of its members.
pub IsRing-rotate :
    (s : Store) (owner y : Ptr) (us vs : List Ptr)
    → IsRing s owner (us ++ y ∷ vs)
    → IsRing s y (vs ++ owner ∷ us)
IsRing-rotate s owner y us vs r =
    let parts = Chain-split s owner y owner us vs r.chain in
    record {
      chain = Chain-append s y owner y vs us parts.1 parts.0;
      distinct = Distinct-rotate (owner ∷ us) (y ∷ vs) r.distinct;
    }

-- `t` agrees with `s` away from the listed addresses.
abbrev pub SameOutside : List Ptr → Store → Store → Type 0
SameOutside xs s t = (p : Ptr) → has p xs ≡ false → t p ≡ s p

-- A sequence is empty or has a last element.
pub snoc_induction {ℓ} :
    (P : List Ptr → Type ℓ)
    → P []
    → ((ys : List Ptr) (z : Ptr) → P (ys ++ z ∷ []))
    → (xs : List Ptr) → P xs
snoc_induction P base step [] = base
snoc_induction P base step (x ∷ xs) =
    snoc_induction (λ l. P (x ∷ l)) (step [] x) (λ ys z. step (x ∷ ys) z) xs
