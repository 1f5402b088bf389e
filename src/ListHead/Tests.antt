-- ===== src/ListHead/Tests.antt =====
-- A ring of three elements at 1, owned by 9, and an element 5 that is in no list.
use ukoos.Prelude.{ℕ, List, ◌≡◌, refl, ◌↔◌, true, [], ◌∷◌, arith, ◌==◌, if◌then◌else◌, Yields}
use ukoos.ListHead.{
  Ptr, Links, Store, list_unshift, list_push, list_shift, list_pop, list_remove, list_is_empty,
}
use ukoos.ListHead.Chain.{IsRing}
use ukoos.ListHead.Insert.{Inserts, list_unshift-IsRing, list_push-IsRing}
use ukoos.ListHead.Remove.{
  Removes, list_remove-IsRing, list_shift-IsRing, list_pop-IsRing, list_is_empty-IsRing,
}

abbrev links : Ptr → Ptr → Links
links p n = record { prev = p; next = n }

abbrev three : Store
three p =
    if p == 9
    then links 3 1
    else if p == 1
    then links 9 2
    else if p == 2
    then links 1 3
    else if p == 3
    then links 2 9
    else links p p

three-IsRing : IsRing three 9 (1 ∷ 2 ∷ 3 ∷ [])
three-IsRing = record { chain = omega arith; distinct = ground arith }

list_unshift-IsRing_example :
    Yields (list_unshift three 9 5) (Inserts three 9 5 (1 ∷ 2 ∷ 3 ∷ []) (5 ∷ 1 ∷ 2 ∷ 3 ∷ []))
list_unshift-IsRing_example =
    list_unshift-IsRing three 9 5 (1 ∷ 2 ∷ 3 ∷ []) three-IsRing (refl, refl) refl

list_push-IsRing_example :
    Yields (list_push three 9 5) (Inserts three 9 5 (1 ∷ 2 ∷ 3 ∷ []) (1 ∷ 2 ∷ 3 ∷ 5 ∷ []))
list_push-IsRing_example =
    list_push-IsRing three 9 5 (1 ∷ 2 ∷ 3 ∷ []) three-IsRing (refl, refl) refl

list_remove-IsRing_example : Yields (list_remove three 2) (Removes three 9 2 (1 ∷ 3 ∷ []))
list_remove-IsRing_example = list_remove-IsRing three 9 2 (1 ∷ []) (3 ∷ []) three-IsRing

list_shift-IsRing_example :
    Yields (list_shift three 9) (λ (out, t). (out ≡ 1) × Removes three 9 1 (2 ∷ 3 ∷ []) t)
list_shift-IsRing_example = list_shift-IsRing three 9 1 (2 ∷ 3 ∷ []) three-IsRing

list_pop-IsRing_example :
    Yields (list_pop three 9) (λ (out, t). (out ≡ 3) × Removes three 9 3 (1 ∷ 2 ∷ []) t)
list_pop-IsRing_example = list_pop-IsRing three 9 3 (1 ∷ 2 ∷ []) three-IsRing

list_is_empty-IsRing_example :
    Yields (list_is_empty three 9) (λ b. (b ≡ true) ↔ ◌≡◌ {A = List ℕ} (1 ∷ 2 ∷ 3 ∷ []) [])
list_is_empty-IsRing_example = list_is_empty-IsRing three 9 (1 ∷ 2 ∷ 3 ∷ []) three-IsRing
