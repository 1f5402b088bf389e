-- ===== src/Treap/Tests.antt =====
-- Small treaps of src/kernel/mm/virtual_alloc.c, and the theorems applied to them.
use ukoos.Prelude.{
  ℕ, ◌^◌, ◌≡◌, refl, ◌==◌, if◌then◌else◌, List, [], ◌∷◌, arith, ok, panic, Yields, ◌>>=◌,
}
use ukoos.Treap.{Ptr, Side, left, right, TreapHead, Treap, treap_rotate, treap_insert, treap_remove}
use ukoos.Treap.Shape.{Tree, leaf, node, node_on, Rep, top, RepContext}
use ukoos.Treap.Turn.{treap_rotate-Rep}
use ukoos.Treap.Invariant.{IsTreap}
use ukoos.Treap.Link.{IsInserted}
use ukoos.Treap.Insert.{treap_insert-IsInserted}
use ukoos.Treap.Remove.{IsRemoved, treap_remove-IsRemoved}

abbrev head : ℕ → Side → ℕ → Ptr → Ptr → Ptr → TreapHead
head v s n p l r = record {
  value = v;
  which_child = s;
  priority = n;
  parent = p;
  left_child = l;
  right_child = r;
}

-- The node 1 with the nodes 2 and 3 below it, and the node 4 outside.
abbrev three : Treap
three = record {
  heads = λ q.
      if q == 1
      then head 5 left 30 0 2 3
      else if q == 2
      then head 3 left 5 1 0 0
      else if q == 3
      then head 8 right 20 1 0 0
      else head 6 left 0 0 0 0;
  root = 1;
}

abbrev three_tree : Tree
three_tree = node 1 (node 2 leaf leaf) (node 3 leaf leaf)

three-IsTreap : IsTreap three three_tree
three-IsTreap = record {
  rep = (
    refl,
    refl,
    refl,
    refl,
    (refl, refl, refl, refl, refl, refl),
    (refl, refl, refl, refl, refl, refl),
  );
  distinct = (refl, (refl, (refl, tt)));
  sorted = (λ q m. ground (arith, m), (λ q m. ground (arith, m), (λ q m. ground (arith, m), tt)));
  heap = (refl, refl, (tt, tt, tt, tt), (tt, tt, tt, tt));
}

treap_rotate_example :
    let x' = treap_rotate 1 left three in
    RepContext x'.heads x'.root 0 left 2 top
    × Rep x'.heads 0 left 2 (node_on left 2 leaf (node_on left 1 leaf (node 3 leaf leaf)))
treap_rotate_example =
    treap_rotate-Rep three left left 1 2 0 leaf leaf (node 3 leaf leaf) top (refl, refl, refl)
      three-IsTreap.rep three-IsTreap.distinct

treap_insert_example :
    Yields
      (treap_insert 3 4 (40 ∷ 7 ∷ []) three)
      (λ out. IsInserted three three_tree 4 40 out.0 × (out.1 ≡ 7 ∷ []))
treap_insert_example =
    treap_insert-IsInserted 3 three three_tree 4 40 (7 ∷ []) three-IsTreap refl refl
      (refl, refl, refl, refl, refl) refl (omega arith)

treap_remove_example : Yields (treap_remove 3 1 three) (IsRemoved three three_tree 1)
treap_remove_example =
    treap_remove-IsRemoved 3 1 three three_tree three-IsTreap refl refl (omega arith)

-- Only the left child was turned up, so a node is now below one with a lower priority.
abbrev seen : Treap → List ℕ
seen t = t.root ∷ (t.heads 2).priority ∷ (t.heads 2).right_child ∷ (t.heads 3).priority ∷ []

three_removed : (do t' ← treap_remove 3 1 three; ok (seen t')) ≡ ok (2 ∷ 5 ∷ 3 ∷ 20 ∷ [])
unfolding treap_remove
three_removed = refl

-- A priority of which only the top bit is drawn is 0, and the node cannot be removed again.
unset_priority : (do out ← treap_insert 3 4 (2 ^ 31 ∷ []) three; treap_remove 4 4 (out.0)) ≡ panic
unfolding treap_insert treap_remove
unset_priority = refl
