-- ===== src/Treap.antt =====
-- The treaps of src/kernel/mm/virtual_alloc.c. A node is the address of its `struct vma`, and
-- `nullptr` is 0. A treap has the `struct treap_head` of every address, and its root: the fields
-- `treaps[which]` and `roots[which]` for one `which`, the only ones that these functions touch.
pub mod Shape
pub mod Rotate
pub mod Around
pub mod Turn
pub mod Order
pub mod Climb
pub mod Descend
pub mod Invariant
pub mod Link
pub mod Insert
pub mod Sink
pub mod Links
pub mod Remove
pub mod Tests
use ukoos.Prelude.{
  ℕ, zero, suc, ◌%◌, ◌^◌, Bool, true, false, ◌&&◌, leb, ◌==◌, if◌then◌else◌, List, [], ◌∷◌, Run, ok,
  out_of_fuel, ◌>>=◌, ◌>>◌, assert,
}

abbrev pub Ptr : Type 0
Ptr = ℕ

-- `enum which_child`.
pub data Side : Type 0 where
  left : Side
  right : Side

-- `!which_child`.
abbrev pub flip : Side → Side
flip left = right
flip right = left

abbrev pub is_left : Side → Bool
is_left left = true
is_left right = false

pub record TreapHead : Type 0 where
  pub value : ℕ
  pub which_child : Side
  pub priority : ℕ
  pub parent : Ptr
  pub left_child : Ptr
  pub right_child : Ptr

-- `children[side]`.
abbrev pub child : Side → TreapHead → Ptr
child left h = h.left_child
child right h = h.right_child

abbrev pub with_child : Side → Ptr → TreapHead → TreapHead
with_child left p h = record h { left_child = p }
with_child right p h = record h { right_child = p }

abbrev pub with_parent : Ptr → Side → TreapHead → TreapHead
with_parent p side h = record h { parent = p; which_child = side }

abbrev pub Heads : Type 0
Heads = Ptr → TreapHead

pub record Treap : Type 0 where
  pub heads : Heads
  pub root : Ptr

unfoldable pub update : Ptr → (TreapHead → TreapHead) → Heads → Heads
update p f h a = if a == p then f (h a) else h a

unfoldable pub treap_init : Ptr → ℕ → Heads → Heads
unfolding update
treap_init p value = update p (λ h. record {
  value = value;
  which_child = left;
  priority = 0;
  parent = 0;
  left_child = 0;
  right_child = 0;
})

-- The writes to the heads in `treap_rotate`, in their order.
unfoldable pub rotate_heads : Ptr → Side → Heads → Heads
unfolding update
rotate_heads vma side h =
    let b_d = child side (h vma) in
    let p = (h vma).parent in
    let c = child (flip side) (h b_d) in
    let h₁ = update vma (with_child side c) h in
    let h₂ = if c == 0 then h₁ else update c (with_parent vma side) h₁ in
    let h₃ = update b_d (with_child (flip side) vma) h₂ in
    let h₄ = update b_d (with_parent p (h₃ vma).which_child) h₃ in
    let h₅ = update vma (with_parent b_d (flip side)) h₄ in
    if p == 0 then h₅ else update p (with_child (h₅ b_d).which_child b_d) h₅

unfoldable pub treap_rotate : Ptr → Side → Treap → Treap
unfolding rotate_heads
treap_rotate vma side t = record {
  heads = rotate_heads vma side t.heads;
  root = if (t.heads vma).parent == 0 then child side (t.heads vma) else t.root;
}

-- `do priority = random_u32(); while (!priority);`, on the numbers that are drawn.
unfoldable pub draw_priority : List ℕ → Run (ℕ × List ℕ)
draw_priority [] = out_of_fuel
draw_priority (n ∷ draws) = if n == 0 then draw_priority draws else ok (n, draws)

-- The loop that goes down to the place for a value: the parent and the side.
unfoldable pub find_place : ℕ → ℕ → Ptr → Heads → Run (Ptr × Side)
find_place zero value parent h = out_of_fuel
find_place (suc fuel) value parent h =
    let side : Side = if leb value (h parent).value then left else right in
    let rest = find_place fuel value (child side (h parent)) h in
    if child side (h parent) == 0 then ok (parent, side) else rest

-- The loop that goes up and restores the heap property.
unfoldable pub restore_heap : ℕ → Ptr → Ptr → Side → Treap → Run Treap
unfolding treap_rotate
restore_heap zero vma parent side t = out_of_fuel
restore_heap (suc fuel) vma parent side t =
    let t' = treap_rotate parent side t in
    let rest = restore_heap fuel vma (t'.heads vma).parent (t'.heads vma).which_child t' in
    if leb (t.heads vma).priority (t.heads parent).priority
    then ok t
    else if (t'.heads vma).parent == 0
    then ok t'
    else rest

-- A leaf is linked below a parent.
unfoldable pub link_leaf : Ptr → Ptr → Side → Treap → Treap
unfolding update
link_leaf vma parent side t = record t {
  heads = update vma (with_parent parent side) (update parent (with_child side vma) t.heads);
}

unfoldable pub treap_insert : ℕ → Ptr → List ℕ → Treap → Run (Treap × List ℕ)
unfolding draw_priority find_place restore_heap link_leaf
treap_insert fuel vma draws t = do
  let own = t.heads vma
  assert (
      is_left own.which_child
      && own.priority == 0
      && own.parent == 0
      && own.left_child == 0
      && own.right_child == 0)
  drawn ← draw_priority draws
  let with_priority =
      λ (h : TreapHead). record h { which_child = left; priority = drawn.0 % 2 ^ 31 }
  let t₁ : Treap = record t { heads = update vma with_priority t.heads }
  if t.root == 0 then ok (record t₁ { root = vma }, drawn.1) else (do
    place ← find_place fuel (t₁.heads vma).value t.root t₁.heads
    t' ← restore_heap fuel vma place.0 place.1 (link_leaf vma place.0 place.1 t₁)
    ok (t', drawn.1))

-- The rotations that bring a node down to a leaf.
unfoldable pub sink : ℕ → Ptr → Treap → Run Treap
unfolding treap_rotate
sink zero vma t = out_of_fuel
sink (suc fuel) vma t =
    let by_left = sink fuel vma (treap_rotate vma left t) in
    let by_right = sink fuel vma (treap_rotate vma right t) in
    if (t.heads vma).left_child == 0
    then (if (t.heads vma).right_child == 0 then ok t else by_right)
    else by_left

-- The leaf is taken off its parent, or off the root.
unfoldable pub unlink_leaf : Ptr → Treap → Run Treap
unfolding update
unlink_leaf vma t =
    let own = t.heads vma in
    if own.parent == 0 then (do assert (t.root == vma); ok (record t { root = 0 })) else (do
      assert (child own.which_child (t.heads own.parent) == vma)
      ok (record t { heads = update own.parent (with_child own.which_child 0) t.heads }))

unfoldable pub treap_remove : ℕ → Ptr → Treap → Run Treap
unfolding sink unlink_leaf treap_init
treap_remove fuel vma t = do
  assert (if (t.heads vma).priority == 0 then false else true)
  let t₁ : Treap = record t { heads = update vma (λ h. record h { priority = 0 }) t.heads }
  t₂ ← sink fuel vma t₁
  t₃ ← unlink_leaf vma t₂
  ok (record t₃ { heads = treap_init vma (t₃.heads vma).value t₃.heads })
