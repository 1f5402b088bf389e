-- ===== src/Align.antt =====
-- src/kernel/include/align.h and include/physical.h: alignment of addresses, and physical addresses.
-- An address is a number below `2 ^ 64`; a `paddr` is the number that its bits stand for.
pub mod Bounds
pub mod Tests
use ukoos.Prelude.{
  ℕ, ◌+◌, ◌-◌, ◌%◌, ◌^◌, bit_and, Bool, ◌&&◌, ltb, leb, ◌==◌, Run, ok, ◌>>=◌, ◌>>◌, assert,
}

-- `~x` on a 64-bit word.
abbrev pub complement : ℕ → ℕ
complement x = 2 ^ 64 - 1 - x

-- `bits` is below 64 wherever these are called, as the shift in C needs.
unfoldable pub align_down : ℕ → ℕ → ℕ
align_down addr bits = let low_mask = 2 ^ bits - 1 in bit_and addr (complement low_mask)

unfoldable pub align_up : ℕ → ℕ → ℕ
align_up addr bits = align_down ((addr + (2 ^ bits - 1)) % 2 ^ 64) bits

unfoldable pub is_aligned : ℕ → ℕ → Bool
is_aligned addr bits = align_down addr bits == addr

-- The eight reserved bits at the top of a `paddr` must be clear.
unfoldable pub paddr_of_bits : ℕ → Run ℕ
paddr_of_bits bits = do assert (ltb bits (2 ^ 56)); ok bits

unfoldable pub bits_of_paddr : ℕ → Run ℕ
bits_of_paddr addr = do assert (ltb addr (2 ^ 56)); ok addr

unfoldable pub paddr_diff : ℕ → ℕ → Run ℕ
unfolding bits_of_paddr
paddr_diff end start = do
  e ← bits_of_paddr end
  s ← bits_of_paddr start
  ok ((e + 2 ^ 64 - s) % 2 ^ 64)

-- `&&` does not look at its right side where the left is false.
unfoldable pub paddr_in_range : ℕ → ℕ → ℕ → Run Bool
unfolding bits_of_paddr
paddr_in_range addr lo hi = do
  l ← bits_of_paddr lo
  a ← bits_of_paddr addr
  elim (leb l a) [
    | Bool.false ↦ ok Bool.false
    | Bool.true ↦ (do a' ← bits_of_paddr addr; h ← bits_of_paddr hi; ok (ltb a' h))
  ]

unfoldable pub paddr_offset : ℕ → ℕ → Run ℕ
unfolding bits_of_paddr paddr_of_bits
paddr_offset addr offset = do
  a ← bits_of_paddr addr
  assert (ltb (a + offset) (2 ^ 64))
  paddr_of_bits (a + offset)

unfoldable pub align_down_paddr : ℕ → ℕ → Run ℕ
unfolding bits_of_paddr paddr_of_bits align_down
align_down_paddr addr bits = do a ← bits_of_paddr addr; paddr_of_bits (align_down a bits)

unfoldable pub align_up_paddr : ℕ → ℕ → Run ℕ
unfolding paddr_offset align_down_paddr
align_up_paddr addr bits = do a ← paddr_offset addr (2 ^ bits - 1); align_down_paddr a bits

unfoldable pub is_aligned_paddr : ℕ → ℕ → Run Bool
unfolding align_down_paddr bits_of_paddr
is_aligned_paddr addr bits = do
  down ← align_down_paddr addr bits
  d ← bits_of_paddr down
  a ← bits_of_paddr addr
  ok (d == a)
