-- ===== src/SizeClasses.antt =====
-- src/kernel/mm/alloc/size_classes.h: the size classes of the memory allocator.
pub mod Fit
pub mod Tests
use ukoos.Prelude.{
  ℕ, zero, suc, ◌+◌, ◌-◌, ◌*◌, ◌/◌, ◌%◌, ◌^◌, Bool, not, ltb, leb, ◌==◌, if◌then◌else◌, Run, ok,
  ◌>>=◌, ◌>>◌, assert,
}

unfoldable pub size_is_small : ℕ → Bool
size_is_small size = leb size (8 * 1024)

unfoldable pub size_is_huge : ℕ → Bool
size_is_huge size = ltb (512 * 1024) size

unfoldable pub size_class_is_valid : ℕ → Bool
size_class_is_valid size_class = ltb size_class 17

unfoldable pub size_class_is_small : ℕ → Run Bool
unfolding size_class_is_valid
size_class_is_small size_class = do assert (size_class_is_valid size_class); ok (ltb size_class 11)

-- `stdc_bit_ceil` of the C library's <stdbit.h>: the least power of two from `2 ^ k` on that is not
-- below the number, among the next `left`.
abbrev pub bit_ceil_from : ℕ → ℕ → ℕ → ℕ
bit_ceil_from zero k size = 2 ^ k
bit_ceil_from (suc left) k size =
    if leb size (2 ^ k) then 2 ^ k else bit_ceil_from left (k + 1) size

abbrev pub bit_ceil : ℕ → ℕ
bit_ceil size = bit_ceil_from 63 0 size

-- `stdc_trailing_zeros` of <stdbit.h>, of a word of `left` bits.
abbrev pub trailing_zeros_of : ℕ → ℕ → ℕ
trailing_zeros_of zero x = 0
trailing_zeros_of (suc left) x = if x % 2 == 0 then suc (trailing_zeros_of left (x / 2)) else 0

abbrev pub trailing_zeros : ℕ → ℕ
trailing_zeros x = trailing_zeros_of 64 x

unfoldable pub size_class_of_size : ℕ → Run ℕ
unfolding size_is_huge size_class_is_valid
size_class_of_size size = do
  assert (not (size_is_huge size))
  if ltb size 8 then ok 0 else (do
    let log2_size = trailing_zeros (bit_ceil size)
    assert (leb 3 log2_size)
    let size_class = log2_size - 3
    assert (size_class_is_valid size_class)
    ok size_class)

unfoldable pub log2_size_of_size_class : ℕ → Run ℕ
unfolding size_class_is_valid
log2_size_of_size_class size_class = do assert (size_class_is_valid size_class); ok (3 + size_class)

unfoldable pub size_of_size_class : ℕ → Run ℕ
unfolding log2_size_of_size_class
size_of_size_class size_class = do
  log2_size ← log2_size_of_size_class size_class
  ok (2 ^ log2_size)
