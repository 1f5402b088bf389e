-- ===== src/Align/Tests.antt =====
-- The theorems about include/align.h at concrete addresses.
use ukoos.Prelude.{◌+◌, ◌%◌, ◌^◌, ◌≤◌, ◌<◌, ◌≡◌, ◌↔◌, true, arith}
use ukoos.Align.{align_up, is_aligned}
use ukoos.Align.Bounds.{align_up-bounds, is_aligned_iff}

align_up-bounds_example :
    (0x80001234 ≤ align_up 0x80001234 12)
    × (align_up 0x80001234 12 < 0x80001234 + 2 ^ 12)
    × (align_up 0x80001234 12 % 2 ^ 12 ≡ 0)
align_up-bounds_example = align_up-bounds 0x80001234 12 (omega arith) (omega arith)

is_aligned_iff_example : (is_aligned 0x80001000 12 ≡ true) ↔ (0x80001000 % 2 ^ 12 ≡ 0)
is_aligned_iff_example = is_aligned_iff 0x80001000 12 (omega arith) (omega arith)
