-- ===== src/Fnv1a.antt =====
-- src/kernel/include/crypto/subtle/fnv1a.h: the FNV-1a hash of bytes, 64 bits wide.
pub mod Tests
use ukoos.Prelude.{ℕ, ◌*◌, ◌%◌, ◌^◌, ◌≡◌, refl, List, [], ◌∷◌, ◌++◌, bit_xor}

pub record Fnv1aHasher : Type 0 where
  pub hash : ℕ

abbrev pub fnv1a_offset_basis : ℕ
fnv1a_offset_basis = 0xcbf29ce484222325

abbrev pub fnv1a_prime : ℕ
fnv1a_prime = 0x00000100000001b3

unfoldable pub fnv1a_hash_bytes : Fnv1aHasher → List ℕ → Fnv1aHasher
fnv1a_hash_bytes hasher [] = hasher
fnv1a_hash_bytes hasher (byte ∷ bytes) =
    fnv1a_hash_bytes (record { hash = bit_xor hasher.hash byte * fnv1a_prime % 2 ^ 64 }) bytes

-- Hashing two pieces one after the other is hashing both at once.
pub fnv1a_hash_bytes-append :
    (hasher : Fnv1aHasher) (xs ys : List ℕ)
    → fnv1a_hash_bytes (fnv1a_hash_bytes hasher xs) ys ≡ fnv1a_hash_bytes hasher (xs ++ ys)
unfolding fnv1a_hash_bytes
fnv1a_hash_bytes-append hasher [] ys = refl
fnv1a_hash_bytes-append hasher (x ∷ xs) ys =
    fnv1a_hash_bytes-append (record { hash = bit_xor hasher.hash x * fnv1a_prime % 2 ^ 64 }) xs ys
