-- ===== src/Crypto/Blake2b/Tests.antt =====
-- BLAKE2b on the vector of RFC 7693.
use ukoos.Prelude.{◌≡◌, refl, arith, ok, [], ◌∷◌, replicate}
use ukoos.Crypto.Blake2b.Message.{reference}
use ukoos.Crypto.Blake2b.Reference.{blake2b_hash-reference}
use ukoos.Crypto.Blake2b.{blake2b_hash, hash_loop, bytes_of_words_64, carry_count}

-- Appendix A: the digest of "abc".
blake2b_abc :
    blake2b_hash 64 [] (0x61 ∷ 0x62 ∷ 0x63 ∷ [])
    ≡ ok (
        0xba ∷ 0x80 ∷ 0xa5 ∷ 0x3f ∷ 0x98 ∷ 0x1c ∷ 0x4d ∷ 0x0d ∷ 0x6a ∷ 0x27 ∷ 0x97 ∷ 0xb6 ∷ 0x9f
        ∷ 0x12 ∷ 0xf6 ∷ 0xe9 ∷ 0x4c ∷ 0x21 ∷ 0x2f ∷ 0x14 ∷ 0x68 ∷ 0x5a ∷ 0xc4 ∷ 0xb7 ∷ 0x4b ∷ 0x12
        ∷ 0xbb ∷ 0x6f ∷ 0xdb ∷ 0xff ∷ 0xa2 ∷ 0xd1 ∷ 0x7d ∷ 0x87 ∷ 0xc5 ∷ 0x39 ∷ 0x2a ∷ 0xab ∷ 0x79
        ∷ 0x2d ∷ 0xc2 ∷ 0x52 ∷ 0xd5 ∷ 0xde ∷ 0x45 ∷ 0x33 ∷ 0xcc ∷ 0x95 ∷ 0x18 ∷ 0xd3 ∷ 0x8a ∷ 0xa8
        ∷ 0xdb ∷ 0xf1 ∷ 0x92 ∷ 0x5a ∷ 0xb9 ∷ 0x23 ∷ 0x86 ∷ 0xed ∷ 0xd4 ∷ 0x00 ∷ 0x99 ∷ 0x23 ∷ [])
unfolding blake2b_hash hash_loop bytes_of_words_64 carry_count
blake2b_abc = refl

reference_abc : reference 64 [] (0x61 ∷ 0x62 ∷ 0x63 ∷ []) ≡ (
    0xba ∷ 0x80 ∷ 0xa5 ∷ 0x3f ∷ 0x98 ∷ 0x1c ∷ 0x4d ∷ 0x0d ∷ 0x6a ∷ 0x27 ∷ 0x97 ∷ 0xb6 ∷ 0x9f ∷ 0x12
    ∷ 0xf6 ∷ 0xe9 ∷ 0x4c ∷ 0x21 ∷ 0x2f ∷ 0x14 ∷ 0x68 ∷ 0x5a ∷ 0xc4 ∷ 0xb7 ∷ 0x4b ∷ 0x12 ∷ 0xbb
    ∷ 0x6f ∷ 0xdb ∷ 0xff ∷ 0xa2 ∷ 0xd1 ∷ 0x7d ∷ 0x87 ∷ 0xc5 ∷ 0x39 ∷ 0x2a ∷ 0xab ∷ 0x79 ∷ 0x2d
    ∷ 0xc2 ∷ 0x52 ∷ 0xd5 ∷ 0xde ∷ 0x45 ∷ 0x33 ∷ 0xcc ∷ 0x95 ∷ 0x18 ∷ 0xd3 ∷ 0x8a ∷ 0xa8 ∷ 0xdb
    ∷ 0xf1 ∷ 0x92 ∷ 0x5a ∷ 0xb9 ∷ 0x23 ∷ 0x86 ∷ 0xed ∷ 0xd4 ∷ 0x00 ∷ 0x99 ∷ 0x23 ∷ [])
unfolding reference
reference_abc = refl

blake2b_hash-reference_example :
    blake2b_hash 20 (1 ∷ 2 ∷ 3 ∷ []) (replicate 200 7)
    ≡ ok (reference 20 (1 ∷ 2 ∷ 3 ∷ []) (replicate 200 7))
blake2b_hash-reference_example =
    blake2b_hash-reference 20 (1 ∷ 2 ∷ 3 ∷ []) (replicate 200 7)
      (omega arith, omega arith, omega arith, omega arith)
