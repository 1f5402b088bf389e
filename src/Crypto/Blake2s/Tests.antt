-- ===== src/Crypto/Blake2s/Tests.antt =====
-- BLAKE2s on the vectors of RFC 7693.
use ukoos.Prelude.{◌≡◌, ◌++◌, refl, arith, ok, ◌>>=◌, [], ◌∷◌, replicate, Yields}
use ukoos.Crypto.Bytes.{words_of_bytes, bytes_of_words}
use ukoos.Crypto.Blake2s.{
  Blake2sHasher, blake2s_compress, add_to_count, blake2s_hash, blake2s_update, blake2s_iv,
}
use ukoos.Crypto.Blake2s.Stream.{blake2s_update-append}
use ukoos.Crypto.Blake2s.Count.{Counted, blake2s_update-Counted}

abbrev stale : Blake2sHasher
stale = record {
  buffer = replicate 64 0xa5;
  hash_state = [];
  byte_count_lo = 7;
  byte_count_hi = 7;
  buffer_len = 9;
  hash_len = 1;
}

-- Appendix B: the digest of "abc".
blake2s_abc :
    blake2s_hash stale 32 [] (0x61 ∷ 0x62 ∷ 0x63 ∷ [])
    ≡ ok (
        0x50 ∷ 0x8c ∷ 0x5e ∷ 0x8c ∷ 0x32 ∷ 0x7c ∷ 0x14 ∷ 0xe2 ∷ 0xe1 ∷ 0xa7 ∷ 0x2b ∷ 0xa3 ∷ 0x4e
        ∷ 0xeb ∷ 0x45 ∷ 0x2f ∷ 0x37 ∷ 0x45 ∷ 0x8b ∷ 0x20 ∷ 0x9e ∷ 0xd6 ∷ 0x3a ∷ 0x29 ∷ 0x4d ∷ 0x99
        ∷ 0x9b ∷ 0x4c ∷ 0x86 ∷ 0x67 ∷ 0x59 ∷ 0x82 ∷ [])
unfolding blake2s_hash blake2s_compress add_to_count words_of_bytes bytes_of_words
blake2s_abc = refl

abbrev started : Blake2sHasher
started = record {
  buffer = replicate 64 0;
  hash_state = blake2s_iv;
  byte_count_lo = 0;
  byte_count_hi = 0;
  buffer_len = 0;
  hash_len = 32;
}

blake2s_update-append_example :
    (blake2s_update started (replicate 70 1) >>= λ h. blake2s_update h (replicate 60 2))
    ≡ blake2s_update started (replicate 70 1 ++ replicate 60 2)
blake2s_update-append_example =
    blake2s_update-append started (replicate 70 1) (replicate 60 2) (omega arith)

blake2s_update-Counted_example :
    Yields (blake2s_update started (replicate 70 1)) (Counted started 70)
blake2s_update-Counted_example =
    blake2s_update-Counted started (replicate 70 1) (omega arith) (omega arith)
