-- ===== src/Crypto/Chacha20/Tests.antt =====
-- The vectors of RFC 7539 that rfc7539.c tests.
use ukoos.Prelude.{ℕ, ◌≡◌, refl, List, [], ◌∷◌, ok, ◌^◌, length, take, arith}
use ukoos.Crypto.Bytes.{words_of_bytes, xor_all}
use ukoos.Crypto.Words.{IsArray, AllBelow}
use ukoos.Crypto.Chacha20.Stream.{
  blocks, chacha20_keystream-blocks, chacha20_encrypt-keystream, chacha20_encrypt_twice,
}
use ukoos.Crypto.Chacha20.{
  chacha20_keystream, chacha20_quarter_round, chacha20_block, chacha20_state_init, chacha20_encrypt,
}

abbrev pub counting_key : List ℕ
counting_key =
    0 ∷ 1 ∷ 2 ∷ 3 ∷ 4 ∷ 5 ∷ 6 ∷ 7 ∷ 8 ∷ 9 ∷ 10 ∷ 11 ∷ 12 ∷ 13 ∷ 14 ∷ 15 ∷ 16 ∷ 17 ∷ 18 ∷ 19 ∷ 20
    ∷ 21 ∷ 22 ∷ 23 ∷ 24 ∷ 25 ∷ 26 ∷ 27 ∷ 28 ∷ 29 ∷ 30 ∷ 31 ∷ []

abbrev pub nonce_232 : List ℕ
nonce_232 = 0x09000000 ∷ 0x4a000000 ∷ 0 ∷ []

quarter_round_vector :
    chacha20_quarter_round (0x11111111 ∷ 0x01020304 ∷ 0x9b8d6f43 ∷ 0x01234567 ∷ []) 0 1 2 3
    ≡ (0xea2a92f4 ∷ 0xcb1cf8ce ∷ 0x4581472e ∷ 0x5881c4bb ∷ [])
unfolding chacha20_quarter_round
quarter_round_vector = refl

block_vector : chacha20_block (chacha20_state_init counting_key 1 nonce_232) ≡ (
    0xe4e7f110 ∷ 0x15593bd1 ∷ 0x1fdd0f50 ∷ 0xc47120a3 ∷ 0xc7f4d1c7 ∷ 0x0368c033 ∷ 0x9aaa2204
    ∷ 0x4e6cd4c3 ∷ 0x466482d2 ∷ 0x09aa9f07 ∷ 0x05d7c214 ∷ 0xa2028bd9 ∷ 0xd19c12b5 ∷ 0xb94e16de
    ∷ 0xe883d0cb ∷ 0x4e3c50a2 ∷ [])
unfolding chacha20_block chacha20_state_init words_of_bytes
block_vector = refl

counting_key-IsArray : IsArray 32 (2 ^ 8) counting_key
counting_key-IsArray = record { size = refl; below = omega arith }

nonce_232-IsArray : IsArray 3 (2 ^ 32) nonce_232
nonce_232-IsArray = record { size = refl; below = omega arith }

abbrev ladies : List ℕ
ladies = b'L' ∷ b'a' ∷ b'd' ∷ b'i' ∷ b'e' ∷ b's' ∷ []

chacha20_keystream-blocks_example :
    chacha20_keystream counting_key 1 nonce_232 100
    ≡ ok (take 100 (blocks counting_key nonce_232 2 1))
chacha20_keystream-blocks_example =
    chacha20_keystream-blocks counting_key nonce_232 1 100 2 counting_key-IsArray nonce_232-IsArray
      (omega arith) (omega arith)

chacha20_encrypt-keystream_example :
    (stream : List ℕ) × (chacha20_keystream counting_key 1 nonce_232 6 ≡ ok stream)
    × (length stream ≡ 6)
    × AllBelow (2 ^ 8) stream
    × (chacha20_encrypt counting_key 1 nonce_232 ladies ≡ ok (xor_all ladies stream))
chacha20_encrypt-keystream_example =
    chacha20_encrypt-keystream counting_key nonce_232 1 ladies counting_key-IsArray
      nonce_232-IsArray (omega arith) (omega arith)

chacha20_encrypt_twice_example :
    (cipher : List ℕ) × (chacha20_encrypt counting_key 1 nonce_232 ladies ≡ ok cipher)
    × (length cipher ≡ 6)
    × (chacha20_encrypt counting_key 1 nonce_232 cipher ≡ ok ladies)
chacha20_encrypt_twice_example =
    chacha20_encrypt_twice counting_key nonce_232 1 ladies counting_key-IsArray nonce_232-IsArray
      (omega arith) (omega arith)
