-- ===== src/Crypto/Chacha20.antt =====
-- src/kernel/crypto/subtle/rfc7539.c: the ChaCha20 block function, key stream and cipher.
pub mod Block
pub mod Stream
pub mod Tests
use ukoos.Prelude.{
  ℕ, zero, suc, ◌+◌, ◌-◌, ◌%◌, ◌^◌, List, [], ◌∷◌, ◌++◌, bit_xor, ◌==◌, if◌then◌else◌, min, length,
  set, take, drop, replicate, Run, ok, out_of_fuel, ◌>>=◌,
}
use ukoos.Crypto.Words.{add_word, rotate_left, at}
use ukoos.Crypto.Bytes.{words_of_bytes, bytes_of_words, xor_all}

-- `words[i] += words[j]`, and `words[i] = stdc_rotate_left(words[i] ^ words[j], k)`.
abbrev add_to : List ℕ → ℕ → ℕ → List ℕ
add_to words i j = set words i (add_word 32 (at words i) (at words j))

abbrev mix_to : List ℕ → ℕ → ℕ → ℕ → List ℕ
mix_to words i j k = set words i (rotate_left 32 (bit_xor (at words i) (at words j)) k)

unfoldable pub chacha20_quarter_round : List ℕ → ℕ → ℕ → ℕ → ℕ → List ℕ
chacha20_quarter_round words a b c d =
    let w₁ = add_to words a b in
    let w₂ = mix_to w₁ d a 16 in
    let w₃ = add_to w₂ c d in
    let w₄ = mix_to w₃ b c 12 in
    let w₅ = add_to w₄ a b in let w₆ = mix_to w₅ d a 8 in let w₇ = add_to w₆ c d in mix_to w₇ b c 7

unfoldable pub chacha20_double_round : List ℕ → List ℕ
unfolding chacha20_quarter_round
chacha20_double_round s =
    let s₁ = chacha20_quarter_round s 0 4 8 12 in
    let s₂ = chacha20_quarter_round s₁ 1 5 9 13 in
    let s₃ = chacha20_quarter_round s₂ 2 6 10 14 in
    let s₄ = chacha20_quarter_round s₃ 3 7 11 15 in
    let s₅ = chacha20_quarter_round s₄ 0 5 10 15 in
    let s₆ = chacha20_quarter_round s₅ 1 6 11 12 in
    let s₇ = chacha20_quarter_round s₆ 2 7 8 13 in chacha20_quarter_round s₇ 3 4 9 14

-- The union is its sixteen words: four constants, the eight words of the key, the block count
-- and the nonce.
unfoldable pub chacha20_state_init : List ℕ → ℕ → List ℕ → List ℕ
chacha20_state_init key block_count nonce =
    0x61707865 ∷ 0x3320646e ∷ 0x79622d32 ∷ 0x6b206574 ∷ words_of_bytes key ++ (block_count ∷ nonce)

-- The rounds of the loop that are left.
double_rounds : ℕ → List ℕ → List ℕ
double_rounds zero s = s
double_rounds (suc n) s = double_rounds n (chacha20_double_round s)

-- `state->words[i] += working_state.words[i]` at every index.
add_all : List ℕ → List ℕ → List ℕ
add_all (x ∷ xs) (y ∷ ys) = add_word 32 x y ∷ add_all xs ys
add_all _ _ = []

unfoldable pub chacha20_block : List ℕ → List ℕ
unfolding chacha20_double_round double_rounds add_all
chacha20_block state = add_all state (double_rounds 10 state)

-- `block_count++` on a `u32`.
abbrev pub next_block : ℕ → ℕ
next_block n = (n + 1) % 2 ^ 32

module _ (key nonce : List ℕ) where
  -- The bytes that one round of either loop draws.
  unfoldable pub block_bytes : ℕ → List ℕ
  block_bytes block_count =
      bytes_of_words (chacha20_block (chacha20_state_init key block_count nonce))

  -- `while (len)`: the bytes written, on fuel. A round takes at least one byte of `len`.
  unfoldable pub keystream_loop : ℕ → ℕ → ℕ → Run (List ℕ)
  keystream_loop zero block_count len = if len == 0 then ok [] else out_of_fuel
  keystream_loop (suc fuel) block_count len =
      let chunk_len = min len 64 in
      let rest = keystream_loop fuel (next_block block_count) (len - chunk_len) in
      if len == 0
      then ok []
      else rest >>= λ bytes. ok (take chunk_len (block_bytes block_count) ++ bytes)

  -- What a round makes of the next `chunk_len` bytes: they are copied into zeroed words, the words
  -- are mixed with the block, and as many bytes are copied back.
  unfoldable pub encrypt_chunk : ℕ → List ℕ → List ℕ
  encrypt_chunk block_count text =
      let chunk = words_of_bytes (text ++ replicate (64 - length text) 0) in
      let state = chacha20_block (chacha20_state_init key block_count nonce) in
      take (length text) (bytes_of_words (xor_all chunk state))

  unfoldable pub encrypt_loop : ℕ → ℕ → List ℕ → Run (List ℕ)
  encrypt_loop zero block_count text = if length text == 0 then ok [] else out_of_fuel
  encrypt_loop (suc fuel) block_count text =
      let chunk_len = min (length text) 64 in
      let rest = encrypt_loop fuel (next_block block_count) (drop chunk_len text) in
      if length text == 0
      then ok []
      else rest >>= λ bytes. ok (encrypt_chunk block_count (take chunk_len text) ++ bytes)

unfoldable pub chacha20_keystream : List ℕ → ℕ → List ℕ → ℕ → Run (List ℕ)
unfolding keystream_loop block_bytes
chacha20_keystream key block_count nonce len = keystream_loop key nonce len block_count len

unfoldable pub chacha20_encrypt : List ℕ → ℕ → List ℕ → List ℕ → Run (List ℕ)
unfolding encrypt_loop encrypt_chunk
chacha20_encrypt key block_count nonce text = encrypt_loop key nonce (length text) block_count text
