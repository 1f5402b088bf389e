-- ===== src/Crypto/Blake2b.antt =====
-- src/kernel/crypto/subtle/rfc7693.c: the BLAKE2b hash function. An array is a list of its words.
pub mod Rfc
pub mod Message
pub mod Loop
pub mod Reference
pub mod Tests
use ukoos.Prelude.{
  ℕ, zero, suc, ◌+◌, ◌-◌, ◌*◌, ◌/◌, ◌%◌, ◌^◌, Bool, true, false, ltb, leb, ◌==◌, ◌&&◌,
  if◌then◌else◌, List, [], ◌∷◌, ◌++◌, bit_xor, min, length, set, take, drop, replicate, get_or, Run,
  ok, out_of_fuel, ◌>>=◌, ◌>>◌, assert,
}
use ukoos.Crypto.Words.{add_word, rotate_right, at}
use ukoos.Crypto.Bytes.{xor_all}
use ukoos.Crypto.Blake2s.{blake2_sigma}

abbrev pub blake2b_iv : List ℕ
blake2b_iv =
    0x6a09e667f3bcc908 ∷ 0xbb67ae8584caa73b ∷ 0x3c6ef372fe94f82b ∷ 0xa54ff53a5f1d36f1
    ∷ 0x510e527fade682d1 ∷ 0x9b05688c2b3e6c1f ∷ 0x1f83d9abfb41bd6b ∷ 0x5be0cd19137e2179 ∷ []

-- The value of eight bytes in little-endian order.
abbrev pub word_of_list : List ℕ → ℕ
word_of_list [] = 0
word_of_list (b ∷ bs) = b + word_of_list bs * 2 ^ 8

-- `memcpy` into an array of `u64`, and `little_to_native`.
unfoldable pub words_of_bytes_64 : List ℕ → List ℕ
words_of_bytes_64 (a ∷ b ∷ c ∷ d ∷ e ∷ f ∷ g ∷ h ∷ rest) =
    word_of_list (a ∷ b ∷ c ∷ d ∷ e ∷ f ∷ g ∷ h ∷ []) ∷ words_of_bytes_64 rest
words_of_bytes_64 _ = []

abbrev pub bytes_of_word_64 : ℕ → ℕ → List ℕ
bytes_of_word_64 zero w = []
bytes_of_word_64 (suc n) w = w % 2 ^ 8 ∷ bytes_of_word_64 n (w / 2 ^ 8)

-- `native_to_little`, and `memcpy` out of an array of `u64`.
unfoldable pub bytes_of_words_64 : List ℕ → List ℕ
bytes_of_words_64 [] = []
bytes_of_words_64 (w ∷ ws) = bytes_of_word_64 8 w ++ bytes_of_words_64 ws

-- `words[i] += words[j] + x`, and `words[i] = stdc_rotate_right(words[i] ^ words[j], k)`.
abbrev pub add_to : List ℕ → ℕ → ℕ → ℕ → List ℕ
add_to words i j x = set words i (add_word 64 (at words i) (add_word 64 (at words j) x))

abbrev pub mix_to : List ℕ → ℕ → ℕ → ℕ → List ℕ
mix_to words i j k = set words i (rotate_right 64 (bit_xor (at words i) (at words j)) k)

unfoldable pub blake2b_mix_quarter_round : List ℕ → ℕ → ℕ → ℕ → ℕ → ℕ → ℕ → List ℕ
blake2b_mix_quarter_round words a b c d x y =
    let w₁ = add_to words a b x in
    let w₂ = mix_to w₁ d a 32 in
    let w₃ = add_to w₂ c d 0 in
    let w₄ = mix_to w₃ b c 24 in
    let w₅ = add_to w₄ a b y in
    let w₆ = mix_to w₅ d a 16 in let w₇ = add_to w₆ c d 0 in mix_to w₇ b c 63

unfoldable pub blake2b_mix_double_round : List ℕ → List ℕ → ℕ → List ℕ
unfolding blake2b_mix_quarter_round
blake2b_mix_double_round words chunk i =
    let s = get_or blake2_sigma i [] in
    let word = λ (k : ℕ). at chunk (at s k) in
    let w₁ = blake2b_mix_quarter_round words 0 4 8 12 (word 0) (word 1) in
    let w₂ = blake2b_mix_quarter_round w₁ 1 5 9 13 (word 2) (word 3) in
    let w₃ = blake2b_mix_quarter_round w₂ 2 6 10 14 (word 4) (word 5) in
    let w₄ = blake2b_mix_quarter_round w₃ 3 7 11 15 (word 6) (word 7) in
    let w₅ = blake2b_mix_quarter_round w₄ 0 5 10 15 (word 8) (word 9) in
    let w₆ = blake2b_mix_quarter_round w₅ 1 6 11 12 (word 10) (word 11) in
    let w₇ = blake2b_mix_quarter_round w₆ 2 7 8 13 (word 12) (word 13) in
    blake2b_mix_quarter_round w₇ 3 4 9 14 (word 14) (word 15)

-- The rounds from `i` on, as many as are left.
unfoldable pub double_rounds : ℕ → ℕ → List ℕ → List ℕ → List ℕ
double_rounds zero i words chunk = words
double_rounds (suc left) i words chunk =
    double_rounds left (i + 1) (blake2b_mix_double_round words chunk i) chunk

unfoldable pub blake2b_compress : List ℕ → List ℕ → ℕ → ℕ → Bool → List ℕ
unfolding blake2b_mix_double_round double_rounds xor_all
blake2b_compress state chunk byte_count_lo byte_count_hi final =
    let words = state ++ blake2b_iv in
    let w₁ = set words 12 (bit_xor (at words 12) byte_count_lo) in
    let w₂ = set w₁ 13 (bit_xor (at w₁ 13) byte_count_hi) in
    let w₃ = if final then set w₂ 14 (2 ^ 64 - 1 - at w₂ 14) else w₂ in
    let w₄ = double_rounds 12 0 w₃ chunk in xor_all (xor_all state (take 8 w₄)) (drop 8 w₄)

-- `bzero(chunk, 128)` and `memcpy(chunk, data, n)`, as words.
unfoldable pub chunk_of : List ℕ → List ℕ
unfolding words_of_bytes_64
chunk_of bytes = words_of_bytes_64 (bytes ++ replicate (128 - length bytes) 0)

-- `if (ckd_add(&lo, lo, n)) hi++`.
unfoldable pub carry_count : ℕ → ℕ → ℕ → ℕ × ℕ
carry_count lo hi n = ((lo + n) % 2 ^ 64, if ltb (lo + n) (2 ^ 64) then hi else (hi + 1) % 2 ^ 64)

-- `while (data_len > 0)`, on fuel. A turn takes at least one byte of the data.
unfoldable pub hash_loop : ℕ → List ℕ → ℕ → ℕ → List ℕ → Run (List ℕ)
unfolding blake2b_compress chunk_of carry_count
hash_loop fuel state lo hi [] = ok state
hash_loop zero state lo hi (b ∷ bs) = out_of_fuel
hash_loop (suc fuel) state lo hi (b ∷ bs) =
    let data_len = length (b ∷ bs) in
    let chunk_len = min data_len 128 in
    let counts = carry_count lo hi chunk_len in
    let state' =
      blake2b_compress state (chunk_of (take chunk_len (b ∷ bs))) counts.0 counts.1
        (data_len == chunk_len) in
    hash_loop fuel state' counts.0 counts.1 (drop chunk_len (b ∷ bs))

-- `key` and `bytes` are as long as `key_len` and `data_len` say.
unfoldable pub blake2b_hash : ℕ → List ℕ → List ℕ → Run (List ℕ)
blake2b_hash hash_len key bytes = do
  assert (leb 1 hash_len && leb hash_len 64)
  assert (leb 0 (length key) && leb (length key) 64)
  assert (leb 0 (length bytes) && leb (length bytes) (2 ^ 64 - 1))
  let first = bit_xor (at blake2b_iv 0) (bit_xor (bit_xor 0x01010000 (length key * 2 ^ 8)) hash_len)
  let state₀ = set blake2b_iv 0 first
  let keyed = ltb 0 (length key)
  let counts : ℕ × ℕ = if keyed then carry_count 0 0 128 else (0, 0)
  let state₁ =
      if keyed
      then blake2b_compress state₀ (chunk_of (take (min (length key) 128) key)) counts.0 counts.1
          (length bytes == 0)
      else state₀
  let nothing = length key == 0 && length bytes == 0
  let state₂ = if nothing then blake2b_compress state₁ (chunk_of []) 0 0 true else state₁
  state₃ ← hash_loop (length bytes) state₂ counts.0 counts.1 bytes
  ok (take hash_len (bytes_of_words_64 state₃))
