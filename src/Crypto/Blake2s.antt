-- ===== src/Crypto/Blake2s.antt =====
-- src/kernel/crypto/subtle/rfc7693.c: the BLAKE2s hash function and its streaming interface. An
-- array is a list of its words, `hash_state` and the rest of a hasher are the fields of a record.
pub mod Stream
pub mod Count
pub mod Tests
use ukoos.Prelude.{
  ℕ, zero, suc, ◌+◌, ◌-◌, ◌*◌, ◌%◌, ◌^◌, Bool, true, false, ltb, leb, ◌==◌, ◌&&◌, if◌then◌else◌,
  List, [], ◌∷◌, ◌++◌, bit_xor, min, length, set, take, drop, replicate, get_or, Run, ok,
  out_of_fuel, ◌>>=◌, ◌>>◌, assert,
}
use ukoos.Crypto.Words.{add_word, rotate_right, at}
use ukoos.Crypto.Bytes.{words_of_bytes, bytes_of_words, xor_all}

abbrev pub blake2_sigma : List (List ℕ)
blake2_sigma =
    (0 ∷ 1 ∷ 2 ∷ 3 ∷ 4 ∷ 5 ∷ 6 ∷ 7 ∷ 8 ∷ 9 ∷ 10 ∷ 11 ∷ 12 ∷ 13 ∷ 14 ∷ 15 ∷ [])
    ∷ (14 ∷ 10 ∷ 4 ∷ 8 ∷ 9 ∷ 15 ∷ 13 ∷ 6 ∷ 1 ∷ 12 ∷ 0 ∷ 2 ∷ 11 ∷ 7 ∷ 5 ∷ 3 ∷ [])
    ∷ (11 ∷ 8 ∷ 12 ∷ 0 ∷ 5 ∷ 2 ∷ 15 ∷ 13 ∷ 10 ∷ 14 ∷ 3 ∷ 6 ∷ 7 ∷ 1 ∷ 9 ∷ 4 ∷ [])
    ∷ (7 ∷ 9 ∷ 3 ∷ 1 ∷ 13 ∷ 12 ∷ 11 ∷ 14 ∷ 2 ∷ 6 ∷ 5 ∷ 10 ∷ 4 ∷ 0 ∷ 15 ∷ 8 ∷ [])
    ∷ (9 ∷ 0 ∷ 5 ∷ 7 ∷ 2 ∷ 4 ∷ 10 ∷ 15 ∷ 14 ∷ 1 ∷ 11 ∷ 12 ∷ 6 ∷ 8 ∷ 3 ∷ 13 ∷ [])
    ∷ (2 ∷ 12 ∷ 6 ∷ 10 ∷ 0 ∷ 11 ∷ 8 ∷ 3 ∷ 4 ∷ 13 ∷ 7 ∷ 5 ∷ 15 ∷ 14 ∷ 1 ∷ 9 ∷ [])
    ∷ (12 ∷ 5 ∷ 1 ∷ 15 ∷ 14 ∷ 13 ∷ 4 ∷ 10 ∷ 0 ∷ 7 ∷ 6 ∷ 3 ∷ 9 ∷ 2 ∷ 8 ∷ 11 ∷ [])
    ∷ (13 ∷ 11 ∷ 7 ∷ 14 ∷ 12 ∷ 1 ∷ 3 ∷ 9 ∷ 5 ∷ 0 ∷ 15 ∷ 4 ∷ 8 ∷ 6 ∷ 2 ∷ 10 ∷ [])
    ∷ (6 ∷ 15 ∷ 14 ∷ 9 ∷ 11 ∷ 3 ∷ 0 ∷ 8 ∷ 12 ∷ 2 ∷ 13 ∷ 7 ∷ 1 ∷ 4 ∷ 10 ∷ 5 ∷ [])
    ∷ (10 ∷ 2 ∷ 8 ∷ 4 ∷ 7 ∷ 6 ∷ 1 ∷ 5 ∷ 15 ∷ 11 ∷ 9 ∷ 14 ∷ 3 ∷ 12 ∷ 13 ∷ 0 ∷ [])
    ∷ (0 ∷ 1 ∷ 2 ∷ 3 ∷ 4 ∷ 5 ∷ 6 ∷ 7 ∷ 8 ∷ 9 ∷ 10 ∷ 11 ∷ 12 ∷ 13 ∷ 14 ∷ 15 ∷ [])
    ∷ (14 ∷ 10 ∷ 4 ∷ 8 ∷ 9 ∷ 15 ∷ 13 ∷ 6 ∷ 1 ∷ 12 ∷ 0 ∷ 2 ∷ 11 ∷ 7 ∷ 5 ∷ 3 ∷ [])
    ∷ []

abbrev pub blake2s_iv : List ℕ
blake2s_iv =
    0x6a09e667 ∷ 0xbb67ae85 ∷ 0x3c6ef372 ∷ 0xa54ff53a ∷ 0x510e527f ∷ 0x9b05688c ∷ 0x1f83d9ab
    ∷ 0x5be0cd19 ∷ []

-- `words[i] += words[j] + x`, and `words[i] = stdc_rotate_right(words[i] ^ words[j], k)`.
abbrev add_to : List ℕ → ℕ → ℕ → ℕ → List ℕ
add_to words i j x = set words i (add_word 32 (at words i) (add_word 32 (at words j) x))

abbrev mix_to : List ℕ → ℕ → ℕ → ℕ → List ℕ
mix_to words i j k = set words i (rotate_right 32 (bit_xor (at words i) (at words j)) k)

unfoldable pub blake2s_mix_quarter_round : List ℕ → ℕ → ℕ → ℕ → ℕ → ℕ → ℕ → List ℕ
blake2s_mix_quarter_round words a b c d x y =
    let w₁ = add_to words a b x in
    let w₂ = mix_to w₁ d a 16 in
    let w₃ = add_to w₂ c d 0 in
    let w₄ = mix_to w₃ b c 12 in
    let w₅ = add_to w₄ a b y in
    let w₆ = mix_to w₅ d a 8 in let w₇ = add_to w₆ c d 0 in mix_to w₇ b c 7

unfoldable pub blake2s_mix_double_round : List ℕ → List ℕ → ℕ → List ℕ
unfolding blake2s_mix_quarter_round
blake2s_mix_double_round words chunk i =
    let s = get_or blake2_sigma i [] in
    let word = λ (k : ℕ). at chunk (at s k) in
    let w₁ = blake2s_mix_quarter_round words 0 4 8 12 (word 0) (word 1) in
    let w₂ = blake2s_mix_quarter_round w₁ 1 5 9 13 (word 2) (word 3) in
    let w₃ = blake2s_mix_quarter_round w₂ 2 6 10 14 (word 4) (word 5) in
    let w₄ = blake2s_mix_quarter_round w₃ 3 7 11 15 (word 6) (word 7) in
    let w₅ = blake2s_mix_quarter_round w₄ 0 5 10 15 (word 8) (word 9) in
    let w₆ = blake2s_mix_quarter_round w₅ 1 6 11 12 (word 10) (word 11) in
    let w₇ = blake2s_mix_quarter_round w₆ 2 7 8 13 (word 12) (word 13) in
    blake2s_mix_quarter_round w₇ 3 4 9 14 (word 14) (word 15)

-- The rounds from `i` on, as many as are left.
unfoldable pub double_rounds : ℕ → ℕ → List ℕ → List ℕ → List ℕ
double_rounds zero i words chunk = words
double_rounds (suc left) i words chunk =
    double_rounds left (i + 1) (blake2s_mix_double_round words chunk i) chunk

unfoldable pub blake2s_compress : List ℕ → List ℕ → ℕ → ℕ → Bool → List ℕ
unfolding blake2s_mix_double_round double_rounds xor_all
blake2s_compress state chunk byte_count_lo byte_count_hi final =
    let words = state ++ blake2s_iv in
    let w₁ = set words 12 (bit_xor (at words 12) byte_count_lo) in
    let w₂ = set w₁ 13 (bit_xor (at w₁ 13) byte_count_hi) in
    let w₃ = if final then set w₂ 14 (2 ^ 32 - 1 - at w₂ 14) else w₂ in
    let w₄ = double_rounds 10 0 w₃ chunk in xor_all (xor_all state (take 8 w₄)) (drop 8 w₄)

pub record Blake2sHasher : Type 0 where
  pub buffer : List ℕ
  pub hash_state : List ℕ
  pub byte_count_lo : ℕ
  pub byte_count_hi : ℕ
  pub buffer_len : ℕ
  pub hash_len : ℕ

-- `if (ckd_add(&lo, lo, n)) assert(!ckd_add(&hi, hi, 1))` on two `u32`.
unfoldable pub add_to_count : ℕ → ℕ → ℕ → Run (ℕ × ℕ)
add_to_count lo hi n =
    if ltb (lo + n) (2 ^ 32)
    then ok (lo + n, hi)
    else (do assert (ltb (hi + 1) (2 ^ 32)); ok ((lo + n) % 2 ^ 32, hi + 1))

-- `memcpy(&buffer[i], data, n)`, byte by byte.
abbrev pub write_bytes : List ℕ → ℕ → List ℕ → List ℕ
write_bytes buffer i [] = buffer
write_bytes buffer i (b ∷ bs) = write_bytes (set buffer i b) (suc i) bs

-- The full buffer is compressed with the new count.
unfoldable pub compress_buffer : Blake2sHasher → ℕ × ℕ → Blake2sHasher
unfolding blake2s_compress words_of_bytes
compress_buffer h counts = record {
  buffer = h.buffer;
  hash_state = blake2s_compress h.hash_state (words_of_bytes h.buffer) counts.0 counts.1 false;
  byte_count_lo = counts.0;
  byte_count_hi = counts.1;
  buffer_len = 0;
  hash_len = h.hash_len;
}

-- What is done before bytes are added.
unfoldable pub make_room : Blake2sHasher → Run Blake2sHasher
unfolding add_to_count compress_buffer
make_room h =
    if h.buffer_len == 64
    then (do
      counts ← add_to_count h.byte_count_lo h.byte_count_hi 64
      ok (compress_buffer h counts))
    else ok h

-- The bytes are copied behind those that the buffer has. It has 64 at most, which a `u8` holds.
unfoldable pub fill : Blake2sHasher → List ℕ → Blake2sHasher
fill h bytes = record {
  buffer = write_bytes h.buffer h.buffer_len bytes;
  hash_state = h.hash_state;
  byte_count_lo = h.byte_count_lo;
  byte_count_hi = h.byte_count_hi;
  buffer_len = h.buffer_len + length bytes;
  hash_len = h.hash_len;
}

-- `while (data_len > 0)`, on fuel. A turn takes at least one byte of the data.
unfoldable pub update_loop : ℕ → Blake2sHasher → List ℕ → Run Blake2sHasher
unfolding make_room fill
update_loop fuel h [] = ok h
update_loop zero h (b ∷ bs) = out_of_fuel
update_loop (suc fuel) h (b ∷ bs) = do
  h' ← make_room h
  let chunk_len = min (length (b ∷ bs)) (64 - h'.buffer_len)
  update_loop fuel (fill h' (take chunk_len (b ∷ bs))) (drop chunk_len (b ∷ bs))

unfoldable pub blake2s_update : Blake2sHasher → List ℕ → Run Blake2sHasher
unfolding update_loop
blake2s_update h bytes = do assert (leb h.buffer_len 64); update_loop (length bytes) h bytes

-- The hasher is written over, except for its buffer. `key_len` is the length of `key`.
unfoldable pub blake2s_init : Blake2sHasher → ℕ → List ℕ → Run Blake2sHasher
blake2s_init h hash_len key = do
  assert (leb 1 hash_len && leb hash_len 32)
  assert (leb (length key) 32)
  let first = bit_xor (at blake2s_iv 0) (bit_xor (bit_xor 0x01010000 (length key * 2 ^ 8)) hash_len)
  let started : Blake2sHasher = record {
    buffer = h.buffer;
    hash_state = set blake2s_iv 0 first;
    byte_count_lo = 0;
    byte_count_hi = 0;
    buffer_len = 0;
    hash_len = hash_len;
  }
  if length key == 0 then ok started else (do
    keyed ← blake2s_update started (key ++ replicate (64 - length key) 0)
    assert (keyed.byte_count_lo == 0)
    assert (keyed.byte_count_hi == 0)
    assert (keyed.buffer_len == 64)
    ok keyed)

-- The bytes written to `out`. The hasher is not changed.
unfoldable pub blake2s_finish : Blake2sHasher → Run (List ℕ)
blake2s_finish h = do
  assert (leb h.buffer_len 64)
  let buffer = words_of_bytes (take h.buffer_len h.buffer ++ replicate (64 - h.buffer_len) 0)
  counts ← add_to_count h.byte_count_lo h.byte_count_hi h.buffer_len
  let state = blake2s_compress h.hash_state buffer counts.0 counts.1 true
  ok (take h.hash_len (bytes_of_words state))

-- `hasher` is what the variable on the stack had before it is initialised.
unfoldable pub blake2s_hash : Blake2sHasher → ℕ → List ℕ → List ℕ → Run (List ℕ)
unfolding blake2s_init blake2s_update blake2s_finish
blake2s_hash hasher hash_len key bytes = do
  h₁ ← blake2s_init hasher hash_len key
  h₂ ← blake2s_update h₁ bytes
  blake2s_finish h₂
