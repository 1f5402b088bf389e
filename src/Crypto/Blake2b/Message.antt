-- ===== src/Crypto/Blake2b/Message.antt =====
-- The message of BLAKE2b by section 3.3 of RFC 7693, and the code's words and bytes against it.
use ukoos.Prelude.{
  ℕ, zero, suc, ◌+◌, ◌-◌, ◌*◌, ◌/◌, ◌%◌, ◌^◌, ◌≤◌, ◌<◌, ◌≡◌, refl, ap, ap₂, ◌∙◌, arith, Bool, true,
  false, List, [], ◌∷◌, ◌++◌, bit_xor, length, length-append, length-replicate, set, take, drop,
  replicate,
}
use ukoos.Crypto.Words.{at}
use ukoos.Crypto.Blake2b.{words_of_bytes_64, bytes_of_words_64, chunk_of, blake2b_compress}
use ukoos.Crypto.Blake2b.Rfc.{iv, compression, compression-compress}

-- Section 2.4: the bytes of a word are in little-endian order.
abbrev pub le_value : List ℕ → ℕ
le_value [] = 0
le_value (b ∷ bs) = b + 256 * le_value bs

abbrev pub words_le : ℕ → List ℕ → List ℕ
words_le zero bs = []
words_le (suc n) bs = le_value (take 8 bs) ∷ words_le n (drop 8 bs)

abbrev pub bytes_le : List ℕ → List ℕ
bytes_le [] = []
bytes_le (w ∷ ws) =
    w % 2 ^ 8
    ∷ w / 2 ^ 8 % 2 ^ 8
    ∷ w / 2 ^ 16 % 2 ^ 8
    ∷ w / 2 ^ 24 % 2 ^ 8
    ∷ w / 2 ^ 32 % 2 ^ 8
    ∷ w / 2 ^ 40 % 2 ^ 8
    ∷ w / 2 ^ 48 % 2 ^ 8
    ∷ w / 2 ^ 56 % 2 ^ 8
    ∷ bytes_le ws

-- A block of sixteen words, with zeros behind the bytes.
unfoldable pub block_words : List ℕ → List ℕ
block_words x = words_le 16 (x ++ replicate (128 - length x) 0)

-- The blocks of the message, the last one with 1 to 128 bytes.
abbrev pub blocks : ℕ → List ℕ → List (List ℕ)
blocks fuel [] = []
blocks zero (b ∷ bs) = []
blocks (suc fuel) (b ∷ bs) = take 128 (b ∷ bs) ∷ blocks fuel (drop 128 (b ∷ bs))

-- The key block and the message blocks, and one empty block where there are none.
abbrev pub all_blocks : List ℕ → List ℕ → List (List ℕ)
all_blocks [] [] = [] ∷ []
all_blocks [] (b ∷ bs) = blocks (length (b ∷ bs)) (b ∷ bs)
all_blocks (k ∷ ks) bytes = (k ∷ ks) ∷ blocks (length bytes) bytes

abbrev pub key_size : List ℕ → ℕ
key_size [] = 0
key_size (k ∷ ks) = 128

abbrev pub first_state : ℕ → List ℕ → List ℕ
first_state hash_len key =
    set iv 0 (bit_xor (at iv 0) (bit_xor (bit_xor 0x01010000 (length key * 2 ^ 8)) hash_len))

-- Each block but the last is compressed with the bytes up to its end, `count` of them before it,
-- and the last with all of them, `total`, and the mark of the last block.
abbrev pub absorb : List ℕ → ℕ → ℕ → List (List ℕ) → List ℕ
absorb h count total [] = h
absorb h count total (x ∷ []) = compression h (block_words x) total true
absorb h count total (x ∷ (y ∷ rest)) =
    absorb (compression h (block_words x) (count + 128) false) (count + 128) total (y ∷ rest)

unfoldable pub reference : ℕ → List ℕ → List ℕ → List ℕ
unfolding compression block_words
reference hash_len key bytes = take hash_len (
    bytes_le
      (absorb (first_state hash_len key) 0 (key_size key + length bytes) (all_blocks key bytes)))

words_le-words_of_bytes :
    (n : ℕ) (bs : List ℕ) → length bs ≡ 8 * n → words_le n bs ≡ words_of_bytes_64 bs
unfolding words_of_bytes_64
words_le-words_of_bytes zero [] h = refl
words_le-words_of_bytes zero (a ∷ bs) h = absurd (omega arith)
words_le-words_of_bytes (suc n) (a ∷ b ∷ c ∷ d ∷ e ∷ f ∷ g ∷ i ∷ rest) h =
    ap₂ ◌∷◌ (omega arith) (words_le-words_of_bytes n rest (omega arith))
words_le-words_of_bytes (suc n) [] h = absurd (omega arith)
words_le-words_of_bytes (suc n) (a ∷ []) h = absurd (omega arith)
words_le-words_of_bytes (suc n) (a ∷ b ∷ []) h = absurd (omega arith)
words_le-words_of_bytes (suc n) (a ∷ b ∷ c ∷ []) h = absurd (omega arith)
words_le-words_of_bytes (suc n) (a ∷ b ∷ c ∷ d ∷ []) h = absurd (omega arith)
words_le-words_of_bytes (suc n) (a ∷ b ∷ c ∷ d ∷ e ∷ []) h = absurd (omega arith)
words_le-words_of_bytes (suc n) (a ∷ b ∷ c ∷ d ∷ e ∷ f ∷ []) h = absurd (omega arith)
words_le-words_of_bytes (suc n) (a ∷ b ∷ c ∷ d ∷ e ∷ f ∷ g ∷ []) h = absurd (omega arith)

pub block_words-chunk_of : (x : List ℕ) → length x ≤ 128 → block_words x ≡ chunk_of x
unfolding block_words chunk_of
block_words-chunk_of x h = words_le-words_of_bytes 16 (x ++ replicate (128 - length x) 0) (
    omega (
      arith,
      length-append x (replicate (128 - length x) 0),
      length-replicate {A = ℕ} (128 - length x) 0,
    ))

pub bytes_le-bytes_of_words : (ws : List ℕ) → bytes_le ws ≡ bytes_of_words_64 ws
unfolding bytes_of_words_64
bytes_le-bytes_of_words [] = refl
bytes_le-bytes_of_words (w ∷ ws) = ap₂ ◌∷◌ refl (
    ap₂ ◌∷◌ refl (
      ap₂ ◌∷◌ (omega arith) (
        ap₂ ◌∷◌ (omega arith) (
          ap₂ ◌∷◌ (omega arith) (
            ap₂ ◌∷◌ (omega arith)
              (ap₂ ◌∷◌ (omega arith) (ap₂ ◌∷◌ (omega arith) (bytes_le-bytes_of_words ws))))))))

-- The same blocks, compressed by the code.
abbrev pub absorbed : List ℕ → ℕ → ℕ → List (List ℕ) → List ℕ
absorbed state count total [] = state
absorbed state count total (x ∷ []) = blake2b_compress state (chunk_of x) total 0 true
absorbed state count total (x ∷ (y ∷ rest)) =
    absorbed (blake2b_compress state (chunk_of x) (count + 128) 0 false) (count + 128) total
      (y ∷ rest)

-- The blocks are short enough, and so is what is counted before each.
abbrev pub IsCounted : ℕ → List (List ℕ) → Type 0
IsCounted count [] = Unit
IsCounted count (x ∷ []) = length x ≤ 128
IsCounted count (x ∷ (y ∷ rest)) =
    (length x ≤ 128) × (count + 128 < 2 ^ 64) × IsCounted (count + 128) (y ∷ rest)

pub compressed :
    (h x : List ℕ) (t : ℕ) (last : Bool)
    → length x ≤ 128
    → t < 2 ^ 64
    → compression h (block_words x) t last ≡ blake2b_compress h (chunk_of x) t 0 last
compressed h x t last short small =
    ap (λ m. compression h m t last) (block_words-chunk_of x short)
    ∙ compression-compress h (chunk_of x) t last small

pub absorb-absorbed :
    (h : List ℕ) (count total : ℕ) (xs : List (List ℕ))
    → total < 2 ^ 64
    → IsCounted count xs
    → absorb h count total xs ≡ absorbed h count total xs
absorb-absorbed h count total [] small counted = refl
absorb-absorbed h count total (x ∷ []) small counted = compressed h x total true counted small
absorb-absorbed h count total (x ∷ (y ∷ rest)) small (short, below, counted) =
    ap (λ u. absorb u (count + 128) total (y ∷ rest))
      (compressed h x (count + 128) false short below)
    ∙ absorb-absorbed (blake2b_compress h (chunk_of x) (count + 128) 0 false) (count + 128) total
        (y ∷ rest) small counted
