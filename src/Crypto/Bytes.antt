-- ===== src/Crypto/Bytes.antt =====
-- Bytes and little-endian words, and buffers mixed byte by byte.
use ukoos.Prelude.{
  ℕ, zero, suc, ◌+◌, ◌*◌, ◌/◌, ◌%◌, ◌^◌, ◌≤◌, ◌<◌, ◌≡◌, refl, List, [], ◌∷◌, ◌++◌, bit_xor, arith,
  length, take, ap, ap₂, ◌∙◌,
}
use ukoos.Crypto.Words.{AllBelow}
use ukoos.Prelude.Bits.{bit_xor_fields, bit_xor-lt, bit_xor_cancel}

-- `memcpy` into a `u32` and `little_to_native` of include/endian.h: the value of four bytes. The
-- targets are little-endian, where the conversion is the identity on what was copied.
pub word_of_bytes : ℕ → ℕ → ℕ → ℕ → ℕ
word_of_bytes a b c d = a + (b + (c + d * 2 ^ 8) * 2 ^ 8) * 2 ^ 8

unfoldable pub words_of_bytes : List ℕ → List ℕ
unfolding word_of_bytes
words_of_bytes (a ∷ b ∷ c ∷ d ∷ rest) = word_of_bytes a b c d ∷ words_of_bytes rest
words_of_bytes _ = []

-- `native_to_little` and `memcpy` out of an array of `u32`.
unfoldable pub bytes_of_words : List ℕ → List ℕ
bytes_of_words [] = []
bytes_of_words (w ∷ ws) =
    w % 2 ^ 8 ∷ w / 2 ^ 8 % 2 ^ 8 ∷ w / 2 ^ 16 % 2 ^ 8 ∷ w / 2 ^ 24 % 2 ^ 8 ∷ bytes_of_words ws

-- `xs[i] ^ ys[i]` at every index of both.
unfoldable pub xor_all : List ℕ → List ℕ → List ℕ
xor_all (x ∷ xs) (y ∷ ys) = bit_xor x y ∷ xor_all xs ys
xor_all _ _ = []

-- A word is its four bytes.
word_of_bytes-bytes :
    (w : ℕ)
    → w < 2 ^ 32
    → w ≡ word_of_bytes (w % 2 ^ 8) (w / 2 ^ 8 % 2 ^ 8) (w / 2 ^ 16 % 2 ^ 8) (w / 2 ^ 24 % 2 ^ 8)
unfolding word_of_bytes
word_of_bytes-bytes w h = omega arith

bytes_of_word :
    (a b c d : ℕ) (rest : List ℕ)
    → a < 2 ^ 8
    → b < 2 ^ 8
    → c < 2 ^ 8
    → d < 2 ^ 8
    → bytes_of_words (word_of_bytes a b c d ∷ rest) ≡ a ∷ b ∷ c ∷ d ∷ bytes_of_words rest
unfolding word_of_bytes bytes_of_words
bytes_of_word a b c d rest ha hb hc hd = ground arith

-- Mixing two words mixes their bytes.
bit_xor-word_of_bytes :
    (a b c d a' b' c' d' : ℕ)
    → (a < 2 ^ 8) × (b < 2 ^ 8) × (c < 2 ^ 8)
    → (a' < 2 ^ 8) × (b' < 2 ^ 8) × (c' < 2 ^ 8)
    → bit_xor (word_of_bytes a b c d) (word_of_bytes a' b' c' d')
      ≡ word_of_bytes (bit_xor a a') (bit_xor b b') (bit_xor c c') (bit_xor d d')
unfolding word_of_bytes
bit_xor-word_of_bytes a b c d a' b' c' d' h h' = ground (
  arith,
  bit_xor_fields 8 (b + (c + d * 2 ^ 8) * 2 ^ 8) (b' + (c' + d' * 2 ^ 8) * 2 ^ 8) a a' h.0 h'.0,
  bit_xor_fields 8 (c + d * 2 ^ 8) (c' + d' * 2 ^ 8) b b' h.1 h'.1,
  bit_xor_fields 8 d d' c c' h.2 h'.2,
)

bytes_of_word_mixed :
    (a b c d w : ℕ) (rest : List ℕ)
    → (a < 2 ^ 8) × (b < 2 ^ 8) × (c < 2 ^ 8) × (d < 2 ^ 8)
    → w < 2 ^ 32
    → bytes_of_words (bit_xor (word_of_bytes a b c d) w ∷ rest)
      ≡ bit_xor a (w % 2 ^ 8)
        ∷ bit_xor b (w / 2 ^ 8 % 2 ^ 8)
        ∷ bit_xor c (w / 2 ^ 16 % 2 ^ 8)
        ∷ bit_xor d (w / 2 ^ 24 % 2 ^ 8)
        ∷ bytes_of_words rest
bytes_of_word_mixed a b c d w rest h k =
    ap (λ t. bytes_of_words (bit_xor (word_of_bytes a b c d) t ∷ rest)) (word_of_bytes-bytes w k)
    ∙ ap (λ t. bytes_of_words (t ∷ rest))
        (bit_xor-word_of_bytes a b c d _ _ _ _ (omega arith) (omega arith))
    ∙ bytes_of_word _ _ _ _ rest (bit_xor-lt 8 _ _ h.0 (omega arith))
        (bit_xor-lt 8 _ _ h.1 (omega arith)) (bit_xor-lt 8 _ _ h.2 (omega arith))
        (bit_xor-lt 8 _ _ h.3 (omega arith))

-- Mixing a buffer with words, word by word, is mixing it with the bytes of the words.
pub bytes_of_words-xor_all :
    (bs ws : List ℕ)
    → AllBelow (2 ^ 8) bs
    → AllBelow (2 ^ 32) ws
    → length bs ≡ 4 * length ws
    → bytes_of_words (xor_all (words_of_bytes bs) ws) ≡ xor_all bs (bytes_of_words ws)
unfolding words_of_bytes bytes_of_words xor_all
bytes_of_words-xor_all (a ∷ b ∷ c ∷ d ∷ rest) (w ∷ ws) h k e =
    bytes_of_word_mixed a b c d w (xor_all (words_of_bytes rest) ws) (omega arith) k.0
    ∙ ap
        (λ l.
          bit_xor a (w % 2 ^ 8)
          ∷ bit_xor b (w / 2 ^ 8 % 2 ^ 8)
          ∷ bit_xor c (w / 2 ^ 16 % 2 ^ 8)
          ∷ bit_xor d (w / 2 ^ 24 % 2 ^ 8)
          ∷ l)
        (bytes_of_words-xor_all rest ws h.1.1.1.1 k.1 (omega arith))
bytes_of_words-xor_all [] [] h k e = refl
bytes_of_words-xor_all [] (w ∷ ws) h k e = absurd (omega arith)
bytes_of_words-xor_all (a ∷ rest) [] h k e = absurd (omega arith)
bytes_of_words-xor_all (a ∷ []) (w ∷ ws) h k e = absurd (omega arith)
bytes_of_words-xor_all (a ∷ b ∷ []) (w ∷ ws) h k e = absurd (omega arith)
bytes_of_words-xor_all (a ∷ b ∷ c ∷ []) (w ∷ ws) h k e = absurd (omega arith)

-- Mixing the same bytes in twice gives the buffer back.
pub xor_all_cancel : (xs ys : List ℕ) → length xs ≡ length ys → xor_all (xor_all xs ys) ys ≡ xs
unfolding xor_all
xor_all_cancel [] ys e = refl
xor_all_cancel (x ∷ xs) [] e = absurd (omega arith)
xor_all_cancel (x ∷ xs) (y ∷ ys) e =
    ap₂ ◌∷◌ (bit_xor_cancel x y) (xor_all_cancel xs ys (omega arith))

pub length-xor_all : (xs ys : List ℕ) → length xs ≡ length ys → length (xor_all xs ys) ≡ length ys
unfolding xor_all
length-xor_all [] [] e = refl
length-xor_all [] (y ∷ ys) e = absurd (omega arith)
length-xor_all (x ∷ xs) [] e = absurd (omega arith)
length-xor_all (x ∷ xs) (y ∷ ys) e = omega (arith, length-xor_all xs ys)

pub length-bytes_of_words : (ws : List ℕ) → length (bytes_of_words ws) ≡ 4 * length ws
unfolding bytes_of_words
length-bytes_of_words [] = omega arith
length-bytes_of_words (w ∷ ws) = omega (arith, length-bytes_of_words ws)

pub words_of_bytes-AllBelow :
    (bs : List ℕ) → AllBelow (2 ^ 8) bs → AllBelow (2 ^ 32) (words_of_bytes bs)
unfolding words_of_bytes
words_of_bytes-AllBelow (a ∷ b ∷ c ∷ d ∷ rest) h =
    (omega arith, words_of_bytes-AllBelow rest h.1.1.1.1)
words_of_bytes-AllBelow _ h = tt

pub length-words_of_bytes :
    (bs : List ℕ) (n : ℕ) → length bs ≡ 4 * n → length (words_of_bytes bs) ≡ n
unfolding words_of_bytes
length-words_of_bytes (a ∷ b ∷ c ∷ d ∷ rest) zero e = absurd (omega arith)
length-words_of_bytes (a ∷ b ∷ c ∷ d ∷ rest) (suc n) e =
    ap suc (length-words_of_bytes rest n (omega arith))
length-words_of_bytes [] n e = omega arith
length-words_of_bytes (a ∷ []) n e = absurd (omega arith)
length-words_of_bytes (a ∷ b ∷ []) n e = absurd (omega arith)
length-words_of_bytes (a ∷ b ∷ c ∷ []) n e = absurd (omega arith)

pub xor_all-append :
    (us bs cs ds : List ℕ)
    → length us ≡ length cs
    → xor_all (us ++ bs) (cs ++ ds) ≡ xor_all us cs ++ xor_all bs ds
unfolding xor_all
xor_all-append [] bs [] ds e = refl
xor_all-append [] bs (c ∷ cs) ds e = absurd (omega arith)
xor_all-append (a ∷ us) bs [] ds e = absurd (omega arith)
xor_all-append (a ∷ us) bs (c ∷ cs) ds e =
    ap (◌∷◌ (bit_xor a c)) (xor_all-append us bs cs ds (omega arith))

-- What is mixed with a buffer behind its end is not seen in the part that is kept.
pub take-xor_all :
    (xs pad ys : List ℕ)
    → length xs ≤ length ys
    → take (length xs) (xor_all (xs ++ pad) ys) ≡ xor_all xs (take (length xs) ys)
unfolding xor_all
take-xor_all [] pad ys h = refl
take-xor_all (x ∷ xs) pad [] h = absurd (omega arith)
take-xor_all (x ∷ xs) pad (y ∷ ys) h = ap (◌∷◌ (bit_xor x y)) (take-xor_all xs pad ys (omega arith))

pub bytes_of_words-AllBelow : (ws : List ℕ) → AllBelow (2 ^ 8) (bytes_of_words ws)
unfolding bytes_of_words
bytes_of_words-AllBelow [] = tt
bytes_of_words-AllBelow (w ∷ ws) =
    (omega arith, (omega arith, (omega arith, (omega arith, bytes_of_words-AllBelow ws))))

pub xor_all-AllBelow :
    (xs ys : List ℕ) → AllBelow (2 ^ 8) xs → AllBelow (2 ^ 8) ys → AllBelow (2 ^ 8) (xor_all xs ys)
unfolding xor_all
xor_all-AllBelow (x ∷ xs) (y ∷ ys) h k = (bit_xor-lt 8 x y h.0 k.0, xor_all-AllBelow xs ys h.1 k.1)
xor_all-AllBelow [] ys h k = tt
xor_all-AllBelow (x ∷ xs) [] h k = tt
