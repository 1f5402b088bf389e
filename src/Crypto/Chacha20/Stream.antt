-- ===== src/Crypto/Chacha20/Stream.antt =====
-- The key stream and the cipher: what the two loops compute.
use ukoos.Prelude.{
  ℕ, zero, suc, ◌-◌, ◌^◌, ◌≤◌, ◌<◌, ◌≡◌, refl, sym, subst, List, [], ◌∷◌, ◌++◌, arith, min, length,
  ap, ◌∙◌, take, drop, replicate, ok, length-take, length-drop, length-replicate, length-append,
  take-append-drop, take-append, take-min, ap₂, ◌*◌,
}
use ukoos.Crypto.Words.{AllBelow, IsArray, AllBelow-append}
use ukoos.Crypto.Bytes.{
  xor_all, bytes_of_words-xor_all, xor_all_cancel, length-xor_all, length-bytes_of_words,
  bytes_of_words-AllBelow, xor_all-AllBelow, xor_all-append, take-xor_all,
}
use ukoos.Crypto.Chacha20.{
  chacha20_block, chacha20_state_init, next_block, block_bytes, keystream_loop, encrypt_chunk,
  encrypt_loop, chacha20_keystream, chacha20_encrypt,
}
use ukoos.Crypto.Chacha20.Block.{IsState, chacha20_block-IsState, chacha20_state_init-IsState}

replicate-AllBelow : (m n : ℕ) → 0 < m → AllBelow m (replicate n 0)
replicate-AllBelow m zero h = tt
replicate-AllBelow m (suc n) h = (h, replicate-AllBelow m n h)

pub take-AllBelow : (m n : ℕ) (xs : List ℕ) → AllBelow m xs → AllBelow m (take n xs)
take-AllBelow m zero xs h = tt
take-AllBelow m (suc n) [] h = tt
take-AllBelow m (suc n) (x ∷ xs) h = (h.0, take-AllBelow m n xs h.1)

pub drop-AllBelow : (m n : ℕ) (xs : List ℕ) → AllBelow m xs → AllBelow m (drop n xs)
drop-AllBelow m zero xs h = h
drop-AllBelow m (suc n) [] h = h
drop-AllBelow m (suc n) (x ∷ xs) h = drop-AllBelow m n xs h.1

module _ (key nonce : List ℕ) where
  -- The blocks of `n` successive counts, the bytes that the key stream is cut from.
  abbrev pub blocks : ℕ → ℕ → List ℕ
  blocks zero bc = []
  blocks (suc n) bc = block_bytes key nonce bc ++ blocks n (next_block bc)

block_bytes-AllBelow : (key nonce : List ℕ) (bc : ℕ) → AllBelow (2 ^ 8) (block_bytes key nonce bc)
unfolding block_bytes
block_bytes-AllBelow key nonce bc = bytes_of_words-AllBelow _

module _ (key nonce : List ℕ) (is_key : IsArray 32 (2 ^ 8) key)
    (is_nonce : IsArray 3 (2 ^ 32) nonce) where
  block-IsState :
      (bc : ℕ) → bc < 2 ^ 32 → IsState (chacha20_block (chacha20_state_init key bc nonce))
  block-IsState bc h =
      chacha20_block-IsState _ (chacha20_state_init-IsState key nonce bc is_key is_nonce h)

  pub length-block_bytes : (bc : ℕ) → bc < 2 ^ 32 → length (block_bytes key nonce bc) ≡ 64
  unfolding block_bytes
  length-block_bytes bc h = omega (
    arith,
    length-bytes_of_words (chacha20_block (chacha20_state_init key bc nonce)),
    (block-IsState bc h).size,
  )

  -- A round of the cipher mixes the text with the bytes that a round of the key stream yields.
  encrypt_chunk-xor_all :
      (bc : ℕ) (text : List ℕ)
      → bc < 2 ^ 32
      → length text ≤ 64
      → AllBelow (2 ^ 8) text
      → encrypt_chunk key nonce bc text
        ≡ xor_all text (take (length text) (block_bytes key nonce bc))
  unfolding encrypt_chunk block_bytes
  encrypt_chunk-xor_all bc text h fits bytes =
      let pad : List ℕ = replicate (64 - length text) 0 in
      let size : length (text ++ pad) ≡ 64 =
        omega (arith, length-append text pad, length-replicate {A = ℕ} (64 - length text) 0) in
      ap (take (length text)) (
        bytes_of_words-xor_all (text ++ pad) (chacha20_block (chacha20_state_init key bc nonce))
          (AllBelow-append (2 ^ 8) text pad bytes (replicate-AllBelow (2 ^ 8) _ (omega arith)))
          (block-IsState bc h).below (omega (arith, size, (block-IsState bc h).size)))
      ∙ take-xor_all text pad _ (omega (arith, length-block_bytes bc h))

  -- The first `c` bytes of a text, and the rest, are mixed with their parts of the stream.
  mixed_in_parts :
      (bc c : ℕ) (text stream : List ℕ)
      → c ≤ 64
      → c ≤ length text
      → bc < 2 ^ 32
      → AllBelow (2 ^ 8) text
      → encrypt_chunk key nonce bc (take c text) ++ xor_all (drop c text) stream
        ≡ xor_all text (take c (block_bytes key nonce bc) ++ stream)
  mixed_in_parts bc c text stream fits le h bytes =
      let size : length (take c text) ≡ c = omega (arith, length-take c text) in
      let size' : length (take c (block_bytes key nonce bc)) ≡ c =
        omega (arith, length-take c (block_bytes key nonce bc), length-block_bytes bc h) in
      ap (λ l. l ++ xor_all (drop c text) stream)
        (encrypt_chunk-xor_all bc (take c text) h (omega arith) (take-AllBelow _ c text bytes))
      ∙ ap
          (λ n.
            xor_all (take c text) (take n (block_bytes key nonce bc))
            ++ xor_all (drop c text) stream)
          size
      ∙ sym (
          xor_all-append (take c text) (drop c text) (take c (block_bytes key nonce bc)) stream
            (omega arith))
      ∙ ap (λ l. xor_all l (take c (block_bytes key nonce bc) ++ stream)) (take-append-drop c text)

  -- With enough fuel the key stream has the length that is asked for, and the cipher mixes it in.
  encrypt_loop-keystream_loop :
      (fuel bc : ℕ) (text : List ℕ)
      → length text ≤ fuel
      → bc < 2 ^ 32
      → AllBelow (2 ^ 8) text
      → (stream : List ℕ) × (keystream_loop key nonce fuel bc (length text) ≡ ok stream)
        × (length stream ≡ length text)
        × AllBelow (2 ^ 8) stream
        × (encrypt_loop key nonce fuel bc text ≡ ok (xor_all text stream))
  unfolding keystream_loop encrypt_loop xor_all
  encrypt_loop-keystream_loop zero bc [] enough h bytes = ([], refl, refl, tt, refl)
  encrypt_loop-keystream_loop (suc fuel) bc [] enough h bytes = ([], refl, refl, tt, refl)
  encrypt_loop-keystream_loop zero bc (x ∷ xs) enough h bytes = absurd (omega arith)
  encrypt_loop-keystream_loop (suc fuel) bc (x ∷ xs) enough h bytes =
      let text : List ℕ = x ∷ xs in
      let c = min (length text) 64 in
      let rest = drop c text in
      let (stream, ks, size, below, enc) =
        encrypt_loop-keystream_loop fuel (next_block bc) rest (omega (arith, length-drop c text))
          (omega arith) (drop-AllBelow _ c text bytes) in
      let ks' =
        subst (λ n. keystream_loop key nonce fuel (next_block bc) n ≡ ok stream)
          (length-drop c text) ks in
      let parts = mixed_in_parts bc c text stream (omega arith) (omega arith) h bytes in
      (
        take c (block_bytes key nonce bc) ++ stream,
        ground (arith, ks'),
        omega (
          arith,
          length-append (take c (block_bytes key nonce bc)) stream,
          length-take c (block_bytes key nonce bc),
          length-block_bytes bc h,
          length-drop c text,
        ),
        AllBelow-append _ _ _ (take-AllBelow _ c _ (block_bytes-AllBelow key nonce bc)) below,
        ground (arith, enc, parts),
      )

  take-blocks :
      (n bc len : ℕ)
      → bc < 2 ^ 32
      → take len (blocks key nonce (suc n) bc)
        ≡ take (min len 64) (block_bytes key nonce bc)
          ++ take (len - min len 64) (blocks key nonce n (next_block bc))
  take-blocks n bc len h =
      let bytes = block_bytes key nonce bc in
      let size = length-block_bytes bc h in
      let front = subst (λ m. take (min len m) bytes ≡ take len bytes) size (take-min len bytes) in
      let back : len - length bytes ≡ len - min len 64 = omega (arith, size) in
      take-append len bytes (blocks key nonce n (next_block bc))
      ∙ ap₂ ◌++◌ (sym front) (ap (λ m. take m (blocks key nonce n (next_block bc))) back)

  keystream_loop-blocks :
      (fuel n bc len : ℕ)
      → len ≤ fuel
      → len ≤ 64 * n
      → bc < 2 ^ 32
      → keystream_loop key nonce fuel bc len ≡ ok (take len (blocks key nonce n bc))
  unfolding keystream_loop
  keystream_loop-blocks zero n bc zero enough room h = refl
  keystream_loop-blocks (suc fuel) n bc zero enough room h = refl
  keystream_loop-blocks zero n bc (suc len) enough room h = absurd (omega arith)
  keystream_loop-blocks (suc fuel) zero bc (suc len) enough room h = absurd (omega arith)
  keystream_loop-blocks (suc fuel) (suc n) bc (suc len) enough room h = ground (
    arith,
    take-blocks n bc (suc len) h,
    keystream_loop-blocks fuel n (next_block bc) (suc len - min (suc len) 64),
  )

-- For a key of 32 bytes and a nonce of three words, `chacha20_keystream` ends, and writes the first
-- `len` bytes of the blocks at the counts `block_count`, `block_count + 1`, … (modulo `2 ^ 32`),
-- however many blocks beyond the last are taken.
pub chacha20_keystream-blocks :
    (key nonce : List ℕ) (block_count len n : ℕ)
    → IsArray 32 (2 ^ 8) key
    → IsArray 3 (2 ^ 32) nonce
    → block_count < 2 ^ 32
    → len ≤ 64 * n
    → chacha20_keystream key block_count nonce len ≡ ok (take len (blocks key nonce n block_count))
unfolding chacha20_keystream
chacha20_keystream-blocks key nonce block_count len n k m h room =
    keystream_loop-blocks key nonce k m len n block_count len (omega arith) room h

-- For a key of 32 bytes, a nonce of three words and a text of bytes, `chacha20_encrypt` ends, and
-- its result is the text mixed byte by byte with the key stream of the text's length.
pub chacha20_encrypt-keystream :
    (key nonce : List ℕ) (block_count : ℕ) (text : List ℕ)
    → IsArray 32 (2 ^ 8) key
    → IsArray 3 (2 ^ 32) nonce
    → block_count < 2 ^ 32
    → AllBelow (2 ^ 8) text
    → (stream : List ℕ) × (chacha20_keystream key block_count nonce (length text) ≡ ok stream)
      × (length stream ≡ length text)
      × AllBelow (2 ^ 8) stream
      × (chacha20_encrypt key block_count nonce text ≡ ok (xor_all text stream))
unfolding chacha20_keystream chacha20_encrypt
chacha20_encrypt-keystream key nonce block_count text k m h bytes =
    encrypt_loop-keystream_loop key nonce k m (length text) block_count text (omega arith) h bytes

-- Under the same conditions, encrypting what `chacha20_encrypt` made of a text, with the same key,
-- count and nonce, gives the text back; the text keeps its length.
pub chacha20_encrypt_twice :
    (key nonce : List ℕ) (block_count : ℕ) (text : List ℕ)
    → IsArray 32 (2 ^ 8) key
    → IsArray 3 (2 ^ 32) nonce
    → block_count < 2 ^ 32
    → AllBelow (2 ^ 8) text
    → (cipher : List ℕ) × (chacha20_encrypt key block_count nonce text ≡ ok cipher)
      × (length cipher ≡ length text)
      × (chacha20_encrypt key block_count nonce cipher ≡ ok text)
chacha20_encrypt_twice key nonce block_count text k m h bytes =
    let (stream, ks, size, below, enc) =
      chacha20_encrypt-keystream key nonce block_count text k m h bytes in
    let cipher = xor_all text stream in
    let same = length-xor_all text stream (sym size) ∙ size in
    let (stream', ks', size', below', enc') =
      chacha20_encrypt-keystream key nonce block_count cipher k m h
        (xor_all-AllBelow text stream bytes below) in
    let streams : stream' ≡ stream = cc (ks, ks', same) in
    (
      cipher,
      enc,
      same,
      enc' ∙ ap ok (ap (xor_all cipher) streams ∙ xor_all_cancel text stream (sym size)),
    )
