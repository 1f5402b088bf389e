-- ===== src/Random/Pool.antt =====
-- The hash of the entropy pool is a key, and a pool keyed with it is in good order.
use mathlib.Core.List.{append-nil}
use ukoos.Prelude.{
  ℕ, zero, suc, ◌+◌, ◌-◌, ◌*◌, ◌^◌, ◌≤◌, ◌<◌, ◌≡◌, refl, sym, ap, ◌∙◌, subst, arith, Bool, true,
  false, leb, le→leb, ◌==◌, if◌then◌else◌, List, [], ◌++◌, bit_xor, set, take, drop, replicate,
  length, length-set, length-take, length-drop, length-replicate, length-append, take-length, ok,
  Yields,
}
use ukoos.Crypto.Words.{IsArray, at}
use ukoos.Crypto.Bytes.{
  bytes_of_words, length-bytes_of_words, bytes_of_words-AllBelow, xor_all, length-xor_all,
  words_of_bytes,
}
use ukoos.Crypto.Blake2s.{
  Blake2sHasher, blake2s_iv, blake2s_mix_quarter_round, blake2s_mix_double_round, double_rounds,
  blake2s_compress, fill, blake2s_init, blake2s_update, blake2s_finish,
}
use ukoos.Crypto.Blake2s.Stream.{push_all, push_all-fill, blake2s_update-push_all}
use ukoos.Crypto.Blake2s.Count.{taken, add_to_count-ok}

-- A hasher for 32 bytes whose count is far from its end.
abbrev pub IsPool : Blake2sHasher → Type 0
IsPool h = (h.buffer_len ≤ 64) × (h.hash_len ≡ 32) × (length h.hash_state ≡ 8) × (taken h < 2 ^ 32)

length-mix_quarter_round :
    (words : List ℕ) (a b c d x y : ℕ)
    → length (blake2s_mix_quarter_round words a b c d x y) ≡ length words
unfolding blake2s_mix_quarter_round
length-mix_quarter_round words a b c d x y = simp (length-set)

length-mix_double_round :
    (words chunk : List ℕ) (i : ℕ) → length (blake2s_mix_double_round words chunk i) ≡ length words
unfolding blake2s_mix_double_round
length-mix_double_round words chunk i = simp (length-mix_quarter_round)

length-double_rounds :
    (left i : ℕ) (words chunk : List ℕ) → length (double_rounds left i words chunk) ≡ length words
unfolding double_rounds
length-double_rounds zero i words chunk = refl
length-double_rounds (suc left) i words chunk =
    length-double_rounds left (i + 1) (blake2s_mix_double_round words chunk i) chunk
    ∙ length-mix_double_round words chunk i

-- The words that the rounds start with.
length-xor_halves :
    (state words : List ℕ)
    → length state ≡ 8
    → length words ≡ 16
    → length (xor_all (xor_all state (take 8 words)) (drop 8 words)) ≡ 8
length-xor_halves state words e e' =
    let low : length (take 8 words) ≡ 8 = omega (arith, length-take 8 words) in
    let high : length (drop 8 words) ≡ 8 = omega (arith, length-drop 8 words) in
    let mixed = length-xor_all state (take 8 words) (e ∙ sym low) in
    length-xor_all (xor_all state (take 8 words)) (drop 8 words) (mixed ∙ (low ∙ sym high)) ∙ high

length-set_if :
    (words : List ℕ) (c : Bool) (v : ℕ)
    → length (if c then set words 14 v else words) ≡ length words
length-set_if words true v = length-set words 14 v
length-set_if words false v = refl

length-compress :
    (state chunk : List ℕ) (lo hi : ℕ) (final : Bool)
    → length state ≡ 8
    → length (blake2s_compress state chunk lo hi final) ≡ 8
unfolding blake2s_compress
length-compress state chunk lo hi final e =
    let w₀ = state ++ blake2s_iv in
    let w₁ = set w₀ 12 (bit_xor (at w₀ 12) lo) in
    let w₂ = set w₁ 13 (bit_xor (at w₁ 13) hi) in
    let w₃ = if final then set w₂ 14 (2 ^ 32 - 1 - at w₂ 14) else w₂ in
    let start : length w₀ ≡ 16 = length-append state blake2s_iv ∙ omega arith in
    let whole : length w₃ ≡ 16 =
      length-set_if w₂ final (2 ^ 32 - 1 - at w₂ 14)
      ∙ (length-set w₁ 13 (bit_xor (at w₁ 13) hi)
          ∙ (length-set w₀ 12 (bit_xor (at w₀ 12) lo) ∙ start)) in
    length-xor_halves state (double_rounds 10 0 w₃ chunk) e
      (length-double_rounds 10 0 w₃ chunk ∙ whole)

blake2s_finish-eq :
    (h : Blake2sHasher)
    → h.buffer_len ≤ 64
    → h.byte_count_lo + h.buffer_len < 2 ^ 32
    → blake2s_finish h
      ≡ ok (
          take h.hash_len (
            bytes_of_words (
              blake2s_compress h.hash_state
                (words_of_bytes (take h.buffer_len h.buffer ++ replicate (64 - h.buffer_len) 0))
                (h.byte_count_lo + h.buffer_len)
                h.byte_count_hi
                true)))
unfolding blake2s_finish
blake2s_finish-eq h le small =
    rw
      (
        le→leb h.buffer_len 64 le,
        add_to_count-ok h.byte_count_lo h.byte_count_hi h.buffer_len small,
      )
      refl

take_whole : (n : ℕ) (xs : List ℕ) → length xs ≡ n → take n xs ≡ xs
take_whole n xs e = subst (λ m. take m xs ≡ xs) e (take-length xs)

-- The hash of what was mixed in is a key.
pub blake2s_finish-IsArray :
    (h : Blake2sHasher) → IsPool h → Yields (blake2s_finish h) (IsArray 32 (2 ^ 8))
blake2s_finish-IsArray h (le, len, size, small) =
    let chunk = words_of_bytes (take h.buffer_len h.buffer ++ replicate (64 - h.buffer_len) 0) in
    let state =
      blake2s_compress h.hash_state chunk (h.byte_count_lo + h.buffer_len) h.byte_count_hi true in
    let bytes = bytes_of_words state in
    let all : length bytes ≡ 32 =
      length-bytes_of_words state
      ∙ ap (λ n. 4 * n)
          (length-compress h.hash_state chunk (h.byte_count_lo + h.buffer_len) h.byte_count_hi true
            size) in
    (
      bytes,
      blake2s_finish-eq h le small ∙ ap ok (ap (λ n. take n bytes) len ∙ take_whole 32 bytes all),
      record { size = all; below = bytes_of_words-AllBelow state },
    )

-- The hasher as `blake2s_init` starts it, and the block of a key.
abbrev started : Blake2sHasher → List ℕ → Blake2sHasher
started h key = record {
  buffer = h.buffer;
  hash_state =
      set blake2s_iv 0
        (bit_xor (at blake2s_iv 0) (bit_xor (bit_xor 0x01010000 (length key * 2 ^ 8)) 32));
  byte_count_lo = 0;
  byte_count_hi = 0;
  buffer_len = 0;
  hash_len = 32;
}

abbrev key_block : List ℕ → List ℕ
key_block key = key ++ replicate (64 - length key) 0

blake2s_init-keyed :
    (h h' : Blake2sHasher) (key : List ℕ)
    → length key ≡ 32
    → blake2s_update (started h key) (key_block key) ≡ ok h'
    → h'.byte_count_lo ≡ 0
    → h'.byte_count_hi ≡ 0
    → h'.buffer_len ≡ 64
    → blake2s_init h 32 key ≡ ok h'
unfolding blake2s_init
blake2s_init-keyed h h' key e run lo hi full =
    let short : leb (length key) 32 ≡ true = rw e refl in
    let keyed : (length key == 0) ≡ false = rw e refl in rw (short, keyed, run, lo, hi, full) refl

length-key_block : (key : List ℕ) → length key ≡ 32 → length (key_block key) ≡ 64
length-key_block key e =
    let zeros : length (replicate {A = ℕ} (64 - length key) 0) ≡ 64 - length key =
      length-replicate (64 - length key) 0 in
    length-append key (replicate (64 - length key) 0) ∙ omega arith

blake2s_update-fill :
    (h : Blake2sHasher) (block : List ℕ)
    → h.buffer_len ≡ 0
    → length block ≡ 64
    → blake2s_update h block ≡ ok (fill h block)
blake2s_update-fill h block e size =
    blake2s_update-push_all h block (omega arith)
    ∙ (ap (push_all h) (sym (append-nil block)) ∙ push_all-fill h block [] (omega arith))

-- Keyed with 32 bytes, the hasher has them in its buffer and no count.
pub blake2s_init-IsPool :
    (h : Blake2sHasher) (key : List ℕ) → length key ≡ 32 → Yields (blake2s_init h 32 key) IsPool
unfolding fill
blake2s_init-IsPool h key e =
    let size = length-key_block key e in
    let filled = fill (started h key) (key_block key) in
    let full : filled.buffer_len ≡ 64 = omega (arith, size) in
    (
      filled,
      blake2s_init-keyed h filled key e
          (blake2s_update-fill (started h key) (key_block key) refl size) refl refl full,
      (omega (arith, full), refl, refl, omega (arith, full)),
    )
