-- ===== src/Crypto/Blake2b/Reference.antt =====
-- `blake2b_hash` of src/kernel/crypto/subtle/rfc7693.c against BLAKE2b as RFC 7693 has it.
use ukoos.Prelude.{
  ℕ, zero, suc, ◌+◌, ◌-◌, ◌^◌, ◌≤◌, ◌<◌, ◌≡◌, sym, ap, subst, ◌⊎◌, length-take, ◌∙◌, arith, leb,
  Bool-cases, inl, inr, List, [], ◌∷◌, length, take, drop, length-drop, ok,
}
use ukoos.Crypto.Blake2b.Message.{
  blocks, all_blocks, key_size, first_state, reference, bytes_le, bytes_le-bytes_of_words, absorbed,
  IsCounted, absorb-absorbed,
}
use ukoos.Crypto.Blake2b.Loop.{blocks_none, blocks_cons, IsAccepted, blake2b_hash-result}
use ukoos.Crypto.Blake2b.{blake2b_hash}

IsCounted-cons :
    (count : ℕ) (x y : List ℕ) (rest bl : List (List ℕ))
    → bl ≡ y ∷ rest
    → length x ≤ 128
    → count + 128 < 2 ^ 64
    → IsCounted (count + 128) bl
    → IsCounted count (x ∷ bl)
IsCounted-cons count x y rest bl e short small counted =
    subst (λ l. IsCounted count (x ∷ l)) (sym e)
      (short, small, subst (IsCounted (count + 128)) e counted)

-- A block, and the blocks of what is left behind it.
IsCounted-front :
    (fuel count : ℕ) (x rest : List ℕ)
    → length x ≤ 128
    → length rest ≤ fuel
    → (length rest ≡ 0) ⊎ (count + 128 + length rest < 2 ^ 64)
    → (count + 128 + length rest < 2 ^ 64 → IsCounted (count + 128) (blocks fuel rest))
    → IsCounted count (x ∷ blocks fuel rest)
IsCounted-front fuel count x [] short enough small later =
    subst (λ l. IsCounted count (x ∷ l)) (sym (blocks_none fuel)) short
IsCounted-front fuel count x (c ∷ cs) short enough (inl e) later = absurd (omega arith)
IsCounted-front fuel count x (c ∷ cs) short enough (inr small) later =
    let (y, others, bl) = blocks_cons fuel c cs enough in
    IsCounted-cons count x y others (blocks fuel (c ∷ cs)) bl short (omega arith) (later small)

left_over :
    (count n k : ℕ) → count + n < 2 ^ 64 → k ≡ n - 128 → (k ≡ 0) ⊎ (count + 128 + k < 2 ^ 64)
left_over count n k small e = elim (Bool-cases (leb n 128)) [
  | inl last ↦ inl (ground arith)
  | inr more ↦ inr (ground arith)
]

blocks-IsCounted :
    (fuel count : ℕ) (bs : List ℕ)
    → length bs ≤ fuel
    → count + length bs < 2 ^ 64
    → IsCounted count (blocks fuel bs)
blocks-IsCounted fuel count [] enough small = subst (IsCounted count) (sym (blocks_none fuel)) tt
blocks-IsCounted zero count (b ∷ bs) enough small = absurd (omega arith)
blocks-IsCounted (suc fuel) count (b ∷ bs) enough small =
    let l = length-drop 128 (b ∷ bs) in
    let rest = drop 128 (b ∷ bs) in
    let bound : (length rest ≡ 0) ⊎ (count + 128 + length rest < 2 ^ 64) =
      left_over count (length (b ∷ bs)) (length rest) small l in
    IsCounted-front fuel count (take 128 (b ∷ bs)) rest (omega (arith, length-take 128 (b ∷ bs)))
      (omega (arith, l)) bound
      (λ lt. blocks-IsCounted fuel (count + 128) rest (omega (arith, l)) lt)

all_blocks-IsCounted :
    (hash_len : ℕ) (key bytes : List ℕ)
    → IsAccepted hash_len key bytes
    → IsCounted 0 (all_blocks key bytes)
all_blocks-IsCounted hash_len [] [] accepted = omega arith
all_blocks-IsCounted hash_len [] (b ∷ bs) accepted =
    blocks-IsCounted (length (b ∷ bs)) 0 (b ∷ bs) (omega arith) accepted.3
all_blocks-IsCounted hash_len (k ∷ ks) bytes (_, _, short, small) =
    IsCounted-front (length bytes) 0 (k ∷ ks) bytes (omega arith) (omega arith) (inr small)
      (λ lt. blocks-IsCounted (length bytes) 128 bytes (omega arith) lt)

-- For a hash of 1 to 64 bytes, a key of 64 bytes at most and less than 2 ^ 64 bytes in all:
-- `blake2b_hash` ends normally, with the bytes of BLAKE2b as RFC 7693 defines it: its initial
-- words, permutations, mixing function and rotations, its compression with the offset counter and
-- the mark of the last block, and its blocks of key and message, with words in little-endian
-- order.
pub blake2b_hash-reference :
    (hash_len : ℕ) (key bytes : List ℕ)
    → IsAccepted hash_len key bytes
    → blake2b_hash hash_len key bytes ≡ ok (reference hash_len key bytes)
unfolding reference
blake2b_hash-reference hash_len key bytes accepted =
    let total = key_size key + length bytes in
    let first = first_state hash_len key in
    let xs = all_blocks key bytes in
    blake2b_hash-result hash_len key bytes accepted
    ∙ ap (λ ws. ok (take hash_len ws))
        (sym (
          ap bytes_le (
            absorb-absorbed first 0 total xs accepted.3
              (all_blocks-IsCounted hash_len key bytes accepted))
          ∙ bytes_le-bytes_of_words (absorbed first 0 total xs)))
