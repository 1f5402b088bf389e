-- ===== src/Crypto/Blake2b/Loop.antt =====
-- The loops of `blake2b_hash` in src/kernel/crypto/subtle/rfc7693.c: they compress the blocks of
-- key and message in their order.
use ukoos.Prelude.{
  ℕ, zero, suc, ◌+◌, ◌-◌, ◌*◌, ◌^◌, ◌≤◌, ◌<◌, ◌≡◌, refl, sym, ap, ap₂, ◌∙◌, arith, Bool, true,
  false, ltb, leb, ◌==◌, Bool-cases, inl, inr, List, [], ◌∷◌, bit_xor, min, length, set, take, drop,
  length-drop, take-length, ==_refl, le→leb, Run, ok, ◌>>=◌,
}
use ukoos.Crypto.Blake2b.Message.{blocks, all_blocks, key_size, absorbed}
use ukoos.Crypto.Words.{at}
use ukoos.Crypto.Blake2b.{
  blake2b_iv, chunk_of, blake2b_compress, carry_count, hash_loop, bytes_of_words_64, blake2b_hash,
}

abbrev pub initial_state : ℕ → List ℕ → List ℕ
initial_state hash_len key =
    set blake2b_iv 0
      (bit_xor (at blake2b_iv 0) (bit_xor (bit_xor 0x01010000 (length key * 2 ^ 8)) hash_len))

-- The code's result, by its own compression of the blocks.
abbrev pub result : ℕ → List ℕ → List ℕ → List ℕ
result hash_len key bytes = take hash_len (
    bytes_of_words_64 (
      absorbed (initial_state hash_len key) 0 (key_size key + length bytes) (all_blocks key bytes)))

carry_count_small : (lo n : ℕ) → lo + n < 2 ^ 64 → carry_count lo 0 n ≡ (lo + n, 0)
unfolding carry_count
carry_count_small lo n lt = ground arith

hash_loop_step :
    (fuel : ℕ) (state : List ℕ) (lo b : ℕ) (bs : List ℕ)
    → let n = min (length (b ∷ bs)) 128 in
      let counts = carry_count lo 0 n in
      hash_loop (suc fuel) state lo 0 (b ∷ bs)
      ≡ hash_loop fuel
          (blake2b_compress state
            (chunk_of (take n (b ∷ bs)))
            counts.0
            counts.1
            (length (b ∷ bs) == n))
          counts.0
          counts.1
          (drop n (b ∷ bs))
unfolding hash_loop
hash_loop_step fuel state lo b bs = refl

hash_loop_end : (fuel : ℕ) (state : List ℕ) (lo : ℕ) → hash_loop fuel state lo 0 [] ≡ ok state
unfolding hash_loop
hash_loop_end zero state lo = refl
hash_loop_end (suc fuel) state lo = refl

pub blocks_none : (fuel : ℕ) → blocks fuel [] ≡ []
blocks_none zero = refl
blocks_none (suc fuel) = refl

pub blocks_cons :
    (fuel c : ℕ) (cs : List ℕ)
    → length (c ∷ cs) ≤ fuel
    → (x : List ℕ) × (rest : List (List ℕ)) × (blocks fuel (c ∷ cs) ≡ x ∷ rest)
blocks_cons zero c cs enough = ground arith
blocks_cons (suc fuel) c cs enough = (take 128 (c ∷ cs), blocks fuel (drop 128 (c ∷ cs)), refl)

drop_all : (n : ℕ) (xs : List ℕ) → length xs ≤ n → drop n xs ≡ []
drop_all zero [] h = refl
drop_all zero (x ∷ xs) h = ground arith
drop_all (suc n) [] h = refl
drop_all (suc n) (x ∷ xs) h = drop_all n xs (omega arith)

take_all : (n : ℕ) (xs : List ℕ) → length xs ≤ n → take n xs ≡ xs
take_all zero [] h = refl
take_all zero (x ∷ xs) h = ground arith
take_all (suc n) [] h = refl
take_all (suc n) (x ∷ xs) h = ap (◌∷◌ x) (take_all n xs (omega arith))

==_larger : (n : ℕ) → 128 < n → (n == 128) ≡ false
==_larger n lt = ground arith

absorb_more :
    (state : List ℕ) (lo total : ℕ) (x y : List ℕ) (rest : List (List ℕ)) (bl : List (List ℕ))
    → bl ≡ y ∷ rest
    → absorbed state lo total (x ∷ bl)
      ≡ absorbed (blake2b_compress state (chunk_of x) (lo + 128) 0 false) (lo + 128) total bl
absorb_more state lo total x y rest bl e = rw e refl

-- One turn of the loop, with the number of bytes it takes and whether it is the last.
hash_loop_turn :
    (fuel : ℕ) (state : List ℕ) (lo b n : ℕ) (bs : List ℕ) (final : Bool)
    → min (length (b ∷ bs)) 128 ≡ n
    → lo + n < 2 ^ 64
    → (length (b ∷ bs) == n) ≡ final
    → hash_loop (suc fuel) state lo 0 (b ∷ bs)
      ≡ hash_loop fuel
          (blake2b_compress state (chunk_of (take n (b ∷ bs))) (lo + n) 0 final)
          (lo + n)
          0
          (drop n (b ∷ bs))
hash_loop_turn fuel state lo b n bs final e lt f =
    hash_loop_step fuel state lo b bs ∙ rw (e, f, carry_count_small lo n lt) refl

hash_loop_last :
    (fuel : ℕ) (state : List ℕ) (lo b : ℕ) (bs : List ℕ)
    → length (b ∷ bs) ≤ 128
    → lo + length (b ∷ bs) < 2 ^ 64
    → hash_loop (suc fuel) state lo 0 (b ∷ bs)
      ≡ ok (absorbed state lo (lo + length (b ∷ bs)) (blocks (suc fuel) (b ∷ bs)))
hash_loop_last fuel state lo b bs short small =
    let xs = b ∷ bs in
    let n = length xs in
    hash_loop_turn fuel state lo b n bs true (omega arith) small (==_refl n)
    ∙ (ap₂
          (λ t d. hash_loop fuel (blake2b_compress state (chunk_of t) (lo + n) 0 true) (lo + n) 0 d)
          (take-length xs) (drop_all n xs (omega arith))
        ∙ (hash_loop_end fuel (blake2b_compress state (chunk_of xs) (lo + n) 0 true) (lo + n)
            ∙ ap₂ (λ t l. ok (absorbed state lo (lo + n) (t ∷ l))) (sym (take_all 128 xs short))
                (sym (ap (blocks fuel) (drop_all 128 xs short) ∙ blocks_none fuel))))

hash_loop_more :
    (fuel : ℕ) (state : List ℕ) (lo b : ℕ) (bs rest : List ℕ)
    → drop 128 (b ∷ bs) ≡ rest
    → 128 < length (b ∷ bs)
    → ((c : ℕ) (cs : List ℕ) (state' : List ℕ)
        → length (c ∷ cs) ≡ length (b ∷ bs) - 128
        → hash_loop fuel state' (lo + 128) 0 (c ∷ cs)
          ≡ ok (absorbed state' (lo + 128) (lo + 128 + length (c ∷ cs)) (blocks fuel (c ∷ cs))))
    → lo + length (b ∷ bs) < 2 ^ 64
    → length (b ∷ bs) ≤ suc fuel
    → hash_loop (suc fuel) state lo 0 (b ∷ bs)
      ≡ ok (absorbed state lo (lo + length (b ∷ bs)) (blocks (suc fuel) (b ∷ bs)))
hash_loop_more fuel state lo b bs [] e long ih small enough =
    let l = length-drop 128 (b ∷ bs) in let l' = ap length e in ground arith
hash_loop_more fuel state lo b bs (c ∷ cs) e long ih small enough =
    let l : length (c ∷ cs) ≡ length (b ∷ bs) - 128 =
      ap length (sym e) ∙ length-drop 128 (b ∷ bs) in
    let total : lo + 128 + length (c ∷ cs) ≡ lo + length (b ∷ bs) = omega arith in
    let n = length (b ∷ bs) in
    let state' = blake2b_compress state (chunk_of (take 128 (b ∷ bs))) (lo + 128) 0 false in
    let (y, others, bl) = blocks_cons fuel c cs (omega arith) in
    hash_loop_turn fuel state lo b 128 bs false (omega arith) (omega arith) (==_larger n long)
    ∙ (ap (hash_loop fuel state' (lo + 128) 0) e
        ∙ (ih c cs state' l
            ∙ (ap (λ t. ok (absorbed state' (lo + 128) t (blocks fuel (c ∷ cs)))) total
                ∙ (ap ok (
                      sym (
                        absorb_more state lo (lo + n) (take 128 (b ∷ bs)) y others
                          (blocks fuel (c ∷ cs)) bl))
                    ∙ ap (λ d. ok (absorbed state lo (lo + n) (take 128 (b ∷ bs) ∷ blocks fuel d)))
                        (sym e)))))

hash_loop-absorbed :
    (fuel : ℕ) (state : List ℕ) (lo b : ℕ) (bs : List ℕ)
    → length (b ∷ bs) ≤ fuel
    → lo + length (b ∷ bs) < 2 ^ 64
    → hash_loop fuel state lo 0 (b ∷ bs)
      ≡ ok (absorbed state lo (lo + length (b ∷ bs)) (blocks fuel (b ∷ bs)))
hash_loop-absorbed zero state lo b bs enough small = ground arith
hash_loop-absorbed (suc fuel) state lo b bs enough small =
    elim (Bool-cases (leb (length (b ∷ bs)) 128)) [
      | inl le ↦ hash_loop_last fuel state lo b bs (ground arith) small
      | inr gt ↦
          hash_loop_more fuel state lo b bs (drop 128 (b ∷ bs)) refl (ground arith)
            (λ c cs state' l.
              hash_loop-absorbed fuel state' (lo + 128) c cs (omega arith) (omega arith))
            small enough
    ]

-- The code once its assertions hold: `state` has the key block, and the loop takes the message.
abbrev pub IsAccepted : ℕ → List ℕ → List ℕ → Type 0
IsAccepted hash_len key bytes =
    (1 ≤ hash_len) × (hash_len ≤ 64) × (length key ≤ 64) × (key_size key + length bytes < 2 ^ 64)

abbrev output : ℕ → Run (List ℕ) → Run (List ℕ)
output hash_len run = run >>= λ state. ok (take hash_len (bytes_of_words_64 state))

carry_count_first : carry_count 0 0 128 ≡ (128, 0)
unfolding carry_count
carry_count_first = refl

min_left : (n : ℕ) → n ≤ 128 → min n 128 ≡ n
min_left n le = omega arith

blake2b_hash_unkeyed :
    (hash_len b : ℕ) (bs : List ℕ)
    → IsAccepted hash_len [] (b ∷ bs)
    → blake2b_hash hash_len [] (b ∷ bs)
      ≡ output hash_len (hash_loop (length (b ∷ bs)) (initial_state hash_len []) 0 0 (b ∷ bs))
unfolding blake2b_hash
blake2b_hash_unkeyed hash_len b bs (h, h', k, n) =
    let e : leb (suc (length bs)) (2 ^ 64 - 1) ≡ true =
      le→leb (length (b ∷ bs)) (2 ^ 64 - 1) (omega arith) in
    let z : leb 0 (suc (length bs)) ≡ true = ground arith in
    let nz : (suc (length bs) == 0) ≡ false = ground arith in
    rw (le→leb 1 hash_len h, le→leb hash_len 64 h', z, e, nz) refl

blake2b_hash_empty :
    (hash_len : ℕ)
    → IsAccepted hash_len [] []
    → blake2b_hash hash_len [] [] ≡ ok (result hash_len [] [])
unfolding blake2b_hash
blake2b_hash_empty hash_len (h, h', k, n) =
    rw (le→leb 1 hash_len h, le→leb hash_len 64 h')
      (ap (output hash_len)
        (hash_loop_end 0 (blake2b_compress (initial_state hash_len []) (chunk_of []) 0 0 true) 0))

blake2b_hash_keyed :
    (hash_len k : ℕ) (ks bytes : List ℕ)
    → IsAccepted hash_len (k ∷ ks) bytes
    → blake2b_hash hash_len (k ∷ ks) bytes
      ≡ output hash_len (
          hash_loop
            (length bytes)
            (blake2b_compress
              (initial_state hash_len (k ∷ ks))
              (chunk_of (k ∷ ks))
              128
              0
              (length bytes == 0))
            128
            0
            bytes)
unfolding blake2b_hash
blake2b_hash_keyed hash_len k ks bytes (h, h', n, n') =
    let e₁ : leb 0 (suc (length ks)) ≡ true = ground arith in
    let e₂ : leb (suc (length ks)) 64 ≡ true = le→leb (suc (length ks)) 64 n in
    let e₃ : leb 0 (length bytes) ≡ true = ground arith in
    let e₄ : leb (length bytes) (2 ^ 64 - 1) ≡ true =
      le→leb (length bytes) (2 ^ 64 - 1) (omega arith) in
    let e₅ : ltb 0 (suc (length ks)) ≡ true = ground arith in
    let e₆ : (suc (length ks) == 0) ≡ false = ground arith in
    let e₇ : take (min (suc (length ks)) 128) (k ∷ ks) ≡ k ∷ ks =
      rw (min_left (suc (length ks)) (omega arith)) (take-length (k ∷ ks)) in
    rw (le→leb 1 hash_len h, le→leb hash_len 64 h', e₁, e₂, e₃, e₄, e₅, e₆, e₇, carry_count_first)
      refl

pub blake2b_hash-result :
    (hash_len : ℕ) (key bytes : List ℕ)
    → IsAccepted hash_len key bytes
    → blake2b_hash hash_len key bytes ≡ ok (result hash_len key bytes)
blake2b_hash-result hash_len [] [] accepted = blake2b_hash_empty hash_len accepted
blake2b_hash-result hash_len [] (b ∷ bs) accepted =
    blake2b_hash_unkeyed hash_len b bs accepted
    ∙ ap (output hash_len) (
        hash_loop-absorbed (length (b ∷ bs)) (initial_state hash_len []) 0 b bs (omega arith)
          accepted.3)
blake2b_hash-result hash_len (k ∷ ks) [] accepted =
    blake2b_hash_keyed hash_len k ks [] accepted
    ∙ ap (output hash_len) (
        hash_loop_end 0
          (blake2b_compress (initial_state hash_len (k ∷ ks)) (chunk_of (k ∷ ks)) 128 0 true) 128)
blake2b_hash-result hash_len (k ∷ ks) (b ∷ bs) accepted =
    let start = initial_state hash_len (k ∷ ks) in
    let nz : (length (b ∷ bs) == 0) ≡ false = ground arith in
    blake2b_hash_keyed hash_len k ks (b ∷ bs) accepted
    ∙ (ap
          (λ f. output hash_len (
            hash_loop (length (b ∷ bs)) (blake2b_compress start (chunk_of (k ∷ ks)) 128 0 f) 128 0
              (b ∷ bs)))
          nz
        ∙ ap (output hash_len) (
            hash_loop-absorbed (length (b ∷ bs))
              (blake2b_compress start (chunk_of (k ∷ ks)) 128 0 false) 128 b bs (omega arith)
              accepted.3))
