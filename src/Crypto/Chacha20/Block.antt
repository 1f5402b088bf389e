-- ===== src/Crypto/Chacha20/Block.antt =====
-- The block function keeps the state an array of sixteen 32-bit words.
use ukoos.Prelude.{
  ℕ, zero, suc, ◌^◌, ◌<◌, ◌≡◌, List, [], ◌∷◌, arith, length, ap, ◌∙◌, length-set, length-append,
}
use ukoos.Prelude.Bits.{bit_xor-lt}
use ukoos.Crypto.Words.{rotate_left, IsArray, at-lt, set-AllBelow, AllBelow-append}
use ukoos.Crypto.Bytes.{words_of_bytes, words_of_bytes-AllBelow, length-words_of_bytes}
use ukoos.Crypto.Chacha20.{
  add_to, mix_to, chacha20_quarter_round, chacha20_double_round, double_rounds, add_all,
  chacha20_block, chacha20_state_init,
}

abbrev pub IsState : List ℕ → Type 0
IsState = IsArray 16 (2 ^ 32)

add_to-IsState : (words : List ℕ) (i j : ℕ) → IsState words → IsState (add_to words i j)
add_to-IsState words i j st = record {
  size = length-set words i _ ∙ st.size;
  below = set-AllBelow (2 ^ 32) words i _ (omega arith) st.below;
}

mix_to-IsState :
    (words : List ℕ) (i j k : ℕ)
    → ((x : ℕ) → x < 2 ^ 32 → rotate_left 32 x k < 2 ^ 32)
    → IsState words
    → IsState (mix_to words i j k)
mix_to-IsState words i j k rot st = record {
  size = length-set words i _ ∙ st.size;
  below =
      set-AllBelow (2 ^ 32) words i _
        (rot _ (
          bit_xor-lt 32 _ _ (at-lt _ words i (omega arith) st.below)
            (at-lt _ words j (omega arith) st.below)))
        st.below;
}

chacha20_quarter_round-IsState :
    (words : List ℕ) (a b c d : ℕ) → IsState words → IsState (chacha20_quarter_round words a b c d)
unfolding chacha20_quarter_round
chacha20_quarter_round-IsState words a b c d st =
    mix_to-IsState _ b c 7 (λ x h. omega arith)
      (add_to-IsState _ c d (
        mix_to-IsState _ d a 8 (λ x h. omega arith)
          (add_to-IsState _ a b (
            mix_to-IsState _ b c 12 (λ x h. omega arith)
              (add_to-IsState _ c d
                (mix_to-IsState _ d a 16 (λ x h. omega arith) (add_to-IsState _ a b st)))))))

chacha20_double_round-IsState : (s : List ℕ) → IsState s → IsState (chacha20_double_round s)
unfolding chacha20_double_round
chacha20_double_round-IsState s st =
    let keep = chacha20_quarter_round-IsState in
    keep _ 3 4 9 14 (
      keep _ 2 7 8 13 (
        keep _ 1 6 11 12 (
          keep _ 0 5 10 15
            (keep _ 3 7 11 15 (keep _ 2 6 10 14 (keep _ 1 5 9 13 (keep s 0 4 8 12 st)))))))

double_rounds-IsState : (n : ℕ) (s : List ℕ) → IsState s → IsState (double_rounds n s)
unfolding double_rounds
double_rounds-IsState zero s st = st
double_rounds-IsState (suc n) s st = double_rounds-IsState n _ (chacha20_double_round-IsState s st)

add_all-IsArray :
    (n : ℕ) (xs ys : List ℕ) → length xs ≡ n → length ys ≡ n → IsArray n (2 ^ 32) (add_all xs ys)
unfolding add_all
add_all-IsArray n [] ys e f = record { size = e; below = tt }
add_all-IsArray n (x ∷ xs) [] e f = absurd (omega arith)
add_all-IsArray n (x ∷ xs) (y ∷ ys) e f =
    let rest = add_all-IsArray (length xs) xs ys (omega arith) (omega arith) in
    record { size = ap suc rest.size ∙ e; below = (omega arith, rest.below) }

-- The block function keeps the state well formed.
pub chacha20_block-IsState : (s : List ℕ) → IsState s → IsState (chacha20_block s)
unfolding chacha20_block
chacha20_block-IsState s st =
    add_all-IsArray 16 s (double_rounds 10 s) st.size (double_rounds-IsState 10 s st).size

-- A key of 32 bytes, a block count and a nonce of three words make a well-formed state.
pub chacha20_state_init-IsState :
    (key nonce : List ℕ) (block_count : ℕ)
    → IsArray 32 (2 ^ 8) key
    → IsArray 3 (2 ^ 32) nonce
    → block_count < 2 ^ 32
    → IsState (chacha20_state_init key block_count nonce)
unfolding chacha20_state_init
chacha20_state_init-IsState key nonce block_count k n h = record {
  size = omega (
    arith,
    length-append (words_of_bytes key) (block_count ∷ nonce),
    length-words_of_bytes key 8 (omega arith),
    n.size,
  );
  below = (
    omega arith,
    (
      omega arith,
      (
        omega arith,
        (omega arith, AllBelow-append _ _ _ (words_of_bytes-AllBelow key k.below) (h, n.below)),
      ),
    ),
  );
}
