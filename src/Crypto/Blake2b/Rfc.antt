-- ===== src/Crypto/Blake2b/Rfc.antt =====
-- BLAKE2b by the text of RFC 7693, sections 2 and 3, without the code's definitions, and the code's
-- compression against it.
use ukoos.Prelude.{
  ℕ, zero, suc, ◌+◌, ◌-◌, ◌*◌, ◌/◌, ◌%◌, ◌^◌, ◌≤◌, ◌<◌, ◌≡◌, refl, ap, ap₂, ◌∙◌, arith, Bool,
  if◌then◌else◌, List, [], ◌∷◌, ◌++◌, bit_xor, set, take, drop, get_or,
}
use ukoos.Crypto.Words.{at, rotate_right}
use ukoos.Crypto.Bytes.{xor_all}
use ukoos.Crypto.Blake2s.{blake2_sigma}
use ukoos.Crypto.Blake2b.{
  add_to, mix_to, blake2b_mix_quarter_round, blake2b_mix_double_round, double_rounds,
  blake2b_compress,
}

-- Section 2.6, the fractions of the square roots of the first eight primes.
abbrev pub iv : List ℕ
iv =
    0x6a09e667f3bcc908 ∷ 0xbb67ae8584caa73b ∷ 0x3c6ef372fe94f82b ∷ 0xa54ff53a5f1d36f1
    ∷ 0x510e527fade682d1 ∷ 0x9b05688c2b3e6c1f ∷ 0x1f83d9abfb41bd6b ∷ 0x5be0cd19137e2179 ∷ []

-- Section 2.7, the permutations of ten rounds.
abbrev pub sigma : List (List ℕ)
sigma =
    (0 ∷ 1 ∷ 2 ∷ 3 ∷ 4 ∷ 5 ∷ 6 ∷ 7 ∷ 8 ∷ 9 ∷ 10 ∷ 11 ∷ 12 ∷ 13 ∷ 14 ∷ 15 ∷ [])
    ∷ (14 ∷ 10 ∷ 4 ∷ 8 ∷ 9 ∷ 15 ∷ 13 ∷ 6 ∷ 1 ∷ 12 ∷ 0 ∷ 2 ∷ 11 ∷ 7 ∷ 5 ∷ 3 ∷ [])
    ∷ (11 ∷ 8 ∷ 12 ∷ 0 ∷ 5 ∷ 2 ∷ 15 ∷ 13 ∷ 10 ∷ 14 ∷ 3 ∷ 6 ∷ 7 ∷ 1 ∷ 9 ∷ 4 ∷ [])
    ∷ (7 ∷ 9 ∷ 3 ∷ 1 ∷ 13 ∷ 12 ∷ 11 ∷ 14 ∷ 2 ∷ 6 ∷ 5 ∷ 10 ∷ 4 ∷ 0 ∷ 15 ∷ 8 ∷ [])
    ∷ (9 ∷ 0 ∷ 5 ∷ 7 ∷ 2 ∷ 4 ∷ 10 ∷ 15 ∷ 14 ∷ 1 ∷ 11 ∷ 12 ∷ 6 ∷ 8 ∷ 3 ∷ 13 ∷ [])
    ∷ (2 ∷ 12 ∷ 6 ∷ 10 ∷ 0 ∷ 11 ∷ 8 ∷ 3 ∷ 4 ∷ 13 ∷ 7 ∷ 5 ∷ 15 ∷ 14 ∷ 1 ∷ 9 ∷ [])
    ∷ (12 ∷ 5 ∷ 1 ∷ 15 ∷ 14 ∷ 13 ∷ 4 ∷ 10 ∷ 0 ∷ 7 ∷ 6 ∷ 3 ∷ 9 ∷ 2 ∷ 8 ∷ 11 ∷ [])
    ∷ (13 ∷ 11 ∷ 7 ∷ 14 ∷ 12 ∷ 1 ∷ 3 ∷ 9 ∷ 5 ∷ 0 ∷ 15 ∷ 4 ∷ 8 ∷ 6 ∷ 2 ∷ 10 ∷ [])
    ∷ (6 ∷ 15 ∷ 14 ∷ 9 ∷ 11 ∷ 3 ∷ 0 ∷ 8 ∷ 12 ∷ 2 ∷ 13 ∷ 7 ∷ 1 ∷ 4 ∷ 10 ∷ 5 ∷ [])
    ∷ (10 ∷ 2 ∷ 8 ∷ 4 ∷ 7 ∷ 6 ∷ 1 ∷ 5 ∷ 15 ∷ 11 ∷ 9 ∷ 14 ∷ 3 ∷ 12 ∷ 13 ∷ 0 ∷ [])
    ∷ []

-- `x >>> k`: the low bits go to the top.
unfoldable pub turn : ℕ → ℕ → ℕ
turn x k = x % 2 ^ k * 2 ^ (64 - k) + x / 2 ^ k

-- `v[i] := (v[i] + v[j] + x) mod 2 ^ 64` and `v[i] := (v[i] ^ v[j]) >>> k`.
unfoldable pub sum_into : List ℕ → ℕ → ℕ → ℕ → List ℕ
sum_into v i j x = set v i ((at v i + at v j + x) % 2 ^ 64)

unfoldable pub turn_into : List ℕ → ℕ → ℕ → ℕ → List ℕ
unfolding turn
turn_into v i j k = set v i (turn (bit_xor (at v i) (at v j)) k)

-- Section 3.1, the mixing function G, with the rotations of section 2.1.
unfoldable pub mixing : List ℕ → ℕ → ℕ → ℕ → ℕ → ℕ → ℕ → List ℕ
unfolding sum_into turn_into
mixing v a b c d x y =
    let v₁ = turn_into (sum_into v a b x) d a 32 in
    let v₂ = turn_into (sum_into v₁ c d 0) b c 24 in
    let v₃ = turn_into (sum_into v₂ a b y) d a 16 in turn_into (sum_into v₃ c d 0) b c 63

-- The eight mixings of a round, by the words of the message that they take.
unfoldable eight : List ℕ → List ℕ → List ℕ → List ℕ
unfolding mixing
eight v m s =
    let v₁ = mixing v 0 4 8 12 (at m (at s 0)) (at m (at s 1)) in
    let v₂ = mixing v₁ 1 5 9 13 (at m (at s 2)) (at m (at s 3)) in
    let v₃ = mixing v₂ 2 6 10 14 (at m (at s 4)) (at m (at s 5)) in
    let v₄ = mixing v₃ 3 7 11 15 (at m (at s 6)) (at m (at s 7)) in
    let v₅ = mixing v₄ 0 5 10 15 (at m (at s 8)) (at m (at s 9)) in
    let v₆ = mixing v₅ 1 6 11 12 (at m (at s 10)) (at m (at s 11)) in
    let v₇ = mixing v₆ 2 7 8 13 (at m (at s 12)) (at m (at s 13)) in
    mixing v₇ 3 4 9 14 (at m (at s 14)) (at m (at s 15))

-- A round of section 3.2, with the permutation `SIGMA[i mod 10]`.
unfoldable pub round : List ℕ → List ℕ → ℕ → List ℕ
unfolding eight
round v m i = eight v m (get_or sigma (i % 10) [])

unfoldable pub rounds : ℕ → ℕ → List ℕ → List ℕ → List ℕ
unfolding round
rounds zero i v m = v
rounds (suc left) i v m = rounds left (i + 1) (round v m i) m

-- `h[i] ^ v[i] ^ v[i + 8]`.
abbrev pub both_halves : List ℕ → List ℕ → List ℕ → List ℕ
both_halves (h ∷ hs) (x ∷ xs) (y ∷ ys) = bit_xor (bit_xor h x) y ∷ both_halves hs xs ys
both_halves _ _ _ = []

-- Section 3.2, the compression function F, with the offset counter `t` of 128 bits.
unfoldable pub compression : List ℕ → List ℕ → ℕ → Bool → List ℕ
unfolding rounds
compression h m t f =
    let v = h ++ iv in
    let v₁ = set v 12 (bit_xor (at v 12) (t % 2 ^ 64)) in
    let v₂ = set v₁ 13 (bit_xor (at v₁ 13) (t / 2 ^ 64)) in
    let v₃ = if f then set v₂ 14 (2 ^ 64 - 1 - at v₂ 14) else v₂ in
    let v₄ = rounds 12 0 v₃ m in both_halves h (take 8 v₄) (drop 8 v₄)

sum_into-add_to : (v : List ℕ) (i j x : ℕ) → sum_into v i j x ≡ add_to v i j x
unfolding sum_into
sum_into-add_to v i j x = ap (set v i) (omega arith)

turn_32 : (x : ℕ) → turn x 32 ≡ rotate_right 64 x 32
unfolding turn
turn_32 x = omega arith

turn_24 : (x : ℕ) → turn x 24 ≡ rotate_right 64 x 24
unfolding turn
turn_24 x = omega arith

turn_16 : (x : ℕ) → turn x 16 ≡ rotate_right 64 x 16
unfolding turn
turn_16 x = omega arith

turn_63 : (x : ℕ) → turn x 63 ≡ rotate_right 64 x 63
unfolding turn
turn_63 x = omega arith

-- A rotation by as many bits as the code turns by, and a sum before it.
module _ (k : ℕ) (turned : (x : ℕ) → turn x k ≡ rotate_right 64 x k) where
  turn_into-mix_to : (v : List ℕ) (i j : ℕ) → turn_into v i j k ≡ mix_to v i j k
  unfolding turn_into
  turn_into-mix_to v i j = ap (set v i) (turned (bit_xor (at v i) (at v j)))

  stepped :
      (v w : List ℕ) (i j x d : ℕ)
      → v ≡ w
      → turn_into (sum_into v i j x) d i k ≡ mix_to (add_to w i j x) d i k
  stepped v w i j x d e =
      ap (λ u. turn_into u d i k) (ap (λ u. sum_into u i j x) e ∙ sum_into-add_to w i j x)
      ∙ turn_into-mix_to (add_to w i j x) d i

mixing-quarter_round :
    (v w : List ℕ) (a b c d x y : ℕ)
    → v ≡ w
    → mixing v a b c d x y ≡ blake2b_mix_quarter_round w a b c d x y
unfolding mixing blake2b_mix_quarter_round
mixing-quarter_round v w a b c d x y e =
    let e₁ = stepped 32 turn_32 v w a b x d e in
    let e₂ = stepped 24 turn_24 _ _ c d 0 b e₁ in
    let e₃ = stepped 16 turn_16 _ _ a b y d e₂ in stepped 63 turn_63 _ _ c d 0 b e₃

sigma_mod : (i : ℕ) → i < 12 → get_or sigma (i % 10) [] ≡ get_or blake2_sigma i []
sigma_mod zero h = refl
sigma_mod (suc zero) h = refl
sigma_mod (suc (suc zero)) h = refl
sigma_mod (suc (suc (suc zero))) h = refl
sigma_mod (suc (suc (suc (suc zero)))) h = refl
sigma_mod (suc (suc (suc (suc (suc zero))))) h = refl
sigma_mod (suc (suc (suc (suc (suc (suc zero)))))) h = refl
sigma_mod (suc (suc (suc (suc (suc (suc (suc zero))))))) h = refl
sigma_mod (suc (suc (suc (suc (suc (suc (suc (suc zero)))))))) h = refl
sigma_mod (suc (suc (suc (suc (suc (suc (suc (suc (suc zero))))))))) h = refl
sigma_mod (suc (suc (suc (suc (suc (suc (suc (suc (suc (suc zero)))))))))) h = refl
sigma_mod (suc (suc (suc (suc (suc (suc (suc (suc (suc (suc (suc zero))))))))))) h = refl
sigma_mod (suc (suc (suc (suc (suc (suc (suc (suc (suc (suc (suc (suc i)))))))))))) h =
    absurd (omega arith)

eight-double_round :
    (v m : List ℕ) (i : ℕ) → eight v m (get_or blake2_sigma i []) ≡ blake2b_mix_double_round v m i
unfolding eight blake2b_mix_double_round
eight-double_round v m i =
    let s = get_or blake2_sigma i [] in
    let word = λ (k : ℕ). at m (at s k) in
    let e₁ = mixing-quarter_round v v 0 4 8 12 (word 0) (word 1) refl in
    let e₂ = mixing-quarter_round _ _ 1 5 9 13 (word 2) (word 3) e₁ in
    let e₃ = mixing-quarter_round _ _ 2 6 10 14 (word 4) (word 5) e₂ in
    let e₄ = mixing-quarter_round _ _ 3 7 11 15 (word 6) (word 7) e₃ in
    let e₅ = mixing-quarter_round _ _ 0 5 10 15 (word 8) (word 9) e₄ in
    let e₆ = mixing-quarter_round _ _ 1 6 11 12 (word 10) (word 11) e₅ in
    let e₇ = mixing-quarter_round _ _ 2 7 8 13 (word 12) (word 13) e₆ in
    mixing-quarter_round _ _ 3 4 9 14 (word 14) (word 15) e₇

round-double_round : (v m : List ℕ) (i : ℕ) → i < 12 → round v m i ≡ blake2b_mix_double_round v m i
unfolding round
round-double_round v m i h = ap (eight v m) (sigma_mod i h) ∙ eight-double_round v m i

rounds-double_rounds :
    (left i : ℕ) (v m : List ℕ) → i + left ≤ 12 → rounds left i v m ≡ double_rounds left i v m
unfolding rounds double_rounds
rounds-double_rounds zero i v m h = refl
rounds-double_rounds (suc left) i v m h =
    ap (λ u. rounds left (i + 1) u m) (round-double_round v m i (omega arith))
    ∙ rounds-double_rounds left (i + 1) (blake2b_mix_double_round v m i) m (omega arith)

xor_all-both_halves : (h x y : List ℕ) → both_halves h x y ≡ xor_all (xor_all h x) y
unfolding xor_all
xor_all-both_halves [] x y = refl
xor_all-both_halves (h ∷ hs) [] y = refl
xor_all-both_halves (h ∷ hs) (x ∷ xs) [] = refl
xor_all-both_halves (h ∷ hs) (x ∷ xs) (y ∷ ys) =
    ap (bit_xor (bit_xor h x) y ∷◌) (xor_all-both_halves hs xs ys)

-- The vector that the rounds start from.
abbrev start : List ℕ → ℕ → ℕ → Bool → List ℕ
start h lo hi f =
    let v = h ++ iv in
    let v₁ = set v 12 (bit_xor (at v 12) lo) in
    let v₂ = set v₁ 13 (bit_xor (at v₁ 13) hi) in
    if f then set v₂ 14 (2 ^ 64 - 1 - at v₂ 14) else v₂

-- The code compresses as section 3.2 has it, for counts of less than 2 ^ 64 bytes.
pub compression-compress :
    (h m : List ℕ) (t : ℕ) (f : Bool)
    → t < 2 ^ 64
    → compression h m t f ≡ blake2b_compress h m t 0 f
unfolding compression blake2b_compress
compression-compress h m t f lt =
    let low : t % 2 ^ 64 ≡ t = omega arith in
    let high : t / 2 ^ 64 ≡ 0 = omega arith in
    ap₂
      (λ lo hi.
        both_halves h (take 8 (rounds 12 0 (start h lo hi f) m))
          (drop 8 (rounds 12 0 (start h lo hi f) m)))
      low high
    ∙ (ap (λ v. both_halves h (take 8 v) (drop 8 v))
          (rounds-double_rounds 12 0 (start h t 0 f) m (omega arith))
        ∙ xor_all-both_halves h (take 8 (double_rounds 12 0 (start h t 0 f) m))
            (drop 8 (double_rounds 12 0 (start h t 0 f) m)))
