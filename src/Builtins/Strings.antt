-- ===== src/Builtins/Strings.antt =====
-- What `memcmp`, `strcmp`, `strlen` and `strnlen` say of the sequences of bytes.
use ukoos.Prelude.{
  ℕ, zero, suc, ◌+◌, ◌≤◌, ◌≡◌, ◌≢◌, ◌↔◌, refl, sym, ap, ap₂, ◌∙◌, arith, true, false, ◌==◌, ==_iff,
  Bool-cases, inl, inr, min, List, [], ◌∷◌, ◌++◌, take, length, some,
}
use ukoos.Builtins.{pos, memcmp, strcmp, count_loop, bounded_loop, strlen, strnlen}

-- A sequence without the byte 0.
abbrev pub IsText : List ℕ → Type 0
IsText [] = Unit
IsText (x ∷ xs) = ((x == 0) ≡ false) × IsText xs

module _ {ℓ} {A : Type ℓ} where
  ∷-head : (x y : A) (xs ys : List A) → x ∷ xs ≡ y ∷ ys → x ≡ y
  ∷-head x y xs ys e = cc

  ∷-tail : (x y : A) (xs ys : List A) → x ∷ xs ≡ y ∷ ys → xs ≡ ys
  ∷-tail x y xs ys e = cc

memcmp-same :
    (x y : ℕ) (xs ys : List ℕ) (n : ℕ)
    → (x == y) ≡ true
    → memcmp (x ∷ xs) (y ∷ ys) (suc n) ≡ memcmp xs ys n
unfolding memcmp
memcmp-same x y xs ys n e = ground arith

memcmp-differs :
    (x y : ℕ) (xs ys : List ℕ) (n : ℕ)
    → (x == y) ≡ false
    → memcmp (x ∷ xs) (y ∷ ys) (suc n) ≢ some (pos 0)
unfolding memcmp
memcmp-differs x y xs ys n e m = ground arith

strcmp-same :
    (x y : ℕ) (xs ys : List ℕ)
    → (x == y) ≡ true
    → (x == 0) ≡ false
    → strcmp (x ∷ xs) (y ∷ ys) ≡ strcmp xs ys
unfolding strcmp
strcmp-same x y xs ys e ne = rw (e, ne) refl

strcmp-differs :
    (x y : ℕ) (xs ys : List ℕ) → (x == y) ≡ false → strcmp (x ∷ xs) (y ∷ ys) ≢ some (pos 0)
unfolding strcmp
strcmp-differs x y xs ys e m = ground arith

-- For two sequences of `n` bytes or more, `memcmp` of `n` bytes is 0 exactly if the first `n` bytes are the same.
pub memcmp_zero :
    (xs ys : List ℕ) (n : ℕ)
    → n ≤ length xs
    → n ≤ length ys
    → (memcmp xs ys n ≡ some (pos 0)) ↔ (take n xs ≡ take n ys)
unfolding memcmp
memcmp_zero xs ys zero h k = (λ e. refl, λ e. refl)
memcmp_zero [] ys (suc n) h k = ground arith
memcmp_zero (x ∷ xs) [] (suc n) h k = ground arith
memcmp_zero (x ∷ xs) (y ∷ ys) (suc n) h k =
    let (to, from) = memcmp_zero xs ys n (omega arith) (omega arith) in
    elim (Bool-cases (x == y)) [
      | inl same ↦
          let step = memcmp-same x y xs ys n same in
          (
            λ e. ap₂ ◌∷◌ ((==_iff x y).0 same) (to (sym step ∙ e)),
            λ e. step ∙ from (∷-tail x y (take n xs) (take n ys) e),
          )
      | inr differ ↦ (
        λ e. absurd (memcmp-differs x y xs ys n differ e),
        λ e. absurd (cc (differ, (==_iff x y).1 (∷-head x y (take n xs) (take n ys) e))),
      )
    ]

-- For two texts that end with the byte 0, `strcmp` is 0 exactly if they are the same.
pub strcmp_zero :
    (xs ys us vs : List ℕ)
    → IsText xs
    → IsText ys
    → (strcmp (xs ++ (0 ∷ us)) (ys ++ (0 ∷ vs)) ≡ some (pos 0)) ↔ (xs ≡ ys)
unfolding strcmp
strcmp_zero [] [] us vs h k = (λ e. refl, λ e. refl)
strcmp_zero [] (y ∷ ys) us vs h k = (λ e. let ne = k.0 in ground arith, λ e. ground arith)
strcmp_zero (x ∷ xs) [] us vs h k = (λ e. let ne = h.0 in ground arith, λ e. ground arith)
strcmp_zero (x ∷ xs) (y ∷ ys) us vs (hx, h) (ky, k) =
    let (to, from) = strcmp_zero xs ys us vs h k in
    elim (Bool-cases (x == y)) [
      | inl same ↦
          let step = strcmp-same x y (xs ++ (0 ∷ us)) (ys ++ (0 ∷ vs)) same hx in
          (
            λ e. ap₂ ◌∷◌ ((==_iff x y).0 same) (to (sym step ∙ e)),
            λ e. step ∙ from (∷-tail x y xs ys e),
          )
      | inr differ ↦ (
        λ e. absurd (strcmp-differs x y (xs ++ (0 ∷ us)) (ys ++ (0 ∷ vs)) differ e),
        λ e. absurd (cc (differ, (==_iff x y).1 (∷-head x y xs ys e))),
      )
    ]

count_loop-length :
    (n : ℕ) (xs us : List ℕ) → IsText xs → count_loop n (xs ++ (0 ∷ us)) ≡ some (n + length xs)
unfolding count_loop
count_loop-length n [] us h = ap some (omega arith)
count_loop-length n (x ∷ xs) us (ne, h) =
    let total : n + 1 + length xs ≡ n + suc (length xs) = omega arith in
    rw ne (count_loop-length (n + 1) xs us h ∙ ap some total)

bounded_loop-min :
    (n m : ℕ) (xs us : List ℕ)
    → IsText xs
    → bounded_loop n (xs ++ (0 ∷ us)) m ≡ some (n + min m (length xs))
unfolding bounded_loop
bounded_loop-min n zero [] us h = ap some (omega arith)
bounded_loop-min n zero (x ∷ xs) us h = ap some (omega arith)
bounded_loop-min n (suc m) [] us h = ap some (omega arith)
bounded_loop-min n (suc m) (x ∷ xs) us (ne, h) =
    let total : n + 1 + min m (length xs) ≡ n + min (suc m) (suc (length xs)) = omega arith in
    rw ne (bounded_loop-min (n + 1) m xs us h ∙ ap some total)

-- For a text that ends with the byte 0, `strlen` is the number of its bytes, and `strnlen` the smaller one of that and the limit.
pub strnlen-strlen :
    (xs us : List ℕ) (m : ℕ)
    → IsText xs
    → (strlen (xs ++ (0 ∷ us)) ≡ some (length xs))
      × (strnlen (xs ++ (0 ∷ us)) m ≡ some (min m (length xs)))
unfolding strlen strnlen
strnlen-strlen xs us m h = (
  count_loop-length 0 xs us h ∙ ap some (omega arith),
  bounded_loop-min 0 m xs us h ∙ ap some (omega arith),
)
