-- ===== src/Print/Escape.antt =====
-- A text in which every brace is doubled is printed as the text.
use ukoos.Prelude.{
  ℕ, zero, suc, ◌<◌, ◌≡◌, refl, ap, ◌∙◌, true, false, ◌==◌, inl, inr, if◌then◌else◌, List, [], ◌∷◌,
  length, some, arith, Bool-cases,
}
use ukoos.Print.Directive.{Argument, then_write, vfprint}

abbrev pub escape : List ℕ → List ℕ
escape [] = []
escape (c ∷ cs) =
    if c == b'{'
    then c ∷ c ∷ escape cs
    else (if c == b'}' then c ∷ c ∷ escape cs else c ∷ escape cs)

vfprint-plain :
    (fuel c : ℕ) (ds : List ℕ) (rest : List Argument)
    → (c == b'{') ≡ false
    → (c == b'}') ≡ false
    → vfprint (suc (suc fuel)) (c ∷ ds) rest ≡ then_write (c ∷ []) (vfprint (suc fuel) ds rest)
unfolding vfprint
vfprint-plain fuel c [] rest h k = rw (h, k) refl
vfprint-plain fuel c (d ∷ ds) rest h k = rw (h, k) refl

vfprint-open :
    (fuel c : ℕ) (ds : List ℕ) (rest : List Argument)
    → (c == b'{') ≡ true
    → vfprint (suc fuel) (c ∷ c ∷ ds) rest ≡ then_write (c ∷ []) (vfprint fuel ds rest)
unfolding vfprint
vfprint-open fuel c ds rest h = rw h refl

vfprint-close :
    (fuel c : ℕ) (ds : List ℕ) (rest : List Argument)
    → (c == b'{') ≡ false
    → (c == b'}') ≡ true
    → vfprint (suc fuel) (c ∷ c ∷ ds) rest ≡ then_write (c ∷ []) (vfprint fuel ds rest)
unfolding vfprint
vfprint-close fuel c ds rest h k = rw (h, k) refl

vfprint-nil : (fuel : ℕ) (rest : List Argument) → vfprint (suc fuel) [] rest ≡ some []
unfolding vfprint
vfprint-nil fuel rest = refl

-- A format that is any text with each of its braces doubled is printed by `vfprint` as that text,
-- whatever the arguments are, with fuel for more rounds than the text has bytes.
pub vfprint-escape :
    (fuel : ℕ) (cs : List ℕ) (rest : List Argument)
    → length cs < fuel
    → vfprint fuel (escape cs) rest ≡ some cs
vfprint-escape zero cs rest h = absurd (omega arith)
vfprint-escape (suc fuel) [] rest h = vfprint-nil fuel rest
vfprint-escape (suc zero) (c ∷ cs) rest h = absurd (omega arith)
vfprint-escape (suc (suc fuel)) (c ∷ cs) rest h =
    let ih = ap (then_write (c ∷ [])) (vfprint-escape (suc fuel) cs rest (omega arith)) in
    elim (Bool-cases (c == b'{')) [
      | inl e ↦ rw e (vfprint-open (suc fuel) c (escape cs) rest e ∙ ih)
      | inr e ↦ elim (Bool-cases (c == b'}')) [
        | inl k ↦ rw (e, k) (vfprint-close (suc fuel) c (escape cs) rest e k ∙ ih)
        | inr k ↦ rw (e, k) (vfprint-plain fuel c (escape cs) rest e k ∙ ih)
      ]
    ]
