-- ===== src/Paging/Entry.antt =====
-- Page table entries and the words that hold them.
use ukoos.Prelude.{ℕ, ◌/◌, ◌%◌, ◌^◌, ◌<◌, ◌≡◌, Bool, true, false, ◌==◌, arith}
use ukoos.Paging.{Pte, bit, bits_of_pte, pte_of_bits}

bit-lt : (b : Bool) → bit b < 2
bit-lt true = omega arith
bit-lt false = omega arith

odd-bit : (b : Bool) (n : ℕ) → n % 2 ≡ bit b → (n % 2 == 1) ≡ b
odd-bit true n e = ground arith
odd-bit false n e = ground arith

-- The fields have the widths that the entry has for them.
abbrev pub FitsPte : Pte → Type 0
FitsPte p = (p.rsvd1 < 4) × (p.ppn < 2 ^ 44) × (p.rsvd0 < 2 ^ 10)

module _ (p : Pte) (fits : FitsPte p) where
  pub bits_of_pte-lt : bits_of_pte p < 2 ^ 64
  unfolding bits_of_pte
  bits_of_pte-lt = omega (
    arith,
    bit-lt p.valid,
    bit-lt p.readable,
    bit-lt p.writable,
    bit-lt p.executable,
    bit-lt p.user,
    bit-lt p.global,
    bit-lt p.accessed,
    bit-lt p.dirty,
  )

  pub pte_of_bits-bits_of_pte : pte_of_bits (bits_of_pte p) ≡ p
  unfolding pte_of_bits bits_of_pte
  pte_of_bits-bits_of_pte =
      let n = bits_of_pte p in
      let b0 = bit-lt p.valid in
      let b1 = bit-lt p.readable in
      let b2 = bit-lt p.writable in
      let b3 = bit-lt p.executable in
      let b4 = bit-lt p.user in
      let b5 = bit-lt p.global in
      let b6 = bit-lt p.accessed in
      let b7 = bit-lt p.dirty in
      λ i. record {
        valid = odd-bit p.valid (n) (omega arith) i;
        readable = odd-bit p.readable (n / 2) (omega arith) i;
        writable = odd-bit p.writable (n / 4) (omega arith) i;
        executable = odd-bit p.executable (n / 8) (omega arith) i;
        user = odd-bit p.user (n / 16) (omega arith) i;
        global = odd-bit p.global (n / 32) (omega arith) i;
        accessed = odd-bit p.accessed (n / 64) (omega arith) i;
        dirty = odd-bit p.dirty (n / 128) (omega arith) i;
        rsvd1 = (let e : n / 256 % 4 ≡ p.rsvd1 = omega arith in e i);
        ppn = (let e : n / 2 ^ 10 % 2 ^ 44 ≡ p.ppn = omega arith in e i);
        rsvd0 = (let e : n / 2 ^ 54 ≡ p.rsvd0 = omega arith in e i);
      }
