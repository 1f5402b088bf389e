-- ===== src/Random/Tests.antt =====
-- A generator of src/kernel/random.c that has not been initialised.
use ukoos.Prelude.{◌≡◌, refl, arith, false, replicate, length, Yields}
use ukoos.Crypto.Blake2s.{blake2s_iv}
use ukoos.Random.{Random, getrandom}
use ukoos.Random.Draw.{IsRandom, getrandom-IsRandom}

abbrev fresh : Random
fresh = record {
  entropy_pool = record {
    buffer = replicate 64 1;
    hash_state = blake2s_iv;
    byte_count_lo = 128;
    byte_count_hi = 0;
    buffer_len = 20;
    hash_len = 32;
  };
  global_entropy_estimate = 7;
  rng = record { state = replicate 32 0; inited = false; entropy_estimate = 0 };
}

getrandom-IsRandom_example : Yields (getrandom 70 fresh) (λ r. (length r.0 ≡ 70) × IsRandom r.1)
getrandom-IsRandom_example =
    getrandom-IsRandom 70 fresh ((omega arith, refl, refl, omega arith), λ e. ground (arith, e))
