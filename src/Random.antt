-- ===== src/Random.antt =====
-- src/kernel/random.c: the entropy pool, the generator of one hart, and the random numbers drawn
-- from it. The static variables and the generator are the fields of a record. The target is
-- little-endian, so that the words and the bytes of the union `chacha20_state` agree.
pub mod Pool
pub mod Draw
pub mod Tests
use ukoos.Prelude.{
  ℕ, ◌+◌, ◌-◌, ◌%◌, ◌^◌, Bool, true, false, not, ◌&&◌, ◌||◌, ltb, ◌==◌, if◌then◌else◌, List, [],
  ◌∷◌, take, drop, Run, ok, ◌>>=◌, ◌>>◌, assert,
}
use ukoos.Crypto.Bytes.{bytes_of_words}
use ukoos.Crypto.Blake2s.{Blake2sHasher, blake2s_init, blake2s_update, blake2s_finish}
use ukoos.Crypto.Chacha20.{chacha20_state_init, chacha20_block, chacha20_keystream}
use ukoos.Crypto.Blake2b.{word_of_list}

pub record RandomRng : Type 0 where
  pub state : List ℕ
  pub inited : Bool
  pub entropy_estimate : ℕ

pub record Random : Type 0 where
  pub entropy_pool : Blake2sHasher
  pub global_entropy_estimate : ℕ
  pub rng : RandomRng

unfoldable pub entropy_pool_init : Random → Run Random
entropy_pool_init s = do
  pool ← blake2s_init s.entropy_pool 32 []
  ok (record s { entropy_pool = pool })

unfoldable pub entropy_pool_credit : ℕ → Random → Random
entropy_pool_credit bits s = record s {
  global_entropy_estimate = (s.global_entropy_estimate + bits) % 2 ^ 64;
}

unfoldable pub entropy_pool_mix : List ℕ → Random → Run Random
entropy_pool_mix bytes s = do
  pool ← blake2s_update s.entropy_pool bytes
  ok (record s { entropy_pool = pool })

abbrev pub zero_nonce : List ℕ
zero_nonce = 0 ∷ 0 ∷ 0 ∷ []

-- The 64 bytes of the block at count 0, with the state of the generator as the key.
abbrev pub rng_block : RandomRng → List ℕ
rng_block rng = bytes_of_words (chacha20_block (chacha20_state_init rng.state 0 zero_nonce))

-- The bytes that are written to `ptr`, and the generator afterwards.
unfoldable pub rng_getrandom : RandomRng → ℕ → Run (List ℕ × RandomRng)
rng_getrandom rng len = do
  assert rng.inited
  let bytes = rng_block rng
  out ← chacha20_keystream (take 32 (drop 32 bytes)) 0 zero_nonce len
  ok (out, record rng { state = take 32 bytes })

unfoldable pub should_reinit : Random → Bool
should_reinit s =
    not (s.rng).inited
    || (((s.rng).entropy_estimate == 0 && not (s.global_entropy_estimate == 0))
        || ltb 256 ((s.global_entropy_estimate + 2 ^ 64 - (s.rng).entropy_estimate) % 2 ^ 64))

unfoldable pub ensure_hart_local_rng : Random → Run Random
ensure_hart_local_rng s =
    if should_reinit s
    then (do
      seed ← blake2s_finish s.entropy_pool
      pool ← blake2s_init s.entropy_pool 32 seed
      ok (record s {
        entropy_pool = pool;
        rng = record {
          state = seed;
          inited = true;
          entropy_estimate = s.global_entropy_estimate % 2 ^ 63;
        };
      }))
    else ok s

unfoldable pub getrandom : ℕ → Random → Run (List ℕ × Random)
getrandom len s = do
  s' ← ensure_hart_local_rng s
  (out, rng) ← rng_getrandom s'.rng len
  ok (out, record s' { rng = rng })

unfoldable pub random : Random → Run (ℕ × Random)
random s = do (bytes, s') ← getrandom 8 s; ok (word_of_list bytes, s')

unfoldable pub random_u32 : Random → Run (ℕ × Random)
random_u32 s = do (bytes, s') ← getrandom 4 s; ok (word_of_list bytes, s')

unfoldable pub random_u64 : Random → Run (ℕ × Random)
random_u64 s = do (bytes, s') ← getrandom 8 s; ok (word_of_list bytes, s')
