-- ===== src/Random/Draw.antt =====
-- Drawing random bytes always ends, and keeps the state well formed.
use ukoos.Prelude.{
  ℕ, zero, suc, ◌*◌, ◌%◌, ◌^◌, ◌<◌, ◌≡◌, refl, ap, ◌∙◌, arith, true, false, Bool-cases, inl, inr,
  List, take, drop, length, length-take, length-drop, length-append, ok, Yields,
}
use ukoos.Crypto.Words.{IsArray}
use ukoos.Crypto.Bytes.{length-bytes_of_words, bytes_of_words-AllBelow}
use ukoos.Crypto.Blake2s.{Blake2sHasher, blake2s_init, blake2s_finish}
use ukoos.Random.{
  RandomRng, Random, zero_nonce, rng_block, rng_getrandom, should_reinit, ensure_hart_local_rng,
  getrandom,
}
use ukoos.Random.Pool.{IsPool, blake2s_finish-IsArray, blake2s_init-IsPool}
use ukoos.Crypto.Chacha20.{
  chacha20_state_init, chacha20_block, chacha20_keystream, block_bytes, next_block,
}
use ukoos.Crypto.Chacha20.Block.{chacha20_block-IsState, chacha20_state_init-IsState}
use ukoos.Crypto.Chacha20.Stream.{
  blocks, chacha20_keystream-blocks, take-AllBelow, drop-AllBelow, length-block_bytes,
}

-- The generator of a hart: once it is initialised, its state is a key.
abbrev pub IsRng : RandomRng → Type 0
IsRng rng = rng.inited ≡ true → IsArray 32 (2 ^ 8) rng.state

abbrev pub IsRandom : Random → Type 0
IsRandom s = IsPool s.entropy_pool × IsRng s.rng

ensure_hart_local_rng-fresh :
    (s : Random) (seed : List ℕ) (pool : Blake2sHasher)
    → should_reinit s ≡ true
    → blake2s_finish s.entropy_pool ≡ ok seed
    → blake2s_init s.entropy_pool 32 seed ≡ ok pool
    → ensure_hart_local_rng s
      ≡ ok (record s {
        entropy_pool = pool;
        rng = record {
          state = seed;
          inited = true;
          entropy_estimate = s.global_entropy_estimate % 2 ^ 63;
        };
      })
unfolding ensure_hart_local_rng
ensure_hart_local_rng-fresh s seed pool e run run' = rw (e, run, run') refl

ensure_hart_local_rng-same : (s : Random) → should_reinit s ≡ false → ensure_hart_local_rng s ≡ ok s
unfolding ensure_hart_local_rng
ensure_hart_local_rng-same s e = rw e refl

should_reinit-inited : (s : Random) → should_reinit s ≡ false → (s.rng).inited ≡ true
unfolding should_reinit
should_reinit-inited s e = ground arith

-- The generator is there afterwards, whatever it was before.
ensure_hart_local_rng-IsRandom :
    (s : Random)
    → IsRandom s
    → Yields (ensure_hart_local_rng s) (λ s'. IsRandom s' × ((s'.rng).inited ≡ true))
ensure_hart_local_rng-IsRandom s (pool, rng) = elim (Bool-cases (should_reinit s)) [
  | inl again ↦
      let (seed, run, key) = blake2s_finish-IsArray s.entropy_pool pool in
      let (h, run', is_pool) = blake2s_init-IsPool s.entropy_pool seed key.size in
      (
        record s {
          entropy_pool = h;
          rng = record {
            state = seed;
            inited = true;
            entropy_estimate = s.global_entropy_estimate % 2 ^ 63;
          };
        },
        ensure_hart_local_rng-fresh s seed h again run run',
        ((is_pool, λ e. key), refl),
      )
  | inr keep ↦ (s, ensure_hart_local_rng-same s keep, ((pool, rng), should_reinit-inited s keep))
]

zero_nonce-IsArray : IsArray 3 (2 ^ 32) zero_nonce
zero_nonce-IsArray = record { size = refl; below = (omega arith, (omega arith, (omega arith, tt))) }

rng_block-IsArray :
    (rng : RandomRng) → IsArray 32 (2 ^ 8) rng.state → IsArray 64 (2 ^ 8) (rng_block rng)
rng_block-IsArray rng key =
    let words = chacha20_block (chacha20_state_init rng.state 0 zero_nonce) in
    let state =
      chacha20_block-IsState (chacha20_state_init rng.state 0 zero_nonce)
        (chacha20_state_init-IsState rng.state zero_nonce 0 key zero_nonce-IsArray (omega arith)) in
    record {
      size = length-bytes_of_words words ∙ ap (λ n. 4 * n) state.size;
      below = bytes_of_words-AllBelow words;
    }

length-blocks :
    (key : List ℕ)
    → IsArray 32 (2 ^ 8) key
    → (n bc : ℕ) → bc < 2 ^ 32
    → length (blocks key zero_nonce n bc) ≡ 64 * n
length-blocks key array zero bc lt = omega arith
length-blocks key array (suc n) bc lt =
    length-append (block_bytes key zero_nonce bc) (blocks key zero_nonce n (next_block bc))
    ∙ omega (
      arith,
      length-block_bytes key zero_nonce array zero_nonce-IsArray bc lt,
      length-blocks key array n (next_block bc) (omega arith),
    )

length-keystream :
    (key : List ℕ) (len : ℕ)
    → IsArray 32 (2 ^ 8) key
    → Yields (chacha20_keystream key 0 zero_nonce len) (λ out. length out ≡ len)
length-keystream key len array =
    let bytes = blocks key zero_nonce len 0 in
    let size = length-blocks key array len 0 (omega arith) in
    (
      take len bytes,
      chacha20_keystream-blocks key zero_nonce 0 len len array zero_nonce-IsArray (omega arith)
          (omega arith),
      length-take len bytes ∙ omega (arith, size),
    )

rng_getrandom-run :
    (rng : RandomRng) (len : ℕ) (out : List ℕ)
    → rng.inited ≡ true
    → chacha20_keystream (take 32 (drop 32 (rng_block rng))) 0 zero_nonce len ≡ ok out
    → rng_getrandom rng len ≡ ok (out, record rng { state = take 32 (rng_block rng) })
unfolding rng_getrandom
rng_getrandom-run rng len out on run = rw (on, run) refl

rng_getrandom-IsRng :
    (rng : RandomRng) (len : ℕ)
    → rng.inited ≡ true
    → IsArray 32 (2 ^ 8) rng.state
    → Yields (rng_getrandom rng len) (λ r. (length r.0 ≡ len) × IsRng r.1)
rng_getrandom-IsRng rng len on key =
    let block = rng_block-IsArray rng key in
    let bytes = rng_block rng in
    let back : length (drop 32 bytes) ≡ 32 = length-drop 32 bytes ∙ omega (arith, block.size) in
    let (out, run, size) = length-keystream (take 32 (drop 32 bytes)) len (record {
      size = length-take 32 (drop 32 bytes) ∙ omega (arith, back);
      below = take-AllBelow (2 ^ 8) 32 (drop 32 bytes) (drop-AllBelow (2 ^ 8) 32 bytes block.below);
    }) in
    (
      (out, record rng { state = take 32 bytes }),
      rng_getrandom-run rng len out on run,
      (
        size,
        λ e. record {
          size = length-take 32 bytes ∙ omega (arith, block.size);
          below = take-AllBelow (2 ^ 8) 32 bytes block.below;
        },
      ),
    )

getrandom-run :
    (len : ℕ) (s s' : Random) (out : List ℕ) (rng : RandomRng)
    → ensure_hart_local_rng s ≡ ok s'
    → rng_getrandom s'.rng len ≡ ok (out, rng)
    → getrandom len s ≡ ok (out, record s' { rng = rng })
unfolding getrandom
getrandom-run len s s' out rng run run' = rw (run, run') refl

-- With a hasher for 32 bytes as the pool, whose count does not carry, and a generator whose state
-- is 32 bytes once it is initialised: `getrandom` ends without a failed assertion, gives as many
-- bytes as asked for, and leaves a state of that kind.
pub getrandom-IsRandom :
    (len : ℕ) (s : Random)
    → IsRandom s
    → Yields (getrandom len s) (λ r. (length r.0 ≡ len) × IsRandom r.1)
getrandom-IsRandom len s ok_state =
    let (s', run, ((pool, rng), on)) = ensure_hart_local_rng-IsRandom s ok_state in
    let (r, run', (size, rng')) = rng_getrandom-IsRng s'.rng len on (rng on) in
    ((r.0, record s' { rng = r.1 }), getrandom-run len s s' r.0 r.1 run run', (size, (pool, rng')))
