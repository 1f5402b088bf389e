-- ===== src/Crypto/Blake2s/Count.antt =====
-- What `blake2s_update` counts, and that it ends normally.
use ukoos.Prelude.{
  ℕ, ◌+◌, ◌^◌, ◌≤◌, ◌<◌, ◌≡◌, inl, inr, refl, ap, ◌∙◌, arith, true, ◌==◌, lt→ltb, Bool-cases, List,
  [], ◌∷◌, length, ok, ◌>>=◌, Yields,
}
use ukoos.Crypto.Blake2s.{Blake2sHasher, add_to_count, compress_buffer, make_room, blake2s_update}
use ukoos.Crypto.Blake2s.Stream.{
  put, push_all, make_room_none, make_room_full, blake2s_update-push_all,
}

-- The bytes that the hasher has taken since the last carry of its count.
abbrev pub taken : Blake2sHasher → ℕ
taken h = h.byte_count_lo + h.buffer_len

pub add_to_count-ok : (lo hi n : ℕ) → lo + n < 2 ^ 32 → add_to_count lo hi n ≡ ok (lo + n, hi)
unfolding add_to_count
add_to_count-ok lo hi n h = rw (lt→ltb (lo + n) (2 ^ 32) h) refl

make_room_counted :
    (h : Blake2sHasher)
    → (h.buffer_len == 64) ≡ true
    → h.byte_count_lo + 64 < 2 ^ 32
    → make_room h ≡ ok (compress_buffer h (h.byte_count_lo + 64, h.byte_count_hi))
make_room_counted h full lt =
    make_room_full h full
    ∙ ap (λ m. m >>= λ counts. ok (compress_buffer h counts))
        (add_to_count-ok h.byte_count_lo h.byte_count_hi 64 lt)

abbrev Room : Blake2sHasher → Blake2sHasher → Type 0
Room h h' =
    (h'.buffer_len < 64)
    × (taken h' ≡ taken h)
    × (h'.byte_count_hi ≡ h.byte_count_hi)
    × (h'.hash_len ≡ h.hash_len)

compress_buffer-Room :
    (h : Blake2sHasher)
    → (h.buffer_len == 64) ≡ true
    → Room h (compress_buffer h (h.byte_count_lo + 64, h.byte_count_hi))
unfolding compress_buffer
compress_buffer-Room h full = (omega arith, ground arith, refl, refl)

make_room-Room :
    (h : Blake2sHasher) → h.buffer_len ≤ 64 → taken h < 2 ^ 32 → Yields (make_room h) (Room h)
make_room-Room h le lt = elim (Bool-cases (h.buffer_len == 64)) [
  | inl full ↦ (_, make_room_counted h full (ground arith), compress_buffer-Room h full)
  | inr more ↦ (h, make_room_none h (ground arith), (ground arith, refl, refl, refl))
]

abbrev pub Counted : Blake2sHasher → ℕ → Blake2sHasher → Type 0
Counted h n h' =
    (h'.buffer_len ≤ 64)
    × (taken h' ≡ taken h + n)
    × (h'.byte_count_hi ≡ h.byte_count_hi)
    × (h'.hash_len ≡ h.hash_len)

push_all-Counted :
    (h : Blake2sHasher) (bytes : List ℕ)
    → h.buffer_len ≤ 64
    → taken h + length bytes < 2 ^ 32
    → Yields (push_all h bytes) (Counted h (length bytes))
push_all-Counted h [] le lt = (h, refl, (le, omega arith, refl, refl))
push_all-Counted h (b ∷ bs) le lt =
    let (h', run, (room, same, hi, out)) = make_room-Room h le (omega arith) in
    let (h'', run', (le', count, hi', out')) =
      push_all-Counted (put h' b) bs (omega arith) (omega (arith, same)) in
    (h'', rw run run', (le', omega (arith, same, count), hi' ∙ hi, out' ∙ out))

-- With a buffer that is not overfull and a count that does not carry, `blake2s_update` ends normally, adds the number of its bytes to the bytes taken, leaves the upper word of the count and the length of the hash, and its buffer is not overfull.
pub blake2s_update-Counted :
    (h : Blake2sHasher) (bytes : List ℕ)
    → h.buffer_len ≤ 64
    → taken h + length bytes < 2 ^ 32
    → Yields (blake2s_update h bytes) (Counted h (length bytes))
blake2s_update-Counted h bytes le lt =
    let (h', run, counted) = push_all-Counted h bytes le lt in
    (h', blake2s_update-push_all h bytes le ∙ run, counted)
