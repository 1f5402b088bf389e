-- ===== src/Crypto/Blake2s/Stream.antt =====
-- `blake2s_update` takes its bytes one by one, whatever the pieces they come in.
use ukoos.Prelude.{
  ℕ, zero, suc, ◌+◌, ◌-◌, ◌≤◌, ◌<◌, ◌≡◌, inl, inr, refl, sym, ap, ◌∙◌, arith, true, false, le→leb,
  ◌==◌, if◌then◌else◌, Bool-cases, List, [], ◌∷◌, ◌++◌, min, length, set, take, drop,
  take-append-drop, length-take, length-drop, Run, ok, panic, out_of_fuel, ◌>>=◌,
}
use ukoos.Crypto.Blake2s.{
  Blake2sHasher, add_to_count, make_room, compress_buffer, fill, update_loop, blake2s_update,
}

-- The byte is put behind those that the buffer has.
abbrev pub put : Blake2sHasher → ℕ → Blake2sHasher
put h b = record {
  buffer = set h.buffer h.buffer_len b;
  hash_state = h.hash_state;
  byte_count_lo = h.byte_count_lo;
  byte_count_hi = h.byte_count_hi;
  buffer_len = suc h.buffer_len;
  hash_len = h.hash_len;
}

-- One byte at a time.
abbrev pub push_all : Blake2sHasher → List ℕ → Run Blake2sHasher
push_all h [] = ok h
push_all h (b ∷ bs) = make_room h >>= λ h'. push_all (put h' b) bs

-- A result has room for a byte.
abbrev HasRoom : Run Blake2sHasher → Type 0
HasRoom (ok h) = h.buffer_len < 64
HasRoom panic = Unit
HasRoom out_of_fuel = Unit

>>=-HasRoom :
    (m : Run (ℕ × ℕ)) (f : ℕ × ℕ → Blake2sHasher)
    → ((c : ℕ × ℕ) → (f c).buffer_len < 64)
    → HasRoom (m >>= λ c. ok (f c))
>>=-HasRoom (ok c) f e = e c
>>=-HasRoom panic f e = tt
>>=-HasRoom out_of_fuel f e = tt

make_room-eq :
    (h : Blake2sHasher)
    → make_room h ≡ (
        if h.buffer_len == 64
        then (add_to_count h.byte_count_lo h.byte_count_hi 64 >>= λ counts.
            ok (compress_buffer h counts))
        else ok h)
unfolding make_room
make_room-eq h = refl

pub make_room_full :
    (h : Blake2sHasher)
    → (h.buffer_len == 64) ≡ true
    → make_room h ≡ (
        add_to_count h.byte_count_lo h.byte_count_hi 64 >>= λ counts. ok (compress_buffer h counts))
make_room_full h full = make_room-eq h ∙ rw full refl

buffer_len-compress_buffer :
    (h : Blake2sHasher) (counts : ℕ × ℕ) → (compress_buffer h counts).buffer_len ≡ 0
unfolding compress_buffer
buffer_len-compress_buffer h counts = refl

pub make_room_none : (h : Blake2sHasher) → h.buffer_len < 64 → make_room h ≡ ok h
make_room_none h lt =
    let e : (h.buffer_len == 64) ≡ false = ground arith in make_room-eq h ∙ rw e refl

make_room-HasRoom : (h : Blake2sHasher) → h.buffer_len ≤ 64 → HasRoom (make_room h)
make_room-HasRoom h le = elim (Bool-cases (h.buffer_len == 64)) [
  | inl full ↦ rw (make_room_full h full) (
      >>=-HasRoom (add_to_count h.byte_count_lo h.byte_count_hi 64) (compress_buffer h)
        (λ counts. omega (arith, buffer_len-compress_buffer h counts)))
  | inr more ↦ rw (make_room_none h (ground arith)) (ground arith)
]

-- Two continuations that agree on the results with room agree.
>>=_room :
    (m : Run Blake2sHasher) (f g : Blake2sHasher → Run Blake2sHasher)
    → HasRoom m
    → ((h : Blake2sHasher) → h.buffer_len < 64 → f h ≡ g h)
    → (m >>= f) ≡ (m >>= g)
>>=_room (ok h) f g room e = e h room
>>=_room panic f g room e = refl
>>=_room out_of_fuel f g room e = refl

>>=_assoc :
    {A B C : Type 0} (m : Run A) (f : A → Run B) (g : B → Run C)
    → ((m >>= f) >>= g) ≡ (m >>= λ a. f a >>= g)
>>=_assoc (ok a) f g = refl
>>=_assoc panic f g = refl
>>=_assoc out_of_fuel f g = refl

fill_none : (h : Blake2sHasher) → fill h [] ≡ h
unfolding fill
fill_none h = let e : h.buffer_len + 0 ≡ h.buffer_len = omega arith in rw e refl

fill-put : (h : Blake2sHasher) (b : ℕ) (bs : List ℕ) → fill h (b ∷ bs) ≡ fill (put h b) bs
unfolding fill
fill-put h b bs =
    let e : h.buffer_len + suc (length bs) ≡ suc h.buffer_len + length bs = omega arith in rw e refl

-- What fits into the buffer is copied at once.
pub push_all-fill :
    (h : Blake2sHasher) (xs ys : List ℕ)
    → h.buffer_len + length xs ≤ 64
    → push_all h (xs ++ ys) ≡ push_all (fill h xs) ys
push_all-fill h [] ys le = ap (λ k. push_all k ys) (sym (fill_none h))
push_all-fill h (x ∷ xs) ys le =
    rw (make_room_none h (omega arith)) (push_all-fill (put h x) xs ys (omega arith))
    ∙ ap (λ k. push_all k ys) (sym (fill-put h x xs))

buffer_len-fill :
    (h : Blake2sHasher) (bs : List ℕ) → (fill h bs).buffer_len ≡ h.buffer_len + length bs
unfolding fill
buffer_len-fill h bs = refl

-- Where there is room for a byte, a turn takes as many as it does one by one.
turn-push_all :
    (h : Blake2sHasher) (b n : ℕ) (bs : List ℕ)
    → h.buffer_len < 64
    → h.buffer_len + length (take n (b ∷ bs)) ≤ 64
    → push_all (fill h (take n (b ∷ bs))) (drop n (b ∷ bs)) ≡ push_all (put h b) bs
turn-push_all h b n bs room le =
    sym (push_all-fill h (take n (b ∷ bs)) (drop n (b ∷ bs)) le)
    ∙ ap (push_all h) (take-append-drop n (b ∷ bs))
    ∙ ap (λ m. m >>= λ h'. push_all (put h' b) bs) (make_room_none h room)

update_loop-push_all :
    (fuel : ℕ) (h : Blake2sHasher) (bytes : List ℕ)
    → length bytes ≤ fuel
    → h.buffer_len ≤ 64
    → update_loop fuel h bytes ≡ push_all h bytes
unfolding update_loop
update_loop-push_all zero h [] enough le = refl
update_loop-push_all (suc fuel) h [] enough le = refl
update_loop-push_all zero h (b ∷ bs) enough le = absurd (omega arith)
update_loop-push_all (suc fuel) h (b ∷ bs) enough le =
    >>=_room (make_room h) _ (λ h'. push_all (put h' b) bs) (make_room-HasRoom h le)
      (λ h' room.
        let n = min (length (b ∷ bs)) (64 - h'.buffer_len) in
        let fits : h'.buffer_len + length (take n (b ∷ bs)) ≤ 64 =
          omega (arith, length-take n (b ∷ bs)) in
        update_loop-push_all fuel (fill h' (take n (b ∷ bs))) (drop n (b ∷ bs))
          (omega (arith, length-drop n (b ∷ bs)))
          (omega (arith, buffer_len-fill h' (take n (b ∷ bs))))
        ∙ turn-push_all h' b n bs room fits)

-- With a buffer that is not overfull, `blake2s_update` pushes its bytes one by one: it runs out of no fuel, and fails where a push of one of them does.
pub blake2s_update-push_all :
    (h : Blake2sHasher) (bytes : List ℕ)
    → h.buffer_len ≤ 64
    → blake2s_update h bytes ≡ push_all h bytes
unfolding blake2s_update
blake2s_update-push_all h bytes le =
    rw (le→leb h.buffer_len 64 le) (update_loop-push_all (length bytes) h bytes (omega arith) le)

push_all-blake2s_update :
    (h : Blake2sHasher) (xs ys : List ℕ)
    → h.buffer_len ≤ 64
    → (push_all h xs >>= λ h'. blake2s_update h' ys) ≡ push_all h (xs ++ ys)
push_all-blake2s_update h [] ys le = blake2s_update-push_all h ys le
push_all-blake2s_update h (x ∷ xs) ys le =
    >>=_assoc (make_room h) (λ h'. push_all (put h' x) xs) (λ h'. blake2s_update h' ys)
    ∙ >>=_room (make_room h) _ _ (make_room-HasRoom h le)
        (λ h' room. push_all-blake2s_update (put h' x) xs ys room)

-- With a buffer that is not overfull, an update with two pieces one after the other does what one update with both does, failures included.
pub blake2s_update-append :
    (h : Blake2sHasher) (xs ys : List ℕ)
    → h.buffer_len ≤ 64
    → (blake2s_update h xs >>= λ h'. blake2s_update h' ys) ≡ blake2s_update h (xs ++ ys)
blake2s_update-append h xs ys le =
    ap (λ m. m >>= λ h'. blake2s_update h' ys) (blake2s_update-push_all h xs le)
    ∙ push_all-blake2s_update h xs ys le
    ∙ sym (blake2s_update-push_all h (xs ++ ys) le)
