-- ===== src/Fnv1a/Tests.antt =====
-- The hash of a few bytes.
use ukoos.Prelude.{◌≡◌, refl, [], ◌∷◌}
use ukoos.Fnv1a.{Fnv1aHasher, fnv1a_offset_basis, fnv1a_hash_bytes}

abbrev start : Fnv1aHasher
start = record { hash = fnv1a_offset_basis }

-- The published hash of "a".
fnv1a_of_a : (fnv1a_hash_bytes start (97 ∷ [])).hash ≡ 0xaf63dc4c8601ec8c
unfolding fnv1a_hash_bytes
fnv1a_of_a = refl
