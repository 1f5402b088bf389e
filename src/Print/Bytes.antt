-- ===== src/Print/Bytes.antt =====
-- src/kernel/print.c: Booleans, and bytes as a text or in hexadecimal.
use ukoos.Prelude.{
  ℕ, ◌/◌, ◌%◌, Bool, true, not, ◌&&◌, leb, ◌==◌, if◌then◌else◌, List, [], ◌∷◌, ◌++◌, Option, none,
  some,
}
use ukoos.Print.{codes, number_alphabet}

unfoldable pub format_bool : List ℕ → ℕ → List ℕ
format_bool args n = if n == 0 then codes "false" else codes "true"

-- The letter of a control character that has one.
unfoldable pub escape_letter : ℕ → Option ℕ
escape_letter c =
    if c == 0
    then some b'0'
    else (if c == 7
        then some b'a'
        else (if c == 8
            then some b'b'
            else (if c == 12
                then some b'f'
                else (if c == 10
                    then some b'n'
                    else (if c == 13
                        then some b'r'
                        else (if c == 9
                            then some b't'
                            else (if c == 11 then some b'v' else none)))))))

abbrev is_visible : ℕ → Bool
is_visible c = leb b' ' c && leb c b'~'

unfoldable pub all_printable : List ℕ → Bool
all_printable [] = true
all_printable (c ∷ cs) =
    (elim (escape_letter c) [ some l ↦ true | none ↦ is_visible c ]) && all_printable cs

unfoldable pub string_bytes : List ℕ → List ℕ
string_bytes [] = []
string_bytes (c ∷ cs) =
    (elim (escape_letter c) [ some l ↦ 92 ∷ l ∷ [] | none ↦ c ∷ [] ]) ++ string_bytes cs

abbrev pub hex_byte : ℕ → List ℕ
hex_byte c = number_alphabet (c / 16) ∷ number_alphabet (c % 16) ∷ []

unfoldable pub hex_bytes : List ℕ → List ℕ
hex_bytes [] = []
hex_bytes (c ∷ []) = hex_byte c
hex_bytes (c ∷ d ∷ cs) = hex_byte c ++ (b' ' ∷ hex_bytes (d ∷ cs))

unfoldable pub format_bytes : Bool → List ℕ → List ℕ
format_bytes string_like cs =
    if not string_like
    then hex_bytes cs
    else (if all_printable cs
        then 34 ∷ (string_bytes cs ++ 34 ∷ [])
        else b'[' ∷ (hex_bytes cs ++ b']' ∷ []))
