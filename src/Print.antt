-- ===== src/Print.antt =====
-- src/kernel/print.c: the format functions for numbers and bytes. What a function writes with the
-- formatter is the list of bytes that it returns. The arguments of a directive are the bytes from
-- `args_start` to `args_end`; the byte at `args_end` ends the directive and is no digit.
pub mod Digits
pub mod Number
pub mod Bytes
pub mod Directive
pub mod Escape
pub mod Tests
use Prim.Native.Char.{code}
use Prim.Native.String
use Prim.Native.String.{String}
use mathlib.Core.List.{reverse}
use ukoos.Prelude.{
  ℕ, zero, suc, ◌+◌, ◌-◌, ◌*◌, ◌/◌, ◌%◌, ◌^◌, bit_and, Bool, true, false, not, ◌&&◌, ◌||◌, ltb, leb,
  ◌==◌, if◌then◌else◌, List, [], ◌∷◌, ◌++◌, length, replicate, Run, ok, ◌>>=◌,
}
use ukoos.Align.{bits_of_paddr}

-- The bytes of a string.
abbrev pub codes : String → List ℕ
codes String.[] = []
codes (String.◌∷◌ c s) = code c ∷ codes s

-- `NUMBER_ALPHABET[d]`.
unfoldable pub number_alphabet : ℕ → ℕ
number_alphabet d = if ltb d 10 then 48 + d else 87 + d

pub record NumberArgs : Type 0 where
  pub pad_byte : ℕ
  pub base : ℕ
  pub pad : ℕ
  pub escaped : Bool
  pub pad_after_prefix : Bool

abbrev pub default_args : NumberArgs
default_args = record {
  pad_byte = b' ';
  base = 10;
  pad = 0;
  escaped = false;
  pad_after_prefix = false;
}

-- What the arguments come to, or what is left of them behind the byte that is not one.
pub data Parsed : Type 0 where
  good : NumberArgs → Parsed
  bad : List ℕ → Parsed

abbrev is_digit : ℕ → Bool
is_digit c = leb b'0' c && leb c b'9'

-- The loop over the arguments. The Boolean says that the bytes before are the digits of `pad`: the
-- inner loop is at work.
unfoldable pub parse_args : Bool → NumberArgs → List ℕ → Parsed
parse_args in_pad a [] = good a
parse_args in_pad a (c ∷ cs) =
    let more = parse_args true (record a { pad = (a.pad * 10 + (c - 48)) % 2 ^ 64 }) cs in
    let escape = parse_args false (record a { escaped = true }) cs in
    let zeros = parse_args false (record a { pad_byte = b'0'; pad_after_prefix = true }) cs in
    let start = parse_args true (record a { pad = c - 48 }) cs in
    let binary = parse_args false (record a { base = 2 }) cs in
    let octal = parse_args false (record a { base = 8 }) cs in
    let hex = parse_args false (record a { base = 16 }) cs in
    if in_pad && is_digit c
    then more
    else (if c == b'#'
        then escape
        else (if c == b'0'
            then zeros
            else (if is_digit c
                then start
                else (if c == b'b'
                    then binary
                    else (if c == b'o' then octal else (if c == b'x' then hex else bad cs))))))

-- The digits as the loop stores them, the lowest first. 64 rounds are enough for a 64-bit number.
unfoldable pub buf_loop : ℕ → ℕ → ℕ → List ℕ
buf_loop zero base number = []
buf_loop (suc fuel) base number =
    let rest = buf_loop fuel base (number / base) in
    if number == 0 then [] else number_alphabet (number % base) ∷ rest

unfoldable pub buf_rev : ℕ → ℕ → List ℕ
buf_rev base number = if number == 0 then b'0' ∷ [] else buf_loop 64 base number

abbrev pub sign_prefix : Bool → List ℕ
sign_prefix sign = if sign then b'-' ∷ [] else []

abbrev pub base_prefix : Bool → ℕ → List ℕ
base_prefix escaped base =
    if not escaped
    then []
    else (if base == 2
        then codes "0b"
        else (if base == 8 then codes "0o" else (if base == 16 then codes "0x" else [])))

-- `prefix_len`, of which two bytes are those of an escaped base.
abbrev pub prefix_len : Bool → NumberArgs → ℕ
prefix_len sign a =
    (if sign then 1 else 0)
    + (if a.escaped && (a.base == 2 || (a.base == 8 || a.base == 16)) then 2 else 0)

abbrev pub magnitude : Bool → ℕ → ℕ
magnitude sign number = if sign then (2 ^ 64 - number) % 2 ^ 64 else number

unfoldable pub write_number : NumberArgs → Bool → ℕ → List ℕ
write_number a sign number =
    let buf = buf_rev a.base (magnitude sign number) in
    let len = prefix_len sign a + length buf in
    let pad_len = if ltb len a.pad then a.pad - len else 0 in
    let padding = replicate pad_len a.pad_byte in
    (if not a.pad_after_prefix then padding else [])
    ++ (sign_prefix sign
        ++ (base_prefix a.escaped a.base
            ++ ((if a.pad_after_prefix then padding else []) ++ reverse buf)))

abbrev pub invalid_number : List ℕ → List ℕ
invalid_number rest = codes "{{invalid arguments for numeric type: " ++ (rest ++ codes "}}")

unfoldable pub format_number : List ℕ → Bool → ℕ → List ℕ
format_number args sign number = elim (parse_args false default_args args) [
  | good a ↦ write_number a sign number
  | bad rest ↦ invalid_number rest
]

-- A signed number is given as its word, of `2 ^ width` values, which is extended to 64 bits.
abbrev pub sign_extend : ℕ → ℕ → ℕ
sign_extend width n = if ltb n (2 ^ (width - 1)) then n else n + 2 ^ 64 - 2 ^ width

unfoldable pub format_signed : ℕ → List ℕ → ℕ → List ℕ
format_signed width args n = format_number args (leb (2 ^ (width - 1)) n) (sign_extend width n)

unfoldable pub format_i8 : List ℕ → ℕ → List ℕ
format_i8 args n = format_signed 8 args n

unfoldable pub format_i16 : List ℕ → ℕ → List ℕ
format_i16 args n = format_signed 16 args n

unfoldable pub format_i32 : List ℕ → ℕ → List ℕ
format_i32 args n = format_signed 32 args n

unfoldable pub format_i64 : List ℕ → ℕ → List ℕ
format_i64 args n = format_signed 64 args n

unfoldable pub format_isize : List ℕ → ℕ → List ℕ
format_isize args n = format_signed 64 args n

unfoldable pub format_u8 : List ℕ → ℕ → List ℕ
format_u8 args n = format_number args false (n % 2 ^ 8)

unfoldable pub format_u16 : List ℕ → ℕ → List ℕ
format_u16 args n = format_number args false (n % 2 ^ 16)

unfoldable pub format_u32 : List ℕ → ℕ → List ℕ
format_u32 args n = format_number args false n

unfoldable pub format_u64 : List ℕ → ℕ → List ℕ
format_u64 args n = format_number args false n

unfoldable pub format_usize : List ℕ → ℕ → List ℕ
format_usize args n = format_number args false n

abbrev pub address_args : List ℕ → List ℕ
address_args [] = codes "#018x"
address_args (c ∷ cs) = c ∷ cs

unfoldable pub format_uaddr : List ℕ → ℕ → List ℕ
format_uaddr args n = format_number (address_args args) false n

unfoldable pub format_uptr : List ℕ → ℕ → List ℕ
format_uptr args n = format_number (address_args args) false n

unfoldable pub format_paddr : List ℕ → ℕ → Run (List ℕ)
format_paddr args n = do bits ← bits_of_paddr n; ok (format_number (address_args args) false bits)
