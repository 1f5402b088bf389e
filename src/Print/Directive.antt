-- ===== src/Print/Directive.antt =====
-- src/kernel/print.c: the calls of the format functions, and the loop over a format string. The arguments
-- behind the format are a list; a list that does not fit the format has no answer. The end of the
-- list of bytes is the byte 0 that ends the string. Formats within formats, `{va}`, have no answer.
use ukoos.Prelude.{
  ℕ, zero, suc, Bool, true, false, ◌&&◌, ◌==◌, if◌then◌else◌, List, [], ◌∷◌, ◌++◌, replicate,
  Option, none, some, ok, panic, out_of_fuel,
}
use ukoos.Print.Bytes.{format_bool, format_bytes}
use ukoos.Print.{
  codes, format_i8, format_i16, format_i32, format_i64, format_isize, format_u8, format_u16,
  format_u32, format_u64, format_usize, format_uaddr, format_uptr, format_paddr,
}

pub data Argument : Type 0 where
  word : ℕ → Argument
  text : List ℕ → Argument

pub data FormatFunc : Type 0 where
  i8 : FormatFunc
  u8 : FormatFunc
  va : FormatFunc
  i16 : FormatFunc
  i32 : FormatFunc
  i64 : FormatFunc
  u16 : FormatFunc
  u32 : FormatFunc
  u64 : FormatFunc
  bool : FormatFunc
  cstr : FormatFunc
  uptr : FormatFunc
  bytes : FormatFunc
  isize : FormatFunc
  paddr : FormatFunc
  uaddr : FormatFunc
  usize : FormatFunc
  indent : FormatFunc

-- Two sequences of bytes are the same. The lengths are compared first in the source.
unfoldable pub same_bytes : List ℕ → List ℕ → Bool
same_bytes [] [] = true
same_bytes [] (y ∷ ys) = false
same_bytes (x ∷ xs) [] = false
same_bytes (x ∷ xs) (y ∷ ys) = x == y && same_bytes xs ys

-- The first entry with the name.
unfoldable pub find_name : List ℕ → List (List ℕ × FormatFunc) → Option FormatFunc
find_name name [] = none
find_name name ((n, f) ∷ rest) = if same_bytes name n then some f else find_name name rest

abbrev pub format_funcs : List (List ℕ × FormatFunc)
format_funcs =
    (codes "i8", i8)
    ∷ (codes "u8", u8)
    ∷ (codes "va", va)
    ∷ (codes "i16", i16)
    ∷ (codes "i32", i32)
    ∷ (codes "i64", i64)
    ∷ (codes "u16", u16)
    ∷ (codes "u32", u32)
    ∷ (codes "u64", u64)
    ∷ (codes "bool", bool)
    ∷ (codes "cstr", cstr)
    ∷ (codes "uptr", uptr)
    ∷ (codes "bytes", bytes)
    ∷ (codes "isize", isize)
    ∷ (codes "paddr", paddr)
    ∷ (codes "uaddr", uaddr)
    ∷ (codes "usize", usize)
    ∷ (codes "indent", indent)
    ∷ []

unfoldable pub find_format_func : List ℕ → Option FormatFunc
find_format_func name = find_name name format_funcs

abbrev invalid_args : List ℕ → List ℕ → List ℕ
invalid_args type_name args =
    codes "{{invalid arguments for type " ++ (type_name ++ (codes ": " ++ (args ++ codes "}}")))

-- A call of a format function on the arguments that are left.
abbrev pub Called : Type 0
Called = Option (List ℕ × List Argument)

abbrev with_word : (ℕ → List ℕ) → List Argument → Called
with_word f (word n ∷ rest) = some (f n, rest)
with_word f (text t ∷ rest) = none
with_word f [] = none

abbrev with_text : (List ℕ → List ℕ) → List Argument → Called
with_text f (text t ∷ rest) = some (f t, rest)
with_text f (word n ∷ rest) = none
with_text f [] = none

abbrev no_args : List ℕ → List ℕ → List Argument → Called → Called
no_args type_name [] rest call = call
no_args type_name (c ∷ cs) rest call = some (invalid_args type_name (c ∷ cs), rest)

abbrev bytes_args : List ℕ → Option Bool
bytes_args [] = some false
bytes_args (c ∷ []) = if c == b'?' then some true else none
bytes_args (c ∷ d ∷ cs) = none

-- An address that fails the assertion of `bits_of_paddr` has no answer.
unfoldable pub call_format : FormatFunc → List ℕ → List Argument → Called
call_format i8 args rest = with_word (format_i8 args) rest
call_format i16 args rest = with_word (format_i16 args) rest
call_format i32 args rest = with_word (format_i32 args) rest
call_format i64 args rest = with_word (format_i64 args) rest
call_format isize args rest = with_word (format_isize args) rest
call_format u8 args rest = with_word (format_u8 args) rest
call_format u16 args rest = with_word (format_u16 args) rest
call_format u32 args rest = with_word (format_u32 args) rest
call_format u64 args rest = with_word (format_u64 args) rest
call_format usize args rest = with_word (format_usize args) rest
call_format uaddr args rest = with_word (format_uaddr args) rest
call_format uptr args rest = with_word (format_uptr args) rest
call_format paddr args (word n ∷ rest) = elim (format_paddr args n) [
  | ok out ↦ some (out, rest)
  | panic ↦ none
  | out_of_fuel ↦ none
]
call_format paddr args (text t ∷ rest) = none
call_format paddr args [] = none
call_format bool args rest = no_args (codes "bool") args rest (with_word (format_bool args) rest)
call_format cstr args rest = no_args (codes "cstr") args rest (with_text (λ t. t) rest)
call_format indent args rest =
    no_args (codes "indent") args rest (with_word (λ n. replicate n b' ') rest)
call_format bytes args rest = elim (bytes_args args) [
  | none ↦ some (invalid_args (codes "bytes") args, rest)
  | some string_like ↦ with_text (format_bytes string_like) rest
]
call_format va args rest = none

abbrev in_args : ℕ → Option (List ℕ × List ℕ) → Option (List ℕ × List ℕ)
in_args c none = none
in_args c (some (args, rest)) = some (c ∷ args, rest)

-- The bytes up to the closing brace, and those behind it.
unfoldable pub read_args : List ℕ → Option (List ℕ × List ℕ)
read_args [] = none
read_args (c ∷ cs) =
    let more = in_args c (read_args cs) in if c == b'}' then some ([], cs) else more

abbrev pub Specifier : Type 0
Specifier = Option (List ℕ × List ℕ × List ℕ)

abbrev no_name : Option (List ℕ × List ℕ) → Specifier
no_name none = none
no_name (some (args, rest)) = some ([], args, rest)

abbrev in_name : ℕ → Specifier → Specifier
in_name c none = none
in_name c (some (name, args, rest)) = some (c ∷ name, args, rest)

-- The type name, the arguments, and the bytes behind the closing brace.
unfoldable pub read_specifier : List ℕ → Specifier
read_specifier [] = none
read_specifier (c ∷ cs) =
    let with_args = no_name (read_args cs) in
    let more = in_name c (read_specifier cs) in
    if c == b':' then with_args else (if c == b'}' then some ([], [], cs) else more)

-- What is written, and what is left of the format and of the arguments.
unfoldable pub print_specifier : List ℕ → List Argument → Option (List ℕ × List ℕ × List Argument)
print_specifier format rest = elim (read_specifier format) [
  | none ↦ some (codes "{{specifier parse error}}", [], rest)
  | some (name, args, behind) ↦ elim (find_format_func name) [
    | none ↦ some (codes "{{unknown type: " ++ (name ++ codes "}}"), behind, rest)
    | some f ↦ elim (call_format f args rest) [
      | none ↦ none
      | some (out, rest') ↦ some (out, behind, rest')
    ]
  ]
]

abbrev pub then_write : List ℕ → Option (List ℕ) → Option (List ℕ)
then_write out none = none
then_write out (some more) = some (out ++ more)

abbrev Printed : Type 0
Printed = Option (List ℕ × List ℕ × List Argument)

abbrev then_print : (List ℕ × List Argument → Option (List ℕ)) → Printed → Option (List ℕ)
then_print f none = none
then_print f (some (out, behind, rest)) = then_write out (f (behind, rest))

-- The fuel bounds the length of the format.
unfoldable pub vfprint : ℕ → List ℕ → List Argument → Option (List ℕ)
vfprint zero format rest = none
vfprint (suc fuel) [] rest = some []
vfprint (suc fuel) (c ∷ []) rest =
    if c == b'{'
    then (elim (print_specifier [] rest) [ none ↦ none | some (out, _, _) ↦ some out ])
    else (if c == b'}' then some (codes "{{unexpected close brace}}") else some (c ∷ []))
vfprint (suc fuel) (c ∷ d ∷ cs) rest =
    let escaped = then_write (c ∷ []) (vfprint fuel cs rest) in
    let plain = then_write (c ∷ []) (vfprint fuel (d ∷ cs) rest) in
    let stray = then_write (codes "{{unexpected close brace}}") (vfprint fuel (d ∷ cs) rest) in
    let specified =
      then_print (λ (behind, rest'). vfprint fuel behind rest') (print_specifier (d ∷ cs) rest) in
    if c == b'{'
    then (if d == b'{' then escaped else specified)
    else (if c == b'}' then (if d == b'}' then escaped else stray) else plain)
