-- ===== src/Print/Tests.antt =====
-- Numbers as they are printed.
use ukoos.Prelude.{◌-◌, ◌^◌, [], ◌≡◌, refl, true, List, ◌∷◌, some, arith}
use ukoos.Print.{
  codes, NumberArgs, default_args, parse_args, buf_rev, buf_loop, number_alphabet, write_number,
  format_number, format_signed, format_i8, format_uaddr,
}
use ukoos.Print.{format_u8}
use ukoos.Print.Directive.{
  word, same_bytes, find_name, find_format_func, call_format, read_args, read_specifier,
  print_specifier, vfprint,
}
use ukoos.Print.Escape.{escape, vfprint-escape}

address_of_page : format_uaddr [] 4096 ≡ codes "0x0000000000001000"
unfolding format_uaddr format_number parse_args write_number buf_rev buf_loop number_alphabet
address_of_page = refl

minus_five : format_i8 (codes "4") 251 ≡ codes "  -5"
unfolding format_i8 format_signed format_number parse_args write_number buf_rev buf_loop
    number_alphabet
minus_five = refl

padded : format_number (codes "05x") true (2 ^ 64 - 26) ≡ codes "-001a"
unfolding format_number parse_args write_number buf_rev buf_loop number_alphabet
padded = refl

abbrev padded_hex : NumberArgs
padded_hex = record default_args { pad_byte = b'0'; base = 16; pad = 5; pad_after_prefix = true }

-- A text with both braces.
vfprint-escape_example : vfprint 4 (escape (codes "{x}")) (word 1 ∷ []) ≡ some (codes "{x}")
vfprint-escape_example = vfprint-escape 4 (codes "{x}") (word 1 ∷ []) (omega arith)

greeting : vfprint 20 (codes "a {u8:x} b") (word 255 ∷ []) ≡ some (codes "a ff b")
unfolding vfprint print_specifier read_specifier read_args find_format_func find_name same_bytes
    call_format format_u8 format_number parse_args write_number buf_rev buf_loop number_alphabet
greeting = refl
