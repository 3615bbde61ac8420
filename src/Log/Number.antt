-- ===== src/Log/Number.antt =====
-- `LogPrint::printf_num` of tools/log/LogPrint.cpp: a number in decimal or hexadecimal, padded on the
-- left. The digits are written backwards into `numString`, 31 characters before its final zero.
pub mod Digits
pub mod Numeral
pub mod Padding
use tools_cxx.Prelude.{
  ℕ, zero, suc, ◌+◌, ◌-◌, ◌/◌, ◌%◌, ◌^◌, Option, none, some, List, [], ◌∷◌, Bytes, codes, ◌==◌,
  if◌then◌else◌, length, get_or,
}
use tools_cxx.Log.Buffer.{LogBuffer, append, append_char}

pub data HexFlag : Type 0 where
  not_hex lower upper : HexFlag

abbrev pub base : HexFlag → ℕ
base not_hex = 10
base lower = 16
base upper = 16

abbrev hex_array : Bytes
hex_array = codes "0123456789abcdef"

abbrev upper_hex_array : Bytes
upper_hex_array = codes "0123456789ABCDEF"

-- The character of a digit: by table for hexadecimal, `'0' + d` for decimal.
unfoldable pub digit_char : HexFlag → ℕ → ℕ
digit_char not_hex d = d + b'0'
digit_char lower d = get_or hex_array d 0
digit_char upper d = get_or upper_hex_array d 0

abbrev pub num_string_size : ℕ
num_string_size = 31

-- The three do-while loops, on the cells left before `last`; `none` is a write in front of the array.
unfoldable pub digits : ℕ → HexFlag → ℕ → Bytes → Option Bytes
digits zero hex n out = none
digits (suc cells) hex n out =
    let rest = digits cells hex (n / base hex) (digit_char hex (n % base hex) ∷ out) in
    if (n / base hex) == 0 then some (digit_char hex (n % base hex) ∷ out) else rest

-- `while(len < width)`: as many rounds as `len` is short of `width`.
unfoldable pub pad : ℕ → ℕ → LogBuffer → LogBuffer
pad zero padding b = b
pad (suc rounds) padding b = pad rounds padding (append_char b padding)

put_num : LogBuffer → ℕ → ℕ → Option Bytes → Option LogBuffer
put_num b padding width none = none
put_num b padding width (some s) =
    some (append (pad (width - length s % 2 ^ 8) padding b) s (length s))

unfoldable pub printf_num : LogBuffer → ℕ → HexFlag → ℕ → ℕ → Option LogBuffer
unfolding put_num digits
printf_num b n hex padding width = put_num b padding width (digits num_string_size hex n [])
