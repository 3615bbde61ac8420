-- ===== src/Log/Format.antt =====
-- `LogPrint::printf` and `vprintf` of tools/log/LogPrint.cpp. A C string is the list of its bytes in
-- front of the zero. What is undefined in C++ (an argument that is missing or of another type, a read
-- behind the final zero) is the outcome `fault`.
pub mod Args
pub mod Total
pub mod Directives
pub mod Text
pub mod Faults
pub mod Pieces
use tools_cxx.Prelude.{
  ℕ, zero, suc, ◌+◌, ◌-◌, ◌*◌, ◌%◌, ◌^◌, Bool, true, false, not, ◌&&◌, Option, none, some, List, [],
  ◌∷◌, Bytes, codes, leb, ◌==◌, if◌then◌else◌, length,
}
use tools_cxx.Prelude.Int.{ℤ, pos, negsuc}
use tools_cxx.Log.Buffer.{LogBuffer, append, append_char, available, make}
use tools_cxx.Log.Number.{HexFlag, not_hex, lower, upper, printf_num}
use Args.{
  Arg, Double, take_int, take_uint, take_long, take_ulong, take_ptr, take_str, take_double, to_byte,
}

-- The variables that are reset at every `%`.
pub record Spec : Type 0 where
  pub sign : Bool
  pub hex : HexFlag
  pub width : ℕ
  pub frac_width : ℕ
  pub padding : ℕ

pub data Outcome : Type 0 where
  finished : LogBuffer → Outcome
  fault no_fuel : Outcome

abbrev pub is_digit : ℕ → Bool
is_digit c = leb b'0' c && leb c b'9'

-- `width = width * 10 + (*fmt - '0')`, in a `uint8_t`.
abbrev pub next_width : ℕ → ℕ → ℕ
next_width w c = (w * 10 + (c - b'0')) % 2 ^ 8

-- The loop over the digits behind `%`.
unfoldable pub scan_width : ℕ → Bytes → ℕ × Bytes
scan_width w [] = (w, [])
scan_width w (c ∷ s) =
    let rest = scan_width (next_width w c) s in if is_digit c then rest else (w, c ∷ s)

abbrev pub padding_of : Bytes → ℕ
padding_of [] = b' '
padding_of (c ∷ s) = if c == b'0' then b'0' else b' '

-- The loop over `u`, `x`, `X` and `.`; `in_frac` while the digits behind a `.` are read.
unfoldable pub scan_flags : Bool → Spec → LogBuffer → Bytes → Spec × LogBuffer × Bytes
scan_flags in_frac p b [] = (p, b, [])
scan_flags in_frac p b (c ∷ s) =
    let digit = scan_flags true (record p { frac_width = next_width p.frac_width c }) b s in
    let unsigned = scan_flags false (record p { sign = false }) b s in
    let small =
      scan_flags false (record p { sign = false; hex = lower }) (append b (codes "0x") 2) s in
    let capital =
      scan_flags false (record p { sign = false; hex = upper }) (append b (codes "0X") 2) s in
    let point = scan_flags true (record p { frac_width = 0 }) b s in
    if in_frac && is_digit c
    then digit
    else if c == b'u'
    then unsigned
    else if c == b'x'
    then small
    else if c == b'X'
    then capital
    else if c == b'.'
    then point
    else (p, b, c ∷ s)

infixl 5 ◌>>=◌
abbrev pub ◌>>=◌ {ℓ κ} : {A : Type ℓ} {B : Type κ} → Option A → (A → Option B) → Option B
none >>= f = none
some a >>= f = f a

-- The end of the loop's body for `d`, `l` and `p`: the sign, then the magnitude.
unfoldable pub put_signed : Spec → LogBuffer → ℤ → Option LogBuffer
put_signed p b (pos n) = printf_num b n p.hex p.padding p.width
put_signed p b (negsuc n) = printf_num (append_char b b'-') (suc n) p.hex p.padding p.width

-- The two parts of a floating-point number; a fraction that rounds up to 1 is carried.
unfoldable pub put_float : Spec → LogBuffer → Double → Option LogBuffer
put_float p b d = do
  let b = if d.negative then append_char b b'-' else b
  let carry = d.frac p.frac_width == 10 ^ p.frac_width
  b ← printf_num b (if carry then (d.whole + 1) % 2 ^ 64 else d.whole) p.hex p.padding p.width
  printf_num (append_char b b'.') (if carry then 0 else d.frac p.frac_width) not_hex b'0'
      p.frac_width

-- `%d` and `%l` as the flags before them have it.
unfoldable pub put_int : Spec → LogBuffer → List Arg → Option (LogBuffer × List Arg)
unfolding put_signed
put_int p b args = elim p.sign [
  | true ↦ do (i, rest) ← take_int args; b' ← put_signed p b i; some (b', rest)
  | false ↦ do
    (n, rest) ← take_uint args
    b' ← printf_num b n p.hex p.padding p.width
    some (b', rest)
]

unfoldable pub put_long : Spec → LogBuffer → List Arg → Option (LogBuffer × List Arg)
unfolding put_signed
put_long p b args = elim p.sign [
  | true ↦ do (i, rest) ← take_long args; b' ← put_signed p b i; some (b', rest)
  | false ↦ do
    (n, rest) ← take_ulong args
    b' ← printf_num b n p.hex p.padding p.width
    some (b', rest)
]

-- `%b`
abbrev pub bool_word : ℤ → Bytes
bool_word (pos n) = if n == 0 then codes "false" else codes "true"
bool_word (negsuc n) = codes "true"

-- The second switch, on the character that ends the directive.
unfoldable pub convert : Spec → ℕ → List Arg → LogBuffer → Option (LogBuffer × List Arg)
unfolding put_int put_long put_float
convert p c args b =
    if c == b'b'
    then (do (i, rest) ← take_int args; some (append b (bool_word i) (length (bool_word i)), rest))
    else if c == b'c'
    then (do (i, rest) ← take_int args; some (append_char b (to_byte i), rest))
    else if c == b'd'
    then put_int p b args
    else if c == b'f'
    then (do (d, rest) ← take_double args; b' ← put_float p b d; some (b', rest))
    else if c == b'l'
    then put_long p b args
    else if c == b'p'
    then (do (a, rest) ← take_ptr args; b' ← printf_num b a upper b'0' 16; some (b', rest))
    else if c == b's'
    then (do (s, rest) ← take_str args; some (append b s (length s), rest))
    else if c == b'%'
    then some (append_char b b'%', args)
    else some (append_char b c, args)

abbrev pub Next : Type 0
Next = Bytes → List Arg → LogBuffer → Outcome

-- A directive that ends at the final zero steps over it: the next read is out of bounds.
unfoldable pub finish : Next → List Arg → Spec × LogBuffer × Bytes → Outcome
unfolding convert
finish next args (p, b, []) = fault
finish next args (p, b, c ∷ s) = elim (convert p c args b) [
  | none ↦ fault
  | some (b', rest) ↦ next s rest b'
]

-- The resets at a `%`, with the width that follows it.
abbrev pub start_spec : ℕ → Bytes → Spec
start_spec w s = record {
  sign = true;
  hex = not_hex;
  width = w;
  frac_width = 6;
  padding = padding_of s;
}

-- From behind a `%`.
unfoldable pub directive : Next → Bytes → List Arg → LogBuffer → Outcome
unfolding finish scan_width scan_flags
directive next s args b =
    let (w, s') = scan_width 0 s in finish next args (scan_flags false (start_spec w s) b s')

unfoldable pub vprintf_loop : ℕ → Bytes → List Arg → LogBuffer → Outcome
unfolding directive
vprintf_loop zero fmt args b = no_fuel
vprintf_loop (suc fuel) [] args b = finished b
vprintf_loop (suc fuel) (c ∷ s) args b = elim (available b) [
  | false ↦ finished b
  | true ↦ elim (c == b'%') [
    | true ↦ directive (vprintf_loop fuel) s args b
    | false ↦ vprintf_loop fuel s args (append_char b c)
  ]
]

-- One round for each character, and one for the end.
unfoldable pub vprintf : Bytes → List Arg → LogBuffer → Outcome
unfolding vprintf_loop
vprintf fmt args b = vprintf_loop (suc (length fmt)) fmt args b

-- `LogPrint`'s constructor: `SMALL_BUFFER` is 4000.
unfoldable pub log_print : LogBuffer
unfolding make
log_print = make 4000
