-- ===== src/Log/Format/Pieces.antt =====
-- The formats that the program uses, described by what they print: a format is made of pieces, each
-- with its directive, its arguments and its text.
use tools_cxx.Prelude.{
  ℕ, suc, ◌+◌, ◌^◌, ◌≤◌, ◌<◌, ◌≢◌, Bool, true, false, List, [], ◌∷◌, ◌++◌, Bytes, if◌then◌else◌,
}
use tools_cxx.Prelude.Int.{ℤ, pos, negsuc, pos_part, neg_part}
use tools_cxx.Log.Number.{HexFlag, not_hex, lower, upper}
use tools_cxx.Log.Number.Padding.{number_text}
use tools_cxx.Log.Format.Args.{Arg, int_arg, ulong_arg, ptr_arg, str_arg, to_byte}
use tools_cxx.Log.Format.{bool_word}

pub data Piece : Type 0 where
  plain : ℕ → Piece
  percent : Piece
  word : Bytes → Piece
  letter truth integer : ℤ → Piece
  -- `%5d` and `%05d`: a width below ten, and whether it is padded by zeros
  number : Bool → ℕ → ℤ → Piece
  hexadecimal : HexFlag → ℕ → Piece
  address : ℕ → Piece

abbrev pub directive_of : Piece → Bytes
directive_of (plain c) = c ∷ []
directive_of percent = b'%' ∷ b'%' ∷ []
directive_of (word s) = b'%' ∷ b's' ∷ []
directive_of (letter i) = b'%' ∷ b'c' ∷ []
directive_of (truth i) = b'%' ∷ b'b' ∷ []
directive_of (integer i) = b'%' ∷ b'd' ∷ []
directive_of (number true w i) = b'%' ∷ b'0' ∷ (w + b'0') ∷ b'd' ∷ []
directive_of (number false w i) = b'%' ∷ (w + b'0') ∷ b'd' ∷ []
directive_of (hexadecimal not_hex n) = b'%' ∷ b'u' ∷ b'l' ∷ []
directive_of (hexadecimal lower n) = b'%' ∷ b'x' ∷ b'l' ∷ []
directive_of (hexadecimal upper n) = b'%' ∷ b'X' ∷ b'l' ∷ []
directive_of (address a) = b'%' ∷ b'p' ∷ []

abbrev pub args_of : Piece → List Arg
args_of (plain c) = []
args_of percent = []
args_of (word s) = str_arg s ∷ []
args_of (letter i) = int_arg i ∷ []
args_of (truth i) = int_arg i ∷ []
args_of (integer i) = int_arg i ∷ []
args_of (number z w i) = int_arg i ∷ []
args_of (hexadecimal h n) = ulong_arg n ∷ []
args_of (address a) = ptr_arg a ∷ []

-- A sign in front of the padded magnitude.
unfoldable pub signed_text : ℕ → ℕ → ℤ → Bytes
signed_text padding w (pos n) = number_text not_hex padding w n
signed_text padding w (negsuc n) = b'-' ∷ number_text not_hex padding w (suc n)

abbrev prefix_of : HexFlag → Bytes
prefix_of not_hex = []
prefix_of lower = b'0' ∷ b'x' ∷ []
prefix_of upper = b'0' ∷ b'X' ∷ []

abbrev pub text_of : Piece → Bytes
text_of (plain c) = c ∷ []
text_of percent = b'%' ∷ []
text_of (word s) = s
text_of (letter i) = to_byte i ∷ []
text_of (truth i) = bool_word i
text_of (integer i) = signed_text b' ' 0 i
text_of (number z w i) = signed_text (if z then b'0' else b' ') w i
text_of (hexadecimal h n) = prefix_of h ++ number_text h b' ' 0 n
text_of (address a) = number_text upper b'0' 16 a

-- A plain character is no `%`, a width is a digit behind `%` (not `0` alone), and numbers are in the
-- range of their C type.
abbrev pub IsFine : Piece → Type 0
IsFine (plain c) = c ≢ b'%'
IsFine percent = Unit
IsFine (word s) = Unit
IsFine (letter i) = Unit
IsFine (truth i) = Unit
IsFine (integer i) = (pos_part i < 2 ^ 31) × (neg_part i ≤ 2 ^ 31)
IsFine (number z w i) = (w < 10) × (0 < w) × (pos_part i < 2 ^ 31) × (neg_part i ≤ 2 ^ 31)
IsFine (hexadecimal h n) = n < 2 ^ 64
IsFine (address a) = a < 2 ^ 64

unfoldable pub format_all : List Piece → Bytes
format_all [] = []
format_all (p ∷ ps) = directive_of p ++ format_all ps

unfoldable pub args_all : List Piece → List Arg
args_all [] = []
args_all (p ∷ ps) = args_of p ++ args_all ps

unfoldable pub text_all : List Piece → Bytes
text_all [] = []
text_all (p ∷ ps) = text_of p ++ text_all ps
