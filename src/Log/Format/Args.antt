-- ===== src/Log/Format/Args.antt =====
-- The variable arguments of `vprintf`, and what each `va_arg` of it takes. A floating-point number is
-- given by what the code reads off it, since its arithmetic is the platform's.
use tools_cxx.Prelude.{
  ℕ, ◌-◌, ◌%◌, ◌^◌, Bool, Option, none, some, List, ◌∷◌, Bytes, ltb, if◌then◌else◌,
}
use tools_cxx.Prelude.Int.{ℤ, pos, negsuc}

-- `fn < 0`; `static_cast<uint64_t>(fn)` of the magnitude; and for each `frac_width` the fraction
-- scaled by `pow(10, frac_width)` and rounded, as an integer.
pub record Double : Type 0 where
  pub negative : Bool
  pub whole : ℕ
  pub frac : ℕ → ℕ

pub data Arg : Type 0 where
  int_arg long_arg : ℤ → Arg
  uint_arg ulong_arg ptr_arg : ℕ → Arg
  str_arg : Bytes → Arg
  double_arg : Double → Arg

abbrev Taken : Type 0 → Type 0
Taken A = Option (A × List Arg)

-- A value that both types represent may be read as either.
unfoldable pub take_int : List Arg → Taken ℤ
take_int (int_arg i ∷ rest) = some (i, rest)
take_int (uint_arg n ∷ rest) = if ltb n (2 ^ 31) then some (pos n, rest) else none
take_int _ = none

unfoldable pub take_uint : List Arg → Taken ℕ
take_uint (uint_arg n ∷ rest) = some (n, rest)
take_uint (int_arg (pos n) ∷ rest) = some (n, rest)
take_uint _ = none

unfoldable pub take_long : List Arg → Taken ℤ
take_long (long_arg i ∷ rest) = some (i, rest)
take_long (ulong_arg n ∷ rest) = if ltb n (2 ^ 63) then some (pos n, rest) else none
take_long _ = none

unfoldable pub take_ulong : List Arg → Taken ℕ
take_ulong (ulong_arg n ∷ rest) = some (n, rest)
take_ulong (long_arg (pos n) ∷ rest) = some (n, rest)
take_ulong _ = none

unfoldable pub take_ptr : List Arg → Taken ℕ
take_ptr (ptr_arg a ∷ rest) = some (a, rest)
take_ptr _ = none

unfoldable pub take_str : List Arg → Taken Bytes
take_str (str_arg s ∷ rest) = some (s, rest)
take_str _ = none

unfoldable pub take_double : List Arg → Taken Double
take_double (double_arg d ∷ rest) = some (d, rest)
take_double _ = none

-- `static_cast<char>` of an `int`, as a byte.
unfoldable pub to_byte : ℤ → ℕ
to_byte (pos n) = n % 2 ^ 8
to_byte (negsuc n) = 255 - n % 2 ^ 8
