-- ===== src/Base/Timestamp/Text.antt =====
-- The text forms of time stamps (tools/base/Timestamp.cpp), with what `snprintf` makes of their formats.
pub mod Reading
use tools_cxx.Prelude.{
  ℕ, zero, suc, ◌+◌, ◌-◌, ◌/◌, ◌%◌, Bool, true, false, List, [], ◌∷◌, ◌++◌, ◌==◌, if◌then◌else◌,
  Bytes, length, take, replicate,
}
use tools_cxx.Prelude.Int.{ℤ, pos, negsuc, ◌+ℤ◌}
use tools_cxx.Base.Timestamp.{Timestamp, quotient, remainder, microseconds_per_second}

abbrev pub digit : ℕ → ℕ
digit n = b'0' + n % 10

-- The decimal digits of a number, in front of `out`; 20 cells are enough for 64 bits.
unfoldable pub decimal : ℕ → ℕ → Bytes → Bytes
decimal zero n out = out
decimal (suc cells) n out =
    let rest = decimal cells (n / 10) (digit n ∷ out) in if n / 10 == 0 then digit n ∷ out else rest

abbrev pub padded : ℕ → ℕ → Bytes → Bytes
padded char width s = replicate (width - length s) char ++ s

-- `%d`, and with a width and zeros, which come behind the sign.
unfoldable pub print_int : ℤ → Bytes
print_int (pos n) = decimal 20 n []
print_int (negsuc n) = b'-' ∷ decimal 20 (suc n) []

unfoldable pub print_zeros : ℕ → ℤ → Bytes
print_zeros width (pos n) = padded b'0' width (decimal 20 n [])
print_zeros width (negsuc n) = b'-' ∷ padded b'0' (width - 1) (decimal 20 (suc n) [])

-- What `snprintf` leaves in a buffer of `size` bytes, up to the null character.
abbrev pub cut_off : ℕ → Bytes → Bytes
cut_off size s = take (size - 1) s

unfoldable pub to_string : Timestamp → Bytes
to_string t = cut_off (32 - 1) (
    print_int (quotient t.microseconds_since_epoch microseconds_per_second)
    ++ b'.' ∷ print_zeros 6 (remainder t.microseconds_since_epoch microseconds_per_second))

-- `struct tm`
pub record Tm : Type 0 where
  pub tm_year : ℤ
  pub tm_mon : ℤ
  pub tm_mday : ℤ
  pub tm_hour : ℤ
  pub tm_min : ℤ
  pub tm_sec : ℤ

-- `localtime` is what `localtime_r` writes for a time.
unfoldable pub to_formatted_string : (ℤ → Tm) → Timestamp → Bool → Bytes
to_formatted_string localtime t show_microseconds =
    let tm = localtime (quotient t.microseconds_since_epoch microseconds_per_second) in
    let day =
      padded b' ' 4 (print_int (tm.tm_year +ℤ pos 1900))
      ++ (print_zeros 2 (tm.tm_mon +ℤ pos 1) ++ print_zeros 2 tm.tm_mday) in
    cut_off 64 (
      if show_microseconds
      then day
        ++ b' '
          ∷ (print_zeros 2 tm.tm_hour
              ++ b':'
                ∷ (print_zeros 2 tm.tm_min
                    ++ b':'
                      ∷ (print_zeros 2 tm.tm_sec
                          ++ b'.'
                            ∷ print_zeros 6
                                (remainder t.microseconds_since_epoch microseconds_per_second))))
      else day
        ++ b'-'
          ∷ (print_zeros 2 tm.tm_hour ++ (print_zeros 2 tm.tm_min ++ print_zeros 2 tm.tm_sec)))
