-- ===== src/Log/Format/Directives.antt =====
-- What each directive of `vprintf` does to the text of the buffer.
use tools_cxx.Prelude.{
  ℕ, suc, ◌+◌, ◌^◌, ◌≤◌, ◌<◌, ◌≡◌, refl, subst, Bool, true, false, some, List, [], ◌∷◌, ◌++◌,
  append_assoc, Bytes, codes, arith, length,
}
use tools_cxx.Prelude.Int.{ℤ, pos, negsuc, pos_part, neg_part}
use tools_cxx.Log.Buffer.{LogBuffer, append, append_char}
use tools_cxx.Log.Buffer.Text.{Holds, append-Holds, append_char-Holds}
use tools_cxx.Log.Number.{HexFlag, not_hex, lower, upper}
use tools_cxx.Log.Number.Padding.{number_text, printf_num-Holds}
use tools_cxx.Log.Format.Args.{
  Arg, int_arg, ulong_arg, take_int, take_ulong, take_ptr, take_str, to_byte,
}
use tools_cxx.Log.Format.Pieces.{
  word, integer, number, hexadecimal, address, args_of, text_of, signed_text, IsFine,
}
use tools_cxx.Log.Format.{
  Outcome, Next, ◌>>=◌, finish, directive, put_int, put_signed, put_long, scan_width, padding_of,
  bool_word,
}

-- A directive runs as expected: the loop goes on behind it, with the text appended.
abbrev pub Prints : ℕ → Next → Bytes → Bytes → List Arg → LogBuffer → Bytes → Outcome → Type 0
Prints cap next rest text args b shown r =
    (b' : LogBuffer) × (r ≡ next rest args b') × Holds cap b' (shown ++ text)

scan_digit :
    (w : ℕ) (rest : Bytes) → w < 10 → scan_width 0 ((w + b'0') ∷ b'd' ∷ rest) ≡ (w, b'd' ∷ rest)
unfolding scan_width
scan_digit w rest h = ground arith

space_padding : (w : ℕ) (rest : Bytes) → 0 < w → padding_of ((w + b'0') ∷ rest) ≡ b' '
space_padding w rest h = ground arith

abbrev pub width_of : Bool → ℕ → Bytes
width_of true w = b'0' ∷ (w + b'0') ∷ []
width_of false w = (w + b'0') ∷ []

abbrev pub flag_of : HexFlag → ℕ
flag_of not_hex = b'u'
flag_of lower = b'x'
flag_of upper = b'X'

module _ (cap : ℕ) (next : Next) (rest : Bytes) (args : List Arg) (b : LogBuffer) (shown : Bytes)
    (h : Holds cap b shown) where
  pub word-Prints :
      (s : Bytes)
      → Prints cap next rest s args b shown
          (directive next (b's' ∷ rest) (args_of (word s) ++ args) b)
  unfolding directive take_str
  word-Prints s = (append b s (length s), refl, append-Holds cap b shown h s (length s) refl)

  pub percent-Prints :
      Prints cap next rest (b'%' ∷ []) args b shown (directive next (b'%' ∷ rest) args b)
  unfolding directive
  percent-Prints = (append_char b b'%', refl, append_char-Holds cap b shown h b'%')

  pub letter-Prints :
      (i : ℤ)
      → Prints cap next rest
          (to_byte i ∷ [])
          args
          b
          shown
          (directive next (b'c' ∷ rest) (int_arg i ∷ args) b)
  unfolding directive take_int
  letter-Prints i = (append_char b (to_byte i), refl, append_char-Holds cap b shown h (to_byte i))

  pub truth-Prints :
      (i : ℤ)
      → Prints cap next rest
          (bool_word i)
          args
          b
          shown
          (directive next (b'b' ∷ rest) (int_arg i ∷ args) b)
  unfolding directive take_int
  truth-Prints i = (
    append b (bool_word i) (length (bool_word i)),
    refl,
    append-Holds cap b shown h (bool_word i) _ refl,
  )

  pub address-Prints :
      (a : ℕ)
      → a < 2 ^ 64
      → Prints cap next rest
          (number_text upper b'0' 16 a)
          args
          b
          shown
          (directive next (b'p' ∷ rest) (args_of (address a) ++ args) b)
  unfolding directive take_ptr
  address-Prints a lt =
      let (b', e, held, _) = printf_num-Holds cap b shown a upper b'0' 16 h lt in
      (b', (rw (e, ◌>>=◌, finish)), held)

  signed_prints :
      (w fw c : ℕ) (i : ℤ)
      → pos_part i < 2 ^ 31
      → neg_part i ≤ 2 ^ 31
      → (b' : LogBuffer) × (put_signed
            (record { sign = true; hex = not_hex; width = w; frac_width = fw; padding = c })
            b
            i
          ≡ some b')
        × Holds cap b' (shown ++ signed_text c w i)
  unfolding put_signed signed_text
  signed_prints w fw c (pos n) hi lo =
      let (b', e, held, _) = printf_num-Holds cap b shown n not_hex c w h (omega arith) in
      (b', e, held)
  signed_prints w fw c (negsuc n) hi lo =
      let (b', e, held, _) =
        printf_num-Holds cap (append_char b b'-') (shown ++ b'-' ∷ []) (suc n) not_hex c w
          (append_char-Holds cap b shown h b'-') (omega arith) in
      (
        b',
        e,
        subst (Holds cap b') (append_assoc shown (b'-' ∷ []) (number_text not_hex c w (suc n)))
            held,
      )

  -- A directive `d` with the width already read.
  int-Prints :
      (w c : ℕ) (i : ℤ)
      → pos_part i < 2 ^ 31
      → neg_part i ≤ 2 ^ 31
      → Prints cap next rest (signed_text c w i) args b shown (
          finish next (int_arg i ∷ args) (
            record { sign = true; hex = not_hex; width = w; frac_width = 6; padding = c },
            b,
            b'd' ∷ rest,
          ))
  unfolding finish put_int take_int
  int-Prints w c i hi lo =
      let (b', e, held) = signed_prints w 6 c i hi lo in (b', (rw (e, finish)), held)

  pub integer-Prints :
      (i : ℤ)
      → IsFine (integer i)
      → Prints cap next rest
          (signed_text b' ' 0 i)
          args
          b
          shown
          (directive next (b'd' ∷ rest) (int_arg i ∷ args) b)
  unfolding directive
  integer-Prints i fine = int-Prints 0 b' ' i fine.0 fine.1

  pub number-Prints :
      (z : Bool) (w : ℕ) (i : ℤ)
      → IsFine (number z w i)
      → Prints cap next rest
          (text_of (number z w i))
          args
          b
          shown
          (directive next (width_of z w ++ b'd' ∷ rest) (int_arg i ∷ args) b)
  unfolding directive
  number-Prints true w i fine = rw (scan_digit w rest fine.0) (int-Prints w b'0' i fine.2 fine.3)
  number-Prints false w i fine =
      rw (scan_digit w rest fine.0, space_padding w (b'd' ∷ rest) fine.1)
        (int-Prints w b' ' i fine.2 fine.3)

  pub hexadecimal-Prints :
      (x : HexFlag) (n : ℕ)
      → n < 2 ^ 64
      → Prints cap next rest
          (text_of (hexadecimal x n))
          args
          b
          shown
          (directive next (flag_of x ∷ b'l' ∷ rest) (ulong_arg n ∷ args) b)
  unfolding directive put_long take_ulong
  hexadecimal-Prints not_hex n lt =
      let (b', e, held, _) = printf_num-Holds cap b shown n not_hex b' ' 0 h lt in
      (b', (rw (e, ◌>>=◌, finish)), held)
  hexadecimal-Prints lower n lt =
      let (b', e, held, _) =
        printf_num-Holds cap (append b (codes "0x") 2) (shown ++ codes "0x") n lower b' ' 0
          (append-Holds cap b shown h (codes "0x") 2 refl) lt in
      (b', (rw (e, ◌>>=◌, finish)), subst (Holds cap b') (append_assoc shown (codes "0x") _) held)
  hexadecimal-Prints upper n lt =
      let (b', e, held, _) =
        printf_num-Holds cap (append b (codes "0X") 2) (shown ++ codes "0X") n upper b' ' 0
          (append-Holds cap b shown h (codes "0X") 2 refl) lt in
      (b', (rw (e, ◌>>=◌, finish)), subst (Holds cap b') (append_assoc shown (codes "0X") _) held)
