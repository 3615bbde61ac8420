-- ===== src/Log/Number/Numeral.antt =====
-- A number in digits, from the first to the last, apart from the code's loop and its tables.
use tools_cxx.Prelude.{
  ℕ, zero, suc, ◌+◌, ◌-◌, ◌/◌, ◌%◌, ◌^◌, ◌<◌, ◌≡◌, refl, sym, ap, ◌∙◌, true, false, some, [], ◌∷◌,
  ◌++◌, append-nil, append_assoc, Bytes, arith, ltb, ◌==◌, ==_iff, inl, inr, if◌then◌else◌,
  Bool-cases,
}
use tools_cxx.Log.Number.{HexFlag, not_hex, lower, upper, base, digit_char, digits, num_string_size}
use tools_cxx.Log.Number.Digits.{each_digit, each_digit_lem, mod_lt, quotient_lt, small}

-- The character for ten.
abbrev pub letter : HexFlag → ℕ
letter not_hex = b'a'
letter lower = b'a'
letter upper = b'A'

abbrev pub shown_digit : HexFlag → ℕ → ℕ
shown_digit hex d = if ltb d 10 then b'0' + d else letter hex + (d - 10)

abbrev pub radix : HexFlag → ℕ
radix not_hex = 10
radix lower = 16
radix upper = 16

-- A number of at most so many digits: those of its quotient by the radix, and its last one.
unfoldable pub numeral : ℕ → HexFlag → ℕ → Bytes
numeral zero hex n = []
numeral (suc count) hex n =
    let front = numeral count hex (n / radix hex) in
    if ltb n (radix hex)
    then shown_digit hex n ∷ []
    else front ++ shown_digit hex (n % radix hex) ∷ []

-- The same by the base of the code.
unfoldable based : ℕ → HexFlag → ℕ → Bytes
based zero hex n = []
based (suc count) hex n =
    let front = based count hex (n / base hex) in
    if ltb n (base hex)
    then shown_digit hex n ∷ []
    else front ++ shown_digit hex (n % base hex) ∷ []

shown_table :
    (hex : HexFlag) → each_digit (λ d. digit_char hex d == shown_digit hex d) (base hex) ≡ true
unfolding each_digit digit_char
shown_table not_hex = refl
shown_table lower = refl
shown_table upper = refl

-- The tables have the right characters.
digit_char-shown :
    (hex : HexFlag) (n : ℕ) → digit_char hex (n % base hex) ≡ shown_digit hex (n % base hex)
digit_char-shown hex n = (==_iff _ _).0 (
    each_digit_lem (λ d. digit_char hex d == shown_digit hex d) (n % base hex) (base hex)
      (mod_lt hex n) (shown_table hex))

one_digit :
    (hex : HexFlag) (n : ℕ)
    → ((n / base hex) == 0) ≡ true
    → (ltb n (base hex) ≡ true) × (n % base hex ≡ n)
one_digit not_hex n e = (ground (arith, e), ground (arith, e))
one_digit lower n e = (ground (arith, e), ground (arith, e))
one_digit upper n e = (ground (arith, e), ground (arith, e))

more_digits : (hex : HexFlag) (n : ℕ) → ((n / base hex) == 0) ≡ false → ltb n (base hex) ≡ false
more_digits not_hex n e = ground (arith, e)
more_digits lower n e = ground (arith, e)
more_digits upper n e = ground (arith, e)

last_shown :
    (cells k : ℕ) (hex : HexFlag) (n : ℕ) (out : Bytes)
    → ((n / base hex) == 0) ≡ true
    → digits (suc cells) hex n out ≡ some (based (suc k) hex n ++ out)
unfolding digits based
last_shown cells k hex n out e =
    let (below, same) = one_digit hex n e in
    rw (e, below) (ap (λ c. some (c ∷ out)) (digit_char-shown hex n ∙ ap (shown_digit hex) same))

one_cell : (hex : HexFlag) (n : ℕ) → n < base hex ^ 1 → ((n / base hex) == 0) ≡ true
one_cell not_hex n h = ground (arith, h)
one_cell lower n h = ground (arith, h)
one_cell upper n h = ground (arith, h)

more_shown :
    (cells k : ℕ) (hex : HexFlag) (n : ℕ) (out : Bytes)
    → ((n / base hex) == 0) ≡ false
    → digits cells hex (n / base hex) (digit_char hex (n % base hex) ∷ out)
      ≡ some (based (suc k) hex (n / base hex) ++ digit_char hex (n % base hex) ∷ out)
    → digits (suc cells) hex n out ≡ some (based (suc (suc k)) hex n ++ out)
unfolding digits based
more_shown cells k hex n out more ih =
    rw (more, more_digits hex n more)
      (ih
        ∙ ap (λ c. some (based (suc k) hex (n / base hex) ++ c ∷ out)) (digit_char-shown hex n)
        ∙ ap some (
            sym (
              append_assoc (based (suc k) hex (n / base hex)) (shown_digit hex (n % base hex) ∷ [])
                out)))

digits-based :
    (cells k : ℕ) (hex : HexFlag) (n : ℕ) (out : Bytes)
    → k < cells
    → n < base hex ^ suc k
    → digits cells hex n out ≡ some (based (suc k) hex n ++ out)
digits-based zero k hex n out h lt = absurd (omega arith)
digits-based (suc cells) zero hex n out h lt = last_shown cells 0 hex n out (one_cell hex n lt)
digits-based (suc cells) (suc k) hex n out h lt = elim (Bool-cases ((n / base hex) == 0)) [
  | inl done ↦ last_shown cells (suc k) hex n out done
  | inr more ↦ more_shown cells k hex n out more (
      digits-based cells k hex (n / base hex) (digit_char hex (n % base hex) ∷ out) (omega arith)
        (quotient_lt hex k n lt))
]

numeral-based : (count : ℕ) (hex : HexFlag) (n : ℕ) → numeral count hex n ≡ based count hex n
unfolding numeral based
numeral-based zero hex n = refl
numeral-based (suc count) not_hex n = rw (numeral-based count not_hex (n / 10)) refl
numeral-based (suc count) lower n = rw (numeral-based count lower (n / 16)) refl
numeral-based (suc count) upper n = rw (numeral-based count upper (n / 16)) refl

-- The code's digits of a 64-bit number are its numeral.
pub digits-numeral :
    (hex : HexFlag) (n : ℕ) → n < 2 ^ 64 → digits num_string_size hex n [] ≡ some (numeral 20 hex n)
digits-numeral hex n h =
    digits-based num_string_size 19 hex n [] (omega arith) (small hex n h)
    ∙ ap some (append-nil (based 20 hex n) ∙ sym (numeral-based 20 hex n))
