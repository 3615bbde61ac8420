-- ===== src/Log/Number/Digits.antt =====
-- The digits that `printf_num` writes: they fit the array, and spell the number.
use native.Mathlib.Nat.{pow-suc}
use tools_cxx.Prelude.{
  ℕ, zero, suc, ◌+◌, ◌-◌, ◌*◌, ◌/◌, ◌%◌, ◌^◌, ◌≤◌, ◌<◌, ◌≡◌, refl, ap, ◌∙◌, Bool, true, Option,
  some, [], ◌∷◌, Bytes, arith, ◌&&◌, ◌==◌, ==_iff, leb, inl, inr, if◌then◌else◌, Bool-cases, length,
}
use tools_cxx.Log.Number.{HexFlag, not_hex, lower, upper, base, digit_char, digits, num_string_size}

-- The value of a digit character, of either case.
abbrev pub char_value : ℕ → ℕ
char_value c = if leb c b'9' then c - b'0' else if leb c b'F' then c + 10 - b'A' else c + 10 - b'a'

-- The number that a text spells behind `acc`.
abbrev pub value : HexFlag → Bytes → ℕ → ℕ
value hex [] acc = acc
value hex (c ∷ s) acc = value hex s (acc * base hex + char_value c)

-- Is the test passed by the first `count` digits?
unfoldable pub each_digit : (ℕ → Bool) → ℕ → Bool
each_digit ok zero = true
each_digit ok (suc count) = each_digit ok count && ok count

pub each_digit_lem :
    (ok : ℕ → Bool) (d count : ℕ) → d < count → each_digit ok count ≡ true → ok d ≡ true
unfolding each_digit
each_digit_lem ok d zero below e = absurd (omega arith)
each_digit_lem ok d (suc count) below e =
    let both : each_digit ok count && ok count ≡ true = e in
    ground (arith, both, each_digit_lem ok d count)

digit_table :
    (hex : HexFlag) → each_digit (λ d. char_value (digit_char hex d) == d) (base hex) ≡ true
unfolding each_digit digit_char
digit_table not_hex = refl
digit_table lower = refl
digit_table upper = refl

char_value-digit_char : (hex : HexFlag) (d : ℕ) → d < base hex → char_value (digit_char hex d) ≡ d
char_value-digit_char hex d h =
    (==_iff _ d).0
      (each_digit_lem (λ d. char_value (digit_char hex d) == d) d (base hex) h (digit_table hex))

pub mod_lt : (hex : HexFlag) (n : ℕ) → n % base hex < base hex
mod_lt not_hex n = omega arith
mod_lt hex n = omega arith

rebuild : (hex : HexFlag) (n : ℕ) → n / base hex * base hex + n % base hex ≡ n
rebuild not_hex n = omega arith
rebuild hex n = omega arith

quotient_zero : (hex : HexFlag) (n : ℕ) → n < base hex ^ 1 → n / base hex ≡ 0
quotient_zero not_hex n h = omega arith
quotient_zero hex n h = omega arith

pub quotient_lt :
    (hex : HexFlag) (k n : ℕ) → n < base hex ^ suc (suc k) → n / base hex < base hex ^ suc k
quotient_lt not_hex k n h = omega (arith, pow-suc 10 (suc k))
quotient_lt lower k n h = omega (arith, pow-suc 16 (suc k))
quotient_lt upper k n h = omega (arith, pow-suc 16 (suc k))

value_last :
    (hex : HexFlag) (n : ℕ) (out : Bytes)
    → value hex (digit_char hex (n % base hex) ∷ out) (n / base hex) ≡ value hex out n
value_last hex n out = ap (value hex out) (
    ap (◌+◌ (n / base hex * base hex)) (char_value-digit_char hex (n % base hex) (mod_lt hex n))
    ∙ rebuild hex n)

-- What is claimed of the digits of `n` in front of `out`, of which there are at most `k`.
abbrev Spells : HexFlag → ℕ → Bytes → ℕ → Option Bytes → Type 0
Spells hex n out k r =
    (s : Bytes) × (r ≡ some s)
    × (value hex s 0 ≡ value hex out n)
    × (length s ≤ length out + k)
    × (length out < length s)

last_digit :
    (cells k : ℕ) (hex : HexFlag) (n : ℕ) (out : Bytes)
    → n / base hex ≡ 0
    → Spells hex n out (suc k) (digits (suc cells) hex n out)
unfolding digits
last_digit cells k hex n out e = (
  digit_char hex (n % base hex) ∷ out,
  (rw e),
  (rw (← e) (value_last hex n out)),
  omega arith,
  omega arith,
)

-- Enough cells: a number below `base ^ (k + 1)` takes at most `k + 1` of them, and is spelled.
digits_lem :
    (cells k : ℕ) (hex : HexFlag) (n : ℕ) (out : Bytes)
    → k < cells
    → n < base hex ^ suc k
    → Spells hex n out (suc k) (digits cells hex n out)
unfolding digits
digits_lem zero k hex n out h lt = absurd (omega arith)
digits_lem (suc cells) zero hex n out h lt = last_digit cells 0 hex n out (quotient_zero hex n lt)
digits_lem (suc cells) (suc k) hex n out h lt = elim (Bool-cases ((n / base hex) == 0)) [
  | inl done ↦ last_digit cells (suc k) hex n out ((==_iff _ 0).0 done)
  | inr more ↦
      let (s, made, spelled, short, long) =
        digits_lem cells k hex (n / base hex) (digit_char hex (n % base hex) ∷ out) (omega arith)
          (quotient_lt hex k n lt) in
      (s, (rw more made), spelled ∙ value_last hex n out, omega arith, omega arith)
]

pub small : (hex : HexFlag) (n : ℕ) → n < 2 ^ 64 → n < base hex ^ 20
small not_hex n h = omega arith
small hex n h = omega arith

-- A 64-bit number never overruns `numString`: its 1 to 20 digits spell it.
pub digits-spell :
    (hex : HexFlag) (n : ℕ)
    → n < 2 ^ 64
    → (s : Bytes) × (digits num_string_size hex n [] ≡ some s)
      × (value hex s 0 ≡ n)
      × (length s ≤ 20)
      × (0 < length s)
digits-spell hex n h = digits_lem num_string_size 19 hex n [] (omega arith) (small hex n h)
