-- ===== src/Base/Timestamp/Text/Reading.antt =====
-- The text of a time stamp is read back.
use native.Mathlib.Nat.{pow-suc}
use tools_cxx.Prelude.{
  ℕ, zero, suc, ◌+◌, ◌-◌, ◌*◌, ◌/◌, ◌%◌, ◌^◌, ◌≤◌, ◌<◌, ◌≡◌, refl, ap, ◌∙◌, true, false, [], ◌∷◌,
  ◌++◌, ◌==◌, ==_iff, if◌then◌else◌, Bytes, length, take, replicate, All, All-append, arith, inl,
  inr, Bool-cases, length-append, length-replicate, take-all,
}
use tools_cxx.Prelude.Int.{pos}
use tools_cxx.Base.Timestamp.{quotient, remainder}
use tools_cxx.Base.Timestamp.Text.{digit, decimal, padded, print_int, print_zeros, to_string}

-- A decimal digit.
abbrev pub IsDigit : ℕ → Type 0
IsDigit c = (b'0' ≤ c) × (c ≤ b'9')

-- The number whose digits a text has behind `acc`, without its points.
abbrev pub read_digits : Bytes → ℕ → ℕ
read_digits [] acc = acc
read_digits (c ∷ s) acc =
    let point = read_digits s acc in
    let more = read_digits s (acc * 10 + (c - b'0')) in if c == b'.' then point else more

read_digit :
    (n acc : ℕ) (s : Bytes) → read_digits (digit n ∷ s) acc ≡ read_digits s (acc * 10 + n % 10)
read_digit n acc s =
    let other : (digit n == b'.') ≡ false = ground arith in
    let back : digit n - b'0' ≡ n % 10 = omega arith in
    rw other (ap (λ d. read_digits s (acc * 10 + d)) back)

pub read_digits-decimal :
    (cells k n : ℕ) (out : Bytes)
    → k < cells
    → n < 10 ^ suc k
    → read_digits (decimal cells n out) 0 ≡ read_digits out n
unfolding decimal
read_digits-decimal zero k n out h lt = absurd (omega arith)
read_digits-decimal (suc cells) zero n out h lt =
    let last : ((n / 10) == 0) ≡ true = ground (arith, lt) in
    let same : 0 * 10 + n % 10 ≡ n = omega (arith, lt) in
    rw last (read_digit n 0 out ∙ ap (read_digits out) same)
read_digits-decimal (suc cells) (suc j) n out h lt = elim (Bool-cases ((n / 10) == 0)) [
  | inl last ↦
      let zero_left : n / 10 ≡ 0 = (==_iff _ 0).0 last in
      let same : 0 * 10 + n % 10 ≡ n = omega (arith, zero_left) in
      rw last (read_digit n 0 out ∙ ap (read_digits out) same)
  | inr more ↦
      let same : n / 10 * 10 + n % 10 ≡ n = omega arith in
      rw more (
        read_digits-decimal cells j (n / 10) (digit n ∷ out) (omega arith)
          (omega (arith, lt, pow-suc 10 (suc j)))
        ∙ read_digit n (n / 10) out
        ∙ ap (read_digits out) same)
]

-- No more digits than the number has, and at least one.
pub length-decimal :
    (cells k n : ℕ) (out : Bytes)
    → n < 10 ^ suc k
    → length (decimal cells n out) ≤ length out + suc k
unfolding decimal
length-decimal zero k n out lt = omega arith
length-decimal (suc cells) zero n out lt =
    let last : ((n / 10) == 0) ≡ true = ground (arith, lt) in rw last (omega arith)
length-decimal (suc cells) (suc k) n out lt = elim (Bool-cases ((n / 10) == 0)) [
  | inl last ↦ rw last (omega arith)
  | inr more ↦
      let rest =
        length-decimal cells k (n / 10) (digit n ∷ out) (omega (arith, lt, pow-suc 10 (suc k))) in
      rw more (omega (arith, rest))
]

decimal-IsDigit : (cells n : ℕ) (out : Bytes) → All IsDigit out → All IsDigit (decimal cells n out)
unfolding decimal
decimal-IsDigit zero n out h = h
decimal-IsDigit (suc cells) n out h = elim (Bool-cases ((n / 10) == 0)) [
  | inl last ↦ rw last ((omega arith, omega arith), h)
  | inr more ↦
      rw more (decimal-IsDigit cells (n / 10) (digit n ∷ out) ((omega arith, omega arith), h))
]

longer-decimal : (cells n : ℕ) (out : Bytes) → length out ≤ length (decimal cells n out)
unfolding decimal
longer-decimal zero n out = omega arith
longer-decimal (suc cells) n out = elim (Bool-cases ((n / 10) == 0)) [
  | inl last ↦ rw last (omega arith)
  | inr more ↦ rw more (omega (arith, longer-decimal cells (n / 10) (digit n ∷ out)))
]

decimal-positive : (cells n : ℕ) (out : Bytes) → 0 < length (decimal (suc cells) n out)
unfolding decimal
decimal-positive cells n out = elim (Bool-cases ((n / 10) == 0)) [
  | inl last ↦ rw last (omega arith)
  | inr more ↦ rw more (omega (arith, longer-decimal cells (n / 10) (digit n ∷ out)))
]

zeros-IsDigit : (k : ℕ) → All IsDigit (replicate k b'0')
zeros-IsDigit zero = tt
zeros-IsDigit (suc k) = ((omega arith, omega arith), zeros-IsDigit k)

read_zeros : (k : ℕ) (s : Bytes) → read_digits (replicate k b'0' ++ s) 0 ≡ read_digits s 0
read_zeros zero s = refl
read_zeros (suc k) s = read_zeros k s

read_digits-append :
    (s t : Bytes) (acc : ℕ) → read_digits (s ++ t) acc ≡ read_digits t (read_digits s acc)
read_digits-append [] t acc = refl
read_digits-append (c ∷ s) t acc = elim (Bool-cases (c == b'.')) [
  | inl e ↦ rw e (read_digits-append s t acc)
  | inr e ↦ rw e (read_digits-append s t (acc * 10 + (c - b'0')))
]

-- A number with so many digits behind it.
shift : ℕ → ℕ → ℕ
shift zero acc = acc
shift (suc k) acc = shift k (acc * 10)

shift_add : (k a b : ℕ) → shift k (a + b) ≡ shift k a + shift k b
unfolding shift
shift_add zero a b = refl
shift_add (suc k) a b =
    let same : (a + b) * 10 ≡ a * 10 + b * 10 = omega arith in
    ap (shift k) same ∙ shift_add k (a * 10) (b * 10)

read_shift :
    (s : Bytes) (acc : ℕ)
    → All IsDigit s
    → read_digits s acc ≡ shift (length s) acc + read_digits s 0
unfolding shift
read_shift [] acc h = omega arith
read_shift (c ∷ s) acc ((low, high), h) =
    let other : (c == b'.') ≡ false = ground (arith, low) in
    let d : ℕ = c - b'0' in
    let whole = read_shift s (acc * 10 + d) h in
    let part = read_shift s (0 * 10 + d) h in
    let split = shift_add (length s) (acc * 10) d in
    let zero_front : shift (length s) (0 * 10 + d) ≡ shift (length s) d =
      ap (shift (length s)) (omega arith) in
    rw other (omega (arith, whole, part, split, zero_front))

read_six :
    (s : Bytes) (acc : ℕ)
    → length s ≡ 6
    → All IsDigit s
    → read_digits s acc ≡ acc * 1000000 + read_digits s 0
unfolding shift
read_six s acc six h =
    let moved : shift (length s) acc ≡ acc * 1000000 = rw six (omega arith) in
    read_shift s acc h ∙ ap (λ n. n + read_digits s 0) moved

-- The microseconds of a time stamp, as six digits.
micros_lem :
    (m : ℕ)
    → m < 1000000
    → (length (padded b'0' 6 (decimal 20 m [])) ≡ 6)
      × All IsDigit (padded b'0' 6 (decimal 20 m []))
      × (read_digits (padded b'0' 6 (decimal 20 m [])) 0 ≡ m)
micros_lem m lt =
    let s = decimal 20 m [] in
    let zero_char : ℕ = b'0' in
    let short = length-decimal 20 5 m [] (omega (arith, lt)) in
    (
      length-append (replicate (6 - length s) b'0') s
          ∙ omega (arith, short, length-replicate (6 - length s) zero_char),
      All-append IsDigit (replicate (6 - length s) b'0') s (zeros-IsDigit (6 - length s))
          (decimal-IsDigit 20 m [] tt),
      read_zeros (6 - length s) s ∙ read_digits-decimal 20 5 m [] (omega arith) (omega (arith, lt)),
    )

-- The digits of the seconds and of the microseconds of `n`, and nothing else.
pub record IsText (n : ℕ) (s m : Bytes) : Type 0 where
  pub seconds : All IsDigit s
  pub some_seconds : 0 < length s
  pub micros : All IsDigit m
  pub six_micros : length m ≡ 6
  pub seconds_read : read_digits s 0 ≡ n / 1000000
  pub micros_read : read_digits m 0 ≡ n % 1000000

-- The text of a time stamp that is not before the epoch, of any 63 bits, is not cut off: it has the
-- seconds, in at least one digit, a point and the microseconds, in exactly six digits, and no other
-- characters; and from its digits the time stamp is read back.
pub read_digits-to_string :
    (n : ℕ)
    → n < 2 ^ 63
    → (s m : Bytes) × (to_string (record { microseconds_since_epoch = pos n }) ≡ s ++ b'.' ∷ m)
      × IsText n s m
      × (read_digits (to_string (record { microseconds_since_epoch = pos n })) 0 ≡ n)
unfolding to_string quotient remainder print_int print_zeros
read_digits-to_string n lt =
    let s = decimal 20 (n / 1000000) [] in
    let m = padded b'0' 6 (decimal 20 (n % 1000000) []) in
    let (six, digits, is) = micros_lem (n % 1000000) (omega arith) in
    let long = length-decimal 20 13 (n / 1000000) [] (omega (arith, lt)) in
    let whole : take 30 (s ++ b'.' ∷ m) ≡ s ++ b'.' ∷ m =
      take-all 30 (s ++ b'.' ∷ m) (omega (arith, length-append s (b'.' ∷ m), six, long)) in
    (
      s,
      m,
      whole,
      record {
        seconds = decimal-IsDigit 20 (n / 1000000) [] tt;
        some_seconds = decimal-positive 19 (n / 1000000) [];
        micros = digits;
        six_micros = six;
        seconds_read = read_digits-decimal 20 13 (n / 1000000) [] (omega arith) (omega (arith, lt));
        micros_read = is;
      },
      ap (λ t. read_digits t 0) whole
          ∙ read_digits-append s (b'.' ∷ m) 0
          ∙ ap (read_digits m)
              (read_digits-decimal 20 13 (n / 1000000) [] (omega arith) (omega (arith, lt)))
          ∙ read_six m (n / 1000000) six digits
          ∙ omega (arith, is),
    )
