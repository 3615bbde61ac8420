-- ===== src/Log/Number/Padding.antt =====
-- What `printf_num` adds to the text of the buffer.
use tools_cxx.Prelude.{
  ℕ, zero, suc, ◌-◌, ◌%◌, ◌^◌, ◌≤◌, ◌<◌, ◌≡◌, refl, sym, ap, ◌∙◌, some, [], ◌∷◌, ◌++◌, append-nil,
  append_assoc, Bytes, arith, length, replicate, subst,
}
use tools_cxx.Log.Buffer.{LogBuffer, append, append_char}
use tools_cxx.Log.Buffer.Text.{Holds, append-Holds, append_char-Holds}
use tools_cxx.Log.Number.{HexFlag, pad, put_num, printf_num}
use tools_cxx.Log.Number.Digits.{value, digits-spell}
use tools_cxx.Log.Number.Numeral.{numeral, digits-numeral}

pad-Holds :
    (cap rounds c : ℕ) (b : LogBuffer) (text : Bytes)
    → Holds cap b text
    → Holds cap (pad rounds c b) (text ++ replicate rounds c)
unfolding pad
pad-Holds cap zero c b text h = subst (Holds cap b) (sym (append-nil text)) h
pad-Holds cap (suc n) c b text h =
    subst (Holds cap (pad n c (append_char b c))) (append_assoc text (c ∷ []) (replicate n c))
      (pad-Holds cap n c (append_char b c) (text ++ c ∷ []) (append_char-Holds cap b text h c))

-- A number's digits behind their padding.
unfoldable pub number_text : HexFlag → ℕ → ℕ → ℕ → Bytes
number_text hex padding width n =
    replicate (width - length (numeral 20 hex n)) padding ++ numeral 20 hex n

-- The digits read back as the number; there are 1 to 20 of them.
numeral-reads :
    (hex : HexFlag) (n : ℕ)
    → n < 2 ^ 64
    → (value hex (numeral 20 hex n) 0 ≡ n)
      × (length (numeral 20 hex n) ≤ 20)
      × (0 < length (numeral 20 hex n))
numeral-reads hex n h =
    let (s, e, v, short, long) = digits-spell hex n h in
    let same : s ≡ numeral 20 hex n = cc (e, digits-numeral hex n h) in
    (
      ap (λ t. value hex t 0) (sym same) ∙ v,
      subst (λ t. length t ≤ 20) same short,
      subst (λ t. 0 < length t) same long,
    )

-- A 64-bit number is appended in its digits, of the base and the case of letters that are asked for,
-- behind the padding up to its width, whatever the width; and the digits read back as the number.
pub printf_num-Holds :
    (cap : ℕ) (b : LogBuffer) (text : Bytes) (n : ℕ) (hex : HexFlag) (padding width : ℕ)
    → Holds cap b text
    → n < 2 ^ 64
    → (b' : LogBuffer) × (printf_num b n hex padding width ≡ some b')
      × Holds cap b' (text ++ number_text hex padding width n)
      × (value hex (numeral 20 hex n) 0 ≡ n)
unfolding printf_num number_text put_num
printf_num-Holds cap b text n hex padding width h lt =
    let s = numeral 20 hex n in
    let (reads, short, long) = numeral-reads hex n lt in
    let rounds = width - length s % 2 ^ 8 in
    let e : rounds ≡ width - length s = omega (arith, short) in
    (
      append (pad rounds padding b) s (length s),
      rw (digits-numeral hex n lt, put_num),
      subst (Holds cap (append (pad rounds padding b) s (length s))) (rw (e, append_assoc)) (
          append-Holds cap (pad rounds padding b) (text ++ replicate rounds padding)
            (pad-Holds cap rounds padding b text h) s (length s) refl),
      reads,
    )
