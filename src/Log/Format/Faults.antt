-- ===== src/Log/Format/Faults.antt =====
-- Formats on which `vprintf` runs into undefined behaviour.
use tools_cxx.Prelude.{
  ℕ, zero, suc, ◌+◌, ◌-◌, ◌<◌, ◌≡◌, ◌≢◌, refl, true, List, [], ◌∷◌, ◌++◌, Bytes, arith, length, All,
  length-append,
}
use tools_cxx.Prelude.Int.{ℤ}
use tools_cxx.Log.Buffer.{LogBuffer, available, append_char}
use tools_cxx.Log.Buffer.Text.{Holds, current-min, append_char-Holds}
use tools_cxx.Log.Format.Args.{Arg, int_arg, take_str}
use tools_cxx.Log.Format.{fault, directive, vprintf_loop, vprintf}

available_lem :
    (cap : ℕ) (b : LogBuffer) (shown : Bytes)
    → Holds cap b shown
    → length shown < cap - 1
    → available b ≡ true
unfolding available
available_lem cap b shown h room = ground (arith, current-min cap b shown h)

loop_trailing :
    (cap fuel : ℕ) (s : Bytes) (args : List Arg) (b : LogBuffer) (shown : Bytes)
    → Holds cap b shown
    → All (λ c. c ≢ b'%') s
    → length shown + length s < cap - 1
    → length s < fuel
    → vprintf_loop fuel (s ++ b'%' ∷ []) args b ≡ fault
unfolding vprintf_loop
loop_trailing cap zero s args b shown h plain room enough = absurd (omega arith)
loop_trailing cap (suc fuel) [] args b shown h plain room enough =
    rw (available_lem cap b shown h (omega arith), vprintf_loop) (unfold directive in refl)
loop_trailing cap (suc fuel) (c ∷ s) args b shown h plain room enough = ground (
  arith,
  available_lem cap b shown h (omega arith),
  loop_trailing cap fuel s args (append_char b c) (shown ++ c ∷ [])
      (append_char-Holds cap b shown h c) plain.1 (omega (arith, length-append shown (c ∷ [])))
      (omega arith),
)

-- A format that ends in a lone `%`, with room for the text in front of it, is read behind its end.
pub vprintf-trailing :
    (cap : ℕ) (s : Bytes) (args : List Arg) (b : LogBuffer) (shown : Bytes)
    → Holds cap b shown
    → All (λ c. c ≢ b'%') s
    → length shown + length s < cap - 1
    → vprintf (s ++ b'%' ∷ []) args b ≡ fault
unfolding vprintf
vprintf-trailing cap s args b shown h plain room =
    loop_trailing cap (suc (length (s ++ b'%' ∷ []))) s args b shown h plain room
      (omega (arith, length-append s (b'%' ∷ [])))

-- An `int` where the format has `%s` is undefined, if there is room for the character in front of it.
pub vprintf-wrong_type :
    (cap c : ℕ) (rest : Bytes) (i : ℤ) (args : List Arg) (b : LogBuffer) (shown : Bytes)
    → Holds cap b shown
    → c ≢ b'%'
    → length shown + 1 < cap - 1
    → vprintf (c ∷ b'%' ∷ b's' ∷ rest) (int_arg i ∷ args) b ≡ fault
unfolding vprintf vprintf_loop
vprintf-wrong_type cap c rest i args b shown h plain room = ground (
  arith,
  available_lem cap b shown h (omega arith),
  available_lem cap (append_char b c) (shown ++ c ∷ []) (append_char-Holds cap b shown h c)
      (omega (arith, length-append shown (c ∷ []))),
  bad (length (b'%' ∷ b's' ∷ rest)) (append_char b c),
)
  where
    bad :
        (fuel : ℕ) (b' : LogBuffer)
        → directive (vprintf_loop fuel) (b's' ∷ rest) (int_arg i ∷ args) b' ≡ fault
    bad fuel b' = unfold directive take_str in refl
