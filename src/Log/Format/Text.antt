-- ===== src/Log/Format/Text.antt =====
-- `vprintf` refines the description by pieces: it appends the text of every piece, cut off at the
-- buffer's capacity.
use tools_cxx.Prelude.{
  ℕ, zero, suc, ◌<◌, ◌≡◌, refl, ◌∙◌, subst, inl, inr, true, false, List, [], ◌∷◌, ◌++◌,
  append_assoc, append-nil, Bytes, arith, length, All, Bool-cases, length-append,
}
use tools_cxx.Log.Buffer.{LogBuffer, available, append_char}
use tools_cxx.Log.Buffer.Text.{Holds, append_char-Holds, full-Holds}
use tools_cxx.Log.Number.{not_hex, lower, upper}
use tools_cxx.Log.Format.Args.{Arg}
use tools_cxx.Log.Format.Pieces.{
  Piece, plain, percent, word, letter, truth, integer, number, hexadecimal, address, directive_of,
  args_of, text_of, IsFine, format_all, args_all, text_all,
}
use tools_cxx.Log.Format.{finished, vprintf_loop, vprintf}
use tools_cxx.Log.Format.Directives.{
  Prints, word-Prints, percent-Prints, letter-Prints, truth-Prints, address-Prints, integer-Prints,
  number-Prints, hexadecimal-Prints,
}

-- A round of the loop on a fine piece, when the buffer is not full.
piece-Prints :
    (cap fuel : ℕ) (rest : Bytes) (args : List Arg) (b : LogBuffer) (shown : Bytes) (p : Piece)
    → Holds cap b shown
    → available b ≡ true
    → IsFine p
    → Prints cap
        (vprintf_loop fuel)
        rest
        (text_of p)
        args
        b
        shown
        (vprintf_loop (suc fuel) (directive_of p ++ rest) (args_of p ++ args) b)
unfolding vprintf_loop
piece-Prints cap fuel rest args b shown (plain c) h free fine =
    (append_char b c, (ground (arith, free)), append_char-Holds cap b shown h c)
piece-Prints cap fuel rest args b shown percent h free fine =
    rw (free, vprintf_loop) (percent-Prints cap (vprintf_loop fuel) rest args b shown h)
piece-Prints cap fuel rest args b shown (word s) h free fine =
    rw (free, vprintf_loop) (word-Prints cap (vprintf_loop fuel) rest args b shown h s)
piece-Prints cap fuel rest args b shown (letter i) h free fine =
    rw (free, vprintf_loop) (letter-Prints cap (vprintf_loop fuel) rest args b shown h i)
piece-Prints cap fuel rest args b shown (truth i) h free fine =
    rw (free, vprintf_loop) (truth-Prints cap (vprintf_loop fuel) rest args b shown h i)
piece-Prints cap fuel rest args b shown (integer i) h free fine =
    rw (free, vprintf_loop) (integer-Prints cap (vprintf_loop fuel) rest args b shown h i fine)
piece-Prints cap fuel rest args b shown (number true w i) h free fine =
    rw (free, vprintf_loop)
      (number-Prints cap (vprintf_loop fuel) rest args b shown h true w i fine)
piece-Prints cap fuel rest args b shown (number false w i) h free fine =
    rw (free, vprintf_loop)
      (number-Prints cap (vprintf_loop fuel) rest args b shown h false w i fine)
piece-Prints cap fuel rest args b shown (hexadecimal not_hex n) h free fine =
    rw (free, vprintf_loop)
      (hexadecimal-Prints cap (vprintf_loop fuel) rest args b shown h not_hex n fine)
piece-Prints cap fuel rest args b shown (hexadecimal lower n) h free fine =
    rw (free, vprintf_loop)
      (hexadecimal-Prints cap (vprintf_loop fuel) rest args b shown h lower n fine)
piece-Prints cap fuel rest args b shown (hexadecimal upper n) h free fine =
    rw (free, vprintf_loop)
      (hexadecimal-Prints cap (vprintf_loop fuel) rest args b shown h upper n fine)
piece-Prints cap fuel rest args b shown (address a) h free fine =
    rw (free, vprintf_loop) (address-Prints cap (vprintf_loop fuel) rest args b shown h a fine)

full_stops :
    (fuel : ℕ) (p : Piece) (rest : Bytes) (args : List Arg) (b : LogBuffer)
    → available b ≡ false
    → vprintf_loop (suc fuel) (directive_of p ++ rest) args b ≡ finished b
unfolding vprintf_loop
full_stops fuel (number true w i) rest args b full = rw (full, vprintf_loop)
full_stops fuel (number false w i) rest args b full = rw (full, vprintf_loop)
full_stops fuel (hexadecimal not_hex n) rest args b full = rw (full, vprintf_loop)
full_stops fuel (hexadecimal x n) rest args b full = rw (full, vprintf_loop)
full_stops fuel p rest args b full = rw (full, vprintf_loop)

length-directive_of : (p : Piece) (rest : Bytes) → length rest < length (directive_of p ++ rest)
length-directive_of p rest = omega (arith, length-append (directive_of p) rest, directive_pos p)
  where
    directive_pos : (p : Piece) → 0 < length (directive_of p)
    directive_pos (number true w i) = omega arith
    directive_pos (number false w i) = omega arith
    directive_pos (hexadecimal not_hex n) = omega arith
    directive_pos (hexadecimal x n) = omega arith
    directive_pos p = omega arith

loop_prints :
    (cap fuel : ℕ) (ps : List Piece) (b : LogBuffer) (shown : Bytes)
    → Holds cap b shown
    → All IsFine ps
    → length (format_all ps) < fuel
    → (b' : LogBuffer) × (vprintf_loop fuel (format_all ps) (args_all ps) b ≡ finished b')
      × Holds cap b' (shown ++ text_all ps)
unfolding format_all args_all text_all
loop_prints cap zero ps b shown h fine enough = absurd (omega arith)
loop_prints cap (suc fuel) [] b shown h fine enough =
    (b, unfold vprintf_loop in refl, rw append-nil h)
loop_prints cap (suc fuel) (p ∷ ps) b shown h fine enough = elim (Bool-cases (available b)) [
  | inl free ↦
      let (b1, e1, h1) =
        piece-Prints cap fuel (format_all ps) (args_all ps) b shown p h free fine.0 in
      let (b2, e2, h2) =
        loop_prints cap fuel ps b1 (shown ++ text_of p) h1 fine.1
          (omega (arith, length-directive_of p (format_all ps))) in
      (b2, e1 ∙ e2, subst (Holds cap b2) (append_assoc shown (text_of p) (text_all ps)) h2)
  | inr full ↦
      (b, full_stops fuel p _ _ b full, full-Holds cap b shown h (text_of p ++ text_all ps) full)
]

-- Formatting fine pieces finishes, and the buffer shows what it showed before, then the text of every
-- piece, cut off at its capacity.
pub vprintf_prints :
    (cap : ℕ) (ps : List Piece) (b : LogBuffer) (shown : Bytes)
    → Holds cap b shown
    → All IsFine ps
    → (b' : LogBuffer) × (vprintf (format_all ps) (args_all ps) b ≡ finished b')
      × Holds cap b' (shown ++ text_all ps)
unfolding vprintf
vprintf_prints cap ps b shown h fine =
    loop_prints cap (suc (length (format_all ps))) ps b shown h fine (omega arith)
