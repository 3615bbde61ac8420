-- ===== src/Log/Format/Total.antt =====
-- `vprintf` ends: every round reads at least one character of the format.
use tools_cxx.Prelude.{
  ℕ, zero, suc, ◌≤◌, ◌<◌, ◌≢◌, Bool, false, inl, inr, List, [], ◌∷◌, Bytes, arith, ◌==◌, Bool-cases,
  Option-cases, length,
}
use tools_cxx.Log.Buffer.{LogBuffer, available}
use tools_cxx.Log.Format.Args.{Arg}
use tools_cxx.Log.Format.{
  Spec, no_fuel, Next, scan_width, scan_flags, convert, next_width, start_spec, finish, directive,
  vprintf_loop, vprintf,
}

length-scan_width : (w : ℕ) (s : Bytes) → length (scan_width w s).1 ≤ length s
unfolding scan_width
length-scan_width w [] = omega arith
length-scan_width w (c ∷ s) = ground (arith, length-scan_width (next_width w c) s)

length-scan_flags :
    (f : Bool) (p : Spec) (b : LogBuffer) (s : Bytes) → length (scan_flags f p b s).2 ≤ length s
unfolding scan_flags
length-scan_flags f p b [] = omega arith
length-scan_flags f p b (c ∷ s) =
    let ih : (f' : Bool) (p' : Spec) (b' : LogBuffer)
        → length (scan_flags f' p' b' s).2 ≤ length s =
      λ f' p' b'. length-scan_flags f' p' b' s in
    grind (arith, ih)

-- The rest of the loop ends on every format shorter than `n`.
abbrev EndsBelow : ℕ → Next → Type 0
EndsBelow n next =
    (s : Bytes) (args : List Arg) (b : LogBuffer) → length s < n → next s args b ≢ no_fuel

finish_ends :
    (n : ℕ) (next : Next) (args : List Arg) (r : Spec × LogBuffer × Bytes)
    → EndsBelow n next
    → length r.2 ≤ n
    → finish next args r ≢ no_fuel
unfolding finish
finish_ends n next args (p, b, []) ends h = λ e. cc
finish_ends n next args (p, b, c ∷ s) ends h = elim (Option-cases (convert p c args b)) [
  | inl e ↦ rw (e, finish) (λ e. cc)
  | inr ((b', rest), e) ↦ rw (e, finish) (ends s rest b' (omega arith))
]

directive_ends :
    (n : ℕ) (next : Next) (s : Bytes) (args : List Arg) (b : LogBuffer)
    → EndsBelow n next
    → length s ≤ n
    → directive next s args b ≢ no_fuel
unfolding directive
directive_ends n next s args b ends h =
    let (w, s') = scan_width 0 s in
    let p : Spec = start_spec w s in
    finish_ends n next args (scan_flags false p b s') ends
      (omega (arith, length-scan_flags false p b s', length-scan_width 0 s))

vprintf_loop_ends :
    (fuel : ℕ) (fmt : Bytes) (args : List Arg) (b : LogBuffer)
    → length fmt < fuel
    → vprintf_loop fuel fmt args b ≢ no_fuel
unfolding vprintf_loop
vprintf_loop_ends zero fmt args b h = absurd (omega arith)
vprintf_loop_ends (suc fuel) [] args b h = λ e. cc
vprintf_loop_ends (suc fuel) (c ∷ s) args b h = elim (Bool-cases (available b)) [
  | inl free ↦ elim (Bool-cases (c == b'%')) [
    | inl percent ↦
        rw (free, percent, vprintf_loop)
          (directive_ends fuel (vprintf_loop fuel) s args b (vprintf_loop_ends fuel) (omega arith))
    | inr plain ↦ rw (free, plain, vprintf_loop) (vprintf_loop_ends fuel s args _ (omega arith))
  ]
  | inr full ↦ rw (full, vprintf_loop) (λ e. cc)
]

-- Formatting ends on every format, argument list and buffer: the rounds given are enough.
pub vprintf_ends : (fmt : Bytes) (args : List Arg) (b : LogBuffer) → vprintf fmt args b ≢ no_fuel
unfolding vprintf
vprintf_ends fmt args b = vprintf_loop_ends (suc (length fmt)) fmt args b (omega arith)
