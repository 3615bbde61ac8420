-- ===== src/Base/Trace.antt =====
-- tools/base/Exception.h and Exception.cpp: the stack trace that an exception takes when it is made. A
-- null pointer that is read or written through is `none`.
pub mod Scan
pub mod Lines
pub mod Faults
mod Tests
use tools_cxx.Prelude.{
  ℕ, suc, ◌≡◌, ◌≤◌, Bool, true, false, Option, none, some, List, [], ◌∷◌, ◌++◌, ltb, ◌==◌,
  if◌then◌else◌, Bytes, length, take, drop, ◌>>=◌,
}

-- The functions of the C library: `backtrace` for at most so many frames, `backtrace_symbols`, which may
-- return a null pointer, and `__cxa_demangle`, which is `none` where it sets another status than 0.
pub record Symbols : Type 0 where
  pub backtrace : ℕ → List ℕ
  pub backtrace_symbols : List ℕ → Option (List Bytes)
  pub demangle : Bytes → Option Bytes
  pub length-backtrace : (n : ℕ) → length (backtrace n) ≤ n
  pub length-backtrace_symbols :
      (frames : List ℕ) (strings : List Bytes)
      → backtrace_symbols frames ≡ some strings
      → length strings ≡ length frames

-- `leftPar` and `plus`, as places in the string.
pub record Marks : Type 0 where
  pub left_par : Option ℕ
  pub plus : Option ℕ

-- One round of the loop over a string, at the character `c` in place `i`.
abbrev pub mark : Marks → ℕ → ℕ → Marks
mark m i c =
    if c == b'('
    then record m { left_par = some i }
    else (if c == b'+' then record m { plus = some i } else m)

unfoldable pub find_marks : Marks → ℕ → Bytes → Marks
find_marks m i [] = m
find_marks m i (c ∷ s) = find_marks (mark m i c) (suc i) s

-- The string behind the parenthesis while a null character stands for the plus sign.
abbrev pub mangled : Bytes → ℕ → ℕ → Bytes
mangled s left plus = drop (suc left) (if ltb left plus then take plus s else s)

abbrev pub no_marks : Marks
no_marks = record { left_par = none; plus = none }

abbrev pub max_frames : ℕ
max_frames = 200

module _ (sys : Symbols) where
  -- What one round of the loop over the frames appends.
  unfoldable pub line_of : Bytes → Option Bytes
  line_of s = do
    let m = find_marks no_marks 0 s
    plus ← m.plus
    left ← m.left_par
    some (elim (sys.demangle (mangled s left plus)) [
      | none ↦ s ++ 10 ∷ []
      | some name ↦ take (suc left) s ++ (name ++ (drop plus s ++ 10 ∷ []))
    ])

  unfoldable pub fill_loop : Bytes → List Bytes → Option Bytes
  fill_loop stack [] = some stack
  fill_loop stack (s ∷ strings) = do line ← line_of s; fill_loop (stack ++ line) strings

  -- The loop begins with the second frame.
  abbrev pub fill_from : List Bytes → Option Bytes
  fill_from [] = some []
  fill_from (s ∷ strings) = fill_loop [] strings

  -- `stack_trace` of an exception that has just been made.
  unfoldable pub fill_stack_trace : Option Bytes
  fill_stack_trace = elim (sys.backtrace_symbols (sys.backtrace max_frames)) [
    | none ↦ some []
    | some strings ↦ fill_from strings
  ]
