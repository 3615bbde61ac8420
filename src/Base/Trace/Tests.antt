-- ===== src/Base/Trace/Tests.antt =====
-- Three frames.
use tools_cxx.Prelude.{
  ℕ, suc, ◌≡◌, ◌≤◌, refl, sym, ap, ◌∙◌, inl, some, none, List, [], ◌∷◌, map, Bytes, codes, length,
  take, length-take, arith,
}
use tools_cxx.Base.Trace.{Symbols, fill_stack_trace}
use tools_cxx.Base.Trace.Scan.{Parts, string_of, IsParted}
use tools_cxx.Base.Trace.Lines.{line_for, joined, fill_stack_trace-lines}
use tools_cxx.Base.Trace.Faults.{fill_stack_trace-faults}

-- A C library that knows three frames and gives them these strings, in turn.
abbrev pub strings_for : List ℕ → List Bytes → List Bytes
strings_for [] texts = []
strings_for (f ∷ frames) [] = [] ∷ strings_for frames []
strings_for (f ∷ frames) (t ∷ texts) = t ∷ strings_for frames texts

length-strings_for :
    (frames : List ℕ) (texts : List Bytes) → length (strings_for frames texts) ≡ length frames
length-strings_for [] texts = refl
length-strings_for (f ∷ frames) [] = ap suc (length-strings_for frames [])
length-strings_for (f ∷ frames) (t ∷ texts) = ap suc (length-strings_for frames texts)

pub length-some :
    (texts : List Bytes) (frames : List ℕ) (strings : List Bytes)
    → some (strings_for frames texts) ≡ some strings
    → length strings ≡ length frames
length-some texts frames strings e =
    let same : strings_for frames texts ≡ strings = cc e in
    sym (ap length same) ∙ length-strings_for frames texts

abbrev pub three : List ℕ
three = 1 ∷ 2 ∷ 3 ∷ []

pub length-three : (n : ℕ) → length (take n three) ≤ n
length-three n = omega (arith, length-take n three)

abbrev with_strings : List Bytes → Symbols
with_strings texts = record {
  backtrace = λ n. take n three;
  backtrace_symbols = λ frames. some (strings_for frames texts);
  demangle = λ symbol. some (codes "main()");
  length-backtrace = length-three;
  length-backtrace_symbols = length-some texts;
}

abbrev frame : Parts
frame = record { file = codes "./a"; symbol = codes "_Z4mainv"; offset = codes "0x2a) [0x7f]" }

frame-IsParted : IsParted frame
frame-IsParted = record {
  symbol_par = ground arith;
  offset_par = ground arith;
  offset_plus = ground arith;
}

abbrev frames : List Parts
frames = frame ∷ frame ∷ []

fill_stack_trace-lines_example :
    (fill_stack_trace (with_strings (map string_of (frame ∷ frames)))
      ≡ some (joined (map (line_for (with_strings (map string_of (frame ∷ frames)))) frames)))
    × (length frames ≤ 199)
fill_stack_trace-lines_example =
    fill_stack_trace-lines (with_strings (map string_of (frame ∷ frames))) frame frames
      (frame-IsParted, (frame-IsParted, tt)) refl

abbrev unknown : List Bytes
unknown = string_of frame ∷ codes "[0x7f]" ∷ string_of frame ∷ []

fill_stack_trace-faults_example : fill_stack_trace (with_strings unknown) ≡ none
fill_stack_trace-faults_example =
    fill_stack_trace-faults (with_strings unknown) (string_of frame) (codes "[0x7f]") []
      (string_of frame ∷ []) refl (inl (ground arith))
