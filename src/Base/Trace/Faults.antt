-- ===== src/Base/Trace/Faults.antt =====
-- Frames whose strings lack a mark.
use tools_cxx.Prelude.{
  ◌≡◌, ◌≢◌, refl, ◌⊎◌, inl, inr, none, some, List, [], ◌∷◌, ◌++◌, All, Bytes, Option-cases,
}
use tools_cxx.Base.Trace
use tools_cxx.Base.Trace.{
  Symbols, no_marks, max_frames, line_of, fill_loop, fill_from, fill_stack_trace,
}
use tools_cxx.Base.Trace.Scan.{find_marks-plus, find_marks-left_par}

-- The string has no plus sign, or no parenthesis.
abbrev pub LacksMark : Bytes → Type 0
LacksMark s = All (λ c. c ≢ b'+') s ⊎ All (λ c. c ≢ b'(') s

module _ (sys : Symbols) where
  line_of-none : (s : Bytes) → LacksMark s → line_of sys s ≡ none
  unfolding line_of
  line_of-none s (inl no_plus) = rw (find_marks-plus no_marks 0 s no_plus) refl
  line_of-none s (inr no_par) = elim (Option-cases (Trace.find_marks no_marks 0 s).plus) [
    | inl e ↦ rw e refl
    | inr (i, e) ↦ rw (e, find_marks-left_par no_marks 0 s no_par) refl
  ]

  fill_loop-none :
      (stack : Bytes) (xs ys : List Bytes) (s : Bytes)
      → LacksMark s
      → fill_loop sys stack (xs ++ s ∷ ys) ≡ none
  unfolding fill_loop
  fill_loop-none stack [] ys s lacks = rw (line_of-none s lacks) refl
  fill_loop-none stack (x ∷ xs) ys s lacks = elim (Option-cases (line_of sys x)) [
    | inl e ↦ rw e refl
    | inr (line, e) ↦ rw e (fill_loop-none (stack ++ line) xs ys s lacks)
  ]

  -- Where the string of any frame behind the first has no plus sign or no parenthesis, as that of a
  -- frame in no known file has, the exception goes through a null pointer while it is made.
  pub fill_stack_trace-faults :
      (first s : Bytes) (xs ys : List Bytes)
      → sys.backtrace_symbols (sys.backtrace max_frames) ≡ some (first ∷ (xs ++ s ∷ ys))
      → LacksMark s
      → fill_stack_trace sys ≡ none
  unfolding fill_stack_trace
  fill_stack_trace-faults first s xs ys e lacks =
      rw (fill_stack_trace, e) (fill_loop-none [] xs ys s lacks)
