-- ===== src/Base/Trace/Lines.antt =====
-- The stack trace, frame by frame.
use tools_cxx.Prelude.{
  ℕ, suc, ◌+◌, ◌≡◌, ◌≤◌, inl, inr, refl, sym, ap, ◌∙◌, true, none, some, List, [], ◌∷◌, ◌++◌, All,
  map, append_assoc, append-nil, Option-cases, ltb, Bytes, length, take, drop, arith, length-map,
}
use tools_cxx.Base.Trace.{Symbols, mangled, max_frames, line_of, fill_loop, fill_stack_trace}
use tools_cxx.Base.Trace.Scan.{Parts, string_of, IsParted, find_marks-string_of}

drop_through {ℓ} :
    {A : Type ℓ} (xs ys : List A) (k n : ℕ) → k ≡ length xs + n → drop k (xs ++ ys) ≡ drop n ys
drop_through [] ys k n e = (let same : k ≡ n = omega (arith, e) in ap (λ m. drop m ys) same)
drop_through (x ∷ xs) ys k n e =
    (let same : k ≡ suc (length xs + n) = omega (arith, e) in ap (λ m. drop m (x ∷ xs ++ ys)) same)
    ∙ drop_through xs ys (length xs + n) n refl

take_through {ℓ} :
    {A : Type ℓ} (xs ys : List A) (k n : ℕ)
    → k ≡ length xs + n
    → take k (xs ++ ys) ≡ xs ++ take n ys
take_through [] ys k n e = (let same : k ≡ n = omega (arith, e) in ap (λ m. take m ys) same)
take_through (x ∷ xs) ys k n e =
    (let same : k ≡ suc (length xs + n) = omega (arith, e) in ap (λ m. take m (x ∷ xs ++ ys)) same)
    ∙ ap (◌∷◌ x) (take_through xs ys (length xs + n) n refl)

-- The texts of a list, one behind the other.
abbrev pub joined : List Bytes → Bytes
joined [] = []
joined (t ∷ ts) = t ++ joined ts

module _ (sys : Symbols) where
  -- A frame's line: its symbol stands as it is demangled, or as it is when it cannot be.
  abbrev pub shown : Bytes → Bytes
  shown symbol = elim (sys.demangle symbol) [ none ↦ symbol | some name ↦ name ]

  abbrev pub line_for : Parts → Bytes
  line_for p = p.file ++ (b'(' ∷ (shown p.symbol ++ (b'+' ∷ (p.offset ++ 10 ∷ []))))

  mangled-symbol :
      (p : Parts)
      → mangled (string_of p) (length p.file) (length p.file + suc (length p.symbol)) ≡ p.symbol
  mangled-symbol p =
      let place = length p.file + suc (length p.symbol) in
      let cut : take place (string_of p) ≡ p.file ++ (b'(' ∷ p.symbol) =
        take_through p.file _ place (suc (length p.symbol)) refl
        ∙ ap (λ t. p.file ++ (b'(' ∷ t))
            (take_through p.symbol (b'+' ∷ p.offset) (length p.symbol) 0 (omega arith)
              ∙ append-nil p.symbol) in
      let front : ltb (length p.file) place ≡ true = ground arith in
      rw front (
        ap (drop (suc (length p.file))) cut
        ∙ drop_through p.file (b'(' ∷ p.symbol) (suc (length p.file)) 1 (omega arith))

  line_of-parts : (p : Parts) → IsParted p → line_of sys (string_of p) ≡ some (line_for p)
  unfolding line_of
  line_of-parts p is =
      let (left, plus) = find_marks-string_of p is in
      let place = length p.file + suc (length p.symbol) in
      let before : take (suc (length p.file)) (string_of p) ≡ p.file ++ b'(' ∷ [] =
        take_through p.file _ (suc (length p.file)) 1 (omega arith) in
      let behind : drop place (string_of p) ≡ b'+' ∷ p.offset =
        drop_through p.file _ place (suc (length p.symbol)) refl
        ∙ drop_through p.symbol (b'+' ∷ p.offset) (length p.symbol) 0 (omega arith) in
      elim (Option-cases (sys.demangle p.symbol)) [
        | inl e ↦
            rw (plus, left)
              (rw (mangled-symbol p) (
                rw (shown, e)
                  (ap some (
                    append_assoc p.file _ _
                    ∙ ap (λ t. p.file ++ (b'(' ∷ t)) (append_assoc p.symbol _ _)))))
        | inr (name, e) ↦
            rw (plus, left)
              (rw (mangled-symbol p)
                (rw (shown, e) (rw (before, behind) (ap some (append_assoc p.file (b'(' ∷ []) _)))))
      ]

  fill_loop-parts :
      (stack : Bytes) (ps : List Parts)
      → All IsParted ps
      → fill_loop sys stack (map string_of ps) ≡ some (stack ++ joined (map line_for ps))
  unfolding fill_loop
  fill_loop-parts stack [] is = ap some (sym (append-nil stack))
  fill_loop-parts stack (p ∷ ps) (is_p, is) = rw (line_of-parts p is_p) (
      fill_loop-parts (stack ++ line_for p) ps is
      ∙ ap some (append_assoc stack (line_for p) (joined (map line_for ps))))

  -- Where the string of every frame has a parenthesis, and behind it a plus sign, with no more of either
  -- behind, the trace has a line for each frame but the first, in order, with its symbol as it is
  -- demangled, or as it is when it cannot be; and these are at most 199 lines.
  pub fill_stack_trace-lines :
      (first : Parts) (ps : List Parts)
      → All IsParted ps
      → sys.backtrace_symbols (sys.backtrace max_frames) ≡ some (map string_of (first ∷ ps))
      → (fill_stack_trace sys ≡ some (joined (map line_for ps))) × (length ps ≤ 199)
  unfolding fill_stack_trace
  fill_stack_trace-lines first ps is e = (
    rw (fill_stack_trace, e) (fill_loop-parts [] ps is),
    (let size = sys.length-backtrace_symbols (sys.backtrace max_frames) _ e in
        omega (arith, size, sys.length-backtrace max_frames, length-map ps string_of)),
  )
