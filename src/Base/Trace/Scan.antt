-- ===== src/Base/Trace/Scan.antt =====
-- The marks of a string are its last parenthesis and its last plus sign.
use tools_cxx.Prelude.{
  ℕ, suc, ◌+◌, ◌≡◌, ◌≢◌, refl, ap, ◌∙◌, some, [], ◌∷◌, ◌++◌, All, Bytes, length, arith,
}
use tools_cxx.Base.Trace.{Marks, mark, find_marks, no_marks}

find_marks-append :
    (m : Marks) (i : ℕ) (s t : Bytes)
    → find_marks m i (s ++ t) ≡ find_marks (find_marks m i s) (i + length s) t
unfolding find_marks
find_marks-append m i [] t = ap (λ n. find_marks m n t) (omega arith)
find_marks-append m i (c ∷ s) t =
    find_marks-append (mark m i c) (suc i) s t
    ∙ ap (λ n. find_marks (find_marks (mark m i c) (suc i) s) n t) (omega arith)

-- Characters that are no plus signs leave the place of the last one, and the same for parentheses.
pub find_marks-plus :
    (m : Marks) (i : ℕ) (s : Bytes) → All (λ c. c ≢ b'+') s → (find_marks m i s).plus ≡ m.plus
unfolding find_marks
find_marks-plus m i [] none_in = refl
find_marks-plus m i (c ∷ s) (ne, none_in) =
    find_marks-plus (mark m i c) (suc i) s none_in ∙ ground (arith, ne)

pub find_marks-left_par :
    (m : Marks) (i : ℕ) (s : Bytes)
    → All (λ c. c ≢ b'(') s
    → (find_marks m i s).left_par ≡ m.left_par
unfolding find_marks
find_marks-left_par m i [] none_in = refl
find_marks-left_par m i (c ∷ s) (ne, none_in) =
    find_marks-left_par (mark m i c) (suc i) s none_in ∙ ground (arith, ne)

-- A string of a frame: in front of the last parenthesis, between it and the last plus sign, and behind.
pub record Parts : Type 0 where
  pub file : Bytes
  pub symbol : Bytes
  pub offset : Bytes

abbrev pub string_of : Parts → Bytes
string_of p = p.file ++ (b'(' ∷ (p.symbol ++ (b'+' ∷ p.offset)))

pub record IsParted (p : Parts) : Type 0 where
  pub symbol_par : All (λ c. c ≢ b'(') p.symbol
  pub offset_par : All (λ c. c ≢ b'(') p.offset
  pub offset_plus : All (λ c. c ≢ b'+') p.offset

module _ (p : Parts) (is : IsParted p) where
  pub find_marks-string_of :
      ((find_marks no_marks 0 (string_of p)).left_par ≡ some (length p.file))
      × ((find_marks no_marks 0 (string_of p)).plus ≡ some (length p.file + suc (length p.symbol)))
  unfolding find_marks
  find_marks-string_of =
      let m = find_marks no_marks 0 p.file in
      let opened = mark m (length p.file) b'(' in
      let named = find_marks opened (suc (length p.file)) p.symbol in
      let place = suc (length p.file) + length p.symbol in
      let marked = mark named place b'+' in
      let split : find_marks no_marks 0 (string_of p) ≡ find_marks marked (suc place) p.offset =
        find_marks-append no_marks 0 p.file (b'(' ∷ (p.symbol ++ (b'+' ∷ p.offset)))
        ∙ ap (λ n. find_marks m n (b'(' ∷ (p.symbol ++ (b'+' ∷ p.offset)))) (omega arith)
        ∙ find_marks-append opened (suc (length p.file)) p.symbol (b'+' ∷ p.offset) in
      (
        ap (λ n. n.left_par) split
            ∙ find_marks-left_par marked (suc place) p.offset is.offset_par
            ∙ find_marks-left_par opened (suc (length p.file)) p.symbol is.symbol_par,
        ap (λ n. n.plus) split
            ∙ find_marks-plus marked (suc place) p.offset is.offset_plus
            ∙ ap some (omega arith),
      )
