-- ===== src/Log/Logger/Report.antt =====
-- LOG_SYSERR and LOG_SYSFATAL as the rest of the program uses them: with a fixed text and no arguments.
use tools_cxx.Prelude.{
  ◌+◌, ◌<◌, ◌≤◌, ◌≡◌, ◌≢◌, refl, ap, Bool, true, none, some, List, [], ◌∷◌, ◌++◌, Bytes, arith,
  length, length-append, All, sym, subst, ◌==◌, ◌&&◌, not, if◌then◌else◌,
}
use tools_cxx.Prelude.Int.{ℤ, pos}
use tools_cxx.Log.Format.Pieces.{Piece, plain, IsFine, format_all, args_all, text_all}
use tools_cxx.Log.Logger.{
  Context, LogLevel, debug, info, warn, error, fatal, log_level_name, log_sys_macro,
}
use tools_cxx.Log.Logger.Errno.{level_of, log_sys_macro-faults}
use tools_cxx.Log.Logger.Message.{head_text}

-- What a message makes of the program: it goes on, it ends, or it has no defined behaviour.
pub data Report : Type 0 where
  logged ended undefined : Report

unfoldable pub report : Bool → ℤ → Context → Bytes → Report
report to_abort errno c text = elim (log_sys_macro to_abort errno c text []) [
  | some events ↦ if to_abort then ended else logged
  | none ↦ undefined
]

-- The text has no `%`.
abbrev pub is_plain : Bytes → Bool
is_plain [] = true
is_plain (c ∷ text) = not (c == b'%') && is_plain text

-- The texts of the time and of the thread id are no longer than their buffers in `log` allow.
abbrev pub IsShort : Context → Type 0
IsShort c = length c.now + length c.tid ≤ 94

abbrev pieces_of : Bytes → List Piece
pieces_of [] = []
pieces_of (c ∷ text) = plain c ∷ pieces_of text

format_lem : (text : Bytes) → format_all (pieces_of text) ≡ text
unfolding format_all
format_lem [] = refl
format_lem (c ∷ text) = ap (λ t. c ∷ t) (format_lem text)

text_lem : (text : Bytes) → text_all (pieces_of text) ≡ text
unfolding text_all
text_lem [] = refl
text_lem (c ∷ text) = ap (λ t. c ∷ t) (text_lem text)

args_lem : (text : Bytes) → args_all (pieces_of text) ≡ []
unfolding args_all
args_lem [] = refl
args_lem (c ∷ text) = args_lem text

pieces-IsFine : (text : Bytes) → is_plain text ≡ true → All IsFine (pieces_of text)
pieces-IsFine [] e = tt
pieces-IsFine (c ∷ text) e = (ground arith, pieces-IsFine text (ground arith))

level-length : (level : LogLevel) → length (log_level_name level) ≤ 7
level-length debug = omega arith
level-length info = omega arith
level-length warn = omega arith
level-length error = omega arith
level-length fatal = omega arith

head-length :
    (to_abort : Bool) (c : Context) → IsShort c → length (head_text (level_of to_abort) c) ≤ 104
head-length to_abort c short =
    let name = log_level_name (level_of to_abort) in
    omega (
      arith,
      length-append name (b' ' ∷ []),
      length-append c.tid (b' ' ∷ (name ++ b' ' ∷ [])),
      length-append c.now (b' ' ∷ (c.tid ++ b' ' ∷ (name ++ b' ' ∷ []))),
      level-length (level_of to_abort),
      short,
    )

-- With a non-zero `errno` a message has no defined behaviour.
pub report-undefined :
    (to_abort : Bool) (errno : ℤ) (c : Context) (text : Bytes)
    → errno ≢ pos 0
    → IsShort c
    → is_plain text ≡ true
    → length text ≤ 200
    → report to_abort errno c text ≡ undefined
unfolding report
report-undefined to_abort errno c text ne short flat small = rw (report, faulty) refl
  where
    room : length (head_text (level_of to_abort) c ++ text_all (pieces_of text)) + 1 < 3999
    room =
        subst (λ t. length (head_text (level_of to_abort) c ++ t) + 1 < 3999) (sym (text_lem text))
          (omega (
            arith,
            length-append (head_text (level_of to_abort) c) text,
            head-length to_abort c short,
            small,
          ))

    faulty : log_sys_macro to_abort errno c text [] ≡ none
    faulty =
        subst (λ t. log_sys_macro to_abort errno c t [] ≡ none) (format_lem text)
          (subst (λ a. log_sys_macro to_abort errno c (format_all (pieces_of text)) a ≡ none)
            (args_lem text)
            (log_sys_macro-faults to_abort errno c (pieces_of text) (pieces-IsFine text flat) ne
              room))
