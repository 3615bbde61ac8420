-- ===== src/Log/Logger/Message.antt =====
-- The line that a message puts out.
use tools_cxx.Prelude.{◌≡◌, refl, ◌∙◌, some, List, [], ◌∷◌, ◌++◌, Bytes, codes, arith, All, take}
use tools_cxx.Log.Buffer.{LogBuffer, to_string}
use tools_cxx.Log.Buffer.Text.{Holds, make-Holds}
use tools_cxx.Log.Format.Pieces.{
  Piece, plain, word, integer, IsFine, format_all, args_all, text_all, signed_text,
}
use tools_cxx.Log.Format.Text.{vprintf_prints}
use tools_cxx.Log.Format.Args.{Arg, str_arg}
use tools_cxx.Log.Format.{finished, vprintf, log_print}
use tools_cxx.Log.Logger.{
  LogLevel, debug, fatal, log_level_name, Log, log_of_level, Context, log, Event, output, flush,
  abort, destroy, log_once, ◌>>=◌,
}

-- The line's parts in front of and behind the text of the message.
abbrev pub head_text : LogLevel → Context → Bytes
head_text level c = c.now ++ b' ' ∷ (c.tid ++ b' ' ∷ (log_level_name level ++ b' ' ∷ []))

abbrev pub tail_text : Context → Bytes
tail_text c = codes " - " ++ (c.file ++ (codes ": " ++ (signed_text b' ' 0 c.line ++ b'\n' ∷ [])))

abbrev pub line_text : LogLevel → Context → Bytes → Bytes
line_text level c body = head_text level c ++ body ++ tail_text c

abbrev pub events_of : LogLevel → Bytes → List Event
events_of fatal line = output line ∷ flush ∷ abort ∷ []
events_of level line = output line ∷ []

log_print-Holds : Holds 4000 log_print []
unfolding log_print
log_print-Holds = make-Holds 4000 (omega arith)

head_pieces : LogLevel → Context → List Piece
head_pieces level c =
    word c.now
    ∷ plain b' '
    ∷ word c.tid
    ∷ plain b' '
    ∷ word (log_level_name level)
    ∷ plain b' '
    ∷ []

tail_pieces : Context → List Piece
tail_pieces c =
    plain b' '
    ∷ plain b'-'
    ∷ plain b' '
    ∷ word c.file
    ∷ plain b':'
    ∷ plain b' '
    ∷ integer c.line
    ∷ plain b'\n'
    ∷ []

-- The first two calls of `log`, on an object that has not printed.
pub head_prints :
    (level : LogLevel) (c : Context) (ps : List Piece)
    → All IsFine ps
    → (b1 : LogBuffer) × (b2 : LogBuffer) × (vprintf
          (codes "%s %s %s ")
          (str_arg c.now ∷ str_arg c.tid ∷ str_arg (log_level_name level) ∷ [])
          log_print
        ≡ finished b1)
      × (vprintf (format_all ps) (args_all ps) b1 ≡ finished b2)
      × Holds 4000 b2 (head_text level c ++ text_all ps)
unfolding head_pieces format_all args_all text_all
head_prints level c ps fine =
    let (b1, e1, h1) =
      vprintf_prints 4000 (head_pieces level c) log_print [] log_print-Holds (omega arith) in
    let (b2, e2, h2) = vprintf_prints 4000 ps b1 (head_text level c) h1 fine in (b1, b2, e1, e2, h2)

-- `log` with a saved `errno` of 0, step by step.
log_prints :
    (level : LogLevel) (c : Context) (ps : List Piece)
    → All IsFine ps
    → IsFine (integer c.line)
    → (b : LogBuffer) × (log (log_of_level level) c (format_all ps) (args_all ps) ≡ finished b)
      × Holds 4000 b (line_text level c (text_all ps))
unfolding log log_of_level tail_pieces format_all args_all text_all
log_prints level c ps fine line =
    let (b1, b2, e1, e2, h2) = head_prints level c ps fine in
    let (b3, e3, h3) = vprintf_prints 4000 (tail_pieces c) b2 _ h2 (omega arith) in
    (b3, rw (e1, ◌>>=◌, e2, ◌>>=◌, e3), h3)

destroy_lem : (level : LogLevel) (b : LogBuffer) → destroy level b ≡ events_of level (to_string b)
unfolding destroy
destroy_lem debug b = refl
destroy_lem fatal b = refl
destroy_lem level b = refl

pub log_once_finished :
    (l : Log) (c : Context) (fmt : Bytes) (args : List Arg) (b : LogBuffer)
    → log l c fmt args ≡ finished b
    → log_once l c fmt args ≡ some (destroy l.cur_level b)
unfolding log_once
log_once_finished l c fmt args b e = rw (e, log_once)

-- A message of level `level` puts out its line, cut off at 3999 bytes; a fatal one also flushes and
-- aborts, and no other does.
pub log_once-line :
    (level : LogLevel) (c : Context) (ps : List Piece)
    → All IsFine ps
    → IsFine (integer c.line)
    → log_once (log_of_level level) c (format_all ps) (args_all ps)
      ≡ some (events_of level (take 3999 (line_text level c (text_all ps))))
unfolding log_of_level
log_once-line level c ps fine line =
    let (b, e, h) = log_prints level c ps fine line in
    log_once_finished (log_of_level level) c (format_all ps) (args_all ps) b e
    ∙ rw (destroy_lem level b, h.shows)
