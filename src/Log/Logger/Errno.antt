-- ===== src/Log/Logger/Errno.antt =====
-- LOG_SYSERR and LOG_SYSFATAL with an error number: `log` passes it where its format has `%s`.
use tools_cxx.Prelude.{
  ◌+◌, ◌<◌, ◌≡◌, ◌≢◌, refl, Bool, false, none, List, [], ◌++◌, Bytes, codes, arith, length, All,
  if◌then◌else◌,
}
use tools_cxx.Prelude.Int.{ℤ, pos}
use tools_cxx.Log.Buffer.{LogBuffer}
use tools_cxx.Log.Buffer.Text.{Holds}
use tools_cxx.Log.Format.Pieces.{Piece, IsFine, format_all, args_all, text_all}
use tools_cxx.Log.Format.Args.{Arg}
use tools_cxx.Log.Format.{fault, log_print}
use tools_cxx.Log.Format.Faults.{vprintf-wrong_type}
use tools_cxx.Log.Logger.Message.{head_prints, head_text}
use tools_cxx.Log.Logger.{
  LogLevel, error, fatal, Log, Context, log, log_of_error, log_once, log_sys_macro, print_errno,
  ◌>>=◌, is_zero,
}

abbrev pub level_of : Bool → LogLevel
level_of to_abort = if to_abort then fatal else error

errno_fault :
    (errno : ℤ) (b : LogBuffer) (shown : Bytes)
    → Holds 4000 b shown
    → length shown + 1 < 3999
    → print_errno errno b ≡ fault
unfolding print_errno
errno_fault errno b shown h room =
    vprintf-wrong_type 4000 b' ' (codes " (errno = %d)") errno [] b shown h (omega arith) room

log_faults :
    (l : Log) (c : Context) (ps : List Piece)
    → All IsFine ps
    → is_zero l.errno_save ≡ false
    → l.print ≡ log_print
    → length (head_text l.cur_level c ++ text_all ps) + 1 < 3999
    → log l c (format_all ps) (args_all ps) ≡ fault
unfolding log
log_faults l c ps fine ne fresh room =
    let (b1, b2, e1, e2, h2) = head_prints l.cur_level c ps fine in
    rw (fresh, e1, ◌>>=◌, e2, ◌>>=◌, ne, errno_fault l.errno_save b2 _ h2 room)

is_zero_ne : (i : ℤ) → i ≢ pos 0 → is_zero i ≡ false
is_zero_ne i ne = ground arith

log_once_fault :
    (l : Log) (c : Context) (fmt : Bytes) (args : List Arg)
    → log l c fmt args ≡ fault
    → log_once l c fmt args ≡ none
unfolding log_once
log_once_fault l c fmt args e = rw (e, log_once)

-- A system error message with a non-zero `errno` is undefined behaviour, whatever it says, as long as
-- the buffer has room behind its text: the error number is read as a string pointer.
pub log_sys_macro-faults :
    (to_abort : Bool) (errno : ℤ) (c : Context) (ps : List Piece)
    → All IsFine ps
    → errno ≢ pos 0
    → length (head_text (level_of to_abort) c ++ text_all ps) + 1 < 3999
    → log_sys_macro to_abort errno c (format_all ps) (args_all ps) ≡ none
unfolding log_sys_macro
log_sys_macro-faults to_abort errno c ps fine ne room =
    let l = log_of_error to_abort errno in
    log_once_fault l c (format_all ps) (args_all ps)
      (log_faults l c ps fine (is_zero_ne errno ne) refl room)
