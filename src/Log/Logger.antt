-- ===== src/Log/Logger.antt =====
-- tools/log/log.h and log.cpp: one `Log` object for each message, with the static threshold and the
-- LOG_ macros. The clock, the thread id's text and `basename` are arguments; what the output and flush
-- functions and `abort` do is a list of events.
pub mod Message
pub mod Errno
pub mod Report
use tools_cxx.Prelude.{
  ℕ, ◌≡◌, Bool, true, false, Option, none, some, List, [], ◌∷◌, ◌++◌, Bytes, codes, leb, ◌==◌,
  if◌then◌else◌,
}
use tools_cxx.Prelude.Int.{ℤ}
use tools_cxx.Log.Buffer.{LogBuffer, to_string}
use tools_cxx.Log.Format.Args.{Arg, int_arg, str_arg}
use tools_cxx.Log.Format.{Outcome, finished, fault, no_fuel, vprintf, log_print}

pub data LogLevel : Type 0 where
  debug info warn error fatal : LogLevel

-- The enumeration's values, by which levels are compared.
abbrev pub rank : LogLevel → ℕ
rank debug = 0
rank info = 1
rank warn = 2
rank error = 3
rank fatal = 4

abbrev pub log_level_name : LogLevel → Bytes
log_level_name debug = codes "[DEBUG]"
log_level_name info = codes "[INFO]"
log_level_name warn = codes "[WARN]"
log_level_name error = codes "[ERROR]"
log_level_name fatal = codes "[FATAL]"

pub record Log : Type 0 where
  pub cur_level : LogLevel
  pub errno_save : ℤ
  pub print : LogBuffer

-- `Log(LogLevel)`, and `Log(bool toAbort)`, which saves `errno`.
unfoldable pub log_of_level : LogLevel → Log
log_of_level level = record { cur_level = level; errno_save = ℤ.pos 0; print = log_print }

unfoldable pub log_of_error : Bool → ℤ → Log
log_of_error to_abort errno = record {
  cur_level = if to_abort then fatal else error;
  errno_save = errno;
  print = log_print;
}

-- What the message shows besides its text.
pub record Context : Type 0 where
  pub now : Bytes
  pub tid : Bytes
  pub file : Bytes
  pub line : ℤ

infixl 5 ◌>>=◌
abbrev pub ◌>>=◌ : Outcome → (LogBuffer → Outcome) → Outcome
finished b >>= f = f b
fault >>= f = fault
no_fuel >>= f = no_fuel

abbrev pub is_zero : ℤ → Bool
is_zero (ℤ.pos n) = n == 0
is_zero (ℤ.negsuc n) = false

-- `m_print.printf(" %s (errno = %d)", m_errnoSave)`
unfoldable pub print_errno : ℤ → LogBuffer → Outcome
print_errno errno b = vprintf (codes " %s (errno = %d)") (int_arg errno ∷ []) b

unfoldable pub log : Log → Context → Bytes → List Arg → Outcome
unfolding print_errno
log l c fmt args = do
  head ←
      vprintf (codes "%s %s %s ")
        (str_arg c.now ∷ str_arg c.tid ∷ str_arg (log_level_name l.cur_level) ∷ []) l.print
  body ← vprintf fmt args head
  body ← if is_zero l.errno_save then finished body else print_errno l.errno_save body
  vprintf (codes " - %s: %d\n") (str_arg c.file ∷ int_arg c.line ∷ []) body

pub data Event : Type 0 where
  output : Bytes → Event
  flush abort : Event

-- The destructor.
unfoldable pub destroy : LogLevel → LogBuffer → List Event
destroy fatal b = output (to_string b) ∷ flush ∷ abort ∷ []
destroy level b = output (to_string b) ∷ []

-- A temporary `Log` that logs one message and is destroyed; `none` is undefined behaviour.
unfoldable pub log_once : Log → Context → Bytes → List Arg → Option (List Event)
log_once l c fmt args = elim (log l c fmt args) [
  | finished b ↦ some (destroy l.cur_level b)
  | _ ↦ none
]

-- LOG_DEBUG, LOG_INFO, LOG_WARN test the threshold; LOG_ERR and LOG_FATAL do not.
unfoldable pub log_macro : LogLevel → LogLevel → Context → Bytes → List Arg → Option (List Event)
unfolding log_of_level
log_macro threshold level c fmt args =
    if leb 3 (rank level)
    then log_once (log_of_level level) c fmt args
    else if leb (rank threshold) (rank level)
    then log_once (log_of_level level) c fmt args
    else some []

-- LOG_SYSERR and LOG_SYSFATAL.
unfoldable pub log_sys_macro : Bool → ℤ → Context → Bytes → List Arg → Option (List Event)
unfolding log_of_error
log_sys_macro to_abort errno c fmt args = log_once (log_of_error to_abort errno) c fmt args

-- `getenv("LOG_DEBUG")` and `getenv("LOG_WARN")` as whether they are set.
unfoldable pub init_threshold_level : Bool → Bool → LogLevel
init_threshold_level has_debug has_warn =
    if has_debug then debug else if has_warn then warn else info

abbrev eq_bytes : Bytes → Bytes → Bool
eq_bytes [] [] = true
eq_bytes [] (d ∷ t) = false
eq_bytes (c ∷ s) [] = false
eq_bytes (c ∷ s) (d ∷ t) = if c == d then eq_bytes s t else false

-- `set_level(const std::string&)`: any other text leaves the threshold as it is.
unfoldable pub set_level : LogLevel → Bytes → LogLevel
set_level threshold level =
    if eq_bytes level (codes "LOG_DEBUG")
    then debug
    else if eq_bytes level (codes "LOG_WARN")
    then warn
    else threshold
