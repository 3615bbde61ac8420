-- ===== src/Log/File.antt =====
-- tools/log/LogFile.h and LogFile.cpp: lines are appended to a file that is replaced when it is too
-- large or a new day begins. The clock readings, the host's name, the process id and the local time of
-- a time are arguments. Sizes, counts and intervals are not negative. Every stream opens and every write
-- and flush of a stream succeeds: the code does not look at the state of `m_fout`, and the lines that a
-- stream loses which does not open or does not write are not modelled.
pub mod Contents
pub mod Rolling
use tools_cxx.Prelude.{
  ℕ, suc, ◌+◌, Bool, true, false, Option, not, List, [], ◌∷◌, ◌++◌, Bytes, codes, ltb, leb,
  if◌then◌else◌, take, length,
}
use tools_cxx.Prelude.Int.{ℤ, pos, ◌-ℤ◌, ltb_ℤ, eqb_ℤ}
use tools_cxx.Base.Timestamp.Text.{Tm, to_formatted_string}
use tools_cxx.Base.ProcessInfo.{get_hostname, get_pid_string}
use tools_cxx.Base.Timestamp.{Timestamp, get_seconds_since_epoch, get_period}

-- What a stream has written since it was opened for appending, in the file of that name.
pub record Segment : Type 0 where
  pub name : Bytes
  pub written : Bytes

-- `m_fout` is the stream on `open_name`: `flushed` has reached the file, `buffered` has not. The
-- streams before it are in `closed`, the newest first; closing a stream flushes it.
pub record LogFile : Type 0 where
  pub basename : Bytes
  pub roll_size : ℕ
  pub flush_interval : ℕ
  pub check_every_n : ℕ
  pub count : ℕ
  pub last_roll : ℤ
  pub last_flush : ℤ
  pub start_period : ℤ
  pub written_bytes : ℕ
  pub closed : List Segment
  pub open_name : Bytes
  pub flushed : Bytes
  pub buffered : Bytes

-- The machine that the process runs on.
pub record Host : Type 0 where
  pub hostname : Option Bytes  -- what gethostname(2) writes, if it does not fail
  pub pid : ℤ
  pub localtime : ℤ → Tm

unfoldable pub get_file_name : Host → Bytes → Timestamp → Bytes
get_file_name host basename now =
    basename
    ++ (codes "."
        ++ (to_formatted_string host.localtime now false
            ++ (codes "."
                ++ (get_hostname host.hostname
                    ++ (codes "." ++ (get_pid_string host.pid ++ codes ".log"))))))

-- The stream that is replaced is closed by its destructor.
unfoldable pub roll_file : Host → LogFile → Timestamp → LogFile
roll_file host f now = record f {
  last_roll = get_seconds_since_epoch now;
  last_flush = get_seconds_since_epoch now;
  start_period = get_period now;
  closed = record { name = f.open_name; written = f.flushed ++ f.buffered } ∷ f.closed;
  open_name = get_file_name host f.basename now;
  flushed = [];
  buffered = [];
  written_bytes = 0;
}

-- The constructor; no stream is open before its `roll_file`.
unfoldable pub make : Host → Bytes → ℕ → ℕ → ℕ → Timestamp → LogFile
make host basename roll_size flush_interval check_every_n now = record {
  basename = basename;
  roll_size = roll_size;
  flush_interval = flush_interval;
  check_every_n = check_every_n;
  count = 0;
  last_roll = get_seconds_since_epoch now;
  last_flush = get_seconds_since_epoch now;
  start_period = get_period now;
  written_bytes = 0;
  closed = [];
  open_name = get_file_name host basename now;
  flushed = [];
  buffered = [];
}

-- `m_fout->write(logLine, len)` and the count of its bytes.
unfoldable pub write : LogFile → Bytes → ℕ → LogFile
write f line len = record f {
  buffered = f.buffered ++ take len line;
  written_bytes = f.written_bytes + len;
}

-- `m_fout->flush()`, the body of `flush`.
unfoldable pub flush : LogFile → LogFile
flush f = record f { flushed = f.flushed ++ f.buffered; buffered = [] }

-- The common end of the two checks: a new file on a new day, then a flush.
unfoldable pub check_file : Host → LogFile → Timestamp → Timestamp → LogFile
unfolding roll_file flush
check_file host f now later =
    let g = if eqb_ℤ (get_period now) f.start_period then f else roll_file host f later in
    flush (record g { last_flush = get_seconds_since_epoch now })

abbrev pub is_late : LogFile → Timestamp → Bool
is_late f now = ltb_ℤ (pos f.flush_interval) (get_seconds_since_epoch now -ℤ f.last_flush)

-- The two checks, on the counter and on the time since the last flush.
unfoldable pub check : Host → LogFile → Timestamp → Timestamp → LogFile
unfolding check_file
check host f now later =
    if leb f.check_every_n f.count
    then check_file host (record f { count = 0 }) now later
    else if is_late f now
    then check_file host f now later
    else f

-- `append_unlocked`; `now` is its reading of the clock, and `later` that of a `roll_file`.
unfoldable pub append_unlocked : Host → LogFile → Bytes → ℕ → Timestamp → Timestamp → LogFile
unfolding write roll_file check
append_unlocked host f line len now later =
    let w = write f line len in
    if ltb w.roll_size w.written_bytes
    then roll_file host w later
    else check host (record w { count = suc w.count }) now later

-- A call of `append`, which holds the lock: the bytes with their count, and the clock.
pub record Call : Type 0 where
  pub line : Bytes
  pub len : ℕ
  pub now : Timestamp
  pub later : Timestamp

unfoldable pub append : Host → LogFile → Call → LogFile
unfolding append_unlocked
append host f c = append_unlocked host f c.line c.len c.now c.later

unfoldable pub append_all : Host → LogFile → List Call → LogFile
append_all host f [] = f
append_all host f (c ∷ cs) = append_all host (append host f c) cs
