-- ===== src/Base/ProcessInfo.antt =====
-- tools/base/ProcessInfo.h and ProcessInfo.cpp, given what the operating system returns.
use tools_cxx.Prelude.{Bytes, codes, Option, none, some}
use tools_cxx.Prelude.Int.{ℤ}
use tools_cxx.Base.Timestamp.Text.{print_int}

-- `std::to_string` of what getpid(2) returns.
unfoldable pub get_pid_string : ℤ → Bytes
get_pid_string pid = print_int pid

-- `name` is the text that gethostname(2) writes into the 256 bytes, or `none` when it fails.
unfoldable pub get_hostname : Option Bytes → Bytes
get_hostname none = codes "unknownhost"
get_hostname (some name) = name
