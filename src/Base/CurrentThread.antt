-- ===== src/Base/CurrentThread.antt =====
-- tools/base/CurrentThread.h and CurrentThread.cpp: a thread's number, which it asks for once.
pub mod Cached
use tools_cxx.Prelude.{ℕ, ◌==◌, if◌then◌else◌, Bytes, []}
use tools_cxx.Prelude.Int.{pos}
use tools_cxx.Base.Timestamp.Text.{print_int, cut_off}

-- `t_cachedTid` and `t_tidString`.
pub record CurrentThread : Type 0 where
  pub cached_tid : ℕ
  pub tid_string : Bytes

abbrev pub new_thread : CurrentThread
new_thread = record { cached_tid = 0; tid_string = [] }

-- `tid` is what the system call gettid(2) would return.
unfoldable pub cache_tid : CurrentThread → ℕ → CurrentThread
cache_tid s tid =
    if s.cached_tid == 0
    then record { cached_tid = tid; tid_string = cut_off 32 (print_int (pos tid)) }
    else s

unfoldable pub get_tid : CurrentThread → ℕ → ℕ × CurrentThread
get_tid s tid = ((cache_tid s tid).cached_tid, cache_tid s tid)

unfoldable pub get_tid_string : CurrentThread → ℕ → Bytes × CurrentThread
get_tid_string s tid = ((cache_tid s tid).tid_string, cache_tid s tid)
