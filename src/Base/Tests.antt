-- ===== src/Base/Tests.antt =====
-- A time stamp of the third day, and a thread.
use tools_cxx.Prelude.{ℕ, ◌+◌, ◌*◌, ◌≤◌, ◌<◌, ◌≡◌, refl, ◌++◌, ◌∷◌, [], Bytes, codes, arith}
use tools_cxx.Prelude.Int.{pos}
use tools_cxx.Base.Timestamp.{Timestamp, get_period, quotient, remainder}
use tools_cxx.Base.Timestamp.Text.{to_string, print_int, print_zeros, decimal}
use tools_cxx.Base.Timestamp.Text.Reading.{IsText, read_digits, read_digits-to_string}
use tools_cxx.Base.CurrentThread.{new_thread, get_tid, get_tid_string}
use tools_cxx.Base.CurrentThread.Cached.{after_calls, get_tid-same}
use tools_cxx.Base.Timestamp.Laws.{period_bounds}

abbrev third_day : Timestamp
third_day = record { microseconds_since_epoch = pos 200000000000 }

third_day_period :
    (d : ℕ) × (get_period third_day ≡ pos d)
    × (d * 86400000000 ≤ 200000000000)
    × (200000000000 < (d + 1) * 86400000000)
third_day_period = period_bounds third_day 200000000000 refl

read_digits-to_string_example :
    (s m : Bytes) × (to_string third_day ≡ s ++ b'.' ∷ m)
    × IsText 200000000000 s m
    × (read_digits (to_string third_day) 0 ≡ 200000000000)
read_digits-to_string_example = read_digits-to_string 200000000000 (omega arith)

third_day_text : to_string third_day ≡ codes "200000.000000"
unfolding to_string quotient remainder print_int print_zeros decimal
third_day_text = refl

thread_1000 :
    ((get_tid (after_calls new_thread (1000 ∷ 7 ∷ [])) 8).0 ≡ 1000)
    × (read_digits (get_tid_string (after_calls new_thread (1000 ∷ 7 ∷ [])) 8).0 0 ≡ 1000)
thread_1000 = get_tid-same 999 (7 ∷ []) 8 (omega arith)
