-- ===== src/Log/Tests.antt =====
-- Runs of the formatter, and the theorems on the log at concrete inputs.
use tools_cxx.Prelude.{
  ℕ, ◌*◌, ◌≤◌, ◌<◌, ◌≡◌, ◌≢◌, refl, true, false, none, some, List, [], ◌∷◌, ◌++◌, Bytes, codes,
  arith, length,
}
use tools_cxx.Prelude.Int.{pos, negsuc}
use tools_cxx.Base.Timestamp.{Timestamp}
use tools_cxx.Log.Buffer.{LogBuffer, make, append, append_char, to_string}
use tools_cxx.Log.Buffer.Text.{Holds, make-Holds, append-Holds}
use tools_cxx.Log.Number.{lower, printf_num, pad, digit_char, digits, num_string_size}
use tools_cxx.Log.Number.Digits.{value, digits-spell}
use tools_cxx.Log.Number.Numeral.{numeral}
use tools_cxx.Log.Number.Padding.{number_text, printf_num-Holds}
use tools_cxx.Log.Format.Args.{int_arg, ulong_arg, take_int, take_ulong}
use tools_cxx.Log.Format.Pieces.{Piece, plain, word, number, format_all, args_all, text_all}
use tools_cxx.Log.Format.Text.{vprintf_prints}
use tools_cxx.Log.Format.Total.{vprintf_ends}
use tools_cxx.Log.Format.Faults.{vprintf-trailing}
use tools_cxx.Log.Format.{Outcome, finished, fault, no_fuel, vprintf, put_signed}
use tools_cxx.Log.Logger.{Context, log_sys_macro}
use tools_cxx.Log.Logger.Errno.{log_sys_macro-faults}
use tools_cxx.Log.File
use tools_cxx.Base.Timestamp.{quotient, remainder}
use tools_cxx.Base.Timestamp.Text.{to_formatted_string, print_int, print_zeros, decimal}
use tools_cxx.Base.ProcessInfo.{get_hostname, get_pid_string}
use tools_cxx.Prelude.Int.{◌+ℤ◌}
use tools_cxx.Log.File.{Host, get_file_name, Call, append_all}
use tools_cxx.Log.File.Contents.{total_text, calls_text, total_text-append_all}
use tools_cxx.Log.File.Rolling.{IsValid, append_all-sizes}

abbrev small : LogBuffer
small = make 16

small-Holds : Holds 16 small []
small-Holds = make-Holds 16 (omega arith)

shown_by : Outcome → Bytes
shown_by (finished b) = to_string b
shown_by _ = []

-- `%05d|%xl` of -42 and 255, and the same cut off at 15 bytes.
formats :
    shown_by (vprintf (codes "%05d|%xl") (int_arg (negsuc 41) ∷ ulong_arg 255 ∷ []) (make 64))
    ≡ codes "-00042|0xff"
unfolding shown_by vprintf make to_string append append_char digit_char pad printf_num put_signed
    take_int take_ulong
formats = refl

pieces : List Piece
pieces = word (codes "fd ") ∷ number true 5 (negsuc 41) ∷ plain b'!' ∷ []

append-Holds_example : Holds 16 (append small (codes "abc") 3) (codes "abc")
append-Holds_example = append-Holds 16 small [] small-Holds (codes "abc") 3 refl

spelled_255 :
    (s : Bytes) × (digits num_string_size lower 255 [] ≡ some s)
    × (value lower s 0 ≡ 255)
    × (length s ≤ 20)
    × (0 < length s)
spelled_255 = digits-spell lower 255 (omega arith)

printf_num-Holds_example :
    (b : LogBuffer) × (printf_num small 255 lower b'0' 4 ≡ some b)
    × Holds 16 b (number_text lower b'0' 4 255)
    × (value lower (numeral 20 lower 255) 0 ≡ 255)
printf_num-Holds_example = printf_num-Holds 16 small [] 255 lower b'0' 4 small-Holds (omega arith)

vprintf_ends_example : vprintf (codes "100%") [] small ≢ no_fuel
vprintf_ends_example = vprintf_ends (codes "100%") [] small

vprintf_prints_example :
    (b : LogBuffer) × (vprintf (format_all pieces) (args_all pieces) small ≡ finished b)
    × Holds 16 b (text_all pieces)
vprintf_prints_example =
    vprintf_prints 16 pieces small [] small-Holds (unfold pieces in omega arith)

vprintf-trailing_example : vprintf (codes "100" ++ b'%' ∷ []) [] small ≡ fault
vprintf-trailing_example =
    vprintf-trailing 16 (codes "100") [] small [] small-Holds (omega arith) (omega arith)

abbrev context : Context
context = record {
  now = codes "20200101 00:00:00.000000";
  tid = codes "7";
  file = codes "a.cpp";
  line = pos 12;
}

log_sys_macro-faults_example :
    log_sys_macro false (pos 11) context (format_all (plain b'x' ∷ [])) (args_all (plain b'x' ∷ []))
    ≡ none
unfolding text_all
log_sys_macro-faults_example =
    log_sys_macro-faults false (pos 11) context (plain b'x' ∷ []) (omega arith) (λ e. cc)
      (omega arith)

abbrev host : Host
host = record {
  hostname = some (codes "box");
  pid = pos 9;
  localtime = λ t. record {
    tm_year = pos 120;
    tm_mon = pos 0;
    tm_mday = pos 1;
    tm_hour = pos 0;
    tm_min = pos 0;
    tm_sec = pos 0;
  };
}

-- The name of a file that is opened at the new year of 2020.
file_name :
    get_file_name host (codes "app") (record { microseconds_since_epoch = pos 5 })
    ≡ codes "app.20200101-000000.box.9.log"
unfolding get_file_name to_formatted_string quotient remainder print_int print_zeros decimal
    get_hostname get_pid_string ◌+ℤ◌
file_name = refl

abbrev at_second : ℕ → Timestamp
at_second n = record { microseconds_since_epoch = pos (n * 1000000) }

abbrev two_calls : List Call
two_calls =
    record { line = codes "first\n"; len = 6; now = at_second 1; later = at_second 1 }
    ∷ record { line = codes "second\n"; len = 7; now = at_second 2; later = at_second 2 }
    ∷ []

total_text-append_all_example :
    total_text (append_all host (File.make host (codes "log") 8 3 1024 (at_second 1)) two_calls)
    ≡ calls_text two_calls
total_text-append_all_example =
    total_text-append_all host (codes "log") 8 3 1024 (at_second 1) two_calls

append_all-sizes_example :
    IsValid 7 (append_all host (File.make host (codes "log") 8 3 1024 (at_second 1)) two_calls)
append_all-sizes_example =
    append_all-sizes host (codes "log") 8 3 1024 7 (at_second 1) two_calls (omega arith)
