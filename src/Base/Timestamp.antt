-- ===== src/Base/Timestamp.antt =====
-- tools/base/Timestamp.h and Timestamp.cpp: microseconds since the epoch. An `int64_t` is the integer
-- it stands for; a sum that leaves its range is undefined in C++, and exact here.
pub mod Laws
pub mod Text
use tools_cxx.Prelude.{ℕ, zero, suc, ◌+◌, ◌*◌, ◌/◌, ◌%◌, Bool, ◌&&◌, ltb, leb}
use tools_cxx.Prelude.Int.{ℤ, pos, negsuc, ◌+ℤ◌, ◌-ℤ◌, ◌*ℤ◌, ltb_ℤ, eqb_ℤ}

pub record Timestamp : Type 0 where
  pub microseconds_since_epoch : ℤ

-- A `double` of seconds, by what the program reads off it: `static_cast<int64_t>(second * 1000000)`,
-- and whether it is greater than 0.0.
pub record Seconds : Type 0 where
  pub micros : ℤ
  pub is_positive : Bool

abbrev pub microseconds_per_second : ℕ
microseconds_per_second = 1000 * 1000

abbrev pub seconds_per_day : ℕ
seconds_per_day = 60 * 60 * 24

-- C++ division and remainder by a positive constant: towards zero.
abbrev pub neg : ℕ → ℤ
neg zero = pos zero
neg (suc n) = negsuc n

unfoldable pub quotient : ℤ → ℕ → ℤ
quotient (pos n) d = pos (n / d)
quotient (negsuc n) d = neg (suc n / d)

unfoldable pub remainder : ℤ → ℕ → ℤ
remainder (pos n) d = pos (n % d)
remainder (negsuc n) d = neg (suc n % d)

unfoldable pub is_valid : Timestamp → Bool
is_valid t = ltb_ℤ (pos 0) t.microseconds_since_epoch

unfoldable pub get_seconds_since_epoch : Timestamp → ℤ
unfolding quotient
get_seconds_since_epoch t = quotient t.microseconds_since_epoch microseconds_per_second

unfoldable pub get_period : Timestamp → ℤ
unfolding quotient
get_period t =
    quotient (quotient t.microseconds_since_epoch microseconds_per_second) seconds_per_day

unfoldable pub add_time : Timestamp → Seconds → Timestamp
add_time t second = record {
  microseconds_since_epoch = t.microseconds_since_epoch +ℤ second.micros;
}

unfoldable pub get_difference : Timestamp → Timestamp → ℤ
get_difference t other = t.microseconds_since_epoch -ℤ other.microseconds_since_epoch

-- `Timestamp::invalid()` and the default constructor.
abbrev pub invalid : Timestamp
invalid = record { microseconds_since_epoch = pos 0 }

-- `now()` from the two fields of `gettimeofday`.
unfoldable pub of_timeval : ℤ → ℤ → Timestamp
of_timeval seconds micros = record {
  microseconds_since_epoch = seconds *ℤ pos microseconds_per_second +ℤ micros;
}

unfoldable pub eqb : Timestamp → Timestamp → Bool
eqb s t = eqb_ℤ s.microseconds_since_epoch t.microseconds_since_epoch

abbrev pub before : Timestamp → Timestamp → Bool
before s t = ltb_ℤ s.microseconds_since_epoch t.microseconds_since_epoch
