-- ===== src/Timer/State.antt =====
-- tools/timer/Timer.h, Timer.cpp, TimerId.h, TimerScheduler.h and TimerScheduler.cpp: timers, the
-- scheduler's state, and the time that the timerfd is set to.
pub mod Wait
use tools_cxx.Prelude.{ℕ, suc, Bool, ◌&&◌, ◌||◌, not, Option, List, ltb, if◌then◌else◌}
use tools_cxx.Prelude.Int.{ℤ, pos, ltb_ℤ, ◌*ℤ◌}
use tools_cxx.Base.Timestamp.{
  Timestamp, Seconds, invalid, before, add_time, get_difference, quotient, remainder,
  microseconds_per_second,
}

-- A callback is known by its name.
pub record Timer : Type 0 where
  pub callback : ℕ
  pub expiration : Timestamp
  pub interval : Seconds
  pub repeat : Bool
  pub sequence : ℕ

-- The constructor; `count` is the number of timers created before.
abbrev pub make : ℕ → Timestamp → Seconds → ℕ → Timer
make callback when interval count = record {
  callback = callback;
  expiration = when;
  interval = interval;
  repeat = interval.is_positive;
  sequence = suc count;
}

unfoldable pub restart : Timer → Timestamp → Timer
restart t now = record t { expiration = if t.repeat then add_time now t.interval else invalid }

pub record TimerId : Type 0 where
  pub timer : ℕ
  pub sequence : ℕ

-- `TimerEntry` and `ActiveTimerEntry` are pairs, ordered as `std::pair` orders them.
pub record TimerEntry : Type 0 where
  pub when : Timestamp
  pub timer : ℕ

pub record ActiveTimerEntry : Type 0 where
  pub timer : ℕ
  pub sequence : ℕ

unfoldable pub entry_before : TimerEntry → TimerEntry → Bool
entry_before a b = before a.when b.when || (not (before b.when a.when) && ltb a.timer b.timer)

unfoldable pub active_before : ActiveTimerEntry → ActiveTimerEntry → Bool
active_before a b = ltb a.timer b.timer || (not (ltb b.timer a.timer) && ltb a.sequence b.sequence)

-- What other threads leave for the scheduler's own.
pub data Functor : Type 0 where
  inserting : ℕ → Functor
  cancelling : TimerId → Functor

-- `armed` is the time that the timerfd was last set to and has not yet gone off for, and `eventfd` the
-- counter of the eventfd.
pub record TimerScheduler : Type 0 where
  pub memory : ℕ → Option Timer
  pub created : ℕ
  pub timers : List TimerEntry
  pub active : List ActiveTimerEntry
  pub canceling : List ActiveTimerEntry
  pub calling : Bool
  pub armed : Option Timestamp
  pub pending : List Functor
  pub eventfd : ℕ

pub record Timespec : Type 0 where
  pub tv_sec : ℤ
  pub tv_nsec : ℤ

-- The time to wait, at least 100 microseconds, at the clock reading `now`.
unfoldable pub get_time_from_now : Timestamp → Timestamp → Timespec
get_time_from_now when now =
    let microseconds = get_difference when now in
    let wait = if ltb_ℤ microseconds (pos 100) then pos 100 else microseconds in
    record {
      tv_sec = quotient wait microseconds_per_second;
      tv_nsec = remainder wait microseconds_per_second *ℤ pos 1000;
    }
